-- ===== src/Machine/Stable/Writes.antt =====
-- Assignments to registers, segments, flags and memory keep the step invariant.
use topgun.Common.{ℕ, arith}
use topgun.Machine.{
  Machine, set_eip, set_old_eip, set_eflags, set_reg, set_cr, set_selector, set_base, set_byte,
}
use topgun.Machine.Regs.{set_reg_8, set_reg_16}
use topgun.Machine.Stable.{Stable}

module _ (v : ℕ) (m : Machine) where
  pub set_eip-Stable : Stable m (set_eip v m)
  unfolding set_eip
  set_eip-Stable = record { same = ground arith; fits = λ w. ground (arith, w) }

  pub set_old_eip-Stable : Stable m (set_old_eip v m)
  unfolding set_old_eip
  set_old_eip-Stable = record { same = ground arith; fits = λ w. ground (arith, w) }

  pub set_eflags-Stable : Stable m (set_eflags v m)
  unfolding set_eflags
  set_eflags-Stable = record { same = ground arith; fits = λ w. ground (arith, w) }

module _ (i v : ℕ) (m : Machine) where
  pub set_reg-Stable : Stable m (set_reg i v m)
  unfolding set_reg
  set_reg-Stable = record { same = ground arith; fits = λ w. ground (arith, w.regs_fit) }

  pub set_cr-Stable : Stable m (set_cr i v m)
  unfolding set_cr
  set_cr-Stable = record { same = ground arith; fits = λ w. ground (arith, w.cr_fit) }

  pub set_selector-Stable : Stable m (set_selector i v m)
  unfolding set_selector
  set_selector-Stable = record { same = ground arith; fits = λ w. grind arith }

  pub set_base-Stable : Stable m (set_base i v m)
  unfolding set_base
  set_base-Stable = record { same = ground arith; fits = λ w. grind arith }

  pub set_byte-Stable : Stable m (set_byte i v m)
  unfolding set_byte
  set_byte-Stable = record { same = ground arith; fits = λ w. ground (arith, w) }

module _ (i v : ℕ) (m : Machine) where
  pub set_reg_8-Stable : Stable m (set_reg_8 i v m)
  unfolding set_reg_8
  set_reg_8-Stable = set_reg-Stable _ _ m

  pub set_reg_16-Stable : Stable m (set_reg_16 i v m)
  unfolding set_reg_16
  set_reg_16-Stable = set_reg-Stable _ _ m

pub ruleset writes_rules = (
  set_eip-Stable, set_old_eip-Stable, set_eflags-Stable, set_reg-Stable, set_cr-Stable,
  set_selector-Stable, set_base-Stable, set_byte-Stable, set_reg_8-Stable, set_reg_16-Stable,
)
