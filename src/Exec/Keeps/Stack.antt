-- ===== src/Exec/Keeps/Stack.antt =====
-- The stack.
use topgun.Common.{ℕ}
use topgun.Isa.{DecodedOp}
use topgun.Machine.{Machine}
use topgun.Machine.Board.{Board}
use topgun.Machine.Stable.{Stable, Keeps}
use topgun.Machine.Stable.Writes.{set_reg-Stable}
use topgun.Exec.Keeps.Data.{data_rules}
use topgun.Exec.Stack.{
  drop_esp, raise_esp, i386_push, i386_pop, push_reg, pop_reg, pop_reg_16, do_push, do_pop,
  do_enter, do_leave, do_pushf, do_popf, do_pusha, do_popa, do_call_near, i386_ret_near,
}

drop_esp-Stable : (n : ℕ) (m : Machine) → Stable m (drop_esp n m)
unfolding drop_esp
drop_esp-Stable n m = set_reg-Stable _ _ m

raise_esp-Stable : (n : ℕ) (m : Machine) → Stable m (raise_esp n m)
unfolding raise_esp
raise_esp-Stable n m = set_reg-Stable _ _ m

ruleset stack_rules = (data_rules, drop_esp-Stable, raise_esp-Stable)

module _ (b : Board) where
  pub i386_push-Keeps : (v : ℕ) → Keeps (i386_push b v)
  unfolding i386_push
  i386_push-Keeps v = search stack_rules depth 12

  pub i386_pop-Keeps : Keeps (i386_pop b)
  unfolding i386_pop
  i386_pop-Keeps = search stack_rules depth 12

  push_reg-Keeps : (r : ℕ) → Keeps (push_reg b r)
  unfolding push_reg
  push_reg-Keeps r = search (stack_rules, i386_push-Keeps) depth 12

  pop_reg-Keeps : (r : ℕ) → Keeps (pop_reg b r)
  unfolding pop_reg
  pop_reg-Keeps r = search (stack_rules, i386_pop-Keeps) depth 12

  pop_reg_16-Keeps : (r : ℕ) → Keeps (pop_reg_16 b r)
  unfolding pop_reg_16
  pop_reg_16-Keeps r = search (stack_rules, i386_pop-Keeps) depth 12

ruleset push_rules =
    (stack_rules, i386_push-Keeps, i386_pop-Keeps, push_reg-Keeps, pop_reg-Keeps, pop_reg_16-Keeps)

module _ (b : Board) where
  pub do_push-Keeps : (src : DecodedOp) → Keeps (do_push b src)
  unfolding do_push
  do_push-Keeps src = search push_rules depth 12

  pub do_pop-Keeps : (dst : DecodedOp) → Keeps (do_pop b dst)
  unfolding do_pop
  do_pop-Keeps dst = search push_rules depth 12

  pub do_enter-Keeps : (src1 src2 : DecodedOp) → Keeps (do_enter b src1 src2)
  unfolding do_enter
  do_enter-Keeps src1 src2 = search push_rules depth 16

  pub do_leave-Keeps : Keeps (do_leave b)
  unfolding do_leave
  do_leave-Keeps = search push_rules depth 12

  pub do_pushf-Keeps : Keeps (do_pushf b)
  unfolding do_pushf
  do_pushf-Keeps = search push_rules depth 12

  pub do_popf-Keeps : Keeps (do_popf b)
  unfolding do_popf
  do_popf-Keeps = search push_rules depth 12

  pub do_pusha-Keeps : Keeps (do_pusha b)
  unfolding do_pusha
  do_pusha-Keeps = search push_rules depth 30

  pub do_popa-Keeps : Keeps (do_popa b)
  unfolding do_popa
  do_popa-Keeps = search push_rules depth 30

  pub do_call_near-Keeps : (src : DecodedOp) → Keeps (do_call_near b src)
  unfolding do_call_near
  do_call_near-Keeps src = search push_rules depth 16

  pub i386_ret_near-Keeps : (src : DecodedOp) → Keeps (i386_ret_near b src)
  unfolding i386_ret_near
  i386_ret_near-Keeps src = search push_rules depth 16
