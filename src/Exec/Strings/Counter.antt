-- ===== src/Exec/Strings/Counter.antt =====
-- The loop of `do_rep_string` ends, since a round leaves ECX alone until the loop counts it down.
use topgun.Common.{ℕ, ◌⊎◌, ◌≤◌, ◌≡◌, true, sub32}
use topgun.Isa.Codes.{r_ecx}
use topgun.Machine.{Machine, set_reg}
use topgun.Machine.Board.{Board}
use topgun.Exec.Strings.{rep_breaks}
use topgun.Exec.Strings.Spares.{is_known}

-- How the loop ends: ECX is 0, or the condition to break holds; and ECX has not grown.
abbrev pub Ended : ℕ → ℕ → Machine → Machine → Type 0
Ended sub_type cond m n =
    (n.regs r_ecx ≤ m.regs r_ecx) × ((n.regs r_ecx ≡ 0) ⊎ (rep_breaks sub_type cond n ≡ true))

module _ (b : Board) where
  module _ (sub_type size cond : ℕ) (known : is_known sub_type ≡ true) where
    abbrev counted_down : Machine → Machine
    counted_down n = set_reg r_ecx (sub32 (n.regs r_ecx) 1) n
