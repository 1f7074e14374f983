-- ===== src/Exec/Jump.antt =====
-- Jumps, LOOP, and the instructions that write one flag.
pub mod Compare
use topgun.Common.{ℕ, Bool, true, not, ◌&&◌, ◌||◌, if◌then◌else◌, ◌==◌, u16, sub32}
use topgun.Isa.{DecodedOp}
use topgun.Isa.Codes.{
  carry, parity, zero_flag, sign, overflow, jo, jno, jb, jae, je, jne, jbe, ja, js, jns, jp, jnp,
  jl, jge, jle, jg, always, jcxz, loop_normal, loope, loopne, r_ecx,
}
use topgun.Machine.{Machine, set_eip, set_reg}
use topgun.Machine.Outcome.{M, undefined, pure, gets, stop, modify, ◌>>=◌, ◌>>◌}
use topgun.Machine.Board.{Board}
use topgun.Machine.Flags.{get_bit, get_flag, cond_flag}
use topgun.Machine.Regs.{wide_operand}
use topgun.Exec.Operand.{read_source}

-- `GET_FLAG` used as a condition.
abbrev pub on : ℕ → Machine → Bool
on flag m = get_bit flag m.eflags == 1

-- SF and OF differ.
abbrev pub less : Machine → Bool
less m = not (get_bit sign m.eflags == get_bit overflow m.eflags)

unfoldable pub cx_is_zero : Machine → Bool
cx_is_zero m = if wide_operand m then m.regs r_ecx == 0 else u16 (m.regs r_ecx) == 0

-- The function has no return for a condition that is not in the list.
unfoldable pub jump_condition : ℕ → M Bool
jump_condition condition =
    if condition == jo
    then gets (on overflow)
    else if condition == jno
    then gets (λ m. not (on overflow m))
    else if condition == jb
    then gets (on carry)
    else if condition == jae
    then gets (λ m. not (on carry m))
    else if condition == je
    then gets (on zero_flag)
    else if condition == jne
    then gets (λ m. not (on zero_flag m))
    else if condition == jbe
    then gets (λ m. on carry m || on zero_flag m)
    else if condition == ja
    then gets (λ m. not (on carry m) && not (on zero_flag m))
    else if condition == js
    then gets (on sign)
    else if condition == jns
    then gets (λ m. not (on sign m))
    else if condition == jp
    then gets (on parity)
    else if condition == jnp
    then gets (λ m. not (on parity m))
    else if condition == jl
    then gets less
    else if condition == jge
    then gets (λ m. not (less m))
    else if condition == jle
    then gets (λ m. on zero_flag m || less m)
    else if condition == jg
    then gets (λ m. not (on zero_flag m) && not (less m))
    else if condition == always
    then pure true
    else if condition == jcxz
    then gets cx_is_zero
    else stop undefined

-- The condition of `do_loop` once ECX is not zero.
unfoldable pub loop_taken : ℕ → Machine → Bool
loop_taken type m =
    (type == loop_normal)
    || (type == loopne && not (on zero_flag m))
    || (type == loope && on zero_flag m)

module _ (b : Board) where
  unfoldable pub do_near_jump : DecodedOp → ℕ → M (Unit {0})
  do_near_jump src condition = do
    taken ← jump_condition condition
    if taken then (read_source b src >>= λ target. modify (set_eip target)) else pure tt

  unfoldable pub do_loop : ℕ → DecodedOp → M (Unit {0})
  do_loop type src = do
    loop_dest ← read_source b src
    modify (λ m. set_reg r_ecx (sub32 (m.regs r_ecx) 1) m)
    taken ← gets (λ m. not (m.regs r_ecx == 0) && loop_taken type m)
    if taken then modify (set_eip loop_dest) else pure tt

unfoldable pub do_clear_flag : ℕ → M (Unit {0})
do_clear_flag flag = cond_flag flag Bool.false

unfoldable pub do_set_flag : ℕ → M (Unit {0})
do_set_flag flag = cond_flag flag true

unfoldable pub do_cmc : M (Unit {0})
do_cmc = do c ← get_flag carry; cond_flag carry (c == 0)
