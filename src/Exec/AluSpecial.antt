-- ===== src/Exec/AluSpecial.antt =====
-- `do_alu_special`: TEST, NOT, NEG, and the multiplications and divisions, on `uint64_t`.
pub mod Laws
use topgun.Common.{
  ℕ, ◌+◌, ◌-◌, ◌*◌, ◌/◌, ◌%◌, ◌^◌, bit_and, Bool, not, ◌&&◌, if◌then◌else◌, ◌==◌, ltb, leb, u64,
}
use mathlib.Core.Bool.{xor}
use topgun.Common.Bits.{bit}
use topgun.Isa.{DecodedOp, OperandSize, sz_8, sz_16, sz_32, write_dx}
use topgun.Isa.Codes.{
  alu_test, alu_not, alu_neg, alu_mul, alu_imul, alu_div, alu_idiv, carry, ah, r_edx,
}
use topgun.Machine.{Machine, set_reg}
use topgun.Machine.Outcome.{M, hang, undefined, pure, stop, modify, ◌>>=◌, ◌>>◌}
use topgun.Machine.Board.{Board}
use topgun.Machine.Flags.{cond_flag}
use topgun.Machine.Regs.{set_reg_8, set_reg_16}
use topgun.Exec.Operand.{read_source, write_dest}
use topgun.Exec.SetFlags.{set_sf, set_zf, set_pf}
use topgun.Exec.Alu.{logic_flags}

-- `num_bits`.
unfoldable pub num_bits : OperandSize → ℕ
num_bits sz_8 = 8
num_bits sz_32 = 32
num_bits _ = 16

-- The low `w` bits read as a signed number: its sign, its distance from 0, and the number as a
-- `uint64_t`.
abbrev pub is_negative : ℕ → ℕ → Bool
is_negative w x = bit x (w - 1) == 1

abbrev pub magnitude : ℕ → ℕ → ℕ
magnitude w x = if is_negative w x then 2 ^ w - x % 2 ^ w else x % 2 ^ w

abbrev pub negated : Bool → ℕ → ℕ
negated neg n = if neg then u64 (2 ^ 64 - n) else n

abbrev pub signed_64 : ℕ → ℕ → ℕ
signed_64 w x = negated (is_negative w x) (magnitude w x)

-- Division of C on a dividend of `w` bits and a divisor of half as many, which truncates towards
-- zero. Division by zero is undefined, and so is a quotient that overflows a type of 32 or 64 bits
-- (narrower operands are promoted to `int`).
unfoldable pub signed_div : ℕ → ℕ → ℕ → M (ℕ × ℕ)
signed_div w x y =
    let q = magnitude w x / magnitude (w / 2) y in
    let r = magnitude w x % magnitude (w / 2) y in
    let neg = xor (is_negative w x) (is_negative (w / 2) y) in
    if magnitude (w / 2) y == 0
    then stop undefined
    else if ltb 16 w && (not neg && leb (2 ^ (w - 1)) q)
    then stop undefined
    else pure (negated neg q, negated (is_negative w x) r)

-- The result and what goes to AH, DX or EDX; `size` is that of the first source.
unfoldable pub special_result : ℕ → ℕ → OperandSize → ℕ → ℕ → M (ℕ × ℕ)
special_result op bits size a b =
    if op == alu_imul
    then (let res = u64 (signed_64 bits a * signed_64 bits b) in pure (res, res / 2 ^ bits))
    else if op == alu_idiv
    then signed_div (2 * bits) a b
    else if op == alu_not
    then pure (2 ^ 64 - 1 - a, 0)
    else if op == alu_neg
    then (do
      let res = u64 (2 ^ 64 - a)
      cond_flag carry (a == 0)
      set_sf size res
      set_zf size res
      set_pf res
      pure (res, 0))
    else if op == alu_mul
    then (let res = u64 (a * b) in pure (res, res / 2 ^ bits))
    else if op == alu_div
    then (if b == 0 then stop undefined else pure (a / b, a % b))
    else if op == alu_test
    then (logic_flags size (bit_and a b) >> pure (bit_and a b, 0))
    else stop hang

unfoldable pub write_high : OperandSize → ℕ → M (Unit {0})
write_high sz_8 rem = modify (set_reg_8 ah rem)
write_high sz_16 rem = modify (set_reg_16 r_edx rem)
write_high sz_32 rem = modify (set_reg r_edx rem)
write_high _ rem = stop hang

module _ (b : Board) where
  unfoldable pub do_alu_special : ℕ → DecodedOp → DecodedOp → DecodedOp → ℕ → M (Unit {0})
  do_alu_special op dst src1 src2 wb = do
    val_src1 ← read_source b src1
    val_src2 ← read_source b src2
    (res, rem) ← special_result op (num_bits dst.size) src1.size val_src1 val_src2
    write_dest b dst res
    if bit_and wb write_dx == 0 then pure tt else write_high dst.size rem
