-- ===== src/Exec/Alu.antt =====
-- `do_alu_op`, `do_incdec` and `do_shift`.
pub mod Spec
pub mod Tests
pub mod Laws
pub mod MultiWord
use topgun.Common.{
  ℕ, ◌+◌, ◌*◌, ◌/◌, ◌^◌, bit_and, bit_or, bit_xor, Bool, true, false, if◌then◌else◌, ◌==◌, ltb, u8,
  u32, sub32,
}
use topgun.Common.Bits.{bit}
use topgun.Isa.{DecodedOp, OperandSize, sz_8}
use topgun.Isa.Codes.{
  alu_add, alu_or, alu_adc, alu_sbb, alu_and, alu_sub, alu_xor, alu_cmp, alu_multi, id_inc, shl,
  shr, carry, overflow,
}
use topgun.Machine.{Machine}
use topgun.Machine.Outcome.{M, hang, undefined, pure, stop, ◌>>=◌, ◌>>◌}
use topgun.Machine.Board.{Board}
use topgun.Machine.Flags.{get_flag, cond_flag}
use topgun.Exec.Operand.{read_source, write_dest}
use topgun.Exec.SetFlags.{set_sf, set_cf, set_zf, set_of_add, set_of_sub, set_af, set_pf}

-- The flags after AND, OR, XOR and TEST.
unfoldable pub logic_flags : OperandSize → ℕ → M (Unit {0})
logic_flags size res = do
  cond_flag carry false
  cond_flag overflow false
  set_zf size res
  set_sf size res
  set_pf res

-- The flags after ADD and ADC, once the overflow flag is set; after SUB, SBB and CMP the same.
unfoldable pub arith_flags : OperandSize → ℕ → ℕ → ℕ → M (Unit {0})
arith_flags size a b res = do
  set_sf size res
  set_zf size res
  set_af a b res
  set_cf size res
  set_pf res

unfoldable pub add_result : OperandSize → ℕ → ℕ → ℕ → M ℕ
add_result size a b carry_in = do
  let res = u32 (carry_in + (a + b))
  set_of_add size a b res
  arith_flags size a b res
  pure res

unfoldable pub sub_result : OperandSize → ℕ → ℕ → ℕ → M ℕ
sub_result size a b carry_in = do
  let res = sub32 (sub32 a b) carry_in
  set_of_sub size a b res
  arith_flags size a b res
  pure res

unfoldable pub logic_result : OperandSize → ℕ → M ℕ
logic_result size res = do logic_flags size res; pure res

-- The result of one operation, with its flags set; `size` is that of the first source.
unfoldable pub alu_result : ℕ → OperandSize → ℕ → ℕ → M ℕ
alu_result op size a b =
    if op == alu_and
    then logic_result size (bit_and a b)
    else if op == alu_xor
    then logic_result size (bit_xor a b)
    else if op == alu_adc
    then (get_flag carry >>= λ c. add_result size a b c)
    else if op == alu_add
    then add_result size a b 0
    else if op == alu_sbb
    then (get_flag carry >>= λ c. sub_result size a b c)
    else if op == alu_cmp
    then sub_result size a b 0
    else if op == alu_sub
    then sub_result size a b 0
    else if op == alu_or
    then logic_result size (bit_or a b)
    else stop hang

-- SHL sets the carry for 8-bit operands only. A count of 32 or more is undefined in C.
unfoldable pub shl_carry : OperandSize → ℕ → M (Unit {0})
shl_carry sz_8 res = cond_flag carry (bit res 8 == 1)
shl_carry _ res = pure tt

unfoldable pub shift_result : ℕ → OperandSize → ℕ → ℕ → M ℕ
shift_result op size value shamt =
    if op == shl
    then (if ltb shamt 32
        then (shl_carry size (u32 (value * 2 ^ shamt)) >> pure (u32 (value * 2 ^ shamt)))
        else stop undefined)
    else if op == shr
    then (if ltb shamt 32 then pure (value / 2 ^ shamt) else stop undefined)
    else stop hang

module _ (b : Board) where
  -- One operation other than `ALU_MULTI`; CMP alone writes no result.
  unfoldable pub alu_single : ℕ → DecodedOp → DecodedOp → DecodedOp → M (Unit {0})
  alu_single op dst src1 src2 = do
    v1 ← read_source b src1
    v2 ← read_source b src2
    res ← alu_result op src1.size (u32 v1) (u32 v2)
    if op == alu_cmp then pure tt else write_dest b dst res

  -- `ALU_MULTI` takes the operation from the reg field, which is below 8.
  unfoldable pub do_alu_op : ℕ → DecodedOp → DecodedOp → DecodedOp → ℕ → M (Unit {0})
  do_alu_op op dst src1 src2 reg =
      if op == alu_multi then alu_single reg dst src1 src2 else alu_single op dst src1 src2

  unfoldable pub do_incdec : ℕ → DecodedOp → DecodedOp → M (Unit {0})
  do_incdec version dst src1 = do
    v ← read_source b src1
    let value = u32 v
    let result = if version == id_inc then u32 (value + 1) else sub32 value 1
    if version == id_inc
        then set_of_add src1.size value 1 result
        else set_of_sub src1.size value 1 result
    set_zf src1.size result
    set_pf result
    set_sf src1.size result
    set_af value 1 result
    write_dest b dst result

  unfoldable pub do_shift : ℕ → DecodedOp → DecodedOp → DecodedOp → M (Unit {0})
  do_shift op dst src1 src2 = do
    shamt ← read_source b src2
    value ← read_source b src1
    res ← shift_result op dst.size (u32 value) (u8 shamt)
    write_dest b dst res
