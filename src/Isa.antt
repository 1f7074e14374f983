-- ===== src/Isa.antt =====
-- The vocabulary of `common/i386.h`: operation types, operand types and sizes, the rows of the
-- instruction tables (`i386_operand`, `i386_op`) and decoded operands (`decoded_op`).
pub mod Codes
pub mod Table
pub mod Parity
use topgun.Common.{ℕ, List, [], ◌∷◌}

-- The operation types, in the order of the header; `invalid` is its -1.
pub data OpType : Type 0 where
  alu push pop pop_sr extended unary incdec pusha popa alu_special string_op repez repne : OpType
  segment_override op_sz_override addr_sz_override jump xchg mov mov_to_cr mov_to_sr lea : OpType
  ld_fp lock retn retf call_near call_far clr_flag st_flag int_op iret cbw_cwde : OpType
  multiplexed_ff io_in io_out cwd_cdq loop pushf popf xlat shift jump_far sahf lahf : OpType
  enter leave cmc invalid : OpType

pub data OperandType : Type 0 where
  none rm_modrm reg_modrm mem_modrm creg_modrm seg_reg_modrm const_reg const_seg_reg : OperandType
  imm constant edx_eax ip_rel simm offset far_ptr : OperandType

pub data OperandSize : Type 0 where
  sz_8 sz_1632 sz_16 sz_32 sz_816 sz_3248 sz_48 sz_3264 sz_64 : OperandSize

-- The types that a decoded operand can have.
pub data DecodedType : Type 0 where
  none mem register seg_reg ctrlreg imm edx_eax : DecodedType

-- `i386_operand`.
pub record Operand : Type 0 where
  pub type : OperandType
  pub size : OperandSize
  pub value : ℕ

-- `i386_op`, less its field `privilege`, which is 0 in every row and never read.
pub record Op : Type 0 where
  pub op_type : OpType
  pub sub_type : ℕ
  pub flags : ℕ
  pub dest : Operand
  pub src1 : Operand
  pub src2 : Operand

-- `decoded_op`.
pub record DecodedOp : Type 0 where
  pub type : DecodedType
  pub id : ℕ
  pub size : OperandSize
  pub sr : ℕ

-- Initialisers of the tables.
abbrev pub operand : OperandType → OperandSize → ℕ → Operand
operand t s v = record { type = t; size = s; value = v }

-- `{NONE}`, which is all zeros.
abbrev pub no_operand : Operand
no_operand = operand OperandType.none sz_8 0

abbrev pub op : OpType → ℕ → ℕ → Operand → Operand → Operand → Op
op t sub f d s1 s2 = record {
  op_type = t;
  sub_type = sub;
  flags = f;
  dest = d;
  src1 = s1;
  src2 = s2;
}

-- A row that gives no operands.
abbrev pub bare : OpType → ℕ → Op
bare t sub = op t sub 0 no_operand no_operand no_operand

-- `{INVALID}` and `UNDEFINED`.
abbrev pub undefined_op : Op
undefined_op = bare invalid 0

-- The flags of a row.
abbrev pub use_modrm : ℕ
use_modrm = 1

abbrev pub weird : ℕ
weird = 2

abbrev pub str_sz_8 : ℕ
str_sz_8 = 4

abbrev pub str_sz_1632 : ℕ
str_sz_1632 = 8

abbrev pub write_dx : ℕ
write_dx = 0x1010

module _ {ℓ} {A : Type ℓ} where
  -- A read of an array that is given as a list; `d` stands where the array ends.
  abbrev pub get_or : List A → ℕ → A → A
  get_or [] i d = d
  get_or (x ∷ xs) Prim.Native.Nat.ℕ.zero d = x
  get_or (x ∷ xs) (Prim.Native.Nat.ℕ.suc i) d = get_or xs i d
