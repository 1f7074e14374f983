-- ===== src/Isa/Table/Operands.antt =====
-- The operands that most rows of the table are made of.
use topgun.Common.{ℕ}
use topgun.Isa.{
  OpType, Op, Operand, OperandType, op, operand, no_operand, rm_modrm, reg_modrm, const_reg, ip_rel,
  sz_8, sz_1632,
}
use topgun.Isa.Codes.{r_eax}

abbrev pub rm8 : Operand
rm8 = operand rm_modrm sz_8 0

abbrev pub rm1632 : Operand
rm1632 = operand rm_modrm sz_1632 0

abbrev pub reg8 : Operand
reg8 = operand reg_modrm sz_8 0

abbrev pub reg1632 : Operand
reg1632 = operand reg_modrm sz_1632 0

abbrev pub imm8 : Operand
imm8 = operand OperandType.imm sz_8 0

abbrev pub imm1632 : Operand
imm1632 = operand OperandType.imm sz_1632 0

abbrev pub al8 : Operand
al8 = operand const_reg sz_8 r_eax

abbrev pub eax1632 : Operand
eax1632 = operand const_reg sz_1632 r_eax

abbrev pub rel8 : Operand
rel8 = operand ip_rel sz_8 0

-- A row with a first source and nothing else.
abbrev pub on_source : OpType → ℕ → Operand → Op
on_source t sub s = op t sub 0 no_operand s no_operand
