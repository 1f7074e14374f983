-- ===== src/Isa/Table/Low.antt =====
-- Rows 0x00 to 0x3f of `InstructionTable` (`common/i386.h`).
use topgun.Common.{List, [], ◌∷◌}
use topgun.Isa.{
  Op, alu, bare, const_seg_reg, extended, no_operand, op, operand, pop_sr, push, segment_override,
  sz_16, unary, use_modrm,
}
use topgun.Isa.Codes.{
  alu_adc, alu_add, alu_and, alu_cmp, alu_or, alu_sbb, alu_sub, alu_xor, cs, ds, es, ss,
}
use topgun.Isa.Table.Operands.{al8, eax1632, imm1632, imm8, on_source, reg1632, reg8, rm1632, rm8}

abbrev pub row_00 : List Op
row_00 =
    (op alu alu_add use_modrm rm8 rm8 reg8)
    ∷ (op alu alu_add use_modrm rm1632 rm1632 reg1632)
    ∷ (op alu alu_add use_modrm reg8 reg8 rm8)
    ∷ (op alu alu_add use_modrm reg1632 reg1632 rm1632)
    ∷ (op alu alu_add 0 al8 al8 imm8)
    ∷ (op alu alu_add 0 eax1632 eax1632 imm1632)
    ∷ (on_source push 0 (operand const_seg_reg sz_16 es))
    ∷ (op pop_sr 0 0 (operand const_seg_reg sz_16 es) no_operand no_operand)
    ∷ (op alu alu_or use_modrm rm8 rm8 reg8)
    ∷ (op alu alu_or use_modrm rm1632 rm1632 reg1632)
    ∷ (op alu alu_or use_modrm reg8 reg8 rm8)
    ∷ (op alu alu_or use_modrm reg1632 reg1632 rm1632)
    ∷ (op alu alu_or 0 al8 al8 imm8)
    ∷ (op alu alu_or 0 eax1632 eax1632 imm1632)
    ∷ (on_source push 0 (operand const_seg_reg sz_16 cs))
    ∷ (bare extended 0)
    ∷ []

abbrev pub row_10 : List Op
row_10 =
    (op alu alu_adc use_modrm rm8 rm8 reg8)
    ∷ (op alu alu_adc use_modrm rm1632 rm1632 reg1632)
    ∷ (op alu alu_adc use_modrm reg8 reg8 rm8)
    ∷ (op alu alu_adc use_modrm reg1632 reg1632 rm1632)
    ∷ (op alu alu_adc 0 al8 al8 imm8)
    ∷ (op alu alu_adc 0 eax1632 eax1632 imm1632)
    ∷ (on_source push 0 (operand const_seg_reg sz_16 ss))
    ∷ (op pop_sr 0 0 (operand const_seg_reg sz_16 ss) no_operand no_operand)
    ∷ (op alu alu_sbb use_modrm rm8 rm8 reg8)
    ∷ (op alu alu_sbb use_modrm rm1632 rm1632 reg1632)
    ∷ (op alu alu_sbb use_modrm reg8 reg8 rm8)
    ∷ (op alu alu_sbb use_modrm reg1632 reg1632 rm1632)
    ∷ (op alu alu_sbb 0 al8 al8 imm8)
    ∷ (op alu alu_sbb 0 eax1632 eax1632 imm1632)
    ∷ (on_source push 0 (operand const_seg_reg sz_16 ds))
    ∷ (op pop_sr 0 0 (operand const_seg_reg sz_16 ds) no_operand no_operand)
    ∷ []

abbrev pub row_20 : List Op
row_20 =
    (op alu alu_and use_modrm rm8 rm8 reg8)
    ∷ (op alu alu_and use_modrm rm1632 rm1632 reg1632)
    ∷ (op alu alu_and use_modrm reg8 reg8 rm8)
    ∷ (op alu alu_and use_modrm reg1632 reg1632 rm1632)
    ∷ (op alu alu_and 0 al8 al8 imm8)
    ∷ (op alu alu_and 0 eax1632 eax1632 imm1632)
    ∷ (bare segment_override es)
    ∷ (op unary 0 0 al8 al8 no_operand)
    ∷ (op alu alu_sub use_modrm rm8 rm8 reg8)
    ∷ (op alu alu_sub use_modrm rm1632 rm1632 reg1632)
    ∷ (op alu alu_sub use_modrm reg8 reg8 rm8)
    ∷ (op alu alu_sub use_modrm reg1632 reg1632 rm1632)
    ∷ (op alu alu_sub 0 al8 al8 imm8)
    ∷ (op alu alu_sub 0 eax1632 eax1632 imm1632)
    ∷ (bare segment_override cs)
    ∷ (op unary 1 0 al8 al8 no_operand)
    ∷ []

abbrev pub row_30 : List Op
row_30 =
    (op alu alu_xor use_modrm rm8 rm8 reg8)
    ∷ (op alu alu_xor use_modrm rm1632 rm1632 reg1632)
    ∷ (op alu alu_xor use_modrm reg8 reg8 rm8)
    ∷ (op alu alu_xor use_modrm reg1632 reg1632 rm1632)
    ∷ (op alu alu_xor 0 al8 al8 imm8)
    ∷ (op alu alu_xor 0 eax1632 eax1632 imm1632)
    ∷ (bare segment_override ss)
    ∷ (op unary 2 0 al8 al8 no_operand)
    ∷ (op alu alu_cmp use_modrm no_operand rm8 reg8)
    ∷ (op alu alu_cmp use_modrm no_operand rm1632 reg1632)
    ∷ (op alu alu_cmp use_modrm no_operand reg8 rm8)
    ∷ (op alu alu_cmp use_modrm no_operand reg1632 rm1632)
    ∷ (op alu alu_cmp 0 no_operand al8 imm8)
    ∷ (op alu alu_cmp 0 no_operand eax1632 imm1632)
    ∷ (bare segment_override ds)
    ∷ (op unary 3 0 al8 al8 no_operand)
    ∷ []
