-- ===== src/Isa/Table/Group8.antt =====
-- Rows 0x80 to 0xbf of `InstructionTable` (`common/i386.h`).
use topgun.Common.{List, [], ◌∷◌}
use topgun.Isa.{
  Op, alu, alu_special, bare, call_far, cbw_cwde, const_reg, cwd_cdq, far_ptr, lahf, lea, mem_modrm,
  mov, mov_to_sr, no_operand, offset, op, operand, pop, popf, pushf, rm_modrm, sahf, seg_reg_modrm,
  simm, str_sz_1632, str_sz_8, string_op, sz_16, sz_1632, sz_3248, sz_3264, sz_8, sz_816,
  undefined_op, use_modrm, xchg, OperandType,
}
use topgun.Isa.Codes.{
  ah, alu_multi, alu_test, bh, bl, ch, cl, cmps, dh, dl, lods, movs, r_eax, r_ebp, r_ebx, r_ecx,
  r_edi, r_edx, r_esi, r_esp, scas, stos,
}
use topgun.Isa.Table.Operands.{al8, eax1632, imm1632, imm8, on_source, reg1632, reg8, rm1632, rm8}

abbrev pub row_80 : List Op
row_80 =
    (op alu alu_multi use_modrm rm8 rm8 imm8)
    ∷ (op alu alu_multi use_modrm rm1632 rm1632 imm1632)
    ∷ (op alu alu_multi use_modrm rm8 rm8 imm8)
    ∷ (op alu alu_multi use_modrm rm1632 rm1632 (operand simm sz_8 0))
    ∷ (op alu_special alu_test use_modrm no_operand rm8 reg8)
    ∷ (op alu_special alu_test use_modrm no_operand rm1632 reg1632)
    ∷ (op xchg 0 use_modrm no_operand rm8 reg8)
    ∷ (op xchg 0 use_modrm no_operand rm1632 reg1632)
    ∷ (op mov 0 use_modrm rm8 reg8 no_operand)
    ∷ (op mov 0 use_modrm rm1632 reg1632 no_operand)
    ∷ (op mov 0 use_modrm reg8 rm8 no_operand)
    ∷ (op mov 0 use_modrm reg1632 rm1632 no_operand)
    ∷ (op mov 0 use_modrm rm1632 (operand seg_reg_modrm sz_16 0) no_operand)
    ∷ (op lea 0 use_modrm reg1632 (operand mem_modrm sz_1632 0) no_operand)
    ∷ (op mov_to_sr 0 use_modrm (operand seg_reg_modrm sz_16 0) (operand rm_modrm sz_16 0)
        no_operand)
    ∷ (op pop 0 use_modrm rm1632 no_operand no_operand)
    ∷ []

abbrev pub row_90 : List Op
row_90 =
    (op xchg 0 0 no_operand eax1632 eax1632)
    ∷ (op xchg 0 0 no_operand eax1632 (operand const_reg sz_1632 r_ecx))
    ∷ (op xchg 0 0 no_operand eax1632 (operand const_reg sz_1632 r_edx))
    ∷ (op xchg 0 0 no_operand eax1632 (operand const_reg sz_1632 r_ebx))
    ∷ (op xchg 0 0 no_operand eax1632 (operand const_reg sz_1632 r_esp))
    ∷ (op xchg 0 0 no_operand eax1632 (operand const_reg sz_1632 r_ebp))
    ∷ (op xchg 0 0 no_operand eax1632 (operand const_reg sz_1632 r_esi))
    ∷ (op xchg 0 0 no_operand eax1632 (operand const_reg sz_1632 r_edi))
    ∷ (op cbw_cwde 0 0 eax1632 (operand const_reg sz_816 r_eax) no_operand)
    ∷ (op cwd_cdq 0 0 (operand OperandType.edx_eax sz_3264 0) eax1632 no_operand)
    ∷ (on_source call_far 0 (operand far_ptr sz_3248 0))
    ∷ undefined_op
    ∷ (bare pushf 0)
    ∷ (bare popf 0)
    ∷ (bare sahf 0)
    ∷ (bare lahf 0)
    ∷ []

abbrev pub row_a0 : List Op
row_a0 =
    (op mov 0 0 al8 (operand offset sz_8 0) no_operand)
    ∷ (op mov 0 0 eax1632 (operand offset sz_1632 0) no_operand)
    ∷ (op mov 0 0 (operand offset sz_8 0) al8 no_operand)
    ∷ (op mov 0 0 (operand offset sz_1632 0) eax1632 no_operand)
    ∷ (op string_op movs str_sz_8 no_operand no_operand no_operand)
    ∷ (op string_op movs str_sz_1632 no_operand no_operand no_operand)
    ∷ (op string_op cmps str_sz_8 no_operand no_operand no_operand)
    ∷ (op string_op stos str_sz_1632 no_operand no_operand no_operand)
    ∷ (op alu_special alu_test 0 no_operand al8 imm8)
    ∷ (op alu_special alu_test 0 no_operand eax1632 imm1632)
    ∷ (op string_op stos str_sz_8 no_operand no_operand no_operand)
    ∷ (op string_op stos str_sz_1632 no_operand no_operand no_operand)
    ∷ (op string_op lods str_sz_8 no_operand no_operand no_operand)
    ∷ (op string_op lods str_sz_1632 no_operand no_operand no_operand)
    ∷ (op string_op scas str_sz_8 no_operand no_operand no_operand)
    ∷ (op string_op scas str_sz_1632 no_operand no_operand no_operand)
    ∷ []

abbrev pub row_b0 : List Op
row_b0 =
    (op mov 0 0 al8 imm8 no_operand)
    ∷ (op mov 0 0 (operand const_reg sz_8 cl) imm8 no_operand)
    ∷ (op mov 0 0 (operand const_reg sz_8 dl) imm8 no_operand)
    ∷ (op mov 0 0 (operand const_reg sz_8 bl) imm8 no_operand)
    ∷ (op mov 0 0 (operand const_reg sz_8 ah) imm8 no_operand)
    ∷ (op mov 0 0 (operand const_reg sz_8 ch) imm8 no_operand)
    ∷ (op mov 0 0 (operand const_reg sz_8 dh) imm8 no_operand)
    ∷ (op mov 0 0 (operand const_reg sz_8 bh) imm8 no_operand)
    ∷ (op mov 0 0 eax1632 imm1632 no_operand)
    ∷ (op mov 0 0 (operand const_reg sz_1632 r_ecx) imm1632 no_operand)
    ∷ (op mov 0 0 (operand const_reg sz_1632 r_edx) imm1632 no_operand)
    ∷ (op mov 0 0 (operand const_reg sz_1632 r_ebx) imm1632 no_operand)
    ∷ (op mov 0 0 (operand const_reg sz_1632 r_esp) imm1632 no_operand)
    ∷ (op mov 0 0 (operand const_reg sz_1632 r_ebp) imm1632 no_operand)
    ∷ (op mov 0 0 (operand const_reg sz_1632 r_esi) imm1632 no_operand)
    ∷ (op mov 0 0 (operand const_reg sz_1632 r_edi) imm1632 no_operand)
    ∷ []
