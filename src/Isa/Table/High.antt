-- ===== src/Isa/Table/High.antt =====
-- Rows 0xc0 to 0xff of `InstructionTable` (`common/i386.h`).
use topgun.Common.{◌+◌, List, [], ◌∷◌}
use topgun.Isa.{
  Op, alu_special, bare, call_near, clr_flag, cmc, const_reg, constant, enter, far_ptr, int_op,
  io_in, io_out, ip_rel, iret, jump, jump_far, ld_fp, leave, lock, loop, mem_modrm, mov,
  multiplexed_ff, no_operand, op, operand, repez, repne, retf, retn, shift, st_flag, sz_16, sz_1632,
  sz_3248, sz_8, undefined_op, use_modrm, weird, xlat, OperandType,
}
use topgun.Isa.Codes.{
  alu_multi, always, carry, cl, direction, ds, es, interrupt, jcxz, loop_normal, loope, loopne,
  r_edx,
}
use topgun.Isa.Table.Operands.{al8, eax1632, imm1632, imm8, on_source, reg1632, rel8, rm1632, rm8}

abbrev pub row_c0 : List Op
row_c0 =
    (op shift 0 use_modrm rm8 rm8 imm8)
    ∷ (op shift 0 use_modrm rm1632 rm1632 imm8)
    ∷ (on_source retn 0 (operand OperandType.imm sz_16 0))
    ∷ (on_source retn 0 (operand constant sz_16 0))
    ∷ (op ld_fp es use_modrm reg1632 (operand mem_modrm sz_3248 0) no_operand)
    ∷ (op ld_fp ds use_modrm reg1632 (operand mem_modrm sz_3248 0) no_operand)
    ∷ (op mov 0 use_modrm rm8 imm8 no_operand)
    ∷ (op mov 0 use_modrm rm1632 imm1632 no_operand)
    ∷ (op enter 0 0 no_operand (operand OperandType.imm sz_16 0) imm8)
    ∷ (bare leave 0)
    ∷ (on_source retf 0 (operand OperandType.imm sz_16 0))
    ∷ (on_source retf 0 (operand constant sz_16 0))
    ∷ (on_source int_op 0 (operand constant sz_8 0))
    ∷ (on_source int_op 0 imm8)
    ∷ undefined_op
    ∷ (bare iret 0)
    ∷ []

abbrev pub row_d0 : List Op
row_d0 =
    (op shift 0 use_modrm rm8 rm8 (operand constant sz_8 1))
    ∷ (op shift 0 use_modrm rm1632 rm1632 (operand constant sz_8 1))
    ∷ (op shift 0 use_modrm rm1632 rm1632 (operand const_reg sz_8 cl))
    ∷ (op shift 0 use_modrm rm1632 rm1632 (operand const_reg sz_8 cl))
    ∷ undefined_op
    ∷ undefined_op
    ∷ undefined_op
    ∷ (bare xlat 0)
    ∷ undefined_op
    ∷ undefined_op
    ∷ undefined_op
    ∷ undefined_op
    ∷ undefined_op
    ∷ undefined_op
    ∷ undefined_op
    ∷ undefined_op
    ∷ []

abbrev pub row_e0 : List Op
row_e0 =
    (on_source loop loopne rel8)
    ∷ (on_source loop loope rel8)
    ∷ (on_source loop loop_normal rel8)
    ∷ (on_source jump jcxz rel8)
    ∷ (op io_in 0 0 al8 imm8 no_operand)
    ∷ (op io_in 0 0 eax1632 imm8 no_operand)
    ∷ (op io_out 0 0 imm8 al8 no_operand)
    ∷ (op io_out 0 0 imm8 eax1632 no_operand)
    ∷ (on_source call_near 0 (operand ip_rel sz_1632 0))
    ∷ (on_source jump always (operand ip_rel sz_1632 0))
    ∷ (on_source jump_far 0 (operand far_ptr sz_3248 0))
    ∷ (on_source jump always rel8)
    ∷ (op io_in 0 0 al8 (operand const_reg sz_16 r_edx) no_operand)
    ∷ (op io_in 0 0 eax1632 (operand const_reg sz_16 r_edx) no_operand)
    ∷ (op io_out 0 0 (operand const_reg sz_16 r_edx) al8 no_operand)
    ∷ (op io_out 0 0 (operand const_reg sz_16 r_edx) eax1632 no_operand)
    ∷ []

abbrev pub row_f0 : List Op
row_f0 =
    (bare lock 0)
    ∷ undefined_op
    ∷ (bare repne 0)
    ∷ (bare repez 0)
    ∷ undefined_op
    ∷ (bare cmc 0)
    ∷ (op alu_special alu_multi (use_modrm + weird) no_operand rm8 no_operand)
    ∷ (op alu_special alu_multi (use_modrm + weird) no_operand rm1632 no_operand)
    ∷ (bare clr_flag carry)
    ∷ (bare st_flag carry)
    ∷ (bare clr_flag interrupt)
    ∷ (bare st_flag interrupt)
    ∷ (bare clr_flag direction)
    ∷ (bare st_flag direction)
    ∷ (op multiplexed_ff 0 use_modrm rm8 rm8 no_operand)
    ∷ (op multiplexed_ff 0 use_modrm rm1632 rm1632 no_operand)
    ∷ []
