-- ===== src/Decode/Fixup.antt =====
-- `fixup_f6` and `fixup_ff`, which complete a row by the reg field of the ModR/M byte.
use topgun.Common.{ℕ, ◌||◌, if◌then◌else◌, ◌==◌}
use topgun.Isa.{
  Op, Operand, OperandType, OperandSize, rm_modrm, const_reg, sz_8, sz_16, sz_3264, incdec,
  call_near, jump, push, operand, write_dx,
}
use topgun.Isa.Codes.{
  alu_test, alu_not, alu_neg, alu_mul, alu_imul, alu_div, alu_idiv, r_eax, id_inc, id_dec, always,
}
use topgun.Machine.Outcome.{M, hang, pure, stop}

-- The dividend: AX, or DX:AX / EDX:EAX. In the second case `value` keeps what the row has.
unfoldable pub dividend : OperandSize → Operand → Operand
dividend sz_8 src = operand const_reg sz_16 r_eax
dividend _ src = operand OperandType.edx_eax sz_3264 src.value

unfoldable pub fixup_f6 : Op → ℕ → Op
fixup_f6 inst reg =
    let size = inst.src1.size in
    if reg == alu_test
    then record inst {
      sub_type = reg;
      dest = record (inst.dest) { type = OperandType.none };
      src1 = record (inst.src1) { type = rm_modrm };
      src2 = record (inst.src2) { type = OperandType.imm; size = size };
    }
    else if (reg == alu_neg) || (reg == alu_not)
    then record inst {
      sub_type = reg;
      dest = record (inst.dest) { type = rm_modrm; size = size };
      src1 = record (inst.src1) { type = rm_modrm };
      src2 = record (inst.src2) { type = OperandType.none };
    }
    else if (reg == alu_imul) || (reg == alu_mul)
    then record inst {
      sub_type = reg;
      flags = write_dx;
      dest = operand const_reg size r_eax;
      src1 = operand const_reg size r_eax;
      src2 = record (inst.src2) { type = rm_modrm; size = size };
    }
    else if (reg == alu_idiv) || (reg == alu_div)
    then record inst {
      sub_type = reg;
      flags = write_dx;
      dest = operand const_reg size r_eax;
      src1 = dividend size inst.src1;
      src2 = record (inst.src2) { type = rm_modrm; size = size };
    }
    else record inst { sub_type = reg }

-- Far calls and jumps are not written: `while (1);`. A seventh entry leaves the row as it is.
unfoldable pub fixup_ff : Op → ℕ → M Op
fixup_ff inst reg =
    if reg == 0
    then pure (record inst { op_type = incdec; sub_type = id_inc })
    else if reg == 1
    then pure (record inst { op_type = incdec; sub_type = id_dec })
    else if reg == 2
    then pure (record inst { op_type = call_near })
    else if reg == 3
    then stop hang
    else if reg == 4
    then pure (record inst { op_type = jump; sub_type = always })
    else if reg == 5
    then stop hang
    else if reg == 6
    then pure (record inst { op_type = push })
    else pure inst
