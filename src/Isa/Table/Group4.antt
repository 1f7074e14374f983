-- ===== src/Isa/Table/Group4.antt =====
-- Rows 0x40 to 0x7f of `InstructionTable` (`common/i386.h`).
use topgun.Common.{List, [], ◌∷◌}
use topgun.Isa.{
  Op, addr_sz_override, alu_special, bare, const_reg, incdec, jump, no_operand, op, op_sz_override,
  operand, pop, popa, push, pusha, segment_override, simm, str_sz_1632, str_sz_8, string_op,
  sz_1632, sz_8, undefined_op, use_modrm,
}
use topgun.Isa.Codes.{
  alu_imul, fs, gs, id_dec, id_inc, ins, ja, jae, jb, jbe, je, jg, jge, jl, jle, jne, jno, jnp, jns,
  jo, jp, js, outs, r_ebp, r_ebx, r_ecx, r_edi, r_edx, r_esi, r_esp,
}
use topgun.Isa.Table.Operands.{eax1632, imm1632, imm8, on_source, reg1632, rel8, rm1632}

abbrev pub row_40 : List Op
row_40 =
    (op incdec id_inc 0 eax1632 eax1632 no_operand)
    ∷ (op incdec id_inc 0 (operand const_reg sz_1632 r_ecx) (operand const_reg sz_1632 r_ecx)
        no_operand)
    ∷ (op incdec id_inc 0 (operand const_reg sz_1632 r_edx) (operand const_reg sz_1632 r_edx)
        no_operand)
    ∷ (op incdec id_inc 0 (operand const_reg sz_1632 r_ebx) (operand const_reg sz_1632 r_ebx)
        no_operand)
    ∷ (op incdec id_inc 0 (operand const_reg sz_1632 r_esp) (operand const_reg sz_1632 r_esp)
        no_operand)
    ∷ (op incdec id_inc 0 (operand const_reg sz_1632 r_ebp) (operand const_reg sz_1632 r_ebp)
        no_operand)
    ∷ (op incdec id_inc 0 (operand const_reg sz_1632 r_esi) (operand const_reg sz_1632 r_esi)
        no_operand)
    ∷ (op incdec id_inc 0 (operand const_reg sz_1632 r_edi) (operand const_reg sz_1632 r_edi)
        no_operand)
    ∷ (op incdec id_dec 0 eax1632 eax1632 no_operand)
    ∷ (op incdec id_dec 0 (operand const_reg sz_1632 r_ecx) (operand const_reg sz_1632 r_ecx)
        no_operand)
    ∷ (op incdec id_dec 0 (operand const_reg sz_1632 r_edx) (operand const_reg sz_1632 r_edx)
        no_operand)
    ∷ (op incdec id_dec 0 (operand const_reg sz_1632 r_ebx) (operand const_reg sz_1632 r_ebx)
        no_operand)
    ∷ (op incdec id_dec 0 (operand const_reg sz_1632 r_esp) (operand const_reg sz_1632 r_esp)
        no_operand)
    ∷ (op incdec id_dec 0 (operand const_reg sz_1632 r_ebp) (operand const_reg sz_1632 r_ebp)
        no_operand)
    ∷ (op incdec id_dec 0 (operand const_reg sz_1632 r_esi) (operand const_reg sz_1632 r_esi)
        no_operand)
    ∷ (op incdec id_dec 0 (operand const_reg sz_1632 r_edi) (operand const_reg sz_1632 r_edi)
        no_operand)
    ∷ []

abbrev pub row_50 : List Op
row_50 =
    (on_source push 0 eax1632)
    ∷ (on_source push 0 (operand const_reg sz_1632 r_ecx))
    ∷ (on_source push 0 (operand const_reg sz_1632 r_edx))
    ∷ (on_source push 0 (operand const_reg sz_1632 r_ebx))
    ∷ (on_source push 0 (operand const_reg sz_1632 r_esp))
    ∷ (on_source push 0 (operand const_reg sz_1632 r_ebp))
    ∷ (on_source push 0 (operand const_reg sz_1632 r_esi))
    ∷ (on_source push 0 (operand const_reg sz_1632 r_edi))
    ∷ (op pop 0 0 eax1632 no_operand no_operand)
    ∷ (op pop 0 0 (operand const_reg sz_1632 r_ecx) no_operand no_operand)
    ∷ (op pop 0 0 (operand const_reg sz_1632 r_edx) no_operand no_operand)
    ∷ (op pop 0 0 (operand const_reg sz_1632 r_ebx) no_operand no_operand)
    ∷ (op pop 0 0 (operand const_reg sz_1632 r_esp) no_operand no_operand)
    ∷ (op pop 0 0 (operand const_reg sz_1632 r_ebp) no_operand no_operand)
    ∷ (op pop 0 0 (operand const_reg sz_1632 r_esi) no_operand no_operand)
    ∷ (op pop 0 0 (operand const_reg sz_1632 r_edi) no_operand no_operand)
    ∷ []

abbrev pub row_60 : List Op
row_60 =
    (bare pusha 0)
    ∷ (bare popa 0)
    ∷ undefined_op
    ∷ undefined_op
    ∷ (bare segment_override fs)
    ∷ (bare segment_override gs)
    ∷ (bare op_sz_override 0)
    ∷ (bare addr_sz_override 0)
    ∷ (on_source push 0 imm1632)
    ∷ (op alu_special alu_imul use_modrm reg1632 rm1632 imm1632)
    ∷ (on_source push 0 imm8)
    ∷ (op alu_special alu_imul use_modrm reg1632 rm1632 (operand simm sz_8 0))
    ∷ (op string_op ins str_sz_8 no_operand no_operand no_operand)
    ∷ (op string_op ins str_sz_1632 no_operand no_operand no_operand)
    ∷ (op string_op outs str_sz_8 no_operand no_operand no_operand)
    ∷ (op string_op outs str_sz_1632 no_operand no_operand no_operand)
    ∷ []

abbrev pub row_70 : List Op
row_70 =
    (on_source jump jo rel8)
    ∷ (on_source jump jno rel8)
    ∷ (on_source jump jb rel8)
    ∷ (on_source jump jae rel8)
    ∷ (on_source jump je rel8)
    ∷ (on_source jump jne rel8)
    ∷ (on_source jump jbe rel8)
    ∷ (on_source jump ja rel8)
    ∷ (on_source jump js rel8)
    ∷ (on_source jump jns rel8)
    ∷ (on_source jump jp rel8)
    ∷ (on_source jump jnp rel8)
    ∷ (on_source jump jl rel8)
    ∷ (on_source jump jge rel8)
    ∷ (on_source jump jle rel8)
    ∷ (on_source jump jg rel8)
    ∷ []
