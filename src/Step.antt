-- ===== src/Step.antt =====
-- `i386_step`: one instruction with its prefixes.
pub mod Keeps
pub mod Invariant
use topgun.Common.{
  ℕ, zero, suc, ◌+◌, ◌-◌, ◌%◌, Bool, true, false, ◌&&◌, not, if◌then◌else◌, ◌==◌, u32, bit_and,
}
use topgun.Isa.{
  Op, OpType, alu, push, pop, pop_sr, extended, incdec, pusha, popa, alu_special, string_op, repez,
  repne, segment_override, op_sz_override, addr_sz_override, jump, xchg, mov, mov_to_sr, lea, lock,
  retn, call_near, clr_flag, st_flag, int_op, cbw_cwde, multiplexed_ff, io_in, cwd_cdq, loop, pushf,
  popf, xlat, shift, sahf, lahf, enter, leave, cmc, DecodedOp, DecodedType, use_modrm, weird, sz_8,
}
use topgun.Isa.Codes.{alu_multi, ds}
use topgun.Isa.Table.{instruction_table, extended_instruction_table}
use topgun.Machine.{Machine, Cpu, set_old_eip}
use topgun.Machine.Outcome.{M, hang, out_of_fuel, pure, gets, stop, modify, ◌>>=◌, ◌>>◌}
use topgun.Machine.Board.{Board}
use topgun.Machine.Regs.{wide_address}
use topgun.Exec.Stack.{
  do_push, do_pop, do_enter, do_leave, do_pushf, do_popf, do_pusha, do_popa, do_call_near,
  i386_ret_near,
}
use topgun.Exec.Alu.{do_alu_op, do_incdec, do_shift}
use topgun.Exec.AluSpecial.{do_alu_special}
use topgun.Exec.Jump.{do_near_jump, do_loop, do_clear_flag, do_set_flag, do_cmc}
use topgun.Exec.Moves.{
  do_mov, do_lea, do_xlat, do_sahf, do_lahf, do_mov_to_sr, do_pop_sr, do_cbw_cwde, do_cwd_cdq,
  do_xchg, do_inp,
}
use topgun.Exec.Strings.{do_string, do_rep_string}
use topgun.Exec.Interrupt.{do_int}
use topgun.Decode.Fetch.{fetch_8}
use topgun.Decode.ModRm.{decode_rm_16, decode_rm_32, reg_of}
use topgun.Decode.Operands.{decode_operand}
use topgun.Decode.Fixup.{fixup_f6, fixup_ff}

unfoldable pub count_step : Machine → Machine
count_step m = record m { cpu = record (m.cpu) { steps_run = m.steps_run + 1 } }

unfoldable pub uncount_step : Machine → Machine
uncount_step m = record m { cpu = record (m.cpu) { steps_run = m.steps_run - 1 } }

unfoldable pub set_op_override : ℕ → Machine → Machine
set_op_override v m = record m { cpu = record (m.cpu) { op_override = v } }

unfoldable pub set_addr_override : ℕ → Machine → Machine
set_addr_override v m = record m { cpu = record (m.cpu) { addr_override = v } }

unfoldable pub set_sgmt_override : ℕ → ℕ → Machine → Machine
set_sgmt_override overriding sr m = record m {
  cpu = record (m.cpu) { overriding_sgmt = overriding; sgmt_override = sr };
}

-- `rm` before anything is decoded into it.
abbrev pub no_rm : DecodedOp
no_rm = record { type = DecodedType.none; id = 0; size = sz_8; sr = 0 }

-- An instruction with its operands decoded.
pub record DecodedRow : Type 0 where
  pub inst : Op
  pub dst : DecodedOp
  pub src1 : DecodedOp
  pub src2 : DecodedOp
  pub reg : ℕ

abbrev pub decoded_row : Op → DecodedOp → DecodedOp → DecodedOp → ℕ → DecodedRow
decoded_row i d s1 s2 r = record { inst = i; dst = d; src1 = s1; src2 = s2; reg = r }

module _ (b : Board) where
  -- The switch at the end of `i386_step`.
  unfoldable pub execute : OpType → Op → DecodedOp → DecodedOp → DecodedOp → ℕ → M (Unit {0})
  execute enter inst dst src1 src2 reg = do_enter b src1 src2
  execute leave inst dst src1 src2 reg = do_leave b
  execute alu inst dst src1 src2 reg = do_alu_op b inst.sub_type dst src1 src2 reg
  execute alu_special inst dst src1 src2 reg =
      do_alu_special b inst.sub_type dst src1 src2 inst.flags
  execute shift inst dst src1 src2 reg = do_shift b reg dst src1 src2
  execute push inst dst src1 src2 reg = do_push b src1
  execute pop inst dst src1 src2 reg = do_pop b dst
  execute pop_sr inst dst src1 src2 reg = do_pop_sr b dst
  execute lea inst dst src1 src2 reg = do_lea b dst src1
  execute mov inst dst src1 src2 reg = do_mov b dst src1
  execute mov_to_sr inst dst src1 src2 reg = do_mov_to_sr b dst src1
  execute call_near inst dst src1 src2 reg = do_call_near b src1
  execute retn inst dst src1 src2 reg = i386_ret_near b src1
  execute jump inst dst src1 src2 reg = do_near_jump b src1 inst.sub_type
  execute clr_flag inst dst src1 src2 reg = do_clear_flag inst.sub_type
  execute st_flag inst dst src1 src2 reg = do_set_flag inst.sub_type
  execute incdec inst dst src1 src2 reg = do_incdec b inst.sub_type dst src1
  execute int_op inst dst src1 src2 reg = do_int b src1
  execute string_op inst dst src1 src2 reg = do_string b inst.sub_type inst.flags
  execute repez inst dst src1 src2 reg = do_rep_string b inst.sub_type inst.flags 0
  execute repne inst dst src1 src2 reg = do_rep_string b inst.sub_type inst.flags 1
  execute cbw_cwde inst dst src1 src2 reg = do_cbw_cwde b dst src1
  execute cwd_cdq inst dst src1 src2 reg = do_cwd_cdq b dst src1
  execute xchg inst dst src1 src2 reg = do_xchg b src1 src2
  execute io_in inst dst src1 src2 reg = do_inp b dst src1
  execute loop inst dst src1 src2 reg = do_loop b inst.sub_type src1
  execute pushf inst dst src1 src2 reg = do_pushf b
  execute popf inst dst src1 src2 reg = do_popf b
  execute xlat inst dst src1 src2 reg = do_xlat b
  execute sahf inst dst src1 src2 reg = do_sahf
  execute lahf inst dst src1 src2 reg = do_lahf
  execute cmc inst dst src1 src2 reg = do_cmc
  execute pusha inst dst src1 src2 reg = do_pusha b
  execute popa inst dst src1 src2 reg = do_popa b
  execute _ inst dst src1 src2 reg = stop hang

  -- `rm` and the ModR/M byte, where the row asks for one.
  unfoldable pub decode_modrm : Op → M (DecodedOp × ℕ)
  decode_modrm inst = if bit_and inst.flags use_modrm == 0 then pure (no_rm, 0) else (do
    modrm ← fetch_8 b
    wide ← gets wide_address
    rm ← (if wide then decode_rm_32 b modrm else decode_rm_16 b modrm)
    pure (rm, modrm))

  unfoldable pub is_multi_f6 : OpType → Op → Bool
  is_multi_f6 alu_special inst = (inst.sub_type == alu_multi) && not (bit_and inst.flags weird == 0)
  is_multi_f6 _ inst = false

  -- The two fixups, by the operation type.
  unfoldable pub fixup : OpType → Op → ℕ → M Op
  fixup multiplexed_ff inst reg = fixup_ff inst reg
  fixup t inst reg = pure (if is_multi_f6 t inst then fixup_f6 inst reg else inst)

  -- From the ModR/M byte on: the row with its fixups and the operands.
  unfoldable pub decode_row : Op → M DecodedRow
  decode_row row = do
    (rm, modrm) ← decode_modrm row
    inst ← fixup row.op_type row (reg_of modrm)
    dst ← decode_operand b rm (reg_of modrm) inst.dest
    src1 ← decode_operand b rm (reg_of modrm) inst.src1
    src2 ← decode_operand b rm (reg_of modrm) inst.src2
    pure (decoded_row inst dst src1 src2 (reg_of modrm))

  -- From the ModR/M byte to the end of the instruction.
  unfoldable pub complete : Op → M (Unit {0})
  complete row = do
    d ← decode_row row
    modify (λ m. set_old_eip m.eip m)
    execute d.inst.op_type d.inst d.dst d.src1 d.src2 d.reg

  -- The switch over prefixes; `again` is the recursive call of `i386_step`.
  unfoldable pub dispatch : M (Unit {0}) → OpType → Op → M (Unit {0})
  dispatch again lock inst = modify uncount_step >> again
  dispatch again op_sz_override inst = do
    modify (set_op_override 1)
    again
    modify (set_op_override 0)
    modify uncount_step
  dispatch again addr_sz_override inst = do
    modify (set_addr_override 1)
    again
    modify (set_addr_override 0)
    modify uncount_step
  dispatch again segment_override inst = do
    modify (set_sgmt_override 1 inst.sub_type)
    again
    modify (set_sgmt_override 0 ds)
    modify uncount_step
  dispatch again extended inst = do byte ← fetch_8 b; complete (extended_instruction_table byte)
  dispatch again repez inst = do
    byte ← fetch_8 b
    complete (record (instruction_table byte) { op_type = repez })
  dispatch again repne inst = do
    byte ← fetch_8 b
    complete (record (instruction_table byte) { op_type = repne })
  dispatch again t inst = complete inst

  unfoldable pub step_with : M (Unit {0}) → M (Unit {0})
  step_with again = do
    byte ← fetch_8 b
    modify count_step
    dispatch again (instruction_table byte).op_type (instruction_table byte)

  -- Each prefix is a recursive call; the fuel is one more than the prefixes allowed.
  unfoldable pub i386_step : ℕ → M (Unit {0})
  i386_step zero = stop out_of_fuel
  i386_step (suc fuel) = step_with (i386_step fuel)
