-- ===== src/Step/Keeps.antt =====
-- An instruction without its prefixes keeps the step invariant.
use topgun.Common.{ℕ}
use topgun.Isa.{Op, OpType, DecodedOp, alu, multiplexed_ff}
use topgun.Machine.Board.{Board}
use topgun.Machine.Stable.{Keeps, keeps_rules}
use topgun.Exec.Keeps.Stack.{
  do_push-Keeps, do_pop-Keeps, do_enter-Keeps, do_leave-Keeps, do_pushf-Keeps, do_popf-Keeps,
  do_pusha-Keeps, do_popa-Keeps, do_call_near-Keeps, i386_ret_near-Keeps,
}
use topgun.Exec.Keeps.Compute.{
  do_alu_op-Keeps, do_incdec-Keeps, do_shift-Keeps, do_alu_special-Keeps, do_near_jump-Keeps,
  do_loop-Keeps, do_clear_flag-Keeps, do_set_flag-Keeps, do_cmc-Keeps,
}
use topgun.Exec.Keeps.Effects.{
  do_sahf-Keeps, do_lahf-Keeps, do_mov-Keeps, do_lea-Keeps, do_mov_to_sr-Keeps, do_cbw_cwde-Keeps,
  do_cwd_cdq-Keeps, do_xchg-Keeps, do_inp-Keeps, do_xlat-Keeps, do_pop_sr-Keeps, do_string-Keeps,
  do_rep_string-Keeps, do_int-Keeps,
}
use topgun.Decode.Keeps.{decode_rules}
use topgun.Step.{execute, decode_modrm, fixup, decode_row, complete}

ruleset handler_rules = (
  keeps_rules, do_push-Keeps, do_pop-Keeps, do_enter-Keeps, do_leave-Keeps, do_pushf-Keeps,
  do_popf-Keeps, do_pusha-Keeps, do_popa-Keeps, do_call_near-Keeps, i386_ret_near-Keeps,
  do_alu_op-Keeps, do_incdec-Keeps, do_shift-Keeps, do_alu_special-Keeps, do_near_jump-Keeps,
  do_loop-Keeps, do_clear_flag-Keeps, do_set_flag-Keeps, do_cmc-Keeps, do_sahf-Keeps, do_lahf-Keeps,
  do_mov-Keeps, do_lea-Keeps, do_mov_to_sr-Keeps, do_cbw_cwde-Keeps, do_cwd_cdq-Keeps,
  do_xchg-Keeps, do_inp-Keeps, do_xlat-Keeps, do_pop_sr-Keeps, do_string-Keeps, do_rep_string-Keeps,
  do_int-Keeps,
)

module _ (b : Board) where
  execute-Keeps :
      (t : OpType) (inst : Op) (dst src1 src2 : DecodedOp) (reg : ℕ)
      → Keeps (execute b t inst dst src1 src2 reg)
  unfolding execute
  execute-Keeps alu inst dst src1 src2 reg = search handler_rules depth 2
  execute-Keeps _ inst dst src1 src2 reg = search handler_rules depth 2

  pub decode_modrm-Keeps : (inst : Op) → Keeps (decode_modrm b inst)
  unfolding decode_modrm
  decode_modrm-Keeps inst = search decode_rules depth 8

  fixup-Keeps : (t : OpType) (inst : Op) (reg : ℕ) → Keeps (fixup b t inst reg)
  unfolding fixup
  fixup-Keeps multiplexed_ff inst reg = search decode_rules
  fixup-Keeps _ inst reg = search decode_rules

  pub decode_row-Keeps : (row : Op) → Keeps (decode_row b row)
  unfolding decode_row
  decode_row-Keeps row = search (decode_rules, decode_modrm-Keeps, fixup-Keeps) depth 16

  pub complete-Keeps : (row : Op) → Keeps (complete b row)
  unfolding complete
  complete-Keeps row = search (decode_rules, decode_row-Keeps, execute-Keeps) depth 16
