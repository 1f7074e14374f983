-- ===== src/Exec/Keeps/Compute.antt =====
-- The handlers that compute: the flag macros, the two ALU groups, shifts and jumps.
use topgun.Common.{ℕ, Bool}
use topgun.Isa.{DecodedOp, OperandSize, sz_8}
use topgun.Machine.Board.{Board}
use topgun.Machine.Stable.{Keeps}
use topgun.Exec.Keeps.Data.{data_rules}
use topgun.Exec.SetFlags.{
  set_by_size, set_sf, set_cf, set_zf, set_of_add, set_of_sub, set_af, set_pf,
}
use topgun.Exec.Alu.{
  logic_flags, arith_flags, add_result, sub_result, logic_result, alu_result, alu_single, do_alu_op,
  do_incdec, shl_carry, shift_result, do_shift,
}
use topgun.Exec.AluSpecial.{signed_div, special_result, write_high, do_alu_special}
use topgun.Exec.Jump.{jump_condition, do_near_jump, do_loop, do_clear_flag, do_set_flag, do_cmc}

set_by_size-Keeps : (size : OperandSize) (flag : ℕ) (t : ℕ → Bool) → Keeps (set_by_size size flag t)
unfolding set_by_size
set_by_size-Keeps sz_8 flag t = search data_rules
set_by_size-Keeps _ flag t = search data_rules

module _ (size : OperandSize) (v : ℕ) where
  set_sf-Keeps : Keeps (set_sf size v)
  unfolding set_sf
  set_sf-Keeps = set_by_size-Keeps size _ _

  set_cf-Keeps : Keeps (set_cf size v)
  unfolding set_cf
  set_cf-Keeps = set_by_size-Keeps size _ _

  pub set_zf-Keeps : Keeps (set_zf size v)
  unfolding set_zf
  set_zf-Keeps = set_by_size-Keeps size _ _

  set_of_add-Keeps : (a d : ℕ) → Keeps (set_of_add size v a d)
  unfolding set_of_add
  set_of_add-Keeps a d = set_by_size-Keeps size _ _

  set_of_sub-Keeps : (a d : ℕ) → Keeps (set_of_sub size v a d)
  unfolding set_of_sub
  set_of_sub-Keeps a d = set_by_size-Keeps size _ _

set_af-Keeps : (x y z : ℕ) → Keeps (set_af x y z)
unfolding set_af
set_af-Keeps x y z = search data_rules

set_pf-Keeps : (v : ℕ) → Keeps (set_pf v)
unfolding set_pf
set_pf-Keeps v = search data_rules

ruleset flag_rules = (
  data_rules, set_sf-Keeps, set_cf-Keeps, set_zf-Keeps, set_of_add-Keeps, set_of_sub-Keeps,
  set_af-Keeps, set_pf-Keeps,
)

logic_flags-Keeps : (size : OperandSize) (res : ℕ) → Keeps (logic_flags size res)
unfolding logic_flags
logic_flags-Keeps size res = search flag_rules depth 14

arith_flags-Keeps : (size : OperandSize) (a b res : ℕ) → Keeps (arith_flags size a b res)
unfolding arith_flags
arith_flags-Keeps size a b res = search flag_rules depth 14

ruleset result_rules = (flag_rules, logic_flags-Keeps, arith_flags-Keeps)

module _ (size : OperandSize) (a b : ℕ) where
  add_result-Keeps : (c : ℕ) → Keeps (add_result size a b c)
  unfolding add_result
  add_result-Keeps c = search result_rules depth 8

  sub_result-Keeps : (c : ℕ) → Keeps (sub_result size a b c)
  unfolding sub_result
  sub_result-Keeps c = search result_rules depth 8

logic_result-Keeps : (size : OperandSize) (res : ℕ) → Keeps (logic_result size res)
unfolding logic_result
logic_result-Keeps size res = search result_rules depth 8

alu_result-Keeps : (op : ℕ) (size : OperandSize) (a b : ℕ) → Keeps (alu_result op size a b)
unfolding alu_result
alu_result-Keeps op size a b =
    search (data_rules, add_result-Keeps, sub_result-Keeps, logic_result-Keeps) depth 14

shl_carry-Keeps : (size : OperandSize) (res : ℕ) → Keeps (shl_carry size res)
unfolding shl_carry
shl_carry-Keeps sz_8 res = search data_rules
shl_carry-Keeps _ res = search data_rules

shift_result-Keeps : (op : ℕ) (size : OperandSize) (v n : ℕ) → Keeps (shift_result op size v n)
unfolding shift_result
shift_result-Keeps op size v n = search (data_rules, shl_carry-Keeps) depth 10

signed_div-Keeps : (w x y : ℕ) → Keeps (signed_div w x y)
unfolding signed_div
signed_div-Keeps w x y = search data_rules depth 8

special_result-Keeps :
    (op bits : ℕ) (size : OperandSize) (a b : ℕ) → Keeps (special_result op bits size a b)
unfolding special_result
special_result-Keeps op bits size a b = search (result_rules, signed_div-Keeps) depth 18

write_high-Keeps : (size : OperandSize) (v : ℕ) → Keeps (write_high size v)
unfolding write_high
write_high-Keeps sz_8 v = search data_rules
write_high-Keeps _ v = search data_rules

jump_condition-Keeps : (condition : ℕ) → Keeps (jump_condition condition)
unfolding jump_condition
jump_condition-Keeps condition = search data_rules depth 24

ruleset compute_rules = (
  flag_rules, alu_result-Keeps, shift_result-Keeps, special_result-Keeps, write_high-Keeps,
  jump_condition-Keeps,
)

module _ (b : Board) where
  alu_single-Keeps : (op : ℕ) (dst src1 src2 : DecodedOp) → Keeps (alu_single b op dst src1 src2)
  unfolding alu_single
  alu_single-Keeps op dst src1 src2 = search compute_rules depth 10

  pub do_alu_op-Keeps :
      (op : ℕ) (dst src1 src2 : DecodedOp) (reg : ℕ) → Keeps (do_alu_op b op dst src1 src2 reg)
  unfolding do_alu_op
  do_alu_op-Keeps op dst src1 src2 reg = search (compute_rules, alu_single-Keeps)

  pub do_incdec-Keeps : (v : ℕ) (dst src1 : DecodedOp) → Keeps (do_incdec b v dst src1)
  unfolding do_incdec
  do_incdec-Keeps v dst src1 = search compute_rules depth 18

  pub do_shift-Keeps : (op : ℕ) (dst src1 src2 : DecodedOp) → Keeps (do_shift b op dst src1 src2)
  unfolding do_shift
  do_shift-Keeps op dst src1 src2 = search compute_rules depth 10

  pub do_alu_special-Keeps :
      (op : ℕ) (dst src1 src2 : DecodedOp) (wb : ℕ) → Keeps (do_alu_special b op dst src1 src2 wb)
  unfolding do_alu_special
  do_alu_special-Keeps op dst src1 src2 wb = search compute_rules depth 12

  pub do_near_jump-Keeps : (src : DecodedOp) (c : ℕ) → Keeps (do_near_jump b src c)
  unfolding do_near_jump
  do_near_jump-Keeps src c = search compute_rules depth 10

  pub do_loop-Keeps : (type : ℕ) (src : DecodedOp) → Keeps (do_loop b type src)
  unfolding do_loop
  do_loop-Keeps type src = search compute_rules depth 12

pub do_clear_flag-Keeps : (flag : ℕ) → Keeps (do_clear_flag flag)
unfolding do_clear_flag
do_clear_flag-Keeps flag = search data_rules

pub do_set_flag-Keeps : (flag : ℕ) → Keeps (do_set_flag flag)
unfolding do_set_flag
do_set_flag-Keeps flag = search data_rules

pub do_cmc-Keeps : Keeps do_cmc
unfolding do_cmc
do_cmc-Keeps = search data_rules
