-- ===== src/Decode/Keeps.antt =====
-- Decoding keeps the step invariant.
use topgun.Common.{ℕ}
use topgun.Isa.{Op, Operand, OperandType, OperandSize, DecodedOp, sz_8}
use topgun.Machine.Board.{Board}
use topgun.Machine.Stable.{Keeps}
use topgun.Exec.Keeps.Data.{data_rules}
use topgun.Decode.Fetch.{advance, fetch_8, fetch_16, fetch_32}
use topgun.Decode.ModRm.{
  scaled_index, sib_base, decode_sib, base_32, displacement_32, decode_rm_32, base_16,
  displacement_16, decode_rm_16,
}
use topgun.Decode.Operands.{
  decode_modrm_operand, fetch_imm, fetch_simm, fetch_rel, fetch_offset, decode_by_type,
  decode_operand,
}
use topgun.Decode.Fixup.{fixup_ff}

advance-Keeps : (n : ℕ) → Keeps (advance n)
unfolding advance
advance-Keeps n = search data_rules

module _ (b : Board) where
  pub fetch_8-Keeps : Keeps (fetch_8 b)
  unfolding fetch_8
  fetch_8-Keeps = search (data_rules, advance-Keeps) depth 8

  fetch_16-Keeps : Keeps (fetch_16 b)
  unfolding fetch_16
  fetch_16-Keeps = search (data_rules, advance-Keeps) depth 8

  fetch_32-Keeps : Keeps (fetch_32 b)
  unfolding fetch_32
  fetch_32-Keeps = search (data_rules, advance-Keeps) depth 8

ruleset fetch_rules = (data_rules, fetch_8-Keeps, fetch_16-Keeps, fetch_32-Keeps)

module _ (b : Board) where
  scaled_index-Keeps : (sib : ℕ) → Keeps (scaled_index b sib)
  unfolding scaled_index
  scaled_index-Keeps sib = search fetch_rules

  sib_base-Keeps : (modrm sib : ℕ) → Keeps (sib_base b modrm sib)
  unfolding sib_base
  sib_base-Keeps modrm sib = search fetch_rules

  decode_sib-Keeps : (modrm : ℕ) → Keeps (decode_sib b modrm)
  unfolding decode_sib
  decode_sib-Keeps modrm = search (fetch_rules, scaled_index-Keeps, sib_base-Keeps) depth 8

  base_32-Keeps : (modrm : ℕ) → Keeps (base_32 b modrm)
  unfolding base_32
  base_32-Keeps modrm = search (fetch_rules, decode_sib-Keeps) depth 8

  displacement_32-Keeps : (modrm : ℕ) → Keeps (displacement_32 b modrm)
  unfolding displacement_32
  displacement_32-Keeps modrm = search fetch_rules

  pub decode_rm_32-Keeps : (modrm : ℕ) → Keeps (decode_rm_32 b modrm)
  unfolding decode_rm_32
  decode_rm_32-Keeps modrm = search (fetch_rules, base_32-Keeps, displacement_32-Keeps) depth 8

  base_16-Keeps : (modrm : ℕ) → Keeps (base_16 b modrm)
  unfolding base_16
  base_16-Keeps modrm = search fetch_rules depth 14

  displacement_16-Keeps : (modrm : ℕ) → Keeps (displacement_16 b modrm)
  unfolding displacement_16
  displacement_16-Keeps modrm = search fetch_rules

  pub decode_rm_16-Keeps : (modrm : ℕ) → Keeps (decode_rm_16 b modrm)
  unfolding decode_rm_16
  decode_rm_16-Keeps modrm = search (fetch_rules, base_16-Keeps, displacement_16-Keeps) depth 8

decode_modrm_operand-Keeps :
    (rm : DecodedOp) (size : OperandSize) → Keeps (decode_modrm_operand rm size)
unfolding decode_modrm_operand
decode_modrm_operand-Keeps rm size = search data_rules

module _ (b : Board) where
  fetch_imm-Keeps : (size : OperandSize) → Keeps (fetch_imm b size)
  unfolding fetch_imm
  fetch_imm-Keeps sz_8 = search fetch_rules
  fetch_imm-Keeps _ = search fetch_rules

  fetch_simm-Keeps : (size : OperandSize) → Keeps (fetch_simm b size)
  unfolding fetch_simm
  fetch_simm-Keeps sz_8 = search fetch_rules
  fetch_simm-Keeps _ = search fetch_rules

  fetch_rel-Keeps : (size : OperandSize) → Keeps (fetch_rel b size)
  unfolding fetch_rel
  fetch_rel-Keeps sz_8 = search fetch_rules
  fetch_rel-Keeps _ = search fetch_rules

  fetch_offset-Keeps : Keeps (fetch_offset b)
  unfolding fetch_offset
  fetch_offset-Keeps = search fetch_rules

ruleset operand_rules = (
  fetch_rules, decode_modrm_operand-Keeps, fetch_imm-Keeps, fetch_simm-Keeps, fetch_rel-Keeps,
  fetch_offset-Keeps,
)

module _ (b : Board) where
  decode_by_type-Keeps :
      (t : OperandType) (size : OperandSize) (rm : DecodedOp) (reg value : ℕ)
      → Keeps (decode_by_type b t size rm reg value)
  unfolding decode_by_type
  decode_by_type-Keeps OperandType.none size rm reg value = search operand_rules
  decode_by_type-Keeps _ size rm reg value = search operand_rules

  pub decode_operand-Keeps :
      (rm : DecodedOp) (reg : ℕ) (op : Operand) → Keeps (decode_operand b rm reg op)
  unfolding decode_operand
  decode_operand-Keeps rm reg op = search (operand_rules, decode_by_type-Keeps)

pub fixup_ff-Keeps : (inst : Op) (reg : ℕ) → Keeps (fixup_ff inst reg)
unfolding fixup_ff
fixup_ff-Keeps inst reg = search data_rules depth 14

pub ruleset decode_rules = (
  data_rules, fetch_8-Keeps, decode_rm_16-Keeps, decode_rm_32-Keeps, decode_operand-Keeps,
  fixup_ff-Keeps,
)
