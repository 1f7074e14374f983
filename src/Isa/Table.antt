-- ===== src/Isa/Table.antt =====
-- `InstructionTable` and `ExtendedInstructionTable`.
mod Operands
mod Low
mod Group4
mod Group8
mod High
use topgun.Common.{ℕ, ◌/◌, ◌%◌, List, [], ◌∷◌, if◌then◌else◌, ◌==◌}
use topgun.Isa.{Op, op, undefined_op, get_or, alu_special, use_modrm}
use topgun.Isa.Codes.{alu_imul}
use Operands.{reg1632, rm1632}
use Low.{row_00, row_10, row_20, row_30}
use Group4.{row_40, row_50, row_60, row_70}
use Group8.{row_80, row_90, row_a0, row_b0}
use High.{row_c0, row_d0, row_e0, row_f0}

abbrev pub rows : List (List Op)
rows =
    row_00 ∷ row_10 ∷ row_20 ∷ row_30 ∷ row_40 ∷ row_50 ∷ row_60 ∷ row_70 ∷ row_80 ∷ row_90 ∷ row_a0
    ∷ row_b0 ∷ row_c0 ∷ row_d0 ∷ row_e0 ∷ row_f0 ∷ []

unfoldable pub instruction_table : ℕ → Op
instruction_table byte = get_or (get_or rows (byte / 16) []) (byte % 16) undefined_op

-- The second bytes after 0x0f: only IMUL is there.
unfoldable pub extended_instruction_table : ℕ → Op
extended_instruction_table byte =
    if byte == 0xaf then op alu_special alu_imul use_modrm reg1632 reg1632 rm1632 else undefined_op
