-- ===== src/Machine/Regs.antt =====
-- The registers at their three widths. The 8-bit register `id` is the byte `id >> 2` of the
-- register `id & 3`; `id` is below 8.
pub mod Laws
use topgun.Common.{ℕ, ◌+◌, ◌*◌, ◌/◌, ◌%◌, ◌^◌, Bool, not, ◌==◌, ltb, u8, u16, if◌then◌else◌}
use topgun.Isa.Codes.{cs, ss}
use topgun.Machine.{Machine, mode, set_reg}

unfoldable pub get_reg_8 : ℕ → Machine → ℕ
get_reg_8 id m = if ltb id 4 then u8 (m.regs (id % 4)) else u8 (m.regs (id % 4) / 2 ^ 8)

unfoldable pub get_reg_16 : ℕ → Machine → ℕ
get_reg_16 id m = u16 (m.regs id)

unfoldable pub set_reg_8 : ℕ → ℕ → Machine → Machine
set_reg_8 id v m =
    let r = m.regs (id % 4) in
    set_reg (id % 4)
      (if ltb id 4 then r / 2 ^ 8 * 2 ^ 8 + u8 v else r / 2 ^ 16 * 2 ^ 16 + u8 v * 2 ^ 8 + u8 r) m

unfoldable pub set_reg_16 : ℕ → ℕ → Machine → Machine
set_reg_16 id v m = set_reg id (m.regs id / 2 ^ 16 * 2 ^ 16 + u16 v) m

-- `MODE(pCPU->ss)`, `MODE(pCPU->cs) ^ pCPU->op_override` and the same for addresses, as tests.
abbrev pub wide_stack : Machine → Bool
wide_stack m = not (mode (m.seg_regs ss) == 0)

abbrev pub wide_operand : Machine → Bool
wide_operand m = not (mode (m.seg_regs cs) == m.op_override)

abbrev pub wide_address : Machine → Bool
wide_address m = not (mode (m.seg_regs cs) == m.addr_override)
