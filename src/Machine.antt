-- ===== src/Machine.antt =====
-- The processor state of `common/i386.h` (`SEGREG`, `DESCREG`, `i386`), and the machine around it:
-- the memory behind `Os2Base`, the keys still to be read and the characters printed.
pub mod Outcome
pub mod Board
pub mod Flags
pub mod Regs
pub mod Stable
use topgun.Common.{ℕ, ◌/◌, ◌%◌, ◌*◌, ◌+◌, ◌^◌, List, u8, u16, u32, update, Bool, ◌==◌}

-- `struct _SEGREG`.
pub record SegReg : Type 0 where
  pub selector : ℕ
  pub base : ℕ
  pub limit : ℕ
  pub access : ℕ
  pub flags : ℕ

-- `struct _DESCREG`.
pub record DescReg : Type 0 where
  pub limit : ℕ
  pub base : ℕ

-- `struct _i386`. The arrays are functions of the index; the 8- and 16-bit names of the unions
-- (`al`, `ax`, `flags`, `ip`, ...) are the low bits of the 32-bit ones.
pub record Cpu : Type 0 where
  pub regs : ℕ → ℕ
  pub cr : ℕ → ℕ
  pub dr : ℕ → ℕ
  pub tr : ℕ → ℕ
  pub eip : ℕ
  pub old_eip : ℕ
  pub eflags : ℕ
  pub seg_regs : ℕ → SegReg
  pub gdtr : DescReg
  pub ldtr : DescReg
  pub idtr : DescReg
  pub taskr : DescReg
  pub cpl : ℕ
  pub op_override : ℕ
  pub addr_override : ℕ
  pub sgmt_override : ℕ
  pub overriding_sgmt : ℕ
  pub running : ℕ
  pub steps_run : ℕ

pub record Machine : Type 0 where
  pub cpu : Cpu
  pub open cpu use *
  pub mem : ℕ → ℕ
  pub input : List ℕ
  pub output : List ℕ

-- The macro `MODE`: bit 2 of a descriptor's flags, 1 for a 32-bit segment.
abbrev pub mode : SegReg → ℕ
mode desc = desc.flags / 4 % 2

-- Assignments to one field, each with the cast that the field's type makes.
unfoldable pub set_eip : ℕ → Machine → Machine
set_eip v m = record m { cpu = record (m.cpu) { eip = u32 v } }

unfoldable pub set_old_eip : ℕ → Machine → Machine
set_old_eip v m = record m { cpu = record (m.cpu) { old_eip = u32 v } }

unfoldable pub set_eflags : ℕ → Machine → Machine
set_eflags v m = record m { cpu = record (m.cpu) { eflags = u32 v } }

unfoldable pub set_reg : ℕ → ℕ → Machine → Machine
set_reg i v m = record m { cpu = record (m.cpu) { regs = update m.regs i (u32 v) } }

unfoldable pub set_cr : ℕ → ℕ → Machine → Machine
set_cr i v m = record m { cpu = record (m.cpu) { cr = update m.cr i (u32 v) } }

unfoldable pub set_selector : ℕ → ℕ → Machine → Machine
set_selector i v m = record m {
  cpu = record (m.cpu) {
    seg_regs = update m.seg_regs i (record (m.seg_regs i) { selector = u16 v });
  };
}

unfoldable pub set_base : ℕ → ℕ → Machine → Machine
set_base i v m = record m {
  cpu = record (m.cpu) { seg_regs = update m.seg_regs i (record (m.seg_regs i) { base = u32 v }) };
}

unfoldable pub set_byte : ℕ → ℕ → Machine → Machine
set_byte a v m = record m { mem = update m.mem a (u8 v) }
