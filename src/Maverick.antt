-- ===== src/Maverick.antt =====
-- `maverick/main.c`: the board that the emulator plugs the processor into, its start-up state, and
-- its debugger.
pub mod Breakpoints
pub mod Run
pub mod Dump
pub mod Window
pub mod Debugger
use topgun.Common.{ℕ, ◌-◌, ◌%◌, ◌^◌, List, [], if◌then◌else◌, ◌==◌, leb, u8, update}
use topgun.Isa.{get_or}
use topgun.Isa.Codes.{cs, ds, r_esp}
use topgun.Machine.{SegReg, DescReg, Cpu, Machine}
use topgun.Machine.Board.{Board}

-- The keyboard and the clock of the host.
pub record Host : Type 0 where
  pub ticks : ℕ
  pub shift_key : ℕ
  pub ctrl_key : ℕ
  pub alt_key : ℕ

-- `TranslateEmulatedToVirtualAddress` keeps 20 bits of the address, `io_read_32` always gives
-- 0xfc, and `HostCall` gives 0.
unfoldable pub maverick_board : Host → Board
maverick_board h = record {
  translate = λ addr. addr % 2 ^ 20;
  extent = 2 ^ 20;
  io_read_32 = λ port. 0xfc;
  host_call = λ target params count mem. (0, mem);
  rtc_ticks = h.ticks;
  shift_down = h.shift_key;
  ctrl_down = h.ctrl_key;
  alt_down = h.alt_key;
}

abbrev no_desc : DescReg
no_desc = record { limit = 0; base = 0 }

-- The segment registers after `init_386`: CS is executable, and all of them stand at 0x7c00.
abbrev initial_segment : ℕ → SegReg
initial_segment i = record {
  selector = 0x7c0;
  base = 0x7c00;
  limit = 0;
  access = if i == cs then 0x9a else 0x92;
  flags = 0;
}

unfoldable pub init_386 : Cpu
init_386 = record {
  regs = λ i. 0;
  cr = λ i. 0;
  dr = λ i. 0;
  tr = λ i. 0;
  eip = 0;
  old_eip = 0;
  eflags = 0;
  seg_regs = initial_segment;
  gdtr = no_desc;
  ldtr = no_desc;
  idtr = no_desc;
  taskr = no_desc;
  cpl = 0;
  op_override = 0;
  addr_override = 0;
  sgmt_override = ds;
  overriding_sgmt = 0;
  running = 1;
  steps_run = 0;
}

-- The memory that `main` fills: zeros, and the program from 0x7c00 + 0x100 on.
unfoldable pub load_program : List ℕ → ℕ → ℕ
load_program program a = if leb 0x7d00 a then u8 (get_or program (a - 0x7d00) 0) else 0

-- The machine when `main` calls `Exec386Subroutine_Near32`.
unfoldable pub start_machine : List ℕ → List ℕ → Machine
start_machine program keys = record {
  cpu = record (init_386) { regs = update init_386.regs r_esp 0xfffe };
  mem = load_program program;
  input = keys;
  output = [];
}
