-- ===== src/Locutus/Processor.antt =====
-- The processor of `locutus/`: the board of `locutus/os2mem.c`, and `init_386`, `Exec32` and
-- `LaunchOS2` of `locutus/enterprs.c`. The disassembly that `Exec32` prints is left out.
pub mod Thunk
use topgun.Common.{ℕ, zero, suc, ◌^◌, List, [], ◌∷◌, ◌==◌, if◌then◌else◌, update}
use topgun.Isa.Codes.{cs, ss, ds, r_eax, r_esp}
use topgun.Machine.{SegReg, DescReg, Cpu, Machine, set_eip, set_reg}
use topgun.Machine.Outcome.{M, out_of_fuel, pure, gets, stop, modify, ◌>>=◌, ◌>>◌}
use topgun.Machine.Board.{Board}
use topgun.Step.{i386_step}
use topgun.Maverick.Run.{enter_subroutine}
use topgun.Locutus.State.{os2_extent}

-- What the host gives: `HostCall`, which is inline assembly, `io_read_32`, which has no return
-- statement, and the clock and the modifier keys.
pub record Os2Host : Type 0 where
  pub host_call : ℕ → ℕ → ℕ → (ℕ → ℕ) → ℕ × (ℕ → ℕ)
  pub io_read_32 : ℕ → ℕ
  pub ticks : ℕ
  pub shift_key : ℕ
  pub ctrl_key : ℕ
  pub alt_key : ℕ

-- An emulated address is an offset into the block that `VMMInit` reserves.
unfoldable pub locutus_board : Os2Host → Board
locutus_board h = record {
  translate = λ addr. addr;
  extent = os2_extent;
  io_read_32 = h.io_read_32;
  host_call = h.host_call;
  rtc_ticks = h.ticks;
  shift_down = h.shift_key;
  ctrl_down = h.ctrl_key;
  alt_down = h.alt_key;
}

abbrev os2_no_desc : DescReg
os2_no_desc = record { limit = 0; base = 0 }

-- All segments stand at 0; CS and SS are 32-bit.
abbrev os2_segment : ℕ → SegReg
os2_segment i = record {
  selector = 0;
  base = 0;
  limit = 0;
  access = if i == cs then 0x9a else 0x92;
  flags = if i == cs then 4 else if i == ss then 4 else 0;
}

unfoldable pub os2_init_386 : Cpu
os2_init_386 = record {
  regs = λ i. 0;
  cr = λ i. 0;
  dr = λ i. 0;
  tr = λ i. 0;
  eip = 0;
  old_eip = 0;
  eflags = 0;
  seg_regs = os2_segment;
  gdtr = os2_no_desc;
  ldtr = os2_no_desc;
  idtr = os2_no_desc;
  taskr = os2_no_desc;
  cpl = 0;
  op_override = 0;
  addr_override = 0;
  sgmt_override = ds;
  overriding_sgmt = 0;
  running = 1;
  steps_run = 0;
}

module _ (b : Board) (prefixes : ℕ) where
  -- The loop of `Exec32`, with fuel: a program need not end.
  unfoldable pub os2_loop : ℕ → M (Unit {0})
  os2_loop zero = stop out_of_fuel
  os2_loop (suc fuel) = do
    done ← gets (λ m. m.eip == 0xbeef)
    if done then pure tt else (do i386_step b prefixes; os2_loop fuel)

  -- `Exec32` pushes as `Exec386Subroutine_Near32` does.
  unfoldable pub exec_32 : ℕ → ℕ → List ℕ → M ℕ
  exec_32 fuel target params = do
    enter_subroutine b target params
    os2_loop fuel
    gets (λ m. m.regs r_eax)

  -- `LaunchOS2`.
  unfoldable pub launch_os2 : ℕ → ℕ → ℕ → ℕ → ℕ → ℕ → M ℕ
  launch_os2 fuel entrypoint sp env cmd hmod = do
    modify (set_reg r_esp sp)
    exec_32 fuel entrypoint (hmod ∷ 0 ∷ env ∷ cmd ∷ [])
