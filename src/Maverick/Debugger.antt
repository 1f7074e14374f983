-- ===== src/Maverick/Debugger.antt =====
-- The debugger's side of the emulator in `maverick/main.c`: `ICEThread`, which serves the packets of
-- `common/cmd.h`. What it prints is left out. The pipe carries whole packets and answers.
pub mod Memory
pub mod Reach
pub mod Stops
pub mod Refinement
use topgun.Common.{
  ℕ, zero, suc, ◌+◌, ◌-◌, ◌*◌, ◌/◌, ◌%◌, ◌^◌, ◌≡◌, List, [], ◌∷◌, Bool, ◌==◌, leb, ltb,
  if◌then◌else◌, u16, u32,
}
use mathlib.Core.Option.{Option, none, some}
use topgun.Isa.{DecodedOp, seg_reg, sz_16}
use topgun.Isa.Codes.{cs}
use topgun.Machine.{Machine, SegReg, DescReg, set_eip}
use topgun.Machine.Outcome.{M, undefined, pure, gets, stop, modify, ◌>>=◌, ◌>>◌}
use topgun.Machine.Board.{Board, bus_read_8}
use topgun.Exec.Moves.{load_seg_reg}
use topgun.Step.{i386_step}
use topgun.Maverick.Breakpoints.{Breakpoint, add_breakpoint, remove_breakpoint}
use topgun.Maverick.Run.{BrkResp, brk_resp, set_running}

-- The command numbers of `common/cmd.h`, in their order from 0.
pub data Command : Type 0 where
  dump_regs dump_memory load_memory dump_gdt dump_idt dump_ldt set_bp unset_bp : Command
  set_wp unset_wp list_bp list_wp trace step_over step_out go break_in : Command

-- `cmd_pkt`, its arguments as 32-bit numbers; 0xffff_ffff is -1. The client sends no other command.
pub record CmdPkt : Type 0 where
  pub cmd : Command
  pub arg_0 : ℕ
  pub arg_1 : ℕ

-- `step_pkt`, the bytes up to `num_bytes`.
pub record StepPkt : Type 0 where
  pub csip : BrkResp
  pub num_bytes : ℕ
  pub bytes : List ℕ

-- `ice_regs`.
pub record IceRegs : Type 0 where
  pub regs : ℕ → ℕ
  pub cr : ℕ → ℕ
  pub dr : ℕ → ℕ
  pub tr : ℕ → ℕ
  pub eip : ℕ
  pub eflags : ℕ
  pub seg_regs : ℕ → SegReg
  pub gdtr : DescReg
  pub ldtr : DescReg
  pub idtr : DescReg
  pub taskr : DescReg
  pub cpl : ℕ

-- What a packet is answered with.
pub data Reply : Type 0 where
  no_reply : Reply
  brk_reply : BrkResp → Reply
  step_reply : StepPkt → Reply
  regs_reply : IceRegs → Reply
  memory_reply : List ℕ → Reply
  list_reply : List Breakpoint → Reply
  index_reply : ℕ → Reply

-- `code_breakpoints` and `data_breakpoints`.
pub record Ice : Type 0 where
  pub code_breakpoints : List Breakpoint
  pub data_breakpoints : List Breakpoint

abbrev pub minus_one : ℕ
minus_one = 0xffff_ffff

-- The index of `AddBreakpoint` as an `int`.
abbrev pub index_of : Option ℕ → ℕ
index_of (some i) = i
index_of none = minus_one

abbrev pub cs_operand : DecodedOp
cs_operand = record { type = seg_reg; id = cs; size = sz_16; sr = 0 }

abbrev pub ice_regs_of : Machine → IceRegs
ice_regs_of m = record {
  regs = m.regs;
  cr = m.cr;
  dr = m.dr;
  tr = m.tr;
  eip = m.eip;
  eflags = m.eflags;
  seg_regs = m.seg_regs;
  gdtr = m.gdtr;
  ldtr = m.ldtr;
  idtr = m.idtr;
  taskr = m.taskr;
  cpl = m.cpl;
}

-- The loop on `step.num_bytes`, an `int`: none where it is negative, past the array above 16.
abbrev pub bytes_stepped : ℕ → ℕ
bytes_stepped n = if leb (2 ^ 31) n then 0 else n

module _ (b : Board) where
  -- `n` bytes from a linear address on, read one by one.
  unfoldable pub read_bytes : ℕ → ℕ → M (List ℕ)
  read_bytes zero addr = pure []
  read_bytes (suc n) addr = do
    byte ← bus_read_8 b (u32 addr)
    bytes ← read_bytes n (addr + 1)
    pure (byte ∷ bytes)

  -- `case DUMP_MEMORY`. The size is an `int`; what the C library makes of a negative one is left
  -- undefined, like an overflow.
  unfoldable pub serve_dump_memory : ℕ → ℕ → M Reply
  serve_dump_memory addr count =
      if leb (2 ^ 27) count
      then stop undefined
      else (do bytes ← read_bytes (count * 16) addr; pure (memory_reply bytes))

  -- `case GO`.
  unfoldable pub serve_go : ℕ → ℕ → M (Unit {0})
  serve_go segment offset = do
    (if segment == minus_one then pure tt else load_seg_reg b cs_operand segment)
    (if offset == minus_one then pure tt else modify (set_eip offset))
    modify (set_running 1)

  unfoldable pub serve_break : M Reply
  serve_break = do modify (set_running 0); csip ← gets brk_resp; pure (brk_reply csip)

  -- `case TRACE`: `ip` is the low half of `eip`, and the bytes are read through the CS of after the
  -- step.
  unfoldable pub serve_trace : ℕ → M Reply
  serve_trace prefixes = do
    old_eip ← gets (λ m. m.eip)
    i386_step b prefixes
    num_bytes ← gets (λ m. u32 (m.old_eip + 2 ^ 32 - old_eip))
    csip ← gets (λ m. record { cs_selector = (m.seg_regs cs).selector; ip = u16 m.eip })
    base ← gets (λ m. (m.seg_regs cs).base)
    if ltb 16 (bytes_stepped num_bytes) then stop undefined else (do
      bytes ← read_bytes (bytes_stepped num_bytes) (base + old_eip)
      pure (step_reply (record { csip = csip; num_bytes = num_bytes; bytes = bytes })))

  -- The switch of `ICEThread`.
  unfoldable pub serve : ℕ → Command → CmdPkt → Ice → M (Reply × Ice)
  serve prefixes go pkt ice = do serve_go pkt.arg_0 pkt.arg_1; pure (no_reply, ice)
  serve prefixes break_in pkt ice = do reply ← serve_break; pure (reply, ice)
  serve prefixes trace pkt ice = do reply ← serve_trace prefixes; pure (reply, ice)
  serve prefixes dump_regs pkt ice = do regs ← gets ice_regs_of; pure (regs_reply regs, ice)
  serve prefixes dump_memory pkt ice = do
    reply ← serve_dump_memory pkt.arg_0 pkt.arg_1
    pure (reply, ice)
  serve prefixes list_bp pkt ice = pure (list_reply ice.code_breakpoints, ice)
  serve prefixes list_wp pkt ice = pure (list_reply ice.data_breakpoints, ice)
  serve prefixes set_bp pkt ice =
      let added = add_breakpoint pkt.arg_0 ice.code_breakpoints in
      pure (index_reply (index_of added.1), record ice { code_breakpoints = added.0 })
  serve prefixes unset_bp pkt ice =
      pure (
        no_reply,
        record ice { code_breakpoints = remove_breakpoint pkt.arg_0 ice.code_breakpoints },
      )
  serve prefixes _ pkt ice = pure (no_reply, ice)

  unfoldable pub serve_packet : ℕ → CmdPkt → Ice → M (Reply × Ice)
  unfolding serve
  serve_packet prefixes pkt ice = serve prefixes pkt.cmd pkt ice
