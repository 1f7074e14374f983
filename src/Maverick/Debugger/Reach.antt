-- ===== src/Maverick/Debugger/Reach.antt =====
-- The emulator's loop and the debugger's thread, interleaved: packets are served between the calls of
-- `ice_step`, while it waits. (Packets served in the middle of an instruction are not modelled.)
use topgun.Common.{ℕ, zero, suc, ◌+◌, ◌≡◌, List, [], ◌∷◌, u32}
use mathlib.Core.Path.{subst}
use mathlib.Core.Option.{Option}
use topgun.Machine.{Machine}
use topgun.Machine.Outcome.{ok}
use topgun.Machine.Board.{Board, bus_read_8}
use topgun.Machine.Stable.{Ends}
use topgun.Exec.Keeps.Data.{bus_read_8-Keeps}
use topgun.Exec.Moves.{load_seg_reg}
use topgun.Exec.Keeps.Effects.{load_seg_reg-Keeps}
use topgun.Maverick.{start_machine}
use topgun.Maverick.Breakpoints.{Breakpoint}
use topgun.Maverick.Run.{BrkResp, linaddr, set_running, ice_step_at, enter_subroutine}
use topgun.Maverick.Run.Invariant.{
  AtRest, Rests, flow_rules, Keeps-Rests, set_running-Rests, set_running-AtRest, enter-Rests,
  i386_step-Rests, ice_step_at-Rests, enter_subroutine-Rests, Rests-bind, Rests-pure,
}
use topgun.Maverick.Run.Reach.{start-AtRest}
use topgun.Maverick.Debugger.{
  Ice, CmdPkt, Command, Reply, go, break_in, trace, dump_memory, dump_regs, load_memory, dump_gdt,
  dump_idt, dump_ldt, set_bp, unset_bp, set_wp, unset_wp, list_bp, list_wp, step_over, step_out,
  cs_operand, serve, serve_go, serve_break, serve_trace, serve_dump_memory, read_bytes,
}

abbrev pub free_entry : Breakpoint
free_entry = record { address = 0; end = 0; enabled = 0 }

-- The tables of `main.c` before the first packet.
abbrev pub no_breakpoints : List Breakpoint
no_breakpoints = free_entry ∷ free_entry ∷ free_entry ∷ free_entry ∷ []

-- The states of a program under the debugger, with the address that the loop has computed for the
-- next instruction.
pub data Debugged (b : Board) (prefixes : ℕ) (program keys : List ℕ)
    : ℕ → Ice → Machine → Type 0 where
  entered :
      {m : Machine}
      → enter_subroutine b 0x100 [] (set_running 0 (start_machine program keys)) ≡ ok tt m
      → Debugged b prefixes program keys
          (linaddr m)
          (record { code_breakpoints = no_breakpoints; data_breakpoints = no_breakpoints })
          m
  emulated :
      {at : ℕ} {ice : Ice} {m n : Machine} (report : Option BrkResp)
      → Debugged b prefixes program keys at ice m
      → ice_step_at b ice.code_breakpoints prefixes at m ≡ ok report n
      → Debugged b prefixes program keys (linaddr n) ice n
  served :
      {at : ℕ} {ice ice' : Ice} {m n : Machine} (pkt : CmdPkt) (reply : Reply)
      → Debugged b prefixes program keys at ice m
      → serve b prefixes pkt.cmd pkt ice m ≡ ok (reply, ice') n
      → Debugged b prefixes program keys at ice' n

module _ (b : Board) where
  read-Rests : (addr : ℕ) → Rests (bus_read_8 b addr)
  read-Rests addr = Keeps-Rests _ (bus_read_8-Keeps b addr)

  load-Rests : (segment : ℕ) → Rests (load_seg_reg b cs_operand segment)
  load-Rests segment = Keeps-Rests _ (load_seg_reg-Keeps b cs_operand cs_operand segment)

  ruleset serve_rules = (flow_rules, read-Rests, load-Rests, enter-Rests, set_running-Rests)

  read_bytes-Rests : (n addr : ℕ) → Rests (read_bytes b n addr)
  unfolding read_bytes
  read_bytes-Rests zero addr = search serve_rules
  read_bytes-Rests (suc n) addr =
      Rests-bind _ _ (read-Rests (u32 addr))
        λ byte. Rests-bind _ _ (read_bytes-Rests n (addr + 1)) λ bytes. Rests-pure _

  serve_go-Rests : (segment offset : ℕ) → Rests (serve_go b segment offset)
  unfolding serve_go
  serve_go-Rests segment offset = search serve_rules depth 14

  serve_break-Rests : Rests (serve_break b)
  unfolding serve_break
  serve_break-Rests = search serve_rules depth 8

  dump_memory-Rests : (addr count : ℕ) → Rests (serve_dump_memory b addr count)
  unfolding serve_dump_memory
  dump_memory-Rests addr count = search (serve_rules, read_bytes-Rests) depth 8

  serve_trace-Rests : (prefixes : ℕ) → Rests (serve_trace b prefixes)
  unfolding serve_trace
  serve_trace-Rests prefixes = search (serve_rules, i386_step-Rests b, read_bytes-Rests) depth 20

  serve-Rests :
      (prefixes : ℕ) (command : Command) (pkt : CmdPkt) (ice : Ice)
      → Rests (serve b prefixes command pkt ice)
  unfolding serve
  serve-Rests prefixes go pkt ice = search (flow_rules, serve_go-Rests)
  serve-Rests prefixes break_in pkt ice = search (flow_rules, serve_break-Rests)
  serve-Rests prefixes trace pkt ice = search (flow_rules, serve_trace-Rests)
  serve-Rests prefixes dump_memory pkt ice = search (flow_rules, dump_memory-Rests)
  serve-Rests prefixes dump_regs pkt ice = search flow_rules
  serve-Rests prefixes load_memory pkt ice = search flow_rules
  serve-Rests prefixes dump_gdt pkt ice = search flow_rules
  serve-Rests prefixes dump_idt pkt ice = search flow_rules
  serve-Rests prefixes dump_ldt pkt ice = search flow_rules
  serve-Rests prefixes set_bp pkt ice = search flow_rules
  serve-Rests prefixes unset_bp pkt ice = search flow_rules
  serve-Rests prefixes set_wp pkt ice = search flow_rules
  serve-Rests prefixes unset_wp pkt ice = search flow_rules
  serve-Rests prefixes list_bp pkt ice = search flow_rules
  serve-Rests prefixes list_wp pkt ice = search flow_rules
  serve-Rests prefixes step_over pkt ice = search flow_rules
  serve-Rests prefixes step_out pkt ice = search flow_rules

-- Whatever packets the debugger sends between instructions, once they are served the machine is at
-- rest: no override is in force, every segment is in 16-bit mode and every register fits its type.
pub Debugged-AtRest :
    (b : Board) (prefixes : ℕ) (program keys : List ℕ) (at : ℕ) (ice : Ice) (n : Machine)
    → Debugged b prefixes program keys at ice n
    → AtRest n
Debugged-AtRest b prefixes program keys at ice n (entered starts) = subst (Ends AtRest) starts (
    (enter_subroutine-Rests b 0x100 []).at _
      (set_running-AtRest 0 (start_machine program keys) (start-AtRest program keys)))
Debugged-AtRest b prefixes program keys at ice n
      (emulated {at = at'} {ice = ice'} {m = m} report reached runs) =
    subst (Ends AtRest) runs (
      (ice_step_at-Rests b prefixes ice'.code_breakpoints at').at m
        (Debugged-AtRest b prefixes program keys at' ice' m reached))
Debugged-AtRest b prefixes program keys at ice n
      (served {at = at'} {ice = old} {m = m} pkt reply reached runs) =
    subst (Ends AtRest) runs (
      (serve-Rests b prefixes pkt.cmd pkt old).at m
        (Debugged-AtRest b prefixes program keys at' old m reached))
