-- ===== src/Tests/Debugger.antt =====
-- The theorems on the debugger and its client at concrete inputs.
use topgun.Common.{ℕ, ◌≡◌, refl, [], ◌∷◌, arith}
use mathlib.Core.Option.{none, some}
use topgun.Machine.{Machine, set_reg, set_byte, set_eip}
use topgun.Machine.Outcome.{Outcome, ok, hang, exited, undefined, out_of_fuel, ◌>>=◌}
use topgun.Machine.Board.{bus_write_16, check_access}
use topgun.Exec.Stack.{i386_push, drop_esp}
use topgun.Maverick.{maverick_board, start_machine, init_386}
use topgun.Maverick.Breakpoints.{in_bp, any_hit, add_breakpoint, add_from}
use topgun.Maverick.Run.{
  brk_resp, linaddr, set_running, ice_step, ice_step_at, enter_subroutine, push_params,
}
use topgun.Maverick.Run.Invariant.{AtRest}
use topgun.Maverick.Debugger.{
  Ice, CmdPkt, Command, Reply, no_reply, index_reply, go, set_bp, minus_one, serve, serve_go,
}
use topgun.Maverick.Debugger.Stops.{set_bp-stops, go-stops_again}
use topgun.Maverick.Debugger.Reach.{entered, served, no_breakpoints, free_entry, Debugged-AtRest}
use topgun.Maverick.Debugger.Refinement.{Valid, stops_after, serve-stops_after}
use topgun.Iceman.{Line, cmd_bp}
use topgun.Tests.Fixtures.{board, machine, stc_program}

abbrev empty : Ice
empty = record { code_breakpoints = no_breakpoints; data_breakpoints = no_breakpoints }

abbrev packet : Command → ℕ → ℕ → CmdPkt
packet command a b = record { cmd = command; arg_0 = a; arg_1 = b }

-- One breakpoint, at the start of the program.
abbrev at_start : Ice
at_start = record (empty) {
  code_breakpoints =
      record { address = 0x7d00; end = 0x7d01; enabled = 1 }
      ∷ free_entry
      ∷ free_entry
      ∷ free_entry
      ∷ [];
}

abbrev stopped : Machine
stopped = set_running 0 machine

set_bp-stops_example :
    (reply : Reply) × (ice' : Ice) × (serve board 4 set_bp (packet set_bp 0x7c00 0) empty machine
      ≡ ok (reply, ice') machine)
    × (ice_step board ice'.code_breakpoints 4 machine ≡ ok (some (brk_resp machine)) stopped)
set_bp-stops_example =
    set_bp-stops board 4 (packet set_bp 0x7c00 0) empty machine
      (unfold start_machine init_386 in λ e. omega (arith, e))
      (unfold start_machine init_386 in refl) (unfold start_machine init_386 in omega arith) refl

abbrev gone : Machine
gone = set_running 1 (set_eip 0x200 stopped)

goes : serve board 4 go (packet go minus_one 0x200) at_start stopped ≡ ok (no_reply, at_start) gone
unfolding serve serve_go set_eip set_running ◌>>=◌
goes = refl

go-stops_again_example :
    ice_step_at board at_start.code_breakpoints 4 0x7d00 gone
    ≡ ok (some (brk_resp gone)) (set_running 0 gone)
go-stops_again_example =
    go-stops_again board 4 (packet go minus_one 0x200) at_start at_start 0x7d00 no_reply stopped
      gone (unfold any_hit in_bp in refl) goes

abbrev machine_of : {A : Type 0} → Outcome A → Machine
machine_of (ok _ m) = m
machine_of hang = machine
machine_of exited = machine
machine_of undefined = machine
machine_of out_of_fuel = machine

-- The machine at the start of the loop, before and after GO.
abbrev at_entry : Machine
at_entry = machine_of (enter_subroutine board 0x100 [] stopped)

entry_runs : enter_subroutine board 0x100 [] stopped ≡ ok tt at_entry
unfolding enter_subroutine push_params i386_push drop_esp set_reg set_byte bus_write_16 check_access
    maverick_board start_machine init_386 set_eip set_running ◌>>=◌
entry_runs = refl

go_runs :
    serve board 4 go (packet go minus_one minus_one) empty at_entry
    ≡ ok (no_reply, empty) (set_running 1 at_entry)
unfolding serve serve_go set_running ◌>>=◌
go_runs = refl

Debugged-AtRest_example : AtRest (set_running 1 at_entry)
Debugged-AtRest_example =
    Debugged-AtRest board 4 stc_program [] (linaddr at_entry) empty (set_running 1 at_entry)
      (served (packet go minus_one minus_one) no_reply (entered entry_runs) go_runs)

added :
    serve board 4 set_bp (packet set_bp 0x7d00 0) empty machine
    ≡ ok (index_reply 0, at_start) machine
unfolding serve add_breakpoint add_from ◌>>=◌
added = refl

empty-Valid : Valid empty
empty-Valid = record {
  four = refl;
  one_byte = (
    (λ on. absurd (on refl)),
    ((λ on. absurd (on refl)), ((λ on. absurd (on refl)), ((λ on. absurd (on refl)), tt))),
  );
}

serve-stops_after_example :
    ((a : ℕ)
      → any_hit at_start.code_breakpoints a
        ≡ stops_after set_bp 0x7d00 (index_reply 0) (any_hit empty.code_breakpoints) a)
    × Valid at_start
    × (no_breakpoints ≡ no_breakpoints)
serve-stops_after_example =
    serve-stops_after board 4 (packet set_bp 0x7d00 0) empty at_start (index_reply 0) machine
      machine empty-Valid (omega arith) added

abbrev bp_line : Line
bp_line = record { word = cmd_bp; numbers = 0x7d00 ∷ []; far = none }
