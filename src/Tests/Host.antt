-- ===== src/Tests/Host.antt =====
-- The theorems on `maverick/main.c` at concrete inputs.
use topgun.Common.{◌≡◌, refl, List, [], ◌∷◌}
use mathlib.Core.Option.{none}
use topgun.Machine.Outcome.{Outcome, ok, hang, exited, undefined, out_of_fuel, ◌>>=◌}
use topgun.Maverick.Breakpoints.{Breakpoint, any_hit}
use topgun.Maverick.Run.{ice_step, enter_subroutine, push_params}
use topgun.Maverick.Run.Invariant.{AtRest}
use topgun.Maverick.Run.Reach.{entered, called, Reaches-AtRest}
use topgun.Maverick.{maverick_board, load_program, init_386, start_machine}
use topgun.Machine.{Machine, set_old_eip, set_eflags, set_reg, set_byte, set_eip}
use topgun.Machine.Board.{bus_read_8, bus_write_16, check_access}
use topgun.Machine.Flags.{cond_flag, put_bit}
use topgun.Decode.Fetch.{fetch_8, code_addr, advance}
use topgun.Decode.Operands.{decode_operand, decode_by_type}
use topgun.Isa.Table.{instruction_table}
use topgun.Exec.Jump.{do_set_flag}
use topgun.Exec.Stack.{i386_push, drop_esp}
use topgun.Step.{
  i386_step, step_with, dispatch, complete, decode_row, decode_modrm, fixup, is_multi_f6, execute,
  count_step,
}
use topgun.Tests.Fixtures.{board, machine, stc_program}

abbrev free : Breakpoint
free = record { address = 0; end = 0; enabled = 0 }

abbrev at_7d00 : Breakpoint
at_7d00 = record { address = 0x7d00; end = 0x7d01; enabled = 1 }

abbrev table : List Breakpoint
table = at_7d00 ∷ free ∷ free ∷ free ∷ []

abbrev machine_of : {A : Type 0} → Outcome A → Machine
machine_of (ok _ m) = m
machine_of hang = machine
machine_of exited = machine
machine_of undefined = machine
machine_of out_of_fuel = machine

-- The machine at the start of the loop, and after STC.
abbrev at_entry : Machine
at_entry = machine_of (enter_subroutine board 0x100 [] machine)

abbrev after_stc : Machine
after_stc = machine_of (ice_step board [] 4 at_entry)

entry_runs : enter_subroutine board 0x100 [] machine ≡ ok tt at_entry
unfolding enter_subroutine push_params i386_push drop_esp set_reg set_byte bus_write_16 check_access
    maverick_board start_machine init_386 set_eip ◌>>=◌
entry_runs = refl

stc_runs : ice_step board [] 4 at_entry ≡ ok none after_stc
unfolding ice_step start_machine init_386 any_hit i386_step step_with fetch_8 bus_read_8
    check_access maverick_board code_addr advance dispatch instruction_table load_program complete
    decode_row decode_modrm fixup is_multi_f6 decode_operand set_old_eip execute do_set_flag
    cond_flag set_eflags put_bit count_step decode_by_type enter_subroutine push_params i386_push
    drop_esp set_reg set_byte bus_write_16 set_eip ◌>>=◌
stc_runs = refl

Reaches-AtRest_example : AtRest after_stc
Reaches-AtRest_example =
    Reaches-AtRest board 4 stc_program [] after_stc (called [] none (entered entry_runs) stc_runs)
