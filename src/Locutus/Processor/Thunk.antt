-- ===== src/Locutus/Processor/Thunk.antt =====
-- A thunk that `GenerateThunk` has written, run by the processor.
use topgun.Common.{
  if◌then◌else◌, ◌==◌, ℕ, ◌+◌, ◌*◌, ◌/◌, ◌^◌, ◌<◌, ◌≡◌, refl, ◌∙◌, zero, suc, List, ◌∷◌, [], u8,
  u32, arith,
}
use mathlib.Core.Path.{ap₂}
use topgun.Isa.Codes.{r_esp}
use topgun.Isa.Table.{instruction_table}
use topgun.Machine.{Machine, set_old_eip, set_reg, set_byte, set_eip}
use topgun.Machine.Outcome.{Outcome, ok, hang, exited, undefined, out_of_fuel, ◌>>=◌}
use topgun.Machine.Board.{bus_read_8, bus_read_16, bus_read_32, bus_write_32, check_access}
use topgun.Decode.Fetch.{fetch_8, fetch_32, code_addr, advance}
use topgun.Decode.Operands.{decode_operand, decode_by_type, fetch_imm, real_size}
use topgun.Exec.Interrupt.{do_int, interrupt_services, call_host}
use topgun.Exec.Moves.{do_mov}
use topgun.Exec.Operand.{read_source, write_dest, write_register}
use topgun.Exec.Stack.{i386_push, i386_pop, i386_ret_near, drop_esp, raise_esp}
use topgun.Maverick.Run.{enter_subroutine, push_params}
use topgun.Step.{
  i386_step, step_with, dispatch, complete, decode_row, decode_modrm, fixup, is_multi_f6, execute,
  count_step,
}
use topgun.Locutus.Pages.{Bitmap, found, alloc_pages}
use topgun.Locutus.State
use topgun.Locutus.State.{Os2, done, with_mem, with_bitmap, emu_write}
use topgun.Locutus.Thunks.{thunk_bytes, vmm_alloc_pages, generate_thunk}
use topgun.Locutus.Api.Laws.{dword_at}
use topgun.Locutus.Processor.{Os2Host, locutus_board, os2_init_386, os2_loop, exec_32}

-- The dwords of a parameter list.
abbrev pub dwords : (ℕ → ℕ) → ℕ → ℕ → List ℕ
dwords mem zero addr = []
dwords mem (suc count) addr = dword_at mem addr ∷ dwords mem count (addr + 4)

-- A host whose functions give a number for their address and the parameters that `HostCall` pushes
-- for them, and leave the memory alone.
abbrev pub answering : (ℕ → List ℕ → ℕ) → Os2Host
answering f = record {
  host_call = λ target params count mem. (f target (dwords mem count params), mem);
  io_read_32 = λ port. 0;
  ticks = 0;
  shift_key = 0;
  ctrl_key = 0;
  alt_key = 0;
}

-- A machine with a stack, any other registers and any memory.
abbrev pub machine_on : (ℕ → ℕ) → (ℕ → ℕ) → Machine
machine_on registers memory = record {
  cpu = record (os2_init_386) { regs = λ i. if i == r_esp then 0x2_0000 else registers i };
  mem = memory;
  input = [];
  output = [];
}

abbrev machine_of : Outcome ℕ → Machine → Machine
machine_of (ok a m) m' = m
machine_of hang m' = m'
machine_of exited m' = m'
machine_of undefined m' = m'
machine_of out_of_fuel m' = m'

module _ (f : ℕ → List ℕ → ℕ) (pointer a c d e : ℕ) (registers rest : ℕ → ℕ) where
  -- A call of the thunk, with room for one prefix and for three instructions.
  abbrev thunk_run : Outcome ℕ
  thunk_run =
      exec_32 (locutus_board (answering f)) 1 4 0x80_0000 (a ∷ c ∷ d ∷ e ∷ [])
        (machine_on registers (thunk_bytes 0x80_0000 pointer rest))

  abbrev after_run : Machine
  after_run = machine_of thunk_run (machine_on registers (thunk_bytes 0x80_0000 pointer rest))

  -- The dword that MOV reads.
  abbrev read_back : ℕ
  read_back =
      u8 (u8 pointer)
      + 2 ^ 8 * u8 (u8 (pointer / 2 ^ 8))
      + 2 ^ 16 * u8 (u8 (pointer / 2 ^ 16))
      + 2 ^ 24 * u8 (u8 (pointer / 2 ^ 16 / 2 ^ 8))

  -- A parameter, as the host reads it.
  abbrev pushed : ℕ → ℕ
  pushed v =
      u8 (u8 v)
      + 2 ^ 8 * u8 (u8 (v / 2 ^ 8))
      + 2 ^ 16 * u8 (u8 (v / 2 ^ 16))
      + 2 ^ 24 * u8 (u8 (v / 2 ^ 24))

  runs :
      thunk_run
      ≡ ok
          (u32 (f (u32 (u32 read_back)) (pushed a ∷ pushed c ∷ pushed d ∷ pushed e ∷ [])))
          after_run
  unfolding exec_32 os2_loop enter_subroutine push_params i386_push drop_esp raise_esp set_reg
      set_byte bus_write_32 check_access locutus_board os2_init_386 set_eip i386_step step_with
      fetch_8 bus_read_8 bus_read_16 bus_read_32 code_addr advance dispatch instruction_table
      complete decode_row decode_modrm fixup is_multi_f6 decode_operand decode_by_type set_old_eip
      execute count_step do_mov do_int interrupt_services call_host read_source write_dest i386_pop
      i386_ret_near thunk_bytes fetch_imm real_size fetch_32 write_register ◌>>=◌
  runs = refl

  stack_kept : after_run.regs r_esp ≡ 0x1_fff0
  unfolding exec_32 os2_loop enter_subroutine push_params i386_push drop_esp raise_esp set_reg
      set_byte bus_write_32 check_access locutus_board os2_init_386 set_eip i386_step step_with
      fetch_8 bus_read_8 bus_read_16 bus_read_32 code_addr advance dispatch instruction_table
      complete decode_row decode_modrm fixup is_multi_f6 decode_operand decode_by_type set_old_eip
      execute count_step do_mov do_int interrupt_services call_host read_source write_dest i386_pop
      i386_ret_near thunk_bytes fetch_imm real_size fetch_32 write_register ◌>>=◌
  stack_kept = refl

  thunk_returns :
      pointer < 2 ^ 32
      → a < 2 ^ 32
      → c < 2 ^ 32
      → d < 2 ^ 32
      → e < 2 ^ 32
      → thunk_run ≡ ok (u32 (f pointer (a ∷ c ∷ d ∷ e ∷ []))) after_run
  thunk_returns fits fits_a fits_c fits_d fits_e =
      let same : u32 (u32 read_back) ≡ pointer = omega (arith, fits) in
      let same_a : pushed a ≡ a = omega (arith, fits_a) in
      let same_c : pushed c ≡ c = omega (arith, fits_c) in
      let same_d : pushed d ≡ d = omega (arith, fits_d) in
      let same_e : pushed e ≡ e = omega (arith, fits_e) in
      let same_list : (pushed a ∷ pushed c ∷ pushed d ∷ pushed e ∷ []) ≡ (a ∷ c ∷ d ∷ e ∷ []) =
        ap₂ ◌∷◌ same_a (ap₂ ◌∷◌ same_c (ap₂ ◌∷◌ same_d (ap₂ ◌∷◌ same_e refl))) in
      runs ∙ ap₂ (λ p l. ok (u32 (f p l)) after_run) same same_list

-- Where the allocator gives page 0x800, `GenerateThunk` for a 32-bit pointer returns the address of
-- that page, and a call of that address by `Exec32` with four dwords, from the start state with a
-- stack at 0x20000, with any other registers and on the memory left, returns what the host's function at the pointer gives for
-- those four dwords in their order, with the stack pointer below them. The host's functions leave the
-- memory alone, and the fuel is three instructions.
pub exec_32-generate_thunk :
    (f : ℕ → List ℕ → ℕ) (fuel pointer a c d e : ℕ) (registers : ℕ → ℕ) (s : Os2) (g : Bitmap)
    → pointer < 2 ^ 32
    → a < 2 ^ 32
    → c < 2 ^ 32
    → d < 2 ^ 32
    → e < 2 ^ 32
    → alloc_pages fuel 0x800 1 s.bitmap ≡ (found 0x800, g)
    → (s' : Os2) × (m : Machine) × (generate_thunk fuel pointer s ≡ done 0x80_0000 s')
      × (exec_32
            (locutus_board (answering f))
            1
            4
            0x80_0000
            (a ∷ c ∷ d ∷ e ∷ [])
            (machine_on registers s'.mem)
          ≡ ok (u32 (f pointer (a ∷ c ∷ d ∷ e ∷ []))) m)
      × (m.regs r_esp ≡ 0x1_fff0)
unfolding generate_thunk vmm_alloc_pages emu_write State.◌>>=◌
exec_32-generate_thunk f fuel pointer a c d e registers s g fits fits_a fits_c fits_d fits_e
      allocates =
    (
      with_mem (thunk_bytes 0x80_0000 pointer s.mem) (with_bitmap g s),
      after_run f pointer a c d e registers s.mem,
      rw allocates refl,
      thunk_returns f pointer a c d e registers s.mem fits fits_a fits_c fits_d fits_e,
      stack_kept f pointer a c d e registers s.mem,
    )
