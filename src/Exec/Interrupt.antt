-- ===== src/Exec/Interrupt.antt =====
-- `do_int`: the system call of OS/2, and the DOS and BIOS services that the emulator offers.
use topgun.Common.{
  ℕ, zero, suc, ◌+◌, ◌*◌, ◌^◌, bit_or, List, [], ◌∷◌, ◌++◌, if◌then◌else◌, ◌==◌, u8, u16, u32,
}
use topgun.Isa.{DecodedOp}
use topgun.Isa.Codes.{al, ah, r_eax, r_edx, r_esp, ds}
use topgun.Machine.{Machine, set_reg}
use topgun.Machine.Outcome.{M, ok, hang, exited, pure, gets, stop, modify, ◌>>=◌, ◌>>◌}
use topgun.Machine.Board.{Board, bus_read_8}
use topgun.Machine.Regs.{get_reg_8, get_reg_16, set_reg_8, set_reg_16}
use topgun.Exec.Operand.{read_source}

-- `printf("%c", c)`. Diagnostics that the emulator prints for itself are left out.
unfoldable pub put_char : ℕ → M (Unit {0})
put_char c = modify (λ m. record m { output = m.output ++ u8 c ∷ [] })

-- `getch()`: waits for ever when there is no key left.
abbrev pub take_key : List ℕ → M ℕ
take_key [] m = hang
take_key (k ∷ ks) m = ok k (record m { input = ks })

unfoldable pub getch : M ℕ
getch m = take_key m.input m

module _ (b : Board) where
  -- `pCPU->eax = HostCall(pCPU->eax, TranslateEmulatedToVirtualAddress(pCPU->esp + 4), 4)`.
  unfoldable pub call_host : Machine → Machine
  call_host m =
      let (result, mem') =
        b.host_call (m.regs r_eax) (b.translate (u32 (m.regs r_esp + 4))) 4 m.mem in
      set_reg r_eax result (record m { mem = mem' })

  -- Prints up to a '$'. `offset` is 16 bits wide, so after 2 ^ 16 characters without one the loop
  -- goes round for ever.
  unfoldable pub display_string : ℕ → ℕ → M (Unit {0})
  display_string zero offset = stop hang
  display_string (suc left) offset = do
    base ← gets (λ m. (m.seg_regs ds).base)
    c ← bus_read_8 b (u32 (base + offset))
    if c == b'$' then pure tt else (do put_char c; display_string left (u16 (offset + 1)))

  unfoldable pub dos_services : ℕ → M (Unit {0})
  dos_services fn_code =
      if fn_code == 0x09
      then (gets (get_reg_16 r_edx) >>= λ offset. display_string (2 ^ 16) offset)
      else stop hang

  unfoldable pub video_services : ℕ → M (Unit {0})
  video_services fn_code =
      if fn_code == 0x02
      then pure tt
      else if fn_code == 0x09
      then (gets (get_reg_8 al) >>= put_char)
      else if fn_code == 0x00
      then (gets (get_reg_8 al) >>= λ mode. if mode == 0x13 then pure tt else stop hang)
      else if fn_code == 0x0e
      then (gets (get_reg_8 al) >>= put_char)
      else stop hang

  -- The two shift bits come from one test.
  unfoldable pub keyboard_flags : ℕ
  keyboard_flags =
      bit_or b.shift_down
        (bit_or (b.shift_down * 2) (bit_or (b.ctrl_down * 2 ^ 2) (b.alt_down * 2 ^ 3)))

  unfoldable pub keyboard_services : ℕ → M (Unit {0})
  keyboard_services fn_code =
      if fn_code == 0x00
      then (do
        key ← getch
        modify (set_reg_8 al key)
        modify (λ m. set_reg_8 ah (get_reg_8 al m) m))
      else if fn_code == 0x02
      then modify (set_reg_8 al keyboard_flags)
      else stop hang

  unfoldable pub clock_services : ℕ → M (Unit {0})
  clock_services fn_code =
      if fn_code == 0x00 then modify (set_reg_16 r_edx b.rtc_ticks) else stop hang

  unfoldable pub interrupt_services : ℕ → ℕ → M (Unit {0})
  interrupt_services vector fn_code =
      if vector == 0x80
      then modify call_host
      else if vector == 0x21
      then dos_services fn_code
      else if vector == 0x10
      then video_services fn_code
      else if vector == 0x16
      then keyboard_services fn_code
      else if vector == 0x1a
      then clock_services fn_code
      else if vector == 0x20
      then stop exited
      else stop hang

  unfoldable pub do_int : DecodedOp → M (Unit {0})
  do_int src = do
    vector ← read_source b src
    fn_code ← gets (get_reg_8 ah)
    interrupt_services (u32 vector) fn_code
