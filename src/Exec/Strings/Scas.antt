-- ===== src/Exec/Strings/Scas.antt =====
-- SCASB compares the byte in memory with the whole of EAX.
use topgun.Common.{
  leb, true, Bool-cases, inl, inr, if◌then◌else◌, ◌+◌, u8, ℕ, ◌^◌, ◌<◌, ◌≡◌, refl, ap, flag_of,
  ◌==◌, sub32, arith,
}
use topgun.Isa.{str_sz_8, str_sz_1632}
use topgun.Isa.Codes.{r_eax, r_edi, scas, direction, zero_flag}
use topgun.Machine.{Machine, set_reg, set_eflags}
use topgun.Machine.Outcome.{ok, ◌>>=◌}
use topgun.Machine.Board.{Board, InBlock, check_access, bus_read_8}
use topgun.Exec.Operand.{read_mem}
use topgun.Machine.Flags.{get_flag, get_bit, write_flag, cond_flag}
use topgun.Machine.Flags.Laws.{get_bit-write_flag, fits_6, flag_laws}
use topgun.Exec.SetFlags.{set_zf, set_by_size, zero_test}
use topgun.Exec.Alu.Laws.{with_eflags}
use topgun.Exec.Strings.{scas_flags, string_size, string_dest, string_update, do_scas, do_string}

-- Where EDI points after a byte.
abbrev pub next_edi : Machine → ℕ
next_edi m = if get_bit direction m.eflags == 1 then sub32 (m.regs r_edi) 1 else m.regs r_edi + 1

-- `eflags` after a comparison of EAX with the byte read.
abbrev scas_eflags : ℕ → Machine → ℕ
scas_eflags v m = write_flag zero_flag (zero_test (sub32 (m.regs r_eax) v) 32) m.eflags

-- SCASB, where the byte at ES:EDI lies in memory: EDI moves by one, up or down by the direction flag,
-- nothing else changes but `eflags`, and ZF is set exactly when the byte equals the whole of EAX.
pub scasb_compares-eax :
    (b : Board) (m : Machine)
    → m.regs r_eax < 2 ^ 32
    → InBlock b (string_dest m) 1
    → (e : ℕ) × (do_string b scas str_sz_8 m ≡ ok tt (set_reg r_edi (next_edi m) (with_eflags e m)))
      × (get_bit zero_flag e ≡ flag_of (m.regs r_eax == u8 (m.mem (b.translate (string_dest m)))))
unfolding do_string do_scas string_size read_mem bus_read_8 check_access scas_flags set_zf
    set_by_size cond_flag set_eflags string_update get_flag ◌>>=◌
scasb_compares-eax b m p inside =
    let v : ℕ = u8 (m.mem (b.translate (string_dest m))) in
    let same : zero_test (sub32 (m.regs r_eax) v) 32 ≡ (m.regs r_eax == v) = ground arith in
    let there : leb (b.translate (string_dest m) + 1) b.extent ≡ true = ground (arith, inside) in
    let kept : get_bit direction (scas_eflags v m) ≡ get_bit direction m.eflags =
      get_bit-write_flag zero_flag direction _ m.eflags fits_6 (omega arith) in
    (
      scas_eflags v m,
      rw (there, kept)
          (elim (Bool-cases (get_bit direction m.eflags == 1)) [
            | inl down ↦ rw down refl
            | inr up ↦ rw up refl
          ]),
      simp flag_laws (ap flag_of same),
    )

-- With the row's flag for a word or doubleword SCAS changes no flag.
pub scasw_leaves : (val2 : ℕ) (m : Machine) → scas_flags str_sz_1632 val2 m ≡ ok tt m
unfolding scas_flags ◌>>=◌
scasw_leaves val2 m = refl
