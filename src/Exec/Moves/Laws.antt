-- ===== src/Exec/Moves/Laws.antt =====
-- SAHF after LAHF.
use topgun.Common.{ℕ, ◌^◌, ◌<◌, ◌≡◌, ◌∙◌, refl, ◌==◌, u8, arith}
use topgun.Common.Bits.{bit, bit-lt, bit-mod}
use topgun.Isa.Codes.{ah, carry, parity, ac, zero_flag, sign}
use topgun.Machine.{Machine, set_reg, set_eflags}
use topgun.Machine.Outcome.{ok, ◌>>=◌, ◌>>◌}
use topgun.Machine.Flags.{get_bit, put_bit, write_flag, cond_flag}
use topgun.Machine.Flags.Laws.{get_bit-write_flag}
use topgun.Machine.Regs.{get_reg_8, set_reg_8}
use topgun.Exec.Moves.{do_sahf, do_lahf}
use topgun.Exec.Alu.Laws.{with_eflags}

-- `eflags` after SAHF, for the byte in AH.
abbrev stored_flags : ℕ → ℕ → ℕ
stored_flags byte e = write_flag sign (bit byte sign == 1) (
    write_flag zero_flag (bit byte zero_flag == 1) (
      write_flag ac (bit byte ac == 1)
        (write_flag parity (bit byte parity == 1) (write_flag carry (bit byte carry == 1) e))))

sahf-runs :
    (m : Machine) → do_sahf m ≡ ok tt (with_eflags (stored_flags (get_reg_8 ah m) m.eflags) m)
unfolding do_sahf cond_flag set_eflags ◌>>=◌
sahf-runs m = refl

low_byte : (m : Machine) → m.regs 0 < 2 ^ 32 → get_reg_8 ah (set_reg_8 ah m.eflags m) ≡ u8 m.eflags
unfolding get_reg_8 set_reg_8 set_reg
low_byte m fits = ground arith

-- Two values of `eflags` with the same bits.
abbrev pub SameFlags : ℕ → ℕ → Type 0
SameFlags e e' = (i : ℕ) → i < 32 → get_bit i e ≡ get_bit i e'

-- Writing back a flag's own value from the low byte.
copy-SameFlags :
    (flag e x : ℕ)
    → flag < 8
    → SameFlags x e
    → SameFlags (write_flag flag (bit (u8 e) flag == 1) x) e
copy-SameFlags flag e x low same i small =
    get_bit-write_flag flag i (bit (u8 e) flag == 1) x (omega (arith, low)) small
    ∙ ground (arith, same i small, bit-mod 8 flag e low, bit-lt e flag)

stored-SameFlags : (e : ℕ) → SameFlags (stored_flags (u8 e) e) e
stored-SameFlags e = copy-SameFlags sign e _ (omega arith) (
    copy-SameFlags zero_flag e _ (omega arith) (
      copy-SameFlags ac e _ (omega arith) (
        copy-SameFlags parity e _ (omega arith)
          (copy-SameFlags carry e e (omega arith) (λ i small. refl)))))

-- SAHF after LAHF changes no bit of `eflags`, and beside it only AH.
sahf-lahf :
    (m : Machine)
    → m.regs 0 < 2 ^ 32
    → (e : ℕ) × ((do_lahf >> do_sahf) m ≡ ok tt (with_eflags e (set_reg_8 ah m.eflags m)))
      × SameFlags e m.eflags
unfolding do_lahf ◌>>=◌ set_reg_8 put_bit set_reg
sahf-lahf m fits = (
  stored_flags (u8 m.eflags) m.eflags,
  rw (sahf-runs (set_reg_8 ah m.eflags m), low_byte m fits),
  stored-SameFlags m.eflags,
)
