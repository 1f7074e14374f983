-- ===== src/Exec/Alu/Laws.antt =====
-- The result and the flags of ADD, ADC, SUB, SBB and CMP.
use topgun.Common.{
  ℕ, ◌+◌, ◌-◌, ◌%◌, ◌^◌, ◌≡◌, ◌<◌, refl, ap, Bool, not, ◌&&◌, ◌==◌, ltb, leb, flag_of, u8, arith,
}
use topgun.Common.Bits.{bit}
use topgun.Isa.{OperandSize, sz_8, sz_16, sz_32}
use topgun.Isa.Codes.{carry, parity, ac, zero_flag, sign, overflow}
use topgun.Isa.Parity.{parity_table}
use topgun.Machine.{Machine, set_eflags}
use topgun.Machine.Outcome.{ok, ◌>>=◌}
use topgun.Machine.Flags.{write_flag, cond_flag}
use topgun.Machine.Flags.Laws.{flag_laws}
use topgun.Exec.SetFlags.{
  set_by_size, set_sf, set_cf, set_zf, set_of_add, set_of_sub, set_af, set_pf, sign_test,
  carry_test, zero_test, overflow_add_test, overflow_sub_test, adjust_test, parity_test,
}
use topgun.Exec.AluSpecial.{num_bits}
use topgun.Exec.Alu.{arith_flags, add_result, sub_result}
use topgun.Exec.Alu.Spec.{IsPlain, AddFlags, SubFlags, sum_in_range, difference_in_range}
use topgun.Exec.Alu.Tests.{
  sum, difference, overflow_add_8, overflow_add_16, overflow_add_32, overflow_sub_8,
  overflow_sub_16, overflow_sub_32, carry_add_8, carry_add_16, carry_sub_8, carry_sub_16,
  adjust_add, adjust_sub, no_carry_32,
}

-- `m` with another value of `eflags`.
abbrev pub with_eflags : ℕ → Machine → Machine
with_eflags e m = record m { cpu = record (m.cpu) { eflags = e } }

-- `eflags` after an overflow test and `arith_flags`.
unfoldable pub arith_eflags : ℕ → Bool → ℕ → ℕ → ℕ → ℕ → ℕ
arith_eflags w over a b res e = write_flag parity (parity_test res) (
    write_flag carry (carry_test res w) (
      write_flag ac (adjust_test a b res) (
        write_flag zero_flag (zero_test res w)
          (write_flag sign (sign_test res w) (write_flag overflow over e)))))

module _ (a b c : ℕ) (m : Machine) where
  add_result-runs :
      (size : OperandSize)
      → IsPlain size
      → add_result size a b c m
        ≡ ok (sum a b c) (
            with_eflags
              (arith_eflags
                (num_bits size)
                (overflow_add_test a b (sum a b c) (num_bits size))
                a
                b
                (sum a b c)
                m.eflags)
              m)
  unfolding add_result arith_flags set_of_add set_by_size set_sf set_zf set_af set_cf set_pf
      cond_flag set_eflags arith_eflags num_bits ◌>>=◌
  add_result-runs sz_8 p = refl
  add_result-runs sz_16 p = refl
  add_result-runs sz_32 p = refl
  add_result-runs _ p = absurd p

  sub_result-runs :
      (size : OperandSize)
      → IsPlain size
      → sub_result size a b c m
        ≡ ok (difference a b c) (
            with_eflags
              (arith_eflags
                (num_bits size)
                (overflow_sub_test a b (difference a b c) (num_bits size))
                a
                b
                (difference a b c)
                m.eflags)
              m)
  unfolding sub_result arith_flags set_of_sub set_by_size set_sf set_zf set_af set_cf set_pf
      cond_flag set_eflags arith_eflags num_bits ◌>>=◌
  sub_result-runs sz_8 p = refl
  sub_result-runs sz_16 p = refl
  sub_result-runs sz_32 p = refl
  sub_result-runs _ p = absurd p

parity-same : (u v : ℕ) → u8 u ≡ u8 v → parity_test u ≡ parity_test v
parity-same u v h = ap (λ (t : ℕ). parity_table t == 0) h

-- The flags by width, from what the four tests that depend on it come to.
module _ (w a b c e : ℕ) (over : Bool) where
  AddFlags-intro :
      carry_test (sum a b c) w ≡ (ltb w 32 && leb (2 ^ w) (a + b + c))
      → over ≡ not (sum_in_range w a b c)
      → zero_test (sum a b c) w ≡ ((a + b + c) % 2 ^ w == 0)
      → flag_of (sign_test (sum a b c) w) ≡ bit (a + b + c) (w - 1)
      → c < 2
      → AddFlags w a b c (arith_eflags w over a b (sum a b c) e)
  unfolding arith_eflags
  AddFlags-intro carries overflows zeros signs one_bit = record {
    carry_is = simp flag_laws (ap flag_of carries);
    parity_is = simp flag_laws (ap flag_of (parity-same _ _ (omega arith)));
    adjust_is = simp flag_laws (ap flag_of (adjust_add a b c one_bit));
    zero_is = simp flag_laws (ap flag_of zeros);
    sign_is = simp flag_laws signs;
    overflow_is = simp flag_laws (ap flag_of overflows);
  }

  SubFlags-intro :
      carry_test (difference a b c) w ≡ (ltb w 32 && ltb a (b + c))
      → over ≡ not (difference_in_range w a b c)
      → zero_test (difference a b c) w ≡ ((a + 2 ^ 32 - b - c) % 2 ^ w == 0)
      → flag_of (sign_test (difference a b c) w) ≡ bit (a + 2 ^ 32 - b - c) (w - 1)
      → c < 2
      → a < 2 ^ 32
      → b < 2 ^ 32
      → SubFlags w a b c (arith_eflags w over a b (difference a b c) e)
  unfolding arith_eflags
  SubFlags-intro carries overflows zeros signs one_bit p q = record {
    carry_is = simp flag_laws (ap flag_of carries);
    parity_is = simp flag_laws (ap flag_of (parity-same _ _ (omega arith)));
    adjust_is = simp flag_laws (ap flag_of (adjust_sub a b c one_bit p q));
    zero_is = simp flag_laws (ap flag_of zeros);
    sign_is = simp flag_laws signs;
    overflow_is = simp flag_laws (ap flag_of overflows);
  }

module _ (a b c e : ℕ) (one_bit : c < 2) where
  arith_eflags-AddFlags :
      (size : OperandSize)
      → IsPlain size
      → a < 2 ^ num_bits size
      → b < 2 ^ num_bits size
      → AddFlags (num_bits size) a b c (
          arith_eflags
            (num_bits size)
            (overflow_add_test a b (sum a b c) (num_bits size))
            a
            b
            (sum a b c)
            e)
  unfolding num_bits
  arith_eflags-AddFlags sz_8 plain p q =
      AddFlags-intro 8 a b c e _ (carry_add_8 a b c one_bit p q) (overflow_add_8 a b c one_bit p q)
        (ground arith) (ground arith) one_bit
  arith_eflags-AddFlags sz_16 plain p q =
      AddFlags-intro 16 a b c e _ (carry_add_16 a b c one_bit p q)
        (overflow_add_16 a b c one_bit p q) (ground arith) (ground arith) one_bit
  arith_eflags-AddFlags sz_32 plain p q =
      AddFlags-intro 32 a b c e _ (no_carry_32 _) (overflow_add_32 a b c one_bit p q) (ground arith)
        (ground arith) one_bit
  arith_eflags-AddFlags _ plain p q = absurd plain

  arith_eflags-SubFlags :
      (size : OperandSize)
      → IsPlain size
      → a < 2 ^ num_bits size
      → b < 2 ^ num_bits size
      → SubFlags (num_bits size) a b c (
          arith_eflags
            (num_bits size)
            (overflow_sub_test a b (difference a b c) (num_bits size))
            a
            b
            (difference a b c)
            e)
  unfolding num_bits
  arith_eflags-SubFlags sz_8 plain p q =
      SubFlags-intro 8 a b c e _ (carry_sub_8 a b c one_bit p q) (overflow_sub_8 a b c one_bit p q)
        (ground arith) (ground arith) one_bit (omega arith) (omega arith)
  arith_eflags-SubFlags sz_16 plain p q =
      SubFlags-intro 16 a b c e _ (carry_sub_16 a b c one_bit p q)
        (overflow_sub_16 a b c one_bit p q) (ground arith) (ground arith) one_bit (omega arith)
        (omega arith)
  arith_eflags-SubFlags sz_32 plain p q =
      SubFlags-intro 32 a b c e _ (no_carry_32 _) (overflow_sub_32 a b c one_bit p q) (ground arith)
        (ground arith) one_bit p q
  arith_eflags-SubFlags _ plain p q = absurd plain

-- An addition of two operands that fit its width returns their sum and the carry, changes nothing
-- but `eflags`, and leaves there the flags of that sum.
pub add_result-AddFlags :
    (size : OperandSize) (a b c : ℕ) (m : Machine)
    → IsPlain size
    → a < 2 ^ num_bits size
    → b < 2 ^ num_bits size
    → c < 2
    → (e : ℕ) × (add_result size a b c m ≡ ok (sum a b c) (with_eflags e m))
      × AddFlags (num_bits size) a b c e
add_result-AddFlags size a b c m plain p q one_bit = (
  _,
  add_result-runs a b c m size plain,
  arith_eflags-AddFlags a b c m.eflags one_bit size plain p q,
)

-- A subtraction of two operands that fit its width returns their difference less the borrow, changes
-- nothing but `eflags`, and leaves there the flags of that difference.
pub sub_result-SubFlags :
    (size : OperandSize) (a b c : ℕ) (m : Machine)
    → IsPlain size
    → a < 2 ^ num_bits size
    → b < 2 ^ num_bits size
    → c < 2
    → (e : ℕ) × (sub_result size a b c m ≡ ok (difference a b c) (with_eflags e m))
      × SubFlags (num_bits size) a b c e
sub_result-SubFlags size a b c m plain p q one_bit = (
  _,
  sub_result-runs a b c m size plain,
  arith_eflags-SubFlags a b c m.eflags one_bit size plain p q,
)
