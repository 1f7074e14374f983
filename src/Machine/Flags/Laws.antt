-- ===== src/Machine/Flags/Laws.antt =====
-- Reading a flag after writing one.
use topgun.Common.{
  ℕ, ◌-◌, ◌^◌, ◌<◌, ◌≡◌, ◌∙◌, Bool, true, false, if◌then◌else◌, ◌==◌, flag_of, arith,
}
use topgun.Common.Bits.{bit-bit_or, bit-bit_and, bit-pow, bit-complement, bit-lt, bit-mod}
use native.Mathlib.Nat.{pow-le-pow_right}
use topgun.Machine.Flags.{get_bit, put_bit, write_flag}

-- Writing one flag sets that flag to the value written and leaves the others.
pub get_bit-put_bit :
    (flag other : ℕ) (val : Bool) (e : ℕ)
    → flag < 32
    → other < 32
    → get_bit other (put_bit flag val e) ≡ (if flag == other then flag_of val else get_bit other e)
unfolding put_bit
get_bit-put_bit flag other true e p q =
    bit-bit_or e (2 ^ flag) other ∙ ground (arith, bit-pow flag other, bit-lt e other)
get_bit-put_bit flag other false e p q =
    bit-bit_and e (2 ^ 32 - 1 - 2 ^ flag) other
    ∙ ground (arith, bit-complement 32 other (2 ^ flag) q fits, bit-pow flag other, bit-lt e other)
  where
    fits : 2 ^ flag < 2 ^ 32
    fits = omega (arith, pow-le-pow_right {n = 2} (omega arith) {i = flag} {j = 31} (omega arith))

pub get_bit-write_flag :
    (flag other : ℕ) (val : Bool) (e : ℕ)
    → flag < 32
    → other < 32
    → get_bit other (write_flag flag val e)
      ≡ (if flag == other then flag_of val else get_bit other e)
get_bit-write_flag flag other val e p q =
    bit-mod 32 other (put_bit flag val e) q ∙ get_bit-put_bit flag other val e p q

pub fits_0 : 0 < 32
fits_0 = omega arith

pub fits_2 : 2 < 32
fits_2 = omega arith

pub fits_4 : 4 < 32
fits_4 = omega arith

pub fits_6 : 6 < 32
fits_6 = omega arith

pub fits_7 : 7 < 32
fits_7 = omega arith

pub fits_11 : 11 < 32
fits_11 = omega arith

-- For `simp`: reads a flag through the flags written before it.
pub ruleset flag_laws = (get_bit-write_flag, fits_0, fits_2, fits_4, fits_6, fits_7, fits_11)
