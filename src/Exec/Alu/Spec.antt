-- ===== src/Exec/Alu/Spec.antt =====
-- What the flags of an addition and a subtraction mean, in terms of the numbers and not of the
-- bits of the result: the carry and the borrow, and the range of the signed result.
use topgun.Common.{ℕ, ◌+◌, ◌-◌, ◌*◌, ◌%◌, ◌^◌, ◌≡◌, Bool, not, ◌&&◌, ◌==◌, ltb, leb, flag_of}
use topgun.Common.Bits.{bit}
use topgun.Isa.{OperandSize, sz_8, sz_16, sz_32}
use topgun.Isa.Codes.{carry, parity, ac, zero_flag, sign, overflow}
use topgun.Machine.Flags.{get_bit}
use topgun.Exec.SetFlags.{parity_test}

-- The sizes that ALU operands have.
abbrev pub IsPlain : OperandSize → Type 0
IsPlain sz_8 = Unit
IsPlain sz_16 = Unit
IsPlain sz_32 = Unit
IsPlain _ = ⊥

-- The low `w` bits of `a` as a signed number, plus `2 ^ (w - 1)`.
abbrev pub biased : ℕ → ℕ → ℕ
biased w a = (a + 2 ^ (w - 1)) % 2 ^ w

-- The signed sum, or difference, of two numbers and a carry fits `w` bits.
abbrev pub sum_in_range : ℕ → ℕ → ℕ → ℕ → Bool
sum_in_range w a b c =
    leb (2 ^ (w - 1)) (biased w a + biased w b + c)
    && ltb (biased w a + biased w b + c) (3 * 2 ^ (w - 1))

abbrev pub difference_in_range : ℕ → ℕ → ℕ → ℕ → Bool
difference_in_range w a b c =
    leb (biased w b + c) (biased w a + 2 ^ (w - 1))
    && ltb (biased w a) (biased w b + c + 2 ^ (w - 1))

-- The flags after an addition of `w`-bit numbers whose sum leaves `e` in `eflags`. The carry is
-- the one out of `w` bits if `w` is below 32, and 0 if it is 32.
pub record AddFlags (w a b c e : ℕ) : Type 0 where
  pub carry_is : get_bit carry e ≡ flag_of (ltb w 32 && leb (2 ^ w) (a + b + c))
  pub parity_is : get_bit parity e ≡ flag_of (parity_test (a + b + c))
  pub adjust_is : get_bit ac e ≡ flag_of (leb 16 (a % 16 + b % 16 + c))
  pub zero_is : get_bit zero_flag e ≡ flag_of ((a + b + c) % 2 ^ w == 0)
  pub sign_is : get_bit sign e ≡ bit (a + b + c) (w - 1)
  pub overflow_is : get_bit overflow e ≡ flag_of (not (sum_in_range w a b c))

-- The same for a subtraction and its borrow.
pub record SubFlags (w a b c e : ℕ) : Type 0 where
  pub carry_is : get_bit carry e ≡ flag_of (ltb w 32 && ltb a (b + c))
  pub parity_is : get_bit parity e ≡ flag_of (parity_test (a + 2 ^ 32 - b - c))
  pub adjust_is : get_bit ac e ≡ flag_of (ltb (a % 16) (b % 16 + c))
  pub zero_is : get_bit zero_flag e ≡ flag_of ((a + 2 ^ 32 - b - c) % 2 ^ w == 0)
  pub sign_is : get_bit sign e ≡ bit (a + 2 ^ 32 - b - c) (w - 1)
  pub overflow_is : get_bit overflow e ≡ flag_of (not (difference_in_range w a b c))
