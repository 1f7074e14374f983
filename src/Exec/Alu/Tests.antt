-- ===== src/Exec/Alu/Tests.antt =====
-- The overflow, adjust, sign and zero tests of the macros, which look at the bits of a 32-bit
-- result, agree with the numbers at each operand width.
use topgun.Common.{ℕ, ◌+◌, ◌%◌, ◌^◌, ◌≡◌, ◌<◌, bit_xor, false, not, ltb, leb, u32, sub32, arith}
use topgun.Common.Bits.{bit-bit_xor}
use topgun.Exec.SetFlags.{overflow_add_test, overflow_sub_test, adjust_test, carry_test}
use topgun.Exec.Alu.Spec.{sum_in_range, difference_in_range}

-- The results of ADD or ADC, and of SUB, SBB or CMP, as the code computes them.
abbrev pub sum : ℕ → ℕ → ℕ → ℕ
sum a b c = u32 (c + (a + b))

abbrev pub difference : ℕ → ℕ → ℕ → ℕ
difference a b c = sub32 (sub32 a b) c

module _ (a b c : ℕ) (one_bit : c < 2) where
  pub overflow_add_8 :
      a < 2 ^ 8 → b < 2 ^ 8 → overflow_add_test a b (sum a b c) 8 ≡ not (sum_in_range 8 a b c)
  overflow_add_8 p q = ground arith

  pub overflow_sub_8 :
      a < 2 ^ 8
      → b < 2 ^ 8
      → overflow_sub_test a b (difference a b c) 8 ≡ not (difference_in_range 8 a b c)
  overflow_sub_8 p q = ground arith

  pub overflow_add_16 :
      a < 2 ^ 16 → b < 2 ^ 16 → overflow_add_test a b (sum a b c) 16 ≡ not (sum_in_range 16 a b c)
  overflow_add_16 p q = ground arith

  pub overflow_sub_16 :
      a < 2 ^ 16
      → b < 2 ^ 16
      → overflow_sub_test a b (difference a b c) 16 ≡ not (difference_in_range 16 a b c)
  overflow_sub_16 p q = ground arith

  pub overflow_add_32 :
      a < 2 ^ 32 → b < 2 ^ 32 → overflow_add_test a b (sum a b c) 32 ≡ not (sum_in_range 32 a b c)
  overflow_add_32 p q = ground arith

  pub overflow_sub_32 :
      a < 2 ^ 32
      → b < 2 ^ 32
      → overflow_sub_test a b (difference a b c) 32 ≡ not (difference_in_range 32 a b c)
  overflow_sub_32 p q = ground arith

  pub carry_add_8 : a < 2 ^ 8 → b < 2 ^ 8 → carry_test (sum a b c) 8 ≡ leb (2 ^ 8) (a + b + c)
  carry_add_8 p q = ground arith

  pub carry_sub_8 : a < 2 ^ 8 → b < 2 ^ 8 → carry_test (difference a b c) 8 ≡ ltb a (b + c)
  carry_sub_8 p q = ground arith

  pub carry_add_16 : a < 2 ^ 16 → b < 2 ^ 16 → carry_test (sum a b c) 16 ≡ leb (2 ^ 16) (a + b + c)
  carry_add_16 p q = ground arith

  pub carry_sub_16 : a < 2 ^ 16 → b < 2 ^ 16 → carry_test (difference a b c) 16 ≡ ltb a (b + c)
  carry_sub_16 p q = ground arith

  pub adjust_add : adjust_test a b (sum a b c) ≡ leb 16 (a % 16 + b % 16 + c)
  adjust_add = ground (arith, bit-bit_xor (bit_xor a b) (sum a b c) 4, bit-bit_xor a b 4)

  pub adjust_sub :
      a < 2 ^ 32 → b < 2 ^ 32 → adjust_test a b (difference a b c) ≡ ltb (a % 16) (b % 16 + c)
  adjust_sub p q = ground (arith, bit-bit_xor (bit_xor a b) (difference a b c) 4, bit-bit_xor a b 4)

-- The 32-bit carry test looks at bit 32 of a `uint32_t`.
pub no_carry_32 : (v : ℕ) → carry_test (u32 v) 32 ≡ false
no_carry_32 v = ground arith
