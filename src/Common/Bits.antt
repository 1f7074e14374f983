-- ===== src/Common/Bits.antt =====
-- The binary digits of a number, and those of `|`, `&`, `^` and `~`.
use Prim.Native.Nat.{ℕ, zero, suc, ◌+◌, ◌-◌, ◌*◌, ◌/◌, ◌%◌, ◌^◌, ◌≤◌, ◌<◌, min, max}
use Prim.Native.Nat.{bit_and, bit_or, bit_xor, digits, bitwise, differ}
use Prim.Native.Nat.{bit_and-bitwise, bit_or-bitwise, bit_xor-bitwise}
use native.Mathlib.Nat.{le_refl, pow-succ', div-div-eq-div-mul, div-one, zero-div, one-le-pow}
use native.Mathlib.Nat.{mul-add-mod_self_right, mod-eq_of_lt, mod-lt, div-add-mod'}
use mathlib.Core.Path.{◌≡◌, refl, sym, ap, ◌∙◌}
use native.Mathlib.Omega.{arith}
use topgun.Common.Tests.{◌==◌, flag_of}

-- The digit of weight `2 ^ i`.
abbrev pub bit : ℕ → ℕ → ℕ
bit a i = a / 2 ^ i % 2

pub bit-suc : (a i : ℕ) → bit a (suc i) ≡ bit (a / 2) i
bit-suc a i =
    ap (λ (t : ℕ). t % 2)
      (ap (λ (t : ℕ). a / t) (pow-succ' 2 i) ∙ sym (div-div-eq-div-mul a 2 (2 ^ i)))

-- An operation on two numbers that works digit by digit.
module _ (z : ℕ → ℕ) (f : ℕ → ℕ → ℕ) where
  same_digits : (n m a b : ℕ) → a ≤ n → a ≤ m → digits z f n a b ≡ digits z f m a b
  same_digits zero zero _ b p q = refl
  same_digits (suc n) zero zero b p q = refl
  same_digits zero (suc m) zero b p q = refl
  same_digits (suc n) (suc m) zero b p q = refl
  same_digits zero (suc m) (suc a) b p q = absurd (omega arith)
  same_digits (suc n) zero (suc a) b p q = absurd (omega arith)
  same_digits (suc n) (suc m) (suc a) b p q =
      omega (arith, same_digits n m (suc a / 2) (b / 2) (omega arith) (omega arith))

  module _ (base : (b : ℕ) → z b ≡ z (b / 2) * 2 + f 0 (b % 2)) where
    low_digit : (a b : ℕ) → bitwise z f a b ≡ bitwise z f (a / 2) (b / 2) * 2 + f (a % 2) (b % 2)
    low_digit zero b = base b
    low_digit (suc a) b =
        omega (arith, same_digits a (suc a / 2) (suc a / 2) (b / 2) (omega arith) (le_refl _))

    module _ (small : (x y : ℕ) → x < 2 → y < 2 → f x y < 2) where
      bit-bitwise : (i a b : ℕ) → bit (bitwise z f a b) i ≡ f (bit a i) (bit b i)
      bit-bitwise zero a b =
          simp div-one
            (omega (arith, low_digit a b, small (a % 2) (b % 2) (omega arith) (omega arith)))
      bit-bitwise (suc i) a b =
          rw (bit-suc (bitwise z f a b) i, halved, bit-suc a i, bit-suc b i)
            (bit-bitwise i (a / 2) (b / 2))
        where
          halved : bitwise z f a b / 2 ≡ bitwise z f (a / 2) (b / 2)
          halved = omega (arith, low_digit a b, small (a % 2) (b % 2) (omega arith) (omega arith))

differ-mod : (x y : ℕ) → x < 2 → y < 2 → differ x y ≡ (x + y) % 2
differ-mod zero y p q = omega arith
differ-mod (suc zero) zero p q = refl
differ-mod (suc zero) (suc zero) p q = refl
differ-mod (suc zero) (suc (suc y)) p q = absurd (omega arith)
differ-mod (suc (suc x)) y p q = absurd (omega arith)

min-lt : (x y : ℕ) → x < 2 → y < 2 → min x y < 2
min-lt x y p q = omega arith

max-lt : (x y : ℕ) → x < 2 → y < 2 → max x y < 2
max-lt x y p q = omega arith

differ-lt : (x y : ℕ) → x < 2 → y < 2 → differ x y < 2
differ-lt x y p q = omega (arith, differ-mod x y p q)

pub bit-bit_and : (a b i : ℕ) → bit (bit_and a b) i ≡ min (bit a i) (bit b i)
bit-bit_and a b i =
    rw (bit_and-bitwise a b) (bit-bitwise (λ _. 0) min (λ b. omega arith) min-lt i a b)

pub bit-bit_or : (a b i : ℕ) → bit (bit_or a b) i ≡ max (bit a i) (bit b i)
bit-bit_or a b i =
    rw (bit_or-bitwise a b) (bit-bitwise (λ y. y) max (λ b. omega arith) max-lt i a b)

pub bit-bit_xor : (a b i : ℕ) → bit (bit_xor a b) i ≡ (bit a i + bit b i) % 2
bit-bit_xor a b i =
    rw (bit_xor-bitwise a b) (
      bit-bitwise (λ y. y) differ
        (λ b. omega (arith, differ-mod 0 (b % 2) (omega arith) (omega arith))) differ-lt i a b)
    ∙ differ-mod (bit a i) (bit b i) (omega arith) (omega arith)

-- The digits of a power of two, and those of the complement within a width.
pub bit-pow : (k i : ℕ) → bit (2 ^ k) i ≡ flag_of (k == i)
bit-pow zero zero = refl
bit-pow zero (suc i) = rw (bit-suc 1 i, zero-div) (ground arith)
bit-pow (suc k) zero = rw div-one (ground (arith, pow-succ' 2 k))
bit-pow (suc k) (suc i) = rw (bit-suc (2 ^ suc k) i, half) (ground (arith, bit-pow k i))
  where
    half : 2 ^ suc k / 2 ≡ 2 ^ k
    half = omega (arith, pow-succ' 2 k)

pub bit-complement : (w i x : ℕ) → i < w → x < 2 ^ w → bit (2 ^ w - 1 - x) i ≡ 1 - bit x i
bit-complement zero i x p q = absurd (omega arith)
bit-complement (suc w) zero x p q = simp div-one (omega (arith, pow-succ' 2 w))
bit-complement (suc w) (suc i) x p q =
    rw (bit-suc (2 ^ suc w - 1 - x) i, bit-suc x i, half)
      (bit-complement w i (x / 2) (omega arith) (omega (arith, pow-succ' 2 w)))
  where
    half : (2 ^ suc w - 1 - x) / 2 ≡ 2 ^ w - 1 - x / 2
    half = omega (arith, pow-succ' 2 w)

pub bit-lt : (a i : ℕ) → bit a i < 2
bit-lt a i = omega arith

-- A remainder by `2 * p` has the lowest digit, and above it a remainder by `p`.
mod_double : (p x : ℕ) → 0 < p → x % (2 * p) ≡ 2 * (x / 2 % p) + x % 2
mod_double p x pos =
    ap (λ (t : ℕ). t % (2 * p)) split ∙ mul-add-mod_self_right q (2 * p) c ∙ mod-eq_of_lt c_fits
  where
    q : ℕ
    q = x / 2 / p

    c : ℕ
    c = 2 * (x / 2 % p) + x % 2

    c_fits : c < 2 * p
    c_fits = omega (arith, mod-lt (x / 2) pos)

    split : x ≡ q * (2 * p) + c
    split = omega (arith, div-add-mod' (x / 2) p)

mod_pow_suc : (w x : ℕ) → x % 2 ^ suc w ≡ 2 * (x / 2 % 2 ^ w) + x % 2
mod_pow_suc w x = rw (pow-succ' 2 w) (mod_double (2 ^ w) x (one-le-pow w 2 (omega arith)))

-- A cast to `w` bits keeps the digits below `w`.
pub bit-mod : (w i x : ℕ) → i < w → bit (x % 2 ^ w) i ≡ bit x i
bit-mod zero i x p = absurd (omega arith)
bit-mod (suc w) zero x p = simp div-one (omega (arith, mod_pow_suc w x))
bit-mod (suc w) (suc i) x p =
    rw (bit-suc (x % 2 ^ suc w) i, bit-suc x i, half) (bit-mod w i (x / 2) (omega arith))
  where
    half : x % 2 ^ suc w / 2 ≡ x / 2 % 2 ^ w
    half = omega (arith, mod_pow_suc w x)
