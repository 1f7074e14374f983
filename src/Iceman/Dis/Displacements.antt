-- ===== src/Iceman/Dis/Displacements.antt =====
-- A displacement's text says the number that the processor adds to the base.
use topgun.Common.{
  ℕ, zero, suc, ◌+◌, ◌-◌, ◌*◌, ◌/◌, ◌%◌, ◌^◌, ◌<◌, ◌≡◌, ◌∙◌, ap, [], ◌∷◌, ◌++◌, ltb, if◌then◌else◌,
  ◌==◌, u8, u16, u32, sx8, sx16, arith, Bool-cases, inl, inr, ltb-true,
}
use mathlib.Core.List.{append_assoc, append-nil}
use native.Mathlib.Nat.{pow-succ'}
use topgun.Common.Text.{Text, hex_digit, hex_digits, hex_wide, hex}
use topgun.Iceman.Dis.Address.{pdisp8, pdisp16, pdisp32}

abbrev pub digit_value : ℕ → ℕ
digit_value c = if ltb c b'a' then c - b'0' else c + 10 - b'a'

-- What a text of hexadecimal digits says.
unfoldable pub of_hex : Text → ℕ → ℕ
of_hex [] n = n
of_hex (c ∷ s) n = of_hex s (n * 16 + digit_value c)

-- What a sign, `0x` and digits say, as a 32-bit number.
unfoldable pub signed_value : Text → ℕ
unfolding of_hex
signed_value (sign ∷ o ∷ x ∷ digits) =
    if sign == b'+' then of_hex digits 0 else u32 (2 ^ 32 - of_hex digits 0)
signed_value s = 0

value-hex_digit : (d : ℕ) → d < 16 → digit_value (hex_digit d) ≡ d
unfolding hex_digit
value-hex_digit d h = ground arith

pow_suc : (w : ℕ) → 16 ^ suc w ≡ 16 ^ w * 16
pow_suc w = omega (arith, pow-succ' 16 w)

-- One digit more.
next_digit : (acc p n : ℕ) → (acc * p + n / 16) * 16 + n % 16 ≡ acc * (p * 16) + n
next_digit acc p n = grind arith

of_hex-hex_digits :
    (w n acc : ℕ) (rest : Text)
    → n < 16 ^ w
    → of_hex (hex_digits w n ++ rest) acc ≡ of_hex rest (acc * 16 ^ w + n)
unfolding of_hex hex_digits
of_hex-hex_digits zero n acc rest h = ap (of_hex rest) (omega arith)
of_hex-hex_digits (suc w) n acc rest h = rw append_assoc (
    of_hex-hex_digits w (n / 16) acc (hex_digit (n % 16) ∷ rest) (omega (arith, pow_suc w))
    ∙ ap (of_hex rest)
        (rw (value-hex_digit (n % 16) (omega arith), pow_suc w) (next_digit acc (16 ^ w) n)))

hex-small : (w n : ℕ) → n < 16 ^ w → n < 2 ^ 32 → hex w n ≡ hex_digits w n
unfolding hex
hex-small w n h k = let same : u32 n ≡ n = omega arith in rw (same, hex_wide, ltb-true h)

-- Digits with no sign before them.
of_hex-hex : (w n : ℕ) → n < 16 ^ w → n < 2 ^ 32 → of_hex (hex w n) 0 ≡ n
unfolding of_hex
of_hex-hex w n h k =
    rw (hex-small w n h k, ← append-nil (hex_digits w n))
      (of_hex-hex_digits w n 0 [] h ∙ omega arith)

-- The displacements of one, two and four bytes are printed as the signed numbers that the decoder
-- adds: the sign and the digits read back as the sign-extended displacement, modulo 2^32.
pub signed_value-pdisp :
    (num : ℕ)
    → (signed_value (pdisp8 num) ≡ sx8 num)
      × (signed_value (pdisp16 num) ≡ sx16 num)
      × (signed_value (pdisp32 num) ≡ u32 num)
unfolding signed_value pdisp8 pdisp16 pdisp32
signed_value-pdisp num = (
  elim (Bool-cases (ltb (u8 num) 0x80)) [
    | inl h ↦ rw h (of_hex-hex 2 _ (omega arith) (omega arith))
    | inr h ↦ rw (h, of_hex-hex 2 (2 ^ 8 - u8 num) (ground arith) (omega arith)) (ground arith)
  ],
  elim (Bool-cases (ltb (u16 num) 0x8000)) [
    | inl h ↦ rw h (of_hex-hex 4 _ (omega arith) (omega arith))
    | inr h ↦ rw (h, of_hex-hex 4 (2 ^ 16 - u16 num) (ground arith) (omega arith)) (ground arith)
  ],
  elim (Bool-cases (ltb (u32 num) 0x80000000)) [
    | inl h ↦ rw h (of_hex-hex 8 _ (omega arith) (omega arith))
    | inr h ↦ rw (h, of_hex-hex 8 (2 ^ 32 - u32 num) (ground arith) (ground arith)) (ground arith)
  ],
)
