-- ===== src/Maverick/Dump/Flags.antt =====
-- The letters of the flags say which flags are set.
use topgun.Common.{
  ℕ, ◌≡◌, refl, sym, [], ◌∷◌, ◌++◌, Bool, true, false, not, ◌||◌, ◌==◌, if◌then◌else◌, arith,
}
use topgun.Common.Bits.{bit}
use topgun.Common.Text.{Text}
use topgun.Isa.Codes.{carry, parity, ac, zero_flag, sign, trap, interrupt, direction, overflow}
use topgun.Maverick.Dump.{nested, resume, v8086, print_flag, flag_letters}

-- The text has the character.
abbrev pub shows : ℕ → Text → Bool
shows c [] = false
shows c (x ∷ s) = (c == x) || shows c s

or_assoc : (a b c : Bool) → ((a || b) || c) ≡ (a || (b || c))
or_assoc true b c = refl
or_assoc false b c = refl

shows-append : (c : ℕ) (s t : Text) → shows c (s ++ t) ≡ (shows c s || shows c t)
shows-append c [] t = refl
shows-append c (x ∷ s) t = rw (shows-append c s t) (sym (or_assoc (c == x) (shows c s) (shows c t)))

shows-print_flag :
    (c eflags mask : ℕ) (s t : Text)
    → shows c (print_flag eflags mask s t) ≡ (if bit eflags mask == 1 then shows c s else shows c t)
unfolding print_flag
shows-print_flag c eflags mask s t = ground arith

if-same : (b x : Bool) → (if b then x else x) ≡ x
if-same true x = refl
if-same false x = refl

if_bool : (b : Bool) → (if b then true else false) ≡ b
if_bool true = refl
if_bool false = refl

if-not : (b : Bool) → (if b then false else true) ≡ not b
if-not true = refl
if-not false = refl

or-false : (b : Bool) → (b || false) ≡ b
or-false true = refl
or-false false = refl

ruleset letters = (shows-append, shows-print_flag, if-same, if_bool, if-not, or-false)

-- The letter is printed just if the flag is set.
abbrev pub Says : ℕ → ℕ → ℕ → Type 0
Says eflags letter flag = shows letter (flag_letters eflags) ≡ (bit eflags flag == 1)

-- All twelve letters, and `d` for a direction flag that is clear.
abbrev pub LettersSay : ℕ → Type 0
LettersSay eflags =
    Says eflags b'V' v8086
    × Says eflags b'R' resume
    × Says eflags b'N' nested
    × Says eflags b'O' overflow
    × Says eflags b'D' direction
    × Says eflags b'I' interrupt
    × Says eflags b'T' trap
    × Says eflags b'S' sign
    × Says eflags b'Z' zero_flag
    × Says eflags b'A' ac
    × Says eflags b'P' parity
    × Says eflags b'C' carry
    × (shows b'd' (flag_letters eflags) ≡ not (bit eflags direction == 1))

-- For every value of the flags register, each of the twelve letters is printed exactly if its flag
-- is set, and the letter `d` exactly if the direction flag is clear.
pub flag_letters-LettersSay : (eflags : ℕ) → LettersSay eflags
unfolding flag_letters
flag_letters-LettersSay eflags = (
  simp letters,
  simp letters,
  simp letters,
  simp letters,
  simp letters,
  simp letters,
  simp letters,
  simp letters,
  simp letters,
  simp letters,
  simp letters,
  simp letters,
  simp letters,
)
