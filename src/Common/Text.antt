-- ===== src/Common/Text.antt =====
-- Text as lists of character codes, and the conversion `%0wx` of `printf`.
use Prim.Native.Char.{code}
use Prim.Native.Nat.{ℕ, zero, suc, ◌+◌, ◌-◌, ◌/◌, ◌%◌, ◌^◌}
use Prim.Native.String.{String}
use mathlib.Core.List.{List, [], ◌∷◌, ◌++◌}
use topgun.Common.Tests.{ltb, if◌then◌else◌}
use topgun.Common.Words.{u32}

abbrev pub Text : Type 0
Text = List ℕ

abbrev pub codes : String → Text
codes String.[] = []
codes (String.◌∷◌ c s) = code c ∷ codes s

unfoldable pub hex_digit : ℕ → ℕ
hex_digit d = if ltb d 10 then b'0' + d else b'a' + d - 10

-- The last `w` digits.
unfoldable pub hex_digits : ℕ → ℕ → Text
hex_digits zero n = []
hex_digits (suc w) n = hex_digits w (n / 16) ++ hex_digit (n % 16) ∷ []

-- As many digits as are needed, and at least `w`.
unfoldable pub hex_wide : ℕ → ℕ → ℕ → Text
hex_wide zero w n = hex_digits w n
hex_wide (suc more) w n = if ltb n (16 ^ w) then hex_digits w n else hex_wide more (suc w) n

-- `%0wx` of a 32-bit number: eight digits are always enough.
unfoldable pub hex : ℕ → ℕ → Text
unfolding hex_wide
hex w n = hex_wide 8 w (u32 n)
