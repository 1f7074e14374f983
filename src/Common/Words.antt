-- ===== src/Common/Words.antt =====
-- The casts of C to a fixed width, subtraction that wraps, and stores as functions.
use Prim.Native.Nat.{ℕ, ◌+◌, ◌-◌, ◌%◌, ◌^◌}
use topgun.Common.Tests.{◌==◌, if◌then◌else◌, ltb}

abbrev pub u8 : ℕ → ℕ
u8 n = n % 2 ^ 8

abbrev pub u16 : ℕ → ℕ
u16 n = n % 2 ^ 16

abbrev pub u32 : ℕ → ℕ
u32 n = n % 2 ^ 32

abbrev pub u64 : ℕ → ℕ
u64 n = n % 2 ^ 64

-- `a - b` on `uint32_t`, for any two values of that type.
abbrev pub sub32 : ℕ → ℕ → ℕ
sub32 a b = u32 (a + 2 ^ 32 - b)

-- The sign extensions `SX8` and `SX16`, read as a `uint32_t`.
abbrev pub sx8 : ℕ → ℕ
sx8 n = if ltb (u8 n) 0x80 then u8 n else u8 n + 0xffffff00

abbrev pub sx16 : ℕ → ℕ
sx16 n = if ltb (u16 n) 0x8000 then u16 n else u16 n + 0xffff0000

module _ {ℓ} {A : Type ℓ} where
  -- An array as a function of the index, with one entry replaced.
  abbrev pub update : (ℕ → A) → ℕ → A → ℕ → A
  update f i v j = if i == j then v else f j
