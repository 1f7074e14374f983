-- ===== src/Locutus/State.antt =====
-- The state that the files of `locutus/` share, and code that changes it.
use topgun.Common.{ℕ, ◌+◌, ◌/◌, ◌^◌, List, if◌then◌else◌, leb, u8, update}
use topgun.Locutus.Pages.{Bitmap}

-- The tables that an entry of `ModuleThunkTable` can point to; the rest of its 256 entries are null.
pub data ThunkTable : Type 0 where
  no_table msg_imports dos_imports : ThunkTable

-- `PFBitmap`, the memory at `Os2Base`, `ModuleThunkTable` with its first entry apart, the words of
-- `MsgImportThunks` and `DosImportThunks`, the first of each being its count, and the calls of
-- `write` made so far.
pub record Os2 : Type 0 where
  pub bitmap : Bitmap
  pub mem : ℕ → ℕ
  pub module_count : ℕ
  pub modules : ℕ → ThunkTable
  pub thunks : ThunkTable → ℕ → ℕ
  pub written : List (ℕ × List ℕ)

-- `undefined` is an access outside an array or through a null pointer.
pub data Run (A : Type 0) : Type 0 where
  done : A → Os2 → Run A
  hang exited undefined out_of_fuel : Run A

abbrev pub Os2M : Type 0 → Type 0
Os2M A = Os2 → Run A

module _ {A : Type 0} where
  unfoldable pub pure : A → Os2M A
  pure a s = done a s

  unfoldable pub gets : (Os2 → A) → Os2M A
  gets f s = done (f s) s

  unfoldable pub stop : Run A → Os2M A
  stop r s = r

unfoldable pub modify : (Os2 → Os2) → Os2M (Unit {0})
modify f s = done tt (f s)

module _ {A B : Type 0} where
  abbrev pub and_then : Run A → (A → Os2M B) → Run B
  and_then (done a s) f = f a s
  and_then hang f = hang
  and_then exited f = exited
  and_then undefined f = undefined
  and_then out_of_fuel f = out_of_fuel

  infixl 5 ◌>>=◌
  -- Opening it opens the four ways to begin too.
  unfoldable pub ◌>>=◌ : Os2M A → (A → Os2M B) → Os2M B
  unfolding pure gets stop modify
  ◌>>=◌ x f s = and_then (x s) f

infixl 5 ◌>>◌
abbrev pub ◌>>◌ : {A B : Type 0} → Os2M A → Os2M B → Os2M B
x >> y = x >>= λ _. y

-- The size of the reserved address space, 512 MB.
abbrev pub os2_extent : ℕ
os2_extent = 2 ^ 29

abbrev pub with_mem : (ℕ → ℕ) → Os2 → Os2
with_mem f s = record s { mem = f }

abbrev pub with_bitmap : Bitmap → Os2 → Os2
with_bitmap f s = record s { bitmap = f }

-- Writes of one byte and of a little-endian dword.
abbrev pub store_8 : ℕ → ℕ → (ℕ → ℕ) → ℕ → ℕ
store_8 a v f = update f a (u8 v)

abbrev pub store_16 : ℕ → ℕ → (ℕ → ℕ) → ℕ → ℕ
store_16 a v f = store_8 (a + 1) (v / 2 ^ 8) (store_8 a v f)

abbrev pub store_32 : ℕ → ℕ → (ℕ → ℕ) → ℕ → ℕ
store_32 a v f = store_16 (a + 2) (v / 2 ^ 16) (store_16 a v f)

-- A write through `TranslateEmulatedToVirtualAddress(addr)`, of `width` bytes.
unfoldable pub emu_write : ℕ → ℕ → ((ℕ → ℕ) → ℕ → ℕ) → Os2M (Unit {0})
emu_write addr width f =
    if leb (addr + width) os2_extent then modify (λ s. with_mem (f s.mem) s) else stop undefined
