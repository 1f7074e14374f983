-- ===== src/Locutus/Api/Laws.antt =====
-- What `Dos32AllocMem` and `Dos32QuerySysInfo` give.
use topgun.Common.{
  ℕ, zero, suc, ◌+◌, ◌-◌, ◌*◌, ◌/◌, ◌^◌, ◌≤◌, ◌<◌, ◌≡◌, ◌⊎◌, ◌&&◌, ltb, refl, ◌∙◌, inl, inr,
  if◌then◌else◌, ◌==◌, leb, u8, u32, arith,
}
use topgun.Common.Tests.{all_below-at}
use topgun.Isa.{get_or}
use topgun.Locutus.Pages.{page_status}
use topgun.Locutus.Pages.Alloc.{AllFree}
use topgun.Locutus.State.{Os2, done, ◌>>=◌, store_32, emu_write, os2_extent, with_mem}
use topgun.Locutus.Api.{align, copy_info, dos_sys_info, dos32_query_sys_info}

-- The little-endian dword at an address.
abbrev pub dword_at : (ℕ → ℕ) → ℕ → ℕ
dword_at f a = u8 (f a) + 2 ^ 8 * u8 (f (a + 1)) + 2 ^ 16 * u8 (f (a + 2)) + 2 ^ 24 * u8 (f (a + 3))

-- What a successful `Dos32AllocMem` leaves: the address of `page` at the pointer, `pages` pages that
-- are enough for the size, were all free and are all in use, and every other page as it was.
pub record Granted (s s' : Os2) (base_ptr size page pages : ℕ) : Type 0 where
  pub pointed : dword_at s'.mem base_ptr ≡ 4096 * page
  pub large : size ≤ 4096 * pages
  pub tight : 4096 * pages < size + 4096
  pub were_free : AllFree s.bitmap page (page + pages)
  pub status_after :
      (j : ℕ)
      → page_status s'.bitmap j
        ≡ (if leb page j && ltb j (page + pages) then 1 else page_status s.bitmap j)

-- The pages of the rounded size.
abbrev pub pages_of : ℕ → ℕ
pages_of size = align size / 2 ^ 12

-- The copy of `n` entries from entry `i` on.
copy_info-outside : (n i addr : ℕ) (f : ℕ → ℕ) (a : ℕ) → a < addr → copy_info n i addr f a ≡ f a
unfolding copy_info
copy_info-outside zero i addr f a below = refl
copy_info-outside (suc n) i addr f a below =
    copy_info-outside n (i + 1) (addr + 4) (store_32 addr (get_or dos_sys_info i 0) f) a
      (omega (arith, below))
    ∙ ground (arith, below)

copy_info-after :
    (n i addr : ℕ) (f : ℕ → ℕ) (a : ℕ) → addr + 4 * n ≤ a → copy_info n i addr f a ≡ f a
unfolding copy_info
copy_info-after zero i addr f a after = refl
copy_info-after (suc n) i addr f a after =
    copy_info-after n (i + 1) (addr + 4) (store_32 addr (get_or dos_sys_info i 0) f) a
      (omega (arith, after))
    ∙ ground (arith, after)

dword_at-store_32 : (addr v : ℕ) (f : ℕ → ℕ) → dword_at (store_32 addr v f) addr ≡ u32 v
dword_at-store_32 addr v f = ground arith

copy_info-entry :
    (n i addr k : ℕ) (f : ℕ → ℕ)
    → k < n
    → dword_at (copy_info n i addr f) (addr + 4 * k) ≡ u32 (get_or dos_sys_info (i + k) 0)
unfolding copy_info
copy_info-entry zero i addr k f small = absurd (omega (arith, small))
copy_info-entry (suc n) i addr zero f small =
    let v : ℕ = get_or dos_sys_info i 0 in
    let f' : ℕ → ℕ = store_32 addr v f in
    let here : addr + 4 * 0 ≡ addr = omega arith in
    let there : i + 0 ≡ i = omega arith in
    rw
      (
        here,
        there,
        copy_info-outside n (i + 1) (addr + 4) f' addr (omega arith),
        copy_info-outside n (i + 1) (addr + 4) f' (addr + 1) (omega arith),
        copy_info-outside n (i + 1) (addr + 4) f' (addr + 2) (omega arith),
        copy_info-outside n (i + 1) (addr + 4) f' (addr + 3) (omega arith),
      )
      (dword_at-store_32 addr v f)
copy_info-entry (suc n) i addr (suc k) f small =
    let here : addr + 4 * suc k ≡ addr + 4 + 4 * k = omega arith in
    let there : i + suc k ≡ i + 1 + k = omega arith in
    rw (here, there)
      (copy_info-entry n (i + 1) (addr + 4) k (store_32 addr (get_or dos_sys_info i 0) f)
        (omega (arith, small)))

-- The values are dwords.
dos_sys_info-fits : (i : ℕ) → i < 30 → u32 (get_or dos_sys_info i 0) ≡ get_or dos_sys_info i 0
dos_sys_info-fits i small = ground (
  arith,
  all_below-at 30 (λ i. u32 (get_or dos_sys_info i 0) == get_or dos_sys_info i 0) refl i small,
)

-- `Dos32QuerySysInfo`, from a first entry of at least 1 to a last of at most 30, with a buffer of
-- the length that it asks for: it returns 0 and copies the entries from the first to the one before
-- the last to the buffer, and leaves every byte before them and after them as it was.
pub dos32_query_sys_info-copies :
    (first last buffer length : ℕ) (s : Os2)
    → 1 ≤ first
    → first ≤ last
    → last ≤ 30
    → 4 * (last - first) ≤ length
    → buffer + 4 * (last - first) ≤ os2_extent
    → (f : ℕ → ℕ) × (dos32_query_sys_info first last buffer length s ≡ done 0 (with_mem f s))
      × ((k : ℕ)
          → k < last - first
          → dword_at f (buffer + 4 * k) ≡ get_or dos_sys_info (first - 1 + k) 0)
      × ((a : ℕ) → (a < buffer) ⊎ (buffer + 4 * (last - first) ≤ a) → f a ≡ s.mem a)
unfolding dos32_query_sys_info emu_write ◌>>=◌
dos32_query_sys_info-copies first last buffer length s low ordered high room inside = (
  copy_info (last - first) (first - 1) buffer s.mem,
  ground (arith, low, ordered, high, room, inside),
  λ k small.
      copy_info-entry (last - first) (first - 1) buffer k s.mem small
      ∙ dos_sys_info-fits (first - 1 + k) (omega (arith, low, ordered, high, small)),
  λ a away. elim away [
    | inl below ↦ copy_info-outside (last - first) (first - 1) buffer s.mem a below
    | inr after ↦ copy_info-after (last - first) (first - 1) buffer s.mem a after
  ],
)
