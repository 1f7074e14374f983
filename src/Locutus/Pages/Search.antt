-- ===== src/Locutus/Pages/Search.antt =====
-- What the search for a free page finds.
use topgun.Common.{
  all_below-at, ℕ, zero, suc, ◌+◌, ◌-◌, ◌*◌, ◌/◌, ◌%◌, ◌≤◌, ◌<◌, ◌≡◌, ◌≢◌, ◌⊎◌, inl, inr, refl,
  Bool-cases, if◌then◌else◌, ◌==◌, leb, ltb, arith,
}
use topgun.Common.Bits.{bit}
use topgun.Locutus.Pages.{
  Bitmap, Result, found, passed, outside, out_of_fuel, first_or, beyond, bitmap_dwords, full_dword,
  search_limit, page_dword, page_status, first_of, scan_dwords, find_first_free_page,
}

-- The pages from `a` to below `b` are in use.
abbrev pub AllUsed : Bitmap → ℕ → ℕ → Type 0
AllUsed f a b = (j : ℕ) → a ≤ j → j < b → page_status f j ≡ 1

-- `p` is the first free page from `index` on, and lies in the bitmap.
pub record FirstFree (f : Bitmap) (index p : ℕ) : Type 0 where
  pub not_before : index ≤ p
  pub free : page_status f p ≡ 0
  pub used_before : AllUsed f index p
  pub inside : p < 32 * bitmap_dwords

-- The result of a loop over the pages from `index` to below `end`.
abbrev pub Finds : Bitmap → ℕ → ℕ → Result → Type 0
Finds f index end (found p) = FirstFree f index p
Finds f index end passed = AllUsed f index end
Finds f index end outside = Unit
Finds f index end out_of_fuel = Unit

-- The result of the whole search.
abbrev pub IsFirst : Bitmap → ℕ → Result → Type 0
IsFirst f index (found p) = FirstFree f index p
IsFirst f index passed = Unit
IsFirst f index outside = Unit
IsFirst f index out_of_fuel = Unit

status_bit : (f : Bitmap) (p : ℕ) → page_status f p < 2
unfolding page_status
status_bit f p = omega arith

module _ (f : Bitmap) where
  further : {a b c : ℕ} → AllUsed f a b → AllUsed f b c → AllUsed f a c
  further p q j low high = ground (arith, p j, q j)

  one_used : (cur : ℕ) → page_status f cur ≢ 0 → AllUsed f cur (cur + 1)
  one_used cur used j low high =
      let same : j ≡ cur = omega (arith, low, high) in
      rw same (omega (arith, used, status_bit f cur))

  FirstFree-later : {a b p : ℕ} → a ≤ b → AllUsed f a b → FirstFree f b p → FirstFree f a p
  FirstFree-later le used first = record {
    not_before = omega (arith, le, first.not_before);
    free = first.free;
    used_before = further used first.used_before;
    inside = first.inside;
  }

  Finds-later :
      {a b : ℕ} (end : ℕ) (r : Result) → a ≤ b → AllUsed f a b → Finds f b end r → Finds f a end r
  Finds-later end (found p) le used first = FirstFree-later le used first
  Finds-later end passed le used all = further used all
  Finds-later end outside le used all = tt
  Finds-later end out_of_fuel le used all = tt

  next :
      (n cur : ℕ)
      → AllUsed f cur (cur + 1)
      → Finds f (cur + 1) (cur + 1 + n) (first_of f n (cur + 1))
      → Finds f cur (cur + suc n) (first_of f n (cur + 1))
  next n cur used later =
      let same : cur + suc n ≡ cur + 1 + n = omega arith in
      rw same (Finds-later (cur + 1 + n) (first_of f n (cur + 1)) (omega arith) used later)

  pub first_of-Finds : (n cur : ℕ) → Finds f cur (cur + n) (first_of f n cur)
  unfolding first_of
  first_of-Finds zero cur = λ j low high. absurd (omega (arith, low, high))
  first_of-Finds (suc n) cur = elim (Bool-cases (beyond cur)) [
    | inl out ↦ rw out tt
    | inr in_map ↦ rw in_map (elim (Bool-cases (page_status f cur == 0)) [
      | inl free ↦ rw free (record {
        not_before = omega arith;
        free = ground (arith, free);
        used_before = λ j low high. absurd (omega (arith, low, high));
        inside = ground (arith, in_map);
      })
      | inr used ↦
          rw used (next n cur (one_used cur (ground (arith, used))) (first_of-Finds n (cur + 1)))
    ])
  ]

full_bit : (k : ℕ) → k < 32 → bit full_dword k ≡ 1
full_bit k small = ground (arith, all_below-at 32 (λ i. bit full_dword i == 1) refl k small)

module _ (f : Bitmap) where
  pub full_used :
      (cur end : ℕ) → end ≤ cur / 32 * 32 + 32 → page_dword f cur ≡ full_dword → AllUsed f cur end
  unfolding page_dword page_status
  full_used cur end near full j low high =
      let same : j / 32 ≡ cur / 32 = omega (arith, low, high, near) in
      rw (same, full) (full_bit (j % 32) (omega arith))

  first_or-IsFirst :
      (index cur end : ℕ) (r s : Result)
      → index ≤ cur
      → AllUsed f index cur
      → Finds f cur end r
      → (AllUsed f index end → IsFirst f index s)
      → IsFirst f index (first_or r s)
  first_or-IsFirst index cur end (found p) s le used first later = FirstFree-later f le used first
  first_or-IsFirst index cur end passed s le used first later = later (further f used first)
  first_or-IsFirst index cur end outside s le used first later = tt
  first_or-IsFirst index cur end out_of_fuel s le used first later = tt

  -- At an aligned page, or at one whose dword has a free page.
  scan_dwords-IsFirst :
      (fuel index cur : ℕ)
      → index ≤ cur
      → AllUsed f index cur
      → (cur % 32 ≡ 0) ⊎ (page_dword f cur ≢ full_dword)
      → IsFirst f index (scan_dwords f fuel cur)
  unfolding scan_dwords
  scan_dwords-IsFirst zero index cur le used start = tt
  scan_dwords-IsFirst (suc fuel) index cur le used start =
      elim (Bool-cases (leb search_limit cur)) [
        | inl end ↦ rw end tt
        | inr more ↦ rw more (elim (Bool-cases (beyond cur)) [
          | inl out ↦ rw out tt
          | inr in_map ↦ rw in_map (elim (Bool-cases (page_dword f cur == full_dword)) [
            | inl full ↦ rw full (
                scan_dwords-IsFirst fuel index (cur + 32) (omega (arith, le))
                  (further f used
                    (full_used cur (cur + 32) (ground (arith, start, full)) (ground (arith, full))))
                  (ground (arith, start, full)))
            | inr some_free ↦ rw some_free (
                first_or-IsFirst index cur (cur + 32) (first_of f 32 cur) (scan_dwords f fuel cur)
                  le used (first_of-Finds f 32 cur)
                  (λ _. scan_dwords-IsFirst fuel index cur le used start))
          ])
        ])
      ]

  bound_start :
      (index : ℕ)
      → page_dword f index ≢ full_dword
      → index < 32 - index % 32
      → ((32 - index % 32) % 32 ≡ 0) ⊎ (page_dword f (32 - index % 32) ≢ full_dword)
  unfolding page_dword
  bound_start zero some_free low = inl refl
  bound_start (suc index) some_free low =
      let same : (32 - suc index % 32) / 32 ≡ suc index / 32 = omega (arith, low) in
      inr (rw same some_free)

  -- The start of the dword loop where the first dword has a free page.
  from_bound :
      (fuel index : ℕ)
      → page_dword f index ≢ full_dword
      → AllUsed f index (index + (32 - index % 32 - index))
      → IsFirst f index
          (scan_dwords f fuel (if ltb index (32 - index % 32) then 32 - index % 32 else index))
  from_bound fuel index some_free used = elim (Bool-cases (ltb index (32 - index % 32))) [
    | inl low ↦ rw low (
        scan_dwords-IsFirst fuel index (32 - index % 32) (ground (arith, low))
          (λ j ge lt. used j ge (ground (arith, low, lt)))
          (bound_start index some_free (ground (arith, low))))
    | inr high ↦ rw high (
        scan_dwords-IsFirst fuel index index (omega arith)
          (λ j ge lt. absurd (omega (arith, ge, lt))) (inr some_free))
  ]

  -- A page that `FindFirstFreePage` returns lies in the bitmap, at or after the index asked for, is
  -- free, and every page between the two is in use.
  find_first_free_page-IsFirst :
      (fuel index : ℕ) → IsFirst f index (find_first_free_page f fuel index)
  unfolding find_first_free_page
  find_first_free_page-IsFirst fuel index = elim (Bool-cases (beyond index)) [
    | inl out ↦ rw out tt
    | inr in_map ↦ rw in_map (elim (Bool-cases (page_dword f index == full_dword)) [
      | inl full ↦ rw full (
          scan_dwords-IsFirst fuel index (index + (32 - index % 32)) (omega arith)
            (full_used index _ (omega arith) (ground (arith, full))) (inl (omega arith)))
      | inr some_free ↦ rw some_free (
          first_or-IsFirst index index _ (first_of f (32 - index % 32 - index) index) _
            (omega arith) (λ j ge lt. absurd (omega (arith, ge, lt)))
            (first_of-Finds f (32 - index % 32 - index) index)
            (from_bound fuel index (ground (arith, some_free))))
    ])
  ]

  first_of-passed :
      (n cur : ℕ)
      → cur + n ≤ 32 * bitmap_dwords
      → AllUsed f cur (cur + n)
      → first_of f n cur ≡ passed
  unfolding first_of
  first_of-passed zero cur fits used = refl
  first_of-passed (suc n) cur fits used = ground (
    arith,
    used cur,
    first_of-passed n (cur + 1) (omega (arith, fits))
        (λ j low high. used j (omega (arith, low)) (omega (arith, high))),
  )

  scan_dwords-stuck :
      (fuel cur : ℕ)
      → cur < 32 * bitmap_dwords - 32
      → page_dword f cur ≢ full_dword
      → AllUsed f cur (cur + 32)
      → scan_dwords f fuel cur ≡ out_of_fuel
  unfolding scan_dwords
  scan_dwords-stuck zero cur fits some_free used = refl
  scan_dwords-stuck (suc fuel) cur fits some_free used = ground (
    arith,
    first_of-passed 32 cur (omega (arith, fits)) used,
    scan_dwords-stuck fuel cur fits some_free used,
  )

  -- From a page past the first dword, where the dword has a free page, but the 32 pages from there on
  -- are in use, the search goes round for ever: it uses up any fuel.
  pub find_first_free_page-stuck :
      (fuel index : ℕ)
      → 32 ≤ index
      → index < 32 * bitmap_dwords - 32
      → page_dword f index ≢ full_dword
      → AllUsed f index (index + 32)
      → find_first_free_page f fuel index ≡ out_of_fuel
  unfolding find_first_free_page first_of
  find_first_free_page-stuck fuel index past fits some_free used =
      let none_here : 32 - index % 32 - index ≡ 0 = omega (arith, past) in
      rw none_here (ground (arith, scan_dwords-stuck fuel index fits some_free used))
