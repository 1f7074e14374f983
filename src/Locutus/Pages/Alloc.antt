-- ===== src/Locutus/Pages/Alloc.antt =====
-- What `VMMAllocPages` hands out.
use topgun.Common.{
  ℕ, zero, suc, ◌+◌, ◌-◌, ◌*◌, ◌≤◌, ◌<◌, ◌≡◌, ◌≢◌, ◌⊎◌, inl, inr, refl, true, Bool-cases,
  if◌then◌else◌, ◌==◌, leb, ltb, ◌&&◌, arith,
}
use topgun.Locutus.Pages.{
  Bitmap, Result, found, passed, outside, out_of_fuel, beyond, bitmap_dwords, search_limit,
  page_status, find_first_free_page, count_free, number_of_pages_free_here, with_page, region_or,
  take_region, scan_address_space, reserve_region, alloc_pages,
}
use topgun.Locutus.Pages.Reserve.{reserve_region-status}

-- The pages from `a` to below `b` are free.
abbrev pub AllFree : Bitmap → ℕ → ℕ → Type 0
AllFree f a b = (j : ℕ) → a ≤ j → j < b → page_status f j ≡ 0

module _ (f : Bitmap) where
  -- The loop of `NumberOfPagesFreeHere` from `i` on, up to the first page in use.
  count_free-run :
      (fuel index i len : ℕ)
      → len < fuel
      → i + len < 32 * bitmap_dwords
      → AllFree f i (i + len)
      → page_status f (i + len) ≢ 0
      → index ≤ i
      → count_free f fuel index i ≡ found (i + len + 1 - index)
  unfolding count_free
  count_free-run zero index i len enough fits free used below = absurd (omega (arith, enough))
  count_free-run (suc fuel) index i zero enough fits free used below = ground (arith, used)
  count_free-run (suc fuel) index i (suc len) enough fits free used below =
      let same : i + 1 + len ≡ i + suc len = omega arith in
      ground (
        arith,
        free i,
        count_free-run fuel index (i + 1) len (omega (arith, enough)) (omega (arith, fits))
            (λ j low high. free j (omega (arith, low)) (omega (arith, high))) (rw same used)
            (omega (arith, below)),
      )

  -- What the count says of the pages.
  abbrev Counted : ℕ → Result → Type 0
  Counted index (found n) = AllFree f index (index + n - 1)
  Counted index passed = Unit
  Counted index outside = Unit
  Counted index out_of_fuel = Unit

  count_free-Counted :
      (fuel index i : ℕ) → index ≤ i → AllFree f index i → Counted index (count_free f fuel index i)
  unfolding count_free
  count_free-Counted zero index i le free = tt
  count_free-Counted (suc fuel) index i le free = elim (Bool-cases (beyond i)) [
    | inl out ↦ rw out tt
    | inr in_map ↦ rw in_map (elim (Bool-cases (page_status f i == 0)) [
      | inl is_free ↦
          rw is_free (count_free-Counted fuel index (i + 1) (omega (arith, le)) (one_more is_free))
      | inr used ↦ rw used (λ j low high. free j low (omega (arith, high, le)))
    ])
  ]
    where
      one_more : (page_status f i == 0) ≡ true → AllFree f index (i + 1)
      one_more h j low high = elim (Bool-cases (j == i)) [
        | inl same ↦ ground (arith, same, h)
        | inr other ↦ free j low (ground (arith, other, high))
      ]

  -- A base that the scan returns: all but the last page of the region were free.
  abbrev AllButLastFree : ℕ → Result → Type 0
  AllButLastFree pages (found base) = AllFree f base (base + pages - 1)
  AllButLastFree pages passed = Unit
  AllButLastFree pages outside = Unit
  AllButLastFree pages out_of_fuel = Unit

  module _ (pages : ℕ) where
    region_or-AllButLastFree :
        (temp : ℕ) (r : Result) (k : ℕ → Result)
        → Counted temp r
        → ((next : ℕ) → AllButLastFree pages (k next))
        → AllButLastFree pages (region_or pages temp r k)
    region_or-AllButLastFree temp (found n) k free later = elim (Bool-cases (leb pages n)) [
      | inl big ↦ rw big (λ j low high. free j low (ground (arith, big, high, low)))
      | inr small ↦ rw small (later (temp + n))
    ]
    region_or-AllButLastFree temp passed k free later = tt
    region_or-AllButLastFree temp outside k free later = tt
    region_or-AllButLastFree temp out_of_fuel k free later = tt

    with_page-AllButLastFree :
        (r : Result) (k : ℕ → Result)
        → ((temp : ℕ) → AllButLastFree pages (k temp))
        → AllButLastFree pages (with_page r k)
    with_page-AllButLastFree (found temp) k p = p temp
    with_page-AllButLastFree passed k p = p 0
    with_page-AllButLastFree outside k p = tt
    with_page-AllButLastFree out_of_fuel k p = tt

    scan_address_space-AllButLastFree :
        (fuel vbase : ℕ) → AllButLastFree pages (scan_address_space f fuel vbase pages)
    unfolding scan_address_space number_of_pages_free_here
    scan_address_space-AllButLastFree zero vbase = tt
    scan_address_space-AllButLastFree (suc fuel) vbase =
        elim (Bool-cases (leb search_limit vbase)) [
          | inl end ↦ rw end tt
          | inr more ↦ rw more (
              with_page-AllButLastFree (find_first_free_page f (suc fuel) vbase) _ λ temp.
                region_or-AllButLastFree temp (count_free f (suc fuel) temp temp) _
                  (count_free-Counted (suc fuel) temp temp (omega arith)
                    (λ j low high. absurd (omega (arith, low, high))))
                  (scan_address_space-AllButLastFree fuel))
        ]

-- What an allocation may be relied on for.
pub record Allocates (f f' : Bitmap) (base pages : ℕ) : Type 0 where
  pub not_null : base ≢ 0
  pub inside : base + pages ≤ 32 * bitmap_dwords
  pub were_free : AllFree f base (base + pages - 1)
  pub status_after :
      (j : ℕ)
      → page_status f' j ≡ (if leb base j && ltb j (base + pages) then 1 else page_status f j)

-- An allocation of up to one page more than the run of free pages that the search finds takes its
-- pages from the start of that run.
pub alloc_pages-run :
    (f : Bitmap) (fuel vbase base len pages : ℕ)
    → vbase < search_limit
    → find_first_free_page f (suc fuel) vbase ≡ found base
    → base ≢ 0
    → len < suc fuel
    → base + len < 32 * bitmap_dwords
    → AllFree f base (base + len)
    → page_status f (base + len) ≢ 0
    → pages ≤ len + 1
    → alloc_pages (suc fuel) vbase pages f ≡ (found base, reserve_region base pages f)
unfolding alloc_pages scan_address_space number_of_pages_free_here
alloc_pages-run f fuel vbase base len pages low finds not_null enough fits free used short =
    let runs : count_free f (suc fuel) base base ≡ found (base + len + 1 - base) =
      count_free-run f (suc fuel) base base len enough fits free used (omega arith) in
    rw (finds, runs) (ground (arith, low, not_null, fits, short))

-- What `VMMAllocPages` can come to: `NULL` with the bitmap as it was, or a region.
abbrev pub Allocation : Bitmap → ℕ → Result × Bitmap → Type 0
Allocation f pages (found base, f') = ((base ≡ 0) × (f' ≡ f)) ⊎ Allocates f f' base pages
Allocation f pages (passed, f') = ⊥
Allocation f pages (outside, f') = Unit
Allocation f pages (out_of_fuel, f') = Unit

take_region-Allocation :
    (pages : ℕ) (f : Bitmap) (r : Result)
    → AllButLastFree f pages r
    → Allocation f pages (take_region pages f r)
take_region-Allocation pages f (found p) free = elim (Bool-cases (p == 0)) [
  | inl null ↦ rw null (inl (refl, refl))
  | inr page ↦ elim (Bool-cases (ltb (32 * bitmap_dwords) (p + pages))) [
    | inl out ↦ rw (page, out) tt
    | inr fits ↦
        rw (page, fits)
          (inr (record {
            not_null = ground (arith, page);
            inside = ground (arith, fits);
            were_free = free;
            status_after = λ j. reserve_region-status p pages f j;
          }))
  ]
]
take_region-Allocation pages f passed free = inl (refl, refl)
take_region-Allocation pages f outside free = tt
take_region-Allocation pages f out_of_fuel free = tt

pub alloc_pages-Allocation :
    (fuel vbase pages : ℕ) (f : Bitmap) → Allocation f pages (alloc_pages fuel vbase pages f)
unfolding alloc_pages
alloc_pages-Allocation fuel vbase pages f =
    take_region-Allocation pages f (scan_address_space f fuel vbase pages)
      (scan_address_space-AllButLastFree f pages fuel vbase)
