-- ===== src/Locutus/Pages/Returns.antt =====
-- Searches that return.
use topgun.Common.{
  ℕ, zero, suc, ◌+◌, ◌-◌, ◌*◌, ◌/◌, ◌%◌, ◌≤◌, ◌<◌, ◌≡◌, refl, Bool-cases, inl, inr, ◌==◌, ltb, true,
  false, ==-false, ==-true, arith,
}
use topgun.Locutus.Pages.{
  Bitmap, found, passed, bitmap_dwords, full_dword, page_dword, page_status, first_of, scan_dwords,
  find_first_free_page,
}
use topgun.Locutus.Pages.Search.{AllUsed, full_used}

module _ (f : Bitmap) where
  first_of-found :
      (n cur p : ℕ)
      → cur ≤ p
      → p < cur + n
      → p < 32 * bitmap_dwords
      → page_status f p ≡ 0
      → AllUsed f cur p
      → first_of f n cur ≡ found p
  unfolding first_of
  first_of-found zero cur p low high inside free used = absurd (omega (arith, low, high))
  first_of-found (suc n) cur p low high inside free used = elim (Bool-cases (ltb cur p)) [
    | inl before ↦ ground (
      arith,
      used cur (omega arith) (ground (arith, before)),
      first_of-found n (cur + 1) p (ground (arith, before)) (omega (arith, high)) inside free
          (λ j ge lt. used j (omega (arith, ge)) lt),
      inside,
      before,
    )
    | inr here ↦
        let same : cur ≡ p = ground (arith, here, low) in rw same (ground (arith, free, inside))
  ]

  full-used : (p : ℕ) → page_status f p ≡ 0 → (page_dword f p == full_dword) ≡ false
  full-used p free = ==-false (λ (full : page_dword f p ≡ full_dword).
      omega (arith, free, full_used f p (p + 1) (omega arith) full p (omega arith) (omega arith)))

  -- `p` is a free page, the pages before it in its dword are in use, and the dwords from that of
  -- `cur` to the one before are full.
  pub record FirstAfter (cur p : ℕ) : Type 0 where
    pub aligned : cur % 32 ≡ 0
    pub low : cur ≤ p
    pub inside : p < 32 * bitmap_dwords
    pub free : page_status f p ≡ 0
    pub used : AllUsed f (p / 32 * 32) p
    pub full : (j : ℕ) → cur / 32 ≤ j → j < p / 32 → f j ≡ full_dword

  in_dword : (cur p : ℕ) → FirstAfter cur p → p < cur + 32 → first_of f 32 cur ≡ found p
  in_dword cur p h near =
      first_of-found 32 cur p h.low near h.inside h.free
        (λ j ge lt. h.used j (omega (arith, h.aligned, h.low, near, ge)) lt)

  not_full :
      (cur p : ℕ) → FirstAfter cur p → p < cur + 32 → (page_dword f cur == full_dword) ≡ false
  unfolding page_dword
  not_full cur p h near =
      let same : cur / 32 ≡ p / 32 = omega (arith, h.aligned, h.low, near) in
      rw same (full-used p h.free)

  full_here : (cur p : ℕ) → FirstAfter cur p → cur + 32 ≤ p → page_dword f cur ≡ full_dword
  unfolding page_dword
  full_here cur p h far = h.full (cur / 32) (omega arith) (omega (arith, far, h.aligned))

  FirstAfter-next : (cur p : ℕ) → FirstAfter cur p → cur + 32 ≤ p → FirstAfter (cur + 32) p
  FirstAfter-next cur p h far = record {
    aligned = omega (arith, h.aligned);
    low = far;
    inside = h.inside;
    free = h.free;
    used = h.used;
    full = λ j ge lt. h.full j (omega (arith, ge)) lt;
  }

  scan_dwords-found :
      (fuel cur p : ℕ) → FirstAfter cur p → p < cur + 32 * fuel → scan_dwords f fuel cur ≡ found p
  unfolding scan_dwords
  scan_dwords-found zero cur p h enough = absurd (omega (arith, h.low, enough))
  scan_dwords-found (suc fuel) cur p h enough = elim (Bool-cases (ltb p (cur + 32))) [
    | inl near ↦
        let here : first_of f 32 cur ≡ found p = in_dword cur p h (ground (arith, near)) in
        let some_free : (page_dword f cur == full_dword) ≡ false =
          not_full cur p h (ground (arith, near)) in
        ground (arith, here, some_free, h.low, h.inside)
    | inr far ↦
        let full : (page_dword f cur == full_dword) ≡ true =
          ==-true (full_here cur p h (ground (arith, far))) in
        let next : scan_dwords f fuel (cur + 32) ≡ found p =
          scan_dwords-found fuel (cur + 32) p (FirstAfter-next cur p h (ground (arith, far)))
            (omega (arith, enough)) in
        ground (arith, full, next, h.low, h.inside)
  ]

  -- From the start of a dword, where a page is free whose dword is the first that is not full and
  -- before which that dword has no free page, the search, with fuel for each dword to there, returns
  -- that page.
  pub find_first_free_page-found :
      (fuel index p : ℕ)
      → FirstAfter index p
      → p < index + 32 * fuel
      → find_first_free_page f fuel index ≡ found p
  unfolding find_first_free_page
  find_first_free_page-found fuel index p h enough = elim (Bool-cases (ltb p (index + 32))) [
    | inl near ↦
        let here : first_of f 32 index ≡ found p = in_dword index p h (ground (arith, near)) in
        let some_free : (page_dword f index == full_dword) ≡ false =
          not_full index p h (ground (arith, near)) in
        let scans : scan_dwords f fuel index ≡ found p = scan_dwords-found fuel index p h enough in
        elim (Bool-cases (index == 0)) [
          | inl zero_index ↦
              let length : 32 - index % 32 - index ≡ 32 = ground (arith, zero_index) in
              rw length (ground (arith, here, some_free, h.inside, h.low))
          | inr later ↦
              let length : 32 - index % 32 - index ≡ 0 = ground (arith, later, h.aligned) in
              let no_loop : first_of f 0 index ≡ passed = unfold first_of in refl in
              rw (length, no_loop)
                (ground (arith, scans, some_free, h.inside, h.low, h.aligned, later))
        ]
    | inr far ↦
        let full : (page_dword f index == full_dword) ≡ true =
          ==-true (full_here index p h (ground (arith, far))) in
        let bound : index + (32 - index % 32) ≡ index + 32 = omega (arith, h.aligned) in
        let next : scan_dwords f fuel (index + 32) ≡ found p =
          scan_dwords-found fuel (index + 32) p (FirstAfter-next index p h (ground (arith, far)))
            (omega (arith, enough)) in
        rw bound (ground (arith, full, next, h.low, h.inside))
  ]
