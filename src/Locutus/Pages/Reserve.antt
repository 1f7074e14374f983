-- ===== src/Locutus/Pages/Reserve.antt =====
-- What `VMMReserveRegion` does to the status of the pages.
use topgun.Common.{
  ℕ, zero, suc, ◌+◌, ◌/◌, ◌%◌, ◌^◌, ◌≡◌, ◌∙◌, ◌&&◌, if◌then◌else◌, ◌==◌, leb, ltb, arith,
}
use topgun.Common.Bits.{bit-bit_or, bit-pow, bit-lt}
use topgun.Locutus.Pages.{Bitmap, page_status, mark_page, reserve_region}

mark_page-status :
    (f : Bitmap) (p j : ℕ) → page_status (mark_page p f) j ≡ (if p == j then 1 else page_status f j)
unfolding page_status mark_page
mark_page-status f p j = ground (
  arith,
  bit-bit_or (f (p / 32)) (2 ^ (p % 32)) (j % 32),
  bit-pow (p % 32) (j % 32),
  bit-lt (f (p / 32)) (j % 32),
)

-- Reserving a region puts its pages in use and changes the status of no other page.
pub reserve_region-status :
    (vbase pages : ℕ) (f : Bitmap) (j : ℕ)
    → page_status (reserve_region vbase pages f) j
      ≡ (if leb vbase j && ltb j (vbase + pages) then 1 else page_status f j)
unfolding reserve_region
reserve_region-status vbase zero f j = ground arith
reserve_region-status vbase (suc pages) f j =
    reserve_region-status (vbase + 1) pages (mark_page vbase f) j
    ∙ ground (arith, mark_page-status f vbase j)
