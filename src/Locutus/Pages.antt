-- ===== src/Locutus/Pages.antt =====
-- The page allocator of `locutus/os2mem.c`. Bit `pfn % 32` of `PFBitmap[pfn / 32]` is set for a page
-- in use. `VirtualAlloc`, which commits the pages on the host and whose result is not looked at, has
-- no part in the model.
pub mod Search
pub mod Reserve
pub mod Alloc
pub mod Returns
pub mod Start
use topgun.Common.{
  ℕ, Bool, zero, suc, ◌+◌, ◌-◌, ◌*◌, ◌/◌, ◌%◌, ◌^◌, bit_or, if◌then◌else◌, ◌==◌, leb, ltb, u32,
  update,
}
use topgun.Common.Bits.{bit}

-- `PFBitmap`, by its dwords.
abbrev pub Bitmap : Type 0
Bitmap = ℕ → ℕ

abbrev pub bitmap_dwords : ℕ
bitmap_dwords = 4096

-- The bound of the loops that search for pages, `4096 * 4096 * 32`.
abbrev pub search_limit : ℕ
search_limit = 2 ^ 29

abbrev pub full_dword : ℕ
full_dword = 0xffff_ffff

-- `PFDword` and `PFStatus`.
unfoldable pub page_dword : Bitmap → ℕ → ℕ
page_dword f pfn = f (pfn / 32)

unfoldable pub page_status : Bitmap → ℕ → ℕ
page_status f pfn = bit (f (pfn / 32)) (pfn % 32)

-- `MarkPageA`.
unfoldable pub mark_page : ℕ → Bitmap → Bitmap
mark_page pfn f = update f (pfn / 32) (bit_or (f (pfn / 32)) (2 ^ (pfn % 32)))

-- What a search comes to: a value, the end of a loop without one, a read or a write outside the
-- bitmap, which is undefined, or the end of the fuel.
pub data Result : Type 0 where
  found : ℕ → Result
  passed outside out_of_fuel : Result

-- A result of its own ends the function; after a loop that passed it goes on.
abbrev pub first_or : Result → Result → Result
first_or passed r = r
first_or (found pfn) r = found pfn
first_or outside r = outside
first_or out_of_fuel r = out_of_fuel

-- The access to the entry of a page lies outside the bitmap.
abbrev pub beyond : ℕ → Bool
beyond pfn = leb bitmap_dwords (pfn / 32)

-- The loops over `n` pages from `cur` on that return the first free one.
unfoldable pub first_of : Bitmap → ℕ → ℕ → Result
first_of f zero cur = passed
first_of f (suc n) cur =
    let rest = first_of f n (cur + 1) in
    if beyond cur then outside else if page_status f cur == 0 then found cur else rest

-- The `while` loop of `FindFirstFreePage`. If the last loop passes, `cur` is as before.
unfoldable pub scan_dwords : Bitmap → ℕ → ℕ → Result
scan_dwords f zero cur = out_of_fuel
scan_dwords f (suc fuel) cur =
    let next = scan_dwords f fuel (cur + 32) in
    let again = scan_dwords f fuel cur in
    if leb search_limit cur
    then passed
    else if beyond cur
    then outside
    else if page_dword f cur == full_dword
    then next
    else first_or (first_of f 32 cur) again

-- `FindFirstFreePage`; `passed` is its `NULL`.
unfoldable pub find_first_free_page : Bitmap → ℕ → ℕ → Result
find_first_free_page f fuel index =
    let bound = 32 - index % 32 in
    if beyond index
    then outside
    else if page_dword f index == full_dword
    then scan_dwords f fuel (index + bound)
    else first_or (first_of f (bound - index) index)
        (scan_dwords f fuel (if ltb index bound then bound else index))

-- `NumberOfPagesFreeHere`, from the page `i` on: `i` has been counted up once more when the loop ends.
unfoldable pub count_free : Bitmap → ℕ → ℕ → ℕ → Result
count_free f zero index i = out_of_fuel
count_free f (suc fuel) index i =
    let rest = count_free f fuel index (i + 1) in
    if beyond i then outside else if page_status f i == 0 then rest else found (i + 1 - index)

unfoldable pub number_of_pages_free_here : Bitmap → ℕ → ℕ → Result
number_of_pages_free_here f fuel index = count_free f fuel index index

-- What follows `FindFirstFreePage`, with page 0 for `NULL`.
abbrev pub with_page : Result → (ℕ → Result) → Result
with_page (found temp) k = k temp
with_page passed k = k 0
with_page outside k = outside
with_page out_of_fuel k = out_of_fuel

-- What follows `NumberOfPagesFreeHere`: the page, or the search from after the run.
abbrev pub region_or : ℕ → ℕ → Result → (ℕ → Result) → Result
region_or pages temp (found n) k = if leb pages n then found temp else k (temp + n)
region_or pages temp passed k = passed
region_or pages temp outside k = outside
region_or pages temp out_of_fuel k = out_of_fuel

-- `VMMScanAddressSpace`. The fuel of each loop inside is the fuel of the whole.
unfoldable pub scan_address_space : Bitmap → ℕ → ℕ → ℕ → Result
scan_address_space f zero vbase pages = out_of_fuel
scan_address_space f (suc fuel) vbase pages =
    if leb search_limit vbase
    then passed
    else with_page (find_first_free_page f (suc fuel) vbase) λ temp.
      region_or pages temp (number_of_pages_free_here f (suc fuel) temp)
        λ next. scan_address_space f fuel next pages

-- `VMMReserveRegion`, from page `vbase` on.
unfoldable pub reserve_region : ℕ → ℕ → Bitmap → Bitmap
reserve_region vbase zero f = f
reserve_region vbase (suc pages) f = reserve_region (vbase + 1) pages (mark_page vbase f)

-- `VMMReleaseRegion` and `VMMFreePages`.
unfoldable pub free_pages : ℕ → ℕ → Bitmap → Bitmap
free_pages vbase pages f = f

-- What `VMMAllocPages` does with the page that the scan returned: the page, and the bitmap. A region
-- that reaches past the bitmap is written outside it.
abbrev pub take_region : ℕ → Bitmap → Result → Result × Bitmap
take_region pages f (found base) =
    if base == 0
    then (found 0, f)
    else if ltb (32 * bitmap_dwords) (base + pages)
    then (outside, f)
    else (found base, reserve_region base pages f)
take_region pages f passed = (found 0, f)
take_region pages f outside = (outside, f)
take_region pages f out_of_fuel = (out_of_fuel, f)

-- `VMMAllocPages`.
unfoldable pub alloc_pages : ℕ → ℕ → ℕ → Bitmap → Result × Bitmap
alloc_pages fuel vbase pages f = take_region pages f (scan_address_space f fuel vbase pages)

-- `VMMInit`: the first sixteen pages are in use.
unfoldable pub vmm_init : Bitmap
vmm_init = update (λ i. 0) 0 0xffff
