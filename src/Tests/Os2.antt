-- ===== src/Tests/Os2.antt =====
-- The theorems on `locutus/` at concrete inputs.
use topgun.Common.{
  List, [], ◌∷◌, ℕ, ◌+◌, ◌*◌, ◌^◌, ◌/◌, ◌≤◌, ◌<◌, ◌≡◌, ◌⊎◌, ◌↔◌, refl, ◌||◌, ◌==◌, ltb,
  if◌then◌else◌, [], ◌∷◌, all_below-at, arith,
}
use topgun.Isa.{get_or}
use topgun.Locutus.Pages.{
  scan_dwords, Bitmap, found, out_of_fuel, find_first_free_page, first_of, page_status, page_dword,
  alloc_pages, reserve_region, scan_address_space, number_of_pages_free_here, count_free,
  full_dword,
}
use topgun.Locutus.Pages.Search.{find_first_free_page-stuck}
use topgun.Locutus.Pages.Returns.{find_first_free_page-found}
use topgun.Locutus.Selectors.{dos_flat_to_sel, dos_sel_to_flat, sel_to_flat-flat_to_sel}
use topgun.Locutus.State.{Os2, no_table, dos_imports, done, with_mem, ◌>>=◌}
use topgun.Isa.Codes.{r_esp}
use topgun.Machine.{Machine}
use topgun.Machine.Outcome.{ok}
use topgun.Locutus.Processor.{locutus_board, exec_32}
use topgun.Locutus.Processor.Thunk.{answering, machine_on, exec_32-generate_thunk}
use topgun.Locutus.Thunks.{generate_thunk, HostAddresses, import_thunks}
use topgun.Locutus.Api.{dos32_query_sys_info, dos_sys_info}
use topgun.Locutus.Api.Laws.{dword_at, dos32_query_sys_info-copies}
use topgun.Locutus.Loader.{
  Image, fix_records, fix_record, next_8, next_16, next_32, read_8, read_16, read_32, final_value,
  target_value, internal_value, fix_at, fix_list, do_fixup,
}
use topgun.Locutus.Loader.Fixups.{Loops, fix_records-Loops}
use topgun.Locutus.Loader.Load.{resolve_from, library_table}
use topgun.Locutus.Loader.Imports.{encode_names, name_at, resolve_from-names}
use topgun.Locutus.Loader.Internal.{fix_record-internal}

-- Pages 16 to 31 are free, and no other.
abbrev sixteen : Bitmap
sixteen = λ i. if i == 0 then 0xffff else full_dword

-- Page 32 is free, and no other.
abbrev one_free : Bitmap
one_free = λ i. if i == 1 then 0xffff_fffe else full_dword

abbrev host : HostAddresses
host = record {
  put_message = 0x1000;
  query_h_type = 0x1010;
  exit = 0x1020;
  set_file_ptr = 0x1030;
  write = 0x1040;
  alloc_mem = 0x1050;
  query_sys_info = 0x1060;
}

abbrev state : Os2
state = record {
  bitmap = sixteen;
  mem = λ a. 0;
  module_count = 1;
  modules = λ i. if i == 2 then dos_imports else no_table;
  thunks = import_thunks host;
  written = [];
}

-- At 0 a fixup record of type 7 for offset 16 of object 1, to be stored at offset 4; the object table
-- is at 72, and object 1 stands at 0x100.
abbrev image_byte : ℕ → ℕ
image_byte i =
    if i == 64 then 72 else if i == 77 then 1 else get_or (7 ∷ 0 ∷ 4 ∷ 0 ∷ 1 ∷ 16 ∷ 0 ∷ []) i 0

abbrev image : Image
image = record { bytes = image_byte; size = 96; header = 0 }

-- Page 100 is free, and no other.
abbrev hundred : Bitmap
hundred = λ i. if i == 3 then 0xffff_ffef else full_dword

hundred-used : (j : ℕ) → 96 ≤ j → j < 100 → page_status hundred j ≡ 1
unfolding page_status
hundred-used j low high =
    ground
      (arith, all_below-at 100 (λ j. ltb j 96 || (page_status hundred j == 1)) refl j high, low)

find_first_free_page-found_example : find_first_free_page hundred 4 0 ≡ found 100
find_first_free_page-found_example =
    find_first_free_page-found hundred 4 0 100
      (record {
        aligned = omega arith;
        low = omega arith;
        inside = omega arith;
        free = unfold page_status in refl;
        used = λ j ge lt. hundred-used j (omega (arith, ge)) lt;
        full = λ j ge lt. ground (arith, lt);
      })
      (omega arith)

one_free-used : (j : ℕ) → 33 ≤ j → j < 65 → page_status one_free j ≡ 1
unfolding page_status
one_free-used j low high =
    ground
      (arith, all_below-at 65 (λ j. ltb j 33 || (page_status one_free j == 1)) refl j high, low)

find_first_free_page-stuck_example : find_first_free_page one_free 100 33 ≡ out_of_fuel
find_first_free_page-stuck_example =
    find_first_free_page-stuck one_free 100 33 (omega arith) (omega arith)
      (λ full. absurd (unfold page_dword in ground (arith, full))) one_free-used

sel_to_flat-flat_to_sel_example :
    (dos_sel_to_flat (dos_flat_to_sel 0x7_1234) ≡ 0x7_1234) ↔ (0x7_1234 / 2 ^ 16 ≡ 7)
sel_to_flat-flat_to_sel_example = sel_to_flat-flat_to_sel 0x7_1234 (omega arith)

dos32_query_sys_info-copies_example :
    (f : ℕ → ℕ) × (dos32_query_sys_info 5 12 0x1_0000 28 state ≡ done 0 (with_mem f state))
    × ((k : ℕ) → k < 7 → dword_at f (0x1_0000 + 4 * k) ≡ get_or dos_sys_info (4 + k) 0)
    × ((a : ℕ) → (a < 0x1_0000) ⊎ (0x1_0000 + 28 ≤ a) → f a ≡ 0)
dos32_query_sys_info-copies_example =
    dos32_query_sys_info-copies 5 12 0x1_0000 28 state (omega arith) (omega arith) (omega arith)
      (omega arith) (omega arith)

fix_records-Loops_example :
    Loops image 40 0x1_0000 7 0 state (fix_records image 40 7 0x1_0000 0 7 state)
fix_records-Loops_example = fix_records-Loops image 40 0x1_0000 7 7 0 state (omega arith)

-- The record is done, and so is the page.
page_done : fix_records image 40 7 0x1_0000 0 7 state ≡ done tt state
unfolding fix_records fix_record next_8 next_16 next_32 read_8 read_16 read_32 final_value
    target_value internal_value fix_at fix_list do_fixup ◌>>=◌
page_done = refl

record_done : fix_record image 40 0x1_0000 0 state ≡ done 7 state
unfolding fix_record next_8 next_16 next_32 read_8 read_16 read_32 final_value target_value
    internal_value fix_at fix_list do_fixup ◌>>=◌
record_done = refl

fix_record-internal_example : (0 < 7) × (state ≡ state)
fix_record-internal_example =
    fix_record-internal image 40 0x1_0000 0 7 state state refl refl (λ e. omega (arith, e))
      record_done

-- The names "Msg" and "DOSCALLS".
abbrev libraries : List (List ℕ)
libraries = (77 ∷ 115 ∷ 103 ∷ []) ∷ (68 ∷ 79 ∷ 83 ∷ 67 ∷ 65 ∷ 76 ∷ 76 ∷ 83 ∷ []) ∷ []

abbrev names_image : Image
names_image = record { bytes = λ i. get_or (encode_names libraries) i 0; size = 13; header = 0 }

resolve_from-names_example :
    (s' : Os2) × (resolve_from names_image 13 0 13 state ≡ done tt s')
    × (s'.module_count ≡ 3)
    × ((k : ℕ)
        → k < 2
        → s'.modules (2 + k) ≡ library_table (name_at libraries k) (state.modules (2 + k)))
resolve_from-names_example =
    resolve_from-names names_image libraries 0 state
      ((
        omega arith,
        refl,
        (
          omega arith,
          refl,
          (
            omega arith,
            refl,
            (
              omega arith,
              refl,
              (
                omega arith,
                refl,
                (
                  omega arith,
                  refl,
                  (
                    omega arith,
                    refl,
                    (
                      omega arith,
                      refl,
                      (
                        omega arith,
                        refl,
                        (
                          omega arith,
                          refl,
                          (omega arith, refl, (omega arith, refl, (omega arith, refl, tt))),
                        ),
                      ),
                    ),
                  ),
                ),
              ),
            ),
          ),
        ),
      ))
      (omega arith, (omega arith, tt)) (omega arith)

-- Page 0x800 is free, and no other.
abbrev thunk_page : Os2
thunk_page = record (state) { bitmap = λ i. if i == 64 then 0xffff_fffe else full_dword }

thunk_page_found :
    alloc_pages 5 0x800 1 thunk_page.bitmap
    ≡ (found 0x800, reserve_region 0x800 1 thunk_page.bitmap)
unfolding alloc_pages scan_address_space find_first_free_page scan_dwords first_of
    number_of_pages_free_here count_free page_status page_dword
thunk_page_found = refl

-- A host's function that tells its parameters apart.
abbrev weighing : ℕ → List ℕ → ℕ
weighing target [] = target
weighing target (x ∷ xs) = x + 2 * weighing target xs

exec_32-generate_thunk_example :
    (s' : Os2) × (m : Machine) × (generate_thunk 5 0x1040 thunk_page ≡ done 0x80_0000 s')
    × (exec_32
          (locutus_board (answering weighing))
          1
          4
          0x80_0000
          (1 ∷ 2 ∷ 3 ∷ 4 ∷ [])
          (machine_on (λ i. 9) s'.mem)
        ≡ ok 0x10431 m)
    × (m.regs r_esp ≡ 0x1_fff0)
exec_32-generate_thunk_example =
    exec_32-generate_thunk weighing 5 0x1040 1 2 3 4 (λ i. 9) thunk_page
      (reserve_region 0x800 1 thunk_page.bitmap) (omega arith) (omega arith) (omega arith)
      (omega arith) (omega arith) thunk_page_found
