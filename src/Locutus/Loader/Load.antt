-- ===== src/Locutus/Loader/Load.antt =====
-- `ResolveImports` and `LoadLX` of `locutus/enterprs.c`, up to the call of `LaunchOS2`. A structure of
-- the file is read field by field at its place, as `locutus/LX.H` lays it out.
use topgun.Common.{
  ℕ, zero, suc, ◌+◌, ◌-◌, ◌*◌, ◌%◌, ◌^◌, List, [], ◌∷◌, Bool, true, false, ◌==◌, leb, ltb, ◌&&◌,
  if◌then◌else◌, u8, u32, update,
}
use topgun.Locutus.State.{
  ThunkTable, msg_imports, dos_imports, exited, undefined, out_of_fuel, Os2M, pure, gets, stop,
  modify, ◌>>=◌, ◌>>◌, emu_write,
}
use topgun.Locutus.Loader.{Image, check_format, os2_mmap, read_8, read_16, read_32, fixup_page}

-- The letters of a name, in capitals, up to a null byte.
abbrev pub capital : ℕ → ℕ
capital c = if leb 97 c && leb c 122 then c - 32 else c

abbrev pub name_of : List ℕ → List ℕ
name_of [] = []
name_of (c ∷ cs) = if c == 0 then [] else capital c ∷ name_of cs

abbrev pub same_name : List ℕ → List ℕ → Bool
same_name [] [] = true
same_name (c ∷ cs) (d ∷ ds) = (c == d) && same_name cs ds
same_name cs ds = false

-- "MSG" and "DOSCALLS".
abbrev pub msg_name : List ℕ
msg_name = 77 ∷ 83 ∷ 71 ∷ []

abbrev pub doscalls_name : List ℕ
doscalls_name = 68 ∷ 79 ∷ 83 ∷ 67 ∷ 65 ∷ 76 ∷ 76 ∷ 83 ∷ []

-- The `strcmpi` tests of `ResolveImports`. A library that is not known leaves its entry as it is.
unfoldable pub library_table : List ℕ → ThunkTable → ThunkTable
library_table name old =
    if same_name (name_of name) msg_name
    then msg_imports
    else if same_name (name_of name) doscalls_name
    then dos_imports
    else old

-- The next entry of `ModuleThunkTable`, and its count.
unfoldable pub add_module : List ℕ → Os2M (Unit {0})
add_module name = do
  count ← gets (λ s. s.module_count)
  if leb 256 (count + 1)
      then stop undefined
      else modify (λ s. record s {
        module_count = count + 1;
        modules = update s.modules (count + 1) (library_table name (s.modules (count + 1)));
      })

-- `memset` to 0, and `memcpy` from the file, on `n` bytes at an address.
abbrev pub fill_zero : ℕ → ℕ → (ℕ → ℕ) → ℕ → ℕ
fill_zero addr n f a = if leb addr a && ltb a (addr + n) then 0 else f a

module _ (img : Image) where
  abbrev pub copy_file : ℕ → ℕ → ℕ → (ℕ → ℕ) → ℕ → ℕ
  copy_file src addr n f a =
      if leb addr a && ltb a (addr + n) then u8 (img.bytes (src + (a - addr))) else f a

  unfoldable pub read_name : ℕ → ℕ → Os2M (List ℕ)
  read_name zero pos = pure []
  read_name (suc n) pos = do c ← read_8 img pos; cs ← read_name n (pos + 1); pure (c ∷ cs)

  -- The loop of `ResolveImports`, on one unit of fuel for each byte of the table. `TempBuffer` has
  -- room for 127 letters.
  unfoldable pub resolve_from : ℕ → ℕ → ℕ → Os2M (Unit {0})
  resolve_from zero pos end = if ltb pos end then stop out_of_fuel else pure tt
  resolve_from (suc n) pos end =
      if ltb pos end
      then (do
        len ← read_8 img pos
        if ltb 127 len then stop undefined else (do
          name ← read_name len (pos + 1)
          add_module name
          resolve_from n (pos + len + 1) end))
      else pure tt

  unfoldable pub resolve_imports : Os2M (Unit {0})
  resolve_imports = do
    import_module_table ← read_32 img (img.header + 112)
    import_proc_table ← read_32 img (img.header + 120)
    resolve_from (import_proc_table - import_module_table) (img.header + import_module_table)
        (img.header + import_proc_table)

  -- The switch on the flags of a page.
  unfoldable pub place_page : ℕ → ℕ → ℕ → ℕ → ℕ → Os2M (Unit {0})
  place_page flags data_size src page_size p_dst =
      if flags == 0
      then (if ltb img.size (src + data_size) then stop undefined else (do
        emu_write p_dst data_size (copy_file src p_dst data_size)
        (if ltb data_size page_size
            then emu_write (p_dst + data_size) (page_size - data_size)
                (fill_zero (p_dst + data_size) (page_size - data_size))
            else pure tt)))
      else if flags == 3
      then emu_write p_dst page_size (fill_zero p_dst page_size)
      else stop exited

  module _ (fuel : ℕ) where
    -- The loop over the `n` pages of an object that are left: where the next page would go.
    unfoldable pub load_pages : ℕ → ℕ → ℕ → ℕ → Os2M ℕ
    load_pages zero page_table_index entry p_dst = pure p_dst
    load_pages (suc n) page_table_index entry p_dst = do
      page_size ← read_32 img (img.header + 40)
      page_offset_shift ← read_32 img (img.header + 44)
      data_pages_offset ← read_32 img (img.header + 128)
      page_data_offset ← read_32 img entry
      data_size ← read_16 img (entry + 4)
      flags ← read_16 img (entry + 6)
      (if leb 32 page_offset_shift
          then stop undefined
          else place_page flags data_size
              (data_pages_offset + u32 (page_data_offset * 2 ^ page_offset_shift)) page_size p_dst)
      fixup_page img fuel page_table_index p_dst
      load_pages n page_table_index (entry + 8) (u32 (p_dst + page_size))

    -- The size of an object, in whole pages.
    abbrev pub round_up : ℕ → ℕ → ℕ
    round_up size page_size =
        if size % page_size == 0 then size else u32 (size + (page_size - size % page_size))

    -- One round of the loop over objects, for the entry at a place.
    unfoldable pub load_object : ℕ → Os2M (Unit {0})
    load_object obj = do
      page_size ← read_32 img (img.header + 40)
      virtual_size ← read_32 img obj
      reloc_base_addr ← read_32 img (obj + 4)
      page_table_index ← read_32 img (obj + 12)
      num_page_table_entries ← read_32 img (obj + 16)
      object_page_table ← read_32 img (img.header + 72)
      if page_size == 0 then stop undefined else (do
        p_object ← os2_mmap fuel reloc_base_addr (round_up virtual_size page_size)
        p_dst ←
            load_pages num_page_table_entries page_table_index
              (img.header + object_page_table + 8 * page_table_index - 8) p_object
        emu_write p_dst (u32 (round_up virtual_size page_size + p_object + 2 ^ 32 - p_dst))
            (fill_zero p_dst (u32 (round_up virtual_size page_size + p_object + 2 ^ 32 - p_dst))))

    unfoldable pub load_objects : ℕ → ℕ → Os2M (Unit {0})
    load_objects zero obj = pure tt
    load_objects (suc n) obj = do load_object obj; load_objects n (obj + 24)

    -- `reloc_base_addr` of an object by its number, as part of an address; object 0 adds nothing.
    unfoldable pub relocated : ℕ → ℕ → Os2M ℕ
    relocated object_id offset = if object_id == 0 then pure offset else (do
      object_table ← read_32 img (img.header + 64)
      reloc_base_addr ← read_32 img (img.header + object_table + 24 * (object_id - 1) + 4)
      pure (u32 (offset + reloc_base_addr)))

    -- From the header on: the EIP and the ESP that `LaunchOS2` is called with.
    unfoldable pub load_module : Os2M (ℕ × ℕ)
    load_module = do
      object_table ← read_32 img (img.header + 64)
      module_num_objects ← read_32 img (img.header + 68)
      resolve_imports
      load_objects module_num_objects (img.header + object_table)
      eip ← read_32 img (img.header + 28)
      eip_object ← read_32 img (img.header + 24)
      var_eip ← relocated eip_object eip
      esp ← read_32 img (img.header + 36)
      esp_object ← read_32 img (img.header + 32)
      if esp == 0
          then stop exited
          else (do var_esp ← relocated esp_object esp; pure (var_eip, var_esp))

-- `LoadLX` on a file of `size` bytes.
unfoldable pub load_lx : ℕ → (ℕ → ℕ) → ℕ → Os2M (ℕ × ℕ)
load_lx fuel bytes size =
    let format = check_format bytes size in
    if format.0 == 0
    then stop exited
    else load_module (record { bytes = bytes; size = size; header = format.1.0 }) fuel
