-- ===== src/Locutus/Loader.antt =====
-- Parts of the loader `locutus/enterprs.c`: the format check, `Os2Mmap` and the fixups of a page.
pub mod Reads
pub mod Fixups
pub mod Internal
pub mod Load
pub mod Imports
use topgun.Common.{
  ℕ, zero, suc, ◌+◌, ◌-◌, ◌*◌, ◌/◌, ◌%◌, ◌^◌, bit_and, List, [], ◌∷◌, Bool, ◌==◌, not, leb, ltb,
  if◌then◌else◌, u8, u16, u32,
}
use topgun.Common.Bits.{bit}
use topgun.Locutus.State.{
  Os2, Run, exited, undefined, out_of_fuel, Os2M, pure, gets, stop, modify, ◌>>=◌, ◌>>◌, store_8,
  store_16, store_32, emu_write,
}
use topgun.Locutus.Thunks.{pf_to_addr, vmm_alloc_pages, get_module_proc_addr_by_ordinal}

-- The file in `Buffer`, and where `CheckFormat` has moved the pointer to.
pub record Image : Type 0 where
  pub bytes : ℕ → ℕ
  pub size : ℕ
  pub header : ℕ

-- `CheckFormat`: 1 with the pointer and the length moved past the stub, or 0. `sizeof(LxHeader)` is
-- 172, and the sum is on 32 bits.
unfoldable pub check_format : (ℕ → ℕ) → ℕ → ℕ × (ℕ × ℕ)
check_format bytes length =
    let offset =
      u8 (bytes 0x3c)
      + 2 ^ 8 * u8 (bytes 0x3d)
      + 2 ^ 16 * u8 (bytes 0x3e)
      + 2 ^ 24 * u8 (bytes 0x3f) in
    if ltb length 196
    then (0, (0, length))
    else if leb length (u32 (offset + 172))
    then (0, (0, length))
    else (1, (offset, u32 (length + 2 ^ 32 - offset)))

-- `Os2Mmap`.
unfoldable pub os2_mmap : ℕ → ℕ → ℕ → Os2M ℕ
os2_mmap fuel base_address size = do
  page ← vmm_alloc_pages fuel (base_address / 2 ^ 12) (size / 4096)
  pure (pf_to_addr page)

-- `doFixup`; a value of 0 is not stored. `value_2` is the selector of a 16:32 pointer.
unfoldable pub store_fixup : ℕ → ℕ → ℕ → ℕ → Os2M (Unit {0})
store_fixup addr value value_2 size =
    if size == 1
    then emu_write addr 1 (store_8 addr value)
    else if size == 2
    then emu_write addr 2 (store_16 addr value)
    else if size == 4
    then emu_write addr 4 (store_32 addr value)
    else if size == 6
    then emu_write addr 6 (λ f. store_32 (addr + 2) value (store_16 addr value_2 f))
    else pure tt

unfoldable pub do_fixup : ℕ → ℕ → ℕ → ℕ → ℕ → Os2M (Unit {0})
do_fixup p_dst offset value value_2 size =
    if value == 0 then pure tt else store_fixup (p_dst + offset) value value_2 size

-- `FinalSize`, by the low four bits of the source type.
unfoldable pub final_size : ℕ → ℕ
final_size kind =
    if kind == 0
    then 1
    else if kind == 2
    then 2
    else if kind == 5
    then 2
    else if kind == 3
    then 4
    else if kind == 7
    then 4
    else if kind == 8
    then 4
    else if kind == 6
    then 6
    else 0

-- A flag of a fixup record.
abbrev pub has_flag : ℕ → ℕ → Bool
has_flag flags i = bit flags i == 1

-- A self-relative value counts from the end of the dword.
abbrev pub relative_value : ℕ → ℕ → ℕ → ℕ → ℕ
relative_value kind p_dst offset value =
    if kind == 8 then u32 (value + 2 ^ 33 - u32 (p_dst + offset + 4)) else value

unfoldable pub fix_at : ℕ → ℕ → ℕ → ℕ → Os2M (Unit {0})
fix_at p_dst kind value offset =
    do_fixup p_dst offset (relative_value kind p_dst offset value) 0 (final_size kind)

module _ (img : Image) where
  -- Reads at a place in the file.
  unfoldable pub read_8 : ℕ → Os2M ℕ
  read_8 pos = if ltb pos img.size then pure (u8 (img.bytes pos)) else stop undefined

  unfoldable pub read_16 : ℕ → Os2M ℕ
  read_16 pos = do low ← read_8 pos; high ← read_8 (pos + 1); pure (low + 2 ^ 8 * high)

  unfoldable pub read_32 : ℕ → Os2M ℕ
  read_32 pos = do low ← read_16 pos; high ← read_16 (pos + 2); pure (low + 2 ^ 16 * high)

  -- A field that is a dword, a word or a byte wide, and the place after it.
  unfoldable pub next_32 : ℕ → Os2M (ℕ × ℕ)
  next_32 pos = do value ← read_32 pos; pure (value, pos + 4)

  unfoldable pub next_16 : ℕ → Os2M (ℕ × ℕ)
  next_16 pos = do value ← read_16 pos; pure (value, pos + 2)

  unfoldable pub next_8 : ℕ → Os2M (ℕ × ℕ)
  next_8 pos = do value ← read_8 pos; pure (value, pos + 1)

  -- The target of an internal fixup is read from the object table, and `FinalVal` stays 0.
  unfoldable pub internal_value : ℕ → ℕ → ℕ → Os2M (ℕ × ℕ)
  internal_value kind flags pos = do
    (object_id, after_id) ← (if has_flag flags 6 then next_16 pos else next_8 pos)
    (target_offset, after_target) ←
        (if kind == 2
          then pure (0, after_id)
          else if has_flag flags 4
          then next_32 after_id
          else next_16 after_id)
    object_table ← read_32 (img.header + 64)
    reloc_base_addr ←
        (if ltb (img.header + object_table + 24 * object_id + 4) 24
          then stop undefined
          else read_32 (img.header + object_table + 24 * object_id + 4 - 24))
    pure (0, after_target)

  -- The loop over a source list of `n` offsets.
  unfoldable pub fix_list : ℕ → ℕ → ℕ → ℕ → ℕ → Os2M ℕ
  fix_list zero p_dst kind value pos = pure pos
  fix_list (suc n) p_dst kind value pos = do
    (offset, after_offset) ← next_16 pos
    fix_at p_dst kind value offset
    fix_list n p_dst kind value after_offset

  module _ (fuel : ℕ) where
    unfoldable pub import_value : ℕ → ℕ → Os2M (ℕ × ℕ)
    import_value flags pos = do
      (module_id, after_id) ← (if has_flag flags 6 then next_16 pos else next_8 pos)
      (import_id, after_import) ←
          (if has_flag flags 7
            then next_8 after_id
            else if has_flag flags 4
            then next_32 after_id
            else next_16 after_id)
      addr ← get_module_proc_addr_by_ordinal fuel module_id import_id
      pure (addr, after_import)

    -- `FinalVal` by the kind of target, before the additive. Imports by name and the entry table
    -- end the program.
    unfoldable pub target_value : ℕ → ℕ → ℕ → Os2M (ℕ × ℕ)
    target_value kind flags pos =
        if flags % 4 == 0
        then internal_value kind flags pos
        else if flags % 4 == 1
        then import_value flags pos
        else stop exited

    -- The value with its additive.
    unfoldable pub final_value : ℕ → ℕ → ℕ → Os2M (ℕ × ℕ)
    final_value kind flags pos = do
      (value, after_value) ← target_value kind flags pos
      (additive, after_additive) ←
          (if not (has_flag flags 2)
            then pure (0, after_value)
            else if has_flag flags 5
            then next_32 after_value
            else next_16 after_value)
      pure (u32 (value + additive), after_additive)

    -- One fixup record, and the place after it.
    unfoldable pub fix_record : ℕ → ℕ → Os2M ℕ
    fix_record p_dst pos = do
      (src_type, after_type) ← next_8 pos
      (flags, after_flags) ← next_8 after_type
      (source, after_source) ←
          (if has_flag src_type 5 then next_8 after_flags else next_16 after_flags)
      (value, after_value) ← final_value (src_type % 16) flags after_source
      if has_flag src_type 5
          then fix_list source p_dst (src_type % 16) value after_value
          else (fix_at p_dst (src_type % 16) value source >> pure after_value)

    -- The loop over the records of a page, on fuel.
    unfoldable pub fix_records : ℕ → ℕ → ℕ → ℕ → Os2M (Unit {0})
    fix_records zero p_dst pos end = if ltb pos end then stop out_of_fuel else pure tt
    fix_records (suc n) p_dst pos end =
        if ltb pos end
        then (do after_record ← fix_record p_dst pos; fix_records n p_dst after_record end)
        else pure tt

    -- `FixupPage`, for the object whose first page is `page_table_index`; the fuel is one for each byte.
    unfoldable pub fixup_page : ℕ → ℕ → Os2M (Unit {0})
    fixup_page page_table_index p_dst = do
      fixup_page_table ← read_32 (img.header + 104)
      fixup_record_table ← read_32 (img.header + 108)
      let entry = img.header + fixup_page_table + 4 * page_table_index
      offset ← (if ltb entry 4 then stop undefined else read_32 (entry - 4))
      next ← read_32 entry
      fix_records (next - offset) p_dst (img.header + fixup_record_table + offset)
          (img.header + fixup_record_table + next)
