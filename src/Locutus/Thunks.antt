-- ===== src/Locutus/Thunks.antt =====
-- Imports of `locutus/os2thunk.c`: the import tables, `GenerateThunk` and
-- `GetModuleProcAddrByOrdinal`.
pub mod Laws
use topgun.Common.{
  ℕ, zero, suc, ◌+◌, ◌-◌, ◌*◌, ◌/◌, ◌%◌, ◌^◌, bit_or, Bool, if◌then◌else◌, ◌==◌, leb, ltb, u16, u32,
  update,
}
use topgun.Locutus.Pages.{Bitmap, Result, found, passed, outside, alloc_pages}
use topgun.Locutus.State.{
  Os2, ThunkTable, no_table, msg_imports, dos_imports, Run, done, undefined, out_of_fuel, Os2M,
  pure, gets, stop, modify, ◌>>=◌, ◌>>◌, store_8, store_32, emu_write, with_bitmap,
}

-- The addresses that the linker gives to the functions of the import tables.
pub record HostAddresses : Type 0 where
  pub put_message : ℕ
  pub query_h_type : ℕ
  pub exit : ℕ
  pub set_file_ptr : ℕ
  pub write : ℕ
  pub alloc_mem : ℕ
  pub query_sys_info : ℕ

module _ (h : HostAddresses) where
  -- `MsgImportThunks`.
  unfoldable pub msg_import_thunks : ℕ → ℕ
  msg_import_thunks i = if i == 0 then 6 else if i == 6 then h.put_message else 0

  -- `DosImportThunks`: the entry of an ordinal stands one place after it.
  unfoldable pub dos_import_thunks : ℕ → ℕ
  dos_import_thunks i =
      if i == 0
      then 1024
      else if i == 0xe0 + 1
      then h.query_h_type
      else if i == 0xea + 1
      then h.exit
      else if i == 0x100 + 1
      then h.set_file_ptr
      else if i == 0x11a + 1
      then h.write
      else if i == 0x12b + 1
      then h.alloc_mem
      else if i == 0x15c + 1
      then h.query_sys_info
      else 0

  unfoldable pub import_thunks : ThunkTable → ℕ → ℕ
  unfolding msg_import_thunks dos_import_thunks
  import_thunks msg_imports = msg_import_thunks
  import_thunks dos_imports = dos_import_thunks
  import_thunks no_table = λ i. 0

-- The number of words in a table.
abbrev pub table_words : ThunkTable → ℕ
table_words msg_imports = 7
table_words dos_imports = 1025
table_words no_table = 0

-- `PFToAddr`.
abbrev pub pf_to_addr : ℕ → ℕ
pf_to_addr pf = u32 (pf * 2 ^ 12)

abbrev pub allocated : Result × Bitmap → Os2M ℕ
allocated (found base, f) s = done base (with_bitmap f s)
allocated (passed, f) s = done 0 (with_bitmap f s)
allocated (outside, f) s = undefined
allocated (Result.out_of_fuel, f) s = out_of_fuel

-- `VMMAllocPages` on the state; `NULL` is 0. The fuel is that of the search.
unfoldable pub vmm_alloc_pages : ℕ → ℕ → ℕ → Os2M ℕ
vmm_alloc_pages fuel vbase pages s = allocated (alloc_pages fuel vbase pages s.bitmap) s

-- The bytes of `mov eax, pointer; int 0x80; ret`.
unfoldable pub thunk_bytes : ℕ → ℕ → (ℕ → ℕ) → ℕ → ℕ
thunk_bytes addr pointer f = store_8 (addr + 7) 0xc3 (
    store_8 (addr + 6) 0x80
      (store_8 (addr + 5) 0xcd (store_32 (addr + 1) pointer (store_8 addr 0xb8 f))))

-- `GenerateThunk`. It does not look whether a page was found; page 0 is reserved and never committed,
-- so a write to it is undefined.
unfoldable pub generate_thunk : ℕ → ℕ → Os2M ℕ
generate_thunk fuel pointer = do
  page ← vmm_alloc_pages fuel 0x800 1
  if page == 0 then stop undefined else (do
    emu_write (pf_to_addr page) 8 (thunk_bytes (pf_to_addr page) pointer)
    pure (pf_to_addr page))

-- An assignment to a word of an import table.
unfoldable pub set_thunk : ThunkTable → ℕ → ℕ → Os2 → Os2
set_thunk no_table i v s = s
set_thunk msg_imports i v s = record s {
  thunks = λ t. elim t [ msg_imports ↦ update (s.thunks msg_imports) i v | t ↦ s.thunks t ];
}
set_thunk dos_imports i v s = record s {
  thunks = λ t. elim t [ dos_imports ↦ update (s.thunks dos_imports) i v | t ↦ s.thunks t ];
}

-- `addr | 0x80000000`, on 32 bits.
abbrev pub with_high_bit : ℕ → ℕ
with_high_bit addr = addr % 2 ^ 31 + 2 ^ 31

module _ (fuel : ℕ) where
  -- An entry with its high bit set is an address that a thunk has been generated at.
  unfoldable pub resolve : ThunkTable → ℕ → ℕ → Os2M ℕ
  resolve table i entry =
      if leb (2 ^ 31) entry then pure (entry - 2 ^ 31) else if entry == 0 then pure 0 else (do
        addr ← generate_thunk fuel entry
        modify (set_thunk table i (with_high_bit addr))
        pure (with_high_bit addr % 2 ^ 31))

  unfoldable pub lookup_in : ThunkTable → ℕ → Os2M ℕ
  lookup_in table ordinal = do
    count ← gets (λ s. s.thunks table 0)
    if ltb count ordinal
        then pure 0
        else if leb (table_words table) (ordinal + 1)
        then stop undefined
        else (do
          entry ← gets (λ s. s.thunks table (ordinal + 1))
          resolve table (ordinal + 1) entry)

  unfoldable pub lookup_ordinal : ThunkTable → ℕ → Os2M ℕ
  unfolding lookup_in
  lookup_ordinal no_table ordinal = stop undefined
  lookup_ordinal msg_imports ordinal = lookup_in msg_imports ordinal
  lookup_ordinal dos_imports ordinal = lookup_in dos_imports ordinal

  -- `GetModuleProcAddrByOrdinal`; the module is a `WORD`.
  unfoldable pub get_module_proc_addr_by_ordinal : ℕ → ℕ → Os2M ℕ
  get_module_proc_addr_by_ordinal module_id import_id = do
    count ← gets (λ s. s.module_count)
    if ltb count (u16 module_id)
        then pure 0
        else if leb 256 (u16 module_id + 1)
        then stop undefined
        else (do table ← gets (λ s. s.modules (u16 module_id + 1)); lookup_ordinal table import_id)
