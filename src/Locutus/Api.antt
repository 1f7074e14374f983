-- ===== src/Locutus/Api.antt =====
-- The OS/2 functions of `locutus/doscalls.c` and `locutus/os2thunk.c` that a program can import.
-- `lseek` and `write` belong to the C library: their results are parameters.
pub mod Laws
use topgun.Common.{
  ℕ, zero, suc, ◌+◌, ◌-◌, ◌*◌, ◌/◌, ◌%◌, ◌^◌, ◌||◌, List, [], ◌∷◌, ◌++◌, if◌then◌else◌, ◌==◌, leb,
  ltb, u8, u16, u32,
}
use topgun.Isa.{get_or}
use topgun.Locutus.State.{
  Os2, Run, hang, undefined, Os2M, pure, gets, stop, modify, ◌>>=◌, ◌>>◌, store_32, emu_write,
  os2_extent,
}
use topgun.Locutus.Thunks.{pf_to_addr, vmm_alloc_pages}

pub record Libc : Type 0 where
  pub lseek : ℕ → ℕ → ℕ → ℕ
  pub write : ℕ → List ℕ → ℕ

-- `DosSysInfo`.
abbrev pub dos_sys_info : List ℕ
dos_sys_info =
    255 ∷ 1 ∷ 1 ∷ 1 ∷ 1 ∷ 1 ∷ 1 ∷ 1 ∷ 1 ∷ 0x1000 ∷ 20 ∷ 0 ∷ 0 ∷ 0 ∷ 0 ∷ 0 ∷ 0x100000 ∷ 0x100000
    ∷ 0x100000 ∷ 0x100000 ∷ 0x100000 ∷ 1 ∷ 1 ∷ 1 ∷ 1 ∷ 1 ∷ 0x100000 ∷ 0x100000 ∷ 0x1000 ∷ 0x100000
    ∷ []

-- The codes of `windows.h`.
abbrev pub error_invalid_parameter : ℕ
error_invalid_parameter = 87

abbrev pub error_buffer_overflow : ℕ
error_buffer_overflow = 111

-- `ALIGN(x, 4096)` on 32 bits.
abbrev pub align : ℕ → ℕ
align x = if x % 4096 == 0 then x else u32 (x + 4096 - x % 4096)

-- The bytes of a buffer in memory.
unfoldable pub bytes_at : ℕ → ℕ → (ℕ → ℕ) → List ℕ
bytes_at zero addr f = []
bytes_at (suc n) addr f = u8 (f addr) ∷ bytes_at n (addr + 1) f

-- A `memcpy` of dwords from the table of values, entry `i` first.
unfoldable pub copy_info : ℕ → ℕ → ℕ → (ℕ → ℕ) → ℕ → ℕ
copy_info zero i addr f = f
copy_info (suc n) i addr f =
    copy_info n (i + 1) (addr + 4) (store_32 addr (get_or dos_sys_info i 0) f)

-- `DosQuerySysInfo_Impl`: the comparison is on `ULONG`, and entry -1 lies outside the table.
unfoldable pub dos32_query_sys_info : ℕ → ℕ → ℕ → ℕ → Os2M ℕ
dos32_query_sys_info start_index last_index buffer length =
    if ltb last_index start_index || ltb length (u32 (4 * (last_index - start_index)))
    then pure error_buffer_overflow
    else if ltb 30 start_index || ltb 30 last_index
    then pure error_invalid_parameter
    else if (start_index == 0)
    then (if last_index == 0 then pure 0 else stop undefined)
    else (do
      emu_write buffer (4 * (last_index - start_index))
          (copy_info (last_index - start_index) (start_index - 1) buffer)
      pure 0)

module _ (fuel : ℕ) where
  -- `Dos32AllocMem`.
  unfoldable pub dos32_alloc_mem : ℕ → ℕ → Os2M ℕ
  dos32_alloc_mem base_ptr object_size = do
    page ← vmm_alloc_pages fuel 0 (align object_size / 2 ^ 12)
    if pf_to_addr page == 0
        then pure 8
        else (do emu_write base_ptr 4 (store_32 base_ptr (pf_to_addr page)); pure 0)

module _ (c : Libc) where
  -- `Dos32SetFilePtr` and `DosSetFilePtr_Impl`.
  unfoldable pub dos32_set_file_ptr : ℕ → ℕ → ℕ → ℕ → Os2M ℕ
  dos32_set_file_ptr h_file ib method ib_actual =
      let res = u32 (c.lseek (u16 h_file) ib method) in
      if res == 0xffff_ffff
      then stop hang
      else (emu_write ib_actual 4 (store_32 ib_actual res) >> pure 0)

  -- A call of `write` on a buffer in memory.
  unfoldable pub write_buffer : ℕ → ℕ → ℕ → Os2M ℕ
  write_buffer h_file buffer count = if ltb os2_extent (buffer + count) then stop undefined else (do
    bytes ← gets (λ s. bytes_at count buffer s.mem)
    modify (λ s. record s { written = s.written ++ ((h_file, bytes) ∷ []) })
    pure (u32 (c.write h_file bytes)))

  -- `Dos32Write` and `DosWrite_Impl`.
  unfoldable pub dos32_write : ℕ → ℕ → ℕ → ℕ → Os2M ℕ
  dos32_write h_file buffer count actual = do
    res ← write_buffer (u16 h_file) buffer count
    if res == 0xffff_ffff then stop hang else (emu_write actual 4 (store_32 actual res) >> pure 0)

  -- `Dos32PutMessage` and `DosPutMessage_Impl`.
  unfoldable pub dos32_put_message : ℕ → ℕ → ℕ → Os2M ℕ
  dos32_put_message h_file msg_len str = do
    res ← write_buffer (u16 h_file) str (u16 msg_len)
    pure (u16 res)

-- `Dos32QueryHType` and `Dos32Exit`.
unfoldable pub dos32_query_h_type : ℕ → ℕ → ℕ → Os2M ℕ
dos32_query_h_type h_file type attr = stop hang

unfoldable pub dos32_exit : ℕ → ℕ → Os2M ℕ
dos32_exit action result = stop hang
