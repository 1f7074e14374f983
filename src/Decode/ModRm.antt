-- ===== src/Decode/ModRm.antt =====
-- `decode_sib`, `decode_rm_32` and `decode_rm_16`.
use topgun.Common.{
  ℕ, ◌+◌, ◌*◌, ◌/◌, ◌%◌, ◌^◌, ◌&&◌, ◌||◌, if◌then◌else◌, ◌==◌, ltb, u16, u32, sx8, sx16,
}
use topgun.Isa.{DecodedOp, mem, register, sz_8}
use topgun.Isa.Codes.{r_ebx, r_ebp, r_esi, r_edi, ss}
use topgun.Machine.Outcome.{M, undefined, pure, gets, stop, ◌>>=◌}
use topgun.Machine.Board.{Board}
use topgun.Machine.Regs.{get_reg_16}
use topgun.Decode.Fetch.{fetch_8, fetch_16, fetch_32}

-- The macros `MOD`, `REG` and `RM`, which are `SCALE`, `INDEX` and `BASE` of an SIB byte below
-- 0x80.
abbrev pub mod_of : ℕ → ℕ
mod_of modrm = modrm / 2 ^ 6 % 4

abbrev pub reg_of : ℕ → ℕ
reg_of modrm = modrm / 2 ^ 3 % 8

abbrev pub rm_of : ℕ → ℕ
rm_of modrm = modrm % 8

-- The decoders fill in the type, the id and the segment; a size is given later.
abbrev pub decoded_reg : ℕ → DecodedOp
decoded_reg rm = record { type = register; id = rm; size = sz_8; sr = 0 }

abbrev pub decoded_mem : ℕ → ℕ → DecodedOp
decoded_mem offset sr = record { type = mem; id = offset; size = sz_8; sr = sr }

module _ (b : Board) where
  -- `regs[INDEX] * (1 << SCALE)`. `sib` is a `char`, which is signed in this build, so from 0x80 on
  -- `SCALE` is negative and the shift undefined.
  unfoldable pub scaled_index : ℕ → M ℕ
  scaled_index sib =
      if reg_of sib == 4
      then pure 0
      else if ltb sib 0x80
      then gets (λ m. m.regs (reg_of sib) * 2 ^ mod_of sib)
      else stop undefined

  -- The base of an SIB address and its segment.
  unfoldable pub sib_base : ℕ → ℕ → M (ℕ × ℕ)
  sib_base modrm sib =
      if rm_of sib == 5 && mod_of modrm == 0
      then (fetch_32 b >>= λ disp. pure (disp, 0))
      else (gets (λ m. m.regs (rm_of sib)) >>= λ base.
          pure (base, if rm_of sib == 5 || rm_of sib == 4 then ss else 0))

  -- The offset and the segment.
  unfoldable pub decode_sib : ℕ → M (ℕ × ℕ)
  decode_sib modrm = do
    sib ← fetch_8 b
    (base, sr) ← sib_base modrm sib
    index ← scaled_index sib
    pure (u32 (base + index), sr)

  unfoldable pub base_32 : ℕ → M (ℕ × ℕ)
  base_32 modrm =
      if rm_of modrm == 4
      then decode_sib modrm
      else if rm_of modrm == 5
      then (if mod_of modrm == 0
          then (fetch_32 b >>= λ disp. pure (disp, 0))
          else (gets (λ m. m.regs r_ebp) >>= λ base. pure (base, ss)))
      else (gets (λ m. m.regs (rm_of modrm)) >>= λ base. pure (base, 0))

  unfoldable pub displacement_32 : ℕ → M ℕ
  displacement_32 modrm =
      if mod_of modrm == 1
      then (fetch_8 b >>= λ disp. pure (sx8 disp))
      else if mod_of modrm == 2
      then fetch_32 b
      else pure 0

  unfoldable pub decode_rm_32 : ℕ → M DecodedOp
  decode_rm_32 modrm = if mod_of modrm == 3 then pure (decoded_reg (rm_of modrm)) else (do
    (base, sr) ← base_32 modrm
    disp ← displacement_32 modrm
    pure (decoded_mem (u32 (base + disp)) sr))

  -- `u16` of the sum of two registers.
  abbrev pub sum_16 : ℕ → ℕ → ℕ → M (ℕ × ℕ)
  sum_16 r1 r2 sr = gets (λ m. (u16 (get_reg_16 r1 m + get_reg_16 r2 m), sr))

  abbrev pub only_16 : ℕ → ℕ → M (ℕ × ℕ)
  only_16 r sr = gets (λ m. (get_reg_16 r m, sr))

  unfoldable pub base_16 : ℕ → M (ℕ × ℕ)
  base_16 modrm =
      let rm = rm_of modrm in
      if rm == 0
      then sum_16 r_ebx r_esi 0
      else if rm == 1
      then sum_16 r_ebx r_edi 0
      else if rm == 2
      then sum_16 r_ebp r_esi ss
      else if rm == 3
      then sum_16 r_ebp r_edi ss
      else if rm == 4
      then only_16 r_esi 0
      else if rm == 5
      then only_16 r_edi 0
      else if rm == 6
      then (if mod_of modrm == 0 then (fetch_16 b >>= λ disp. pure (disp, 0)) else only_16 r_ebp ss)
      else only_16 r_ebx 0

  unfoldable pub displacement_16 : ℕ → M ℕ
  displacement_16 modrm =
      if mod_of modrm == 1
      then (fetch_8 b >>= λ disp. pure (sx8 disp))
      else if mod_of modrm == 2
      then (fetch_16 b >>= λ disp. pure (sx16 disp))
      else pure 0

  unfoldable pub decode_rm_16 : ℕ → M DecodedOp
  decode_rm_16 modrm = if mod_of modrm == 3 then pure (decoded_reg (rm_of modrm)) else (do
    (base, sr) ← base_16 modrm
    disp ← displacement_16 modrm
    pure (decoded_mem (u16 (base + disp)) sr))
