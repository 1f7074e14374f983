-- ===== src/Iceman/Dis/Address.antt =====
-- The text of a memory operand's address: `pdisp8`, `pdisp16`, `pdisp32`, `dis_sib`, `rm32` and
-- `rm16`. Each answers `rm_str` and the number of bytes that it read.
use topgun.Common.{
  ℕ, ◌+◌, ◌-◌, ◌*◌, ◌^◌, [], ◌∷◌, ◌++◌, ◌&&◌, if◌then◌else◌, ◌==◌, ltb, u8, u16, u32,
}
use topgun.Common.Text.{Text, codes, hex}
use topgun.Isa.{get_or}
use topgun.Decode.ModRm.{mod_of, reg_of, rm_of}
use topgun.Iceman.Dis.Names.{regs_32, rm16_strs}

-- The fields of a ModR/M byte.
pub record Fields : Type 0 where
  pub mod_field : ℕ
  pub reg_field : ℕ
  pub rm_field : ℕ

unfoldable pub fields_of : ℕ → Fields
fields_of modrm = record {
  mod_field = mod_of modrm;
  reg_field = reg_of modrm;
  rm_field = rm_of modrm;
}

-- `-num` is taken modulo the width, so that it is right for the least number too.
unfoldable pub pdisp8 : ℕ → Text
pdisp8 num =
    if ltb (u8 num) 0x80
    then codes "+0x" ++ hex 2 (u8 num)
    else codes "-0x" ++ hex 2 (2 ^ 8 - u8 num)

unfoldable pub pdisp16 : ℕ → Text
pdisp16 num =
    if ltb (u16 num) 0x8000
    then codes "+0x" ++ hex 4 (u16 num)
    else codes "-0x" ++ hex 4 (2 ^ 16 - u16 num)

unfoldable pub pdisp32 : ℕ → Text
pdisp32 num =
    if ltb (u32 num) 0x80000000
    then codes "+0x" ++ hex 8 (u32 num)
    else codes "-0x" ++ hex 8 (2 ^ 32 - u32 num)

-- Little-endian reads, `*(uint16_t*)address` and `*(uint32_t*)address`.
module _ (bytes : ℕ → ℕ) where
  unfoldable pub byte_at : ℕ → ℕ
  byte_at address = u8 (bytes address)

  unfoldable pub word_at : ℕ → ℕ
  unfolding byte_at
  word_at address = byte_at address + 2 ^ 8 * byte_at (address + 1)

  unfoldable pub dword_at : ℕ → ℕ
  unfolding byte_at
  dword_at address =
      byte_at address
      + 2 ^ 8 * byte_at (address + 1)
      + 2 ^ 16 * byte_at (address + 2)
      + 2 ^ 24 * byte_at (address + 3)

  -- The name of the base register is appended to `rm_str`, which is empty before.
  unfoldable pub sib_base_text : ℕ → ℕ → Text × ℕ
  sib_base_text mode sib =
      if rm_of sib == 5 && mode == 0 then ([], 5) else (get_or regs_32 (rm_of sib) [], 1)

  unfoldable pub sib_index_text : ℕ → Text
  sib_index_text sib =
      if reg_of sib == 4
      then []
      else if mod_of sib == 0
      then codes "+" ++ get_or regs_32 (reg_of sib) []
      else codes "+" ++ get_or regs_32 (reg_of sib) [] ++ codes "*" ++ (b'0' + 2 ^ mod_of sib) ∷ []

  -- With no base register the displacement is counted, and its text is dropped: `index` is written
  -- again or not used.
  unfoldable pub dis_sib : ℕ → ℕ → Text × ℕ
  unfolding sib_base_text sib_index_text
  dis_sib address mode =
      let sib = byte_at address in
      let (base, size) = sib_base_text mode sib in (base ++ sib_index_text sib, size)

  unfoldable pub base_text_32 : ℕ → ℕ → ℕ → Text × ℕ
  base_text_32 address mode rm =
      if rm == 4
      then dis_sib address mode
      else if rm == 5 && mode == 0
      then (codes "0x" ++ hex 8 (dword_at address), 4)
      else (get_or regs_32 rm [], 0)

  unfoldable pub displacement_text_32 : ℕ → ℕ → Text × ℕ
  displacement_text_32 address mode =
      if mode == 1
      then (pdisp8 (byte_at address), 1)
      else if mode == 2
      then (pdisp32 (dword_at address), 4)
      else ([], 0)

  unfoldable pub rm32 : ℕ → Fields → Text × ℕ
  unfolding base_text_32 displacement_text_32
  rm32 address fields =
      let (base, size) = base_text_32 address fields.mod_field fields.rm_field in
      let (disp, more) = displacement_text_32 (address + size) fields.mod_field in
      if fields.mod_field == 3 then ([], 0) else (base ++ disp, size + more)

  unfoldable pub base_text_16 : ℕ → ℕ → ℕ → Text × ℕ
  base_text_16 address mode rm =
      if rm == 6 && mode == 0
      then (codes "0x" ++ hex 4 (word_at address), 2)
      else (get_or rm16_strs rm [], 0)

  unfoldable pub displacement_text_16 : ℕ → ℕ → Text × ℕ
  displacement_text_16 address mode =
      if mode == 1
      then (pdisp8 (byte_at address), 1)
      else if mode == 2
      then (pdisp16 (word_at address), 2)
      else ([], 0)

  -- A displacement follows a base register only, so nothing was read before it.
  unfoldable pub rm16 : ℕ → Fields → Text × ℕ
  unfolding base_text_16 displacement_text_16
  rm16 address fields =
      let (base, size) = base_text_16 address fields.mod_field fields.rm_field in
      let (disp, more) = displacement_text_16 address fields.mod_field in
      if fields.mod_field == 3 then ([], 0) else (base ++ disp, size + more)
