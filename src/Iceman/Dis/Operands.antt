-- ===== src/Iceman/Dis/Operands.antt =====
-- `sprintf_signed_hex` and `disasm_operand`: the text of one operand, and the size of what it reads
-- from the code.
use topgun.Common.{
  ℕ, zero, suc, ◌+◌, ◌-◌, ◌==◌, ◌^◌, List, [], ◌∷◌, ◌++◌, Bool, if◌then◌else◌, ltb, u32, sx8, sx16,
}
use topgun.Common.Text.{Text, codes, hex}
use mathlib.Core.Option.{Option, none, some}
use topgun.Isa.{
  Operand, OperandType, rm_modrm, reg_modrm, mem_modrm, seg_reg_modrm, const_reg, constant, ip_rel,
  simm, offset, OperandSize, sz_8, sz_16, sz_32,
}
use topgun.Decode.Operands.{real_size}
use topgun.Iceman.Dis.Names.{regs_8, regs_16, regs_32, seg_reg_names}
use topgun.Iceman.Dis.Address.{Fields, byte_at, word_at, dword_at}

-- The arguments `op_sz`, `addr_sz`, `segment_override` and `which_segment`.
pub record Context : Type 0 where
  pub op_sz : Bool
  pub addr_sz : Bool
  pub segment_override : Bool
  pub which_segment : ℕ

-- What becomes of an operand's string: it is written, and a size returned; it keeps its old text, and
-- the size is 0; the code prints "help" and waits forever; or something unset is read.
pub data Shown : Type 0 where
  wrote : Text → ℕ → Shown
  kept help unset : Shown

-- A read of a table of names.
unfoldable pub named : List Text → ℕ → (Text → Shown) → Shown
named [] i show = unset
named (name ∷ names) zero show = show name
named (name ∷ names) (suc i) show = named names i show

-- `reg_table` and `sz_str`, which are set for three sizes only.
unfoldable pub reg_table : OperandSize → List Text
reg_table sz_8 = regs_8
reg_table sz_16 = regs_16
reg_table sz_32 = regs_32
reg_table _ = []

unfoldable pub sz_str : OperandSize → List Text
sz_str sz_8 = codes "BYTE" ∷ []
sz_str sz_16 = codes "WORD" ∷ []
sz_str sz_32 = codes "DWORD" ∷ []
sz_str _ = []

unfoldable pub sprintf_signed_hex : ℕ → Text
sprintf_signed_hex disp =
    if ltb (u32 disp) 0x80000000
    then codes "0x" ++ hex 8 disp
    else codes "-0x" ++ hex 8 (2 ^ 32 - u32 disp)

-- `%s:` where a segment is named.
unfoldable pub segment_text : Context → (Text → Shown) → Shown
segment_text ctx show =
    if ctx.segment_override
    then named seg_reg_names ctx.which_segment (λ name. show (name ++ codes ":"))
    else show []

unfoldable pub memory_text : Context → OperandSize → Text → Shown
unfolding segment_text sz_str named
memory_text ctx size rm_str = named (sz_str size) 0 (λ width.
    segment_text ctx
      (λ seg. wrote (width ++ codes " PTR " ++ seg ++ codes "[" ++ rm_str ++ codes "]") 0))

-- `mod`, `reg` and `rm` are not set where the row has no ModR/M byte.
unfoldable pub with_fields : Option Fields → (Fields → Shown) → Shown
with_fields none show = unset
with_fields (some fields) show = show fields

unfoldable pub rm_text : Context → OperandSize → Text → Fields → Shown
unfolding memory_text named reg_table
rm_text ctx size rm_str fields =
    if fields.mod_field == 3
    then named (reg_table size) fields.rm_field (λ name. wrote name 0)
    else memory_text ctx size rm_str

module _ (bytes : ℕ → ℕ) (address : ℕ) where
  unfoldable pub imm_text : OperandSize → Shown
  imm_text sz_8 = wrote (codes "0x" ++ hex 2 (byte_at bytes address)) 1
  imm_text sz_16 = wrote (codes "0x" ++ hex 4 (word_at bytes address)) 2
  imm_text sz_32 = wrote (codes "0x" ++ hex 8 (dword_at bytes address)) 4
  imm_text _ = help

  -- The sign-extended number at `address`, and what is shown of it and its size.
  unfoldable pub signed_at : OperandSize → (ℕ → ℕ → Shown) → Shown
  signed_at sz_8 show = show (sx8 (byte_at bytes address)) 1
  signed_at sz_16 show = show (sx16 (word_at bytes address)) 2
  signed_at sz_32 show = show (dword_at bytes address) 4
  signed_at _ show = help

  unfoldable pub offset_text : Context → Shown
  unfolding segment_text
  offset_text ctx = segment_text ctx (λ seg.
      if ctx.addr_sz
      then wrote (seg ++ codes "[0x" ++ hex 8 (dword_at bytes address) ++ codes "]") 4
      else wrote (seg ++ codes "[0x" ++ hex 4 (word_at bytes address) ++ codes "]") 2)

  -- The switch on the type; `size` is the real size.
  unfoldable pub text_by_type :
      Context → ℕ → OperandType → OperandSize → ℕ → Option Fields → Text → Shown
  unfolding with_fields rm_text named reg_table signed_at imm_text offset_text sprintf_signed_hex
  text_by_type ctx vaddr rm_modrm size value fields rm_str =
      with_fields fields (rm_text ctx size rm_str)
  text_by_type ctx vaddr mem_modrm size value fields rm_str =
      with_fields fields (rm_text ctx size rm_str)
  text_by_type ctx vaddr reg_modrm size value fields rm_str =
      with_fields fields (λ f. named (reg_table size) f.reg_field (λ name. wrote name 0))
  text_by_type ctx vaddr seg_reg_modrm size value fields rm_str =
      with_fields fields (λ f. named seg_reg_names f.reg_field (λ name. wrote name 0))
  text_by_type ctx vaddr const_reg size value fields rm_str =
      named (reg_table size) value (λ name. wrote name 0)
  text_by_type ctx vaddr simm size value fields rm_str =
      signed_at size (λ disp read. wrote (sprintf_signed_hex disp) read)
  text_by_type ctx vaddr offset size value fields rm_str = offset_text ctx
  text_by_type ctx vaddr OperandType.imm size value fields rm_str = imm_text size
  text_by_type ctx vaddr constant size value fields rm_str = wrote (codes "0x" ++ hex 2 value) 0
  text_by_type ctx vaddr ip_rel size value fields rm_str =
      signed_at size (λ disp read. wrote (codes "0x" ++ hex 8 (vaddr + read + disp)) read)
  text_by_type ctx vaddr _ size value fields rm_str = kept

  unfoldable pub disasm_operand : Context → ℕ → Operand → Option Fields → Text → Shown
  unfolding text_by_type real_size
  disasm_operand ctx vaddr op fields rm_str =
      text_by_type ctx vaddr op.type (real_size ctx.op_sz op.size) op.value fields rm_str
