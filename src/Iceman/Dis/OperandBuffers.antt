-- ===== src/Iceman/Dis/OperandBuffers.antt =====
-- Every operand fits in its buffer of 50 characters.
use topgun.Common.{
  ℕ, zero, suc, ◌-◌, ◌^◌, ◌≤◌, List, [], ◌∷◌, ◌++◌, ◌==◌, ltb, u32, if◌then◌else◌, arith, length,
  Bool-cases, inl, inr,
}
use mathlib.Core.Option.{Option, none, some}
use topgun.Common.Text.{Text, codes, hex}
use topgun.Isa.{
  Operand, OperandType, rm_modrm, reg_modrm, mem_modrm, seg_reg_modrm, const_reg, constant, ip_rel,
  simm, offset, OperandSize, sz_8, sz_16, sz_32,
}
use topgun.Decode.Operands.{real_size}
use topgun.Iceman.Dis.Names.{seg_reg_names}
use topgun.Iceman.Dis.Address.{Fields, fields_of, word_at, dword_at, rm32, rm16}
use topgun.Iceman.Dis.Operands.{
  Context, Shown, wrote, kept, help, unset, named, reg_table, sz_str, with_fields, segment_text,
  memory_text, rm_text, imm_text, signed_at, sprintf_signed_hex, offset_text, text_by_type,
  disasm_operand,
}
use topgun.Iceman.Dis.Buffers.{Short, length-append, length-hex, length-rm32, length-rm16}

-- Whatever is written has at most `k` characters.
abbrev pub FitsIn : ℕ → Shown → Type 0
FitsIn k (wrote text n) = length text ≤ k
FitsIn k kept = Unit
FitsIn k help = Unit
FitsIn k unset = Unit

record Fits (k : ℕ) (shown : Shown) : Type 0 where
  fits : FitsIn k shown

module _ (k : ℕ) where
  wrote-Fits : (text : Text) (n : ℕ) → length text ≤ k → Fits k (wrote text n)
  wrote-Fits text n h = record { fits = h }

  named-Fits :
      (most : ℕ) (names : List Text) (i : ℕ) (show : Text → Shown)
      → Short most names
      → ((name : Text) → length name ≤ most → Fits k (show name))
      → Fits k (named names i show)
  unfolding named
  named-Fits most [] i show short all = record { fits = tt }
  named-Fits most (name ∷ names) zero show short all = all name short.0
  named-Fits most (name ∷ names) (suc i) show short all = named-Fits most names i show short.1 all

  with_fields-Fits :
      (fields : Option Fields) (show : Fields → Shown)
      → ((f : Fields) → Fits k (show f))
      → Fits k (with_fields fields show)
  unfolding with_fields
  with_fields-Fits none show all = record { fits = tt }
  with_fields-Fits (some f) show all = all f

  segment_text-Fits :
      (ctx : Context) (show : Text → Shown)
      → ((seg : Text) → length seg ≤ 3 → Fits k (show seg))
      → Fits k (segment_text ctx show)
  unfolding segment_text
  segment_text-Fits ctx show all = elim (Bool-cases ctx.segment_override) [
    | inl h ↦ rw h (
        named-Fits 2 seg_reg_names ctx.which_segment (λ name. show (name ++ codes ":"))
          (omega arith) (λ name short. all _ (rw (length-append name (codes ":")) (omega arith))))
    | inr h ↦ rw h (all [] (omega arith))
  ]

Short-reg_table : (size : OperandSize) → Short 3 (reg_table size)
unfolding reg_table
Short-reg_table sz_8 = omega arith
Short-reg_table sz_16 = omega arith
Short-reg_table sz_32 = omega arith
Short-reg_table _ = tt

Short-sz_str : (size : OperandSize) → Short 5 (sz_str size)
unfolding sz_str
Short-sz_str sz_8 = omega arith
Short-sz_str sz_16 = omega arith
Short-sz_str sz_32 = omega arith
Short-sz_str _ = tt

-- A register by its name.
reg_text-Fits :
    (names : List Text) (i : ℕ) → Short 3 names → Fits 49 (named names i (λ name. wrote name 0))
reg_text-Fits names i short =
    named-Fits 49 3 names i _ short (λ name h. wrote-Fits 49 name 0 (omega arith))

memory_text-Fits :
    (ctx : Context) (size : OperandSize) (rm_str : Text)
    → length rm_str ≤ 21
    → Fits 49 (memory_text ctx size rm_str)
unfolding memory_text
memory_text-Fits ctx size rm_str h =
    named-Fits 49 5 (sz_str size) 0
      (λ width.
        segment_text ctx
          (λ seg. wrote (width ++ codes " PTR " ++ seg ++ codes "[" ++ rm_str ++ codes "]") 0))
      (Short-sz_str size)
      (λ width short.
        segment_text-Fits 49 ctx
          (λ seg. wrote (width ++ codes " PTR " ++ seg ++ codes "[" ++ rm_str ++ codes "]") 0)
          (λ seg short'. wrote-Fits 49 _ 0 (simp length-append (omega arith))))

rm_text-Fits :
    (ctx : Context) (size : OperandSize) (rm_str : Text) (f : Fields)
    → length rm_str ≤ 21
    → Fits 49 (rm_text ctx size rm_str f)
unfolding rm_text
rm_text-Fits ctx size rm_str f h = elim (Bool-cases (f.mod_field == 3)) [
  | inl e ↦ rw e (reg_text-Fits (reg_table size) f.rm_field (Short-reg_table size))
  | inr e ↦ rw e (memory_text-Fits ctx size rm_str h)
]

signed-Fits : (disp n : ℕ) → Fits 49 (wrote (sprintf_signed_hex disp) n)
unfolding sprintf_signed_hex
signed-Fits disp n = wrote-Fits 49 _ n (elim (Bool-cases (ltb (u32 disp) 0x80000000)) [
  | inl h ↦ rw h (omega (arith, length-hex 8 disp))
  | inr h ↦ rw h (omega (arith, length-hex 8 (2 ^ 32 - u32 disp)))
])

hex-Fits : (w v n : ℕ) → w ≤ 8 → Fits 49 (wrote (codes "0x" ++ hex w v) n)
hex-Fits w v n h = wrote-Fits 49 _ n (omega (arith, length-hex w v))

module _ (bytes : ℕ → ℕ) (address : ℕ) where
  imm_text-Fits : (size : OperandSize) → Fits 49 (imm_text bytes address size)
  unfolding imm_text
  imm_text-Fits sz_8 = hex-Fits _ _ _ (omega arith)
  imm_text-Fits sz_16 = hex-Fits _ _ _ (omega arith)
  imm_text-Fits sz_32 = hex-Fits _ _ _ (omega arith)
  imm_text-Fits _ = record { fits = tt }

  signed_at-Fits :
      (size : OperandSize) (show : ℕ → ℕ → Shown)
      → ((disp n : ℕ) → Fits 49 (show disp n))
      → Fits 49 (signed_at bytes address size show)
  unfolding signed_at
  signed_at-Fits sz_8 show all = all _ _
  signed_at-Fits sz_16 show all = all _ _
  signed_at-Fits sz_32 show all = all _ _
  signed_at-Fits _ show all = record { fits = tt }

  offset_text-Fits : (ctx : Context) → Fits 49 (offset_text bytes address ctx)
  unfolding offset_text
  offset_text-Fits ctx =
      segment_text-Fits 49 ctx
        (λ seg.
          if ctx.addr_sz
          then wrote (seg ++ codes "[0x" ++ hex 8 (dword_at bytes address) ++ codes "]") 4
          else wrote (seg ++ codes "[0x" ++ hex 4 (word_at bytes address) ++ codes "]") 2)
        (λ seg short. elim (Bool-cases ctx.addr_sz) [
          | inl h ↦ rw h (
              wrote-Fits 49 _ 4
                (simp length-append (omega (arith, length-hex 8 (dword_at bytes address)))))
          | inr h ↦ rw h (
              wrote-Fits 49 _ 2
                (simp length-append (omega (arith, length-hex 4 (word_at bytes address)))))
        ])

  text_by_type-Fits :
      (ctx : Context) (vaddr : ℕ) (t : OperandType) (size : OperandSize) (value : ℕ)
      (fields : Option Fields) (rm_str : Text)
      → length rm_str ≤ 21
      → Fits 49 (text_by_type bytes address ctx vaddr t size value fields rm_str)
  unfolding text_by_type
  text_by_type-Fits ctx vaddr OperandType.none size value fields rm_str h = record { fits = tt }
  text_by_type-Fits ctx vaddr rm_modrm size value fields rm_str h =
      with_fields-Fits 49 fields _ (λ f. rm_text-Fits ctx size rm_str f h)
  text_by_type-Fits ctx vaddr mem_modrm size value fields rm_str h =
      with_fields-Fits 49 fields _ (λ f. rm_text-Fits ctx size rm_str f h)
  text_by_type-Fits ctx vaddr reg_modrm size value fields rm_str h =
      with_fields-Fits 49 fields _
        (λ f. reg_text-Fits (reg_table size) f.reg_field (Short-reg_table size))
  text_by_type-Fits ctx vaddr seg_reg_modrm size value fields rm_str h =
      with_fields-Fits 49 fields _ (λ f. reg_text-Fits seg_reg_names f.reg_field (omega arith))
  text_by_type-Fits ctx vaddr const_reg size value fields rm_str h =
      reg_text-Fits (reg_table size) value (Short-reg_table size)
  text_by_type-Fits ctx vaddr OperandType.imm size value fields rm_str h = imm_text-Fits size
  text_by_type-Fits ctx vaddr constant size value fields rm_str h = hex-Fits _ _ _ (omega arith)
  text_by_type-Fits ctx vaddr simm size value fields rm_str h =
      signed_at-Fits size _ (λ disp n. signed-Fits disp n)
  text_by_type-Fits ctx vaddr offset size value fields rm_str h = offset_text-Fits ctx
  text_by_type-Fits ctx vaddr ip_rel size value fields rm_str h =
      signed_at-Fits size _ (λ disp n. hex-Fits 8 _ _ (omega arith))
  text_by_type-Fits ctx vaddr _ size value fields rm_str h = record { fits = tt }

length-rm_str :
    (bytes : ℕ → ℕ) (address : ℕ) (ctx : Context) (fields : Fields)
    → length (if ctx.addr_sz then rm32 bytes address fields else rm16 bytes address fields).0 ≤ 21
length-rm_str bytes address ctx fields = elim (Bool-cases ctx.addr_sz) [
  | inl h ↦ rw h (length-rm32 bytes address fields)
  | inr h ↦ rw h (length-rm16 bytes address fields)
]

-- An operand's string has at most 49 characters, with the address that `rm32` or `rm16` printed for
-- the same ModR/M byte: the terminating zero still fits in the buffers `destination`, `source1` and
-- `source2` of 50. The address itself has at most 21, so that it fits in `rm_str` too.
pub disasm_operand-FitsIn :
    (bytes : ℕ → ℕ) (address vaddr modrm : ℕ) (ctx : Context) (op : Operand)
    → let fields : Fields = fields_of modrm in
      let rm_str : Text =
        (if ctx.addr_sz then rm32 bytes address fields else rm16 bytes address fields).0 in
      (length rm_str ≤ 21)
      × (FitsIn 49 (disasm_operand bytes address ctx vaddr op (some fields) rm_str))
unfolding disasm_operand
disasm_operand-FitsIn bytes address vaddr modrm ctx op =
    let short = length-rm_str bytes address ctx (fields_of modrm) in
    (
      short,
      (text_by_type-Fits bytes address ctx vaddr op.type (real_size ctx.op_sz op.size) op.value
          (some (fields_of modrm)) _ short).fits,
    )
