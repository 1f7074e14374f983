-- ===== src/Iceman/Dis/Total.antt =====
-- Which operands and lines the disassembler can print: no endless wait, and nothing unset is read.
use topgun.Common.{
  ℕ, zero, suc, ◌<◌, ◌≡◌, refl, List, [], ◌∷◌, ◌++◌, Bool, true, false, ◌&&◌, ◌==◌, ltb,
  if◌then◌else◌, arith, length, Bool-cases, inl, inr,
}
use mathlib.Core.Option.{Option, none, some}
use topgun.Common.Text.{Text, codes, hex}
use topgun.Isa.{
  OpType, Operand, OperandType, rm_modrm, reg_modrm, mem_modrm, seg_reg_modrm, const_reg, constant,
  ip_rel, simm, offset, OperandSize, sz_8, sz_16, sz_32, jump, shift, alu, string_op,
}
use topgun.Isa.Codes.{alu_multi}
use topgun.Decode.Operands.{real_size}
use topgun.Iceman.Dis.Names.{seg_reg_names}
use topgun.Iceman.Dis.Address.{Fields, word_at, dword_at}
use topgun.Iceman.Dis.Operands.{
  Context, Shown, wrote, kept, help, unset, named, reg_table, sz_str, with_fields, segment_text,
  memory_text, rm_text, imm_text, signed_at, offset_text, text_by_type, disasm_operand,
}

-- The sizes that have register names.
abbrev pub is_listed : OperandSize → Bool
is_listed sz_8 = true
is_listed sz_16 = true
is_listed sz_32 = true
is_listed _ = false

-- A type of operand that can be shown: `has` says that there is a ModR/M byte, `seg` that its reg
-- field is allowed to name a segment register.
abbrev pub type_ok : Bool → Bool → OperandType → OperandSize → ℕ → Bool
type_ok seg has rm_modrm size value = has && is_listed size
type_ok seg has mem_modrm size value = has && is_listed size
type_ok seg has reg_modrm size value = has && is_listed size
type_ok seg has seg_reg_modrm size value = has && seg
type_ok seg has const_reg size value = is_listed size && ltb value 8
type_ok seg has OperandType.imm size value = is_listed size
type_ok seg has simm size value = is_listed size
type_ok seg has ip_rel size value = is_listed size
type_ok seg has _ size value = true

-- A row whose line has a name.
abbrev pub line_ok : Bool → OpType → ℕ → Bool
line_ok has jump sub = ltb sub 18
line_ok has shift sub = has
line_ok has alu sub = if sub == alu_multi then has else ltb sub 8
line_ok has string_op sub = ltb sub 7
line_ok has _ sub = true

-- The fields of a ModR/M byte, if there is one, where `seg` bounds the reg field.
pub record AreFields (seg : Bool) (fields : Fields) : Type 0 where
  pub reg_small : fields.reg_field < 8
  pub rm_small : fields.rm_field < 8
  pub seg_small : seg ≡ true → fields.reg_field < 6

abbrev pub FieldsFor : Bool → Bool → Option Fields → Type 0
FieldsFor seg has none = has ≡ false
FieldsFor seg has (some fields) = (has ≡ true) × AreFields seg fields

abbrev pub IsShown : Shown → Type 0
IsShown (wrote text n) = Unit
IsShown kept = Unit
IsShown help = ⊥
IsShown unset = ⊥

pub record Shows (shown : Shown) : Type 0 where
  pub shows : IsShown shown

wrote-Shows : (text : Text) (n : ℕ) → Shows (wrote text n)
wrote-Shows text n = record { shows = tt }

named-Shows :
    (names : List Text) (i : ℕ) (show : Text → Shown)
    → i < length names
    → ((name : Text) → Shows (show name))
    → Shows (named names i show)
unfolding named
named-Shows [] i show h all = absurd (omega arith)
named-Shows (name ∷ names) zero show h all = all name
named-Shows (name ∷ names) (suc i) show h all = named-Shows names i show (omega arith) all

reg-Shows :
    (size : OperandSize) (i : ℕ)
    → is_listed size ≡ true
    → i < 8
    → Shows (named (reg_table size) i (λ name. wrote name 0))
unfolding reg_table
reg-Shows sz_8 i ok h = named-Shows _ i _ h (λ name. wrote-Shows _ _)
reg-Shows sz_16 i ok h = named-Shows _ i _ h (λ name. wrote-Shows _ _)
reg-Shows sz_32 i ok h = named-Shows _ i _ h (λ name. wrote-Shows _ _)
reg-Shows _ i ok h = cc

segment_text-Shows :
    (ctx : Context) (show : Text → Shown)
    → ctx.which_segment < 6
    → ((seg : Text) → Shows (show seg))
    → Shows (segment_text ctx show)
unfolding segment_text
segment_text-Shows ctx show h all = elim (Bool-cases ctx.segment_override) [
  | inl e ↦ rw e (named-Shows seg_reg_names ctx.which_segment _ h (λ name. all _))
  | inr e ↦ rw e (all [])
]

has-sz_str : (size : OperandSize) → is_listed size ≡ true → 0 < length (sz_str size)
unfolding sz_str
has-sz_str sz_8 ok = omega arith
has-sz_str sz_16 ok = omega arith
has-sz_str sz_32 ok = omega arith
has-sz_str _ ok = cc

memory_text-Shows :
    (ctx : Context) (size : OperandSize) (rm_str : Text)
    → is_listed size ≡ true
    → ctx.which_segment < 6
    → Shows (memory_text ctx size rm_str)
unfolding memory_text
memory_text-Shows ctx size rm_str ok h =
    named-Shows (sz_str size) 0
      (λ width.
        segment_text ctx
          (λ seg. wrote (width ++ codes " PTR " ++ seg ++ codes "[" ++ rm_str ++ codes "]") 0))
      (has-sz_str size ok)
      (λ width.
        segment_text-Shows ctx
          (λ seg. wrote (width ++ codes " PTR " ++ seg ++ codes "[" ++ rm_str ++ codes "]") 0) h
          (λ seg. wrote-Shows _ _))

module _ (seg has : Bool) (fields : Option Fields) (fit : FieldsFor seg has fields) where
  with_fields-Shows :
      (show : Fields → Shown)
      → has ≡ true
      → ((f : Fields) → AreFields seg f → Shows (show f))
      → Shows (with_fields fields show)
  unfolding with_fields
  with_fields-Shows show h all = go fields fit h all
    where
      go :
          (o : Option Fields)
          → FieldsFor seg has o
          → has ≡ true
          → ((f : Fields) → AreFields seg f → Shows (show f))
          → Shows (with_fields o show)
      go none fit h all = cc
      go (some f) fit h all = all f fit.1

pub and-left : (a b : Bool) → (a && b) ≡ true → a ≡ true
and-left true b h = refl
and-left false b h = cc

pub and-right : (a b : Bool) → (a && b) ≡ true → b ≡ true
and-right true b h = h
and-right false b h = cc

ltb-small : (a b : ℕ) → ltb a b ≡ true → a < b
ltb-small a b h = ground arith

rm_text-Shows :
    (ctx : Context) (size : OperandSize) (rm_str : Text) (f : Fields)
    → is_listed size ≡ true
    → ctx.which_segment < 6
    → f.rm_field < 8
    → Shows (rm_text ctx size rm_str f)
unfolding rm_text
rm_text-Shows ctx size rm_str f ok h small = elim (Bool-cases (f.mod_field == 3)) [
  | inl e ↦ rw e (reg-Shows size f.rm_field ok small)
  | inr e ↦ rw e (memory_text-Shows ctx size rm_str ok h)
]

module _ (bytes : ℕ → ℕ) (address : ℕ) where
  imm_text-Shows :
      (size : OperandSize) → is_listed size ≡ true → Shows (imm_text bytes address size)
  unfolding imm_text
  imm_text-Shows sz_8 ok = wrote-Shows _ _
  imm_text-Shows sz_16 ok = wrote-Shows _ _
  imm_text-Shows sz_32 ok = wrote-Shows _ _
  imm_text-Shows _ ok = cc

  signed_at-Shows :
      (size : OperandSize) (show : ℕ → ℕ → Shown)
      → is_listed size ≡ true
      → ((disp n : ℕ) → Shows (show disp n))
      → Shows (signed_at bytes address size show)
  unfolding signed_at
  signed_at-Shows sz_8 show ok all = all _ _
  signed_at-Shows sz_16 show ok all = all _ _
  signed_at-Shows sz_32 show ok all = all _ _
  signed_at-Shows _ show ok all = cc

  offset_text-Shows :
      (ctx : Context) → ctx.which_segment < 6 → Shows (offset_text bytes address ctx)
  unfolding offset_text
  offset_text-Shows ctx h =
      segment_text-Shows ctx
        (λ seg.
          if ctx.addr_sz
          then wrote (seg ++ codes "[0x" ++ hex 8 (dword_at bytes address) ++ codes "]") 4
          else wrote (seg ++ codes "[0x" ++ hex 4 (word_at bytes address) ++ codes "]") 2)
        h
        (λ seg. elim (Bool-cases ctx.addr_sz) [
          | inl e ↦ rw e (wrote-Shows _ 4)
          | inr e ↦ rw e (wrote-Shows _ 2)
        ])

  module _ (seg has : Bool) (fields : Option Fields) (fit : FieldsFor seg has fields) where
    text_by_type-Shows :
        (ctx : Context) (vaddr : ℕ) (t : OperandType) (size : OperandSize) (value : ℕ)
        (rm_str : Text)
        → ctx.which_segment < 6
        → type_ok seg has t size value ≡ true
        → Shows (text_by_type bytes address ctx vaddr t size value fields rm_str)
    unfolding text_by_type
    text_by_type-Shows ctx vaddr OperandType.none size value rm_str h ok = record { shows = tt }
    text_by_type-Shows ctx vaddr rm_modrm size value rm_str h ok =
        with_fields-Shows seg has fields fit _ (and-left _ _ ok)
          (λ f small. rm_text-Shows ctx size rm_str f (and-right has _ ok) h small.rm_small)
    text_by_type-Shows ctx vaddr mem_modrm size value rm_str h ok =
        with_fields-Shows seg has fields fit _ (and-left _ _ ok)
          (λ f small. rm_text-Shows ctx size rm_str f (and-right has _ ok) h small.rm_small)
    text_by_type-Shows ctx vaddr reg_modrm size value rm_str h ok =
        with_fields-Shows seg has fields fit _ (and-left _ _ ok)
          (λ f small. reg-Shows size f.reg_field (and-right has _ ok) small.reg_small)
    text_by_type-Shows ctx vaddr seg_reg_modrm size value rm_str h ok =
        with_fields-Shows seg has fields fit _ (and-left _ _ ok) (λ f small.
          named-Shows seg_reg_names f.reg_field _ (small.seg_small (and-right has _ ok))
            (λ name. wrote-Shows _ _))
    text_by_type-Shows ctx vaddr const_reg size value rm_str h ok =
        reg-Shows size value (and-left _ _ ok) (ltb-small value 8 (and-right (is_listed size) _ ok))
    text_by_type-Shows ctx vaddr OperandType.imm size value rm_str h ok = imm_text-Shows size ok
    text_by_type-Shows ctx vaddr simm size value rm_str h ok =
        signed_at-Shows size _ ok (λ disp n. wrote-Shows _ _)
    text_by_type-Shows ctx vaddr ip_rel size value rm_str h ok =
        signed_at-Shows size _ ok (λ disp n. wrote-Shows _ _)
    text_by_type-Shows ctx vaddr offset size value rm_str h ok = offset_text-Shows ctx h
    text_by_type-Shows ctx vaddr constant size value rm_str h ok = wrote-Shows _ _
    text_by_type-Shows ctx vaddr _ size value rm_str h ok = record { shows = tt }

    pub disasm_operand-Shows :
        (ctx : Context) (vaddr : ℕ) (op : Operand) (rm_str : Text)
        → ctx.which_segment < 6
        → type_ok seg has op.type (real_size ctx.op_sz op.size) op.value ≡ true
        → Shows (disasm_operand bytes address ctx vaddr op fields rm_str)
    unfolding disasm_operand
    disasm_operand-Shows ctx vaddr op rm_str h ok =
        text_by_type-Shows ctx vaddr op.type (real_size ctx.op_sz op.size) op.value rm_str h ok
