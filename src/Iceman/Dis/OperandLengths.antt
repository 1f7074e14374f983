-- ===== src/Iceman/Dis/OperandLengths.antt =====
-- The disassembler and the processor agree on how much code an operand takes.
use topgun.Common.{
  ℕ, zero, suc, ◌≡◌, refl, sym, List, [], ◌∷◌, ◌++◌, true, ◌==◌, if◌then◌else◌, arith, Bool-cases,
  inl, inr,
}
use mathlib.Core.Option.{Option, none, some}
use topgun.Common.Text.{Text, codes, hex}
use topgun.Isa.{
  Operand, OperandType, rm_modrm, reg_modrm, mem_modrm, creg_modrm, seg_reg_modrm, const_reg,
  const_seg_reg, constant, ip_rel, simm, offset, far_ptr, OperandSize, sz_8, sz_16, sz_32,
  DecodedOp,
}
use topgun.Machine.{Machine}
use topgun.Machine.Outcome.{M, pure, gets, ◌>>=◌}
use topgun.Machine.Board.{Board}
use topgun.Machine.Regs.{wide_operand, wide_address}
use topgun.Decode.Fetch.{fetch_8}
use topgun.Decode.Operands.{
  real_size, decode_modrm_operand, is_mem, fetch_imm, fetch_simm, fetch_rel, fetch_offset,
  decode_by_type, decode_operand,
}
use topgun.Decode.Advance.{
  From, Moved, From-bind, From-pure, From-gets, From-mono, fetch_8-From, fetch_16-From,
  fetch_32-From,
}
use topgun.Iceman.Dis.Names.{seg_reg_names}
use topgun.Iceman.Dis.Address.{Fields, word_at, dword_at}
use topgun.Iceman.Dis.Operands.{
  Context, Shown, wrote, kept, help, unset, named, reg_table, sz_str, with_fields, segment_text,
  memory_text, rm_text, imm_text, signed_at, offset_text, text_by_type, disasm_operand,
}

-- Where the disassembler shows an operand of `n` bytes, or leaves it out as one of none, the
-- processor's code returns with EIP moved by as many, or stops at something undefined.
abbrev pub AgreesOn : {A : Type 0} → Shown → Machine → M A → Type 0
AgreesOn (wrote text n) m x = From m (Moved n m) x
AgreesOn kept m x = From m (Moved 0 m) x
AgreesOn help m x = Unit
AgreesOn unset m x = Unit

pub record Agrees {A : Type 0} (shown : Shown) (m : Machine) (x : M A) : Type 0 where
  pub agrees : AgreesOn shown m x

-- What the theorem leaves out: far pointers, whose bytes the disassembler does not count, and a
-- register where only memory can stand, at which the processor hangs.
abbrev pub Counted : OperandType → DecodedOp → Type 0
Counted far_ptr rm = ⊥
Counted mem_modrm rm = is_mem rm.type ≡ true
Counted t rm = Unit

module _ {A : Type 0} (m : Machine) (x : M A) where
  wrote-Agrees : (text : Text) (n : ℕ) → From m (Moved n m) x → Agrees (wrote text n) m x
  wrote-Agrees text n p = record { agrees = p }

  kept-Agrees : From m (Moved 0 m) x → Agrees kept m x
  kept-Agrees p = record { agrees = p }

  named-Agrees :
      (names : List Text) (i : ℕ) (show : Text → Shown)
      → ((name : Text) → Agrees (show name) m x)
      → Agrees (named names i show) m x
  unfolding named
  named-Agrees [] i show all = record { agrees = tt }
  named-Agrees (name ∷ names) zero show all = all name
  named-Agrees (name ∷ names) (suc i) show all = named-Agrees names i show all

  with_fields-Agrees :
      (fields : Option Fields) (show : Fields → Shown)
      → ((f : Fields) → Agrees (show f) m x)
      → Agrees (with_fields fields show) m x
  unfolding with_fields
  with_fields-Agrees none show all = record { agrees = tt }
  with_fields-Agrees (some f) show all = all f

  segment_text-Agrees :
      (ctx : Context) (show : Text → Shown)
      → ((name : Text) → Agrees (show name) m x)
      → Agrees (segment_text ctx show) m x
  unfolding segment_text
  segment_text-Agrees ctx show all = elim (Bool-cases ctx.segment_override) [
    | inl h ↦ rw h (named-Agrees _ _ _ (λ name. all _))
    | inr h ↦ rw h (all [])
  ]

  rm_text-Agrees :
      (ctx : Context) (size : OperandSize) (rm_str : Text) (f : Fields)
      → From m (Moved 0 m) x
      → Agrees (rm_text ctx size rm_str f) m x
  unfolding rm_text memory_text
  rm_text-Agrees ctx size rm_str f stays = elim (Bool-cases (f.mod_field == 3)) [
    | inl h ↦ rw h (named-Agrees (reg_table size) f.rm_field _ (λ name. wrote-Agrees name 0 stays))
    | inr h ↦ rw h (
        named-Agrees (sz_str size) 0
          (λ name.
            segment_text ctx
              (λ seg. wrote (name ++ codes " PTR " ++ seg ++ codes "[" ++ rm_str ++ codes "]") 0))
          (λ name.
            segment_text-Agrees ctx
              (λ seg. wrote (name ++ codes " PTR " ++ seg ++ codes "[" ++ rm_str ++ codes "]") 0)
              (λ seg. wrote-Agrees _ _ stays)))
  ]

module _ {A : Type 0} (m : Machine) where
  pure-From : (a : A) → From m (Moved 0 m) (pure a)
  pure-From a = From-pure _ a (omega arith)

  gets-From : (f : Machine → A) → From m (Moved 0 m) (gets f)
  gets-From f = From-gets _ f (omega arith)

module _ {A B : Type 0} (m : Machine) where
  -- Code that ends in an answer.
  then_pure-From :
      (n : ℕ) (x : M A) (f : A → B)
      → From m (Moved n m) x
      → From m (Moved n m) (x >>= λ a. pure (f a))
  then_pure-From n x f p = From-bind _ x _ p (λ a t q. From-pure _ _ q)

  then_gets-From :
      (n : ℕ) (x : M A) (f : A → Machine → B)
      → From m (Moved n m) x
      → From m (Moved n m) (x >>= λ a. gets (f a))
  then_gets-From n x f p = From-bind _ x _ p (λ a t q. From-gets _ _ q)

  Agrees-then :
      (shown : Shown) (x : M A) (f : A → B)
      → Agrees shown m x
      → Agrees shown m (x >>= λ a. pure (f a))
  Agrees-then shown x f p = record { agrees = go shown x f p.agrees }
    where
      go :
          (shown : Shown) (x : M A) (f : A → B)
          → AgreesOn shown m x
          → AgreesOn shown m (x >>= λ a. pure (f a))
      go (wrote text n) x f p = then_pure-From n x f p
      go kept x f p = then_pure-From 0 x f p
      go help x f p = tt
      go unset x f p = tt

pub looked-From :
    {A B : Type 0} {Q : B → Machine → Type 0} {m : Machine} (f : Machine → A) (x : A → M B)
    → From m Q (x (f m))
    → From m Q (gets f >>= x)
unfolding ◌>>=◌
looked-From f x p = record { ends = p.ends }

-- A size that is looked up first.
looked-Agrees :
    {A B : Type 0} (m : Machine) (f : Machine → A) (x : A → M B) (shown : Shown)
    → Agrees shown m (x (f m))
    → Agrees shown m (gets f >>= x)
looked-Agrees m f x shown p = record { agrees = go shown p.agrees }
  where
    go : (shown : Shown) → AgreesOn shown m (x (f m)) → AgreesOn shown m (gets f >>= x)
    go (wrote text n) p = looked-From f x p
    go kept p = looked-From f x p
    go help p = tt
    go unset p = tt

modrm-From :
    (m : Machine) (rm : DecodedOp) (size : OperandSize)
    → From m (Moved 0 m) (decode_modrm_operand rm size)
unfolding decode_modrm_operand
modrm-From m rm size = gets-From m _

-- A register that is named by a table reads no code.
reg_text-Agrees :
    (m : Machine) (a : DecodedOp) (names : List Text) (i : ℕ)
    → Agrees (named names i (λ name. wrote name 0)) m (pure a)
reg_text-Agrees m a names i =
    named-Agrees _ _ names i _ (λ name. wrote-Agrees _ _ name 0 (pure-From m a))

module _ (b : Board) (bytes : ℕ → ℕ) (address : ℕ) (m : Machine) where
  byte-From : From m (Moved 1 m) (fetch_8 b)
  byte-From = From-mono _ _ (fetch_8-From b m) (λ v t p. p.1)

  imm_text-Agrees : (size : OperandSize) → Agrees (imm_text bytes address size) m (fetch_imm b size)
  unfolding imm_text fetch_imm
  imm_text-Agrees sz_8 = wrote-Agrees _ _ _ _ byte-From
  imm_text-Agrees sz_16 = wrote-Agrees _ _ _ _ (fetch_16-From b m)
  imm_text-Agrees sz_32 = wrote-Agrees _ _ _ _ (fetch_32-From b m)
  imm_text-Agrees _ = record { agrees = tt }

  simm-Agrees :
      (text : ℕ → ℕ → Text) (size : OperandSize)
      → Agrees (signed_at bytes address size (λ d k. wrote (text d k) k)) m (fetch_simm b size)
  unfolding signed_at fetch_simm
  simm-Agrees text sz_8 = wrote-Agrees _ _ _ _ (then_pure-From _ _ _ _ byte-From)
  simm-Agrees text sz_16 = wrote-Agrees _ _ _ _ (then_pure-From _ _ _ _ (fetch_16-From b m))
  simm-Agrees text sz_32 = wrote-Agrees _ _ _ _ (fetch_32-From b m)
  simm-Agrees text _ = record { agrees = tt }

  rel-Agrees :
      (text : ℕ → ℕ → Text) (size : OperandSize)
      → Agrees (signed_at bytes address size (λ d k. wrote (text d k) k)) m (fetch_rel b size)
  unfolding signed_at fetch_rel
  rel-Agrees text sz_8 = wrote-Agrees _ _ _ _ (then_gets-From _ _ _ _ byte-From)
  rel-Agrees text sz_16 = wrote-Agrees _ _ _ _ (then_gets-From _ _ _ _ (fetch_16-From b m))
  rel-Agrees text sz_32 = wrote-Agrees _ _ _ _ (then_gets-From _ _ _ _ (fetch_32-From b m))
  rel-Agrees text _ = record { agrees = tt }

  offset-From : From m (Moved (if wide_address m then 4 else 2) m) (fetch_offset b)
  unfolding fetch_offset
  offset-From =
      From-bind {P = λ wide t. (wide ≡ wide_address m) × (Moved 0 m wide t)} _ _ _
        (From-gets _ _ (refl, omega arith))
        (λ wide t p. rw (sym p.0) (elim (Bool-cases wide) [
          | inl h ↦ rw h (From-mono _ _ (fetch_32-From b t) (λ v u q. omega (arith, p.1, q)))
          | inr h ↦ rw h (From-mono _ _ (fetch_16-From b t) (λ v u q. omega (arith, p.1, q)))
        ]))

  offset_text-Agrees :
      {A : Type 0} (ctx : Context) (x : M A)
      → From m (Moved (if ctx.addr_sz then 4 else 2) m) x
      → Agrees (offset_text bytes address ctx) m x
  unfolding offset_text
  offset_text-Agrees ctx x p =
      segment_text-Agrees m x ctx
        (λ seg.
          if ctx.addr_sz
          then wrote (seg ++ codes "[0x" ++ hex 8 (dword_at bytes address) ++ codes "]") 4
          else wrote (seg ++ codes "[0x" ++ hex 4 (word_at bytes address) ++ codes "]") 2)
        (λ seg. elim (Bool-cases ctx.addr_sz) [
          | inl h ↦ rw h (wrote-Agrees _ _ _ 4 (rw h at p))
          | inr h ↦ rw h (wrote-Agrees _ _ _ 2 (rw h at p))
        ])

  text_by_type-Agrees :
      (ctx : Context) (vaddr : ℕ) (t : OperandType) (size : OperandSize) (value : ℕ)
      (fields : Option Fields) (rm_str : Text) (rm : DecodedOp) (reg : ℕ)
      → ctx.addr_sz ≡ wide_address m
      → Counted t rm
      → Agrees
          (text_by_type bytes address ctx vaddr t size value fields rm_str)
          m
          (decode_by_type b t size rm reg value)
  unfolding text_by_type decode_by_type
  text_by_type-Agrees ctx vaddr OperandType.none size value fields rm_str rm reg same counted =
      kept-Agrees _ _ (pure-From _ _)
  text_by_type-Agrees ctx vaddr rm_modrm size value fields rm_str rm reg same counted =
      with_fields-Agrees _ _ fields _
        (λ f. rm_text-Agrees _ _ ctx size rm_str f (modrm-From m rm size))
  text_by_type-Agrees ctx vaddr reg_modrm size value fields rm_str rm reg same counted =
      with_fields-Agrees _ _ fields _ (λ f. reg_text-Agrees m _ (reg_table size) f.reg_field)
  text_by_type-Agrees ctx vaddr mem_modrm size value fields rm_str rm reg same counted =
      rw counted (
        with_fields-Agrees _ _ fields _
          (λ f. rm_text-Agrees _ _ ctx size rm_str f (modrm-From m rm size)))
  text_by_type-Agrees ctx vaddr creg_modrm size value fields rm_str rm reg same counted =
      kept-Agrees _ _ (pure-From _ _)
  text_by_type-Agrees ctx vaddr seg_reg_modrm size value fields rm_str rm reg same counted =
      with_fields-Agrees _ _ fields _ (λ f. reg_text-Agrees m _ seg_reg_names f.reg_field)
  text_by_type-Agrees ctx vaddr const_reg size value fields rm_str rm reg same counted =
      reg_text-Agrees m _ (reg_table size) value
  text_by_type-Agrees ctx vaddr const_seg_reg size value fields rm_str rm reg same counted =
      kept-Agrees _ _ (pure-From _ _)
  text_by_type-Agrees ctx vaddr OperandType.imm size value fields rm_str rm reg same counted =
      Agrees-then m _ _ _ (imm_text-Agrees size)
  text_by_type-Agrees ctx vaddr constant size value fields rm_str rm reg same counted =
      wrote-Agrees _ _ _ _ (pure-From _ _)
  text_by_type-Agrees ctx vaddr OperandType.edx_eax size value fields rm_str rm reg same counted =
      kept-Agrees _ _ (pure-From _ _)
  text_by_type-Agrees ctx vaddr ip_rel size value fields rm_str rm reg same counted =
      Agrees-then m _ _ _ (rel-Agrees _ size)
  text_by_type-Agrees ctx vaddr simm size value fields rm_str rm reg same counted =
      Agrees-then m _ _ _ (simm-Agrees _ size)
  text_by_type-Agrees ctx vaddr offset size value fields rm_str rm reg same counted =
      offset_text-Agrees ctx _ (
        rw same (
          From-bind {P = λ sr t. t ≡ m} _ _ _ (From-gets _ _ refl)
            (λ sr t p. rw p (then_pure-From m _ _ _ offset-From))))
  text_by_type-Agrees ctx vaddr far_ptr size value fields rm_str rm reg same counted =
      absurd counted

  -- On every operand but a far pointer and a register where only memory can stand, and with the
  -- operand and address sizes of the processor: where `disasm_operand` shows an operand of so many
  -- bytes, or leaves it out as one of none, `decode_operand` leaves EIP as many bytes further, or stops
  -- at something undefined, and comes to nothing else.
  pub disasm_operand-Agrees :
      (ctx : Context) (vaddr : ℕ) (op : Operand) (fields : Option Fields) (rm_str : Text)
      (rm : DecodedOp) (reg : ℕ)
      → ctx.op_sz ≡ wide_operand m
      → ctx.addr_sz ≡ wide_address m
      → Counted op.type rm
      → Agrees
          (disasm_operand bytes address ctx vaddr op fields rm_str)
          m
          (decode_operand b rm reg op)
  unfolding disasm_operand decode_operand
  disasm_operand-Agrees ctx vaddr op fields rm_str rm reg wide same counted = rw wide (
      looked-Agrees m _ _ _ (
        text_by_type-Agrees ctx vaddr op.type (real_size (wide_operand m) op.size) op.value fields
          rm_str rm reg same counted))
