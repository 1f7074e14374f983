-- ===== src/Iceman/Dis/RowLengths.antt =====
-- The disassembler and the processor agree on how long an instruction is.
use topgun.Common.{
  ℕ, ◌+◌, [], ◌≡◌, refl, sym, ◌∙◌, Bool, true, false, ◌==◌, if◌then◌else◌, bit_and, u32, arith,
  Bool-cases, inl, inr,
}
use mathlib.Core.Option.{Option, none, some}
use topgun.Common.Text.{Text}
use topgun.Isa.{
  Op, OpType, Operand, OperandType, multiplexed_ff, far_ptr, mem_modrm, DecodedOp, use_modrm,
}
use topgun.Isa.Codes.{cs}
use topgun.Machine.{Machine, set_eip}
use topgun.Machine.Outcome.{Outcome, ok, hang, exited, undefined, out_of_fuel, M, pure, gets, ◌>>=◌}
use topgun.Machine.Board.{Board}
use topgun.Machine.Regs.{wide_operand, wide_address}
use topgun.Machine.Stable.{Stable, Keeps, Ends}
use topgun.Decode.ModRm.{reg_of, decode_rm_16, decode_rm_32}
use topgun.Decode.Operands.{decode_operand}
use topgun.Decode.Keeps.{decode_operand-Keeps}
use topgun.Decode.Advance.{
  From, Returns, Moved, From-bind, From-pure, From-mono, code_byte, fetch_8-exact,
}
use topgun.Step.{no_rm, decode_modrm, is_multi_f6, fixup, decode_row, DecodedRow, decoded_row}
use topgun.Step.Keeps.{decode_modrm-Keeps}
use topgun.Iceman.Dis.Address.{Fields, fields_of, byte_at, rm32, rm16}
use topgun.Iceman.Dis.Operands.{Context, Shown, wrote, kept, help, unset}
use topgun.Iceman.Dis.Lines.{
  Strings, Dis, done, waits, show_operand, print_line, dis_operands, dis_row,
}
use topgun.Iceman.Dis.Lengths.{decode_rm-lengths}
use topgun.Iceman.Dis.OperandLengths.{Agrees, Counted, looked-From, disasm_operand-Agrees}

-- The disassembler answers `n`, of which `size` bytes were read before the machine `m`: where the
-- processor's code started in `m` returns, EIP plus `size` is EIP before plus `n`.
abbrev pub TakesBy : {A : Type 0} → ℕ → Dis ℕ → Machine → M A → Type 0
TakesBy size (done n s) m x = From m (λ a t. u32 (t.eip + size) ≡ u32 (m.eip + n)) x
TakesBy size waits m x = Unit
TakesBy size Dis.undefined m x = Unit
TakesBy size Dis.out_of_fuel m x = Unit

pub record Takes {A : Type 0} (size : ℕ) (r : Dis ℕ) (m : Machine) (x : M A) : Type 0 where
  pub takes : TakesBy size r m x

module _ {A : Type 0} (P : A → Machine → Type 0) where
  both-Returns :
      (m : Machine) (r : Outcome A)
      → Returns P r
      → Ends (Stable m) r
      → Returns (λ a t. P a t × Stable m t) r
  both-Returns m (ok a t) p q = (p, q)
  both-Returns m undefined p q = tt
  both-Returns m hang p q = p
  both-Returns m exited p q = p
  both-Returns m out_of_fuel p q = p

  From-Keeps : {m : Machine} (x : M A) → From m P x → Keeps x → From m (λ a t. P a t × Stable m t) x
  From-Keeps {m = m} x p k = record { ends = both-Returns m (x m) p.ends (k.at m) }

Stable-wide :
    {m t : Machine}
    → Stable m t
    → (wide_operand m ≡ wide_operand t) × (wide_address m ≡ wide_address t)
Stable-wide p =
    (rw (p.same.flags cs, p.same.op_override), rw (p.same.flags cs, p.same.addr_override))

module _ {A B : Type 0} (m : Machine) (x : M A) (f : A → M B) (keeps : Keeps x) (size : ℕ) where
  Moved-Takes :
      (n : ℕ) (r : Dis ℕ)
      → From m (Moved n m) x
      → ((a : A) (t : Machine) → Stable m t → Takes (size + n) r t (f a))
      → TakesBy size r m (x >>= f)
  Moved-Takes n (done k s) p all =
      From-bind _ x f (From-Keeps _ x p keeps)
        (λ a t q. From-mono _ (f a) (all a t (q.1)).takes (λ c u e. omega (arith, q.0, e)))
  Moved-Takes n waits p all = tt
  Moved-Takes n Dis.undefined p all = tt
  Moved-Takes n Dis.out_of_fuel p all = tt

  show_operand-Takes :
      (shown : Shown) (old : Text) (next : Text → ℕ → Dis ℕ)
      → Agrees shown m x
      → ((text : Text) (n : ℕ) (a : A) (t : Machine)
          → Stable m t
          → Takes (size + n) (next text n) t (f a))
      → Takes size (show_operand shown old next) m (x >>= f)
  unfolding show_operand
  show_operand-Takes (wrote text n) old next p all = record {
    takes = Moved-Takes n (next text n) p.agrees (all text n);
  }
  show_operand-Takes kept old next p all = record {
    takes = Moved-Takes 0 (next old 0) p.agrees (all old 0);
  }
  show_operand-Takes help old next p all = record { takes = tt }
  show_operand-Takes unset old next p all = record { takes = tt }

print_line-Takes :
    {A : Type 0} (line : Option Text) (size : ℕ) (s : Strings) (m : Machine) (a : A)
    → Takes size (print_line line size s) m (pure a)
unfolding print_line
print_line-Takes none size s m a = record { takes = tt }
print_line-Takes (some line) size s m a = record { takes = From-pure _ a refl }

-- Operands whose bytes are counted, whatever the ModR/M byte says.
abbrev pub simple_type : OperandType → Bool
simple_type far_ptr = false
simple_type mem_modrm = false
simple_type _ = true

simple-Counted : (t : OperandType) (rm : DecodedOp) → simple_type t ≡ true → Counted t rm
simple-Counted far_ptr rm h = cc
simple-Counted mem_modrm rm h = cc
simple-Counted _ rm h = tt

abbrev pub is_ff : OpType → Bool
is_ff multiplexed_ff = true
is_ff _ = false

-- A row that no fixup changes, with such operands.
pub record IsPlain (b : Board) (row : Op) : Type 0 where
  pub not_ff : is_ff row.op_type ≡ false
  pub not_f6 : is_multi_f6 b row.op_type row ≡ false
  pub dest_simple : simple_type row.dest.type ≡ true
  pub src1_simple : simple_type row.src1.type ≡ true
  pub src2_simple : simple_type row.src2.type ≡ true

fixup-plain :
    (b : Board) (t : OpType) (inst : Op) (reg : ℕ)
    → is_ff t ≡ false
    → is_multi_f6 b t inst ≡ false
    → fixup b t inst reg ≡ pure inst
unfolding fixup
fixup-plain b multiplexed_ff inst reg h k = cc
fixup-plain b _ inst reg h k = rw k

module _ (b : Board) (bytes : ℕ → ℕ) (row : Op) (plain : IsPlain b row) where
  dis_operands-Takes :
      (address vaddr size byte : ℕ) (ctx : Context) (fields : Option Fields) (rm_str : Text)
      (s : Strings) (rm : DecodedOp) (reg : ℕ) (m : Machine)
      → ctx.op_sz ≡ wide_operand m
      → ctx.addr_sz ≡ wide_address m
      → Takes size (dis_operands bytes address vaddr size byte row ctx fields rm_str s) m (
          decode_operand b rm reg row.dest >>= λ dst. decode_operand b rm reg row.src1 >>= λ src1.
          decode_operand b rm reg row.src2 >>= λ src2. pure (decoded_row row dst src1 src2 reg))
  unfolding dis_operands
  dis_operands-Takes address vaddr size byte ctx fields rm_str s rm reg m op addr =
      let agrees =
        λ (op' : Operand) (t : Machine) (v : ℕ) (simple : simple_type op'.type ≡ true)
            (wide : ctx.op_sz ≡ wide_operand t) (wide' : ctx.addr_sz ≡ wide_address t).
          disasm_operand-Agrees b bytes address t ctx v op' fields rm_str rm reg wide wide'
            (simple-Counted op'.type rm simple) in
      let keeps = λ (op' : Operand). decode_operand-Keeps b rm reg op' in
      show_operand-Takes m _ _ (keeps row.dest) size _ _ _
        (agrees row.dest m _ plain.dest_simple op addr)
        (λ dest n dst t p.
          let wide = op ∙ (Stable-wide p).0 in
          let wide' = addr ∙ (Stable-wide p).1 in
          show_operand-Takes t _ _ (keeps row.src1) (size + n) _ _ _
            (agrees row.src1 t _ plain.src1_simple wide wide')
            (λ src1 n1 s1 u q.
              show_operand-Takes u _ _ (keeps row.src2) (size + n + n1) _ _ _
                (agrees row.src2 u _ plain.src2_simple (wide ∙ (Stable-wide q).0)
                  (wide' ∙ (Stable-wide q).1))
                (λ src2 n2 s2 v r. print_line-Takes _ _ _ v _)))

-- The text of an address and its size, as `dis386` takes them.
abbrev pub rm_of_size : Bool → (ℕ → ℕ) → ℕ → Fields → Text × ℕ
rm_of_size wide bytes address fields =
    if wide then rm32 bytes address fields else rm16 bytes address fields

module _ (b : Board) (bytes : ℕ → ℕ) (address : ℕ) (m : Machine) where
  -- After the ModR/M byte.
  rm-From :
      (wide : Bool) (modrm : ℕ) (t : Machine)
      → t ≡ set_eip (m.eip + 1) m
      → wide ≡ wide_address m
      → byte_at bytes (address + 1) ≡ code_byte b (set_eip (m.eip + 1) m)
      → From {A = DecodedOp × ℕ} t
          (Moved (1 + (rm_of_size wide bytes (address + 1) (fields_of modrm)).1) m)
          (gets wide_address >>= λ w.
            (if w then decode_rm_32 b modrm else decode_rm_16 b modrm) >>= λ rm. pure (rm, modrm))
  unfolding set_eip
  rm-From wide modrm t here w same =
      let at : t.eip ≡ u32 (m.eip + 1) = rw here refl in
      let w' : wide_address t ≡ wide = rw here (sym w) in
      let lengths = decode_rm-lengths b bytes (address + 1) modrm t (rw here same) in
      looked-From _ _ (
        rw w' (elim (Bool-cases wide) [
          | inl e ↦
              rw e (From-bind _ _ _ (lengths.0) (λ rm u p. From-pure _ _ (omega (arith, p, at))))
          | inr e ↦
              rw e (From-bind _ _ _ (lengths.1) (λ rm u p. From-pure _ _ (omega (arith, p, at))))
        ]))

  decode_modrm-From :
      (wide : Bool) (row : Op)
      → bit_and row.flags use_modrm == 0 ≡ false
      → wide ≡ wide_address m
      → byte_at bytes address ≡ code_byte b m
      → byte_at bytes (address + 1) ≡ code_byte b (set_eip (m.eip + 1) m)
      → From m
          (Moved
            (1 + (rm_of_size wide bytes (address + 1) (fields_of (byte_at bytes address))).1)
            m)
          (decode_modrm b row)
  unfolding decode_modrm
  decode_modrm-From wide row has w first second = rw has (
      From-bind _ _ _ (fetch_8-exact b m)
        (λ modrm t p. rw (first ∙ sym p.0) (rm-From wide modrm t (p.1) w second)))

without_modrm :
    (b : Board) (row : Op)
    → bit_and row.flags use_modrm == 0 ≡ true
    → decode_modrm b row ≡ pure (no_rm, 0)
unfolding decode_modrm
without_modrm b row h = rw h refl

resized-Takes :
    {A : Type 0} (m : Machine) (n k : ℕ) (r : Dis ℕ) (x : M A)
    → n ≡ k
    → Takes k r m x
    → Takes n r m x
resized-Takes m n k r x e p = rw e p

module _ {A B : Type 0} (m : Machine) where
  pure_then-Takes :
      (size : ℕ) (r : Dis ℕ) (a : A) (f : A → M B)
      → Takes size r m (f a)
      → Takes size r m (pure a >>= f)
  unfolding pure ◌>>=◌
  pure_then-Takes size r a f p = p

module _ (b : Board) (bytes : ℕ → ℕ) (row : Op) (plain : IsPlain b row) where
  -- What follows the ModR/M byte.
  rest_of_row : DecodedOp × ℕ → M DecodedRow
  rest_of_row (rm, modrm) = fixup b row.op_type row (reg_of modrm) >>= λ inst.
      decode_operand b rm (reg_of modrm) inst.dest >>= λ dst.
      decode_operand b rm (reg_of modrm) inst.src1 >>= λ src1.
      decode_operand b rm (reg_of modrm) inst.src2 >>= λ src2.
      pure (decoded_row inst dst src1 src2 (reg_of modrm))

  rest-Takes :
      (address vaddr size byte : ℕ) (ctx : Context) (fields : Option Fields) (rm_str : Text)
      (s : Strings) (p : DecodedOp × ℕ) (m : Machine)
      → ctx.op_sz ≡ wide_operand m
      → ctx.addr_sz ≡ wide_address m
      → Takes size
          (dis_operands bytes address vaddr size byte row ctx fields rm_str s)
          m
          (rest_of_row p)
  unfolding rest_of_row
  rest-Takes address vaddr size byte ctx fields rm_str s (rm, modrm) m op addr =
      rw (fixup-plain b row.op_type row (reg_of modrm) plain.not_ff plain.not_f6) (
        pure_then-Takes m size _ row _ (
          dis_operands-Takes b bytes row plain address vaddr size byte ctx fields rm_str s rm
            (reg_of modrm) m op addr))

  -- For a row that no fixup changes, with operands whose bytes are counted: after `size` bytes of the
  -- instruction, where the disassembler sees the two bytes at CS:EIP and has the processor's sizes,
  -- and `dis386` returns `n` for the instruction, the processor's decoding of the rest of it either
  -- stops at something undefined, or returns with EIP `n - size` bytes further.
  pub dis_row-Takes :
      (address vaddr size byte : ℕ) (ctx : Context) (s : Strings) (m : Machine)
      → ctx.op_sz ≡ wide_operand m
      → ctx.addr_sz ≡ wide_address m
      → byte_at bytes address ≡ code_byte b m
      → byte_at bytes (address + 1) ≡ code_byte b (set_eip (m.eip + 1) m)
      → Takes size (dis_row bytes address vaddr size byte row ctx s) m (decode_row b row)
  unfolding dis_row decode_row rest_of_row
  dis_row-Takes address vaddr size byte ctx s m op addr first second =
      elim (Bool-cases (bit_and row.flags use_modrm == 0)) [
        | inl e ↦
            rw (e, without_modrm b row e)
              (pure_then-Takes m size _ _ rest_of_row
                (rest-Takes address vaddr size byte ctx none [] s (no_rm, 0) m op addr))
        | inr e ↦ rw e (record {
          takes =
              Moved-Takes m (decode_modrm b row) rest_of_row (decode_modrm-Keeps b row) size
                (1
                  + (rm_of_size ctx.addr_sz bytes (address + 1)
                      (fields_of (byte_at bytes address))).1)
                _ (decode_modrm-From b bytes address m ctx.addr_sz row e addr first second)
                (λ p t q. resized-Takes t _ _ _ _ (omega arith) (
                  rest-Takes (address + 1) vaddr _ byte ctx _ _ s p t (op ∙ (Stable-wide q).0)
                    (addr ∙ (Stable-wide q).1)));
        })
      ]
