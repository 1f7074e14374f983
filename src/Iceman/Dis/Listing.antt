-- ===== src/Iceman/Dis/Listing.antt =====
-- The command `u` of `iceman/iceman.c`: lines one after the other, and how far a line goes.
use topgun.Common.{
  ℕ, zero, suc, ◌+◌, ◌≤◌, ◌<◌, ◌≡◌, ◌⊎◌, refl, ◌++◌, Bool, true, false, not, ◌||◌, ◌==◌, ltb,
  if◌then◌else◌, bit_and, arith, all_below, all_below-at, Bool-cases, inl, inr,
}
use native.Mathlib.Nat.{add-zero}
use mathlib.Core.Option.{Option, none, some}
use topgun.Common.Text.{Text, codes, hex}
use topgun.Isa.{Op, use_modrm}
use topgun.Isa.Table.{instruction_table}
use topgun.Iceman.Dis.Address.{Fields, byte_at}
use topgun.Iceman.Dis.Operands.{Context, Shown, wrote, kept, help, unset}
use topgun.Iceman.Dis.Lines.{
  Strings, Dis, done, waits, undefined, out_of_fuel, show_operand, print_line, prefix_of, add_size,
  is_extended, dis_operands, dis_row, dis_opcode, dis386,
}

abbrev pub code_16 : Context
code_16 = record { op_sz = false; addr_sz = false; segment_override = false; which_segment = 0 }

-- What the loop prints before a line: `%04x:%08x   ` of 0x7c0 and `0x100 + i`.
unfoldable pub place_text : ℕ → Strings → Strings
place_text i s = record s {
  printed = s.printed ++ codes "07c0:" ++ hex 8 (0x100 + i) ++ codes "   ";
}

abbrev pub then_list : Dis ℕ → (ℕ → Strings → Dis (Unit {0})) → Dis (Unit {0})
then_list (done n s) next = next n s
then_list waits next = waits
then_list undefined next = undefined
then_list out_of_fuel next = out_of_fuel

-- `for (i = 0; i < num_bytes; ) { ... i += dis386(...); }` on a buffer, for at most `rounds` lines.
unfoldable pub unassemble : (ℕ → ℕ) → ℕ → ℕ → ℕ → ℕ → Strings → Dis (Unit {0})
unassemble bytes prefixes num_bytes zero i s = if ltb i num_bytes then out_of_fuel else done tt s
unassemble bytes prefixes num_bytes (suc rounds) i s =
    let rest =
      then_list (dis386 bytes prefixes i (0x7d00 + i) code_16 (place_text i s))
        (λ n s'. unassemble bytes prefixes num_bytes rounds (i + n) s') in
    if ltb i num_bytes then rest else done tt s

-- The bytes whose rows are prefixes.
abbrev pub prefix_byte : ℕ → Bool
prefix_byte byte =
    byte == 0x26
    || byte == 0x2e
    || byte == 0x36
    || byte == 0x3e
    || byte == 0x64
    || byte == 0x65
    || byte == 0x66
    || byte == 0x67
    || byte == 0xf0
    || byte == 0xf2
    || byte == 0xf3

pub Option-cases : {A : Type 0} (o : Option A) → (o ≡ none) ⊎ ((a : A) × (o ≡ some a))
Option-cases none = inl refl
Option-cases (some a) = inr (a, refl)

abbrev no_prefix : {A : Type 0} → Option A → Bool
no_prefix none = true
no_prefix (some a) = false

not-true : (b : Bool) → not b ≡ true → b ≡ false
not-true true h = cc
not-true false h = refl

or-false-true : (a : Bool) → (a || false) ≡ true → a ≡ true
or-false-true true h = refl
or-false-true false h = cc

no_prefix-none : {A : Type 0} (o : Option A) → no_prefix o ≡ true → o ≡ none
no_prefix-none none h = refl
no_prefix-none (some a) h = cc

taken_rows :
    (ctx : Context)
    → all_below 256 (λ byte.
      not (prefix_byte byte)
      || not (no_prefix (prefix_of (instruction_table byte).op_type (instruction_table byte) ctx)))
      ≡ true
unfolding prefix_of instruction_table
taken_rows ctx = refl

prefix_rows :
    (ctx : Context)
    → all_below 256 (λ byte.
      prefix_byte byte
      || no_prefix (prefix_of (instruction_table byte).op_type (instruction_table byte) ctx))
      ≡ true
unfolding prefix_of instruction_table
prefix_rows ctx = refl

-- At least one byte is taken, and the fuel does not run out.
abbrev pub Advances : Dis ℕ → Type 0
Advances (done n s) = 1 ≤ n
Advances waits = Unit
Advances undefined = Unit
Advances out_of_fuel = ⊥

pub record Steps (r : Dis ℕ) : Type 0 where
  pub steps : Advances r

show_operand-Steps :
    (shown : Shown) (old : Text) (next : Text → ℕ → Dis ℕ)
    → ((text : Text) (n : ℕ) → Steps (next text n))
    → Steps (show_operand shown old next)
unfolding show_operand
show_operand-Steps (wrote text n) old next all = all text n
show_operand-Steps kept old next all = all old 0
show_operand-Steps help old next all = record { steps = tt }
show_operand-Steps unset old next all = record { steps = tt }

print_line-Steps :
    (line : Option Text) (size : ℕ) (s : Strings) → 1 ≤ size → Steps (print_line line size s)
unfolding print_line
print_line-Steps none size s h = record { steps = tt }
print_line-Steps (some line) size s h = record { steps = h }

grown : (size n n1 n2 : ℕ) → 1 ≤ size → 1 ≤ size + n + n1 + n2
grown size n n1 n2 h = omega arith

grown_row : (size n : ℕ) → 1 ≤ size → 1 ≤ size + 1 + n
grown_row size n h = omega arith

module _ (bytes : ℕ → ℕ) where
  dis_operands-Steps :
      (address vaddr size byte : ℕ) (inst : Op) (ctx : Context) (fields : Option Fields)
      (rm_str : Text) (s : Strings)
      → 1 ≤ size
      → Steps (dis_operands bytes address vaddr size byte inst ctx fields rm_str s)
  unfolding dis_operands
  dis_operands-Steps address vaddr size byte inst ctx fields rm_str s h =
      show_operand-Steps _ _ _ (λ dest n. show_operand-Steps _ _ _ (λ src1 n1.
        show_operand-Steps _ _ _ (λ src2 n2. print_line-Steps _ _ _ (grown size n n1 n2 h))))

  dis_row-Steps :
      (address vaddr size byte : ℕ) (inst : Op) (ctx : Context) (s : Strings)
      → 1 ≤ size
      → Steps (dis_row bytes address vaddr size byte inst ctx s)
  unfolding dis_row
  dis_row-Steps address vaddr size byte inst ctx s h =
      elim (Bool-cases (bit_and inst.flags use_modrm == 0)) [
        | inl e ↦ rw e (dis_operands-Steps _ _ _ _ _ _ _ _ _ h)
        | inr e ↦ rw e (dis_operands-Steps _ _ _ _ _ _ _ _ _ (grown_row size _ h))
      ]

  dis_opcode-Steps :
      (address vaddr byte : ℕ) (inst : Op) (ctx : Context) (s : Strings)
      → Steps (dis_opcode bytes address vaddr byte inst ctx s)
  unfolding dis_opcode
  dis_opcode-Steps address vaddr byte inst ctx s = elim (Bool-cases (is_extended inst.op_type)) [
    | inl e ↦ rw e (dis_row-Steps _ _ 2 _ _ _ _ (omega arith))
    | inr e ↦ rw e (dis_row-Steps _ _ 1 _ _ _ _ (omega arith))
  ]

add_size-Steps : (n : ℕ) (r : Dis ℕ) → Steps r → Steps (add_size n r)
unfolding add_size
add_size-Steps n (done size s) p = record { steps = omega (arith, p.steps) }
add_size-Steps n waits p = record { steps = tt }
add_size-Steps n undefined p = record { steps = tt }
add_size-Steps n out_of_fuel p = record { steps = p.steps }

pub shifted : (address k : ℕ) → address + suc k ≡ address + 1 + k
shifted address k = omega arith

module _ (bytes : ℕ → ℕ) where
  pub no_prefix-at :
      (address : ℕ) (ctx : Context)
      → prefix_byte (byte_at bytes address) ≡ false
      → prefix_of
          (instruction_table (byte_at bytes address)).op_type
          (instruction_table (byte_at bytes address))
          ctx
        ≡ none
  unfolding byte_at
  no_prefix-at address ctx plain = ground (
    arith,
    all_below-at 256
        (λ byte.
          prefix_byte byte
          || no_prefix (prefix_of (instruction_table byte).op_type (instruction_table byte) ctx))
        (prefix_rows ctx) (byte_at bytes address) (omega arith),
    no_prefix-none (
        prefix_of (instruction_table (byte_at bytes address)).op_type
          (instruction_table (byte_at bytes address)) ctx),
  )

  pub not_prefix-at :
      (address : ℕ) (ctx : Context)
      → prefix_of
          (instruction_table (byte_at bytes address)).op_type
          (instruction_table (byte_at bytes address))
          ctx
        ≡ none
      → prefix_byte (byte_at bytes address) ≡ false
  unfolding byte_at
  not_prefix-at address ctx h =
      let byte = byte_at bytes address in
      let taken =
        all_below-at 256
          (λ i.
            not (prefix_byte i)
            || not (no_prefix (prefix_of (instruction_table i).op_type (instruction_table i) ctx)))
          (taken_rows ctx) byte (omega arith) in
      not-true _ (or-false-true (not (prefix_byte byte)) (rw h at taken))

  -- `dis386` ends when fuel is left for the first byte that is no prefix, and takes at least one byte.
  pub dis386-Steps :
      (fuel address vaddr k : ℕ) (ctx : Context) (s : Strings)
      → k < fuel
      → prefix_byte (byte_at bytes (address + k)) ≡ false
      → Steps (dis386 bytes fuel address vaddr ctx s)
  unfolding dis386
  dis386-Steps zero address vaddr k ctx s h plain = elim h [ ]
  dis386-Steps (suc fuel) address vaddr zero ctx s h plain =
      let here : prefix_byte (byte_at bytes address) ≡ false = rw add-zero at plain in
      rw (no_prefix-at address ctx here, dis386) (dis_opcode-Steps bytes _ _ _ _ _ _)
  dis386-Steps (suc fuel) address vaddr (suc k) ctx s h plain =
      let inst = instruction_table (byte_at bytes address) in
      elim (Option-cases (prefix_of inst.op_type inst ctx)) [
        | inl e ↦ rw (e, dis386) (dis_opcode-Steps bytes _ _ _ _ _ _)
        | inr (p, e) ↦
            rw (e, dis386)
              (add_size-Steps 1 _ (
                dis386-Steps fuel (address + 1) (vaddr + 1) k p.1 _ (omega arith)
                  (rw (shifted address k) at plain)))
      ]
