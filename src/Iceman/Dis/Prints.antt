-- ===== src/Iceman/Dis/Prints.antt =====
-- Whole instructions: the disassembler returns with a line and a size.
use topgun.Common.{
  ℕ, zero, suc, ◌+◌, ◌<◌, ◌≡◌, refl, Bool, true, false, not, ◌&&◌, ◌||◌, ◌==◌, ltb, bit_and, arith,
  all_below, all_below-at, Bool-cases, inl, inr,
}
use native.Mathlib.Nat.{add-zero}
use mathlib.Core.Option.{Option, none, some}
use topgun.Common.Text.{Text}
use topgun.Isa.{Op, OpType, segment_override, use_modrm}
use topgun.Isa.Table.{instruction_table, extended_instruction_table}
use topgun.Iceman.Dis.Address.{Fields, fields_of, byte_at}
use topgun.Iceman.Dis.Operands.{Context}
use topgun.Iceman.Dis.Lines.{
  Strings, Dis, done, waits, undefined, out_of_fuel, prefix_of, add_size, is_extended, dis_operands,
  dis_row, dis_opcode, dis386,
}
use topgun.Iceman.Dis.Total.{AreFields, FieldsFor, disasm_operand-Shows}
use topgun.Iceman.Dis.Complete.{
  has_modrm, row_ok, row_ok-parts, moves_segment, loads_far, narrow_rows, wide_rows, extended_rows,
  Prints, Prints-after, ltb-less, line_of-HasLine, show_operand-Prints, print_line-Prints,
}
use topgun.Iceman.Dis.Listing.{prefix_byte, no_prefix-at, not_prefix-at, shifted, Option-cases}

module _ (bytes : ℕ → ℕ) (seg : Bool) where
  dis_operands-Prints :
      (address vaddr size byte : ℕ) (inst : Op) (ctx : Context) (fields : Option Fields)
      (rm_str : Text) (s : Strings)
      → FieldsFor seg (has_modrm inst) fields
      → ctx.which_segment < 6
      → row_ok seg ctx.op_sz inst ≡ true
      → Prints s.printed (dis_operands bytes address vaddr size byte inst ctx fields rm_str s)
  unfolding dis_operands
  dis_operands-Prints address vaddr size byte inst ctx fields rm_str s fit h ok =
      let parts = row_ok-parts seg ctx.op_sz inst ok in
      show_operand-Prints s.printed _ _ _
        (disasm_operand-Shows bytes address seg (has_modrm inst) fields fit ctx _ inst.dest rm_str h
          (parts.0))
        (λ dest n.
          show_operand-Prints s.printed _ _ _
            (disasm_operand-Shows bytes address seg (has_modrm inst) fields fit ctx _ inst.src1
              rm_str h (parts.1))
            (λ src1 n1.
              show_operand-Prints s.printed _ _ _
                (disasm_operand-Shows bytes address seg (has_modrm inst) fields fit ctx _ inst.src2
                  rm_str h (parts.2))
                (λ src2 n2. print_line-Prints _ _ _ (
                  line_of-HasLine seg (has_modrm inst) inst.op_type inst ctx byte fields _ fit h
                    (parts.3)))))

-- Each field of a ModR/M byte is below 8.
fields_of-AreFields :
    (seg : Bool) (modrm : ℕ)
    → (seg ≡ true → (fields_of modrm).reg_field < 6)
    → AreFields seg (fields_of modrm)
unfolding fields_of
fields_of-AreFields seg modrm h = record {
  reg_small = omega arith;
  rm_small = omega arith;
  seg_small = h;
}

module _ (bytes : ℕ → ℕ) (seg : Bool) where
  dis_row-Prints :
      (address vaddr size byte : ℕ) (inst : Op) (ctx : Context) (s : Strings)
      → ctx.which_segment < 6
      → (seg ≡ true → (fields_of (byte_at bytes address)).reg_field < 6)
      → row_ok seg ctx.op_sz inst ≡ true
      → Prints s.printed (dis_row bytes address vaddr size byte inst ctx s)
  unfolding dis_row
  dis_row-Prints address vaddr size byte inst ctx s h small ok =
      elim (Bool-cases (bit_and inst.flags use_modrm == 0)) [
        | inl e ↦ rw e (dis_operands-Prints bytes seg _ _ _ _ inst ctx none _ s (rw e) h ok)
        | inr e ↦ rw e (
            dis_operands-Prints bytes seg _ _ _ _ inst ctx
              (some (fields_of (byte_at bytes address))) _ s (rw e, fields_of-AreFields seg _ small)
              h ok)
      ]

byte_at-lt : (bytes : ℕ → ℕ) (address : ℕ) → byte_at bytes address < 256
unfolding byte_at
byte_at-lt bytes address = omega arith

module _ (bytes : ℕ → ℕ) where
  rows-at :
      (byte : ℕ) (wide : Bool)
      → byte < 256
      → loads_far byte && wide ≡ false
      → row_ok (moves_segment byte) wide (instruction_table byte) ≡ true
  rows-at byte false small near =
      all_below-at 256 (λ i. row_ok (moves_segment i) false (instruction_table i)) narrow_rows byte
        small
  rows-at byte true small near = ground (
    arith,
    all_below-at 256 (λ i. loads_far i || row_ok (moves_segment i) true (instruction_table i))
        wide_rows byte small,
  )

  -- After the prefixes.
  dis_opcode-Prints :
      (address vaddr byte : ℕ) (ctx : Context) (s : Strings)
      → byte < 256
      → ctx.which_segment < 6
      → loads_far byte && ctx.op_sz ≡ false
      → (moves_segment byte ≡ true → (fields_of (byte_at bytes address)).reg_field < 6)
      → Prints s.printed (dis_opcode bytes address vaddr byte (instruction_table byte) ctx s)
  unfolding dis_opcode
  dis_opcode-Prints address vaddr byte ctx s small h near named =
      elim (Bool-cases (is_extended (instruction_table byte).op_type)) [
        | inl e ↦ rw e (
            dis_row-Prints bytes false _ _ 2 _ _ ctx s h (λ absent. cc)
              (all_below-at 256 (λ i. row_ok false ctx.op_sz (extended_instruction_table i))
                (extended_rows ctx.op_sz) (byte_at bytes address) (byte_at-lt bytes address)))
        | inr e ↦ rw e (
            dis_row-Prints bytes (moves_segment byte) _ _ 1 _ _ ctx s h named
              (rows-at byte ctx.op_sz small near))
      ]

names_segment : OpType → Bool
names_segment segment_override = true
names_segment _ = false

segment_rows :
    all_below 256 (λ byte.
      not (names_segment (instruction_table byte).op_type)
      || ltb (instruction_table byte).sub_type 6)
    ≡ true
unfolding names_segment instruction_table
segment_rows = refl

or-left-false : (a b : Bool) → (a || b) ≡ true → a ≡ false → b ≡ true
or-left-false a b h e = ground arith

segment_small :
    (byte : ℕ)
    → byte < 256
    → names_segment (instruction_table byte).op_type ≡ true
    → (instruction_table byte).sub_type < 6
segment_small byte h named =
    let small =
      all_below-at 256
        (λ i.
          not (names_segment (instruction_table i).op_type) || ltb (instruction_table i).sub_type 6)
        segment_rows byte h in
    ltb-less _ 6
      (or-left-false (not (names_segment (instruction_table byte).op_type)) _ small (rw named))

prefix_of-which_segment :
    (t : OpType) (inst : Op) (ctx : Context) (p : Text × Context)
    → prefix_of t inst ctx ≡ some p
    → ctx.which_segment < 6
    → (names_segment t ≡ true → inst.sub_type < 6)
    → p.1.which_segment < 6
unfolding prefix_of names_segment
prefix_of-which_segment segment_override inst ctx p e h small =
    let given : inst.sub_type < 6 = small refl in ground arith
prefix_of-which_segment _ inst ctx p e h small = ground arith

add_size-Prints :
    (before : Text) (n : ℕ) (r : Dis ℕ) → Prints before r → Prints before (add_size n r)
unfolding add_size
add_size-Prints before n (done size s) p = record { prints = p.prints }
add_size-Prints before n waits p = absurd p.prints
add_size-Prints before n undefined p = absurd p.prints
add_size-Prints before n out_of_fuel p = absurd p.prints

and-false : (a b : Bool) → a ≡ false → a && b ≡ false
and-false a b h = rw h

true-ne-false : (b : Bool) → b ≡ true → b ≡ false → ⊥
true-ne-false b h k = cc

-- An instruction of `k` prefix bytes and an opcode that is neither a prefix nor `LES` nor `LDS`. If
-- it moves to or from a segment register, then its ModR/M byte names one.
pub record Printable (bytes : ℕ → ℕ) (address k : ℕ) : Type 0 where
  pub prefixes : (j : ℕ) → j < k → prefix_byte (byte_at bytes (address + j)) ≡ true
  pub opcode : prefix_byte (byte_at bytes (address + k)) ≡ false
  pub near : loads_far (byte_at bytes (address + k)) ≡ false
  pub segment :
      moves_segment (byte_at bytes (address + k)) ≡ true
      → (fields_of (byte_at bytes (address + k + 1))).reg_field < 6

module _ (bytes : ℕ → ℕ) where
  Printable-next :
      (address k : ℕ) → Printable bytes address (suc k) → Printable bytes (address + 1) k
  Printable-next address k p = record {
    prefixes = λ j h. rw (← shifted address j) (p.prefixes (suc j) (omega arith));
    opcode = rw (← shifted address k) p.opcode;
    near = rw (← shifted address k) p.near;
    segment = rw (← shifted address k) p.segment;
  }

  -- For `k` prefix bytes and an opcode that is neither a prefix nor `LES` nor `LDS` and, if it moves
  -- to or from a segment register, has a ModR/M byte that names one of the six: with more fuel than
  -- `k`, a segment to override with that is one of the six, and any sizes and strings before,
  -- `dis386` returns a size and has printed, after what was printed before, a text that ends with a
  -- newline. It neither waits forever, nor reads something unset or a table past its end.
  pub dis386-Prints :
      (fuel address vaddr k : ℕ) (ctx : Context) (s : Strings)
      → k < fuel
      → ctx.which_segment < 6
      → Printable bytes address k
      → Prints s.printed (dis386 bytes fuel address vaddr ctx s)
  unfolding dis386
  dis386-Prints zero address vaddr k ctx s h seg p = elim h [ ]
  dis386-Prints (suc fuel) address vaddr zero ctx s h seg p =
      rw (no_prefix-at bytes address ctx (rw add-zero at p.opcode), dis386)
        (dis_opcode-Prints bytes (address + 1) vaddr (byte_at bytes address) ctx s
          (byte_at-lt bytes address) seg (and-false _ _ (rw add-zero at p.near))
          (rw add-zero at p.segment))
  dis386-Prints (suc fuel) address vaddr (suc k) ctx s h seg p =
      let inst = instruction_table (byte_at bytes address) in
      elim (Option-cases (prefix_of inst.op_type inst ctx)) [
        | inl e ↦
            let plain = not_prefix-at bytes address ctx e in
            let taken = rw add-zero at (p.prefixes 0 (omega arith)) in
            absurd (true-ne-false _ taken plain)
        | inr (q, e) ↦
            rw (e, dis386)
              (add_size-Prints s.printed 1 _ (
                Prints-after s.printed q.0 _ (
                  dis386-Prints fuel (address + 1) (vaddr + 1) k q.1 _ (omega arith)
                    (prefix_of-which_segment _ _ ctx q e seg
                      (segment_small (byte_at bytes address) (byte_at-lt bytes address)))
                    (Printable-next address k p))))
      ]
