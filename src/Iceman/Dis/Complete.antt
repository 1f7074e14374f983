-- ===== src/Iceman/Dis/Complete.antt =====
-- The disassembler prints a line for every instruction that its tables describe.
use topgun.Common.{
  ℕ, zero, suc, ◌<◌, ◌≡◌, refl, sym, ap, ◌∙◌, ◌++◌, List, [], ◌∷◌, Bool, true, false, not, ◌&&◌,
  ◌||◌, ◌==◌, ltb, bit_and, if◌then◌else◌, arith, length, all_below, Bool-cases, inl, inr,
}
use mathlib.Core.Option.{Option, none, some}
use mathlib.Core.List.{append_assoc}
use topgun.Common.Text.{Text, codes, hex}
use topgun.Isa.{
  Op, OpType, Operand, jump, shift, alu, string_op, xchg, push, pop, pop_sr, call_near, retn, lea,
  mov, mov_to_sr, int_op, incdec, clr_flag, st_flag, enter, leave, use_modrm,
}
use topgun.Iceman.Dis.OpCode.{op_code}
use topgun.Isa.Codes.{alu_multi, id_inc}
use topgun.Isa.Table.{instruction_table, extended_instruction_table}
use topgun.Decode.Operands.{real_size}
use topgun.Iceman.Dis.Names.{seg_reg_names, jump_names, shift_names, alu_op_names, string_op_names}
use topgun.Iceman.Dis.Address.{Fields}
use topgun.Iceman.Dis.Operands.{Context, Shown, wrote, kept, help, unset}
use topgun.Iceman.Dis.Lines.{
  Strings, Dis, done, waits, undefined, out_of_fuel, name_in, by_reg, string_segment, string_line,
  print_flag, string_suffix, line_of, show_operand, print_line, line_1, line_2,
}
use topgun.Iceman.Dis.Total.{type_ok, line_ok, FieldsFor, Shows}

-- What a row needs to be printed: `wide` is the operand size, `seg` as for an operand.
abbrev pub has_modrm : Op → Bool
has_modrm inst = not (bit_and inst.flags use_modrm == 0)

abbrev pub operand_ok : Bool → Bool → Op → Operand → Bool
operand_ok seg wide inst op = type_ok seg (has_modrm inst) op.type (real_size wide op.size) op.value

unfoldable pub row_ok : Bool → Bool → Op → Bool
unfolding real_size
row_ok seg wide inst =
    operand_ok seg wide inst inst.dest
    && (operand_ok seg wide inst inst.src1
        && (operand_ok seg wide inst inst.src2
            && line_ok (has_modrm inst) inst.op_type inst.sub_type))

and-parts :
    (a b c d : Bool)
    → (a && (b && (c && d))) ≡ true
    → (a ≡ true) × (b ≡ true) × (c ≡ true) × (d ≡ true)
and-parts true true true d h = (refl, refl, refl, h)
and-parts true true false d h = cc
and-parts true false c d h = cc
and-parts false b c d h = cc

pub row_ok-parts :
    (seg wide : Bool) (inst : Op)
    → row_ok seg wide inst ≡ true
    → (operand_ok seg wide inst inst.dest ≡ true)
      × (operand_ok seg wide inst inst.src1 ≡ true)
      × (operand_ok seg wide inst inst.src2 ≡ true)
      × (line_ok (has_modrm inst) inst.op_type inst.sub_type ≡ true)
unfolding row_ok
row_ok-parts seg wide inst h = and-parts _ _ _ _ h

-- The opcodes of moves to and from segment registers, and of `LES` and `LDS`.
abbrev pub moves_segment : ℕ → Bool
moves_segment byte = byte == 0x8c || byte == 0x8e

abbrev pub loads_far : ℕ → Bool
loads_far byte = byte == 0xc4 || byte == 0xc5

pub narrow_rows :
    all_below 256 (λ byte. row_ok (moves_segment byte) false (instruction_table byte)) ≡ true
unfolding row_ok instruction_table
narrow_rows = refl

pub wide_rows :
    all_below 256
      (λ byte. loads_far byte || row_ok (moves_segment byte) true (instruction_table byte))
    ≡ true
unfolding row_ok instruction_table
wide_rows = refl

pub extended_rows :
    (wide : Bool)
    → all_below 256 (λ byte. row_ok false wide (extended_instruction_table byte)) ≡ true
unfolding row_ok extended_instruction_table
extended_rows true = refl
extended_rows false = refl

-- A text that ends with a newline.
pub record EndsLine (text : Text) : Type 0 where
  pub front : Text
  pub splits : text ≡ front ++ codes "\n"

newline-EndsLine : (text : Text) → EndsLine (text ++ codes "\n")
newline-EndsLine text = record { front = text; splits = refl }

append-EndsLine : (a : Text) {b : Text} → EndsLine b → EndsLine (a ++ b)
append-EndsLine a p = record {
  front = a ++ p.front;
  splits = ap (λ t. a ++ t) p.splits ∙ sym (append_assoc a p.front (codes "\n"));
}

line_1-EndsLine : (name a : Text) → EndsLine (line_1 name a)
line_1-EndsLine name a = newline-EndsLine (name ++ codes " " ++ a)

line_2-EndsLine : (name a b : Text) → EndsLine (line_2 name a b)
line_2-EndsLine name a b = newline-EndsLine (name ++ codes " " ++ a ++ codes ", " ++ b)

unimplemented-EndsLine :
    (byte code : ℕ)
    → EndsLine (
        codes "unimplemented op "
        ++ hex 2 byte
        ++ codes " (operation "
        ++ hex 2 code
        ++ codes ")\n")
unimplemented-EndsLine byte code =
    append-EndsLine (codes "unimplemented op " ++ hex 2 byte ++ codes " (operation " ++ hex 2 code)
      (newline-EndsLine (codes ")"))

abbrev pub IsLine : Option Text → Type 0
IsLine (some line) = EndsLine line
IsLine none = ⊥

pub record HasLine (line : Option Text) : Type 0 where
  found : IsLine line

name_in-HasLine :
    (names : List Text) (i : ℕ) (line : Text → Text)
    → i < length names
    → ((name : Text) → EndsLine (line name))
    → HasLine (name_in names i line)
unfolding name_in
name_in-HasLine [] i line h all = absurd (omega arith)
name_in-HasLine (name ∷ names) zero line h all = record { found = all name }
name_in-HasLine (name ∷ names) (suc i) line h all = name_in-HasLine names i line (omega arith) all

string_segment-HasLine :
    (names : List Text) (i : ℕ) (line : Text → Option Text)
    → i < length names
    → ((name : Text) → HasLine (line name))
    → HasLine (string_segment names i line)
unfolding string_segment
string_segment-HasLine [] i line h all = absurd (omega arith)
string_segment-HasLine (name ∷ names) zero line h all = all name
string_segment-HasLine (name ∷ names) (suc i) line h all =
    string_segment-HasLine names i line (omega arith) all

string_line-HasLine :
    (inst : Op) (ctx : Context)
    → ctx.which_segment < 6
    → inst.sub_type < 7
    → HasLine (string_line inst ctx)
unfolding string_line
string_line-HasLine inst ctx h small = elim (Bool-cases ctx.segment_override) [
  | inl e ↦ rw e (
      string_segment-HasLine seg_reg_names ctx.which_segment _ h (λ seg.
        name_in-HasLine string_op_names inst.sub_type _ small (λ name.
          newline-EndsLine (name ++ string_suffix inst.flags ctx.op_sz ++ codes " " ++ seg))))
  | inr e ↦ rw e (
      name_in-HasLine string_op_names inst.sub_type _ small
        (λ name. newline-EndsLine (name ++ string_suffix inst.flags ctx.op_sz)))
]

by_reg-HasLine :
    (seg has : Bool) (fields : Option Fields) (line : ℕ → Option Text)
    → FieldsFor seg has fields
    → has ≡ true
    → ((reg : ℕ) → reg < 8 → HasLine (line reg))
    → HasLine (by_reg fields line)
unfolding by_reg
by_reg-HasLine seg has none line fit h all = cc
by_reg-HasLine seg has (some fields) line fit h all = all fields.reg_field (fit.1.reg_small)

pub ltb-less : (a b : ℕ) → ltb a b ≡ true → a < b
ltb-less a b h = ground arith

alu_line-HasLine :
    (seg has : Bool) (fields : Option Fields) (sub : ℕ) (line : Text → Text)
    → FieldsFor seg has fields
    → line_ok has alu sub ≡ true
    → ((name : Text) → EndsLine (line name))
    → HasLine (
        if sub == alu_multi
        then by_reg fields (λ i. name_in alu_op_names i line)
        else name_in alu_op_names sub line)
alu_line-HasLine seg has fields sub line fit ok all = elim (Bool-cases (sub == alu_multi)) [
  | inl e ↦
      let h : has ≡ true = ground arith in
      rw e (
        by_reg-HasLine seg has fields _ fit h
          (λ reg small. name_in-HasLine alu_op_names reg _ small all))
  | inr e ↦ let h : sub < 8 = ground arith in rw e (name_in-HasLine alu_op_names sub _ h all)
]

pub line_of-HasLine :
    (seg has : Bool) (t : OpType) (inst : Op) (ctx : Context) (byte : ℕ) (fields : Option Fields)
    (s : Strings)
    → FieldsFor seg has fields
    → ctx.which_segment < 6
    → line_ok has t inst.sub_type ≡ true
    → HasLine (line_of t inst ctx byte fields s)
unfolding line_of
line_of-HasLine seg has jump inst ctx byte fields s fit h ok =
    name_in-HasLine jump_names inst.sub_type _ (ltb-less _ 18 ok)
      (λ name. line_1-EndsLine name s.source1)
line_of-HasLine seg has shift inst ctx byte fields s fit h ok =
    by_reg-HasLine seg has fields _ fit ok (λ reg small.
      name_in-HasLine shift_names reg _ small (λ name. line_2-EndsLine name s.source1 s.source2))
line_of-HasLine seg has alu inst ctx byte fields s fit h ok =
    alu_line-HasLine seg has fields inst.sub_type _ fit ok
      (λ name. line_2-EndsLine name s.source1 s.source2)
line_of-HasLine seg has string_op inst ctx byte fields s fit h ok =
    string_line-HasLine inst ctx h (ltb-less _ 7 ok)
line_of-HasLine seg has xchg inst ctx byte fields s fit h ok = record {
  found = line_2-EndsLine (codes "XCHG") s.source1 s.source2;
}
line_of-HasLine seg has push inst ctx byte fields s fit h ok = record {
  found = line_1-EndsLine (codes "PUSH") s.source1;
}
line_of-HasLine seg has pop inst ctx byte fields s fit h ok = record {
  found = line_1-EndsLine (codes "POP") s.destination;
}
line_of-HasLine seg has pop_sr inst ctx byte fields s fit h ok = record {
  found = line_1-EndsLine (codes "POP") s.destination;
}
line_of-HasLine seg has call_near inst ctx byte fields s fit h ok = record {
  found = line_1-EndsLine (codes "CALL") s.source1;
}
line_of-HasLine seg has retn inst ctx byte fields s fit h ok = record {
  found = line_1-EndsLine (codes "RETN") s.source1;
}
line_of-HasLine seg has lea inst ctx byte fields s fit h ok = record {
  found = line_2-EndsLine (codes "LEA") s.destination s.source1;
}
line_of-HasLine seg has mov inst ctx byte fields s fit h ok = record {
  found = line_2-EndsLine (codes "MOV") s.destination s.source1;
}
line_of-HasLine seg has mov_to_sr inst ctx byte fields s fit h ok = record {
  found = line_2-EndsLine (codes "MOV") s.destination s.source1;
}
line_of-HasLine seg has int_op inst ctx byte fields s fit h ok = record {
  found = line_1-EndsLine (codes "INT") s.source1;
}
line_of-HasLine seg has incdec inst ctx byte fields s fit h ok = record {
  found =
      line_1-EndsLine (if inst.sub_type == id_inc then codes "INC" else codes "DEC") s.destination;
}
line_of-HasLine seg has clr_flag inst ctx byte fields s fit h ok = record {
  found = newline-EndsLine (codes "CL" ++ print_flag inst.sub_type);
}
line_of-HasLine seg has st_flag inst ctx byte fields s fit h ok = record {
  found = newline-EndsLine (codes "ST" ++ print_flag inst.sub_type);
}
line_of-HasLine seg has enter inst ctx byte fields s fit h ok = record {
  found = newline-EndsLine (codes "ENTER " ++ s.source1 ++ codes " " ++ s.source2);
}
line_of-HasLine seg has leave inst ctx byte fields s fit h ok = record {
  found = newline-EndsLine (codes "LEAVE");
}
line_of-HasLine seg has t inst ctx byte fields s fit h ok = record {
  found = unimplemented-EndsLine byte (op_code t);
}

-- A size is returned, and a text that ends with a newline has been printed after what there was.
abbrev pub IsDone : Text → Dis ℕ → Type 0
IsDone before (done n s) = (line : Text) × (s.printed ≡ before ++ line) × EndsLine line
IsDone before waits = ⊥
IsDone before undefined = ⊥
IsDone before out_of_fuel = ⊥

pub record Prints (before : Text) (r : Dis ℕ) : Type 0 where
  pub prints : IsDone before r

module _ (before : Text) where
  pub show_operand-Prints :
      (shown : Shown) (old : Text) (next : Text → ℕ → Dis ℕ)
      → Shows shown
      → ((text : Text) (n : ℕ) → Prints before (next text n))
      → Prints before (show_operand shown old next)
  unfolding show_operand
  show_operand-Prints (wrote text n) old next p all = all text n
  show_operand-Prints kept old next p all = all old 0
  show_operand-Prints help old next p all = absurd p.shows
  show_operand-Prints unset old next p all = absurd p.shows

  -- Text printed before the rest.
  pub Prints-after : (text : Text) (r : Dis ℕ) → Prints (before ++ text) r → Prints before r
  Prints-after text (done n s) p = record {
    prints = (
      text ++ p.prints.0,
      p.prints.1 ∙ append_assoc before text p.prints.0,
      append-EndsLine text (p.prints.2),
    );
  }
  Prints-after text waits p = absurd p.prints
  Prints-after text undefined p = absurd p.prints
  Prints-after text out_of_fuel p = absurd p.prints

pub print_line-Prints :
    (line : Option Text) (size : ℕ) (s : Strings)
    → HasLine line
    → Prints s.printed (print_line line size s)
unfolding print_line
print_line-Prints none size s p = absurd p.found
print_line-Prints (some line) size s p = record { prints = (line, refl, p.found) }
