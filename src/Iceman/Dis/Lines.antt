-- ===== src/Iceman/Dis/Lines.antt =====
-- `print_flag` and `dis386`: prefixes, the operands' strings and the line that is printed.
use topgun.Common.{
  ℕ, zero, suc, ◌+◌, List, [], ◌∷◌, ◌++◌, Bool, true, false, not, if◌then◌else◌, ◌==◌, bit_and,
}
use topgun.Common.Text.{Text, codes, hex}
use mathlib.Core.Option.{Option, none, some}
use topgun.Isa.{
  Op, OpType, alu, push, pop, pop_sr, extended, incdec, string_op, repez, repne, segment_override,
  op_sz_override, addr_sz_override, jump, xchg, mov, mov_to_sr, lea, lock, retn, call_near,
  clr_flag, st_flag, int_op, shift, enter, leave, use_modrm, str_sz_8, str_sz_1632,
}
use topgun.Isa.Codes.{alu_multi, id_inc, carry, interrupt, direction}
use topgun.Isa.Table.{instruction_table, extended_instruction_table}
use topgun.Iceman.Dis.Names.{seg_reg_names, alu_op_names, shift_names, string_op_names, jump_names}
use topgun.Iceman.Dis.Address.{Fields, fields_of, byte_at, rm32, rm16}
use topgun.Iceman.Dis.OpCode.{op_code}
use topgun.Iceman.Dis.Operands.{Context, Shown, wrote, kept, help, unset, disasm_operand}

-- The global strings, and what has been printed.
pub record Strings : Type 0 where
  pub destination : Text
  pub source1 : Text
  pub source2 : Text
  pub printed : Text

-- `waits` is the endless loop after "help", and `undefined` a read of something unset or of a table
-- past its end.
pub data Dis (A : Type 0) : Type 0 where
  done : A → Strings → Dis A
  waits undefined out_of_fuel : Dis A

-- The text of a line from a name, if the table has it.
unfoldable pub name_in : List Text → ℕ → (Text → Text) → Option Text
name_in [] i line = none
name_in (name ∷ names) zero line = some (line name)
name_in (name ∷ names) (suc i) line = name_in names i line

unfoldable pub print_flag : ℕ → Text
print_flag flag =
    if flag == carry
    then codes "C"
    else if flag == interrupt
    then codes "I"
    else if flag == direction
    then codes "D"
    else []

-- A line of one operand, and one of two.
abbrev pub line_1 : Text → Text → Text
line_1 name a = name ++ codes " " ++ a ++ codes "\n"

abbrev pub line_2 : Text → Text → Text → Text
line_2 name a b = name ++ codes " " ++ a ++ codes ", " ++ b ++ codes "\n"

-- A name that is chosen by the reg field, which is not set with no ModR/M byte.
unfoldable pub by_reg : Option Fields → (ℕ → Option Text) → Option Text
by_reg none line = none
by_reg (some fields) line = line fields.reg_field

unfoldable pub string_suffix : ℕ → Bool → Text
string_suffix flags wide =
    if flags == str_sz_8
    then codes "B"
    else if flags == str_sz_1632
    then (if wide then codes "D" else codes "W")
    else []

unfoldable pub string_segment : List Text → ℕ → (Text → Option Text) → Option Text
string_segment [] i line = none
string_segment (name ∷ names) zero line = line name
string_segment (name ∷ names) (suc i) line = string_segment names i line

unfoldable pub string_line : Op → Context → Option Text
unfolding name_in string_segment string_suffix
string_line inst ctx =
    if ctx.segment_override
    then string_segment seg_reg_names ctx.which_segment (λ seg.
      name_in string_op_names inst.sub_type
        (λ name. name ++ string_suffix inst.flags ctx.op_sz ++ codes " " ++ seg ++ codes "\n"))
    else name_in string_op_names inst.sub_type
        (λ name. name ++ string_suffix inst.flags ctx.op_sz ++ codes "\n")

-- The switch on the operation type.
unfoldable pub line_of : OpType → Op → Context → ℕ → Option Fields → Strings → Option Text
unfolding name_in by_reg string_line print_flag op_code
line_of jump inst ctx byte fields s =
    name_in jump_names inst.sub_type (λ name. line_1 name s.source1)
line_of shift inst ctx byte fields s =
    by_reg fields (λ reg. name_in shift_names reg (λ name. line_2 name s.source1 s.source2))
line_of alu inst ctx byte fields s =
    let line = λ (i : ℕ). name_in alu_op_names i (λ name. line_2 name s.source1 s.source2) in
    if inst.sub_type == alu_multi then by_reg fields line else line inst.sub_type
line_of xchg inst ctx byte fields s = some (line_2 (codes "XCHG") s.source1 s.source2)
line_of push inst ctx byte fields s = some (line_1 (codes "PUSH") s.source1)
line_of pop inst ctx byte fields s = some (line_1 (codes "POP") s.destination)
line_of pop_sr inst ctx byte fields s = some (line_1 (codes "POP") s.destination)
line_of call_near inst ctx byte fields s = some (line_1 (codes "CALL") s.source1)
line_of retn inst ctx byte fields s = some (line_1 (codes "RETN") s.source1)
line_of lea inst ctx byte fields s = some (line_2 (codes "LEA") s.destination s.source1)
line_of mov inst ctx byte fields s = some (line_2 (codes "MOV") s.destination s.source1)
line_of mov_to_sr inst ctx byte fields s = some (line_2 (codes "MOV") s.destination s.source1)
line_of int_op inst ctx byte fields s = some (line_1 (codes "INT") s.source1)
line_of string_op inst ctx byte fields s = string_line inst ctx
line_of clr_flag inst ctx byte fields s =
    some (codes "CL" ++ print_flag inst.sub_type ++ codes "\n")
line_of st_flag inst ctx byte fields s = some (codes "ST" ++ print_flag inst.sub_type ++ codes "\n")
line_of enter inst ctx byte fields s =
    some (codes "ENTER " ++ s.source1 ++ codes " " ++ s.source2 ++ codes "\n")
line_of leave inst ctx byte fields s = some (codes "LEAVE\n")
line_of incdec inst ctx byte fields s =
    some (line_1 (if inst.sub_type == id_inc then codes "INC" else codes "DEC") s.destination)
line_of t inst ctx byte fields s = some (
    codes "unimplemented op "
    ++ hex 2 byte
    ++ codes " (operation "
    ++ hex 2 (op_code t)
    ++ codes ")\n")

-- The string of an operand, and what it adds to the size.
unfoldable pub show_operand : {A : Type 0} → Shown → Text → (Text → ℕ → Dis A) → Dis A
show_operand (wrote text size) old next = next text size
show_operand kept old next = next old 0
show_operand help old next = waits
show_operand unset old next = undefined

unfoldable pub print_line : Option Text → ℕ → Strings → Dis ℕ
print_line none size s = undefined
print_line (some line) size s = done size (record s { printed = s.printed ++ line })

-- The prefixes: what is printed, and the arguments for what follows. A segment override changes the
-- address size too.
unfoldable pub prefix_of : OpType → Op → Context → Option (Text × Context)
prefix_of lock inst ctx = some (codes "LOCK ", ctx)
prefix_of op_sz_override inst ctx = some ([], record ctx { op_sz = not ctx.op_sz })
prefix_of addr_sz_override inst ctx = some ([], record ctx { addr_sz = not ctx.addr_sz })
prefix_of segment_override inst ctx = some (
  [],
  record ctx { addr_sz = not ctx.addr_sz; segment_override = true; which_segment = inst.sub_type },
)
prefix_of repez inst ctx = some (codes "REPE ", ctx)
prefix_of repne inst ctx = some (codes "REPNE ", ctx)
prefix_of t inst ctx = none

unfoldable pub add_size : ℕ → Dis ℕ → Dis ℕ
add_size n (done size s) = done (size + n) s
add_size n r = r

unfoldable pub is_extended : OpType → Bool
is_extended extended = true
is_extended _ = false

module _ (bytes : ℕ → ℕ) where
  -- The operands and the line, from the ModR/M byte's end on. The operands' bytes are looked for
  -- right after the ModR/M byte, also when a displacement or another operand stands there.
  unfoldable pub dis_operands :
      ℕ → ℕ → ℕ → ℕ → Op → Context → Option Fields → Text → Strings → Dis ℕ
  dis_operands address vaddr size byte inst ctx fields rm_str s =
      show_operand (disasm_operand bytes address ctx (vaddr + size) inst.dest fields rm_str)
        s.destination
        (λ dest n.
          show_operand (disasm_operand bytes address ctx (vaddr + size + n) inst.src1 fields rm_str)
            s.source1
            (λ src1 n1.
              show_operand
                (disasm_operand bytes address ctx (vaddr + size + n + n1) inst.src2 fields rm_str)
                s.source2
                (λ src2 n2.
                  let s' = record s { destination = dest; source1 = src1; source2 = src2 } in
                  print_line (line_of inst.op_type inst ctx byte fields s') (size + n + n1 + n2)
                    s')))

  -- From the opcode's end on; `size` bytes are read.
  unfoldable pub dis_row : ℕ → ℕ → ℕ → ℕ → Op → Context → Strings → Dis ℕ
  dis_row address vaddr size byte inst ctx s =
      if bit_and inst.flags use_modrm == 0
      then dis_operands address vaddr size byte inst ctx none [] s
      else let fields = fields_of (byte_at bytes address) in
        let (rm_str, n) =
          if ctx.addr_sz
          then rm32 bytes (address + 1) fields
          else rm16 bytes (address + 1) fields in
        dis_operands (address + 1) vaddr (size + 1 + n) byte inst ctx (some fields) rm_str s

  unfoldable pub dis_opcode : ℕ → ℕ → ℕ → Op → Context → Strings → Dis ℕ
  dis_opcode address vaddr byte inst ctx s =
      if is_extended inst.op_type
      then dis_row (address + 1) vaddr 2 (byte_at bytes address)
          (extended_instruction_table (byte_at bytes address)) ctx s
      else dis_row address vaddr 1 byte inst ctx s

  -- `dis386`. The fuel bounds the prefixes.
  unfoldable pub dis386 : ℕ → ℕ → ℕ → Context → Strings → Dis ℕ
  dis386 zero address vaddr ctx s = out_of_fuel
  dis386 (suc fuel) address vaddr ctx s =
      let byte = byte_at bytes address in
      let inst = instruction_table byte in
      elim (prefix_of inst.op_type inst ctx) [
        | none ↦ dis_opcode (address + 1) vaddr byte inst ctx s
        | some (text, ctx') ↦
            add_size 1 (
              dis386 fuel (address + 1) (vaddr + 1) ctx' (record s { printed = s.printed ++ text }))
      ]
