-- ===== src/Tests/Disassembler.antt =====
-- Tests of the disassembler: whole lines, as the debugger prints them.
use topgun.Common.{
  ℕ, zero, suc, ◌+◌, ◌≤◌, ◌<◌, List, [], ◌∷◌, ◌≡◌, refl, true, length, u32, sx8, sx16, arith,
}
use mathlib.Core.Option.{none, some}
use topgun.Common.Text.{Text, codes, hex, hex_digits, hex_digit}
use topgun.Isa.{get_or, Operand, operand, ip_rel, rm_modrm, sz_8}
use topgun.Machine.{Machine, set_eip}
use topgun.Machine.Regs.{wide_operand, wide_address}
use topgun.Decode.Fetch.{code_addr}
use topgun.Decode.ModRm.{decoded_reg}
use topgun.Decode.Operands.{decode_operand}
use topgun.Decode.Advance.{code_byte}
use topgun.Maverick.{maverick_board, start_machine, init_386, load_program}
use topgun.Tests.Fixtures.{board, machine}
use topgun.Iceman.Dis.RowLengths.{Takes, dis_row-Takes}
use topgun.Step.{is_multi_f6, decode_row}
use topgun.Iceman.Dis.OperandLengths.{Agrees, disasm_operand-Agrees}
use topgun.Iceman.Dis.Displacements.{signed_value, signed_value-pdisp}
use topgun.Iceman.Dis.OperandBuffers.{FitsIn, disasm_operand-FitsIn}
use topgun.Iceman.Dis.Listing.{code_16, prefix_byte, unassemble}
use topgun.Iceman.Dis.Rounds.{Continues, unassemble-Ends}
use topgun.Iceman.Dis.Complete.{Prints}
use topgun.Iceman.Dis.Prints.{dis386-Prints}
use topgun.Isa.Table.{instruction_table}
use topgun.Iceman.Dis.Address.{fields_of, byte_at, rm32, rm16, pdisp8, pdisp16, pdisp32}
use topgun.Iceman.Dis.Operands.{disasm_operand}
use topgun.Iceman.Dis.Lines.{
  Strings, Dis, done, line_of, show_operand, print_line, prefix_of, add_size, is_extended,
  dis_operands, dis_row, dis_opcode, dis386,
}

abbrev no_strings : Strings
no_strings = record { destination = []; source1 = []; source2 = []; printed = [] }

abbrev run : List ℕ → Dis ℕ
run bytes = dis386 (λ a. get_or bytes a 0) 16 0 0x100 code_16 no_strings

abbrev shows : Dis ℕ → Text
shows (done n s) = s.printed
shows _ = []

abbrev sized : Dis ℕ → ℕ
sized (done n s) = n
sized _ = 0

-- The immediate is looked for where the displacement stands, and the displacement is shown.
mov_byte :
    (shows (run (0xc6 ∷ 0x46 ∷ 0xfe ∷ 0x12 ∷ [])) ≡ codes "MOV BYTE PTR [BP-0x02], 0xfe\n")
    × (sized (run (0xc6 ∷ 0x46 ∷ 0xfe ∷ 0x12 ∷ [])) ≡ 4)
unfolding dis386 dis_opcode dis_row dis_operands disasm_operand show_operand line_of print_line
    prefix_of add_size is_extended instruction_table fields_of rm32 rm16 byte_at pdisp8 hex
    hex_digits hex_digit
mov_byte = (refl, refl)

jump_back : shows (run (0xeb ∷ 0xfe ∷ [])) ≡ codes "JMP 0x00000100\n"
unfolding dis386 dis_opcode dis_row dis_operands disasm_operand show_operand line_of print_line
    prefix_of add_size is_extended instruction_table fields_of rm32 rm16 byte_at pdisp8 hex
    hex_digits hex_digit
jump_back = refl

-- `PUSH ES`: a segment register that the row names is not shown, and the text of the instruction
-- before stays.
stale_operand :
    shows (dis386 (λ a. 0x06) 4 0 0x100 code_16 (record (no_strings) { source1 = codes "AX" }))
    ≡ codes "PUSH AX\n"
unfolding dis386 dis_opcode dis_row dis_operands disasm_operand show_operand line_of print_line
    prefix_of add_size is_extended instruction_table fields_of rm32 rm16 byte_at pdisp8 hex
    hex_digits hex_digit
stale_operand = refl

abbrev sib_machine : Machine
sib_machine = set_eip 0x100 (start_machine (0x48 ∷ 0x10 ∷ []) [])

-- `ADD [BX+SI+0x10], CX` after its opcode.
abbrev sib_bytes : ℕ → ℕ
sib_bytes a = get_or (0x48 ∷ 0x10 ∷ []) a 0

dis_row-Takes_example :
    Takes 1
      (dis_row sib_bytes 0 0x100 1 1 (instruction_table 1) code_16 no_strings)
      sib_machine
      (decode_row board (instruction_table 1))
unfolding byte_at code_byte code_addr set_eip start_machine init_386 load_program maverick_board
    wide_operand wide_address instruction_table is_multi_f6
dis_row-Takes_example =
    dis_row-Takes board sib_bytes (instruction_table 1)
      (record {
        not_ff = refl;
        not_f6 = refl;
        dest_simple = refl;
        src1_simple = refl;
        src2_simple = refl;
      })
      0 0x100 1 1 code_16 no_strings sib_machine refl refl refl refl

abbrev short_jump : Operand
short_jump = operand ip_rel sz_8 0

disasm_operand-Agrees_example :
    Agrees
      (disasm_operand (λ a. 0xfe) 0 code_16 0x100 short_jump none [])
      machine
      (decode_operand board (decoded_reg 0) 0 short_jump)
unfolding wide_operand wide_address start_machine init_386
disasm_operand-Agrees_example =
    disasm_operand-Agrees board (λ a. 0xfe) 0 machine code_16 0x100 short_jump none []
      (decoded_reg 0) 0 refl refl tt

signed_value-pdisp_example :
    (signed_value (pdisp8 0xfe) ≡ sx8 0xfe)
    × (signed_value (pdisp16 0xfe) ≡ sx16 0xfe)
    × (signed_value (pdisp32 0xfe) ≡ u32 0xfe)
signed_value-pdisp_example = signed_value-pdisp 0xfe

disasm_operand-FitsIn_example :
    (length (rm16 (λ a. 0xfe) 0 (fields_of 0x46)).0 ≤ 21)
    × (FitsIn 49 (
        disasm_operand
          (λ a. 0xfe)
          0
          code_16
          0x100
          (operand rm_modrm sz_8 0)
          (some (fields_of 0x46))
          (rm16 (λ a. 0xfe) 0 (fields_of 0x46)).0))
disasm_operand-FitsIn_example =
    disasm_operand-FitsIn (λ a. 0xfe) 0 0x100 0x46 code_16 (operand rm_modrm sz_8 0)

-- Twenty NOPs.
unassemble-Ends_example :
    Continues
      (codes "> ")
      (unassemble (λ a. 0x90) 4 20 20 0 (record (no_strings) { printed = codes "> " }))
unfolding byte_at fields_of
unassemble-Ends_example =
    unassemble-Ends (λ a. 0x90) 4 20 20 0 (record (no_strings) { printed = codes "> " })
      (omega arith)
      (λ j h. (
        0,
        omega arith,
        record {
          prefixes = λ k small. absurd (omega (arith, small));
          opcode = refl;
          near = refl;
          segment = λ moves. omega arith;
        },
      ))

-- `LOCK`, and a move from DS.
abbrev locked : ℕ → ℕ
locked a = get_or (0xf0 ∷ 0x8c ∷ 0xd8 ∷ []) a 0

lock_first : (j : ℕ) → j < 1 → prefix_byte (byte_at locked (0 + j)) ≡ true
unfolding byte_at
lock_first zero h = refl
lock_first (suc j) h = absurd (omega arith)

dis386-Prints_example : Prints [] (dis386 locked 4 0 0x100 code_16 no_strings)
unfolding byte_at fields_of
dis386-Prints_example =
    dis386-Prints locked 4 0 0x100 1 code_16 no_strings (omega arith) (omega arith)
      (record { prefixes = lock_first; opcode = refl; near = refl; segment = λ moves. omega arith })
