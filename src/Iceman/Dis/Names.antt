-- ===== src/Iceman/Dis/Names.antt =====
-- The tables of names of `iceman/dis.c` and `common/i386.h`, and the outcomes of the
-- disassembler's code.
use topgun.Common.{List, [], ◌∷◌}
use topgun.Common.Text.{Text, codes}

-- The names without a table behind them read nothing: an index past the end is undefined.
abbrev pub regs_8 : List Text
regs_8 =
    codes "AL"
    ∷ codes "CL"
    ∷ codes "DL"
    ∷ codes "BL"
    ∷ codes "AH"
    ∷ codes "CH"
    ∷ codes "DH"
    ∷ codes "BH"
    ∷ []

abbrev pub regs_16 : List Text
regs_16 =
    codes "AX"
    ∷ codes "CX"
    ∷ codes "DX"
    ∷ codes "BX"
    ∷ codes "SP"
    ∷ codes "BP"
    ∷ codes "SI"
    ∷ codes "DI"
    ∷ []

abbrev pub regs_32 : List Text
regs_32 =
    codes "EAX"
    ∷ codes "ECX"
    ∷ codes "EDX"
    ∷ codes "EBX"
    ∷ codes "ESP"
    ∷ codes "EBP"
    ∷ codes "ESI"
    ∷ codes "EDI"
    ∷ []

abbrev pub seg_reg_names : List Text
seg_reg_names = codes "ES" ∷ codes "CS" ∷ codes "SS" ∷ codes "DS" ∷ codes "FS" ∷ codes "GS" ∷ []

abbrev pub rm16_strs : List Text
rm16_strs =
    codes "BX+SI"
    ∷ codes "BX+DI"
    ∷ codes "BP+SI"
    ∷ codes "BP+DI"
    ∷ codes "SI"
    ∷ codes "DI"
    ∷ codes "BP"
    ∷ codes "BX"
    ∷ []

abbrev pub alu_op_names : List Text
alu_op_names =
    codes "ADD"
    ∷ codes "OR"
    ∷ codes "ADC"
    ∷ codes "SBB"
    ∷ codes "AND"
    ∷ codes "SUB"
    ∷ codes "XOR"
    ∷ codes "CMP"
    ∷ []

abbrev pub shift_names : List Text
shift_names =
    codes "ROL"
    ∷ codes "ROR"
    ∷ codes "RCL"
    ∷ codes "RCR"
    ∷ codes "SHL"
    ∷ codes "SHR"
    ∷ codes "---"
    ∷ codes "SAR"
    ∷ []

abbrev pub string_op_names : List Text
string_op_names =
    codes "MOVS"
    ∷ codes "SCAS"
    ∷ codes "STOS"
    ∷ codes "INS"
    ∷ codes "OUTS"
    ∷ codes "LODS"
    ∷ codes "CMPS"
    ∷ []

abbrev pub jump_names : List Text
jump_names =
    codes "JO"
    ∷ codes "JNO"
    ∷ codes "JB"
    ∷ codes "JAE"
    ∷ codes "JE"
    ∷ codes "JNE"
    ∷ codes "JBE"
    ∷ codes "JA"
    ∷ codes "JS"
    ∷ codes "JNS"
    ∷ codes "JP"
    ∷ codes "JNP"
    ∷ codes "JL"
    ∷ codes "JGE"
    ∷ codes "JLE"
    ∷ codes "JG"
    ∷ codes "JMP"
    ∷ codes "JCXZ"
    ∷ []
