-- ===== src/Maverick/Dump.antt =====
-- The register dump of `maverick/run386.c`, which `iceman/iceman.c` repeats for the client. What
-- `%p` prints is up to the C library: it is a parameter.
pub mod Flags
use topgun.Common.{
  ℕ, zero, suc, ◌+◌, ◌-◌, ◌/◌, ◌%◌, ◌^◌, List, [], ◌∷◌, ◌++◌, Bool, if◌then◌else◌, ◌==◌, ltb,
}
use topgun.Common.Bits.{bit}
use topgun.Common.Text.{Text, codes}
use topgun.Isa.{get_or}
use topgun.Isa.Codes.{carry, parity, ac, zero_flag, sign, trap, interrupt, direction, overflow}
use topgun.Iceman.Dis.Names.{regs_32, seg_reg_names}
use topgun.Machine.{Machine, SegReg, mode}

-- `NESTED`, `RESUME` and `V8086`.
abbrev pub nested : ℕ
nested = 14

abbrev pub resume : ℕ
resume = 16

abbrev pub v8086 : ℕ
v8086 = 17

-- `%d` of a number that is not negative, its last `more` digits at most.
unfoldable pub dec_digits : ℕ → ℕ → Text
dec_digits zero n = []
dec_digits (suc more) n =
    let tens = dec_digits more (n / 10) in
    (if n / 10 == 0 then [] else tens) ++ (b'0' + n % 10) ∷ []

-- `%d` of an `int`: ten digits are enough.
unfoldable pub dec : ℕ → Text
unfolding dec_digits
dec n = if ltb n (2 ^ 31) then dec_digits 10 n else codes "-" ++ dec_digits 10 (2 ^ 32 - n)

-- `%04X` of a 16-bit number.
unfoldable pub upper_digit : ℕ → ℕ
upper_digit d = if ltb d 10 then b'0' + d else b'A' + d - 10

unfoldable pub upper_hex : ℕ → Text
unfolding upper_digit
upper_hex n =
    upper_digit (n / 2 ^ 12 % 16)
    ∷ upper_digit (n / 2 ^ 8 % 16)
    ∷ upper_digit (n / 2 ^ 4 % 16)
    ∷ upper_digit (n % 16)
    ∷ []

-- The macros `VALID`, `DPL`, `STYPE` and `EXEC` on a descriptor's access byte, and `IOPL`.
abbrev pub valid : SegReg → ℕ
valid desc = bit desc.access 7

abbrev pub dpl : SegReg → ℕ
dpl desc = desc.access / 2 ^ 5 % 4

abbrev pub stype : SegReg → ℕ
stype desc = bit desc.access 4

abbrev pub exec : SegReg → ℕ
exec desc = bit desc.access 3

abbrev pub iopl : ℕ → ℕ
iopl flags = flags / 2 ^ 12 % 4

-- The macro `PRINT_FLAG`.
unfoldable pub print_flag : ℕ → ℕ → Text → Text → Text
print_flag eflags mask set clear = if bit eflags mask == 1 then set else clear

-- The letters of `dump_eflags_i386`.
unfoldable pub flag_letters : ℕ → Text
flag_letters eflags =
    print_flag eflags v8086 (codes "V") []
    ++ (print_flag eflags resume (codes "R") []
        ++ (print_flag eflags nested (codes "N") []
            ++ (print_flag eflags overflow (codes "O") []
                ++ (print_flag eflags direction (codes "D") (codes "d")
                    ++ (print_flag eflags interrupt (codes "I") []
                        ++ (print_flag eflags trap (codes "T") []
                            ++ (print_flag eflags sign (codes "S") []
                                ++ (print_flag eflags zero_flag (codes "Z") []
                                    ++ (print_flag eflags ac (codes "A") []
                                        ++ (print_flag eflags parity (codes "P") []
                                            ++ print_flag eflags carry (codes "C") []))))))))))

unfoldable pub dump_eflags_i386 : ℕ → Text
unfolding flag_letters dec
dump_eflags_i386 eflags = flag_letters eflags ++ codes " IOPL=" ++ dec (iopl eflags)

-- The kind of a segment, up to the end of its line.
unfoldable pub segment_kind : SegReg → Text
segment_kind sgmt =
    if valid sgmt == 0
    then codes "NOT VALID "
    else if stype sgmt == 0
    then codes "SYSTEM \n"
    else (if exec sgmt == 0 then codes "DATA " else codes "CODE ")
      ++ (if mode sgmt == 0 then codes "USE16 " else codes "USE32 ")

module _ (pointer : ℕ → Text) where
  unfoldable pub dump_seg_386 : (ℕ → SegReg) → ℕ → Text
  unfolding upper_hex dec segment_kind
  dump_seg_386 seg_regs seg =
      let sgmt = seg_regs seg in
      get_or seg_reg_names seg []
      ++ (codes " ("
          ++ (upper_hex sgmt.selector
              ++ (codes "): Base="
                  ++ (pointer sgmt.base
                      ++ (codes " Limit="
                          ++ (pointer sgmt.limit
                              ++ (codes " DPL="
                                  ++ (dec (dpl sgmt)
                                      ++ (codes " " ++ (segment_kind sgmt ++ codes "\n"))))))))))

  -- The registers from `i` on, for `count` rounds: four on a line.
  unfoldable pub dump_regs_from : (ℕ → ℕ) → ℕ → ℕ → Text
  dump_regs_from regs zero i = []
  dump_regs_from regs (suc count) i =
      (if i % 4 == 0 then codes "\n" else [])
      ++ (get_or regs_32 i []
          ++ (codes ": "
              ++ (pointer (regs i) ++ (codes "  " ++ dump_regs_from regs count (i + 1)))))

  unfoldable pub dump_regs_386 : ℕ → ℕ → ℕ → (ℕ → ℕ) → Text
  unfolding dec dump_eflags_i386 dump_regs_from
  dump_regs_386 eip cpl eflags regs =
      codes "EIP= "
      ++ (pointer eip
          ++ (codes " CPL="
              ++ (dec cpl
                  ++ (codes " EFLAGS= "
                      ++ (dump_eflags_i386 eflags ++ (dump_regs_from regs 8 0 ++ codes "\n"))))))

  unfoldable pub dump_segs_from : (ℕ → SegReg) → ℕ → ℕ → Text
  unfolding dump_seg_386
  dump_segs_from seg_regs zero i = []
  dump_segs_from seg_regs (suc count) i =
      dump_seg_386 seg_regs i ++ dump_segs_from seg_regs count (i + 1)

  unfoldable pub dump_cr_from : (ℕ → ℕ) → ℕ → ℕ → Text
  unfolding dec
  dump_cr_from cr zero i = []
  dump_cr_from cr (suc count) i =
      (if i == 4 then codes "\n" else [])
      ++ (codes "CR"
          ++ (dec i
              ++ (codes ": " ++ (pointer (cr i) ++ (codes "  " ++ dump_cr_from cr count (i + 1))))))

  -- `dump_gdt_ldt_idt` prints nothing.
  unfoldable pub dump_386 : Machine → Text
  unfolding dump_regs_386 dump_segs_from dump_cr_from
  dump_386 m =
      dump_regs_386 m.eip m.cpl m.eflags m.regs
      ++ (dump_segs_from m.seg_regs 6 0 ++ (dump_cr_from m.cr 8 0 ++ codes "\n"))
