-- ===== src/Tests/Window.antt =====
-- The theorems on the window and the register dump at concrete inputs.
use topgun.Common.{◌+◌, ◌*◌, ◌≡◌, refl, ◌==◌, if◌then◌else◌, u8, arith}
use topgun.Common.Text.{codes}
use topgun.Isa.{get_or}
use topgun.Machine.{Machine}
use topgun.Machine.Outcome.{ok}
use topgun.Machine.Board.{bus_write_8}
use topgun.Maverick.{maverick_board}
use topgun.Maverick.Dump.{print_flag, dump_eflags_i386}
use topgun.Maverick.Dump.Flags.{LettersSay, flag_letters-LettersSay}
use topgun.Maverick.Window.{text_base, char_info, cell, dos_present}
use topgun.Maverick.Window.Screen.{text_write-shows}
use topgun.Tests.Fixtures.{idle_host, machine}

flag_letters-LettersSay_example : LettersSay 0x3241
flag_letters-LettersSay_example = flag_letters-LettersSay 0x3241

eflags_line : dump_eflags_i386 0x3241 ≡ codes "dIZC IOPL=3"
unfolding dump_eflags_i386 print_flag
eflags_line = refl

-- A bright colour on a background whose top bit is set.
attributes : (char_info 0x41 0xf0).attributes ≡ 0xfff0
attributes = refl

text_write-shows_example :
    (t : Machine) × (bus_write_8 (maverick_board idle_host) (text_base + 3 * 2) 0x41 machine
      ≡ ok tt t)
    × ((dos_present t.mem).0 ≡ (dos_present machine.mem).0)
    × (get_or (dos_present t.mem).1 3 (char_info 0 0) ≡ (
        if 3 == 3
        then record (cell machine.mem 3) { ascii_char = u8 0x41 }
        else cell machine.mem 3))
text_write-shows_example =
    text_write-shows idle_host machine 3 3 0x41 (char_info 0 0) (omega arith) (omega arith)
