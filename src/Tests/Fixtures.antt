-- ===== src/Tests/Fixtures.antt =====
-- The machines and the operands of the tests.
use topgun.Common.{ℕ, ◌^◌, ◌<◌, arith, ◌≡◌, refl, List, [], ◌∷◌}
use topgun.Isa.{DecodedOp, OperandSize, imm}
use topgun.Machine.{Machine}
use topgun.Machine.Board.{Board}
use topgun.Machine.Outcome.{ok, ◌>>=◌}
use topgun.Exec.Operand.{read_source}
use topgun.Maverick.{Host, maverick_board, start_machine, init_386}

abbrev pub idle_host : Host
idle_host = record { ticks = 0; shift_key = 0; ctrl_key = 0; alt_key = 0 }

abbrev pub board : Board
board = maverick_board idle_host

-- STC, and nothing after it.
abbrev pub stc_program : List ℕ
stc_program = 0xf9 ∷ []

abbrev pub machine : Machine
machine = start_machine stc_program []

abbrev pub constant : OperandSize → ℕ → DecodedOp
constant size v = record { type = imm; id = v; size = size; sr = 0 }

pub constant-read :
    (size : OperandSize) (v : ℕ) (m : Machine) → read_source board (constant size v) m ≡ ok v m
unfolding read_source ◌>>=◌
constant-read size v m = refl

pub machine-fit : (i : ℕ) → machine.regs i < 2 ^ 32
unfolding start_machine init_386
machine-fit i = ground arith
