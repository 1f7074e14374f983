-- ===== src/Iceman.antt =====
-- The debugger's client, `iceman/iceman.c`: the packet that a line of input sends and the answer
-- that it waits for. Printing is left out, and so is `sscanf`: a line is its command and the numbers
-- read from it.
pub mod Laws
pub mod Dis
pub mod Dump
use topgun.Common.{length, ℕ, ◌+◌, ◌*◌, List, [], ◌∷◌, u32}
use mathlib.Core.Option.{Option, none, some}
use topgun.Maverick.Breakpoints.{Breakpoint}
use topgun.Maverick.Debugger.{
  CmdPkt, Command, Reply, no_reply, brk_reply, step_reply, regs_reply, memory_reply, list_reply,
  index_reply, dump_regs, dump_memory, set_bp, unset_bp, set_wp, unset_wp, list_bp, list_wp, trace,
  go, minus_one,
}

-- The commands of the loop in `main` that send a packet, and all others.
pub data Word : Type 0 where
  cmd_r cmd_d cmd_u cmd_bp cmd_br cmd_wp cmd_wr cmd_bl cmd_wl cmd_g cmd_t cmd_other : Word

-- What `sscanf` reads after the command: numbers, with `%x %x`, and a far pointer, with `%x:%x`.
pub record Line : Type 0 where
  pub word : Word
  pub numbers : List ℕ
  pub far : Option (ℕ × ℕ)

-- `args[0]` where one number is asked for: with none it keeps its value.
abbrev pub first_arg : List ℕ → ℕ → ℕ
first_arg [] old = old
first_arg (n ∷ ns) old = u32 n

-- `d`: one paragraph if there is one number, nothing is sent if there is none.
unfoldable pub d_packet : List ℕ → Option CmdPkt
d_packet [] = none
d_packet (addr ∷ []) = some (record { cmd = dump_memory; arg_0 = u32 addr; arg_1 = 1 })
d_packet (addr ∷ count ∷ ns) =
    some (record { cmd = dump_memory; arg_0 = u32 addr; arg_1 = u32 count })

-- `wp`: one byte if there is no end.
unfoldable pub wp_packet : List ℕ → CmdPkt → CmdPkt
wp_packet (addr ∷ end ∷ ns) pkt = record { cmd = set_wp; arg_0 = u32 addr; arg_1 = u32 end }
wp_packet ns pkt = record {
  cmd = set_wp;
  arg_0 = first_arg ns pkt.arg_0;
  arg_1 = u32 (first_arg ns pkt.arg_0 + 1);
}

-- `g`: -1 for the parts that are missing.
unfoldable pub g_packet : Option (ℕ × ℕ) → List ℕ → CmdPkt
g_packet (some pointer) ns = record { cmd = go; arg_0 = u32 (pointer.0); arg_1 = u32 (pointer.1) }
g_packet none ns = record { cmd = go; arg_0 = minus_one; arg_1 = first_arg ns minus_one }

-- `t`: the number of steps is 1 if it is missing.
abbrev pub t_packet : List ℕ → CmdPkt → CmdPkt
t_packet ns pkt = record pkt { cmd = trace; arg_0 = first_arg ns 1 }

unfoldable pub packet_of : Word → Line → CmdPkt → Option CmdPkt
packet_of cmd_r line pkt = some (record pkt { cmd = dump_regs })
packet_of cmd_d line pkt = d_packet line.numbers
packet_of cmd_u line pkt = some (record { cmd = dump_memory; arg_0 = 0x7d00; arg_1 = 8 })
packet_of cmd_bp line pkt =
    some (record { cmd = set_bp; arg_0 = first_arg line.numbers pkt.arg_0; arg_1 = pkt.arg_1 })
packet_of cmd_br line pkt =
    some (record { cmd = unset_bp; arg_0 = first_arg line.numbers pkt.arg_0; arg_1 = pkt.arg_1 })
packet_of cmd_wp line pkt = some (wp_packet line.numbers pkt)
packet_of cmd_wr line pkt =
    some (record { cmd = unset_wp; arg_0 = first_arg line.numbers pkt.arg_0; arg_1 = pkt.arg_1 })
packet_of cmd_bl line pkt = some (record pkt { cmd = list_bp })
packet_of cmd_wl line pkt = some (record pkt { cmd = list_wp })
packet_of cmd_g line pkt = some (g_packet line.far line.numbers)
packet_of cmd_t line pkt = some (t_packet line.numbers pkt)
packet_of cmd_other line pkt = none

-- The packet that a line sends, from the one before it.
unfoldable pub line_packet : Line → CmdPkt → Option CmdPkt
unfolding packet_of
line_packet line pkt = packet_of line.word line pkt

-- The sizes of `brk_resp`, `step_pkt`, `ice_regs` and `breakpoint` on 32-bit Windows.
abbrev pub sizeof_brk_resp : ℕ
sizeof_brk_resp = 8

abbrev pub sizeof_step_pkt : ℕ
sizeof_step_pkt = sizeof_brk_resp + 4 + 16

abbrev pub sizeof_ice_regs : ℕ
sizeof_ice_regs = (8 + 9 + 8 + 8) * 4 + 2 * 4 + 6 * 16 + 4 * 8 + 4

abbrev pub sizeof_breakpoint : ℕ
sizeof_breakpoint = 12

-- `WriteFile`'s count for an answer.
abbrev pub reply_size : Reply → ℕ
reply_size no_reply = 0
reply_size (brk_reply csip) = sizeof_brk_resp
reply_size (step_reply step) = sizeof_step_pkt
reply_size (regs_reply regs) = sizeof_ice_regs
reply_size (memory_reply bytes) = length bytes
reply_size (list_reply bps) = sizeof_breakpoint * length bps
reply_size (index_reply i) = 4

-- The fewest bytes that `WaitPipeResponse` takes for an answer to a packet; with 0 it is not called.
-- `g` waits for a breakpoint instead.
unfoldable pub waits_for : Word → CmdPkt → ℕ
waits_for cmd_r pkt = sizeof_ice_regs
waits_for cmd_d pkt = pkt.arg_1 * 16
waits_for cmd_u pkt = pkt.arg_1 * 16
waits_for cmd_bp pkt = 4
waits_for cmd_wp pkt = 4
waits_for cmd_bl pkt = sizeof_breakpoint * 4
waits_for cmd_wl pkt = sizeof_breakpoint * 4
waits_for cmd_t pkt = sizeof_step_pkt
waits_for word pkt = 0
