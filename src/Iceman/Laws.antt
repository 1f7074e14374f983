-- ===== src/Iceman/Laws.antt =====
-- The client and the emulator together: which lines of input are answered.
use topgun.Common.{length, ℕ, ◌^◌, ◌<◌, ◌≤◌, ◌≡◌}
use mathlib.Core.Option.{Option, none, some}
use topgun.Machine.{Machine}
use topgun.Machine.Outcome.{ok}
use topgun.Maverick.{Host, maverick_board}
use topgun.Maverick.Debugger.{Ice, CmdPkt, Reply, serve}
use topgun.Iceman.{Word, cmd_wp, cmd_g, cmd_t, cmd_other, reply_size, waits_for}

-- The commands that are answered at once by a machine that need not step.
abbrev pub Answered : Word → Type 0
Answered cmd_wp = ⊥
Answered cmd_g = ⊥
Answered cmd_t = ⊥
Answered cmd_other = ⊥
Answered word = Unit

-- Four entries in each table, and a size that fits.
pub record Askable (ice : Ice) (pkt : CmdPkt) : Type 0 where
  pub code_entries : length ice.code_breakpoints ≡ 4
  pub data_entries : length ice.data_breakpoints ≡ 4
  pub paragraphs : pkt.arg_1 < 2 ^ 27

-- The emulator answers with as many bytes as the client waits for.
abbrev pub Exchange : Host → ℕ → Word → CmdPkt → Ice → Machine → Type 0
Exchange h prefixes word pkt ice m =
    (reply : Reply) × (ice' : Ice) × (serve (maverick_board h) prefixes pkt.cmd pkt ice m
      ≡ ok (reply, ice') m)
    × (waits_for word pkt ≤ reply_size reply)

module _ (h : Host) (prefixes : ℕ) (ice : Ice) (m : Machine) where
  -- A packet, if one is sent, is answered.
  abbrev Sent : Word → Option CmdPkt → Type 0
  Sent word none = Unit
  Sent word (some pkt) = Askable ice pkt → Exchange h prefixes word pkt ice m
