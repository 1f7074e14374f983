-- ===== src/Maverick/Debugger/Refinement.antt =====
-- The packets on breakpoints as operations on a set of addresses.
use topgun.Common.{
  length, ℕ, suc, ◌+◌, ◌-◌, ◌^◌, ◌<◌, ◌≡◌, refl, ◌∙◌, ap, List, [], ◌∷◌, Bool, not, ◌&&◌, ◌||◌,
  ◌==◌, Bool-cases, inl, inr, arith,
}
use mathlib.Core.Path.{subst}
use topgun.Machine.{Machine}
use topgun.Machine.Outcome.{
  Outcome, ok, hang, exited, undefined, out_of_fuel, pure, ◌>>=◌, and_then,
}
use topgun.Machine.Board.{Board}
use topgun.Maverick.Breakpoints.{Breakpoint, any_hit, add_from, add_breakpoint, remove_breakpoint}
use topgun.Maverick.Breakpoints.Laws.{
  has_room, OneByte, add_breakpoint-hits, remove_breakpoint-hits,
}
use topgun.Maverick.Debugger.{
  Ice, CmdPkt, Command, Reply, no_reply, index_reply, index_of, go, break_in, trace, dump_memory,
  dump_regs, load_memory, dump_gdt, dump_idt, dump_ldt, set_bp, unset_bp, set_wp, unset_wp, list_bp,
  list_wp, step_over, step_out, minus_one, serve, serve_go, serve_break, serve_trace,
  serve_dump_memory,
}

-- The set of addresses after a packet, from the set before it and the answer.
abbrev pub stops_after : Command → ℕ → Reply → (ℕ → Bool) → ℕ → Bool
stops_after set_bp addr (index_reply i) stops a = stops a || (not (i == minus_one) && a == addr)
stops_after unset_bp addr reply stops a = stops a && not (a == addr)
stops_after command addr reply stops a = stops a

-- Four entries, and each that is on covers one address.
pub record Valid (ice : Ice) : Type 0 where
  pub four : length ice.code_breakpoints ≡ 4
  pub one_byte : OneByte ice.code_breakpoints

module _ (addr : ℕ) where
  add_from-length : (i : ℕ) (bps : List Breakpoint) → length (add_from i addr bps).0 ≡ length bps
  unfolding add_from
  add_from-length i [] = refl
  add_from-length i (bp ∷ bps) = ground (arith, add_from-length (suc i) bps)

  remove-length : (bps : List Breakpoint) → length (remove_breakpoint addr bps) ≡ length bps
  unfolding remove_breakpoint
  remove-length [] = refl
  remove-length (bp ∷ bps) = ap suc (remove-length bps)

  -- The index is -1 where no entry is free.
  add_from-index :
      (i : ℕ) (bps : List Breakpoint)
      → i + length bps < 2 ^ 32 - 1
      → (index_of (add_from i addr bps).1 == minus_one) ≡ not (has_room bps)
  unfolding add_from
  add_from-index i [] small = ground arith
  add_from-index i (bp ∷ bps) small = ground (arith, add_from-index (suc i) bps, small)

  add_from-OneByte :
      (i : ℕ) (bps : List Breakpoint)
      → addr + 1 < 2 ^ 32
      → OneByte bps
      → OneByte (add_from i addr bps).0
  unfolding add_from
  add_from-OneByte i [] fits one = tt
  add_from-OneByte i (bp ∷ bps) fits one = elim (Bool-cases (bp.enabled == 0)) [
    | inl free ↦ rw free ((λ on. ground (arith, fits)), one.1)
    | inr used ↦ rw used (one.0, add_from-OneByte (suc i) bps fits one.1)
  ]

  remove-OneByte : (bps : List Breakpoint) → OneByte bps → OneByte (remove_breakpoint addr bps)
  unfolding remove_breakpoint
  remove-OneByte [] one = tt
  remove-OneByte (bp ∷ bps) one = elim (Bool-cases (bp.address == addr)) [
    | inl here ↦ rw here ((λ on. absurd (on refl)), remove-OneByte bps one.1)
    | inr other ↦ rw other (one.0, remove-OneByte bps one.1)
  ]

set_bp-hits :
    (addr a : ℕ) (bps : List Breakpoint)
    → length bps ≡ 4
    → addr + 1 < 2 ^ 32
    → any_hit (add_from 0 addr bps).0 a
      ≡ (any_hit bps a || (not (index_of (add_from 0 addr bps).1 == minus_one) && a == addr))
unfolding add_breakpoint
set_bp-hits addr a bps four fits =
    let index : (index_of (add_from 0 addr bps).1 == minus_one) ≡ not (has_room bps) =
      add_from-index addr 0 bps (omega (arith, four)) in
    add_breakpoint-hits addr a bps fits
    ∙ ap (λ room. any_hit bps a || (room && a == addr)) (ground (arith, index))

-- An answer that fits the set of addresses, and the tables after it.
Refines : Command → CmdPkt → Ice → Outcome (Reply × Ice) → Type 0
Refines command pkt ice (ok answer n) =
    ((a : ℕ)
      → any_hit answer.1.code_breakpoints a
        ≡ stops_after command pkt.arg_0 answer.0 (any_hit ice.code_breakpoints) a)
    × Valid answer.1
    × (answer.1.data_breakpoints ≡ ice.data_breakpoints)
Refines command pkt ice hang = Unit
Refines command pkt ice exited = Unit
Refines command pkt ice undefined = Unit
Refines command pkt ice out_of_fuel = Unit

module _ (command : Command) (pkt : CmdPkt) (ice : Ice) (v : Valid ice) where
  and_then-Refines :
      {A : Type 0} (o : Outcome A) (f : A → Reply)
      → ((reply : Reply) (a : ℕ)
          → any_hit ice.code_breakpoints a
            ≡ stops_after command pkt.arg_0 reply (any_hit ice.code_breakpoints) a)
      → Refines command pkt ice (and_then o λ x. pure (f x, ice))
  unfolding Refines pure
  and_then-Refines (ok a n) f leaves = (leaves (f a), v, refl)
  and_then-Refines hang f leaves = tt
  and_then-Refines exited f leaves = tt
  and_then-Refines undefined f leaves = tt
  and_then-Refines out_of_fuel f leaves = tt

module _ (b : Board) (prefixes : ℕ) (pkt : CmdPkt) (ice : Ice) (m : Machine) (v : Valid ice)
    (fits : pkt.arg_0 + 1 < 2 ^ 32) where
  serve-Refines : (command : Command) → Refines command pkt ice (serve b prefixes command pkt ice m)
  unfolding serve Refines add_breakpoint ◌>>=◌
  serve-Refines set_bp = (
    (λ a. set_bp-hits pkt.arg_0 a ice.code_breakpoints v.four fits),
    record {
      four = add_from-length pkt.arg_0 0 ice.code_breakpoints ∙ v.four;
      one_byte = add_from-OneByte pkt.arg_0 0 ice.code_breakpoints fits v.one_byte;
    },
    refl,
  )
  serve-Refines unset_bp = (
    (λ a. remove_breakpoint-hits pkt.arg_0 a ice.code_breakpoints v.one_byte),
    record {
      four = remove-length pkt.arg_0 ice.code_breakpoints ∙ v.four;
      one_byte = remove-OneByte pkt.arg_0 ice.code_breakpoints v.one_byte;
    },
    refl,
  )
  serve-Refines go =
      and_then-Refines go pkt ice v (serve_go b pkt.arg_0 pkt.arg_1 m) (λ u. no_reply)
        (λ reply a. refl)
  serve-Refines break_in =
      and_then-Refines break_in pkt ice v (serve_break b m) (λ reply. reply) (λ reply a. refl)
  serve-Refines trace =
      and_then-Refines trace pkt ice v (serve_trace b prefixes m) (λ reply. reply) (λ reply a. refl)
  serve-Refines dump_memory =
      and_then-Refines dump_memory pkt ice v (serve_dump_memory b pkt.arg_0 pkt.arg_1 m)
        (λ reply. reply) (λ reply a. refl)
  serve-Refines dump_regs = ((λ a. refl), v, refl)
  serve-Refines load_memory = ((λ a. refl), v, refl)
  serve-Refines dump_gdt = ((λ a. refl), v, refl)
  serve-Refines dump_idt = ((λ a. refl), v, refl)
  serve-Refines dump_ldt = ((λ a. refl), v, refl)
  serve-Refines set_wp = ((λ a. refl), v, refl)
  serve-Refines unset_wp = ((λ a. refl), v, refl)
  serve-Refines list_bp = ((λ a. refl), v, refl)
  serve-Refines list_wp = ((λ a. refl), v, refl)
  serve-Refines step_over = ((λ a. refl), v, refl)
  serve-Refines step_out = ((λ a. refl), v, refl)

-- With four entries, each that is on covering one address, a packet below the last address that is
-- served changes the set of addresses that the emulator stops at as its answer says: SET_BP adds its
-- address unless the answer is -1, UNSET_BP takes its address away, any other packet leaves the set
-- alone. The tables stay so, and no packet changes the data breakpoints.
pub serve-stops_after :
    (b : Board) (prefixes : ℕ) (pkt : CmdPkt) (ice ice' : Ice) (reply : Reply) (m n : Machine)
    → Valid ice
    → pkt.arg_0 + 1 < 2 ^ 32
    → serve b prefixes pkt.cmd pkt ice m ≡ ok (reply, ice') n
    → ((a : ℕ)
        → any_hit ice'.code_breakpoints a
          ≡ stops_after pkt.cmd pkt.arg_0 reply (any_hit ice.code_breakpoints) a)
      × Valid ice'
      × (ice'.data_breakpoints ≡ ice.data_breakpoints)
unfolding Refines
serve-stops_after b prefixes pkt ice ice' reply m n v fits serves =
    subst (Refines pkt.cmd pkt ice) serves (serve-Refines b prefixes pkt ice m v fits pkt.cmd)
