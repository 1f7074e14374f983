-- ===== src/Maverick/Debugger/Stops.antt =====
-- The debugger's packets and the emulator's loop together: where the emulator stops.
use topgun.Common.{
  ℕ, ◌+◌, ◌^◌, ◌<◌, ◌≡◌, ◌≢◌, refl, ◌∙◌, ap, true, false, ◌==◌, if◌then◌else◌, arith,
}
use mathlib.Core.Path.{subst}
use mathlib.Core.Option.{some}
use topgun.Machine.{Machine, set_eip}
use topgun.Machine.Outcome.{
  Outcome, ok, hang, exited, undefined, out_of_fuel, M, pure, modify, ◌>>=◌, and_then,
}
use topgun.Machine.Board.{Board}
use topgun.Machine.Stable.{Ends}
use topgun.Exec.Moves.{load_seg_reg}
use topgun.Maverick.Breakpoints.{any_hit, add_breakpoint}
use topgun.Maverick.Breakpoints.Laws.{has_room, add_breakpoint-hits}
use topgun.Maverick.Run.{brk_resp, linaddr, set_running, ice_step_at, ice_step}
use topgun.Maverick.Debugger.{
  Ice, CmdPkt, Reply, no_reply, index_reply, index_of, set_bp, go, minus_one, serve, serve_go,
  cs_operand,
}

module _ (b : Board) (prefixes : ℕ) where
  -- A hit, on a machine that runs.
  ice_step_at-hit :
      (ice : Ice) (at : ℕ) (m : Machine)
      → m.running ≢ 0
      → any_hit ice.code_breakpoints at ≡ true
      → ice_step_at b ice.code_breakpoints prefixes at m ≡ ok (some (brk_resp m)) (set_running 0 m)
  unfolding ice_step_at ◌>>=◌
  ice_step_at-hit ice at m runs hit =
      let not_stopped : (m.running == 0) ≡ false = ground (arith, runs) in
      rw (not_stopped, hit) refl

  -- A breakpoint set at the linear address of CS:EIP, while an entry is free and the address is not
  -- the last, is answered and leaves the machine alone, and a machine that runs then stops at the
  -- next call of `ice_step`, with CS and EIP reported and nothing executed.
  pub set_bp-stops :
      (pkt : CmdPkt) (ice : Ice) (m : Machine)
      → m.running ≢ 0
      → pkt.arg_0 ≡ linaddr m
      → linaddr m + 1 < 2 ^ 32
      → has_room ice.code_breakpoints ≡ true
      → (reply : Reply) × (ice' : Ice) × (serve b prefixes set_bp pkt ice m ≡ ok (reply, ice') m)
        × (ice_step b ice'.code_breakpoints prefixes m ≡ ok (some (brk_resp m)) (set_running 0 m))
  unfolding serve ice_step ◌>>=◌
  set_bp-stops pkt ice m runs here fits room =
      let added = add_breakpoint pkt.arg_0 ice.code_breakpoints in
      (
        index_reply (index_of added.1),
        record ice { code_breakpoints = added.0 },
        refl,
        ice_step_at-hit (record ice { code_breakpoints = added.0 }) (linaddr m) m runs
            (rw here (
              add_breakpoint-hits (linaddr m) (linaddr m) ice.code_breakpoints fits
              ∙ ground (arith, room))),
      )

  -- After `GO` returns, `running` is 1 and the breakpoints are as they were.
  abbrev Going : Ice → Outcome (Reply × Ice) → Type 0
  Going ice (ok answer n) = (answer.1 ≡ ice) × (n.running ≡ 1)
  Going ice hang = Unit
  Going ice exited = Unit
  Going ice undefined = Unit
  Going ice out_of_fuel = Unit

  after_any :
      {A B : Type 0} (P : Machine → Type 0) (o : Outcome A) (f : A → M B)
      → ((a : A) (n : Machine) → Ends P (f a n))
      → Ends P (and_then o f)
  after_any P (ok a n) f next = next a n
  after_any P hang f next = tt
  after_any P exited f next = tt
  after_any P undefined f next = tt
  after_any P out_of_fuel f next = tt

  serve_go-runs :
      (segment offset : ℕ) (m : Machine) → Ends (λ n. n.running ≡ 1) (serve_go b segment offset m)
  unfolding serve_go set_running ◌>>=◌
  serve_go-runs segment offset m =
      after_any _ ((if segment == minus_one then pure tt else load_seg_reg b cs_operand segment) m)
        _
        λ u n.
          after_any _ ((if offset == minus_one then pure tt else modify (set_eip offset)) n) _
            λ u k. refl

  and_then-Going :
      (ice : Ice) (o : Outcome (Unit {0}))
      → Ends (λ n. n.running ≡ 1) o
      → Going ice (and_then o λ done. pure (no_reply, ice))
  unfolding pure
  and_then-Going ice (ok u n) runs = (refl, runs)
  and_then-Going ice hang runs = tt
  and_then-Going ice exited runs = tt
  and_then-Going ice undefined runs = tt
  and_then-Going ice out_of_fuel runs = tt

  serve_go-Going :
      (pkt : CmdPkt) (ice : Ice) (m : Machine) → Going ice (serve b prefixes go pkt ice m)
  unfolding serve ◌>>=◌
  serve_go-Going pkt ice m =
      and_then-Going ice (serve_go b pkt.arg_0 pkt.arg_1 m) (serve_go-runs pkt.arg_0 pkt.arg_1 m)

  -- GO, with any segment and offset, does not get a machine that waits at a breakpoint past it: the
  -- loop has computed the address before it waits, and stops again with nothing executed.
  pub go-stops_again :
      (pkt : CmdPkt) (ice ice' : Ice) (at : ℕ) (reply : Reply) (m n : Machine)
      → any_hit ice.code_breakpoints at ≡ true
      → serve b prefixes go pkt ice m ≡ ok (reply, ice') n
      → ice_step_at b ice'.code_breakpoints prefixes at n ≡ ok (some (brk_resp n)) (set_running 0 n)
  go-stops_again pkt ice ice' at reply m n hit goes =
      let going : Going ice (ok (reply, ice') n) =
        subst (Going ice) goes (serve_go-Going pkt ice m) in
      ice_step_at-hit ice' at n (λ stopped. omega (arith, going.1, stopped))
        (ap (λ ice. any_hit ice.code_breakpoints at) going.0 ∙ hit)
