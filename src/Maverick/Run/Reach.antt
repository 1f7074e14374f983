-- ===== src/Maverick/Run/Reach.antt =====
-- The states that the emulator reaches between calls of `ice_step`.
use topgun.Common.{ℕ, ◌≡◌, refl, List, [], arith}
use mathlib.Core.Path.{subst}
use mathlib.Core.Option.{Option}
use topgun.Machine.{Machine}
use topgun.Machine.Outcome.{ok}
use topgun.Machine.Board.{Board}
use topgun.Machine.Stable.{Ends}
use topgun.Maverick.{init_386, start_machine}
use topgun.Maverick.Breakpoints.{Breakpoint}
use topgun.Maverick.Run.{BrkResp, ice_step, enter_subroutine}
use topgun.Maverick.Run.Invariant.{AtRest, ice_step-Rests, enter_subroutine-Rests}

-- The states of a program loaded by `main`: the one in which the loop begins, and those after any
-- number of calls that return, with any breakpoints in each.
pub data Reaches (b : Board) (prefixes : ℕ) (program keys : List ℕ) : Machine → Type 0 where
  entered :
      {m : Machine}
      → enter_subroutine b 0x100 [] (start_machine program keys) ≡ ok tt m
      → Reaches b prefixes program keys m
  called :
      {m n : Machine} (bps : List Breakpoint) (report : Option BrkResp)
      → Reaches b prefixes program keys m
      → ice_step b bps prefixes m ≡ ok report n
      → Reaches b prefixes program keys n

pub start-AtRest : (program keys : List ℕ) → AtRest (start_machine program keys)
unfolding start_machine init_386
start-AtRest program keys = record {
  op_clear = refl;
  addr_clear = refl;
  sgmt_clear = (refl, refl);
  is_16_bit = λ i. refl;
  fits = record {
    regs_fit = λ i. ground arith;
    cr_fit = λ i. omega arith;
    eip_fits = omega arith;
    old_eip_fits = omega arith;
    eflags_fit = omega arith;
    selector_fits = λ i. omega arith;
    base_fits = λ i. omega arith;
  };
}

-- Whatever the program, the keys and the breakpoints, after any number of calls of `ice_step` that
-- return no override is in force, every segment is in 16-bit mode and every register fits its type.
pub Reaches-AtRest :
    (b : Board) (prefixes : ℕ) (program keys : List ℕ) (n : Machine)
    → Reaches b prefixes program keys n
    → AtRest n
Reaches-AtRest b prefixes program keys n (entered starts) = subst (Ends AtRest) starts (
    (enter_subroutine-Rests b 0x100 []).at (start_machine program keys) (start-AtRest program keys))
Reaches-AtRest b prefixes program keys n (called {m} bps report reached runs) =
    subst (Ends AtRest) runs
      ((ice_step-Rests b prefixes bps).at m (Reaches-AtRest b prefixes program keys m reached))
