-- ===== src/Maverick/Breakpoints.antt =====
-- The code breakpoints of the debugger in `maverick/main.c`: `AddBreakpoint`, `RemoveBreakpoint`
-- and the test that `ice_step` makes of the four of them before each instruction.
pub mod Laws
use topgun.Common.{
  ℕ, suc, ◌+◌, ◌<◌, ◌≡◌, refl, ◌∙◌, ap, List, [], ◌∷◌, Bool, true, false, not, ◌&&◌, ◌||◌,
  if◌then◌else◌, ◌==◌, leb, ltb, u32, arith,
}
use mathlib.Core.Option.{Option, none, some}

-- `breakpoint` of `common/cmd.h`.
pub record Breakpoint : Type 0 where
  pub address : ℕ
  pub end : ℕ
  pub enabled : ℕ

-- `IN_BP`.
unfoldable pub in_bp : Breakpoint → ℕ → Bool
in_bp bp addr = not (bp.enabled == 0) && leb bp.address addr && ltb addr bp.end

-- The condition of `ice_step`, on all the entries of the array.
unfoldable pub any_hit : List Breakpoint → ℕ → Bool
any_hit [] addr = false
any_hit (bp ∷ bps) addr = in_bp bp addr || any_hit bps addr

-- `RemoveBreakpoint`: every entry at the address is switched off.
unfoldable pub remove_breakpoint : ℕ → List Breakpoint → List Breakpoint
remove_breakpoint addr [] = []
remove_breakpoint addr (bp ∷ bps) =
    (if bp.address == addr then record bp { enabled = 0 } else bp) ∷ remove_breakpoint addr bps

-- The loop of `AddBreakpoint` from index `i` on: the array, and the index or `none` for -1.
unfoldable pub add_from : ℕ → ℕ → List Breakpoint → List Breakpoint × Option ℕ
add_from i addr [] = ([], none)
add_from i addr (bp ∷ bps) =
    let rest = add_from (suc i) addr bps in
    if bp.enabled == 0
    then (record { address = addr; end = u32 (addr + 1); enabled = 1 } ∷ bps, some i)
    else (bp ∷ rest.0, rest.1)

unfoldable pub add_breakpoint : ℕ → List Breakpoint → List Breakpoint × Option ℕ
add_breakpoint = add_from 0
