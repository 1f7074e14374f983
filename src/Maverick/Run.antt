-- ===== src/Maverick/Run.antt =====
-- `ice_step` and `Exec386Subroutine_Near32` of `maverick/main.c`. `single_step` is never set, and
-- `ice_step` returns before it looks at `ice_running`, so the two live paths are the breakpoint and
-- the plain step. The debugger's thread may set `running` meanwhile; here it does not, and
-- `while(!(pCPU->running));` hangs.
pub mod Invariant
pub mod Reach
use topgun.Common.{ℕ, zero, suc, ◌+◌, ◌≡◌, List, [], ◌∷◌, Bool, ◌==◌, if◌then◌else◌, u32}
use mathlib.Core.Option.{Option, none, some}
use topgun.Isa.Codes.{cs, r_eax}
use topgun.Machine.{Machine, set_eip}
use topgun.Machine.Outcome.{M, hang, out_of_fuel, pure, gets, stop, modify, ◌>>=◌, ◌>>◌}
use topgun.Machine.Board.{Board}
use topgun.Exec.Stack.{i386_push}
use topgun.Step.{i386_step}
use topgun.Maverick.Breakpoints.{Breakpoint, any_hit}

abbrev pub escape_address : ℕ
escape_address = 0xbeef

-- `brk_resp`, which goes to the debugger's pipe.
pub record BrkResp : Type 0 where
  pub cs_selector : ℕ
  pub ip : ℕ

unfoldable pub set_running : ℕ → Machine → Machine
set_running v m = record m { cpu = record (m.cpu) { running = v } }

-- `linaddr`.
abbrev pub linaddr : Machine → ℕ
linaddr m = u32 ((m.seg_regs cs).base + m.eip)

abbrev pub brk_resp : Machine → BrkResp
brk_resp m = record { cs_selector = (m.seg_regs cs).selector; ip = m.eip }

module _ (b : Board) where
  -- The parameters are pushed from the last to the first.
  unfoldable pub push_params : List ℕ → M (Unit {0})
  push_params [] = pure tt
  push_params (param ∷ params) = do push_params params; i386_push b param

  -- What comes before the loop: the call's frame, and EIP.
  unfoldable pub enter_subroutine : ℕ → List ℕ → M (Unit {0})
  enter_subroutine target params = do
    push_params params
    i386_push b escape_address
    modify (set_eip target)

module _ (b : Board) (bps : List Breakpoint) (prefixes : ℕ) where
  -- `ice_step` from its waiting loop on, `at` being the `linaddr` computed before it: the report on a
  -- breakpoint, or a step. `prefixes` is the fuel of `i386_step`.
  unfoldable pub ice_step_at : ℕ → M (Option BrkResp)
  ice_step_at at = do
    stopped ← gets (λ m. m.running == 0)
    if stopped
        then stop hang
        else if any_hit bps at
        then (do csip ← gets brk_resp; modify (set_running 0); pure (some csip))
        else (do i386_step b prefixes; pure none)

  unfoldable pub ice_step : M (Option BrkResp)
  unfolding ice_step_at
  ice_step = do at ← gets linaddr; ice_step_at at

  -- The loop of `Exec386Subroutine_Near32`, with fuel: a program need not end.
  unfoldable pub run_loop : ℕ → M (Unit {0})
  run_loop zero = stop out_of_fuel
  run_loop (suc fuel) = do
    done ← gets (λ m. m.eip == escape_address)
    if done then pure tt else (do ice_step; run_loop fuel)

  unfoldable pub exec_subroutine : ℕ → ℕ → List ℕ → M ℕ
  exec_subroutine fuel target params = do
    enter_subroutine b target params
    run_loop fuel
    gets (λ m. m.regs r_eax)
