-- ===== src/Maverick/Run/Invariant.antt =====
-- Between instructions no override is in force, and the segments keep the mode they started in.
use topgun.Common.{ℕ, zero, suc, ◌≡◌, ◌∙◌, List, [], ◌∷◌, Bool, true, false, if◌then◌else◌, arith}
use topgun.Isa.Codes.{ds}
use topgun.Machine.{Machine, set_eip}
use topgun.Machine.Outcome.{
  Outcome, ok, hang, exited, undefined, out_of_fuel, M, pure, gets, stop, modify, ◌>>=◌, and_then,
}
use topgun.Machine.Board.{Board}
use topgun.Machine.Stable.{WellFormed, Stable, Ends, Keeps, Keeps-modify}
use topgun.Machine.Stable.Writes.{set_eip-Stable}
use topgun.Exec.Keeps.Stack.{i386_push-Keeps}
use topgun.Exec.Stack.{i386_push}
use topgun.Step.{i386_step}
use topgun.Step.Invariant.{Settles, i386_step-Settles}
use topgun.Maverick.Breakpoints.{Breakpoint}
use topgun.Maverick.Run.{
  set_running, ice_step_at, ice_step, run_loop, push_params, enter_subroutine, exec_subroutine,
}

-- The state between two instructions of 16-bit code.
pub record AtRest (m : Machine) : Type 0 where
  pub op_clear : m.op_override ≡ 0
  pub addr_clear : m.addr_override ≡ 0
  pub sgmt_clear : (m.overriding_sgmt ≡ 0) × (m.sgmt_override ≡ ds)
  pub is_16_bit : (i : ℕ) → (m.seg_regs i).flags ≡ 0
  pub fits : WellFormed m

Settles-AtRest : {k : ℕ} {m n : Machine} → Settles k m n → AtRest m → AtRest n
Settles-AtRest s r = record {
  op_clear = ground (arith, s.op_rests, r.op_clear);
  addr_clear = ground (arith, s.addr_rests, r.addr_clear);
  sgmt_clear = ground (arith, s.sgmt_rests, r.sgmt_clear);
  is_16_bit = λ i. s.flags_kept i ∙ r.is_16_bit i;
  fits = s.still_fits r.fits;
}

Stable-AtRest : {m n : Machine} → Stable m n → AtRest m → AtRest n
Stable-AtRest s r = record {
  op_clear = s.same.op_override ∙ r.op_clear;
  addr_clear = s.same.addr_override ∙ r.addr_clear;
  sgmt_clear = (s.same.overriding_sgmt ∙ r.sgmt_clear.0, s.same.sgmt_override ∙ r.sgmt_clear.1);
  is_16_bit = λ i. s.same.flags i ∙ r.is_16_bit i;
  fits = s.fits r.fits;
}

pub set_running-AtRest : (v : ℕ) (m : Machine) → AtRest m → AtRest (set_running v m)
unfolding set_running
set_running-AtRest v m r = record {
  op_clear = r.op_clear;
  addr_clear = r.addr_clear;
  sgmt_clear = r.sgmt_clear;
  is_16_bit = r.is_16_bit;
  fits = ground (arith, r.fits);
}

-- Code that keeps the machine at rest.
pub record Rests {A : Type 0} (x : M A) : Type 0 where
  pub at : (m : Machine) → AtRest m → Ends AtRest (x m)

module _ {A B : Type 0} where
  and_then-Ends :
      (o : Outcome A) (f : A → M B)
      → Ends AtRest o
      → ((a : A) → Rests (f a))
      → Ends AtRest (and_then o f)
  and_then-Ends (ok a n) f p q = (q a).at n p
  and_then-Ends hang f p q = tt
  and_then-Ends exited f p q = tt
  and_then-Ends undefined f p q = tt
  and_then-Ends out_of_fuel f p q = tt

  pub Rests-bind : (x : M A) (f : A → M B) → Rests x → ((a : A) → Rests (f a)) → Rests (x >>= f)
  unfolding ◌>>=◌
  Rests-bind x f p q = record { at = λ m r. and_then-Ends (x m) f (p.at m r) q }

module _ {A : Type 0} where
  pub Rests-pure : (a : A) → Rests (pure a)
  unfolding pure
  Rests-pure a = record { at = λ m r. r }

  pub Rests-gets : (f : Machine → A) → Rests (gets f)
  unfolding gets
  Rests-gets f = record { at = λ m r. r }

  pub Rests-hang : Rests (stop {A = A} hang)
  unfolding stop
  Rests-hang = record { at = λ m r. tt }

  pub Rests-out_of_fuel : Rests (stop {A = A} out_of_fuel)
  unfolding stop
  Rests-out_of_fuel = record { at = λ m r. tt }

  pub Rests-undefined : Rests (stop {A = A} undefined)
  unfolding stop
  Rests-undefined = record { at = λ m r. tt }

  pub Rests-if : (c : Bool) (x y : M A) → Rests x → Rests y → Rests (if c then x else y)
  Rests-if true x y p q = p
  Rests-if false x y p q = q

pub set_running-Rests : (v : ℕ) → Rests (modify (set_running v))
unfolding modify
set_running-Rests v = record { at = λ m r. set_running-AtRest v m r }

pub Keeps-Rests : {A : Type 0} (x : M A) → Keeps x → Rests x
Keeps-Rests x k = record { at = λ m r. go m r (x m) (k.at m) }
  where
    go : {A : Type 0} (m : Machine) → AtRest m → (o : Outcome A) → Ends (Stable m) o → Ends AtRest o
    go m r (ok _ n) s = Stable-AtRest s r
    go m r hang s = tt
    go m r exited s = tt
    go m r undefined s = tt
    go m r out_of_fuel s = tt

pub ruleset flow_rules =
    (Rests-bind, Rests-pure, Rests-gets, Rests-hang, Rests-out_of_fuel, Rests-undefined, Rests-if)

module _ (b : Board) where
  push-Rests : (v : ℕ) → Rests (i386_push b v)
  push-Rests v = Keeps-Rests _ (i386_push-Keeps b v)

  pub enter-Rests : (v : ℕ) → Rests (modify (set_eip v))
  enter-Rests v = Keeps-Rests _ (Keeps-modify (set_eip v) (set_eip-Stable v))

  push_params-Rests : (params : List ℕ) → Rests (push_params b params)
  unfolding push_params
  push_params-Rests [] = search flow_rules
  push_params-Rests (param ∷ params) =
      search (flow_rules, push-Rests, push_params-Rests params) depth 8

  pub enter_subroutine-Rests :
      (target : ℕ) (params : List ℕ) → Rests (enter_subroutine b target params)
  unfolding enter_subroutine
  enter_subroutine-Rests target params =
      search (flow_rules, push-Rests, enter-Rests, push_params-Rests) depth 14

module _ (b : Board) (prefixes : ℕ) where
  pub i386_step-Rests : Rests (i386_step b prefixes)
  i386_step-Rests = record {
    at = λ m r. settle m r (i386_step b prefixes m) (i386_step-Settles b prefixes m);
  }
    where
      settle :
          (m : Machine) → AtRest m → (o : Outcome (Unit {0})) → Ends (Settles 1 m) o → Ends AtRest o
      settle m r (ok _ n) s = Settles-AtRest s r
      settle m r hang s = tt
      settle m r exited s = tt
      settle m r undefined s = tt
      settle m r out_of_fuel s = tt

  ruleset rests_rules = (flow_rules, set_running-Rests, i386_step-Rests)

  module _ (bps : List Breakpoint) where
    pub ice_step_at-Rests : (at : ℕ) → Rests (ice_step_at b bps prefixes at)
    unfolding ice_step_at
    ice_step_at-Rests at = search rests_rules depth 14

    pub ice_step-Rests : Rests (ice_step b bps prefixes)
    unfolding ice_step
    ice_step-Rests = search rests_rules depth 14

    run_loop-Rests : (fuel : ℕ) → Rests (run_loop b bps prefixes fuel)
    unfolding run_loop
    run_loop-Rests zero = search rests_rules
    run_loop-Rests (suc fuel) = Rests-bind _ _ (Rests-gets _) λ done.
        Rests-if done _ _ (Rests-pure tt) (Rests-bind _ _ ice_step-Rests (λ _. run_loop-Rests fuel))

    subroutine-Rests :
        (fuel target : ℕ) (params : List ℕ)
        → Rests (exec_subroutine b bps prefixes fuel target params)
    unfolding exec_subroutine
    subroutine-Rests fuel target params =
        search (rests_rules, enter_subroutine-Rests b, run_loop-Rests) depth 14

    -- A subroutine that is called at rest and returns leaves the machine at rest.
    pub exec_subroutine-AtRest :
        (fuel target : ℕ) (params : List ℕ) (m : Machine)
        → AtRest m
        → Ends AtRest (exec_subroutine b bps prefixes fuel target params m)
    exec_subroutine-AtRest fuel target params m r = (subroutine-Rests fuel target params).at m r
