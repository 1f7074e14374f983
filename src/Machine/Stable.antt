-- ===== src/Machine/Stable.antt =====
-- What every handler leaves alone, and the ranges that every handler keeps: the two halves of the
-- step invariant, with one rule for each way to build a handler.
pub mod Writes
use topgun.Common.{ℕ, ◌^◌, ◌<◌, ◌≡◌, refl, ◌∙◌, Bool, true, false, if◌then◌else◌}
use topgun.Machine.{Machine}
use topgun.Machine.Outcome.{
  Outcome, ok, hang, exited, undefined, out_of_fuel, M, pure, gets, stop, modify, ◌>>=◌, and_then,
}

-- Every register fits its C type.
pub record WellFormed (m : Machine) : Type 0 where
  pub regs_fit : (i : ℕ) → m.regs i < 2 ^ 32
  pub cr_fit : (i : ℕ) → m.cr i < 2 ^ 32
  pub eip_fits : m.eip < 2 ^ 32
  pub old_eip_fits : m.old_eip < 2 ^ 32
  pub eflags_fit : m.eflags < 2 ^ 32
  pub selector_fits : (i : ℕ) → (m.seg_regs i).selector < 2 ^ 16
  pub base_fits : (i : ℕ) → (m.seg_regs i).base < 2 ^ 32

-- The override state is the same, and so are the access bytes and flags of the segments.
pub record SameControl (m m' : Machine) : Type 0 where
  pub op_override : m'.op_override ≡ m.op_override
  pub addr_override : m'.addr_override ≡ m.addr_override
  pub sgmt_override : m'.sgmt_override ≡ m.sgmt_override
  pub overriding_sgmt : m'.overriding_sgmt ≡ m.overriding_sgmt
  pub steps_run : m'.steps_run ≡ m.steps_run
  pub access : (i : ℕ) → (m'.seg_regs i).access ≡ (m.seg_regs i).access
  pub flags : (i : ℕ) → (m'.seg_regs i).flags ≡ (m.seg_regs i).flags

pub record Stable (m m' : Machine) : Type 0 where
  pub same : SameControl m m'
  pub fits : WellFormed m → WellFormed m'

pub Stable-refl : (m : Machine) → Stable m m
Stable-refl m = record {
  same = record {
    op_override = refl;
    addr_override = refl;
    sgmt_override = refl;
    overriding_sgmt = refl;
    steps_run = refl;
    access = λ i. refl;
    flags = λ i. refl;
  };
  fits = λ w. w;
}

pub Stable-trans : {m n k : Machine} → Stable m n → Stable n k → Stable m k
Stable-trans p q = record {
  same = record {
    op_override = q.same.op_override ∙ p.same.op_override;
    addr_override = q.same.addr_override ∙ p.same.addr_override;
    sgmt_override = q.same.sgmt_override ∙ p.same.sgmt_override;
    overriding_sgmt = q.same.overriding_sgmt ∙ p.same.overriding_sgmt;
    steps_run = q.same.steps_run ∙ p.same.steps_run;
    access = λ i. q.same.access i ∙ p.same.access i;
    flags = λ i. q.same.flags i ∙ p.same.flags i;
  };
  fits = λ w. q.fits (p.fits w);
}

-- A relation between the machine before and the one that a run returns, if it returns.
abbrev pub Ends : {A : Type 0} → (Machine → Type 0) → Outcome A → Type 0
Ends P (ok _ m) = P m
Ends P hang = Unit
Ends P exited = Unit
Ends P undefined = Unit
Ends P out_of_fuel = Unit

pub record Keeps {A : Type 0} (x : M A) : Type 0 where
  pub at : (m : Machine) → Ends (Stable m) (x m)

module _ {A : Type 0} where
  pub Keeps-pure : (a : A) → Keeps (pure a)
  unfolding pure
  Keeps-pure a = record { at = Stable-refl }

  pub Keeps-gets : (f : Machine → A) → Keeps (gets f)
  unfolding gets
  Keeps-gets f = record { at = Stable-refl }

  pub Keeps-hang : Keeps (stop {A = A} hang)
  unfolding stop
  Keeps-hang = record { at = λ m. tt }

  pub Keeps-exited : Keeps (stop {A = A} exited)
  unfolding stop
  Keeps-exited = record { at = λ m. tt }

  pub Keeps-undefined : Keeps (stop {A = A} undefined)
  unfolding stop
  Keeps-undefined = record { at = λ m. tt }

  pub Keeps-out_of_fuel : Keeps (stop {A = A} out_of_fuel)
  unfolding stop
  Keeps-out_of_fuel = record { at = λ m. tt }

  pub Keeps-if : (c : Bool) (x y : M A) → Keeps x → Keeps y → Keeps (if c then x else y)
  Keeps-if true x y p q = p
  Keeps-if false x y p q = q

pub Keeps-modify : (f : Machine → Machine) → ((m : Machine) → Stable m (f m)) → Keeps (modify f)
unfolding modify
Keeps-modify f p = record { at = p }

module _ {A B : Type 0} where
  and_then-Ends :
      (m : Machine) (o : Outcome A) (f : A → M B)
      → Ends (Stable m) o
      → ((a : A) → Keeps (f a))
      → Ends (Stable m) (and_then o f)
  and_then-Ends m (ok a n) f p q = through (f a n) ((q a).at n)
    where
      through : (o : Outcome B) → Ends (Stable n) o → Ends (Stable m) o
      through (ok b k) r = Stable-trans p r
      through hang r = tt
      through exited r = tt
      through undefined r = tt
      through out_of_fuel r = tt
  and_then-Ends m hang f p q = tt
  and_then-Ends m exited f p q = tt
  and_then-Ends m undefined f p q = tt
  and_then-Ends m out_of_fuel f p q = tt

  pub Keeps-bind : (x : M A) (f : A → M B) → Keeps x → ((a : A) → Keeps (f a)) → Keeps (x >>= f)
  unfolding ◌>>=◌
  Keeps-bind x f p q = record { at = λ m. and_then-Ends m (x m) f (p.at m) q }

pub ruleset keeps_rules = (
  Keeps-pure, Keeps-gets, Keeps-hang, Keeps-exited, Keeps-undefined, Keeps-out_of_fuel, Keeps-if,
  Keeps-bind, Keeps-modify,
)
