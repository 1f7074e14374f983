-- ===== src/Step/Invariant.antt =====
-- What one call of `i386_step` does to the override state, the step count and the ranges of the
-- registers, prefixes included.
use topgun.Common.{ℕ, zero, suc, ◌+◌, ◌<◌, ◌≡◌, ◌⊎◌, ◌∙◌, inl, arith}
use topgun.Isa.{
  Op, OpType, lock, op_sz_override, addr_sz_override, segment_override, extended, repez, repne,
}
use topgun.Isa.Codes.{ds}
use topgun.Isa.Table.{instruction_table}
use topgun.Machine.{Machine}
use topgun.Machine.Outcome.{
  Outcome, ok, hang, exited, undefined, out_of_fuel, M, stop, ◌>>=◌, and_then,
}
use topgun.Machine.Board.{Board}
use topgun.Machine.Stable.{WellFormed, Stable, Ends, Keeps-bind}
use topgun.Decode.Fetch.{fetch_8}
use topgun.Decode.Keeps.{fetch_8-Keeps}
use topgun.Step.{
  count_step, uncount_step, set_op_override, set_addr_override, set_sgmt_override, complete,
  dispatch, step_with, i386_step,
}
use topgun.Step.Keeps.{complete-Keeps}

-- Each override is as before or cleared, `counted` steps were added, segments kept their access
-- bytes and flags, and registers that fitted their types still do.
pub record Settles (counted : ℕ) (m m' : Machine) : Type 0 where
  pub op_rests : (m'.op_override ≡ m.op_override) ⊎ (m'.op_override ≡ 0)
  pub addr_rests : (m'.addr_override ≡ m.addr_override) ⊎ (m'.addr_override ≡ 0)
  pub sgmt_rests :
      ((m'.overriding_sgmt ≡ m.overriding_sgmt) × (m'.sgmt_override ≡ m.sgmt_override))
      ⊎ ((m'.overriding_sgmt ≡ 0) × (m'.sgmt_override ≡ ds))
  pub steps : m'.steps_run ≡ m.steps_run + counted
  pub access_kept : (i : ℕ) → (m'.seg_regs i).access ≡ (m.seg_regs i).access
  pub flags_kept : (i : ℕ) → (m'.seg_regs i).flags ≡ (m.seg_regs i).flags
  pub still_fits : WellFormed m → WellFormed m'

Stable-Settles : {m m' : Machine} → Stable m m' → Settles 0 m m'
Stable-Settles s = record {
  op_rests = inl s.same.op_override;
  addr_rests = inl s.same.addr_override;
  sgmt_rests = inl (s.same.overriding_sgmt, s.same.sgmt_override);
  steps = ground (arith, s.same.steps_run);
  access_kept = s.same.access;
  flags_kept = s.same.flags;
  still_fits = s.fits;
}

module _ {A B : Type 0} where
  Ends-bind :
      {P : Machine → Type 0} (Q : Machine → Type 0) (o : Outcome A) (f : A → M B)
      → Ends P o
      → ((a : A) (n : Machine) → P n → Ends Q (f a n))
      → Ends Q (and_then o f)
  Ends-bind Q (ok a n) f p q = q a n p
  Ends-bind Q hang f p q = tt
  Ends-bind Q exited f p q = tt
  Ends-bind Q undefined f p q = tt
  Ends-bind Q out_of_fuel f p q = tt

Ends-mono :
    {A : Type 0} {P : Machine → Type 0} (Q : Machine → Type 0) (o : Outcome A)
    → Ends P o
    → ((n : Machine) → P n → Q n)
    → Ends Q o
Ends-mono Q (ok a n) p q = q n p
Ends-mono Q hang p q = tt
Ends-mono Q exited p q = tt
Ends-mono Q undefined p q = tt
Ends-mono Q out_of_fuel p q = tt

module _ (m n : Machine) where
  lock-Settles : 0 < m.steps_run → Settles 1 (uncount_step m) n → Settles 0 m n
  unfolding uncount_step
  lock-Settles pos s = record {
    op_rests = s.op_rests;
    addr_rests = s.addr_rests;
    sgmt_rests = s.sgmt_rests;
    steps = omega (arith, s.steps);
    access_kept = s.access_kept;
    flags_kept = s.flags_kept;
    still_fits = λ w. s.still_fits (ground (arith, w));
  }

  op_sz-Settles :
      Settles 1 (set_op_override 1 m) n → Settles 0 m (uncount_step (set_op_override 0 n))
  unfolding uncount_step set_op_override
  op_sz-Settles s = record {
    op_rests = ground arith;
    addr_rests = s.addr_rests;
    sgmt_rests = s.sgmt_rests;
    steps = omega (arith, s.steps);
    access_kept = s.access_kept;
    flags_kept = s.flags_kept;
    still_fits = λ w. ground (arith, s.still_fits (ground (arith, w)));
  }

  addr_sz-Settles :
      Settles 1 (set_addr_override 1 m) n → Settles 0 m (uncount_step (set_addr_override 0 n))
  unfolding uncount_step set_addr_override
  addr_sz-Settles s = record {
    op_rests = s.op_rests;
    addr_rests = ground arith;
    sgmt_rests = s.sgmt_rests;
    steps = omega (arith, s.steps);
    access_kept = s.access_kept;
    flags_kept = s.flags_kept;
    still_fits = λ w. ground (arith, s.still_fits (ground (arith, w)));
  }

  segment-Settles :
      (sr : ℕ)
      → Settles 1 (set_sgmt_override 1 sr m) n
      → Settles 0 m (uncount_step (set_sgmt_override 0 ds n))
  unfolding uncount_step set_sgmt_override
  segment-Settles sr s = record {
    op_rests = s.op_rests;
    addr_rests = s.addr_rests;
    sgmt_rests = ground arith;
    steps = omega (arith, s.steps);
    access_kept = s.access_kept;
    flags_kept = s.flags_kept;
    still_fits = λ w. ground (arith, s.still_fits (ground (arith, w)));
  }

  counted-Settles : {k : Machine} → Stable m n → Settles 0 (count_step n) k → Settles 1 m k
  unfolding count_step
  counted-Settles p s = record {
    op_rests = ground (arith, p.same.op_override, s.op_rests);
    addr_rests = ground (arith, p.same.addr_override, s.addr_rests);
    sgmt_rests = ground (arith, p.same.sgmt_override, p.same.overriding_sgmt, s.sgmt_rests);
    steps = omega (arith, s.steps, p.same.steps_run);
    access_kept = λ i. s.access_kept i ∙ p.same.access i;
    flags_kept = λ i. s.flags_kept i ∙ p.same.flags i;
    still_fits = λ w. s.still_fits (ground (arith, p.fits w));
  }

module _ (b : Board) where
  complete-Settles : (row : Op) (m : Machine) → Ends (Settles 0 m) (complete b row m)
  complete-Settles row m =
      Ends-mono _ (complete b row m) ((complete-Keeps b row).at m) (λ n p. Stable-Settles p)

  rest-Settles :
      (row : ℕ → Op) (m : Machine)
      → Ends (Settles 0 m) ((fetch_8 b >>= λ byte. complete b (row byte)) m)
  rest-Settles row m =
      Ends-mono _ _ ((Keeps-bind _ _ (fetch_8-Keeps b) (λ byte. complete-Keeps b (row byte))).at m)
        (λ n p. Stable-Settles p)

  module _ (again : M (Unit {0})) (ih : (m : Machine) → Ends (Settles 1 m) (again m)) where
    dispatch-Settles :
        (t : OpType) (inst : Op) (m : Machine)
        → 0 < m.steps_run
        → Ends (Settles 0 m) (dispatch b again t inst m)
    unfolding dispatch ◌>>=◌
    dispatch-Settles lock inst m pos =
        Ends-mono _ (again (uncount_step m)) (ih _) (λ n s. lock-Settles m n pos s)
    dispatch-Settles op_sz_override inst m pos =
        Ends-bind _ (again (set_op_override 1 m)) _ (ih _) (λ _ n s. op_sz-Settles m n s)
    dispatch-Settles addr_sz_override inst m pos =
        Ends-bind _ (again (set_addr_override 1 m)) _ (ih _) (λ _ n s. addr_sz-Settles m n s)
    dispatch-Settles segment_override inst m pos =
        Ends-bind _ (again (set_sgmt_override 1 inst.sub_type m)) _ (ih _)
          (λ _ n s. segment-Settles m n inst.sub_type s)
    dispatch-Settles extended inst m pos = rest-Settles _ m
    dispatch-Settles repez inst m pos = rest-Settles _ m
    dispatch-Settles repne inst m pos = rest-Settles _ m
    dispatch-Settles _ inst m pos = complete-Settles inst m

    step_with-Settles : (m : Machine) → Ends (Settles 1 m) (step_with b again m)
    unfolding step_with ◌>>=◌
    step_with-Settles m = Ends-bind _ (fetch_8 b m) _ ((fetch_8-Keeps b).at m) λ byte n p.
        Ends-mono _
          (dispatch b again (instruction_table byte).op_type (instruction_table byte)
            (count_step n))
          (dispatch-Settles _ _ (count_step n) (counted_pos n)) (λ k s. counted-Settles m n p s)
      where
        counted_pos : (n : Machine) → 0 < (count_step n).steps_run
        counted_pos n = unfold count_step in omega arith

  -- One call of `i386_step` that returns, whatever prefixes it went through, adds one to the step
  -- count, leaves each override as it was or cleared, keeps the access bytes and flags (and so the
  -- 16- or 32-bit mode) of every segment, and keeps every register within its C type.
  pub i386_step-Settles : (fuel : ℕ) (m : Machine) → Ends (Settles 1 m) (i386_step b fuel m)
  unfolding i386_step stop
  i386_step-Settles zero m = tt
  i386_step-Settles (suc fuel) m = step_with-Settles (i386_step b fuel) (i386_step-Settles fuel) m
