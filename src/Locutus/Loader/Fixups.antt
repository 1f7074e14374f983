-- ===== src/Locutus/Loader/Fixups.antt =====
-- Every fixup record ends past its place, so that the loop over them ends.
use topgun.Common.{
  ℕ, zero, suc, ◌+◌, ◌-◌, ◌*◌, ◌%◌, ◌<◌, ◌≤◌, ◌≡◌, refl, ◌∙◌, Bool, Bool-cases, inl, inr, ◌==◌, not,
  ltb, ltb-false, if◌then◌else◌, arith,
}
use topgun.Locutus.State.{
  Os2, Run, done, hang, exited, undefined, out_of_fuel, Os2M, pure, ◌>>=◌, and_then,
}
use topgun.Locutus.Thunks.{get_module_proc_addr_by_ordinal}
use topgun.Locutus.Loader.{
  Image, has_flag, next_8, next_16, next_32, internal_value, import_value, target_value,
  final_value, fix_at, fix_list, fix_record, fix_records,
}
use topgun.Locutus.Loader.Reads.{
  Finishes, From, From-bind, From-pure, From-undefined, From-exited, From-if, From-mono, From-any,
  Same, Past, read_32-From, next_8-From, next_16-From, next_32-From,
}

-- Only the place.
abbrev Beyond : ℕ → ℕ × ℕ → Os2 → Type 0
Beyond pos r t = pos < r.1

module _ (img : Image) where
  wide_field-Past :
      (wide : Bool) (pos : ℕ) (s : Os2)
      → From s (Past pos s) (if wide then next_16 img pos else next_8 img pos)
  wide_field-Past wide pos s =
      From-if _ wide _ _ (λ on. next_16-From img pos s) (λ off. next_8-From img pos s)

  long_field-Past :
      (wide : Bool) (pos : ℕ) (s : Os2)
      → From s (Past pos s) (if wide then next_32 img pos else next_16 img pos)
  long_field-Past wide pos s =
      From-if _ wide _ _ (λ on. next_32-From img pos s) (λ off. next_16-From img pos s)

  -- The value of an internal fixup is 0.
  pub internal_value-Past :
      (kind flags pos : ℕ) (s : Os2)
      → From s (λ r t. (r.0 ≡ 0) × Past pos s r t) (internal_value img kind flags pos)
  unfolding internal_value
  internal_value-Past kind flags pos s =
      From-bind _ _ _ (wide_field-Past (has_flag flags 6) pos s) λ id t first.
        From-bind {P = λ r u. (pos < r.1) × (u ≡ t)} _ _ _
          (From-if _ (kind == 2) _ _ (λ on. From-pure _ _ (first.0, refl))
            (λ off.
              From-mono _ _ (long_field-Past (has_flag flags 4) id.1 t)
                (λ r u past. (omega (arith, first.0, past.0), past.1))))
          λ target u second.
            From-bind _ _ _ (read_32-From img (img.header + 64) u) λ object_table v third.
              From-bind _ _ _
                (From-if _ (ltb (img.header + object_table + 24 * id.0 + 4) 24) _ _
                  (λ on. From-undefined (Same v))
                  (λ off. read_32-From img (img.header + object_table + 24 * id.0 + 4 - 24) v))
                λ base w fourth.
                  From-pure _ _ (refl, (second.0, fourth ∙ third ∙ second.1 ∙ first.1))

  module _ (fuel : ℕ) where
    import_value-Beyond :
        (flags pos : ℕ) (s : Os2) → From s (Beyond pos) (import_value img fuel flags pos)
    unfolding import_value
    import_value-Beyond flags pos s =
        From-bind _ _ _ (wide_field-Past (has_flag flags 6) pos s) λ id t first.
          From-bind _ _ _
            (From-if _ (has_flag flags 7) _ _ (λ on. next_8-From img id.1 t)
              (λ off. long_field-Past (has_flag flags 4) id.1 t))
            λ ordinal u second.
              From-bind _ _ _ (From-any u (get_module_proc_addr_by_ordinal fuel id.0 ordinal.0))
                λ addr v any. From-pure _ _ (omega (arith, first.0, second.0))

    target_value-Beyond :
        (kind flags pos : ℕ) (s : Os2) → From s (Beyond pos) (target_value img fuel kind flags pos)
    unfolding target_value
    target_value-Beyond kind flags pos s =
        From-if _ (flags % 4 == 0) _ _
          (λ on. From-mono _ _ (internal_value-Past kind flags pos s) (λ r t past. past.1.0))
          (λ off.
            From-if _ (flags % 4 == 1) _ _ (λ on. import_value-Beyond flags pos s)
              (λ off. From-exited _))

    additive-Past :
        (flags pos : ℕ) (s : Os2)
        → From s
            (λ r t. (pos ≤ r.1) × (t ≡ s))
            (if not (has_flag flags 2)
              then pure (0, pos)
              else if has_flag flags 5
              then next_32 img pos
              else next_16 img pos)
    additive-Past flags pos s =
        From-if _ (not (has_flag flags 2)) _ _ (λ none. From-pure _ _ (omega arith, refl))
          (λ some.
            From-mono _ _ (long_field-Past (has_flag flags 5) pos s)
              (λ r t past. (omega (arith, past.0), past.1)))

    final_value-Beyond :
        (kind flags pos : ℕ) (s : Os2) → From s (Beyond pos) (final_value img fuel kind flags pos)
    unfolding final_value
    final_value-Beyond kind flags pos s =
        From-bind _ _ _ (target_value-Beyond kind flags pos s) λ value t first.
          From-bind _ _ _ (additive-Past flags value.1 t)
            λ additive u second. From-pure _ _ (omega (arith, first, second.0))

    fix_list-beyond :
        (n p_dst kind value pos : ℕ) (s : Os2)
        → From s (λ r t. pos ≤ r) (fix_list img n p_dst kind value pos)
    unfolding fix_list
    fix_list-beyond zero p_dst kind value pos s = From-pure _ _ (omega arith)
    fix_list-beyond (suc n) p_dst kind value pos s =
        From-bind _ _ _ (next_16-From img pos s) λ offset t first.
          From-bind _ _ _ (From-any t (fix_at p_dst kind value offset.0)) λ u v any.
            From-mono _ _ (fix_list-beyond n p_dst kind value offset.1 v)
              (λ r t past. omega (arith, first.0, past))

    -- A record ends past its place.
    pub fix_record-beyond :
        (p_dst pos : ℕ) (s : Os2) → From s (λ r t. pos < r) (fix_record img fuel p_dst pos)
    unfolding fix_record
    fix_record-beyond p_dst pos s = From-bind _ _ _ (next_8-From img pos s) λ type t first.
        From-bind _ _ _ (next_8-From img type.1 t) λ flags u second.
          From-bind _ _ _
            (From-if _ (has_flag (type.0) 5) _ _ (λ on. next_8-From img flags.1 u)
              (λ off. next_16-From img flags.1 u))
            λ source v third.
              From-bind _ _ _ (final_value-Beyond (type.0 % 16) flags.0 source.1 v)
                λ value w fourth.
                  From-if _ (has_flag (type.0) 5) _ _
                    (λ on.
                      From-mono _ _ (fix_list-beyond source.0 p_dst (type.0 % 16) value.0 value.1 w)
                        (λ r t past. omega (arith, first.0, second.0, third.0, fourth, past)))
                    (λ off.
                      From-bind _ _ _ (From-any w (fix_at p_dst (type.0 % 16) value.0 source.0))
                        λ u x any.
                          From-pure _ _ (omega (arith, first.0, second.0, third.0, fourth)))

-- The loop over the records of a page as a relation, with no bound on the rounds: it is at the end
-- of the page, or does a record and goes on from the place after it, or a record ends the program.
pub data Loops (img : Image) (fuel p_dst end : ℕ) : ℕ → Os2 → Run (Unit {0}) → Type 0 where
  at_end : {pos : ℕ} {s : Os2} → end ≤ pos → Loops img fuel p_dst end pos s (done tt s)
  next_record :
      {pos next : ℕ} {s t : Os2} {r : Run (Unit {0})}
      → pos < end
      → fix_record img fuel p_dst pos s ≡ done next t
      → Loops img fuel p_dst end next t r
      → Loops img fuel p_dst end pos s r
  hung :
      {pos : ℕ} {s : Os2}
      → pos < end
      → fix_record img fuel p_dst pos s ≡ hang
      → Loops img fuel p_dst end pos s hang
  left :
      {pos : ℕ} {s : Os2}
      → pos < end
      → fix_record img fuel p_dst pos s ≡ exited
      → Loops img fuel p_dst end pos s exited
  broken :
      {pos : ℕ} {s : Os2}
      → pos < end
      → fix_record img fuel p_dst pos s ≡ undefined
      → Loops img fuel p_dst end pos s undefined
  searched :
      {pos : ℕ} {s : Os2}
      → pos < end
      → fix_record img fuel p_dst pos s ≡ out_of_fuel
      → Loops img fuel p_dst end pos s out_of_fuel

module _ (img : Image) (fuel p_dst end : ℕ) where
  -- What one record comes to, and the loop after it.
  after_record :
      (pos : ℕ) (s : Os2) (r : Run ℕ) (rest : ℕ → Os2M (Unit {0}))
      → pos < end
      → fix_record img fuel p_dst pos s ≡ r
      → Finishes (λ next t. pos < next) r
      → ((next : ℕ) (t : Os2) → pos < next → Loops img fuel p_dst end next t (rest next t))
      → Loops img fuel p_dst end pos s (and_then r rest)
  after_record pos s (done next t) rest more same beyond all =
      next_record more same (all next t beyond)
  after_record pos s hang rest more same beyond all = hung more same
  after_record pos s exited rest more same beyond all = left more same
  after_record pos s undefined rest more same beyond all = broken more same
  after_record pos s out_of_fuel rest more same beyond all = searched more same

  -- The loop over the records of a page ends, with as much fuel as there are bytes left: what it
  -- returns is what the loop without a bound comes to. It runs out only where the search for a page
  -- for a thunk does, inside a record.
  pub fix_records-Loops :
      (n pos : ℕ) (s : Os2)
      → end ≤ pos + n
      → Loops img fuel p_dst end pos s (fix_records img fuel n p_dst pos end s)
  unfolding fix_records ◌>>=◌
  fix_records-Loops zero pos s enough =
      rw (ltb-false {a = pos} {b = end} (omega (arith, enough))) (at_end (omega (arith, enough)))
  fix_records-Loops (suc n) pos s enough = elim (Bool-cases (ltb pos end)) [
    | inl more ↦ rw more (
        after_record pos s (fix_record img fuel p_dst pos s)
          (λ next. fix_records img fuel n p_dst next end) (ground (arith, more)) refl
          ((fix_record-beyond img fuel p_dst pos s).ends)
          (λ next t beyond. fix_records-Loops n next t (omega (arith, enough, beyond))))
    | inr past ↦ rw past (at_end (ground (arith, past)))
  ]
