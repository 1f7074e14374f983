-- ===== src/Locutus/Loader/Internal.antt =====
-- What the fixup records of internal references do.
use topgun.Common.{
  ℕ, zero, suc, ◌+◌, ◌%◌, ◌<◌, ◌≡◌, ◌≢◌, refl, ◌∙◌, ap, true, false, ◌==◌, ltb, ==-true, ==-false,
  u8, arith,
}
use topgun.Locutus.State.{Os2, done}
use topgun.Locutus.Loader.{
  Image, read_8, do_fixup, has_flag, next_8, target_value, final_value, fix_at, fix_list,
  fix_record,
}
use topgun.Locutus.Loader.Reads.{
  From, From-bind, From-pure, From-undefined, From-if, From-mono, Same, next_8-From, next_16-From,
}
use topgun.Locutus.Loader.Fixups.{fix_record-beyond, internal_value-Past}

module _ (img : Image) where
  next_8-value :
      (pos : ℕ) (s : Os2)
      → From s (λ r t. (r.0 ≡ u8 (img.bytes pos)) × (r.1 ≡ pos + 1) × (t ≡ s)) (next_8 img pos)
  unfolding next_8 read_8
  next_8-value pos s =
      From-bind _ _ _
        (From-if (λ v t. (v ≡ u8 (img.bytes pos)) × (t ≡ s)) (ltb pos img.size) _ _
          (λ inside. From-pure _ _ (refl, refl)) (λ out. From-undefined _))
        λ value t read. From-pure _ _ (read.0, refl, read.1)

  -- With no additive, the value of an internal fixup stays 0.
  internal-zero :
      (fuel kind flags pos : ℕ) (s : Os2)
      → flags % 4 ≡ 0
      → has_flag flags 2 ≡ false
      → From s (λ r t. (r.0 ≡ 0) × (t ≡ s)) (final_value img fuel kind flags pos)
  unfolding final_value target_value
  internal-zero fuel kind flags pos s internal plain =
      let is_internal : (flags % 4 == 0) ≡ true = ==-true internal in
      rw (is_internal, plain)
        (From-bind _ _ _ (internal_value-Past img kind flags pos s) λ value t first.
          From-bind {P = λ r u. (r.0 ≡ 0) × (u ≡ t)} _ _ _ (From-pure _ _ (refl, refl))
            λ additive u second.
              From-pure _ _ (ground (arith, first.0, second.0), second.1 ∙ first.1.1))

  -- A value of 0 is not stored.
  fix_at-zero :
      (p_dst kind value offset : ℕ) (s : Os2)
      → (kind == 8) ≡ false
      → value ≡ 0
      → From s (Same s) (fix_at p_dst kind value offset)
  unfolding fix_at do_fixup
  fix_at-zero p_dst kind value offset s absolute zero_value =
      rw (absolute, zero_value) (From-pure _ _ refl)

  fix_list-zero :
      (n p_dst kind value pos : ℕ) (s : Os2)
      → (kind == 8) ≡ false
      → value ≡ 0
      → From s (Same s) (fix_list img n p_dst kind value pos)
  unfolding fix_list
  fix_list-zero zero p_dst kind value pos s absolute zero_value = From-pure _ _ refl
  fix_list-zero (suc n) p_dst kind value pos s absolute zero_value =
      From-bind _ _ _ (next_16-From img pos s) λ offset t first.
        From-bind _ _ _ (fix_at-zero p_dst kind value offset.0 t absolute zero_value) λ u v second.
          From-mono _ _ (fix_list-zero n p_dst kind value offset.1 v absolute zero_value)
            (λ r w third. third ∙ second ∙ first.1)

  internal_record-From :
      (fuel p_dst pos : ℕ) (s : Os2)
      → u8 (img.bytes (pos + 1)) % 4 ≡ 0
      → has_flag (u8 (img.bytes (pos + 1))) 2 ≡ false
      → (u8 (img.bytes pos) % 16 == 8) ≡ false
      → From s (Same s) (fix_record img fuel p_dst pos)
  unfolding fix_record
  internal_record-From fuel p_dst pos s internal plain absolute =
      From-bind _ _ _ (next_8-value pos s) λ type t first.
        From-bind _ _ _ (next_8-value (type.1) t) λ flags u second.
          let at : flags.0 ≡ u8 (img.bytes (pos + 1)) =
            second.0 ∙ ap (λ p. u8 (img.bytes p)) first.1 in
          let kind : (type.0 % 16 == 8) ≡ false = ap (λ v. v % 16 == 8) first.0 ∙ absolute in
          From-bind _ _ _
            (From-if _ (has_flag (type.0) 5) _ _ (λ on. next_8-From img flags.1 u)
              (λ off. next_16-From img flags.1 u))
            λ source v third.
              From-bind _ _ _
                (internal-zero fuel (type.0 % 16) flags.0 source.1 v (ap (λ v. v % 4) at ∙ internal)
                  (ap (λ v. has_flag v 2) at ∙ plain))
                λ value w fourth.
                  let same : w ≡ s = fourth.1 ∙ third.1 ∙ second.2 ∙ first.2 in
                  From-if _ (has_flag (type.0) 5) _ _
                    (λ on.
                      From-mono _ _
                        (fix_list-zero source.0 p_dst (type.0 % 16) value.0 value.1 w kind fourth.0)
                        (λ r x fifth. fifth ∙ same))
                    (λ off.
                      From-bind _ _ _
                        (fix_at-zero p_dst (type.0 % 16) value.0 source.0 w kind fourth.0)
                        λ done x fifth. From-pure _ _ (fifth ∙ same))

  -- A record of an internal fixup without an additive that is not self-relative: where it is done, it
  -- ends past its place and leaves the whole state as it was, so the reference it describes is never
  -- fixed up.
  pub fix_record-internal :
      (fuel p_dst pos next : ℕ) (s t : Os2)
      → u8 (img.bytes (pos + 1)) % 4 ≡ 0
      → has_flag (u8 (img.bytes (pos + 1))) 2 ≡ false
      → u8 (img.bytes pos) % 16 ≢ 8
      → fix_record img fuel p_dst pos s ≡ done next t
      → (pos < next) × (t ≡ s)
  fix_record-internal fuel p_dst pos next s t internal plain absolute does = (
    rw does at ((fix_record-beyond img fuel p_dst pos s).ends),
    rw does at ((internal_record-From fuel p_dst pos s internal plain (==-false absolute)).ends),
  )
