-- ===== src/Iceman/Dis/Rounds.antt =====
-- The command `u` of `iceman/iceman.c` comes to its end.
use topgun.Common.{
  ℕ, zero, suc, ◌+◌, ◌≤◌, ◌<◌, [], ap, ◌≡◌, ◌∙◌, sym, ◌++◌, ltb, ltb-false, Bool-cases, inl, inr,
  arith,
}
use mathlib.Core.List.{append_assoc, append-nil}
use topgun.Common.Text.{Text, codes, hex}
use topgun.Iceman.Dis.Lines.{Strings, Dis, done, waits, undefined, out_of_fuel, dis386}
use topgun.Iceman.Dis.Listing.{code_16, place_text, then_list, unassemble, Steps, dis386-Steps}
use topgun.Iceman.Dis.Complete.{Prints}
use topgun.Iceman.Dis.Prints.{Printable, dis386-Prints}

-- A run that returns, with what was printed before still in front.
abbrev pub Continues : {A : Type 0} → Text → Dis A → Type 0
Continues before (done a s) = (text : Text) × (s.printed ≡ before ++ text)
Continues before waits = ⊥
Continues before undefined = ⊥
Continues before out_of_fuel = ⊥

Continues-after :
    {A : Type 0} (before text : Text) (r : Dis A)
    → Continues (before ++ text) r
    → Continues before r
Continues-after before text (done a s) p = (text ++ p.0, p.1 ∙ append_assoc before text p.0)
Continues-after before text waits p = p
Continues-after before text undefined p = p
Continues-after before text out_of_fuel p = p

-- The same, of an equal text.
Continues-of :
    {A : Type 0} (before before' : Text) (r : Dis A)
    → before ≡ before'
    → Continues before r
    → Continues before' r
Continues-of before before' r same p = rw (← same) p

then_list-Continues :
    (before : Text) (r : Dis ℕ) (next : ℕ → Strings → Dis (Unit {0}))
    → Prints before r
    → Steps r
    → ((n : ℕ) (s : Strings) → 1 ≤ n → Continues s.printed (next n s))
    → Continues before (then_list r next)
then_list-Continues before (done n s) next p steps all =
    let (line, same, ends) = p.prints in
    Continues-after before line (next n s)
      (Continues-of s.printed (before ++ line) (next n s) same (all n s steps.steps))
then_list-Continues before waits next p steps all = p.prints
then_list-Continues before undefined next p steps all = p.prints
then_list-Continues before out_of_fuel next p steps all = p.prints

-- An instruction that can be printed, with fewer prefixes than `prefixes`.
abbrev pub PrintableWithin : ℕ → (ℕ → ℕ) → ℕ → Type 0
PrintableWithin prefixes bytes i = (k : ℕ) × (k < prefixes) × Printable bytes i k

place_text-printed :
    (i : ℕ) (s : Strings) → (text : Text) × ((place_text i s).printed ≡ s.printed ++ text)
unfolding place_text
place_text-printed i s =
    let a = codes "07c0:" in
    let d = hex 8 (0x100 + i) in
    let e = codes "   " in
    (a ++ d ++ e, ap (λ t. t ++ e) (append_assoc s.printed a d) ∙ append_assoc s.printed (a ++ d) e)

-- The loop of the command `u` comes to its end, where from each place in the buffer on there is an
-- instruction that `dis386` can print, with fewer prefixes than its fuel: in as many rounds as there
-- are bytes left it returns, with everything that was printed before still printed. It neither
-- waits forever nor reads something unset or a table past its end.
pub unassemble-Ends :
    (bytes : ℕ → ℕ) (prefixes num_bytes rounds i : ℕ) (s : Strings)
    → num_bytes ≤ i + rounds
    → ((j : ℕ) → j < num_bytes → PrintableWithin prefixes bytes j)
    → Continues s.printed (unassemble bytes prefixes num_bytes rounds i s)
unfolding unassemble
unassemble-Ends bytes prefixes num_bytes zero i s h all =
    rw (ltb-false {a = i} {b = num_bytes} (omega arith)) ([], sym (append-nil s.printed))
unassemble-Ends bytes prefixes num_bytes (suc rounds) i s h all =
    elim (Bool-cases (ltb i num_bytes)) [
      | inl more ↦
          let (k, short, printable) = all i (ground (arith, more)) in
          let (text, same) = place_text-printed i s in
          let s' = place_text i s in
          let next =
            λ (n : ℕ) (u : Strings). unassemble bytes prefixes num_bytes rounds (i + n) u in
          rw more (
            Continues-after s.printed text _ (
              Continues-of s'.printed (s.printed ++ text) _ same (
                then_list-Continues s'.printed (dis386 bytes prefixes i (0x7d00 + i) code_16 s')
                  next
                  (dis386-Prints bytes prefixes i (0x7d00 + i) k code_16 s' short (omega arith)
                    printable)
                  (dis386-Steps bytes prefixes i (0x7d00 + i) k code_16 s' short printable.opcode)
                  (λ n u pos.
                    unassemble-Ends bytes prefixes num_bytes rounds (i + n) u (omega arith) all))))
      | inr over ↦ rw over ([], sym (append-nil s.printed))
    ]
