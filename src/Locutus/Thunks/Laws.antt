-- ===== src/Locutus/Thunks/Laws.antt =====
-- An import is resolved once.
use topgun.Common.{
  ℕ, ◌+◌, ◌-◌, ◌%◌, ◌^◌, ◌≤◌, ◌≡◌, ◌≢◌, sym, ap, leb-true, refl, ◌∙◌, false, Bool-cases, inl, inr,
  if◌then◌else◌, ◌==◌, leb, ltb, u16, update, arith,
}
use mathlib.Core.Path.{subst}
use topgun.Locutus.Pages.{Bitmap, Result, found, passed, outside, alloc_pages}
use topgun.Locutus.State.{
  Os2, ThunkTable, no_table, msg_imports, dos_imports, Run, done, hang, exited, undefined,
  out_of_fuel, Os2M, pure, stop, ◌>>=◌, ◌>>◌, emu_write, with_bitmap, os2_extent, and_then,
}
use topgun.Locutus.Thunks.{
  pf_to_addr, thunk_bytes, allocated, table_words, vmm_alloc_pages, generate_thunk, set_thunk,
  with_high_bit, resolve, lookup_in, lookup_ordinal, get_module_proc_addr_by_ordinal,
}

-- The modules are the same.
abbrev pub SameModules : Os2 → Os2 → Type 0
SameModules s s' = (s'.module_count ≡ s.module_count) × (s'.modules ≡ s.modules)

-- A second run of the code gives the same result and changes nothing more; the modules are as they
-- were.
abbrev pub Repeats : Os2M ℕ → Os2 → Run ℕ → Type 0
Repeats x s (done a s') = (x s' ≡ done a s') × SameModules s s'
Repeats x s hang = Unit
Repeats x s exited = Unit
Repeats x s undefined = Unit
Repeats x s out_of_fuel = Unit

-- The code leaves the import tables alone.
record SameTables (s s' : Os2) : Type 0 where
  module_count : s'.module_count ≡ s.module_count
  modules : s'.modules ≡ s.modules
  thunks : s'.thunks ≡ s.thunks

abbrev Leaves : {A : Type 0} → Os2 → Run A → Type 0
Leaves s (done a s') = SameTables s s'
Leaves s hang = Unit
Leaves s exited = Unit
Leaves s undefined = Unit
Leaves s out_of_fuel = Unit

module _ (pointer page : ℕ) (s : Os2) where
  write-Leaves :
      (f : Bitmap)
      → Leaves s (
          (if page == 0 then stop undefined else (do
            emu_write (pf_to_addr page) 8 (thunk_bytes (pf_to_addr page) pointer)
            pure (pf_to_addr page)))
            (with_bitmap f s))
  unfolding emu_write ◌>>=◌
  write-Leaves f = elim (Bool-cases (page == 0)) [
    | inl null ↦ rw null tt
    | inr some_page ↦ rw some_page (elim (Bool-cases (leb (pf_to_addr page + 8) os2_extent)) [
      | inl inside ↦ rw inside (record { module_count = refl; modules = refl; thunks = refl })
      | inr out ↦ rw out tt
    ])
  ]

generate_thunk-Leaves : (fuel pointer : ℕ) (s : Os2) → Leaves s (generate_thunk fuel pointer s)
unfolding generate_thunk vmm_alloc_pages ◌>>=◌ emu_write
generate_thunk-Leaves fuel pointer s = by_result (alloc_pages fuel 0x800 1 s.bitmap)
  where
    by_result :
        (r : Result × Bitmap)
        → Leaves s (
            and_then (allocated r s) (λ page.
              (if page == 0 then stop undefined else (do
                emu_write (pf_to_addr page) 8 (thunk_bytes (pf_to_addr page) pointer)
                pure (pf_to_addr page)))))
    by_result (found base, f) = write-Leaves pointer base s f
    by_result (passed, f) = tt
    by_result (outside, f) = tt
    by_result (Result.out_of_fuel, f) = tt

module _ (x : Os2M ℕ) (s : Os2) where
  stays : (a : ℕ) → x s ≡ done a s → Repeats x s (x s)
  stays a e = subst (Repeats x s) (sym e) (e, (refl, refl))

  settled :
      (a : ℕ) (s' : Os2) → x s ≡ done a s' → x s' ≡ done a s' → SameModules s s' → Repeats x s (x s)
  settled a s' e again modules = subst (Repeats x s) (sym e) (again, modules)

  fails : (r : Run ℕ) → x s ≡ r → Repeats x s r → Repeats x s (x s)
  fails r e p = subst (Repeats x s) (sym e) p

-- The words of a table after an assignment.
thunks-set_thunk :
    (t : ThunkTable) (i v : ℕ) (s : Os2)
    → t ≢ no_table
    → (set_thunk t i v s).thunks t ≡ update (s.thunks t) i v
unfolding set_thunk
thunks-set_thunk no_table i v s some_table = absurd (some_table refl)
thunks-set_thunk msg_imports i v s some_table = refl
thunks-set_thunk dos_imports i v s some_table = refl

set_thunk-SameModules :
    (t : ThunkTable) (i v : ℕ) (s s1 : Os2) → SameTables s s1 → SameModules s (set_thunk t i v s1)
unfolding set_thunk
set_thunk-SameModules no_table i v s s1 same = (same.module_count, same.modules)
set_thunk-SameModules msg_imports i v s s1 same = (same.module_count, same.modules)
set_thunk-SameModules dos_imports i v s s1 same = (same.module_count, same.modules)

module _ (fuel : ℕ) (t : ThunkTable) (ordinal : ℕ) (some_table : t ≢ no_table) where
  -- The entry after the assignment, and the count.
  assigned :
      (v : ℕ) (s s1 : Os2)
      → SameTables s s1
      → ((set_thunk t (ordinal + 1) v s1).thunks t (ordinal + 1) ≡ v)
        × ((set_thunk t (ordinal + 1) v s1).thunks t 0 ≡ s.thunks t 0)
  assigned v s s1 same =
      rw (thunks-set_thunk t (ordinal + 1) v s1 some_table, same.thunks)
        (ground arith, ground arith)

  -- The second look at an entry that has its high bit set.
  mapped :
      (s : Os2) (v : ℕ)
      → (ltb (s.thunks t 0) ordinal) ≡ false
      → (leb (table_words t) (ordinal + 1)) ≡ false
      → s.thunks t (ordinal + 1) ≡ v
      → 2 ^ 31 ≤ v
      → lookup_in fuel t ordinal s ≡ done (v - 2 ^ 31) s
  unfolding lookup_in resolve ◌>>=◌
  mapped s v counted inside entry high = rw (counted, inside, entry) (rw (leb-true high))

  module _ (s : Os2) (counted : ltb (s.thunks t 0) ordinal ≡ false)
      (inside : leb (table_words t) (ordinal + 1) ≡ false)
      (low : leb (2 ^ 31) (s.thunks t (ordinal + 1)) ≡ false)
      (host : (s.thunks t (ordinal + 1) == 0) ≡ false) where
    -- The first look at an entry that holds a host address.
    generated :
        (r : Run ℕ)
        → generate_thunk fuel (s.thunks t (ordinal + 1)) s ≡ r
        → Leaves s r
        → Repeats (lookup_in fuel t ordinal) s (lookup_in fuel t ordinal s)
    generated (done addr s1) runs same =
        settled (lookup_in fuel t ordinal) s (with_high_bit addr % 2 ^ 31)
          (set_thunk t (ordinal + 1) (with_high_bit addr) s1)
          (unfold lookup_in resolve ◌>>=◌ in rw (counted, inside, low, host, runs)) again
          (set_thunk-SameModules t (ordinal + 1) (with_high_bit addr) s s1 same)
      where
        after : Os2
        after = set_thunk t (ordinal + 1) (with_high_bit addr) s1

        again : lookup_in fuel t ordinal after ≡ done (with_high_bit addr % 2 ^ 31) after
        again =
            let (entry, count) = assigned (with_high_bit addr) s s1 same in
            mapped after (with_high_bit addr) (rw count counted) inside entry (omega arith)
            ∙ ap (λ (n : ℕ). done n after) (omega arith)
    generated hang runs same =
        fails (lookup_in fuel t ordinal) s hang
          (unfold lookup_in resolve ◌>>=◌ in rw (counted, inside, low, host, runs)) tt
    generated exited runs same =
        fails (lookup_in fuel t ordinal) s exited
          (unfold lookup_in resolve ◌>>=◌ in rw (counted, inside, low, host, runs)) tt
    generated undefined runs same =
        fails (lookup_in fuel t ordinal) s undefined
          (unfold lookup_in resolve ◌>>=◌ in rw (counted, inside, low, host, runs)) tt
    generated out_of_fuel runs same =
        fails (lookup_in fuel t ordinal) s out_of_fuel
          (unfold lookup_in resolve ◌>>=◌ in rw (counted, inside, low, host, runs)) tt

  lookup_in-Repeats : (s : Os2) → Repeats (lookup_in fuel t ordinal) s (lookup_in fuel t ordinal s)
  lookup_in-Repeats s = elim (Bool-cases (ltb (s.thunks t 0) ordinal)) [
    | inl past ↦ stays (lookup_in fuel t ordinal) s 0 (unfold lookup_in ◌>>=◌ in rw past)
    | inr counted ↦ elim (Bool-cases (leb (table_words t) (ordinal + 1))) [
      | inl out ↦
          fails (lookup_in fuel t ordinal) s undefined (unfold lookup_in ◌>>=◌ in rw (counted, out))
            tt
      | inr inside ↦ elim (Bool-cases (leb (2 ^ 31) (s.thunks t (ordinal + 1)))) [
        | inl high ↦
            stays (lookup_in fuel t ordinal) s (s.thunks t (ordinal + 1) - 2 ^ 31)
              (mapped s _ counted inside refl (ground (arith, high)))
        | inr low ↦ elim (Bool-cases (s.thunks t (ordinal + 1) == 0)) [
          | inl zero_entry ↦
              stays (lookup_in fuel t ordinal) s 0
                (unfold lookup_in resolve ◌>>=◌ in rw (counted, inside, low, zero_entry))
          | inr host ↦
              generated s counted inside low host (generate_thunk fuel (s.thunks t (ordinal + 1)) s)
                refl (generate_thunk-Leaves fuel (s.thunks t (ordinal + 1)) s)
        ]
      ]
    ]
  ]

-- `GetModuleProcAddrByOrdinal` in its last step.
lookup_ordinal-Repeats :
    (fuel : ℕ) (t : ThunkTable) (ordinal : ℕ) (s : Os2)
    → Repeats (lookup_ordinal fuel t ordinal) s (lookup_ordinal fuel t ordinal s)
unfolding lookup_ordinal ◌>>=◌
lookup_ordinal-Repeats fuel no_table ordinal s = tt
lookup_ordinal-Repeats fuel msg_imports ordinal s =
    lookup_in-Repeats fuel msg_imports ordinal (λ e. cc) s
lookup_ordinal-Repeats fuel dos_imports ordinal s =
    lookup_in-Repeats fuel dos_imports ordinal (λ e. cc) s

module _ (fuel module_id import_id : ℕ) where
  reaches :
      (s : Os2)
      → ltb s.module_count (u16 module_id) ≡ false
      → leb 256 (u16 module_id + 1) ≡ false
      → get_module_proc_addr_by_ordinal fuel module_id import_id s
        ≡ lookup_ordinal fuel (s.modules (u16 module_id + 1)) import_id s
  unfolding get_module_proc_addr_by_ordinal ◌>>=◌
  reaches s counted inside = rw (counted, inside)

  -- The whole call, from the call in its last step.
  from_lookup :
      (s : Os2)
      → ltb s.module_count (u16 module_id) ≡ false
      → leb 256 (u16 module_id + 1) ≡ false
      → (r : Run ℕ) → Repeats (lookup_ordinal fuel (s.modules (u16 module_id + 1)) import_id) s r
      → Repeats (get_module_proc_addr_by_ordinal fuel module_id import_id) s r
  from_lookup s counted inside (done a s') (again, (count, modules)) = (
    reaches s' (ap (λ (n : ℕ). ltb n (u16 module_id)) count ∙ counted) inside
        ∙ ap (λ (f : ℕ → ThunkTable). lookup_ordinal fuel (f (u16 module_id + 1)) import_id s')
            modules
        ∙ again,
    (count, modules),
  )
  from_lookup s counted inside hang p = tt
  from_lookup s counted inside exited p = tt
  from_lookup s counted inside undefined p = tt
  from_lookup s counted inside out_of_fuel p = tt

  -- A call of `GetModuleProcAddrByOrdinal` that returns has made the import's address for good: the
  -- same call afterwards returns the same address and changes nothing.
  get_module_proc_addr_by_ordinal-Repeats :
      (s : Os2)
      → Repeats
          (get_module_proc_addr_by_ordinal fuel module_id import_id)
          s
          (get_module_proc_addr_by_ordinal fuel module_id import_id s)
  get_module_proc_addr_by_ordinal-Repeats s =
      elim (Bool-cases (ltb s.module_count (u16 module_id))) [
        | inl past ↦
            stays (get_module_proc_addr_by_ordinal fuel module_id import_id) s 0
              (unfold get_module_proc_addr_by_ordinal ◌>>=◌ in rw past)
        | inr counted ↦ elim (Bool-cases (leb 256 (u16 module_id + 1))) [
          | inl out ↦
              fails (get_module_proc_addr_by_ordinal fuel module_id import_id) s undefined
                (unfold get_module_proc_addr_by_ordinal ◌>>=◌ in rw (counted, out)) tt
          | inr inside ↦
              subst (Repeats (get_module_proc_addr_by_ordinal fuel module_id import_id) s)
                (sym (reaches s counted inside))
                (from_lookup s counted inside _
                  (lookup_ordinal-Repeats fuel (s.modules (u16 module_id + 1)) import_id s))
        ]
      ]
