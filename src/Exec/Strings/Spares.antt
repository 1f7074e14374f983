-- ===== src/Exec/Strings/Spares.antt =====
-- A round of the string instructions finishes and leaves ECX alone.
use topgun.Common.{
  arith, ◌||◌, ◌==◌, ◌≤◌, ◌+◌, leb, bit_and, Bool-cases, inl, inr, ℕ, ◌≡◌, refl, ◌∙◌, Bool, true,
  false, if◌then◌else◌,
}
use topgun.Isa.{OperandSize, sz_8, sz_16, sz_32, str_sz_8}
use topgun.Isa.Codes.{stos, lods, cmps, movs, scas, r_eax, r_ecx, r_esi, r_edi}
use topgun.Machine.{Machine, set_reg, set_eflags, set_byte}
use topgun.Machine.Outcome.{
  Outcome, ok, hang, exited, undefined, out_of_fuel, M, pure, gets, modify, ◌>>=◌, and_then,
}
use topgun.Machine.Board.{
  Board, InBlock, check_access, bus_read_8, bus_read_16, bus_read_32, bus_write_8, bus_write_16,
  bus_write_32,
}
use topgun.Machine.Flags.{get_flag, cond_flag}
use topgun.Machine.Regs.{wide_operand, set_reg_8, set_reg_16}
use topgun.Exec.Operand.{read_mem, write_mem, write_register}
use topgun.Exec.SetFlags.{set_zf, set_by_size}
use topgun.Exec.Strings.{
  string_size, string_update, scas_flags, do_stos, do_lods, do_cmps, do_scas, do_movs, do_string,
}

-- A dword at any address lies in the block.
abbrev pub Roomy : Board → Type 0
Roomy b = (addr : ℕ) → InBlock b addr 4

module _ (b : Board) where
  -- A run that returns a machine in the relation. It may be undefined, but not where every dword lies
  -- in the block.
  abbrev pub Finishes : {A : Type 0} → (Machine → Type 0) → Outcome A → Type 0
  Finishes P (ok _ m) = P m
  Finishes P hang = ⊥
  Finishes P exited = ⊥
  Finishes P undefined = Roomy b → ⊥
  Finishes P out_of_fuel = ⊥

  -- The code finishes, and leaves ECX as it was.
  pub record Spares {A : Type 0} (x : M A) : Type 0 where
    pub at : (m : Machine) → Finishes (λ n. n.regs r_ecx ≡ m.regs r_ecx) (x m)

  module _ {A : Type 0} where
    pub Spares-pure : (a : A) → Spares (pure a)
    unfolding pure
    Spares-pure a = record { at = λ m. refl }

    pub Spares-gets : (f : Machine → A) → Spares (gets f)
    unfolding gets
    Spares-gets f = record { at = λ m. refl }

    pub Spares-if : (c : Bool) (x y : M A) → Spares x → Spares y → Spares (if c then x else y)
    Spares-if true x y p q = p
    Spares-if false x y p q = q

    pub Spares-or_else :
        (c : Bool) (x y : M A) → Spares x → (c ≡ false → Spares y) → Spares (if c then x else y)
    Spares-or_else true x y p q = p
    Spares-or_else false x y p q = q refl

  pub Spares-modify :
      (f : Machine → Machine)
      → ((m : Machine) → (f m).regs r_ecx ≡ m.regs r_ecx)
      → Spares (modify f)
  unfolding modify
  Spares-modify f p = record { at = p }

  module _ {A : Type 0} where
    pub Finishes-mono :
        {P : Machine → Type 0} (Q : Machine → Type 0) (o : Outcome A)
        → Finishes P o
        → ((n : Machine) → P n → Q n)
        → Finishes Q o
    Finishes-mono Q (ok a n) p q = q n p
    Finishes-mono Q hang p q = p
    Finishes-mono Q exited p q = p
    Finishes-mono Q undefined p q = p
    Finishes-mono Q out_of_fuel p q = p

  module _ {A B : Type 0} where
    pub and_then-Finishes :
        {P : Machine → Type 0} (Q : Machine → Type 0) (o : Outcome A) (f : A → M B)
        → Finishes P o
        → ((a : A) (n : Machine) → P n → Finishes Q (f a n))
        → Finishes Q (and_then o f)
    and_then-Finishes Q (ok a n) f p q = q a n p
    and_then-Finishes Q hang f p q = absurd p
    and_then-Finishes Q exited f p q = absurd p
    and_then-Finishes Q undefined f p q = p
    and_then-Finishes Q out_of_fuel f p q = absurd p

    pub Spares-bind :
        (x : M A) (f : A → M B) → Spares x → ((a : A) → Spares (f a)) → Spares (x >>= f)
    unfolding ◌>>=◌
    Spares-bind x f p q = record {
      at = λ m.
          and_then-Finishes _ (x m) f (p.at m)
            (λ a n same. Finishes-mono _ (f a n) ((q a).at n) (λ k s. s ∙ same));
    }

  -- The size of a string instruction is one of three.
  pub Spares-string_size :
      {A : Type 0} (size : ℕ) (f : OperandSize → M A)
      → Spares (f sz_8)
      → Spares (f sz_16)
      → Spares (f sz_32)
      → Spares (gets (string_size size) >>= f)
  unfolding string_size ◌>>=◌ gets
  Spares-string_size size f p q r = record {
    at = λ m. elim (Bool-cases (bit_and size str_sz_8 == 0)) [
      | inl more ↦ elim (Bool-cases (wide_operand m)) [
        | inl wide ↦ rw (more, wide) (r.at m)
        | inr narrow ↦ rw (more, narrow) (q.at m)
      ]
      | inr byte ↦ rw byte (p.at m)
    ];
  }

  -- An access of a width up to 4.
  pub check_access-Spares : (addr width : ℕ) → width ≤ 4 → Spares (check_access b addr width)
  unfolding check_access
  check_access-Spares addr width small = record {
    at = λ m. elim (Bool-cases (leb (b.translate addr + width) b.extent)) [
      | inl inside ↦ rw inside refl
      | inr out ↦ rw out (λ (roomy : Roomy b). absurd (ground (arith, roomy addr, out, small)))
    ];
  }

pub ruleset spares_rules = (Spares-pure, Spares-gets, Spares-if, Spares-modify, Spares-bind)

pub set_byte-ecx : (a v : ℕ) (m : Machine) → (set_byte a v m).regs r_ecx ≡ m.regs r_ecx
unfolding set_byte
set_byte-ecx a v m = refl

pub set_eflags-ecx : (v : ℕ) (m : Machine) → (set_eflags v m).regs r_ecx ≡ m.regs r_ecx
unfolding set_eflags
set_eflags-ecx v m = refl

pub set_eax-ecx : (v : ℕ) (m : Machine) → (set_reg r_eax v m).regs r_ecx ≡ m.regs r_ecx
unfolding set_reg
set_eax-ecx v m = refl

pub set_esi-ecx : (v : ℕ) (m : Machine) → (set_reg r_esi v m).regs r_ecx ≡ m.regs r_ecx
unfolding set_reg
set_esi-ecx v m = refl

pub set_edi-ecx : (v : ℕ) (m : Machine) → (set_reg r_edi v m).regs r_ecx ≡ m.regs r_ecx
unfolding set_reg
set_edi-ecx v m = refl

pub ruleset ecx_rules =
    (spares_rules, set_byte-ecx, set_eflags-ecx, set_eax-ecx, set_esi-ecx, set_edi-ecx)

one_small : 1 ≤ 4
one_small = omega arith

two_small : 2 ≤ 4
two_small = omega arith

four_small : 4 ≤ 4
four_small = omega arith

ruleset access_rules = (ecx_rules, check_access-Spares, one_small, two_small, four_small)

module _ (b : Board) where
  read_8-Spares : (addr : ℕ) → Spares b (read_mem b sz_8 addr)
  unfolding read_mem bus_read_8
  read_8-Spares addr = search access_rules

  read_16-Spares : (addr : ℕ) → Spares b (read_mem b sz_16 addr)
  unfolding read_mem bus_read_16
  read_16-Spares addr = search access_rules

  read_32-Spares : (addr : ℕ) → Spares b (read_mem b sz_32 addr)
  unfolding read_mem bus_read_32
  read_32-Spares addr = search access_rules

  write_8-Spares : (addr v : ℕ) → Spares b (write_mem b sz_8 addr v)
  unfolding write_mem bus_write_8
  write_8-Spares addr v = search access_rules

  write_16-Spares : (addr v : ℕ) → Spares b (write_mem b sz_16 addr v)
  unfolding write_mem bus_write_16
  write_16-Spares addr v = search access_rules

  write_32-Spares : (addr v : ℕ) → Spares b (write_mem b sz_32 addr v)
  unfolding write_mem bus_write_32
  write_32-Spares addr v = search access_rules depth 14

  eax_8-Spares : (v : ℕ) → Spares b (write_register sz_8 r_eax v)
  unfolding write_register set_reg_8
  eax_8-Spares v = search ecx_rules

  eax_16-Spares : (v : ℕ) → Spares b (write_register sz_16 r_eax v)
  unfolding write_register set_reg_16
  eax_16-Spares v = search ecx_rules

  eax_32-Spares : (v : ℕ) → Spares b (write_register sz_32 r_eax v)
  unfolding write_register
  eax_32-Spares v = search ecx_rules

  zf_8-Spares : (v : ℕ) → Spares b (set_zf sz_8 v)
  unfolding set_zf set_by_size cond_flag
  zf_8-Spares v = search ecx_rules

  zf_16-Spares : (v : ℕ) → Spares b (set_zf sz_16 v)
  unfolding set_zf set_by_size cond_flag
  zf_16-Spares v = search ecx_rules

  zf_32-Spares : (v : ℕ) → Spares b (set_zf sz_32 v)
  unfolding set_zf set_by_size cond_flag
  zf_32-Spares v = search ecx_rules

  esi_update-Spares : (size : OperandSize) → Spares b (string_update r_esi size)
  unfolding string_update get_flag
  esi_update-Spares size = search ecx_rules

  edi_update-Spares : (size : OperandSize) → Spares b (string_update r_edi size)
  unfolding string_update get_flag
  edi_update-Spares size = search ecx_rules

  scas_flags-Spares : (size v : ℕ) → Spares b (scas_flags size v)
  unfolding scas_flags
  scas_flags-Spares size v = search (ecx_rules, zf_8-Spares, zf_16-Spares, zf_32-Spares)

ruleset string_rules = (
  ecx_rules, read_8-Spares, read_16-Spares, read_32-Spares, write_8-Spares, write_16-Spares,
  write_32-Spares, eax_8-Spares, eax_16-Spares, eax_32-Spares, zf_8-Spares, esi_update-Spares,
  edi_update-Spares, scas_flags-Spares,
)

-- The instructions that `do_string` knows.
abbrev pub is_known : ℕ → Bool
is_known sub_type =
    sub_type == stos || sub_type == lods || sub_type == cmps || sub_type == movs || sub_type == scas

module _ (b : Board) where
  stos-Spares : (size : ℕ) → Spares b (do_stos b size)
  unfolding do_stos
  stos-Spares size =
      Spares-string_size b size _ (search string_rules) (search string_rules) (search string_rules)

  lods-Spares : (size : ℕ) → Spares b (do_lods b size)
  unfolding do_lods
  lods-Spares size =
      Spares-string_size b size _ (search string_rules) (search string_rules) (search string_rules)

  cmps-Spares : (size : ℕ) → Spares b (do_cmps b size)
  unfolding do_cmps
  cmps-Spares size =
      Spares-string_size b size _ (search string_rules depth 16) (search string_rules depth 16)
        (search string_rules depth 16)

  scas-Spares : (size : ℕ) → Spares b (do_scas b size)
  unfolding do_scas
  scas-Spares size =
      Spares-string_size b size _ (search string_rules) (search string_rules) (search string_rules)

  movs-Spares : (size : ℕ) → Spares b (do_movs b size)
  unfolding do_movs
  movs-Spares size =
      Spares-string_size b size _ (search string_rules depth 16) (search string_rules depth 16)
        (search string_rules depth 16)

  pub do_string-Spares :
      (sub_type size : ℕ) → is_known sub_type ≡ true → Spares b (do_string b sub_type size)
  unfolding do_string
  do_string-Spares sub_type size known =
      Spares-or_else b (sub_type == stos) _ _ (stos-Spares size) (λ a.
        Spares-or_else b (sub_type == lods) _ _ (lods-Spares size) (λ c.
          Spares-or_else b (sub_type == cmps) _ _ (cmps-Spares size) (λ d.
            Spares-or_else b (sub_type == movs) _ _ (movs-Spares size) (λ e.
              Spares-or_else b (sub_type == scas) _ _ (scas-Spares size)
                (λ f. absurd (ground (arith, known, a, c, d, e, f)))))))
