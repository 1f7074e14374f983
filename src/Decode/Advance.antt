-- ===== src/Decode/Advance.antt =====
-- How far decoding moves EIP, and how such facts chain.
use topgun.Common.{
  ℕ, ◌+◌, ◌≡◌, refl, Bool, true, false, leb, u8, u32, if◌then◌else◌, arith, Bool-cases, inl, inr,
}
use topgun.Machine.{Machine, set_eip}
use topgun.Machine.Outcome.{
  Outcome, ok, hang, exited, undefined, out_of_fuel, M, pure, gets, stop, modify, and_then, ◌>>=◌,
}
use topgun.Machine.Board.{Board, check_access, bus_read_8, bus_read_16, bus_read_32}
use topgun.Decode.Fetch.{code_addr, advance, fetch_8, fetch_16, fetch_32}

-- Code that returns with a condition, or stops at something undefined.
abbrev pub Returns : {A : Type 0} → (A → Machine → Type 0) → Outcome A → Type 0
Returns Q (ok a m) = Q a m
Returns Q undefined = Unit
Returns Q hang = ⊥
Returns Q exited = ⊥
Returns Q out_of_fuel = ⊥

-- EIP is `n` further, as a 32-bit number.
abbrev pub Moved : {A : Type 0} → ℕ → Machine → A → Machine → Type 0
Moved n m a m' = u32 m'.eip ≡ u32 (m.eip + n)

pub record From {A : Type 0} (m : Machine) (Q : A → Machine → Type 0) (x : M A) : Type 0 where
  pub ends : Returns Q (x m)

module _ {A B : Type 0} {P : A → Machine → Type 0} (Q : B → Machine → Type 0) where
  and_then-Returns :
      (r : Outcome A) (f : A → M B)
      → Returns P r
      → ((a : A) (t : Machine) → P a t → From t Q (f a))
      → Returns Q (and_then r f)
  and_then-Returns (ok a m) f p next = (next a m p).ends
  and_then-Returns undefined f p next = tt
  and_then-Returns hang f p next = p
  and_then-Returns exited f p next = p
  and_then-Returns out_of_fuel f p next = p

  pub From-bind :
      {m : Machine} (x : M A) (f : A → M B)
      → From m P x
      → ((a : A) (t : Machine) → P a t → From t Q (f a))
      → From m Q (x >>= f)
  unfolding ◌>>=◌
  From-bind {m = m} x f p next = record { ends = and_then-Returns (x m) f p.ends next }

module _ {A : Type 0} (Q : A → Machine → Type 0) {m : Machine} where
  pub From-pure : (a : A) → Q a m → From m Q (pure a)
  unfolding pure
  From-pure a q = record { ends = q }

  pub From-gets : (f : Machine → A) → Q (f m) m → From m Q (gets f)
  unfolding gets
  From-gets f q = record { ends = q }

  pub From-undefined : From m Q (stop undefined)
  unfolding stop
  From-undefined = record { ends = tt }

  pub From-if :
      (c : Bool) (x y : M A)
      → (c ≡ true → From m Q x)
      → (c ≡ false → From m Q y)
      → From m Q (if c then x else y)
  From-if true x y p q = p refl
  From-if false x y p q = q refl

  pub From-mono :
      {P : A → Machine → Type 0} (x : M A)
      → From m P x
      → ((a : A) (t : Machine) → P a t → Q a t)
      → From m Q x
  From-mono x p weaken = record { ends = go (x m) p.ends weaken }
    where
      go :
          {P : A → Machine → Type 0} (r : Outcome A)
          → Returns P r
          → ((a : A) (t : Machine) → P a t → Q a t)
          → Returns Q r
      go (ok a t) p weaken = weaken a t p
      go undefined p weaken = tt
      go hang p weaken = p
      go exited p weaken = p
      go out_of_fuel p weaken = p

module _ (b : Board) (m : Machine) where
  -- The byte at CS:EIP.
  unfoldable pub code_byte : ℕ
  code_byte = u8 (m.mem (b.translate (code_addr m)))

  pub fetch_8-From : From m (λ v t. (v ≡ code_byte) × (Moved 1 m v t)) (fetch_8 b)
  unfolding fetch_8 code_byte bus_read_8 check_access advance modify gets pure stop set_eip ◌>>=◌
  fetch_8-From = elim (Bool-cases (leb (b.translate (code_addr m) + 1) b.extent)) [
    | inl h ↦ record { ends = rw h (refl, omega arith) }
    | inr h ↦ record { ends = rw h tt }
  ]

  pub fetch_8-exact : From m (λ v t. (v ≡ code_byte) × (t ≡ set_eip (m.eip + 1) m)) (fetch_8 b)
  unfolding fetch_8 code_byte bus_read_8 check_access advance modify gets pure stop ◌>>=◌
  fetch_8-exact = elim (Bool-cases (leb (b.translate (code_addr m) + 1) b.extent)) [
    | inl h ↦ record { ends = rw h (refl, refl) }
    | inr h ↦ record { ends = rw h tt }
  ]

  pub fetch_16-From : From m (Moved 2 m) (fetch_16 b)
  unfolding fetch_16 bus_read_16 check_access advance modify gets pure stop set_eip ◌>>=◌
  fetch_16-From = elim (Bool-cases (leb (b.translate (code_addr m) + 2) b.extent)) [
    | inl h ↦ record { ends = rw h (omega arith) }
    | inr h ↦ record { ends = rw h tt }
  ]

  pub fetch_32-From : From m (Moved 4 m) (fetch_32 b)
  unfolding fetch_32 bus_read_32 check_access advance modify gets pure stop set_eip ◌>>=◌
  fetch_32-From = elim (Bool-cases (leb (b.translate (code_addr m) + 4) b.extent)) [
    | inl h ↦ record { ends = rw h (omega arith) }
    | inr h ↦ record { ends = rw h tt }
  ]
