-- ===== src/Locutus/Loader/Reads.antt =====
-- What reading a file does to the state and the place, and how such facts chain.
use topgun.Common.{ℕ, ◌+◌, ◌<◌, ◌≡◌, refl, ◌∙◌, Bool, true, false, ltb, if◌then◌else◌, arith}
use topgun.Locutus.State.{
  Os2, Run, done, hang, exited, undefined, out_of_fuel, Os2M, pure, stop, ◌>>=◌, and_then,
}
use topgun.Locutus.Loader.{Image, read_8, read_16, read_32, next_8, next_16, next_32}

-- A condition on the result, if there is one.
abbrev pub Finishes : {A : Type 0} → (A → Os2 → Type 0) → Run A → Type 0
Finishes Q (done a s) = Q a s
Finishes Q hang = Unit
Finishes Q exited = Unit
Finishes Q undefined = Unit
Finishes Q out_of_fuel = Unit

-- Code that, started in a state, ends with the condition.
pub record From {A : Type 0} (s : Os2) (Q : A → Os2 → Type 0) (x : Os2M A) : Type 0 where
  pub ends : Finishes Q (x s)

module _ {A B : Type 0} {P : A → Os2 → Type 0} (Q : B → Os2 → Type 0) where
  and_then-Finishes :
      (r : Run A) (f : A → Os2M B)
      → Finishes P r
      → ((a : A) (t : Os2) → P a t → From t Q (f a))
      → Finishes Q (and_then r f)
  and_then-Finishes (done a s) f p next = (next a s p).ends
  and_then-Finishes hang f p next = tt
  and_then-Finishes exited f p next = tt
  and_then-Finishes undefined f p next = tt
  and_then-Finishes out_of_fuel f p next = tt

  pub From-bind :
      {s : Os2} (x : Os2M A) (f : A → Os2M B)
      → From s P x
      → ((a : A) (t : Os2) → P a t → From t Q (f a))
      → From s Q (x >>= f)
  unfolding ◌>>=◌
  From-bind {s = s} x f p next = record { ends = and_then-Finishes (x s) f p.ends next }

module _ {A : Type 0} (Q : A → Os2 → Type 0) {s : Os2} where
  pub From-pure : (a : A) → Q a s → From s Q (pure a)
  unfolding pure
  From-pure a q = record { ends = q }

  pub From-undefined : From s Q (stop undefined)
  unfolding stop
  From-undefined = record { ends = tt }

  pub From-exited : From s Q (stop exited)
  unfolding stop
  From-exited = record { ends = tt }

  pub From-if :
      (c : Bool) (x y : Os2M A)
      → (c ≡ true → From s Q x)
      → (c ≡ false → From s Q y)
      → From s Q (if c then x else y)
  From-if true x y p q = p refl
  From-if false x y p q = q refl

  pub From-mono :
      {P : A → Os2 → Type 0} (x : Os2M A)
      → From s P x
      → ((a : A) (t : Os2) → P a t → Q a t)
      → From s Q x
  From-mono x p weaken = record { ends = go (x s) p.ends weaken }
    where
      go :
          {P : A → Os2 → Type 0} (r : Run A)
          → Finishes P r
          → ((a : A) (t : Os2) → P a t → Q a t)
          → Finishes Q r
      go (done a s) p weaken = weaken a s p
      go hang p weaken = tt
      go exited p weaken = tt
      go undefined p weaken = tt
      go out_of_fuel p weaken = tt

-- Any code.
pub From-any : {A : Type 0} (s : Os2) (x : Os2M A) → From s (λ a t. Unit {0}) x
From-any s x = record { ends = go (x s) }
  where
    go : {A : Type 0} (r : Run A) → Finishes (λ (a : A) t. Unit {0}) r
    go (done a s) = tt
    go hang = tt
    go exited = tt
    go undefined = tt
    go out_of_fuel = tt

-- The state is as it was.
abbrev pub Same : {A : Type 0} → Os2 → A → Os2 → Type 0
Same s a t = t ≡ s

-- A field ends past its place, and reading it changes nothing.
abbrev pub Past : ℕ → Os2 → ℕ × ℕ → Os2 → Type 0
Past pos s r t = (pos < r.1) × (t ≡ s)

module _ (img : Image) where
  read_8-From : (pos : ℕ) (s : Os2) → From s (Same s) (read_8 img pos)
  unfolding read_8
  read_8-From pos s =
      From-if _ (ltb pos img.size) _ _ (λ inside. From-pure _ _ refl) (λ out. From-undefined _)

  read_16-From : (pos : ℕ) (s : Os2) → From s (Same s) (read_16 img pos)
  unfolding read_16
  read_16-From pos s = From-bind _ _ _ (read_8-From pos s) λ low t same.
      From-bind _ _ _ (read_8-From (pos + 1) t) λ high u same'. From-pure _ _ (same' ∙ same)

  pub read_32-From : (pos : ℕ) (s : Os2) → From s (Same s) (read_32 img pos)
  unfolding read_32
  read_32-From pos s = From-bind _ _ _ (read_16-From pos s) λ low t same.
      From-bind _ _ _ (read_16-From (pos + 2) t) λ high u same'. From-pure _ _ (same' ∙ same)

  pub next_8-From : (pos : ℕ) (s : Os2) → From s (Past pos s) (next_8 img pos)
  unfolding next_8
  next_8-From pos s =
      From-bind _ _ _ (read_8-From pos s) λ value t same. From-pure _ _ (omega arith, same)

  pub next_16-From : (pos : ℕ) (s : Os2) → From s (Past pos s) (next_16 img pos)
  unfolding next_16
  next_16-From pos s =
      From-bind _ _ _ (read_16-From pos s) λ value t same. From-pure _ _ (omega arith, same)

  pub next_32-From : (pos : ℕ) (s : Os2) → From s (Past pos s) (next_32 img pos)
  unfolding next_32
  next_32-From pos s =
      From-bind _ _ _ (read_32-From pos s) λ value t same. From-pure _ _ (omega arith, same)
