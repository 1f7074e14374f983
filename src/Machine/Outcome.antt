-- ===== src/Machine/Outcome.antt =====
-- What a piece of the C code comes to, and sequencing. `hang` is `while (1);`, `exited` is
-- `exit`, `undefined` is an access, a shift or a division that C leaves undefined, and
-- `out_of_fuel` stands for a recursion that the model gives up on.
use topgun.Machine.{Machine}

pub data Outcome (A : Type 0) : Type 0 where
  ok : A → Machine → Outcome A
  hang exited undefined out_of_fuel : Outcome A

-- A piece of code that may change the machine.
abbrev pub M : Type 0 → Type 0
M A = Machine → Outcome A

module _ {A : Type 0} where
  unfoldable pub pure : A → M A
  pure a m = ok a m

  unfoldable pub gets : (Machine → A) → M A
  gets f m = ok (f m) m

  unfoldable pub stop : Outcome A → M A
  stop o m = o

unfoldable pub modify : (Machine → Machine) → M (Unit {0})
modify f m = ok tt (f m)

module _ {A B : Type 0} where
  abbrev pub and_then : Outcome A → (A → M B) → Outcome B
  and_then (ok a m) f = f a m
  and_then hang f = hang
  and_then exited f = exited
  and_then undefined f = undefined
  and_then out_of_fuel f = out_of_fuel

  infixl 5 ◌>>=◌
  -- Opening it opens the four ways to begin too.
  unfoldable pub ◌>>=◌ : M A → (A → M B) → M B
  unfolding pure gets stop modify
  ◌>>=◌ x f m = and_then (x m) f

infixl 5 ◌>>◌
abbrev pub ◌>>◌ : {A B : Type 0} → M A → M B → M B
x >> y = x >>= λ _. y
