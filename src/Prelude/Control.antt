-- ===== src/Prelude/Control.antt =====
-- C functions that change state and may stop: what a call leaves behind stands beside its outcome.
use mathlib.Core.Option.{Option, none, some}
use mathlib.Core.Bool.{Bool, true, false}

-- `fails`: the function returned non-zero. `hangs`: the fuel of a loop ran out.
-- `faults`: an access out of the bounds of an array or through NULL, which C leaves undefined.
pub data Outcome {ℓ} (A : Type ℓ) : Type ℓ where
  returns : A → Outcome A
  fails hangs faults : Outcome A

abbrev pub Exec : Type 0 → Type 0 → Type 0
Exec S A = S → Outcome A × S

module _ {S A : Type 0} where
  abbrev pub pure : A → Exec S A
  pure a s = (returns a, s)

  abbrev pub fail : Exec S A
  fail s = (fails, s)

  abbrev pub hang : Exec S A
  hang s = (hangs, s)

  abbrev pub gets : (S → A) → Exec S A
  gets f s = (returns (f s), s)

  -- The result of a library call that faults when it would leave its buffer.
  abbrev pub in_bounds : Option A → Exec S A
  in_bounds (some a) s = (returns a, s)
  in_bounds none s = (faults, s)

module _ {S A B : Type 0} where
  abbrev pub continue : Outcome A → (A → Exec S B) → Exec S B
  continue (returns a) f s = f a s
  continue fails f s = (fails, s)
  continue hangs f s = (hangs, s)
  continue faults f s = (faults, s)

  infixl 5 ◌>>=◌ ◌>>◌
  abbrev pub ◌>>=◌ : Exec S A → (A → Exec S B) → Exec S B
  ◌>>=◌ m f s = let (r, s') = m s in continue r f s'

  abbrev pub ◌>>◌ : Exec S A → Exec S B → Exec S B
  m >> k = m >>= λ _. k

abbrev pub modify : {S : Type 0} → (S → S) → Exec S (Unit {0})
modify f s = (returns tt, f s)

abbrev pub when : {S : Type 0} → Bool → Exec S (Unit {0}) → Exec S (Unit {0})
when true m = m
when false m = pure tt

-- A step that stays in its buffer, and the next.
infixl 5 ◌>>?◌
abbrev pub ◌>>?◌ : {A B : Type 0} → Option A → (A → Option B) → Option B
none >>? k = none
some a >>? k = k a
