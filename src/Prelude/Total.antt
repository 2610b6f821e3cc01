-- ===== src/Prelude/Total.antt =====
-- Total correctness of a step: it returns with `P`, or it fails, and it never hangs or faults.
use mathlib.Core.Path.{◌≡◌, refl}
use mathlib.Core.Option.{Option, none, some}
use fanuc_driver.Prelude.Control.{
  Outcome, returns, fails, hangs, faults, Exec, continue, in_bounds, ◌>>=◌,
}

abbrev pub Ends : {S A : Type 0} → (A → S → Type 0) → Outcome A × S → Type 0
Ends P (returns a, s) = P a s
Ends P (fails, s) = Unit
Ends P (hangs, s) = ⊥
Ends P (faults, s) = ⊥

module _ {S A B : Type 0} (P : A → S → Type 0) (Q : B → S → Type 0) where
  Ends-continue :
      (r : Outcome A) (s : S) (k : A → Exec S B)
      → Ends P (r, s)
      → ((a : A) (s' : S) → P a s' → Ends Q (k a s'))
      → Ends Q (continue r k s)
  Ends-continue (returns a) s k h f = f a s h
  Ends-continue fails s k h f = tt
  Ends-continue hangs s k h f = h
  Ends-continue faults s k h f = h

  pub Ends-bind :
      (m : Exec S A) (k : A → Exec S B) (s : S)
      → Ends P (m s)
      → ((a : A) (s' : S) → P a s' → Ends Q (k a s'))
      → Ends Q ((m >>= k) s)
  Ends-bind m k s h f = let (r, s') = m s in Ends-continue r s' k h f

module _ {S A : Type 0} (P Q : A → S → Type 0) where
  pub Ends-map : (r : Outcome A) (s : S) → Ends P (r, s) → ((a : A) → P a s → Q a s) → Ends Q (r, s)
  Ends-map (returns a) s h f = f a h
  Ends-map fails s h f = tt
  Ends-map hangs s h f = h
  Ends-map faults s h f = h

-- A library call that stays in its buffer goes on with what it wrote.
pub in_bounds-some :
    {S A B : Type 0} (o : Option A) (a : A) (k : A → Exec S B) (s : S)
    → o ≡ some a
    → (in_bounds o >>= k) s ≡ k a s
in_bounds-some o a k s e = rw e

pub in_bounds-Ends :
    {S A B : Type 0} (Q : B → S → Type 0) (o : Option A) (a : A) (k : A → Exec S B) (s : S)
    → o ≡ some a
    → Ends Q (k a s)
    → Ends Q ((in_bounds o >>= k) s)
in_bounds-Ends Q o a k s e h = rw e h

-- Two continuations that agree give the same step.
continue_cong :
    {S A B : Type 0} (r : Outcome A) (s : S) (k k' : A → Exec S B)
    → ((a : A) (t : S) → k a t ≡ k' a t)
    → continue r k s ≡ continue r k' s
continue_cong (returns a) s k k' h = h a s
continue_cong fails s k k' h = refl
continue_cong hangs s k k' h = refl
continue_cong faults s k k' h = refl

pub bind_cong :
    {S A B : Type 0} (m : Exec S A) (k k' : A → Exec S B) (s : S)
    → ((a : A) (t : S) → k a t ≡ k' a t)
    → (m >>= k) s ≡ (m >>= k') s
bind_cong m k k' s h = let (r, s') = m s in continue_cong r s' k k' h

-- The step returns with `P`.
abbrev pub Returns : {S A : Type 0} → (A → S → Type 0) → Outcome A × S → Type 0
Returns P (returns a, s) = P a s
Returns P (fails, s) = ⊥
Returns P (hangs, s) = ⊥
Returns P (faults, s) = ⊥

module _ {S A B : Type 0} (P : A → S → Type 0) (Q : B → S → Type 0) where
  Returns-continue :
      (r : Outcome A) (s : S) (k : A → Exec S B)
      → Returns P (r, s)
      → ((a : A) (s' : S) → P a s' → Returns Q (k a s'))
      → Returns Q (continue r k s)
  Returns-continue (returns a) s k h f = f a s h
  Returns-continue fails s k h f = absurd h
  Returns-continue hangs s k h f = absurd h
  Returns-continue faults s k h f = absurd h

  pub Returns-bind :
      (m : Exec S A) (k : A → Exec S B) (s : S)
      → Returns P (m s)
      → ((a : A) (s' : S) → P a s' → Returns Q (k a s'))
      → Returns Q ((m >>= k) s)
  Returns-bind m k s h f = let (r, s') = m s in Returns-continue r s' k h f

pub Returns-map :
    {S A : Type 0} {P Q : A → S → Type 0} (r : Outcome A × S)
    → Returns P r
    → ((a : A) (s : S) → P a s → Q a s)
    → Returns Q r
Returns-map (returns a, s) h f = f a s h
Returns-map (fails, s) h f = h
Returns-map (hangs, s) h f = h
Returns-map (faults, s) h f = h

pub Returns-Ends : {S A : Type 0} (P : A → S → Type 0) (r : Outcome A × S) → Returns P r → Ends P r
Returns-Ends P (returns a, s) h = h
Returns-Ends P (fails, s) h = absurd h
Returns-Ends P (hangs, s) h = absurd h
Returns-Ends P (faults, s) h = absurd h

-- If the step returns, then with `P`.
abbrev pub OnReturn : {S A : Type 0} → (A → S → Type 0) → Outcome A × S → Type 0
OnReturn P (returns a, s) = P a s
OnReturn P (fails, s) = Unit
OnReturn P (hangs, s) = Unit
OnReturn P (faults, s) = Unit

-- A step with no property asked of it.
pub OnReturn-any : {S A : Type 0} (r : Outcome A × S) → OnReturn (λ _ _. Unit {0}) r
OnReturn-any (returns a, s) = tt
OnReturn-any (fails, s) = tt
OnReturn-any (hangs, s) = tt
OnReturn-any (faults, s) = tt

module _ {S A B : Type 0} (P : A → S → Type 0) (Q : B → S → Type 0) where
  OnReturn-continue :
      (r : Outcome A) (s : S) (k : A → Exec S B)
      → OnReturn P (r, s)
      → ((a : A) (s' : S) → P a s' → OnReturn Q (k a s'))
      → OnReturn Q (continue r k s)
  OnReturn-continue (returns a) s k h f = f a s h
  OnReturn-continue fails s k h f = tt
  OnReturn-continue hangs s k h f = tt
  OnReturn-continue faults s k h f = tt

  pub OnReturn-bind :
      (m : Exec S A) (k : A → Exec S B) (s : S)
      → OnReturn P (m s)
      → ((a : A) (s' : S) → P a s' → OnReturn Q (k a s'))
      → OnReturn Q ((m >>= k) s)
  OnReturn-bind m k s h f = let (r, s') = m s in OnReturn-continue r s' k h f

-- A library call that stays in its buffer goes on; else there is nothing to show.
-- A step of which nothing is asked, and the next.
pub OnReturn-skip :
    {S A B : Type 0} (Q : B → S → Type 0) (m : Exec S A) (k : A → Exec S B) (s : S)
    → ((a : A) (s' : S) → OnReturn Q (k a s'))
    → OnReturn Q ((m >>= k) s)
OnReturn-skip Q m k s h =
    OnReturn-bind (λ _ _. Unit {0}) Q m k s (OnReturn-any (m s)) (λ a s' _. h a s')

pub in_bounds-OnReturn :
    {S A B : Type 0} (Q : B → S → Type 0) (o : Option A) (k : A → Exec S B) (s : S)
    → ((a : A) → OnReturn Q (k a s))
    → OnReturn Q ((in_bounds o >>= k) s)
in_bounds-OnReturn Q (some a) k s h = h a
in_bounds-OnReturn Q none k s h = tt

pub in_bounds-OnReturn-eq :
    {S A B : Type 0} (Q : B → S → Type 0) (o : Option A) (k : A → Exec S B) (s : S)
    → ((a : A) → o ≡ some a → OnReturn Q (k a s))
    → OnReturn Q ((in_bounds o >>= k) s)
in_bounds-OnReturn-eq Q (some a) k s h = h a refl
in_bounds-OnReturn-eq Q none k s h = tt

module _ {S A : Type 0} (P Q : A → S → Type 0) where
  pub OnReturn-map :
      (r : Outcome A × S) → OnReturn P r → ((a : A) (s : S) → P a s → Q a s) → OnReturn Q r
  OnReturn-map (returns a, s) h f = f a s h
  OnReturn-map (fails, s) h f = tt
  OnReturn-map (hangs, s) h f = tt
  OnReturn-map (faults, s) h f = tt
