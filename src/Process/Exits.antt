-- ===== src/Process/Exits.antt =====
-- Rules for the way in which a program ends, and for its loop.
use fanuc_driver.Process.Loop.{until}
use fanuc_driver.Prelude.{
  ℕ, zero, suc, Bool, true, false, Outcome, returns, fails, hangs, faults, Exec, pure, continue,
  ◌>>=◌,
}

-- The end of a process: with success and `R`, with failure and `F`, or none.
abbrev pub Exits : {S A : Type 0} → (A → S → Type 0) → (S → Type 0) → Outcome A × S → Type 0
Exits R F (returns a, s) = R a s
Exits R F (fails, s) = F s
Exits R F (hangs, s) = Unit
Exits R F (faults, s) = Unit

module _ {S A B : Type 0} (R : A → S → Type 0) (Q : B → S → Type 0) (F : S → Type 0) where
  Exits-continue :
      (r : Outcome A) (s : S) (k : A → Exec S B)
      → Exits R F (r, s)
      → ((a : A) (s' : S) → R a s' → Exits Q F (k a s'))
      → Exits Q F (continue r k s)
  Exits-continue (returns a) s k h f = f a s h
  Exits-continue fails s k h f = h
  Exits-continue hangs s k h f = tt
  Exits-continue faults s k h f = tt

  pub Exits-bind :
      (m : Exec S A) (k : A → Exec S B) (s : S)
      → Exits R F (m s)
      → ((a : A) (s' : S) → R a s' → Exits Q F (k a s'))
      → Exits Q F ((m >>= k) s)
  Exits-bind m k s h f = let (r, s') = m s in Exits-continue r s' k h f

module _ {S A : Type 0} (R Q : A → S → Type 0) (F G : S → Type 0) where
  pub Exits-map :
      (r : Outcome A × S)
      → Exits R F r
      → ((a : A) (s : S) → R a s → Q a s)
      → ((s : S) → F s → G s)
      → Exits Q G r
  Exits-map (returns a, s) h f g = f a s h
  Exits-map (fails, s) h f g = g s h
  Exits-map (hangs, s) h f g = tt
  Exits-map (faults, s) h f g = tt

until_or :
    {S : Type 0} (Q F : S → Type 0) (b : Bool) (m : Exec S (Unit {0})) (s : S)
    → Q s
    → Exits (λ _. Q) F (m s)
    → Exits (λ _. Q) F ((elim b as (λ _. Exec S (Unit {0})) [ true ↦ pure tt | false ↦ m ]) s)
until_or Q F true m s h k = h
until_or Q F false m s h k = k

module _ {S : Type 0} (stop : S → Bool) (body : Exec S (Unit {0})) (Q F : S → Type 0) where
  pub until-Exits :
      ((s : S) → Q s → Exits (λ _. Q) F (body s))
      → (rounds : ℕ) (s : S) → Q s
      → Exits (λ _. Q) F (until stop body rounds s)
  unfolding until
  until-Exits keep zero s q = tt
  until-Exits keep (suc rounds) s q =
      Exits-bind (λ _. Q) (λ _. Q) F body _ s (keep s q)
        (λ _ t r. until_or Q F (stop t) (until stop body rounds) t r (until-Exits keep rounds t r))
