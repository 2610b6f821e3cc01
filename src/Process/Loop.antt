-- ===== src/Process/Loop.antt =====
-- `do { ... } while (!runningCondition)`, the loop of driver/src/main.c and of driver/src/debug.c.
use fanuc_driver.Prelude.{
  ℕ, zero, suc, ◌≤◌, Bool, true, false, Exec, pure, hang, gets, ◌>>=◌, ◌>>◌, arith, OnReturn,
  OnReturn-bind, ◌+◌, OnReturn-map,
}

-- The end of a loop's round: it stops, or goes on.
stop_or :
    {S : Type 0} (Q : S → Type 0) (b : Bool) (m : Exec S (Unit {0})) (s : S)
    → Q s
    → OnReturn (λ _. Q) (m s)
    → OnReturn (λ _. Q) ((elim b as (λ _. Exec S (Unit {0})) [ true ↦ pure tt | false ↦ m ]) s)
stop_or Q true m s h k = h
stop_or Q false m s h k = k

module _ {S : Type 0} (stop : S → Bool) (body : Exec S (Unit {0})) where
  -- For `rounds` rounds at most.
  unfoldable pub until : ℕ → Exec S (Unit {0})
  until zero = hang
  until (suc rounds) = do
    body
    s ← gets (λ s. s)
    elim (stop s) [ true ↦ pure tt | false ↦ until rounds ]

  -- A property that each round keeps.
  module _ (Q R : S → Type 0) (weaken : (s : S) → R s → Q s) where
    pub until-OnReturn :
        ((s : S) → Q s → OnReturn (λ _. R) (body s))
        → (rounds : ℕ) (s : S) → Q s
        → OnReturn (λ _. R) (until rounds s)
    unfolding until
    until-OnReturn keep zero s q = tt
    until-OnReturn keep (suc rounds) s q =
        OnReturn-bind (λ _. R) (λ _. R) body _ s (keep s q)
          (λ _ t r.
            stop_or R (stop t) (until rounds) t r (until-OnReturn keep rounds t (weaken t r)))

  -- A property that counts the rounds.
  module _ (Q : ℕ → S → Type 0) (more_rounds : (a b : ℕ) (s : S) → a ≤ b → Q a s → Q b s) where
    pub until-counted :
        ((n : ℕ) (s : S) → Q n s → OnReturn (λ _. Q (n + 1)) (body s))
        → (rounds n : ℕ) (s : S) → Q n s
        → OnReturn (λ _. Q (n + rounds)) (until rounds s)
    unfolding until
    until-counted keep zero n s q = tt
    until-counted keep (suc rounds) n s q =
        OnReturn-bind (λ _. Q (n + 1)) (λ _. Q (n + suc rounds)) body _ s (keep n s q)
          (λ _ t r.
            stop_or (Q (n + suc rounds)) (stop t) (until rounds) t
              (more_rounds (n + 1) (n + suc rounds) t (omega arith) r)
              (OnReturn-map (λ _. Q (n + 1 + rounds)) (λ _. Q (n + suc rounds)) (until rounds t)
                (until-counted keep rounds (n + 1) t r)
                (λ _ u x. more_rounds (n + 1 + rounds) (n + suc rounds) u (omega arith) x)))
