-- ===== src/Readings/Filled.antt =====
-- Arrays that a loop of driver/src/data.c fills from the front.
use mathlib.Core.Path.{subst}
use fanuc_driver.Prelude.{
  ℕ, suc, ◌≤◌, ◌<◌, ◌≡◌, refl, sym, ◌∙◌, inl, inr, Option, some, List, arith, ◌==◌, ==_iff,
  Bool-cases, length, get_elem?, set, length-set, get_elem?-set_self, get_elem?-set_ne,
}

-- The array `new` is `old` but for the first `n` elements, which are the values `f` of their indices.
abbrev pub Filled : {D : Type 0} → ℕ → (ℕ → Option D) → List D → List D → Type 0
Filled n f old new =
    (length new ≡ length old)
    × ((j : ℕ) → j < n → get_elem? new j ≡ f j)
    × ((j : ℕ) → n ≤ j → get_elem? new j ≡ get_elem? old j)

pub Filled-start : {D : Type 0} (f : ℕ → Option D) (old : List D) → Filled 0 f old old
Filled-start f old = (refl, λ j h. absurd (omega arith), λ j h. refl)

-- One more element.
pub Filled-set :
    {D : Type 0} (n : ℕ) (f : ℕ → Option D) (old new : List D) (x : D)
    → n < length old
    → f n ≡ some x
    → Filled n f old new
    → Filled (suc n) f old (set new n x)
Filled-set n f old new x l e (s, below, above) = (
  length-set new n x ∙ s,
  λ j h. elim (Bool-cases (j == n)) [
    | inl same ↦
        let k : n ≡ j = ground (arith, ==_iff j n) in
        subst (λ i. get_elem? (set new n x) i ≡ f i) k
          (get_elem?-set_self new n x (omega arith) ∙ sym e)
    | inr other ↦
        get_elem?-set_ne new n j x (λ z. ground (arith, ==_iff j n))
        ∙ below j (ground (arith, ==_iff j n))
  ],
  λ j h. get_elem?-set_ne new n j x (λ z. omega arith) ∙ above j (omega arith),
)
