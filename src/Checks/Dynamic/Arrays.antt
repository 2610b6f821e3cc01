-- ===== src/Checks/Dynamic/Arrays.antt =====
-- What a consumer sees of the four arrays of checkMachineDynamic, which are compared element by
-- element and reported whole.
use mathlib.Core.Path.{subst}
use fanuc_driver.Checks.Dynamic.{first_of_array, any_ne, array_changed, add_array, array_updates}
use fanuc_driver.Report.Latest.{latest, latest-add, latest-append}
use fanuc_driver.Env.{Floats}
use fanuc_driver.Prelude.{
  ℕ, zero, suc, String, ◌≡◌, refl, ap, ◌∙◌, ◌⊎◌, inl, inr, Bool, false, ◌||◌, Option, none, some,
  List, [], ◌∷◌, arith, ◌<◌, true, ◌++◌, eq_iff, pos_part,
}
use fanuc_driver.Report.{numbers, Object, add}
use fanuc_driver.Types.{MachineDynamic}
use fanuc_driver.Checks.Sync.Frames.{steps, add_array-Frame}
use fanuc_driver.Report.Frame.{is_in, Frame, Frame-refl, Frame-append}

-- An element is shown as one that `!=` does not tell from it.
abbrev pub Same : {D : Type 0} → (D → D → Bool) → D → D → Type 0
Same ne x y = (x ≡ y) ⊎ (ne x y ≡ false)

-- The list `r` shows the first `n` elements of the array `xs`, and no more.
abbrev pub ShowsFirst : {D : Type 0} → (D → D → Bool) → ℕ → List D → List D → Type 0
ShowsFirst ne zero [] xs = Unit
ShowsFirst ne zero (y ∷ r) xs = ⊥
ShowsFirst ne (suc n) [] xs = ⊥
ShowsFirst ne (suc n) (y ∷ r) [] = ⊥
ShowsFirst ne (suc n) (y ∷ r) (x ∷ xs) = Same ne y x × ShowsFirst ne n r xs

module _ {D : Type 0} (floats : Floats D) where
  -- The latest item of the key shows the last array.
  abbrev pub ArrayView :
      String → (MachineDynamic D → List D) → ℕ → Option (MachineDynamic D) → Object D → Type 0
  ArrayView k array n none o = Unit
  ArrayView k array n (some v) o =
      (r : List D) × (latest k o ≡ some (numbers r)) × ShowsFirst floats.ne n r (array v)

  first-ShowsFirst :
      (n : ℕ) (xs r : List D) → first_of_array n xs ≡ some r → ShowsFirst floats.ne n r xs
  unfolding first_of_array
  first-ShowsFirst zero xs [] e = tt
  first-ShowsFirst zero xs (y ∷ r) e = cc
  first-ShowsFirst (suc n) [] r e = cc
  first-ShowsFirst (suc n) (x ∷ xs) r e = go (first_of_array n xs) refl e (first-ShowsFirst n xs)
    where
      go :
          (m : Option (List D))
          → first_of_array n xs ≡ m
          → (elim m as (λ _. Option (List D)) [ none ↦ none | some q ↦ some (x ∷ q) ]) ≡ some r
          → ((q : List D) → first_of_array n xs ≡ some q → ShowsFirst floats.ne n q xs)
          → ShowsFirst floats.ne (suc n) r (x ∷ xs)
      go none h e ih = cc
      go (some q) h e ih =
          let same : x ∷ q ≡ r = cc in
          subst (λ z. ShowsFirst floats.ne (suc n) z (x ∷ xs)) same (inl refl, ih q h)

  -- `!=` is no difference that adds up.
  module _
      (trans : (a b c : D)
        → floats.ne a b ≡ false
        → floats.ne b c ≡ false
        → floats.ne a c ≡ false) where
    Same-trans : (a b c : D) → Same floats.ne a b → floats.ne b c ≡ false → Same floats.ne a c
    Same-trans a b c (inl e) h = inr (rw e h)
    Same-trans a b c (inr e) h = inr (trans a b c e h)

    any_ne-ShowsFirst :
        (n : ℕ) (xs ys r : List D)
        → any_ne floats.ne n xs ys ≡ some false
        → ShowsFirst floats.ne n r xs
        → ShowsFirst floats.ne n r ys
    unfolding any_ne
    any_ne-ShowsFirst zero xs ys [] e s = tt
    any_ne-ShowsFirst zero xs ys (y ∷ r) e s = s
    any_ne-ShowsFirst (suc n) xs ys [] e s = s
    any_ne-ShowsFirst (suc n) [] ys (z ∷ r) e s = cc
    any_ne-ShowsFirst (suc n) (x ∷ xs) [] (z ∷ r) e s = cc
    any_ne-ShowsFirst (suc n) (x ∷ xs) (y ∷ ys) (z ∷ r) e (a, s) =
        go (any_ne floats.ne n xs ys) refl e (λ h. any_ne-ShowsFirst n xs ys r h s)
      where
        go :
            (m : Option Bool)
            → any_ne floats.ne n xs ys ≡ m
            → (elim m as (λ _. Option Bool) [ none ↦ none | some b ↦ some (floats.ne x y || b) ])
              ≡ some false
            → (any_ne floats.ne n xs ys ≡ some false → ShowsFirst floats.ne n r ys)
            → ShowsFirst floats.ne (suc n) (z ∷ r) (y ∷ ys)
        go none h e ih = cc
        go (some b) h e ih =
            let here : floats.ne x y ≡ false = ground arith in
            let rest : b ≡ false = ground arith in (Same-trans z x y a here, ih (h ∙ ap some rest))

    -- One array: with the items that its flag adds, the consumer is up to date again.
    add_array-ArrayView :
        (k : String) (array : MachineDynamic D → List D) (n : ℕ) (lv : Option (MachineDynamic D))
        (v : MachineDynamic D) (h o o' : Object D) (b : Bool)
        → 0 < n
        → array_changed floats lv array n v ≡ some b
        → add_array b k n (array v) o ≡ some o'
        → ArrayView k array n lv (h ++ o)
        → ArrayView k array n (some v) (h ++ o')
    unfolding array_changed add_array
    add_array-ArrayView k array n lv v h o o' true p c e s = go (first_of_array n (array v)) refl e
      where
        go :
            (m : Option (List D))
            → first_of_array n (array v) ≡ m
            → (elim m as (λ _. Option (Object D)) [
              | none ↦ none
              | some r ↦ some (add k (numbers r) o)
            ])
              ≡ some o'
            → ArrayView k array n (some v) (h ++ o')
        go none f e = cc
        go (some r) f e =
            let same : add k (numbers r) o ≡ o' = cc in
            (
              r,
              subst (λ u. latest k (h ++ u) ≡ some (numbers r)) same
                  (latest-append k h (add k (numbers r) o)
                    ∙ (rw (latest-add k k (numbers r) o, (eq_iff k k).1 refl) refl)),
              first-ShowsFirst n (array v) r f,
            )
    add_array-ArrayView k array n none v h o o' false p c e s = ground arith
    add_array-ArrayView k array n (some l) v h o o' false p c e (r, q, s) =
        let same : o ≡ o' = cc in
        (
          r,
          subst (λ u. latest k (h ++ u) ≡ some (numbers r)) same q,
          any_ne-ShowsFirst n (array l) (array v) r c s,
        )

  -- All four arrays.
  abbrev pub ArraysView : ℕ → Option (MachineDynamic D) → Object D → Type 0
  ArraysView n lv o =
      ArrayView "absolute" (λ l. l.absolute) n lv o
      × ArrayView "relative" (λ l. l.relative) n lv o
      × ArrayView "actual" (λ l. l.actual) n lv o
      × ArrayView "load" (λ l. l.load) n lv o

  -- An array's item touches no other key.
  one_array-Frame :
      (k : String) (b : Bool) (n : ℕ) (xs : List D) (h o o' : Object D)
      → is_in k (k ∷ []) ≡ true
      → add_array b k n xs o ≡ some o'
      → Frame (k ∷ []) (h ++ o) (h ++ o')
  one_array-Frame k b n xs h o o' i e =
      Frame-append (k ∷ []) h o o'
        (add_array-Frame (k ∷ []) b k n xs o o o' i (Frame-refl (k ∷ []) o) e)

  ArrayView-Frame :
      (k : String) (ks : List String) (array : MachineDynamic D → List D) (n : ℕ)
      (lv : Option (MachineDynamic D)) (o o' : Object D)
      → is_in k ks ≡ false
      → Frame ks o o'
      → ArrayView k array n lv o
      → ArrayView k array n lv o'
  ArrayView-Frame k ks array n none o o' i f s = tt
  ArrayView-Frame k ks array n (some l) o o' i f (r, e, s) = (r, f k i ∙ e, s)

  -- Where `!=` is transitive as a test of sameness, and there is an axis at least: if a consumer sees
  -- each of the last four arrays, by elements that `!=` does not tell from it, then he sees the
  -- next ones so, with the items that the check adds; with no last value he does from the first
  -- check on. `h` are the items of earlier rounds, and the arrays have the new count of axes.
  pub arrays_synced :
      ((a b c : D) → floats.ne a b ≡ false → floats.ne b c ≡ false → floats.ne a c ≡ false)
      → (lv : Option (MachineDynamic D)) (v : MachineDynamic D) (h o o' : Object D)
      → 0 < pos_part v.dim
      → array_updates floats lv v o ≡ some o'
      → ArraysView (pos_part v.dim) lv (h ++ o)
      → ArraysView (pos_part v.dim) (some v) (h ++ o')
  unfolding array_updates
  arrays_synced trans lv v h o o' p e (sa, sr, sc, sl) =
      let n = pos_part v.dim in
      let (abs, c1, e1) = steps (array_changed floats lv (λ l. l.absolute) n v) _ o' e in
      let (rel, c2, e2) = steps (array_changed floats lv (λ l. l.relative) n v) _ o' e1 in
      let (act, c3, e3) = steps (array_changed floats lv (λ l. l.actual) n v) _ o' e2 in
      let (load, c4, e4) = steps (array_changed floats lv (λ l. l.load) n v) _ o' e3 in
      let (o1, a1, e5) = steps (add_array abs "absolute" n v.absolute o) _ o' e4 in
      let (o2, a2, e6) = steps (add_array rel "relative" n v.relative o1) _ o' e5 in
      let (o3, a3, a4) = steps (add_array act "actual" n v.actual o2) _ o' e6 in
      let f1 = one_array-Frame "absolute" abs n v.absolute h o o1 refl a1 in
      let f2 = one_array-Frame "relative" rel n v.relative h o1 o2 refl a2 in
      let f3 = one_array-Frame "actual" act n v.actual h o2 o3 refl a3 in
      let f4 = one_array-Frame "load" load n v.load h o3 o' refl a4 in
      let va =
        add_array-ArrayView trans "absolute" (λ l. l.absolute) n lv v h o o1 abs p c1 a1 sa in
      let vr =
        add_array-ArrayView trans "relative" (λ l. l.relative) n lv v h o1 o2 rel p c2 a2
          (ArrayView-Frame "relative" ("absolute" ∷ []) (λ l. l.relative) n lv _ _ refl f1 sr) in
      let vc =
        add_array-ArrayView trans "actual" (λ l. l.actual) n lv v h o2 o3 act p c3 a3
          (ArrayView-Frame "actual" ("relative" ∷ []) (λ l. l.actual) n lv _ _ refl f2
            (ArrayView-Frame "actual" ("absolute" ∷ []) (λ l. l.actual) n lv _ _ refl f1 sc)) in
      let vl =
        add_array-ArrayView trans "load" (λ l. l.load) n lv v h o3 o' load p c4 a4
          (ArrayView-Frame "load" ("actual" ∷ []) (λ l. l.load) n lv _ _ refl f3
            (ArrayView-Frame "load" ("relative" ∷ []) (λ l. l.load) n lv _ _ refl f2
              (ArrayView-Frame "load" ("absolute" ∷ []) (λ l. l.load) n lv _ _ refl f1 sl))) in
      (
        ArrayView-Frame "absolute" ("load" ∷ []) (λ l. l.absolute) n (some v) _ _ refl f4
            (ArrayView-Frame "absolute" ("actual" ∷ []) (λ l. l.absolute) n (some v) _ _ refl f3
              (ArrayView-Frame "absolute" ("relative" ∷ []) (λ l. l.absolute) n (some v) _ _ refl f2
                va)),
        ArrayView-Frame "relative" ("load" ∷ []) (λ l. l.relative) n (some v) _ _ refl f4
            (ArrayView-Frame "relative" ("actual" ∷ []) (λ l. l.relative) n (some v) _ _ refl f3
              vr),
        ArrayView-Frame "actual" ("load" ∷ []) (λ l. l.actual) n (some v) _ _ refl f4 vc,
        vl,
      )
