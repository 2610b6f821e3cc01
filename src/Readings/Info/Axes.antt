-- ===== src/Readings/Info/Axes.antt =====
-- getMachineInfo: the axes and their divisors, which getMachineDynamic divides by.
use mathlib.Core.Path.{subst}
use fanuc_driver.Readings.Info.{axis_unith, fill_axis, fill_axis_data, axis_step, axis_loop}
use fanuc_driver.CString.{Bytes, c_str, pad}
use fanuc_driver.CString.Laws.{sprintf_fits, strncpy_fits}
use fanuc_driver.Env.Reader.{Reader}
use fanuc_driver.Focas.{Odbaxdt, Odbaxisname}
use fanuc_driver.Prelude.{
  ℕ, suc, ◌≤◌, ◌<◌, ◌≡◌, refl, some, ◌∷◌, ◌++◌, lt→ltb, length, get_elem?, drop, pos, returns, sym,
  ap, ◌∙◌, inl, inr, Bool, true, false, Option, none, List, arith, ◌==◌, ==_iff, Bool-cases, set,
  length-set, get_elem?-set_self, get_elem?-set_ne, ℤ, zero, [], ltb, Returns, ◌+◌, Returns-bind,
  Returns-map,
}
use fanuc_driver.Types.{MachineAxisInfo, MachineInfo}
use fanuc_driver.Env.{Env}
use fanuc_driver.Readings.Filled.{Filled, Filled-set}

module _ {W D : Type 0} where
  fill_axis_lem :
      (i : ℕ) (q : D) (ax : Odbaxisname) (a : MachineAxisInfo D) (s : Reader W D)
      → 1 < length a.id
      → 1 < length a.suffix
      → (a' : MachineAxisInfo D) × (fill_axis i q ax a s ≡ (returns a', s))
        × (a'.index ≡ pos i)
        × (a'.divisor ≡ q)
        × (a'.name ≡ a.name)
        × (a'.unith ≡ a.unith)
  unfolding fill_axis
  fill_axis_lem i q ax a s h1 h2 = (
    record a {
      id = ax.name ∷ 0 ∷ drop 2 a.id;
      index = pos i;
      suffix = ax.suff ∷ 0 ∷ drop 2 a.suffix;
      divisor = q;
    },
    rw (lt→ltb _ _ h1, lt→ltb _ _ h2) refl,
    refl,
    refl,
    refl,
    refl,
  )

  fill_axis_data_lem :
      (x : Odbaxdt) (u : ℕ) (text : Bytes) (a : MachineAxisInfo D) (s : Reader W D)
      → x.unit ≡ pos u
      → get_elem? axis_unith u ≡ some text
      → length (c_str x.name) < length a.name
      → 20 ≤ length a.unith
      → (a' : MachineAxisInfo D) × (fill_axis_data x a s ≡ (returns a', s))
        × (a'.index ≡ a.index)
        × (a'.divisor ≡ a.divisor)
        × (a'.flag ≡ x.flag)
        × (a'.unit ≡ x.unit)
        × (a'.decimal ≡ x.dec)
  unfolding fill_axis_data
  fill_axis_data_lem x u text a s eu et h1 h2 = (
    record a {
      name = c_str x.name ++ 0 ∷ drop (suc (length (c_str x.name))) a.name;
      flag = x.flag;
      unit = x.unit;
      unith = pad 20 (c_str text) ++ drop 20 a.unith;
      decimal = x.dec;
    },
    rw (eu, et, sprintf_fits a.name (c_str x.name) h1, strncpy_fits a.unith text 20 h2) refl,
    refl,
    refl,
    refl,
    refl,
    refl,
  )

get_elem?-some-lt :
    {A : Type 0} (xs : List A) (i : ℕ) {x : A} → get_elem? xs i ≡ some x → i < length xs
get_elem?-some-lt [] i e = cc
get_elem?-some-lt (x ∷ xs) zero e = omega arith
get_elem?-some-lt (x ∷ xs) (suc i) e = omega (arith, get_elem?-some-lt xs i e)

module _ {W D : Type 0} (env : Env W D) (has_axis_data : Bool) (inprec : List ℤ)
    (names : List Odbaxisname) (axis_data : List Odbaxdt) where
  abbrev pub divisor_of : ℕ → Option D
  divisor_of j = elim (get_elem? inprec j) [
    | none ↦ none
    | some places ↦ some (env.floats.pow10 places)
  ]

  -- The axis data of an axis, where there are any, can be written into its slot.
  abbrev pub DataFits : Bool → ℕ → MachineAxisInfo D → Type 0
  DataFits false j a = Unit
  DataFits true j a =
      (x : Odbaxdt) × (u : ℕ) × (text : Bytes) × (get_elem? axis_data j ≡ some x)
      × (x.unit ≡ pos u)
      × (get_elem? axis_unith u ≡ some text)
      × (length (c_str x.name) < length a.name)
      × (20 ≤ length a.unith)

  -- The replies, the table of divisors and the struct have room for the axis `j`.
  abbrev pub AxisFits : MachineInfo D → List D → ℕ → Type 0
  AxisFits v divisors j =
      (places : ℤ) × (ax : Odbaxisname) × (a : MachineAxisInfo D) × (get_elem? inprec j
        ≡ some places)
      × (get_elem? names j ≡ some ax)
      × (get_elem? v.axes j ≡ some a)
      × (j < length divisors)
      × (1 < length a.id)
      × (1 < length a.suffix)
      × DataFits has_axis_data j a

  -- The numbers of the axis data are those of the struct.
  abbrev pub DataShown : Bool → ℕ → MachineAxisInfo D → Type 0
  DataShown false j a = Unit
  DataShown true j a =
      (x : Odbaxdt) × (get_elem? axis_data j ≡ some x)
      × (a.flag ≡ x.flag)
      × (a.unit ≡ x.unit)
      × (a.decimal ≡ x.dec)

  abbrev pub AxisShown : MachineInfo D → ℕ → Type 0
  AxisShown v j =
      (a : MachineAxisInfo D) × (get_elem? v.axes j ≡ some a)
      × (a.index ≡ pos j)
      × (divisor_of j ≡ some a.divisor)
      × DataShown has_axis_data j a

  -- The first `n` axes are read, and the others are as they were.
  pub record AxesRead (n : ℕ) (v0 v : MachineInfo D) (old new : List D) : Type 0 where
    pub divisors : Filled n divisor_of old new
    pub size : length v.axes ≡ length v0.axes
    pub count : v.axes_count ≡ v0.axes_count
    pub shown : (j : ℕ) → j < n → AxisShown v j
    pub kept : (j : ℕ) → n ≤ j → get_elem? v.axes j ≡ get_elem? v0.axes j

  -- One axis more.
  AxesRead-set :
      (i : ℕ) (v0 v : MachineInfo D) (old new : List D) (places : ℤ) (a : MachineAxisInfo D)
      → i < length old
      → i < length v0.axes
      → get_elem? inprec i ≡ some places
      → a.index ≡ pos i
      → a.divisor ≡ env.floats.pow10 places
      → DataShown has_axis_data i a
      → AxesRead i v0 v old new
      → AxesRead
          (suc i)
          v0
          (record v { axes = set v.axes i a })
          old
          (set new i (env.floats.pow10 places))
  AxesRead-set i v0 v old new places a h1 h2 ep ei ed shows r =
      let q : divisor_of i ≡ some (env.floats.pow10 places) = rw (divisor_of, ep) refl in
      record {
        divisors = Filled-set i divisor_of old new _ h1 q r.divisors;
        size = length-set v.axes i a ∙ r.size;
        count = r.count;
        shown = λ j h. elim (Bool-cases (j == i)) [
          | inl same ↦
              let e : i ≡ j = ground (arith, ==_iff j i) in
              subst (AxisShown (record v { axes = set v.axes i a })) e (
                a,
                get_elem?-set_self v.axes i a (omega (arith, r.size)),
                ei,
                q ∙ ap some (sym ed),
                shows,
              )
          | inr other ↦
              let (b, eb, ib, db, sb) = r.shown j (ground (arith, ==_iff j i)) in
              (b, get_elem?-set_ne v.axes i j a (λ e. ground (arith, ==_iff j i)) ∙ eb, ib, db, sb)
        ];
        kept = λ j h. get_elem?-set_ne v.axes i j a (λ e. omega arith) ∙ r.kept j (omega arith);
      }

module _ {W D : Type 0} (env : Env W D) (inprec : List ℤ) (names : List Odbaxisname)
    (axis_data : List Odbaxdt) where
  axis_step_lem :
      (b : Bool) (i : ℕ) (v0 v : MachineInfo D) (old : List D) (s : Reader W D)
      → AxisFits env b inprec names axis_data v0 old i
      → AxesRead env b inprec names axis_data i v0 v old s.divisors
      → Returns
          (λ v' s'.
            AxesRead env b inprec names axis_data (suc i) v0 v' old s'.divisors
            × (s'.axis_count ≡ s.axis_count))
          (axis_step env b inprec names axis_data i v s)
  unfolding axis_step
  axis_step_lem true i v0 v old s
        (places, ax, a, ep, ex, ea, hl, h1, h2, (x, u, text, e1, e2, e3, h3, h4)) r =
      let q = env.floats.pow10 places in
      let s' : Reader W D = record s { divisors = set s.divisors i q } in
      let room : ltb i (length s.divisors) ≡ true = lt→ltb _ _ (omega (arith, r.divisors.0)) in
      let slot = r.kept i (omega arith) ∙ ea in
      let (a1, f1, i1, d1, n1, u1) = fill_axis_lem i q ax a s' h1 h2 in
      let (a2, f2, i2, d2, g1, g2, g3) =
        fill_axis_data_lem x u text a1 s' e2 e3
          (subst (λ z. length (c_str x.name) < length z) (sym n1) h3)
          (subst (λ z. 20 ≤ length z) (sym u1) h4) in
      rw (ep, room, ex, slot, f1, e1, f2)
        (
          AxesRead-set env true inprec names axis_data i v0 v old s.divisors places a2 hl
              (get_elem?-some-lt v0.axes i ea) ep (i2 ∙ i1) (d2 ∙ d1) (x, e1, g1, g2, g3) r,
          refl,
        )
  axis_step_lem false i v0 v old s (places, ax, a, ep, ex, ea, hl, h1, h2, _) r =
      let q = env.floats.pow10 places in
      let s' : Reader W D = record s { divisors = set s.divisors i q } in
      let room : ltb i (length s.divisors) ≡ true = lt→ltb _ _ (omega (arith, r.divisors.0)) in
      let slot = r.kept i (omega arith) ∙ ea in
      let (a1, f1, i1, d1, n1, u1) = fill_axis_lem i q ax a s' h1 h2 in
      rw (ep, room, ex, slot, f1)
        (
          AxesRead-set env false inprec names axis_data i v0 v old s.divisors places a1 hl
              (get_elem?-some-lt v0.axes i ea) ep i1 d1 tt r,
          refl,
        )

module _ {W D : Type 0} (env : Env W D) (b : Bool) (inprec : List ℤ) (names : List Odbaxisname)
    (axis_data : List Odbaxdt) where
  pub axis_loop_lem :
      (n i : ℕ) (v0 v : MachineInfo D) (old : List D) (s : Reader W D)
      → ((j : ℕ) → j < i + n → AxisFits env b inprec names axis_data v0 old j)
      → AxesRead env b inprec names axis_data i v0 v old s.divisors
      → Returns
          (λ v' s'.
            AxesRead env b inprec names axis_data (i + n) v0 v' old s'.divisors
            × (s'.axis_count ≡ s.axis_count))
          (axis_loop env b inprec names axis_data n i v s)
  unfolding axis_loop
  axis_loop_lem zero i v0 v old s fits r = (
    subst (λ k. AxesRead env b inprec names axis_data k v0 v old s.divisors) (omega arith) r,
    refl,
  )
  axis_loop_lem (suc n) i v0 v old s fits r =
      let same : suc i + n ≡ i + suc n = omega arith in
      let one : suc i ≡ i + 1 = omega arith in
      let Q = λ (v' : MachineInfo D) (s' : Reader W D).
        AxesRead env b inprec names axis_data (i + suc n) v0 v' old s'.divisors
        × (s'.axis_count ≡ s.axis_count) in
      Returns-bind
        (λ v' s'.
          AxesRead env b inprec names axis_data (suc i) v0 v' old s'.divisors
          × (s'.axis_count ≡ s.axis_count))
        Q (axis_step env b inprec names axis_data i v) _ s
        (axis_step_lem env inprec names axis_data b i v0 v old s (fits i (omega arith)) r)
        (λ v1 s1 (r1, c1).
          subst (λ k. Returns Q (axis_loop env b inprec names axis_data n k v1 s1)) one
            (Returns-map (axis_loop env b inprec names axis_data n (suc i) v1 s1)
              (axis_loop_lem n (suc i) v0 v1 old s1 (λ j h. fits j (omega arith)) r1)
              (λ v2 s2 (r2, c2). (
                subst (λ k. AxesRead env b inprec names axis_data k v0 v2 old s2.divisors) same r2,
                c2 ∙ c1,
              ))))
