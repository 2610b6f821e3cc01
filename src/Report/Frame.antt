-- ===== src/Report/Frame.antt =====
-- Which keys of an object a check touches, and what a consumer sees of a value through its keys.
use fanuc_driver.Prelude.{
  String, ◌≡◌, refl, ◌∙◌, Bool, true, false, ◌||◌, Option, none, some, List, [], ◌∷◌, ◌++◌, str_eq,
  sym, inl, inr, not, ◌&&◌, arith, eq_iff, Bool-cases, if◌then◌else◌,
}
use fanuc_driver.Report.{Datum, Object, add}
use fanuc_driver.Report.Latest.{latest, latest-append, latest-add}

abbrev pub is_in : String → List String → Bool
is_in k [] = false
is_in k (j ∷ js) = str_eq j k || is_in k js

-- From the object `o` to `o'`, only the items of the keys `ks` have changed.
abbrev pub Frame : {D : Type 0} → List String → Object D → Object D → Type 0
Frame ks o o' = (k : String) → is_in k ks ≡ false → latest k o' ≡ latest k o

not_of :
    (j k : String) (ks : List String) → is_in j ks ≡ true → is_in k ks ≡ false → str_eq j k ≡ false
not_of j k ks i h = elim (Bool-cases (str_eq j k)) [
  | inl e ↦ let same : j ≡ k = (eq_iff j k).0 e in absurd (cc)
  | inr e ↦ e
]

-- A key outside a list is none of its members.
abbrev pub AllDiffer : String → List String → Type 0
AllDiffer k [] = Unit
AllDiffer k (j ∷ js) = (str_eq j k ≡ false) × AllDiffer k js

pub all_differ : (k : String) (ks : List String) → is_in k ks ≡ false → AllDiffer k ks
all_differ k [] h = tt
all_differ k (j ∷ js) h =
    let first : str_eq j k ≡ false = ground arith in
    let rest : is_in k js ≡ false = ground arith in (first, all_differ k js rest)

module _ {D : Type 0} where
  pub Frame-refl : (ks : List String) (o : Object D) → Frame ks o o
  Frame-refl ks o k h = refl

  pub Frame-add :
      (ks : List String) (o o' : Object D) (j : String) (d : Datum D)
      → is_in j ks ≡ true
      → Frame ks o o'
      → Frame ks o (add j d o')
  Frame-add ks o o' j d i f k h = latest-add k j d o' ∙ (rw (not_of j k ks i h) (f k h))

  pub Frame-add_if :
      (ks : List String) (o o' : Object D) (b : Bool) (j : String) (d : Datum D)
      → is_in j ks ≡ true
      → Frame ks o o'
      → Frame ks o (if b then add j d o' else o')
  Frame-add_if ks o o' true j d i f = Frame-add ks o o' j d i f
  Frame-add_if ks o o' false j d i f = f

  -- Behind the items `h` of earlier rounds, too.
  pub Frame-append :
      (ks : List String) (h o o' : Object D) → Frame ks o o' → Frame ks (h ++ o) (h ++ o')
  Frame-append ks h o o' f k i = latest-append k h o' ∙ (rw (f k i) (sym (latest-append k h o)))

-- The keys through which a value is reported, and the item of each.
abbrev pub Fields : Type 0 → Type 0 → Type 0
Fields V D = List (String × (V → Datum D))

-- The latest item of each field is that of the value, if there was one.
abbrev pub Shows : {V D : Type 0} → Fields V D → Option V → Object D → Type 0
Shows fs none o = Unit
Shows [] (some v) o = Unit
Shows ((k, f) ∷ fs) (some v) o = (latest k o ≡ some (f v)) × Shows fs (some v) o

abbrev pub apart : {V D : Type 0} → Fields V D → List String → Bool
apart [] ks = true
apart ((k, f) ∷ fs) ks = not (is_in k ks) && apart fs ks

-- What is seen of a value stays seen where only other keys change.
pub Shows-Frame :
    {V D : Type 0} (fs : Fields V D) (ks : List String) (lv : Option V) (o o' : Object D)
    → apart fs ks ≡ true
    → Frame ks o o'
    → Shows fs lv o
    → Shows fs lv o'
Shows-Frame fs ks none o o' a f s = tt
Shows-Frame [] ks (some v) o o' a f s = tt
Shows-Frame ((k, g) ∷ fs) ks (some v) o o' a f s =
    let out : is_in k ks ≡ false = ground arith in
    let rest : apart fs ks ≡ true = ground arith in
    (f k out ∙ s.0, Shows-Frame fs ks (some v) o o' rest f s.1)
