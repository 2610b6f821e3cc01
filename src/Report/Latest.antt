-- ===== src/Report/Latest.antt =====
-- The view of a consumer who keeps, for each key, the item reported last.
use mathlib.Core.List.{append_assoc}
use fanuc_driver.Report.{add_if, Datum, Object, add, create_number, create_string}
use fanuc_driver.Prelude.{
  String, ◌≡◌, refl, Bool, true, false, ◌&&◌, Option, none, some, [], ◌∷◌, ◌++◌, arith, str_eq,
  if◌then◌else◌, ap, ◌∙◌, not, ℤ, ◌==ℤ◌, ==ℤ_iff,
}
use fanuc_driver.CString.{Bytes, c_str, strcmp_ne}
use fanuc_driver.CString.Laws.{strcmp→eq}

module _ {D : Type 0} where
  unfoldable pub latest : String → Object D → Option (Datum D)
  latest k [] = none
  latest k ((j, d) ∷ o) = elim (latest k o) [
    | some e ↦ some e
    | none ↦ if str_eq j k then some d else none
  ]

  pub latest-add :
      (k j : String) (d : Datum D) (o : Object D)
      → latest k (add j d o) ≡ (if str_eq j k then some d else latest k o)
  unfolding latest
  latest-add k j d [] = ground arith
  latest-add k j d ((i, e) ∷ o) = ground (arith, latest-add k j d o)

  -- A conditional item is the latest of its key exactly where its test held.
  pub latest-add_if :
      (k j : String) (b : Bool) (d : Datum D) (o : Object D)
      → latest k (add_if b j d o) ≡ (if b && str_eq j k then some d else latest k o)
  unfolding add_if
  latest-add_if k j true d o = latest-add k j d o
  latest-add_if k j false d o = refl

  pub latest-append :
      (k : String) (o o' : Object D)
      → latest k (o ++ o') ≡ elim (latest k o') [ some e ↦ some e | none ↦ latest k o ]
  unfolding latest
  latest-append k [] o' = ground arith
  latest-append k ((i, e) ∷ o) o' = ground (arith, latest-append k o o')

-- Items are added behind whatever was reported before.
pub add_if-append :
    {D : Type 0} (b : Bool) (k : String) (d : Datum D) (h o : Object D)
    → add_if b k d (h ++ o) ≡ h ++ add_if b k d o
unfolding add_if
add_if-append true k d h o = append_assoc h o ((k, d) ∷ [])
add_if-append false k d h o = refl

pub and_false : (b : Bool) → (b && false) ≡ false
and_false true = refl
and_false false = refl

pub and_true : (b : Bool) → (b && true) ≡ b
and_true true = refl
and_true false = refl

-- The same behind the items `h` of earlier rounds.
pub latest-append-add_if :
    {D : Type 0} (k j : String) (b : Bool) (d : Datum D) (h o : Object D)
    → latest k (h ++ add_if b j d o) ≡ (if b && str_eq j k then some d else latest k (h ++ o))
latest-append-add_if k j b d h o = rw (← add_if-append b j d h o) (latest-add_if k j b d (h ++ o))

-- With these `simp` computes the latest item of a key after items of named keys.
pub ruleset view_laws = (latest-add, latest-add_if, latest-append-add_if, and_false, and_true)

-- A consumer stays up to date where the item is added, and where it is not because the value is the
-- same.
pub kept :
    {A : Type 0} (b : Bool) (d : A) (old : Option A)
    → (b ≡ false → old ≡ some d)
    → (if b then some d else old) ≡ some d
kept true d old h = refl
kept false d old h = h refl

-- The test of a number found no difference.
pub kept_number :
    {D : Type 0} (z v : ℤ) (old : Option (Datum D))
    → old ≡ some (create_number z)
    → (if not (z ==ℤ v) then some (create_number v) else old) ≡ some (create_number v)
kept_number z v old h = ground (arith, ==ℤ_iff z v)

-- `strcmp` found no difference.
pub kept_text :
    {D : Type 0} (s v : Bytes) (old : Option (Datum D))
    → old ≡ some (create_string (c_str s))
    → (if strcmp_ne s v then some (create_string (c_str v)) else old)
      ≡ some (create_string (c_str v))
kept_text s v old h =
    kept (strcmp_ne s v) (create_string (c_str v)) old
      (λ e. h ∙ ap (λ t. some (create_string t)) (strcmp→eq s v e))
