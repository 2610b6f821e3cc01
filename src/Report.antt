-- ===== src/Report.antt =====
-- What the driver reports: the calls on cJSON (external/cJSON, which is not in the repository's tree)
-- that build the objects `updates` and `meta`, in their order. The library itself is not modelled.
pub mod Latest
pub mod Frame
use fanuc_driver.Prelude.{
  ℕ, ℤ, pos, String, Bool, true, false, if◌then◌else◌, List, [], ◌∷◌, ◌++◌, Option, none, some,
}
use fanuc_driver.CString.{Bytes}

-- cJSON_CreateNumber of an integer and of a double, cJSON_CreateString, cJSON_CreateNull.
pub data Scalar (D : Type 0) : Type 0 where
  number : ℤ → Scalar D
  real : D → Scalar D
  string : Bytes → Scalar D
  null : Scalar D

-- A scalar, `cJSON_CreateString(NULL)`, an array of numbers, an array of objects.
pub data Datum (D : Type 0) : Type 0 where
  scalar : Scalar D → Datum D
  string_of_null : Datum D
  numbers : List D → Datum D
  objects : List (List (String × Scalar D)) → Datum D

-- The calls of cJSON_AddItemToObject on one object, the first call first.
abbrev pub Object : Type 0 → Type 0
Object D = List (String × Datum D)

module _ {D : Type 0} where
  abbrev pub add : String → Datum D → Object D → Object D
  add k d o = o ++ (k, d) ∷ []

  -- An item that is added where the test before it holds.
  unfoldable pub add_if : Bool → String → Datum D → Object D → Object D
  add_if changed k d o = if changed then add k d o else o

  abbrev pub create_number : ℤ → Datum D
  create_number z = scalar (number z)

  abbrev pub create_string : Bytes → Datum D
  create_string s = scalar (string s)

-- `lv == NULL || ...`: a value is new where there was none, or where it differs from the last one.
abbrev pub is_new {ℓ} : {A : Type ℓ} → Option A → (A → Bool) → Bool
is_new none differs = true
is_new (some lv) differs = differs lv
