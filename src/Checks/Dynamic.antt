-- ===== src/Checks/Dynamic.antt =====
-- checkMachineDynamic of driver/src/check.c.
pub mod Arrays
use fanuc_driver.Checks.State.{Driver, Check, freed_last, take_reading_or_free, add_duration}
use fanuc_driver.Env.{Floats, Env}
use fanuc_driver.Prelude.{
  ℕ, zero, suc, String, Bool, true, false, not, ◌||◌, Option, none, some, List, [], ◌∷◌, ltb,
  if◌then◌else◌, ℤ, pos_part, ◌==ℤ◌, gets, in_bounds, ◌>>=◌, modify, ◌>>?◌,
}
use fanuc_driver.Readings.Dynamic.{get_machine_dynamic}
use fanuc_driver.Report.{numbers, Object, add, add_if, create_number, is_new}
use fanuc_driver.Types.{MachineDynamic}

module _ {D : Type 0} where
  -- The first `n` elements of an array, `none` where they run past its end.
  unfoldable pub first_of_array : ℕ → List D → Option (List D)
  first_of_array zero xs = some []
  first_of_array (suc n) [] = none
  first_of_array (suc n) (x ∷ xs) = elim (first_of_array n xs) [
    | none ↦ none
    | some r ↦ some (x ∷ r)
  ]

  -- The loop that sets a flag where an element differs from the last one.
  unfoldable pub any_ne : (D → D → Bool) → ℕ → List D → List D → Option Bool
  any_ne ne zero xs ys = some false
  any_ne ne (suc n) [] ys = none
  any_ne ne (suc n) (x ∷ xs) [] = none
  any_ne ne (suc n) (x ∷ xs) (y ∷ ys) = elim (any_ne ne n xs ys) [
    | none ↦ none
    | some b ↦ some (ne x y || b)
  ]

  -- Whether an array of the dynamic values is reported; `n` is the count of axes.
  unfoldable pub array_changed :
      Floats D
      → Option (MachineDynamic D)
      → (MachineDynamic D → List D)
      → ℕ
      → MachineDynamic D
      → Option Bool
  unfolding any_ne
  array_changed floats none array n v = some (ltb 0 n)
  array_changed floats (some lv) array n v = any_ne floats.ne n (array lv) (array v)

  -- The array is added where its flag is set.
  unfoldable pub add_array : Bool → String → ℕ → List D → Object D → Option (Object D)
  unfolding first_of_array
  add_array false k n xs o = some o
  add_array true k n xs o = elim (first_of_array n xs) [
    | none ↦ none
    | some r ↦ some (add k (numbers r) o)
  ]

  -- The four arrays: first the flags, over the first `dim` elements, then the arrays that changed.
  unfoldable pub array_updates :
      Floats D → Option (MachineDynamic D) → MachineDynamic D → Object D → Option (Object D)
  unfolding array_changed add_array
  array_updates floats lv v o =
      let n = pos_part v.dim in
      array_changed floats lv (λ l. l.absolute) n v >>? λ abs.
      array_changed floats lv (λ l. l.relative) n v >>? λ rel.
      array_changed floats lv (λ l. l.actual) n v >>? λ act.
      array_changed floats lv (λ l. l.load) n v >>? λ load.
      add_array abs "absolute" n v.absolute o >>? λ o1.
      add_array rel "relative" n v.relative o1 >>? λ o2.
      add_array act "actual" n v.actual o2 >>? λ o3. add_array load "load" n v.load o3

abbrev pub short_differs :
    {D : Type 0} → Option (MachineDynamic D) → (MachineDynamic D → ℤ) → MachineDynamic D → Bool
short_differs lv value v = is_new lv (λ l. not (value l ==ℤ value v))

-- The items of the numbers that changed.
unfoldable pub number_updates :
    {D : Type 0} → Option (MachineDynamic D) → MachineDynamic D → Object D → Object D
unfolding add_if
number_updates lv v o =
    let o1 =
      add_if (short_differs lv (λ l. l.cprogram) v) "cprogram" (create_number v.cprogram) o in
    let o2 =
      add_if (short_differs lv (λ l. l.mprogram) v) "mprogram" (create_number v.mprogram) o1 in
    let o3 =
      add_if (short_differs lv (λ l. l.sequence) v) "sequence" (create_number v.sequence) o2 in
    let o4 = add_if (short_differs lv (λ l. l.actf) v) "actf" (create_number v.actf) o3 in
    let o5 = add_if (short_differs lv (λ l. l.acts) v) "acts" (create_number v.acts) o4 in
    add_if (short_differs lv (λ l. l.alarm) v) "alarm" (create_number v.alarm) o5

module _ {W D : Type 0} where
  -- The program numbers, shared with the checks of the programs, and the other numbers.
  unfoldable pub report_dynamic_numbers : MachineDynamic D → Object D → Driver W D → Driver W D
  unfolding number_updates
  report_dynamic_numbers v o d =
      let lv = d.last_dynamic in
      let d1 = record d {
        c_program_num =
            if short_differs lv (λ l. l.cprogram) v then v.cprogram else d.c_program_num;
        m_program_num =
            if short_differs lv (λ l. l.mprogram) v then v.mprogram else d.m_program_num;
        updates = number_updates lv v o;
      } in
      let d2 = add_duration "dynamic" v.execution_duration d1 in
      record d2 { blocks = freed_last lv d2.blocks; last_dynamic = some v }

  unfoldable pub report_dynamic : Floats D → MachineDynamic D → Check W D (Unit {0})
  report_dynamic floats v = do
    d ← gets (λ d. d)
    o ← in_bounds (array_updates floats d.last_dynamic v d.updates)
    modify (report_dynamic_numbers v o)

  unfoldable pub check_machine_dynamic : Env W D → Check W D (Unit {0})
  check_machine_dynamic env = do
    v ← take_reading_or_free (λ u. u.dynamic) env (get_machine_dynamic env)
    report_dynamic env.floats v
