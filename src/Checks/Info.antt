-- ===== src/Checks/Info.antt =====
-- checkMachineInfo of driver/src/check.c.
use fanuc_driver.Checks.State.{Driver, Check, freed_last, take_reading_or_free, add_duration}
use fanuc_driver.CString.{c_str, strncpy, memset_zero, strncmp_ne, Bytes}
use fanuc_driver.Env.{Floats, Env}
use fanuc_driver.Prelude.{
  ℕ, zero, suc, ◌+◌, String, Bool, true, false, not, Option, none, some, List, [], ◌∷◌, ◌++◌,
  if◌then◌else◌, get_elem?, pos_part, ◌==ℤ◌, gets, in_bounds, ◌>>=◌, modify, ◌>>?◌,
}
use fanuc_driver.Readings.Info.{get_machine_info}
use fanuc_driver.Report.{
  Scalar, number, real, string, objects, Object, add_if, create_number, create_string, is_new,
}
use fanuc_driver.Types.{MachineAxisInfo, MachineInfo}

-- `lv->id != v->id` and the like compare the addresses of two arrays, not their texts. The structs
-- are two live blocks, so the addresses differ.
abbrev pub other_array : {A : Type 0} → A → Bool
other_array lv = true

module _ {D : Type 0} (floats : Floats D) where
  -- The items of one axis.
  unfoldable pub axis_items :
      Option (MachineAxisInfo D) → MachineAxisInfo D → List (String × Scalar D)
  unfolding strncmp_ne c_str
  axis_items lv a =
      (if is_new lv other_array then ("id", string (c_str a.id)) ∷ [] else [])
      ++ (if is_new lv (λ l. not (l.index ==ℤ a.index)) then ("index", number a.index) ∷ [] else [])
      ++ (if is_new lv (λ l. strncmp_ne l.suffix a.suffix 2)
          then ("suffix", string (c_str a.suffix)) ∷ []
          else [])
      ++ (if is_new lv (λ l. floats.ne l.divisor a.divisor)
          then ("divisor", real a.divisor) ∷ []
          else [])
      ++ (if is_new lv (λ l. strncmp_ne l.name a.name 5)
          then ("name", string (c_str a.name)) ∷ []
          else [])
      ++ (if is_new lv (λ l. not (l.flag ==ℤ a.flag)) then ("flag", number a.flag) ∷ [] else [])
      ++ (if is_new lv (λ l. not (l.unit ==ℤ a.unit))
          then ("unit", number a.unit) ∷ ("unith", string (c_str a.unith)) ∷ []
          else [])
      ++ (if is_new lv (λ l. not (l.decimal ==ℤ a.decimal))
          then ("decimal", number a.decimal) ∷ []
          else [])

  -- `lv->axes[i]`, where there is a last value.
  abbrev last_axis : Option (MachineInfo D) → ℕ → Option (Option (MachineAxisInfo D))
  last_axis none i = some none
  last_axis (some lv) i = elim (get_elem? lv.axes i) [ none ↦ none | some a ↦ some (some a) ]

  -- for (int i = ...; i < v->axes_count; i++), with `n` rounds left: the objects of the axes.
  unfoldable pub axes_objects :
      Option (MachineInfo D)
      → List (MachineAxisInfo D)
      → ℕ
      → ℕ
      → Option (List (List (String × Scalar D)))
  unfolding axis_items
  axes_objects lv axes zero i = some []
  axes_objects lv axes (suc n) i =
      let rest = axes_objects lv axes n (i + 1) in
      elim (get_elem? axes i) [
        | none ↦ none
        | some a ↦ elim (last_axis lv i) [
          | none ↦ none
          | some l ↦ elim rest [ none ↦ none | some r ↦ some (axis_items l a ∷ r) ]
        ]
      ]

-- `atLeastOneAxesChanged`: an item was added to some axis.
abbrev pub some_item : {A : Type 0} → List (List A) → Bool
some_item [] = false
some_item ([] ∷ r) = some_item r
some_item ((a ∷ as') ∷ r) = true

module _ {W D : Type 0} where
  unfoldable pub info_updates :
      MachineInfo D → List (List (String × Scalar D)) → Driver W D → Object D
  unfolding add_if c_str
  info_updates v axes d =
      let lv = d.last_info in
      let o1 = add_if (is_new lv other_array) "id" (create_string (c_str v.id)) d.updates in
      let o2 =
        add_if (is_new lv (λ l. not (l.max_axis ==ℤ v.max_axis))) "max_axis"
          (create_number v.max_axis) o1 in
      let o3 =
        add_if (is_new lv (λ l. not (l.addinfo ==ℤ v.addinfo))) "addinfo" (create_number v.addinfo)
          o2 in
      let o4 = add_if (is_new lv other_array) "cnc_type" (create_string (c_str v.cnc_type)) o3 in
      let o5 = add_if (is_new lv other_array) "mt_type" (create_string (c_str v.mt_type)) o4 in
      let o6 = add_if (is_new lv other_array) "series" (create_string (c_str v.series)) o5 in
      let o7 = add_if (is_new lv other_array) "version" (create_string (c_str v.version)) o6 in
      let o8 =
        add_if (is_new lv other_array) "axes_count_chk" (create_string (c_str v.axes_count_chk))
          o7 in
      let o9 =
        add_if (is_new lv (λ l. not (l.axes_count ==ℤ v.axes_count))) "axes_count"
          (create_number v.axes_count) o8 in
      let o10 =
        add_if (is_new lv (λ l. not (l.ether_type ==ℤ v.ether_type))) "ether_type"
          (create_number v.ether_type) o9 in
      let o11 =
        add_if (is_new lv (λ l. not (l.ether_device ==ℤ v.ether_device))) "ether_device"
          (create_number v.ether_device) o10 in
      add_if (some_item axes) "axes" (objects axes) o11

  -- memset(deviceID, 0, MAXLEN); strncpy(deviceID, v->id, MAXLEN - 1);
  unfoldable pub new_device_id : MachineInfo D → Driver W D → Option Bytes
  unfolding memset_zero strncpy
  new_device_id v d = memset_zero d.device_id 128 >>? λ zeros. strncpy zeros v.id 127

  -- The new id, the items and the new last value, once the arrays are read.
  unfoldable pub store_info :
      MachineInfo D → Bytes → List (List (String × Scalar D)) → Driver W D → Driver W D
  store_info v id axes d =
      let d1 = record d { device_id = id; updates = info_updates v axes d } in
      let d2 = add_duration "info" v.execution_duration d1 in
      record d2 { blocks = freed_last d.last_info d2.blocks; last_info = some v }

  unfoldable pub report_info : Floats D → MachineInfo D → Check W D (Unit {0})
  report_info floats v = do
    d ← gets (λ d. d)
    id ← in_bounds (new_device_id v d)
    axes ← in_bounds (axes_objects floats d.last_info v.axes (pos_part v.axes_count) 0)
    modify (store_info v id axes)

  unfoldable pub check_machine_info : Env W D → Check W D (Unit {0})
  check_machine_info env = do
    v ← take_reading_or_free (λ u. u.info) env (get_machine_info env)
    report_info env.floats v
