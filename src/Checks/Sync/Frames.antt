-- ===== src/Checks/Sync/Frames.antt =====
-- Which keys each check touches, of the object `updates`.
use mathlib.Core.Path.{subst}
use fanuc_driver.Checks.Block.{report_block}
use fanuc_driver.Checks.Counters.{report_part_count, report_cycle_time}
use fanuc_driver.Checks.Dynamic.{
  number_updates, first_of_array, array_changed, add_array, array_updates,
}
use fanuc_driver.Checks.State.{Driver}
use fanuc_driver.Checks.Status.{status_updates, report_message}
use fanuc_driver.Checks.Sync.{
  status_keys, array_keys, number_keys, program_keys, part_keys, cycle_keys, tool_keys,
  message_keys, block_keys,
}
use fanuc_driver.Checks.Tool.{report_tool_info}
use fanuc_driver.Prelude.{
  refl, Option, ℕ, String, ◌≡◌, inl, inr, Bool, true, false, none, some, List, arith, Option-cases,
  pos_part, ◌>>?◌,
}
use fanuc_driver.Report.{Object, numbers, add}
use fanuc_driver.Report.Frame.{Frame, Frame-refl, Frame-add, Frame-add_if, all_differ, is_in}
use fanuc_driver.Types.{
  MachineMessage, MachineStatus, MachinePartCount, MachineCycleTime, MachineDynamic,
  MachineToolInfo, MachineBlock, MachineProgram, MachineProgramContents, MachineProgramName,
}
use fanuc_driver.Report.Latest.{view_laws}
use fanuc_driver.Env.{Floats}
use fanuc_driver.CString.{Bytes}
use fanuc_driver.Checks.Programs.{
  report_program_header, report_program_contents, store_program_name,
}

module _ {W D : Type 0} where
  pub part-Frame :
      (v : MachinePartCount) (d : Driver W D)
      → Frame part_keys d.updates ((report_part_count v d).updates)
  unfolding report_part_count
  part-Frame v d =
      Frame-add_if part_keys d.updates _ _ "part_count" _ refl (Frame-refl part_keys d.updates)

  pub tool-Frame :
      (v : MachineToolInfo) (d : Driver W D)
      → Frame tool_keys d.updates ((report_tool_info v d).updates)
  unfolding report_tool_info
  tool-Frame v d =
      Frame-add_if tool_keys d.updates _ _ "tool_group" _ refl
        (Frame-add_if tool_keys d.updates _ _ "tool_id" _ refl (Frame-refl tool_keys d.updates))

  pub message-Frame :
      (v : MachineMessage) (d : Driver W D)
      → Frame message_keys d.updates ((report_message v d).updates)
  unfolding report_message
  message-Frame v d = Frame-add_if message_keys d.updates _ _ "message_text" _ refl (
      Frame-add_if message_keys d.updates _ _ "message_number" _ refl
        (Frame-refl message_keys d.updates))

  pub block-Frame :
      (v : MachineBlock) (d : Driver W D) → Frame block_keys d.updates ((report_block v d).updates)
  unfolding report_block
  block-Frame v d =
      Frame-add_if block_keys d.updates _ _ "block_num" _ refl
        (Frame-add_if block_keys d.updates _ _ "block" _ refl (Frame-refl block_keys d.updates))

  pub cycle-Frame :
      (v : MachineCycleTime) (d : Driver W D)
      → Frame cycle_keys d.updates (report_cycle_time v d).updates
  unfolding report_cycle_time
  cycle-Frame v d =
      Frame-add cycle_keys d.updates _ "cycle_time" _ refl (Frame-refl cycle_keys d.updates)

pub status-Frame :
    {D : Type 0} (lv : Option MachineStatus) (v : MachineStatus) (o : Object D)
    → Frame status_keys o (status_updates lv v o)
unfolding status_updates
status-Frame lv v o k i =
    let x = all_differ k status_keys i in
    simp (
      view_laws, x.0, x.1.0, x.1.1.0, x.1.1.1.0, x.1.1.1.1.0, x.1.1.1.1.1.0, x.1.1.1.1.1.1.0,
      x.1.1.1.1.1.1.1.0, x.1.1.1.1.1.1.1.1.0, x.1.1.1.1.1.1.1.1.1.0, x.1.1.1.1.1.1.1.1.1.1.0,
    )

pub numbers-Frame :
    {D : Type 0} (lv : Option (MachineDynamic D)) (v : MachineDynamic D) (o : Object D)
    → Frame number_keys o (number_updates lv v o)
unfolding number_updates
numbers-Frame lv v o k i =
    let x = all_differ k number_keys i in
    simp (view_laws, x.0, x.1.0, x.1.1.0, x.1.1.1.0, x.1.1.1.1.0, x.1.1.1.1.1.0)

-- A step that stays in its buffer has an intermediate result.
pub steps :
    {A B : Type 0} (m : Option A) (k : A → Option B) (b : B)
    → (m >>? k) ≡ some b
    → (a : A) × (m ≡ some a) × (k a ≡ some b)
steps none k b e = cc
steps (some a) k b e = (a, refl, e)

pub add_array-Frame :
    {D : Type 0} (ks : List String) (b : Bool) (k : String) (n : ℕ) (xs : List D)
    (o0 o o' : Object D)
    → is_in k ks ≡ true
    → Frame ks o0 o
    → add_array b k n xs o ≡ some o'
    → Frame ks o0 o'
unfolding add_array
add_array-Frame ks false k n xs o0 o o' i f e = let same : o ≡ o' = cc in subst (Frame ks o0) same f
add_array-Frame ks true k n xs o0 o o' i f e = elim (Option-cases (first_of_array n xs)) [
  | inl z ↦ absurd (ground arith)
  | inr (r, z) ↦
      let same : add k (numbers r) o ≡ o' = ground arith in
      subst (Frame ks o0) same (Frame-add ks o0 o k (numbers r) i f)
]

pub arrays-Frame :
    {D : Type 0} (floats : Floats D) (lv : Option (MachineDynamic D)) (v : MachineDynamic D)
    (o o' : Object D)
    → array_updates floats lv v o ≡ some o'
    → Frame array_keys o o'
unfolding array_updates
arrays-Frame floats lv v o o' e =
    let n = pos_part v.dim in
    let (abs, _, e1) = steps (array_changed floats lv (λ l. l.absolute) n v) _ o' e in
    let (rel, _, e2) = steps (array_changed floats lv (λ l. l.relative) n v) _ o' e1 in
    let (act, _, e3) = steps (array_changed floats lv (λ l. l.actual) n v) _ o' e2 in
    let (load, _, e4) = steps (array_changed floats lv (λ l. l.load) n v) _ o' e3 in
    let (o1, a1, e5) = steps (add_array abs "absolute" n v.absolute o) _ o' e4 in
    let (o2, a2, e6) = steps (add_array rel "relative" n v.relative o1) _ o' e5 in
    let (o3, a3, e7) = steps (add_array act "actual" n v.actual o2) _ o' e6 in
    add_array-Frame array_keys load "load" n v.load o o3 o' refl
      (add_array-Frame array_keys act "actual" n v.actual o o2 o3 refl
        (add_array-Frame array_keys rel "relative" n v.relative o o1 o2 refl
          (add_array-Frame array_keys abs "absolute" n v.absolute o o o1 refl
            (Frame-refl array_keys o) a1)
          a2)
        a3)
      e7

-- The checks of the programs add under their own keys.
module _ {W D : Type 0} where
  pub header-Frame :
      (v : MachineProgram) (d : Driver W D)
      → Frame program_keys d.updates (report_program_header v d).updates
  unfolding report_program_header
  header-Frame v d =
      Frame-add program_keys d.updates d.updates "program_header" _ refl
        (Frame-refl program_keys d.updates)

  pub contents-Frame :
      (v : MachineProgramContents) (d : Driver W D)
      → Frame program_keys d.updates (report_program_contents v d).updates
  unfolding report_program_contents
  contents-Frame v d = Frame-add program_keys d.updates _ "program" _ refl (
      Frame-add program_keys d.updates d.updates "program_size" _ refl
        (Frame-refl program_keys d.updates))

  pub name-Frame :
      (v : MachineProgramName) (path : Bytes) (d : Driver W D)
      → Frame program_keys d.updates (store_program_name v path d).updates
  unfolding store_program_name
  name-Frame v path d = Frame-add program_keys d.updates _ "program_path" _ refl (
      Frame-add program_keys d.updates d.updates "program_name" _ refl
        (Frame-refl program_keys d.updates))
