-- ===== src/Checks/Status.antt =====
-- checkMachineStatus and checkMachineMessage of driver/src/check.c.
pub mod View
pub mod Estop
pub mod Message
use fanuc_driver.Checks.State.{Driver, Check, freed_last, take_reading_or_free, add_duration}
use fanuc_driver.CString.{c_str, strcmp_ne, strncmp_ne}
use fanuc_driver.Env.{Env}
use fanuc_driver.Prelude.{
  Bool, not, Option, some, if◌then◌else◌, ℤ, negsuc, ◌==ℤ◌, ◌>>=◌, modify, Outcome, continue, ◌>>◌,
}
use fanuc_driver.Readings.Status.{get_machine_status}
use fanuc_driver.Readings.Texts.{get_machine_message}
use fanuc_driver.Report.{
  null, Datum, scalar, Object, add_if, create_number, create_string, is_new, number,
}
use fanuc_driver.Types.{MachineMessage, MachineRawStatus, MachineStatus}

abbrev raw_differs : (MachineRawStatus → ℤ) → MachineStatus → MachineStatus → Bool
raw_differs code v lv = not (code lv.raw ==ℤ code v.raw)

module _ {D : Type 0} where
  -- The items that checkMachineStatus adds. The test before "estop" is the one before "mode".
  unfoldable pub status_updates : Option MachineStatus → MachineStatus → Object D → Object D
  unfolding add_if strcmp_ne
  status_updates lv v o =
      let o1 =
        add_if (is_new lv (λ l. strcmp_ne l.execution v.execution)) "execution"
          (create_string (c_str v.execution)) o in
      let o2 =
        add_if (is_new lv (λ l. strcmp_ne l.mode v.mode)) "mode" (create_string (c_str v.mode))
          o1 in
      let o3 =
        add_if (is_new lv (λ l. strcmp_ne l.mode v.mode)) "estop" (create_string (c_str v.estop))
          o2 in
      let o4 =
        add_if (is_new lv (raw_differs (λ r. r.alarm) v)) "alarm" (create_number v.raw.alarm) o3 in
      let o5 = add_if (is_new lv (raw_differs (λ r. r.aut) v)) "aut" (create_number v.raw.aut) o4 in
      let o6 =
        add_if (is_new lv (raw_differs (λ r. r.edit) v)) "edit" (create_number v.raw.edit) o5 in
      let o7 =
        add_if (is_new lv (raw_differs (λ r. r.emergency) v)) "emergency"
          (create_number v.raw.emergency) o6 in
      let o8 =
        add_if (is_new lv (raw_differs (λ r. r.hdck) v)) "hdck" (create_number v.raw.hdck) o7 in
      let o9 =
        add_if (is_new lv (raw_differs (λ r. r.motion) v)) "motion" (create_number v.raw.motion)
          o8 in
      let o10 =
        add_if (is_new lv (raw_differs (λ r. r.mstb) v)) "mstb" (create_number v.raw.mstb) o9 in
      add_if (is_new lv (raw_differs (λ r. r.run) v)) "run" (create_number v.raw.run) o10

  -- The text of a message, null where there is none: its number is -1.
  abbrev pub message_datum : MachineMessage → Datum D
  message_datum v = if v.number ==ℤ negsuc 0 then scalar null else create_string (c_str v.text)

module _ {W D : Type 0} where
  unfoldable pub report_status : MachineStatus → Driver W D → Driver W D
  unfolding status_updates
  report_status v d =
      let d1 = record d { updates = status_updates d.last_status v d.updates } in
      let d2 = add_duration "status" v.execution_duration d1 in
      record d2 { blocks = freed_last d.last_status d2.blocks; last_status = some v }

  unfoldable pub report_message : MachineMessage → Driver W D → Driver W D
  unfolding add_if strncmp_ne
  report_message v d =
      let lv = d.last_message in
      let o1 =
        add_if (is_new lv (λ l. not (l.number ==ℤ v.number))) "message_number"
          (create_number v.number) d.updates in
      let o2 =
        add_if (is_new lv (λ l. strncmp_ne l.text v.text 256)) "message_text" (message_datum v)
          o1 in
      let d2 = add_duration "message" v.execution_duration (record d { updates = o2 }) in
      record d2 { blocks = freed_last lv d2.blocks; last_message = some v }

module _ {W D : Type 0} (env : Env W D) where
  unfoldable pub check_machine_status : Check W D (Unit {0})
  check_machine_status = do
    v ← take_reading_or_free (λ u. u.status) env (get_machine_status env)
    modify (report_status v)

  unfoldable pub check_machine_message : Check W D (Unit {0})
  check_machine_message = do
    v ← take_reading_or_free (λ u. u.message) env (get_machine_message env)
    modify (report_message v)
