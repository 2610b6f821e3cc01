-- ===== src/Checks/Counters.antt =====
-- checkMachinePartCount and checkMachineCycleTime of driver/src/check.c.
use fanuc_driver.Checks.State.{Driver, Check, freed_last, take_reading, add_duration}
use fanuc_driver.Env.{Env}
use fanuc_driver.Prelude.{not, some, if◌then◌else◌, ◌==ℤ◌, pure, gets, ◌>>=◌, modify}
use fanuc_driver.Readings.Counters.{get_machine_part_count, get_machine_cycle_time}
use fanuc_driver.Report.{add, add_if, create_number, is_new}
use fanuc_driver.Types.{MachinePartCount, MachineCycleTime}

module _ {W D : Type 0} where
  -- What checkMachinePartCount does with the count it has read.
  unfoldable pub report_part_count : MachinePartCount → Driver W D → Driver W D
  unfolding add_if
  report_part_count v d =
      let changed = is_new d.last_part_count (λ lv. not (lv.count ==ℤ v.count)) in
      let d1 = record d {
        part_count = if changed then v.count else d.part_count;
        updates = add_if changed "part_count" (create_number v.count) d.updates;
      } in
      let d2 = add_duration "part_count" v.execution_duration d1 in
      record d2 { blocks = freed_last d.last_part_count d2.blocks; last_part_count = some v }

  -- What checkMachineCycleTime does with the time it has read.
  unfoldable pub report_cycle_time : MachineCycleTime → Driver W D → Driver W D
  report_cycle_time v d =
      let d1 = record d { updates = add "cycle_time" (create_number v.time) d.updates } in
      let d2 = add_duration "cycle_time" v.execution_duration d1 in
      record d2 {
        blocks = freed_last d.last_cycle_time d2.blocks;
        cycle_part_count = d.part_count;
        last_cycle_time = some v;
      }

module _ {W D : Type 0} (env : Env W D) where
  unfoldable pub check_machine_part_count : Check W D (Unit {0})
  check_machine_part_count = do
    v ← take_reading (λ u. u.part_count) env (get_machine_part_count env)
    modify (report_part_count v)

  -- The time is read only when the count of parts has changed.
  unfoldable pub check_machine_cycle_time : Check W D (Unit {0})
  check_machine_cycle_time = do
    d ← gets (λ d. d)
    if d.cycle_part_count ==ℤ d.part_count then pure tt else (do
      v ← take_reading (λ u. u.cycle_time) env (get_machine_cycle_time env)
      modify (report_cycle_time v))
