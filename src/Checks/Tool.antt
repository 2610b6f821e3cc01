-- ===== src/Checks/Tool.antt =====
-- checkMachineToolInfo of driver/src/check.c.
use fanuc_driver.Checks.State.{Driver, Check, freed_last, take_reading, add_duration}
use fanuc_driver.Env.{Env}
use fanuc_driver.Prelude.{not, some, ◌==ℤ◌, ◌>>=◌, modify}
use fanuc_driver.Readings.Tool.{get_machine_tool_info}
use fanuc_driver.Report.{add_if, create_number, is_new}
use fanuc_driver.Types.{MachineToolInfo}

module _ {W D : Type 0} where
  unfoldable pub report_tool_info : MachineToolInfo → Driver W D → Driver W D
  unfolding add_if
  report_tool_info v d =
      let lv = d.last_tool_info in
      let o1 =
        add_if (is_new lv (λ l. not (l.id ==ℤ v.id))) "tool_id" (create_number v.id) d.updates in
      let o2 =
        add_if (is_new lv (λ l. not (l.group ==ℤ v.group))) "tool_group" (create_number v.group)
          o1 in
      let d2 = add_duration "tool" v.execution_duration (record d { updates = o2 }) in
      record d2 { blocks = freed_last lv d2.blocks; last_tool_info = some v }

module _ {W D : Type 0} (env : Env W D) where
  unfoldable pub check_machine_tool_info : Check W D (Unit {0})
  check_machine_tool_info = do
    v ← take_reading (λ u. u.tool_info) env (get_machine_tool_info env)
    modify (report_tool_info v)
