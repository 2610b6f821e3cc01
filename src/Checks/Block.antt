-- ===== src/Checks/Block.antt =====
-- checkMachineBlock of driver/src/check.c.
use fanuc_driver.Checks.State.{Driver, Check, freed_last, take_reading, add_duration}
use fanuc_driver.CString.{c_str, strcmp_ne}
use fanuc_driver.Env.{Env}
use fanuc_driver.Prelude.{not, some, ◌==ℤ◌, ◌>>=◌, modify}
use fanuc_driver.Readings.Texts.{get_machine_block}
use fanuc_driver.Report.{add_if, create_number, create_string, is_new}
use fanuc_driver.Types.{MachineBlock}

module _ {W D : Type 0} where
  unfoldable pub report_block : MachineBlock → Driver W D → Driver W D
  unfolding add_if strcmp_ne
  report_block v d =
      let lv = d.last_block in
      let o1 =
        add_if (is_new lv (λ l. strcmp_ne l.block v.block)) "block" (create_string (c_str v.block))
          d.updates in
      let o2 =
        add_if (is_new lv (λ l. not (l.blk_num ==ℤ v.blk_num))) "block_num"
          (create_number v.blk_num) o1 in
      let d2 = add_duration "block" v.execution_duration (record d { updates = o2 }) in
      record d2 { blocks = freed_last lv d2.blocks; last_block = some v }

module _ {W D : Type 0} (env : Env W D) where
  unfoldable pub check_machine_block : Check W D (Unit {0})
  check_machine_block = do
    v ← take_reading (λ u. u.block) env (get_machine_block env)
    modify (report_block v)
