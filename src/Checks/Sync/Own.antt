-- ===== src/Checks/Sync/Own.antt =====
-- A consumer who sees the last value of a check sees the next one, with the items that the check adds.
use fanuc_driver.Checks.Counters.{report_part_count, report_cycle_time}
use fanuc_driver.Checks.State.{Driver}
use fanuc_driver.Checks.Status.{status_updates, report_message}
use fanuc_driver.Checks.Sync.{
  part_fields, status_fields, cycle_fields, tool_fields, dynamic_fields, message_fields,
  block_fields,
}
use fanuc_driver.Prelude.{Option, none, some, ◌++◌, refl, ◌∙◌}
use fanuc_driver.Report.{Object, create_number}
use fanuc_driver.Report.Frame.{Shows}
use fanuc_driver.Report.Latest.{view_laws, kept_number, kept_text, latest-add, latest-append}
use fanuc_driver.Types.{
  MachineStatus, MachinePartCount, MachineMessage, MachineCycleTime, MachineDynamic,
  MachineToolInfo, MachineBlock,
}
use fanuc_driver.Checks.Block.{report_block}
use fanuc_driver.Checks.Dynamic.{number_updates}
use fanuc_driver.Checks.Tool.{report_tool_info}

module _ {W D : Type 0} where
  pub part-Shows :
      (lv : Option MachinePartCount) (v : MachinePartCount) (h : Object D) (d : Driver W D)
      → Shows part_fields lv (h ++ d.updates)
      → Shows part_fields
          (some v)
          (h ++ (report_part_count v (record d { last_part_count = lv })).updates)
  unfolding report_part_count
  part-Shows none v h d s = (simp view_laws, tt)
  part-Shows (some l) v h d s = (simp view_laws (kept_number l.count v.count _ s.0), tt)

  pub tool-Shows :
      (lv : Option MachineToolInfo) (v : MachineToolInfo) (h : Object D) (d : Driver W D)
      → Shows tool_fields lv (h ++ d.updates)
      → Shows tool_fields
          (some v)
          (h ++ (report_tool_info v (record d { last_tool_info = lv })).updates)
  unfolding report_tool_info
  tool-Shows none v h d s = (simp view_laws, (simp view_laws, tt))
  tool-Shows (some l) v h d s = (
    simp view_laws (kept_number l.id v.id _ s.0),
    (simp view_laws (kept_number l.group v.group _ s.1.0), tt),
  )

  pub message-Shows :
      (lv : Option MachineMessage) (v : MachineMessage) (h : Object D) (d : Driver W D)
      → Shows message_fields lv (h ++ d.updates)
      → Shows message_fields
          (some v)
          (h ++ (report_message v (record d { last_message = lv })).updates)
  unfolding report_message
  message-Shows none v h d s = (simp view_laws, tt)
  message-Shows (some l) v h d s = (simp view_laws (kept_number l.number v.number _ s.0), tt)

  pub block-Shows :
      (lv : Option MachineBlock) (v : MachineBlock) (h : Object D) (d : Driver W D)
      → Shows block_fields lv (h ++ d.updates)
      → Shows block_fields (some v) (h ++ (report_block v (record d { last_block = lv })).updates)
  unfolding report_block
  block-Shows none v h d s = (simp view_laws, (simp view_laws, tt))
  block-Shows (some l) v h d s = (
    simp view_laws (kept_text l.block v.block _ s.0),
    (simp view_laws (kept_number l.blk_num v.blk_num _ s.1.0), tt),
  )

  pub cycle-Shows :
      (v : MachineCycleTime) (h : Object D) (d : Driver W D)
      → Shows cycle_fields (some v) (h ++ (report_cycle_time v d).updates)
  unfolding report_cycle_time
  cycle-Shows v h d = (
    latest-append "cycle_time" h _
        ∙ (rw (latest-add "cycle_time" "cycle_time" (create_number v.time) d.updates) refl),
    tt,
  )

pub dynamic-Shows :
    {D : Type 0} (lv : Option (MachineDynamic D)) (v : MachineDynamic D) (h o : Object D)
    → Shows dynamic_fields lv (h ++ o)
    → Shows dynamic_fields (some v) (h ++ number_updates lv v o)
unfolding number_updates
dynamic-Shows none v h o s =
    (simp view_laws, (simp view_laws, (simp view_laws, (simp view_laws, (simp view_laws, tt)))))
dynamic-Shows (some l) v h o s = (
  simp view_laws (kept_number l.cprogram v.cprogram _ s.0),
  (
    simp view_laws (kept_number l.mprogram v.mprogram _ s.1.0),
    (
      simp view_laws (kept_number l.sequence v.sequence _ s.1.1.0),
      (
        simp view_laws (kept_number l.actf v.actf _ s.1.1.1.0),
        (simp view_laws (kept_number l.acts v.acts _ s.1.1.1.1.0), tt),
      ),
    ),
  ),
)

pub status-Shows :
    {D : Type 0} (lv : Option MachineStatus) (v : MachineStatus) (h o : Object D)
    → Shows status_fields lv (h ++ o)
    → Shows status_fields (some v) (h ++ status_updates lv v o)
unfolding status_updates
status-Shows none v h o s = (
  simp view_laws,
  (
    simp view_laws,
    (
      simp view_laws,
      (
        simp view_laws,
        (
          simp view_laws,
          (simp view_laws, (simp view_laws, (simp view_laws, (simp view_laws, tt)))),
        ),
      ),
    ),
  ),
)
status-Shows (some l) v h o s = (
  simp view_laws (kept_text l.execution v.execution _ s.0),
  (
    simp view_laws (kept_text l.mode v.mode _ s.1.0),
    (
      simp view_laws (kept_number l.raw.aut v.raw.aut _ s.1.1.0),
      (
        simp view_laws (kept_number l.raw.edit v.raw.edit _ s.1.1.1.0),
        (
          simp view_laws (kept_number l.raw.emergency v.raw.emergency _ s.1.1.1.1.0),
          (
            simp view_laws (kept_number l.raw.hdck v.raw.hdck _ s.1.1.1.1.1.0),
            (
              simp view_laws (kept_number l.raw.motion v.raw.motion _ s.1.1.1.1.1.1.0),
              (
                simp view_laws (kept_number l.raw.mstb v.raw.mstb _ s.1.1.1.1.1.1.1.0),
                (simp view_laws (kept_number l.raw.run v.raw.run _ s.1.1.1.1.1.1.1.1.0), tt),
              ),
            ),
          ),
        ),
      ),
    ),
  ),
)
