-- ===== src/Checks/Status/View.antt =====
-- The status as a consumer sees it who keeps the latest item of each key.
use fanuc_driver.Checks.Status.{status_updates}
use fanuc_driver.CString.{c_str}
use fanuc_driver.Prelude.{◌≡◌, Option, none, some, ◌++◌}
use fanuc_driver.Report.{Object, create_number, create_string}
use fanuc_driver.Report.Latest.{latest, view_laws, kept_number, kept_text}
use fanuc_driver.Types.{MachineStatus}

-- The latest items are those of the status `v`. `estop` is not among them: see Estop.
pub record StatusView {D : Type 0} (v : MachineStatus) (o : Object D) : Type 0 where
  pub execution : latest "execution" o ≡ some (create_string (c_str v.execution))
  pub mode : latest "mode" o ≡ some (create_string (c_str v.mode))
  pub alarm : latest "alarm" o ≡ some (create_number v.raw.alarm)
  pub aut : latest "aut" o ≡ some (create_number v.raw.aut)
  pub edit : latest "edit" o ≡ some (create_number v.raw.edit)
  pub emergency : latest "emergency" o ≡ some (create_number v.raw.emergency)
  pub hdck : latest "hdck" o ≡ some (create_number v.raw.hdck)
  pub motion : latest "motion" o ≡ some (create_number v.raw.motion)
  pub mstb : latest "mstb" o ≡ some (create_number v.raw.mstb)
  pub run : latest "run" o ≡ some (create_number v.raw.run)

-- The consumer is up to date with the last status, if there was one.
abbrev pub IsSynced : {D : Type 0} → Option MachineStatus → Object D → Type 0
IsSynced none o = Unit
IsSynced (some v) o = StatusView v o

module _ {D : Type 0} where
  -- If the items of the earlier rounds and of this one show a consumer the last status, then, with
  -- the items that the check adds for the next status, they show that one: every text and code but
  -- `estop`, whatever has changed. With no last status they show it from the first check on.
  pub status_synced :
      (lv : Option MachineStatus) (v : MachineStatus) (h o : Object D)
      → IsSynced lv (h ++ o)
      → StatusView v (h ++ status_updates lv v o)
  unfolding status_updates
  status_synced none v h o s = record {
    execution = simp view_laws;
    mode = simp view_laws;
    alarm = simp view_laws;
    aut = simp view_laws;
    edit = simp view_laws;
    emergency = simp view_laws;
    hdck = simp view_laws;
    motion = simp view_laws;
    mstb = simp view_laws;
    run = simp view_laws;
  }
  status_synced (some l) v h o s = record {
    execution = simp view_laws (kept_text l.execution v.execution _ s.execution);
    mode = simp view_laws (kept_text l.mode v.mode _ s.mode);
    alarm = simp view_laws (kept_number l.raw.alarm v.raw.alarm _ s.alarm);
    aut = simp view_laws (kept_number l.raw.aut v.raw.aut _ s.aut);
    edit = simp view_laws (kept_number l.raw.edit v.raw.edit _ s.edit);
    emergency = simp view_laws (kept_number l.raw.emergency v.raw.emergency _ s.emergency);
    hdck = simp view_laws (kept_number l.raw.hdck v.raw.hdck _ s.hdck);
    motion = simp view_laws (kept_number l.raw.motion v.raw.motion _ s.motion);
    mstb = simp view_laws (kept_number l.raw.mstb v.raw.mstb _ s.mstb);
    run = simp view_laws (kept_number l.raw.run v.raw.run _ s.run);
  }
