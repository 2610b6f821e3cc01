-- ===== src/Checks/Status/Estop.antt =====
-- The emergency stop in checkMachineStatus: the test before "estop" compares the modes.
use fanuc_driver.Checks.Status.{status_updates}
use fanuc_driver.CString.{c_str, strcmp_ne}
use fanuc_driver.Prelude.{◌≡◌, ◌≢◌, Option, some, if◌then◌else◌, false, ◌∙◌, ◌++◌}
use fanuc_driver.Report.{Object, create_string, is_new}
use fanuc_driver.Report.Latest.{latest, view_laws}
use fanuc_driver.Types.{MachineStatus}
use fanuc_driver.CString.Laws.{strcmp_same}

module _ {D : Type 0} where
  -- The latest `estop` item is renewed exactly where the mode has changed or there was no status; h are
  -- the items of earlier rounds.
  pub estop_follows_mode :
      (lv : Option MachineStatus) (v : MachineStatus) (h o : Object D)
      → latest "estop" (h ++ status_updates lv v o) ≡ (
          if is_new lv (λ l. strcmp_ne l.mode v.mode)
          then some (create_string (c_str v.estop))
          else latest "estop" (h ++ o))
  unfolding status_updates
  estop_follows_mode lv v h o = simp view_laws

  -- An emergency stop that changes while the mode stays the same is not reported: a consumer who sees
  -- the old text, by the items h of earlier rounds and those of this one, goes on seeing it behind
  -- the check, and does not see the new one.
  pub estop_missed :
      (l v : MachineStatus) (h o : Object D)
      → c_str l.mode ≡ c_str v.mode
      → c_str l.estop ≢ c_str v.estop
      → latest "estop" (h ++ o) ≡ some (create_string (c_str l.estop))
      → let seen = latest "estop" (h ++ status_updates (some l) v o) in
        (seen ≡ some (create_string (c_str l.estop)))
        × (seen ≢ some (create_string (c_str v.estop)))
  estop_missed l v h o same differs synced =
      let unchanged : strcmp_ne l.mode v.mode ≡ false = strcmp_same l.mode v.mode same in
      let seen = (rw unchanged at (estop_follows_mode (some l) v h o)) ∙ synced in
      (seen, λ e. differs (cc (e, seen)))
