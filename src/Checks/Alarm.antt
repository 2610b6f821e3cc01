-- ===== src/Checks/Alarm.antt =====
-- The key `alarm`, which checkMachineStatus and checkMachineDynamic both use.
use fanuc_driver.Report.Latest.{latest, view_laws}
use fanuc_driver.Checks.Dynamic.{number_updates}
use fanuc_driver.Checks.Status.{status_updates}
use fanuc_driver.Prelude.{
  ◌≡◌, ◌≢◌, not, Option, some, ◌++◌, if◌then◌else◌, ◌==ℤ◌, refl, sym, ◌∙◌, true, false, arith, ℤ,
  ==ℤ_iff,
}
use fanuc_driver.Report.{Object, create_number, is_new, Datum}
use fanuc_driver.Types.{MachineStatus, MachineDynamic}

-- What a consumer sees under `alarm` after both checks of a round, in their order: the code of the
-- dynamic values where it is new or has changed, else that of the status where it is new or has
-- changed, else what was seen before. `h` are the items of earlier rounds.
pub alarm_shared :
    {D : Type 0} (ls : Option MachineStatus) (s : MachineStatus) (lv : Option (MachineDynamic D))
    (v : MachineDynamic D) (h o : Object D)
    → latest "alarm" (h ++ number_updates lv v (status_updates ls s o)) ≡ (
        if is_new lv (λ l. not (l.alarm ==ℤ v.alarm))
        then some (create_number v.alarm)
        else if is_new ls (λ l. not (l.raw.alarm ==ℤ s.raw.alarm))
        then some (create_number s.raw.alarm)
        else latest "alarm" (h ++ o))
unfolding number_updates status_updates
alarm_shared ls s lv v h o = simp view_laws

number_of :
    {D : Type 0} {x y : ℤ}
    → ◌≡◌ {A = Option (Datum D)} (some (create_number x)) (some (create_number y))
    → x ≡ y
number_of e = cc

-- Where the status's code has changed and that of the dynamic values has not, a consumer sees the
-- status's code under the key by which the code of the dynamic values was reported, so that he takes
-- a changed code for the unchanged one.
pub alarm_overwritten :
    {D : Type 0} (ls s : MachineStatus) (lv v : MachineDynamic D) (h o : Object D)
    → ls.raw.alarm ≢ s.raw.alarm
    → lv.alarm ≡ v.alarm
    → s.raw.alarm ≢ v.alarm
    → let seen = latest "alarm" (h ++ number_updates (some lv) v (status_updates (some ls) s o)) in
      (seen ≡ some (create_number s.raw.alarm)) × (seen ≢ some (create_number v.alarm))
alarm_overwritten ls s lv v h o a b c =
    let same : (lv.alarm ==ℤ v.alarm) ≡ true = (==ℤ_iff lv.alarm v.alarm).1 b in
    let other : (ls.raw.alarm ==ℤ s.raw.alarm) ≡ false =
      ground (arith, ==ℤ_iff ls.raw.alarm s.raw.alarm) in
    let seen = alarm_shared (some ls) s (some lv) v h o ∙ (rw (same, other) refl) in
    (seen, λ e. c (number_of (sym seen ∙ e)))
