-- ===== src/Readings/Status.antt =====
-- getMachineStatus of driver/src/data.c.
pub mod Filled
pub mod Meaning
pub mod Laws
use fanuc_driver.Prelude.{
  ℕ, ℤ, pos, Bool, true, false, not, ◌||◌, List, [], ◌∷◌, if◌then◌else◌, ◌==ℤ◌, get_elem?, Outcome,
  continue, ◌>>=◌, ◌>>◌, pure, in_bounds,
}
use fanuc_driver.CString.{Bytes, codes, strncpy}
use fanuc_driver.Clock.{elapsed}
use fanuc_driver.Focas.{Focas, Odbst}
use fanuc_driver.Types.{MachineStatus, MachineRawStatus}
use fanuc_driver.Env.{Env}
use fanuc_driver.Env.Reader.{Get, read, now}

abbrev pub machine_execution : List Bytes
machine_execution = codes "ACTIVE" ∷ codes "INTERRUPTED" ∷ codes "STOPPED" ∷ codes "READY" ∷ []

abbrev pub machine_mode : List Bytes
machine_mode = codes "MANUAL" ∷ codes "MANUAL_DATA_INPUT" ∷ codes "AUTOMATIC" ∷ []

abbrev pub machine_estop : List Bytes
machine_estop = codes "TRIGGERED" ∷ codes "ARMED" ∷ []

-- The index into MACHINE_EXECUTION.
unfoldable pub execution_index : Odbst → ℕ
execution_index s =
    if s.run ==ℤ pos 3 || s.run ==ℤ pos 4
    then 0
    else if s.run ==ℤ pos 2 || (s.motion ==ℤ pos 2 || not (s.mstb ==ℤ pos 0))
    then 1
    else if s.run ==ℤ pos 0
    then 2
    else 3

-- The index into MACHINE_MODE.
unfoldable pub mode_index : Odbst → ℕ
mode_index s =
    if s.aut ==ℤ pos 5 || s.aut ==ℤ pos 6
    then 0
    else if s.aut ==ℤ pos 0 || s.aut ==ℤ pos 3
    then 1
    else 2

-- The index into MACHINE_ESTOP.
unfoldable pub estop_index : Odbst → ℕ
estop_index s = if s.emergency ==ℤ pos 1 then 0 else 1

abbrev pub raw_status : Odbst → MachineRawStatus
raw_status s = record {
  alarm = s.alarm;
  aut = s.aut;
  edit = s.edit;
  emergency = s.emergency;
  hdck = s.hdck;
  motion = s.motion;
  mstb = s.mstb;
  run = s.run;
}

module _ {W D : Type 0} where
  -- The part of `getMachineStatus` after the call: the three texts and the raw values.
  unfoldable pub fill_status : MachineStatus → ℕ → Odbst → Get W D MachineStatus
  unfolding execution_index mode_index estop_index strncpy
  fill_status v tt_us s = do
    execution ← in_bounds (get_elem? machine_execution (execution_index s))
    mode ← in_bounds (get_elem? machine_mode (mode_index s))
    estop ← in_bounds (get_elem? machine_estop (estop_index s))
    execution' ← in_bounds (strncpy v.execution execution 20)
    mode' ← in_bounds (strncpy v.mode mode 20)
    estop' ← in_bounds (strncpy v.estop estop 20)
    pure (record {
      execution_duration = tt_us;
      execution = execution';
      mode = mode';
      estop = estop';
      raw = raw_status s;
    })

  unfoldable pub get_machine_status : Env W D → MachineStatus → Get W D MachineStatus
  unfolding fill_status elapsed
  get_machine_status env v = do
    t0 ← now env.clock_gettime
    status ← read env.focas.cnc_statinfo
    t1 ← now env.clock_gettime
    fill_status v (elapsed t0 t1) status
