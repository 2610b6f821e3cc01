-- ===== src/Readings/Status/Meaning.antt =====
-- getMachineStatus: what its texts say of the codes.
use fanuc_driver.CString.{codes, c_str, pad}
use fanuc_driver.Focas.{Odbst}
use fanuc_driver.Prelude.{ℕ, zero, suc, ◌<◌, ◌≡◌, ◌≢◌, ◌↔◌, ◌⊎◌, arith, pos, ==ℤ_iff}
use fanuc_driver.Readings.Status.{
  machine_execution, machine_mode, machine_estop, execution_index, mode_index, estop_index,
  raw_status,
}
use fanuc_driver.Readings.Status.Filled.{
  text_at, status_of, execution_index-lt, mode_index-lt, estop_index-lt,
}
use fanuc_driver.Types.{MachineRawStatus, MachineStatus}

-- What the raw codes of a status say of the machine.
abbrev pub IsActive : MachineRawStatus → Type 0
IsActive raw = (raw.run ≡ pos 3) ⊎ (raw.run ≡ pos 4)

abbrev pub IsInterrupted : MachineRawStatus → Type 0
IsInterrupted raw = ¬ IsActive raw × ((raw.run ≡ pos 2) ⊎ (raw.motion ≡ pos 2) ⊎ (raw.mstb ≢ pos 0))

abbrev pub IsStopped : MachineRawStatus → Type 0
IsStopped raw = (raw.run ≡ pos 0) × (raw.motion ≢ pos 2) × (raw.mstb ≡ pos 0)

abbrev pub IsManual : MachineRawStatus → Type 0
IsManual raw = (raw.aut ≡ pos 5) ⊎ (raw.aut ≡ pos 6)

abbrev pub IsDataInput : MachineRawStatus → Type 0
IsDataInput raw = (raw.aut ≡ pos 0) ⊎ (raw.aut ≡ pos 3)

abbrev pub IsReady : MachineRawStatus → Type 0
IsReady raw = ¬ IsActive raw × ¬ IsInterrupted raw × ¬ IsStopped raw

abbrev pub IsAutomatic : MachineRawStatus → Type 0
IsAutomatic raw = ¬ IsManual raw × ¬ IsDataInput raw

-- The texts of a status say what its codes say: each of the nine texts stands exactly for its codes.
pub record Describes (v : MachineStatus) : Type 0 where
  pub active : (c_str v.execution ≡ codes "ACTIVE") ↔ IsActive v.raw
  pub interrupted : (c_str v.execution ≡ codes "INTERRUPTED") ↔ IsInterrupted v.raw
  pub stopped : (c_str v.execution ≡ codes "STOPPED") ↔ IsStopped v.raw
  pub ready : (c_str v.execution ≡ codes "READY") ↔ IsReady v.raw
  pub manual : (c_str v.mode ≡ codes "MANUAL") ↔ IsManual v.raw
  pub data_input : (c_str v.mode ≡ codes "MANUAL_DATA_INPUT") ↔ IsDataInput v.raw
  pub automatic : (c_str v.mode ≡ codes "AUTOMATIC") ↔ IsAutomatic v.raw
  pub triggered : (c_str v.estop ≡ codes "TRIGGERED") ↔ (v.raw.emergency ≡ pos 1)
  pub armed : (c_str v.estop ≡ codes "ARMED") ↔ (v.raw.emergency ≢ pos 1)

execution_index_cases :
    (s : Odbst)
    → ((execution_index s ≡ 0) ↔ IsActive (raw_status s))
      × ((execution_index s ≡ 1) ↔ IsInterrupted (raw_status s))
      × ((execution_index s ≡ 2) ↔ IsStopped (raw_status s))
      × ((execution_index s ≡ 3) ↔ IsReady (raw_status s))
unfolding execution_index
execution_index_cases s = ground (
  arith,
  ==ℤ_iff s.run (pos 3),
  ==ℤ_iff s.run (pos 4),
  ==ℤ_iff s.run (pos 2),
  ==ℤ_iff s.run (pos 0),
  ==ℤ_iff s.motion (pos 2),
  ==ℤ_iff s.mstb (pos 0),
)

mode_index_cases :
    (s : Odbst)
    → ((mode_index s ≡ 0) ↔ IsManual (raw_status s))
      × ((mode_index s ≡ 1) ↔ IsDataInput (raw_status s))
      × ((mode_index s ≡ 2) ↔ IsAutomatic (raw_status s))
unfolding mode_index
mode_index_cases s = ground (
  arith,
  ==ℤ_iff s.aut (pos 5),
  ==ℤ_iff s.aut (pos 6),
  ==ℤ_iff s.aut (pos 0),
  ==ℤ_iff s.aut (pos 3),
)

estop_index_cases :
    (s : Odbst)
    → ((estop_index s ≡ 0) ↔ (s.emergency ≡ pos 1)) × ((estop_index s ≡ 1) ↔ (s.emergency ≢ pos 1))
unfolding estop_index
estop_index_cases s = ground (arith, ==ℤ_iff s.emergency (pos 1))

-- The index of a text is known from the array that holds it.
execution_from_text :
    (i : ℕ)
    → i < 4
    → let t = c_str (pad 20 (text_at machine_execution i)) in
      ((t ≡ codes "ACTIVE") ↔ (i ≡ 0))
      × ((t ≡ codes "INTERRUPTED") ↔ (i ≡ 1))
      × ((t ≡ codes "STOPPED") ↔ (i ≡ 2))
      × ((t ≡ codes "READY") ↔ (i ≡ 3))
unfolding c_str pad
execution_from_text zero h = ground arith
execution_from_text (suc zero) h = ground arith
execution_from_text (suc (suc zero)) h = ground arith
execution_from_text (suc (suc (suc zero))) h = ground arith
execution_from_text (suc (suc (suc (suc i)))) h = absurd (omega arith)

mode_from_text :
    (i : ℕ)
    → i < 3
    → let t = c_str (pad 20 (text_at machine_mode i)) in
      ((t ≡ codes "MANUAL") ↔ (i ≡ 0))
      × ((t ≡ codes "MANUAL_DATA_INPUT") ↔ (i ≡ 1))
      × ((t ≡ codes "AUTOMATIC") ↔ (i ≡ 2))
unfolding c_str pad
mode_from_text zero h = ground arith
mode_from_text (suc zero) h = ground arith
mode_from_text (suc (suc zero)) h = ground arith
mode_from_text (suc (suc (suc i))) h = absurd (omega arith)

estop_from_text :
    (i : ℕ)
    → i < 2
    → let t = c_str (pad 20 (text_at machine_estop i)) in
      ((t ≡ codes "TRIGGERED") ↔ (i ≡ 0)) × ((t ≡ codes "ARMED") ↔ (i ≡ 1))
unfolding c_str pad
estop_from_text zero h = ground arith
estop_from_text (suc zero) h = ground arith
estop_from_text (suc (suc i)) h = absurd (omega arith)

iff_trans : {A B C : Type 0} → A ↔ B → B ↔ C → A ↔ C
iff_trans f g = (λ a. g.0 (f.0 a), λ c. f.1 (g.1 c))

pub status_of-Describes : (tt_us : ℕ) (st : Odbst) → Describes (status_of tt_us st)
status_of-Describes tt_us st =
    let (e0, e1, e2, e3) = execution_from_text (execution_index st) (execution_index-lt st) in
    let (m0, m1, m2) = mode_from_text (mode_index st) (mode_index-lt st) in
    let (c0, c1, c2, c3) = execution_index_cases st in
    let (d0, d1, d2) = mode_index_cases st in
    let (s0, s1) = estop_from_text (estop_index st) (estop_index-lt st) in
    let (t0, t1) = estop_index_cases st in
    record {
      active = iff_trans e0 c0;
      interrupted = iff_trans e1 c1;
      stopped = iff_trans e2 c2;
      ready = iff_trans e3 c3;
      manual = iff_trans m0 d0;
      data_input = iff_trans m1 d1;
      automatic = iff_trans m2 d2;
      triggered = iff_trans s0 t0;
      armed = iff_trans s1 t1;
    }
