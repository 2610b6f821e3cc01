-- ===== src/Readings/Status/Filled.antt =====
-- getMachineStatus: what a reading of the codes fills in, whatever the struct held before.
use mathlib.Core.List.{append-nil}
use fanuc_driver.CString.{Bytes, c_str, pad, strncpy}
use fanuc_driver.CString.Laws.{strncpy_fits, drop_all}
use fanuc_driver.Env.Reader.{Reader}
use fanuc_driver.Focas.{Odbst}
use fanuc_driver.Prelude.{
  ℕ, zero, suc, ◌<◌, ◌≡◌, refl, ap, ◌∙◌, some, List, [], ◌∷◌, arith, length, get_elem?, returns,
}
use fanuc_driver.Readings.Status.{
  machine_execution, machine_mode, machine_estop, execution_index, mode_index, estop_index,
  raw_status, fill_status,
}
use fanuc_driver.Types.{MachineStatus}

-- The char arrays have their declared size.
pub record IsSized (v : MachineStatus) : Type 0 where
  pub execution : length v.execution ≡ 20
  pub mode : length v.mode ≡ 20
  pub estop : length v.estop ≡ 20

abbrev pub text_at : List Bytes → ℕ → Bytes
text_at [] i = []
text_at (t ∷ ts) zero = t
text_at (t ∷ ts) (suc i) = text_at ts i

-- What a reading of the codes `s` fills in, whatever the struct held before.
abbrev pub status_of : ℕ → Odbst → MachineStatus
status_of tt_us s = record {
  execution_duration = tt_us;
  execution = pad 20 (text_at machine_execution (execution_index s));
  mode = pad 20 (text_at machine_mode (mode_index s));
  estop = pad 20 (text_at machine_estop (estop_index s));
  raw = raw_status s;
}

pub execution_index-lt : (s : Odbst) → execution_index s < 4
unfolding execution_index
execution_index-lt s = ground arith

pub mode_index-lt : (s : Odbst) → mode_index s < 3
unfolding mode_index
mode_index-lt s = ground arith

pub estop_index-lt : (s : Odbst) → estop_index s < 2
unfolding estop_index
estop_index-lt s = ground arith

-- A table has its texts in it, and each of them fills an array of twenty.
execution_entry :
    (i : ℕ) → i < 4 → get_elem? machine_execution i ≡ some (text_at machine_execution i)
execution_entry zero h = refl
execution_entry (suc zero) h = refl
execution_entry (suc (suc zero)) h = refl
execution_entry (suc (suc (suc zero))) h = refl
execution_entry (suc (suc (suc (suc i)))) h = absurd (omega arith)

mode_entry : (i : ℕ) → i < 3 → get_elem? machine_mode i ≡ some (text_at machine_mode i)
mode_entry zero h = refl
mode_entry (suc zero) h = refl
mode_entry (suc (suc zero)) h = refl
mode_entry (suc (suc (suc i))) h = absurd (omega arith)

estop_entry : (i : ℕ) → i < 2 → get_elem? machine_estop i ≡ some (text_at machine_estop i)
estop_entry zero h = refl
estop_entry (suc zero) h = refl
estop_entry (suc (suc i)) h = absurd (omega arith)

c_str-execution : (i : ℕ) → c_str (text_at machine_execution i) ≡ text_at machine_execution i
unfolding c_str
c_str-execution zero = refl
c_str-execution (suc zero) = refl
c_str-execution (suc (suc zero)) = refl
c_str-execution (suc (suc (suc zero))) = refl
c_str-execution (suc (suc (suc (suc i)))) = refl

c_str-mode : (i : ℕ) → c_str (text_at machine_mode i) ≡ text_at machine_mode i
unfolding c_str
c_str-mode zero = refl
c_str-mode (suc zero) = refl
c_str-mode (suc (suc zero)) = refl
c_str-mode (suc (suc (suc i))) = refl

c_str-estop : (i : ℕ) → c_str (text_at machine_estop i) ≡ text_at machine_estop i
unfolding c_str
c_str-estop zero = refl
c_str-estop (suc zero) = refl
c_str-estop (suc (suc i)) = refl

-- `strncpy` over a whole array of twenty leaves the padded text.
strncpy_whole : (buf t : Bytes) → length buf ≡ 20 → c_str t ≡ t → strncpy buf t 20 ≡ some (pad 20 t)
strncpy_whole buf t h e =
    strncpy_fits buf t 20 (omega arith)
    ∙ rw (e, drop_all buf 20 (omega arith)) (ap some (append-nil (pad 20 t)))

module _ {W D : Type 0} where
  pub fill_status_lem :
      (v : MachineStatus) (tt_us : ℕ) (st : Odbst) (s : Reader W D)
      → IsSized v
      → fill_status v tt_us st s ≡ (returns (status_of tt_us st), s)
  unfolding fill_status
  fill_status_lem v tt_us st s h =
      rw
        (
          execution_entry (execution_index st) (execution_index-lt st),
          mode_entry (mode_index st) (mode_index-lt st),
          estop_entry (estop_index st) (estop_index-lt st),
        )
        (rw (
          strncpy_whole v.execution _ h.execution (c_str-execution (execution_index st)),
          strncpy_whole v.mode _ h.mode (c_str-mode (mode_index st)),
          strncpy_whole v.estop _ h.estop (c_str-estop (estop_index st)),
        ))
