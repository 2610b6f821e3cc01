-- ===== src/Readings/Header.antt =====
-- getMachineProgramHeader of driver/src/data.c.
pub mod Scan
pub mod Laws
use fanuc_driver.Prelude.{
  ℕ, zero, suc, ◌+◌, ℤ, pos, Bool, true, false, not, ◌&&◌, ◌||◌, List, [], ◌∷◌, ◌++◌, Option, none,
  some, if◌then◌else◌, ◌==◌, ltb, Outcome, returns, continue, ◌>>=◌, ◌>>◌, pure, hang, in_bounds,
}
use fanuc_driver.CString.{Bytes, codes, c_str, sprintf}
use fanuc_driver.CString.Hex.{dec_short}
use fanuc_driver.Clock.{elapsed}
use fanuc_driver.Focas.{
  Focas, EwCode, ew_ok, ew_busy, ew_data, ew_buffer, ew_mode, ew_other, Upload,
}
use fanuc_driver.Types.{MachineProgram}
use fanuc_driver.Env.{Env, Uninit}
use fanuc_driver.Env.Reader.{Reader, Get, call, now, is_ok, set_at, read}
use fanuc_driver.Readings.Texts.{overlay}
use fanuc_driver.Readings.Contents.Laws.{program}
use fanuc_driver.Report.{number}

-- The first character of a line that the header goes on with: a comment, an empty line, a blank, a
-- macro.
abbrev pub starts_header_line : ℕ → Bool
starts_header_line f = f == b'(' || f == 10 || f == b' ' || f == b'#'

-- What becomes of the character `c` before `rest`, where `more` is the scan of `rest`.
abbrev pub scan_char : ℕ → ℕ → Bytes → Option Bytes → Option Bytes
scan_char lines c [] more = if c == 0 then some (0 ∷ []) else none
scan_char lines c (f ∷ rest) more =
    if c == 0
    then some (0 ∷ f ∷ rest)
    else if c == 10 && ltb 0 lines && not (starts_header_line f)
    then some (0 ∷ f ∷ rest)
    else elim more [ none ↦ none | some r ↦ some ((if c == 10 then b' ' else c) ∷ r) ]

-- The loop over the characters of the program; `none` where it runs past the end of the array.
unfoldable pub scan : ℕ → Bytes → Option Bytes
scan lines [] = none
scan lines (c ∷ rest) = scan_char lines c rest (scan (if c == 10 then lines + 1 else lines) rest)

-- "(ERR: program %d not found on cnc)", "(ERR: program %d cannot be read from cnc)"
unfoldable pub not_found : ℤ → Bytes
unfolding dec_short
not_found n = codes "(ERR: program " ++ (dec_short n ++ codes " not found on cnc)")

unfoldable pub cannot_be_read : ℤ → Bytes
unfolding dec_short
cannot_be_read n = codes "(ERR: program " ++ (dec_short n ++ codes " cannot be read from cnc)")

module _ {W D : Type 0} (env : Env W D) where
  -- program[len] = '\0' and the loop over the characters, `if (ret == EW_OK)`.
  unfoldable pub terminate_and_scan : EwCode → ℤ → Bytes → Get W D Bytes
  unfolding scan
  terminate_and_scan ret len program =
      if is_ok ret
      then (do p ← in_bounds (set_at program len 0); in_bounds (scan 0 p))
      else pure program

  -- do { ... } while (ret == EW_BUFFER): the last return code and the program. `len` goes in as the
  -- call before left it.
  unfoldable pub upload_header : ℕ → ℤ → Bytes → Get W D (EwCode × Bytes)
  unfolding terminate_and_scan overlay
  upload_header zero len program = hang
  upload_header (suc fuel) len program = do
    (ret, up) ← call (λ h. env.focas.cnc_upload3 h len)
    program' ← in_bounds (overlay program up.written)
    program'' ← terminate_and_scan ret up.len program'
    elim ret [
      | ew_buffer ↦ upload_header fuel up.len program''
      | ew_ok ↦ pure (ew_ok, program'')
      | ew_busy ↦ pure (ew_busy, program'')
      | ew_data ↦ pure (ew_data, program'')
      | ew_mode ↦ pure (ew_mode, program'')
      | ew_other z ↦ pure (ew_other z, program'')
    ]

  -- if (ret == EW_OK || ret == EW_BUSY) { ... }
  unfoldable pub start_upload : ℕ → EwCode → Bytes → Get W D (EwCode × Bytes)
  unfolding upload_header
  start_upload fuel ew_ok program = upload_header fuel (pos 2047) program
  start_upload fuel ew_busy program = upload_header fuel (pos 2047) program
  start_upload fuel ret program = pure (ret, program)

  -- After the upload is closed: the program as far as the scan left it, or an error text. The error
  -- text leaves `v->number` as it was.
  unfoldable pub close_header : ℤ → ℕ → MachineProgram → Bytes → EwCode → Get W D MachineProgram
  unfolding cannot_be_read sprintf c_str
  close_header program_num tt_us v program ret =
      if is_ok ret
      then (do
        header ← in_bounds (sprintf v.header (c_str program))
        pure (record { execution_duration = tt_us; number = program_num; header = header }))
      else (do
        header ← in_bounds (sprintf v.header (cannot_be_read program_num))
        pure (record v { execution_duration = tt_us; header = header }))

  unfoldable pub finish_header : ℤ → ℕ → MachineProgram → EwCode × Bytes → Get W D MachineProgram
  unfolding not_found close_header
  finish_header program_num tt_us v (ew_data, program) = do
    header ← in_bounds (sprintf v.header (not_found program_num))
    pure (record { execution_duration = tt_us; number = program_num; header = header })
  finish_header program_num tt_us v (ret, program) = do
    (ret', _) ← call env.focas.cnc_upend3
    close_header program_num tt_us v program ret'

  unfoldable pub get_machine_program_header : ℕ → MachineProgram → ℤ → Get W D MachineProgram
  unfolding start_upload finish_header
  get_machine_program_header fuel v program_num s =
      (do
        t0 ← now env.clock_gettime
        (ret, _) ← call (λ h. env.focas.cnc_upstart h program_num)
        result ← start_upload fuel ret (env.uninit s.world).header
        t1 ← now env.clock_gettime
        finish_header program_num (elapsed t0 t1) v result)
        s
