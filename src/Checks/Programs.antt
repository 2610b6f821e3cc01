-- ===== src/Checks/Programs.antt =====
-- checkMachineProgramName, checkMachineProgramHeader and checkMachineProgramContents of
-- driver/src/check.c: each reads anew only when a program number has changed.
use fanuc_driver.Checks.State.{Driver, Check, free, take_reading_or_free, add_duration}
use fanuc_driver.CString.{Bytes, c_str, strncpy}
use fanuc_driver.Env.{Env}
use fanuc_driver.Prelude.{
  ℕ, Option, none, some, if◌then◌else◌, ◌==ℤ◌, pure, gets, in_bounds, ◌>>=◌, modify,
}
use fanuc_driver.Readings.Contents.{get_machine_program_contents}
use fanuc_driver.Readings.Header.{get_machine_program_header}
use fanuc_driver.Readings.Texts.{get_machine_program_name}
use fanuc_driver.Report.{Datum, string_of_null, add, create_number, create_string}
use fanuc_driver.Types.{MachineProgram, MachineProgramContents, MachineProgramName}

abbrev pub contents_datum : {D : Type 0} → Option Bytes → Datum D
contents_datum none = string_of_null
contents_datum (some s) = create_string (c_str s)

module _ {W D : Type 0} where
  -- The new path, the two items and `free(v)`.
  unfoldable pub store_program_name : MachineProgramName → Bytes → Driver W D → Driver W D
  store_program_name v path d =
      let o1 = add "program_name" (create_string (c_str v.name)) d.updates in
      let o2 = add "program_path" (create_string (c_str v.path)) o1 in
      let d1 = record d { m_program_path = path; updates = o2 } in
      let d2 = free (add_duration "program_name" v.execution_duration d1) in
      record d2 { name_program_num = d.c_program_num }

  -- strncpy(mProgramPath, v->path, 256)
  unfoldable pub report_program_name : MachineProgramName → Check W D (Unit {0})
  unfolding store_program_name
  report_program_name v = do
    d ← gets (λ d. d)
    path ← in_bounds (strncpy d.m_program_path v.path 256)
    modify (store_program_name v path)

  unfoldable pub report_program_header : MachineProgram → Driver W D → Driver W D
  unfolding c_str
  report_program_header v d =
      let d1 = record d {
        updates = add "program_header" (create_string (c_str v.header)) d.updates;
      } in
      let d2 = free (add_duration "program_header" v.execution_duration d1) in
      record d2 { header_program_num = d.c_program_num }

  -- The contents are freed, the struct that held them is not.
  unfoldable pub report_program_contents : MachineProgramContents → Driver W D → Driver W D
  report_program_contents v d =
      let o1 = add "program_size" (create_number v.size) d.updates in
      let o2 = add "program" (contents_datum v.contents) o1 in
      let d1 = add_duration "program" v.execution_duration (record d { updates = o2 }) in
      record d1 { contents_program_num = d.m_program_num }

module _ {W D : Type 0} (env : Env W D) where
  unfoldable pub check_machine_program_name : Check W D (Unit {0})
  check_machine_program_name = do
    d ← gets (λ d. d)
    if d.name_program_num ==ℤ d.c_program_num then pure tt else (do
      v ← take_reading_or_free (λ u. u.program_name) env (get_machine_program_name env)
      report_program_name v)

  unfoldable pub check_machine_program_header : ℕ → Check W D (Unit {0})
  check_machine_program_header fuel = do
    d ← gets (λ d. d)
    if d.header_program_num ==ℤ d.c_program_num then pure tt else (do
      v ←
          take_reading_or_free (λ u. u.program) env
            (λ v. get_machine_program_header env fuel v d.c_program_num)
      modify (report_program_header v))

  unfoldable pub check_machine_program_contents : ℕ → Check W D (Unit {0})
  check_machine_program_contents fuel = do
    d ← gets (λ d. d)
    if d.contents_program_num ==ℤ d.m_program_num then pure tt else (do
      v ←
          take_reading_or_free (λ u. u.contents) env
            (λ v. get_machine_program_contents env fuel v d.m_program_path)
      modify (report_program_contents v))
