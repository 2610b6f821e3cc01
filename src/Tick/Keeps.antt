-- ===== src/Tick/Keeps.antt =====
-- A rule for the whole round, `loop_tick`: a property of the driver that the part of each check behind
-- its reading keeps, and that does not look at the reader's state, is kept by the round.
use fanuc_driver.Checks.Accounts.{took, took_or_freed, gated}
use fanuc_driver.Checks.Block.{report_block, check_machine_block}
use fanuc_driver.Checks.Counters.{
  report_part_count, report_cycle_time, check_machine_part_count, check_machine_cycle_time,
}
use fanuc_driver.Checks.Dynamic.{report_dynamic, check_machine_dynamic}
use fanuc_driver.Checks.Programs.{
  report_program_name, report_program_header, report_program_contents, check_machine_program_name,
  check_machine_program_header, check_machine_program_contents,
}
use fanuc_driver.Checks.State.{Driver, Check, take_reading, take_reading_or_free, malloc}
use fanuc_driver.Checks.Status.{
  report_status, report_message, check_machine_status, check_machine_message,
}
use fanuc_driver.Checks.Tool.{report_tool_info, check_machine_tool_info}
use fanuc_driver.Env.{Uninit, Env, Floats}
use fanuc_driver.Env.Reader.{Get, Reader}
use fanuc_driver.Prelude.{ℕ, ◌==ℤ◌, ◌>>=◌, ◌>>◌, modify, OnReturn, OnReturn-bind}
use fanuc_driver.Readings.Contents.{get_machine_program_contents}
use fanuc_driver.Readings.Counters.{get_machine_cycle_time}
use fanuc_driver.Readings.Header.{get_machine_program_header}
use fanuc_driver.Readings.Texts.{get_machine_program_name}
use fanuc_driver.Tick.{loop_tick}
use fanuc_driver.Types.{
  MachineMessage, MachineStatus, MachinePartCount, MachineCycleTime, MachineDynamic,
  MachineToolInfo, MachineBlock, MachineProgram, MachineProgramName, MachineProgramContents,
}

pub record Keeps {W D : Type 0} (Q : Driver W D → Type 0) : Type 0 where
  pub taken : (d : Driver W D) (r : Reader W D) → Q d → Q (record (malloc d) { reader = r })
  pub part : (v : MachinePartCount) (d : Driver W D) → Q d → Q (report_part_count v d)
  pub cycle : (v : MachineCycleTime) (d : Driver W D) → Q d → Q (report_cycle_time v d)
  pub status : (v : MachineStatus) (d : Driver W D) → Q d → Q (report_status v d)
  pub tool : (v : MachineToolInfo) (d : Driver W D) → Q d → Q (report_tool_info v d)
  pub dynamic :
      (floats : Floats D) (v : MachineDynamic D) (d : Driver W D)
      → Q d
      → OnReturn (λ _. Q) (report_dynamic floats v d)
  pub message : (v : MachineMessage) (d : Driver W D) → Q d → Q (report_message v d)
  pub name :
      (v : MachineProgramName) (d : Driver W D) → Q d → OnReturn (λ _. Q) (report_program_name v d)
  pub header : (v : MachineProgram) (d : Driver W D) → Q d → Q (report_program_header v d)
  pub contents :
      (v : MachineProgramContents) (d : Driver W D) → Q d → Q (report_program_contents v d)
  pub block : (v : MachineBlock) (d : Driver W D) → Q d → Q (report_block v d)

module _ {W D : Type 0} (Q : Driver W D → Type 0) (K : Keeps Q) (env : Env W D) where
  keeping :
      {A : Type 0} (new : Uninit D → A) (rd : A → Get W D A) (k : A → Driver W D → Driver W D)
      (d : Driver W D)
      → ((v : A) (d : Driver W D) → Q d → Q (k v d))
      → Q d
      → OnReturn (λ _. Q) ((take_reading new env rd >>= λ v. modify (k v)) d)
  keeping new rd k d step s =
      took Q new env rd (λ v. modify (k v)) d (λ v r. step v _ (K.taken d r s))

  keeping_or_freed :
      {A : Type 0} (new : Uninit D → A) (rd : A → Get W D A) (k : A → Check W D (Unit {0}))
      (d : Driver W D)
      → ((v : A) (d : Driver W D) → Q d → OnReturn (λ _. Q) (k v d))
      → Q d
      → OnReturn (λ _. Q) ((take_reading_or_free new env rd >>= k) d)
  keeping_or_freed new rd k d step s =
      took_or_freed Q new env rd k d (λ v r. step v _ (K.taken d r s))

  part_count-keeps : (d : Driver W D) → Q d → OnReturn (λ _. Q) (check_machine_part_count env d)
  unfolding check_machine_part_count
  part_count-keeps d s = keeping _ _ report_part_count d K.part s

  cycle_time-keeps : (d : Driver W D) → Q d → OnReturn (λ _. Q) (check_machine_cycle_time env d)
  unfolding check_machine_cycle_time
  cycle_time-keeps d s =
      gated Q (d.cycle_part_count ==ℤ d.part_count)
        (take_reading (λ u. u.cycle_time) env (get_machine_cycle_time env) >>= λ v.
          modify (report_cycle_time v))
        d s (keeping (λ u. u.cycle_time) (get_machine_cycle_time env) report_cycle_time d K.cycle s)

  status-keeps : (d : Driver W D) → Q d → OnReturn (λ _. Q) (check_machine_status env d)
  unfolding check_machine_status
  status-keeps d s = keeping_or_freed _ _ (λ v. modify (report_status v)) d K.status s

  tool-keeps : (d : Driver W D) → Q d → OnReturn (λ _. Q) (check_machine_tool_info env d)
  unfolding check_machine_tool_info
  tool-keeps d s = keeping _ _ report_tool_info d K.tool s

  dynamic-keeps : (d : Driver W D) → Q d → OnReturn (λ _. Q) (check_machine_dynamic env d)
  unfolding check_machine_dynamic
  dynamic-keeps d s = keeping_or_freed _ _ (report_dynamic env.floats) d (K.dynamic env.floats) s

  message-keeps : (d : Driver W D) → Q d → OnReturn (λ _. Q) (check_machine_message env d)
  unfolding check_machine_message
  message-keeps d s = keeping_or_freed _ _ (λ v. modify (report_message v)) d K.message s

  name-keeps : (d : Driver W D) → Q d → OnReturn (λ _. Q) (check_machine_program_name env d)
  unfolding check_machine_program_name
  name-keeps d s =
      gated Q (d.name_program_num ==ℤ d.c_program_num)
        (take_reading_or_free (λ u. u.program_name) env (get_machine_program_name env)
          >>= report_program_name)
        d s
        (keeping_or_freed (λ u. u.program_name) (get_machine_program_name env) report_program_name d
          K.name s)

  header-keeps :
      (fuel : ℕ) (d : Driver W D)
      → Q d
      → OnReturn (λ _. Q) (check_machine_program_header env fuel d)
  unfolding check_machine_program_header
  header-keeps fuel d s =
      gated Q (d.header_program_num ==ℤ d.c_program_num)
        (take_reading_or_free (λ u. u.program) env
            (λ v. get_machine_program_header env fuel v d.c_program_num)
          >>= λ v. modify (report_program_header v))
        d s
        (keeping_or_freed (λ u. u.program)
          (λ v. get_machine_program_header env fuel v d.c_program_num)
          (λ v. modify (report_program_header v)) d K.header s)

  contents-keeps :
      (fuel : ℕ) (d : Driver W D)
      → Q d
      → OnReturn (λ _. Q) (check_machine_program_contents env fuel d)
  unfolding check_machine_program_contents
  contents-keeps fuel d s =
      gated Q (d.contents_program_num ==ℤ d.m_program_num)
        (take_reading_or_free (λ u. u.contents) env
            (λ v. get_machine_program_contents env fuel v d.m_program_path)
          >>= λ v. modify (report_program_contents v))
        d s
        (keeping_or_freed (λ u. u.contents)
          (λ v. get_machine_program_contents env fuel v d.m_program_path)
          (λ v. modify (report_program_contents v)) d K.contents s)

  block-keeps : (d : Driver W D) → Q d → OnReturn (λ _. Q) (check_machine_block env d)
  unfolding check_machine_block
  block-keeps d s = keeping _ _ report_block d K.block s

  then_ :
      (m k : Check W D (Unit {0})) (d : Driver W D)
      → OnReturn (λ _. Q) (m d)
      → ((d' : Driver W D) → Q d' → OnReturn (λ _. Q) (k d'))
      → OnReturn (λ _. Q) ((m >> k) d)
  then_ m k d p q = OnReturn-bind (λ _. Q) (λ _. Q) m (λ _. k) d p (λ _. q)

  pub tick-keeps : (fuel : ℕ) (d : Driver W D) → Q d → OnReturn (λ _. Q) (loop_tick env fuel d)
  unfolding loop_tick
  tick-keeps fuel d s = then_ (check_machine_part_count env) _ d (part_count-keeps d s) λ d s.
      then_ (check_machine_cycle_time env) _ d (cycle_time-keeps d s) λ d s.
        then_ (check_machine_status env) _ d (status-keeps d s) λ d s.
          then_ (check_machine_tool_info env) _ d (tool-keeps d s) λ d s.
            then_ (check_machine_dynamic env) _ d (dynamic-keeps d s) λ d s.
              then_ (check_machine_message env) _ d (message-keeps d s) λ d s.
                then_ (check_machine_program_name env) _ d (name-keeps d s) λ d s.
                  then_ (check_machine_program_header env fuel) _ d (header-keeps fuel d s) λ d s.
                    then_ (check_machine_program_contents env fuel) _ d (contents-keeps fuel d s)
                      λ d s. block-keeps d s
