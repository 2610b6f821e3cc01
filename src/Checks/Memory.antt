-- ===== src/Checks/Memory.antt =====
-- The structs that the checks allocate: what is allocated is what the `static` pointers hold, but for
-- one struct that is lost with each reading of a program's contents.
use fanuc_driver.Checks.Accounts.{
  Accounts, took, took_or_freed, gated, AtMostOneMore, report_program_name-Accounts,
  report_dynamic-Accounts, report_info-Accounts,
}
use fanuc_driver.Checks.Block.{report_block, check_machine_block}
use fanuc_driver.Checks.Counters.{
  report_part_count, report_cycle_time, check_machine_part_count, check_machine_cycle_time,
}
use fanuc_driver.Checks.Dynamic.{report_dynamic, check_machine_dynamic}
use fanuc_driver.Checks.Info.{report_info, check_machine_info}
use fanuc_driver.Checks.Programs.{
  report_program_name, report_program_header, report_program_contents, check_machine_program_name,
  check_machine_program_header, check_machine_program_contents,
}
use fanuc_driver.Checks.State.{Driver, Check, take_reading, take_reading_or_free}
use fanuc_driver.Checks.Status.{
  report_status, report_message, check_machine_status, check_machine_message,
}
use fanuc_driver.Checks.Tool.{report_tool_info, check_machine_tool_info}
use fanuc_driver.Env.{Env}
use fanuc_driver.Prelude.{
  ℕ, ◌+◌, ◌≡◌, Bool, true, false, arith, if◌then◌else◌, ◌==ℤ◌, pure, ◌>>=◌, ◌>>◌, modify, OnReturn,
  OnReturn-bind, OnReturn-map,
}
use fanuc_driver.Readings.Contents.{get_machine_program_contents}
use fanuc_driver.Readings.Counters.{get_machine_cycle_time}
use fanuc_driver.Readings.Header.{get_machine_program_header}
use fanuc_driver.Readings.Texts.{get_machine_program_name}
use fanuc_driver.Tick.{loop_tick}

module _ {W D : Type 0} (env : Env W D) (n : ℕ) (d : Driver W D) (h : Accounts n d) where
  part_count-Accounts : OnReturn (λ _. Accounts n) (check_machine_part_count env d)
  unfolding check_machine_part_count report_part_count
  part_count-Accounts =
      took (Accounts n) _ env _ (λ v. modify (report_part_count v)) d (λ v s. ground arith)

  cycle_time-Accounts : OnReturn (λ _. Accounts n) (check_machine_cycle_time env d)
  unfolding check_machine_cycle_time report_cycle_time
  cycle_time-Accounts =
      gated (Accounts n) (d.cycle_part_count ==ℤ d.part_count)
        (take_reading (λ u. u.cycle_time) env (get_machine_cycle_time env) >>= λ v.
          modify (report_cycle_time v))
        d h (took (Accounts n) _ env _ (λ v. modify (report_cycle_time v)) d (λ v s. ground arith))

  status-Accounts : OnReturn (λ _. Accounts n) (check_machine_status env d)
  unfolding check_machine_status report_status
  status-Accounts =
      took_or_freed (Accounts n) _ env _ (λ v. modify (report_status v)) d (λ v s. ground arith)

  tool-Accounts : OnReturn (λ _. Accounts n) (check_machine_tool_info env d)
  unfolding check_machine_tool_info report_tool_info
  tool-Accounts =
      took (Accounts n) _ env _ (λ v. modify (report_tool_info v)) d (λ v s. ground arith)

  message-Accounts : OnReturn (λ _. Accounts n) (check_machine_message env d)
  unfolding check_machine_message report_message
  message-Accounts =
      took_or_freed (Accounts n) _ env _ (λ v. modify (report_message v)) d (λ v s. ground arith)

  block-Accounts : OnReturn (λ _. Accounts n) (check_machine_block env d)
  unfolding check_machine_block report_block
  block-Accounts = took (Accounts n) _ env _ (λ v. modify (report_block v)) d (λ v s. ground arith)

  header-Accounts :
      (fuel : ℕ) → OnReturn (λ _. Accounts n) (check_machine_program_header env fuel d)
  unfolding check_machine_program_header report_program_header
  header-Accounts fuel =
      gated (Accounts n) (d.header_program_num ==ℤ d.c_program_num)
        (take_reading_or_free (λ u. u.program) env
            (λ v. get_machine_program_header env fuel v d.c_program_num)
          >>= λ v. modify (report_program_header v))
        d h
        (took_or_freed (Accounts n) (λ u. u.program) env
          (λ v. get_machine_program_header env fuel v d.c_program_num)
          (λ v. modify (report_program_header v)) d (λ v s. ground arith))

  name-Accounts : OnReturn (λ _. Accounts n) (check_machine_program_name env d)
  unfolding check_machine_program_name
  name-Accounts =
      gated (Accounts n) (d.name_program_num ==ℤ d.c_program_num)
        (take_reading_or_free (λ u. u.program_name) env (get_machine_program_name env)
          >>= report_program_name)
        d h
        (took_or_freed (Accounts n) _ env _ report_program_name d
          (λ v s. report_program_name-Accounts n v d s h))

  dynamic-Accounts : OnReturn (λ _. Accounts n) (check_machine_dynamic env d)
  unfolding check_machine_dynamic
  dynamic-Accounts =
      took_or_freed (Accounts n) _ env _ (report_dynamic env.floats) d
        (λ v s. report_dynamic-Accounts n env.floats v _ (omega arith) (omega arith))

  -- The check of the machine's information keeps the accounts too.
  pub info-Accounts : OnReturn (λ _. Accounts n) (check_machine_info env d)
  unfolding check_machine_info
  info-Accounts =
      took_or_freed (Accounts n) _ env _ (report_info env.floats) d
        (λ v s. report_info-Accounts n env.floats v _ (omega arith) (omega arith))

  abbrev read_contents : ℕ → Check W D (Unit {0})
  read_contents fuel =
      take_reading_or_free (λ u. u.contents) env
        (λ v. get_machine_program_contents env fuel v d.m_program_path)
      >>= λ v. modify (report_program_contents v)

  read_contents-Accounts : (fuel : ℕ) → OnReturn (λ _. Accounts (n + 1)) (read_contents fuel d)
  unfolding report_program_contents
  read_contents-Accounts fuel =
      took_or_freed (Accounts (n + 1)) (λ u. u.contents) env
        (λ v. get_machine_program_contents env fuel v d.m_program_path)
        (λ v. modify (report_program_contents v)) d (λ v s. ground arith)

  -- Where the main program has changed and its contents are read, one more struct is allocated than
  -- the `static` pointers hold.
  pub contents_leak :
      (fuel : ℕ)
      → (d.contents_program_num ==ℤ d.m_program_num) ≡ false
      → OnReturn (λ _. Accounts (n + 1)) (check_machine_program_contents env fuel d)
  unfolding check_machine_program_contents
  contents_leak fuel e = go (d.contents_program_num ==ℤ d.m_program_num) e
    where
      go :
          (b : Bool)
          → b ≡ false
          → OnReturn (λ _. Accounts (n + 1)) ((if b then pure tt else read_contents fuel) d)
      go true e = absurd (cc)
      go false e = read_contents-Accounts fuel

  contents-AtMostOneMore :
      (fuel : ℕ) → OnReturn (λ _. AtMostOneMore n) (check_machine_program_contents env fuel d)
  unfolding check_machine_program_contents
  contents-AtMostOneMore fuel =
      gated (AtMostOneMore n) (d.contents_program_num ==ℤ d.m_program_num) (read_contents fuel) d
        (n, h, omega arith, omega arith)
        (OnReturn-map (λ _. Accounts (n + 1)) (λ _. AtMostOneMore n) (read_contents fuel d)
          (read_contents-Accounts fuel) (λ _ d' a. (n + 1, a, omega arith, omega arith)))

module _ {W D : Type 0} (env : Env W D) where
  -- From a driver whose allocated structs are those of the static pointers and `n` lost ones, a round
  -- that returns leaves `n` or `n + 1` lost structs, whatever has changed and whatever the control
  -- answers.
  pub tick-Accounts :
      (fuel n : ℕ) (d : Driver W D)
      → Accounts n d
      → OnReturn (λ _. AtMostOneMore n) (loop_tick env fuel d)
  unfolding loop_tick
  tick-Accounts fuel n d h =
      keep (check_machine_part_count env) _ d (part_count-Accounts env n d h) λ _ d1 h1.
        keep (check_machine_cycle_time env) _ d1 (cycle_time-Accounts env n d1 h1) λ _ d2 h2.
          keep (check_machine_status env) _ d2 (status-Accounts env n d2 h2) λ _ d3 h3.
            keep (check_machine_tool_info env) _ d3 (tool-Accounts env n d3 h3) λ _ d4 h4.
              keep (check_machine_dynamic env) _ d4 (dynamic-Accounts env n d4 h4) λ _ d5 h5.
                keep (check_machine_message env) _ d5 (message-Accounts env n d5 h5) λ _ d6 h6.
                  keep (check_machine_program_name env) _ d6 (name-Accounts env n d6 h6) λ _ d7 h7.
                    keep (check_machine_program_header env fuel) _ d7
                      (header-Accounts env n d7 h7 fuel)
                      λ _ d8 h8.
                        OnReturn-bind (λ _. AtMostOneMore n) (λ _. AtMostOneMore n)
                          (check_machine_program_contents env fuel) _ d8
                          (contents-AtMostOneMore env n d8 h8 fuel)
                          λ _ d9 h9.
                            let (m, a, lo, hi) = h9 in
                            OnReturn-map (λ _. Accounts m) (λ _. AtMostOneMore n)
                              (check_machine_block env d9) (block-Accounts env m d9 a)
                              (λ _ d10 b. (m, b, lo, hi))
    where
      keep :
          (m k : Check W D (Unit {0})) (s : Driver W D)
          → OnReturn (λ _. Accounts n) (m s)
          → ((a : Unit {0}) (s' : Driver W D)
              → Accounts n s'
              → OnReturn (λ _. AtMostOneMore n) (k s'))
          → OnReturn (λ _. AtMostOneMore n) ((m >> k) s)
      keep m k s p q = OnReturn-bind (λ _. Accounts n) (λ _. AtMostOneMore n) m (λ _. k) s p q
