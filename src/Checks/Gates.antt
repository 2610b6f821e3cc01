-- ===== src/Checks/Gates.antt =====
-- The four checks that read anew only when a number has changed.
use fanuc_driver.Checks.Accounts.{took, took_or_freed}
use fanuc_driver.CString.{strncpy}
use fanuc_driver.Checks.Counters.{report_cycle_time, check_machine_cycle_time}
use fanuc_driver.Checks.Programs.{
  store_program_name, report_program_name, report_program_header, report_program_contents,
  check_machine_program_name, check_machine_program_header, check_machine_program_contents,
}
use fanuc_driver.Checks.State.{Driver, malloc, take_reading, take_reading_or_free}
use fanuc_driver.Env.{Env}
use fanuc_driver.Prelude.{
  ℕ, ◌≡◌, refl, Bool, true, false, if◌then◌else◌, ◌==ℤ◌, returns, Exec, pure, ◌>>=◌, modify,
  OnReturn, in_bounds-OnReturn, OnReturn-map, ==ℤ_refl,
}
use fanuc_driver.Readings.Contents.{get_machine_program_contents}
use fanuc_driver.Readings.Counters.{get_machine_cycle_time}
use fanuc_driver.Readings.Header.{get_machine_program_header}
use fanuc_driver.Readings.Texts.{get_machine_program_name}

module _ {W D : Type 0} where
  abbrev CycleRead : Driver W D → Type 0
  CycleRead d = (d.cycle_part_count ==ℤ d.part_count) ≡ true

  abbrev NameRead : Driver W D → Type 0
  NameRead d = (d.name_program_num ==ℤ d.c_program_num) ≡ true

  abbrev HeaderRead : Driver W D → Type 0
  HeaderRead d = (d.header_program_num ==ℤ d.c_program_num) ≡ true

  abbrev ContentsRead : Driver W D → Type 0
  ContentsRead d = (d.contents_program_num ==ℤ d.m_program_num) ≡ true

-- A gate that is shut lets nothing through, and an open one is shut behind the check.
passes :
    {S : Type 0} (Q : S → Type 0) (b : Bool) (m : Exec S (Unit {0})) (s : S)
    → (b ≡ true → Q s)
    → OnReturn (λ _. Q) (m s)
    → OnReturn (λ _. Q) ((if b then pure tt else m) s)
passes Q true m s h k = h refl
passes Q false m s h k = k

module _ {W D : Type 0} (env : Env W D) (fuel : ℕ) (d : Driver W D) where
  cycle_read : OnReturn (λ _. CycleRead) (check_machine_cycle_time env d)
  unfolding check_machine_cycle_time report_cycle_time
  cycle_read =
      passes CycleRead (d.cycle_part_count ==ℤ d.part_count)
        (take_reading (λ u. u.cycle_time) env (get_machine_cycle_time env) >>= λ v.
          modify (report_cycle_time v))
        d (λ e. e)
        (took CycleRead _ env _ (λ v. modify (report_cycle_time v)) d
          (λ v s. ==ℤ_refl d.part_count))

  name_read : OnReturn (λ _. NameRead) (check_machine_program_name env d)
  unfolding check_machine_program_name report_program_name
  name_read =
      passes NameRead (d.name_program_num ==ℤ d.c_program_num)
        (take_reading_or_free (λ u. u.program_name) env (get_machine_program_name env)
          >>= report_program_name)
        d (λ e. e)
        (took_or_freed NameRead _ env _ report_program_name d (λ v s.
          in_bounds-OnReturn (λ _. NameRead) (strncpy d.m_program_path v.path 256)
            (λ path. modify (store_program_name v path)) (record (malloc d) { reader = s })
            (λ path. ==ℤ_refl d.c_program_num)))

  header_read : OnReturn (λ _. HeaderRead) (check_machine_program_header env fuel d)
  unfolding check_machine_program_header report_program_header
  header_read =
      passes HeaderRead (d.header_program_num ==ℤ d.c_program_num)
        (take_reading_or_free (λ u. u.program) env
            (λ v. get_machine_program_header env fuel v d.c_program_num)
          >>= λ v. modify (report_program_header v))
        d (λ e. e)
        (took_or_freed HeaderRead (λ u. u.program) env
          (λ v. get_machine_program_header env fuel v d.c_program_num)
          (λ v. modify (report_program_header v)) d (λ v s. ==ℤ_refl d.c_program_num))

  contents_read : OnReturn (λ _. ContentsRead) (check_machine_program_contents env fuel d)
  unfolding check_machine_program_contents report_program_contents
  contents_read =
      passes ContentsRead (d.contents_program_num ==ℤ d.m_program_num)
        (take_reading_or_free (λ u. u.contents) env
            (λ v. get_machine_program_contents env fuel v d.m_program_path)
          >>= λ v. modify (report_program_contents v))
        d (λ e. e)
        (took_or_freed ContentsRead (λ u. u.contents) env
          (λ v. get_machine_program_contents env fuel v d.m_program_path)
          (λ v. modify (report_program_contents v)) d (λ v s. ==ℤ_refl d.m_program_num))

-- The check does nothing, and asks the control nothing.
abbrev pub Idle : {S : Type 0} → Exec S (Unit {0}) → S → Type 0
Idle m s = m s ≡ (returns tt, s)

module _ {W D : Type 0} (env : Env W D) where
  cycle-Idle : (d : Driver W D) → CycleRead d → Idle (check_machine_cycle_time env) d
  unfolding check_machine_cycle_time
  cycle-Idle d e = rw e refl

  name-Idle : (d : Driver W D) → NameRead d → Idle (check_machine_program_name env) d
  unfolding check_machine_program_name
  name-Idle d e = rw e refl

  header-Idle :
      (fuel : ℕ) (d : Driver W D) → HeaderRead d → Idle (check_machine_program_header env fuel) d
  unfolding check_machine_program_header
  header-Idle fuel d e = rw e refl

  contents-Idle :
      (fuel : ℕ) (d : Driver W D)
      → ContentsRead d
      → Idle (check_machine_program_contents env fuel) d
  unfolding check_machine_program_contents
  contents-Idle fuel d e = rw e refl

module _ {W D : Type 0} (env : Env W D) where
  -- Whatever the state, each of the four checks that read anew only when a number has changed, once
  -- it has returned, is idle when it is called again at once.
  pub second_check-Idle :
      (fuel : ℕ) (d : Driver W D)
      → OnReturn (λ _. Idle (check_machine_cycle_time env)) (check_machine_cycle_time env d)
        × OnReturn (λ _. Idle (check_machine_program_name env)) (check_machine_program_name env d)
        × OnReturn
            (λ _. Idle (check_machine_program_header env fuel))
            (check_machine_program_header env fuel d)
        × OnReturn
            (λ _. Idle (check_machine_program_contents env fuel))
            (check_machine_program_contents env fuel d)
  second_check-Idle fuel d = (
    OnReturn-map (λ _. CycleRead) (λ _. Idle (check_machine_cycle_time env))
        (check_machine_cycle_time env d) (cycle_read env fuel d) (λ _ d' e. cycle-Idle env d' e),
    OnReturn-map (λ _. NameRead) (λ _. Idle (check_machine_program_name env))
        (check_machine_program_name env d) (name_read env fuel d) (λ _ d' e. name-Idle env d' e),
    OnReturn-map (λ _. HeaderRead) (λ _. Idle (check_machine_program_header env fuel))
        (check_machine_program_header env fuel d) (header_read env fuel d)
        (λ _ d' e. header-Idle env fuel d' e),
    OnReturn-map (λ _. ContentsRead) (λ _. Idle (check_machine_program_contents env fuel))
        (check_machine_program_contents env fuel d) (contents_read env fuel d)
        (λ _ d' e. contents-Idle env fuel d' e),
  )
