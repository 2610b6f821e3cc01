-- ===== src/Examples/Views.antt =====
-- The theorems about what a consumer sees at concrete inputs.
use fanuc_driver.Examples.Bench.{bench_floats, bench_uninit, bench_driver, bench}
use fanuc_driver.Checks.Dynamic.Arrays.{ArraysView, arrays_synced}
use fanuc_driver.Report.Latest.{latest}
use fanuc_driver.Checks.Dynamic.{array_updates, number_updates, report_dynamic}
use fanuc_driver.Prelude.{
  ◌≡◌, refl, inl, false, not, some, [], ◌∷◌, ◌++◌, arith, ℤ, pos, ◌==ℤ◌, ==ℤ_iff, ℕ, ◌≢◌, negsuc,
  OnReturn,
}
use fanuc_driver.Report.{numbers, Object, create_number, create_string}
use fanuc_driver.Types.{MachineDynamic, MachineMessage, MachineStatus}
use fanuc_driver.CString.{codes, c_str, strncmp_ne}
use fanuc_driver.Checks.Alarm.{alarm_overwritten}
use fanuc_driver.Checks.Block.{report_block}
use fanuc_driver.Checks.Counters.{report_part_count, check_machine_cycle_time}
use fanuc_driver.Checks.Quiet.{unchanged_quiet}
use fanuc_driver.Checks.State.{Driver}
use fanuc_driver.Checks.Status.{status_updates, report_status, report_message}
use fanuc_driver.Checks.Status.Message.{message_taken_back}
use fanuc_driver.Checks.Tool.{report_tool_info}
use fanuc_driver.Checks.Gates.{Idle, second_check-Idle}
use fanuc_driver.Checks.Programs.{
  check_machine_program_name, check_machine_program_header, check_machine_program_contents,
}

ne_trans : (a b c : ℤ) → not (a ==ℤ b) ≡ false → not (b ==ℤ c) ≡ false → not (a ==ℤ c) ≡ false
ne_trans a b c p q = ground (arith, ==ℤ_iff a b, ==ℤ_iff b c, ==ℤ_iff a c)

abbrev old_values : MachineDynamic ℤ
old_values = record bench_uninit.dynamic { dim = pos 2 }

abbrev new_values : MachineDynamic ℤ
new_values = record old_values { absolute = pos 7 ∷ pos 8 ∷ pos 9 ∷ [] }

abbrev old_items : Object ℤ
old_items =
    ("absolute", numbers (pos 7 ∷ pos 7 ∷ []))
    ∷ ("relative", numbers (pos 7 ∷ pos 7 ∷ []))
    ∷ ("actual", numbers (pos 7 ∷ pos 7 ∷ []))
    ∷ ("load", numbers (pos 7 ∷ pos 7 ∷ []))
    ∷ []

abbrev new_items : Object ℤ
new_items = ("absolute", numbers (pos 7 ∷ pos 8 ∷ [])) ∷ []

arrays_synced_example : ArraysView bench_floats 2 (some new_values) (old_items ++ new_items)
unfolding array_updates latest
arrays_synced_example =
    arrays_synced bench_floats ne_trans (some old_values) new_values old_items [] new_items
      (omega arith) refl
      (
        (pos 7 ∷ pos 7 ∷ [], refl, (inl refl, (inl refl, tt))),
        (pos 7 ∷ pos 7 ∷ [], refl, (inl refl, (inl refl, tt))),
        (pos 7 ∷ pos 7 ∷ [], refl, (inl refl, (inl refl, tt))),
        (pos 7 ∷ pos 7 ∷ [], refl, (inl refl, (inl refl, tt))),
      )

abbrev read_once : Driver ℕ ℤ
read_once = record bench_driver {
  last_part_count = some bench_uninit.part_count;
  last_status = some bench_uninit.status;
  last_tool_info = some bench_uninit.tool_info;
  last_dynamic = some old_values;
  last_message = some bench_uninit.message;
  last_block = some bench_uninit.block;
}

unchanged_quiet_example :
    ((report_part_count
        (record bench_uninit.part_count { execution_duration = 3 })
        read_once).updates
      ≡ [])
    × ((report_status (record bench_uninit.status { execution_duration = 3 }) read_once).updates
        ≡ [])
    × ((report_tool_info
          (record bench_uninit.tool_info { execution_duration = 3 })
          read_once).updates
        ≡ [])
    × OnReturn
        (λ _ d'. d'.updates ≡ [])
        (report_dynamic bench_floats (record old_values { execution_duration = 3 }) read_once)
    × ((report_message (record bench_uninit.message { execution_duration = 3 }) read_once).updates
        ≡ [])
    × ((report_block (record bench_uninit.block { execution_duration = 3 }) read_once).updates ≡ [])
unchanged_quiet_example =
    unchanged_quiet bench_floats bench_uninit.part_count bench_uninit.status bench_uninit.tool_info
      old_values bench_uninit.message bench_uninit.block 3 bench_driver (ground arith)

abbrev alarmed : MachineStatus
alarmed = record bench_uninit.status { raw = record bench_uninit.status.raw { alarm = pos 1 } }

alarm_overwritten_example :
    let seen = latest "alarm" (
      old_items
      ++ number_updates
          (some old_values)
          new_values
          (status_updates (some bench_uninit.status) alarmed [])) in
    (seen ≡ some (create_number (pos 1))) × (seen ≢ some (create_number (pos 7)))
alarm_overwritten_example =
    alarm_overwritten bench_uninit.status alarmed old_values new_values old_items []
      (λ e. absurd (ground arith)) refl (λ e. absurd (ground arith))

abbrev shown_message : MachineMessage
shown_message = record bench_uninit.message { number = pos 3; text = codes "STOP" ++ (0 ∷ []) }

abbrev no_message : MachineMessage
no_message = record shown_message { number = negsuc 0 }

message_taken_back_example :
    let h : Object ℤ = ("message_text", create_string (codes "STOP")) ∷ [] in
    let o =
      h
      ++ (report_message no_message
          (record bench_driver { last_message = some shown_message })).updates in
    (latest "message_number" o ≡ some (create_number (negsuc 0)))
    × (latest "message_text" o ≡ some (create_string (c_str shown_message.text)))
unfolding latest c_str strncmp_ne
message_taken_back_example =
    message_taken_back shown_message no_message
      (("message_text", create_string (codes "STOP")) ∷ []) bench_driver
      (λ e. absurd (ground arith)) refl refl refl

second_check-Idle_example :
    OnReturn
      (λ _. Idle (check_machine_cycle_time bench))
      (check_machine_cycle_time bench bench_driver)
    × OnReturn
        (λ _. Idle (check_machine_program_name bench))
        (check_machine_program_name bench bench_driver)
    × OnReturn
        (λ _. Idle (check_machine_program_header bench 9))
        (check_machine_program_header bench 9 bench_driver)
    × OnReturn
        (λ _. Idle (check_machine_program_contents bench 9))
        (check_machine_program_contents bench 9 bench_driver)
second_check-Idle_example = second_check-Idle bench 9 bench_driver
