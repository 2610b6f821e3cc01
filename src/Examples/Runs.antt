-- ===== src/Examples/Runs.antt =====
-- The theorems about whole rounds and runs at concrete inputs, and a run to its end.
use fanuc_driver.Debug
use fanuc_driver.CString.{codes, c_str, Bytes}
use fanuc_driver.Checks.Sync.{Synced}
use fanuc_driver.Checks.Sync.Round.{tick-Synced}
use fanuc_driver.Examples.Bench.{
  bench, bench_driver, bench_outside, bench_process, bench_sources, bench_print,
}
use fanuc_driver.Main.{run_driver}
use fanuc_driver.Main.History.{UpToDate, fresh-Synced, run_driver-UpToDate}
use fanuc_driver.Prelude.{
  refl, [], pos, OnReturn, Outcome, ◌≡◌, returns, ℕ, true, false, ℤ, fails, arith, ◌∷◌, ◌≢◌, some,
}
use fanuc_driver.Tick.{loop_tick}
use fanuc_driver.Checks.Block.{report_block, check_machine_block}
use fanuc_driver.Checks.Counters.{
  report_part_count, report_cycle_time, check_machine_part_count, check_machine_cycle_time,
}
use fanuc_driver.Checks.Dynamic.{
  array_updates, report_dynamic_numbers, report_dynamic, check_machine_dynamic,
}
use fanuc_driver.Checks.Info.{
  axes_objects, info_updates, new_device_id, store_info, report_info, check_machine_info,
}
use fanuc_driver.Checks.Programs.{
  report_program_name, report_program_header, report_program_contents, check_machine_program_name,
  check_machine_program_header, check_machine_program_contents,
}
use fanuc_driver.Checks.State.{take_reading, take_reading_or_free}
use fanuc_driver.Checks.Status.{
  report_status, report_message, check_machine_status, check_machine_message,
}
use fanuc_driver.Checks.Tool.{report_tool_info, check_machine_tool_info}
use fanuc_driver.Clock.{elapsed}
use fanuc_driver.Readings.Connection.{setup_connection}
use fanuc_driver.Readings.Contents.{get_machine_program_contents}
use fanuc_driver.Readings.Counters.{get_machine_part_count, get_machine_cycle_time}
use fanuc_driver.Readings.Dynamic.{dynamic_step, get_machine_dynamic}
use fanuc_driver.Readings.Header.{get_machine_program_header}
use fanuc_driver.Readings.Info.{axis_step, get_machine_info}
use fanuc_driver.Readings.Status.{get_machine_status}
use fanuc_driver.Readings.Texts.{get_machine_program_name, get_machine_message, get_machine_block}
use fanuc_driver.Readings.Tool.{managed_tool, modal_tool, get_machine_tool_info}
use fanuc_driver.Main.Delivery.{AllSent, main-AllSent}
use fanuc_driver.Main.Exit.{IsExplained, Registered, EndsWith, main_exit}
use fanuc_driver.Main.Program.{main, main_body}
use fanuc_driver.Process.{cleanup}
use fanuc_driver.Process.Exits.{Exits}
use fanuc_driver.Main.Keys.{OneKey, run_driver-AllKeyed}
use fanuc_driver.Debug.Delivery.{AllPrinted, debug-AllPrinted}
use fanuc_driver.Main.Leaks.{LosesAtMost, run_driver-LosesAtMost}
use fanuc_driver.Process.Start.{initial_process}
use fanuc_driver.Report.{Object}

tick-Synced_example : OnReturn (λ _. Synced []) (loop_tick bench 9 bench_driver)
tick-Synced_example =
    tick-Synced bench [] 9 bench_driver
      (fresh-Synced bench_driver (refl, refl, refl, refl, refl, refl, refl))

run_driver-UpToDate_example :
    OnReturn
      (λ _. UpToDate bench_outside)
      (run_driver bench bench_outside 9 3 (codes "127.0.0.1") (pos 8193) bench_process)
run_driver-UpToDate_example =
    run_driver-UpToDate bench bench_outside 9 3 (codes "127.0.0.1") (pos 8193) bench_process refl
      (refl, refl, refl, refl, refl, refl, refl)

bench_prints :
    (updates meta : Object ℤ) (w : ℕ) (text : Bytes)
    → bench_outside.print_unformatted updates meta w ≡ some text
    → c_str text ≢ []
unfolding c_str
bench_prints updates meta w text e h =
    let same : text ≡ codes "{}" = ground arith in absurd (ground (arith, rw same at h))

main-AllSent_example :
    OnReturn
      (λ _. AllSent bench_outside)
      (main bench bench_outside 9 3 false bench_sources [] bench_process)
main-AllSent_example =
    main-AllSent bench bench_outside 9 3 false bench_sources [] bench_process bench_prints refl
      (refl, refl, refl, refl, refl, refl, refl)

main_exit_example :
    let r = main bench bench_outside 9 3 false bench_sources [] bench_process in
    Exits
      (λ _ q. Registered true q × EndsWith bench (returns tt) q r)
      (λ q. IsExplained q × EndsWith bench fails q r)
      (main_body bench bench_outside 9 3 false bench_sources [] bench_process)
main_exit_example = main_exit bench bench_outside 9 3 false bench_sources [] bench_process refl

run_driver-AllKeyed_example :
    Exits
      (λ _. OneKey bench)
      (OneKey bench)
      (run_driver bench bench_outside 9 3 (codes "127.0.0.1") (pos 8193) bench_process)
run_driver-AllKeyed_example =
    run_driver-AllKeyed bench bench_outside 9 3 (codes "127.0.0.1") (pos 8193) bench_process refl

debug-AllPrinted_example :
    OnReturn
      (λ _. AllPrinted bench_print)
      (Debug.main bench bench_print (λ w. true) 9 3 (codes "10.0.0.7" ∷ []) bench_process)
debug-AllPrinted_example =
    debug-AllPrinted bench bench_print (λ w. true) 9 3 (codes "10.0.0.7" ∷ []) bench_process refl
      (refl, refl, refl, refl, refl, refl, refl)

run_driver-LosesAtMost_example :
    OnReturn
      (λ _. LosesAtMost 3)
      (run_driver bench bench_outside 9 3 (codes "127.0.0.1") (pos 8193) (initial_process bench 0))
run_driver-LosesAtMost_example =
    run_driver-LosesAtMost bench bench_outside 9 3 (codes "127.0.0.1") (pos 8193) 0

abbrev bench_run : Outcome (Unit {0})
bench_run = (main bench bench_outside 9 1 false bench_sources [] (initial_process bench 0)).0

-- The run connects, reads everything once, sends a message and ends.
bench_run_ends : bench_run ≡ returns tt
unfolding main cleanup setup_connection check_machine_info take_reading take_reading_or_free
    get_machine_info axis_step report_info new_device_id axes_objects store_info info_updates
    loop_tick check_machine_part_count get_machine_part_count report_part_count
    check_machine_cycle_time get_machine_cycle_time report_cycle_time check_machine_status
    get_machine_status report_status check_machine_tool_info get_machine_tool_info managed_tool
    modal_tool report_tool_info check_machine_dynamic get_machine_dynamic dynamic_step
    report_dynamic array_updates report_dynamic_numbers check_machine_message get_machine_message
    report_message check_machine_program_name get_machine_program_name report_program_name
    check_machine_program_header get_machine_program_header report_program_header
    check_machine_program_contents get_machine_program_contents report_program_contents
    check_machine_block get_machine_block report_block elapsed
bench_run_ends = refl
