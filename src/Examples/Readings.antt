-- ===== src/Examples/Readings.antt =====
-- The theorems about single readings at concrete inputs.
use fanuc_driver.Readings.Status.Filled.{IsSized}
use fanuc_driver.Examples.Bench.{bench, bench_uninit, bench_reader}
use fanuc_driver.CString.{zeroed}
use fanuc_driver.Readings.Info.Total
use fanuc_driver.Clock.{Timespec, elapsed}
use fanuc_driver.Clock.Rounding.{nanos, elapsed_accuracy}
use fanuc_driver.Prelude.{
  ◌+◌, ◌*◌, ◌<◌, ◌≡◌, refl, arith, pos, Ends, Returns, length, ℕ, ◌-◌, ◌^◌, negsuc, ◌+ℤ◌, ◌≤ℤ◌,
}
use fanuc_driver.Readings.Counters.{cycle_milliseconds}
use fanuc_driver.Readings.Counters.Laws.{cycle_milliseconds_exact, cycle_milliseconds_wraps}
use fanuc_driver.Readings.Status.{get_machine_status}
use fanuc_driver.Readings.Tool.{get_machine_tool_info}
use fanuc_driver.Readings.Tool.Laws.{ToolStep, tool_fallback}
use fanuc_driver.Types.{MachineStatus}
use fanuc_driver.Readings.Status.Laws.{status_initialised, status-Describes}
use fanuc_driver.Readings.Status.Meaning.{Describes}
use fanuc_driver.CString.Laws.{IsText}
use fanuc_driver.Readings.Info.{machine_id}
use fanuc_driver.Readings.Info.Identity.{word_at, machine_id_roundtrip}

elapsed_accuracy_example :
    let t0 : Timespec = record { tv_sec = 1; tv_nsec = 999999500 } in
    let t1 : Timespec = record { tv_sec = 2; tv_nsec = 400 } in
    (nanos t1 < nanos t0 + 1000 * elapsed t0 t1 + 1000)
    × (nanos t0 + 1000 * elapsed t0 t1 < nanos t1 + 1000)
elapsed_accuracy_example =
    elapsed_accuracy (record { tv_sec = 1; tv_nsec = 999999500 })
      (record { tv_sec = 2; tv_nsec = 400 }) (omega arith) (omega arith) (omega arith) (omega arith)

cycle_milliseconds_exact_example :
    cycle_milliseconds (record { minute = pos 2; msec = pos 500 }) ≡ pos (2 * 60000 + 500)
cycle_milliseconds_exact_example = cycle_milliseconds_exact 2 500 (omega arith) (omega arith)

cycle_milliseconds_wraps_example :
    let t = cycle_milliseconds (record { minute = pos 35792; msec = pos 0 }) in
    (k : ℕ) × (0 < k)
    × (t +ℤ pos (k * 2 ^ 32) ≡ pos (35792 * 60000 + 0))
    × (negsuc (2 ^ 31 - 1) ≤ℤ t)
    × (t ≤ℤ pos (2 ^ 31 - 1))
cycle_milliseconds_wraps_example = cycle_milliseconds_wraps 35792 0 (omega arith)

bench_status-IsSized : IsSized bench_uninit.status
bench_status-IsSized = record { execution = refl; mode = refl; estop = refl }

abbrev blank_status : MachineStatus
blank_status = record bench_uninit.status {
  execution = zeroed 20;
  mode = zeroed 20;
  estop = zeroed 20;
}

status_initialised_example :
    get_machine_status bench bench_uninit.status bench_reader
    ≡ get_machine_status bench blank_status bench_reader
status_initialised_example =
    status_initialised bench bench_uninit.status blank_status bench_reader bench_status-IsSized
      (record { execution = refl; mode = refl; estop = refl })

status-Describes_example :
    Ends (λ r _. Describes r) (get_machine_status bench bench_uninit.status bench_reader)
status-Describes_example =
    status-Describes bench bench_uninit.status bench_reader bench_status-IsSized

tool_fallback_example :
    Returns
      (ToolStep bench_reader bench_uninit.tool_info)
      (get_machine_tool_info bench bench_uninit.tool_info bench_reader)
tool_fallback_example = tool_fallback bench bench_uninit.tool_info bench_reader refl

machine_id_roundtrip_example :
    let id = machine_id 0x12ab 0xffffffff 0 16 in
    (length id ≡ 35)
    × IsText id
    × (word_at 0 id ≡ 0x12ab)
    × (word_at 9 id ≡ 0xffffffff)
    × (word_at 18 id ≡ 0)
    × (word_at 27 id ≡ 16)
machine_id_roundtrip_example =
    machine_id_roundtrip 0x12ab 0xffffffff 0 16 (omega arith) (omega arith) (omega arith)
      (omega arith)
