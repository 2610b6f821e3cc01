-- ===== src/Examples/Checks.antt =====
-- The theorems about checks and rounds at concrete inputs.
use mathlib.Core.List.{append-nil}
use fanuc_driver.Examples.Bench.{bench, bench_raw, bench_driver}
use fanuc_driver.CString.{codes, c_str, zeroed, Bytes}
use fanuc_driver.Checks.Memory.{contents_leak, tick-Accounts}
use fanuc_driver.Checks.Accounts.{Accounts, AtMostOneMore}
use fanuc_driver.Checks.Programs.{check_machine_program_contents}
use fanuc_driver.Checks.Status.{status_updates}
use fanuc_driver.Checks.Status.Estop.{estop_missed}
use fanuc_driver.Checks.Status.View.{StatusView, status_synced}
use fanuc_driver.Config.{Sources, Settings, ConfigRet, read_config}
use fanuc_driver.Config.Precedence.{
  machine_port_wins, read_config_ret, device_ip_variable_wins, device_ip_variable_overflows,
}
use fanuc_driver.Debug.{port_argument}
use fanuc_driver.Debug.Arguments.{port_argument_range}
use fanuc_driver.Prelude.{
  ℕ, ◌<◌, ◌≡◌, refl, ◌≢◌, ◌↔◌, ◌⊎◌, true, none, some, [], ◌∷◌, ◌++◌, arith, ℤ, pos, returns,
  OnReturn, replicate, faults,
}
use fanuc_driver.Report.{Object, create_string}
use fanuc_driver.Report.Latest.{latest}
use fanuc_driver.Tick.{loop_tick}
use fanuc_driver.Types.{MachineStatus}

-- An active machine in automatic mode, and the same after an emergency stop was triggered.
abbrev armed : MachineStatus
armed = record {
  execution_duration = 0;
  execution = codes "ACTIVE";
  mode = codes "AUTOMATIC";
  estop = codes "ARMED";
  raw = record bench_raw { emergency = pos 0 };
}

abbrev triggered : MachineStatus
triggered = record armed { estop = codes "TRIGGERED"; raw = record bench_raw { emergency = pos 1 } }

abbrev first_items : Object ℤ
first_items = status_updates none armed []

status_synced_example :
    StatusView triggered (first_items ++ status_updates (some armed) triggered [])
status_synced_example =
    status_synced (some armed) triggered first_items []
      (rw append-nil (status_synced none armed [] [] tt))

estop_missed_example :
    let seen = latest "estop" (first_items ++ status_updates (some armed) triggered []) in
    (seen ≡ some (create_string (c_str armed.estop)))
    × (seen ≢ some (create_string (c_str triggered.estop)))
unfolding c_str status_updates latest
estop_missed_example = estop_missed armed triggered first_items [] refl (λ e. ground arith) refl

contents_leak_example :
    OnReturn
      (λ _. Accounts 1)
      (check_machine_program_contents bench 9 (record bench_driver { m_program_num = pos 1 }))
contents_leak_example =
    contents_leak bench 0 (record bench_driver { m_program_num = pos 1 }) refl 9 refl

tick-Accounts_example : OnReturn (λ _. AtMostOneMore 0) (loop_tick bench 9 bench_driver)
tick-Accounts_example = tick-Accounts bench 9 0 bench_driver refl

port_argument_range_example :
    (n : ℕ) × (port_argument (codes "127.0.0.1" ∷ codes "65535" ∷ []) ≡ pos n)
    × (0 < n)
    × (n < 65535)
port_argument_range_example = port_argument_range (codes "127.0.0.1" ∷ codes "65535" ∷ [])

abbrev sources : Sources ℤ
sources = record {
  file_read = true;
  device_ip_variable = none;
  device_port_variable = some (codes "9000");
  ip = none;
  port = none;
  machine_host = some (pos 1);
  machine_port = some (pos 8193);
  minimum_polling_interval = none;
}

abbrev settings : Settings ℤ
settings = record {
  device_ip = zeroed 1024;
  device_port = pos 8193;
  device_host = none;
  minimum_interval = none;
}

abbrev configured : Settings ℤ
configured = record settings { device_host = some (pos 1) }

configured_read : read_config sources settings ≡ returns (ConfigRet.one, configured)
unfolding read_config
configured_read = refl

machine_port_wins_example : configured.device_port ≡ pos 8193
machine_port_wins_example =
    machine_port_wins sources settings (pos 1) (pos 8193) refl refl ConfigRet.one configured
      configured_read

read_config_ret_example : (◌≡◌ {A = ConfigRet} ConfigRet.one ConfigRet.one) ↔ (
    (sources.machine_host ≡ none)
    ⊎ (sources.machine_port ≡ none)
    ⊎ (sources.minimum_polling_interval ≡ none))
read_config_ret_example = read_config_ret sources settings ConfigRet.one configured configured_read

abbrev sources_with_ip : Bytes → Sources ℤ
sources_with_ip text = record sources { device_ip_variable = some text }

device_ip_variable_wins_example :
    (ret : ConfigRet) × (c' : Settings ℤ) × (read_config
        (sources_with_ip (codes "10.0.0.7"))
        settings
      ≡ returns (ret, c'))
    × (c_str c'.device_ip ≡ codes "10.0.0.7")
device_ip_variable_wins_example =
    device_ip_variable_wins (sources_with_ip (codes "10.0.0.7")) settings (codes "10.0.0.7") refl
      (ground arith) (omega arith)

device_ip_variable_overflows_example :
    read_config (sources_with_ip (replicate 2000 49)) settings ≡ faults
device_ip_variable_overflows_example =
    device_ip_variable_overflows (sources_with_ip (replicate 2000 49)) settings (replicate 2000 49)
      refl (omega arith)
