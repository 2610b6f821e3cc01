-- ===== src/Debug.antt =====
-- `main` of driver/src/debug.c: its arguments, and its loop, which prints
-- instead of producing.
pub mod Arguments
pub mod Delivery
use fanuc_driver.CString.{Bytes, codes, strncpy, zeroed, c_str}
use fanuc_driver.CString.Number.{atoi}
use fanuc_driver.Checks.State.{lift}
use fanuc_driver.Clock.{elapsed, minimum_interval}
use fanuc_driver.Env.{Env}
use fanuc_driver.Env.Reader.{now, set_at}
use fanuc_driver.Main.{topic}
use fanuc_driver.Process.{
  Process, Run, inside, sleep, start_objects, connection_failed, info_failed, check_failed,
  loop_took, sleeping_for, report, world_of, or_notice,
}
use fanuc_driver.Prelude.{
  ℕ, ◌&&◌, Option, none, some, List, [], ◌∷◌, ◌++◌, if◌then◌else◌, ℤ, pos, ltb_ℤ, Outcome, continue,
  ◌>>=◌, ◌>>◌, modify, ◌-◌, Bool, ltb, in_bounds,
}
use fanuc_driver.Report.{Object, add, create_number}
use fanuc_driver.Tick.{loop_tick}
use fanuc_driver.Checks.Info.{check_machine_info}
use fanuc_driver.Process.Loop.{until}
use fanuc_driver.Readings.Connection.{setup_connection}

-- char deviceIP[MAXPATH] = "127.0.0.1"; int devicePort = 8193;
abbrev pub default_ip : Bytes
default_ip = codes "127.0.0.1" ++ zeroed 1015

abbrev pub default_port : ℤ
default_port = pos 8193

-- if (argc > 1) { strncpy(deviceIP, argv[1], 255); deviceIP[255] = '\0'; }
unfoldable pub ip_argument : List Bytes → Option Bytes
unfolding strncpy
ip_argument [] = some default_ip
ip_argument (ip ∷ rest) = elim (strncpy default_ip ip 255) [
  | none ↦ none
  | some b ↦ set_at b (pos 255) 0
]

-- if (argc > 2) ... if (tmp > 0 && tmp < 65535) devicePort = tmp;
unfoldable pub port_argument : List Bytes → ℤ
unfolding atoi
port_argument (ip ∷ port ∷ rest) =
    let tmp = atoi port in if ltb_ℤ (pos 0) tmp && ltb_ℤ tmp (pos 65535) then tmp else default_port
port_argument _ = default_port

module _ {W D : Type 0} where
  -- if (tt < minimum_interval) { printf(...); usleep(minimum_interval - tt); }
  abbrev pub sleep_aloud : ℕ → Process W D → Process W D
  sleep_aloud tt_us p = sleep tt_us (record p {
    printed =
        if ltb tt_us minimum_interval
        then sleeping_for (minimum_interval - tt_us) ∷ p.printed
        else p.printed;
  })

module _ {W D : Type 0} (print : Object D → Object D → Bytes) where
  -- The end of a round: the text is printed, and the objects begin anew.
  unfoldable pub print_round : ℕ → Process W D → Process W D
  unfolding c_str
  print_round tt_us p =
      let meta = add "total" (create_number (pos tt_us)) p.driver.meta in
      let text = c_str (print p.driver.updates meta) in
      sleep_aloud tt_us
        (start_objects (record p { printed = report text ∷ loop_took tt_us ∷ p.printed }))

module _ {W D : Type 0} (env : Env W D) (print : Object D → Object D → Bytes) where
  unfoldable pub debug_round : ℕ → Run W D (Unit {0})
  unfolding print_round
  debug_round fuel = do
    t0 ← inside (lift (now env.clock_gettime))
    or_notice check_failed (inside (loop_tick env fuel))
    t1 ← inside (lift (now env.clock_gettime))
    modify (print_round print (elapsed t0 t1))

  -- The arguments, without the program's name, the connection, the machine's information and the
  -- loop. This program registers no function for its end.
  unfoldable pub main : (W → Bool) → ℕ → ℕ → List Bytes → Run W D (Unit {0})
  unfolding ip_argument port_argument debug_round until
  main running_condition fuel rounds args = do
    device_ip ← in_bounds (ip_argument args)
    or_notice connection_failed
        (inside (lift (setup_connection env device_ip (port_argument args))))
    modify start_objects
    or_notice info_failed (inside (check_machine_info env))
    until (λ p. running_condition (world_of p)) (debug_round fuel) rounds
