-- ===== src/Process.antt =====
-- The state of the programs of driver/src/main.c and driver/src/debug.c, and what main.c takes from
-- librdkafka, cJSON's printing and the signal handler, as parameters.
pub mod Loop
pub mod Exits
pub mod Parts
pub mod Start
use fanuc_driver.CString.{Bytes}
use fanuc_driver.Checks.State.{Driver, Check, lift}
use fanuc_driver.Clock.{minimum_interval}
use fanuc_driver.Env.{Env}
use fanuc_driver.Prelude.{
  ℕ, ◌-◌, Bool, List, [], ◌∷◌, ltb, if◌then◌else◌, ℤ, Exec, Outcome, returns, fails, hangs, faults,
  Option,
}
use fanuc_driver.Env.Reader.{is_ok}
use fanuc_driver.Report.{Object}

-- A message that was handed to rd_kafka_producev.
pub record Message : Type 0 where
  pub topic : Bytes
  pub key : Bytes
  pub value : Bytes

-- What main.c calls outside of the driver, and the flag that its signal handler sets.
pub record Outside (W D : Type 0) : Type 0 where
  -- of {"values": updates, "meta": meta}; none is NULL, where memory is short
  pub print_unformatted : Object D → Object D → W → Option Bytes
  pub conf_set : Bytes → Bytes → W → Bool × W  -- rd_kafka_conf_set != RD_KAFKA_CONF_OK
  pub producer_new : W → Bool × W  -- rd_kafka_new, true for a producer
  pub producev : Message → W → ℤ × W  -- its error, 0 for none
  pub queue_full : ℤ  -- RD_KAFKA_RESP_ERR__QUEUE_FULL
  pub poll : ℕ → W → List ℤ × W  -- the errors of the messages that it hands to dr_msg_cb
  pub flush : ℕ → W → List ℤ × W
  pub outq_len : W → ℤ
  pub destroy : W → W
  pub running_condition : W → Bool

-- What the two programs, and `cleanup`, write to stderr themselves.
pub data Notice : Type 0 where
  usage config_failed conf_set_failed producer_failed connection_failed info_failed : Notice
  check_failed loop_failed queue_is_full flushing free_failed : Notice
  produce_failed delivery_failed not_delivered : ℤ → Notice

-- What debug.c prints of its rounds, and `cleanup` at the end.
pub data Line : Type 0 where
  loop_took sleeping_for : ℕ → Line
  report : Bytes → Line
  cleaning_up : Line

pub record Process (W D : Type 0) : Type 0 where
  pub driver : Driver W D
  pub produced : List Message  -- the messages that librdkafka queued, the last one first
  pub refused : List Message  -- the messages that it refused, the last one first
  pub printed : List Line  -- the last one first
  pub slept : List ℕ  -- the arguments of usleep, the last one first
  pub log : List Notice  -- the last one first
  pub cleanup_at_exit : Bool  -- atexit(cleanup) was called

-- int main: `exit(EXIT_FAILURE)` and `return 1` are `fails`.
abbrev pub Run : Type 0 → Type 0 → Type 0 → Type 0
Run W D A = Exec (Process W D) A

module _ {W D : Type 0} where
  abbrev pub inside : {A : Type 0} → Check W D A → Run W D A
  inside m p = let (r, d) = m p.driver in (r, record p { driver = d })

  abbrev pub world_of : Process W D → W
  world_of p = p.driver.reader.world

  abbrev pub in_world : (W → W) → Process W D → Process W D
  in_world f p = record p {
    driver = record p.driver {
      reader = record p.driver.reader { world = f p.driver.reader.world };
    };
  }

  abbrev pub notice : Notice → Process W D → Process W D
  notice n p = record p { log = n ∷ p.log }

  abbrev pub noticed_if_failed :
      {A : Type 0} → Notice → Outcome A × Process W D → Outcome A × Process W D
  noticed_if_failed n (fails, p) = (fails, notice n p)
  noticed_if_failed n (returns a, p) = (returns a, p)
  noticed_if_failed n (hangs, p) = (hangs, p)
  noticed_if_failed n (faults, p) = (faults, p)

  -- if (m) { fprintf(stderr, ...); exit(EXIT_FAILURE); }
  abbrev pub or_notice : {A : Type 0} → Notice → Run W D A → Run W D A
  or_notice n m p = noticed_if_failed n (m p)

  -- if (tt < minimum_interval) usleep(minimum_interval - tt)
  abbrev pub sleep : ℕ → Process W D → Process W D
  sleep tt_us p = record p {
    slept = if ltb tt_us minimum_interval then (minimum_interval - tt_us) ∷ p.slept else p.slept;
  }

  -- cJSON_Delete(obj) and the two new objects.
  abbrev pub start_objects : Process W D → Process W D
  start_objects p = record p { driver = record p.driver { updates = []; meta = [] } }

module _ {W D : Type 0} (env : Env W D) where
  -- data.c: the handle is freed; where it cannot be, this is only reported.
  unfoldable pub cleanup : Process W D → Process W D
  cleanup p =
      let (ret, _, w) = env.focas.cnc_freelibhndl p.driver.reader.libh (world_of p) in
      record (in_world (λ _. w) p) {
        printed = cleaning_up ∷ p.printed;
        log = if is_ok ret then p.log else free_failed ∷ p.log;
      }

  abbrev pub clean : Process W D → Process W D
  unfolding cleanup
  clean p = if p.cleanup_at_exit then cleanup p else p

  -- The end of the process, by `exit` or by `return` from `main`: the registered function is called.
  unfoldable pub at_exit : {A : Type 0} → Outcome A × Process W D → Outcome A × Process W D
  unfolding cleanup
  at_exit (returns a, p) = (returns a, clean p)
  at_exit (fails, p) = (fails, clean p)
  at_exit (hangs, p) = (hangs, p)
  at_exit (faults, p) = (faults, p)
