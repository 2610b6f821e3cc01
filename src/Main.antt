-- ===== src/Main.antt =====
-- The round and the loop of `main` in driver/src/main.c.
pub mod Rounds
pub mod Program
pub mod History
pub mod Delivery
pub mod Exit
pub mod Keys
pub mod Leaks
use fanuc_driver.CString.{Bytes, codes, c_str}
use fanuc_driver.Checks.Info.{check_machine_info}
use fanuc_driver.Checks.State.{lift}
use fanuc_driver.Clock.{elapsed}
use fanuc_driver.Env.{Env}
use fanuc_driver.Env.Reader.{now, call}
use fanuc_driver.Prelude.{
  ℕ, zero, suc, true, false, List, [], ◌∷◌, ◌==◌, if◌then◌else◌, length, ℤ, pos, hang, pure, gets,
  ◌>>=◌, ◌>>◌, modify, ◌==ℤ◌, Outcome, continue, in_bounds,
}
use fanuc_driver.Process.{
  Process, Message, Outside, Run, Notice, produce_failed, delivery_failed, queue_is_full,
  check_failed, loop_failed, connection_failed, info_failed, inside, or_notice, sleep,
  start_objects, world_of, in_world,
}
use fanuc_driver.Readings.Connection.{setup_connection}
use fanuc_driver.Report.{Object, add, create_number}
use fanuc_driver.Tick.{loop_tick}
use fanuc_driver.Process.Loop.{until}

abbrev pub topic : Bytes
topic = codes "input"

-- The delivery report of a message.
unfoldable pub dr_msg_cb : ℤ → List Notice → List Notice
dr_msg_cb err log = if err ==ℤ pos 0 then log else delivery_failed err ∷ log

-- A call of librdkafka that serves the reports of `errs`, in order.
unfoldable pub dr_msg_cbs : List ℤ → List Notice → List Notice
unfolding dr_msg_cb
dr_msg_cbs [] log = log
dr_msg_cbs (err ∷ errs) log = dr_msg_cbs errs (dr_msg_cb err log)

module _ {W D : Type 0} where
  abbrev pub serve : (W → List ℤ × W) → Process W D → Process W D
  serve call p =
      let (errs, w) = call (world_of p) in
      record (in_world (λ _. w) p) { log = dr_msg_cbs errs p.log }

  -- The round's total, in microseconds.
  abbrev pub add_total : ℕ → Process W D → Process W D
  add_total tt_us p = record p {
    driver = record p.driver { meta = add "total" (create_number (pos tt_us)) p.driver.meta };
  }

module _ {W D : Type 0} (out : Outside W D) where
  -- if (err) ...: what is written about a message that the producer refuses.
  unfoldable pub produce_notices : ℤ → List Notice → List Notice
  produce_notices err log =
      if err ==ℤ pos 0
      then log
      else if err ==ℤ out.queue_full
      then queue_is_full ∷ produce_failed err ∷ log
      else produce_failed err ∷ log

  unfoldable pub produce : Message → Process W D → Process W D
  unfolding produce_notices
  produce message p =
      let (err, w) = out.producev message (world_of p) in
      record (in_world (λ _. w) p) {
        produced = if err ==ℤ pos 0 then message ∷ p.produced else p.produced;
        refused = if err ==ℤ pos 0 then p.refused else message ∷ p.refused;
        log = produce_notices err p.log;
      }

  -- The end of a round that took `tt_us` microseconds, with the text of its objects. An empty text
  -- is not produced, and the round then ends with `continue`.
  unfoldable pub send : ℕ → Bytes → Process W D → Process W D
  unfolding c_str produce
  send tt_us serialized p =
      if length serialized == 0
      then serve (out.poll 0) p
      else (let message : Message = record {
        topic = topic;
        key = c_str p.driver.device_id;
        value = serialized;
      } in
          start_objects (sleep tt_us (serve (out.poll 0) (produce message p))))

  -- The round's total and the text of the two objects: `strlen` of a NULL text is a fault.
  unfoldable pub publish : ℕ → Run W D (Unit {0})
  unfolding c_str send
  publish tt_us = do
    modify (add_total tt_us)
    p ← gets (λ p. p)
    text ← in_bounds (out.print_unformatted p.driver.updates p.driver.meta (world_of p))
    modify (send tt_us (c_str text))

module _ {W D : Type 0} (env : Env W D) (out : Outside W D) where
  -- One round: the checks between two readings of the clock, and the message.
  unfoldable pub round : ℕ → Run W D (Unit {0})
  unfolding publish
  round fuel = do
    t0 ← inside (lift (now env.clock_gettime))
    or_notice loop_failed (or_notice check_failed (inside (loop_tick env fuel)))
    t1 ← inside (lift (now env.clock_gettime))
    publish out (elapsed t0 t1)

  -- do { ... } while (!runningCondition), for `rounds` rounds at most.
  unfoldable pub main_loop : ℕ → ℕ → Run W D (Unit {0})
  unfolding round until
  main_loop fuel rounds = until (λ p. out.running_condition (world_of p)) (round fuel) rounds

  -- The connection, the machine's information and the loop.
  unfoldable pub run_driver : ℕ → ℕ → Bytes → ℤ → Run W D (Unit {0})
  unfolding main_loop
  run_driver fuel rounds device_ip device_port = do
    or_notice connection_failed (inside (lift (setup_connection env device_ip device_port)))
    modify (λ p. start_objects (record p { cleanup_at_exit = true }))
    or_notice info_failed (inside (check_machine_info env))
    main_loop fuel rounds
