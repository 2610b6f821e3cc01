-- ===== src/Main/Delivery.antt =====
-- What a run of the whole program that ends with success has sent.
use fanuc_driver.Main.{send, round, main_loop, run_driver}
use fanuc_driver.Main.History.{
  Started, UpToDate, Synced-same, send-UpToDate, total-UpToDate, Informs, SomeRefused,
  clock-UpToDate, tick-UpToDate, Synced-objects, IsFresh, run_driver-OnReturn, Started-UpToDate,
}
use fanuc_driver.CString.{c_str, Bytes, codes}
use fanuc_driver.Checks.State.{lift}
use fanuc_driver.Env.{Env}
use fanuc_driver.Env.Reader.{now}
use fanuc_driver.Main.Program.{
  shut_down, initial_settings, config_argument, configured, configure, checked, create_producer,
  main_body, main, brokers,
}
use fanuc_driver.Main.Rounds.{publish-OnReturn}
use fanuc_driver.Prelude.{
  ℕ, ◌≡◌, ◌≢◌, inl, inr, [], Bool-cases, Outcome, returns, fails, hangs, faults, OnReturn,
  OnReturn-bind, refl, ap, Bool, true, false, List, ◌∷◌, ◌++◌, not, ◌⊎◌, some, arith, ◌==◌, length,
}
use fanuc_driver.Process.{
  cleanup, Outside, check_failed, loop_failed, Process, inside, world_of, or_notice, at_exit,
  Notice, conf_set_failed, producer_failed, in_world,
}
use fanuc_driver.Report.{Object}
use fanuc_driver.Tick.{loop_tick}
use fanuc_driver.Config.{Sources, Settings, ConfigRet, read_config}
use fanuc_driver.Process.Loop.{until-OnReturn}

module _ {W D : Type 0} (out : Outside W D) where
  -- A consumer who has read all messages is up to date: no item waits for the next one.
  abbrev pub AllSent : Process W D → Type 0
  AllSent p = SomeRefused out p ⊎ (Informs out p × (p.driver.updates ≡ []))

  AllSent-UpToDate : (p : Process W D) → AllSent p → UpToDate out p
  AllSent-UpToDate p (inl r) = inl r
  AllSent-UpToDate p (inr (i, e)) = inr i

  send_starts :
      (tt_us : ℕ) (text : Bytes) (p : Process W D)
      → text ≢ []
      → (send out tt_us text p).driver.updates ≡ []
  unfolding send
  send_starts tt_us [] p h = absurd (h refl)
  send_starts tt_us (c ∷ text) p h =
      let e : (length (c ∷ text) == 0) ≡ false = ground arith in rw e refl

module _ {W D : Type 0} (env : Env W D) (out : Outside W D) where
  module _
      (prints : (updates meta : Object D) (w : W) (text : Bytes)
        → out.print_unformatted updates meta w ≡ some text
        → c_str text ≢ []) where
    -- A text that is not empty is handed over, and the objects begin anew.
    send-AllSent :
        (tt_us : ℕ) (text : Bytes) (p : Process W D)
        → c_str text ≢ []
        → UpToDate out (send out tt_us (c_str text) p)
        → AllSent out (send out tt_us (c_str text) p)
    send-AllSent tt_us text p h (inl r) = inl r
    send-AllSent tt_us text p h (inr i) = inr (i, send_starts out tt_us (c_str text) p h)

    round-AllSent :
        (fuel : ℕ) (p : Process W D)
        → UpToDate out p
        → OnReturn (λ _. AllSent out) (round env out fuel p)
    unfolding round
    round-AllSent fuel p u =
        let p1 = (inside (lift (now env.clock_gettime)) p).1 in
        OnReturn-bind (λ _. UpToDate out) (λ _. AllSent out)
          (or_notice loop_failed (or_notice check_failed (inside (loop_tick env fuel)))) _ p1
          (tick-UpToDate env out fuel p1 (clock-UpToDate env out p u))
          (λ _ q u.
            let q1 = (inside (lift (now env.clock_gettime)) q).1 in
            publish-OnReturn out (AllSent out) _ q1 (λ text printed.
              send-AllSent _ text _ (prints _ _ _ text printed) (
                send-UpToDate env out _ text _ printed
                  (total-UpToDate env out _ q1 (clock-UpToDate env out q u)))))

    main_loop-AllSent :
        (fuel rounds : ℕ) (p : Process W D)
        → UpToDate out p
        → OnReturn (λ _. AllSent out) (main_loop env out fuel rounds p)
    unfolding main_loop
    main_loop-AllSent fuel rounds p u =
        until-OnReturn (λ q. out.running_condition (world_of q)) (round env out fuel) (UpToDate out)
          (AllSent out) (AllSent-UpToDate out) (λ q u. round-AllSent fuel q u) rounds p u

  shut_down-AllSent : (p : Process W D) → AllSent out p → AllSent out (shut_down out p)
  unfolding shut_down
  shut_down-AllSent p (inl r) = inl r
  shut_down-AllSent p (inr ((h, c, s), e)) =
      inr ((h, c, Synced-objects h h [] p.driver _ p.driver.meta (ap (λ u. h ++ u) e) s), refl)

  at_exit-AllSent :
      {A : Type 0} (r : Outcome A × Process W D)
      → OnReturn (λ _. AllSent out) r
      → OnReturn (λ _. AllSent out) (at_exit env r)
  unfolding at_exit cleanup
  at_exit-AllSent (returns a, p) (inl r) = elim (Bool-cases p.cleanup_at_exit) [
    | inl b ↦ rw b (inl r)
    | inr b ↦ rw b (inl r)
  ]
  at_exit-AllSent (returns a, p) (inr ((h, c, s), e)) = elim (Bool-cases p.cleanup_at_exit) [
    | inl b ↦ rw b (inr ((h, c, Synced-same h p.driver _ p.driver.meta s), e))
    | inr b ↦ rw b (inr ((h, c, s), e))
  ]
  at_exit-AllSent (fails, p) a = tt
  at_exit-AllSent (hangs, p) a = tt
  at_exit-AllSent (faults, p) a = tt

  configured-Started :
      (garbage : Bool) (r : Outcome (ConfigRet × Settings D)) (p : Process W D)
      → Started p
      → OnReturn (λ _. Started) (configured garbage r p)
  configured-Started garbage (returns (ConfigRet.one, c)) p s = s
  configured-Started true (returns (ConfigRet.unassigned, c)) p s = s
  configured-Started false (returns (ConfigRet.unassigned, c)) p s = s
  configured-Started garbage fails p s = tt
  configured-Started garbage hangs p s = tt
  configured-Started garbage faults p s = tt

  argument-Started :
      (args : List Bytes) (p : Process W D)
      → Started p
      → OnReturn (λ _. Started) (config_argument args p)
  unfolding config_argument
  argument-Started [] p s = s
  argument-Started (a ∷ []) p s = s
  argument-Started (a ∷ b ∷ rest) p s = tt

  checked-OnReturn :
      (Q : Process W D → Type 0) (b : Bool) (n : Notice) (p : Process W D)
      (rest : Outcome (Unit {0}) × Process W D)
      → OnReturn (λ _. Q) rest
      → OnReturn (λ _. Q) (checked b n p rest)
  checked-OnReturn Q true n p rest h = h
  checked-OnReturn Q false n p rest h = tt

  producer-Started : (p : Process W D) → Started p → OnReturn (λ _. Started) (create_producer out p)
  unfolding create_producer
  producer-Started p s =
      let (refused, w) = out.conf_set (codes "bootstrap.servers") brokers (world_of p) in
      let (made, w') = out.producer_new w in
      let p' = in_world (λ _. w') p in
      checked-OnReturn (Started) (not refused) conf_set_failed (in_world (λ _. w) p)
        (checked made producer_failed p' (returns tt, p'))
        (checked-OnReturn (Started) made producer_failed p' (returns tt, p') s)

  -- Where cJSON never prints an empty text, and no value is read and no message sent yet: if the
  -- program ends with success, whatever its arguments and settings and after any number of rounds,
  -- then either librdkafka has refused a message, or the messages that it has queued, taken
  -- together, show a consumer the last count, cycle time, tool, dynamic numbers, message number,
  -- block and status (but for `estop` and `alarm`) that the checks have read, and no item is left
  -- out of them.
  pub main-AllSent :
      (fuel rounds : ℕ) (garbage : Bool) (sources : Bytes → Sources D) (args : List Bytes)
      (p : Process W D)
      → ((updates meta : Object D) (w : W) (text : Bytes)
          → out.print_unformatted updates meta w ≡ some text
          → c_str text ≢ [])
      → p.produced ≡ []
      → IsFresh p.driver
      → OnReturn (λ _. AllSent out) (main env out fuel rounds garbage sources args p)
  unfolding main configure
  main-AllSent fuel rounds garbage sources args p prints e f =
      at_exit-AllSent (main_body env out fuel rounds garbage sources args p) (
        OnReturn-bind (λ _. Started) (λ _. AllSent out) (config_argument args) _ p
          (argument-Started args p (e, f))
          λ file q s.
            OnReturn-bind (λ _. Started) (λ _. AllSent out) (configure garbage (sources file)) _ q
              (configured-Started garbage (read_config (sources file) initial_settings) q s)
              λ c q s.
                OnReturn-bind (λ _. Started) (λ _. AllSent out) (create_producer out) _ q
                  (producer-Started q s)
                  λ _ q s.
                    OnReturn-bind (λ _. AllSent out) (λ _. AllSent out)
                      (run_driver env out fuel rounds c.device_ip c.device_port) _ q
                      (run_driver-OnReturn env out (AllSent out) fuel rounds c.device_ip
                        c.device_port q s
                        (λ q s.
                          main_loop-AllSent prints fuel rounds q (Started-UpToDate env out q s)))
                      (λ _ q a. shut_down-AllSent q a))
