-- ===== src/Debug/Delivery.antt =====
-- What the debug program prints, taken together, shows the last values, as the driver's messages do.
use fanuc_driver.Debug.{print_round, debug_round, main, ip_argument, port_argument}
use fanuc_driver.Main.History.{
  IsFresh, fresh-Synced, Synced-same, Synced-sent, info-IsFresh, connect-IsFresh,
}
use fanuc_driver.CString.{Bytes, c_str}
use fanuc_driver.Checks.Info.{check_machine_info}
use fanuc_driver.Checks.State.{lift}
use fanuc_driver.Checks.Sync.{Synced}
use fanuc_driver.Checks.Sync.Round.{tick-Synced}
use fanuc_driver.Clock.{minimum_interval}
use fanuc_driver.Env.{Env}
use fanuc_driver.Env.Reader.{now}
use fanuc_driver.Prelude.{
  ℕ, ◌≡◌, refl, inl, inr, Bool, List, [], ◌∷◌, ◌++◌, ltb, Bool-cases, pos, OnReturn, OnReturn-bind,
  in_bounds-OnReturn,
}
use fanuc_driver.Process.{
  connection_failed, info_failed, check_failed, Line, loop_took, sleeping_for, report, cleaning_up,
  Process, inside, world_of, or_notice, start_objects,
}
use fanuc_driver.Process.Loop.{until-OnReturn}
use fanuc_driver.Process.Parts.{inside-OnReturn, noticed-OnReturn}
use fanuc_driver.Readings.Connection.{setup_connection}
use fanuc_driver.Report.{Object, add, create_number}
use fanuc_driver.Tick.{loop_tick}

module _ {D : Type 0} (print : Object D → Object D → Bytes) where
  -- The reports among the lines, the last one first, are the printed texts of objects that make up `h`.
  abbrev pub Reports : List Line → Object D → Type 0
  Reports [] h = h ≡ []
  Reports (loop_took n ∷ ls) h = Reports ls h
  Reports (sleeping_for n ∷ ls) h = Reports ls h
  Reports (cleaning_up ∷ ls) h = Reports ls h
  Reports (report t ∷ ls) h =
      (earlier : Object D) × (updates : Object D) × (meta : Object D) × Reports ls earlier
      × (t ≡ c_str (print updates meta))
      × (h ≡ earlier ++ updates)

module _ {W D : Type 0} (print : Object D → Object D → Bytes) where
  -- Who has read all lines is up to date, and no item waits for the next round.
  abbrev pub AllPrinted : Process W D → Type 0
  AllPrinted p =
      (h : Object D) × Reports print p.printed h × Synced h p.driver × (p.driver.updates ≡ [])

  Synced-printed :
      (tt_us : ℕ) (p : Process W D) (h : Object D)
      → Reports print p.printed h
      → Synced h p.driver
      → AllPrinted (print_round print tt_us p)
  unfolding print_round
  Synced-printed tt_us p h c s =
      let meta = add "total" (create_number (pos tt_us)) p.driver.meta in
      let h' = h ++ p.driver.updates in
      let c' : Reports print
          (report (c_str (print p.driver.updates meta)) ∷ loop_took tt_us ∷ p.printed) h' =
        (h, p.driver.updates, meta, c, refl, refl) in
      elim (Bool-cases (ltb tt_us minimum_interval)) [
        | inl e ↦ rw e (h', c', Synced-sent h p.driver _ s, refl)
        | inr e ↦ rw e (h', c', Synced-sent h p.driver _ s, refl)
      ]

module _ {W D : Type 0} (env : Env W D) (print : Object D → Object D → Bytes) where
  -- Before a round: an item may wait, as after the machine's information.
  abbrev Printed : Process W D → Type 0
  Printed p = (h : Object D) × Reports print p.printed h × Synced h p.driver

  debug_round-AllPrinted :
      (fuel : ℕ) (p : Process W D)
      → Printed p
      → OnReturn (λ _. AllPrinted print) (debug_round env print fuel p)
  unfolding debug_round
  debug_round-AllPrinted fuel p (h, c, s) =
      let p1 = (inside (lift (now env.clock_gettime)) p).1 in
      OnReturn-bind (λ _. Printed) (λ _. AllPrinted print)
        (or_notice check_failed (inside (loop_tick env fuel))) _ p1
        (noticed-OnReturn (λ _. Printed) check_failed (inside (loop_tick env fuel) p1)
          (inside-OnReturn (Synced h) Printed (loop_tick env fuel) p1
            (tick-Synced env h fuel p1.driver (Synced-same h p.driver _ p.driver.meta s))
            (λ d s. (h, c, s))))
        (λ _ q (h, c, s).
          Synced-printed print _ (inside (lift (now env.clock_gettime)) q).1 h c
            (Synced-same h q.driver _ q.driver.meta s))

  -- Where no value is read and nothing is printed yet: if the debug program ends with success, whatever
  -- its arguments and after any number of rounds, the reports that it has printed, taken together,
  -- show the last count, cycle time, tool, dynamic numbers, message number, block and status (but
  -- for `estop` and `alarm`) that the checks have read, and no item is left.
  pub debug-AllPrinted :
      (running_condition : W → Bool) (fuel rounds : ℕ) (args : List Bytes) (p : Process W D)
      → p.printed ≡ []
      → IsFresh p.driver
      → OnReturn (λ _. AllPrinted print) (main env print running_condition fuel rounds args p)
  unfolding main
  debug-AllPrinted running_condition fuel rounds args p e f =
      let Fresh = λ (q : Process W D). (q.printed ≡ []) × IsFresh q.driver in
      let port = port_argument args in
      in_bounds-OnReturn (λ _. AllPrinted print) (ip_argument args) _ p
        λ ip.
          OnReturn-bind (λ _. Fresh) (λ _. AllPrinted print)
            (or_notice connection_failed (inside (lift (setup_connection env ip port)))) _ p
            (noticed-OnReturn (λ _. Fresh) connection_failed
              (inside (lift (setup_connection env ip port)) p)
              (inside-OnReturn IsFresh Fresh (lift (setup_connection env ip port)) p
                (connect-IsFresh env ip port p.driver f) (λ d f. (e, f))))
            λ _ q s.
              let q' = start_objects q in
              OnReturn-bind (λ _. Fresh) (λ _. AllPrinted print)
                (or_notice info_failed (inside (check_machine_info env))) _ q'
                (noticed-OnReturn (λ _. Fresh) info_failed (inside (check_machine_info env) q')
                  (inside-OnReturn IsFresh Fresh (check_machine_info env) q'
                    (info-IsFresh env q'.driver s.1) (λ d f. (s.0, f))))
                (λ _ r s.
                  until-OnReturn (λ q. running_condition (world_of q)) (debug_round env print fuel)
                    Printed (AllPrinted print) (λ q (h, c, s, u). (h, c, s))
                    (debug_round-AllPrinted fuel) rounds r
                    ([], rw s.0 refl, fresh-Synced r.driver s.1))
