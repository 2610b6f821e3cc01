-- ===== src/Main/Exit.antt =====
-- How the program of main.c ends: its status, what it has written to stderr last, and its handle.
use fanuc_driver.Process.{
  Process, Notice, usage, conf_set_failed, producer_failed, connection_failed, info_failed,
  check_failed, loop_failed, inside, notice, or_notice, Outside, world_of, in_world, start_objects,
  clean, at_exit, cleanup, free_failed, cleaning_up,
}
use fanuc_driver.Checks.State.{Driver, Check, lift}
use fanuc_driver.Prelude.{
  ◌≡◌, ◌⊎◌, Bool, true, false, List, ◌∷◌, Outcome, returns, fails, hangs, faults, ℕ, refl, ◌≢◌, inl,
  inr, not, [], arith, ◌==◌, Bool-cases, length, if◌then◌else◌, ℤ,
}
use fanuc_driver.CString.{Bytes, codes}
use fanuc_driver.Config.{Sources, Settings, ConfigRet, read_config}
use fanuc_driver.Env.{Env}
use fanuc_driver.Env.Reader.{now}
use fanuc_driver.Main.Rounds.{publish-Exits}
use fanuc_driver.Focas.{EwCode, ew_ok, ew_busy, ew_data, ew_buffer, ew_mode, ew_other}
use fanuc_driver.Env.Reader.{is_ok}
use fanuc_driver.Main.{send, add_total, round, main_loop, run_driver}
use fanuc_driver.Main.Program.{
  brokers, config_argument, configured, checked, create_producer, initial_settings, configure,
  main_body, main,
}
use fanuc_driver.Tick.{loop_tick}
use fanuc_driver.Checks.Info.{check_machine_info}
use fanuc_driver.Readings.Connection.{setup_connection}
use fanuc_driver.Process.Exits.{Exits, Exits-bind, until-Exits}
use fanuc_driver.Process.Parts.{noticed-Exits}

-- The reason that is written last, and whether the function `cleanup` is registered then.
abbrev pub Explains : List Notice → Bool → Type 0
Explains (usage ∷ _) b = b ≡ false
Explains (conf_set_failed ∷ _) b = b ≡ false
Explains (producer_failed ∷ _) b = b ≡ false
Explains (connection_failed ∷ _) b = b ≡ false
Explains (info_failed ∷ _) b = b ≡ true
Explains (loop_failed ∷ check_failed ∷ _) b = b ≡ true
Explains _ b = ⊥

read_config-ne-fails : {D : Type 0} (src : Sources D) (c : Settings D) → read_config src c ≢ fails
unfolding read_config
read_config-ne-fails src c = ground arith

module _ {W D : Type 0} where
  abbrev pub IsExplained : Process W D → Type 0
  IsExplained p = Explains p.log p.cleanup_at_exit

  abbrev pub Registered : Bool → Process W D → Type 0
  Registered b p = p.cleanup_at_exit ≡ b

  inside-Exits :
      {A : Type 0} (b : Bool) (m : Check W D A) (p : Process W D)
      → Registered b p
      → Exits (λ _. Registered b) (Registered b) (inside m p)
  inside-Exits {A = A} b m p h = go (m p.driver)
    where
      go :
          (r : Outcome A × Driver W D)
          → Exits (λ _. Registered b) (Registered b) (r.0, record p { driver = r.1 })
      go (returns a, d) = h
      go (fails, d) = h
      go (hangs, d) = tt
      go (faults, d) = tt

  argument-Exits :
      (args : List Bytes) (p : Process W D)
      → Registered false p
      → Exits (λ _. Registered false) IsExplained (config_argument args p)
  unfolding config_argument
  argument-Exits [] p h = h
  argument-Exits (a ∷ []) p h = h
  argument-Exits (a ∷ b ∷ rest) p h = h

  -- read_config does not fail, it returns 1.
  configured-Exits :
      (garbage : Bool) (r : Outcome (ConfigRet × Settings D)) (p : Process W D)
      → r ≢ fails
      → Registered false p
      → Exits (λ _. Registered false) IsExplained (configured garbage r p)
  configured-Exits garbage (returns (ConfigRet.one, c)) p n h = h
  configured-Exits true (returns (ConfigRet.unassigned, c)) p n h = h
  configured-Exits false (returns (ConfigRet.unassigned, c)) p n h = h
  configured-Exits garbage fails p n h = absurd (n refl)
  configured-Exits garbage hangs p n h = tt
  configured-Exits garbage faults p n h = tt

  checked-Exits :
      (b : Bool) (n : Notice) (p : Process W D) (rest : Outcome (Unit {0}) × Process W D)
      → IsExplained (notice n p)
      → Exits (λ _. Registered false) IsExplained rest
      → Exits (λ _. Registered false) IsExplained (checked b n p rest)
  checked-Exits true n p rest f h = h
  checked-Exits false n p rest f h = f

module _ {W D : Type 0} (out : Outside W D) where
  producer-Exits :
      (p : Process W D)
      → Registered false p
      → Exits (λ _. Registered false) IsExplained (create_producer out p)
  unfolding create_producer
  producer-Exits p h =
      let (refused, w) = out.conf_set (codes "bootstrap.servers") brokers (world_of p) in
      let (made, w') = out.producer_new w in
      let p' = in_world (λ _. w') p in
      checked-Exits (not refused) conf_set_failed (in_world (λ _. w) p)
        (checked made producer_failed p' (returns tt, p')) h
        (checked-Exits made producer_failed p' (returns tt, p') h h)

  send-Registered :
      (tt_us : ℕ) (text : Bytes) (p : Process W D)
      → Registered true p
      → Registered true (send out tt_us text (add_total tt_us p))
  unfolding send
  send-Registered tt_us text p h = elim (Bool-cases (length text == 0)) [
    | inl e ↦ rw e h
    | inr e ↦ rw e h
  ]

module _ {W D : Type 0} (env : Env W D) where
  -- From `q`, where the function is registered, to the end `p`: the handle is freed by one call, whose
  -- failure is written, and the line `cleaning up...` is printed.
  abbrev pub Freed : Process W D → Process W D → Type 0
  Freed q p =
      let (ret, _, w) = env.focas.cnc_freelibhndl q.driver.reader.libh (world_of q) in
      (world_of p ≡ w)
      × (p.printed ≡ cleaning_up ∷ q.printed)
      × ((ret ≡ ew_ok) × (p.log ≡ q.log) ⊎ (ret ≢ ew_ok) × (p.log ≡ free_failed ∷ q.log))
      × (p.produced ≡ q.produced)
      × (p.refused ≡ q.refused)

  -- The process as it ends, by whether the function is registered.
  abbrev pub Closed : Bool → Process W D → Process W D → Type 0
  Closed true q p = Freed q p
  Closed false q p = p ≡ q

  cleanup-Freed : (q : Process W D) → Freed q (cleanup env q)
  unfolding cleanup
  cleanup-Freed q = (
    refl,
    refl,
    log_of (env.focas.cnc_freelibhndl q.driver.reader.libh (world_of q)).0,
    refl,
    refl,
  )
    where
      log_of :
          (ret : EwCode)
          → (ret ≡ ew_ok) × ((if is_ok ret then q.log else free_failed ∷ q.log) ≡ q.log)
            ⊎ (ret ≢ ew_ok)
              × ((if is_ok ret then q.log else free_failed ∷ q.log) ≡ free_failed ∷ q.log)
      log_of ew_ok = inl (refl, refl)
      log_of ew_busy = inr (λ e. cc, refl)
      log_of ew_data = inr (λ e. cc, refl)
      log_of ew_buffer = inr (λ e. cc, refl)
      log_of ew_mode = inr (λ e. cc, refl)
      log_of (ew_other z) = inr (λ e. cc, refl)

  at_exit-Closed : (q : Process W D) → Closed q.cleanup_at_exit q (clean env q)
  unfolding cleanup
  at_exit-Closed q = elim (Bool-cases q.cleanup_at_exit) [
    | inl b ↦ rw b (cleanup-Freed q)
    | inr b ↦ rw b refl
  ]

  -- The result `r` of the process, whose last own state was `q`.
  abbrev pub EndsWith : Outcome (Unit {0}) → Process W D → Outcome (Unit {0}) × Process W D → Type 0
  EndsWith o q r = (q' : Process W D) × (r ≡ (o, q')) × Closed q.cleanup_at_exit q q'

  at_exit-EndsWith :
      (r : Outcome (Unit {0}) × Process W D)
      → Exits (λ _. Registered true) IsExplained r
      → Exits
          (λ _ q. Registered true q × EndsWith (returns tt) q (at_exit env r))
          (λ q. IsExplained q × EndsWith fails q (at_exit env r))
          r
  unfolding at_exit
  at_exit-EndsWith (returns tt, q) h = (h, (clean env q, refl, at_exit-Closed q))
  at_exit-EndsWith (fails, q) h = (h, (clean env q, refl, at_exit-Closed q))
  at_exit-EndsWith (hangs, q) h = tt
  at_exit-EndsWith (faults, q) h = tt

module _ {W D : Type 0} (env : Env W D) (out : Outside W D) where
  round-Exits :
      (fuel : ℕ) (p : Process W D)
      → Registered true p
      → Exits (λ _. Registered true) IsExplained (round env out fuel p)
  unfolding round
  round-Exits fuel p h =
      let p1 = (inside (lift (now env.clock_gettime)) p).1 in
      Exits-bind (λ _. Registered true) (λ _. Registered true) IsExplained
        (or_notice loop_failed (or_notice check_failed (inside (loop_tick env fuel)))) _ p1
        (noticed-Exits (λ _. Registered true) IsExplained loop_failed
          (or_notice check_failed (inside (loop_tick env fuel)) p1)
          (noticed-Exits (λ _. Registered true) (λ q. IsExplained (notice loop_failed q))
            check_failed (inside (loop_tick env fuel) p1)
            (inside-Exits true (loop_tick env fuel) p1 h)))
        (λ _ q r.
          let q1 = (inside (lift (now env.clock_gettime)) q).1 in
          publish-Exits out (Registered true) IsExplained _ q1
            (λ text. send-Registered out _ text q1 r))

  main_loop-Exits :
      (fuel rounds : ℕ) (p : Process W D)
      → Registered true p
      → Exits (λ _. Registered true) IsExplained (main_loop env out fuel rounds p)
  unfolding main_loop
  main_loop-Exits fuel rounds p h =
      until-Exits (λ q. out.running_condition (world_of q)) (round env out fuel) (Registered true)
        IsExplained (round-Exits fuel) rounds p h

  run_driver-Exits :
      (fuel rounds : ℕ) (ip : Bytes) (port : ℤ) (p : Process W D)
      → Registered false p
      → Exits (λ _. Registered true) IsExplained (run_driver env out fuel rounds ip port p)
  unfolding run_driver
  run_driver-Exits fuel rounds ip port p h =
      Exits-bind (λ _. Registered false) (λ _. Registered true) IsExplained
        (or_notice connection_failed (inside (lift (setup_connection env ip port)))) _ p
        (noticed-Exits (λ _. Registered false) IsExplained connection_failed
          (inside (lift (setup_connection env ip port)) p)
          (inside-Exits false (lift (setup_connection env ip port)) p h))
        λ _ q r.
          let q' = start_objects (record q { cleanup_at_exit = true }) in
          Exits-bind (λ _. Registered true) (λ _. Registered true) IsExplained
            (or_notice info_failed (inside (check_machine_info env))) _ q'
            (noticed-Exits (λ _. Registered true) IsExplained info_failed
              (inside (check_machine_info env) q')
              (inside-Exits true (check_machine_info env) q' refl))
            (λ _ q r. main_loop-Exits fuel rounds q r)

  body-Exits :
      (fuel rounds : ℕ) (garbage : Bool) (sources : Bytes → Sources D) (args : List Bytes)
      (p : Process W D)
      → Registered false p
      → Exits
          (λ _. Registered true)
          IsExplained
          (main_body env out fuel rounds garbage sources args p)
  unfolding main_body configure
  body-Exits fuel rounds garbage sources args p h =
      Exits-bind (λ _. Registered false) (λ _. Registered true) IsExplained (config_argument args) _
        p (argument-Exits args p h)
        λ file q r.
          Exits-bind (λ _. Registered false) (λ _. Registered true) IsExplained
            (configure garbage (sources file)) _ q
            (configured-Exits garbage (read_config (sources file) initial_settings) q
              (read_config-ne-fails (sources file) initial_settings) r)
            λ c q r.
              Exits-bind (λ _. Registered false) (λ _. Registered true) IsExplained
                (create_producer out) _ q (producer-Exits out q r)
                λ _ q r.
                  Exits-bind (λ _. Registered true) (λ _. Registered true) IsExplained
                    (run_driver env out fuel rounds c.device_ip c.device_port) _ q
                    (run_driver-Exits fuel rounds c.device_ip c.device_port q r) (λ _ q r. r)

  -- Where no function is registered at the start: a program that comes to its end with success has
  -- registered `cleanup`. One that comes to its end with failure has written its reason last; it has
  -- registered `cleanup` where the machine's information or a round's checks failed, and not where
  -- the arguments, the producer or the connection did. Behind that end, where `cleanup` is
  -- registered, one line is printed and one call frees the handle, whose failure alone is written
  -- to stderr, and nothing is sent any more; where it is not registered, nothing happens.
  pub main_exit :
      (fuel rounds : ℕ) (garbage : Bool) (sources : Bytes → Sources D) (args : List Bytes)
      (p : Process W D)
      → p.cleanup_at_exit ≡ false
      → let r = main env out fuel rounds garbage sources args p in
        Exits
          (λ _ q. Registered true q × EndsWith env (returns tt) q r)
          (λ q. IsExplained q × EndsWith env fails q r)
          (main_body env out fuel rounds garbage sources args p)
  unfolding main
  main_exit fuel rounds garbage sources args p h =
      at_exit-EndsWith env (main_body env out fuel rounds garbage sources args p)
        (body-Exits fuel rounds garbage sources args p h)
