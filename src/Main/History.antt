-- ===== src/Main/History.antt =====
-- The messages of a run as a consumer has them: what is printed into them, taken together, shows the
-- driver's last values.
use mathlib.Core.List.{append-nil}
use mathlib.Core.Path.{subst}
use fanuc_driver.CString.{c_str, Bytes}
use fanuc_driver.Checks.State.{Driver, lift, malloc}
use fanuc_driver.Checks.Sync.{
  part_fields, cycle_fields, status_fields, tool_fields, dynamic_fields, message_fields,
  block_fields, Synced,
}
use fanuc_driver.Env.{Env}
use fanuc_driver.Env.Reader.{Reader, now}
use fanuc_driver.Main.Rounds.{publish-OnReturn}
use fanuc_driver.Main.{send, add_total, topic, round, main_loop, run_driver}
use fanuc_driver.Process.{
  Message, Outside, Process, inside, world_of, start_objects, connection_failed, info_failed,
  check_failed, loop_failed, or_notice,
}
use fanuc_driver.Prelude.{
  ℕ, ◌≡◌, refl, sym, inl, inr, List, [], ◌∷◌, ◌++◌, ◌==◌, Bool-cases, length, pos, OnReturn, true,
  OnReturn-bind, none, ℤ, modify, in_bounds-OnReturn, pos_part, in_bounds, ◌>>=◌, ◌<◌, ◌⊎◌, some,
  arith, ◌==ℤ◌, OnReturn-any,
}
use fanuc_driver.Report.{Object}
use fanuc_driver.Report.Frame.{Shows}
use fanuc_driver.Checks.Sync.Round.{tick-Synced}
use fanuc_driver.Tick.{loop_tick}
use fanuc_driver.Checks.Accounts.{took_or_freed}
use fanuc_driver.Checks.Info.{
  new_device_id, store_info, report_info, check_machine_info, axes_objects,
}
use fanuc_driver.Readings.Connection.{setup_connection}
use fanuc_driver.Readings.Info.{get_machine_info}
use fanuc_driver.Process.Loop.{until-OnReturn}
use fanuc_driver.Process.Parts.{inside-OnReturn, noticed-OnReturn, lift-keeps}

module _ {W D : Type 0} (out : Outside W D) where
  -- The queued messages `ms`, the last one first, are the printed texts of objects that make up `h`.
  abbrev pub Carries : List Message → Object D → Type 0
  Carries [] h = h ≡ []
  Carries (m ∷ ms) h =
      (earlier : Object D) × (updates : Object D) × (meta : Object D) × Carries ms earlier
      × ((w : W) × (text : Bytes) × (out.print_unformatted updates meta w ≡ some text)
          × (m.value ≡ c_str text))
      × (h ≡ earlier ++ updates)

  -- The producer has refused a message.
  abbrev pub SomeRefused : Process W D → Type 0
  SomeRefused p = 0 < length p.refused

  -- A consumer who has read all messages, and reads the items that wait for the next, is up to date.
  abbrev pub Informs : Process W D → Type 0
  Informs p = (h : Object D) × Carries p.produced h × Synced h p.driver

  abbrev pub UpToDate : Process W D → Type 0
  UpToDate p = SomeRefused p ⊎ Informs p

-- The views look at the items and at the last values, and not at which items have been sent.
pub Synced-objects :
    {W D : Type 0} (h h' u : Object D) (d : Driver W D) (r : Reader W D) (m : Object D)
    → h ++ d.updates ≡ h' ++ u
    → Synced h d
    → Synced h' (record d { reader = r; updates = u; meta = m })
Synced-objects h h' u d r m e s = record {
  part = subst (Shows part_fields d.last_part_count) e s.part;
  cycle = subst (Shows cycle_fields d.last_cycle_time) e s.cycle;
  status = subst (Shows status_fields d.last_status) e s.status;
  tool = subst (Shows tool_fields d.last_tool_info) e s.tool;
  dynamic = subst (Shows dynamic_fields d.last_dynamic) e s.dynamic;
  message = subst (Shows message_fields d.last_message) e s.message;
  block = subst (Shows block_fields d.last_block) e s.block;
  count_shared = s.count_shared;
  programs_shared = s.programs_shared;
}

pub Synced-same :
    {W D : Type 0} (h : Object D) (d : Driver W D) (r : Reader W D) (m : Object D)
    → Synced h d
    → Synced h (record d { reader = r; meta = m })
Synced-same h d r m = Synced-objects h h d.updates d r m refl

-- The items of a message belong to the earlier ones from then on.
pub Synced-sent :
    {W D : Type 0} (h : Object D) (d : Driver W D) (r : Reader W D)
    → Synced h d
    → Synced (h ++ d.updates) (record d { reader = r; updates = []; meta = [] })
Synced-sent h d r = Synced-objects h (h ++ d.updates) [] d r [] (sym (append-nil (h ++ d.updates)))

module _ {W D : Type 0} where
  -- No check has read a value yet.
  abbrev pub IsFresh : Driver W D → Type 0
  IsFresh d =
      (d.last_part_count ≡ none)
      × (d.last_cycle_time ≡ none)
      × (d.last_status ≡ none)
      × (d.last_tool_info ≡ none)
      × (d.last_dynamic ≡ none)
      × (d.last_message ≡ none)
      × (d.last_block ≡ none)

  abbrev pub Started : Process W D → Type 0
  Started p = (p.produced ≡ []) × IsFresh p.driver

  pub fresh-Synced : (d : Driver W D) → IsFresh d → Synced [] d
  fresh-Synced d (e1, e2, e3, e4, e5, e6, e7) = record {
    part = rw e1 tt;
    cycle = rw e2 tt;
    status = rw e3 tt;
    tool = rw e4 tt;
    dynamic = rw e5 tt;
    message = rw e6 tt;
    block = rw e7 tt;
    count_shared = rw e1 tt;
    programs_shared = rw e5 tt;
  }

module _ {W D : Type 0} (env : Env W D) where
  pub info-IsFresh :
      (d : Driver W D) → IsFresh d → OnReturn (λ _. IsFresh) (check_machine_info env d)
  unfolding check_machine_info report_info store_info new_device_id
  info-IsFresh d f =
      took_or_freed IsFresh (λ u. u.info) env (get_machine_info env) (report_info env.floats) d
        (λ v s.
          let d' : Driver W D = record (malloc d) { reader = s } in
          let axes = axes_objects env.floats d.last_info v.axes (pos_part v.axes_count) 0 in
          in_bounds-OnReturn (λ _. IsFresh) (new_device_id v d')
            (λ id. in_bounds axes >>= λ a. modify (store_info v id a)) d'
            (λ id.
              in_bounds-OnReturn (λ _. IsFresh) axes (λ a. modify (store_info v id a)) d' (λ a. f)))

  pub connect-IsFresh :
      (ip : Bytes) (port : ℤ) (d : Driver W D)
      → IsFresh d
      → OnReturn (λ _. IsFresh) (lift (setup_connection env ip port) d)
  connect-IsFresh ip port d f = lift-keeps IsFresh (setup_connection env ip port) d (λ s. f)

module _ {W D : Type 0} (env : Env W D) (out : Outside W D) where
  -- A message that is refused is no part of what a consumer has.
  send-SomeRefused :
      (tt_us : ℕ) (text : Bytes) (p : Process W D)
      → SomeRefused out p
      → SomeRefused out (send out tt_us text p)
  unfolding send
  send-SomeRefused tt_us text p h = elim (Bool-cases (length text == 0)) [
    | inl e ↦ rw e h
    | inr e ↦
        elim (Bool-cases (
          (out.producev (record { topic = topic; key = c_str p.driver.device_id; value = text })
            (world_of p)).0
          ==ℤ pos 0)) [ inl q ↦ rw (e, q) h | inr q ↦ rw (e, q) (omega arith) ]
  ]

  send-Informs :
      (tt_us : ℕ) (text : Bytes) (p : Process W D)
      → out.print_unformatted p.driver.updates p.driver.meta (world_of p) ≡ some text
      → Informs out p
      → UpToDate out (send out tt_us (c_str text) p)
  unfolding send
  send-Informs tt_us text p printed (h, c, s) = elim (Bool-cases (length (c_str text) == 0)) [
    | inl e ↦ rw e (inr (h, c, Synced-same h p.driver _ p.driver.meta s))
    | inr e ↦
        elim (Bool-cases (
          (out.producev
            (record { topic = topic; key = c_str p.driver.device_id; value = c_str text })
            (world_of p)).0
          ==ℤ pos 0)) [
            | inl q ↦
                rw (e, q)
                  (inr (
                    h ++ p.driver.updates,
                    (
                      h,
                      p.driver.updates,
                      p.driver.meta,
                      c,
                      (world_of p, text, printed, refl),
                      refl,
                    ),
                    Synced-sent h p.driver _ s,
                  ))
            | inr q ↦ rw (e, q) (inl (omega arith))
          ]
  ]

  pub send-UpToDate :
      (tt_us : ℕ) (text : Bytes) (p : Process W D)
      → out.print_unformatted p.driver.updates p.driver.meta (world_of p) ≡ some text
      → UpToDate out p
      → UpToDate out (send out tt_us (c_str text) p)
  send-UpToDate tt_us text p printed (inl r) = inl (send-SomeRefused tt_us (c_str text) p r)
  send-UpToDate tt_us text p printed (inr i) = send-Informs tt_us text p printed i

  pub total-UpToDate :
      (tt_us : ℕ) (p : Process W D) → UpToDate out p → UpToDate out (add_total tt_us p)
  total-UpToDate tt_us p (inl r) = inl r
  total-UpToDate tt_us p (inr (h, c, s)) = inr (h, c, Synced-same h p.driver p.driver.reader _ s)

  pub clock-UpToDate :
      (p : Process W D)
      → UpToDate out p
      → UpToDate out ((inside (lift (now env.clock_gettime)) p).1)
  clock-UpToDate p (inl r) = inl r
  clock-UpToDate p (inr (h, c, s)) = inr (h, c, Synced-same h p.driver _ p.driver.meta s)

  pub tick-UpToDate :
      (fuel : ℕ) (p : Process W D)
      → UpToDate out p
      → OnReturn
          (λ _. UpToDate out)
          (or_notice loop_failed (or_notice check_failed (inside (loop_tick env fuel))) p)
  tick-UpToDate fuel p (inl r) =
      noticed-OnReturn (λ _. UpToDate out) loop_failed _
        (noticed-OnReturn (λ _. UpToDate out) check_failed _
          (inside-OnReturn (λ _. Unit {0}) (UpToDate out) (loop_tick env fuel) p
            (OnReturn-any (loop_tick env fuel p.driver)) (λ d _. inl r)))
  tick-UpToDate fuel p (inr (h, c, s)) =
      noticed-OnReturn (λ _. UpToDate out) loop_failed _
        (noticed-OnReturn (λ _. UpToDate out) check_failed _
          (inside-OnReturn (Synced h) (UpToDate out) (loop_tick env fuel) p
            (tick-Synced env h fuel p.driver s) (λ d s. inr (h, c, s))))

  -- A round keeps the consumer up to date: if what the messages carry, with the waiting items, shows
  -- the driver's last values, then it does so after a round that returns, whether the round has
  -- sent a message or none, or else a message has been refused.
  pub round-UpToDate :
      (fuel : ℕ) (p : Process W D)
      → UpToDate out p
      → OnReturn (λ _. UpToDate out) (round env out fuel p)
  unfolding round
  round-UpToDate fuel p u =
      let p1 = (inside (lift (now env.clock_gettime)) p).1 in
      OnReturn-bind (λ _. UpToDate out) (λ _. UpToDate out)
        (or_notice loop_failed (or_notice check_failed (inside (loop_tick env fuel)))) _ p1
        (tick-UpToDate fuel p1 (clock-UpToDate p u))
        (λ _ q u.
          let q1 = (inside (lift (now env.clock_gettime)) q).1 in
          publish-OnReturn out (UpToDate out) _ q1 (λ text printed.
            send-UpToDate _ text _ printed (total-UpToDate _ q1 (clock-UpToDate q u))))

  pub main_loop-UpToDate :
      (fuel rounds : ℕ) (p : Process W D)
      → UpToDate out p
      → OnReturn (λ _. UpToDate out) (main_loop env out fuel rounds p)
  unfolding main_loop
  main_loop-UpToDate fuel rounds p u =
      until-OnReturn (λ q. out.running_condition (world_of q)) (round env out fuel) (UpToDate out)
        (UpToDate out) (λ q u. u) (λ q u. round-UpToDate fuel q u) rounds p u

  -- What the loop makes of a start, the run does.
  pub run_driver-OnReturn :
      (R : Process W D → Type 0) (fuel rounds : ℕ) (ip : Bytes) (port : ℤ) (p : Process W D)
      → Started p
      → ((q : Process W D) → Started q → OnReturn (λ _. R) (main_loop env out fuel rounds q))
      → OnReturn (λ _. R) (run_driver env out fuel rounds ip port p)
  unfolding run_driver
  run_driver-OnReturn R fuel rounds ip port p (e, f) loop =
      OnReturn-bind (λ _. Started) (λ _. R)
        (or_notice connection_failed (inside (lift (setup_connection env ip port)))) _ p
        (noticed-OnReturn (λ _. Started) connection_failed _
          (inside-OnReturn IsFresh Started (lift (setup_connection env ip port)) p
            (connect-IsFresh env ip port p.driver f) (λ d f. (e, f))))
        λ _ q s.
          let q' = start_objects (record q { cleanup_at_exit = true }) in
          OnReturn-bind (λ _. Started) (λ _. R)
            (or_notice info_failed (inside (check_machine_info env))) _ q'
            (noticed-OnReturn (λ _. Started) info_failed _
              (inside-OnReturn IsFresh Started (check_machine_info env) q'
                (info-IsFresh env q'.driver s.1) (λ d f. (s.0, f))))
            (λ _ q s. loop q s)

  pub Started-UpToDate : (p : Process W D) → Started p → UpToDate out p
  Started-UpToDate p s = inr ([], rw s.0 refl, fresh-Synced p.driver s.1)

  -- A run that starts with no value read and no message sent, and that ends with success after any
  -- number of rounds: either librdkafka has refused a message, or what its messages carry, taken
  -- together, with the items that wait for the next one, shows the last count, cycle time, tool,
  -- dynamic numbers, message number, block and status (but for `estop` and `alarm`) that the checks
  -- have read.
  pub run_driver-UpToDate :
      (fuel rounds : ℕ) (ip : Bytes) (port : ℤ) (p : Process W D)
      → p.produced ≡ []
      → IsFresh p.driver
      → OnReturn (λ _. UpToDate out) (run_driver env out fuel rounds ip port p)
  run_driver-UpToDate fuel rounds ip port p e f =
      run_driver-OnReturn (UpToDate out) fuel rounds ip port p (e, f)
        (λ q s. main_loop-UpToDate fuel rounds q (Started-UpToDate q s))
