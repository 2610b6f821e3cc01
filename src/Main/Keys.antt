-- ===== src/Main/Keys.antt =====
-- The key of the messages of a run: the id of the control.
use mathlib.Core.Path.{subst}
use fanuc_driver.Readings.Info.Kept.{IsIdOf, info-IsIdOf}
use fanuc_driver.Tick.Keeps.{Keeps, tick-keeps}
use fanuc_driver.CString.{Bytes, c_str, strncpy, memset_zero}
use fanuc_driver.Checks.Block.{report_block}
use fanuc_driver.Checks.Counters.{report_part_count, report_cycle_time}
use fanuc_driver.Checks.Dynamic.{array_updates, report_dynamic_numbers, report_dynamic}
use fanuc_driver.Checks.Info.{
  new_device_id, axes_objects, store_info, report_info, check_machine_info,
}
use fanuc_driver.Checks.Programs.{
  store_program_name, report_program_name, report_program_header, report_program_contents,
}
use fanuc_driver.Checks.State.{Driver, malloc, lift}
use fanuc_driver.Checks.Status.{report_status, report_message}
use fanuc_driver.Checks.Tool.{report_tool_info}
use fanuc_driver.Prelude.{
  All, ◌<◌, ◌≡◌, ◌⊎◌, ◌==ℤ◌, some, [], length, modify, in_bounds-OnReturn, sym, ap, ◌∙◌, Option,
  none, arith, pos_part, in_bounds, ◌>>=◌, ◌>>?◌, OnReturn, in_bounds-OnReturn-eq, ℕ, refl, inl,
  inr, true, ◌==◌, Bool-cases, ℤ, pos, OnReturn-any,
}
use fanuc_driver.Process.{
  Outside, connection_failed, info_failed, check_failed, loop_failed, Process, inside, world_of,
  or_notice, start_objects,
}
use fanuc_driver.Types.{MachineInfo}
use fanuc_driver.CString.Laws.{c_str-strncpy}
use fanuc_driver.Env.{Env}
use fanuc_driver.Readings.Info.Identity.{length-machine_id}
use fanuc_driver.Checks.Accounts.{took_or_freed_with}
use fanuc_driver.Readings.Info.{get_machine_info}
use fanuc_driver.Env.Reader.{now}
use fanuc_driver.Main.Rounds.{publish-Exits}
use fanuc_driver.Process.Exits.{Exits, Exits-bind, Exits-map, until-Exits}
use fanuc_driver.Main.{topic, send, add_total, round, main_loop, run_driver}
use fanuc_driver.Readings.Connection.{setup_connection}
use fanuc_driver.Tick.{loop_tick}
use fanuc_driver.Process.Parts.{inside-Exits, noticed-Exits}

module _ {W D : Type 0} where
  abbrev HasKey : Bytes → Driver W D → Type 0
  HasKey k d = c_str d.device_id ≡ k

  -- No check of a round writes the device's id.
  HasKey-Keeps : (k : Bytes) → Keeps (HasKey k)
  unfolding report_part_count report_cycle_time report_status report_tool_info report_dynamic
      report_dynamic_numbers report_message report_program_name report_program_header
      report_program_contents report_block
  HasKey-Keeps k = record {
    taken = λ d r h. h;
    part = λ v d h. h;
    cycle = λ v d h. h;
    status = λ v d h. h;
    tool = λ v d h. h;
    dynamic = λ floats v d h.
        in_bounds-OnReturn (λ _. HasKey k) (array_updates floats d.last_dynamic v d.updates)
          (λ o. modify (report_dynamic_numbers v o)) d (λ o. h);
    message = λ v d h. h;
    name = λ v d h.
        in_bounds-OnReturn (λ _. HasKey k) (strncpy d.m_program_path v.path 256)
          (λ path. modify (store_program_name v path)) d (λ path. h);
    header = λ v d h. h;
    contents = λ v d h. h;
    block = λ v d h. h;
  }

copied_text :
    (o : Option Bytes) (src id : Bytes)
    → length (c_str src) < 127
    → (o >>? λ zeros. strncpy zeros src 127) ≡ some id
    → c_str id ≡ c_str src
copied_text none src id l e = cc
copied_text (some zeros) src id l e = c_str-strncpy zeros src 127 l e

module _ {W D : Type 0} (env : Env W D) where
  -- Some words that the control has answered make the device's id.
  abbrev pub IsKeyed : Driver W D → Type 0
  IsKeyed d = IsIdOf env (c_str d.device_id)

  length-IsIdOf : (k : Bytes) → IsIdOf env k → length k ≡ 35
  length-IsIdOf k (h, w, ok, a, b, c, d, ea, eb, ec, ed, e) =
      ap length e ∙ length-machine_id a b c d

  report_info-IsKeyed :
      (v : MachineInfo D) (d : Driver W D)
      → IsIdOf env (c_str v.id)
      → OnReturn (λ _. IsKeyed) (report_info env.floats v d)
  unfolding report_info store_info new_device_id
  report_info-IsKeyed v d k =
      let axes = axes_objects env.floats d.last_info v.axes (pos_part v.axes_count) 0 in
      in_bounds-OnReturn-eq (λ _. IsKeyed) (new_device_id v d)
        (λ id. in_bounds axes >>= λ a. modify (store_info v id a)) d
        λ id e.
          let same =
            copied_text (memset_zero d.device_id 128) v.id id
              (omega (arith, length-IsIdOf (c_str v.id) k)) e in
          in_bounds-OnReturn (λ _. IsKeyed) axes (λ a. modify (store_info v id a)) d
            (λ a. subst (IsIdOf env) (sym same) k)

  check_info-IsKeyed : (d : Driver W D) → OnReturn (λ _. IsKeyed) (check_machine_info env d)
  unfolding check_machine_info
  check_info-IsKeyed d =
      took_or_freed_with IsKeyed (λ v _. IsIdOf env (c_str v.id)) (λ u. u.info) env
        (get_machine_info env) (report_info env.floats) d
        (info-IsIdOf env (env.uninit d.reader.world).info d.reader)
        (λ v s k. report_info-IsKeyed v (record (malloc d) { reader = s }) k)

module _ {W D : Type 0} where
  -- The messages that librdkafka has queued have the topic of the program and the key `k`.
  abbrev pub SentWith : Bytes → Process W D → Type 0
  SentWith k p = All (λ m. (m.topic ≡ topic) × (m.key ≡ k)) p.produced

  -- So do they, and so will the next one.
  abbrev pub AllKeyed : Bytes → Process W D → Type 0
  AllKeyed k p = (c_str p.driver.device_id ≡ k) × SentWith k p

module _ {W D : Type 0} (out : Outside W D) (k : Bytes) where
  send-AllKeyed :
      (tt_us : ℕ) (text : Bytes) (p : Process W D)
      → AllKeyed k p
      → AllKeyed k (send out tt_us text (add_total tt_us p))
  unfolding send
  send-AllKeyed tt_us text p (h, a) = elim (Bool-cases (length text == 0)) [
    | inl e ↦ rw e (h, a)
    | inr e ↦
        elim (Bool-cases (
          (out.producev (record { topic = topic; key = c_str p.driver.device_id; value = text })
            (world_of p)).0
          ==ℤ pos 0)) [ inl q ↦ rw (e, q) (h, ((refl, h), a)) | inr q ↦ rw (e, q) (h, a) ]
  ]

module _ {W D : Type 0} (env : Env W D) (out : Outside W D) (k : Bytes) where
  round-AllKeyed :
      (fuel : ℕ) (p : Process W D)
      → AllKeyed k p
      → Exits (λ _. AllKeyed k) (SentWith k) (round env out fuel p)
  unfolding round
  round-AllKeyed fuel p (h, a) =
      let p1 = (inside (lift (now env.clock_gettime)) p).1 in
      Exits-bind (λ _. AllKeyed k) (λ _. AllKeyed k) (SentWith k)
        (or_notice loop_failed (or_notice check_failed (inside (loop_tick env fuel)))) _ p1
        (noticed-Exits (λ _. AllKeyed k) (SentWith k) loop_failed
          (or_notice check_failed (inside (loop_tick env fuel)) p1)
          (noticed-Exits (λ _. AllKeyed k) (SentWith k) check_failed
            (inside (loop_tick env fuel) p1)
            (inside-Exits (HasKey k) (AllKeyed k) (SentWith k) (loop_tick env fuel) p1
              (tick-keeps (HasKey k) (HasKey-Keeps k) env fuel p1.driver h) (λ d h. (h, a))
              (λ d. a))))
        (λ _ q b.
          let q1 = (inside (lift (now env.clock_gettime)) q).1 in
          publish-Exits out (AllKeyed k) (SentWith k) _ q1
            (λ text. send-AllKeyed out k _ text q1 b))

module _ {W D : Type 0} (env : Env W D) where
  -- No message, or all with the text of one answer of the control as their key.
  abbrev pub OneKey : Process W D → Type 0
  OneKey q = (q.produced ≡ []) ⊎ ((k : Bytes) × IsIdOf env k × SentWith k q)

module _ {W D : Type 0} (env : Env W D) (out : Outside W D) where
  -- A run that starts with no message and comes to its end, with success or with failure, after any
  -- number of rounds: it has sent none, or all have the topic of the program and one key, the text
  -- of four words that the control has answered with the code EW_OK, for some handle and in some
  -- state, when it was asked for its id.
  pub run_driver-AllKeyed :
      (fuel rounds : ℕ) (ip : Bytes) (port : ℤ) (p : Process W D)
      → p.produced ≡ []
      → Exits (λ _. OneKey env) (OneKey env) (run_driver env out fuel rounds ip port p)
  unfolding run_driver main_loop
  run_driver-AllKeyed fuel rounds ip port p e =
      let None = λ (q : Process W D). q.produced ≡ [] in
      let Keyed = λ (q : Process W D). (q.produced ≡ []) × IsIdOf env (c_str q.driver.device_id) in
      Exits-bind (λ _. None) (λ _. OneKey env) (OneKey env)
        (or_notice connection_failed (inside (lift (setup_connection env ip port)))) _ p
        (noticed-Exits (λ _. None) (OneKey env) connection_failed
          (inside (lift (setup_connection env ip port)) p)
          (inside-Exits (λ _. Unit {0}) None (OneKey env) (lift (setup_connection env ip port)) p
            (OnReturn-any (lift (setup_connection env ip port) p.driver)) (λ d _. e) (λ d. inl e)))
        λ _ q n.
          let q' = start_objects (record q { cleanup_at_exit = true }) in
          Exits-bind (λ _. Keyed) (λ _. OneKey env) (OneKey env)
            (or_notice info_failed (inside (check_machine_info env))) _ q'
            (noticed-Exits (λ _. Keyed) (OneKey env) info_failed
              (inside (check_machine_info env) q')
              (inside-Exits (IsKeyed env) Keyed (OneKey env) (check_machine_info env) q'
                (check_info-IsKeyed env q'.driver) (λ d k. (n, k)) (λ d. inl n)))
            λ _ r (n, id).
              let k = c_str r.driver.device_id in
              Exits-map (λ _. AllKeyed k) (λ _. OneKey env) (SentWith k) (OneKey env)
                (main_loop env out fuel rounds r)
                (until-Exits (λ q. out.running_condition (world_of q)) (round env out fuel)
                  (AllKeyed k) (SentWith k) (round-AllKeyed env out k fuel) rounds r
                  (refl, rw n tt))
                (λ _ q a. inr (k, id, a.1)) (λ q a. inr (k, id, a))
