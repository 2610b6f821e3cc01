-- ===== src/Main/Leaks.antt =====
-- How many structs a run can lose.
use mathlib.Core.Path.{subst}
use fanuc_driver.Checks.Accounts.{Accounts, AtMostOneMore}
use fanuc_driver.Checks.Memory.{tick-Accounts, info-Accounts}
use fanuc_driver.CString.{Bytes, c_str}
use fanuc_driver.Checks.Info.{check_machine_info}
use fanuc_driver.Checks.State.{lift}
use fanuc_driver.Env.{Env}
use fanuc_driver.Env.Reader.{now}
use fanuc_driver.Main.Rounds.{publish-OnReturn}
use fanuc_driver.Main.{send, add_total, round, main_loop, run_driver}
use fanuc_driver.Prelude.{
  ℕ, ◌+◌, ◌≤◌, inl, inr, true, arith, ◌==◌, Bool-cases, length, ℤ, OnReturn, OnReturn-bind, ◌≡◌,
}
use fanuc_driver.Process.{
  Outside, connection_failed, info_failed, check_failed, loop_failed, Process, inside, world_of,
  or_notice, start_objects,
}
use fanuc_driver.Process.Loop.{until-counted}
use fanuc_driver.Process.Parts.{inside-OnReturn, noticed-OnReturn, lift-keeps}
use fanuc_driver.Process.Start.{initial_process}
use fanuc_driver.Readings.Connection.{setup_connection}
use fanuc_driver.Tick.{loop_tick}

module _ {W D : Type 0} where
  -- No more than `n` of the driver's allocated structs are held by no static pointer.
  abbrev pub LosesAtMost : ℕ → Process W D → Type 0
  LosesAtMost n p = (m : ℕ) × Accounts m p.driver × (m ≤ n)

module _ {W D : Type 0} (out : Outside W D) where
  send-LosesAtMost :
      (n tt_us : ℕ) (text : Bytes) (p : Process W D)
      → LosesAtMost n p
      → LosesAtMost n (send out tt_us text (add_total tt_us p))
  unfolding send
  send-LosesAtMost n tt_us text p h = elim (Bool-cases (length text == 0)) [
    | inl e ↦ rw e h
    | inr e ↦ rw e h
  ]

module _ {W D : Type 0} (env : Env W D) (out : Outside W D) where
  round-LosesAtMost :
      (fuel n : ℕ) (p : Process W D)
      → LosesAtMost n p
      → OnReturn (λ _. LosesAtMost (n + 1)) (round env out fuel p)
  unfolding round
  round-LosesAtMost fuel n p (m, a, l) =
      let p1 = (inside (lift (now env.clock_gettime)) p).1 in
      let P = LosesAtMost (n + 1) in
      OnReturn-bind (λ _. P) (λ _. P)
        (or_notice loop_failed (or_notice check_failed (inside (loop_tick env fuel)))) _ p1
        (noticed-OnReturn (λ _. P) loop_failed
          (or_notice check_failed (inside (loop_tick env fuel)) p1)
          (noticed-OnReturn (λ _. P) check_failed (inside (loop_tick env fuel) p1)
            (inside-OnReturn (AtMostOneMore m) P (loop_tick env fuel) p1
              (tick-Accounts env fuel m p1.driver a) (λ d (k, b, lo, hi). (k, b, omega arith)))))
        (λ _ q h.
          let q1 = (inside (lift (now env.clock_gettime)) q).1 in
          publish-OnReturn out P _ q1 (λ text _. send-LosesAtMost out (n + 1) _ (c_str text) q1 h))

  main_loop-LosesAtMost :
      (fuel rounds n : ℕ) (p : Process W D)
      → LosesAtMost n p
      → OnReturn (λ _. LosesAtMost (n + rounds)) (main_loop env out fuel rounds p)
  unfolding main_loop
  main_loop-LosesAtMost fuel rounds n p h =
      until-counted (λ q. out.running_condition (world_of q)) (round env out fuel) LosesAtMost
        (λ a b s below (m, x, l). (m, x, omega arith)) (round-LosesAtMost fuel) rounds n p h

  -- A run from the initial state that ends with success after `rounds` rounds or fewer has lost no more
  -- structs than `rounds`: all others that are allocated are held by the static pointers.
  pub run_driver-LosesAtMost :
      (fuel rounds : ℕ) (ip : Bytes) (port : ℤ) (w : W)
      → OnReturn
          (λ _. LosesAtMost rounds)
          (run_driver env out fuel rounds ip port (initial_process env w))
  unfolding run_driver
  run_driver-LosesAtMost fuel rounds ip port w =
      let p = initial_process env w in
      let None = λ (q : Process W D). Accounts 0 q.driver in
      OnReturn-bind (λ _. None) (λ _. LosesAtMost rounds)
        (or_notice connection_failed (inside (lift (setup_connection env ip port)))) _ p
        (noticed-OnReturn (λ _. None) connection_failed
          (inside (lift (setup_connection env ip port)) p)
          (inside-OnReturn (Accounts 0) None (lift (setup_connection env ip port)) p
            (lift-keeps (Accounts 0) (setup_connection env ip port) p.driver (λ s. omega arith))
            (λ d a. a)))
        λ _ q a.
          let q' = start_objects (record q { cleanup_at_exit = true }) in
          OnReturn-bind (λ _. None) (λ _. LosesAtMost rounds)
            (or_notice info_failed (inside (check_machine_info env))) _ q'
            (noticed-OnReturn (λ _. None) info_failed (inside (check_machine_info env) q')
              (inside-OnReturn (Accounts 0) None (check_machine_info env) q'
                (info-Accounts env 0 q'.driver a) (λ d a. a)))
            (λ _ r a.
              let all : 0 + rounds ≡ rounds = omega arith in
              subst (λ k. OnReturn (λ _. LosesAtMost k) (main_loop env out fuel rounds r)) all
                (main_loop-LosesAtMost fuel rounds 0 r (0, a, omega arith)))
