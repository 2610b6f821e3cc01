-- ===== src/Checks/Sync/Round.antt =====
-- The whole round, `loop_tick`: the ten checks in order keep a consumer up to date.
use fanuc_driver.Checks.Sync.Programs.{header-step, contents-step, name-step}
use fanuc_driver.Checks.Sync.Steps.{
  Synced-malloc, part-step, cycle-step, status-step, tool-step, message-step, block-step,
  dynamic-step,
}
use fanuc_driver.Tick.Keeps.{Keeps, tick-keeps}
use fanuc_driver.Checks.State.{Driver}
use fanuc_driver.Checks.Sync.{Synced}
use fanuc_driver.Env.{Env}
use fanuc_driver.Prelude.{ℕ, OnReturn}
use fanuc_driver.Report.{Object}
use fanuc_driver.Tick.{loop_tick}

Synced-Keeps : {W D : Type 0} (h : Object D) → Keeps (Synced {W = W} h)
Synced-Keeps h = record {
  taken = Synced-malloc h;
  part = part-step h;
  cycle = cycle-step h;
  status = status-step h;
  tool = tool-step h;
  dynamic = dynamic-step h;
  message = message-step h;
  name = name-step h;
  header = header-step h;
  contents = contents-step h;
  block = block-step h;
}

module _ {W D : Type 0} (env : Env W D) (h : Object D) where
  -- If a consumer who has the items `h` of the earlier rounds and those of this one is up to date, then it
  -- is so after a round of checks that returns: with the items that the round has added, the latest
  -- of each key is that of the last count, cycle time, tool, dynamic numbers, message number, block
  -- and status (but for `estop` and `alarm`), and the shared variables hold the last numbers.
  pub tick-Synced :
      (fuel : ℕ) (d : Driver W D) → Synced h d → OnReturn (λ _. Synced h) (loop_tick env fuel d)
  tick-Synced = tick-keeps (Synced h) (Synced-Keeps h) env
