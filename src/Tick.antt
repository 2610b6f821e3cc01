-- ===== src/Tick.antt =====
-- loop_tick of driver/src/main.c: the ten checks of one round, which the first failure ends. The
-- same chain of checks stands in the loop of driver/src/debug.c.
pub mod Keeps
use fanuc_driver.Checks.State.{Check}
use fanuc_driver.Checks.Block.{check_machine_block}
use fanuc_driver.Checks.Counters.{check_machine_part_count, check_machine_cycle_time}
use fanuc_driver.Checks.Dynamic.{check_machine_dynamic}
use fanuc_driver.Checks.Programs.{
  check_machine_program_name, check_machine_program_header, check_machine_program_contents,
}
use fanuc_driver.Checks.Status.{check_machine_status, check_machine_message}
use fanuc_driver.Checks.Tool.{check_machine_tool_info}
use fanuc_driver.Env.{Env}
use fanuc_driver.Prelude.{ℕ, ◌>>◌, Outcome, continue, ◌>>=◌}

module _ {W D : Type 0} (env : Env W D) where
  -- `fuel` bounds the retries of an upload, in the header and in the contents.
  unfoldable pub loop_tick : ℕ → Check W D (Unit {0})
  loop_tick fuel = do
    check_machine_part_count env
    check_machine_cycle_time env
    check_machine_status env
    check_machine_tool_info env
    check_machine_dynamic env
    check_machine_message env
    check_machine_program_name env
    check_machine_program_header env fuel
    check_machine_program_contents env fuel
    check_machine_block env
