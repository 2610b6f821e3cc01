-- ===== src/Readings/Counters.antt =====
-- getMachinePartCount and getMachineCycleTime of driver/src/data.c.
pub mod Laws
use fanuc_driver.Prelude.{
  ℕ, ℤ, pos, ◌*ℤ◌, ◌+ℤ◌, signed32, to_u32, Outcome, continue, ◌>>=◌, ◌>>◌, pure,
}
use fanuc_driver.Clock.{elapsed}
use fanuc_driver.Focas.{Focas, Iodbtime}
use fanuc_driver.Types.{MachinePartCount, MachineCycleTime}
use fanuc_driver.Env.{Env}
use fanuc_driver.Env.Reader.{Get, read, now}

abbrev pub part_count_parameter : ℕ
part_count_parameter = 6711

-- time.minute * 60 * 1000 + time.msec, in a long of 32 bits.
unfoldable pub cycle_milliseconds : Iodbtime → ℤ
unfolding ◌*ℤ◌ ◌+ℤ◌
cycle_milliseconds t = signed32 (to_u32 (t.minute *ℤ pos 60 *ℤ pos 1000 +ℤ t.msec))

module _ {W D : Type 0} where
  unfoldable pub get_machine_part_count : Env W D → MachinePartCount → Get W D MachinePartCount
  get_machine_part_count env v = do
    t0 ← now env.clock_gettime
    ldata ← read (λ h. env.focas.cnc_rdparam h part_count_parameter 8)
    t1 ← now env.clock_gettime
    pure (record v { execution_duration = elapsed t0 t1; count = ldata })

  unfoldable pub get_machine_cycle_time : Env W D → MachineCycleTime → Get W D MachineCycleTime
  unfolding cycle_milliseconds
  get_machine_cycle_time env v = do
    t0 ← now env.clock_gettime
    time ← read (λ h. env.focas.cnc_rdtimer h 3)
    t1 ← now env.clock_gettime
    pure (record {
      execution_duration = elapsed t0 t1;
      time = cycle_milliseconds time;
      raw = record { minutes = time.minute; milliseconds = time.msec };
    })
