-- ===== src/Readings/Dynamic.antt =====
-- getMachineDynamic of driver/src/data.c.
pub mod Axes
use fanuc_driver.Prelude.{
  ℕ, zero, suc, ◌+◌, ℤ, pos, pos_part, List, get_elem?, ◌>>=◌, pure, gets, in_bounds, to_short,
  Outcome, continue, ◌>>◌,
}
use fanuc_driver.Clock.{elapsed}
use fanuc_driver.Focas.{Odbdy2, Odbsvload}
use fanuc_driver.Types.{MachineDynamic}
use fanuc_driver.Env.{Env}
use fanuc_driver.Env.Reader.{Get, read, now, set_at}

module _ {W D : Type 0} (env : Env W D) where
  -- A position divided by the divisor of its axis.
  unfoldable pub scaled : ℤ → D → D
  scaled position divisor = env.floats.div (env.floats.of_ℤ position) divisor

  -- axLoad[i].svload.data / pow(10.0, axLoad[i].svload.dec)
  unfoldable pub load_percent : Odbsvload → D
  load_percent l = env.floats.div (env.floats.of_ℤ l.load) (env.floats.pow10 l.dec)

  unfoldable pub dynamic_step :
      Odbdy2 → List Odbsvload → ℕ → MachineDynamic D → Get W D (MachineDynamic D)
  unfolding scaled load_percent
  dynamic_step dyn ax_load i v = do
    divisors ← gets (λ s. s.divisors)
    divisor ← in_bounds (get_elem? divisors i)
    a ← in_bounds (get_elem? dyn.absolute i)
    absolute ← in_bounds (set_at v.absolute (pos i) (scaled a divisor))
    r ← in_bounds (get_elem? dyn.relative i)
    relative ← in_bounds (set_at v.relative (pos i) (scaled r divisor))
    m ← in_bounds (get_elem? dyn.machine i)
    actual ← in_bounds (set_at v.actual (pos i) (scaled m divisor))
    l ← in_bounds (get_elem? ax_load i)
    load ← in_bounds (set_at v.load (pos i) (load_percent l))
    pure (record v { absolute = absolute; relative = relative; actual = actual; load = load })

  -- for (int i = ...; i < num; i++), with `n` rounds left.
  unfoldable pub dynamic_loop :
      Odbdy2 → List Odbsvload → ℕ → ℕ → MachineDynamic D → Get W D (MachineDynamic D)
  dynamic_loop dyn ax_load zero i v = pure v
  dynamic_loop dyn ax_load (suc n) i v = do
    v' ← dynamic_step dyn ax_load i v
    dynamic_loop dyn ax_load n (i + 1) v'

  -- `num` is what the load reading reports; `dim` is the count of axes of the machine. The numbers of
  -- the reply are longs, and those of the struct are shorts.
  unfoldable pub get_machine_dynamic : MachineDynamic D → Get W D (MachineDynamic D)
  unfolding dynamic_loop
  get_machine_dynamic v = do
    t0 ← now env.clock_gettime
    dyn ← read env.focas.cnc_rddynamic2
    (num, ax_load) ← read (λ h. env.focas.cnc_rdsvmeter h env.max_axis)
    t1 ← now env.clock_gettime
    v' ← dynamic_loop dyn ax_load (pos_part num) 0 v
    count ← gets (λ s. s.axis_count)
    pure (record v' {
      execution_duration = elapsed t0 t1;
      dim = count;
      cprogram = to_short dyn.prgnum;
      mprogram = to_short dyn.prgmnum;
      sequence = to_short dyn.seqnum;
      actf = to_short dyn.actf;
      acts = to_short dyn.acts;
      alarm = to_short dyn.alarm;
    })
