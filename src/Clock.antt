-- ===== src/Clock.antt =====
-- The timing that every reading of driver/src/data.c and the loops of main.c and debug.c carry out:
-- the microseconds between two readings of the raw monotonic clock.
pub mod Rounding
use fanuc_driver.Prelude.{ℕ, ◌+ℤ◌, ◌*ℤ◌, pos, sub_ℕ, tdiv, to_u32, ltb, if◌then◌else◌, ◌-◌}

-- `struct timespec`: the clock's values are never negative.
pub record Timespec : Type 0 where
  pub tv_sec : ℕ
  pub tv_nsec : ℕ

-- tt = (t1.tv_sec - t0.tv_sec) * 1000000 + (t1.tv_nsec - t0.tv_nsec) / 1000, an unsigned long. The
-- sum is reduced once, at the assignment: wrapping it earlier as well leaves the same residue.
unfoldable pub elapsed : Timespec → Timespec → ℕ
unfolding ◌+ℤ◌ ◌*ℤ◌
elapsed t0 t1 =
    to_u32 (sub_ℕ t1.tv_sec t0.tv_sec *ℤ pos 1000000 +ℤ tdiv (sub_ℕ t1.tv_nsec t0.tv_nsec) 1000)

-- const long minimum_interval = (1.5) * 1e6;
abbrev pub minimum_interval : ℕ
minimum_interval = 1500000
