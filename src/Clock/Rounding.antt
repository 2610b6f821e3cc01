-- ===== src/Clock/Rounding.antt =====
-- The duration is the elapsed time to within a microsecond, and does not wrap in the first 71 minutes.
use fanuc_driver.Prelude.{ℕ, ◌+◌, ◌*◌, ◌≤◌, ◌<◌, arith}
use fanuc_driver.Clock.{Timespec, elapsed}

-- The nanoseconds since the clock's origin.
abbrev pub nanos : Timespec → ℕ
nanos t = t.tv_sec * 1000000000 + t.tv_nsec

abbrev pub IsNormal : Timespec → Type 0
IsNormal t = t.tv_nsec < 1000000000

-- Between two normalised readings in order, less than 4294 seconds apart, the duration in
-- microseconds differs from the elapsed nanoseconds by less than one microsecond, to either side.
pub elapsed_accuracy :
    (t0 t1 : Timespec)
    → IsNormal t0
    → IsNormal t1
    → nanos t0 ≤ nanos t1
    → nanos t1 < nanos t0 + 4294000000000
    → (nanos t1 < nanos t0 + 1000 * elapsed t0 t1 + 1000)
      × (nanos t0 + 1000 * elapsed t0 t1 < nanos t1 + 1000)
unfolding elapsed
elapsed_accuracy t0 t1 n0 n1 le near = ground arith
