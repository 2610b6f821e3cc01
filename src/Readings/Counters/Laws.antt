-- ===== src/Readings/Counters/Laws.antt =====
-- getMachineCycleTime: for how long a cycle the milliseconds are exact.
use fanuc_driver.Prelude.{ℕ, ◌<◌, ◌+◌, ◌*◌, ◌≡◌, pos, arith, ◌-◌, ◌/◌, ◌^◌, negsuc, ◌+ℤ◌, ◌≤ℤ◌}
use fanuc_driver.Readings.Counters.{cycle_milliseconds}

-- A cycle of less than 35791 minutes, with fewer than 60000 milliseconds beside them, is reported in
-- milliseconds exactly.
pub cycle_milliseconds_exact :
    (m ms : ℕ)
    → m < 35791
    → ms < 60000
    → cycle_milliseconds (record { minute = pos m; msec = pos ms }) ≡ pos (m * 60000 + ms)
unfolding cycle_milliseconds
cycle_milliseconds_exact m ms hm hms = ground arith

-- From 35792 minutes on the product leaves the 32 bits: the number reported is short of the
-- milliseconds by a multiple of 2^32 other than 0, and lies in the range of a long.
pub cycle_milliseconds_wraps :
    (m ms : ℕ)
    → 35791 < m
    → let t = cycle_milliseconds (record { minute = pos m; msec = pos ms }) in
      (k : ℕ) × (0 < k)
      × (t +ℤ pos (k * 2 ^ 32) ≡ pos (m * 60000 + ms))
      × (negsuc (2 ^ 31 - 1) ≤ℤ t)
      × (t ≤ℤ pos (2 ^ 31 - 1))
unfolding cycle_milliseconds
cycle_milliseconds_wraps m ms hm =
    ((m * 60000 + ms + 2 ^ 31) / 2 ^ 32, omega arith, ground arith, ground arith, ground arith)
