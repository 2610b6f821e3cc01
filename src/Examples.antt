-- ===== src/Examples.antt =====
-- The theorems at concrete inputs, over a control that answers every call.
mod Bench
mod Readings
mod Checks
mod Programs
mod Runs
mod Views
