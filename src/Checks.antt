-- ===== src/Checks.antt =====
-- The checks of driver/src/check.c, a module to each group, over the state of the whole driver.
pub mod State
pub mod Info
pub mod Counters
pub mod Programs
pub mod Status
pub mod Dynamic
pub mod Tool
pub mod Block
pub mod Sync
pub mod Accounts
pub mod Memory
pub mod Alarm
pub mod Quiet
pub mod Gates
