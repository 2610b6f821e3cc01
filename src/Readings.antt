-- ===== src/Readings.antt =====
-- The readings of driver/src/data.c, a module to each function. A reading takes the struct to fill
-- with what its memory held, and gives the struct filled, or fails where the function returns 1.
pub mod Status
pub mod Counters
pub mod Texts
pub mod Tool
pub mod Filled
pub mod Connection
pub mod Info
pub mod Dynamic
pub mod Header
pub mod Contents
