-- ===== src/Cerberus.antt =====
-- mm/security/Cerberus.c and Cerberus.h, the memory security monitor. `State`, `Track`, `Canary` and
-- `Watch` are the program, the other children prove.
pub mod State
pub mod Track
pub mod Canary
pub mod Watch
pub mod Counts
pub mod Regions
pub mod Registry
pub mod Kept
pub mod Runs
pub mod Alarm
pub mod Guard
mod Tests
