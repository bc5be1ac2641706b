-- ===== src/Eevdf.antt =====
-- kernel/sched/EEVDF.c: the children hold its parts.
mod Tests
pub mod Tree
pub mod Insert
pub mod Delete
pub mod Nice
pub mod State
pub mod Time
pub mod Runqueue
pub mod Seal
pub mod Slots
pub mod Terminate
pub mod Create
pub mod Schedule
pub mod Levels
pub mod Ring
pub mod Reap
pub mod Reaping
pub mod Integrity
pub mod Dying
pub mod Guarding
pub mod Pool
pub mod PoolDelete
pub mod InRange
pub mod Sizes
pub mod Ending
pub mod Starting
pub mod Switching
pub mod Runs
pub mod Slices
