-- ===== src/Pmm.antt =====
-- mm/PMem.c and PMem.h, the physical memory manager: one bit for each page of 4096 bytes, single
-- pages and runs of 2 MB pages. `Word`, `State`, `Page`, `Range` and `Huge` are the program, the
-- other children prove.
pub mod Word
pub mod State
pub mod Page
pub mod Bits
pub mod Bitmap
pub mod Mark
pub mod Search
pub mod Alloc
pub mod Free
pub mod Range
pub mod Sets
pub mod Huge
pub mod Regions
pub mod Runs
pub mod FreeRuns
pub mod HugeLaws
pub mod Init
pub mod Marks
pub mod InitLaws
mod Tests
