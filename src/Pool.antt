-- ===== src/Pool.antt =====
-- mm/MemPool.c: the children hold its parts.
pub mod Store
pub mod FreeList
mod Tests
