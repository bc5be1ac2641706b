-- ===== src/Pool/Tests.antt =====
-- Pools at concrete inputs: a page cut into two blocks, and the first of them taken and given back.
use void_frame.Prelude.{◌*◌, ◌≡◌, refl, inl, some, List, [], ◌∷◌, true, arith, length}
use void_frame.Pool.Store.{
  Links, write_link, MemPool, filled_pool, link_blocks, create_mem_pool, mem_pool_alloc,
  mem_pool_free, fast_alloc, init_pools, default_sizes,
}
use void_frame.Pool.FreeList.{
  HasFree, Takes, blocks_from, create_mem_pool_lem, link_blocks-HasFree, mem_pool_lem,
}

abbrev no_links : Links
no_links = λ a. 0

abbrev two_blocks : MemPool
two_blocks = filled_pool 2048 1 0x8000

abbrev two_links : Links
unfolding link_blocks
two_links = link_blocks 1 no_links 0x8000 2048

two_blocks-created : create_mem_pool no_links 2048 1 true 0x8000 ≡ (some two_blocks, two_links)
unfolding two_links
two_blocks-created =
    create_mem_pool_lem 1 no_links 2048 1 0x8000 refl (omega arith) (omega arith) (omega arith)

two_blocks-HasFree : HasFree two_blocks two_links (blocks_from 1 0x8000 2048)
unfolding two_links
two_blocks-HasFree =
    link_blocks-HasFree 1 no_links 2048 1 0x8000 refl (omega arith) (omega arith) (omega arith)
      (omega arith, omega arith)

mem_pool_lem_example :
    Takes two_blocks two_links (blocks_from 1 0x8000 2048) (mem_pool_alloc two_blocks two_links)
    × HasFree
        (mem_pool_free two_blocks two_links 0x7000).0
        (mem_pool_free two_blocks two_links 0x7000).1
        (0x7000 ∷ blocks_from 1 0x8000 2048)
mem_pool_lem_example =
    mem_pool_lem two_blocks two_links (blocks_from 1 0x8000 2048) 0x7000 two_blocks-HasFree
      (omega arith) (inl (omega arith), (inl (omega arith), tt)) (omega arith)

abbrev all_pools : List MemPool
unfolding init_pools
all_pools = (init_pools no_links [] default_sizes (λ size. (true, size * 0x10000))).0

-- 100 bytes come from the pool of blocks of 128.
all_pools-serve :
    (length all_pools ≡ 8) × ((fast_alloc no_links all_pools 100).0 ≡ some (128 * 0x10000))
unfolding all_pools fast_alloc
all_pools-serve = (refl, refl)

-- With blocks of 4 bytes, a link reaches into the next block: giving back the one before a free block
-- loses the link of that one.
abbrev short_links : Links
short_links = write_link no_links 0x8000 0x9000

short_links-lost :
    (short_links 0x8000 ≡ 0x9000)
    × ((mem_pool_free (filled_pool 4 1 0x8000) short_links 0x7FFC).1 0x8000 ≡ 0)
unfolding mem_pool_free
short_links-lost = (refl, refl)
