-- ===== src/Pool/Store.antt =====
-- The pools of mm/MemPool.c. The memory is what their free lists keep in it: the link that stands at the
-- start of a free block. A null pointer is 0. What VMemAlloc returns is an argument.
use void_frame.Prelude.{
  ℕ, zero, suc, ◌*◌, ◌/◌, ◌%◌, Bool, not, ◌||◌, Option, none, some, List, [], ◌∷◌, ◌++◌, leb, ◌==◌,
  if◌then◌else◌, length,
}
use void_frame.Prelude.Words.{add64, sub64, u64_mod, stored}
use void_frame.Pmm.State.{page_size}

abbrev pub pool_magic : ℕ
pool_magic = 0xDEADC0DE

abbrev pub max_pools : ℕ
max_pools = 16

-- The link that eight bytes from an address on hold.
abbrev pub Links : Type 0
Links = ℕ → ℕ

abbrev pub write_link : Links → ℕ → ℕ → Links
write_link next block link b = stored block link b (next b)

pub record MemPool : Type 0 where
  pub magic : ℕ
  pub block_size : ℕ
  pub blocks_per_page : ℕ
  pub total_blocks : ℕ
  pub free_blocks : ℕ
  pub free_list : ℕ
  pub pages : ℕ
  pub num_pages : ℕ

-- The loop of CreateMemPool over the blocks but the last, and the write after it.
unfoldable pub link_blocks : ℕ → Links → ℕ → ℕ → Links
link_blocks zero next block block_size = write_link next block 0
link_blocks (suc n) next block block_size =
    link_blocks n (write_link next block (add64 block block_size)) (add64 block block_size)
      block_size

abbrev pub empty_pool : ℕ → MemPool
empty_pool block_size = record {
  magic = pool_magic;
  block_size = block_size;
  blocks_per_page = page_size / block_size;
  total_blocks = 0;
  free_blocks = 0;
  free_list = 0;
  pages = 0;
  num_pages = 0;
}

abbrev pub filled_pool : ℕ → ℕ → ℕ → MemPool
filled_pool block_size initial_pages pages =
    let total = initial_pages * (page_size / block_size) % u64_mod in
    record (empty_pool block_size) {
      pages = pages;
      num_pages = initial_pages;
      total_blocks = total;
      free_blocks = total;
      free_list = pages;
    }

-- `made` says that there was memory for the structure, and `pages` is what the second allocation returned.
unfoldable pub create_mem_pool : Links → ℕ → ℕ → Bool → ℕ → Option MemPool × Links
unfolding link_blocks
create_mem_pool next block_size initial_pages made pages =
    let pool = filled_pool block_size initial_pages pages in
    if not made
    then (none, next)
    else if initial_pages == 0
    then (some (empty_pool block_size), next)
    else if pages == 0
    then (none, next)
    else (some pool, link_blocks (sub64 pool.total_blocks 1) next pages block_size)

unfoldable pub mem_pool_alloc : MemPool → Links → ℕ × MemPool
mem_pool_alloc pool next =
    if not (pool.magic == pool_magic) || pool.free_list == 0 then (0, pool) else (
      pool.free_list,
      record pool { free_list = next pool.free_list; free_blocks = sub64 pool.free_blocks 1 },
    )

unfoldable pub mem_pool_free : MemPool → Links → ℕ → MemPool × Links
mem_pool_free pool next ptr = if ptr == 0 || not (pool.magic == pool_magic) then (pool, next) else (
  record pool { free_list = ptr; free_blocks = add64 pool.free_blocks 1 },
  write_link next ptr pool.free_list,
)

-- FastAlloc from the place `i` of the default pools on: the first pool whose blocks are large enough. The
-- allocation that it falls back to is VMemAlloc's, which is none here.
unfoldable pub fast_alloc : Links → List MemPool → ℕ → Option ℕ × List MemPool
unfolding mem_pool_alloc
fast_alloc next [] size = (none, [])
fast_alloc next (pool ∷ pools) size =
    let taken = mem_pool_alloc pool next in
    let rest = fast_alloc next pools size in
    if leb size pool.block_size then (some taken.0, taken.1 ∷ pools) else (rest.0, pool ∷ rest.1)

-- InitDefaultPools, given for each size what the two allocations return.
abbrev pub default_sizes : List (ℕ × ℕ)
default_sizes =
    (16, 4) ∷ (32, 4) ∷ (64, 4) ∷ (128, 2) ∷ (256, 2) ∷ (512, 2) ∷ (1024, 1) ∷ (2048, 1) ∷ []

unfoldable pub init_pools :
    Links → List MemPool → List (ℕ × ℕ) → (ℕ → Bool × ℕ) → List MemPool × Links
unfolding create_mem_pool
init_pools next pools [] given = (pools, next)
init_pools next pools (size ∷ sizes) given =
    let made = create_mem_pool next size.0 size.1 (given size.0).0 (given size.0).1 in
    let pools' : List MemPool = elim (made.0) [ none ↦ pools | some pool ↦ pools ++ (pool ∷ []) ] in
    if leb max_pools (length pools) then (pools, next) else init_pools made.1 pools' sizes given
