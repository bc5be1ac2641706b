-- ===== src/Pool/FreeList.antt =====
-- The free list of a pool as a list of blocks.
use void_frame.Prelude.{
  ℕ, zero, suc, ◌+◌, ◌<◌, ◌≡◌, ◌≢◌, ◌≤◌, ◌⊎◌, inl, inr, refl, sym, ap, subst, ◌∙◌, true, false, not,
  ◌||◌, some, List, [], ◌∷◌, ◌==◌, arith, length,
}
use void_frame.Prelude.Words.{add64, sub64, u64_mod}
use void_frame.Pool.Store.{
  Links, write_link, MemPool, pool_magic, link_blocks, mem_pool_alloc, mem_pool_free, filled_pool,
  create_mem_pool,
}

-- From the pointer `p` the links lead through the blocks `xs`, in order.
abbrev pub Leads : Links → ℕ → List ℕ → Type 0
Leads next p [] = p ≡ 0
Leads next p (x ∷ xs) = (p ≡ x) × (x ≢ 0) × Leads next (next x) xs

-- The eight bytes at an address, and those at each of some blocks, are not the same.
abbrev pub IsApart : ℕ → ℕ → Type 0
IsApart k x = (k + 8 ≤ x) ⊎ (x + 8 ≤ k)

abbrev pub AllApart : ℕ → List ℕ → Type 0
AllApart k [] = Unit {0}
AllApart k (x ∷ xs) = IsApart k x × AllApart k xs

abbrev pub Spaced : List ℕ → Type 0
Spaced [] = Unit {0}
Spaced (x ∷ xs) = AllApart x xs × Spaced xs

-- A link that shares no byte with the one that is written keeps its value.
write_link-apart :
    (next : Links) (block link x : ℕ) → IsApart block x → write_link next block link x ≡ next x
write_link-apart next block link x n = ground (arith, n)

write_link_self : (next : Links) (block link : ℕ) → write_link next block link block ≡ link
write_link_self next block link = ground arith

-- A pool whose free blocks are `xs`.
pub record HasFree (pool : MemPool) (next : Links) (xs : List ℕ) : Type 0 where
  pub magic : pool.magic ≡ pool_magic
  pub leads : Leads next pool.free_list xs
  pub spaced : Spaced xs
  pub count : pool.free_blocks ≡ length xs
  pub few : length xs < u64_mod

Leads-write_link :
    (next : Links) (block link p : ℕ) (xs : List ℕ)
    → AllApart block xs
    → Leads next p xs
    → Leads (write_link next block link) p xs
Leads-write_link next block link p [] n h = h
Leads-write_link next block link p (x ∷ xs) (n, ns) (e, z, h) = (
  e,
  z,
  rw (write_link-apart next block link x n) (Leads-write_link next block link (next x) xs ns h),
)

-- What an allocation does: it takes the first free block, which is not null and not free any more, or
-- returns null from a pool without one.
abbrev pub Takes : MemPool → Links → List ℕ → ℕ × MemPool → Type 0
Takes pool next [] r = (r.0 ≡ 0) × (r.1 ≡ pool)
Takes pool next (x ∷ xs) r = (r.0 ≡ x) × (x ≢ 0) × AllApart x xs × HasFree r.1 next xs

alloc-Takes :
    (pool : MemPool) (next : Links) (xs : List ℕ)
    → HasFree pool next xs
    → Takes pool next xs (mem_pool_alloc pool next)
unfolding mem_pool_alloc
alloc-Takes pool next [] h =
    let e = h.leads in
    let m = h.magic in
    let empty : (not (pool.magic == pool_magic) || pool.free_list == 0) ≡ true = ground arith in
    rw empty (refl, refl)
alloc-Takes pool next (x ∷ xs) h =
    let (e, z, rest) = h.leads in
    let m = h.magic in
    let c = h.count in
    let f = h.few in
    let some_free : (not (pool.magic == pool_magic) || pool.free_list == 0) ≡ false =
      ground arith in
    rw some_free (
      e,
      z,
      h.spaced.0,
      record {
        magic = h.magic;
        leads = subst (λ p. Leads next (next p) xs) (sym e) rest;
        spaced = h.spaced.1;
        count = omega arith;
        few = omega arith;
      },
    )

free-HasFree :
    (pool : MemPool) (next : Links) (xs : List ℕ) (ptr : ℕ)
    → HasFree pool next xs
    → ptr ≢ 0
    → AllApart ptr xs
    → suc (length xs) < u64_mod
    → HasFree (mem_pool_free pool next ptr).0 (mem_pool_free pool next ptr).1 (ptr ∷ xs)
unfolding mem_pool_free
free-HasFree pool next xs ptr h z n few =
    let m = h.magic in
    let c = h.count in
    let given : (ptr == 0 || not (pool.magic == pool_magic)) ≡ false = ground (arith, z) in
    let same = write_link_self next ptr pool.free_list in
    rw given (record {
      magic = h.magic;
      leads =
          (refl, z, rw same (Leads-write_link next ptr pool.free_list pool.free_list xs n h.leads));
      spaced = (n, h.spaced);
      count = omega arith;
      few = few;
    })

-- The blocks of `n + 1` links from an address on, and the addresses below the end of the memory.
abbrev pub blocks_from : ℕ → ℕ → ℕ → List ℕ
blocks_from zero p block_size = p ∷ []
blocks_from (suc n) p block_size = p ∷ blocks_from n (p + block_size) block_size

abbrev pub InMemory : ℕ → ℕ → ℕ → Type 0
InMemory zero p block_size = p < u64_mod
InMemory (suc n) p block_size = (p + block_size < u64_mod) × InMemory n (p + block_size) block_size

link_blocks-below :
    (n : ℕ) (next : Links) (p block_size q : ℕ)
    → q + 8 ≤ p
    → 8 ≤ block_size
    → InMemory n p block_size
    → link_blocks n next p block_size q ≡ next q
unfolding link_blocks
link_blocks-below zero next p block_size q h b m = write_link-apart next p 0 q (inr h)
link_blocks-below (suc n) next p block_size q h b (c, m) =
    let sum : add64 p block_size ≡ p + block_size = omega arith in
    subst (λ a. link_blocks n (write_link next p a) a block_size q ≡ next q) (sym sum)
      (link_blocks-below n (write_link next p (p + block_size)) (p + block_size) block_size q
          (omega arith) b m
        ∙ write_link-apart next p (p + block_size) q (inr h))

link_blocks-Leads :
    (n : ℕ) (next : Links) (p block_size : ℕ)
    → p ≢ 0
    → 8 ≤ block_size
    → InMemory n p block_size
    → Leads (link_blocks n next p block_size) p (blocks_from n p block_size)
unfolding link_blocks
link_blocks-Leads zero next p block_size z b m = (refl, z, write_link_self next p 0)
link_blocks-Leads (suc n) next p block_size z b (c, m) =
    let sum : add64 p block_size ≡ p + block_size = omega arith in
    let q = p + block_size in
    let next' = write_link next p q in
    let kept : link_blocks n next' q block_size p ≡ q =
      link_blocks-below n next' q block_size p (omega arith) b m ∙ write_link_self next p q in
    subst
      (λ a.
        Leads (link_blocks n (write_link next p a) a block_size) p
          (blocks_from (suc n) p block_size))
      (sym sum)
      (
        refl,
        z,
        subst (λ a. Leads (link_blocks n next' q block_size) a (blocks_from n q block_size))
            (sym kept) (link_blocks-Leads n next' q block_size (omega arith) b m),
      )

blocks-AllApart : (n p block_size k : ℕ) → k + 8 ≤ p → AllApart k (blocks_from n p block_size)
blocks-AllApart zero p block_size k h = (inl h, tt)
blocks-AllApart (suc n) p block_size k h =
    (inl h, blocks-AllApart n (p + block_size) block_size k (omega arith))

blocks-Spaced : (n p block_size : ℕ) → 8 ≤ block_size → Spaced (blocks_from n p block_size)
blocks-Spaced zero p block_size b = (tt, tt)
blocks-Spaced (suc n) p block_size b = (
  blocks-AllApart n (p + block_size) block_size p (omega arith),
  blocks-Spaced n (p + block_size) block_size b,
)

length-blocks_from : (n p block_size : ℕ) → length (blocks_from n p block_size) ≡ suc n
length-blocks_from zero p block_size = refl
length-blocks_from (suc n) p block_size = ap suc (length-blocks_from n (p + block_size) block_size)

-- The pool that CreateMemPool returns, with its pages cut into blocks.
pub link_blocks-HasFree :
    (n : ℕ) (next : Links) (block_size initial_pages pages : ℕ)
    → (filled_pool block_size initial_pages pages).total_blocks ≡ suc n
    → suc n < u64_mod
    → pages ≢ 0
    → 8 ≤ block_size
    → InMemory n pages block_size
    → HasFree
        (filled_pool block_size initial_pages pages)
        (link_blocks n next pages block_size)
        (blocks_from n pages block_size)
link_blocks-HasFree n next block_size initial_pages pages e few z b m =
    let l = length-blocks_from n pages block_size in
    record {
      magic = refl;
      leads = link_blocks-Leads n next pages block_size z b m;
      spaced = blocks-Spaced n pages block_size b;
      count = e ∙ sym l;
      few = omega (arith, l, few);
    }

-- A pool whose free blocks are 8 bytes and more apart is a stack of them: an allocation takes the first,
-- which is not null and is free no more, or returns null when there is none; a block that is given
-- back, not null and 8 bytes and more from the free ones, is then the first, before all that were free,
-- while the count of blocks fits 64 bits.
pub mem_pool_lem :
    (pool : MemPool) (next : Links) (xs : List ℕ) (ptr : ℕ)
    → HasFree pool next xs
    → ptr ≢ 0
    → AllApart ptr xs
    → suc (length xs) < u64_mod
    → Takes pool next xs (mem_pool_alloc pool next)
      × HasFree (mem_pool_free pool next ptr).0 (mem_pool_free pool next ptr).1 (ptr ∷ xs)
mem_pool_lem pool next xs ptr h z n few =
    (alloc-Takes pool next xs h, free-HasFree pool next xs ptr h z n few)

-- CreateMemPool returns that pool, when there is memory for it and a page holds a block.
pub create_mem_pool_lem :
    (n : ℕ) (next : Links) (block_size initial_pages pages : ℕ)
    → (filled_pool block_size initial_pages pages).total_blocks ≡ suc n
    → suc n < u64_mod
    → initial_pages ≢ 0
    → pages ≢ 0
    → create_mem_pool next block_size initial_pages true pages
      ≡ (some (filled_pool block_size initial_pages pages), link_blocks n next pages block_size)
unfolding create_mem_pool
create_mem_pool_lem n next block_size initial_pages pages e few i z =
    let some_pages : (initial_pages == 0) ≡ false = ground (arith, i) in
    let given : (pages == 0) ≡ false = ground (arith, z) in
    let less : sub64 (filled_pool block_size initial_pages pages).total_blocks 1 ≡ n =
      omega (arith, e, few) in
    rw (some_pages, given)
      (ap
        (λ k.
          (some (filled_pool block_size initial_pages pages), link_blocks k next pages block_size))
        less)
