-- ===== src/Pmm/Init.antt =====
-- MemoryInit of mm/PMem.c, over the entries of the memory map in the order of their tags. The lock is
-- made; without one the kernel stops.
use void_frame.Prelude.{
  ℕ, zero, suc, ◌+◌, ◌-◌, ◌*◌, ◌/◌, Bool, true, false, List, [], ◌∷◌, ltb, ◌==◌, if◌then◌else◌,
  replicate,
}
use void_frame.Prelude.Words.{add32, add64}
use void_frame.Pmm.Word.{zero_word}
use void_frame.Pmm.State.{
  Pmm, page_size, max_pages, max_supported_memory, lowmem_pages, mark_page_used,
}

pub record MmapEntry : Type 0 where
  pub addr : ℕ
  pub len : ℕ
  pub type : ℕ

-- MULTIBOOT2_MEMORY_AVAILABLE
abbrev pub is_available : MmapEntry → Bool
is_available entry = entry.type == 1

abbrev pub end_addr : MmapEntry → ℕ
end_addr entry = add64 entry.addr entry.len

-- The first pass.
unfoldable pub highest_address : List MmapEntry → ℕ → ℕ
highest_address [] highest = highest
highest_address (entry ∷ entries) highest = highest_address entries (
    if is_available entry
    then (if ltb highest (end_addr entry) then end_addr entry else highest)
    else highest)

-- A byte count in pages, rounded up.
abbrev pub pages_of : ℕ → ℕ
pages_of bytes = add64 bytes (page_size - 1) / page_size

abbrev pub detected_pages : List MmapEntry → ℕ
detected_pages entries =
    let pages = pages_of (highest_address entries 0) in
    if ltb max_pages pages then max_pages else pages

abbrev pub bitmap_start : ℕ
bitmap_start = 0x1000000

abbrev pub bitmap_bytes : ℕ → ℕ
bitmap_bytes pages = (pages + 63) / 64 * 8

abbrev pub identity_limit : ℕ → ℕ
identity_limit pages =
    if ltb max_supported_memory (pages * page_size) then max_supported_memory else pages * page_size

-- The loop over the addresses of an entry that is not available, one page size apart.
unfoldable pub reserve_addresses : ℕ → Pmm → ℕ → ℕ → Pmm
reserve_addresses zero s current_addr end = s
reserve_addresses (suc fuel) s current_addr end =
    let page_idx = current_addr / page_size in
    let rest =
      reserve_addresses fuel (if ltb page_idx s.total_pages then mark_page_used s page_idx else s)
        (add64 current_addr page_size) end in
    if ltb current_addr end then rest else s

-- An entry has one round for each page size in its length, and one for the rest.
unfoldable pub reserve_entries : Pmm → List MmapEntry → Pmm
unfolding reserve_addresses
reserve_entries s [] = s
reserve_entries s (entry ∷ entries) =
    reserve_entries
      (if is_available entry
        then s
        else reserve_addresses (suc (entry.len / page_size)) s entry.addr (end_addr entry))
      entries

-- The loops over the pages i .. i + n.
unfoldable pub mark_pages : ℕ → ℕ → Pmm → Pmm
mark_pages zero i s = s
mark_pages (suc n) i s = mark_pages n (i + 1) (mark_page_used s i)

-- Where the kernel and the multiboot information lie.
pub record BootImage : Type 0 where
  pub kernel_start : ℕ
  pub kernel_end : ℕ
  pub info_addr : ℕ
  pub info_size : ℕ

abbrev pub bitmap_first : ℕ
bitmap_first = bitmap_start / page_size

abbrev pub bitmap_last : ℕ → ℕ
bitmap_last pages = (bitmap_start + bitmap_bytes pages + page_size - 1) / page_size

abbrev pub info_last : BootImage → ℕ
info_last boot = add32 (add32 boot.info_addr boot.info_size) (page_size - 1) / page_size

-- The reservations of the second half, in their order.
unfoldable pub reserve_ranges : BootImage → Pmm → Pmm
unfolding mark_pages
reserve_ranges boot s =
    let low = mark_pages lowmem_pages 0 s in
    let bitmap = mark_pages (bitmap_last s.total_pages - bitmap_first) bitmap_first low in
    let kernel =
      mark_pages (pages_of boot.kernel_end - boot.kernel_start / page_size)
        (boot.kernel_start / page_size) bitmap in
    mark_pages (info_last boot - boot.info_addr / page_size) (boot.info_addr / page_size) kernel

-- The state with a bitmap of free pages.
abbrev pub cleared : Pmm → ℕ → Pmm
cleared s pages = record s {
  used_pages = 0;
  allocation_failures = 0;
  total_pages = pages;
  bitmap_words = (pages + 63) / 64;
  page_bitmap = replicate ((pages + 63) / 64) zero_word;
  has_bitmap = true;
}

-- False is -1.
unfoldable pub memory_init : Pmm → List MmapEntry → BootImage → Bool × Pmm
unfolding highest_address reserve_entries reserve_ranges
memory_init s entries boot =
    let pages = detected_pages entries in
    if ltb (identity_limit pages) (bitmap_start + bitmap_bytes pages)
    then (
      false,
      record s {
        used_pages = 0;
        allocation_failures = 0;
        total_pages = pages;
        bitmap_words = (pages + 63) / 64;
      },
    )
    else (true, reserve_ranges boot (reserve_entries (cleared s pages) entries))
