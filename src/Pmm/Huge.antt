-- ===== src/Pmm/Huge.antt =====
-- AllocHugePages and FreeHugePages of mm/PMem.c: runs of 2 MB pages.
use void_frame.Prelude.{
  ℕ, zero, suc, ◌+◌, ◌-◌, ◌*◌, ◌/◌, ◌%◌, not, ◌||◌, Option, none, some, ltb, leb, ◌==◌,
  if◌then◌else◌,
}
use void_frame.Prelude.Words.{add64, u64_mod}
use void_frame.Pmm.State.{Pmm, lowmem_pages, page_size}
use void_frame.Pmm.Range.{range_is_free, range_set_used, range_set_free}

abbrev pub huge_page_size : ℕ
huge_page_size = 2 * 1024 * 1024

abbrev pub pages_per_huge : ℕ
pages_per_huge = huge_page_size / page_size

-- HUGE_PAGE_ALIGN_UP(0x100000) / PAGE_SIZE
abbrev pub first_huge : ℕ
first_huge = (0x100000 + huge_page_size - 1) / huge_page_size * huge_page_size / page_size

abbrev pub pages_needed : ℕ → ℕ
pages_needed num_pages = num_pages * pages_per_huge % u64_mod

-- The loop over the starts of 2 MB pages. A start lies below the number of pages, so as many
-- rounds as there are pages are enough.
unfoldable pub search_huge : Pmm → ℕ → ℕ → ℕ → Option ℕ
search_huge s needed zero start = none
search_huge s needed (suc fuel) start =
    let rest = search_huge s needed fuel (add64 start pages_per_huge) in
    if leb (add64 start needed) s.total_pages
    then (if range_is_free s start needed then some start else rest)
    else none

-- What becomes of the state once the loop has ended.
unfoldable pub after_search_huge : Pmm → ℕ → Option ℕ → Option ℕ × Pmm
after_search_huge s needed none =
    (none, record s { allocation_failures = add64 s.allocation_failures 1 })
after_search_huge s needed (some start) =
    let marked = range_set_used s start needed in
    let hint = add64 start needed in
    (
      some (start * page_size % u64_mod),
      record marked {
        next_free_hint = if leb marked.total_pages hint then lowmem_pages else hint;
        huge_pages_allocated = add64 marked.huge_pages_allocated 1;
      },
    )

unfoldable pub alloc_huge_pages : Pmm → ℕ → Option ℕ × Pmm
unfolding search_huge after_search_huge
alloc_huge_pages s num_pages =
    let needed = pages_needed num_pages in
    after_search_huge s needed (search_huge s needed (suc s.total_pages) first_huge)

unfoldable pub free_huge_pages : Pmm → Option ℕ → ℕ → Pmm
free_huge_pages s none num_pages = s
free_huge_pages s (some addr) num_pages =
    let start_page = addr / page_size in
    let total_to_free = pages_needed num_pages in
    let cleared = range_set_free s start_page total_to_free in
    if addr == 0
      || (num_pages == 0
          || (not (addr % huge_page_size == 0)
              || ltb s.total_pages (add64 start_page total_to_free)))
    then s
    else record cleared {
      next_free_hint =
          if ltb start_page cleared.next_free_hint then start_page else cleared.next_free_hint;
    }
