-- ===== src/Pmm/Page.antt =====
-- AllocPage, FreePage and GetFreeMemory of mm/PMem.c. An address is the number of its first byte,
-- and `none` is NULL.
use void_frame.Prelude.{
  ℕ, zero, suc, ◌+◌, ◌-◌, ◌*◌, ◌/◌, ◌%◌, not, ◌||◌, Option, none, some, ltb, leb, ◌==◌,
  if◌then◌else◌,
}
use void_frame.Prelude.Words.{add64, sub64, u64_mod}
use void_frame.Pmm.Word.{is_ones}
use void_frame.Pmm.State.{
  Pmm, word_at, mark_page_used, mark_page_free, is_page_free, find_first_free_bit, lowmem_pages,
  page_size,
}

-- The first loop: the words `word_idx .. word_idx + n`. It ends at a page past the memory, and
-- moves the hint past a word whose free page is low memory.
unfoldable pub search_up : Pmm → ℕ → ℕ → Option ℕ × Pmm
unfolding find_first_free_bit
search_up s zero word_idx = (none, s)
search_up s (suc n) word_idx =
    let word = word_at s.page_bitmap word_idx in
    let rest = search_up s n (word_idx + 1) in
    let past_low = search_up (record s { next_free_hint = (word_idx + 1) * 64 }) n (word_idx + 1) in
    if is_ones word then rest else elim (find_first_free_bit word) [
      | none ↦ rest
      | some bit_pos ↦
          let page_idx = word_idx * 64 + bit_pos in
          if leb s.total_pages page_idx
          then (none, s)
          else if ltb page_idx lowmem_pages
          then past_low
          else (some page_idx, s)
    ]

-- The second loop.
unfoldable pub search_low : Pmm → ℕ → ℕ → Option ℕ
unfolding find_first_free_bit
search_low s zero word_idx = none
search_low s (suc n) word_idx =
    let word = word_at s.page_bitmap word_idx in
    let rest = search_low s n (word_idx + 1) in
    if is_ones word then rest else elim (find_first_free_bit word) [
      | none ↦ rest
      | some bit_pos ↦
          let page_idx = word_idx * 64 + bit_pos in
          if ltb page_idx lowmem_pages then rest else some page_idx
    ]

-- What both loops do with the page that they find.
unfoldable pub commit_page : Pmm → ℕ → Option ℕ × Pmm
commit_page s page_idx =
    let marked = mark_page_used s page_idx in
    (
      some (page_idx * page_size % u64_mod),
      record marked {
        allocation_count = add64 marked.allocation_count 1;
        next_free_hint =
            if leb marked.total_pages (page_idx + 1) then lowmem_pages else page_idx + 1;
      },
    )

unfoldable pub fail_page : Pmm → Option ℕ × Pmm
fail_page s = (none, record s { allocation_failures = add64 s.allocation_failures 1 })

-- The warning at nine tenths, and the hint brought into range.
unfoldable pub watch_memory : Pmm → Pmm
watch_memory s =
    if ltb (s.total_pages * 9 % u64_mod / 10) s.used_pages
    then (if s.low_memory_watermark == 0
        then record s { low_memory_watermark = s.used_pages }
        else s)
    else s

unfoldable pub clamp_hint : Pmm → Pmm
clamp_hint s =
    let hint = if ltb s.next_free_hint lowmem_pages then lowmem_pages else s.next_free_hint in
    record s { next_free_hint = if leb s.total_pages hint then lowmem_pages else hint }

unfoldable pub after_search_low : Pmm → Option ℕ → Option ℕ × Pmm
unfolding commit_page fail_page
after_search_low s (some page_idx) = commit_page s page_idx
after_search_low s none = fail_page s

unfoldable pub after_search_up : ℕ → Option ℕ → Pmm → Option ℕ × Pmm
unfolding after_search_low search_low commit_page
after_search_up start_word (some page_idx) s = commit_page s page_idx
after_search_up start_word none s =
    after_search_low s (search_low s (start_word - lowmem_pages / 64) (lowmem_pages / 64))

unfoldable pub search_page : Pmm → Option ℕ × Pmm
unfolding search_up after_search_up
search_page s =
    let start_word = s.next_free_hint / 64 in
    let (found, s') = search_up s (s.bitmap_words - start_word) start_word in
    after_search_up start_word found s'

unfoldable pub alloc_page : Pmm → Option ℕ × Pmm
unfolding watch_memory clamp_hint search_page fail_page
alloc_page s =
    if not s.has_bitmap
    then (none, s)
    else if leb (sub64 s.total_pages 1) s.used_pages
    then fail_page s
    else search_page (clamp_hint (watch_memory s))

-- `none` is a null pointer.
unfoldable pub free_page : Pmm → Option ℕ → Pmm
free_page s none = s
free_page s (some addr) =
    let page_idx = addr / page_size in
    let marked = mark_page_free s page_idx in
    if addr == 0
      || (not (addr % page_size == 0) || (leb s.total_pages page_idx || is_page_free s page_idx))
    then s
    else record marked {
      free_count = add64 marked.free_count 1;
      next_free_hint =
          if ltb page_idx marked.next_free_hint then page_idx else marked.next_free_hint;
    }

unfoldable pub get_free_memory : Pmm → ℕ
get_free_memory s = sub64 s.total_pages s.used_pages * page_size % u64_mod
