-- ===== src/Pmm/State.antt =====
-- The state of mm/PMem.c and the operations on one bit. The bitmap is an array of words; a read
-- past its end gives a word of no bits.
use void_frame.Prelude.{
  ℕ, ◌*◌, ◌/◌, ◌%◌, Bool, false, not, ◌||◌, Option, none, some, List, [], leb, if◌then◌else◌,
  get_or, set,
}
use void_frame.Prelude.Words.{add64, sub64}
use void_frame.Pmm.Word.{Word, one, shl, word_and, word_or, word_not, is_zero, is_ones, ctz}

abbrev pub page_size : ℕ
page_size = 4096

abbrev pub max_supported_memory : ℕ
max_supported_memory = 128 * 1024 * 1024 * 1024

abbrev pub max_pages : ℕ
max_pages = max_supported_memory / page_size

-- The pages below 1 MB.
abbrev pub lowmem_pages : ℕ
lowmem_pages = 0x100000 / page_size

-- `has_bitmap` says that `page_bitmap` is not null.
pub record Pmm : Type 0 where
  pub page_bitmap : List Word
  pub has_bitmap : Bool
  pub bitmap_words : ℕ
  pub total_pages : ℕ
  pub used_pages : ℕ
  pub next_free_hint : ℕ
  pub low_memory_watermark : ℕ
  pub allocation_count : ℕ
  pub free_count : ℕ
  pub allocation_failures : ℕ
  pub huge_pages_allocated : ℕ

abbrev pub word_at : List Word → ℕ → Word
word_at bm w = get_or bm w []

abbrev pub put_word : Pmm → ℕ → Word → Pmm
put_word s w v = record s { page_bitmap = set s.page_bitmap w v }

-- The safety checks of MarkPageUsed, MarkPageFree and IsPageFree.
abbrev pub out_of_range : Pmm → ℕ → Bool
out_of_range s page_idx =
    leb s.total_pages page_idx || (not s.has_bitmap || leb s.bitmap_words (page_idx / 64))

unfoldable pub mark_page_used : Pmm → ℕ → Pmm
mark_page_used s page_idx =
    let word = word_at s.page_bitmap (page_idx / 64) in
    let mask = shl one (page_idx % 64) in
    if out_of_range s page_idx
    then s
    else if is_zero (word_and word mask)
    then record s {
      page_bitmap = set s.page_bitmap (page_idx / 64) (word_or word mask);
      used_pages = add64 s.used_pages 1;
    }
    else s

unfoldable pub mark_page_free : Pmm → ℕ → Pmm
mark_page_free s page_idx =
    let word = word_at s.page_bitmap (page_idx / 64) in
    let mask = shl one (page_idx % 64) in
    if out_of_range s page_idx then s else if is_zero (word_and word mask) then s else record s {
      page_bitmap = set s.page_bitmap (page_idx / 64) (word_and word (word_not mask));
      used_pages = sub64 s.used_pages 1;
    }

unfoldable pub is_page_free : Pmm → ℕ → Bool
is_page_free s page_idx =
    let word = word_at s.page_bitmap (page_idx / 64) in
    if out_of_range s page_idx then false else is_zero (word_and word (shl one (page_idx % 64)))

-- -1 is `none`.
unfoldable pub find_first_free_bit : Word → Option ℕ
find_first_free_bit word = if is_ones word then none else some (ctz (word_not word))
