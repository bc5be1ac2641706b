-- ===== src/Pmm/Range.antt =====
-- RangeIsFree, RangeSetUsed and RangeSetFree of mm/PMem.c: a run of pages, word by word.
use void_frame.Prelude.{
  ℕ, zero, suc, ◌+◌, ◌-◌, ◌/◌, ◌%◌, Bool, true, false, ltb, ◌==◌, if◌then◌else◌, set,
}
use void_frame.Prelude.Words.{add64, sub64}
use void_frame.Pmm.Word.{
  Word, ones, zero_word, shl, shr, word_and, word_or, word_not, is_zero, is_ones, popcount,
}
use void_frame.Pmm.State.{Pmm, word_at}

-- start_page + page_count - 1
abbrev pub end_bit : ℕ → ℕ → ℕ
end_bit start_page page_count = sub64 (add64 start_page page_count) 1

-- The masks: from a bit on, up to a bit, and both.
abbrev pub mask_from : ℕ → Word
mask_from start_offset = shl ones start_offset

abbrev pub mask_to : ℕ → Word
mask_to end_offset = shr ones (63 - end_offset)

abbrev pub mask_between : ℕ → ℕ → Word
mask_between start_offset end_offset = word_and (mask_to end_offset) (mask_from start_offset)

-- The loop over the full words `w .. w + n`.
unfoldable pub words_are_zero : Pmm → ℕ → ℕ → Bool
words_are_zero s zero w = true
words_are_zero s (suc n) w =
    let rest = words_are_zero s n (w + 1) in
    if is_zero (word_at s.page_bitmap w) then rest else false

unfoldable pub range_is_free : Pmm → ℕ → ℕ → Bool
unfolding words_are_zero
range_is_free s start_page page_count =
    let end = end_bit start_page page_count in
    let start_word = start_page / 64 in
    let end_word = end / 64 in
    let start_offset = start_page % 64 in
    let end_offset = end % 64 in
    let first = word_at s.page_bitmap start_word in
    let last = word_at s.page_bitmap end_word in
    if ltb s.total_pages (add64 start_page page_count)
    then false
    else if start_word == end_word
    then is_zero (word_and first (mask_between start_offset end_offset))
    else if is_zero (word_and first (mask_from start_offset))
    then (if words_are_zero s (end_word - (start_word + 1)) (start_word + 1)
        then is_zero (word_and last (mask_to end_offset))
        else false)
    else false

-- One partial word: page_bitmap[w] |= mask, with the count of pages brought along.
unfoldable pub set_word_used : Pmm → ℕ → Word → Pmm
set_word_used s w mask =
    let before = word_at s.page_bitmap w in
    let after = word_or before mask in
    record s {
      page_bitmap = set s.page_bitmap w after;
      used_pages = add64 s.used_pages (sub64 (popcount after) (popcount before));
    }

-- The loop over the full words.
unfoldable pub fill_words : Pmm → ℕ → ℕ → Pmm
fill_words s zero w = s
fill_words s (suc n) w =
    let before = word_at s.page_bitmap w in
    fill_words
      (if is_ones before then s else record s {
        page_bitmap = set s.page_bitmap w ones;
        used_pages = add64 s.used_pages (sub64 64 (popcount before));
      })
      n (w + 1)

unfoldable pub range_set_used : Pmm → ℕ → ℕ → Pmm
unfolding set_word_used fill_words
range_set_used s start_page page_count =
    let end = end_bit start_page page_count in
    let start_word = start_page / 64 in
    let end_word = end / 64 in
    if start_word == end_word
    then set_word_used s start_word (mask_between (start_page % 64) (end % 64))
    else (let s1 = set_word_used s start_word (mask_from (start_page % 64)) in
        let s2 = fill_words s1 (end_word - (start_word + 1)) (start_word + 1) in
        set_word_used s2 end_word (mask_to (end % 64)))

unfoldable pub set_word_free : Pmm → ℕ → Word → Pmm
set_word_free s w mask =
    let before = word_at s.page_bitmap w in
    let after = word_and before (word_not mask) in
    record s {
      page_bitmap = set s.page_bitmap w after;
      used_pages = sub64 s.used_pages (sub64 (popcount before) (popcount after));
    }

unfoldable pub clear_words : Pmm → ℕ → ℕ → Pmm
clear_words s zero w = s
clear_words s (suc n) w =
    let before = word_at s.page_bitmap w in
    clear_words
      (if is_zero before then s else record s {
        page_bitmap = set s.page_bitmap w zero_word;
        used_pages = sub64 s.used_pages (popcount before);
      })
      n (w + 1)

unfoldable pub range_set_free : Pmm → ℕ → ℕ → Pmm
unfolding set_word_free clear_words
range_set_free s start_page page_count =
    let end = end_bit start_page page_count in
    let start_word = start_page / 64 in
    let end_word = end / 64 in
    if start_word == end_word
    then set_word_free s start_word (mask_between (start_page % 64) (end % 64))
    else (let s1 = set_word_free s start_word (mask_from (start_page % 64)) in
        let s2 = clear_words s1 (end_word - (start_word + 1)) (start_word + 1) in
        set_word_free s2 end_word (mask_to (end % 64)))
