-- ===== src/Pmm/Runs.antt =====
-- The loops over full words, and the three range functions as a whole.
use void_frame.Prelude.{
  ℕ, zero, suc, ◌+◌, ◌-◌, ◌*◌, ◌/◌, ◌%◌, ◌≤◌, ◌<◌, ◌≡◌, refl, inl, inr, true, false, ◌==◌,
  if◌then◌else◌, arith, set, Bool-cases,
}
use void_frame.Prelude.Words.{add64, sub64}
use void_frame.Pmm.Word.{word_bits, ones, zero_word, is_zero, is_ones, popcount}
use void_frame.Pmm.State.{Pmm, word_at}
use void_frame.Pmm.Range.{
  end_bit, mask_from, mask_to, mask_between, set_word_used, fill_words, range_set_used,
  set_word_free, clear_words, range_set_free,
}
use void_frame.Pmm.Bits.{
  is_zero-bit, is_ones-bit, bit-replicate, bit-zero_word, popcount-ones, popcount-zero_word,
  popcount-le,
}
use void_frame.Pmm.Bitmap.{IsValid}
use void_frame.Pmm.Sets.{
  within, Sets, Sets-trans, Sets-nothing, popcount-le-used, used_bound, set_word-Sets,
}
use void_frame.Pmm.Regions.{
  Sets-cast, set_word_used-Sets, set_word_free-Sets, mask_from-IsMask, mask_to-IsMask,
  mask_between-IsMask,
}

abbrev fill_one : Pmm → ℕ → Pmm
fill_one s w =
    let before = word_at s.page_bitmap w in
    if is_ones before then s else record s {
      page_bitmap = set s.page_bitmap w ones;
      used_pages = add64 s.used_pages (sub64 64 (popcount before));
    }

-- A word that is full already is a run that is set.
full-Sets :
    {s : Pmm} (w : ℕ)
    → IsValid s
    → w < s.bitmap_words
    → is_ones (word_at s.page_bitmap w) ≡ true
    → Sets true (w * 64) ((w + 1) * 64) s s
full-Sets {s} w v h full = record {
  bits = λ p. elim (Bool-cases (within (w * 64) ((w + 1) * 64) p)) [
    | inl hit ↦
        let here : p / 64 ≡ w = ground arith in
        let one =
          is_ones-bit (word_at s.page_bitmap w) (p % 64) (omega (arith, v.core.widths w h)) full in
        rw (hit, here) one
    | inr miss ↦ rw miss
  ];
  words = refl;
  total = refl;
  valid = v;
}

empty-Sets :
    {s : Pmm} (w : ℕ)
    → IsValid s
    → is_zero (word_at s.page_bitmap w) ≡ true
    → Sets false (w * 64) ((w + 1) * 64) s s
empty-Sets {s} w v empty = record {
  bits = λ p. elim (Bool-cases (within (w * 64) ((w + 1) * 64) p)) [
    | inl hit ↦
        let here : p / 64 ≡ w = ground arith in
        rw (hit, here) (is_zero-bit (word_at s.page_bitmap w) (p % 64) empty)
    | inr miss ↦ rw miss
  ];
  words = refl;
  total = refl;
  valid = v;
}

fill_one-Sets :
    {s : Pmm} (w : ℕ)
    → IsValid s
    → (w + 1) * 64 ≤ s.total_pages
    → Sets true (w * 64) ((w + 1) * 64) s (fill_one s w)
fill_one-Sets {s} w v room =
    let h : w < s.bitmap_words = omega (arith, v.core.rounded) in
    elim (Bool-cases (is_ones (word_at s.page_bitmap w))) [
      | inl full ↦ rw full (full-Sets w v h full)
      | inr partial ↦ rw partial (
          Sets-cast (w * 64) ((w + 1) * 64) (omega arith) (omega arith) (
            set_word-Sets v true w 0 63 _ ones (omega arith) (omega arith) (omega arith) refl
              (λ i p. ground (arith, bit-replicate word_bits i p))
              (omega (
                arith,
                popcount-le-used w v h,
                used_bound v,
                v.core.rounded,
                v.core.limit,
                v.core.widths w h,
                popcount-le (word_at s.page_bitmap w),
                popcount-ones,
              ))))
    ]

fill_words-Sets :
    (n w : ℕ) {s : Pmm}
    → IsValid s
    → (w + n) * 64 ≤ s.total_pages
    → Sets true (w * 64) ((w + n) * 64) s (fill_words s n w)
unfolding fill_words
fill_words-Sets zero w v room =
    Sets-cast (w * 64) ((w + 0) * 64) refl (omega arith) (Sets-nothing (w * 64) v)
fill_words-Sets (suc n) w {s} v room =
    let first = fill_one-Sets w v (omega arith) in
    Sets-trans (w * 64) ((w + 1) * 64) ((w + suc n) * 64) (omega arith) (omega arith) first (
      Sets-cast ((w + 1) * 64) ((w + suc n) * 64) refl (omega arith)
        (fill_words-Sets n (w + 1) first.valid (omega (arith, first.total))))

abbrev clear_one : Pmm → ℕ → Pmm
clear_one s w =
    let before = word_at s.page_bitmap w in
    if is_zero before then s else record s {
      page_bitmap = set s.page_bitmap w zero_word;
      used_pages = sub64 s.used_pages (popcount before);
    }

clear_one-Sets :
    {s : Pmm} (w : ℕ)
    → IsValid s
    → (w + 1) * 64 ≤ s.total_pages
    → Sets false (w * 64) ((w + 1) * 64) s (clear_one s w)
clear_one-Sets {s} w v room =
    let h : w < s.bitmap_words = omega (arith, v.core.rounded) in
    elim (Bool-cases (is_zero (word_at s.page_bitmap w))) [
      | inl empty ↦ rw empty (empty-Sets w v empty)
      | inr partial ↦ rw partial (
          Sets-cast (w * 64) ((w + 1) * 64) (omega arith) (omega arith) (
            set_word-Sets v false w 0 63 _ zero_word (omega arith) (omega arith) (omega arith) refl
              (λ i p. ground (arith, bit-zero_word i))
              (omega (
                arith,
                popcount-le-used w v h,
                used_bound v,
                v.core.rounded,
                v.core.limit,
                popcount-zero_word,
              ))))
    ]

clear_words-Sets :
    (n w : ℕ) {s : Pmm}
    → IsValid s
    → (w + n) * 64 ≤ s.total_pages
    → Sets false (w * 64) ((w + n) * 64) s (clear_words s n w)
unfolding clear_words
clear_words-Sets zero w v room =
    Sets-cast (w * 64) ((w + 0) * 64) refl (omega arith) (Sets-nothing (w * 64) v)
clear_words-Sets (suc n) w {s} v room =
    let first = clear_one-Sets w v (omega arith) in
    Sets-trans (w * 64) ((w + 1) * 64) ((w + suc n) * 64) (omega arith) (omega arith) first (
      Sets-cast ((w + 1) * 64) ((w + suc n) * 64) refl (omega arith)
        (clear_words-Sets n (w + 1) first.valid (omega (arith, first.total))))

-- The run of the first word, the full words, and the last word.
module _ {s : Pmm} (v : IsValid s) (start count : ℕ) (some_pages : 0 < count)
    (inside : start + count ≤ s.total_pages) where
  end_lem : end_bit start count ≡ start + count - 1
  end_lem = omega (arith, v.core.limit)

  last : ℕ
  last = start + count - 1

  -- RangeSetUsed sets the bits of the pages of the run and no other, and counts them.
  pub range_set_used-Sets : Sets true start (start + count) s (range_set_used s start count)
  unfolding range_set_used last
  range_set_used-Sets = rw end_lem (elim (Bool-cases (start / 64 == last / 64)) [
    | inl same ↦ rw same (
        Sets-cast start (start + count) (omega arith) (ground arith) (
          set_word_used-Sets v (start / 64) (start % 64) (last % 64)
            (mask_between (start % 64) (last % 64)) (ground arith) (ground arith) (omega arith)
            (mask_between-IsMask (start % 64) (last % 64) (omega arith))))
    | inr apart ↦ rw apart (parts (ground arith))
  ])
    where
      sw : ℕ
      sw = start / 64

      ew : ℕ
      ew = last / 64

      parts :
          sw < ew
          → Sets true start (start + count) s (
              set_word_used
                (fill_words (set_word_used s sw (mask_from (start % 64))) (ew - (sw + 1)) (sw + 1))
                ew
                (mask_to (last % 64)))
      parts less =
          let first = Sets-cast start ((sw + 1) * 64) (omega arith) (omega arith) (
            set_word_used-Sets v sw (start % 64) 63 (mask_from (start % 64)) (omega arith)
              (omega arith) (omega arith) (mask_from-IsMask (start % 64))) in
          let middle =
            Sets-cast ((sw + 1) * 64) (ew * 64) refl (omega arith)
              (fill_words-Sets (ew - (sw + 1)) (sw + 1) first.valid (omega (arith, first.total))) in
          let final = Sets-cast (ew * 64) (start + count) (omega arith) (omega arith) (
            set_word_used-Sets middle.valid ew 0 (last % 64) (mask_to (last % 64))
              (omega (arith, first.total, middle.total)) (omega arith) (omega arith)
              (mask_to-IsMask (last % 64) (omega arith))) in
          Sets-trans start ((sw + 1) * 64) (start + count) (omega arith) (omega arith) first (
            Sets-trans ((sw + 1) * 64) (ew * 64) (start + count) (omega arith) (omega arith) middle
              final)

  -- RangeSetFree clears the bits of the pages of the run and no other, and counts them.
  pub range_set_free-Sets : Sets false start (start + count) s (range_set_free s start count)
  unfolding range_set_free last
  range_set_free-Sets = rw end_lem (elim (Bool-cases (start / 64 == last / 64)) [
    | inl same ↦ rw same (
        Sets-cast start (start + count) (omega arith) (ground arith) (
          set_word_free-Sets v (start / 64) (start % 64) (last % 64)
            (mask_between (start % 64) (last % 64)) (ground arith) (ground arith) (omega arith)
            (mask_between-IsMask (start % 64) (last % 64) (omega arith))))
    | inr apart ↦ rw apart (parts (ground arith))
  ])
    where
      sw : ℕ
      sw = start / 64

      ew : ℕ
      ew = last / 64

      parts :
          sw < ew
          → Sets false start (start + count) s (
              set_word_free
                (clear_words (set_word_free s sw (mask_from (start % 64))) (ew - (sw + 1)) (sw + 1))
                ew
                (mask_to (last % 64)))
      parts less =
          let first = Sets-cast start ((sw + 1) * 64) (omega arith) (omega arith) (
            set_word_free-Sets v sw (start % 64) 63 (mask_from (start % 64)) (omega arith)
              (omega arith) (omega arith) (mask_from-IsMask (start % 64))) in
          let middle =
            Sets-cast ((sw + 1) * 64) (ew * 64) refl (omega arith) (
              clear_words-Sets (ew - (sw + 1)) (sw + 1) first.valid (omega (arith, first.total))) in
          let final = Sets-cast (ew * 64) (start + count) (omega arith) (omega arith) (
            set_word_free-Sets middle.valid ew 0 (last % 64) (mask_to (last % 64))
              (omega (arith, first.total, middle.total)) (omega arith) (omega arith)
              (mask_to-IsMask (last % 64) (omega arith))) in
          Sets-trans start ((sw + 1) * 64) (start + count) (omega arith) (omega arith) first (
            Sets-trans ((sw + 1) * 64) (ew * 64) (start + count) (omega arith) (omega arith) middle
              final)
