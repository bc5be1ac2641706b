-- ===== src/Pmm/FreeRuns.antt =====
-- RangeIsFree tells whether every page of a run is free.
use void_frame.Prelude.{
  ℕ, zero, suc, ◌+◌, ◌-◌, ◌*◌, ◌/◌, ◌%◌, ◌≤◌, ◌<◌, ◌≡◌, refl, sym, ◌∙◌, ◌↔◌, inl, inr, Bool, true,
  false, ltb, ◌==◌, if◌then◌else◌, arith, Bool-cases,
}
use void_frame.Prelude.Words.{add64}
use void_frame.Pmm.Word.{bit, word_and, is_zero}
use void_frame.Pmm.State.{Pmm, word_at}
use void_frame.Pmm.Range.{end_bit, mask_from, mask_to, mask_between, words_are_zero, range_is_free}
use void_frame.Pmm.Bits.{is_zero-bit, is_zero_of_bits}
use void_frame.Pmm.Bitmap.{IsValid, page_used}
use void_frame.Pmm.Sets.{within}
use void_frame.Pmm.Regions.{masked_zero, mask_from-IsMask, mask_to-IsMask, mask_between-IsMask}

-- Every page of the run is free.
abbrev pub AllFree : Pmm → ℕ → ℕ → Type 0
AllFree s from to = (p : ℕ) → within from to p ≡ true → page_used s.page_bitmap p ≡ false

AllFree_join :
    (s : Pmm) (from mid to : ℕ) → AllFree s from mid → AllFree s mid to → AllFree s from to
AllFree_join s from mid to below above p h = elim (Bool-cases (ltb p mid)) [
  | inl lower ↦ below p (ground arith)
  | inr higher ↦ above p (ground arith)
]

AllFree_part :
    (s : Pmm) (from to from' to' : ℕ)
    → from ≤ from'
    → to' ≤ to
    → AllFree s from to
    → AllFree s from' to'
AllFree_part s from to from' to' h k free p i = free p (ground arith)

word-AllFree :
    {s : Pmm} (w : ℕ)
    → IsValid s
    → w < s.bitmap_words
    → (is_zero (word_at s.page_bitmap w) ≡ true) ↔ AllFree s (w * 64) ((w + 1) * 64)
word-AllFree {s} w v h = (to, from)
  where
    to : is_zero (word_at s.page_bitmap w) ≡ true → AllFree s (w * 64) ((w + 1) * 64)
    to z p i =
        let here : p / 64 ≡ w = ground arith in
        rw here (is_zero-bit (word_at s.page_bitmap w) (p % 64) z)

    from : AllFree s (w * 64) ((w + 1) * 64) → is_zero (word_at s.page_bitmap w) ≡ true
    from free = is_zero_of_bits (word_at s.page_bitmap w) λ i q.
        let small : i < 64 = omega (arith, v.core.widths w h) in
        let div : (w * 64 + i) / 64 ≡ w = omega arith in
        let rem : (w * 64 + i) % 64 ≡ i = omega arith in
        let at : page_used s.page_bitmap (w * 64 + i) ≡ bit (word_at s.page_bitmap w) i =
          rw (div, rem) in
        sym at ∙ free (w * 64 + i) (ground arith)

words_are_zero-AllFree :
    {s : Pmm} (n w : ℕ)
    → IsValid s
    → w + n ≤ s.bitmap_words
    → (words_are_zero s n w ≡ true) ↔ AllFree s (w * 64) ((w + n) * 64)
unfolding words_are_zero
words_are_zero-AllFree zero w v h = (λ e p i. absurd (ground arith), λ free. refl)
words_are_zero-AllFree {s} (suc n) w v h = elim (Bool-cases (is_zero (word_at s.page_bitmap w))) [
  | inl z ↦ rw z (
    λ e.
        AllFree_join s (w * 64) ((w + 1) * 64) ((w + suc n) * 64)
          ((word-AllFree w v (omega arith)).0 z)
          (AllFree_part s ((w + 1) * 64) ((w + 1 + n) * 64) ((w + 1) * 64) ((w + suc n) * 64)
            (omega arith) (omega arith) ((words_are_zero-AllFree n (w + 1) v (omega arith)).0 e)),
    λ free. (words_are_zero-AllFree n (w + 1) v (omega arith)).1 (
        AllFree_part s (w * 64) ((w + suc n) * 64) ((w + 1) * 64) ((w + 1 + n) * 64) (omega arith)
          (omega arith) free),
  )
  | inr nz ↦ rw nz (
    λ e. absurd (clash e),
    λ free. absurd (
        clash (
          sym nz
          ∙ (word-AllFree w v (omega arith)).1 (
              AllFree_part s (w * 64) ((w + suc n) * 64) (w * 64) ((w + 1) * 64) (omega arith)
                (omega arith) free))),
  )
]
  where
    clash : false ≡ true → ⊥
    clash e = cc

module _ {s : Pmm} (v : IsValid s) (start count : ℕ) (some_pages : 0 < count)
    (inside : start + count ≤ s.total_pages) where
  last : ℕ
  last = start + count - 1

  in_one_word :
      start / 64 ≡ last / 64
      → (is_zero
            (word_and (word_at s.page_bitmap (start / 64)) (mask_between (start % 64) (last % 64)))
          ≡ true)
        ↔ AllFree s start (start + count)
  unfolding last
  in_one_word same =
      let start_eq : start / 64 * 64 + start % 64 ≡ start = omega arith in
      let end_eq : start / 64 * 64 + last % 64 + 1 ≡ start + count = omega arith in
      let masked =
        masked_zero v (start / 64) (start % 64) (last % 64) (mask_between (start % 64) (last % 64))
          (omega arith) (omega arith) (omega arith)
          (mask_between-IsMask (start % 64) (last % 64) (omega arith)) in
      rw (start_eq, end_eq) at masked

  first_part :
      start / 64 < last / 64
      → (is_zero (word_and (word_at s.page_bitmap (start / 64)) (mask_from (start % 64))) ≡ true)
        ↔ AllFree s start ((start / 64 + 1) * 64)
  unfolding last
  first_part less =
      let start_eq : start / 64 * 64 + start % 64 ≡ start = omega arith in
      let end_eq : start / 64 * 64 + 63 + 1 ≡ (start / 64 + 1) * 64 = omega arith in
      let masked =
        masked_zero v (start / 64) (start % 64) 63 (mask_from (start % 64)) (omega arith)
          (omega arith) (omega arith) (mask_from-IsMask (start % 64)) in
      rw (start_eq, end_eq) at masked

  last_part :
      (is_zero (word_and (word_at s.page_bitmap (last / 64)) (mask_to (last % 64))) ≡ true)
      ↔ AllFree s (last / 64 * 64) (start + count)
  unfolding last
  last_part =
      let start_eq : last / 64 * 64 + 0 ≡ last / 64 * 64 = omega arith in
      let end_eq : last / 64 * 64 + last % 64 + 1 ≡ start + count = omega arith in
      let masked =
        masked_zero v (last / 64) 0 (last % 64) (mask_to (last % 64)) (omega arith) (omega arith)
          (omega arith) (mask_to-IsMask (last % 64) (omega arith)) in
      rw (start_eq, end_eq) at masked

  middle_part :
      start / 64 < last / 64
      → (words_are_zero s (last / 64 - (start / 64 + 1)) (start / 64 + 1) ≡ true)
        ↔ AllFree s ((start / 64 + 1) * 64) (last / 64 * 64)
  unfolding last
  middle_part less =
      let end_eq : start / 64 + 1 + (last / 64 - (start / 64 + 1)) ≡ last / 64 = omega arith in
      let words =
        words_are_zero-AllFree (last / 64 - (start / 64 + 1)) (start / 64 + 1) v
          (omega (arith, v.core.rounded)) in
      rw end_eq at words

  abbrev decision : Bool
  unfolding last
  decision =
      if start / 64 == last / 64
      then is_zero
          (word_and (word_at s.page_bitmap (start / 64)) (mask_between (start % 64) (last % 64)))
      else if is_zero (word_and (word_at s.page_bitmap (start / 64)) (mask_from (start % 64)))
      then (if words_are_zero s (last / 64 - (start / 64 + 1)) (start / 64 + 1)
          then is_zero (word_and (word_at s.page_bitmap (last / 64)) (mask_to (last % 64)))
          else false)
      else false

  range_is_free-eq : range_is_free s start count ≡ decision
  unfolding range_is_free last
  range_is_free-eq =
      let fits : ltb s.total_pages (add64 start count) ≡ false = ground (arith, v.core.limit) in
      let end_eq : end_bit start count ≡ start + count - 1 = omega (arith, v.core.limit) in
      rw (fits, end_eq)

  to : decision ≡ true → AllFree s start (start + count)
  unfolding last
  to e = elim (Bool-cases (start / 64 == last / 64)) [
    | inl same ↦ (in_one_word (ground arith)).0 (ground arith)
    | inr apart ↦
        let less : start / 64 < last / 64 = ground arith in
        AllFree_join s start ((start / 64 + 1) * 64) (start + count)
          ((first_part less).0 (ground arith))
          (AllFree_join s ((start / 64 + 1) * 64) (last / 64 * 64) (start + count)
            ((middle_part less).0 (ground arith)) (last_part.0 (ground arith)))
  ]

  from : AllFree s start (start + count) → decision ≡ true
  unfolding last
  from free = elim (Bool-cases (start / 64 == last / 64)) [
    | inl same ↦ rw same ((in_one_word (ground arith)).1 free)
    | inr apart ↦
        let less : start / 64 < last / 64 = ground arith in
        let first = (first_part less).1 (
          AllFree_part s start (start + count) start ((start / 64 + 1) * 64) (omega arith)
            (omega arith) free) in
        let middle = (middle_part less).1 (
          AllFree_part s start (start + count) ((start / 64 + 1) * 64) (last / 64 * 64)
            (omega arith) (omega arith) free) in
        let final = last_part.1 (
          AllFree_part s start (start + count) (last / 64 * 64) (start + count) (omega arith)
            (omega arith) free) in
        rw (apart, first, middle, final)
  ]

  -- On a run that lies in the memory and is not empty RangeIsFree is true exactly when every page
  -- of the run is free.
  pub range_is_free-AllFree : (range_is_free s start count ≡ true) ↔ AllFree s start (start + count)
  range_is_free-AllFree = (λ e. to (sym range_is_free-eq ∙ e), λ free. range_is_free-eq ∙ from free)
