-- ===== src/Pmm/Mark.antt =====
-- MarkPageUsed, MarkPageFree and IsPageFree on a valid bitmap.
use void_frame.Prelude.{ℕ, ◌+◌, ◌-◌, ◌*◌, ◌/◌, ◌%◌, ◌≤◌, ◌<◌, ◌≡◌, true, false, not, arith}
use void_frame.Prelude.Words.{add64, sub64}
use void_frame.Pmm.Word.{word_bits, one, shl, word_and, is_zero}
use void_frame.Pmm.State.{Pmm, word_at, mark_page_used, mark_page_free, is_page_free, out_of_range}
use void_frame.Pmm.Bits.{word_or-shl-one, word_and-word_not-shl-one, is_zero-word_and-shl-one}
use void_frame.Pmm.Bitmap.{
  IsValid, page_used, set_page, word_inside, word_width, popcount_all-le, used_pos,
}

module _ {s : Pmm} (v : IsValid s) (p : ℕ) (inside : p < s.total_pages) where
  in_range : out_of_range s p ≡ false
  in_range = ground (arith, v.mapped, word_inside v.core p inside)

  tested :
      is_zero (word_and (word_at s.page_bitmap (p / 64)) (shl one (p % 64)))
      ≡ not (page_used s.page_bitmap p)
  tested =
      is_zero-word_and-shl-one (word_at s.page_bitmap (p / 64)) (p % 64)
        (word_width v.core p inside) (omega arith)

  used_small : s.used_pages ≤ word_bits * s.bitmap_words
  used_small = omega (
    arith,
    v.core.counted,
    v.core.size,
    popcount_all-le s.page_bitmap (λ w h. v.core.widths w (omega (arith, v.core.size))),
  )

  -- On a valid bitmap IsPageFree tells whether the page's bit is clear.
  pub is_page_free-eq : is_page_free s p ≡ not (page_used s.page_bitmap p)
  unfolding is_page_free
  is_page_free-eq = rw (in_range, tested)

  pub mark_page_used-eq :
      page_used s.page_bitmap p ≡ false
      → mark_page_used s p
        ≡ record s { page_bitmap = set_page s.page_bitmap p true; used_pages = s.used_pages + 1 }
  unfolding mark_page_used
  mark_page_used-eq free =
      let more : add64 s.used_pages 1 ≡ s.used_pages + 1 =
        omega (arith, used_small, v.core.rounded, v.core.limit) in
      let written =
        word_or-shl-one (word_at s.page_bitmap (p / 64)) (p % 64) (word_width v.core p inside)
          (omega arith) in
      rw (in_range, tested, free, more, written)

  -- A page that is in use stays as it is.
  pub mark_page_used-again : page_used s.page_bitmap p ≡ true → mark_page_used s p ≡ s
  unfolding mark_page_used
  mark_page_used-again taken = rw (in_range, tested, taken)

  pub mark_page_free-eq :
      page_used s.page_bitmap p ≡ true
      → mark_page_free s p
        ≡ record s { page_bitmap = set_page s.page_bitmap p false; used_pages = s.used_pages - 1 }
  unfolding mark_page_free
  mark_page_free-eq taken =
      let less : sub64 s.used_pages 1 ≡ s.used_pages - 1 =
        omega (arith, used_small, used_pos v.core p inside taken, v.core.rounded, v.core.limit) in
      let written =
        word_and-word_not-shl-one (word_at s.page_bitmap (p / 64)) (p % 64)
          (word_width v.core p inside) (omega arith) in
      rw (in_range, tested, taken, less, written)
