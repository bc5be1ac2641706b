-- ===== src/Pmm/Search.antt =====
-- The two loops of AllocPage: each finds a page whenever its words have one.
use void_frame.Prelude.{
  ℕ, zero, suc, ◌+◌, ◌*◌, ◌/◌, ◌%◌, ◌≤◌, ◌<◌, ◌≡◌, refl, inl, inr, ◌⊎◌, true, false, Option, none,
  some, ltb, leb, arith, Bool-cases,
}
use void_frame.Pmm.Word.{is_ones, ctz, word_not}
use void_frame.Pmm.State.{Pmm, word_at, lowmem_pages}
use void_frame.Pmm.Page.{search_up, search_low}
use void_frame.Pmm.Bits.{ctz-word_not, is_ones-bit}
use void_frame.Pmm.Bitmap.{IsValid, page_used}

-- A page that may be handed out.
pub record IsCandidate (s : Pmm) (p : ℕ) : Type 0 where
  pub above : lowmem_pages ≤ p
  pub inside : p < s.total_pages
  pub free : page_used s.page_bitmap p ≡ false

abbrev pub AllUsed : Pmm → ℕ → ℕ → Type 0
AllUsed s from to =
    (p : ℕ) → from ≤ p → p < to → p < s.total_pages → page_used s.page_bitmap p ≡ true

module _ {s : Pmm} (v : IsValid s) where
  -- A full word has no free page.
  full_word :
      (w p : ℕ)
      → w < s.bitmap_words
      → is_ones (word_at s.page_bitmap w) ≡ true
      → p / 64 ≡ w
      → page_used s.page_bitmap p ≡ true
  full_word w p h ones at =
      rw at (is_ones-bit (word_at s.page_bitmap w) (p % 64) (omega (arith, v.core.widths w h)) ones)

  -- In another word the page found is the lowest free one.
  first_free :
      (w : ℕ)
      → w < s.bitmap_words
      → is_ones (word_at s.page_bitmap w) ≡ false
      → let b = ctz (word_not (word_at s.page_bitmap w)) in
        (b < 64)
        × (page_used s.page_bitmap (w * 64 + b) ≡ false)
        × ((p : ℕ) → w * 64 ≤ p → p < w * 64 + b → page_used s.page_bitmap p ≡ true)
  first_free w h some_free =
      let (inside, free, below) = ctz-word_not (word_at s.page_bitmap w) some_free in
      let b = ctz (word_not (word_at s.page_bitmap w)) in
      let small : b < 64 = omega (arith, inside, v.core.widths w h) in
      let div : (w * 64 + b) / 64 ≡ w = omega arith in
      let rem : (w * 64 + b) % 64 ≡ b = omega arith in
      (
        small,
        rw (div, rem) free,
        λ p above lower.
            let here : p / 64 ≡ w = omega arith in rw here (below (p % 64) (omega arith)),
      )

  abbrev pub Searched : ℕ → Option ℕ × Pmm → Type 0
  Searched w (none, t) = (t ≡ s) × AllUsed s (w * 64) s.total_pages
  Searched w (some p, t) = (t ≡ s) × IsCandidate s p

  Searched-extend :
      (w : ℕ) (r : Option ℕ × Pmm)
      → ((p : ℕ) → w * 64 ≤ p → p < (w + 1) * 64 → page_used s.page_bitmap p ≡ true)
      → Searched (w + 1) r
      → Searched w r
  Searched-extend w (none, t) full (same, rest) = (
    same,
    λ p above below inside. elim (Bool-cases (ltb p ((w + 1) * 64))) [
      | inl here ↦ full p above (ground arith)
      | inr later ↦ rest p (ground arith) below inside
    ],
  )
  Searched-extend w (some p, t) full found = found

  pub search_up-Searched : (n w : ℕ) → w + n ≡ s.bitmap_words → 4 ≤ w → Searched w (search_up s n w)
  unfolding search_up
  search_up-Searched zero w e low =
      (refl, λ p above below inside. absurd (omega (arith, v.core.rounded)))
  search_up-Searched (suc n) w e low = elim (Bool-cases (is_ones (word_at s.page_bitmap w))) [
    | inl full ↦ rw full (
        Searched-extend w (search_up s n (w + 1))
          (λ p above below. full_word w p (omega arith) full (omega arith))
          (search_up-Searched n (w + 1) (omega arith) (omega arith)))
    | inr partial ↦
        let b = ctz (word_not (word_at s.page_bitmap w)) in
        let (small, free, below) = first_free w (omega arith) partial in
        elim (Bool-cases (leb s.total_pages (w * 64 + b))) [
          | inl past ↦
              rw (partial, past) (refl, λ p above lower inside. below p above (ground arith))
          | inr within ↦
              let high : ltb (w * 64 + b) lowmem_pages ≡ false = ground arith in
              rw (partial, within, high)
                (refl, record { above = ground arith; inside = ground arith; free = free })
        ]
  ]

  abbrev pub SearchedLow : ℕ → ℕ → Option ℕ → Type 0
  SearchedLow w to none = AllUsed s (w * 64) (to * 64)
  SearchedLow w to (some p) = IsCandidate s p

  SearchedLow-extend :
      (w to : ℕ) (r : Option ℕ)
      → ((p : ℕ) → w * 64 ≤ p → p < (w + 1) * 64 → page_used s.page_bitmap p ≡ true)
      → SearchedLow (w + 1) to r
      → SearchedLow w to r
  SearchedLow-extend w to none full rest = λ p above below inside.
      elim (Bool-cases (ltb p ((w + 1) * 64))) [
        | inl here ↦ full p above (ground arith)
        | inr later ↦ rest p (ground arith) below inside
      ]
  SearchedLow-extend w to (some p) full found = found

  pub search_low-SearchedLow :
      (n w to : ℕ)
      → w + n ≡ to
      → 4 ≤ w
      → ((to * 64 ≤ s.total_pages) ⊎ (to ≤ w))
      → SearchedLow w to (search_low s n w)
  unfolding search_low
  search_low-SearchedLow zero w to e low h = λ p above below inside. absurd (omega arith)
  search_low-SearchedLow (suc n) w to e low h =
      let room : to * 64 ≤ s.total_pages = elim h [ inl r ↦ r | inr r ↦ absurd (omega arith) ] in
      let inside_map : w < s.bitmap_words = omega (arith, v.core.rounded) in
      elim (Bool-cases (is_ones (word_at s.page_bitmap w))) [
        | inl full ↦ rw full (
            SearchedLow-extend w to (search_low s n (w + 1))
              (λ p above below. full_word w p inside_map full (omega arith))
              (search_low-SearchedLow n (w + 1) to (omega arith) (omega arith) (inl room)))
        | inr partial ↦
            let b = ctz (word_not (word_at s.page_bitmap w)) in
            let (small, free, below) = first_free w inside_map partial in
            let high : ltb (w * 64 + b) lowmem_pages ≡ false = ground arith in
            rw (partial, high) (record { above = omega arith; inside = omega arith; free = free })
      ]
