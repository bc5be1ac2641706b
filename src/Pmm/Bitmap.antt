-- ===== src/Pmm/Bitmap.antt =====
-- The bitmap as a predicate on pages, its invariant, and the operations on one page.
use void_frame.Prelude.{
  ℕ, zero, suc, ◌+◌, ◌-◌, ◌*◌, ◌/◌, ◌%◌, ◌≤◌, ◌<◌, ◌≡◌, ap, ◌∙◌, inl, inr, Bool, true, false, List,
  [], ◌∷◌, ◌==◌, if◌then◌else◌, arith, length, set, length-set, get_or-set_self, get_or-set_ne,
  Bool-cases,
}
use void_frame.Pmm.Word.{Word, word_bits, bit, popcount}
use void_frame.Pmm.State.{Pmm, word_at, max_pages}
use void_frame.Pmm.Bits.{bit-set, popcount-le, popcount-set-true, popcount-set-false}

-- The bit of the page `p` is set.
abbrev pub page_used : List Word → ℕ → Bool
page_used bm p = bit (word_at bm (p / 64)) (p % 64)

unfoldable pub popcount_all : List Word → ℕ
popcount_all [] = 0
popcount_all (w ∷ bm) = popcount w + popcount_all bm

-- The bitmap has a bit for each page, those past the last page are clear, and `used` counts the
-- bits that are set.
pub record Core (bm : List Word) (words total used : ℕ) : Type 0 where
  pub size : length bm ≡ words
  pub rounded : words ≡ (total + 63) / 64
  pub widths : (w : ℕ) → w < words → length (word_at bm w) ≡ word_bits
  pub counted : used ≡ popcount_all bm
  pub limit : total ≤ max_pages
  pub nonempty : 0 < total
  pub beyond : (p : ℕ) → total ≤ p → page_used bm p ≡ false

pub record IsValid (s : Pmm) : Type 0 where
  pub mapped : s.has_bitmap ≡ true
  pub core : Core s.page_bitmap s.bitmap_words s.total_pages s.used_pages

pub popcount_all-set :
    (bm : List Word) (w : ℕ) (v : Word)
    → w < length bm
    → popcount_all (set bm w v) + popcount (word_at bm w) ≡ popcount_all bm + popcount v
unfolding popcount_all
popcount_all-set [] w v h = absurd (omega arith)
popcount_all-set (x ∷ bm) zero v h = omega arith
popcount_all-set (x ∷ bm) (suc w) v h = omega (arith, popcount_all-set bm w v (omega arith))

pub popcount_all-le :
    (bm : List Word)
    → ((w : ℕ) → w < length bm → length (word_at bm w) ≡ word_bits)
    → popcount_all bm ≤ word_bits * length bm
unfolding popcount_all
popcount_all-le [] h = omega arith
popcount_all-le (x ∷ bm) h =
    omega
      (arith, popcount-le x, h 0 (omega arith), popcount_all-le bm (λ w p. h (suc w) (omega arith)))

-- The bitmap with the bit of the page `p` set to `b`.
abbrev pub set_page : List Word → ℕ → Bool → List Word
set_page bm p b = set bm (p / 64) (set (word_at bm (p / 64)) (p % 64) b)

module _ {bm : List Word} {words total used : ℕ} (c : Core bm words total used) (p : ℕ)
    (inside : p < total) where
  pub word_inside : p / 64 < words
  word_inside = omega (arith, c.rounded)

  pub word_width : length (word_at bm (p / 64)) ≡ word_bits
  word_width = c.widths (p / 64) word_inside

  pub page_used-set_page :
      (b : Bool) (q : ℕ) → page_used (set_page bm p b) q ≡ (if q == p then b else page_used bm q)
  page_used-set_page b q = elim (Bool-cases (q / 64 == p / 64)) [
    | inl same ↦
        let e : q / 64 ≡ p / 64 = ground arith in
        let here =
          get_or-set_self bm (p / 64) (set (word_at bm (p / 64)) (p % 64) b) []
            (omega (arith, word_inside, c.size)) in
        let written =
          bit-set (word_at bm (p / 64)) (p % 64) (q % 64) b (omega (arith, word_width)) in
        rw (e, here, written)
          (elim (Bool-cases (q == p)) [
            | inl hit ↦
                let same_bit : (q % 64 == p % 64) ≡ true = ground arith in rw (hit, same_bit)
            | inr miss ↦
                let other_bit : (q % 64 == p % 64) ≡ false = ground arith in rw (miss, other_bit)
          ])
    | inr apart ↦
        let miss : (q == p) ≡ false = ground arith in
        rw miss
          (ap (λ w. bit w (q % 64)) (get_or-set_ne bm (p / 64) (q / 64) _ [] (λ e. ground arith)))
  ]

  set_page-widths :
      (b : Bool) (w : ℕ) → w < words → length (word_at (set_page bm p b) w) ≡ word_bits
  set_page-widths b w h = elim (Bool-cases (w == p / 64)) [
    | inl same ↦
        let e : w ≡ p / 64 = ground arith in
        rw
          (
            e,
            get_or-set_self bm (p / 64) (set (word_at bm (p / 64)) (p % 64) b) []
                (omega (arith, word_inside, c.size)),
          )
          (length-set (word_at bm (p / 64)) (p % 64) b ∙ word_width)
    | inr apart ↦
        rw
          (get_or-set_ne bm (p / 64) w (set (word_at bm (p / 64)) (p % 64) b) []
            (λ e. ground arith))
          (c.widths w h)
  ]

  set_page-beyond : (b : Bool) (q : ℕ) → total ≤ q → page_used (set_page bm p b) q ≡ false
  set_page-beyond b q h = ground (arith, page_used-set_page b q, c.beyond q)

  -- Taking a free page, and giving back a used one, keep the invariant.
  pub take-Core : page_used bm p ≡ false → Core (set_page bm p true) words total (used + 1)
  take-Core free = record {
    size = length-set bm (p / 64) _ ∙ c.size;
    rounded = c.rounded;
    widths = set_page-widths true;
    counted = omega (
      arith,
      c.counted,
      popcount_all-set bm (p / 64) (set (word_at bm (p / 64)) (p % 64) true)
          (omega (arith, word_inside, c.size)),
      popcount-set-true (word_at bm (p / 64)) (p % 64) (omega (arith, word_width)) free,
    );
    limit = c.limit;
    nonempty = c.nonempty;
    beyond = set_page-beyond true;
  }

  pub give-Core : page_used bm p ≡ true → Core (set_page bm p false) words total (used - 1)
  give-Core taken = record {
    size = length-set bm (p / 64) _ ∙ c.size;
    rounded = c.rounded;
    widths = set_page-widths false;
    counted = omega (
      arith,
      c.counted,
      popcount_all-set bm (p / 64) (set (word_at bm (p / 64)) (p % 64) false)
          (omega (arith, word_inside, c.size)),
      popcount-set-false (word_at bm (p / 64)) (p % 64) (omega (arith, word_width)) taken,
    );
    limit = c.limit;
    nonempty = c.nonempty;
    beyond = set_page-beyond false;
  }

  -- A bit that is set is counted.
  pub used_pos : page_used bm p ≡ true → 0 < used
  used_pos taken = omega (
    arith,
    c.counted,
    popcount_all-set bm (p / 64) (set (word_at bm (p / 64)) (p % 64) false)
        (omega (arith, word_inside, c.size)),
    popcount-set-false (word_at bm (p / 64)) (p % 64) (omega (arith, word_width)) taken,
  )
