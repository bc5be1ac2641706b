-- ===== src/Pmm/Regions.antt =====
-- RangeSetUsed, RangeSetFree and RangeIsFree do to a run of pages what they say.
use void_frame.Prelude.{
  ℕ, ◌+◌, ◌-◌, ◌*◌, ◌/◌, ◌%◌, ◌≤◌, ◌<◌, ◌≡◌, refl, sym, ap, ◌∙◌, ◌↔◌, Bool, true, false, ◌&&◌, leb,
  arith, length,
}
use void_frame.Pmm.Word.{Word, word_bits, ones, bit, word_and, word_or, word_not, is_zero}
use void_frame.Pmm.State.{Pmm, word_at}
use void_frame.Pmm.Range.{mask_from, mask_to, mask_between, set_word_used, set_word_free}
use void_frame.Pmm.Bits.{
  bit-word_and, bit-word_or, bit-word_not, length-word_and, length-word_or, length-word_not,
  bit-shl-ones, bit-shr-ones, length-shl, length-shr, is_zero-bit, is_zero_of_bits, popcount-le,
}
use void_frame.Pmm.Bitmap.{IsValid, page_used}
use void_frame.Pmm.Sets.{within, Sets, popcount-le-used, used_bound, set_word-Sets}

-- A mask with the bits `lo .. hi`.
pub record IsMask (lo hi : ℕ) (mask : Word) : Type 0 where
  pub width : length mask ≡ word_bits
  pub bits : (i : ℕ) → i < word_bits → bit mask i ≡ (leb lo i && leb i hi)

pub mask_from-IsMask : (so : ℕ) → IsMask so 63 (mask_from so)
mask_from-IsMask so = record {
  width = length-shl ones so refl;
  bits = λ i h. ground (arith, bit-shl-ones so i h);
}

pub mask_to-IsMask : (eo : ℕ) → eo < word_bits → IsMask 0 eo (mask_to eo)
mask_to-IsMask eo small = record {
  width = length-shr ones (63 - eo) refl (omega arith);
  bits = λ i h. ground (arith, bit-shr-ones eo i small h);
}

pub mask_between-IsMask : (so eo : ℕ) → eo < word_bits → IsMask so eo (mask_between so eo)
mask_between-IsMask so eo small = record {
  width = length-word_and (mask_to eo) (mask_from so) same ∙ upper.width;
  bits = λ i h. ground (
    arith,
    bit-word_and (mask_to eo) (mask_from so) i same,
    bit-shr-ones eo i small h,
    bit-shl-ones so i h,
  );
}
  where
    upper : IsMask 0 eo (mask_to eo)
    upper = mask_to-IsMask eo small

    same : length (mask_to eo) ≡ length (mask_from so)
    same = upper.width ∙ sym (length-shl ones so refl)

-- A run under other names of its ends.
pub Sets-cast :
    {b : Bool} {from to : ℕ} (from' to' : ℕ) {s t : Pmm}
    → from ≡ from'
    → to ≡ to'
    → Sets b from to s t
    → Sets b from' to' s t
Sets-cast from' to' {s} {t} e f h = record {
  bits = λ p. ground (arith, h.bits p);
  words = h.words;
  total = h.total;
  valid = h.valid;
}

module _ {s : Pmm} (v : IsValid s) (w lo hi : ℕ) (mask : Word)
    (inside : w * 64 + hi < s.total_pages) (order : lo ≤ hi) (small : hi < word_bits)
    (m : IsMask lo hi mask) where
  abbrev pub before : Word
  before = word_at s.page_bitmap w

  width : length before ≡ word_bits
  width = v.core.widths w (omega (arith, v.core.rounded))

  pub set_word_used-Sets : Sets true (w * 64 + lo) (w * 64 + hi + 1) s (set_word_used s w mask)
  unfolding set_word_used
  set_word_used-Sets =
      set_word-Sets v true w lo hi _ (word_or before mask) inside order small
        (length-word_or before mask (width ∙ sym m.width) ∙ width)
        (λ i h. ground (arith, bit-word_or before mask i (width ∙ sym m.width), m.bits i h))
        (omega (
          arith,
          popcount-le-used w v (omega (arith, v.core.rounded)),
          used_bound v,
          v.core.rounded,
          v.core.limit,
          popcount-le (word_or before mask),
          length-word_or before mask (width ∙ sym m.width),
          width,
        ))

  pub set_word_free-Sets : Sets false (w * 64 + lo) (w * 64 + hi + 1) s (set_word_free s w mask)
  unfolding set_word_free
  set_word_free-Sets =
      set_word-Sets v false w lo hi _ (word_and before (word_not mask)) inside order small
        (length-word_and before (word_not mask) same ∙ width)
        (λ i h. ground (
          arith,
          bit-word_and before (word_not mask) i same,
          bit-word_not mask i (omega (arith, m.width)),
          m.bits i h,
        ))
        (omega (
          arith,
          popcount-le-used w v (omega (arith, v.core.rounded)),
          used_bound v,
          v.core.rounded,
          v.core.limit,
          popcount-le (word_and before (word_not mask)),
          length-word_and before (word_not mask) same,
          width,
        ))
    where
      same : length before ≡ length (word_not mask)
      same = width ∙ sym (length-word_not mask ∙ m.width)

  -- The masked bits are all clear exactly when the pages are free.
  pub masked_zero : (is_zero (word_and before mask) ≡ true) ↔ (
      (p : ℕ) → within (w * 64 + lo) (w * 64 + hi + 1) p ≡ true → page_used s.page_bitmap p ≡ false)
  masked_zero = (to, from)
    where
      bits :
          (i : ℕ)
          → i < word_bits
          → bit (word_and before mask) i ≡ (bit before i && (leb lo i && leb i hi))
      bits i h =
          bit-word_and before mask i (width ∙ sym m.width)
          ∙ ap (λ b. bit before i && b) (m.bits i h)

      to :
          is_zero (word_and before mask) ≡ true
          → (p : ℕ) → within (w * 64 + lo) (w * 64 + hi + 1) p ≡ true
          → page_used s.page_bitmap p ≡ false
      to z p h =
          let here : p / 64 ≡ w = ground arith in
          rw here (
            ground
              (arith, bits (p % 64) (omega arith), is_zero-bit (word_and before mask) (p % 64) z))

      from :
          ((p : ℕ)
            → within (w * 64 + lo) (w * 64 + hi + 1) p ≡ true
            → page_used s.page_bitmap p ≡ false)
          → is_zero (word_and before mask) ≡ true
      from free = is_zero_of_bits (word_and before mask) λ i h.
          let small_i : i < word_bits =
            omega (arith, length-word_and before mask (width ∙ sym m.width), width) in
          let div : (w * 64 + i) / 64 ≡ w = omega arith in
          let rem : (w * 64 + i) % 64 ≡ i = omega arith in
          let at : page_used s.page_bitmap (w * 64 + i) ≡ bit before i = rw (div, rem) in
          ground (arith, bits i small_i, free (w * 64 + i))
