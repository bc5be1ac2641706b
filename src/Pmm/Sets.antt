-- ===== src/Pmm/Sets.antt =====
-- What it is to set the bits of a run of pages, and how such steps compose.
use void_frame.Prelude.{
  ℕ, ◌+◌, ◌*◌, ◌/◌, ◌%◌, ◌≤◌, ◌<◌, ◌≡◌, refl, ap, ◌∙◌, inl, inr, Bool, true, false, ◌&&◌, [], ltb,
  leb, ◌==◌, if◌then◌else◌, arith, length, set, length-set, get_or-set_self, get_or-set_ne,
  Bool-cases,
}
use void_frame.Pmm.Word.{Word, word_bits, bit, popcount}
use void_frame.Pmm.State.{Pmm, word_at}
use void_frame.Pmm.Bitmap.{IsValid, page_used, popcount_all-set, popcount_all-le}

-- `p` lies in the run `from .. to`.
abbrev pub within : ℕ → ℕ → ℕ → Bool
within from to p = leb from p && ltb p to

-- `t` is `s` with the bits of the pages `from .. to` set to `b`.
pub record Sets (b : Bool) (from to : ℕ) (s t : Pmm) : Type 0 where
  pub bits :
      (p : ℕ)
      → page_used t.page_bitmap p ≡ (if within from to p then b else page_used s.page_bitmap p)
  pub words : t.bitmap_words ≡ s.bitmap_words
  pub total : t.total_pages ≡ s.total_pages
  pub valid : IsValid t

-- Two runs side by side.
pub Sets-trans :
    {b : Bool} (from mid to : ℕ) {s t u : Pmm}
    → from ≤ mid
    → mid ≤ to
    → Sets b from mid s t
    → Sets b mid to t u
    → Sets b from to s u
Sets-trans from mid to h k first second = record {
  bits = λ p. ground (arith, first.bits p, second.bits p);
  words = second.words ∙ first.words;
  total = second.total ∙ first.total;
  valid = second.valid;
}

pub Sets-nothing : {b : Bool} (from : ℕ) {s : Pmm} → IsValid s → Sets b from from s s
Sets-nothing from v = record { bits = λ p. ground arith; words = refl; total = refl; valid = v }

-- No word has more bits set than the whole.
pub popcount-le-used :
    {s : Pmm} (w : ℕ)
    → IsValid s
    → w < s.bitmap_words
    → popcount (word_at s.page_bitmap w) ≤ s.used_pages
unfolding popcount
popcount-le-used {s} w v h =
    omega (arith, v.core.counted, popcount_all-set s.page_bitmap w [] (omega (arith, v.core.size)))

pub used_bound : {s : Pmm} → IsValid s → s.used_pages ≤ word_bits * s.bitmap_words
used_bound {s} v = omega (
  arith,
  v.core.counted,
  v.core.size,
  popcount_all-le s.page_bitmap (λ w h. v.core.widths w (omega (arith, v.core.size))),
)

-- The bits `lo .. hi` of a word are `b`, the others as they were.
abbrev pub Changes : Bool → ℕ → ℕ → Word → Word → Type 0
Changes b lo hi old new =
    (i : ℕ) → i < word_bits → bit new i ≡ (if leb lo i && leb i hi then b else bit old i)

module _ {s : Pmm} (v : IsValid s) (b : Bool) (w lo hi used : ℕ) (new : Word)
    (inside : w * 64 + hi < s.total_pages) (order : lo ≤ hi) (small : hi < word_bits)
    (width : length new ≡ word_bits) (changes : Changes b lo hi (word_at s.page_bitmap w) new)
    (counted : used + popcount (word_at s.page_bitmap w) ≡ s.used_pages + popcount new) where
  word_in : w < s.bitmap_words
  word_in = omega (arith, v.core.rounded)

  bits_after :
      (p : ℕ)
      → page_used (set s.page_bitmap w new) p
        ≡ (if within (w * 64 + lo) (w * 64 + hi + 1) p then b else page_used s.page_bitmap p)
  bits_after p = elim (Bool-cases (p / 64 == w)) [
    | inl same ↦
        let e : p / 64 ≡ w = ground arith in
        rw (e, get_or-set_self s.page_bitmap w new [] (omega (arith, word_in, v.core.size)))
          (changes (p % 64) (omega arith) ∙ elim (Bool-cases (leb lo (p % 64) && leb (p % 64) hi)) [
            | inl hit ↦
                let run : within (w * 64 + lo) (w * 64 + hi + 1) p ≡ true = ground arith in
                rw (hit, run)
            | inr miss ↦
                let run : within (w * 64 + lo) (w * 64 + hi + 1) p ≡ false = ground arith in
                rw (miss, run)
          ])
    | inr apart ↦
        let run : within (w * 64 + lo) (w * 64 + hi + 1) p ≡ false = ground arith in
        rw run (
          ap (λ x. bit x (p % 64))
            (get_or-set_ne s.page_bitmap w (p / 64) new [] (λ e. ground arith)))
  ]

  -- One word of a run.
  pub set_word-Sets :
      Sets b
        (w * 64 + lo)
        (w * 64 + hi + 1)
        s
        (record s { page_bitmap = set s.page_bitmap w new; used_pages = used })
  set_word-Sets = record {
    bits = bits_after;
    words = refl;
    total = refl;
    valid = record {
      mapped = v.mapped;
      core = record {
        size = length-set s.page_bitmap w new ∙ v.core.size;
        rounded = v.core.rounded;
        widths = λ x h. widths_after x h;
        counted = omega (
          arith,
          counted,
          v.core.counted,
          popcount_all-set s.page_bitmap w new (omega (arith, word_in, v.core.size)),
        );
        limit = v.core.limit;
        nonempty = v.core.nonempty;
        beyond = λ p h.
            let run : within (w * 64 + lo) (w * 64 + hi + 1) p ≡ false = ground arith in
            ground (arith, bits_after p, v.core.beyond p h);
      };
    };
  }
    where
      widths_after :
          (x : ℕ) → x < s.bitmap_words → length (word_at (set s.page_bitmap w new) x) ≡ word_bits
      widths_after x h = elim (Bool-cases (x == w)) [
        | inl same ↦
            let e : x ≡ w = ground arith in
            rw (e, get_or-set_self s.page_bitmap w new [] (omega (arith, word_in, v.core.size)))
              width
        | inr apart ↦
            rw (get_or-set_ne s.page_bitmap w x new [] (λ e. ground arith)) (v.core.widths x h)
      ]
