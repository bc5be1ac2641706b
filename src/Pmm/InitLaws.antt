-- ===== src/Pmm/InitLaws.antt =====
-- MemoryInit sets up a valid bitmap, in which exactly the reserved pages are in use.
use void_frame.Prelude.{
  ℕ, zero, suc, ◌+◌, ◌-◌, ◌/◌, ◌%◌, ◌≤◌, ◌<◌, ◌≡◌, refl, sym, ap, ◌∙◌, inl, inr, Bool, true, false,
  not, ◌&&◌, ◌||◌, List, [], ◌∷◌, ltb, arith, Bool-cases, length, replicate, length-replicate,
  get_or-replicate, get_or-beyond,
}
use void_frame.Prelude.Words.{u64_mod}
use void_frame.Pmm.Word.{word_bits, zero_word, popcount, bit}
use void_frame.Pmm.State.{Pmm, word_at, page_size, max_pages, lowmem_pages}
use void_frame.Pmm.Bitmap.{IsValid, page_used, popcount_all}
use void_frame.Pmm.Sets.{within}
use void_frame.Pmm.Init.{
  MmapEntry, is_available, end_addr, pages_of, detected_pages, bitmap_start, bitmap_bytes,
  identity_limit, reserve_addresses, reserve_entries, mark_pages, BootImage, bitmap_first,
  bitmap_last, info_last, reserve_ranges, cleared, memory_init,
}
use void_frame.Pmm.Marks.{
  Marks, Marks-cast, Marks-trans, Marks-nothing, mark_pages-Marks, reserve_addresses-Marks, visited,
}

popcount_all-clear : (n : ℕ) → popcount_all (replicate n zero_word) ≡ 0
unfolding popcount_all popcount
popcount_all-clear zero = refl
popcount_all-clear (suc n) = omega (arith, popcount_all-clear n)

zero_word_at : (n w : ℕ) → w < n → word_at (replicate n zero_word) w ≡ zero_word
zero_word_at zero w h = absurd (omega arith)
zero_word_at (suc n) zero h = refl
zero_word_at (suc n) (suc w) h = zero_word_at n w (omega arith)

page_used-clear : (n q : ℕ) → page_used (replicate n zero_word) q ≡ false
page_used-clear n q = elim (Bool-cases (ltb (q / 64) n)) [
  | inl e ↦
      let h : q / 64 < n = ground arith in
      ap (λ w. bit w (q % 64)) (zero_word_at n (q / 64) h)
      ∙ get_or-replicate word_bits (q % 64) false
  | inr e ↦
      let h : n ≤ q / 64 = ground arith in
      ap (λ w. bit w (q % 64))
        (get_or-beyond (replicate n zero_word) (q / 64) []
          (omega (arith, length-replicate n zero_word)))
]

cleared-IsValid : (s : Pmm) (pages : ℕ) → 0 < pages → pages ≤ max_pages → IsValid (cleared s pages)
cleared-IsValid s pages some_pages few = record {
  mapped = refl;
  core = record {
    size = length-replicate ((pages + 63) / 64) zero_word;
    rounded = refl;
    widths = λ w h. ap length (zero_word_at ((pages + 63) / 64) w h);
    counted = sym (popcount_all-clear ((pages + 63) / 64));
    limit = few;
    nonempty = some_pages;
    beyond = λ p h. page_used-clear ((pages + 63) / 64) p;
  };
}

-- The pages that the reserved entries visit, and the condition that their addresses do not wrap.
unfoldable pub in_entries : List MmapEntry → ℕ → Bool
in_entries [] q = false
in_entries (entry ∷ entries) q =
    (not (is_available entry) && visited entry.addr (end_addr entry) q) || in_entries entries q

abbrev pub AllFit : List MmapEntry → Type 0
AllFit [] = Unit {0}
AllFit (entry ∷ entries) = (entry.addr + entry.len + page_size ≤ u64_mod) × AllFit entries

reserve_entries-Marks :
    (s : Pmm) (entries : List MmapEntry)
    → IsValid s
    → AllFit entries
    → Marks s (in_entries entries) (reserve_entries s entries)
unfolding reserve_entries in_entries
reserve_entries-Marks s [] v fit = Marks-nothing v
reserve_entries-Marks s (entry ∷ entries) v (fits, fit) = elim (Bool-cases (is_available entry)) [
  | inl e ↦ rw e (
      Marks-cast (in_entries entries) (in_entries (entry ∷ entries)) (λ q. rw e refl)
        (reserve_entries-Marks s entries v fit))
  | inr e ↦
      let plain : end_addr entry ≡ entry.addr + entry.len = omega arith in
      let one =
        reserve_addresses-Marks (suc (entry.len / page_size)) entry.addr (end_addr entry) s v
          (omega arith) (omega arith) in
      rw e (
        Marks-cast (λ q. visited entry.addr (end_addr entry) q || in_entries entries q)
          (in_entries (entry ∷ entries)) (λ q. rw e refl)
          (Marks-trans (visited entry.addr (end_addr entry)) (in_entries entries) one (
            reserve_entries-Marks
              (reserve_addresses (suc (entry.len / page_size)) s entry.addr (end_addr entry))
              entries one.valid fit)))
]

-- The pages that the ranges reserve.
abbrev pub in_ranges : BootImage → ℕ → ℕ → Bool
in_ranges boot pages q =
    within 0 lowmem_pages q
    || (within bitmap_first (bitmap_last pages) q
        || (within (boot.kernel_start / page_size) (pages_of boot.kernel_end) q
            || within (boot.info_addr / page_size) (info_last boot) q))

mark_between-Marks :
    (from to : ℕ) (s : Pmm) → IsValid s → Marks s (within from to) (mark_pages (to - from) from s)
mark_between-Marks from to s v =
    Marks-cast (within from (from + (to - from))) (within from to) (λ q. ground arith)
      (mark_pages-Marks (to - from) from s v)

reserve_ranges-Marks :
    (boot : BootImage) (s : Pmm)
    → IsValid s
    → Marks s (in_ranges boot s.total_pages) (reserve_ranges boot s)
unfolding reserve_ranges
reserve_ranges-Marks boot s v =
    let a = mark_between-Marks 0 lowmem_pages s v in
    let b = mark_between-Marks bitmap_first (bitmap_last s.total_pages) _ a.valid in
    let c =
      mark_between-Marks (boot.kernel_start / page_size) (pages_of boot.kernel_end) _ b.valid in
    let d = mark_between-Marks (boot.info_addr / page_size) (info_last boot) _ c.valid in
    Marks-trans _ _ a (Marks-trans _ _ b (Marks-trans _ _ c d))

abbrev pub Initialises : Pmm → List MmapEntry → BootImage → Bool × Pmm → Type 0
Initialises s entries boot (false, t) =
    (identity_limit (detected_pages entries) < bitmap_start + bitmap_bytes (detected_pages entries))
    × (t.page_bitmap ≡ s.page_bitmap)
    × (t.has_bitmap ≡ s.has_bitmap)
Initialises s entries boot (true, t) =
    IsValid t
    × (t.total_pages ≡ detected_pages entries)
    × ((q : ℕ)
        → page_used t.page_bitmap q ≡ (
            (in_entries entries q || in_ranges boot (detected_pages entries) q)
            && ltb q (detected_pages entries)))

either_reserved :
    (x y z f g l : Bool)
    → x ≡ (y || (g && l))
    → y ≡ (z || (f && l))
    → z ≡ false
    → x ≡ ((f || g) && l)
either_reserved x y z f g l a b c = ground (arith, a, b, c)

-- If the addresses of the memory map do not wrap around, MemoryInit sets up a valid bitmap of the
-- detected pages, in which a page is in use exactly if a reserved entry visits it or it is low
-- memory, the bitmap's, the kernel's or the boot information's; it fails, and leaves the bitmap as
-- it was, only if the bitmap does not fit below the end of the memory.
pub memory_init_lem :
    (s : Pmm) (entries : List MmapEntry) (boot : BootImage)
    → AllFit entries
    → Initialises s entries boot (memory_init s entries boot)
unfolding memory_init
memory_init_lem s entries boot fit =
    let pages = detected_pages entries in
    elim (Bool-cases (ltb (identity_limit pages) (bitmap_start + bitmap_bytes pages))) [
      | inl e ↦
          let short : identity_limit pages < bitmap_start + bitmap_bytes pages = ground arith in
          rw e (short, refl, refl)
      | inr e ↦
          let few : pages ≤ max_pages = ground arith in
          let some_pages : 0 < pages = ground arith in
          let v = cleared-IsValid s pages some_pages few in
          let a = reserve_entries-Marks (cleared s pages) entries v fit in
          let b = reserve_ranges-Marks boot (reserve_entries (cleared s pages) entries) a.valid in
          rw e (
            b.valid,
            b.total ∙ a.total,
            λ q.
                either_reserved _ _ _ (in_entries entries q) (in_ranges boot pages q) (ltb q pages)
                  (b.bits q
                    ∙ ap
                        (λ n.
                          page_used (reserve_entries (cleared s pages) entries).page_bitmap q
                          || (in_ranges boot n q && ltb q n))
                        a.total)
                  (a.bits q) (page_used-clear ((pages + 63) / 64) q),
          )
    ]
