-- ===== src/Pmm/Alloc.antt =====
-- AllocPage takes a page whenever there is one, and nothing else.
use void_frame.Prelude.{
  ℕ, ◌+◌, ◌-◌, ◌*◌, ◌/◌, ◌%◌, ◌≤◌, ◌<◌, ◌≡◌, refl, sym, ap, subst, ◌∙◌, inl, inr, ◌⊎◌, true, false,
  Option, none, some, ltb, leb, ◌==◌, if◌then◌else◌, arith, Bool-cases,
}
use void_frame.Prelude.Words.{add64, sub64, u64_mod}
use void_frame.Pmm.State.{Pmm, lowmem_pages, page_size}
use void_frame.Pmm.Page.{
  search_up, search_low, commit_page, fail_page, watch_memory, clamp_hint, search_page, alloc_page,
  after_search_low, after_search_up,
}
use void_frame.Pmm.Bitmap.{IsValid, set_page, take-Core}
use void_frame.Pmm.Mark.{mark_page_used-eq}
use void_frame.Pmm.Search.{
  IsCandidate, AllUsed, Searched, search_up-Searched, SearchedLow, search_low-SearchedLow,
}

abbrev pub NoCandidate : Pmm → Type 0
NoCandidate s = (p : ℕ) → ¬ IsCandidate s p

-- `t` is `s` with one page more in use, and one allocation more on record.
pub record TakesPage (s t : Pmm) (p : ℕ) : Type 0 where
  pub page : IsCandidate s p
  pub bitmap : t.page_bitmap ≡ set_page s.page_bitmap p true
  pub used : t.used_pages ≡ s.used_pages + 1
  pub total : t.total_pages ≡ s.total_pages
  pub frame : t ≡ record s {
    page_bitmap = t.page_bitmap;
    used_pages = t.used_pages;
    allocation_count = add64 s.allocation_count 1;
    next_free_hint = t.next_free_hint;
    low_memory_watermark = t.low_memory_watermark;
  }
  pub valid : IsValid t

-- `t` is `s` with one failure more on record, the hint and the watermark apart, which AllocPage
-- also moves on its way to a failure.
pub record FailsPage (s t : Pmm) : Type 0 where
  pub frame : t ≡ record s {
    allocation_failures = add64 s.allocation_failures 1;
    next_free_hint = t.next_free_hint;
    low_memory_watermark = t.low_memory_watermark;
  }
  pub valid : IsValid t

abbrev pub Allocates : Pmm → Type 0 → Option ℕ × Pmm → Type 0
Allocates s Reason (none, t) = Reason × FailsPage s t
Allocates s Reason (some addr, t) = (p : ℕ) × (addr ≡ p * page_size) × TakesPage s t p

commit_page-TakesPage :
    (s : Pmm) (p : ℕ) → IsValid s → IsCandidate s p → Allocates s (NoCandidate s) (commit_page s p)
unfolding commit_page
commit_page-TakesPage s p v c =
    let marked = mark_page_used-eq v p c.inside c.free in
    let small : p * page_size % u64_mod ≡ p * page_size = omega (arith, c.inside, v.core.limit) in
    rw marked (
      p,
      small,
      record {
        page = c;
        bitmap = refl;
        used = refl;
        total = refl;
        frame = refl;
        valid = record { mapped = v.mapped; core = take-Core v.core p c.inside c.free };
      },
    )

fail_page-FailsPage :
    (s : Pmm) → IsValid s → NoCandidate s → Allocates s (NoCandidate s) (fail_page s)
unfolding fail_page
fail_page-FailsPage s v none_left =
    (none_left, record { frame = refl; valid = record { mapped = v.mapped; core = v.core } })

abbrev HintInRange : Pmm → Type 0
HintInRange s =
    (lowmem_pages ≤ s.next_free_hint)
    × ((s.next_free_hint < s.total_pages) ⊎ (s.next_free_hint ≡ lowmem_pages))

module _ {s : Pmm} (v : IsValid s) (hint : HintInRange s) where
  start : ℕ
  start = s.next_free_hint / 64

  search_low_all : SearchedLow v 4 start (search_low s (start - 4) 4)
  unfolding start
  search_low_all =
      search_low-SearchedLow v (start - 4) 4 start (omega (arith, hint)) (omega arith)
        (elim hint.1 [ inl h ↦ inl (omega arith) | inr h ↦ inr (omega arith) ])

  after_search_low-Allocates :
      (r : Option ℕ)
      → AllUsed s (start * 64) s.total_pages
      → SearchedLow v 4 start r
      → Allocates s (NoCandidate s) (after_search_low s r)
  unfolding after_search_low start
  after_search_low-Allocates (some p) up found = commit_page-TakesPage s p v found
  after_search_low-Allocates none up low = fail_page-FailsPage s v λ p c.
      elim (Bool-cases (ltb p (start * 64))) [
        | inl lower ↦
            let taken = low p (omega (arith, c.above)) (ground arith) c.inside in cc (c.free, taken)
        | inr higher ↦ let taken = up p (ground arith) c.inside c.inside in cc (c.free, taken)
      ]

  after_search_up-Allocates :
      (r : Option ℕ × Pmm)
      → Searched v start r
      → Allocates s (NoCandidate s) (after_search_up start r.0 r.1)
  unfolding after_search_up
  after_search_up-Allocates (some p, t) (same, found) = rw same (commit_page-TakesPage s p v found)
  after_search_up-Allocates (none, t) (same, up) =
      rw same (after_search_low-Allocates (search_low s (start - 4) 4) up search_low_all)

  search_page-Allocates : Allocates s (NoCandidate s) (search_page s)
  unfolding search_page start
  search_page-Allocates =
      after_search_up-Allocates (search_up s (s.bitmap_words - start) start)
        (elim (Bool-cases (leb start s.bitmap_words)) [
          | inl inside ↦
              search_up-Searched v (s.bitmap_words - start) start (ground arith)
                (omega (arith, hint.0))
          | inr outside ↦
              let none_left : s.bitmap_words - start ≡ 0 = ground arith in
              rw none_left (past (ground arith))
        ])
    where
      past : s.bitmap_words ≤ start → Searched v start (search_up s 0 start)
      past h = (refl, λ p above below inside. absurd (omega (arith, v.core.rounded)))

-- What AllocPage changes before it searches.
abbrev prepared : Pmm → ℕ → ℕ → Pmm
prepared s mark hint = record s { low_memory_watermark = mark; next_free_hint = hint }

watched : Pmm → ℕ
watched s =
    if ltb (s.total_pages * 9 % u64_mod / 10) s.used_pages
    then (if s.low_memory_watermark == 0 then s.used_pages else s.low_memory_watermark)
    else s.low_memory_watermark

watch_memory-eq : (s : Pmm) → watch_memory s ≡ record s { low_memory_watermark = watched s }
unfolding watch_memory watched
watch_memory-eq s = ground arith

clamped : Pmm → ℕ
clamped s = (clamp_hint s).next_free_hint

clamped_range : (s : Pmm) → HintInRange (prepared s (watched s) (clamped s))
unfolding clamped clamp_hint
clamped_range s = ground arith

prepare-eq : (s : Pmm) → clamp_hint (watch_memory s) ≡ prepared s (watched s) (clamped s)
unfolding clamp_hint clamped
prepare-eq s = rw (watch_memory-eq s)

abbrev pub OutOfMemory : Pmm → Type 0
OutOfMemory s = (s.total_pages - 1 ≤ s.used_pages) ⊎ NoCandidate s

prepared-Allocates :
    (s : Pmm) (mark hint : ℕ) (r : Option ℕ × Pmm)
    → Allocates (prepared s mark hint) (NoCandidate (prepared s mark hint)) r
    → Allocates s (OutOfMemory s) r
prepared-Allocates s mark hint (none, t) (reason, fails) = (
  inr (λ p c. reason p (record { above = c.above; inside = c.inside; free = c.free })),
  record { frame = fails.frame; valid = fails.valid },
)
prepared-Allocates s mark hint (some addr, t) (p, at, takes) = (
  p,
  at,
  record {
    page = record { above = takes.page.above; inside = takes.page.inside; free = takes.page.free };
    bitmap = takes.bitmap;
    used = takes.used;
    total = takes.total;
    frame = takes.frame;
    valid = takes.valid;
  },
)

alloc_page_full :
    (s : Pmm)
    → s.has_bitmap ≡ true
    → leb (sub64 s.total_pages 1) s.used_pages ≡ true
    → alloc_page s ≡ fail_page s
unfolding alloc_page
alloc_page_full s mapped full = ground arith

alloc_page_search :
    (s : Pmm)
    → s.has_bitmap ≡ true
    → leb (sub64 s.total_pages 1) s.used_pages ≡ false
    → alloc_page s ≡ search_page (prepared s (watched s) (clamped s))
unfolding alloc_page
alloc_page_search s mapped enough = ground arith ∙ ap search_page (prepare-eq s)

-- On a valid state AllocPage returns the address of a page above 1 MB that was free, marks that page
-- and no other and counts it and the allocation; it returns NULL only if at most one page is unused
-- or no page above 1 MB is free, and then only the failure is counted. In both cases the hint and
-- the low-memory watermark may move besides, and nothing else. The state stays valid.
pub alloc_page_lem : (s : Pmm) → IsValid s → Allocates s (OutOfMemory s) (alloc_page s)
unfolding fail_page
alloc_page_lem s v = elim (Bool-cases (leb (sub64 s.total_pages 1) s.used_pages)) [
  | inl full ↦
      let few : s.total_pages - 1 ≤ s.used_pages = ground (arith, v.core.nonempty, v.core.limit) in
      subst (Allocates s (OutOfMemory s)) (sym (alloc_page_full s v.mapped full))
        (inl few, record { frame = refl; valid = record { mapped = v.mapped; core = v.core } })
  | inr enough ↦ subst (Allocates s (OutOfMemory s)) (sym (alloc_page_search s v.mapped enough)) (
      prepared-Allocates s (watched s) (clamped s) _
        (search_page-Allocates (record { mapped = v.mapped; core = v.core }) (clamped_range s)))
]
