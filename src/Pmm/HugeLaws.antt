-- ===== src/Pmm/HugeLaws.antt =====
-- AllocHugePages and FreeHugePages on a valid state.
use void_frame.Prelude.{
  ℕ, zero, suc, ◌+◌, ◌*◌, ◌/◌, ◌%◌, ◌^◌, ◌≤◌, ◌<◌, ◌≡◌, ◌≢◌, refl, sym, subst, ◌∙◌, inl, inr, ◌⊎◌,
  Bool, true, false, not, ◌||◌, Option, none, some, ltb, leb, ◌==◌, arith, Bool-cases,
}
use void_frame.Prelude.Words.{add64, u64_mod}
use void_frame.Pmm.State.{Pmm, page_size}
use void_frame.Pmm.Range.{range_is_free}
use void_frame.Pmm.Huge.{
  pages_per_huge, first_huge, pages_needed, huge_page_size, search_huge, after_search_huge,
  alloc_huge_pages, free_huge_pages,
}
use void_frame.Pmm.Bitmap.{IsValid}
use void_frame.Pmm.Sets.{Sets}
use void_frame.Pmm.Runs.{range_set_used-Sets, range_set_free-Sets}
use void_frame.Pmm.FreeRuns.{AllFree, range_is_free-AllFree}

-- A run of `needed` pages at a 2 MB boundary, within the memory and above the first one.
pub record IsSlot (s : Pmm) (needed q : ℕ) : Type 0 where
  pub above : first_huge ≤ q
  pub aligned : q % pages_per_huge ≡ 0
  pub inside : q + needed ≤ s.total_pages
  pub free : AllFree s q (q + needed)

abbrev Found : Pmm → ℕ → ℕ → Option ℕ → Type 0
Found s needed start none = (q : ℕ) → start ≤ q → ¬ IsSlot s needed q
Found s needed start (some q) = IsSlot s needed q

module _ {s : Pmm} (v : IsValid s) (needed : ℕ) (positive : 0 < needed)
    (bounded : needed < 2 ^ 63) where
  Found-skip :
      (start : ℕ) (r : Option ℕ)
      → start % pages_per_huge ≡ 0
      → ¬ IsSlot s needed start
      → Found s needed (start + pages_per_huge) r
      → Found s needed start r
  Found-skip start none aligned miss rest = λ q above slot. elim (Bool-cases (q == start)) [
    | inl here ↦ let same : q ≡ start = ground arith in miss (subst (IsSlot s needed) same slot)
    | inr past ↦
        let al = slot.aligned in let apart : q ≢ start = ground arith in rest q (omega arith) slot
  ]
  Found-skip start (some q) aligned miss found = found

  search_huge-Found :
      (fuel start : ℕ)
      → first_huge ≤ start
      → start % pages_per_huge ≡ 0
      → start ≤ s.total_pages + pages_per_huge + first_huge
      → s.total_pages < start + fuel
      → Found s needed start (search_huge s needed fuel start)
  unfolding search_huge
  search_huge-Found zero start above aligned near enough =
      λ q later slot. let i = slot.inside in omega arith
  search_huge-Found (suc fuel) start above aligned near enough =
      let lim = v.core.limit in
      let plain : add64 start needed ≡ start + needed = omega arith in
      let step : add64 start pages_per_huge ≡ start + pages_per_huge = omega arith in
      elim (Bool-cases (leb (start + needed) s.total_pages)) [
        | inr outside ↦ rw (plain, outside) (λ q later slot. let i = slot.inside in ground arith)
        | inl fits ↦
            let room : start + needed ≤ s.total_pages = ground arith in
            let test = range_is_free-AllFree v start needed positive room in
            elim (Bool-cases (range_is_free s start needed)) [
              | inl free ↦
                  rw (plain, fits, free)
                    (record { above = above; aligned = aligned; inside = room; free = test.0 free })
              | inr busy ↦
                  rw (plain, fits, busy, step)
                    (Found-skip start (search_huge s needed fuel (start + pages_per_huge)) aligned
                      (λ slot. clash (sym busy ∙ test.1 slot.free))
                      (search_huge-Found fuel (start + pages_per_huge) (omega arith) (omega arith)
                        (omega arith) (omega arith)))
            ]
      ]
    where
      clash : false ≡ true → ⊥
      clash e = cc

abbrev pub AllocatesRun : Pmm → ℕ → Option ℕ × Pmm → Type 0
AllocatesRun s needed (none, t) =
    ((q : ℕ) → ¬ IsSlot s needed q)
    × (t ≡ record s { allocation_failures = add64 s.allocation_failures 1 })
AllocatesRun s needed (some addr, t) =
    (q : ℕ) × (addr ≡ q * page_size) × IsSlot s needed q × Sets true q (q + needed) s t

after_search_huge-AllocatesRun :
    {s : Pmm} (needed : ℕ) (r : Option ℕ)
    → IsValid s
    → 0 < needed
    → Found s needed 0 r
    → AllocatesRun s needed (after_search_huge s needed r)
unfolding after_search_huge
after_search_huge-AllocatesRun needed none v positive none_free =
    (λ q. none_free q (omega arith), refl)
after_search_huge-AllocatesRun {s} needed (some q) v positive slot =
    let run = range_set_used-Sets v q needed positive slot.inside in
    (
      q,
      omega (arith, slot.inside, v.core.limit),
      slot,
      record {
        bits = run.bits;
        words = run.words;
        total = run.total;
        valid = record { mapped = run.valid.mapped; core = run.valid.core };
      },
    )

-- On a valid state AllocHugePages, asked for at least one and fewer than 2^54 huge pages, returns the
-- address of a run that lies in the memory, starts at a 2 MB boundary above the first one and was
-- free, and marks exactly its pages; it returns NULL only if there is no such run, and then only the
-- failure is counted.
pub alloc_huge_pages_lem :
    (s : Pmm) (num_pages : ℕ)
    → IsValid s
    → 0 < num_pages
    → num_pages < 2 ^ 54
    → AllocatesRun s (num_pages * pages_per_huge) (alloc_huge_pages s num_pages)
unfolding alloc_huge_pages
alloc_huge_pages_lem s num_pages v positive bounded =
    let plain : pages_needed num_pages ≡ num_pages * pages_per_huge = omega arith in
    let needed = num_pages * pages_per_huge in
    let found =
      search_huge-Found v needed (omega arith) (omega arith) (suc s.total_pages) first_huge
        (omega arith) refl (omega arith) (omega arith) in
    subst
      (λ k.
        AllocatesRun s needed
          (after_search_huge s k (search_huge s k (suc s.total_pages) first_huge)))
      (sym plain)
      (after_search_huge-AllocatesRun needed (search_huge s needed (suc s.total_pages) first_huge) v
        (omega arith) (from_start (search_huge s needed (suc s.total_pages) first_huge) found))
  where
    from_start :
        (r : Option ℕ)
        → Found s (num_pages * pages_per_huge) first_huge r
        → Found s (num_pages * pages_per_huge) 0 r
    from_start none h = λ q _ slot. h q slot.above slot
    from_start (some q) h = h

-- `addr` and `num_pages` name a run that FreeHugePages accepts.
pub record IsRun (s : Pmm) (addr num_pages q : ℕ) : Type 0 where
  pub address : addr ≡ q * page_size
  pub aligned : q % pages_per_huge ≡ 0
  pub positive : 0 < q
  pub inside : q + num_pages * pages_per_huge ≤ s.total_pages

-- On a valid state FreeHugePages, asked for at least one page, clears exactly the pages of a run
-- at a 2 MB boundary within the memory, and leaves the state as it was for any other arguments.
pub free_huge_pages_lem :
    (s : Pmm) (addr num_pages : ℕ)
    → IsValid s
    → 0 < num_pages
    → num_pages < 2 ^ 54
    → addr < u64_mod
    → let t = free_huge_pages s (some addr) num_pages in
      ((q : ℕ) × IsRun s addr num_pages q × Sets false q (q + num_pages * pages_per_huge) s t)
      ⊎ (((q : ℕ) → ¬ IsRun s addr num_pages q) × (t ≡ s))
unfolding free_huge_pages
free_huge_pages_lem s addr num_pages v positive bounded small = elim (Bool-cases refused) [
  | inl e ↦ inr (
    λ q run.
        let a = run.aligned in
        let b = run.positive in
        let c = run.inside in
        let at : addr / page_size ≡ q = omega (arith, run.address) in
        let d = run.address in ground arith,
    rw e,
  )
  | inr e ↦
      let aligned : addr % huge_page_size ≡ 0 = ground arith in
      let nonzero : addr ≢ 0 = ground arith in
      let plain : pages_needed num_pages ≡ num_pages * pages_per_huge = omega arith in
      let fits : ltb s.total_pages (add64 (addr / page_size) (pages_needed num_pages)) ≡ false =
        ground arith in
      let inside : addr / page_size + num_pages * pages_per_huge ≤ s.total_pages = ground arith in
      let run =
        range_set_free-Sets v (addr / page_size) (num_pages * pages_per_huge) (omega arith)
          inside in
      inl (
        addr / page_size,
        record {
          address = omega arith;
          aligned = omega arith;
          positive = omega arith;
          inside = inside;
        },
        rw (e, plain)
            (record {
              bits = run.bits;
              words = run.words;
              total = run.total;
              valid = record { mapped = run.valid.mapped; core = run.valid.core };
            }),
      )
]
  where
    refused : Bool
    refused =
        addr == 0
        || (num_pages == 0
            || (not (addr % huge_page_size == 0)
                || ltb s.total_pages (add64 (addr / page_size) (pages_needed num_pages))))
