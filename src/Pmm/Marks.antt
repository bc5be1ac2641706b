-- ===== src/Pmm/Marks.antt =====
-- Marking pages one by one: which pages are in use afterwards.
use void_frame.Prelude.{
  ℕ, zero, suc, ◌+◌, ◌*◌, ◌/◌, ◌%◌, ◌≤◌, ◌<◌, ◌≡◌, refl, sym, subst, ap, ◌∙◌, inl, inr, Bool, true,
  false, ◌&&◌, ◌||◌, ltb, leb, ◌==◌, if◌then◌else◌, arith, Bool-cases,
}
use void_frame.Prelude.Words.{add64, u64_mod}
use void_frame.Pmm.State.{Pmm, mark_page_used, page_size}
use void_frame.Pmm.Bitmap.{IsValid, page_used, take-Core, page_used-set_page}
use void_frame.Pmm.Mark.{mark_page_used-eq, mark_page_used-again}
use void_frame.Pmm.Sets.{within}
use void_frame.Pmm.Init.{reserve_addresses, mark_pages}

-- `t` is `s` with the pages that pass the test marked, as far as they lie in the memory.
pub record Marks (s : Pmm) (test : ℕ → Bool) (t : Pmm) : Type 0 where
  pub bits :
      (q : ℕ)
      → page_used t.page_bitmap q ≡ (page_used s.page_bitmap q || (test q && ltb q s.total_pages))
  pub total : t.total_pages ≡ s.total_pages
  pub valid : IsValid t

pub Marks-cast :
    {s t : Pmm} (test test' : ℕ → Bool)
    → ((q : ℕ) → test q ≡ test' q)
    → Marks s test t
    → Marks s test' t
Marks-cast test test' same m = record {
  bits = λ q. rw (← same q) (m.bits q);
  total = m.total;
  valid = m.valid;
}

either_test :
    (x y z f g l : Bool) → x ≡ (y || (g && l)) → y ≡ (z || (f && l)) → x ≡ (z || ((f || g) && l))
either_test x y z f g l a b = ground (arith, a, b)

pub Marks-trans :
    {s t u : Pmm} (test test' : ℕ → Bool)
    → Marks s test t
    → Marks t test' u
    → Marks s (λ q. test q || test' q) u
Marks-trans {s} {t} {u} test test' m n = record {
  bits = λ q.
      either_test (page_used u.page_bitmap q) (page_used t.page_bitmap q)
        (page_used s.page_bitmap q) (test q) (test' q) (ltb q s.total_pages)
        (n.bits q ∙ ap (λ k. page_used t.page_bitmap q || (test' q && ltb q k)) m.total) (m.bits q);
  total = n.total ∙ m.total;
  valid = n.valid;
}

pub Marks-nothing : {s : Pmm} → IsValid s → Marks s (λ q. false) s
Marks-nothing v = record { bits = λ q. ground arith; total = refl; valid = v }

pub mark_page_used-Marks :
    (s : Pmm) (p : ℕ) → IsValid s → Marks s (λ q. q == p) (mark_page_used s p)
unfolding mark_page_used
mark_page_used-Marks s p v = elim (Bool-cases (leb s.total_pages p)) [
  | inl past ↦ rw past (record { bits = λ q. ground arith; total = refl; valid = v })
  | inr e ↦
      let inside : p < s.total_pages = ground arith in
      elim (Bool-cases (page_used s.page_bitmap p)) [
        | inl taken ↦
            subst (Marks s (λ q. q == p)) (sym (mark_page_used-again v p inside taken))
              (record { bits = λ q. hit q taken; total = refl; valid = v })
        | inr free ↦
            subst (Marks s (λ q. q == p)) (sym (mark_page_used-eq v p inside free)) (record {
              bits = λ q. page_used-set_page v.core p inside true q ∙ miss q inside;
              total = refl;
              valid = record { mapped = v.mapped; core = take-Core v.core p inside free };
            })
      ]
]
  where
    hit :
        (q : ℕ)
        → page_used s.page_bitmap p ≡ true
        → page_used s.page_bitmap q
          ≡ (page_used s.page_bitmap q || ((q == p) && ltb q s.total_pages))
    hit q taken = elim (Bool-cases (q == p)) [
      | inl e ↦ let same : q ≡ p = ground arith in rw (same, taken) refl
      | inr e ↦ rw e (ground arith)
    ]

    miss :
        (q : ℕ)
        → p < s.total_pages
        → (if q == p then true else page_used s.page_bitmap q)
          ≡ (page_used s.page_bitmap q || ((q == p) && ltb q s.total_pages))
    miss q inside = ground arith

pub mark_pages-Marks :
    (n i : ℕ) (s : Pmm) → IsValid s → Marks s (within i (i + n)) (mark_pages n i s)
unfolding mark_pages
mark_pages-Marks zero i s v =
    Marks-cast (λ q. false) (within i (i + 0)) (λ q. ground arith) (Marks-nothing v)
mark_pages-Marks (suc n) i s v =
    let one = mark_page_used-Marks s i v in
    Marks-cast (λ q. (q == i) || within (i + 1) (i + 1 + n) q) (within i (i + suc n))
      (λ q. ground arith)
      (Marks-trans (λ q. q == i) (within (i + 1) (i + 1 + n)) one
        (mark_pages-Marks n (i + 1) (mark_page_used s i) one.valid))

-- The pages of the addresses from `addr` on, one page size apart, that lie below `end`.
abbrev pub visited : ℕ → ℕ → ℕ → Bool
visited addr end q = leb (addr / page_size) q && ltb (q * page_size + addr % page_size) end

-- If the addresses do not wrap around and there are enough rounds, the loop ends at `end`, and has
-- marked these pages.
pub reserve_addresses-Marks :
    (fuel addr end : ℕ) (s : Pmm)
    → IsValid s
    → end + page_size ≤ u64_mod
    → end < addr + fuel * page_size
    → Marks s (visited addr end) (reserve_addresses fuel s addr end)
unfolding reserve_addresses
reserve_addresses-Marks zero addr end s v small enough =
    Marks-cast (λ q. false) (visited addr end) (λ q. ground arith) (Marks-nothing v)
reserve_addresses-Marks (suc fuel) addr end s v small enough = elim (Bool-cases (ltb addr end)) [
  | inr e ↦ rw e (Marks-cast (λ q. false) (visited addr end) (λ q. ground arith) (Marks-nothing v))
  | inl e ↦
      let more : add64 addr page_size ≡ addr + page_size = ground arith in
      let one = mark_in_memory in
      rw (e, more)
        (Marks-cast (λ q. (q == addr / page_size) || visited (addr + page_size) end q)
          (visited addr end) (λ q. ground arith)
          (Marks-trans (λ q. q == addr / page_size) (visited (addr + page_size) end) one
            (reserve_addresses-Marks fuel (addr + page_size) end _ one.valid small (omega arith))))
]
  where
    mark_in_memory :
        Marks s
          (λ q. q == addr / page_size)
          (if ltb (addr / page_size) s.total_pages then mark_page_used s (addr / page_size) else s)
    mark_in_memory = elim (Bool-cases (ltb (addr / page_size) s.total_pages)) [
      | inl e ↦ rw e (mark_page_used-Marks s (addr / page_size) v)
      | inr e ↦ rw e (record { bits = λ q. ground arith; total = refl; valid = v })
    ]
