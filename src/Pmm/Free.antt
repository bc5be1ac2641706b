-- ===== src/Pmm/Free.antt =====
-- FreePage: it gives back a page that is in use, and leaves the state alone otherwise.
use void_frame.Prelude.{
  ℕ, ◌-◌, ◌*◌, ◌/◌, ◌%◌, ◌≤◌, ◌<◌, ◌≡◌, refl, sym, ap, subst, ◌∙◌, inl, inr, ◌⊎◌, Bool, true, false,
  not, ◌||◌, List, [], Option, none, some, leb, ◌==◌, arith, length, set, set-set, set-get_or,
  get_or-set_self, Bool-cases,
}
use void_frame.Prelude.Words.{add64}
use void_frame.Pmm.Word.{Word}
use void_frame.Pmm.State.{Pmm, word_at, page_size, is_page_free}
use void_frame.Pmm.Page.{alloc_page, free_page}
use void_frame.Pmm.Bitmap.{IsValid, page_used, set_page, give-Core, page_used-set_page, word_inside}
use void_frame.Pmm.Mark.{is_page_free-eq, mark_page_free-eq}
use void_frame.Pmm.Alloc.{Allocates, OutOfMemory, alloc_page_lem}

-- `p` is a page that FreePage accepts.
pub record IsReturnable (s : Pmm) (p : ℕ) : Type 0 where
  pub positive : 0 < p
  pub inside : p < s.total_pages
  pub taken : page_used s.page_bitmap p ≡ true

-- `t` is `s` with the page `p` given back.
pub record GivesPage (s t : Pmm) (p : ℕ) : Type 0 where
  pub bitmap : t.page_bitmap ≡ set_page s.page_bitmap p false
  pub used : t.used_pages ≡ s.used_pages - 1
  pub count : t.free_count ≡ add64 s.free_count 1
  pub total : t.total_pages ≡ s.total_pages
  pub hint : t.next_free_hint ≤ p
  pub valid : IsValid t

gives :
    (s : Pmm) (p : ℕ)
    → IsValid s
    → IsReturnable s p
    → GivesPage s (free_page s (some (p * page_size))) p
unfolding free_page
gives s p v r =
    let at : p * page_size / page_size ≡ p = omega arith in
    let accepted = refused_not in
    rw (at, accepted, mark_page_free-eq v p r.inside r.taken)
      (record {
        bitmap = refl;
        used = refl;
        count = refl;
        total = refl;
        hint = ground arith;
        valid = record { mapped = v.mapped; core = give-Core v.core p r.inside r.taken };
      })
  where
    refused_not :
        (p * page_size == 0
          || (not (p * page_size % page_size == 0) || (leb s.total_pages p || is_page_free s p)))
        ≡ false
    refused_not =
        let pos = r.positive in
        let ins = r.inside in ground (arith, is_page_free-eq v p r.inside, r.taken)

refuses :
    (s : Pmm) (addr : ℕ)
    → IsValid s
    → ((p : ℕ) → addr ≡ p * page_size → ¬ IsReturnable s p)
    → free_page s (some addr) ≡ s
unfolding free_page
refuses s addr v none_such = rw refused
  where
    p : ℕ
    p = addr / page_size

    checks : Bool
    checks = addr == 0 || (not (addr % page_size == 0) || (leb s.total_pages p || is_page_free s p))

    refused : checks ≡ true
    refused = elim (Bool-cases checks) [
      | inl e ↦ e
      | inr e ↦ absurd (
          none_such p (ground arith) (record {
            positive = ground arith;
            inside = ground arith;
            taken = ground (arith, is_page_free-eq v p (ground arith));
          }))
    ]

abbrev pub AcceptsPage : Pmm → Option ℕ → Type 0
AcceptsPage s addr = (p : ℕ) × (addr ≡ some (p * page_size)) × IsReturnable s p

returnable :
    (s : Pmm) (a : ℕ)
    → IsValid s
    → AcceptsPage s (some a) ⊎ ((p : ℕ) → a ≡ p * page_size → ¬ IsReturnable s p)
returnable s a v = elim (Bool-cases (refused (a / page_size))) [
  | inl e ↦ inr (λ p at r.
      let same : a / page_size ≡ p = omega arith in
      let here : refused p ≡ true = ap refused (sym same) ∙ e in
      let ins = r.inside in let pos = r.positive in ground (arith, r.taken))
  | inr e ↦ inl (
    a / page_size,
    ap some (ground arith),
    record { positive = ground arith; inside = ground arith; taken = ground arith },
  )
]
  where
    refused : ℕ → Bool
    refused p =
        a == 0
        || (not (a % page_size == 0) || (leb s.total_pages p || not (page_used s.page_bitmap p)))

-- On a valid state FreePage gives back exactly the page of the address, if that is the start of a
-- page of the memory other than page 0 that is in use; any other address, a page that is free
-- already among them, leaves the whole state as it was.
pub free_page_lem :
    (s : Pmm) (addr : Option ℕ)
    → IsValid s
    → ((p : ℕ) × (addr ≡ some (p * page_size))
        × IsReturnable s p
        × GivesPage s (free_page s addr) p)
      ⊎ ((¬ AcceptsPage s addr) × (free_page s addr ≡ s))
unfolding free_page
free_page_lem s none v = inr (λ accepted. none_some accepted.1, refl)
  where
    none_some : {a : ℕ} → none ≡ some a → ⊥
    none_some e = cc
free_page_lem s (some a) v = elim (returnable s a v) [
  | inl (p, at, r) ↦
      inl (p, at, r, subst (λ x. GivesPage s (free_page s x) p) (sym at) (gives s p v r))
  | inr none_such ↦
      inr
        (λ accepted. none_such accepted.0 (some_inj accepted.1) accepted.2, refuses s a v none_such)
]
  where
    some_inj : {a b : ℕ} → some a ≡ some b → a ≡ b
    some_inj e = cc

-- A second release of the same address changes nothing.
pub free_page-free_page :
    (s : Pmm) (addr : Option ℕ) → IsValid s → free_page (free_page s addr) addr ≡ free_page s addr
free_page-free_page s addr v = elim (free_page_lem s addr v) [
  | inr (_, same) ↦ ap (λ t. free_page t addr) same
  | inl (p, at, r, gave) ↦ elim (free_page_lem (free_page s addr) addr gave.valid) [
    | inr (_, same) ↦ same
    | inl (q, at', r', _) ↦
        let e : p ≡ q = page_inj (sym at ∙ at') in
        let cleared : page_used (free_page s addr).page_bitmap q ≡ false =
          rw (gave.bitmap, ← e) (ground (arith, page_used-set_page v.core p r.inside false p)) in
        absurd (clash (sym cleared ∙ r'.taken))
  ]
]
  where
    page_inj : {a b : ℕ} → some (a * page_size) ≡ some (b * page_size) → a ≡ b
    page_inj {a} {b} e = let inner : a * page_size ≡ b * page_size = some_inj e in omega arith
      where
        some_inj : {a b : ℕ} → some a ≡ some b → a ≡ b
        some_inj e = cc

    clash : false ≡ true → ⊥
    clash e = cc

-- Releasing the page that AllocPage returned restores the bitmap and the count of used pages.
pub free_page-alloc_page :
    (s t : Pmm) (addr : ℕ)
    → IsValid s
    → alloc_page s ≡ (some addr, t)
    → let u = free_page t (some addr) in
      (u.page_bitmap ≡ s.page_bitmap) × (u.used_pages ≡ s.used_pages) × IsValid u
free_page-alloc_page s t addr v e =
    let (p, at, takes) = subst (Allocates s (OutOfMemory s)) e (alloc_page_lem s v) in
    let back = gives t p takes.valid (record {
      positive = omega (arith, takes.page.above);
      inside = omega (arith, takes.page.inside, takes.total);
      taken =
          rw takes.bitmap (ground (arith, page_used-set_page v.core p takes.page.inside true p));
    }) in
    rw at (
      back.bitmap
          ∙ ap (λ bm. set_page bm p false) takes.bitmap
          ∙ restore s.page_bitmap p (word_inside' p takes.page.inside) takes.page.free,
      omega (arith, back.used, takes.used),
      back.valid,
    )
  where
    word_inside' : (p : ℕ) → p < s.total_pages → p / 64 < length s.page_bitmap
    word_inside' p h = omega (arith, word_inside v.core p h, v.core.size)

    restore :
        (bm : List Word) (p : ℕ)
        → p / 64 < length bm
        → page_used bm p ≡ false
        → set_page (set_page bm p true) p false ≡ bm
    restore bm p inside free = rw (
      get_or-set_self bm (p / 64) (set (word_at bm (p / 64)) (p % 64) true) [] inside,
      set-set,
      set-set,
      ← free,
      set-get_or,
      set-get_or,
    )
