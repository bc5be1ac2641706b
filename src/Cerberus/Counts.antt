-- ===== src/Cerberus/Counts.antt =====
-- How many entries of a table pass a test, and the counters of Cerberus as such numbers.
use void_frame.Prelude.{
  ℕ, zero, suc, ◌+◌, ◌≤◌, ◌<◌, ◌≡◌, refl, Bool, true, false, not, List, [], ◌∷◌, Option, none, some,
  arith, length, get_or, set, map, Bool-cases, inl, inr,
}
use void_frame.Cerberus.State.{
  WatchRegion, CerberusState, no_region, max_watch_regions, max_processes,
}
use void_frame.Cerberus.Track.{find_region, is_tracked_as}

abbrev pub flag : Bool → ℕ
flag true = 1
flag false = 0

module _ {ℓ} {A : Type ℓ} where
  unfoldable pub count : (A → Bool) → List A → ℕ
  count test [] = 0
  count test (x ∷ xs) = flag (test x) + count test xs

  pub count-le : (test : A → Bool) (xs : List A) → count test xs ≤ length xs
  unfolding count
  count-le test [] = omega arith
  count-le test (x ∷ xs) = let below = count-le test xs in ground arith

  pub count-set :
      (test : A → Bool) (xs : List A) (i : ℕ) (v d : A)
      → i < length xs
      → count test (set xs i v) + flag (test (get_or xs i d)) ≡ count test xs + flag (test v)
  unfolding count
  count-set test [] i v d h = absurd (omega arith)
  count-set test (x ∷ xs) zero v d h = omega arith
  count-set test (x ∷ xs) (suc i) v d h = omega (arith, count-set test xs i v d (omega arith))

  -- A write that changes no test changes no count.
  pub count-set_same :
      (test : A → Bool) (xs : List A) (i : ℕ) (v d : A)
      → test v ≡ test (get_or xs i d)
      → count test (set xs i v) ≡ count test xs
  unfolding count
  count-set_same test [] i v d h = refl
  count-set_same test (x ∷ xs) zero v d h = rw h refl
  count-set_same test (x ∷ xs) (suc i) v d h = omega (arith, count-set_same test xs i v d h)

  pub count-pos :
      (test : A → Bool) (xs : List A) (i : ℕ) (d : A)
      → i < length xs
      → test (get_or xs i d) ≡ true
      → 0 < count test xs
  unfolding count
  count-pos test [] i d h e = absurd (omega arith)
  count-pos test (x ∷ xs) zero d h e = rw e (omega arith)
  count-pos test (x ∷ xs) (suc i) d h e = omega (arith, count-pos test xs i d (omega arith) e)

  pub count-map_same :
      (test : A → Bool) (f : A → A) (xs : List A)
      → ((x : A) → test (f x) ≡ test x)
      → count test (map f xs) ≡ count test xs
  unfolding count
  count-map_same test f [] h = refl
  count-map_same test f (x ∷ xs) h = rw (h x) (omega (arith, count-map_same test f xs h))

  pub count-map_none :
      (test : A → Bool) (f : A → A) (xs : List A)
      → ((x : A) → test (f x) ≡ false)
      → count test (map f xs) ≡ 0
  unfolding count
  count-map_none test f [] h = refl
  count-map_none test f (x ∷ xs) h = rw (h x) (omega (arith, count-map_none test f xs h))

  pub count-full :
      (test : A → Bool) (xs : List A) → count (λ x. not (test x)) xs ≡ 0 → count test xs ≡ length xs
  unfolding count
  count-full test [] h = refl
  count-full test (x ∷ xs) h = elim (Bool-cases (test x)) [
    | inl e ↦
        let none_left : count (λ y. not (test y)) xs ≡ 0 = ground arith in
        rw e (omega (arith, count-full test xs none_left))
    | inr e ↦ absurd (ground arith)
  ]

  pub length-map : (f : A → A) (xs : List A) → length (map f xs) ≡ length xs
  length-map f [] = refl
  length-map f (x ∷ xs) = omega (arith, length-map f xs)

  pub get_or-map :
      (f : A → A) (xs : List A) (i : ℕ) (d : A)
      → i < length xs
      → get_or (map f xs) i d ≡ f (get_or xs i d)
  get_or-map f [] i d h = absurd (omega arith)
  get_or-map f (x ∷ xs) zero d h = refl
  get_or-map f (x ∷ xs) (suc i) d h = get_or-map f xs i d (omega arith)

-- The tables have their sizes, and the counters agree with them.
pub record WellFormed (s : CerberusState) : Type 0 where
  pub regions : length s.watch_regions ≡ max_watch_regions
  pub infos : length s.process_info ≡ max_processes
  pub active : s.active_regions ≡ count (λ r. r.is_active) s.watch_regions
  pub monitored : s.monitored_processes ≡ count (λ p. p.is_monitored) s.process_info

-- How often the allocation at `addr` of the process `pid` is tracked.
abbrev pub tracked : CerberusState → ℕ → ℕ → ℕ
tracked s addr pid = count (is_tracked_as addr pid) s.watch_regions

-- What the search finds: a region that passes the test, or none passes it.
abbrev pub Finds : (WatchRegion → Bool) → List WatchRegion → ℕ → Option ℕ → Type 0
Finds test rs i none = count test rs ≡ 0
Finds test rs i (some j) =
    (k : ℕ) × (j ≡ i + k) × (k < length rs) × (test (get_or rs k no_region) ≡ true)

pub find_region-Finds :
    (test : WatchRegion → Bool) (rs : List WatchRegion) (i : ℕ)
    → Finds test rs i (find_region test rs i)
unfolding find_region count
find_region-Finds test [] i = refl
find_region-Finds test (r ∷ rs) i = elim (Bool-cases (test r)) [
  | inl hit ↦ rw hit (0, omega arith, omega arith, hit)
  | inr miss ↦
      rw miss (later (find_region test rs (i + 1)) miss (find_region-Finds test rs (i + 1)))
]
  where
    later : (o : Option ℕ) → test r ≡ false → Finds test rs (i + 1) o → Finds test (r ∷ rs) i o
    later none miss h = rw miss (omega (arith, h))
    later (some j) miss (k, at, inside, passes) = (suc k, omega arith, omega arith, passes)
