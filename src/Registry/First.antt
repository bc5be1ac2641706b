-- ===== src/Registry/First.antt =====
-- The loop of both files that ends at the first place that passes a test.
use void_frame.Prelude.{
  ℕ, zero, suc, ◌+◌, ◌≤◌, ◌<◌, ◌≡◌, Bool, true, false, Option, none, some, if◌then◌else◌, arith,
  Bool-cases, inl, inr, ◌==◌,
}

-- The places i .. i + n.
unfoldable pub first_place : (ℕ → Bool) → ℕ → ℕ → Option ℕ
first_place test zero i = none
first_place test (suc n) i =
    let rest = first_place test n (i + 1) in if test i then some i else rest

pub record IsFirst (test : ℕ → Bool) (from to j : ℕ) : Type 0 where
  pub above : from ≤ j
  pub below : j < to
  pub passes : test j ≡ true
  pub before : (i : ℕ) → from ≤ i → i < j → test i ≡ false

abbrev pub First : (ℕ → Bool) → ℕ → ℕ → Option ℕ → Type 0
First test from to none = (i : ℕ) → from ≤ i → i < to → test i ≡ false
First test from to (some j) = IsFirst test from to j

First-next :
    (test : ℕ → Bool) (i to : ℕ) (o : Option ℕ)
    → test i ≡ false
    → First test (i + 1) to o
    → First test i to o
First-next test i to none miss h = λ k a b. elim (Bool-cases (k == i)) [
  | inl e ↦ let same : k ≡ i = ground arith in rw same miss
  | inr e ↦ h k (ground arith) b
]
First-next test i to (some j) miss h = record {
  above = let a = h.above in omega arith;
  below = h.below;
  passes = h.passes;
  before = λ k a b. elim (Bool-cases (k == i)) [
    | inl e ↦ let same : k ≡ i = ground arith in rw same miss
    | inr e ↦ h.before k (ground arith) b
  ];
}

pub first_place-First :
    (test : ℕ → Bool) (n i to : ℕ) → to ≡ i + n → First test i to (first_place test n i)
unfolding first_place
first_place-First test zero i to e = λ k a b. absurd (omega arith)
first_place-First test (suc n) i to e = elim (Bool-cases (test i)) [
  | inl hit ↦ rw hit (record {
    above = omega arith;
    below = omega arith;
    passes = hit;
    before = λ k a b. absurd (omega arith);
  })
  | inr miss ↦ rw miss (
      First-next test i to (first_place test n (i + 1)) miss
        (first_place-First test n (i + 1) to (omega arith)))
]
