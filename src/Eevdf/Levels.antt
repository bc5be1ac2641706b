-- ===== src/Eevdf/Levels.antt =====
-- The weights that EEVDFSetTaskNice gives: their range, their order, and their inverses.
use void_frame.Prelude.{
  ℕ, zero, suc, ◌+◌, ◌-◌, ◌*◌, ◌^◌, ◌≤◌, ◌<◌, ◌≡◌, refl, subst, Bool, true, ◌&&◌, leb, ltb, get_or,
  arith, every, every-apply, ltb→le, Bool-cases, inl, inr,
}
use void_frame.Eevdf.Nice.{
  ℤ, pos, negsuc, clamp_nice, nice_index, eevdf_nice_to_weight, eevdf_nice_to_wmult, nice_to_weight,
  nice_to_wmult,
}
use void_frame.Eevdf.State.{ProcessControlBlock}
use void_frame.Eevdf.Time.{set_task_nice}

abbrev weight_at : ℕ → ℕ
weight_at i = get_or eevdf_nice_to_weight i 0

abbrev wmult_at : ℕ → ℕ
wmult_at i = get_or eevdf_nice_to_wmult i 0

abbrev in_range : ℕ → Bool
in_range i = leb 15 (weight_at i) && leb (weight_at i) 88761

abbrev is_inverse : ℕ → Bool
is_inverse i =
    leb (2 ^ 32) (weight_at i * wmult_at i + weight_at i)
    && leb (weight_at i * wmult_at i) (2 ^ 32 + weight_at i)

abbrev falls : ℕ → Bool
falls i = leb (weight_at (suc i)) (weight_at i)

-- The weight of a task, and its inverse: their product is 2^32 but for less than the weight.
pub record IsWeighted (p : ProcessControlBlock) : Type 0 where
  pub least : 15 ≤ p.weight
  pub greatest : p.weight ≤ 88761
  pub over : 2 ^ 32 ≤ p.weight * p.inv_weight + p.weight
  pub under : p.weight * p.inv_weight ≤ 2 ^ 32 + p.weight

range-all : every in_range 40 ≡ true
unfolding every
range-all = refl

inverse-all : every is_inverse 40 ≡ true
unfolding every
inverse-all = refl

falls-all : every falls 39 ≡ true
unfolding every
falls-all = refl

clamp_index : (a : ℤ) → nice_index (clamp_nice a) < 40
clamp_index (pos n) = elim (Bool-cases (ltb 19 n)) [
  | inl e ↦ rw e (omega arith)
  | inr e ↦ let h = ltb→le 19 n e in rw e (omega arith)
]
clamp_index (negsuc n) = elim (Bool-cases (ltb 19 n)) [
  | inl e ↦ rw e (omega arith)
  | inr e ↦ rw e (omega arith)
]

clamp_twice : (a : ℤ) → clamp_nice (clamp_nice a) ≡ clamp_nice a
clamp_twice (pos n) = elim (Bool-cases (ltb 19 n)) [ inl e ↦ rw e refl | inr e ↦ rw (e, e) refl ]
clamp_twice (negsuc n) = elim (Bool-cases (ltb 19 n)) [ inl e ↦ rw e refl | inr e ↦ rw (e, e) refl ]

clamp_mono :
    (a b : ℤ) → nice_index a ≤ nice_index b → nice_index (clamp_nice a) ≤ nice_index (clamp_nice b)
clamp_mono (pos n) (pos m) h = ground arith
clamp_mono (pos n) (negsuc m) h = ground arith
clamp_mono (negsuc n) (pos m) h = ground arith
clamp_mono (negsuc n) (negsuc m) h = ground arith

leb_sound : (a b : ℕ) → leb a b ≡ true → a ≤ b
leb_sound a b h = ground arith

both_sound : (a b c d : ℕ) → (leb a b && leb c d) ≡ true → (a ≤ b) × (c ≤ d)
both_sound a b c d h = (ground arith, ground arith)

weights_fall : (d i : ℕ) → i + d < 40 → weight_at (i + d) ≤ weight_at i
weights_fall zero i h = subst (λ k. weight_at k ≤ weight_at i) (natural i) (omega arith)
  where
    natural : (n : ℕ) → n ≡ n + 0
    natural n = omega arith
weights_fall (suc d) i h =
    let before = weights_fall d i (omega arith) in
    let step = every-apply falls 39 (i + d) (omega arith) falls-all in
    let last = leb_sound (weight_at (suc (i + d))) (weight_at (i + d)) step in
    subst (λ k. weight_at k ≤ weight_at i) (next i d) (omega arith)
  where
    next : (n m : ℕ) → suc (n + m) ≡ n + suc m
    next n m = omega arith

at_least : (i j : ℕ) → i ≤ j → j < 40 → weight_at j ≤ weight_at i
at_least i j h inside =
    subst (λ k. weight_at k ≤ weight_at i) (split i j h) (weights_fall (j - i) i (omega arith))
  where
    split : (i j : ℕ) → i ≤ j → i + (j - i) ≡ j
    split i j h = omega arith

-- A task that is given a nice level, whatever it is, has a weight between 15 and 88761 whose product with
-- the inverse weight differs from 2^32 by no more than the weight, and a task with a higher level has no
-- greater weight.
pub set_task_nice_lem :
    (p : ProcessControlBlock) (a b : ℤ)
    → nice_index a ≤ nice_index b
    → IsWeighted (set_task_nice p a) × ((set_task_nice p b).weight ≤ (set_task_nice p a).weight)
unfolding set_task_nice nice_to_weight nice_to_wmult
set_task_nice_lem p a b h =
    let i = nice_index (clamp_nice a) in
    let range = both_sound _ _ _ _ (every-apply in_range 40 i (clamp_index a) range-all) in
    let inverse = both_sound _ _ _ _ (every-apply is_inverse 40 i (clamp_index a) inverse-all) in
    rw (clamp_twice a, clamp_twice b)
      (
        record { least = range.0; greatest = range.1; over = inverse.0; under = inverse.1 },
        at_least i (nice_index (clamp_nice b)) (clamp_mono a b h) (clamp_index b),
      )
