-- ===== src/Eevdf/Slices.antt =====
-- The slices that EEVDFCalcSlice gives: their bounds, their order by the load of the queue, and the share they are.
use native.Mathlib.Nat.{div-mul-le_self, le-div_iff_mul-le, mul-le-mul_left}
use void_frame.Prelude.{
  ℕ, ◌*◌, ◌/◌, ◌%◌, ◌≤◌, ◌<◌, ◌≡◌, ◌≢◌, ◌-◌, ◌⊎◌, inl, inr, refl, sym, ap, subst, ◌∙◌, Bool-cases,
  false, ltb, leb, ◌==◌, if◌then◌else◌, arith,
}
use void_frame.Prelude.Words.{u32_mod}
use void_frame.Eevdf.State.{ProcessControlBlock, Runqueue}
use void_frame.Eevdf.Time.{
  time_slice_ns, min_granularity, target_latency, max_time_slice_ns, calc_slice,
}

-- The greatest weight whose product with the latency fits 32 bits.
abbrev pub fitting_weight : ℕ
fitting_weight = 715

abbrev clamped : ℕ → ℕ
clamped slice =
    let at_least = if ltb slice min_granularity then min_granularity else slice in
    if ltb max_time_slice_ns at_least then max_time_slice_ns else at_least

clamped_bounds : (n : ℕ) → (min_granularity ≤ clamped n) × (clamped n ≤ max_time_slice_ns)
clamped_bounds n = (ground arith, ground arith)

clamped_mono : (n m : ℕ) → n ≤ m → clamped n ≤ clamped m
clamped_mono n m h = ground arith

calc_slice-clamped :
    (rq : Runqueue) (se : ProcessControlBlock)
    → rq.nr_running ≢ 0
    → calc_slice rq se ≡ clamped (target_latency * se.weight % u32_mod / rq.load_weight)
unfolding calc_slice
calc_slice-clamped rq se h =
    let busy : (rq.nr_running == 0) ≡ false = ground (arith, h) in rw busy refl

calc_slice-idle :
    (rq : Runqueue) (se : ProcessControlBlock)
    → rq.nr_running ≡ 0
    → calc_slice rq se ≡ time_slice_ns
unfolding calc_slice
calc_slice-idle rq se h = rw h refl

div_antitone : (a n m : ℕ) → 0 < n → n ≤ m → a / m ≤ a / n
div_antitone a n m pos h =
    let below = div-mul-le_self a m in
    let grown = mul-le-mul_left (a / m) h in (le-div_iff_mul-le pos).1 (omega (arith, below, grown))

fits : (w : ℕ) → w ≤ fitting_weight → target_latency * w % u32_mod ≡ target_latency * w
fits w h = omega arith

-- What of the product of the latency and a weight does not fit 32 bits, in units of 2^32.
abbrev wrapped : ℕ → ℕ
wrapped weight = target_latency * weight / u32_mod

-- The share of the latency that a weight has in a load, within the bounds of slices: for a weight above
-- 715, that of the product that is left of it in 32 bits.
abbrev pub IsShare : ℕ → ℕ → ℕ → Type 0
IsShare weight load slice =
    ((weight ≤ fitting_weight) × (slice ≡ clamped (target_latency * weight / load)))
    ⊎ ((fitting_weight < weight)
        × (slice ≡ clamped ((target_latency * weight - wrapped weight * u32_mod) / load))
        × (0 < wrapped weight))

calc_slice-IsShare :
    (rq : Runqueue) (se : ProcessControlBlock)
    → rq.nr_running ≢ 0
    → IsShare se.weight rq.load_weight (calc_slice rq se)
calc_slice-IsShare rq se busy = elim (Bool-cases (leb se.weight fitting_weight)) [
  | inl e ↦
      let small : se.weight ≤ fitting_weight = ground arith in
      inl (
        small,
        calc_slice-clamped rq se busy
            ∙ ap (λ n. clamped (n / rq.load_weight)) (fits se.weight small),
      )
  | inr e ↦
      let large : fitting_weight < se.weight = ground arith in
      let left : target_latency * se.weight % u32_mod
          ≡ target_latency * se.weight - wrapped se.weight * u32_mod =
        omega arith in
      inr (
        large,
        calc_slice-clamped rq se busy ∙ ap (λ n. clamped (n / rq.load_weight)) left,
        omega arith,
      )
]

-- In two run queues with tasks, of which the first has at least the load of the second, which is not 0,
-- a task of any weight gets no longer a slice in the first; the slices are between the minimum
-- granularity and the maximum slice. The slice is the share of the latency that the weight has in the
-- load, kept between these bounds; for a weight above 715, the latency times the weight does not fit 32
-- bits, and the slice is that of the product less the multiple of 2^32 that is lost.
pub calc_slice_lem :
    (rq rq' : Runqueue) (se : ProcessControlBlock)
    → rq.nr_running ≢ 0
    → rq'.nr_running ≢ 0
    → 0 < rq'.load_weight
    → rq'.load_weight ≤ rq.load_weight
    → (min_granularity ≤ calc_slice rq se)
      × (calc_slice rq se ≤ calc_slice rq' se)
      × (calc_slice rq' se ≤ max_time_slice_ns)
      × IsShare se.weight rq'.load_weight (calc_slice rq' se)
calc_slice_lem rq rq' se busy busy' loaded less =
    let a = target_latency * se.weight % u32_mod in
    let e = calc_slice-clamped rq se busy in
    let e' = calc_slice-clamped rq' se busy' in
    (
      subst (λ n. min_granularity ≤ n) (sym e) (clamped_bounds (a / rq.load_weight)).0,
      subst (λ n. n ≤ calc_slice rq' se) (sym e)
          (subst (λ n. clamped (a / rq.load_weight) ≤ n) (sym e')
            (clamped_mono (a / rq.load_weight) (a / rq'.load_weight)
              (div_antitone a rq'.load_weight rq.load_weight loaded less))),
      subst (λ n. n ≤ max_time_slice_ns) (sym e') (clamped_bounds (a / rq'.load_weight)).1,
      calc_slice-IsShare rq' se busy',
    )
