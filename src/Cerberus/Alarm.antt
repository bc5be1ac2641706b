-- ===== src/Cerberus/Alarm.antt =====
-- CerberusTick marks a process that has too many violations.
use void_frame.Prelude.{
  ℕ, zero, suc, ◌+◌, ◌%◌, ◌≤◌, ◌<◌, ◌≡◌, ◌≢◌, refl, sym, subst, ap, ◌∙◌, Bool, true, ◌==◌, arith,
  length, get_or, map, Bool-cases, inl, inr,
}
use void_frame.Prelude.Words.{add64, u64_mod}
use void_frame.Cerberus.State.{
  ProcessInfo, CerberusState, no_info, violation_threshold, check_interval, info_at,
}
use void_frame.Cerberus.Watch.{tick, escalate, is_excessive}
use void_frame.Cerberus.Counts.{length-map, get_or-map}

unfoldable pub ticks : ℕ → CerberusState → CerberusState
ticks zero s = s
ticks (suc n) s = ticks n (tick s)

-- A process that is to be marked.
pub record Alarmed (s : CerberusState) (pid : ℕ) : Type 0 where
  pub ready : s.is_initialized ≡ true
  pub inside : pid < length s.process_info
  pub monitored : (info_at s pid).is_monitored ≡ true
  pub over : violation_threshold < (info_at s pid).violation_count

pub escalate-monitored : (p : ProcessInfo) → (escalate p).is_monitored ≡ p.is_monitored
escalate-monitored p = elim (Bool-cases (is_excessive p)) [ inl e ↦ rw e refl | inr e ↦ rw e refl ]

escalate-violation_count : (p : ProcessInfo) → (escalate p).violation_count ≡ p.violation_count
escalate-violation_count p = elim (Bool-cases (is_excessive p)) [
  | inl e ↦ rw e refl
  | inr e ↦ rw e refl
]

escalate_keeps : (p : ProcessInfo) → p.is_compromised ≡ true → (escalate p).is_compromised ≡ true
escalate_keeps p c = elim (Bool-cases (is_excessive p)) [ inl e ↦ rw e refl | inr e ↦ rw e c ]

escalate_marks :
    (p : ProcessInfo)
    → p.is_monitored ≡ true
    → violation_threshold < p.violation_count
    → (escalate p).is_compromised ≡ true
escalate_marks p m over = elim (Bool-cases (is_excessive p)) [
  | inl e ↦ rw e refl
  | inr e ↦ rw e (ground arith)
]

module _ {s : CerberusState} {pid : ℕ} (a : Alarmed s pid) where
  mapped : get_or (map escalate s.process_info) pid no_info ≡ escalate (info_at s pid)
  mapped = get_or-map escalate s.process_info pid no_info a.inside

  due : Bool
  due = add64 s.system_ticks 1 % check_interval == 0

  tick-Alarmed : Alarmed (tick s) pid
  unfolding tick due
  tick-Alarmed = elim (Bool-cases due) [
    | inl e ↦
        simp (a.ready, e)
          (record {
            ready = refl;
            inside = omega (arith, a.inside, length-map escalate s.process_info);
            monitored =
                ap (λ p. p.is_monitored) mapped ∙ escalate-monitored (info_at s pid) ∙ a.monitored;
            over =
                subst (λ p. violation_threshold < p.violation_count) (sym mapped)
                  (omega (arith, escalate-violation_count (info_at s pid), a.over));
          })
    | inr e ↦
        simp (a.ready, e)
          (record { ready = refl; inside = a.inside; monitored = a.monitored; over = a.over })
  ]

  tick_keeps : (info_at s pid).is_compromised ≡ true → (info_at (tick s) pid).is_compromised ≡ true
  unfolding tick due
  tick_keeps c = elim (Bool-cases due) [
    | inl e ↦
        simp (a.ready, e) (ap (λ p. p.is_compromised) mapped ∙ escalate_keeps (info_at s pid) c)
    | inr e ↦ simp (a.ready, e) c
  ]

  tick_marks : due ≡ true → (info_at (tick s) pid).is_compromised ≡ true
  unfolding tick due
  tick_marks e =
      simp (a.ready, e)
        (ap (λ p. p.is_compromised) mapped ∙ escalate_marks (info_at s pid) a.monitored a.over)

  tick_counts : (tick s).system_ticks ≡ add64 s.system_ticks 1
  unfolding tick due
  tick_counts = elim (Bool-cases due) [
    | inl e ↦ simp (a.ready, e) refl
    | inr e ↦ simp (a.ready, e) refl
  ]

ticks_keep :
    (n : ℕ) {s : CerberusState} {pid : ℕ}
    → Alarmed s pid
    → (info_at s pid).is_compromised ≡ true
    → (info_at (ticks n s) pid).is_compromised ≡ true
unfolding ticks
ticks_keep zero a c = c
ticks_keep (suc n) a c = ticks_keep n (tick-Alarmed a) (tick_keeps a c)

ticks_mark :
    (n : ℕ) {s : CerberusState} {pid : ℕ}
    → Alarmed s pid
    → s.system_ticks + n < u64_mod
    → check_interval ≤ s.system_ticks % check_interval + n
    → (info_at (ticks n s) pid).is_compromised ≡ true
unfolding ticks due
ticks_mark zero a small enough = absurd (omega arith)
ticks_mark (suc n) {s} {pid} a small enough =
    let more = tick_counts a in
    elim (Bool-cases (add64 s.system_ticks 1 % check_interval == 0)) [
      | inl e ↦ ticks_keep n (tick-Alarmed a) (tick_marks a e)
      | inr e ↦
          let later : (s.system_ticks + 1) % check_interval ≢ 0 = ground arith in
          ticks_mark n (tick-Alarmed a) (omega arith) (omega arith)
    ]

-- A monitored process with more violations than the threshold is compromised after as many ticks
-- as the check interval has, if the count of ticks does not wrap around in them.
pub ticks-compromised :
    (s : CerberusState) (pid : ℕ)
    → Alarmed s pid
    → s.system_ticks + check_interval < u64_mod
    → (info_at (ticks check_interval s) pid).is_compromised ≡ true
ticks-compromised s pid a small = ticks_mark check_interval a small (omega arith)
