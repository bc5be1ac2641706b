-- ===== src/Cerberus/Guard.antt =====
-- Registration with a stack canary, and the check that finds it overwritten.
use void_frame.Prelude.{
  ℕ, ◌+◌, ◌≤◌, ◌<◌, ◌≡◌, ◌≢◌, ◌⊎◌, refl, sym, subst, ap, ◌∙◌, true, false, ◌==◌, leb, ltb, arith,
  length, set, Bool-cases, inl, inr, length-set, get_or-set_self, get_or-set_ne, ==_self,
}
use void_frame.Prelude.Words.{add32}
use void_frame.Cerberus.State.{
  Status, failed, done, violated, ProcessInfo, CerberusState, no_info, max_processes, info_at,
  put_info, log_violation,
}
use void_frame.Cerberus.Canary.{
  Memory, write_word, canary_slot, stack_canary_value, test_value, register_process,
  check_stack_canary, fresh_info,
}
use void_frame.Cerberus.Regions.{log_violation-Counted, log_violation-WellFormed}
use void_frame.Cerberus.Counts.{count, count-set, count-set_same, count-le, flag, WellFormed}

-- A stack that the monitor can guard.
pub record IsGuardable (m : Memory) (stack_top stack_size : ℕ) : Type 0 where
  pub given : stack_top ≢ 0
  pub large : 0x2000 ≤ stack_size
  pub mapped : m.phys_addr (canary_slot stack_top) ≢ 0
  pub writable : m.writable (canary_slot stack_top) ≡ true

abbrev pub Guards : CerberusState → Memory → ℕ → ℕ → Status × CerberusState × Memory → Type 0
Guards s m pid stack_top (st, t, m') =
    (st ≡ done)
    × (m'.word (canary_slot stack_top) ≡ stack_canary_value)
    × ((b : ℕ)
        → (b + 8 ≤ canary_slot stack_top) ⊎ (canary_slot stack_top + 8 ≤ b)
        → m'.word b ≡ m.word b)
    × (m'.phys_addr ≡ m.phys_addr)
    × (m'.writable ≡ m.writable)
    × (info_at t pid
        ≡ record (fresh_info pid (info_at s pid)) { stack_canary_addr = canary_slot stack_top })
    × ((p : ℕ) → p ≢ pid → info_at t p ≡ info_at s p)
    × (t.monitored_processes ≡ s.monitored_processes + 1)
    × (t ≡ record s { process_info = t.process_info; monitored_processes = t.monitored_processes })
    × WellFormed t

-- The state and the memory that a guarded registration makes.
abbrev guarded_info : CerberusState → ℕ → ℕ → ProcessInfo
guarded_info s pid stack_top = record (fresh_info pid (info_at s pid)) {
  stack_canary_addr = canary_slot stack_top;
}

abbrev guarded_state : CerberusState → ℕ → ℕ → CerberusState
guarded_state s pid stack_top = record s {
  process_info =
      set (set s.process_info pid (fresh_info pid (info_at s pid))) pid
        (guarded_info s pid stack_top);
  monitored_processes = add32 s.monitored_processes 1;
}

abbrev guarded_memory : Memory → ℕ → Memory
guarded_memory m stack_top =
    write_word (write_word m (canary_slot stack_top) test_value) (canary_slot stack_top)
      stack_canary_value

register_process-eq :
    (s : CerberusState) (m : Memory) (pid stack_top stack_size : ℕ)
    → WellFormed s
    → s.is_initialized ≡ true
    → pid < max_processes
    → (info_at s pid).is_monitored ≡ false
    → IsGuardable m stack_top stack_size
    → register_process true s m pid stack_top stack_size
      ≡ (done, guarded_state s pid stack_top, guarded_memory m stack_top)
unfolding register_process
register_process-eq s m pid stack_top stack_size w ready known fresh g =
    let inside : leb max_processes pid ≡ false = ground arith in
    let large : ltb 16 stack_size ≡ true = ground (arith, g.large) in
    let given : (stack_top == 0) ≡ false = ground (arith, g.given) in
    let enough : ltb stack_size 0x2000 ≡ false = ground (arith, g.large) in
    let mapped : (m.phys_addr (canary_slot stack_top) == 0) ≡ false = ground (arith, g.mapped) in
    let self = ==_self (canary_slot stack_top) in
    let q = fresh_info pid (info_at s pid) in
    let back = get_or-set_self s.process_info pid q no_info (omega (arith, w.infos)) in
    simp (inside, fresh, given, large, enough, mapped, g.writable, self, ready, back) refl

pub register_process_lem :
    (s : CerberusState) (m : Memory) (pid stack_top stack_size : ℕ)
    → WellFormed s
    → s.is_initialized ≡ true
    → pid < max_processes
    → (info_at s pid).is_monitored ≡ false
    → IsGuardable m stack_top stack_size
    → Guards s m pid stack_top (register_process true s m pid stack_top stack_size)
unfolding register_process
register_process_lem s m pid stack_top stack_size w ready known fresh g =
    subst (Guards s m pid stack_top)
      (sym (register_process-eq s m pid stack_top stack_size w ready known fresh g))
      (
        refl,
        ground (arith, g.writable, ==_self (canary_slot stack_top)),
        λ b apart. ground (arith, apart),
        refl,
        refl,
        get_or-set_self (set s.process_info pid q) pid q' no_info (omega (arith, size, w.infos)),
        λ p apart.
            get_or-set_ne (set s.process_info pid q) pid p q' no_info (λ e. apart (sym e))
            ∙ get_or-set_ne s.process_info pid p q no_info (λ e. apart (sym e)),
        more,
        refl,
        record {
          regions = w.regions;
          infos = length-set (set s.process_info pid q) pid q' ∙ size ∙ w.infos;
          active = w.active;
          monitored = more ∙ sym counted;
        },
      )
  where
    q : ProcessInfo
    q = fresh_info pid (info_at s pid)

    q' : ProcessInfo
    q' = guarded_info s pid stack_top

    size : length (set s.process_info pid q) ≡ length s.process_info
    size = length-set s.process_info pid q

    counted :
        count (λ p. p.is_monitored) (set (set s.process_info pid q) pid q')
        ≡ s.monitored_processes + 1
    counted =
        let here : pid < length s.process_info = omega (arith, w.infos) in
        let first = count-set (λ p. p.is_monitored) s.process_info pid q no_info here in
        let seen = ap flag fresh in
        count-set_same (λ p. p.is_monitored) (set s.process_info pid q) pid q' no_info
          (sym (ap (λ p. p.is_monitored) (get_or-set_self s.process_info pid q no_info here)))
        ∙ omega (arith, first, seen, w.monitored)

    more : add32 s.monitored_processes 1 ≡ s.monitored_processes + 1
    more =
        let few = count-le (λ p. p.is_monitored) s.process_info in
        omega (arith, few, w.monitored, w.infos)

-- What the check makes of a state in which a canary is recorded for a monitored process.
abbrev pub Checks : CerberusState → Memory → ℕ → ℕ → Status × CerberusState → Type 0
Checks s m pid addr (failed, t) = ⊥
Checks s m pid addr (done, t) = (m.word addr ≡ stack_canary_value) × (t ≡ s)
Checks s m pid addr (violated, t) =
    (m.word addr ≢ stack_canary_value)
    × ((info_at t pid).is_compromised ≡ true)
    × ((info_at t pid).violation_count ≡ add32 (info_at s pid).violation_count 1)
    × (t.total_violations ≡ add32 s.total_violations 1)
    × (t.watch_regions ≡ s.watch_regions)

abbrev compromised_info : ProcessInfo → ProcessInfo
compromised_info p = record p { is_compromised = true }

-- The two ends of the check, for a canary that is recorded and mapped.
module _ (s : CerberusState) (m : Memory) (pid addr : ℕ) (ready : s.is_initialized ≡ true)
    (known : pid < max_processes) (monitored : (info_at s pid).is_monitored ≡ true)
    (at : (info_at s pid).stack_canary_addr ≡ addr) (nonzero : addr ≢ 0)
    (mapped : m.phys_addr addr ≢ 0) where
  inside : leb max_processes pid ≡ false
  inside = ground arith

  given : (addr == 0) ≡ false
  given = ground arith

  present : (m.phys_addr addr == 0) ≡ false
  present = ground arith

  check-whole : (m.word addr == stack_canary_value) ≡ true → check_stack_canary s m pid ≡ (done, s)
  unfolding check_stack_canary log_violation
  check-whole e = simp (ready, inside, monitored, at, given, present, e) refl

  check-broken :
      (m.word addr == stack_canary_value) ≡ false
      → check_stack_canary s m pid ≡ (
        violated,
        put_info (log_violation s pid) pid (compromised_info (info_at (log_violation s pid) pid)),
      )
  unfolding check_stack_canary log_violation
  check-broken e = simp (ready, inside, monitored, at, given, present, e) refl

  check_stack_canary-Checks : WellFormed s → Checks s m pid addr (check_stack_canary s m pid)
  check_stack_canary-Checks w = elim (Bool-cases (m.word addr == stack_canary_value)) [
    | inl e ↦
        let whole : m.word addr ≡ stack_canary_value = ground arith in
        subst (Checks s m pid addr) (sym (check-whole e)) (whole, refl)
    | inr e ↦
        let broken : m.word addr ≢ stack_canary_value = ground arith in
        let u = log_violation s pid in
        let (same, total, mine) = log_violation-Counted s pid w ready known in
        let valid = log_violation-WellFormed pid w in
        let here =
          get_or-set_self u.process_info pid (compromised_info (info_at u pid)) no_info
            (omega (arith, valid.infos)) in
        subst (Checks s m pid addr) (sym (check-broken e)) (
          broken,
          ap (λ p. p.is_compromised) here,
          ap (λ p. p.violation_count) here ∙ mine,
          total,
          same,
        )
  ]

-- After a guarded registration, whatever the memory is by then: while the canary's page is mapped,
-- CerberusCheckStackCanary reports nothing and changes nothing exactly if the word still is the
-- canary, and otherwise reports a violation, counts it in the total and as the first of the
-- process, and marks the process as compromised.
pub check_stack_canary-register_process :
    (s : CerberusState) (m later : Memory) (pid stack_top stack_size : ℕ)
    → WellFormed s
    → s.is_initialized ≡ true
    → pid < max_processes
    → (info_at s pid).is_monitored ≡ false
    → IsGuardable m stack_top stack_size
    → canary_slot stack_top ≢ 0
    → later.phys_addr (canary_slot stack_top) ≢ 0
    → let t = (register_process true s m pid stack_top stack_size).1 in
      Checks t later pid (canary_slot stack_top) (check_stack_canary t later pid)
check_stack_canary-register_process s m later pid stack_top stack_size w ready known fresh g nonzero
      mapped =
    let (_, _, _, _, _, mine, _, _, frame, w') =
      register_process_lem s m pid stack_top stack_size w ready known fresh g in
    check_stack_canary-Checks (register_process true s m pid stack_top stack_size).1 later pid
      (canary_slot stack_top) (ap (λ t. t.is_initialized) frame ∙ ready) known
      (ap (λ p. p.is_monitored) mine) (ap (λ p. p.stack_canary_addr) mine) nonzero mapped w'
