-- ===== src/Cerberus/Kept.antt =====
-- Each operation of the monitor keeps the tables and counters in order.
use void_frame.Prelude.{
  ℕ, ◌<◌, ◌≡◌, ◌%◌, ◌⊎◌, refl, sym, subst, ap, ◌∙◌, Bool, true, false, not, ◌&&◌, ◌||◌, ◌==◌, leb,
  ltb, arith, Bool-cases, inl, inr, length-set,
}
use void_frame.Prelude.Words.{add32, add64}
use void_frame.Cerberus.State.{
  ProcessInfo, CerberusState, no_info, max_processes, check_interval, info_at, put_info,
  log_violation, init, close_region, clear_info,
}
use void_frame.Cerberus.Canary.{
  Memory, install_stack_canary, register_process, check_stack_canary, pre_schedule_check,
  fresh_info, canary_slot, write_word, test_value, stack_canary_value,
}
use void_frame.Cerberus.Watch.{tick, analyze_fault, escalate, classify, is_violation}
use void_frame.Cerberus.Counts.{
  flag, count-le, count-set, count-set_same, count-map_none, count-map_same, length-map, WellFormed,
}
use void_frame.Cerberus.Regions.{log_violation-WellFormed}
use void_frame.Cerberus.Alarm.{escalate-monitored}

-- An entry rewritten without a change of its mark.
put_info-WellFormed :
    {s : CerberusState} (pid : ℕ) (p : ProcessInfo)
    → WellFormed s
    → p.is_monitored ≡ (info_at s pid).is_monitored
    → WellFormed (put_info s pid p)
put_info-WellFormed {s} pid p w same = record {
  regions = w.regions;
  infos = length-set s.process_info pid p ∙ w.infos;
  active = w.active;
  monitored =
      w.monitored ∙ sym (count-set_same (λ q. q.is_monitored) s.process_info pid p no_info same);
}

pub init-WellFormed : {s : CerberusState} (made : Bool) → WellFormed s → WellFormed (init s made)
unfolding init
init-WellFormed {s} false w = record {
  regions = w.regions;
  infos = w.infos;
  active = w.active;
  monitored = w.monitored;
}
init-WellFormed {s} true w = record {
  regions = length-map close_region s.watch_regions ∙ w.regions;
  infos = length-map clear_info s.process_info ∙ w.infos;
  active = sym (count-map_none (λ r. r.is_active) close_region s.watch_regions (λ r. refl));
  monitored = sym (count-map_none (λ p. p.is_monitored) clear_info s.process_info (λ p. refl));
}

pub tick-WellFormed : {s : CerberusState} → WellFormed s → WellFormed (tick s)
unfolding tick
tick-WellFormed {s} w = elim (Bool-cases s.is_initialized) [
  | inr e ↦ simp e w
  | inl e ↦ elim (Bool-cases (add64 s.system_ticks 1 % check_interval == 0)) [
    | inr f ↦
        simp (e, f)
          (record {
            regions = w.regions;
            infos = w.infos;
            active = w.active;
            monitored = w.monitored;
          })
    | inl f ↦
        simp (e, f)
          (record {
            regions = w.regions;
            infos = length-map escalate s.process_info ∙ w.infos;
            active = w.active;
            monitored =
                w.monitored
                ∙ sym (
                    count-map_same (λ p. p.is_monitored) escalate s.process_info
                      escalate-monitored);
          })
  ]
]

analyze_fault-eq :
    (s : CerberusState) (addr code pid : ℕ)
    → s.is_initialized ≡ true
    → is_violation (classify addr code) ≡ true
    → analyze_fault s addr code pid ≡ (true, log_violation s pid)
unfolding analyze_fault log_violation
analyze_fault-eq s addr code pid e f = simp (e, f) refl

pub analyze_fault-WellFormed :
    {s : CerberusState} (addr code pid : ℕ)
    → WellFormed s
    → WellFormed (analyze_fault s addr code pid).1
unfolding analyze_fault
analyze_fault-WellFormed {s} addr code pid w = elim (Bool-cases s.is_initialized) [
  | inr e ↦ simp e w
  | inl e ↦ elim (Bool-cases (is_violation (classify addr code))) [
    | inr f ↦ simp (e, f) w
    | inl f ↦
        subst (λ r. WellFormed r.1) (sym (analyze_fault-eq s addr code pid e f))
          (log_violation-WellFormed pid w)
  ]
]

-- The check of a canary leaves the state, or counts a violation and rewrites one entry.
check_stack_canary-cases :
    (s : CerberusState) (m : Memory) (pid : ℕ)
    → ((check_stack_canary s m pid).1 ≡ s)
      ⊎ ((check_stack_canary s m pid).1
          ≡ put_info
              (log_violation s pid)
              pid
              (record (info_at (log_violation s pid) pid) { is_compromised = true }))
unfolding check_stack_canary log_violation
check_stack_canary-cases s m pid =
    let p = info_at s pid in
    elim (Bool-cases (not s.is_initialized || leb max_processes pid)) [
      | inl e ↦ inl (simp e refl)
      | inr e ↦ elim (Bool-cases (not p.is_monitored || p.stack_canary_addr == 0)) [
        | inl f ↦ inl (simp (e, f) refl)
        | inr f ↦ elim (Bool-cases (m.phys_addr p.stack_canary_addr == 0)) [
          | inl g ↦ inl (simp (e, f, g) refl)
          | inr g ↦ elim (Bool-cases (m.word p.stack_canary_addr == stack_canary_value)) [
            | inl h ↦ inl (simp (e, f, g, h) refl)
            | inr h ↦ inr (simp (e, f, g, h) refl)
          ]
        ]
      ]
    ]

pub check_stack_canary-WellFormed :
    {s : CerberusState} (m : Memory) (pid : ℕ)
    → WellFormed s
    → WellFormed (check_stack_canary s m pid).1
check_stack_canary-WellFormed {s} m pid w = elim (check_stack_canary-cases s m pid) [
  | inl e ↦ subst WellFormed (sym e) w
  | inr e ↦
      subst WellFormed (sym e) (put_info-WellFormed pid _ (log_violation-WellFormed pid w) refl)
]

pre_schedule_check-cases :
    (s : CerberusState) (m : Memory) (pid : ℕ)
    → (pre_schedule_check s m pid ≡ s)
      ⊎ (pre_schedule_check s m pid ≡ (check_stack_canary s m pid).1)
unfolding pre_schedule_check check_stack_canary
pre_schedule_check-cases s m pid =
    let p = info_at s pid in
    elim (Bool-cases (not s.is_initialized || (not p.is_monitored || p.is_compromised))) [
      | inl e ↦ inl (simp e refl)
      | inr e ↦ inr (simp e refl)
    ]

pub pre_schedule_check-WellFormed :
    {s : CerberusState} (m : Memory) (pid : ℕ)
    → WellFormed s
    → WellFormed (pre_schedule_check s m pid)
pre_schedule_check-WellFormed {s} m pid w = elim (pre_schedule_check-cases s m pid) [
  | inl e ↦ subst WellFormed (sym e) w
  | inr e ↦ subst WellFormed (sym e) (check_stack_canary-WellFormed m pid w)
]

-- Registration: the entry opened and counted, with a canary or without.
abbrev counted_once : CerberusState → CerberusState
counted_once s = record s { monitored_processes = add32 s.monitored_processes 1 }

abbrev opened : CerberusState → ℕ → CerberusState
opened s pid = put_info s pid (fresh_info pid (info_at s pid))

opened-WellFormed :
    {s : CerberusState} (pid : ℕ)
    → WellFormed s
    → pid < max_processes
    → (info_at s pid).is_monitored ≡ false
    → WellFormed (counted_once (opened s pid))
opened-WellFormed {s} pid w known fresh =
    let q = fresh_info pid (info_at s pid) in
    let taken =
      count-set (λ p. p.is_monitored) s.process_info pid q no_info (omega (arith, w.infos)) in
    let seen = ap flag fresh in
    let few = count-le (λ p. p.is_monitored) s.process_info in
    record {
      regions = w.regions;
      infos = length-set s.process_info pid q ∙ w.infos;
      active = w.active;
      monitored = omega (arith, taken, seen, few, w.monitored, w.infos);
    }

install_stack_canary-cases :
    (s : CerberusState) (m : Memory) (pid stack_top stack_size : ℕ)
    → ((install_stack_canary s m pid stack_top stack_size).1 ≡ s)
      ⊎ ((install_stack_canary s m pid stack_top stack_size).1
          ≡ put_info s pid (record (info_at s pid) { stack_canary_addr = canary_slot stack_top }))
unfolding install_stack_canary
install_stack_canary-cases s m pid stack_top stack_size =
    let slot = canary_slot stack_top in
    elim (Bool-cases (not s.is_initialized || (leb max_processes pid || ltb stack_size 0x2000))) [
      | inl e ↦ inl (simp e refl)
      | inr e ↦ elim (Bool-cases (m.phys_addr slot == 0)) [
        | inl f ↦ inl (simp (e, f) refl)
        | inr f ↦ elim (Bool-cases (not ((write_word m slot test_value).word slot == test_value))) [
          | inl g ↦ inl (simp (e, f, g) refl)
          | inr g ↦ inr (simp (e, f, g) refl)
        ]
      ]
    ]

pub install_stack_canary-WellFormed :
    {s : CerberusState} (m : Memory) (pid stack_top stack_size : ℕ)
    → WellFormed s
    → WellFormed (install_stack_canary s m pid stack_top stack_size).1
install_stack_canary-WellFormed {s} m pid stack_top stack_size w =
    elim (install_stack_canary-cases s m pid stack_top stack_size) [
      | inl e ↦ subst WellFormed (sym e) w
      | inr e ↦ subst WellFormed (sym e) (put_info-WellFormed pid _ w refl)
    ]

register_process-cases :
    (protection : Bool) (s : CerberusState) (m : Memory) (pid stack_base stack_size : ℕ)
    → ((register_process protection s m pid stack_base stack_size).1 ≡ s)
      ⊎ ((pid < max_processes)
          × ((info_at s pid).is_monitored ≡ false)
          × (((register_process protection s m pid stack_base stack_size).1
                ≡ counted_once (opened s pid))
              ⊎ ((register_process protection s m pid stack_base stack_size).1
                  ≡ counted_once
                      (install_stack_canary (opened s pid) m pid stack_base stack_size).1)))
unfolding register_process install_stack_canary
register_process-cases protection s m pid stack_base stack_size =
    elim (Bool-cases (not s.is_initialized || leb max_processes pid)) [
      | inl e ↦ inl (simp e refl)
      | inr e ↦ elim (Bool-cases (info_at s pid).is_monitored) [
        | inl f ↦ inl (simp (e, f) refl)
        | inr f ↦
            let known : pid < max_processes = ground (arith, e) in
            elim (Bool-cases (protection && (not (stack_base == 0) && ltb 16 stack_size))) [
              | inl g ↦ inr (known, f, inr (simp (e, f, g) refl))
              | inr g ↦ inr (known, f, inl (simp (e, f, g) refl))
            ]
      ]
    ]

pub register_process-WellFormed :
    {s : CerberusState} (protection : Bool) (m : Memory) (pid stack_base stack_size : ℕ)
    → WellFormed s
    → WellFormed (register_process protection s m pid stack_base stack_size).1
register_process-WellFormed {s} protection m pid stack_base stack_size w =
    elim (register_process-cases protection s m pid stack_base stack_size) [
      | inl e ↦ subst WellFormed (sym e) w
      | inr (known, fresh, r) ↦
          let base = opened-WellFormed pid w known fresh in
          elim r [
            | inl e ↦ subst WellFormed (sym e) base
            | inr e ↦
                subst WellFormed (sym e)
                  (elim (install_stack_canary-cases (opened s pid) m pid stack_base stack_size) [
                    | inl f ↦ subst (λ u. WellFormed (counted_once u)) (sym f) base
                    | inr f ↦
                        subst (λ u. WellFormed (counted_once u)) (sym f)
                          (put_info-WellFormed pid _ base refl)
                  ])
          ]
    ]
