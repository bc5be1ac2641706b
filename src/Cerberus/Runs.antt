-- ===== src/Cerberus/Runs.antt =====
-- Runs of the monitor: any sequence of its operations. The functions that do not test the
-- identifier of a process are called with one below the bound.
use void_frame.Prelude.{
  ℕ, ◌<◌, ◌≡◌, refl, sym, subst, Bool, false, true, not, ◌||◌, leb, arith, Bool-cases, inl, inr,
}
use void_frame.Cerberus.State.{
  Status, failed, done, violated, CerberusState, max_processes, init, unregister_process,
}
use void_frame.Cerberus.Track.{track_alloc, track_free}
use void_frame.Cerberus.Canary.{
  Memory, install_stack_canary, register_process, check_stack_canary, pre_schedule_check,
}
use void_frame.Cerberus.Watch.{tick, analyze_fault}
use void_frame.Cerberus.Counts.{WellFormed}
use void_frame.Cerberus.Regions.{Tracks, Frees, track_alloc_lem, track_free_lem}
use void_frame.Cerberus.Registry.{unregister_process_lem}
use void_frame.Cerberus.Kept.{
  init-WellFormed, install_stack_canary-WellFormed, tick-WellFormed, analyze_fault-WellFormed,
  check_stack_canary-WellFormed, pre_schedule_check-WellFormed, register_process-WellFormed,
}

pub data Step (s : CerberusState) : CerberusState → Type 0 where
  initialises : (made : Bool) → Step s (init s made)
  registers :
      (protection : Bool) (m : Memory) (pid stack_base stack_size : ℕ)
      → Step s (register_process protection s m pid stack_base stack_size).1
  installs :
      (m : Memory) (pid stack_top stack_size : ℕ)
      → Step s (install_stack_canary s m pid stack_top stack_size).1
  unregisters : (pid : ℕ) → Step s (unregister_process s pid)
  tracks : (addr size pid : ℕ) → Step s (track_alloc s addr size pid).1
  frees : (addr pid : ℕ) → pid < max_processes → Step s (track_free s addr pid).1
  checks : (m : Memory) (pid : ℕ) → Step s (check_stack_canary s m pid).1
  schedules : (m : Memory) (pid : ℕ) → pid < max_processes → Step s (pre_schedule_check s m pid)
  faults : (addr code pid : ℕ) → pid < max_processes → Step s (analyze_fault s addr code pid).1
  ticks : Step s (tick s)

pub data Reach (s : CerberusState) : CerberusState → Type 0 where
  here : Reach s s
  next : {t u : CerberusState} → Reach s t → Step t u → Reach s u

Tracks-WellFormed :
    (s : CerberusState) (addr pid : ℕ) (r : Status × CerberusState)
    → WellFormed s
    → Tracks s addr pid r
    → WellFormed r.1
Tracks-WellFormed s addr pid (failed, t) w (_, same) = subst WellFormed (sym same) w
Tracks-WellFormed s addr pid (done, t) w (_, _, _, _, valid) = valid
Tracks-WellFormed s addr pid (violated, t) w h = elim h [ ]

Frees-WellFormed :
    (s : CerberusState) (addr pid : ℕ) (r : Status × CerberusState)
    → Frees s addr pid r
    → WellFormed r.1
Frees-WellFormed s addr pid (failed, t) h = elim h [ ]
Frees-WellFormed s addr pid (done, t) (_, _, _, valid) = valid
Frees-WellFormed s addr pid (violated, t) (_, _, _, _, valid) = valid

-- Before the monitor is initialised these three do nothing, the last neither out of the table.
track_alloc_idle :
    (s : CerberusState) (addr size pid : ℕ)
    → s.is_initialized ≡ false
    → track_alloc s addr size pid ≡ (failed, s)
unfolding track_alloc
track_alloc_idle s addr size pid e = simp e refl

track_free_idle :
    (s : CerberusState) (addr pid : ℕ)
    → s.is_initialized ≡ false
    → track_free s addr pid ≡ (failed, s)
unfolding track_free
track_free_idle s addr pid e = simp e refl

unregister_process_idle :
    (s : CerberusState) (pid : ℕ)
    → (not s.is_initialized || leb max_processes pid) ≡ true
    → unregister_process s pid ≡ s
unfolding unregister_process
unregister_process_idle s pid e = rw e refl

Step-WellFormed : {s t : CerberusState} → WellFormed s → Step s t → WellFormed t
Step-WellFormed w (initialises made) = init-WellFormed made w
Step-WellFormed w (registers protection m pid stack_base stack_size) =
    register_process-WellFormed protection m pid stack_base stack_size w
Step-WellFormed w (installs m pid stack_top stack_size) =
    install_stack_canary-WellFormed m pid stack_top stack_size w
Step-WellFormed {s} w (unregisters pid) =
    elim (Bool-cases (not s.is_initialized || leb max_processes pid)) [
      | inl e ↦ subst WellFormed (sym (unregister_process_idle s pid e)) w
      | inr e ↦ elim (unregister_process_lem s pid w (ground (arith, e)) (ground (arith, e))) [
        | inl (_, u) ↦ u.valid
        | inr (_, same) ↦ subst WellFormed (sym same) w
      ]
    ]
Step-WellFormed {s} w (tracks addr size pid) = elim (Bool-cases s.is_initialized) [
  | inr e ↦ subst (λ r. WellFormed r.1) (sym (track_alloc_idle s addr size pid e)) w
  | inl e ↦
      Tracks-WellFormed s addr pid (track_alloc s addr size pid) w
        (track_alloc_lem s addr size pid w e)
]
Step-WellFormed {s} w (frees addr pid known) = elim (Bool-cases s.is_initialized) [
  | inr e ↦ subst (λ r. WellFormed r.1) (sym (track_free_idle s addr pid e)) w
  | inl e ↦
      Frees-WellFormed s addr pid (track_free s addr pid) (track_free_lem s addr pid w e known)
]
Step-WellFormed w (checks m pid) = check_stack_canary-WellFormed m pid w
Step-WellFormed w (schedules m pid known) = pre_schedule_check-WellFormed m pid w
Step-WellFormed w (faults addr code pid known) = analyze_fault-WellFormed addr code pid w
Step-WellFormed w ticks = tick-WellFormed w

-- From a well-formed state every sequence of operations of the monitor, with identifiers below the
-- bound where the code does not test them, leads to a well-formed state: 64 regions, of which
-- active_regions are active, and 128 entries, of which monitored_processes are monitored.
pub Reach-WellFormed : {s t : CerberusState} → WellFormed s → Reach s t → WellFormed t
Reach-WellFormed w here = w
Reach-WellFormed w (next r step) = Step-WellFormed (Reach-WellFormed w r) step
