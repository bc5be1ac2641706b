-- ===== src/Cerberus/Regions.antt =====
-- The tracked allocations as a bag: what CerberusTrackAlloc adds and CerberusTrackFree removes.
use void_frame.Prelude.{
  ℕ, ◌+◌, ◌<◌, ◌≡◌, refl, sym, subst, ap, ◌∙◌, true, false, ◌&&◌, Option, none, some, ◌==◌, arith,
  get_or, set, Bool-cases, inl, inr, length-set, get_or-set_self,
}
use void_frame.Prelude.Words.{add32, sub32}
use void_frame.Cerberus.State.{
  WatchRegion, CerberusState, Status, failed, done, violated, no_region, max_watch_regions,
  max_processes, no_info, info_at, close_region, log_violation,
}
use void_frame.Cerberus.Track.{
  find_region, is_tracked_as, is_empty_slot, fill_slot, track_alloc, close_slot, track_free,
}
use void_frame.Cerberus.Counts.{
  flag, count, count-le, count-set, count-set_same, count-full, WellFormed, tracked,
  find_region-Finds, Finds,
}

-- 1 for the allocation named, 0 for every other.
abbrev pub one_at : ℕ → ℕ → ℕ → ℕ → ℕ
one_at addr pid a p = flag (addr == a && pid == p)

abbrev pub Tracks : CerberusState → ℕ → ℕ → Status × CerberusState → Type 0
Tracks s addr pid (failed, t) = (s.active_regions ≡ max_watch_regions) × (t ≡ s)
Tracks s addr pid (violated, t) = ⊥
Tracks s addr pid (done, t) =
    ((a p : ℕ) → tracked t a p ≡ tracked s a p + one_at addr pid a p)
    × (t.active_regions ≡ s.active_regions + 1)
    × (t.process_info ≡ s.process_info)
    × (t.is_initialized ≡ s.is_initialized)
    × WellFormed t

fill_slot-Tracks :
    (s : CerberusState) (addr size pid : ℕ) (o : Option ℕ)
    → WellFormed s
    → Finds is_empty_slot s.watch_regions 0 o
    → Tracks s addr pid (fill_slot s addr size pid o)
unfolding fill_slot
fill_slot-Tracks s addr size pid none w found =
    (omega (arith, w.active, w.regions, count-full (λ r. r.is_active) s.watch_regions found), refl)
fill_slot-Tracks s addr size pid (some j) w (k, at, inside, empty) =
    let here : j ≡ k = omega arith in
    let idle : (get_or s.watch_regions k no_region).is_active ≡ false = ground arith in
    let v : WatchRegion = record {
      base_addr = addr;
      size = size;
      process_id = pid;
      alloc_time = s.system_ticks;
      is_active = true;
      is_stack_region = false;
    } in
    let active = count-set (λ r. r.is_active) s.watch_regions k v no_region inside in
    let active' : count (λ r. r.is_active) (set s.watch_regions k v) ≡ s.active_regions + 1 =
      ground (arith, active, idle, w.active) in
    let few = count-le (λ r. r.is_active) (set s.watch_regions k v) in
    let size' = length-set s.watch_regions k v in
    let more : add32 s.active_regions 1 ≡ s.active_regions + 1 =
      omega (arith, active', few, size', w.regions) in
    rw here (
      λ a p.
          let put = count-set (is_tracked_as a p) s.watch_regions k v no_region inside in
          ground (arith, put, idle),
      more,
      refl,
      refl,
      record {
        regions = size' ∙ w.regions;
        infos = w.infos;
        active = omega (arith, more, active');
        monitored = w.monitored;
      },
    )

-- On a well-formed and initialised state CerberusTrackAlloc adds one tracked allocation at the
-- address and of the process, and changes no other; it fails only if all 64 regions are active, and
-- then it changes nothing.
pub track_alloc_lem :
    (s : CerberusState) (addr size pid : ℕ)
    → WellFormed s
    → s.is_initialized ≡ true
    → Tracks s addr pid (track_alloc s addr size pid)
unfolding track_alloc
track_alloc_lem s addr size pid w ready = simp ready (
    fill_slot-Tracks s addr size pid (find_region is_empty_slot s.watch_regions 0) w
      (find_region-Finds is_empty_slot s.watch_regions 0))

pub log_violation-WellFormed :
    {s : CerberusState} (pid : ℕ) → WellFormed s → WellFormed (log_violation s pid)
unfolding log_violation
log_violation-WellFormed {s} pid w = elim (Bool-cases s.is_initialized) [
  | inr e ↦ simp e w
  | inl e ↦ simp e (record {
    regions = w.regions;
    infos = length-set s.process_info pid _ ∙ w.infos;
    active = w.active;
    monitored =
        w.monitored ∙ sym (count-set_same (λ p. p.is_monitored) s.process_info pid _ no_info refl);
  })
]

-- An initialised monitor counts a violation in the total and for the process.
pub log_violation-Counted :
    (s : CerberusState) (pid : ℕ)
    → WellFormed s
    → s.is_initialized ≡ true
    → pid < max_processes
    → ((log_violation s pid).watch_regions ≡ s.watch_regions)
      × ((log_violation s pid).total_violations ≡ add32 s.total_violations 1)
      × ((info_at (log_violation s pid) pid).violation_count
          ≡ add32 (info_at s pid).violation_count 1)
unfolding log_violation
log_violation-Counted s pid w ready known = simp ready (
  refl,
  refl,
  ap (λ p. p.violation_count)
      (get_or-set_self s.process_info pid _ no_info (omega (arith, w.infos))),
)

abbrev pub Frees : CerberusState → ℕ → ℕ → Status × CerberusState → Type 0
Frees s addr pid (failed, t) = ⊥
Frees s addr pid (violated, t) =
    (tracked s addr pid ≡ 0)
    × (t.watch_regions ≡ s.watch_regions)
    × (t.total_violations ≡ add32 s.total_violations 1)
    × ((info_at t pid).violation_count ≡ add32 (info_at s pid).violation_count 1)
    × WellFormed t
Frees s addr pid (done, t) =
    ((a p : ℕ) → tracked t a p + one_at addr pid a p ≡ tracked s a p)
    × (t.active_regions + 1 ≡ s.active_regions)
    × (t.process_info ≡ s.process_info)
    × WellFormed t

close_slot-Frees :
    (s : CerberusState) (addr pid : ℕ) (o : Option ℕ)
    → WellFormed s
    → s.is_initialized ≡ true
    → pid < max_processes
    → Finds (is_tracked_as addr pid) s.watch_regions 0 o
    → Frees s addr pid (close_slot s pid o)
unfolding close_slot
close_slot-Frees s addr pid none w ready known found =
    let (same, total, mine) = log_violation-Counted s pid w ready known in
    (found, same, total, mine, log_violation-WellFormed pid w)
close_slot-Frees s addr pid (some j) w ready known (k, at, inside, found) =
    let here : j ≡ k = omega arith in
    let r = get_or s.watch_regions k no_region in
    let busy : r.is_active ≡ true = ground (arith, found) in
    let owned : ((r.base_addr == addr) ≡ true) × ((r.process_id == pid) ≡ true) =
      ground (arith, found) in
    let base : r.base_addr ≡ addr = ground (arith, owned.0) in
    let owner : r.process_id ≡ pid = ground (arith, owned.1) in
    let active = count-set (λ x. x.is_active) s.watch_regions k (close_region r) no_region inside in
    let active' : count (λ x. x.is_active) (set s.watch_regions k (close_region r)) + 1
        ≡ s.active_regions =
      ground (arith, active, busy, w.active) in
    let few = count-le (λ x. x.is_active) s.watch_regions in
    let size = length-set s.watch_regions k (close_region r) in
    let less : sub32 s.active_regions 1 + 1 ≡ s.active_regions =
      omega (arith, active', few, w.active, w.regions) in
    rw here (
      λ a p.
          let put =
            count-set (is_tracked_as a p) s.watch_regions k (close_region r) no_region inside in
          ground (arith, put, busy, base, owner),
      less,
      refl,
      record {
        regions = size ∙ w.regions;
        infos = w.infos;
        active = omega (arith, less, active');
        monitored = w.monitored;
      },
    )

-- On a well-formed and initialised state and for the identifier of a process, CerberusTrackFree
-- removes one tracked allocation at the address and of the process and changes no other; if there
-- is none it changes no region and counts a violation, in the total and for the process.
pub track_free_lem :
    (s : CerberusState) (addr pid : ℕ)
    → WellFormed s
    → s.is_initialized ≡ true
    → pid < max_processes
    → Frees s addr pid (track_free s addr pid)
unfolding track_free
track_free_lem s addr pid w ready known = simp ready (
    close_slot-Frees s addr pid (find_region (is_tracked_as addr pid) s.watch_regions 0) w ready
      known (find_region-Finds (is_tracked_as addr pid) s.watch_regions 0))

-- A free that follows the tracking of the same allocation succeeds, and then every allocation is
-- tracked as often as before.
pub track_free-track_alloc :
    (s t : CerberusState) (addr size pid : ℕ)
    → WellFormed s
    → s.is_initialized ≡ true
    → pid < max_processes
    → track_alloc s addr size pid ≡ (done, t)
    → let (status, u) = track_free t addr pid in
      (status ≡ done)
      × (u.active_regions ≡ s.active_regions)
      × ((a p : ℕ) → tracked u a p ≡ tracked s a p)
track_free-track_alloc s t addr size pid w ready known e =
    let (added, more, _, same, valid) =
      subst (Tracks s addr pid) e (track_alloc_lem s addr size pid w ready) in
    back added more (track_free t addr pid) (track_free_lem t addr pid valid (same ∙ ready) known)
  where
    back :
        ((a p : ℕ) → tracked t a p ≡ tracked s a p + one_at addr pid a p)
        → t.active_regions ≡ s.active_regions + 1
        → (r : Status × CerberusState) → Frees t addr pid r
        → (r.0 ≡ done)
          × (r.1.active_regions ≡ s.active_regions)
          × ((a p : ℕ) → tracked r.1 a p ≡ tracked s a p)
    back added more (failed, u) h = elim h [ ]
    back added more (violated, u) (gone, _, _, _, _) = absurd (ground (arith, added addr pid))
    back added more (done, u) (removed, less, _, _) =
        (refl, omega arith, λ a p. omega (arith, added a p, removed a p))
