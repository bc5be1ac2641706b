-- ===== src/Cerberus/Registry.antt =====
-- Registration: what CerberusRegisterProcess, CerberusUnregisterProcess and CerberusInit do to the
-- tables and the counters.
use void_frame.Prelude.{
  not, ◌||◌, ℕ, suc, ◌+◌, ◌-◌, ◌≤◌, ◌<◌, ◌≡◌, ◌≢◌, ◌⊎◌, refl, sym, ap, ◌∙◌, true, false, List, [],
  ◌∷◌, ◌==◌, leb, arith, length, set, if◌then◌else◌, Bool-cases, inl, inr, length-set,
  get_or-set_self, get_or-set_ne,
}
use void_frame.Prelude.Words.{sub32, u32_mod}
use void_frame.Cerberus.State.{
  WatchRegion, ProcessInfo, CerberusState, no_info, max_processes, info_at, owned_by, drop_regions,
  unregister_process,
}
use void_frame.Cerberus.Track.{is_tracked_as}
use void_frame.Cerberus.Counts.{flag, count, count-le, count-set, WellFormed, tracked}

-- The regions, with those of a process not active any more.
abbrev pub closed : ℕ → List WatchRegion → List WatchRegion
closed pid [] = []
closed pid (r ∷ rs) = (if owned_by pid r then record r { is_active = false } else r) ∷ closed pid rs

-- What the loop over the regions makes of them.
record Dropped (pid : ℕ) (rs : List WatchRegion) (active : ℕ) (r : List WatchRegion × ℕ)
    : Type 0 where
  size : length r.0 ≡ length rs
  whole : r.0 ≡ closed pid rs
  counter : r.1 + count (owned_by pid) rs ≡ active
  left : count (λ x. x.is_active) r.0 + count (owned_by pid) rs ≡ count (λ x. x.is_active) rs
  others :
      (a p : ℕ)
      → count (is_tracked_as a p) r.0 ≡ (if p == pid then 0 else count (is_tracked_as a p) rs)

drop_regions-Dropped :
    (pid : ℕ) (rs : List WatchRegion) (active : ℕ)
    → count (owned_by pid) rs ≤ active
    → active < u32_mod
    → Dropped pid rs active (drop_regions pid rs active)
unfolding drop_regions count
drop_regions-Dropped pid [] active enough small = record {
  size = refl;
  whole = refl;
  counter = omega arith;
  left = refl;
  others = λ a p. ground arith;
}
drop_regions-Dropped pid (r ∷ rs) active enough small = elim (Bool-cases (owned_by pid r)) [
  | inl mine ↦
      let busy : r.is_active ≡ true = ground (arith, mine) in
      let same : (r.process_id == pid) ≡ true = ground (arith, mine) in
      let owner : r.process_id ≡ pid = ground (arith, same) in
      let some_left : count (owned_by pid) rs + 1 ≤ active = ground (arith, enough, mine) in
      let less : sub32 active 1 ≡ active - 1 = omega arith in
      let d = drop_regions-Dropped pid rs (sub32 active 1) (omega arith) (omega arith) in
      rw mine (record {
        size = ap suc d.size;
        whole = rw (closed, mine) (ap (λ xs. record r { is_active = false } ∷ xs) d.whole);
        counter = omega (arith, d.counter, ap flag mine);
        left = ground (arith, d.left, busy);
        others = λ a p. let o = d.others a p in ground (arith, o, busy, owner);
      })
  | inr apart ↦
      let some_left : count (owned_by pid) rs ≤ active = ground (arith, enough, apart) in
      let d = drop_regions-Dropped pid rs active some_left small in
      rw apart (record {
        size = ap suc d.size;
        whole = rw (closed, apart) (ap (λ xs. r ∷ xs) d.whole);
        counter = omega (arith, d.counter, ap flag apart);
        left = omega (arith, d.left, ap flag apart);
        others = λ a p. let o = d.others a p in ground (arith, o, apart);
      })
]

owned-le : (pid : ℕ) (rs : List WatchRegion) → count (owned_by pid) rs ≤ count (λ r. r.is_active) rs
unfolding count
owned-le pid [] = omega arith
owned-le pid (r ∷ rs) = let below = owned-le pid rs in ground arith

-- `t` is `s` without the process: it is not monitored, its regions are not active, and every other
-- region and process, the rest of its own entry and all else are as they were.
pub record Unregisters (s : CerberusState) (pid : ℕ) (t : CerberusState) : Type 0 where
  pub regions : (a p : ℕ) → tracked t a p ≡ (if p == pid then 0 else tracked s a p)
  pub whole : t.watch_regions ≡ closed pid s.watch_regions
  pub gone : info_at t pid ≡ record (info_at s pid) { is_monitored = false }
  pub kept : (p : ℕ) → p ≢ pid → info_at t p ≡ info_at s p
  pub fewer : t.monitored_processes + 1 ≡ s.monitored_processes
  pub frame : t ≡ record s {
    process_info = t.process_info;
    watch_regions = t.watch_regions;
    active_regions = t.active_regions;
    monitored_processes = t.monitored_processes;
  }
  pub valid : WellFormed t

-- On a well-formed and initialised state, for a PID of the table, CerberusUnregisterProcess takes a
-- monitored process out with all its tracked allocations, counts both less and changes nothing else,
-- and leaves the state as it was for a process that is not monitored.
pub unregister_process_lem :
    (s : CerberusState) (pid : ℕ)
    → WellFormed s
    → s.is_initialized ≡ true
    → pid < max_processes
    → (((info_at s pid).is_monitored ≡ true) × Unregisters s pid (unregister_process s pid))
      ⊎ (((info_at s pid).is_monitored ≡ false) × (unregister_process s pid ≡ s))
unfolding unregister_process
unregister_process_lem s pid w ready known = elim (Bool-cases (info_at s pid).is_monitored) [
  | inr e ↦
      let small : leb max_processes pid ≡ false = ground arith in
      inr (e, simp (ready, small, e) refl)
  | inl e ↦
      let small : leb max_processes pid ≡ false = ground arith in
      let q : ProcessInfo = record (info_at s pid) { is_monitored = false } in
      let here : pid < length s.process_info = omega (arith, w.infos) in
      let few = count-le (λ r. r.is_active) s.watch_regions in
      let few' = count-le (λ p. p.is_monitored) s.process_info in
      let owned = owned-le pid s.watch_regions in
      let d =
        drop_regions-Dropped pid s.watch_regions s.active_regions (omega (arith, owned, w.active))
          (omega (arith, few, w.active, w.regions)) in
      let taken = count-set (λ p. p.is_monitored) s.process_info pid q no_info here in
      let taken' : count (λ p. p.is_monitored) (set s.process_info pid q) + 1
          ≡ s.monitored_processes =
        ground (arith, taken, e, w.monitored) in
      let less : sub32 s.monitored_processes 1 + 1 ≡ s.monitored_processes =
        omega (arith, taken', few', w.monitored, w.infos) in
      let ongoing : (not s.is_initialized || leb max_processes pid) ≡ false =
        rw (ready, small) refl in
      inl (
        e,
        rw (ongoing, e)
            (record {
              regions = d.others;
              whole = d.whole;
              gone = get_or-set_self s.process_info pid q no_info here;
              kept = λ p apart.
                  get_or-set_ne s.process_info pid p q no_info (λ same. apart (sym same));
              fewer = less;
              frame = refl;
              valid = record {
                regions = d.size ∙ w.regions;
                infos = length-set s.process_info pid q ∙ w.infos;
                active = omega (arith, d.counter, d.left, w.active);
                monitored = omega (arith, taken', less);
              };
            }),
      )
]
