-- ===== src/Cerberus/Track.antt =====
-- CerberusTrackAlloc and CerberusTrackFree of mm/security/Cerberus.c.
use void_frame.Prelude.{
  ℕ, ◌+◌, Bool, true, false, not, ◌&&◌, Option, none, some, List, [], ◌∷◌, ◌==◌, if◌then◌else◌,
  get_or, set,
}
use void_frame.Prelude.Words.{add32, sub32}
use void_frame.Cerberus.State.{
  Status, failed, done, violated, WatchRegion, no_region, CerberusState, close_region,
  log_violation,
}

-- The loops of both: the first region from `i` on that passes the test.
unfoldable pub find_region : (WatchRegion → Bool) → List WatchRegion → ℕ → Option ℕ
find_region test [] i = none
find_region test (r ∷ rs) i =
    let rest = find_region test rs (i + 1) in if test r then some i else rest

abbrev pub is_empty_slot : WatchRegion → Bool
is_empty_slot r = not r.is_active

abbrev pub is_tracked_as : ℕ → ℕ → WatchRegion → Bool
is_tracked_as addr pid r = r.is_active && (r.base_addr == addr && r.process_id == pid)

unfoldable pub fill_slot : CerberusState → ℕ → ℕ → ℕ → Option ℕ → Status × CerberusState
fill_slot s addr size pid none = (failed, s)
fill_slot s addr size pid (some i) = (
  done,
  record s {
    watch_regions = set s.watch_regions i (record {
      base_addr = addr;
      size = size;
      process_id = pid;
      alloc_time = s.system_ticks;
      is_active = true;
      is_stack_region = false;
    });
    active_regions = add32 s.active_regions 1;
  },
)

unfoldable pub track_alloc : CerberusState → ℕ → ℕ → ℕ → Status × CerberusState
unfolding find_region fill_slot
track_alloc s addr size pid =
    if not s.is_initialized
    then (failed, s)
    else fill_slot s addr size pid (find_region is_empty_slot s.watch_regions 0)

unfoldable pub close_slot : CerberusState → ℕ → Option ℕ → Status × CerberusState
unfolding log_violation
close_slot s pid none = (violated, log_violation s pid)
close_slot s pid (some i) = (
  done,
  record s {
    watch_regions = set s.watch_regions i (close_region (get_or s.watch_regions i no_region));
    active_regions = sub32 s.active_regions 1;
  },
)

unfoldable pub track_free : CerberusState → ℕ → ℕ → Status × CerberusState
unfolding find_region close_slot
track_free s addr pid =
    if not s.is_initialized
    then (failed, s)
    else close_slot s pid (find_region (is_tracked_as addr pid) s.watch_regions 0)
