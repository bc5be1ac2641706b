-- ===== src/Cerberus/Tests.antt =====
-- The monitor at concrete inputs: a fresh monitor, and one with a process and a tracked allocation.
use void_frame.Prelude.{ℕ, ◌≡◌, ◌⊎◌, refl, true, false, replicate, arith, set}
use void_frame.Cerberus.State.{
  done, CerberusState, ProcessInfo, no_region, no_info, info_at, check_interval, unregister_process,
}
use void_frame.Cerberus.Track.{track_alloc, track_free, find_region, fill_slot}
use void_frame.Cerberus.Canary.{Memory, canary_slot, register_process, check_stack_canary}
use void_frame.Cerberus.Counts.{WellFormed, count, tracked}
use void_frame.Cerberus.Regions.{
  Tracks, Frees, track_alloc_lem, track_free_lem, track_free-track_alloc,
}
use void_frame.Cerberus.Registry.{Unregisters, unregister_process_lem}
use void_frame.Cerberus.Alarm.{Alarmed, ticks, ticks-compromised}
use void_frame.Cerberus.Guard.{IsGuardable, Checks, check_stack_canary-register_process}
use void_frame.Cerberus.Runs.{Reach, here, next, registers, tracks, Reach-WellFormed}

abbrev fresh_state : CerberusState
fresh_state = record {
  watch_regions = replicate 64 no_region;
  process_info = replicate 128 no_info;
  active_regions = 0;
  monitored_processes = 0;
  total_violations = 0;
  is_initialized = true;
  has_lock = true;
  system_ticks = 7;
}

fresh_state-WellFormed : WellFormed fresh_state
unfolding count
fresh_state-WellFormed = record { regions = refl; infos = refl; active = refl; monitored = refl }

-- Every word is mapped and can be written.
abbrev flat_memory : Memory
flat_memory = record { phys_addr = λ a. 1; word = λ a. 0; writable = λ a. true }

abbrev stack_top : ℕ
stack_top = 0x8000

stack_top-IsGuardable : IsGuardable flat_memory stack_top 0x4000
stack_top-IsGuardable = record {
  given = omega arith;
  large = omega arith;
  mapped = omega arith;
  writable = refl;
}

abbrev busy_state : CerberusState
busy_state =
    (track_alloc (register_process true fresh_state flat_memory 5 stack_top 0x4000).1 0x9000 64 5).1

busy_reached : Reach fresh_state busy_state
busy_reached = next (next here (registers true flat_memory 5 stack_top 0x4000)) (tracks 0x9000 64 5)

Reach-WellFormed_example : WellFormed busy_state
Reach-WellFormed_example = Reach-WellFormed fresh_state-WellFormed busy_reached

track_alloc_example : Tracks fresh_state 0x9000 5 (track_alloc fresh_state 0x9000 64 5)
track_alloc_example = track_alloc_lem fresh_state 0x9000 64 5 fresh_state-WellFormed refl

track_free_example : Frees fresh_state 0x9000 5 (track_free fresh_state 0x9000 5)
track_free_example = track_free_lem fresh_state 0x9000 5 fresh_state-WellFormed refl (omega arith)

-- The state after the first allocation is tracked.
abbrev one_region : CerberusState
one_region = record fresh_state {
  watch_regions = set fresh_state.watch_regions 0 (record {
    base_addr = 0x9000;
    size = 64;
    process_id = 5;
    alloc_time = 7;
    is_active = true;
    is_stack_region = false;
  });
  active_regions = 1;
}

one_region_tracked : track_alloc fresh_state 0x9000 64 5 ≡ (done, one_region)
unfolding track_alloc find_region fill_slot
one_region_tracked = refl

track_free-track_alloc_example :
    let (status, u) = track_free one_region 0x9000 5 in
    (status ≡ done)
    × (u.active_regions ≡ fresh_state.active_regions)
    × ((a p : ℕ) → tracked u a p ≡ tracked fresh_state a p)
track_free-track_alloc_example =
    track_free-track_alloc fresh_state one_region 0x9000 64 5 fresh_state-WellFormed refl
      (omega arith) one_region_tracked

check_stack_canary_example :
    let t = (register_process true fresh_state flat_memory 5 stack_top 0x4000).1 in
    Checks t flat_memory 5 (canary_slot stack_top) (check_stack_canary t flat_memory 5)
check_stack_canary_example =
    check_stack_canary-register_process fresh_state flat_memory flat_memory 5 stack_top 0x4000
      fresh_state-WellFormed refl (omega arith) refl stack_top-IsGuardable (omega arith)
      (omega arith)

-- A process with four violations.
abbrev bad_info : ProcessInfo
bad_info = record no_info { process_id = 5; violation_count = 4; is_monitored = true }

abbrev bad_state : CerberusState
bad_state = record fresh_state {
  process_info = set fresh_state.process_info 5 bad_info;
  monitored_processes = 1;
}

bad_state-Alarmed : Alarmed bad_state 5
bad_state-Alarmed = record {
  ready = refl;
  inside = omega arith;
  monitored = refl;
  over = omega arith;
}

ticks-compromised_example : (info_at (ticks check_interval bad_state) 5).is_compromised ≡ true
ticks-compromised_example = ticks-compromised bad_state 5 bad_state-Alarmed (omega arith)

bad_state-WellFormed : WellFormed bad_state
unfolding count
bad_state-WellFormed = record { regions = refl; infos = refl; active = refl; monitored = refl }

unregister_process_example :
    (((info_at bad_state 5).is_monitored ≡ true)
      × Unregisters bad_state 5 (unregister_process bad_state 5))
    ⊎ (((info_at bad_state 5).is_monitored ≡ false) × (unregister_process bad_state 5 ≡ bad_state))
unregister_process_example =
    unregister_process_lem bad_state 5 bad_state-WellFormed refl (omega arith)
