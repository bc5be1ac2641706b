-- ===== src/Cerberus/State.antt =====
-- The structures of mm/security/Cerberus.h, the report of a violation, and the registration of
-- processes. The three results of its functions are -1, 0 and 1.
use void_frame.Prelude.{
  ℕ, Bool, true, false, not, ◌&&◌, ◌||◌, List, [], ◌∷◌, map, leb, ◌==◌, if◌then◌else◌, get_or, set,
}
use void_frame.Prelude.Words.{add32, sub32}

abbrev pub max_watch_regions : ℕ
max_watch_regions = 64

abbrev pub max_processes : ℕ
max_processes = 128

abbrev pub violation_threshold : ℕ
violation_threshold = 3

abbrev pub check_interval : ℕ
check_interval = 50

pub data Status : Type 0 where
  failed : Status
  done : Status
  violated : Status

pub record WatchRegion : Type 0 where
  pub base_addr : ℕ
  pub size : ℕ
  pub process_id : ℕ
  pub alloc_time : ℕ
  pub is_active : Bool
  pub is_stack_region : Bool

pub record ProcessInfo : Type 0 where
  pub process_id : ℕ
  pub violation_count : ℕ
  pub last_violation : ℕ
  pub stack_canary_addr : ℕ
  pub is_monitored : Bool
  pub is_compromised : Bool

-- The state with the lock and the ticks beside it; `has_lock` says that the lock is not null.
pub record CerberusState : Type 0 where
  pub watch_regions : List WatchRegion
  pub process_info : List ProcessInfo
  pub active_regions : ℕ
  pub monitored_processes : ℕ
  pub total_violations : ℕ
  pub is_initialized : Bool
  pub has_lock : Bool
  pub system_ticks : ℕ

abbrev pub no_region : WatchRegion
no_region = record {
  base_addr = 0;
  size = 0;
  process_id = 0;
  alloc_time = 0;
  is_active = false;
  is_stack_region = false;
}

abbrev pub no_info : ProcessInfo
no_info = record {
  process_id = 0;
  violation_count = 0;
  last_violation = 0;
  stack_canary_addr = 0;
  is_monitored = false;
  is_compromised = false;
}

abbrev pub info_at : CerberusState → ℕ → ProcessInfo
info_at s pid = get_or s.process_info pid no_info

abbrev pub put_info : CerberusState → ℕ → ProcessInfo → CerberusState
put_info s pid p = record s { process_info = set s.process_info pid p }

-- The report counts for the process `pid`; the rest of it is only printed.
unfoldable pub log_violation : CerberusState → ℕ → CerberusState
log_violation s pid = if not s.is_initialized then s else record s {
  total_violations = add32 s.total_violations 1;
  process_info = set s.process_info pid (record (info_at s pid) {
    violation_count = add32 (info_at s pid).violation_count 1;
    last_violation = s.system_ticks;
  });
}

abbrev pub close_region : WatchRegion → WatchRegion
close_region r = record r { is_active = false }

abbrev pub clear_info : ProcessInfo → ProcessInfo
clear_info p = record p { is_monitored = false; is_compromised = false; violation_count = 0 }

-- `made` says that the allocation of the lock succeeded.
unfoldable pub init : CerberusState → Bool → CerberusState
init s false = record s { has_lock = false }
init s true = record s {
  has_lock = true;
  watch_regions = map close_region s.watch_regions;
  process_info = map clear_info s.process_info;
  active_regions = 0;
  monitored_processes = 0;
  total_violations = 0;
  is_initialized = true;
}

-- The loop over the watch regions in CerberusUnregisterProcess: the regions, and active_regions.
abbrev pub owned_by : ℕ → WatchRegion → Bool
owned_by pid r = r.is_active && r.process_id == pid

unfoldable pub drop_regions : ℕ → List WatchRegion → ℕ → List WatchRegion × ℕ
drop_regions pid [] active = ([], active)
drop_regions pid (r ∷ rs) active =
    let keep = drop_regions pid rs active in
    let close = drop_regions pid rs (sub32 active 1) in
    if owned_by pid r then (close_region r ∷ close.0, close.1) else (r ∷ keep.0, keep.1)

unfoldable pub unregister_process : CerberusState → ℕ → CerberusState
unregister_process s pid =
    let dropped = drop_regions pid s.watch_regions s.active_regions in
    if not s.is_initialized || leb max_processes pid
    then s
    else if (info_at s pid).is_monitored
    then record s {
      process_info = set s.process_info pid (record (info_at s pid) { is_monitored = false });
      monitored_processes = sub32 s.monitored_processes 1;
      watch_regions = dropped.0;
      active_regions = dropped.1;
    }
    else s
