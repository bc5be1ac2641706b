-- ===== src/Eevdf/Slots.antt =====
-- Slots, process identifiers and the termination queue of kernel/sched/EEVDF.c. One processor runs the
-- code, so that a compare-and-swap on what was just read succeeds.
use void_frame.Prelude.{
  ℕ, ◌+◌, ◌%◌, Bool, true, false, not, ◌&&◌, ◌||◌, Option, none, some, List, [], ◌∷◌, ltb, leb,
  ◌==◌, if◌then◌else◌, get_or, set,
}
use void_frame.Prelude.Words.{add32, sub32}
use void_frame.Ipc.Process.{is_terminated}
use void_frame.Eevdf.Tree.{eevdf_max_processes}
use void_frame.Eevdf.State.{ProcessControlBlock, Scheduler, panic}

-- The first clear bit from the place `i` on, but for place 0: the search for a slot, whose first test
-- answers what the search would, and the loop over the PIDs below 64.
unfoldable pub first_clear : List Bool → ℕ → Option ℕ
first_clear [] i = none
first_clear (used ∷ bits) i =
    let rest = first_clear bits (i + 1) in if used || i == 0 then rest else some i

unfoldable pub find_free_slot : Scheduler → Option ℕ × Scheduler
unfolding first_clear
find_free_slot s = elim (first_clear s.active_process_bitmap 0) [
  | none ↦ (none, s)
  | some slot ↦
      (some slot, record s { active_process_bitmap = set s.active_process_bitmap slot true })
]

unfoldable pub free_slot : Scheduler → ℕ → Scheduler
free_slot s slot =
    if ltb 0 slot && ltb slot 64
    then record s { active_process_bitmap = set s.active_process_bitmap slot false }
    else s

-- The allocation of a PID in EEVDFCreateSecureProcess.
unfoldable pub allocate_pid : Scheduler → Option ℕ × Scheduler
unfolding first_clear
allocate_pid s = elim (first_clear s.pid_bitmap 0) [
  | none ↦ (none, s)
  | some pid ↦ (some pid, record s { pid_bitmap = set s.pid_bitmap pid true })
]

unfoldable pub free_pid : Scheduler → ℕ → Scheduler
free_pid s pid = record s { pid_bitmap = set s.pid_bitmap pid false }

unfoldable pub add_to_termination_queue : Scheduler → ℕ → Scheduler
add_to_termination_queue s slot =
    if leb eevdf_max_processes s.term_queue_count then panic s else record s {
      termination_queue = set s.termination_queue s.term_queue_tail slot;
      term_queue_tail = add32 s.term_queue_tail 1 % eevdf_max_processes;
      term_queue_count = add32 s.term_queue_count 1;
    }

unfoldable pub remove_from_termination_queue : Scheduler → ℕ × Scheduler
remove_from_termination_queue s = if s.term_queue_count == 0 then (eevdf_max_processes, s) else (
  get_or s.termination_queue s.term_queue_head 0,
  record s {
    term_queue_head = add32 s.term_queue_head 1 % eevdf_max_processes;
    term_queue_count = sub32 s.term_queue_count 1;
  },
)

-- EEVDFGetCurrentProcessByPID from the slot `i` on.
unfoldable pub find_pid : ℕ → List ProcessControlBlock → ℕ → Option ℕ
find_pid pid [] i = none
find_pid pid (p ∷ ps) i =
    let rest = find_pid pid ps (i + 1) in
    if p.pid == pid && not (is_terminated p.state) then some i else rest

unfoldable pub current_process_by_pid : Scheduler → ℕ → Option ℕ
unfolding find_pid
current_process_by_pid s pid = find_pid pid s.processes 0
