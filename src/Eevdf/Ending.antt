-- ===== src/Eevdf/Ending.antt =====
-- Termination and clean-up keep the sizes of the tables.
use void_frame.Prelude.{
  ℕ, zero, suc, ◌+◌, ◌<◌, ◌≡◌, subst, Bool, false, not, ◌&&◌, some, inl, inr, length, length-set,
  set, ltb, leb, ◌==◌, Bool-cases, Option-cases,
}
use void_frame.Prelude.Words.{add32}
use void_frame.Ipc.Process.{is_terminated}
use void_frame.Eevdf.Tree.{eevdf_max_processes}
use void_frame.Eevdf.State.{
  TerminationReason, term_normal, term_killed, term_security, Scheduler, no_block, block_at,
  put_block,
}
use void_frame.Eevdf.Seal.{update_seal, sis_max_violations}
use void_frame.Eevdf.Slots.{
  free_slot, free_pid, remove_from_termination_queue, current_process_by_pid,
}
use void_frame.Eevdf.Terminate.{
  make_zombie, forget_process, as_terminate_slot, as_terminate, terminate_slot, is_dead,
  is_security, is_denied, terminate_process, kill_process, process_exit_stub, kill_current_process,
  kill_from, kill_all_processes, security_violation_handler, is_zombie, reap, cleanup_loop,
  cleanup_terminated_process, cleanup_max_per_call,
}
use void_frame.Eevdf.Guarding.{found_lem}
use void_frame.Eevdf.InRange.{
  InRange, shape, Fits-active, Fits-pids, put_InRange, ready_InRange, dequeue_task-InRange,
  slots_of,
}
use void_frame.Eevdf.Sizes.{add-InRange, remove-InRange, panic_InRange}

pub update_seal-InRange : (s : Scheduler) (slot : ℕ) → InRange s → InRange (update_seal s slot)
unfolding update_seal
update_seal-InRange s slot h = put_InRange s slot _ h

marked_InRange :
    (s : Scheduler) (slot : ℕ) (need : Bool)
    → InRange s
    → InRange (record s {
      ready_process_bitmap = set s.ready_process_bitmap slot false;
      need_schedule = need;
    })
unfolding InRange
marked_InRange s slot need h = ready_InRange s slot false h

make_zombie-InRange :
    (s : Scheduler) (slot : ℕ) (reason : TerminationReason) (exit_code : ℕ)
    → InRange s
    → InRange (make_zombie s slot reason exit_code)
unfolding make_zombie
make_zombie-InRange s slot reason exit_code h =
    update_seal-InRange _ slot (marked_InRange (put_block s slot _) slot _ (put_InRange s slot _ h))

forget_process-InRange : (s : Scheduler) (pid : ℕ) → InRange s → InRange (forget_process s pid)
unfolding forget_process InRange
forget_process-InRange s pid h = h

pub free_pid-InRange : (s : Scheduler) (pid : ℕ) → InRange s → InRange (free_pid s pid)
unfolding free_pid InRange
free_pid-InRange s pid h =
    Fits-pids (shape s) (length (set s.pid_bitmap pid false)) (length-set s.pid_bitmap pid false) h

pub free_slot-InRange : (s : Scheduler) (slot : ℕ) → InRange s → InRange (free_slot s slot)
unfolding free_slot InRange
free_slot-InRange s slot h = elim (Bool-cases (ltb 0 slot && ltb slot 64)) [
  | inl e ↦ rw e (
      Fits-active (shape s) (length (set s.active_process_bitmap slot false))
        (length-set s.active_process_bitmap slot false) h)
  | inr e ↦ rw e h
]

as_terminate_slot-InRange :
    (s : Scheduler) (slot : ℕ)
    → slot < eevdf_max_processes
    → InRange s
    → InRange (as_terminate_slot s slot)
unfolding as_terminate_slot
as_terminate_slot-InRange s slot b h = forget_process-InRange _ _ (
    add-InRange _ slot b
      (dequeue_task-InRange _ slot (make_zombie-InRange s slot term_security 666 h)))

terminate_slot-InRange :
    (s : Scheduler) (slot : ℕ) (reason : TerminationReason) (exit_code : ℕ)
    → slot < eevdf_max_processes
    → InRange s
    → InRange (terminate_slot s slot reason exit_code)
unfolding terminate_slot
terminate_slot-InRange s slot reason exit_code b h = forget_process-InRange _ _ (
    free_pid-InRange _ _ (
      add-InRange _ slot b
        (dequeue_task-InRange _ slot (make_zombie-InRange s slot reason exit_code h))))

found-small :
    (s : Scheduler) (pid slot : ℕ)
    → InRange s
    → current_process_by_pid s pid ≡ some slot
    → slot < eevdf_max_processes
found-small s pid slot h e = subst (λ n. slot < n) (slots_of s h) (found_lem s pid slot e).0

pub as_terminate-InRange : (s : Scheduler) (pid : ℕ) → InRange s → InRange (as_terminate s pid)
unfolding as_terminate
as_terminate-InRange s pid h = elim (Option-cases (current_process_by_pid s pid)) [
  | inl e ↦ rw (e, as_terminate) h
  | inr (slot, e) ↦
      rw (e, as_terminate) (as_terminate_slot-InRange s slot (found-small s pid slot h e) h)
]

pub terminate_process-InRange :
    (s : Scheduler) (pid : ℕ) (reason : TerminationReason) (exit_code : ℕ)
    → InRange s
    → InRange (terminate_process s pid reason exit_code)
unfolding terminate_process
terminate_process-InRange s pid reason exit_code h =
    elim (Option-cases (current_process_by_pid s pid)) [
      | inl e ↦ rw (e, terminate_process) h
      | inr (slot, e) ↦ elim (Bool-cases (is_dead (block_at s slot).state)) [
        | inl f ↦ rw (e, f, terminate_process) h
        | inr f ↦ elim (Bool-cases (not (is_security reason) && is_denied s slot)) [
          | inl g ↦ rw (e, f, g, terminate_process) (as_terminate-InRange s _ h)
          | inr g ↦
              rw (e, f, g, terminate_process)
                (terminate_slot-InRange s slot reason exit_code (found-small s pid slot h e) h)
        ]
      ]
    ]

pub kill_process-InRange : (s : Scheduler) (pid : ℕ) → InRange s → InRange (kill_process s pid)
unfolding kill_process
kill_process-InRange s pid h = terminate_process-InRange s pid term_killed 1 h

pub process_exit_stub-InRange : (s : Scheduler) → InRange s → InRange (process_exit_stub s)
unfolding process_exit_stub
process_exit_stub-InRange s h = terminate_process-InRange s _ term_normal 0 h

pub kill_current_process-InRange : (s : Scheduler) → InRange s → InRange (kill_current_process s)
unfolding kill_current_process
kill_current_process-InRange s h = as_terminate-InRange s _ h

kill_from-InRange : (fuel : ℕ) (s : Scheduler) (i : ℕ) → InRange s → InRange (kill_from fuel s i)
unfolding kill_from
kill_from-InRange zero s i h = h
kill_from-InRange (suc fuel) s i h =
    elim (Bool-cases (not (is_terminated (block_at s i).state) && not ((block_at s i).pid == 0))) [
      | inl e ↦
          rw (e, kill_from)
            (kill_from-InRange fuel (as_terminate s (block_at s i).pid) (i + 1)
              (as_terminate-InRange s _ h))
      | inr e ↦ rw (e, kill_from) (kill_from-InRange fuel s (i + 1) h)
    ]

pub kill_all_processes-InRange : (s : Scheduler) → InRange s → InRange (kill_all_processes s)
unfolding kill_all_processes
kill_all_processes-InRange s h = kill_from-InRange eevdf_max_processes s 0 h

count_InRange :
    (s : Scheduler) (n : ℕ) → InRange s → InRange (record s { security_violation_count = n })
unfolding InRange
count_InRange s n h = h

pub security_violation_handler-InRange :
    (s : Scheduler) (pid : ℕ) → InRange s → InRange (security_violation_handler s pid)
unfolding security_violation_handler
security_violation_handler-InRange s pid h =
    elim (Bool-cases (leb sis_max_violations (add32 s.security_violation_count 1))) [
      | inl e ↦ rw e (panic_InRange _ (count_InRange s (add32 s.security_violation_count 1) h))
      | inr e ↦
          rw e (as_terminate-InRange _ pid (count_InRange s (add32 s.security_violation_count 1) h))
    ]

reap-InRange : (s : Scheduler) (slot : ℕ) → InRange s → InRange (reap s slot)
unfolding reap InRange
reap-InRange s slot h = free_slot-InRange _ slot (put_InRange s slot no_block h)

cleanup_loop-InRange :
    (fuel : ℕ) (s : Scheduler) (left : ℕ) → InRange s → InRange (cleanup_loop fuel s left)
unfolding cleanup_loop
cleanup_loop-InRange zero s left h = h
cleanup_loop-InRange (suc fuel) s zero h = h
cleanup_loop-InRange (suc fuel) s (suc left) h =
    let slot = (remove_from_termination_queue s).0 in
    let t = (remove_from_termination_queue s).1 in
    let k = remove-InRange s h in
    elim (Bool-cases (s.term_queue_count == 0)) [
      | inl e ↦ rw (e, cleanup_loop) h
      | inr e ↦ elim (Bool-cases (leb eevdf_max_processes slot)) [
        | inl f ↦ rw (e, f, cleanup_loop) k
        | inr f ↦ elim (Bool-cases (is_zombie (block_at t slot).state)) [
          | inl g ↦
              rw (e, f, g, cleanup_loop)
                (cleanup_loop-InRange fuel (reap t slot) left (reap-InRange t slot k))
          | inr g ↦ rw (e, f, g, cleanup_loop) (cleanup_loop-InRange fuel t (suc left) k)
        ]
      ]
    ]

pub cleanup_terminated_process-InRange :
    (s : Scheduler) → InRange s → InRange (cleanup_terminated_process s)
unfolding cleanup_terminated_process
cleanup_terminated_process-InRange s h =
    cleanup_loop-InRange s.term_queue_count s cleanup_max_per_call h
