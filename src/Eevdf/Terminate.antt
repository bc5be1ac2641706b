-- ===== src/Eevdf/Terminate.antt =====
-- Termination and the clean-up after it, in kernel/sched/EEVDF.c. The unregistration in ProcFS has no part
-- in the state.
use void_frame.Prelude.{
  ℕ, zero, suc, ◌+◌, Bool, true, false, not, ◌&&◌, ◌||◌, none, some, ◌∷◌, leb, ◌==◌, if◌then◌else◌,
  set,
}
use void_frame.Prelude.Words.{add32, sub32}
use void_frame.Cerberus.State.{unregister_process}
use void_frame.Ipc.Process.{ProcessState, terminated, zombie, dying, is_terminated}
use void_frame.Eevdf.Tree.{eevdf_max_processes}
use void_frame.Eevdf.State.{
  TerminationReason, term_normal, term_killed, term_security, ProcessControlBlock, Scheduler,
  no_block, block_at, put_block, panic, current_block, priv_system, is_immune, is_critical,
}
use void_frame.Eevdf.Runqueue.{dequeue_task}
use void_frame.Eevdf.Seal.{update_seal, validate_process, sis_max_violations}
use void_frame.Eevdf.Slots.{
  free_slot, free_pid, add_to_termination_queue, remove_from_termination_queue,
  current_process_by_pid,
}

-- The process becomes a zombie: the part that both ways of termination share up to its seal.
unfoldable pub make_zombie : Scheduler → ℕ → TerminationReason → ℕ → Scheduler
unfolding update_seal
make_zombie s slot reason exit_code =
    let dead : ProcessControlBlock = record (block_at s slot) {
      state = zombie;
      term_reason = reason;
      exit_code = exit_code;
      termination_time = s.apic_ticks;
    } in
    let t = record (put_block s slot dead) {
      ready_process_bitmap = set s.ready_process_bitmap slot false;
      need_schedule = s.need_schedule || slot == s.rq.current_slot;
    } in
    update_seal t slot

unfoldable pub forget_process : Scheduler → ℕ → Scheduler
unfolding unregister_process
forget_process s pid = record s {
  total_processes = sub32 s.total_processes 1;
  cerberus = unregister_process s.cerberus pid;
}

unfoldable pub as_terminate_slot : Scheduler → ℕ → Scheduler
unfolding make_zombie dequeue_task add_to_termination_queue forget_process
as_terminate_slot s slot =
    let dead = dequeue_task (make_zombie s slot term_security 666) slot in
    forget_process (add_to_termination_queue dead slot) (block_at s slot).pid

-- The search returns a process that is not terminated, and its place is below the bound.
unfoldable pub as_terminate : Scheduler → ℕ → Scheduler
unfolding current_process_by_pid as_terminate_slot
as_terminate s pid = elim (current_process_by_pid s pid) [
  | none ↦ s
  | some slot ↦ as_terminate_slot s slot
]

unfoldable pub terminate_slot : Scheduler → ℕ → TerminationReason → ℕ → Scheduler
unfolding make_zombie dequeue_task add_to_termination_queue free_pid forget_process
terminate_slot s slot reason exit_code =
    let dead = dequeue_task (make_zombie s slot reason exit_code) slot in
    let pid = (block_at s slot).pid in
    forget_process (free_pid (add_to_termination_queue dead slot) pid) pid

abbrev pub is_dead : ProcessState → Bool
is_dead terminated = true
is_dead zombie = true
is_dead dying = true
is_dead _ = false

abbrev pub is_security : TerminationReason → Bool
is_security term_security = true
is_security _ = false

-- Whether the current process may not terminate another process, the one in `slot`.
unfoldable pub is_protected : Scheduler → ℕ → Bool
unfolding current_block
is_protected s slot =
    let proc = block_at s slot in
    let unprivileged = not ((current_block s).privilege_level == priv_system) in
    (proc.privilege_level == priv_system && unprivileged)
    || (is_immune proc.token || is_critical proc.token)

unfoldable pub is_denied : Scheduler → ℕ → Bool
unfolding current_block is_protected validate_process
is_denied s slot =
    let other = not ((current_block s).pid == (block_at s slot).pid) in
    (other && is_protected s slot) || not (validate_process s s.current_process)

-- A process that may not do what it tries is terminated itself.
unfoldable pub terminate_process : Scheduler → ℕ → TerminationReason → ℕ → Scheduler
unfolding current_process_by_pid current_block is_denied as_terminate terminate_slot
terminate_process s pid reason exit_code = elim (current_process_by_pid s pid) [
  | none ↦ s
  | some slot ↦
      if is_dead (block_at s slot).state
      then s
      else if not (is_security reason) && is_denied s slot
      then as_terminate s (current_block s).pid
      else terminate_slot s slot reason exit_code
]

unfoldable pub kill_process : Scheduler → ℕ → Scheduler
unfolding terminate_process
kill_process s pid = terminate_process s pid term_killed 1

-- What ProcessExitStubEEVDF does before it waits for ever.
unfoldable pub process_exit_stub : Scheduler → Scheduler
unfolding current_block terminate_process
process_exit_stub s = terminate_process s (current_block s).pid term_normal 0

unfoldable pub kill_current_process : Scheduler → Scheduler
unfolding current_block as_terminate
kill_current_process s = as_terminate s (current_block s).pid

-- EEVDFKillAllProcesses with `fuel` slots left, from the slot `i` on.
unfoldable pub kill_from : ℕ → Scheduler → ℕ → Scheduler
unfolding as_terminate
kill_from zero s i = s
kill_from (suc fuel) s i =
    let proc = block_at s i in
    let t =
      if not (is_terminated proc.state) && not (proc.pid == 0)
      then as_terminate s proc.pid
      else s in
    kill_from fuel t (i + 1)

unfoldable pub kill_all_processes : Scheduler → Scheduler
unfolding kill_from
kill_all_processes s = kill_from eevdf_max_processes s 0

unfoldable pub security_violation_handler : Scheduler → ℕ → Scheduler
unfolding as_terminate
security_violation_handler s violator_pid =
    let violations = add32 s.security_violation_count 1 in
    let t = record s { security_violation_count = violations } in
    if leb sis_max_violations violations then panic t else as_terminate t violator_pid

abbrev pub is_zombie : ProcessState → Bool
is_zombie zombie = true
is_zombie _ = false

abbrev pub cleanup_max_per_call : ℕ
cleanup_max_per_call = 3

-- A zombie gives back its stack and its slot.
unfoldable pub reap : Scheduler → ℕ → Scheduler
unfolding free_slot
reap s slot =
    let proc = block_at s slot in
    let freed = if proc.stack == 0 then s.freed_stacks else proc.stack ∷ s.freed_stacks in
    let t = free_slot (record (put_block s slot no_block) { freed_stacks = freed }) slot in
    record t { process_count = sub32 s.process_count 1 }

-- The loop with `left` clean-ups to go. A round takes one entry off the queue.
unfoldable pub cleanup_loop : ℕ → Scheduler → ℕ → Scheduler
unfolding remove_from_termination_queue reap
cleanup_loop zero s left = s
cleanup_loop (suc fuel) s zero = s
cleanup_loop (suc fuel) s (suc left) =
    let (slot, t) = remove_from_termination_queue s in
    let zombie_there = is_zombie (block_at t slot).state in
    elim (s.term_queue_count == 0) [
      | true ↦ s
      | false ↦ elim (leb eevdf_max_processes slot) [
        | true ↦ t
        | false ↦ elim zombie_there [
          | true ↦ cleanup_loop fuel (reap t slot) left
          | false ↦ cleanup_loop fuel t (suc left)
        ]
      ]
    ]

unfoldable pub cleanup_terminated_process : Scheduler → Scheduler
unfolding cleanup_loop
cleanup_terminated_process s = cleanup_loop s.term_queue_count s cleanup_max_per_call
