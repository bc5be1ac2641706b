-- ===== src/Eevdf/Schedule.antt =====
-- The checks around a context switch and EEVDFSchedule, with the handlers that ask for it, in
-- kernel/sched/EEVDF.c.
use void_frame.Prelude.{
  ℕ, ◌+◌, ◌*◌, ◌/◌, ◌%◌, Bool, true, false, not, ◌&&◌, ◌||◌, Option, none, some, leb, ltb, ◌==◌,
  if◌then◌else◌, set,
}
use void_frame.Prelude.Words.{u32_mod, add32, add64}
use void_frame.Cerberus.Canary.{pre_schedule_check}
use void_frame.Cerberus.Watch.{tick}
use void_frame.Ipc.Process.{ProcessState, ready, running, blocked}
use void_frame.Eevdf.Tree.{eevdf_max_processes}
use void_frame.Eevdf.State.{
  Registers, ProcessControlBlock, Scheduler, block_at, put_block, get_ns, priv_system, is_immune,
  is_critical, is_supervisor,
}
use void_frame.Eevdf.Time.{calc_slice, update_curr}
use void_frame.Eevdf.Runqueue.{is_ready, enqueue_task, dequeue_task, pick_next, update_clock}
use void_frame.Eevdf.Seal.{verify_pcb, update_seal}
use void_frame.Eevdf.Slots.{current_process_by_pid}
use void_frame.Eevdf.Terminate.{as_terminate, is_dead, cleanup_terminated_process}

-- The check of Cerberus is given the slot.
unfoldable pub preflight_check : Scheduler → ℕ → Bool × Scheduler
unfolding verify_pcb as_terminate pre_schedule_check
preflight_check s slot =
    let proc = block_at s slot in
    let escalated =
      proc.privilege_level == priv_system
      && not (is_supervisor proc.token || (is_critical proc.token || is_immune proc.token)) in
    if slot == 0
    then (true, s)
    else if not (verify_pcb s proc slot) || escalated
    then (false, as_terminate s proc.pid)
    else (true, record s { cerberus = pre_schedule_check s.cerberus s.memory slot })

unfoldable pub postflight_check : Scheduler → ℕ → Bool × Scheduler
unfolding verify_pcb as_terminate
postflight_check s slot =
    let proc = block_at s slot in
    if slot == 0
    then (true, s)
    else if not (verify_pcb s proc slot)
    then (false, as_terminate s proc.pid)
    else (true, s)

-- AtomicInc on a uint64_t: only the low half is incremented.
abbrev pub add_low : ℕ → ℕ
add_low n = n / u32_mod * u32_mod + add32 (n % u32_mod) 1

-- The counters, Cerberus's tick in every tenth call, and the clock.
unfoldable pub begin_schedule : Scheduler → Scheduler
unfolding tick update_clock
begin_schedule s =
    let calls = add64 s.cerberus_tick_counter 1 in
    update_clock (record s {
      scheduler_calls = add64 s.scheduler_calls 1;
      tick_counter = add_low s.tick_counter;
      cerberus_tick_counter = calls;
      cerberus = if calls % 10 == 0 then tick s.cerberus else s.cerberus;
    })

abbrev pub is_running : ProcessState → Bool
is_running running = true
is_running _ = false

-- A running task is ready again, under a new seal.
unfoldable pub to_ready : Scheduler → ℕ → Scheduler
unfolding update_seal
to_ready s slot =
    let p = block_at s slot in
    let t = update_seal (put_block s slot (record p { state = ready })) slot in
    if is_running p.state
    then record t { ready_process_bitmap = set s.ready_process_bitmap slot true }
    else s

-- The task that was running, up to the label pick_next.
unfoldable pub leave_task : Scheduler → Registers → ℕ → Scheduler
unfolding postflight_check update_curr to_ready
leave_task s regs slot =
    let checked = postflight_check s slot in
    let t = checked.1 in
    let saved = put_block t slot (record (block_at t slot) { context = regs }) in
    if is_dead (block_at s slot).state
    then s
    else if checked.0
    then to_ready (update_curr saved slot) slot
    else t

-- The next task, by the slot; 0 is the idle process. It has left the run queue.
unfoldable pub choose_task : Scheduler → ℕ × Scheduler
unfolding pick_next preflight_check dequeue_task
choose_task s = elim (pick_next s.rq) [
  | none ↦ (0, s)
  | some first ↦
      let (safe, t) = preflight_check s first in
      let dropped = dequeue_task t first in
      let candidate : Option ℕ × Scheduler =
        if safe then (some first, t) else (pick_next dropped.rq, dropped) in
      elim (candidate.0) [
        | none ↦ (0, candidate.1)
        | some next ↦
            if is_ready (block_at candidate.1 next).state
            then (next, dequeue_task candidate.1 next)
            else (0, candidate.1)
      ]
]

-- The switch to the task in the slot `next`, which is not the idle process.
unfoldable pub enter_task : Scheduler → Registers → ℕ → Registers × Scheduler
unfolding update_seal calc_slice
enter_task s regs next =
    let proc = block_at s next in
    let t = update_seal (put_block s next (record proc { state = running })) next in
    let p = block_at t next in
    let timed =
      put_block t next (record p { exec_start = get_ns s; slice_ns = calc_slice s.rq p }) in
    if proc.stack == 0 || (proc.context).rip == 0 then (regs, s) else (
      proc.context,
      record timed {
        ready_process_bitmap = set s.ready_process_bitmap next false;
        context_switches = add64 s.context_switches 1;
        switch_count = add_low s.switch_count;
      },
    )

unfoldable pub schedule : Scheduler → Registers → Registers × Scheduler
unfolding begin_schedule leave_task enqueue_task choose_task enter_task cleanup_terminated_process
schedule s regs =
    let old = s.rq.current_slot in
    let has_prev = not (old == 0) && ltb old eevdf_max_processes in
    let begun = begin_schedule s in
    let left = if has_prev then leave_task begun regs old else begun in
    let queued = if has_prev then enqueue_task left old else left in
    let (next, chosen) = choose_task queued in
    let current = record chosen {
      rq = record (chosen.rq) { current_slot = next };
      current_process = next;
    } in
    let (regs', entered) : Registers × Scheduler =
      if next == 0 then (regs, current) else enter_task current regs next in
    (
      regs',
      if entered.scheduler_calls % 100 == 0 then cleanup_terminated_process entered else entered,
    )

unfoldable pub yield : Scheduler → Scheduler
yield s = record s { need_schedule = true }

unfoldable pub process_blocked : Scheduler → ℕ → Scheduler
process_blocked s slot =
    let proc = block_at s slot in
    if leb eevdf_max_processes slot
    then s
    else record (put_block s slot (record proc { io_operations = add32 proc.io_operations 1 })) {
      need_schedule = s.need_schedule || slot == s.rq.current_slot;
    }

abbrev pub is_blocked : ProcessState → Bool
is_blocked blocked = true
is_blocked _ = false

unfoldable pub wakeup_task : Scheduler → ℕ → Scheduler
unfolding enqueue_task
wakeup_task s slot =
    let p = block_at s slot in
    if is_blocked p.state
    then enqueue_task (put_block s slot (record p { state = ready; last_wakeup = get_ns s })) slot
    else s

abbrev pub wakeup_granularity : ℕ
wakeup_granularity = 1000000

unfoldable pub check_preempt : Scheduler → ProcessControlBlock → Bool
check_preempt s p =
    let curr = block_at s s.rq.current_slot in
    s.rq.current_slot == 0
    || (ltb p.deadline curr.deadline || ltb (add64 p.vruntime wakeup_granularity) curr.vruntime)

unfoldable pub yield_task : Scheduler → Scheduler
unfolding update_curr enqueue_task
yield_task s =
    let slot = s.rq.current_slot in
    let t = update_curr s slot in
    let queued =
      enqueue_task (put_block t slot (record (block_at t slot) { state = ready })) slot in
    if slot == 0 then s else record queued { need_schedule = true }

-- The CPU time that EEVDFGetProcessStats reports; the other two counters are never written.
unfoldable pub get_process_stats : Scheduler → ℕ → ℕ
unfolding current_process_by_pid
get_process_stats s pid = elim (current_process_by_pid s pid) [
  | none ↦ 0
  | some slot ↦ (block_at s slot).cpu_time_accumulated % u32_mod
]
