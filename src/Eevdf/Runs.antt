-- ===== src/Eevdf/Runs.antt =====
-- The runs of the scheduler: every operation keeps the tables' sizes and the indices inside them.
use void_frame.Prelude.{
  ℕ, ◌%◌, ◌<◌, ◌≡◌, refl, sym, subst, Bool, true, false, not, ◌&&◌, List, arith, length, length-set,
  set, get_or-replicate, ◌∙◌, replicate, ltb, leb, ◌==◌, if◌then◌else◌,
}
use void_frame.Cerberus.State.{CerberusState}
use void_frame.Ipc.Process.{ready}
use void_frame.Eevdf.Tree.{free_node, eevdf_max_processes}
use void_frame.Eevdf.State.{
  Registers, Scheduler, ProcessControlBlock, TerminationReason, no_block, block_at, put_block,
  get_ns,
}
use void_frame.Eevdf.Time.{update_curr}
use void_frame.Eevdf.Runqueue.{enqueue_task}
use void_frame.Eevdf.Create.{
  Launch, empty_tree, idle_block, idle_token, sched_init, create_secure_process,
}
use void_frame.Eevdf.Terminate.{
  terminate_process, kill_current_process, kill_all_processes, security_violation_handler,
  cleanup_terminated_process,
}
use void_frame.Eevdf.Schedule.{
  begin_schedule, leave_task, choose_task, enter_task, schedule, yield, process_blocked,
  wakeup_task, yield_task, is_blocked,
}
use void_frame.Eevdf.InRange.{
  InRange, shape, Fits-current, put_InRange, enqueue_task-InRange, ready_of, active_of, running_of,
}
use void_frame.Eevdf.Ending.{
  update_seal-InRange, terminate_process-InRange, kill_current_process-InRange,
  kill_all_processes-InRange, security_violation_handler-InRange,
  cleanup_terminated_process-InRange,
}
use void_frame.Eevdf.Starting.{generate_process_key-InRange, create_secure_process-InRange}
use void_frame.Eevdf.Switching.{
  Chosen, plain_InRange, begin_schedule-InRange, leave_task-InRange, choose_task-Chosen,
  update_curr-InRange, bits_InRange,
}

counters_InRange :
    (t : Scheduler) (a b : ℕ)
    → InRange t
    → InRange (record t { context_switches = a; switch_count = b })
unfolding InRange
counters_InRange t a b h = h

switched_InRange :
    (b : Bool) (r q : Registers × Scheduler)
    → InRange r.1
    → InRange q.1
    → InRange (if b then r else q).1
switched_InRange true r q h k = h
switched_InRange false r q h k = k

enter_task-InRange :
    (s : Scheduler) (regs : Registers) (next : ℕ) → InRange s → InRange (enter_task s regs next).1
unfolding enter_task
enter_task-InRange s regs next h =
    switched_InRange _ (regs, s) _ h
      (counters_InRange _ _ _ (
        bits_InRange _ (set s.ready_process_bitmap next false)
          (length-set s.ready_process_bitmap next false ∙ ready_of s h)
          (put_InRange _ next _ (update_seal-InRange _ next (put_InRange s next _ h)))))

current_InRange :
    (s : Scheduler) (k : ℕ)
    → k < eevdf_max_processes
    → InRange s
    → InRange (record s { rq = record (s.rq) { current_slot = k }; current_process = k })
unfolding InRange
current_InRange s k b h = Fits-current (shape s) k b h

schedule-InRange : (s : Scheduler) (regs : Registers) → InRange s → InRange (schedule s regs).1
unfolding schedule Chosen
schedule-InRange s regs h =
    let old = s.rq.current_slot in
    let has_prev = not (old == 0) && ltb old eevdf_max_processes in
    let b = (running_of s h).1 in
    let begun = begin_schedule s in
    let kb = begin_schedule-InRange s h in
    let left = if has_prev then leave_task begun regs old else begun in
    let kl =
      plain_InRange has_prev (leave_task begun regs old) begun
        (leave_task-InRange begun regs old kb) kb in
    let queued = if has_prev then enqueue_task left old else left in
    let kq =
      plain_InRange has_prev (enqueue_task left old) left (enqueue_task-InRange left old b kl) kl in
    let (kc, small) = choose_task-Chosen queued kq in
    let next = (choose_task queued).0 in
    let chosen = (choose_task queued).1 in
    let current : Scheduler = record chosen {
      rq = record (chosen.rq) { current_slot = next };
      current_process = next;
    } in
    let kn = current_InRange chosen next small kc in
    let entered : Registers × Scheduler =
      if next == 0 then (regs, current) else enter_task current regs next in
    let ke =
      switched_InRange (next == 0) (regs, current) (enter_task current regs next) kn
        (enter_task-InRange current regs next kn) in
    plain_InRange (entered.1.scheduler_calls % 100 == 0) (cleanup_terminated_process entered.1)
      entered.1 (cleanup_terminated_process-InRange entered.1 ke) ke

asked_InRange : (s : Scheduler) (b : Bool) → InRange s → InRange (record s { need_schedule = b })
unfolding InRange
asked_InRange s b h = h

process_blocked-InRange : (s : Scheduler) (slot : ℕ) → InRange s → InRange (process_blocked s slot)
unfolding process_blocked
process_blocked-InRange s slot h =
    plain_InRange (leb eevdf_max_processes slot) s _ h (asked_InRange _ _ (put_InRange s slot _ h))

wakeup_task-InRange :
    (s : Scheduler) (slot : ℕ)
    → slot < eevdf_max_processes
    → InRange s
    → InRange (wakeup_task s slot)
unfolding wakeup_task
wakeup_task-InRange s slot b h =
    let p = block_at s slot in
    let woken = put_block s slot (record p { state = ready; last_wakeup = get_ns s }) in
    plain_InRange (is_blocked p.state) (enqueue_task woken slot) s
      (enqueue_task-InRange woken slot b (put_InRange s slot _ h)) h

yield_task-InRange : (s : Scheduler) → InRange s → InRange (yield_task s)
unfolding yield_task
yield_task-InRange s h =
    let slot = s.rq.current_slot in
    let t = update_curr s slot in
    let queued =
      enqueue_task (put_block t slot (record (block_at t slot) { state = ready })) slot in
    plain_InRange (slot == 0) s (record queued { need_schedule = true }) h
      (asked_InRange queued true (
        enqueue_task-InRange _ slot (running_of s h).1
          (put_InRange t slot _ (update_curr-InRange s slot h))))

-- The state that the scheduler starts from, before its first key and seal.
cleared_InRange :
    (s : Scheduler) (c : CerberusState) (idle : ProcessControlBlock) (bits : List Bool)
    → length bits ≡ eevdf_max_processes
    → InRange s
    → InRange (record s {
      cerberus = c;
      processes = set (replicate eevdf_max_processes no_block) 0 idle;
      rq = record {
        tree = empty_tree;
        min_vruntime = 0;
        clock = 0;
        exec_clock = 0;
        load_weight = 0;
        nr_running = 0;
        current_slot = 0;
      };
      tick_counter = 1;
      total_processes = 0;
      switch_count = 0;
      process_count = 1;
      active_process_bitmap = bits;
    })
unfolding InRange empty_tree
cleared_InRange s c idle bits e h = record {
  blocks = refl;
  keys = h.keys;
  pids = h.pids;
  active = e;
  ready = h.ready;
  places = h.places;
  entries = h.entries;
  head = h.head;
  count = h.count;
  tail = h.tail;
  pool = record {
    size = refl;
    slots = λ k.
        subst (λ n. n.slot < eevdf_max_processes)
          (sym (get_or-replicate eevdf_max_processes k free_node)) (omega arith);
  };
  current = h.current;
  running = omega arith;
}

sched_init-InRange : (s : Scheduler) (made : Bool) → InRange s → InRange (sched_init s made)
unfolding sched_init
sched_init-InRange s made h =
    let idle : ProcessControlBlock = record (idle_block s) { token = idle_token s } in
    update_seal-InRange _ 0 (
      generate_process_key-InRange _ 0 0 (
        cleared_InRange s _ idle (set s.active_process_bitmap 0 true)
          (length-set s.active_process_bitmap 0 true ∙ active_of s h) h))

-- The operations of the scheduler, its start, the ticks of the timer, and what IPC and the nice levels write into
-- the block of a process.
pub data Step (s : Scheduler) : Scheduler → Type 0 where
  creates :
      (protection : Bool) (l : Launch) (priv capabilities : ℕ)
      → Step s (create_secure_process protection s l priv capabilities).1
  terminates :
      (pid : ℕ) (reason : TerminationReason) (exit_code : ℕ)
      → Step s (terminate_process s pid reason exit_code)
  kills_current : Step s (kill_current_process s)
  kills_all : Step s (kill_all_processes s)
  violates : (pid : ℕ) → Step s (security_violation_handler s pid)
  cleans : Step s (cleanup_terminated_process s)
  schedules : (regs : Registers) → Step s (schedule s regs).1
  starts : (made : Bool) → Step s (sched_init s made)
  yields : Step s (yield s)
  yields_task : Step s (yield_task s)
  blocks : (slot : ℕ) → Step s (process_blocked s slot)
  wakes : (slot : ℕ) → slot < eevdf_max_processes → Step s (wakeup_task s slot)
  ticks : (n : ℕ) → Step s (record s { apic_ticks = n })
  writes : (slot : ℕ) (p : ProcessControlBlock) → Step s (put_block s slot p)

pub data Reach (s : Scheduler) : Scheduler → Type 0 where
  here : Reach s s
  next : {t u : Scheduler} → Reach s t → Step t u → Reach s u

yield-InRange : (s : Scheduler) → InRange s → InRange (yield s)
unfolding yield
yield-InRange s h = asked_InRange s true h

ticked_InRange : (s : Scheduler) (n : ℕ) → InRange s → InRange (record s { apic_ticks = n })
unfolding InRange
ticked_InRange s n h = h

step_InRange : {s t : Scheduler} → InRange s → Step s t → InRange t
step_InRange {s = s} h (creates protection l priv capabilities) =
    create_secure_process-InRange protection s l priv capabilities h
step_InRange {s = s} h (terminates pid reason exit_code) =
    terminate_process-InRange s pid reason exit_code h
step_InRange {s = s} h kills_current = kill_current_process-InRange s h
step_InRange {s = s} h kills_all = kill_all_processes-InRange s h
step_InRange {s = s} h (violates pid) = security_violation_handler-InRange s pid h
step_InRange {s = s} h cleans = cleanup_terminated_process-InRange s h
step_InRange {s = s} h (schedules regs) = schedule-InRange s regs h
step_InRange {s = s} h (starts made) = sched_init-InRange s made h
step_InRange {s = s} h yields = yield-InRange s h
step_InRange {s = s} h yields_task = yield_task-InRange s h
step_InRange {s = s} h (blocks slot) = process_blocked-InRange s slot h
step_InRange {s = s} h (wakes slot b) = wakeup_task-InRange s slot b h
step_InRange {s = s} h (ticks n) = ticked_InRange s n h
step_InRange {s = s} h (writes slot p) = put_InRange s slot p h

-- Whatever operations of the scheduler follow each other: if every table has 64 places and every index
-- that the state keeps is one of them (the slots in the nodes of the run queue and in the termination
-- queue, its head and tail, and the current task), then this holds in the end, and no more than 64
-- slots wait.
pub Reach-InRange : {s t : Scheduler} → InRange s → Reach s t → InRange t
Reach-InRange h here = h
Reach-InRange h (next r step) = step_InRange (Reach-InRange h r) step
