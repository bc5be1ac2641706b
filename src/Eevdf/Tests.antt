-- ===== src/Eevdf/Tests.antt =====
-- The scheduler at concrete inputs: started, and with processes.
use void_frame.Prelude.{
  ℕ, zero, suc, ◌≤◌, ◌<◌, ◌≡◌, ◌≢◌, refl, sym, subst, inl, inr, true, false, Option, none, some,
  List, [], ◌∷◌, ◌++◌, arith, length, replicate, get_or-replicate,
}
use void_frame.Crypto.Bits.{zeros}
use void_frame.Cerberus.State.{CerberusState, no_region, no_info}
use void_frame.Cerberus.Canary.{Memory}
use void_frame.Ipc.Process.{ready, running, blocked}
use void_frame.Eevdf.Nice.{pos, negsuc, nice_to_weight}
use void_frame.Eevdf.Tree.{free_node, RbTree, node_at, eevdf_max_processes}
use void_frame.Eevdf.Insert.{rb_insert}
use void_frame.Eevdf.Delete.{rb_delete}
use void_frame.Eevdf.State.{
  Scheduler, Runqueue, ProcessControlBlock, term_killed, term_security, no_block, no_registers,
  block_at, put_block, current_block,
}
use void_frame.Eevdf.Time.{set_task_nice, calc_slice, min_granularity, max_time_slice_ns}
use void_frame.Eevdf.Seal.{seal_pcb}
use void_frame.Eevdf.Slots.{current_process_by_pid}
use void_frame.Eevdf.Create.{
  Launch, cap_core, empty_tree, sched_init, create_process, create_secure_process,
}
use void_frame.Eevdf.Schedule.{schedule, preflight_check, postflight_check}
use void_frame.Eevdf.Terminate.{
  is_dead, as_terminate_slot, terminate_slot, terminate_process, kill_process, cleanup_max_per_call,
  cleanup_loop, cleanup_terminated_process,
}
use void_frame.Eevdf.Levels.{IsWeighted, set_task_nice_lem}
use void_frame.Eevdf.Slices.{IsShare, calc_slice_lem}
use void_frame.Eevdf.Ring.{IsRing, waiting}
use void_frame.Eevdf.Reap.{IsTable, Cleans, zombies, reaped_of, rest_of}
use void_frame.Eevdf.Reaping.{cleanup_terminated_process_lem, cleanup_loop-enough}
use void_frame.Eevdf.InRange.{InRange}
use void_frame.Eevdf.Runs.{Reach, here, next, starts, creates, schedules, Reach-InRange}
use void_frame.Eevdf.Integrity.{IsAltered, Condemns, check-IsAltered}
use void_frame.Eevdf.Dying.{Dies, terminate_slot_lem}
use void_frame.Eevdf.Guarding.{Protects, terminate_process-Protects}

abbrev fresh_state : CerberusState
fresh_state = record {
  watch_regions = replicate 64 no_region;
  process_info = replicate 128 no_info;
  active_regions = 0;
  monitored_processes = 0;
  total_violations = 0;
  is_initialized = false;
  has_lock = false;
  system_ticks = 0;
}

abbrev flat_memory : Memory
flat_memory = record { phys_addr = λ a. 1; word = λ a. 0; writable = λ a. true }

abbrev no_queue : Runqueue
unfolding empty_tree
no_queue = record {
  tree = empty_tree;
  min_vruntime = 0;
  clock = 0;
  exec_clock = 0;
  load_weight = 0;
  nr_running = 0;
  current_slot = 0;
}

-- The state before the scheduler starts.
abbrev boot : Scheduler
boot = record {
  processes = replicate 64 no_block;
  pid_bitmap = replicate 64 false;
  current_process = 0;
  process_count = 0;
  need_schedule = false;
  security_violation_count = 0;
  active_process_bitmap = replicate 64 false;
  ready_process_bitmap = replicate 64 false;
  rq = no_queue;
  total_processes = 0;
  tick_counter = 0;
  switch_count = 0;
  termination_queue = replicate 64 0;
  term_queue_head = 0;
  term_queue_tail = 0;
  term_queue_count = 0;
  context_switches = 0;
  scheduler_calls = 0;
  sis_global_nonce = 0x1337C0DEDEADBEEF;
  sis_process_keys = replicate 64 (zeros 64);
  cerberus = fresh_state;
  memory = flat_memory;
  cerberus_tick_counter = 0;
  apic_ticks = 200;
  apic_hz = 100;
  freed_stacks = [];
  panicked = false;
}

abbrev launch : Launch
launch = record { stack = 0x90000; entry_point = 0x1000; exit_stub = 0x2000 }

abbrev started : Scheduler
unfolding sched_init create_process
started = (create_process true (sched_init boot true) launch).1

abbrev two_tasks : Scheduler
unfolding create_process
two_tasks = (create_process true started launch).1

abbrev insert_all : RbTree → List ℕ → RbTree
unfolding rb_insert
insert_all t [] = t
insert_all t (i ∷ is) = insert_all (rb_insert t (λ k. k) i).1 is

abbrev delete_all : RbTree → List ℕ → RbTree
unfolding rb_delete
delete_all t [] = t
delete_all t (i ∷ is) = delete_all (rb_delete t i) is

abbrev slots_from : ℕ → RbTree → Option ℕ → List ℕ
slots_from zero t p = []
slots_from (suc fuel) t none = []
slots_from (suc fuel) t (some i) =
    slots_from fuel t (node_at t i).left
    ++ ((node_at t i).slot ∷ slots_from fuel t (node_at t i).right)

-- Twelve tasks enter the tree in this order of their keys, and five nodes leave it again.
abbrev full_tree : RbTree
unfolding empty_tree
full_tree = insert_all empty_tree (5 ∷ 3 ∷ 9 ∷ 1 ∷ 2 ∷ 8 ∷ 7 ∷ 6 ∷ 4 ∷ 10 ∷ 11 ∷ 12 ∷ [])

abbrev thin_tree : RbTree
thin_tree = delete_all full_tree (3 ∷ 0 ∷ 7 ∷ 4 ∷ 11 ∷ [])

full_tree-sorted :
    slots_from 9 full_tree full_tree.root ≡ 1 ∷ 2 ∷ 3 ∷ 4 ∷ 5 ∷ 6 ∷ 7 ∷ 8 ∷ 9 ∷ 10 ∷ 11 ∷ 12 ∷ []
unfolding full_tree insert_all
full_tree-sorted = refl

thin_tree-sorted :
    (slots_from 9 thin_tree thin_tree.root ≡ 3 ∷ 4 ∷ 7 ∷ 8 ∷ 9 ∷ 10 ∷ 11 ∷ [])
    × (thin_tree.leftmost ≡ some 1)
unfolding full_tree insert_all delete_all
thin_tree-sorted = (refl, refl)

two_tasks-runs :
    (two_tasks.rq.load_weight ≡ 2048)
    × ((block_at two_tasks 2).state ≡ ready)
    × (two_tasks.panicked ≡ false)
unfolding two_tasks started
two_tasks-runs = (refl, refl, refl)

-- The first of the tasks runs.
abbrev one_runs : Scheduler
unfolding schedule
one_runs = (schedule two_tasks no_registers).1

one_runs-first : (one_runs.current_process ≡ 1) × ((block_at one_runs 1).state ≡ running)
unfolding one_runs two_tasks started
one_runs-first = (refl, refl)

-- A task alone at nice 0 gets less than the third of the target latency that its weight is due.
alone :
    calc_slice
      (record no_queue { nr_running = 1; load_weight = 1024 })
      (set_task_nice no_block (pos 0))
    ≡ 1805696
unfolding calc_slice set_task_nice nice_to_weight no_queue
alone = refl

set_task_nice_lem_example :
    IsWeighted (set_task_nice no_block (negsuc 4))
    × ((set_task_nice no_block (pos 7)).weight ≤ (set_task_nice no_block (negsuc 4)).weight)
set_task_nice_lem_example = set_task_nice_lem no_block (negsuc 4) (pos 7) (omega arith)

-- A task as the scheduler makes them, of nice 0.
abbrev plain_task : ProcessControlBlock
unfolding set_task_nice
plain_task = set_task_nice no_block (pos 0)

abbrev busy_queue : ℕ → Runqueue
unfolding no_queue
busy_queue load = record no_queue { nr_running = 3; load_weight = load }

calc_slice_lem_example :
    (min_granularity ≤ calc_slice (busy_queue 3072) plain_task)
    × (calc_slice (busy_queue 3072) plain_task ≤ calc_slice (busy_queue 2048) plain_task)
    × (calc_slice (busy_queue 2048) plain_task ≤ max_time_slice_ns)
    × IsShare plain_task.weight 2048 (calc_slice (busy_queue 2048) plain_task)
unfolding busy_queue
calc_slice_lem_example =
    calc_slice_lem (busy_queue 3072) (busy_queue 2048) plain_task (omega arith) (omega arith)
      (omega arith) (omega arith)

two_tasks-IsRing : IsRing two_tasks
unfolding two_tasks started
two_tasks-IsRing = record { places = refl; head = omega arith; count = omega arith; tail = refl }

-- The idle process kills the second task.
abbrev one_killed : Scheduler
unfolding kill_process
one_killed = kill_process two_tasks 2

one_killed-IsTable : IsTable one_killed
unfolding one_killed two_tasks started
one_killed-IsTable = record {
  ring = record { places = refl; head = omega arith; count = omega arith; tail = refl };
  slots = refl;
  bits = refl;
  inside = (omega arith, tt);
}

cleanup_terminated_process_lem_example :
    Cleans one_killed
      (cleanup_terminated_process one_killed)
      (reaped_of (zombies one_killed) cleanup_max_per_call (waiting one_killed))
      (rest_of (zombies one_killed) cleanup_max_per_call (waiting one_killed))
cleanup_terminated_process_lem_example =
    cleanup_terminated_process_lem one_killed one_killed-IsTable

one_killed-reaped :
    reaped_of (zombies one_killed) cleanup_max_per_call (waiting one_killed) ≡ 2 ∷ []
unfolding one_killed two_tasks started reaped_of
one_killed-reaped = refl

one_killed-count : one_killed.term_queue_count ≡ 1
unfolding one_killed two_tasks started
one_killed-count = refl

cleanup_loop-enough_example : cleanup_loop 7 one_killed 3 ≡ cleanup_loop 1 one_killed 3
cleanup_loop-enough_example =
    cleanup_loop-enough 1 7 one_killed 3 one_killed-IsTable one_killed-count (omega arith)

-- A sealed task that runs, and the same when it waits for a message: IPC sets its state and no seal.
abbrev running_task : ProcessControlBlock
running_task = record no_block { pid = 1; state = running; privilege_level = 1 }

abbrev blocked_task : Scheduler
unfolding seal_pcb
blocked_task =
    put_block boot 1
      (record running_task { sis_seal = seal_pcb boot running_task 1; state = blocked })

blocked_task-IsAltered : IsAltered blocked_task 1 running_task
unfolding blocked_task seal_pcb
blocked_task-IsAltered = record {
  slot_small = omega arith;
  not_idle = omega arith;
  key = refl;
  sealed = refl;
  same_pid = refl;
  bytes = (omega arith, omega arith);
  change = inl (omega arith, refl);
}

blocked_task-IsRing : IsRing blocked_task
unfolding blocked_task
blocked_task-IsRing = record { places = refl; head = omega arith; count = omega arith; tail = refl }

blocked_task-facts :
    (blocked_task.term_queue_count < eevdf_max_processes)
    × (current_process_by_pid blocked_task (block_at blocked_task 1).pid ≡ some 1)
unfolding blocked_task current_process_by_pid
blocked_task-facts = (omega arith, refl)

check-IsAltered_example :
    Condemns blocked_task 1 (postflight_check blocked_task 1)
    × Condemns blocked_task 1 (preflight_check blocked_task 1)
check-IsAltered_example =
    check-IsAltered blocked_task 1 running_task blocked_task-IsAltered blocked_task-IsRing
      blocked_task-facts.0 blocked_task-facts.1

two_tasks-places : 2 < length two_tasks.processes
unfolding two_tasks started
two_tasks-places = omega arith

two_tasks-room : two_tasks.term_queue_count < eevdf_max_processes
unfolding two_tasks started
two_tasks-room = omega arith

terminate_slot_lem_example :
    Dies two_tasks 2 term_killed 1 (terminate_slot two_tasks 2 term_killed 1)
    × Dies two_tasks 2 term_security 666 (as_terminate_slot two_tasks 2)
terminate_slot_lem_example =
    terminate_slot_lem two_tasks 2 term_killed 1 two_tasks-places two_tasks-IsRing two_tasks-room

-- A normal task runs beside a system process.
abbrev guarded : Scheduler
unfolding create_secure_process
guarded = record ((create_secure_process true one_runs launch 0 cap_core).1) { current_process = 1 }

guarded-IsRing : IsRing guarded
unfolding guarded one_runs two_tasks started
guarded-IsRing = record { places = refl; head = omega arith; count = omega arith; tail = refl }

guarded-facts :
    (guarded.term_queue_count < eevdf_max_processes)
    × (current_process_by_pid guarded 3 ≡ some 3)
    × (current_process_by_pid guarded (current_block guarded).pid ≡ some guarded.current_process)
    × ((current_block guarded).pid ≢ 3)
    × (is_dead (block_at guarded 3).state ≡ false)
    × Protects guarded 3
unfolding guarded one_runs two_tasks started current_process_by_pid current_block
guarded-facts = (omega arith, refl, refl, omega arith, refl, inr (inl refl))

terminate_process-Protects_example :
    Dies guarded guarded.current_process term_security 666
      (terminate_process guarded 3 term_killed 1)
    × (block_at (terminate_process guarded 3 term_killed 1) 3 ≡ block_at guarded 3)
terminate_process-Protects_example =
    terminate_process-Protects guarded 3 3 term_killed 1 guarded-IsRing guarded-facts.0
      guarded-facts.1 guarded-facts.2 guarded-facts.3 guarded-facts.4 refl guarded-facts.5

boot-InRange : InRange boot
unfolding InRange no_queue empty_tree
boot-InRange = record {
  blocks = refl;
  keys = refl;
  pids = refl;
  active = refl;
  ready = refl;
  places = refl;
  entries = λ i. subst (λ n. n < eevdf_max_processes) (sym (get_or-replicate 64 i 0)) (omega arith);
  head = omega arith;
  count = omega arith;
  tail = refl;
  pool = record {
    size = refl;
    slots = λ k.
        subst (λ n. n.slot < eevdf_max_processes) (sym (get_or-replicate 64 k free_node))
          (omega arith);
  };
  current = omega arith;
  running = omega arith;
}

one_runs-Reach : Reach boot one_runs
unfolding one_runs two_tasks started create_process
one_runs-Reach =
    next (next (next (next here (starts true)) (creates true launch 1 0)) (creates true launch 1 0))
      (schedules no_registers)

Reach-InRange_example : InRange one_runs
Reach-InRange_example = Reach-InRange boot-InRange one_runs-Reach
