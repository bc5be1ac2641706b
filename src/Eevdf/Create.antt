-- ===== src/Eevdf/Create.antt =====
-- The creation of processes and the start of the scheduler, in kernel/sched/EEVDF.c.
use void_frame.Prelude.{
  ℕ, ◌/◌, ◌*◌, Bool, true, false, ◌||◌, none, some, [], leb, ◌==◌, if◌then◌else◌, set, replicate,
}
use void_frame.Prelude.Words.{add32, sub64}
use void_frame.Cerberus.State.{init}
use void_frame.Cerberus.Canary.{register_process, write_word}
use void_frame.Ipc.Process.{ready, running}
use void_frame.Eevdf.Nice.{pos}
use void_frame.Eevdf.Tree.{RbTree, eevdf_max_processes, free_node}
use void_frame.Eevdf.State.{
  Registers, SecurityToken, ProcessControlBlock, Scheduler, no_token, no_block, block_at, put_block,
  panic, get_ns, current_block, priv_system, priv_norm,
}
use void_frame.Eevdf.Time.{set_task_nice}
use void_frame.Eevdf.Runqueue.{enqueue_task}
use void_frame.Eevdf.Seal.{sis_magic, generate_process_key, update_seal, token_checksum}
use void_frame.Eevdf.Slots.{find_free_slot, free_slot, allocate_pid, free_pid}

abbrev pub stack_size : ℕ
stack_size = 4096

-- EEVDF_CAP_CORE: bits 12, 13 and 14.
abbrev pub cap_core : ℕ
cap_core = 28672

-- What the surroundings give a new process: the stack that VMemAllocStack returns, 0 if none, and the
-- addresses of its entry point and of ProcessExitStubEEVDF.
pub record Launch : Type 0 where
  pub stack : ℕ
  pub entry_point : ℕ
  pub exit_stub : ℕ

abbrev pub stack_start : ℕ → ℕ
stack_start stack = sub64 (stack / 16 * 16) 8

-- KERNEL_CODE_SELECTOR is 8, KERNEL_DATA_SELECTOR 16.
abbrev pub first_context : Launch → Registers
first_context l = record {
  general = [];
  rip = l.entry_point;
  cs = 8;
  rflags = 0x202;
  rsp = stack_start l.stack;
  ss = 16;
}

unfoldable pub new_token : Scheduler → ℕ → ℕ → SecurityToken
unfolding token_checksum current_block
new_token s priv capabilities =
    let token : SecurityToken = record no_token {
      magic = sis_magic;
      creator_pid = (current_block s).pid;
      privilege = priv;
      capabilities = capabilities;
      creation_tick = s.apic_ticks;
    } in
    record token { checksum = token_checksum token }

-- The block before it is sealed, its IPC queue empty.
unfoldable pub new_block : Scheduler → Launch → ℕ → ℕ → ℕ → ProcessControlBlock
unfolding set_task_nice new_token
new_block s l pid priv capabilities =
    let p = set_task_nice no_block (pos 0) in
    record p {
      pid = pid;
      state = ready;
      stack = l.stack;
      privilege_level = priv;
      creation_time = s.apic_ticks;
      initial_entry_point = l.entry_point;
      vruntime = s.rq.min_vruntime;
      exec_start = get_ns s;
      token = new_token s priv capabilities;
      context = first_context l;
    }

unfoldable pub seal_new : Scheduler → ℕ → Scheduler
unfolding update_seal
seal_new s slot =
    let t = update_seal s slot in
    let p = block_at t slot in
    put_block t slot (record p { token = record (p.token) { pcb_hash = p.sis_seal } })

-- From the zeroed block on, with the slot and the PID claimed and a stack.
unfoldable pub start_process : Bool → Scheduler → Launch → ℕ → ℕ → ℕ → ℕ → Scheduler
unfolding generate_process_key new_block seal_new register_process enqueue_task
start_process protection s l slot pid priv capabilities =
    let block = new_block (put_block s slot no_block) l pid priv capabilities in
    let pushed = write_word s.memory (stack_start l.stack) l.exit_stub in
    let keyed =
      generate_process_key (record (put_block s slot block) { memory = pushed }) slot pid in
    let sealed = seal_new keyed slot in
    let registered = register_process protection sealed.cerberus pushed pid l.stack stack_size in
    let counted = record sealed {
      cerberus = registered.1;
      memory = registered.2;
      process_count = add32 s.process_count 1;
      ready_process_bitmap = set s.ready_process_bitmap slot true;
      total_processes = add32 s.total_processes 1;
    } in
    enqueue_task counted slot

-- The PID of the new process, 0 after a panic.
unfoldable pub create_secure_process : Bool → Scheduler → Launch → ℕ → ℕ → ℕ × Scheduler
unfolding find_free_slot free_slot allocate_pid free_pid start_process
create_secure_process protection s l priv capabilities =
    let (found, s1) = find_free_slot s in
    let (allocated, s2) = allocate_pid s1 in
    if l.entry_point == 0 || leb eevdf_max_processes s.process_count
    then (0, panic s)
    else elim found [
      | none ↦ (0, panic s)
      | some slot ↦ elim allocated [
        | none ↦ (0, panic (free_slot s1 slot))
        | some pid ↦
            if l.stack == 0
            then (0, panic (free_pid (free_slot (put_block s2 slot no_block) slot) pid))
            else (pid, start_process protection s2 l slot pid priv capabilities)
      ]
    ]

unfoldable pub create_process : Bool → Scheduler → Launch → ℕ × Scheduler
unfolding create_secure_process
create_process protection s l = create_secure_process protection s l priv_norm 0

-- EEVDFSchedInit up to the start of the shell, with its locks at hand: `made` says that the lock of
-- Cerberus was allocated. The bitmaps, the termination queue and the counters keep what they hold.
unfoldable pub empty_tree : RbTree
empty_tree = record {
  pool = replicate eevdf_max_processes free_node;
  pool_bitmap = replicate eevdf_max_processes false;
  root = none;
  leftmost = none;
}

unfoldable pub idle_block : Scheduler → ProcessControlBlock
unfolding set_task_nice
idle_block s =
    let p = set_task_nice no_block (pos 0) in
    record p {
      state = running;
      privilege_level = priv_system;
      creation_time = s.apic_ticks;
      exec_start = get_ns s;
    }

unfoldable pub idle_token : Scheduler → SecurityToken
unfolding token_checksum
idle_token s =
    let token : SecurityToken = record no_token {
      magic = sis_magic;
      privilege = priv_system;
      capabilities = cap_core;
      creation_tick = s.apic_ticks;
    } in
    record token { checksum = token_checksum token }

unfoldable pub sched_init : Scheduler → Bool → Scheduler
unfolding init empty_tree idle_block idle_token generate_process_key update_seal
sched_init s made =
    let idle : ProcessControlBlock = record (idle_block s) { token = idle_token s } in
    let cleared = record s {
      cerberus = init s.cerberus made;
      processes = set (replicate eevdf_max_processes no_block) 0 idle;
      rq = record {
        tree = empty_tree;
        min_vruntime = 0;
        clock = 0;
        exec_clock = 0;
        load_weight = 0;
        nr_running = 0;
        current_slot = 0;
      };
      tick_counter = 1;
      total_processes = 0;
      switch_count = 0;
      process_count = 1;
      active_process_bitmap = set s.active_process_bitmap 0 true;
    } in
    update_seal (generate_process_key cleared 0 0) 0

-- The shell is a system process with the core capabilities.
unfoldable pub sched_init_with_shell : Bool → Scheduler → Bool → Launch → Scheduler
unfolding sched_init create_secure_process
sched_init_with_shell protection s made l =
    let (pid, t) = create_secure_process protection (sched_init s made) l priv_system cap_core in
    if pid == 0 then panic t else t
