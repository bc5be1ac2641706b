-- ===== src/Eevdf/State.antt =====
-- The process control blocks, the run queue and the global state of kernel/sched/EEVDF.c and EEVDF.h.
-- Names, paths in ProcFS, counters that nothing writes and the locks are left out: a call runs to its end.
use void_frame.Prelude.{ℕ, ◌*◌, ◌/◌, ◌%◌, Bool, true, Option, none, List, [], get_or, set}
use void_frame.Prelude.Words.{u64_mod, test_bit}
use void_frame.Crypto.Bits.{Bits, zeros}
use void_frame.Cerberus.State.{CerberusState}
use void_frame.Cerberus.Canary.{Memory}
use void_frame.Ipc.Queue.{MessageQueue}
use void_frame.Ipc.Process.{
  ProcessState, terminated, ready, running, blocked, zombie, dying, empty_queue,
}
use void_frame.Eevdf.Nice.{ℤ, pos}
use void_frame.Eevdf.Tree.{RbTree}

-- PROC_PRIV_SYSTEM and the others are numbers in a byte; the values of ProcessState in their order.
abbrev pub priv_system : ℕ
priv_system = 0

abbrev pub priv_norm : ℕ
priv_norm = 1

abbrev pub state_code : ProcessState → ℕ
state_code terminated = 0
state_code ready = 1
state_code running = 2
state_code blocked = 3
state_code zombie = 4
state_code dying = 5

pub data TerminationReason : Type 0 where
  term_normal term_killed term_crashed term_security term_resource : TerminationReason

-- The registers that a process starts with, and the rest of them.
pub record Registers : Type 0 where
  pub general : List ℕ
  pub rip : ℕ
  pub cs : ℕ
  pub rflags : ℕ
  pub rsp : ℕ
  pub ss : ℕ

abbrev pub no_registers : Registers
no_registers = record { general = []; rip = 0; cs = 0; rflags = 0; rsp = 0; ss = 0 }

pub record SecurityToken : Type 0 where
  pub magic : ℕ
  pub creator_pid : ℕ
  pub privilege : ℕ
  pub capabilities : ℕ
  pub creation_tick : ℕ
  pub checksum : Bits
  pub pcb_hash : Bits

abbrev pub no_token : SecurityToken
no_token = record {
  magic = 0;
  creator_pid = 0;
  privilege = 0;
  capabilities = 0;
  creation_tick = 0;
  checksum = zeros 64;
  pcb_hash = zeros 64;
}

-- EEVDF_CAP_IMMUNE, EEVDF_CAP_CRITICAL and EEVDF_CAP_SUPERVISOR.
abbrev pub is_immune : SecurityToken → Bool
is_immune token = test_bit token.capabilities 12

abbrev pub is_critical : SecurityToken → Bool
is_critical token = test_bit token.capabilities 13

abbrev pub is_supervisor : SecurityToken → Bool
is_supervisor token = test_bit token.capabilities 14

-- A null stack is 0.
pub record ProcessControlBlock : Type 0 where
  pub pid : ℕ
  pub state : ProcessState
  pub stack : ℕ
  pub nice : ℤ
  pub weight : ℕ
  pub inv_weight : ℕ
  pub vruntime : ℕ
  pub deadline : ℕ
  pub slice_ns : ℕ
  pub exec_start : ℕ
  pub sum_exec_runtime : ℕ
  pub last_wakeup : ℕ
  pub rb_node : Option ℕ
  pub privilege_level : ℕ
  pub initial_entry_point : ℕ
  pub io_operations : ℕ
  pub cpu_time_accumulated : ℕ
  pub creation_time : ℕ
  pub term_reason : TerminationReason
  pub exit_code : ℕ
  pub termination_time : ℕ
  pub token : SecurityToken
  pub sis_seal : Bits
  pub ipc_queue : MessageQueue
  pub context : Registers

-- A block of zeros.
abbrev pub no_block : ProcessControlBlock
no_block = record {
  pid = 0;
  state = terminated;
  stack = 0;
  nice = pos 0;
  weight = 0;
  inv_weight = 0;
  vruntime = 0;
  deadline = 0;
  slice_ns = 0;
  exec_start = 0;
  sum_exec_runtime = 0;
  last_wakeup = 0;
  rb_node = none;
  privilege_level = 0;
  initial_entry_point = 0;
  io_operations = 0;
  cpu_time_accumulated = 0;
  creation_time = 0;
  term_reason = term_normal;
  exit_code = 0;
  termination_time = 0;
  token = no_token;
  sis_seal = zeros 64;
  ipc_queue = empty_queue;
  context = no_registers;
}

pub record Runqueue : Type 0 where
  pub tree : RbTree
  pub min_vruntime : ℕ
  pub clock : ℕ
  pub exec_clock : ℕ
  pub load_weight : ℕ
  pub nr_running : ℕ
  pub current_slot : ℕ

-- The bitmaps are lists of bits. `apic_ticks` and `apic_hz` are what the timer reads during a call,
-- `freed_stacks` lists the calls of VMemFreeStack, the last first, and `panicked` says that PANIC was
-- called: the machine has halted, and the other fields mean nothing any more.
pub record Scheduler : Type 0 where
  pub processes : List ProcessControlBlock
  pub pid_bitmap : List Bool
  pub current_process : ℕ
  pub process_count : ℕ
  pub need_schedule : Bool
  pub security_violation_count : ℕ
  pub active_process_bitmap : List Bool
  pub ready_process_bitmap : List Bool
  pub rq : Runqueue
  pub total_processes : ℕ
  pub tick_counter : ℕ
  pub switch_count : ℕ
  pub termination_queue : List ℕ
  pub term_queue_head : ℕ
  pub term_queue_tail : ℕ
  pub term_queue_count : ℕ
  pub context_switches : ℕ
  pub scheduler_calls : ℕ
  pub sis_global_nonce : ℕ
  pub sis_process_keys : List Bits
  pub cerberus : CerberusState
  pub memory : Memory
  pub cerberus_tick_counter : ℕ
  pub apic_ticks : ℕ
  pub apic_hz : ℕ
  pub freed_stacks : List ℕ
  pub panicked : Bool

abbrev pub block_at : Scheduler → ℕ → ProcessControlBlock
block_at s slot = get_or s.processes slot no_block

abbrev pub put_block : Scheduler → ℕ → ProcessControlBlock → Scheduler
put_block s slot p = record s { processes = set s.processes slot p }

abbrev pub panic : Scheduler → Scheduler
panic s = record s { panicked = true }

abbrev pub get_ns : Scheduler → ℕ
get_ns s = (s.apic_ticks * 1000000000) % u64_mod / s.apic_hz

unfoldable pub current_block : Scheduler → ProcessControlBlock
current_block s = block_at s s.current_process
