-- ===== src/Eevdf/Time.antt =====
-- Nice levels of a task and virtual time, in kernel/sched/EEVDF.c.
use void_frame.Prelude.{ℕ, ◌*◌, ◌/◌, ◌%◌, ◌^◌, none, some, ltb, ◌==◌, if◌then◌else◌}
use void_frame.Prelude.Words.{u32_mod, u64_mod, add64, sub64}
use void_frame.Eevdf.Nice.{ℤ, clamp_nice, nice_to_weight, nice_to_wmult}
use void_frame.Eevdf.Tree.{node_at}
use void_frame.Eevdf.State.{ProcessControlBlock, Runqueue, Scheduler, block_at, put_block, get_ns}

abbrev pub time_slice_ns : ℕ
time_slice_ns = 4 * 1000000

abbrev pub min_granularity : ℕ
min_granularity = 750000

abbrev pub target_latency : ℕ
target_latency = 6000000

abbrev pub max_time_slice_ns : ℕ
max_time_slice_ns = 100 * 1000000

abbrev pub nice_0_load : ℕ
nice_0_load = 1024

unfoldable pub set_task_nice : ProcessControlBlock → ℤ → ProcessControlBlock
unfolding nice_to_weight nice_to_wmult
set_task_nice p nice = record p {
  nice = clamp_nice nice;
  weight = nice_to_weight (clamp_nice nice);
  inv_weight = nice_to_wmult (clamp_nice nice);
}

unfoldable pub calc_delta : ℕ → ℕ → ℕ → ℕ
calc_delta delta_exec weight lw =
    let load = if lw == 0 then nice_0_load else lw in
    let fact = weight * 2 ^ 16 % u32_mod / load in delta_exec * fact % u64_mod / 2 ^ 16

-- The product of the latency and the weight is one of 32 bits. A load of 0 gives a slice here, where the
-- code's division by it faults.
unfoldable pub calc_slice : Runqueue → ProcessControlBlock → ℕ
calc_slice rq se =
    let slice = target_latency * se.weight % u32_mod / rq.load_weight in
    let at_least = if ltb slice min_granularity then min_granularity else slice in
    if rq.nr_running == 0
    then time_slice_ns
    else if ltb max_time_slice_ns at_least
    then max_time_slice_ns
    else at_least

-- The vruntime of the leftmost task, or of the current one in an empty queue.
unfoldable pub new_min_vruntime : Scheduler → ProcessControlBlock → ℕ
new_min_vruntime s curr = elim (s.rq.tree.leftmost) [
  | none ↦ curr.vruntime
  | some i ↦ (block_at s (node_at s.rq.tree i).slot).vruntime
]

unfoldable pub update_curr : Scheduler → ℕ → Scheduler
unfolding calc_delta new_min_vruntime
update_curr s slot =
    let now = get_ns s in
    let curr = block_at s slot in
    let delta_exec = sub64 now curr.exec_start in
    let charged : ProcessControlBlock = record curr {
      exec_start = now;
      sum_exec_runtime = add64 curr.sum_exec_runtime delta_exec;
      cpu_time_accumulated = add64 curr.cpu_time_accumulated delta_exec;
      vruntime = add64 curr.vruntime (calc_delta delta_exec nice_0_load s.rq.load_weight);
    } in
    let t = put_block s slot charged in
    if delta_exec == 0
    then s
    else record t { rq = record (t.rq) { min_vruntime = new_min_vruntime t charged } }
