-- ===== src/Eevdf/Runqueue.antt =====
-- The run queue of kernel/sched/EEVDF.c: enqueue, dequeue, pick, and the clock.
use void_frame.Prelude.{ℕ, ◌-◌, Bool, true, false, Option, none, some, ltb, leb, if◌then◌else◌}
use void_frame.Prelude.Words.{add32, add64}
use void_frame.Ipc.Process.{ProcessState, ready}
use void_frame.Eevdf.Tree.{node_at}
use void_frame.Eevdf.Insert.{rb_insert}
use void_frame.Eevdf.Delete.{rb_delete}
use void_frame.Eevdf.State.{
  ProcessControlBlock, Runqueue, Scheduler, block_at, put_block, panic, get_ns,
}
use void_frame.Eevdf.Time.{calc_slice}

abbrev pub is_ready : ProcessState → Bool
is_ready ready = true
is_ready _ = false

-- The test of EEVDFRBInsert, and the insertion of the task in `slot`.
unfoldable pub insert_task : Scheduler → ℕ → Scheduler
unfolding rb_insert
insert_task s slot =
    let (node, tree) = rb_insert s.rq.tree (λ i. (block_at s i).vruntime) slot in
    elim ((block_at s slot).rb_node) [
      | some i ↦ panic s
      | none ↦ record (put_block s slot (record (block_at s slot) { rb_node = node })) {
        rq = record (s.rq) { tree = tree };
      }
    ]

unfoldable pub enqueue_task : Scheduler → ℕ → Scheduler
unfolding calc_slice insert_task
enqueue_task s slot =
    let p = block_at s slot in
    let vruntime = if ltb p.vruntime s.rq.min_vruntime then s.rq.min_vruntime else p.vruntime in
    let placed : ProcessControlBlock = record p {
      vruntime = vruntime;
      deadline = add64 vruntime (calc_slice s.rq p);
    } in
    let rq : Runqueue = record (s.rq) {
      load_weight = add32 s.rq.load_weight p.weight;
      nr_running = add32 s.rq.nr_running 1;
    } in
    elim (is_ready p.state) [
      | false ↦ s
      | true ↦ insert_task (record (put_block s slot placed) { rq = rq }) slot
    ]

unfoldable pub dequeue_task : Scheduler → ℕ → Scheduler
unfolding rb_delete
dequeue_task s slot =
    let p = block_at s slot in
    elim (p.rb_node) [
      | none ↦ s
      | some i ↦ record (put_block s slot (record p { rb_node = none })) {
        rq = record (s.rq) {
          load_weight = if leb p.weight s.rq.load_weight then s.rq.load_weight - p.weight else 0;
          nr_running = s.rq.nr_running - 1;
          tree = rb_delete s.rq.tree i;
        };
      }
    ]

unfoldable pub pick_next : Runqueue → Option ℕ
pick_next rq = elim (rq.tree.leftmost) [ none ↦ none | some i ↦ some (node_at rq.tree i).slot ]

unfoldable pub update_clock : Scheduler → Scheduler
update_clock s = record s { rq = record (s.rq) { clock = get_ns s; exec_clock = get_ns s } }
