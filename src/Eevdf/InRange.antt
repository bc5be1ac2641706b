-- ===== src/Eevdf/InRange.antt =====
-- The sizes of the scheduler's tables, and what the primitive steps do to them.
use mathlib.Core.Option.{some-injective}
use void_frame.Prelude.{
  ℕ, ◌≤◌, ◌<◌, ◌≡◌, refl, sym, subst, ◌∙◌, Bool, none, some, List, inl, inr, arith, length,
  length-set, get_or, set, ltb, if◌then◌else◌, Bool-cases, Option-cases,
}
use void_frame.Prelude.Words.{add32, add64}
use void_frame.Eevdf.Tree.{RbNode, free_node, eevdf_max_processes}
use void_frame.Eevdf.Insert.{rb_insert}
use void_frame.Eevdf.Delete.{rb_delete}
use void_frame.Eevdf.State.{ProcessControlBlock, Runqueue, Scheduler, block_at, put_block}
use void_frame.Eevdf.Time.{calc_slice}
use void_frame.Eevdf.Runqueue.{is_ready, insert_task, enqueue_task, dequeue_task, pick_next}
use void_frame.Eevdf.Ring.{IsRing, place_of}
use void_frame.Eevdf.Pool.{IsPool, rb_insert-IsPool}
use void_frame.Eevdf.PoolDelete.{rb_delete-IsPool}

-- What the sizes are read from.
pub record Shape : Type 0 where
  pub blocks : ℕ
  pub keys : ℕ
  pub pids : ℕ
  pub active : ℕ
  pub ready : ℕ
  pub places : List ℕ
  pub head : ℕ
  pub tail : ℕ
  pub count : ℕ
  pub pool : List RbNode
  pub current : ℕ
  pub running : ℕ

abbrev pub shape : Scheduler → Shape
shape s = record {
  blocks = length s.processes;
  keys = length s.sis_process_keys;
  pids = length s.pid_bitmap;
  active = length s.active_process_bitmap;
  ready = length s.ready_process_bitmap;
  places = s.termination_queue;
  head = s.term_queue_head;
  tail = s.term_queue_tail;
  count = s.term_queue_count;
  pool = s.rq.tree.pool;
  current = s.current_process;
  running = s.rq.current_slot;
}

pub record Fits (f : Shape) : Type 0 where
  pub blocks : f.blocks ≡ eevdf_max_processes
  pub keys : f.keys ≡ eevdf_max_processes
  pub pids : f.pids ≡ eevdf_max_processes
  pub active : f.active ≡ eevdf_max_processes
  pub ready : f.ready ≡ eevdf_max_processes
  pub places : length f.places ≡ eevdf_max_processes
  pub entries : (i : ℕ) → get_or f.places i 0 < eevdf_max_processes
  pub head : f.head < eevdf_max_processes
  pub count : f.count ≤ eevdf_max_processes
  pub tail : f.tail ≡ place_of f.head f.count
  pub pool : IsPool f.pool
  pub current : f.current < eevdf_max_processes
  pub running : f.running < eevdf_max_processes

-- Every table has 64 places, and every index that the state keeps is one of them.
unfoldable pub InRange : Scheduler → Type 0
InRange s = Fits (shape s)

Fits-blocks : (f : Shape) (n : ℕ) → n ≡ f.blocks → Fits f → Fits (record f { blocks = n })
Fits-blocks f n e h = subst (λ k. Fits (record f { blocks = k })) (sym e) h

pub Fits-ready : (f : Shape) (n : ℕ) → n ≡ f.ready → Fits f → Fits (record f { ready = n })
Fits-ready f n e h = subst (λ k. Fits (record f { ready = k })) (sym e) h

pub Fits-keys : (f : Shape) (n : ℕ) → n ≡ f.keys → Fits f → Fits (record f { keys = n })
Fits-keys f n e h = subst (λ k. Fits (record f { keys = k })) (sym e) h

pub Fits-pids : (f : Shape) (n : ℕ) → n ≡ f.pids → Fits f → Fits (record f { pids = n })
Fits-pids f n e h = subst (λ k. Fits (record f { pids = k })) (sym e) h

pub Fits-active : (f : Shape) (n : ℕ) → n ≡ f.active → Fits f → Fits (record f { active = n })
Fits-active f n e h = subst (λ k. Fits (record f { active = k })) (sym e) h

pub Fits-pool : (f : Shape) (ps : List RbNode) → IsPool ps → Fits f → Fits (record f { pool = ps })
Fits-pool f ps p h = record {
  blocks = h.blocks;
  keys = h.keys;
  pids = h.pids;
  active = h.active;
  ready = h.ready;
  places = h.places;
  entries = h.entries;
  head = h.head;
  count = h.count;
  tail = h.tail;
  pool = p;
  current = h.current;
  running = h.running;
}

pub Fits-current :
    (f : Shape) (k : ℕ)
    → k < eevdf_max_processes
    → Fits f
    → Fits (record f { current = k; running = k })
Fits-current f k c h = record {
  blocks = h.blocks;
  keys = h.keys;
  pids = h.pids;
  active = h.active;
  ready = h.ready;
  places = h.places;
  entries = h.entries;
  head = h.head;
  count = h.count;
  tail = h.tail;
  pool = h.pool;
  current = c;
  running = c;
}

pub put_InRange :
    (s : Scheduler) (k : ℕ) (p : ProcessControlBlock) → InRange s → InRange (put_block s k p)
unfolding InRange
put_InRange s k p h =
    Fits-blocks (shape s) (length (set s.processes k p)) (length-set s.processes k p) h

pub ready_InRange :
    (s : Scheduler) (k : ℕ) (b : Bool)
    → InRange s
    → InRange (record s { ready_process_bitmap = set s.ready_process_bitmap k b })
unfolding InRange
ready_InRange s k b h =
    Fits-ready (shape s) (length (set s.ready_process_bitmap k b))
      (length-set s.ready_process_bitmap k b) h

pub IsRing-of : (s : Scheduler) → InRange s → IsRing s
unfolding InRange
IsRing-of s h = record { places = h.places; head = h.head; count = h.count; tail = h.tail }

load_InRange :
    (s : Scheduler) (load nr : ℕ)
    → InRange s
    → InRange (record s { rq = record (s.rq) { load_weight = load; nr_running = nr } })
unfolding InRange
load_InRange s load nr h = h

insert_task-InRange :
    (s : Scheduler) (slot : ℕ)
    → slot < eevdf_max_processes
    → InRange s
    → InRange (insert_task s slot)
unfolding insert_task InRange
insert_task-InRange s slot b h = elim (Option-cases (block_at s slot).rb_node) [
  | inr (i, e) ↦ rw (e, insert_task) h
  | inl e ↦
      let r = rb_insert s.rq.tree (λ i. (block_at s i).vruntime) slot in
      let p = record (block_at s slot) { rb_node = r.0 } in
      rw (e, insert_task)
        (Fits-pool (shape (put_block s slot p)) r.1.pool
          (rb_insert-IsPool s.rq.tree (λ i. (block_at s i).vruntime) slot b h.pool)
          (put_InRange s slot p h))
]

pub enqueue_task-InRange :
    (s : Scheduler) (slot : ℕ)
    → slot < eevdf_max_processes
    → InRange s
    → InRange (enqueue_task s slot)
unfolding enqueue_task
enqueue_task-InRange s slot b h =
    let p = block_at s slot in
    let vruntime = if ltb p.vruntime s.rq.min_vruntime then s.rq.min_vruntime else p.vruntime in
    let placed : ProcessControlBlock = record p {
      vruntime = vruntime;
      deadline = add64 vruntime (calc_slice s.rq p);
    } in
    let rq : Runqueue = record (s.rq) {
      load_weight = add32 s.rq.load_weight p.weight;
      nr_running = add32 s.rq.nr_running 1;
    } in
    elim (Bool-cases (is_ready p.state)) [
      | inl e ↦
          rw (e, enqueue_task)
            (insert_task-InRange (record (put_block s slot placed) { rq = rq }) slot b
              (loaded placed rq.load_weight rq.nr_running))
      | inr e ↦ rw (e, enqueue_task) h
    ]
  where
    loaded :
        (p : ProcessControlBlock) (load nr : ℕ)
        → InRange (record (put_block s slot p) {
          rq = record (s.rq) { load_weight = load; nr_running = nr };
        })
    loaded p load nr = load_InRange (put_block s slot p) load nr (put_InRange s slot p h)

pub dequeue_task-InRange : (s : Scheduler) (slot : ℕ) → InRange s → InRange (dequeue_task s slot)
unfolding dequeue_task InRange
dequeue_task-InRange s slot h = elim (Option-cases (block_at s slot).rb_node) [
  | inl e ↦ rw (e, dequeue_task) h
  | inr (i, e) ↦
      let p = record (block_at s slot) { rb_node = none } in
      rw (e, dequeue_task)
        (Fits-pool (shape (put_block s slot p)) (rb_delete s.rq.tree i).pool
          (rb_delete-IsPool s.rq.tree i h.pool) (put_InRange s slot p h))
]

pub pick_next-small :
    (s : Scheduler) (slot : ℕ) → InRange s → pick_next s.rq ≡ some slot → slot < eevdf_max_processes
unfolding pick_next InRange
pick_next-small s slot h e = elim (Option-cases s.rq.tree.leftmost) [
  | inl f ↦ absurd (ground (arith, nothing f))
  | inr (i, f) ↦
      subst (λ k. k < eevdf_max_processes) (some-injective _ slot (found i f)) (h.pool.slots i)
]
  where
    nothing : s.rq.tree.leftmost ≡ none → none ≡ some slot
    nothing f = sym (rw (f, pick_next) refl) ∙ e

    found :
        (i : ℕ)
        → s.rq.tree.leftmost ≡ some i
        → some (get_or s.rq.tree.pool i free_node).slot ≡ some slot
    found i f = sym (rw (f, pick_next) refl) ∙ e

pub slots_of : (s : Scheduler) → InRange s → length s.processes ≡ eevdf_max_processes
unfolding InRange
slots_of s h = h.blocks

pub ready_of : (s : Scheduler) → InRange s → length s.ready_process_bitmap ≡ eevdf_max_processes
unfolding InRange
ready_of s h = h.ready

pub active_of : (s : Scheduler) → InRange s → length s.active_process_bitmap ≡ eevdf_max_processes
unfolding InRange
active_of s h = h.active

pub running_of :
    (s : Scheduler)
    → InRange s
    → (s.current_process < eevdf_max_processes) × (s.rq.current_slot < eevdf_max_processes)
unfolding InRange
running_of s h = (h.current, h.running)
