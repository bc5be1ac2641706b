-- ===== src/Eevdf/Dying.antt =====
-- What a termination does to the process, to the termination queue and to the other processes.
use void_frame.Prelude.{
  ℕ, zero, suc, ◌-◌, List, Bool, some, get_or, if◌then◌else◌, ◌<◌, ◌≡◌, ◌≢◌, inl, inr, refl, sym,
  ap, subst, ◌∙◌, true, false, ◌||◌, none, [], ◌∷◌, ◌++◌, leb, ◌==◌, arith, length, set,
  get_or-set_self, get_or-set_ne, set-set, set-get_or, Option-cases,
}
use void_frame.Crypto.Bits.{same_bits_self}
use void_frame.Ipc.Process.{zombie}
use void_frame.Eevdf.Tree.{eevdf_max_processes, free_rb_node}
use void_frame.Eevdf.Delete.{rb_delete}
use void_frame.Eevdf.State.{
  TerminationReason, term_security, ProcessControlBlock, Runqueue, Scheduler, no_block, block_at,
  put_block,
}
use void_frame.Eevdf.Runqueue.{dequeue_task}
use void_frame.Eevdf.Seal.{critical_bits, seal_pcb, verify_pcb, update_seal}
use void_frame.Eevdf.Slots.{free_pid, add_to_termination_queue}
use void_frame.Eevdf.Terminate.{make_zombie, forget_process, as_terminate_slot, terminate_slot}
use void_frame.Eevdf.Ring.{IsRing, waiting, added, add-added, added-IsRing, added-waiting}

-- The block that a termination leaves, sealed, and out of the run queue.
abbrev pub dead_block : Scheduler → ℕ → TerminationReason → ℕ → ProcessControlBlock
dead_block s slot reason exit_code = record (block_at s slot) {
  state = zombie;
  term_reason = reason;
  exit_code = exit_code;
  termination_time = s.apic_ticks;
}

abbrev pub sealed_block : Scheduler → ℕ → TerminationReason → ℕ → ProcessControlBlock
sealed_block s slot reason exit_code = record (dead_block s slot reason exit_code) {
  sis_seal = seal_pcb s (dead_block s slot reason exit_code) slot;
}

abbrev zombied : Scheduler → ℕ → TerminationReason → ℕ → Scheduler
zombied s slot reason exit_code = record (put_block s slot (sealed_block s slot reason exit_code)) {
  ready_process_bitmap = set s.ready_process_bitmap slot false;
  need_schedule = s.need_schedule || slot == s.rq.current_slot;
}

make_zombie-zombied :
    (s : Scheduler) (slot : ℕ) (reason : TerminationReason) (exit_code : ℕ)
    → slot < length s.processes
    → make_zombie s slot reason exit_code ≡ zombied s slot reason exit_code
unfolding make_zombie update_seal seal_pcb
make_zombie-zombied s slot reason exit_code h =
    let dead = dead_block s slot reason exit_code in
    ap
      (λ p. record (zombied s slot reason exit_code) {
        processes =
            set (set s.processes slot dead) slot (record p { sis_seal = seal_pcb s p slot });
      })
      (get_or-set_self s.processes slot dead no_block h)
    ∙ ap (λ ps. record (zombied s slot reason exit_code) { processes = ps })
        (set-set s.processes slot dead (sealed_block s slot reason exit_code))

abbrev off_queue : Scheduler → ℕ → Runqueue → Scheduler
off_queue s slot rq = record (put_block s slot (record (block_at s slot) { rb_node = none })) {
  rq = rq;
}

pub dequeue-off_queue :
    (s : Scheduler) (slot : ℕ) → dequeue_task s slot ≡ off_queue s slot (dequeue_task s slot).rq
unfolding dequeue_task
dequeue-off_queue s slot = elim (Option-cases (block_at s slot).rb_node) [
  | inl e ↦
      rw (e, dequeue_task)
        (sym (
          ap (λ ps. record s { processes = ps })
            (ap (λ r. set s.processes slot (record (block_at s slot) { rb_node = r })) (sym e)
              ∙ set-get_or s.processes slot no_block)))
  | inr (i, e) ↦ rw (e, dequeue_task) refl
]

-- The run queue without a task: as it was if the task has no node, and else with the task's weight off
-- the load, one task less, and the tree that the deletion of its node leaves.
abbrev pub unqueued : Runqueue → ProcessControlBlock → Runqueue
unqueued rq p = elim (p.rb_node) [
  | none ↦ rq
  | some i ↦ record rq {
    load_weight = rq.load_weight - p.weight;
    nr_running = rq.nr_running - 1;
    tree = rb_delete rq.tree i;
  }
]

dequeue-unqueued :
    (s : Scheduler) (slot : ℕ) → (dequeue_task s slot).rq ≡ unqueued s.rq (block_at s slot)
unfolding dequeue_task
dequeue-unqueued s slot = elim (Option-cases (block_at s slot).rb_node) [
  | inl e ↦ rw (e, dequeue_task, unqueued) refl
  | inr (i, e) ↦
      let p = block_at s slot in
      let less : (if leb p.weight s.rq.load_weight then s.rq.load_weight - p.weight else 0)
          ≡ s.rq.load_weight - p.weight =
        ground arith in
      rw (e, dequeue_task, unqueued, less) refl
]

set-false : (bs : List Bool) (i : ℕ) → get_or (set bs i false) i false ≡ false
set-false [] i = refl
set-false (b ∷ bs) zero = refl
set-false (b ∷ bs) (suc i) = set-false bs i

unqueued-freed :
    (rq : Runqueue) (p : ProcessControlBlock) (i : ℕ)
    → p.rb_node ≡ some i
    → get_or (unqueued rq p).tree.pool_bitmap i false ≡ false
unfolding rb_delete free_rb_node
unqueued-freed rq p i e = rw e (set-false _ i)

-- A process that is dead: a zombie under a valid seal, with what is recorded of its end; out of the run
-- queue, and its node free; the last of the slots that wait; no other process changes.
pub record Dies (s : Scheduler) (slot : ℕ) (reason : TerminationReason) (exit_code : ℕ)
    (t : Scheduler) : Type 0 where
  pub block : block_at t slot ≡ record (sealed_block s slot reason exit_code) { rb_node = none }
  pub sealed : slot < eevdf_max_processes → verify_pcb t (block_at t slot) slot ≡ true
  pub queue : t.rq ≡ unqueued s.rq (block_at s slot)
  pub freed :
      (i : ℕ) → (block_at s slot).rb_node ≡ some i → get_or t.rq.tree.pool_bitmap i false ≡ false
  pub others : (k : ℕ) → k ≢ slot → block_at t k ≡ block_at s k
  pub ring : IsRing t
  pub waits : waiting t ≡ waiting s ++ (slot ∷ [])
  pub reschedule : slot ≡ s.rq.current_slot → t.need_schedule ≡ true

-- The same, up to what concerns neither: the queue has room for the slot.
abbrev out : Scheduler → ℕ → TerminationReason → ℕ → Scheduler
unfolding make_zombie dequeue_task
out s slot reason exit_code = dequeue_task (make_zombie s slot reason exit_code) slot

out-zombied :
    (s : Scheduler) (slot : ℕ) (reason : TerminationReason) (exit_code : ℕ)
    → slot < length s.processes
    → (rq : Runqueue) × (rq ≡ unqueued s.rq (block_at s slot))
      × (out s slot reason exit_code ≡ record (zombied s slot reason exit_code) {
        processes =
            set s.processes slot (record (sealed_block s slot reason exit_code) { rb_node = none });
        rq = rq;
      })
unfolding out
out-zombied s slot reason exit_code h =
    let z = zombied s slot reason exit_code in
    let p = sealed_block s slot reason exit_code in
    (
      (dequeue_task z slot).rq,
      dequeue-unqueued z slot ∙ ap (unqueued s.rq) (get_or-set_self s.processes slot p no_block h),
      ap (λ u. dequeue_task u slot) (make_zombie-zombied s slot reason exit_code h)
          ∙ dequeue-off_queue z slot
          ∙ ap
              (λ q. record z {
                processes = set (set s.processes slot p) slot (record q { rb_node = none });
                rq = (dequeue_task z slot).rq;
              })
              (get_or-set_self s.processes slot p no_block h)
          ∙ ap (λ ps. record z { processes = ps; rq = (dequeue_task z slot).rq })
              (set-set s.processes slot p (record p { rb_node = none })),
    )

valid_block :
    (u : Scheduler) (slot : ℕ) (p : ProcessControlBlock)
    → slot < eevdf_max_processes
    → seal_pcb u p slot ≡ p.sis_seal
    → verify_pcb u p slot ≡ true
unfolding verify_pcb
valid_block u slot p h e =
    let inside : leb eevdf_max_processes slot ≡ false = ground arith in
    rw (inside, e) (same_bits_self p.sis_seal)

seal-same :
    (s t : Scheduler) (p q : ProcessControlBlock) (slot : ℕ)
    → t.sis_process_keys ≡ s.sis_process_keys
    → q.state ≡ p.state
    → q.privilege_level ≡ p.privilege_level
    → q.pid ≡ p.pid
    → seal_pcb t q slot ≡ seal_pcb s p slot
unfolding seal_pcb critical_bits
seal-same s t p q slot keys state priv pid = rw (keys, state, priv, pid) refl

dies :
    (s : Scheduler) (slot : ℕ) (reason : TerminationReason) (exit_code : ℕ)
    → slot < length s.processes
    → IsRing s
    → s.term_queue_count < eevdf_max_processes
    → Dies s slot reason exit_code (add_to_termination_queue (out s slot reason exit_code) slot)
dies s slot reason exit_code h r room =
    let (rq, left, e) = out-zombied s slot reason exit_code h in
    let q : ProcessControlBlock = record (sealed_block s slot reason exit_code) {
      rb_node = none;
    } in
    let u : Scheduler = record (zombied s slot reason exit_code) {
      processes = set s.processes slot q;
      rq = rq;
    } in
    let r' : IsRing u = record {
      places = r.places;
      head = r.head;
      count = r.count;
      tail = r.tail;
    } in
    let here : block_at u slot ≡ q = get_or-set_self s.processes slot q no_block h in
    subst (λ v. Dies s slot reason exit_code (add_to_termination_queue v slot)) (sym e)
      (subst (Dies s slot reason exit_code) (sym (add-added u slot room)) (record {
        block = here;
        sealed = λ inside.
            subst (λ b. verify_pcb (added u slot) b slot ≡ true) (sym here)
              (valid_block (added u slot) slot q inside (
                seal-same s (added u slot) (dead_block s slot reason exit_code) q slot refl refl
                  refl refl));
        queue = left;
        freed = λ i f.
            subst (λ v. get_or v.tree.pool_bitmap i false ≡ false) (sym left)
              (unqueued-freed s.rq (block_at s slot) i f);
        others = λ k n. get_or-set_ne s.processes slot k q no_block (λ f. n (sym f));
        ring = added-IsRing u slot r' room;
        waits = added-waiting u slot r' room;
        reschedule = λ f. current f;
      }))
  where
    current : slot ≡ s.rq.current_slot → (s.need_schedule || slot == s.rq.current_slot) ≡ true
    current f = ground (arith, f)

-- What follows in the two ways of termination leaves that alone.
Dies-forget_process :
    (s u : Scheduler) (slot : ℕ) (reason : TerminationReason) (exit_code pid : ℕ)
    → Dies s slot reason exit_code u
    → Dies s slot reason exit_code (forget_process u pid)
unfolding forget_process verify_pcb seal_pcb
Dies-forget_process s u slot reason exit_code pid d = record {
  block = d.block;
  sealed = d.sealed;
  queue = d.queue;
  freed = d.freed;
  others = d.others;
  ring = record {
    places = d.ring.places;
    head = d.ring.head;
    count = d.ring.count;
    tail = d.ring.tail;
  };
  waits = d.waits;
  reschedule = d.reschedule;
}

Dies-free_pid :
    (s u : Scheduler) (slot : ℕ) (reason : TerminationReason) (exit_code pid : ℕ)
    → Dies s slot reason exit_code u
    → Dies s slot reason exit_code (free_pid u pid)
unfolding free_pid verify_pcb seal_pcb
Dies-free_pid s u slot reason exit_code pid d = record {
  block = d.block;
  sealed = d.sealed;
  queue = d.queue;
  freed = d.freed;
  others = d.others;
  ring = record {
    places = d.ring.places;
    head = d.ring.head;
    count = d.ring.count;
    tail = d.ring.tail;
  };
  waits = d.waits;
  reschedule = d.reschedule;
}

-- Both ways of termination, of a process in the table while fewer than 64 slots wait: the process is a
-- zombie with the reason and the exit code, under a valid seal; if it had a node in the run queue, the
-- tree is what EEVDFRBDelete makes of it for that node, the node is free in the pool, the load is less
-- its weight, down to 0, and the count one less, and else the run queue is as it was; its slot waits for
-- the clean-up after the others, no other process changes, and the scheduler is asked for if it ran.
pub terminate_slot_lem :
    (s : Scheduler) (slot : ℕ) (reason : TerminationReason) (exit_code : ℕ)
    → slot < length s.processes
    → IsRing s
    → s.term_queue_count < eevdf_max_processes
    → Dies s slot reason exit_code (terminate_slot s slot reason exit_code)
      × Dies s slot term_security 666 (as_terminate_slot s slot)
unfolding terminate_slot as_terminate_slot out
terminate_slot_lem s slot reason exit_code h r room =
    let pid = (block_at s slot).pid in
    let u = add_to_termination_queue (out s slot reason exit_code) slot in
    let v = add_to_termination_queue (out s slot term_security 666) slot in
    (
      Dies-forget_process s (free_pid u pid) slot reason exit_code pid
          (Dies-free_pid s u slot reason exit_code pid (dies s slot reason exit_code h r room)),
      Dies-forget_process s v slot term_security 666 pid (dies s slot term_security 666 h r room),
    )
