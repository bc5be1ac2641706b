-- ===== src/Eevdf/Switching.antt =====
-- The context switch keeps the sizes of the tables.
use mathlib.Core.Option.{some-injective}
use void_frame.Prelude.{
  ℕ, ◌<◌, ◌≡◌, refl, sym, subst, ◌∙◌, Bool, true, false, not, Option, none, some, List, inl, inr,
  arith, length, length-set, set, ◌==◌, if◌then◌else◌, Bool-cases,
}
use void_frame.Cerberus.State.{CerberusState}
use void_frame.Cerberus.Canary.{pre_schedule_check}
use void_frame.Ipc.Process.{ready}
use void_frame.Eevdf.Tree.{eevdf_max_processes}
use void_frame.Eevdf.State.{Registers, Scheduler, block_at, put_block}
use void_frame.Eevdf.Time.{update_curr}
use void_frame.Eevdf.Runqueue.{is_ready, dequeue_task, pick_next, update_clock}
use void_frame.Eevdf.Seal.{verify_pcb, update_seal}
use void_frame.Eevdf.Terminate.{as_terminate, is_dead}
use void_frame.Eevdf.Schedule.{
  preflight_check, postflight_check, begin_schedule, is_running, to_ready, leave_task, choose_task,
}
use void_frame.Eevdf.InRange.{
  Fits, InRange, shape, Fits-ready, ready_of, put_InRange, dequeue_task-InRange, pick_next-small,
}
use void_frame.Eevdf.Ending.{update_seal-InRange, as_terminate-InRange}
use void_frame.Eevdf.Starting.{chosen}

guard_InRange :
    (s : Scheduler) (c : CerberusState) → InRange s → InRange (record s { cerberus = c })
unfolding InRange
guard_InRange s c h = h

either_InRange :
    (b : Bool) (r q : Bool × Scheduler) → InRange r.1 → InRange q.1 → InRange (if b then r else q).1
either_InRange true r q h k = h
either_InRange false r q h k = k

pub plain_InRange :
    (b : Bool) (r q : Scheduler) → InRange r → InRange q → InRange (if b then r else q)
plain_InRange true r q h k = h
plain_InRange false r q h k = k

postflight_check-InRange :
    (s : Scheduler) (slot : ℕ) → InRange s → InRange (postflight_check s slot).1
unfolding postflight_check
postflight_check-InRange s slot h =
    let proc = block_at s slot in
    let tested : Bool × Scheduler =
      if not (verify_pcb s proc slot) then (false, as_terminate s proc.pid) else (true, s) in
    either_InRange (slot == 0) (true, s) tested h
      (either_InRange (not (verify_pcb s proc slot)) (false, as_terminate s proc.pid) (true, s)
        (as_terminate-InRange s proc.pid h) h)

preflight_check-InRange :
    (s : Scheduler) (slot : ℕ) → InRange s → InRange (preflight_check s slot).1
unfolding preflight_check
preflight_check-InRange s slot h = elim (Bool-cases (slot == 0)) [
  | inl e ↦ rw e h
  | inr e ↦ rw e (
      either_InRange _ (false, as_terminate s (block_at s slot).pid)
        (true, record s { cerberus = pre_schedule_check s.cerberus s.memory slot })
        (as_terminate-InRange s (block_at s slot).pid h)
        (guard_InRange s (pre_schedule_check s.cerberus s.memory slot) h))
]

pub begin_schedule-InRange : (s : Scheduler) → InRange s → InRange (begin_schedule s)
unfolding begin_schedule update_clock InRange
begin_schedule-InRange s h = h

min_InRange :
    (t : Scheduler) (v : ℕ)
    → InRange t
    → InRange (record t { rq = record (t.rq) { min_vruntime = v } })
unfolding InRange
min_InRange t v h = h

pub update_curr-InRange : (s : Scheduler) (slot : ℕ) → InRange s → InRange (update_curr s slot)
unfolding update_curr
update_curr-InRange s slot h = plain_InRange _ s _ h (min_InRange _ _ (put_InRange s slot _ h))

pub bits_InRange :
    (t : Scheduler) (bits : List Bool)
    → length bits ≡ eevdf_max_processes
    → InRange t
    → InRange (record t { ready_process_bitmap = bits })
unfolding InRange
bits_InRange t bits e h = Fits-ready (shape t) (length bits) (e ∙ sym (ready h)) h
  where
    ready : Fits (shape t) → length t.ready_process_bitmap ≡ eevdf_max_processes
    ready k = k.ready

to_ready-InRange : (s : Scheduler) (slot : ℕ) → InRange s → InRange (to_ready s slot)
unfolding to_ready
to_ready-InRange s slot h =
    let t = update_seal (put_block s slot (record (block_at s slot) { state = ready })) slot in
    plain_InRange (is_running (block_at s slot).state)
      (record t { ready_process_bitmap = set s.ready_process_bitmap slot true }) s
      (bits_InRange t (set s.ready_process_bitmap slot true)
        (length-set s.ready_process_bitmap slot true ∙ ready_of s h)
        (update_seal-InRange _ slot (put_InRange s slot _ h)))
      h

pub leave_task-InRange :
    (s : Scheduler) (regs : Registers) (slot : ℕ) → InRange s → InRange (leave_task s regs slot)
unfolding leave_task
leave_task-InRange s regs slot h =
    let checked = postflight_check s slot in
    let t = checked.1 in
    let k = postflight_check-InRange s slot h in
    let saved = put_block t slot (record (block_at t slot) { context = regs }) in
    plain_InRange (is_dead (block_at s slot).state) s _ h (
      plain_InRange checked.0 (to_ready (update_curr saved slot) slot) t
        (to_ready-InRange (update_curr saved slot) slot (
          update_curr-InRange saved slot
            (put_InRange t slot (record (block_at t slot) { context = regs }) k)))
        k)

-- A slot that a search may give, and one that it gives.
Candidate : Option ℕ × Scheduler → Type 0
Candidate c = InRange c.1 × ((k : ℕ) → c.0 ≡ some k → k < eevdf_max_processes)

unfoldable pub Chosen : ℕ × Scheduler → Type 0
Chosen r = InRange r.1 × (r.0 < eevdf_max_processes)

if_Candidate :
    (b : Bool) (c d : Option ℕ × Scheduler)
    → Candidate c
    → Candidate d
    → Candidate (if b then c else d)
unfolding Candidate
if_Candidate true c d h k = h
if_Candidate false c d h k = k

if_Chosen : (b : Bool) (c d : ℕ × Scheduler) → Chosen c → Chosen d → Chosen (if b then c else d)
unfolding Chosen
if_Chosen true c d h k = h
if_Chosen false c d h k = k

option_Chosen :
    (o : Option ℕ) (r : ℕ × Scheduler) (f : ℕ → ℕ × Scheduler)
    → Chosen r
    → ((k : ℕ) → o ≡ some k → Chosen (f k))
    → Chosen (chosen o r f)
unfolding Chosen
option_Chosen none r f h g = h
option_Chosen (some k) r f h g = g k refl

pub choose_task-Chosen : (s : Scheduler) → InRange s → Chosen (choose_task s)
unfolding choose_task Chosen Candidate
choose_task-Chosen s h =
    let dropped : ℕ → Scheduler = λ first. dequeue_task (preflight_check s first).1 first in
    let candidate : ℕ → Option ℕ × Scheduler = λ first.
      if (preflight_check s first).0
      then (some first, (preflight_check s first).1)
      else (pick_next (dropped first).rq, dropped first) in
    let taken : ℕ → ℕ → ℕ × Scheduler = λ first next.
      if is_ready (block_at (candidate first).1 next).state
      then (next, dequeue_task (candidate first).1 next)
      else (0, (candidate first).1) in
    let after : ℕ → ℕ × Scheduler = λ first. elim ((candidate first).0) [
      | none ↦ (0, (candidate first).1)
      | some next ↦ taken first next
    ] in
    let good : (first : ℕ) → pick_next s.rq ≡ some first → Candidate (candidate first) = λ first e.
      let k = preflight_check-InRange s first h in
      let d = dequeue_task-InRange (preflight_check s first).1 first k in
      if_Candidate (preflight_check s first).0 (some first, (preflight_check s first).1)
        (pick_next (dropped first).rq, dropped first)
        (
          k,
          λ j f.
              subst (λ n. n < eevdf_max_processes) (some-injective first j f)
                (pick_next-small s first h e),
        )
        (d, λ j f. pick_next-small (dropped first) j d f) in
    option_Chosen (pick_next s.rq) (0, s) after (h, omega arith)
      (λ first e.
        option_Chosen (candidate first).0 (0, (candidate first).1) (taken first)
          ((good first e).0, omega arith)
          (λ next f.
            if_Chosen (is_ready (block_at (candidate first).1 next).state)
              (next, dequeue_task (candidate first).1 next) (0, (candidate first).1)
              (
                dequeue_task-InRange (candidate first).1 next (good first e).0,
                (good first e).1 next f,
              )
              ((good first e).0, omega arith)))
