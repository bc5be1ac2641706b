-- ===== src/Eevdf/Starting.antt =====
-- The creation of processes keeps the sizes of the tables.
use mathlib.Core.Option.{some-injective}
use void_frame.Prelude.{
  ℕ, ◌<◌, ◌≡◌, refl, sym, ◌∙◌, Bool, true, false, ◌||◌, Option, none, some, List, inl, inr, arith,
  length, length-set, set, leb, ◌==◌, if◌then◌else◌, Option-cases,
}
use void_frame.Cerberus.State.{CerberusState}
use void_frame.Cerberus.Canary.{Memory, write_word}
use void_frame.Eevdf.Tree.{eevdf_max_processes}
use void_frame.Eevdf.State.{Scheduler, no_block, put_block, panic, priv_norm}
use void_frame.Eevdf.Seal.{generate_process_key}
use void_frame.Eevdf.Slots.{first_clear, find_free_slot, free_slot, allocate_pid, free_pid}
use void_frame.Eevdf.Create.{
  Launch, stack_start, seal_new, start_process, create_secure_process, create_process,
}
use void_frame.Eevdf.InRange.{
  Fits, InRange, shape, Fits-active, Fits-pids, Fits-keys, Fits-ready, put_InRange,
  enqueue_task-InRange, ready_of, active_of,
}
use void_frame.Eevdf.Sizes.{first_clear-below, panic_InRange}
use void_frame.Eevdf.Ending.{update_seal-InRange, free_slot-InRange, free_pid-InRange}

find_free_slot-InRange : (s : Scheduler) → InRange s → InRange (find_free_slot s).1
unfolding find_free_slot InRange
find_free_slot-InRange s h = elim (Option-cases (first_clear s.active_process_bitmap 0)) [
  | inl e ↦ rw (e, find_free_slot) h
  | inr (k, e) ↦
      rw (e, find_free_slot)
        (Fits-active (shape s) (length (set s.active_process_bitmap k true))
          (length-set s.active_process_bitmap k true) h)
]

find_free_slot-below :
    (s : Scheduler) (slot : ℕ)
    → InRange s
    → (find_free_slot s).0 ≡ some slot
    → slot < eevdf_max_processes
unfolding find_free_slot
find_free_slot-below s slot h e = elim (Option-cases (first_clear s.active_process_bitmap 0)) [
  | inl f ↦ absurd (ground (arith, sym (nothing f) ∙ e))
  | inr (k, f) ↦
      let same = some-injective k slot (sym (found k f) ∙ e) in
      let below = first_clear-below s.active_process_bitmap 0 k f in
      let size = active_of s h in omega (arith, same, below, size)
]
  where
    nothing : first_clear s.active_process_bitmap 0 ≡ none → (find_free_slot s).0 ≡ none
    nothing f = rw (f, find_free_slot) refl

    found : (k : ℕ) → first_clear s.active_process_bitmap 0 ≡ some k → (find_free_slot s).0 ≡ some k
    found k f = rw (f, find_free_slot) refl

allocate_pid-InRange : (s : Scheduler) → InRange s → InRange (allocate_pid s).1
unfolding allocate_pid InRange
allocate_pid-InRange s h = elim (Option-cases (first_clear s.pid_bitmap 0)) [
  | inl e ↦ rw (e, allocate_pid) h
  | inr (k, e) ↦
      rw (e, allocate_pid)
        (Fits-pids (shape s) (length (set s.pid_bitmap k true)) (length-set s.pid_bitmap k true) h)
]

pub generate_process_key-InRange :
    (s : Scheduler) (slot pid : ℕ) → InRange s → InRange (generate_process_key s slot pid)
unfolding generate_process_key InRange
generate_process_key-InRange s slot pid h =
    Fits-keys (shape s) _ (length-set s.sis_process_keys slot _) h

seal_new-InRange : (s : Scheduler) (slot : ℕ) → InRange s → InRange (seal_new s slot)
unfolding seal_new
seal_new-InRange s slot h = put_InRange _ slot _ (update_seal-InRange s slot h)

counted_InRange :
    (t : Scheduler) (c : CerberusState) (m : Memory) (n : ℕ) (bits : List Bool) (total : ℕ)
    → length bits ≡ eevdf_max_processes
    → InRange t
    → InRange (record t {
      cerberus = c;
      memory = m;
      process_count = n;
      ready_process_bitmap = bits;
      total_processes = total;
    })
unfolding InRange
counted_InRange t c m n bits total e h = Fits-ready (shape t) (length bits) (e ∙ sym (ready h)) h
  where
    ready : Fits (shape t) → length t.ready_process_bitmap ≡ eevdf_max_processes
    ready k = k.ready

stored_InRange : (s : Scheduler) (m : Memory) → InRange s → InRange (record s { memory = m })
unfolding InRange
stored_InRange s m h = h

start_process-InRange :
    (protection : Bool) (s : Scheduler) (l : Launch) (slot pid priv capabilities : ℕ)
    → slot < eevdf_max_processes
    → InRange s
    → InRange (start_process protection s l slot pid priv capabilities)
unfolding start_process
start_process-InRange protection s l slot pid priv capabilities b h =
    enqueue_task-InRange _ slot b (
      counted_InRange _ _ _ _ (set s.ready_process_bitmap slot true) _
        (length-set s.ready_process_bitmap slot true ∙ ready_of s h)
        (seal_new-InRange _ slot (
          generate_process_key-InRange _ slot pid (
            stored_InRange _ (write_word s.memory (stack_start l.stack) l.exit_stub)
              (put_InRange s slot _ h)))))

pub if_InRange :
    (b : Bool) (r q : ℕ × Scheduler) → InRange r.1 → InRange q.1 → InRange (if b then r else q).1
if_InRange true r q h k = h
if_InRange false r q h k = k

abbrev pub chosen : Option ℕ → ℕ × Scheduler → (ℕ → ℕ × Scheduler) → ℕ × Scheduler
chosen o r f = elim o [ none ↦ r | some k ↦ f k ]

pub option_InRange :
    (o : Option ℕ) (r : ℕ × Scheduler) (f : ℕ → ℕ × Scheduler)
    → InRange r.1
    → ((k : ℕ) → o ≡ some k → InRange (f k).1)
    → InRange (chosen o r f).1
option_InRange none r f h g = h
option_InRange (some k) r f h g = g k refl

pub create_secure_process-InRange :
    (protection : Bool) (s : Scheduler) (l : Launch) (priv capabilities : ℕ)
    → InRange s
    → InRange (create_secure_process protection s l priv capabilities).1
unfolding create_secure_process
create_secure_process-InRange protection s l priv capabilities h =
    let s1 = (find_free_slot s).1 in
    let s2 = (allocate_pid s1).1 in
    let h1 = find_free_slot-InRange s h in
    let h2 = allocate_pid-InRange s1 h1 in
    let undone : ℕ → ℕ → Scheduler =
      λ slot pid. panic (free_pid (free_slot (put_block s2 slot no_block) slot) pid) in
    let with_stack : ℕ → ℕ → ℕ × Scheduler = λ slot pid.
      if l.stack == 0
      then (0, undone slot pid)
      else (pid, start_process protection s2 l slot pid priv capabilities) in
    let with_slot : ℕ → ℕ × Scheduler = λ slot. elim ((allocate_pid s1).0) [
      | none ↦ (0, panic (free_slot s1 slot))
      | some pid ↦ with_stack slot pid
    ] in
    let searched : ℕ × Scheduler = elim ((find_free_slot s).0) [
      | none ↦ (0, panic s)
      | some slot ↦ with_slot slot
    ] in
    if_InRange (l.entry_point == 0 || leb eevdf_max_processes s.process_count) (0, panic s) searched
      (panic_InRange s h)
      (option_InRange ((find_free_slot s).0) (0, panic s) with_slot (panic_InRange s h)
        (λ slot f.
          option_InRange ((allocate_pid s1).0) (0, panic (free_slot s1 slot)) (with_stack slot)
            (panic_InRange (free_slot s1 slot) (free_slot-InRange s1 slot h1))
            (λ pid g.
              if_InRange (l.stack == 0) (0, undone slot pid)
                (pid, start_process protection s2 l slot pid priv capabilities)
                (panic_InRange (free_pid (free_slot (put_block s2 slot no_block) slot) pid) (
                  free_pid-InRange (free_slot (put_block s2 slot no_block) slot) pid (
                    free_slot-InRange (put_block s2 slot no_block) slot
                      (put_InRange s2 slot no_block h2))))
                (start_process-InRange protection s2 l slot pid priv capabilities
                  (find_free_slot-below s slot h f) h2))))

pub create_process-InRange :
    (protection : Bool) (s : Scheduler) (l : Launch)
    → InRange s
    → InRange (create_process protection s l).1
unfolding create_process
create_process-InRange protection s l h = create_secure_process-InRange protection s l priv_norm 0 h
