-- ===== src/Eevdf/Sizes.antt =====
-- Slots, PIDs and the termination queue keep the sizes of the tables, and so do termination and clean-up.
use mathlib.Core.Option.{some-injective}
use void_frame.Prelude.{
  ℕ, zero, suc, ◌+◌, ◌%◌, ◌<◌, ◌≡◌, refl, sym, subst, Bool, true, ◌||◌, some, List, [], ◌∷◌, inl,
  inr, arith, length, get_or, set, leb, ◌==◌, if◌then◌else◌, Bool-cases,
}
use void_frame.Prelude.Words.{add32}
use void_frame.Eevdf.Tree.{eevdf_max_processes}
use void_frame.Eevdf.State.{Scheduler}
use void_frame.Eevdf.Slots.{first_clear, add_to_termination_queue, remove_from_termination_queue}
use void_frame.Eevdf.Ring.{IsRing, add-added, added-IsRing, remove-removed, removed-IsRing}
use void_frame.Eevdf.InRange.{InRange, IsRing-of}

pub first_clear-below :
    (bits : List Bool) (i k : ℕ) → first_clear bits i ≡ some k → k < i + length bits
unfolding first_clear
first_clear-below [] i k e = absurd (ground (arith, e))
first_clear-below (used ∷ bits) i k e = elim (Bool-cases (used || i == 0)) [
  | inl f ↦
      let later : first_clear bits (i + 1) ≡ some k =
        subst (λ b. (if b then first_clear bits (i + 1) else some i) ≡ some k) f e in
      let rest = first_clear-below bits (i + 1) k later in omega arith
  | inr f ↦
      let here : some i ≡ some k =
        subst (λ b. (if b then first_clear bits (i + 1) else some i) ≡ some k) f e in
      let same = some-injective i k here in omega (arith, same)
]

entry_set :
    (xs : List ℕ) (i v k : ℕ)
    → v < eevdf_max_processes
    → ((j : ℕ) → get_or xs j 0 < eevdf_max_processes)
    → get_or (set xs i v) k 0 < eevdf_max_processes
entry_set [] i v k b h = h k
entry_set (x ∷ xs) zero v zero b h = b
entry_set (x ∷ xs) zero v (suc k) b h = h (suc k)
entry_set (x ∷ xs) (suc i) v zero b h = h 0
entry_set (x ∷ xs) (suc i) v (suc k) b h = entry_set xs i v k b (λ j. h (suc j))

-- A state with another termination queue, in order.
with_queue :
    (s : Scheduler) (places : List ℕ) (head tail count : ℕ)
    → IsRing (record s {
      termination_queue = places;
      term_queue_head = head;
      term_queue_tail = tail;
      term_queue_count = count;
    })
    → ((i : ℕ) → get_or places i 0 < eevdf_max_processes)
    → InRange s
    → InRange (record s {
      termination_queue = places;
      term_queue_head = head;
      term_queue_tail = tail;
      term_queue_count = count;
    })
unfolding InRange
with_queue s places head tail count r entries h = record {
  blocks = h.blocks;
  keys = h.keys;
  pids = h.pids;
  active = h.active;
  ready = h.ready;
  places = r.places;
  entries = entries;
  head = r.head;
  count = r.count;
  tail = r.tail;
  pool = h.pool;
  current = h.current;
  running = h.running;
}

entries_of :
    (s : Scheduler) → InRange s → (i : ℕ) → get_or s.termination_queue i 0 < eevdf_max_processes
unfolding InRange
entries_of s h = h.entries

pub panic_InRange : (s : Scheduler) → InRange s → InRange (record s { panicked = true })
unfolding InRange
panic_InRange s h = h

pub add-InRange :
    (s : Scheduler) (slot : ℕ)
    → slot < eevdf_max_processes
    → InRange s
    → InRange (add_to_termination_queue s slot)
unfolding add_to_termination_queue
add-InRange s slot b h = elim (Bool-cases (leb eevdf_max_processes s.term_queue_count)) [
  | inl e ↦ rw e (panic_InRange s h)
  | inr e ↦
      let room : s.term_queue_count < eevdf_max_processes = ground arith in
      subst InRange (sym (add-added s slot room)) (
        with_queue s (set s.termination_queue s.term_queue_tail slot) s.term_queue_head
          (add32 s.term_queue_tail 1 % eevdf_max_processes) (suc s.term_queue_count)
          (added-IsRing s slot (IsRing-of s h) room)
          (λ i. entry_set s.termination_queue s.term_queue_tail slot i b (entries_of s h)) h)
]

pub remove-InRange : (s : Scheduler) → InRange s → InRange (remove_from_termination_queue s).1
unfolding remove_from_termination_queue
remove-InRange s h = split s.term_queue_count refl
  where
    split : (n : ℕ) → s.term_queue_count ≡ n → InRange (remove_from_termination_queue s).1
    split zero e = let idle : (s.term_queue_count == 0) ≡ true = ground arith in rw idle h
    split (suc n) e =
        subst (λ r. InRange r.1) (sym (remove-removed s n (IsRing-of s h) e))
          (with_queue s s.termination_queue (add32 s.term_queue_head 1 % eevdf_max_processes)
            s.term_queue_tail n (removed-IsRing s n (IsRing-of s h) e) (entries_of s h) h)
