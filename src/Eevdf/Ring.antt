-- ===== src/Eevdf/Ring.antt =====
-- The termination queue as a list of slots, the next one to be cleaned up first.
use void_frame.Prelude.{
  ℕ, suc, ◌+◌, ◌%◌, ◌≤◌, ◌<◌, ◌≡◌, ◌≢◌, refl, sym, ap, ap₂, subst, ◌∙◌, false, List, [], ◌∷◌, ◌++◌,
  leb, ◌==◌, arith, length, length-set, get_or, set, get_or-set_self, get_or-set_ne, tabulate,
  tabulate_ext, tabulate-snoc,
}
use void_frame.Prelude.Words.{add32, sub32}
use void_frame.Eevdf.Tree.{eevdf_max_processes}
use void_frame.Eevdf.State.{Scheduler}
use void_frame.Eevdf.Slots.{add_to_termination_queue, remove_from_termination_queue}

abbrev pub place_of : ℕ → ℕ → ℕ
place_of head i = (head + i) % eevdf_max_processes

abbrev pub waiting_slot : Scheduler → ℕ → ℕ
waiting_slot s i = get_or s.termination_queue (place_of s.term_queue_head i) 0

abbrev pub waiting : Scheduler → List ℕ
waiting s = tabulate s.term_queue_count (waiting_slot s)

pub record IsRing (s : Scheduler) : Type 0 where
  pub places : length s.termination_queue ≡ eevdf_max_processes
  pub head : s.term_queue_head < eevdf_max_processes
  pub count : s.term_queue_count ≤ eevdf_max_processes
  pub tail : s.term_queue_tail ≡ place_of s.term_queue_head s.term_queue_count

-- The queue with a slot more.
abbrev pub added : Scheduler → ℕ → Scheduler
added s slot = record s {
  termination_queue = set s.termination_queue s.term_queue_tail slot;
  term_queue_tail = add32 s.term_queue_tail 1 % eevdf_max_processes;
  term_queue_count = suc s.term_queue_count;
}

pub add-added :
    (s : Scheduler) (slot : ℕ)
    → s.term_queue_count < eevdf_max_processes
    → add_to_termination_queue s slot ≡ added s slot
unfolding add_to_termination_queue
add-added s slot h =
    let room : leb eevdf_max_processes s.term_queue_count ≡ false = ground arith in
    let grown : add32 s.term_queue_count 1 ≡ suc s.term_queue_count = omega arith in
    rw (room, grown) refl

pub added-IsRing :
    (s : Scheduler) (slot : ℕ)
    → IsRing s
    → s.term_queue_count < eevdf_max_processes
    → IsRing (added s slot)
added-IsRing s slot r h = record {
  places = length-set s.termination_queue s.term_queue_tail slot ∙ r.places;
  head = r.head;
  count = omega arith;
  tail = let e = r.tail in omega arith;
}

place_inj : (head i n : ℕ) → i < n → n < eevdf_max_processes → place_of head n ≢ place_of head i
place_inj head i n h k e = absurd (omega arith)

pub added-waiting :
    (s : Scheduler) (slot : ℕ)
    → IsRing s
    → s.term_queue_count < eevdf_max_processes
    → waiting (added s slot) ≡ waiting s ++ (slot ∷ [])
added-waiting s slot r h =
    let n = s.term_queue_count in
    let inside : s.term_queue_tail < length s.termination_queue =
      let e = r.tail in let f = r.places in omega arith in
    tabulate-snoc n (waiting_slot (added s slot))
    ∙ ap₂ (λ xs x. xs ++ (x ∷ []))
        (tabulate_ext n (waiting_slot (added s slot)) (waiting_slot s) (λ i k.
          get_or-set_ne s.termination_queue s.term_queue_tail (place_of s.term_queue_head i) slot 0
            (λ e. place_inj s.term_queue_head i n k h (sym r.tail ∙ e))))
        (subst (λ p. get_or (set s.termination_queue s.term_queue_tail slot) p 0 ≡ slot) r.tail
          (get_or-set_self s.termination_queue s.term_queue_tail slot 0 inside))

-- The queue without its first slot.
abbrev pub removed : Scheduler → ℕ → Scheduler
removed s n = record s {
  term_queue_head = add32 s.term_queue_head 1 % eevdf_max_processes;
  term_queue_count = n;
}

pub remove-removed :
    (s : Scheduler) (n : ℕ)
    → IsRing s
    → s.term_queue_count ≡ suc n
    → remove_from_termination_queue s
      ≡ (get_or s.termination_queue s.term_queue_head 0, removed s n)
unfolding remove_from_termination_queue
remove-removed s n r e =
    let c = r.count in
    let busy : (s.term_queue_count == 0) ≡ false = ground arith in
    let less : sub32 s.term_queue_count 1 ≡ n = omega arith in rw (busy, less) refl

pub removed-IsRing :
    (s : Scheduler) (n : ℕ) → IsRing s → s.term_queue_count ≡ suc n → IsRing (removed s n)
removed-IsRing s n r e =
    let h = r.head in
    let c = r.count in
    let t = r.tail in
    record { places = r.places; head = omega arith; count = omega arith; tail = omega arith }

pub removed-waiting :
    (s : Scheduler) (n : ℕ)
    → IsRing s
    → s.term_queue_count ≡ suc n
    → waiting s ≡ get_or s.termination_queue s.term_queue_head 0 ∷ waiting (removed s n)
removed-waiting s n r e =
    ap (λ k. tabulate k (waiting_slot s)) e
    ∙ ap₂ ◌∷◌ (ap (λ p. get_or s.termination_queue p 0) (first s.term_queue_head r.head)) (
        tabulate_ext n _ _
          (λ i k. ap (λ p. get_or s.termination_queue p 0) (next s.term_queue_head i r.head)))
  where
    first : (h : ℕ) → h < eevdf_max_processes → place_of h 0 ≡ h
    first h b = omega arith

    next :
        (h i : ℕ)
        → h < eevdf_max_processes
        → place_of h (suc i) ≡ place_of (add32 h 1 % eevdf_max_processes) i
    next h i b = omega arith
