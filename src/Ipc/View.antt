-- ===== src/Ipc/View.antt =====
-- The ring as the list of its messages, oldest place first, and what moving slots does to it.
use void_frame.Prelude.{
  ℕ, zero, suc, ◌%◌, ◌≤◌, ◌<◌, ◌≡◌, refl, sym, ◌+◌, ◌∙◌, inl, inr, List, arith, ltb, ◌==◌,
  if◌then◌else◌, length, get_or, set, tabulate, length-set, get_or-set_self, get_or-set_ne,
  Bool-cases,
}
use void_frame.Prelude.Words.{add32, sub32, u64_mod}
use void_frame.Ipc.Message.{IpcMessage, no_message, max_messages}
use void_frame.Ipc.Queue.{MessageQueue, slot, entry, add_priorities, recompute_bitmap, ensure_lock}
use void_frame.Ipc.Receive.{shift_to_head, shift_down}

abbrev pub contents : MessageQueue → List IpcMessage
contents q = tabulate q.count (entry q)

-- The representation invariant of a queue.
pub record IsValid (q : MessageQueue) : Type 0 where
  pub slots : length q.messages ≡ max_messages
  pub head_in : q.head < max_messages
  pub tail_at : q.tail ≡ slot q.head q.count
  pub count_in : q.count ≤ max_messages
  pub fresh : q.priority_bitmap ≡ add_priorities q q.count 0 0
  pub stamped : (i : ℕ) → i < q.count → (entry q i).timestamp < u64_mod

pub slot_inj :
    (h i j : ℕ)
    → h < max_messages
    → i < max_messages
    → j < max_messages
    → slot h i ≡ slot h j
    → i ≡ j
slot_inj h i j p q r e = omega arith

abbrev at : List IpcMessage → ℕ → ℕ → IpcMessage
at ms h i = get_or ms (slot h i) no_message

pub at-set :
    (ms : List IpcMessage) (h i k : ℕ) (v : IpcMessage)
    → length ms ≡ max_messages
    → h < max_messages
    → i < max_messages
    → k < max_messages
    → at (set ms (slot h k) v) h i ≡ (if i == k then v else at ms h i)
at-set ms h i k v len p q r = elim (Bool-cases (i == k)) [
  | inl e ↦
      let same : i ≡ k = ground arith in
      rw (e, same) (get_or-set_self ms (slot h k) v no_message (omega arith))
  | inr ne ↦ rw ne (
      get_or-set_ne ms (slot h k) (slot h i) v no_message
        (λ e. let same : k ≡ i = slot_inj h k i p r q e in ground arith))
]

-- Entries 0 .. k - 1 move on by one place, the rest stays.
pub shift_down-at :
    (k : ℕ) (ms : List IpcMessage) (h i : ℕ)
    → length ms ≡ max_messages
    → h < max_messages
    → suc i < max_messages
    → k < max_messages
    → at (shift_down k h ms) h (suc i) ≡ (if ltb i k then at ms h i else at ms h (suc i))
unfolding shift_down
shift_down-at zero ms h i len p q r = ground arith
shift_down-at (suc k) ms h i len p q r =
    let moved = set ms (slot h (suc k)) (at ms h k) in
    ground (
      arith,
      shift_down-at k moved h i (length-set ms (slot h (suc k)) (at ms h k) ∙ len) p q
          (omega arith),
      at-set ms h i (suc k) (at ms h k) len p (omega arith) r,
      at-set ms h (suc i) (suc k) (at ms h k) len p q r,
    )

pub length-shift_down : (k h : ℕ) (ms : List IpcMessage) → length (shift_down k h ms) ≡ length ms
unfolding shift_down
length-shift_down zero h ms = refl
length-shift_down (suc k) h ms =
    length-shift_down k h (set ms (slot h (suc k)) (at ms h k)) ∙ length-set ms _ _

-- The two loops make the same move.
pub shift_to_head-eq-shift_down :
    (k fuel h : ℕ) (ms : List IpcMessage)
    → k < fuel
    → k < max_messages
    → h < max_messages
    → shift_to_head fuel h (slot h k) ms ≡ shift_down k h ms
unfolding shift_to_head shift_down
shift_to_head-eq-shift_down k zero h ms f p q = absurd (omega arith)
shift_to_head-eq-shift_down zero (suc fuel) h ms f p q = ground arith
shift_to_head-eq-shift_down (suc k) (suc fuel) h ms f p q =
    let prev : add32 (sub32 (slot h (suc k)) 1) max_messages % max_messages ≡ slot h k =
      omega arith in
    rw prev
      (ground (arith, shift_to_head-eq-shift_down k fuel h (set ms (slot h (suc k)) (at ms h k))))

add_priorities_same :
    (q : MessageQueue) (b' n i b : ℕ)
    → add_priorities (record q { priority_bitmap = b' }) n i b ≡ add_priorities q n i b
unfolding add_priorities
add_priorities_same q b' zero i b = refl
add_priorities_same q b' (suc n) i b = add_priorities_same q b' n (i + 1) _

-- Recomputing the bitmap completes the invariant.
pub recompute_bitmap-IsValid :
    (q : MessageQueue)
    → length q.messages ≡ max_messages
    → q.head < max_messages
    → q.tail ≡ slot q.head q.count
    → q.count ≤ max_messages
    → ((i : ℕ) → i < q.count → (entry q i).timestamp < u64_mod)
    → IsValid (recompute_bitmap q)
unfolding recompute_bitmap
recompute_bitmap-IsValid q slots head_in tail_at count_in stamped = record {
  slots = slots;
  head_in = head_in;
  tail_at = tail_at;
  count_in = count_in;
  fresh = sym (add_priorities_same q _ q.count 0 0);
  stamped = stamped;
}

add_priorities_lock :
    (q : MessageQueue) (n i b : ℕ) → add_priorities (ensure_lock q) n i b ≡ add_priorities q n i b
unfolding add_priorities
add_priorities_lock q zero i b = refl
add_priorities_lock q (suc n) i b = add_priorities_lock q n (i + 1) _

pub ensure_lock-IsValid : {q : MessageQueue} → IsValid q → IsValid (ensure_lock q)
ensure_lock-IsValid {q} v = record {
  slots = v.slots;
  head_in = v.head_in;
  tail_at = v.tail_at;
  count_in = v.count_in;
  fresh = v.fresh ∙ sym (add_priorities_lock q q.count 0 0);
  stamped = v.stamped;
}
