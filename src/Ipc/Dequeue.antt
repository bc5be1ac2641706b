-- ===== src/Ipc/Dequeue.antt =====
-- What IpcReceiveMessage and IpcReceiveMessageType take out of a queue.
use void_frame.Prelude.{
  ℕ, zero, suc, ◌+◌, ◌-◌, ◌%◌, ◌≤◌, ◌<◌, ◌≡◌, refl, sym, ap, ◌∙◌, ◌⊎◌, inl, inr, Bool-cases, true,
  false, Option, none, some, ltb, ◌==◌, ==_iff, ◌≢◌, if◌then◌else◌, arith, get_or, remove_at,
  tabulate, tabulate_ext, remove_at-tabulate,
}
use void_frame.Prelude.Words.{add32, sub32}
use void_frame.Ipc.Message.{IpcMessage, IpcMessageType, low, no_message, max_messages, type_code}
use void_frame.Ipc.Queue.{
  MessageQueue, slot, entry, ensure_lock, recompute_bitmap, find_priority_message, find_type,
}
use void_frame.Ipc.Process.{Process, blocked}
use void_frame.Ipc.Receive.{
  shift_to_head, shift_down, drop_head, receive_round, receive_type_round, found_type,
}
use void_frame.Ipc.View.{
  IsValid, ensure_lock-IsValid, contents, shift_down-at, length-shift_down,
  shift_to_head-eq-shift_down, recompute_bitmap-IsValid,
}
use void_frame.Ipc.Best.{IsBest, find_priority_message-IsBest}

-- The queue without its entry `k`.
abbrev pub removed : MessageQueue → ℕ → MessageQueue
removed q k = drop_head q (shift_down k q.head q.messages)

abbrev moved : MessageQueue → ℕ → ℕ → IpcMessage
moved q k i =
    get_or (shift_down k q.head q.messages) (slot (add32 q.head 1 % max_messages) i) no_message

moved_lem :
    (q : MessageQueue) (k i : ℕ)
    → IsValid q
    → k < q.count
    → suc i < q.count
    → moved q k i ≡ (if ltb i k then entry q i else entry q (suc i))
moved_lem q k i v below p =
    let c = v.count_in in
    let h = v.head_in in
    let next : slot (add32 q.head 1 % max_messages) i ≡ slot q.head (suc i) = omega arith in
    rw next (shift_down-at k q.messages q.head i v.slots v.head_in (omega arith) (omega arith))

-- The other entries keep their order.
contents-removed :
    (q : MessageQueue) (k : ℕ)
    → IsValid q
    → k < q.count
    → contents (removed q k) ≡ remove_at (contents q) k
unfolding drop_head recompute_bitmap
contents-removed q k v below =
    let c = v.count_in in
    let n = q.count - 1 in
    let less : sub32 q.count 1 ≡ n = omega arith in
    let whole : q.count ≡ suc n = omega arith in
    rw (less) (
      tabulate_ext n _ _ (λ i p. moved_lem q k i v below (omega arith))
      ∙ sym (remove_at-tabulate n (entry q) k (omega arith))
      ∙ ap (λ j. remove_at (tabulate j (entry q)) k) (sym whole))

removed-IsValid : (q : MessageQueue) (k : ℕ) → IsValid q → k < q.count → IsValid (removed q k)
unfolding drop_head
removed-IsValid q k v below =
    let c = v.count_in in
    let h = v.head_in in
    let t = v.tail_at in
    recompute_bitmap-IsValid _ (length-shift_down k q.head q.messages ∙ v.slots) (omega arith)
      (omega arith) (omega arith)
      λ i p. ground (arith, moved_lem q k i v below, v.stamped i, v.stamped (suc i))

-- The round took the entry `k` of the process `p`, and left the rest.
pub record Takes (p p' : Process) (m : Option IpcMessage) (k : ℕ) : Type 0 where
  pub message : m ≡ some (entry p.ipc_queue k)
  pub rest : contents p'.ipc_queue ≡ remove_at (contents p.ipc_queue) k
  pub valid : IsValid p'.ipc_queue
  pub state : p'.state ≡ p.state
  pub pid : p'.pid ≡ p.pid

-- The round found nothing: the process waits, and its queue holds what it held.
pub record Waits (p p' : Process) (m : Option IpcMessage) : Type 0 where
  pub message : m ≡ none
  pub rest : contents p'.ipc_queue ≡ contents p.ipc_queue
  pub valid : IsValid p'.ipc_queue
  pub state : p'.state ≡ blocked
  pub pid : p'.pid ≡ p.pid

taken :
    (q : MessageQueue) (idx k : ℕ)
    → IsValid q
    → k < q.count
    → idx ≡ slot q.head k
    → (if idx == q.head then q.messages else shift_to_head max_messages q.head idx q.messages)
      ≡ shift_down k q.head q.messages
unfolding shift_down
taken q idx zero v below at = let h = v.head_in in ground arith
taken q idx (suc k) v below at =
    let h = v.head_in in
    let c = v.count_in in
    let apart : (idx == q.head) ≡ false = ground arith in
    rw (apart, at)
      (shift_to_head-eq-shift_down (suc k) max_messages q.head q.messages (omega arith)
        (omega arith) h)

round_empty :
    (p : Process)
    → p.ipc_queue.count ≡ 0
    → receive_round p ≡ (none, record p { ipc_queue = ensure_lock p.ipc_queue; state = blocked })
unfolding receive_round
round_empty p e = rw e

round_takes :
    (p : Process) (k : ℕ)
    → let q = ensure_lock p.ipc_queue in
      IsValid q
      → k < q.count
      → find_priority_message q low ≡ slot q.head k
      → receive_round p ≡ (some (entry q k), record p { ipc_queue = removed q k })
unfolding receive_round
round_takes p k v below at =
    let q = ensure_lock p.ipc_queue in
    let some_left : ltb 0 q.count ≡ true = ground arith in
    let same = taken q (find_priority_message q low) k v below at in rw (some_left, same, at)

-- A round of IpcReceiveMessage takes the message that precedes all others, by priority, then by
-- age, then by place; with an empty queue the process blocks.
pub receive_round_lem :
    (p : Process)
    → IsValid p.ipc_queue
    → let (m, p') = receive_round p in
      ((p.ipc_queue.count ≡ 0) × Waits p p' m) ⊎ ((k : ℕ) × IsBest p.ipc_queue k × Takes p p' m k)
receive_round_lem p v = elim (Bool-cases (ltb 0 p.ipc_queue.count)) [
  | inr e ↦
      let empty : p.ipc_queue.count ≡ 0 = ground arith in
      rw (round_empty p empty) (
        inl (
          empty,
          record {
            message = refl;
            rest = refl;
            valid = ensure_lock-IsValid v;
            state = refl;
            pid = refl;
          },
        ))
  | inl e ↦
      let valid : IsValid q = ensure_lock-IsValid v in
      let (k, best, at) = find_priority_message-IsBest q valid (ground arith) in
      rw (round_takes p k valid best.queued at) (
        inr (
          k,
          record { queued = best.queued; best = best.best; first = best.first },
          record {
            message = refl;
            rest = contents-removed q k valid best.queued;
            valid = removed-IsValid q k valid best.queued;
            state = refl;
            pid = refl;
          },
        ))
]
  where
    q : MessageQueue
    q = ensure_lock p.ipc_queue

-- The entry `k` is the first of the type `t`.
pub record IsFirst (t : IpcMessageType) (q : MessageQueue) (k : ℕ) : Type 0 where
  pub queued : k < q.count
  pub typed : type_code (entry q k).type ≡ type_code t
  pub first : (j : ℕ) → j < k → type_code (entry q j).type ≢ type_code t

abbrev Searched : IpcMessageType → MessageQueue → ℕ → ℕ → Option ℕ → Type 0
Searched t q i e none = (j : ℕ) → i ≤ j → j < e → type_code (entry q j).type ≢ type_code t
Searched t q i e (some k) =
    (k < e)
    × (type_code (entry q k).type ≡ type_code t)
    × ((j : ℕ) → i ≤ j → j < k → type_code (entry q j).type ≢ type_code t)

Searched-step :
    (t : IpcMessageType) (q : MessageQueue) (i e : ℕ) (o : Option ℕ)
    → type_code (entry q i).type ≢ type_code t
    → Searched t q (i + 1) e o
    → Searched t q i e o
Searched-step t q i e none miss s = λ j above below. elim (Bool-cases (j == i)) [
  | inl here ↦ let same : j ≡ i = ground arith in rw same miss
  | inr past ↦ s j (ground arith) below
]
Searched-step t q i e (some k) miss s = (
  s.0,
  s.1,
  λ j above below. elim (Bool-cases (j == i)) [
    | inl here ↦ let same : j ≡ i = ground arith in rw same miss
    | inr past ↦ s.2 j (ground arith) below
  ],
)

find_type-Searched :
    (t : IpcMessageType) (q : MessageQueue) (n i e : ℕ)
    → i + n ≡ e
    → Searched t q i e (find_type q t n i)
unfolding find_type
find_type-Searched t q zero i e eq = λ j above below. absurd (omega arith)
find_type-Searched t q (suc n) i e eq =
    elim (Bool-cases (type_code (entry q i).type == type_code t)) [
      | inl hit ↦ rw hit (omega arith, (==_iff _ _).0 hit, λ j above below. absurd (omega arith))
      | inr miss ↦ rw miss (
          Searched-step t q i e (find_type q t n (i + 1)) (ground arith)
            (find_type-Searched t q n (i + 1) e (omega arith)))
    ]

-- No waiting message has that type.
abbrev pub NoneOf : IpcMessageType → MessageQueue → Type 0
NoneOf t q = (j : ℕ) → j < q.count → type_code (entry q j).type ≢ type_code t

-- A round of IpcReceiveMessageType takes the first message of the type; with none of that type the
-- process blocks.
pub receive_type_round_lem :
    (t : IpcMessageType) (p : Process)
    → IsValid p.ipc_queue
    → let (m, p') = receive_type_round t p in
      (NoneOf t p.ipc_queue × Waits p p' m) ⊎ ((k : ℕ) × IsFirst t p.ipc_queue k × Takes p p' m k)
unfolding receive_type_round
receive_type_round_lem t p v =
    go (find_type q t q.count 0) (find_type-Searched t q q.count 0 q.count (omega arith))
  where
    q : MessageQueue
    q = p.ipc_queue

    go :
        (o : Option ℕ)
        → Searched t q 0 q.count o
        → let (m, p') = found_type p o in
          (NoneOf t q × Waits p p' m) ⊎ ((k : ℕ) × IsFirst t q k × Takes p p' m k)
    go none s = inl (
      λ j below. s j (omega arith) below,
      record { message = refl; rest = refl; valid = v; state = refl; pid = refl },
    )
    go (some k) s = inr (
      k,
      record { queued = s.0; typed = s.1; first = λ j below. s.2 j (omega arith) below },
      record {
        message = refl;
        rest = contents-removed q k v s.0;
        valid = removed-IsValid q k v s.0;
        state = refl;
        pid = refl;
      },
    )
