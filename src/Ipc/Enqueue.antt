-- ===== src/Ipc/Enqueue.antt =====
-- What IpcSendMessage does to the queue of the target.
use mathlib.Core.Option
use void_frame.Prelude.{
  ℕ, suc, ◌%◌, ◌≤◌, ◌<◌, ◌≡◌, refl, sym, ap, ap₂, ◌∙◌, ◌⊎◌, inl, inr, Bool-cases, Option, none,
  some, [], ◌∷◌, ◌++◌, ltb, arith, set, tabulate_ext, tabulate-snoc, set-tabulate, length-set,
}
use void_frame.Prelude.Words.{u64_mod, add32}
use void_frame.Ipc.Message.{IpcMessage, rank, max_messages}
use void_frame.Ipc.Queue.{MessageQueue, slot, entry, recompute_bitmap, find_lowest}
use void_frame.Ipc.Send.{place, store}
use void_frame.Ipc.View.{IsValid, contents, at-set, recompute_bitmap-IsValid}
use void_frame.Ipc.Lowest.{IsLowest, find_lowest_lem}

-- The queue after `msg` was sent, with `m` the message as it is stored; none when it is refused.
abbrev pub enqueue : MessageQueue → IpcMessage → IpcMessage → Option MessageQueue
enqueue q msg m = Option.map (λ r. store r.1 r.0 m) (place q msg)

-- The queue with `m` in the free slot at the tail.
abbrev pub appended : MessageQueue → IpcMessage → MessageQueue
appended q m =
    store (record q { tail = add32 q.tail 1 % max_messages; count = add32 q.count 1 }) q.tail m

-- The queue with `m` in place of the entry `k`.
abbrev pub replaced : MessageQueue → ℕ → IpcMessage → MessageQueue
replaced q k m = store (record q { dropped_count = add32 q.dropped_count 1 }) (slot q.head k) m

contents-appended :
    (q : MessageQueue) (m : IpcMessage)
    → IsValid q
    → q.count < max_messages
    → contents (appended q m) ≡ contents q ++ (m ∷ [])
unfolding store recompute_bitmap
contents-appended q m v room =
    let more : add32 q.count 1 ≡ suc q.count = omega arith in
    rw (more, v.tail_at)
      (tabulate-snoc q.count _
        ∙ ap₂ ◌++◌ (tabulate_ext q.count _ _ earlier) (ap (λ x. x ∷ []) last))
  where
    written : MessageQueue
    written = record q { messages = set q.messages (slot q.head q.count) m }

    earlier : (i : ℕ) → i < q.count → entry written i ≡ entry q i
    earlier i p =
        ground (arith, at-set q.messages q.head i q.count m v.slots v.head_in (omega arith) room)

    last : entry written q.count ≡ m
    last = ground (arith, at-set q.messages q.head q.count q.count m v.slots v.head_in room room)

appended-IsValid :
    (q : MessageQueue) (m : IpcMessage)
    → IsValid q
    → q.count < max_messages
    → m.timestamp < u64_mod
    → IsValid (appended q m)
unfolding store
appended-IsValid q m v room stamp =
    recompute_bitmap-IsValid _ (length-set q.messages q.tail m ∙ v.slots) v.head_in
      (omega (arith, v.tail_at, v.head_in)) (omega arith) stamped
  where
    stamped :
        (i : ℕ)
        → i < add32 q.count 1
        → (entry (record q { messages = set q.messages q.tail m }) i).timestamp < u64_mod
    stamped i p = rw v.tail_at (
        ground (
          arith,
          at-set q.messages q.head i q.count m v.slots v.head_in (omega arith) room,
          v.stamped i,
        ))

contents-replaced :
    (q : MessageQueue) (k : ℕ) (m : IpcMessage)
    → IsValid q
    → k < q.count
    → contents (replaced q k m) ≡ set (contents q) k m
unfolding store recompute_bitmap
contents-replaced q k m v below =
    tabulate_ext q.count _ _
      (λ i p. at-set q.messages q.head i k m v.slots v.head_in (inside i p) (inside k below))
    ∙ sym (set-tabulate q.count (entry q) k m)
  where
    inside : (i : ℕ) → i < q.count → i < max_messages
    inside i p = let c = v.count_in in omega arith

replaced-IsValid :
    (q : MessageQueue) (k : ℕ) (m : IpcMessage)
    → IsValid q
    → k < q.count
    → m.timestamp < u64_mod
    → IsValid (replaced q k m)
unfolding store
replaced-IsValid q k m v below stamp =
    recompute_bitmap-IsValid _ (length-set q.messages (slot q.head k) m ∙ v.slots) v.head_in
      v.tail_at v.count_in stamped
  where
    stamped :
        (i : ℕ)
        → i < q.count
        → (entry (record q { messages = set q.messages (slot q.head k) m }) i).timestamp < u64_mod
    stamped i p =
        let c = v.count_in in
        ground (
          arith,
          at-set q.messages q.head i k m v.slots v.head_in (omega arith) (omega arith),
          v.stamped i,
        )

-- Sending to a queue with room, or whose lowest entry gives way, or to one that refuses.
abbrev pub Appends : MessageQueue → IpcMessage → MessageQueue → Type 0
Appends q m r =
    (q.count < max_messages)
    × (contents r ≡ contents q ++ (m ∷ []))
    × (r.dropped_count ≡ q.dropped_count)

abbrev pub Replaces : MessageQueue → IpcMessage → MessageQueue → Type 0
Replaces q m r =
    (k : ℕ) × (q.count ≡ max_messages)
    × IsLowest q k
    × (rank (entry q k).priority < rank m.priority)
    × (contents r ≡ set (contents q) k m)
    × (r.dropped_count ≡ add32 q.dropped_count 1)

abbrev pub Refuses : MessageQueue → IpcMessage → Type 0
Refuses q m =
    (q.count ≡ max_messages) × ((j : ℕ) → j < q.count → rank m.priority ≤ rank (entry q j).priority)

abbrev pub Enqueues : MessageQueue → IpcMessage → Option MessageQueue → Type 0
Enqueues q m none = Refuses q m
Enqueues q m (some r) = IsValid r × (Appends q m r ⊎ Replaces q m r)

place_room :
    (q : MessageQueue) (msg : IpcMessage)
    → q.count < max_messages
    → place q msg
      ≡ some (q.tail, record q { tail = add32 q.tail 1 % max_messages; count = add32 q.count 1 })
unfolding place
place_room q msg room = ground arith

place_full :
    (q : MessageQueue) (msg : IpcMessage)
    → q.count ≡ max_messages
    → (rank msg.priority ≤ rank (find_lowest q).lowest)
    → place q msg ≡ none
unfolding place
place_full q msg full low_msg = ground arith

place_drop :
    (q : MessageQueue) (msg : IpcMessage)
    → q.count ≡ max_messages
    → (rank (find_lowest q).lowest < rank msg.priority)
    → place q msg
      ≡ some ((find_lowest q).drop_idx, record q { dropped_count = add32 q.dropped_count 1 })
unfolding place
place_drop q msg full low_msg = ground arith

rank-lt : (msg : IpcMessage) → rank msg.priority ≤ 3
rank-lt msg = ground arith

enqueue_drop :
    (q : MessageQueue) (msg m : IpcMessage)
    → m.priority ≡ msg.priority
    → m.timestamp < u64_mod
    → IsValid q
    → q.count ≡ max_messages
    → (rank (find_lowest q).lowest < rank msg.priority)
    → Enqueues q m (enqueue q msg m)
unfolding store recompute_bitmap
enqueue_drop q msg m same stamp v full higher =
    rw (place_drop q msg full higher) (elim (find_lowest_lem q).1 [
      | inl top ↦ absurd (omega (arith, rank-lt msg))
      | inr (k, low_at, at, value) ↦ rw at (
        replaced-IsValid q k m v low_at.queued stamp,
        inr (
          k,
          full,
          low_at,
          rw same (omega arith),
          contents-replaced q k m v low_at.queued,
          dropped q k m,
        ),
      )
    ])
  where
    dropped :
        (q : MessageQueue) (k : ℕ) (m : IpcMessage)
        → (replaced q k m).dropped_count ≡ add32 q.dropped_count 1
    dropped q k m = refl

-- A valid queue takes a message at its end while there is room; when it is full the message takes
-- the place of the lowest entry nearest to the head, if that is lower, and is refused otherwise.
pub enqueue_lem :
    (q : MessageQueue) (msg m : IpcMessage)
    → m.priority ≡ msg.priority
    → m.timestamp < u64_mod
    → IsValid q
    → Enqueues q m (enqueue q msg m)
unfolding store recompute_bitmap
enqueue_lem q msg m same stamp v = elim (Bool-cases (ltb q.count max_messages)) [
  | inl room ↦
      let r : q.count < max_messages = ground arith in
      rw (place_room q msg r)
        (appended-IsValid q m v r stamp, inl (r, contents-appended q m v r, refl))
  | inr no_room ↦
      let c = v.count_in in
      let full : q.count ≡ max_messages = ground arith in
      elim (Bool-cases (ltb (rank (find_lowest q).lowest) (rank msg.priority))) [
        | inl higher ↦ enqueue_drop q msg m same stamp v full (ground arith)
        | inr lower ↦
            rw (place_full q msg full (ground arith))
              (full, λ j p. let b = (find_lowest_lem q).0 j p in rw same (ground arith))
      ]
]
