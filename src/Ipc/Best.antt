-- ===== src/Ipc/Best.antt =====
-- find_priority_message: which message a receiver gets.
use void_frame.Prelude.{
  ℕ, zero, suc, ◌+◌, ◌-◌, ◌≤◌, ◌<◌, ◌≡◌, refl, ◌⊎◌, inl, inr, Bool-cases, ◌==◌, arith,
}
use void_frame.Prelude.Words.{u64_mod}
use void_frame.Ipc.Message.{IpcMessage, low, rank}
use void_frame.Ipc.Queue.{
  MessageQueue, slot, entry, Best, is_better, consider, scan_best, find_priority_message,
}
use void_frame.Ipc.View.{IsValid}

-- `m` is to be received before `n`: it has the higher priority, or the same and the older stamp.
abbrev pub Precedes : IpcMessage → IpcMessage → Type 0
Precedes m n =
    (rank n.priority < rank m.priority)
    ⊎ ((rank m.priority ≡ rank n.priority) × (m.timestamp < n.timestamp))

-- No waiting message precedes the entry `k`, and those nearer to the head are preceded by it.
pub record IsBest (q : MessageQueue) (k : ℕ) : Type 0 where
  pub queued : k < q.count
  pub best : (j : ℕ) → j < q.count → ¬ Precedes (entry q j) (entry q k)
  pub first : (j : ℕ) → j < k → Precedes (entry q k) (entry q j)

abbrev Bound : MessageQueue → ℕ → Best → Type 0
Bound q i b =
    (j : ℕ)
    → j < i
    → (rank (entry q j).priority < rank b.best_priority)
      ⊎ ((rank (entry q j).priority ≡ rank b.best_priority)
          × (b.oldest_time ≤ (entry q j).timestamp))

abbrev Found : MessageQueue → ℕ → Best → Type 0
Found q i b =
    ((b.best_idx ≡ q.head) × (rank b.best_priority ≡ 0) × (b.oldest_time ≡ u64_mod - 1))
    ⊎ ((k : ℕ) × (k < i)
        × (b.best_idx ≡ slot q.head k)
        × (rank b.best_priority ≡ rank (entry q k).priority)
        × (b.oldest_time ≡ (entry q k).timestamp)
        × ((j : ℕ) → j < k → Precedes (entry q k) (entry q j)))

consider-Bound :
    (q : MessageQueue) (i : ℕ) (b : Best) → Bound q i b → Bound q (i + 1) (consider q low i b)
consider-Bound q i b h j below = elim (Bool-cases (j == i)) [
  | inl e ↦ let same : j ≡ i = ground arith in rw same (ground arith)
  | inr ne ↦ ground (arith, h j)
]

consider-Found :
    (q : MessageQueue) (i : ℕ) (b : Best)
    → Bound q i b
    → Found q i b
    → Found q (i + 1) (consider q low i b)
consider-Found q i b h f = elim (Bool-cases (is_better low b (entry q i))) [
  | inl better ↦
      rw better
        (inr (i, omega arith, refl, refl, refl, λ j below. let earlier = h j below in ground arith))
  | inr keep ↦ rw keep (elim f [
    | inl start ↦ inl start
    | inr (k, below, at, prio, time, before) ↦ inr (k, omega arith, at, prio, time, before)
  ])
]

scan_best_inv :
    (q : MessageQueue) (n i e : ℕ) (b : Best)
    → i + n ≡ e
    → Bound q i b
    → Found q i b
    → Bound q e (scan_best q low n i b) × Found q e (scan_best q low n i b)
unfolding scan_best
scan_best_inv q zero i e b eq h f = let same : i ≡ e = omega arith in rw (← same) (h, f)
scan_best_inv q (suc n) i e b eq h f =
    scan_best_inv q n (i + 1) e (consider q low i b) (omega arith) (consider-Bound q i b h)
      (consider-Found q i b h f)

-- In a valid queue that is not empty the search ends at the slot of the entry to receive.
pub find_priority_message-IsBest :
    (q : MessageQueue)
    → IsValid q
    → 0 < q.count
    → (k : ℕ) × IsBest q k × (find_priority_message q low ≡ slot q.head k)
unfolding find_priority_message
find_priority_message-IsBest q v h = elim both.1 [
  | inl (at, prio, time) ↦ (
    0,
    record {
      queued = h;
      best = λ j p.
          let b = both.0 j p in
          let b0 = both.0 0 h in
          let stamp = v.stamped j p in let stamp0 = v.stamped 0 h in ground arith;
      first = λ j p. absurd (omega arith);
    },
    omega (arith, v.head_in),
  )
  | inr (k, below, at, prio, time, before) ↦ (
    k,
    record { queued = below; best = λ j p. let b = both.0 j p in ground arith; first = before },
    at,
  )
]
  where
    start : Best
    start = record { best_idx = q.head; best_priority = low; oldest_time = u64_mod - 1 }

    both :
        Bound q q.count (scan_best q low q.count 0 start)
        × Found q q.count (scan_best q low q.count 0 start)
    both =
        scan_best_inv q q.count 0 q.count start (omega arith) (λ j p. absurd (omega arith))
          (inl (refl, refl, refl))
