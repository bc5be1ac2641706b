-- ===== src/Ipc/Lowest.antt =====
-- The search of IpcSendMessage for the entry that gives way in a full queue.
use void_frame.Prelude.{
  ℕ, zero, suc, ◌+◌, ◌≤◌, ◌<◌, ◌≡◌, refl, ◌⊎◌, inl, inr, Bool-cases, ltb, ◌==◌, arith,
}
use void_frame.Ipc.Message.{urgent, rank}
use void_frame.Ipc.Queue.{
  MessageQueue, slot, entry, Lowest, consider_lowest, scan_lowest, find_lowest,
}

-- The entry `k` has the lowest priority, and is the one nearest to the head that has it.
pub record IsLowest (q : MessageQueue) (k : ℕ) : Type 0 where
  pub queued : k < q.count
  pub lowest : (j : ℕ) → j < q.count → rank (entry q k).priority ≤ rank (entry q j).priority
  pub first : (j : ℕ) → j < k → rank (entry q k).priority < rank (entry q j).priority

abbrev Found : MessageQueue → ℕ → Lowest → Type 0
Found q i a =
    (rank a.lowest ≡ 3)
    ⊎ ((k : ℕ) × (k < i)
        × (a.drop_idx ≡ slot q.head k)
        × (rank a.lowest ≡ rank (entry q k).priority)
        × ((j : ℕ) → j < k → rank a.lowest < rank (entry q j).priority))

abbrev Bound : MessageQueue → ℕ → Lowest → Type 0
Bound q i a = (j : ℕ) → j < i → rank a.lowest ≤ rank (entry q j).priority

consider_lowest-Bound :
    (q : MessageQueue) (i : ℕ) (a : Lowest) → Bound q i a → Bound q (i + 1) (consider_lowest q i a)
consider_lowest-Bound q i a b j below = elim (Bool-cases (j == i)) [
  | inl e ↦ let same : j ≡ i = ground arith in rw same (ground arith)
  | inr ne ↦ ground (arith, b j)
]

consider_lowest-Found :
    (q : MessageQueue) (i : ℕ) (a : Lowest)
    → Bound q i a
    → Found q i a
    → Found q (i + 1) (consider_lowest q i a)
consider_lowest-Found q i a b f =
    elim (Bool-cases (ltb (rank (entry q i).priority) (rank a.lowest))) [
      | inl less ↦
          rw less
            (inr (i, omega arith, refl, refl, λ j below. let earlier = b j below in ground arith))
      | inr keep ↦ rw keep (elim f [
        | inl top ↦ inl top
        | inr (k, below, at, value, before) ↦ inr (k, omega arith, at, value, before)
      ])
    ]

scan_lowest_inv :
    (q : MessageQueue) (n i e : ℕ) (a : Lowest)
    → i + n ≡ e
    → Bound q i a
    → Found q i a
    → Bound q e (scan_lowest q n i a) × Found q e (scan_lowest q n i a)
unfolding scan_lowest
scan_lowest_inv q zero i e a eq b f = let same : i ≡ e = omega arith in rw (← same) (b, f)
scan_lowest_inv q (suc n) i e a eq b f =
    scan_lowest_inv q n (i + 1) e (consider_lowest q i a) (omega arith)
      (consider_lowest-Bound q i a b) (consider_lowest-Found q i a b f)

-- No waiting message is below `(find_lowest q).lowest`; if that is not the highest priority, the
-- search has found the lowest entry nearest to the head.
pub find_lowest_lem :
    (q : MessageQueue)
    → ((j : ℕ) → j < q.count → rank (find_lowest q).lowest ≤ rank (entry q j).priority)
      × ((rank (find_lowest q).lowest ≡ 3)
          ⊎ ((k : ℕ) × IsLowest q k
              × ((find_lowest q).drop_idx ≡ slot q.head k)
              × (rank (find_lowest q).lowest ≡ rank (entry q k).priority)))
unfolding find_lowest
find_lowest_lem q = (
  bound,
  elim found [
    | inl top ↦ inl top
    | inr (k, below, at, value, before) ↦ inr (
      k,
      record {
        queued = below;
        lowest = λ j p. let b = bound j p in omega arith;
        first = λ j p. let b = before j p in omega arith;
      },
      at,
      value,
    )
  ],
)
  where
    start : Lowest
    start = record { lowest = urgent; drop_idx = q.head }

    both : Bound q q.count (find_lowest q) × Found q q.count (find_lowest q)
    both =
        scan_lowest_inv q q.count 0 q.count start (omega arith) (λ j p. absurd (omega arith))
          (inl refl)

    bound : Bound q q.count (find_lowest q)
    bound = both.0

    found : Found q q.count (find_lowest q)
    found = both.1
