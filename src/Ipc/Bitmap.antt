-- ===== src/Ipc/Bitmap.antt =====
-- The priority bitmap tells which priorities are queued.
use void_frame.Prelude.{
  every, every-apply, ℕ, zero, suc, ◌+◌, ◌≤◌, ◌<◌, ◌≡◌, refl, sym, ap, not, ◌∙◌, ◌↔◌, inl, inr,
  Bool, true, false, ◌&&◌, ◌||◌, arith, ltb, leb, ◌==◌, Bool-cases,
}
use void_frame.Prelude.Words.{test_bit}
use void_frame.Ipc.Message.{IpcPriority, low, normal, high, urgent, rank}
use void_frame.Ipc.Queue.{
  MessageQueue, entry, update_priority_bitmap, add_priorities, get_highest_priority, highest_of,
}
use void_frame.Ipc.View.{IsValid}

abbrev all_priorities : (IpcPriority → Bool) → Bool
all_priorities f = f low && (f normal && (f high && f urgent))

all_priorities_sound :
    (f : IpcPriority → Bool) (p : IpcPriority) → all_priorities f ≡ true → f p ≡ true
all_priorities_sound f low h = ground arith
all_priorities_sound f normal h = ground arith
all_priorities_sound f high h = ground arith
all_priorities_sound f urgent h = ground arith

abbrev same : Bool → Bool → Bool
same true b = b
same false true = false
same false false = true

same-eq : (a b : Bool) → same a b ≡ true → a ≡ b
same-eq a b h = ground arith

abbrev update_check : ℕ → IpcPriority → IpcPriority → Bool
update_check b p q =
    ltb (update_priority_bitmap b p) 16
    && same (test_bit (update_priority_bitmap b p) (rank q))
        (test_bit b (rank q) || rank q == rank p)

update_table : every (λ b. all_priorities (λ p. all_priorities (λ q. update_check b p q))) 16 ≡ true
unfolding every update_priority_bitmap
update_table = refl

update_lem :
    (b : ℕ) (p q : IpcPriority)
    → b < 16
    → (update_priority_bitmap b p < 16)
      × (test_bit (update_priority_bitmap b p) (rank q) ≡ (test_bit b (rank q) || rank q == rank p))
update_lem b p q h =
    let checked : update_check b p q ≡ true = all_priorities_sound (update_check b p) q (
      all_priorities_sound (λ x. all_priorities (update_check b x)) p
        (every-apply _ 16 b h update_table)) in
    ground (
      arith,
      same-eq (test_bit (update_priority_bitmap b p) (rank q))
          (test_bit b (rank q) || rank q == rank p),
    )

-- One of the entries `i .. i + n` has that priority.
abbrev has_priority : MessageQueue → IpcPriority → ℕ → ℕ → Bool
has_priority q p zero i = false
has_priority q p (suc n) i = rank p == rank (entry q i).priority || has_priority q p n (i + 1)

add_priorities_lem :
    (q : MessageQueue) (p : IpcPriority) (n i b : ℕ)
    → b < 16
    → (add_priorities q n i b < 16)
      × (test_bit (add_priorities q n i b) (rank p) ≡ (test_bit b (rank p) || has_priority q p n i))
unfolding add_priorities
add_priorities_lem q p zero i b h = ground arith
add_priorities_lem q p (suc n) i b h = ground (
  arith,
  update_lem b (entry q i).priority p h,
  add_priorities_lem q p n (i + 1) (update_priority_bitmap b (entry q i).priority),
)

abbrev pub Queued : MessageQueue → IpcPriority → Type 0
Queued q p = (i : ℕ) × (i < q.count) × ((entry q i).priority ≡ p)

rank_inj : (p q : IpcPriority) → rank p ≡ rank q → p ≡ q
rank_inj p q h = ground arith

has_priority→Queued :
    (q : MessageQueue) (p : IpcPriority) (n i : ℕ)
    → has_priority q p n i ≡ true
    → (j : ℕ) × (i ≤ j) × (j < i + n) × ((entry q j).priority ≡ p)
has_priority→Queued q p zero i h = cc
has_priority→Queued q p (suc n) i h = elim (Bool-cases (rank p == rank (entry q i).priority)) [
  | inl e ↦ (i, omega arith, omega arith, rank_inj _ _ (ground arith))
  | inr ne ↦
      let (j, above, below, found) = has_priority→Queued q p n (i + 1) (ground arith) in
      (j, omega arith, omega arith, found)
]

Queued→has_priority :
    (q : MessageQueue) (p : IpcPriority) (n i j : ℕ)
    → i ≤ j
    → j < i + n
    → (entry q j).priority ≡ p
    → has_priority q p n i ≡ true
Queued→has_priority q p zero i j above below found = absurd (omega arith)
Queued→has_priority q p (suc n) i j above below found = elim (Bool-cases (i == j)) [
  | inl e ↦
      let here : i ≡ j = ground arith in
      let there : (entry q i).priority ≡ p = rw here found in ground (arith, ap rank there)
  | inr ne ↦ ground (arith, Queued→has_priority q p n (i + 1) j)
]

zero_bits : (p : IpcPriority) {b : Bool} → (test_bit 0 (rank p) || b) ≡ b
zero_bits low = refl
zero_bits normal = refl
zero_bits high = refl
zero_bits urgent = refl

-- A bit of the bitmap of a valid queue is set exactly when a message of that priority waits.
pub bitmap_exact :
    (q : MessageQueue) (p : IpcPriority)
    → IsValid q
    → (test_bit q.priority_bitmap (rank p) ≡ true) ↔ Queued q p
bitmap_exact q p v = (to, from)
  where
    bit : test_bit q.priority_bitmap (rank p) ≡ has_priority q p q.count 0
    bit = rw v.fresh ((add_priorities_lem q p q.count 0 0 (omega arith)).1 ∙ zero_bits p)

    to : test_bit q.priority_bitmap (rank p) ≡ true → Queued q p
    to h =
        let (j, _, below, found) = has_priority→Queued q p q.count 0 (sym bit ∙ h) in
        (j, omega arith, found)

    from : Queued q p → test_bit q.priority_bitmap (rank p) ≡ true
    from h = bit ∙ Queued→has_priority q p q.count 0 h.0 (omega arith) (omega arith) h.2

abbrev highest_check : ℕ → IpcPriority → Bool
highest_check b p =
    let top = rank (highest_of b) in
    b == 0 || (test_bit b top && (not (test_bit b (rank p)) || leb (rank p) top))

highest_table : every (λ b. all_priorities (highest_check b)) 16 ≡ true
unfolding every highest_of
highest_table = refl

bitmap_small : (q : MessageQueue) → IsValid q → q.priority_bitmap < 16
bitmap_small q v = rw v.fresh (add_priorities_lem q low q.count 0 0 (omega arith)).0

highest_lem : (b : ℕ) (p : IpcPriority) → b < 16 → highest_check b p ≡ true
highest_lem b p h = all_priorities_sound (highest_check b) p (every-apply _ 16 b h highest_table)

-- In a valid queue that is not empty, `get_highest_priority` is the priority of a waiting message,
-- and no waiting message has a higher one.
pub get_highest_priority-Queued :
    (q : MessageQueue)
    → IsValid q
    → 0 < q.count
    → Queued q (get_highest_priority q)
      × ((i : ℕ) → i < q.count → rank (entry q i).priority ≤ rank (get_highest_priority q))
unfolding get_highest_priority
get_highest_priority-Queued q v h = ((bitmap_exact q top v).0 (ground (arith, checked top)), above)
  where
    top : IpcPriority
    top = highest_of q.priority_bitmap

    set_bit : (i : ℕ) → i < q.count → test_bit q.priority_bitmap (rank (entry q i).priority) ≡ true
    set_bit i p = (bitmap_exact q (entry q i).priority v).1 (i, p, refl)

    not_zero : (q.priority_bitmap == 0) ≡ false
    not_zero = elim (Bool-cases (q.priority_bitmap == 0)) [
      | inl e ↦
          let zero_map : q.priority_bitmap ≡ 0 = ground arith in
          let first : test_bit 0 (rank (entry q 0).priority) ≡ true =
            ap (λ b. test_bit b (rank (entry q 0).priority)) (sym zero_map) ∙ set_bit 0 h in
          cc (zero_bits (entry q 0).priority {b = false}, first)
      | inr ne ↦ ne
    ]

    checked :
        (p : IpcPriority)
        → (test_bit q.priority_bitmap (rank top)
            && (not (test_bit q.priority_bitmap (rank p)) || leb (rank p) (rank top)))
          ≡ true
    checked p =
        let whole = highest_lem q.priority_bitmap p (bitmap_small q v) in ground (arith, not_zero)

    above : (i : ℕ) → i < q.count → rank (entry q i).priority ≤ rank top
    above i p = ground (arith, checked (entry q i).priority, set_bit i p)
