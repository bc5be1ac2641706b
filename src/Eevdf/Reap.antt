-- ===== src/Eevdf/Reap.antt =====
-- The slots that EEVDFCleanupTerminatedProcess takes, and one round of its loop.
use void_frame.Prelude.{
  ℕ, zero, suc, ◌<◌, ◌≡◌, inl, inr, refl, ap, subst, ◌∙◌, Bool, true, false, not, ◌&&◌, ◌||◌, List,
  [], ◌∷◌, leb, ltb, ◌==◌, if◌then◌else◌, arith, length, length-set, get_or, get_or-set, Bool-cases,
}
use void_frame.Eevdf.Tree.{eevdf_max_processes}
use void_frame.Eevdf.State.{Scheduler, ProcessControlBlock, no_block, block_at}
use void_frame.Eevdf.Slots.{free_slot, remove_from_termination_queue}
use void_frame.Eevdf.Terminate.{is_zombie, reap, cleanup_loop}
use void_frame.Eevdf.Ring.{
  IsRing, waiting, removed, remove-removed, removed-IsRing, removed-waiting,
}

abbrev pub zombies : Scheduler → ℕ → Bool
zombies s slot = is_zombie (block_at s slot).state

abbrev pub without : (ℕ → Bool) → ℕ → ℕ → Bool
without z slot k = z k && not (k == slot)

-- The slots that are cleaned up, of those that wait, when `z` tells which hold a zombie: the first `left`
-- of them, each once.
unfoldable pub reaped_of : (ℕ → Bool) → ℕ → List ℕ → List ℕ
reaped_of z zero ws = []
reaped_of z (suc left) [] = []
reaped_of z (suc left) (slot ∷ ws) = elim (z slot) [
  | true ↦ slot ∷ reaped_of (without z slot) left ws
  | false ↦ reaped_of z (suc left) ws
]

-- The slots that wait after that.
unfoldable pub rest_of : (ℕ → Bool) → ℕ → List ℕ → List ℕ
rest_of z zero ws = ws
rest_of z (suc left) [] = []
rest_of z (suc left) (slot ∷ ws) = elim (z slot) [
  | true ↦ rest_of (without z slot) left ws
  | false ↦ rest_of z (suc left) ws
]

abbrev pub is_in : ℕ → List ℕ → Bool
is_in k [] = false
is_in k (x ∷ xs) = k == x || is_in k xs

abbrev pub AllBelow : List ℕ → Type 0
AllBelow [] = Unit {0}
AllBelow (x ∷ xs) = (x < eevdf_max_processes) × AllBelow xs

abbrev pub active_bit : Scheduler → ℕ → Bool
active_bit s k = get_or s.active_process_bitmap k false

-- The slots of a table with the sizes that the code gives them.
pub record IsTable (s : Scheduler) : Type 0 where
  pub ring : IsRing s
  pub slots : length s.processes ≡ eevdf_max_processes
  pub bits : length s.active_process_bitmap ≡ eevdf_max_processes
  pub inside : AllBelow (waiting s)

-- The clean-up of the slots `dead`, with `rest` waiting after it.
pub record Cleans (s t : Scheduler) (dead rest : List ℕ) : Type 0 where
  pub ring : IsRing t
  pub waits : waiting t ≡ rest
  pub blocks : (k : ℕ) → block_at t k ≡ (if is_in k dead then no_block else block_at s k)
  pub bits : (k : ℕ) → active_bit t k ≡ (if is_in k dead && ltb 0 k then false else active_bit s k)

-- The slot that waits at the head.
abbrev pub first_slot : Scheduler → ℕ
first_slot s = get_or s.termination_queue s.term_queue_head 0

abbrev pub unless : Bool → Scheduler → Scheduler → Scheduler
unless b s t = elim b [ true ↦ s | false ↦ t ]

-- A round of the loop, given what was removed from the queue.
unfoldable pub round : ℕ → ℕ → ℕ × Scheduler → Scheduler
unfolding cleanup_loop reap
round n left r = elim (leb eevdf_max_processes r.0) [
  | true ↦ r.1
  | false ↦ elim (zombies r.1 r.0) [
    | true ↦ cleanup_loop n (reap r.1 r.0) left
    | false ↦ cleanup_loop n r.1 (suc left)
  ]
]

pub cleanup_step :
    (s : Scheduler) (m n left : ℕ)
    → IsRing s
    → s.term_queue_count ≡ suc n
    → cleanup_loop (suc m) s (suc left) ≡ round m left (first_slot s, removed s n)
unfolding cleanup_loop round
cleanup_step s m n left r e =
    let busy : (s.term_queue_count == 0) ≡ false = ground arith in
    start
    ∙ ap (λ b. unless b s (round m left (remove_from_termination_queue s))) busy
    ∙ ap (round m left) (remove-removed s n r e)
  where
    start :
        cleanup_loop (suc m) s (suc left)
        ≡ unless (s.term_queue_count == 0) s (round m left (remove_from_termination_queue s))
    start = refl

pub reap-block :
    (s : Scheduler) (x k : ℕ)
    → length s.processes ≡ eevdf_max_processes
    → x < eevdf_max_processes
    → block_at (reap s x) k ≡ (if k == x then no_block else block_at s k)
unfolding reap free_slot
reap-block s x k l h = elim (Bool-cases (ltb 0 x && ltb x 64)) [
  | inl e ↦ rw e (get_or-set s.processes x k no_block no_block (omega (arith, l, h)))
  | inr e ↦ rw e (get_or-set s.processes x k no_block no_block (omega (arith, l, h)))
]

pub same_bit :
    (x k : ℕ) (b : Bool)
    → (ltb 0 x && ltb x 64) ≡ true
    → (if k == x then false else b) ≡ (if k == x && ltb 0 k then false else b)
same_bit x k b e = ground arith

pub kept_bit :
    (x k : ℕ) (b : Bool)
    → x < eevdf_max_processes
    → (ltb 0 x && ltb x 64) ≡ false
    → b ≡ (if k == x && ltb 0 k then false else b)
kept_bit x k b h e = ground arith

pub reap-bit :
    (s : Scheduler) (x k : ℕ)
    → length s.active_process_bitmap ≡ eevdf_max_processes
    → x < eevdf_max_processes
    → active_bit (reap s x) k ≡ (if k == x && ltb 0 k then false else active_bit s k)
unfolding reap free_slot
reap-bit s x k l h = elim (Bool-cases (ltb 0 x && ltb x 64)) [
  | inl e ↦ rw e (
      get_or-set s.active_process_bitmap x k false false (omega (arith, l, h))
      ∙ same_bit x k (active_bit s k) e)
  | inr e ↦ rw e (kept_bit x k (active_bit s k) h e)
]

pub reap-IsTable :
    (s : Scheduler) (x : ℕ)
    → IsTable s
    → IsTable (reap s x)
      × (waiting (reap s x) ≡ waiting s)
      × ((reap s x).term_queue_count ≡ s.term_queue_count)
unfolding reap free_slot
reap-IsTable s x w =
    let r = w.ring in
    elim (Bool-cases (ltb 0 x && ltb x 64)) [
      | inl e ↦ rw e (
        record {
          ring = record { places = r.places; head = r.head; count = r.count; tail = r.tail };
          slots = length-set s.processes x no_block ∙ w.slots;
          bits = length-set s.active_process_bitmap x false ∙ w.bits;
          inside = w.inside;
        },
        refl,
        refl,
      )
      | inr e ↦ rw e (
        record {
          ring = record { places = r.places; head = r.head; count = r.count; tail = r.tail };
          slots = length-set s.processes x no_block ∙ w.slots;
          bits = w.bits;
          inside = w.inside;
        },
        refl,
        refl,
      )
    ]

pub removed-IsTable :
    (s : Scheduler) (n : ℕ)
    → IsTable s
    → s.term_queue_count ≡ suc n
    → IsTable (removed s n) × (first_slot s < eevdf_max_processes)
removed-IsTable s n w e =
    let below = subst AllBelow (removed-waiting s n w.ring e) w.inside in
    (
      record {
        ring = removed-IsRing s n w.ring e;
        slots = w.slots;
        bits = w.bits;
        inside = below.1;
      },
      below.0,
    )

pub reap-zombies :
    (s : Scheduler) (x k : ℕ)
    → length s.processes ≡ eevdf_max_processes
    → x < eevdf_max_processes
    → zombies (reap s x) k ≡ without (zombies s) x k
reap-zombies s x k l h =
    ap (λ p. is_zombie p.state) (reap-block s x k l h) ∙ erased (k == x) (block_at s k)
  where
    erased :
        (b : Bool) (p : ProcessControlBlock)
        → is_zombie (if b then no_block else p).state ≡ (is_zombie p.state && not b)
    erased true p = ground arith
    erased false p = ground arith

pub keeps : (s : Scheduler) → IsTable s → Cleans s s [] (waiting s)
keeps s w = record { ring = w.ring; waits = refl; blocks = λ k. refl; bits = λ k. refl }

-- A slot that is cleaned up before others.
pub Cleans-reap :
    (s u : Scheduler) (x : ℕ) (dead rest : List ℕ)
    → IsTable s
    → x < eevdf_max_processes
    → Cleans (reap s x) u dead rest
    → Cleans s u (x ∷ dead) rest
Cleans-reap s u x dead rest w h c = record {
  ring = c.ring;
  waits = c.waits;
  blocks = λ k.
      c.blocks k
      ∙ ap (λ p. if is_in k dead then no_block else p) (reap-block s x k w.slots h)
      ∙ nested (k == x) (is_in k dead) no_block (block_at s k);
  bits = λ k.
      c.bits k
      ∙ ap (λ p. if is_in k dead && ltb 0 k then false else p) (reap-bit s x k w.bits h)
      ∙ nested_bit (k == x) (is_in k dead) (ltb 0 k) (active_bit s k);
}
  where
    nested :
        (a b : Bool) (p q : ProcessControlBlock)
        → (if b then p else (if a then p else q)) ≡ (if a || b then p else q)
    nested true true p q = refl
    nested true false p q = refl
    nested false true p q = refl
    nested false false p q = refl

    nested_bit :
        (a b c p : Bool)
        → (if b && c then false else (if a && c then false else p))
          ≡ (if (a || b) && c then false else p)
    nested_bit a b c p = ground arith

-- A change of the queue alone.
pub Cleans-removed :
    (s u : Scheduler) (n : ℕ) (dead rest : List ℕ)
    → Cleans (removed s n) u dead rest
    → Cleans s u dead rest
Cleans-removed s u n dead rest c = record {
  ring = c.ring;
  waits = c.waits;
  blocks = c.blocks;
  bits = c.bits;
}

pub round-dead :
    (n left x : ℕ) (t : Scheduler)
    → x < eevdf_max_processes
    → zombies t x ≡ true
    → round n left (x, t) ≡ cleanup_loop n (reap t x) left
unfolding round cleanup_loop
round-dead n left x t h e =
    let inside : leb eevdf_max_processes x ≡ false = ground arith in rw (inside, e, round) refl

pub round-alive :
    (n left x : ℕ) (t : Scheduler)
    → x < eevdf_max_processes
    → zombies t x ≡ false
    → round n left (x, t) ≡ cleanup_loop n t (suc left)
unfolding round cleanup_loop
round-alive n left x t h e =
    let inside : leb eevdf_max_processes x ≡ false = ground arith in rw (inside, e, round) refl

pub reaped-dead :
    (z : ℕ → Bool) (left x : ℕ) (ws : List ℕ)
    → z x ≡ true
    → (reaped_of z (suc left) (x ∷ ws) ≡ x ∷ reaped_of (without z x) left ws)
      × (rest_of z (suc left) (x ∷ ws) ≡ rest_of (without z x) left ws)
unfolding reaped_of rest_of
reaped-dead z left x ws e = (rw (e, reaped_of) refl, rw (e, rest_of) refl)

pub reaped-alive :
    (z : ℕ → Bool) (left x : ℕ) (ws : List ℕ)
    → z x ≡ false
    → (reaped_of z (suc left) (x ∷ ws) ≡ reaped_of z (suc left) ws)
      × (rest_of z (suc left) (x ∷ ws) ≡ rest_of z (suc left) ws)
unfolding reaped_of rest_of
reaped-alive z left x ws e = (rw (e, reaped_of) refl, rw (e, rest_of) refl)
