-- ===== src/Eevdf/Pool.antt =====
-- The nodes of the run queue's tree keep the slots of processes through every operation on it.
use void_frame.Prelude.{
  ℕ, zero, suc, ◌<◌, ◌≡◌, refl, sym, subst, ◌∙◌, Bool, true, false, Option, none, some, List, [],
  ◌∷◌, inl, inr, ◌⊎◌, arith, length, length-set, get_or, set, if◌then◌else◌, Bool-cases,
  Option-cases,
}
use void_frame.Eevdf.Tree.{
  RbNode, RbTree, eevdf_max_processes, free_node, node_at, set_left, set_right, set_parent,
  set_parent_of, set_red_of, is_red, points_to, replace_child, replace_right_child, rotate_left,
  rotate_right, new_node, find_free_node, alloc_node, free_rb_node,
}
use void_frame.Eevdf.Insert.{
  Place, rotate_up_left, rotate_up_right, recolour, insert_fixup_loop, insert_fixup, link_node,
  find_place, rb_insert,
}

-- A pool of the right size whose nodes have slots of the process table.
pub record IsPool (ps : List RbNode) : Type 0 where
  pub size : length ps ≡ eevdf_max_processes
  pub slots : (k : ℕ) → (get_or ps k free_node).slot < eevdf_max_processes

slot-set :
    (ps : List RbNode) (i k : ℕ) (n : RbNode)
    → ((j : ℕ) → (get_or ps j free_node).slot < eevdf_max_processes)
    → n.slot < eevdf_max_processes
    → (get_or (set ps i n) k free_node).slot < eevdf_max_processes
slot-set [] i k n h e = h k
slot-set (p ∷ ps) zero zero n h e = e
slot-set (p ∷ ps) zero (suc k) n h e = h (suc k)
slot-set (p ∷ ps) (suc i) zero n h e = h 0
slot-set (p ∷ ps) (suc i) (suc k) n h e = slot-set ps i k n (λ j. h (suc j)) e

pub IsPool-new :
    {ps : List RbNode} (i : ℕ) (n : RbNode)
    → IsPool ps
    → n.slot < eevdf_max_processes
    → IsPool (set ps i n)
IsPool-new {ps = ps} i n h e = record {
  size = length-set ps i n ∙ h.size;
  slots = λ k. slot-set ps i k n h.slots e;
}

-- A node that keeps its slot.
pub IsPool-put :
    {ps : List RbNode} (i : ℕ) (n : RbNode)
    → IsPool ps
    → n.slot ≡ (get_or ps i free_node).slot
    → IsPool (set ps i n)
IsPool-put {ps = ps} i n h e =
    IsPool-new i n h (subst (λ k. k < eevdf_max_processes) (sym e) (h.slots i))

pub pool_parent_of :
    (t : RbTree) (o p : Option ℕ) → IsPool t.pool → IsPool (set_parent_of t o p).pool
pool_parent_of t none p h = h
pool_parent_of t (some i) p h = IsPool-put _ _ h refl

pub pool_red_of :
    (t : RbTree) (o : Option ℕ) (c : Bool) → IsPool t.pool → IsPool (set_red_of t o c).pool
pool_red_of t none c h = h
pool_red_of t (some i) c h = IsPool-put _ _ h refl

pub replace_child-IsPool :
    (t : RbTree) (o : Option ℕ) (old : ℕ) (new : Option ℕ)
    → IsPool t.pool
    → IsPool (replace_child t o old new).pool
unfolding replace_child
replace_child-IsPool t none old new h = h
replace_child-IsPool t (some p) old new h = elim (Bool-cases (points_to (node_at t p).left old)) [
  | inl e ↦ rw e (IsPool-put _ _ h refl)
  | inr e ↦ rw e (IsPool-put _ _ h refl)
]

replace_right_child-IsPool :
    (t : RbTree) (o : Option ℕ) (old : ℕ) (new : Option ℕ)
    → IsPool t.pool
    → IsPool (replace_right_child t o old new).pool
unfolding replace_right_child
replace_right_child-IsPool t none old new h = h
replace_right_child-IsPool t (some p) old new h =
    elim (Bool-cases (points_to (node_at t p).right old)) [
      | inl e ↦ rw e (IsPool-put _ _ h refl)
      | inr e ↦ rw e (IsPool-put _ _ h refl)
    ]

pub rotate_left-IsPool : (t : RbTree) (x : ℕ) → IsPool t.pool → IsPool (rotate_left t x).pool
unfolding rotate_left
rotate_left-IsPool t x h = elim (Option-cases (node_at t x).right) [
  | inl e ↦ rw (e, rotate_left) h
  | inr (y, e) ↦
      rw (e, rotate_left)
        (IsPool-put _ _
          (IsPool-put _ _
            (replace_child-IsPool _ _ x (some y) (
              IsPool-put _ _ (pool_parent_of _ (node_at t y).left (some x) (IsPool-put _ _ h refl))
                refl))
            refl)
          refl)
]

pub rotate_right-IsPool : (t : RbTree) (y : ℕ) → IsPool t.pool → IsPool (rotate_right t y).pool
unfolding rotate_right
rotate_right-IsPool t y h = elim (Option-cases (node_at t y).left) [
  | inl e ↦ rw (e, rotate_right) h
  | inr (x, e) ↦
      rw (e, rotate_right)
        (IsPool-put _ _
          (IsPool-put _ _
            (replace_right_child-IsPool _ _ y (some x) (
              IsPool-put _ _ (pool_parent_of _ (node_at t x).right (some y) (IsPool-put _ _ h refl))
                refl))
            refl)
          refl)
]

rotate_up_left-IsPool :
    (t : RbTree) (z p g : ℕ) → IsPool t.pool → IsPool (rotate_up_left t z p g).1.pool
unfolding rotate_up_left
rotate_up_left-IsPool t z p g h = elim (Bool-cases (points_to (node_at t p).right z)) [
  | inl e ↦ rw e (
      rotate_right-IsPool _ g
        (IsPool-put _ _ (IsPool-put _ _ (rotate_left-IsPool t p h) refl) refl))
  | inr e ↦ rw e (rotate_right-IsPool _ g (IsPool-put _ _ (IsPool-put _ _ h refl) refl))
]

rotate_up_right-IsPool :
    (t : RbTree) (z p g : ℕ) → IsPool t.pool → IsPool (rotate_up_right t z p g).1.pool
unfolding rotate_up_right
rotate_up_right-IsPool t z p g h = elim (Bool-cases (points_to (node_at t p).left z)) [
  | inl e ↦ rw e (
      rotate_left-IsPool _ g
        (IsPool-put _ _ (IsPool-put _ _ (rotate_right-IsPool t p h) refl) refl))
  | inr e ↦ rw e (rotate_left-IsPool _ g (IsPool-put _ _ (IsPool-put _ _ h refl) refl))
]

recolour-IsPool :
    (t : RbTree) (p : ℕ) (u : Option ℕ) (g : ℕ) → IsPool t.pool → IsPool (recolour t p u g).pool
unfolding recolour
recolour-IsPool t p u g h = IsPool-put _ _ (pool_red_of _ u false (IsPool-put _ _ h refl)) refl

pool_if :
    (b : Bool) (r q : ℕ × RbTree)
    → IsPool r.1.pool
    → IsPool q.1.pool
    → IsPool (if b then r else q).1.pool
pool_if true r q h k = h
pool_if false r q h k = k

insert_fixup_loop-IsPool :
    (fuel : ℕ) (t : RbTree) (z : ℕ) → IsPool t.pool → IsPool (insert_fixup_loop fuel t z).pool
unfolding insert_fixup_loop
insert_fixup_loop-IsPool zero t z h = h
insert_fixup_loop-IsPool (suc fuel) t z h = elim (Option-cases (node_at t z).parent) [
  | inl e ↦ rw (e, insert_fixup_loop) h
  | inr (p, e) ↦ elim (Bool-cases (node_at t p).red) [
    | inr black ↦ rw (e, black, insert_fixup_loop) h
    | inl red ↦ elim (Option-cases (node_at t p).parent) [
      | inl e' ↦ rw (e, red, e', insert_fixup_loop) h
      | inr (g, e') ↦
          let side = points_to (node_at t g).left p in
          let uncle = if side then (node_at t g).right else (node_at t g).left in
          let turned = if side then rotate_up_left t z p g else rotate_up_right t z p g in
          let next : ℕ × RbTree = if is_red t uncle then (g, recolour t p uncle g) else turned in
          rw (e, red, e', insert_fixup_loop)
            (insert_fixup_loop-IsPool fuel next.1 next.0 (
              pool_if (is_red t uncle) (g, recolour t p uncle g) turned
                (recolour-IsPool t p uncle g h)
                (pool_if side (rotate_up_left t z p g) (rotate_up_right t z p g)
                  (rotate_up_left-IsPool t z p g h) (rotate_up_right-IsPool t z p g h))))
    ]
  ]
]

insert_fixup-IsPool : (t : RbTree) (z : ℕ) → IsPool t.pool → IsPool (insert_fixup t z).pool
unfolding insert_fixup
insert_fixup-IsPool t z h =
    pool_red_of _ _ false (insert_fixup_loop-IsPool (suc eevdf_max_processes) t z h)

-- The node under its new parent.
abbrev hung : RbTree → ℕ → Place → RbTree
hung u i place = elim (place.under) [
  | none ↦ record (set_parent u i place.under) { root = some i }
  | some p ↦
      if place.on_left
      then set_left (set_parent u i place.under) p (some i)
      else set_right (set_parent u i place.under) p (some i)
]

hung-IsPool : (u : RbTree) (i : ℕ) (place : Place) → IsPool u.pool → IsPool (hung u i place).pool
hung-IsPool u i place k = elim (Option-cases place.under) [
  | inl e ↦ rw (e, hung) (IsPool-put _ _ k refl)
  | inr (p, e) ↦ elim (Bool-cases place.on_left) [
    | inl f ↦ rw (e, f, hung) (IsPool-put _ _ (IsPool-put _ _ k refl) refl)
    | inr f ↦ rw (e, f, hung) (IsPool-put _ _ (IsPool-put _ _ k refl) refl)
  ]
]

link_node-IsPool :
    (t : RbTree) (i : ℕ) (place : Place) → IsPool t.pool → IsPool (link_node t i place).pool
unfolding link_node
link_node-IsPool t i place h =
    hung-IsPool (if place.is_leftmost then record t { leftmost = some i } else t) i place
      (either place.is_leftmost)
  where
    either : (b : Bool) → IsPool (if b then record t { leftmost = some i } else t).pool
    either true = h
    either false = h

abbrev allocated : RbTree → ℕ → ℕ → RbTree
allocated t slot i = record t {
  pool_bitmap = set t.pool_bitmap i true;
  pool = set t.pool i (new_node slot);
}

alloc-cases :
    (t : RbTree) (slot : ℕ)
    → (alloc_node t slot ≡ (none, t))
      ⊎ ((i : ℕ) × (alloc_node t slot ≡ (some i, allocated t slot i)))
unfolding alloc_node
alloc-cases t slot = elim (Option-cases (find_free_node t.pool_bitmap 0)) [
  | inl e ↦ inl (rw (e, alloc_node) refl)
  | inr (i, e) ↦ inr (i, rw (e, alloc_node) refl)
]

-- The rest of the insertion, given what the allocation returned.
abbrev placed : (ℕ → ℕ) → ℕ → Option ℕ × RbTree → Option ℕ × RbTree
placed v slot r = elim (r.0) [
  | none ↦ (none, r.1)
  | some i ↦
      let start : Place = record { under = none; on_left = true; is_leftmost = true } in
      let place = find_place eevdf_max_processes r.1 v (v slot) (r.1).root start in
      (some i, insert_fixup (link_node r.1 i place) i)
]

pub rb_insert-IsPool :
    (t : RbTree) (v : ℕ → ℕ) (slot : ℕ)
    → slot < eevdf_max_processes
    → IsPool t.pool
    → IsPool (rb_insert t v slot).1.pool
unfolding rb_insert
rb_insert-IsPool t v slot s h = elim (alloc-cases t slot) [
  | inl e ↦ subst (λ r. IsPool (placed v slot r).1.pool) (sym e) h
  | inr (i, e) ↦
      subst (λ r. IsPool (placed v slot r).1.pool) (sym e)
        (insert_fixup-IsPool _ i
          (link_node-IsPool (allocated t slot i) i _ (IsPool-new i (new_node slot) h s)))
]

pub free_rb_node-IsPool : (t : RbTree) (i : ℕ) → IsPool t.pool → IsPool (free_rb_node t i).pool
unfolding free_rb_node
free_rb_node-IsPool t i h = IsPool-new i free_node h (omega arith)
