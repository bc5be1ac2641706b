-- ===== src/Eevdf/PoolDelete.antt =====
-- The nodes of the tree keep the slots of processes through its removals too.
use void_frame.Prelude.{
  ℕ, zero, suc, refl, Bool, true, false, ◌||◌, Option, none, some, inl, inr, if◌then◌else◌,
  Bool-cases, Option-cases,
}
use void_frame.Eevdf.Tree.{RbTree, eevdf_max_processes, node_at, set_red_of, is_red, points_to}
use void_frame.Eevdf.Delete.{
  Unlinked, move_leftmost, unlink_one, detach, unlink_two, unlink, rb_first, near, far,
  rotate_towards, rotate_away, red_sibling, turn_sibling, last_rotation, both_black, same_pointer,
  delete_fixup_loop, delete_fixup, rb_delete,
}
use void_frame.Eevdf.Pool.{
  IsPool, IsPool-put, pool_parent_of, pool_red_of, replace_child-IsPool, rotate_left-IsPool,
  rotate_right-IsPool, free_rb_node-IsPool,
}

move_leftmost-IsPool : (t : RbTree) (i : ℕ) → IsPool t.pool → IsPool (move_leftmost t i).pool
unfolding move_leftmost
move_leftmost-IsPool t i h = elim (Bool-cases (points_to t.leftmost i)) [
  | inl e ↦ rw e h
  | inr e ↦ rw e h
]

unlink_one-IsPool :
    (t : RbTree) (i : ℕ) (x : Option ℕ) → IsPool t.pool → IsPool (unlink_one t i x).tree.pool
unfolding unlink_one
unlink_one-IsPool t i x h = pool_parent_of _ x _ (replace_child-IsPool t _ i x h)

detach-IsPool : (t : RbTree) (i y : ℕ) → IsPool t.pool → IsPool (detach t i y).pool
unfolding detach
detach-IsPool t i y h = elim (Option-cases (node_at t y).parent) [
  | inl e ↦ rw (e, detach) h
  | inr (p, e) ↦
      rw (e, detach)
        (pool_parent_of _ _ (some y) (
          IsPool-put _ _ (IsPool-put _ _ (pool_parent_of t (node_at t y).right (some p) h) refl)
            refl))
]

unlink_two-IsPool : (t : RbTree) (i r : ℕ) → IsPool t.pool → IsPool (unlink_two t i r).tree.pool
unfolding unlink_two
unlink_two-IsPool t i r h =
    let y = rb_first eevdf_max_processes t r in
    pool_parent_of _ _ (some y) (
      IsPool-put _ _
        (IsPool-put _ _
          (IsPool-put _ _
            (replace_child-IsPool _ _ i (some y) (first y (points_to (node_at t y).parent i))) refl)
          refl)
        refl)
  where
    first : (y : ℕ) (b : Bool) → IsPool (if b then t else detach t i y).pool
    first y true = h
    first y false = detach-IsPool t i y h

unlink-IsPool : (t : RbTree) (i : ℕ) → IsPool t.pool → IsPool (unlink t i).tree.pool
unfolding unlink
unlink-IsPool t i h = elim (Option-cases (node_at t i).left) [
  | inl e ↦ rw (e, unlink) (unlink_one-IsPool t i (node_at t i).right h)
  | inr (l, e) ↦ elim (Option-cases (node_at t i).right) [
    | inl f ↦ rw (e, f, unlink) (unlink_one-IsPool t i (some l) h)
    | inr (r, f) ↦ rw (e, f, unlink) (unlink_two-IsPool t i r h)
  ]
]

rotate_towards-IsPool :
    (side : Bool) (t : RbTree) (i : ℕ) → IsPool t.pool → IsPool (rotate_towards side t i).pool
unfolding rotate_towards
rotate_towards-IsPool true t i h = rotate_left-IsPool t i h
rotate_towards-IsPool false t i h = rotate_right-IsPool t i h

rotate_away-IsPool :
    (side : Bool) (t : RbTree) (i : ℕ) → IsPool t.pool → IsPool (rotate_away side t i).pool
unfolding rotate_away
rotate_away-IsPool true t i h = rotate_right-IsPool t i h
rotate_away-IsPool false t i h = rotate_left-IsPool t i h

red_sibling-IsPool :
    (side : Bool) (t : RbTree) (p : ℕ) → IsPool t.pool → IsPool (red_sibling side t p).pool
unfolding red_sibling
red_sibling-IsPool side t p h = elim (Option-cases (far side t p)) [
  | inl e ↦ rw (e, red_sibling) h
  | inr (w, e) ↦ elim (Bool-cases (node_at t w).red) [
    | inl f ↦
        rw (e, f, red_sibling)
          (rotate_towards-IsPool side _ p (IsPool-put _ _ (IsPool-put _ _ h refl) refl))
    | inr f ↦ rw (e, f, red_sibling) h
  ]
]

turn_sibling-IsPool :
    (side : Bool) (t : RbTree) (p : ℕ) → IsPool t.pool → IsPool (turn_sibling side t p).pool
unfolding turn_sibling
turn_sibling-IsPool side t p h = elim (Option-cases (far side t p)) [
  | inl e ↦ rw (e, turn_sibling) h
  | inr (w, e) ↦ elim (Bool-cases (is_red t (far side t w))) [
    | inl f ↦ rw (e, f, turn_sibling) h
    | inr f ↦
        rw (e, f, turn_sibling)
          (rotate_away-IsPool side _ w
            (IsPool-put _ _ (pool_red_of t (near side t w) false h) refl))
  ]
]

last_rotation-IsPool :
    (side : Bool) (t : RbTree) (p : ℕ) → IsPool t.pool → IsPool (last_rotation side t p).pool
unfolding last_rotation
last_rotation-IsPool side t p h = elim (Option-cases (far side t p)) [
  | inl e ↦ rw (e, last_rotation) (rotate_towards-IsPool side t p h)
  | inr (w, e) ↦
      rw (e, last_rotation)
        (rotate_towards-IsPool side _ p
          (pool_red_of _ _ false (IsPool-put _ _ (IsPool-put _ _ h refl) refl)))
]

delete_fixup_loop-IsPool :
    (fuel : ℕ) (t : RbTree) (x parent : Option ℕ)
    → IsPool t.pool
    → IsPool (delete_fixup_loop fuel t x parent).0.pool
unfolding delete_fixup_loop
delete_fixup_loop-IsPool zero t x parent h = h
delete_fixup_loop-IsPool (suc fuel) t x none h = h
delete_fixup_loop-IsPool (suc fuel) t x (some p) h =
    elim (Bool-cases (same_pointer x t.root || is_red t x)) [
      | inl e ↦ rw (e, delete_fixup_loop) h
      | inr e ↦
          let side = same_pointer x (node_at t p).left in
          let t1 = red_sibling side t p in
          let h1 = red_sibling-IsPool side t p h in
          elim (Bool-cases (both_black t1 (far side t1 p))) [
            | inl f ↦
                let t2 = set_red_of t1 (far side t1 p) true in
                rw (e, f, delete_fixup_loop)
                  (delete_fixup_loop-IsPool fuel t2 (some p) (node_at t2 p).parent
                    (pool_red_of t1 (far side t1 p) true h1))
            | inr f ↦
                rw (e, f, delete_fixup_loop)
                  (last_rotation-IsPool side (turn_sibling side t1 p) p
                    (turn_sibling-IsPool side t1 p h1))
          ]
    ]

delete_fixup-IsPool :
    (t : RbTree) (x parent : Option ℕ) → IsPool t.pool → IsPool (delete_fixup t x parent).pool
unfolding delete_fixup
delete_fixup-IsPool t x parent h =
    pool_red_of _ _ false (delete_fixup_loop-IsPool (suc eevdf_max_processes) t x parent h)

pub rb_delete-IsPool : (t : RbTree) (i : ℕ) → IsPool t.pool → IsPool (rb_delete t i).pool
unfolding rb_delete
rb_delete-IsPool t i h =
    let u = unlink (move_leftmost t i) i in
    let k = unlink-IsPool (move_leftmost t i) i (move_leftmost-IsPool t i h) in
    let t' = if u.was_black then delete_fixup u.tree u.child u.above else u.tree in
    free_rb_node-IsPool t' i (fixed u k u.was_black)
  where
    fixed :
        (u : Unlinked)
        → IsPool u.tree.pool
        → (b : Bool) → IsPool (if b then delete_fixup u.tree u.child u.above else u.tree).pool
    fixed u k true = delete_fixup-IsPool u.tree u.child u.above k
    fixed u k false = k
