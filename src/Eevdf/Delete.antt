-- ===== src/Eevdf/Delete.antt =====
-- Removal from the red-black tree of the run queue, in kernel/sched/EEVDF.c.
use void_frame.Prelude.{
  ℕ, zero, suc, Bool, true, false, not, ◌&&◌, ◌||◌, Option, none, some, if◌then◌else◌,
}
use void_frame.Eevdf.Tree.{
  RbTree, eevdf_max_processes, node_at, set_left, set_right, set_parent, set_parent_of, set_red,
  set_red_of, is_red, points_to, replace_child, rotate_left, rotate_right, free_rb_node,
}

-- EEVDFRBFirst from a node on.
unfoldable pub rb_first : ℕ → RbTree → ℕ → ℕ
rb_first zero t i = i
rb_first (suc fuel) t i = elim ((node_at t i).left) [ none ↦ i | some j ↦ rb_first fuel t j ]

-- The first node above `i` that has it on its left.
unfoldable pub climb : ℕ → RbTree → ℕ → Option ℕ
climb zero t i = none
climb (suc fuel) t i = elim ((node_at t i).parent) [
  | none ↦ none
  | some p ↦ let rest = climb fuel t p in if points_to (node_at t p).right i then rest else some p
]

unfoldable pub move_leftmost : RbTree → ℕ → RbTree
unfolding rb_first climb
move_leftmost t i =
    let next : Option ℕ = elim ((node_at t i).right) [
      | none ↦ climb eevdf_max_processes t i
      | some r ↦ some (rb_first eevdf_max_processes t r)
    ] in
    if points_to t.leftmost i then record t { leftmost = next } else t

-- What the fixup starts from: the tree, the child that moved up, its parent, and whether the node
-- that left its place was black.
pub record Unlinked : Type 0 where
  pub tree : RbTree
  pub child : Option ℕ
  pub above : Option ℕ
  pub was_black : Bool

unfoldable pub unlink_one : RbTree → ℕ → Option ℕ → Unlinked
unfolding replace_child
unlink_one t i x =
    let n = node_at t i in
    record {
      tree = set_parent_of (replace_child t n.parent i x) x n.parent;
      child = x;
      above = n.parent;
      was_black = not n.red;
    }

-- The successor `y` leaves its place, when that is not right under the node `i`.
unfoldable pub detach : RbTree → ℕ → ℕ → RbTree
detach t i y =
    let n = node_at t y in
    elim (n.parent) [
      | none ↦ t
      | some p ↦
          let t1 = set_left (set_parent_of t n.right (some p)) p n.right in
          let t2 = set_right t1 y (node_at t1 i).right in
          set_parent_of t2 (node_at t2 y).right (some y)
    ]

unfoldable pub unlink_two : RbTree → ℕ → ℕ → Unlinked
unfolding rb_first detach replace_child
unlink_two t i r =
    let y = rb_first eevdf_max_processes t r in
    let n = node_at t y in
    let direct = points_to n.parent i in
    let t1 = if direct then t else detach t i y in
    let t2 = replace_child t1 (node_at t1 i).parent i (some y) in
    let t3 = set_red (set_parent t2 y (node_at t2 i).parent) y (node_at t2 i).red in
    let t4 = set_left t3 y (node_at t3 i).left in
    record {
      tree = set_parent_of t4 (node_at t4 y).left (some y);
      child = n.right;
      above = if direct then some y else (node_at t1 y).parent;
      was_black = not n.red;
    }

unfoldable pub unlink : RbTree → ℕ → Unlinked
unfolding unlink_one unlink_two
unlink t i = elim ((node_at t i).left) [
  | none ↦ unlink_one t i (node_at t i).right
  | some l ↦ elim ((node_at t i).right) [
    | none ↦ unlink_one t i (some l)
    | some r ↦ unlink_two t i r
  ]
]

-- The left and the right side of the fixup are mirror images: the fields of a node and the
-- rotations are chosen by the side that the child is on.
abbrev pub near : Bool → RbTree → ℕ → Option ℕ
near true t i = (node_at t i).left
near false t i = (node_at t i).right

abbrev pub far : Bool → RbTree → ℕ → Option ℕ
far true t i = (node_at t i).right
far false t i = (node_at t i).left

unfoldable pub rotate_towards : Bool → RbTree → ℕ → RbTree
unfolding rotate_left rotate_right
rotate_towards true t i = rotate_left t i
rotate_towards false t i = rotate_right t i

unfoldable pub rotate_away : Bool → RbTree → ℕ → RbTree
unfolding rotate_left rotate_right
rotate_away true t i = rotate_right t i
rotate_away false t i = rotate_left t i

unfoldable pub red_sibling : Bool → RbTree → ℕ → RbTree
unfolding rotate_towards
red_sibling side t p = elim (far side t p) [
  | none ↦ t
  | some w ↦
      if (node_at t w).red then rotate_towards side (set_red (set_red t w false) p true) p else t
]

unfoldable pub turn_sibling : Bool → RbTree → ℕ → RbTree
unfolding rotate_away
turn_sibling side t p = elim (far side t p) [
  | none ↦ t
  | some w ↦
      if is_red t (far side t w)
      then t
      else rotate_away side (set_red (set_red_of t (near side t w) false) w true) w
]

unfoldable pub last_rotation : Bool → RbTree → ℕ → RbTree
unfolding rotate_towards
last_rotation side t p =
    let coloured : RbTree = elim (far side t p) [
      | none ↦ t
      | some w ↦
          let t1 = set_red (set_red t w (node_at t p).red) p false in
          set_red_of t1 (far side t1 w) false
    ] in
    rotate_towards side coloured p

abbrev pub both_black : RbTree → Option ℕ → Bool
both_black t none = false
both_black t (some w) = not (is_red t (node_at t w).left) && not (is_red t (node_at t w).right)

abbrev pub same_pointer : Option ℕ → Option ℕ → Bool
same_pointer none none = true
same_pointer none (some j) = false
same_pointer (some i) q = points_to q i

-- EEVDFRBDeleteFixup before its last line: the tree and `x`.
unfoldable pub delete_fixup_loop : ℕ → RbTree → Option ℕ → Option ℕ → RbTree × Option ℕ
unfolding red_sibling turn_sibling last_rotation
delete_fixup_loop zero t x parent = (t, x)
delete_fixup_loop (suc fuel) t x none = (t, x)
delete_fixup_loop (suc fuel) t x (some p) = elim (same_pointer x t.root || is_red t x) [
  | true ↦ (t, x)
  | false ↦
      let side = same_pointer x (node_at t p).left in
      let t1 = red_sibling side t p in
      let w = far side t1 p in
      elim (both_black t1 w) [
        | true ↦
            let t2 = set_red_of t1 w true in
            delete_fixup_loop fuel t2 (some p) (node_at t2 p).parent
        | false ↦ let t3 = last_rotation side (turn_sibling side t1 p) p in (t3, t3.root)
      ]
]

unfoldable pub delete_fixup : RbTree → Option ℕ → Option ℕ → RbTree
unfolding delete_fixup_loop
delete_fixup t x parent =
    let (u, y) = delete_fixup_loop (suc eevdf_max_processes) t x parent in set_red_of u y false

-- EEVDFRBDelete of the node `i`.
unfoldable pub rb_delete : RbTree → ℕ → RbTree
unfolding move_leftmost unlink delete_fixup free_rb_node
rb_delete t i =
    let u = unlink (move_leftmost t i) i in
    let fixed = if u.was_black then delete_fixup u.tree u.child u.above else u.tree in
    free_rb_node fixed i
