-- ===== src/Eevdf/Tree.antt =====
-- The red-black tree of the run queue, in kernel/sched/EEVDF.c: the pool of nodes and the
-- rotations. A pointer to a node is its place in the pool. Reading through a null pointer, which
-- the code never tests where a well-formed tree has a node, is a step that changes nothing.
use void_frame.Prelude.{
  ℕ, ◌+◌, Bool, true, false, Option, none, some, List, [], ◌∷◌, ◌==◌, if◌then◌else◌, get_or, set,
}

abbrev pub eevdf_max_processes : ℕ
eevdf_max_processes = 64

pub record RbNode : Type 0 where
  pub left : Option ℕ
  pub right : Option ℕ
  pub parent : Option ℕ
  pub red : Bool
  pub slot : ℕ

-- The pool with its bitmap, and rb_root and rb_leftmost of the run queue.
pub record RbTree : Type 0 where
  pub pool : List RbNode
  pub pool_bitmap : List Bool
  pub root : Option ℕ
  pub leftmost : Option ℕ

abbrev pub free_node : RbNode
free_node = record { left = none; right = none; parent = none; red = false; slot = 0 }

abbrev pub node_at : RbTree → ℕ → RbNode
node_at t i = get_or t.pool i free_node

abbrev pub put_node : RbTree → ℕ → RbNode → RbTree
put_node t i n = record t { pool = set t.pool i n }

abbrev pub set_left : RbTree → ℕ → Option ℕ → RbTree
set_left t i p = put_node t i (record (node_at t i) { left = p })

abbrev pub set_right : RbTree → ℕ → Option ℕ → RbTree
set_right t i p = put_node t i (record (node_at t i) { right = p })

abbrev pub set_parent : RbTree → ℕ → Option ℕ → RbTree
set_parent t i p = put_node t i (record (node_at t i) { parent = p })

abbrev pub set_red : RbTree → ℕ → Bool → RbTree
set_red t i c = put_node t i (record (node_at t i) { red = c })

-- A field written through a pointer that is tested for null first.
abbrev pub set_parent_of : RbTree → Option ℕ → Option ℕ → RbTree
set_parent_of t none p = t
set_parent_of t (some i) p = set_parent t i p

abbrev pub set_red_of : RbTree → Option ℕ → Bool → RbTree
set_red_of t none c = t
set_red_of t (some i) c = set_red t i c

abbrev pub is_red : RbTree → Option ℕ → Bool
is_red t none = false
is_red t (some i) = (node_at t i).red

abbrev pub points_to : Option ℕ → ℕ → Bool
points_to none i = false
points_to (some j) i = j == i

-- The link to `old` in its parent, or the root, is set to `new`; the left link is tested first.
unfoldable pub replace_child : RbTree → Option ℕ → ℕ → Option ℕ → RbTree
replace_child t none old new = record t { root = new }
replace_child t (some p) old new =
    if points_to (node_at t p).left old then set_left t p new else set_right t p new

-- The same with the right link tested first.
unfoldable pub replace_right_child : RbTree → Option ℕ → ℕ → Option ℕ → RbTree
replace_right_child t none old new = record t { root = new }
replace_right_child t (some p) old new =
    if points_to (node_at t p).right old then set_right t p new else set_left t p new

unfoldable pub rotate_left : RbTree → ℕ → RbTree
unfolding replace_child
rotate_left t x = elim ((node_at t x).right) [
  | none ↦ t
  | some y ↦
      let inner = (node_at t y).left in
      let t1 = set_right t x inner in
      let t2 = set_parent_of t1 inner (some x) in
      let t3 = set_parent t2 y (node_at t2 x).parent in
      let t4 = replace_child t3 (node_at t3 x).parent x (some y) in
      let t5 = set_left t4 y (some x) in set_parent t5 x (some y)
]

unfoldable pub rotate_right : RbTree → ℕ → RbTree
unfolding replace_right_child
rotate_right t y = elim ((node_at t y).left) [
  | none ↦ t
  | some x ↦
      let inner = (node_at t x).right in
      let t1 = set_left t y inner in
      let t2 = set_parent_of t1 inner (some y) in
      let t3 = set_parent t2 x (node_at t2 y).parent in
      let t4 = replace_right_child t3 (node_at t3 y).parent y (some x) in
      let t5 = set_right t4 x (some y) in set_parent t5 y (some x)
]

-- EEVDFAllocRBNode: the first free node from the place `i` on.
unfoldable pub find_free_node : List Bool → ℕ → Option ℕ
find_free_node [] i = none
find_free_node (used ∷ bits) i =
    let rest = find_free_node bits (i + 1) in if used then rest else some i

abbrev pub new_node : ℕ → RbNode
new_node slot = record { left = none; right = none; parent = none; red = true; slot = slot }

unfoldable pub alloc_node : RbTree → ℕ → Option ℕ × RbTree
unfolding find_free_node
alloc_node t slot = elim (find_free_node t.pool_bitmap 0) [
  | none ↦ (none, t)
  | some i ↦ (
    some i,
    record t { pool_bitmap = set t.pool_bitmap i true; pool = set t.pool i (new_node slot) },
  )
]

unfoldable pub free_rb_node : RbTree → ℕ → RbTree
free_rb_node t i = record t {
  pool_bitmap = set t.pool_bitmap i false;
  pool = set t.pool i free_node;
}
