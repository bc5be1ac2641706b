-- ===== src/Eevdf/Insert.antt =====
-- Insertion into the red-black tree of the run queue, in kernel/sched/EEVDF.c.
use void_frame.Prelude.{
  ℕ, zero, suc, Bool, true, false, not, Option, none, some, ltb, if◌then◌else◌,
}
use void_frame.Eevdf.Tree.{
  RbTree, eevdf_max_processes, node_at, set_left, set_right, set_parent, set_red, set_red_of,
  is_red, points_to, rotate_left, rotate_right, alloc_node,
}

-- The end of a round of EEVDFRBInsertFixup under a black uncle: `z` is an inner child first, its
-- parent is rotated, and then the grandparent.
unfoldable pub rotate_up_left : RbTree → ℕ → ℕ → ℕ → ℕ × RbTree
unfolding rotate_left rotate_right
rotate_up_left t z p g =
    let inner = points_to (node_at t p).right z in
    let t1 = if inner then rotate_left t p else t in
    let z' = if inner then p else z in
    let p' = if inner then z else p in
    let t2 = set_red (set_red t1 p' false) g true in (z', rotate_right t2 g)

unfoldable pub rotate_up_right : RbTree → ℕ → ℕ → ℕ → ℕ × RbTree
unfolding rotate_left rotate_right
rotate_up_right t z p g =
    let inner = points_to (node_at t p).left z in
    let t1 = if inner then rotate_right t p else t in
    let z' = if inner then p else z in
    let p' = if inner then z else p in
    let t2 = set_red (set_red t1 p' false) g true in (z', rotate_left t2 g)

-- The recolouring under a red uncle.
unfoldable pub recolour : RbTree → ℕ → Option ℕ → ℕ → RbTree
recolour t p uncle g = set_red (set_red_of (set_red t p false) uncle false) g true

-- EEVDFRBInsertFixup before its last line. A round moves two levels up or is the last but one.
unfoldable pub insert_fixup_loop : ℕ → RbTree → ℕ → RbTree
unfolding recolour rotate_up_left rotate_up_right
insert_fixup_loop zero t z = t
insert_fixup_loop (suc fuel) t z = elim ((node_at t z).parent) [
  | none ↦ t
  | some p ↦ if not (node_at t p).red then t else elim ((node_at t p).parent) [
    | none ↦ t
    | some g ↦
        let left_side = points_to (node_at t g).left p in
        let uncle = if left_side then (node_at t g).right else (node_at t g).left in
        let turned = if left_side then rotate_up_left t z p g else rotate_up_right t z p g in
        let next : ℕ × RbTree = if is_red t uncle then (g, recolour t p uncle g) else turned in
        insert_fixup_loop fuel next.1 next.0
  ]
]

unfoldable pub insert_fixup : RbTree → ℕ → RbTree
unfolding insert_fixup_loop
insert_fixup t z =
    let u = insert_fixup_loop (suc eevdf_max_processes) t z in set_red_of u u.root false

-- Where a new node goes: its parent, whether it is the left child, and whether it is the leftmost.
pub record Place : Type 0 where
  pub under : Option ℕ
  pub on_left : Bool
  pub is_leftmost : Bool

unfoldable pub find_place : ℕ → RbTree → (ℕ → ℕ) → ℕ → Option ℕ → Place → Place
find_place zero t vruntime key link place = place
find_place (suc fuel) t vruntime key none place = place
find_place (suc fuel) t vruntime key (some i) place = elim (ltb key (vruntime (node_at t i).slot)) [
  | true ↦
      find_place fuel t vruntime key (node_at t i).left
        (record place { under = some i; on_left = true })
  | false ↦
      find_place fuel t vruntime key (node_at t i).right
        (record { under = some i; on_left = false; is_leftmost = false })
]

unfoldable pub link_node : RbTree → ℕ → Place → RbTree
link_node t i place =
    let t1 = if place.is_leftmost then record t { leftmost = some i } else t in
    let t2 = set_parent t1 i place.under in
    elim (place.under) [
      | none ↦ record t2 { root = some i }
      | some p ↦ if place.on_left then set_left t2 p (some i) else set_right t2 p (some i)
    ]

-- EEVDFRBInsert of a slot that is not in the tree, where `vruntime` gives the key of a slot: the node, or
-- none if the pool is full.
unfoldable pub rb_insert : RbTree → (ℕ → ℕ) → ℕ → Option ℕ × RbTree
unfolding alloc_node find_place link_node insert_fixup
rb_insert t vruntime slot =
    let (node, t1) = alloc_node t slot in
    elim node [
      | none ↦ (none, t1)
      | some i ↦
          let start : Place = record { under = none; on_left = true; is_leftmost = true } in
          let place = find_place eevdf_max_processes t1 vruntime (vruntime slot) t1.root start in
          (some i, insert_fixup (link_node t1 i place) i)
    ]
