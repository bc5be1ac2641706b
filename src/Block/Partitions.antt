-- ===== src/Block/Partitions.antt =====
-- What detecting the partitions of a drive makes of the table, and where an access to a partition goes.
use void_frame.Prelude.{
  ℕ, ◌+◌, ◌≤◌, ◌<◌, ◌≡◌, refl, sym, subst, ap, ◌∙◌, true, some, List, [], ◌∷◌, leb, arith, length,
  set, Bool-cases, inl, inr, length-set, get_or-set_self, get_or-set_ne,
}
use void_frame.Block.Table.{
  partition, through_parent, BlockDevice, BlockTable, no_device, device_at, max_block_devices,
  new_device,
}
use void_frame.Block.Mbr.{MbrPartitionEntry, is_used, part_name, register_partitions}
use void_frame.Block.Append.{
  IsValid, Appends, Appends-nothing, Appends-full, Appends-cons, partition_device, wanted,
  with_partition, register_partition-eq, register_partition_full,
}

register_partitions_full :
    (s : BlockTable) (device i : ℕ) (ps : List MbrPartitionEntry)
    → IsValid s
    → max_block_devices ≤ s.next_device_id
    → register_partitions s device i ps ≡ s
unfolding register_partitions
register_partitions_full s device i [] v full = refl
register_partitions_full s device i (p ∷ ps) v full =
    ap (λ t. register_partitions t device (i + 1) ps) (register_partition_full s device i p v full)
    ∙ register_partitions_full s device (i + 1) ps v full

-- One registration, and then the rest of the entries.
module _ (s : BlockTable) (device i : ℕ) (p : MbrPartitionEntry) (v : IsValid s)
    (inside : device < s.next_device_id) (room : s.next_device_id < max_block_devices) where
  t : BlockTable
  t = with_partition s device i p v

  first : BlockDevice
  first =
      new_device s.next_device_id partition (device_at s device).block_size p.num_sectors
        (part_name (device_at s device).name i) 0 (some through_parent) (some through_parent)

  size : length (set s.devices s.next_device_id first) ≡ length s.devices
  size = length-set s.devices s.next_device_id first

  before : (j : ℕ) → j < s.next_device_id → device_at t j ≡ device_at s j
  unfolding t first with_partition
  before j h =
      get_or-set_ne (set s.devices s.next_device_id first) s.next_device_id j _ no_device
        (λ same. absurd (omega arith))
      ∙ get_or-set_ne s.devices s.next_device_id j first no_device (λ same. absurd (omega arith))

  with_partition-IsValid : IsValid t
  unfolding t first with_partition
  with_partition-IsValid = record {
    size = length-set (set s.devices s.next_device_id first) s.next_device_id _ ∙ size ∙ v.size;
    room = omega arith;
  }

  append_one :
      (ps : List MbrPartitionEntry)
      → Appends t
          (wanted (device_at t device) device (i + 1) ps)
          (register_partitions t device (i + 1) ps)
      → Appends s
          (partition_device (device_at s device) device i p
            ∷ wanted (device_at s device) device (i + 1) ps)
          (register_partitions t device (i + 1) ps)
  unfolding t first with_partition
  append_one ps rest =
      Appends-cons (partition_device (device_at s device) device i p)
        (wanted (device_at s device) device (i + 1) ps) room refl
        (get_or-set_self (set s.devices s.next_device_id first) s.next_device_id _ no_device
          (omega (arith, size, v.size)))
        before
        (subst
          (λ d. Appends t (wanted d device (i + 1) ps) (register_partitions t device (i + 1) ps))
          (before device inside) rest)

pub register_partitions-Appends :
    (s : BlockTable) (device i : ℕ) (ps : List MbrPartitionEntry)
    → IsValid s
    → device < s.next_device_id
    → Appends s (wanted (device_at s device) device i ps) (register_partitions s device i ps)
unfolding register_partitions wanted with_partition t
register_partitions-Appends s device i [] v inside = Appends-nothing v
register_partitions-Appends s device i (p ∷ ps) v inside = elim (Bool-cases (is_used p)) [
  | inr e ↦ rw e (register_partitions-Appends s device (i + 1) ps v inside)
  | inl e ↦ elim (Bool-cases (leb max_block_devices s.next_device_id)) [
    | inl f ↦
        let full : max_block_devices ≤ s.next_device_id = ground arith in
        subst (Appends s (wanted (device_at s device) device i (p ∷ ps)))
          (sym (register_partitions_full s device i (p ∷ ps) v full)) (Appends-full _ v full)
    | inr f ↦
        let room : s.next_device_id < max_block_devices = ground arith in
        let made = register_partition-eq s device i p v room e in
        let rest =
          register_partitions-Appends (with_partition s device i p v) device (i + 1) ps
            (with_partition-IsValid s device i p v inside room) (omega arith) in
        subst (λ ds. Appends s ds (register_partitions s device i (p ∷ ps))) (sym (wanted_used e))
          (subst
            (λ u.
              Appends s
                (partition_device (device_at s device) device i p
                  ∷ wanted (device_at s device) device (i + 1) ps)
                (register_partitions u device (i + 1) ps))
            (sym made) (append_one s device i p v inside room ps rest))
  ]
]
  where
    wanted_used :
        is_used p ≡ true
        → wanted (device_at s device) device i (p ∷ ps)
          ≡ partition_device (device_at s device) device i p
            ∷ wanted (device_at s device) device (i + 1) ps
    wanted_used e = rw e refl
