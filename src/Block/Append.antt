-- ===== src/Block/Append.antt =====
-- The table as a list that partitions are appended to.
use void_frame.Prelude.{
  ℕ, zero, suc, ◌+◌, ◌≤◌, ◌<◌, ◌≡◌, refl, ◌∙◌, true, false, some, List, [], ◌∷◌, leb, if◌then◌else◌,
  arith, length, get_or, set, Bool-cases, inl, inr, get_or-set_self,
}
use void_frame.Block.Table.{
  partition, through_parent, BlockDevice, BlockTable, no_device, device_at, block_device_register,
  new_device, max_block_devices,
}
use void_frame.Block.Mbr.{MbrPartitionEntry, is_used, part_name, register_partition}

-- The table has its size, and its devices fill the front of it.
pub record IsValid (s : BlockTable) : Type 0 where
  pub size : length s.devices ≡ max_block_devices
  pub room : s.next_device_id ≤ max_block_devices

-- `t` is `s` with the devices of `ds` after its own, each made for its place, as far as there are
-- places.
pub record Appends (s : BlockTable) (ds : List (ℕ → BlockDevice)) (t : BlockTable) : Type 0 where
  pub valid : IsValid t
  pub kept : (i : ℕ) → i < s.next_device_id → device_at t i ≡ device_at s i
  pub added :
      (k : ℕ)
      → k < length ds
      → s.next_device_id + k < max_block_devices
      → device_at t (s.next_device_id + k) ≡ get_or ds k (λ i. no_device) (s.next_device_id + k)
  pub next : t.next_device_id ≡ (
      if leb max_block_devices (s.next_device_id + length ds)
      then max_block_devices
      else s.next_device_id + length ds)

pub Appends-nothing : {s : BlockTable} → IsValid s → Appends s [] s
Appends-nothing v = record {
  valid = v;
  kept = λ i h. refl;
  added = λ k h. absurd (omega arith);
  next = let r = v.room in ground arith;
}

-- A full table takes nothing.
pub Appends-full :
    {s : BlockTable} (ds : List (ℕ → BlockDevice))
    → IsValid s
    → max_block_devices ≤ s.next_device_id
    → Appends s ds s
Appends-full ds v full = record {
  valid = v;
  kept = λ i h. refl;
  added = λ k h room. absurd (omega arith);
  next = let r = v.room in ground arith;
}

pub Appends-cons :
    {s t u : BlockTable} (d : ℕ → BlockDevice) (ds : List (ℕ → BlockDevice))
    → s.next_device_id < max_block_devices
    → t.next_device_id ≡ s.next_device_id + 1
    → device_at t s.next_device_id ≡ d s.next_device_id
    → ((i : ℕ) → i < s.next_device_id → device_at t i ≡ device_at s i)
    → Appends t ds u
    → Appends s (d ∷ ds) u
Appends-cons {s} {t} {u} d ds room one here before rest = record {
  valid = rest.valid;
  kept = λ i h. rest.kept i (omega arith) ∙ before i h;
  added = go;
  next = let n = rest.next in ground arith;
}
  where
    go :
        (k : ℕ)
        → k < suc (length ds)
        → s.next_device_id + k < max_block_devices
        → device_at u (s.next_device_id + k)
          ≡ get_or (d ∷ ds) k (λ i. no_device) (s.next_device_id + k)
    go zero h fits =
        let e : s.next_device_id + 0 ≡ s.next_device_id = omega arith in
        rw e (rest.kept s.next_device_id (omega arith) ∙ here)
    go (suc k) h fits =
        let e : s.next_device_id + suc k ≡ t.next_device_id + k = omega arith in
        rw e (rest.added k (omega arith) (omega arith))

-- The device that an entry of the partition table stands for, and those of the entries in use.
abbrev pub partition_device : BlockDevice → ℕ → ℕ → MbrPartitionEntry → ℕ → BlockDevice
partition_device d device i p id =
    record (new_device id partition d.block_size p.num_sectors (part_name d.name i) 0
      (some through_parent) (some through_parent)) {
        parent = some device;
        lba_offset = p.lba_start;
      }

unfoldable pub wanted : BlockDevice → ℕ → ℕ → List MbrPartitionEntry → List (ℕ → BlockDevice)
wanted d device i [] = []
wanted d device i (p ∷ ps) =
    let rest = wanted d device (i + 1) ps in
    if is_used p then partition_device d device i p ∷ rest else rest

module _ (s : BlockTable) (device i : ℕ) (p : MbrPartitionEntry) (v : IsValid s) where
  -- The table after one registration.
  unfoldable pub with_partition : BlockTable
  with_partition = record {
    devices =
        set
          (set s.devices s.next_device_id (
            new_device s.next_device_id partition (device_at s device).block_size p.num_sectors
              (part_name (device_at s device).name i) 0 (some through_parent)
              (some through_parent)))
          s.next_device_id (partition_device (device_at s device) device i p s.next_device_id);
    next_device_id = s.next_device_id + 1;
  }

  pub register_partition-eq :
      s.next_device_id < max_block_devices
      → is_used p ≡ true
      → register_partition s device i p ≡ with_partition
  unfolding register_partition block_device_register with_partition
  register_partition-eq room used =
      let open_place : leb max_block_devices s.next_device_id ≡ false = ground arith in
      let back =
        get_or-set_self s.devices s.next_device_id
          (new_device s.next_device_id partition (device_at s device).block_size p.num_sectors
            (part_name (device_at s device).name i) 0 (some through_parent) (some through_parent))
          no_device (omega (arith, v.size)) in
      simp (used, open_place, back) refl

  pub register_partition_full :
      max_block_devices ≤ s.next_device_id → register_partition s device i p ≡ s
  unfolding register_partition block_device_register
  register_partition_full full =
      let closed : leb max_block_devices s.next_device_id ≡ true = ground arith in
      elim (Bool-cases (is_used p)) [ inl e ↦ simp (e, closed) refl | inr e ↦ simp e refl ]

  pub register_partition_unused : is_used p ≡ false → register_partition s device i p ≡ s
  unfolding register_partition
  register_partition_unused e = simp e refl
