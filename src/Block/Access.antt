-- ===== src/Block/Access.antt =====
-- Detecting the partitions of a drive, and where an access to one of them goes.
use void_frame.Prelude.{
  ℕ, zero, suc, ◌+◌, ◌<◌, ◌≡◌, refl, subst, ap, ◌∙◌, true, false, Option, some, List, [], ◌∷◌, leb,
  ◌==◌, arith, length, get_or, Bool-cases, inl, inr,
}
use void_frame.Prelude.Words.{add64}
use void_frame.Block.Table.{
  driver, through_parent, BlockDevice, BlockTable, no_device, device_at, max_block_devices,
  Direction, reads, writes, function_of, Request, call, block_device_get, block_device_access,
}
use void_frame.Block.Mbr.{
  MbrPartitionEntry, is_used, partition_table, boot_signature, parse_mbr, is_partition,
  detect_and_register_partitions,
}
use void_frame.Block.Append.{IsValid, Appends, partition_device, wanted}
use void_frame.Block.Partitions.{register_partitions-Appends}

-- A drive in the table, with a driver for reads, and not a partition itself.
pub record IsDrive (s : BlockTable) (device number : ℕ) : Type 0 where
  pub inside : device < s.next_device_id
  pub active : (device_at s device).active ≡ true
  pub own_id : (device_at s device).id ≡ device
  pub whole : is_partition (device_at s device).type ≡ false
  pub reader : (device_at s device).read_blocks ≡ some (driver number)

abbrev pub first_sector : ℕ → ℕ → Request
first_sector device number = record {
  direction = reads;
  number = number;
  device = device;
  start_lba = 0;
  count = 1;
}

block_device_get-active :
    (s : BlockTable) (i : ℕ)
    → i < s.next_device_id
    → (device_at s i).active ≡ true
    → block_device_get s i ≡ some i
unfolding block_device_get
block_device_get-active s i inside active =
    let known : leb s.next_device_id i ≡ false = ground arith in rw (known, active) refl

-- An access to a device with a driver, and to one that passes it on.
access-driver :
    (dir : Direction) (s : BlockTable) (i start_lba count number : ℕ)
    → i < s.next_device_id
    → (device_at s i).active ≡ true
    → function_of dir (device_at s i) ≡ some (driver number)
    → block_device_access dir s i start_lba count
      ≡ some (record {
        direction = dir;
        number = number;
        device = i;
        start_lba = start_lba;
        count = count;
      })
unfolding block_device_access block_device_get call
access-driver dir s i start_lba count number inside active func =
    rw (block_device_get-active s i inside active, block_device_access, func, call) refl

access-through_parent :
    (dir : Direction) (s : BlockTable) (i p start_lba count number : ℕ)
    → i < s.next_device_id
    → (device_at s i).active ≡ true
    → function_of dir (device_at s i) ≡ some through_parent
    → (device_at s i).parent ≡ some p
    → function_of dir (device_at s p) ≡ some (driver number)
    → block_device_access dir s i start_lba count
      ≡ some (record {
        direction = dir;
        number = number;
        device = p;
        start_lba = add64 (device_at s i).lba_offset start_lba;
        count = count;
      })
unfolding block_device_access block_device_get call
access-through_parent dir s i p start_lba count number inside active func above below =
    rw (block_device_get-active s i inside active, block_device_access, func, above, below, call)
      refl

access-first_sector :
    {s : BlockTable} {device number : ℕ}
    → IsDrive s device number
    → block_device_access reads s (device_at s device).id 0 1 ≡ some (first_sector device number)
access-first_sector {s} {device} {number} d =
    ap (λ i. block_device_access reads s i 0 1) d.own_id
    ∙ access-driver reads s device 0 1 number d.inside d.active d.reader

-- If the first sector that the driver of a drive reads has the boot signature, detecting the
-- partitions appends exactly a device for each entry in use, in the order of the entries and as far
-- as the table has room, with the drive as its parent and the entry's start as its offset, and
-- changes no device that was there.
pub detect-Appends :
    (s : BlockTable) (device number : ℕ) (answer : Request → Option (List ℕ)) (sector : List ℕ)
    → IsValid s
    → IsDrive s device number
    → answer (first_sector device number) ≡ some sector
    → boot_signature sector ≡ 0xAA55
    → Appends s
        (wanted (device_at s device) device 0 (partition_table sector))
        (detect_and_register_partitions true answer s device)
unfolding detect_and_register_partitions parse_mbr
detect-Appends s device number answer sector v d read signed =
    let sign : (boot_signature sector == 0xAA55) ≡ true = ground arith in
    let at = access-first_sector d in
    rw (d.whole, at, read, sign)
      (register_partitions-Appends s device 0 (partition_table sector) v d.inside)

wanted-partition_device :
    (d : BlockDevice) (device i k id : ℕ) (ps : List MbrPartitionEntry)
    → k < length (wanted d device i ps)
    → (j : ℕ) × (p : MbrPartitionEntry) × (get_or (wanted d device i ps) k (λ x. no_device) id
        ≡ partition_device d device j p id)
unfolding wanted
wanted-partition_device d device i k id [] h = absurd (omega arith)
wanted-partition_device d device i k id (p ∷ ps) h = elim (Bool-cases (is_used p)) [
  | inr e ↦
      let rest = wanted-partition_device d device (i + 1) k id ps in
      rw e (rest (subst (λ ds. k < length ds) (skipped e) h))
  | inl e ↦ rw e (
      at_place (λ n. wanted-partition_device d device (i + 1) n id ps) k
        (subst (λ ds. k < length ds) (counted e) h))
]
  where
    others : List (ℕ → BlockDevice)
    others = wanted d device (i + 1) ps

    skipped : is_used p ≡ false → wanted d device i (p ∷ ps) ≡ others
    skipped e = rw e refl

    counted : is_used p ≡ true → wanted d device i (p ∷ ps) ≡ partition_device d device i p ∷ others
    counted e = rw e refl

    at_place :
        ((n : ℕ)
          → n < length others
          → (j : ℕ) × (q : MbrPartitionEntry) × (get_or others n (λ x. no_device) id
              ≡ partition_device d device j q id))
        → (n : ℕ) → n < suc (length others)
        → (j : ℕ) × (q : MbrPartitionEntry) × (get_or
              (partition_device d device i p ∷ others)
              n
              (λ x. no_device)
              id
            ≡ partition_device d device j q id)
    at_place rest zero h = (i, p, refl)
    at_place rest (suc n) h = rest n (omega arith)

-- After that, an access to the k-th of those partitions reaches the driver of the drive, at the
-- block that is the start of the partition plus the block asked for, modulo 2^64, for reads and,
-- where the drive has a driver for them, for writes.
pub access-detect :
    (dir : Direction) (s : BlockTable) (device number target k start_lba count : ℕ)
    (answer : Request → Option (List ℕ)) (sector : List ℕ)
    → IsValid s
    → IsDrive s device number
    → answer (first_sector device number) ≡ some sector
    → boot_signature sector ≡ 0xAA55
    → function_of dir (device_at s device) ≡ some (driver target)
    → k < length (wanted (device_at s device) device 0 (partition_table sector))
    → s.next_device_id + k < max_block_devices
    → block_device_access dir
        (detect_and_register_partitions true answer s device)
        (s.next_device_id + k)
        start_lba
        count
      ≡ some (record {
        direction = dir;
        number = target;
        device = device;
        start_lba =
            add64
              (get_or
                (wanted (device_at s device) device 0 (partition_table sector))
                k
                (λ i. no_device)
                (s.next_device_id + k)).lba_offset
              start_lba;
        count = count;
      })
access-detect dir s device number target k start_lba count answer sector v d read signed func inside
      room =
    let t = detect_and_register_partitions true answer s device in
    let id = s.next_device_id + k in
    let ds = wanted (device_at s device) device 0 (partition_table sector) in
    let a = detect-Appends s device number answer sector v d read signed in
    let made = a.added k inside room in
    let (j, p, part) =
      wanted-partition_device (device_at s device) device 0 k id (partition_table sector) inside in
    let here : device_at t id ≡ partition_device (device_at s device) device j p id = made ∙ part in
    let below : id < t.next_device_id = let n = a.next in ground arith in
    access-through_parent dir t id device start_lba count target below (ap (λ x. x.active) here)
      (through dir j id p here) (ap (λ x. x.parent) here)
      (ap (λ x. function_of dir x) (a.kept device d.inside) ∙ func)
    ∙ ap
        (λ o. some (record {
          direction = dir;
          number = target;
          device = device;
          start_lba = add64 o start_lba;
          count = count;
        }))
        (ap (λ x. x.lba_offset) made)
  where
    through :
        (way : Direction) (j id : ℕ) (p : MbrPartitionEntry) {e : BlockDevice}
        → e ≡ partition_device (device_at s device) device j p id
        → function_of way e ≡ some through_parent
    through reads j id p same = ap (λ x. x.read_blocks) same
    through writes j id p same = ap (λ x. x.write_blocks) same
