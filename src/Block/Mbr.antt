-- ===== src/Block/Mbr.antt =====
-- ParseMBR of fs/MBR.c, and BlockDeviceDetectAndRegisterPartitions. A sector is the list of its bytes.
use void_frame.Prelude.{
  ℕ, ◌+◌, ◌*◌, Bool, true, false, not, ◌&&◌, Option, none, some, List, [], ◌∷◌, ◌++◌, ltb, ◌==◌,
  if◌then◌else◌, get_or,
}
use void_frame.Block.Table.{
  BlockDeviceType, partition, through_parent, BlockTable, device_at, put_device, cut,
  block_device_register, block_device_access, reads, Request,
}

pub record MbrPartitionEntry : Type 0 where
  pub type : ℕ
  pub lba_start : ℕ
  pub num_sectors : ℕ

abbrev pub byte_at : List ℕ → ℕ → ℕ
byte_at bytes i = get_or bytes i 0

-- The little-endian fields.
abbrev pub u16_at : List ℕ → ℕ → ℕ
u16_at bytes i = byte_at bytes i + 256 * byte_at bytes (i + 1)

abbrev pub u32_at : List ℕ → ℕ → ℕ
u32_at bytes i = u16_at bytes i + 65536 * u16_at bytes (i + 2)

abbrev pub entry_at : List ℕ → ℕ → MbrPartitionEntry
entry_at sector i = record {
  type = byte_at sector (446 + 16 * i + 4);
  lba_start = u32_at sector (446 + 16 * i + 8);
  num_sectors = u32_at sector (446 + 16 * i + 12);
}

abbrev pub partition_table : List ℕ → List MbrPartitionEntry
partition_table sector =
    entry_at sector 0 ∷ entry_at sector 1 ∷ entry_at sector 2 ∷ entry_at sector 3 ∷ []

abbrev pub boot_signature : List ℕ → ℕ
boot_signature sector = u16_at sector 510

abbrev pub is_used : MbrPartitionEntry → Bool
is_used p = not (p.type == 0) && ltb 0 p.num_sectors

-- snprintf(part_name, 32, "%s-p%d", name, i + 1): the characters '-', 'p' and a digit.
unfoldable pub part_name : List ℕ → ℕ → List ℕ
unfolding cut
part_name name i = cut 31 (name ++ (45 ∷ 112 ∷ (48 + (i + 1)) ∷ []))

abbrev pub attach : ℕ → ℕ → Option ℕ × BlockTable → BlockTable
attach device lba_start (none, t) = t
attach device lba_start (some id, t) =
    put_device t id (record (device_at t id) { parent = some device; lba_offset = lba_start })

unfoldable pub register_partition : BlockTable → ℕ → ℕ → MbrPartitionEntry → BlockTable
unfolding block_device_register part_name
register_partition s device i p =
    let d = device_at s device in
    if is_used p
    then attach device p.lba_start (
        block_device_register s partition d.block_size p.num_sectors (part_name d.name i) 0
          (some through_parent) (some through_parent))
    else s

unfoldable pub register_partitions : BlockTable → ℕ → ℕ → List MbrPartitionEntry → BlockTable
unfolding register_partition
register_partitions s device i [] = s
register_partitions s device i (p ∷ ps) =
    register_partitions (register_partition s device i p) device (i + 1) ps

-- `allocated` says that the buffer was allocated, and `answer` is what the driver reads, or `none`
-- for an error. The buffer holds at least 512 bytes.
unfoldable pub parse_mbr : Bool → (Request → Option (List ℕ)) → BlockTable → ℕ → BlockTable
unfolding block_device_access register_partitions
parse_mbr allocated answer s device =
    if not allocated then s else elim (block_device_access reads s (device_at s device).id 0 1) [
      | none ↦ s
      | some request ↦ elim (answer request) [
        | none ↦ s
        | some sector ↦
            if boot_signature sector == 0xAA55
            then register_partitions s device 0 (partition_table sector)
            else s
      ]
    ]

abbrev pub is_partition : BlockDeviceType → Bool
is_partition partition = true
is_partition other = false

unfoldable pub detect_and_register_partitions :
    Bool → (Request → Option (List ℕ)) → BlockTable → ℕ → BlockTable
unfolding parse_mbr
detect_and_register_partitions allocated answer s drive =
    if is_partition (device_at s drive).type then s else parse_mbr allocated answer s drive
