-- ===== src/Block/Tests.antt =====
-- A table with one drive, whose first sector has one partition.
use void_frame.Prelude.{
  ℕ, ◌+◌, ◌≡◌, refl, true, Option, some, List, [], ◌∷◌, ◌++◌, replicate, arith,
}
use void_frame.Block.Table.{
  ide, driver, BlockDevice, BlockTable, no_device, device_at, Request, block_device_access, writes,
}
use void_frame.Block.Mbr.{partition_table, detect_and_register_partitions}
use void_frame.Block.Append.{IsValid, Appends, wanted}
use void_frame.Block.Access.{IsDrive, detect-Appends, access-detect}

abbrev drive : BlockDevice
drive = record no_device {
  active = true;
  type = ide;
  block_size = 512;
  total_blocks = 4096;
  name = 104 ∷ 100 ∷ 97 ∷ [];
  read_blocks = some (driver 3);
  write_blocks = some (driver 3);
}

abbrev one_drive : BlockTable
one_drive = record { devices = drive ∷ replicate 15 no_device; next_device_id = 1 }

abbrev sector : List ℕ
sector =
    replicate 450 0
    ++ (0x83 ∷ 0 ∷ 0 ∷ 0 ∷ 0 ∷ 8 ∷ 0 ∷ 0 ∷ 0 ∷ 1 ∷ 0 ∷ 0 ∷ [])
    ++ replicate 48 0
    ++ (0x55 ∷ 0xAA ∷ [])

abbrev disk : Request → Option (List ℕ)
disk request = some sector

one_drive-IsValid : IsValid one_drive
one_drive-IsValid = record { size = refl; room = omega arith }

one_drive-IsDrive : IsDrive one_drive 0 3
one_drive-IsDrive = record {
  inside = omega arith;
  active = refl;
  own_id = refl;
  whole = refl;
  reader = refl;
}

detect-Appends_example :
    Appends one_drive
      (wanted (device_at one_drive 0) 0 0 (partition_table sector))
      (detect_and_register_partitions true disk one_drive 0)
detect-Appends_example =
    detect-Appends one_drive 0 3 disk sector one_drive-IsValid one_drive-IsDrive refl refl

access-detect_example :
    block_device_access writes
      (detect_and_register_partitions true disk one_drive 0)
      (one_drive.next_device_id + 0)
      5
      2
    ≡ some (record { direction = writes; number = 3; device = 0; start_lba = 2053; count = 2 })
unfolding wanted
access-detect_example =
    access-detect writes one_drive 0 3 3 0 5 2 disk sector one_drive-IsValid one_drive-IsDrive refl
      refl refl (omega arith) (omega arith)
