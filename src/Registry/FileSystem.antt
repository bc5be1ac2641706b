-- ===== src/Registry/FileSystem.antt =====
-- fs/FileSystem.c. What the functions of a driver answer is an argument: whether it detects its file
-- system on a device, and whether the mount succeeds.
use void_frame.Prelude.{
  ℕ, zero, suc, ◌+◌, ◌<◌, ◌≡◌, Bool, true, false, Option, none, some, List, [], ◌∷◌, leb, ◌==◌,
  if◌then◌else◌, get_or, set,
}
use void_frame.Block.Table.{BlockTable, block_device_get, max_block_devices}
use void_frame.Registry.First.{first_place, IsFirst}

abbrev pub max_filesystem_drivers : ℕ
max_filesystem_drivers = 8

-- The table of drivers, each by its number.
pub record DriverTable : Type 0 where
  pub fs_drivers : List ℕ
  pub num_fs_drivers : ℕ

unfoldable pub file_system_init : DriverTable → DriverTable
file_system_init s = record s { num_fs_drivers = 0 }

-- False is -1.
unfoldable pub file_system_register : DriverTable → ℕ → Bool × DriverTable
file_system_register s driver =
    if leb max_filesystem_drivers s.num_fs_drivers then (false, s) else (
      true,
      record {
        fs_drivers = set s.fs_drivers s.num_fs_drivers driver;
        num_fs_drivers = s.num_fs_drivers + 1;
      },
    )

-- The call of a driver's mount on a device.
pub record Mount : Type 0 where
  pub device : ℕ
  pub driver : ℕ

abbrev pub driver_at : DriverTable → ℕ → ℕ
driver_at s j = get_or s.fs_drivers j 0

-- The loop over the drivers for one device: the first that detects its file system.
unfoldable pub detecting : (ℕ → ℕ → Bool) → DriverTable → ℕ → Option ℕ
unfolding first_place
detecting detect s device = first_place (λ j. detect (driver_at s j) device) s.num_fs_drivers 0

-- The loop over the devices i .. i + n: the mounts that are tried, in order.
unfoldable pub scan_devices : (ℕ → ℕ → Bool) → DriverTable → BlockTable → ℕ → ℕ → List Mount
unfolding detecting block_device_get
scan_devices detect s blocks zero i = []
scan_devices detect s blocks (suc n) i =
    let rest = scan_devices detect s blocks n (i + 1) in
    elim (block_device_get blocks i) [
      | none ↦ rest
      | some device ↦ elim (detecting detect s device) [
        | none ↦ rest
        | some j ↦ record { device = device; driver = driver_at s j } ∷ rest
      ]
    ]

abbrev pub count_mounted : (ℕ → ℕ → Bool) → List Mount → ℕ
count_mounted mounts [] = 0
count_mounted mounts (m ∷ ms) =
    (if mounts m.driver m.device then 1 else 0) + count_mounted mounts ms

-- The mounts that are tried, and how many succeed. Without an active device there are none.
unfoldable pub file_system_auto_mount :
    (ℕ → ℕ → Bool) → (ℕ → ℕ → Bool) → DriverTable → BlockTable → List Mount × ℕ
unfolding scan_devices
file_system_auto_mount detect mounts s blocks =
    let tried = scan_devices detect s blocks max_block_devices 0 in
    (tried, count_mounted mounts tried)

-- The drivers of the mounts that are tried on a device.
unfoldable pub drivers_for : List Mount → ℕ → List ℕ
drivers_for [] i = []
drivers_for (m ∷ ms) i =
    let rest = drivers_for ms i in if m.device == i then m.driver ∷ rest else rest

-- What is to be tried on a device.
abbrev pub Chosen : (ℕ → ℕ → Bool) → DriverTable → BlockTable → ℕ → List ℕ → Type 0
Chosen detect s blocks i [] =
    block_device_get blocks i ≡ some i
    → (j : ℕ) → j < s.num_fs_drivers
    → detect (driver_at s j) i ≡ false
Chosen detect s blocks i (driver ∷ more ∷ rest) = ⊥
Chosen detect s blocks i (driver ∷ []) =
    (block_device_get blocks i ≡ some i)
    × ((j : ℕ) × (driver ≡ driver_at s j)
        × IsFirst (λ k. detect (driver_at s k) i) 0 s.num_fs_drivers j)
