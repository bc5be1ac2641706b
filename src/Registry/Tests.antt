-- ===== src/Registry/Tests.antt =====
-- Two drivers and a drive, and a table of character devices with one device.
use void_frame.Prelude.{
  ◌≤◌, ◌≡◌, ◌⊎◌, refl, true, false, none, some, [], ◌∷◌, replicate, arith, ◌==◌,
}
use void_frame.Block.Table.{ide, BlockTable, no_device}
use void_frame.Registry.First.{first_place}
use void_frame.Registry.CharDevice.{
  CharDevice, CharTable, null_device, char_device_at, max_char_devices, char_device_register,
  char_device_find, same_name,
}
use void_frame.Registry.FileSystem.{DriverTable, file_system_auto_mount, drivers_for, Chosen}
use void_frame.Registry.Mounting.{auto_mount-Chosen}
use void_frame.Registry.Names.{char_device_find-register}

abbrev two_drivers : DriverTable
two_drivers = record { fs_drivers = 4 ∷ 9 ∷ replicate 6 0; num_fs_drivers = 2 }

abbrev one_drive : BlockTable
one_drive = record {
  devices = record no_device { active = true; type = ide } ∷ replicate 15 no_device;
  next_device_id = 1;
}

auto_mount-Chosen_example :
    Chosen
      (λ driver device. driver == 9)
      two_drivers
      one_drive
      0
      (drivers_for
        (file_system_auto_mount
          (λ driver device. driver == 9)
          (λ driver device. true)
          two_drivers
          one_drive).0
        0)
auto_mount-Chosen_example =
    auto_mount-Chosen (λ driver device. driver == 9) (λ driver device. true) two_drivers one_drive 0
      (omega arith)

abbrev serial : CharDevice
serial = record { name = 115 ∷ 101 ∷ 114 ∷ []; number = 1 }

abbrev keyboard : CharDevice
keyboard = record { name = 107 ∷ 101 ∷ 121 ∷ []; number = 2 }

abbrev one_device : CharTable
one_device = record { char_devices = serial ∷ replicate 31 null_device; num_char_devices = 1 }

keyboard_unknown : char_device_find one_device keyboard.name ≡ none
unfolding char_device_find first_place same_name
keyboard_unknown = refl

char_device_find-register_example :
    let (accepted, t) = char_device_register one_device keyboard in
    ((accepted ≡ true)
      × (char_device_find t keyboard.name ≡ some 1)
      × (char_device_at t 1 ≡ keyboard))
    ⊎ ((max_char_devices ≤ 1) × (accepted ≡ false) × (t ≡ one_device))
char_device_find-register_example =
    char_device_find-register one_device keyboard refl keyboard_unknown
