-- ===== src/Block/Table.antt =====
-- The table of fs/BlockDevice.c. A pointer to a device is its place in the table, a name the list of
-- its characters without the final NUL, and a function pointer the driver or the functions of
-- MBR.c.
use void_frame.Prelude.{
  ℕ, zero, suc, ◌+◌, Bool, true, false, not, ◌||◌, Option, none, some, List, [], ◌∷◌, map, leb,
  if◌then◌else◌, get_or, set,
}
use void_frame.Prelude.Words.{add64}

abbrev pub max_block_devices : ℕ
max_block_devices = 16

pub data BlockDeviceType : Type 0 where
  unknown : BlockDeviceType
  ide : BlockDeviceType
  ahci : BlockDeviceType
  nvme : BlockDeviceType
  usb : BlockDeviceType
  virtio : BlockDeviceType
  partition : BlockDeviceType

pub data BlockFunc : Type 0 where
  driver : ℕ → BlockFunc
  through_parent : BlockFunc

pub record BlockDevice : Type 0 where
  pub id : ℕ
  pub active : Bool
  pub type : BlockDeviceType
  pub block_size : ℕ
  pub total_blocks : ℕ
  pub name : List ℕ
  pub driver_data : ℕ
  pub parent : Option ℕ
  pub lba_offset : ℕ
  pub read_blocks : Option BlockFunc
  pub write_blocks : Option BlockFunc

pub record BlockTable : Type 0 where
  pub devices : List BlockDevice
  pub next_device_id : ℕ

abbrev pub no_device : BlockDevice
no_device = record {
  id = 0;
  active = false;
  type = unknown;
  block_size = 0;
  total_blocks = 0;
  name = [];
  driver_data = 0;
  parent = none;
  lba_offset = 0;
  read_blocks = none;
  write_blocks = none;
}

abbrev pub device_at : BlockTable → ℕ → BlockDevice
device_at s i = get_or s.devices i no_device

abbrev pub put_device : BlockTable → ℕ → BlockDevice → BlockTable
put_device s i d = record s { devices = set s.devices i d }

abbrev pub deactivate : BlockDevice → BlockDevice
deactivate d = record d { active = false }

unfoldable pub block_device_init : BlockTable → BlockTable
block_device_init s = record { devices = map deactivate s.devices; next_device_id = 0 }

-- At most the first n characters.
unfoldable pub cut : ℕ → List ℕ → List ℕ
cut zero cs = []
cut (suc n) [] = []
cut (suc n) (c ∷ cs) = c ∷ cut n cs

-- FastStrCopy(dev->name, name, sizeof(dev->name) - 1) keeps 30 characters.
abbrev pub device_name : List ℕ → List ℕ
device_name name = cut 30 name

abbrev pub new_device :
    ℕ → BlockDeviceType → ℕ → ℕ → List ℕ → ℕ → Option BlockFunc → Option BlockFunc → BlockDevice
new_device id type block_size total_blocks name driver_data read write = record {
  id = id;
  active = true;
  type = type;
  block_size = block_size;
  total_blocks = total_blocks;
  name = device_name name;
  driver_data = driver_data;
  parent = none;
  lba_offset = 0;
  read_blocks = read;
  write_blocks = write;
}

unfoldable pub block_device_register :
    BlockTable
    → BlockDeviceType
    → ℕ
    → ℕ
    → List ℕ
    → ℕ
    → Option BlockFunc
    → Option BlockFunc
    → Option ℕ × BlockTable
unfolding cut
block_device_register s type block_size total_blocks name driver_data read write =
    let id = s.next_device_id in
    let dev = new_device id type block_size total_blocks name driver_data read write in
    if leb max_block_devices s.next_device_id
    then (none, s)
    else (some id, record { devices = set s.devices id dev; next_device_id = id + 1 })

unfoldable pub block_device_get : BlockTable → ℕ → Option ℕ
block_device_get s id =
    if leb s.next_device_id id || not (device_at s id).active then none else some id

pub data Direction : Type 0 where
  reads : Direction
  writes : Direction

abbrev pub function_of : Direction → BlockDevice → Option BlockFunc
function_of reads d = d.read_blocks
function_of writes d = d.write_blocks

-- The call that a driver gets.
pub record Request : Type 0 where
  pub direction : Direction
  pub number : ℕ
  pub device : ℕ
  pub start_lba : ℕ
  pub count : ℕ

-- A call of a device's function: PartitionReadBlocks and PartitionWriteBlocks pass it on to the
-- parent. A parent stands before its partitions in the table, so 16 rounds are enough. `none` is -1;
-- it also stands for the call through a null pointer, if a parent lacks the function.
unfoldable pub call : ℕ → Direction → BlockTable → ℕ → ℕ → ℕ → Option Request
call zero dir s i start_lba count = none
call (suc fuel) dir s i start_lba count = elim (function_of dir (device_at s i)) [
  | none ↦ none
  | some (driver k) ↦
      some
        (record { direction = dir; number = k; device = i; start_lba = start_lba; count = count })
  | some through_parent ↦ elim ((device_at s i).parent) [
    | none ↦ none
    | some p ↦ call fuel dir s p (add64 (device_at s i).lba_offset start_lba) count
  ]
]

-- BlockDeviceRead and BlockDeviceWrite: what reaches the driver.
unfoldable pub block_device_access : Direction → BlockTable → ℕ → ℕ → ℕ → Option Request
unfolding block_device_get call
block_device_access dir s device_id start_lba count = elim (block_device_get s device_id) [
  | none ↦ none
  | some i ↦ call max_block_devices dir s i start_lba count
]
