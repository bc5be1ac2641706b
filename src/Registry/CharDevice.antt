-- ===== src/Registry/CharDevice.antt =====
-- fs/CharDevice.c. A device is its name and the number of its driver, a name the list of its
-- characters without the final NUL.
use void_frame.Prelude.{
  ℕ, ◌+◌, Bool, true, false, ◌&&◌, Option, none, some, List, [], ◌∷◌, replicate, leb, ◌==◌,
  if◌then◌else◌, get_or, set,
}
use void_frame.Registry.First.{first_place}

abbrev pub max_char_devices : ℕ
max_char_devices = 32

pub record CharDevice : Type 0 where
  pub name : List ℕ
  pub number : ℕ

pub record CharTable : Type 0 where
  pub char_devices : List CharDevice
  pub num_char_devices : ℕ

abbrev pub null_device : CharDevice
null_device = record { name = []; number = 0 }

abbrev pub char_device_at : CharTable → ℕ → CharDevice
char_device_at s i = get_or s.char_devices i null_device

-- FastStrCmp(a, b) == 0
unfoldable pub same_name : List ℕ → List ℕ → Bool
same_name [] [] = true
same_name [] (b ∷ bs) = false
same_name (a ∷ cs) [] = false
same_name (a ∷ cs) (b ∷ bs) = a == b && same_name cs bs

unfoldable pub char_device_init : CharTable
char_device_init = record {
  char_devices = replicate max_char_devices null_device;
  num_char_devices = 0;
}

-- False is -1.
unfoldable pub char_device_register : CharTable → CharDevice → Bool × CharTable
char_device_register s device = if leb max_char_devices s.num_char_devices then (false, s) else (
  true,
  record {
    char_devices = set s.char_devices s.num_char_devices device;
    num_char_devices = s.num_char_devices + 1;
  },
)

unfoldable pub char_device_find : CharTable → List ℕ → Option ℕ
unfolding first_place same_name
char_device_find s name =
    first_place (λ i. same_name (char_device_at s i).name name) s.num_char_devices 0

unfoldable pub char_device_get : CharTable → ℕ → Option ℕ
char_device_get s index = if leb s.num_char_devices index then none else some index
