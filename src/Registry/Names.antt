-- ===== src/Registry/Names.antt =====
-- Looking up a character device by its name.
use void_frame.Prelude.{
  ℕ, ◌+◌, ◌≤◌, ◌<◌, ◌≡◌, ◌≢◌, refl, sym, subst, ap, ap₂, ◌∙◌, true, false, Option, none, some, List,
  [], ◌∷◌, leb, ◌==◌, arith, length, set, get_or-set_self, get_or-set_ne, Bool-cases, inl, inr, ◌⊎◌,
}
use void_frame.Registry.First.{First, first_place-First}
use void_frame.Registry.CharDevice.{
  CharDevice, CharTable, null_device, char_device_at, max_char_devices, same_name,
  char_device_register, char_device_find,
}

same_name_sound : (a b : List ℕ) → same_name a b ≡ true → a ≡ b
unfolding same_name
same_name_sound [] [] e = refl
same_name_sound [] (y ∷ ys) e = absurd (ground (arith, e))
same_name_sound (x ∷ xs) [] e = absurd (ground (arith, e))
same_name_sound (x ∷ xs) (y ∷ ys) e =
    let head : x ≡ y = ground (arith, e) in
    let tail : same_name xs ys ≡ true = ground (arith, e) in
    ap₂ (λ z zs. z ∷ zs) head (same_name_sound xs ys tail)

same_name_self : (a : List ℕ) → same_name a a ≡ true
unfolding same_name
same_name_self [] = refl
same_name_self (x ∷ xs) = let rest = same_name_self xs in ground (arith, rest)

-- The first device of a name, or none has it.
abbrev pub Named : CharTable → List ℕ → Option ℕ → Type 0
Named s name none = (i : ℕ) → i < s.num_char_devices → (char_device_at s i).name ≢ name
Named s name (some j) =
    (j < s.num_char_devices)
    × ((char_device_at s j).name ≡ name)
    × ((i : ℕ) → i < j → (char_device_at s i).name ≢ name)

differs : (a b : List ℕ) → same_name a b ≡ false → a ≢ b
differs a b miss e = clash (sym miss ∙ ap (λ x. same_name x b) e ∙ same_name_self b)
  where
    clash : false ≡ true → ⊥
    clash h = cc

First-Named :
    (s : CharTable) (name : List ℕ) (o : Option ℕ)
    → First (λ i. same_name (char_device_at s i).name name) 0 s.num_char_devices o
    → Named s name o
First-Named s name none h = λ i below. differs _ name (h i (omega arith) below)
First-Named s name (some j) h = (
  h.below,
  same_name_sound _ name h.passes,
  λ i before. differs _ name (h.before i (omega arith) before),
)

-- CharDeviceFind returns the first registered device with the name, and NULL only if none has it.
pub char_device_find-Named :
    (s : CharTable) (name : List ℕ) → Named s name (char_device_find s name)
unfolding char_device_find
char_device_find-Named s name = First-Named s name _ (
    first_place-First (λ i. same_name (char_device_at s i).name name) s.num_char_devices 0
      s.num_char_devices (omega arith))

-- A device that is registered under a name that no device has is the one that CharDeviceFind then
-- returns for it; it is refused only if the table is full, and then nothing changes.
pub char_device_find-register :
    (s : CharTable) (device : CharDevice)
    → length s.char_devices ≡ max_char_devices
    → char_device_find s device.name ≡ none
    → let (accepted, t) = char_device_register s device in
      ((accepted ≡ true)
        × (char_device_find t device.name ≡ some s.num_char_devices)
        × (char_device_at t s.num_char_devices ≡ device))
      ⊎ ((max_char_devices ≤ s.num_char_devices) × (accepted ≡ false) × (t ≡ s))
unfolding char_device_register
char_device_find-register s device size unknown =
    elim (Bool-cases (leb max_char_devices s.num_char_devices)) [
      | inl e ↦
          let full : max_char_devices ≤ s.num_char_devices = ground arith in
          rw e (inr (full, refl, refl))
      | inr e ↦
          let room : s.num_char_devices < max_char_devices = ground arith in
          let here =
            get_or-set_self s.char_devices s.num_char_devices device null_device (omega arith) in
          rw e (
            inl (
              refl,
              found (char_device_find (extended s) device.name)
                  (char_device_find-Named (extended s) device.name) here,
              here,
            ))
    ]
  where
    extended : CharTable → CharTable
    extended u = record {
      char_devices = set u.char_devices u.num_char_devices device;
      num_char_devices = u.num_char_devices + 1;
    }

    fresh : (i : ℕ) → i < s.num_char_devices → (char_device_at s i).name ≢ device.name
    fresh = subst (Named s device.name) unknown (char_device_find-Named s device.name)

    kept : (i : ℕ) → i < s.num_char_devices → char_device_at (extended s) i ≡ char_device_at s i
    kept i below =
        get_or-set_ne s.char_devices s.num_char_devices i device null_device
          (λ e. absurd (omega arith))

    found :
        (o : Option ℕ)
        → Named (extended s) device.name o
        → char_device_at (extended s) s.num_char_devices ≡ device
        → o ≡ some s.num_char_devices
    found none h here = absurd (h s.num_char_devices (omega arith) (ap (λ d. d.name) here))
    found (some j) (below, named, before) here = elim (Bool-cases (j == s.num_char_devices)) [
      | inl e ↦ let same : j ≡ s.num_char_devices = ground arith in ap some same
      | inr e ↦
          let lower : j < s.num_char_devices = ground arith in
          absurd (fresh j lower (ap (λ d. d.name) (sym (kept j lower)) ∙ named))
    ]
