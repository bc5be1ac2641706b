-- ===== src/Registry/Mounting.antt =====
-- Which mounts FileSystemAutoMount tries.
use void_frame.Prelude.{
  ℕ, zero, suc, ◌+◌, ◌≤◌, ◌<◌, ◌≡◌, ◌⊎◌, refl, sym, subst, ◌∙◌, Bool, false, not, ◌||◌, none, some,
  List, [], ◌∷◌, leb, ◌==◌, arith, Bool-cases, Option-cases, inl, inr,
}
use void_frame.Block.Table.{BlockTable, device_at, block_device_get, max_block_devices}
use void_frame.Registry.First.{First, first_place-First}
use void_frame.Registry.FileSystem.{
  DriverTable, Mount, driver_at, detecting, scan_devices, file_system_auto_mount, drivers_for,
  Chosen,
}

get-cases :
    (blocks : BlockTable) (i : ℕ)
    → (block_device_get blocks i ≡ none) ⊎ (block_device_get blocks i ≡ some i)
unfolding block_device_get
get-cases blocks i =
    elim (Bool-cases (leb blocks.next_device_id i || not (device_at blocks i).active)) [
      | inl e ↦ inl (rw e refl)
      | inr e ↦ inr (rw e refl)
    ]

module _ (detect : ℕ → ℕ → Bool) (s : DriverTable) (blocks : BlockTable) where
  -- A scan from a place on tries nothing on the devices before it, and on those after it what is to
  -- be tried.
  record Scanned (i n : ℕ) (ms : List Mount) : Type 0 where
    earlier : (k : ℕ) → k < i → drivers_for ms k ≡ []
    chosen : (k : ℕ) → i ≤ k → k < i + n → Chosen detect s blocks k (drivers_for ms k)

  -- Nothing is tried on the device at `i`.
  Scanned-skip :
      (i n : ℕ) (ms : List Mount)
      → Chosen detect s blocks i []
      → Scanned (i + 1) n ms
      → Scanned i (suc n) ms
  Scanned-skip i n ms idle h = record {
    earlier = λ k below. h.earlier k (omega arith);
    chosen = λ k above below. elim (Bool-cases (k == i)) [
      | inl e ↦
          let same : k ≡ i = ground arith in
          subst (λ x. Chosen detect s blocks x (drivers_for ms x)) (sym same)
            (subst (Chosen detect s blocks i) (sym (h.earlier i (omega arith))) idle)
      | inr e ↦ h.chosen k (ground arith) (omega arith)
    ];
  }

  Scanned-take :
      (i n driver : ℕ) (ms : List Mount)
      → Chosen detect s blocks i (driver ∷ [])
      → Scanned (i + 1) n ms
      → Scanned i (suc n) (record { device = i; driver = driver } ∷ ms)
  unfolding drivers_for
  Scanned-take i n driver ms taken h = record {
    earlier = λ k below.
        let apart : (i == k) ≡ false = ground arith in rw apart (h.earlier k (omega arith));
    chosen = λ k above below. elim (Bool-cases (i == k)) [
      | inl e ↦
          let same : i ≡ k = ground arith in
          rw e (
            subst (λ x. Chosen detect s blocks x (driver ∷ drivers_for ms x)) same
              (subst (λ ds. Chosen detect s blocks i (driver ∷ ds))
                (sym (h.earlier i (omega arith))) taken))
      | inr e ↦ rw e (h.chosen k (ground arith) (omega arith))
    ];
  }

  detecting-First :
      (device : ℕ)
      → First (λ j. detect (driver_at s j) device) 0 s.num_fs_drivers (detecting detect s device)
  unfolding detecting
  detecting-First device =
      first_place-First (λ j. detect (driver_at s j) device) s.num_fs_drivers 0 s.num_fs_drivers
        (omega arith)

  scan_devices-Scanned : (n i : ℕ) → Scanned i n (scan_devices detect s blocks n i)
  unfolding scan_devices drivers_for
  scan_devices-Scanned zero i = record {
    earlier = λ k below. refl;
    chosen = λ k a b. absurd (omega arith);
  }
  scan_devices-Scanned (suc n) i = elim (get-cases blocks i) [
    | inl gone ↦
        rw (gone, scan_devices)
          (Scanned-skip i n (scan_devices detect s blocks n (i + 1))
            (λ there. absurd (none_some (sym gone ∙ there))) (scan_devices-Scanned n (i + 1)))
    | inr there ↦ elim (Option-cases (detecting detect s i)) [
      | inl e ↦
          rw (there, e, scan_devices)
            (Scanned-skip i n (scan_devices detect s blocks n (i + 1))
              (λ _ j below.
                subst (First (λ k. detect (driver_at s k) i) 0 s.num_fs_drivers) e
                  (detecting-First i) j (omega arith) below)
              (scan_devices-Scanned n (i + 1)))
      | inr (j, e) ↦
          rw (there, e, scan_devices)
            (Scanned-take i n (driver_at s j) (scan_devices detect s blocks n (i + 1))
              (
                there,
                (
                  j,
                  refl,
                  subst (First (λ k. detect (driver_at s k) i) 0 s.num_fs_drivers) e
                      (detecting-First i),
                ),
              )
              (scan_devices-Scanned n (i + 1)))
    ]
  ]
    where
      none_some : {a : ℕ} → none ≡ some a → ⊥
      none_some e = cc

-- For every place of the block device table, FileSystemAutoMount tries one mount, of the first
-- registered driver that detects its file system on the device there, and no other on it, or tries
-- none, only if no active device is there or no driver detects its file system on it.
pub auto_mount-Chosen :
    (detect mounts : ℕ → ℕ → Bool) (s : DriverTable) (blocks : BlockTable) (i : ℕ)
    → i < max_block_devices
    → Chosen detect s blocks i (drivers_for (file_system_auto_mount detect mounts s blocks).0 i)
unfolding file_system_auto_mount
auto_mount-Chosen detect mounts s blocks i inside =
    (scan_devices-Scanned detect s blocks max_block_devices 0).chosen i (omega arith) (omega arith)
