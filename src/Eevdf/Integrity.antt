-- ===== src/Eevdf/Integrity.antt =====
-- What the seals detect: a process whose state or privilege level is not the one that was sealed.
use void_frame.Prelude.{
  ℕ, zero, suc, ◌*◌, ◌/◌, ◌<◌, ◌≡◌, ◌≢◌, ◌⊎◌, inl, inr, refl, sym, ap, ap₂, subst, ◌∙◌, Bool, true,
  false, some, List, [], ◌∷◌, ◌++◌, leb, ◌==◌, arith, length, get_or, Bool-cases,
}
use void_frame.Crypto.Bits.{
  Bits, bits_of, value_of, zeros, first_bits, drop_bits, same_bits, same_bits_sound,
  length-first_bits, length-drop_bits, value_of-bits_of,
}
use void_frame.Crypto.Crc.{crc32}
use void_frame.Crypto.Table.{AllBytes}
use void_frame.Crypto.Detect.{crc32_detects, append_inj, length-crc32, AllBytes-append}
use void_frame.Ipc.Process.{ProcessState, terminated, ready, running, blocked, zombie, dying}
use void_frame.Eevdf.Tree.{eevdf_max_processes}
use void_frame.Eevdf.State.{term_security, ProcessControlBlock, Scheduler, block_at, state_code}
use void_frame.Eevdf.Seal.{split_bytes, sis_fast_hash, critical_bits, seal_pcb, verify_pcb}
use void_frame.Eevdf.Slots.{current_process_by_pid}
use void_frame.Eevdf.Terminate.{as_terminate, as_terminate_slot}
use void_frame.Eevdf.Ring.{IsRing}
use void_frame.Eevdf.Dying.{Dies, terminate_slot_lem}
use void_frame.Eevdf.Guarding.{found_lem}
use void_frame.Eevdf.Schedule.{preflight_check, postflight_check}

split_bytes-AllBytes : (n : ℕ) (w : Bits) → length w ≡ 8 * n → AllBytes (split_bytes n w)
unfolding split_bytes
split_bytes-AllBytes zero w e = tt
split_bytes-AllBytes (suc n) w e = (
  length-first_bits 8 w (omega arith),
  split_bytes-AllBytes n (drop_bits 8 w) (omega (arith, e, length-drop_bits 8 w)),
)

abbrev key_at : Scheduler → ℕ → Bits
key_at s slot = get_or s.sis_process_keys slot []

-- The eight bytes that are sealed: the state, the privilege level and the PID.
abbrev pid_bytes : ℕ → List Bits
pid_bytes pid =
    first_bits 8 (bits_of 32 pid)
    ∷ first_bits 8 (drop_bits 8 (bits_of 32 pid))
    ∷ first_bits 8 (drop_bits 16 (bits_of 32 pid))
    ∷ first_bits 8 (drop_bits 24 (bits_of 32 pid))
    ∷ []

abbrev low : ℕ → Bits
low n = first_bits 8 (bits_of 16 n)

abbrev high : ℕ → Bits
high n = first_bits 8 (drop_bits 8 (bits_of 16 n))

critical_split :
    (p : ProcessControlBlock)
    → split_bytes 8 (critical_bits p)
      ≡ low (state_code p.state)
        ∷ high (state_code p.state)
        ∷ low p.privilege_level
        ∷ high p.privilege_level
        ∷ pid_bytes p.pid
unfolding split_bytes critical_bits bits_of first_bits drop_bits
critical_split p = refl

low-value : (n : ℕ) → n < 256 → value_of (low n) ≡ n
unfolding bits_of first_bits
low-value n h = value_of-bits_of 8 n h

high-zeros : (n : ℕ) → n < 256 → high n ≡ zeros 8
unfolding bits_of first_bits drop_bits
high-zeros n h =
    let none_left : n / 2 / 2 / 2 / 2 / 2 / 2 / 2 / 2 ≡ 0 = omega arith in ap (bits_of 8) none_left

state_code-small : (st : ProcessState) → state_code st < 256
state_code-small terminated = omega arith
state_code-small ready = omega arith
state_code-small running = omega arith
state_code-small blocked = omega arith
state_code-small zombie = omega arith
state_code-small dying = omega arith

hash_inj :
    (a b key : Bits)
    → length a ≡ 64
    → length b ≡ 64
    → length key ≡ 64
    → sis_fast_hash a key ≡ sis_fast_hash b key
    → crc32 (split_bytes 8 a ++ split_bytes 8 key) ≡ crc32 (split_bytes 8 b ++ split_bytes 8 key)
unfolding sis_fast_hash
hash_inj a b key la lb lk e =
    let k = split_bytes-AllBytes 8 key lk in
    let whole : (w : Bits)
        → length w ≡ 64
        → length (crc32 (split_bytes 8 w ++ split_bytes 8 key)) ≡ 32 =
      λ w l.
        length-crc32 (split_bytes 8 w ++ split_bytes 8 key)
          (AllBytes-append (split_bytes 8 w) (split_bytes 8 key) (split_bytes-AllBytes 8 w l) k) in
    append_inj (crc32 (split_bytes 8 a ++ split_bytes 8 key))
      (crc32 (split_bytes 8 b ++ split_bytes 8 key)) (zeros 32) (whole a la ∙ sym (whole b lb)) e

-- What is hashed, with the bytes of the key after it.
abbrev contents : ℕ → ℕ → ℕ → List Bits → List Bits
contents state priv pid key = low state ∷ high state ∷ low priv ∷ high priv ∷ (pid_bytes pid ++ key)

byte_inj : (n m : ℕ) → n < 256 → m < 256 → low n ≡ low m → n ≡ m
byte_inj n m h k e = sym (low-value n h) ∙ ap value_of e ∙ low-value m k

length-low : (n : ℕ) → length (low n) ≡ 8
unfolding bits_of first_bits
length-low n = refl

length-high : (n : ℕ) → length (high n) ≡ 8
unfolding bits_of first_bits drop_bits
length-high n = refl

pid_bytes-AllBytes : (pid : ℕ) → AllBytes (pid_bytes pid)
unfolding bits_of first_bits drop_bits
pid_bytes-AllBytes pid = (refl, (refl, (refl, (refl, tt))))

detects_state :
    (state state' priv pid : ℕ) (key : List Bits)
    → state < 256
    → state' < 256
    → AllBytes key
    → crc32 (contents state priv pid key) ≡ crc32 (contents state' priv pid key)
    → state ≡ state'
detects_state state state' priv pid key h h' k e =
    let same = high-zeros state' h' ∙ sym (high-zeros state h) in
    let after = high state ∷ low priv ∷ high priv ∷ (pid_bytes pid ++ key) in
    byte_inj state state' h h' (
      crc32_detects [] after (low state) (low state') tt
        (
          length-high state,
          (
            length-low priv,
            (length-high priv, AllBytes-append (pid_bytes pid) key (pid_bytes-AllBytes pid) k),
          ),
        )
        (length-low state) (length-low state')
        (e ∙ ap (λ w. crc32 (low state' ∷ w ∷ low priv ∷ high priv ∷ (pid_bytes pid ++ key))) same))

detects_privilege :
    (state priv priv' pid : ℕ) (key : List Bits)
    → priv < 256
    → priv' < 256
    → AllBytes key
    → crc32 (contents state priv pid key) ≡ crc32 (contents state priv' pid key)
    → priv ≡ priv'
detects_privilege state priv priv' pid key h h' k e =
    let same = high-zeros priv' h' ∙ sym (high-zeros priv h) in
    let before = low state ∷ high state ∷ [] in
    byte_inj priv priv' h h' (
      crc32_detects before (high priv ∷ (pid_bytes pid ++ key)) (low priv) (low priv')
        (length-low state, (length-high state, tt))
        (length-high priv, AllBytes-append (pid_bytes pid) key (pid_bytes-AllBytes pid) k)
        (length-low priv) (length-low priv')
        (e
          ∙ ap (λ w. crc32 (low state ∷ high state ∷ low priv' ∷ w ∷ (pid_bytes pid ++ key))) same))

-- The process in `slot` has the seal of a block `p` with its PID, and another state or privilege level.
pub record IsAltered (s : Scheduler) (slot : ℕ) (p : ProcessControlBlock) : Type 0 where
  pub slot_small : slot < eevdf_max_processes
  pub not_idle : slot ≢ 0
  pub key : length (get_or s.sis_process_keys slot []) ≡ 64
  pub sealed : (block_at s slot).sis_seal ≡ seal_pcb s p slot
  pub same_pid : (block_at s slot).pid ≡ p.pid
  pub bytes : (p.privilege_level < 256) × ((block_at s slot).privilege_level < 256)
  pub change :
      ((state_code p.state ≢ state_code (block_at s slot).state)
        × ((block_at s slot).privilege_level ≡ p.privilege_level))
      ⊎ ((p.privilege_level ≢ (block_at s slot).privilege_level)
          × ((block_at s slot).state ≡ p.state))

length-critical_bits : (p : ProcessControlBlock) → length (critical_bits p) ≡ 64
unfolding critical_bits bits_of
length-critical_bits p = refl

seals_differ :
    (s : Scheduler) (slot : ℕ) (p : ProcessControlBlock)
    → IsAltered s slot p
    → seal_pcb s p slot ≢ seal_pcb s (block_at s slot) slot
unfolding seal_pcb
seals_differ s slot p a e =
    let q = block_at s slot in
    let k = split_bytes-AllBytes 8 (key_at s slot) a.key in
    let hashed =
      hash_inj (critical_bits p) (critical_bits q) (key_at s slot) (length-critical_bits p)
        (length-critical_bits q) a.key e in
    let split : crc32
          (contents (state_code p.state) p.privilege_level p.pid (split_bytes 8 (key_at s slot)))
        ≡ crc32 (
            contents (state_code q.state) q.privilege_level q.pid (split_bytes 8 (key_at s slot))) =
      ap (λ w. crc32 (w ++ split_bytes 8 (key_at s slot))) (sym (critical_split p))
      ∙ hashed
      ∙ ap (λ w. crc32 (w ++ split_bytes 8 (key_at s slot))) (critical_split q) in
    elim a.change [
      | inl (other, same) ↦ other (
          detects_state (state_code p.state) (state_code q.state) p.privilege_level p.pid
            (split_bytes 8 (key_at s slot)) (state_code-small p.state) (state_code-small q.state) k
            (split
              ∙ ap₂
                  (λ v w. crc32 (contents (state_code q.state) v w (split_bytes 8 (key_at s slot))))
                  same a.same_pid))
      | inr (other, same) ↦ other (
          detects_privilege (state_code p.state) p.privilege_level q.privilege_level p.pid
            (split_bytes 8 (key_at s slot)) a.bytes.0 a.bytes.1 k
            (split
              ∙ ap₂
                  (λ v w.
                    crc32
                      (contents (state_code v) q.privilege_level w (split_bytes 8 (key_at s slot))))
                  same a.same_pid))
    ]

verify-IsAltered :
    (s : Scheduler) (slot : ℕ) (p : ProcessControlBlock)
    → IsAltered s slot p
    → verify_pcb s (block_at s slot) slot ≡ false
unfolding verify_pcb
verify-IsAltered s slot p a =
    let small = a.slot_small in
    let inside : leb eevdf_max_processes slot ≡ false = ground arith in
    rw inside (
      refused
        (Bool-cases (same_bits (block_at s slot).sis_seal (seal_pcb s (block_at s slot) slot))))
  where
    refused :
        (same_bits (block_at s slot).sis_seal (seal_pcb s (block_at s slot) slot) ≡ true)
          ⊎ (same_bits (block_at s slot).sis_seal (seal_pcb s (block_at s slot) slot) ≡ false)
        → same_bits (block_at s slot).sis_seal (seal_pcb s (block_at s slot) slot) ≡ false
    refused (inl e) = absurd (seals_differ s slot p a (sym a.sealed ∙ same_bits_sound _ _ e))
    refused (inr e) = e

check-as_terminate :
    (s : Scheduler) (slot : ℕ) (p : ProcessControlBlock)
    → IsAltered s slot p
    → (postflight_check s slot ≡ (false, as_terminate s (block_at s slot).pid))
      × (preflight_check s slot ≡ (false, as_terminate s (block_at s slot).pid))
unfolding postflight_check preflight_check
check-as_terminate s slot p a =
    let busy : (slot == 0) ≡ false = let n = a.not_idle in ground (arith, n) in
    let refused = verify-IsAltered s slot p a in (rw (busy, refused) refl, rw (busy, refused) refl)

-- The check fails, and the process is terminated for a reason of security.
abbrev pub Condemns : Scheduler → ℕ → Bool × Scheduler → Type 0
Condemns s slot r = (r.0 ≡ false) × Dies s slot term_security 666 r.1

-- A process whose state or privilege level, one of them, is not what was sealed does not pass the check
-- after it ran nor the one before it runs: it is terminated, whatever its protections. It is not in the
-- idle slot, the privilege levels are below 256 and the key has 64 bits; the lookup of its PID must find
-- it, which passes over TERMINATED processes, and fewer than 64 slots wait.
pub check-IsAltered :
    (s : Scheduler) (slot : ℕ) (p : ProcessControlBlock)
    → IsAltered s slot p
    → IsRing s
    → s.term_queue_count < eevdf_max_processes
    → current_process_by_pid s (block_at s slot).pid ≡ some slot
    → Condemns s slot (postflight_check s slot) × Condemns s slot (preflight_check s slot)
unfolding as_terminate
check-IsAltered s slot p a r room found =
    let (post, pre) = check-as_terminate s slot p a in
    let inside = (found_lem s (block_at s slot).pid slot found).0 in
    let dies = (terminate_slot_lem s slot term_security 666 inside r room).1 in
    let run : as_terminate s (block_at s slot).pid ≡ as_terminate_slot s slot =
      rw (found, as_terminate) refl in
    let condemned : Condemns s slot (false, as_terminate s (block_at s slot).pid) =
      (refl, subst (Dies s slot term_security 666) (sym run) dies) in
    (subst (Condemns s slot) (sym post) condemned, subst (Condemns s slot) (sym pre) condemned)
