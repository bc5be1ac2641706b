-- ===== src/Eevdf/Guarding.antt =====
-- Who may terminate whom.
use mathlib.Core.Option.{some-injective}
use void_frame.Prelude.{
  ℕ, suc, ◌+◌, ◌<◌, ◌≡◌, ◌≢◌, ◌⊎◌, inl, inr, refl, sym, ap, subst, ◌∙◌, Bool, true, false, not,
  ◌&&◌, ◌||◌, some, List, [], ◌∷◌, ◌==◌, if◌then◌else◌, arith, length, get_or, Bool-cases,
}
use void_frame.Ipc.Process.{is_terminated}
use void_frame.Eevdf.Tree.{eevdf_max_processes}
use void_frame.Eevdf.State.{
  TerminationReason, term_security, ProcessControlBlock, Scheduler, no_block, block_at,
  current_block, priv_system, is_immune, is_critical,
}
use void_frame.Eevdf.Seal.{validate_process}
use void_frame.Eevdf.Slots.{find_pid, current_process_by_pid}
use void_frame.Eevdf.Terminate.{
  is_dead, is_security, is_protected, is_denied, as_terminate, as_terminate_slot, terminate_process,
}
use void_frame.Eevdf.Ring.{IsRing}
use void_frame.Eevdf.Dying.{Dies, terminate_slot_lem}

-- A process that the lookup of a PID finds.
pub record IsFound (pid : ℕ) (ps : List ProcessControlBlock) (i j : ℕ) : Type 0 where
  pub offset : ℕ
  pub place : j ≡ i + offset
  pub inside : offset < length ps
  pub has_pid : (get_or ps offset no_block).pid ≡ pid
  pub lives : is_terminated (get_or ps offset no_block).state ≡ false

find_pid_lem :
    (pid : ℕ) (ps : List ProcessControlBlock) (i j : ℕ)
    → find_pid pid ps i ≡ some j
    → IsFound pid ps i j
unfolding find_pid
find_pid_lem pid [] i j e = absurd (ground (arith, e))
find_pid_lem pid (p ∷ ps) i j e = elim (Bool-cases (p.pid == pid && not (is_terminated p.state))) [
  | inl f ↦
      let here : some i ≡ some j =
        subst (λ b. (if b then some i else find_pid pid ps (i + 1)) ≡ some j) f e in
      let at_once = some-injective i j here in
      record {
        offset = 0;
        place = omega (arith, at_once);
        inside = omega arith;
        has_pid = ground (arith, f);
        lives = ground (arith, f);
      }
  | inr f ↦
      let later : find_pid pid ps (i + 1) ≡ some j =
        subst (λ b. (if b then some i else find_pid pid ps (i + 1)) ≡ some j) f e in
      let rest = find_pid_lem pid ps (i + 1) j later in
      record {
        offset = suc rest.offset;
        place = let q = rest.place in omega arith;
        inside = let q = rest.inside in omega arith;
        has_pid = rest.has_pid;
        lives = rest.lives;
      }
]

-- The slot that a lookup in the whole table gives.
pub found_lem :
    (s : Scheduler) (pid slot : ℕ)
    → current_process_by_pid s pid ≡ some slot
    → (slot < length s.processes) × ((block_at s slot).pid ≡ pid)
unfolding current_process_by_pid
found_lem s pid slot e =
    let f = find_pid_lem pid s.processes 0 slot e in
    let same : slot ≡ f.offset = let q = f.place in omega arith in
    (
      subst (λ k. k < length s.processes) (sym same) f.inside,
      subst (λ k. (get_or s.processes k no_block).pid ≡ pid) (sym same) f.has_pid,
    )

-- What protects the process in `slot` from the current one, another process.
abbrev pub Protects : Scheduler → ℕ → Type 0
Protects s slot =
    (((block_at s slot).privilege_level ≡ priv_system)
      × ((current_block s).privilege_level ≢ priv_system))
    ⊎ (is_immune (block_at s slot).token ≡ true)
    ⊎ (is_critical (block_at s slot).token ≡ true)

any_of : (a b c : Bool) → (a ≡ true) ⊎ (b ≡ true) ⊎ (c ≡ true) → (a || (b || c)) ≡ true
any_of a b c (inl e) = ground (arith, e)
any_of a b c (inr (inl e)) = ground (arith, e)
any_of a b c (inr (inr e)) = ground (arith, e)

system_only :
    (target caller : ℕ)
    → target ≡ priv_system
    → caller ≢ priv_system
    → (target == priv_system && not (caller == priv_system)) ≡ true
system_only target caller e n = ground (arith, e, n)

protected : (s : Scheduler) (slot : ℕ) → Protects s slot → is_protected s slot ≡ true
unfolding is_protected
protected s slot h = any_of _ _ _ (elim h [
  | inl (e, n) ↦
      inl (system_only (block_at s slot).privilege_level (current_block s).privilege_level e n)
  | inr other ↦ inr other
])

denied :
    (s : Scheduler) (slot : ℕ)
    → (current_block s).pid ≢ (block_at s slot).pid
    → Protects s slot
    → is_denied s slot ≡ true
unfolding is_denied
denied s slot n h =
    either (current_block s).pid (block_at s slot).pid (is_protected s slot)
      (validate_process s s.current_process) n (protected s slot h)
  where
    either : (a b : ℕ) (p v : Bool) → a ≢ b → p ≡ true → ((not (a == b) && p) || not v) ≡ true
    either a b p v n e = ground (arith, n, e)

refuses :
    (s : Scheduler) (pid slot : ℕ) (reason : TerminationReason) (exit_code : ℕ)
    → current_process_by_pid s pid ≡ some slot
    → is_dead (block_at s slot).state ≡ false
    → is_security reason ≡ false
    → is_denied s slot ≡ true
    → terminate_process s pid reason exit_code ≡ as_terminate s (current_block s).pid
unfolding terminate_process
refuses s pid slot reason exit_code found alive plain barred =
    rw (found, alive, plain, barred, terminate_process) refl

-- When the current process, which the lookup of its own PID finds, tries to terminate another one that
-- is protected from it and not dead, for no reason of security, and fewer than 64 slots wait, then the
-- current process is terminated, and the one that it meant is as it was: a system process is protected
-- from the processes that are none, an immune or critical one from every other, system processes too.
pub terminate_process-Protects :
    (s : Scheduler) (pid slot : ℕ) (reason : TerminationReason) (exit_code : ℕ)
    → IsRing s
    → s.term_queue_count < eevdf_max_processes
    → current_process_by_pid s pid ≡ some slot
    → current_process_by_pid s (current_block s).pid ≡ some s.current_process
    → (current_block s).pid ≢ pid
    → is_dead (block_at s slot).state ≡ false
    → is_security reason ≡ false
    → Protects s slot
    → Dies s s.current_process term_security 666 (terminate_process s pid reason exit_code)
      × (block_at (terminate_process s pid reason exit_code) slot ≡ block_at s slot)
unfolding as_terminate
terminate_process-Protects s pid slot reason exit_code r room found found' other alive plain h =
    let caller = s.current_process in
    let (_, target_pid) = found_lem s pid slot found in
    let (inside, caller_pid) = found_lem s (current_block s).pid caller found' in
    let d = (terminate_slot_lem s caller reason exit_code inside r room).1 in
    let barred = denied s slot (λ e. other (e ∙ target_pid)) h in
    let run : terminate_process s pid reason exit_code ≡ as_terminate_slot s caller =
      refuses s pid slot reason exit_code found alive plain barred
      ∙ rw (found', as_terminate) refl in
    (
      subst (Dies s caller term_security 666) (sym run) d,
      ap (λ t. block_at t slot) run
          ∙ d.others slot
              (λ e. other (sym caller_pid ∙ ap (λ k. (block_at s k).pid) (sym e) ∙ target_pid)),
    )
