-- ===== src/Ipc/Table.antt =====
-- The process table under the writes of IPC.
use void_frame.Prelude.{
  ℕ, zero, suc, ◌+◌, ◌<◌, ◌≡◌, refl, ◌⊎◌, inl, inr, Bool-cases, false, not, ◌&&◌, some, List, [],
  ◌∷◌, ◌==◌, arith, length, get_or, set,
}
use void_frame.Ipc.Queue.{add_priorities}
use void_frame.Ipc.Process.{
  Process, System, is_terminated, empty_queue, no_process_entry, find_process,
  get_current_process_by_pid, process_at, put_process,
}
use void_frame.Ipc.View.{IsValid}

-- The queue that a process starts with is valid.
pub empty_queue-IsValid : IsValid empty_queue
unfolding add_priorities
empty_queue-IsValid = record {
  slots = refl;
  head_in = omega arith;
  tail_at = refl;
  count_in = omega arith;
  fresh = refl;
  stamped = λ i p. absurd (omega arith);
}

-- Every queue of the table is valid.
abbrev pub AllValid : System → Type 0
AllValid s = (i : ℕ) → IsValid (process_at s i).ipc_queue

set_cases :
    (ps : List Process) (i j : ℕ) (p : Process)
    → (get_or (set ps i p) j no_process_entry ≡ p)
      ⊎ (get_or (set ps i p) j no_process_entry ≡ get_or ps j no_process_entry)
set_cases [] i j p = inr refl
set_cases (x ∷ xs) zero zero p = inl refl
set_cases (x ∷ xs) zero (suc j) p = inr refl
set_cases (x ∷ xs) (suc i) zero p = inr refl
set_cases (x ∷ xs) (suc i) (suc j) p = set_cases xs i j p

pub put_process-AllValid :
    (s : System) (i : ℕ) (p : Process)
    → AllValid s
    → IsValid p.ipc_queue
    → AllValid (put_process s i p)
put_process-AllValid s i p all v j = elim (set_cases s.processes i j p) [
  | inl e ↦ rw e v
  | inr e ↦ rw e (all j)
]

-- The lookup by identifier ends at an entry of the table with that identifier that is not
-- terminated.
find_process-found :
    (pid : ℕ) (ps : List Process) (i k : ℕ)
    → find_process pid ps i ≡ some k
    → (j : ℕ) × (k ≡ i + j)
      × (j < length ps)
      × ((get_or ps j no_process_entry).pid ≡ pid)
      × (is_terminated (get_or ps j no_process_entry).state ≡ false)
unfolding find_process
find_process-found pid [] i k h = cc
find_process-found pid (p ∷ ps) i k h =
    elim (Bool-cases ((p.pid == pid) && not (is_terminated p.state))) [
      | inl hit ↦
          (0, omega (arith, some_inj (rw hit at h)), omega arith, ground arith, ground arith)
      | inr miss ↦
          let (j, at, inside, same, live) = find_process-found pid ps (i + 1) k (rw miss at h) in
          (suc j, omega arith, omega arith, same, live)
    ]
  where
    some_inj : {a b : ℕ} → some a ≡ some b → a ≡ b
    some_inj e = cc

pub get_current_process_by_pid-found :
    (s : System) (pid k : ℕ)
    → get_current_process_by_pid s pid ≡ some k
    → (k < length s.processes)
      × ((process_at s k).pid ≡ pid)
      × (is_terminated (process_at s k).state ≡ false)
unfolding get_current_process_by_pid
get_current_process_by_pid-found s pid k h =
    let (j, at, inside, same, live) = find_process-found pid s.processes 0 k h in
    let eq : k ≡ j = omega arith in rw eq (inside, same, live)

find_process-set :
    (pid : ℕ) (ps : List Process) (i k : ℕ) (p : Process)
    → p.pid ≡ (get_or ps k no_process_entry).pid
    → is_terminated p.state ≡ is_terminated (get_or ps k no_process_entry).state
    → find_process pid (set ps k p) i ≡ find_process pid ps i
unfolding find_process
find_process-set pid [] i k p e f = refl
find_process-set pid (x ∷ xs) i zero p e f = rw (e, f)
find_process-set pid (x ∷ xs) i (suc k) p e f = rw (find_process-set pid xs (i + 1) k p e f)

-- A write that keeps the identifier and does not end the process keeps every lookup.
pub get_current_process_by_pid-put_process :
    (s : System) (pid k : ℕ) (p : Process)
    → p.pid ≡ (process_at s k).pid
    → is_terminated p.state ≡ is_terminated (process_at s k).state
    → get_current_process_by_pid (put_process s k p) pid ≡ get_current_process_by_pid s pid
unfolding get_current_process_by_pid
get_current_process_by_pid-put_process s pid k p e f = find_process-set pid s.processes 0 k p e f
