-- ===== src/Ipc/Process.antt =====
-- The process table as IPC sees it: kernel/sched/Shared.h, and the lookups of
-- kernel/sched/EEVDF.c. The fields of a process that IPC does not touch are left out.
use void_frame.Prelude.{
  ℕ, ◌+◌, Bool, true, false, not, ◌&&◌, List, [], ◌∷◌, Option, none, some, ◌==◌, if◌then◌else◌,
  get_or, set, replicate,
}
use void_frame.Ipc.Message.{no_message, max_messages}
use void_frame.Ipc.Queue.{MessageQueue}

pub data ProcessState : Type 0 where
  terminated ready running blocked zombie dying : ProcessState

abbrev pub is_terminated : ProcessState → Bool
is_terminated terminated = true
is_terminated _ = false

pub record Process : Type 0 where
  pub pid : ℕ
  pub state : ProcessState
  pub ipc_queue : MessageQueue

-- A zeroed entry of the table, which is also what a process starts with.
abbrev pub empty_queue : MessageQueue
empty_queue = record {
  messages = replicate max_messages no_message;
  head = 0;
  tail = 0;
  count = 0;
  lock = false;
  dropped_count = 0;
  priority_bitmap = 0;
}

abbrev pub no_process_entry : Process
no_process_entry = record { pid = 0; state = terminated; ipc_queue = empty_queue }

pub record System : Type 0 where
  pub processes : List Process
  pub current_process : ℕ
  pub next_sequence_id : ℕ

-- EEVDFGetCurrentProcessByPID from the index `i` on: the index of the entry.
unfoldable pub find_process : ℕ → List Process → ℕ → Option ℕ
find_process pid [] i = none
find_process pid (p ∷ ps) i =
    if (p.pid == pid) && not (is_terminated p.state) then some i else find_process pid ps (i + 1)

unfoldable pub get_current_process_by_pid : System → ℕ → Option ℕ
unfolding find_process
get_current_process_by_pid s pid = find_process pid s.processes 0

abbrev pub process_at : System → ℕ → Process
process_at s i = get_or s.processes i no_process_entry

abbrev pub get_current_process : System → Process
get_current_process s = process_at s s.current_process

abbrev pub put_process : System → ℕ → Process → System
put_process s i p = record s { processes = set s.processes i p }
