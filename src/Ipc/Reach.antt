-- ===== src/Ipc/Reach.antt =====
-- Runs of the system: any interleaving of the critical sections of IPC, with switches between
-- processes.
use mathlib.Core.Option
use void_frame.Prelude.{ℕ, ◌<◌, refl, inl, inr, Option, none, some, arith, Option-cases}
use void_frame.Prelude.Words.{add32, u64_mod}
use void_frame.Ipc.Message.{IpcMessage, IpcMessageType}
use void_frame.Ipc.Queue.{MessageQueue, ensure_lock, add_priorities}
use void_frame.Ipc.Process.{System, process_at, get_current_process, get_current_process_by_pid}
use void_frame.Ipc.Send.{ipc_send_message, deliver, delivered, place, store, stamp}
use void_frame.Ipc.Receive.{
  after_round, receive_round, receive_type_round, ipc_flush_queue, flush_queue,
}
use void_frame.Ipc.View.{IsValid, ensure_lock-IsValid}
use void_frame.Ipc.Enqueue.{enqueue_lem, Enqueues}
use void_frame.Ipc.Dequeue.{receive_round_lem, receive_type_round_lem}
use void_frame.Ipc.Table.{AllValid, put_process-AllValid}

-- One critical section, by the current process, or a switch to the process at another index.
pub data Step (s : System) : System → Type 0 where
  sends :
      (now pid : ℕ) (msg : Option IpcMessage)
      → now < u64_mod
      → Step s (ipc_send_message s now pid msg).1
  draws : Step s (record s { next_sequence_id = add32 s.next_sequence_id 1 })
  receives : Step s (after_round receive_round s)
  receives_type : (t : IpcMessageType) → Step s (after_round (receive_type_round t) s)
  flushes : Step s (ipc_flush_queue s)
  switches : (i : ℕ) → Step s (record s { current_process = i })

pub data Reach (s : System) : System → Type 0 where
  here : Reach s s
  next : {t u : System} → Reach s t → Step t u → Reach s u

deliver-AllValid :
    (s : System) (now index : ℕ) (msg : IpcMessage)
    → now < u64_mod
    → AllValid s
    → AllValid (deliver s now index msg).1
unfolding deliver
deliver-AllValid s now index msg small all =
    go (place q msg) (enqueue_lem q msg (stamp msg now s.next_sequence_id) refl small valid)
  where
    q : MessageQueue
    q = ensure_lock (process_at s index).ipc_queue

    valid : IsValid q
    valid = ensure_lock-IsValid (all index)

    go :
        (o : Option (ℕ × MessageQueue))
        → Enqueues q
            (stamp msg now s.next_sequence_id)
            (Option.map (λ r. store r.1 r.0 (stamp msg now s.next_sequence_id)) o)
        → AllValid (delivered s now index msg o).1
    go none e =
        put_process-AllValid s index (record (process_at s index) { ipc_queue = q }) all valid
    go (some (dest, q')) e = put_process-AllValid s index _ all e.0

send-AllValid :
    (s : System) (now pid : ℕ) (msg : Option IpcMessage)
    → now < u64_mod
    → AllValid s
    → AllValid (ipc_send_message s now pid msg).1
unfolding ipc_send_message
send-AllValid s now pid none small all = all
send-AllValid s now pid (some msg) small all =
    elim (Option-cases (get_current_process_by_pid s pid)) [
      | inl e ↦ rw (e, ipc_send_message) all
      | inr (index, e) ↦ rw (e, ipc_send_message) (deliver-AllValid s now index msg small all)
    ]

flush_queue-IsValid : {q : MessageQueue} → IsValid q → IsValid (flush_queue q)
unfolding flush_queue add_priorities
flush_queue-IsValid v = record {
  slots = v.slots;
  head_in = omega arith;
  tail_at = refl;
  count_in = omega arith;
  fresh = refl;
  stamped = λ i p. absurd (omega arith);
}

Step-AllValid : {s t : System} → Step s t → AllValid s → AllValid t
unfolding ipc_flush_queue
Step-AllValid {s} (sends now pid msg small) all = send-AllValid s now pid msg small all
Step-AllValid draws all = all
Step-AllValid {s} receives all =
    put_process-AllValid s s.current_process _ all
      (elim (receive_round_lem (get_current_process s) (all s.current_process)) [
        | inl w ↦ w.1.valid
        | inr w ↦ w.2.valid
      ])
Step-AllValid {s} (receives_type t) all =
    put_process-AllValid s s.current_process _ all
      (elim (receive_type_round_lem t (get_current_process s) (all s.current_process)) [
        | inl w ↦ w.1.valid
        | inr w ↦ w.2.valid
      ])
Step-AllValid {s} flushes all =
    put_process-AllValid s s.current_process _ all (flush_queue-IsValid (all s.current_process))
Step-AllValid (switches i) all = all

-- Whatever the processes do with IPC and however they interleave, every queue stays valid: its
-- indices in range, its counters consistent, its bitmap up to date.
pub Reach-AllValid : {s t : System} → Reach s t → AllValid s → AllValid t
Reach-AllValid here all = all
Reach-AllValid (next r st) all = Step-AllValid st (Reach-AllValid r all)
