-- ===== src/Ipc/Receive.antt =====
-- IpcReceiveMessage, IpcReceiveMessageType and the queries of kernel/ipc/Ipc.c.
use void_frame.Prelude.{
  ℕ, zero, suc, ◌%◌, Bool, true, false, List, [], ◌∷◌, Option, none, some, ltb, ◌==◌, if◌then◌else◌,
  get_or, set,
}
use mathlib.Core.Option
use void_frame.Prelude.Words.{add32, sub32}
use void_frame.Ipc.Message.{
  IpcMessage, IpcMessageType, low, no_message, max_messages, IpcResult, success, invalid_msg,
}
use void_frame.Ipc.Queue.{
  MessageQueue, slot, entry, ensure_lock, recompute_bitmap, find_priority_message, find_type,
}
use void_frame.Ipc.Process.{blocked, Process, System, get_current_process, put_process}

-- The loop of IpcReceiveMessage that moves each slot from `i` down to the head on by one place. The
-- ring has 32 slots, so 32 rounds are enough.
unfoldable pub shift_to_head : ℕ → ℕ → ℕ → List IpcMessage → List IpcMessage
shift_to_head zero head i ms = ms
shift_to_head (suc fuel) head i ms =
    let prev = add32 (sub32 i 1) max_messages % max_messages in
    let rest = shift_to_head fuel head prev (set ms i (get_or ms prev no_message)) in
    if i == head then ms else rest

-- The same move in IpcReceiveMessageType, counted from the head: the entries 0 .. j - 1 move on.
unfoldable pub shift_down : ℕ → ℕ → List IpcMessage → List IpcMessage
shift_down zero head ms = ms
shift_down (suc j) head ms =
    shift_down j head (set ms (slot head (suc j)) (get_or ms (slot head j) no_message))

-- Both functions then drop the head.
unfoldable pub drop_head : MessageQueue → List IpcMessage → MessageQueue
drop_head q ms =
    recompute_bitmap
      (record q { messages = ms; head = add32 q.head 1 % max_messages; count = sub32 q.count 1 })

-- One round of the loop of IpcReceiveMessage, under the lock: a message, or the process blocks.
unfoldable pub receive_round : Process → Option IpcMessage × Process
receive_round p =
    let q = ensure_lock p.ipc_queue in
    if ltb 0 q.count
    then (let idx = find_priority_message q low in
        let ms =
          if idx == q.head then q.messages else shift_to_head max_messages q.head idx q.messages in
        (some (get_or q.messages idx no_message), record p { ipc_queue = drop_head q ms }))
    else (none, record p { ipc_queue = q; state = blocked })

-- One round of the loop of IpcReceiveMessageType: what becomes of the process once the queue is
-- searched, and the round.
unfoldable pub found_type : Process → Option ℕ → Option IpcMessage × Process
found_type p none = (none, record p { state = blocked })
found_type p (some i) =
    let q = p.ipc_queue in
    (some (entry q i), record p { ipc_queue = drop_head q (shift_down i q.head q.messages) })

unfoldable pub receive_type_round : IpcMessageType → Process → Option IpcMessage × Process
unfolding found_type
receive_type_round t p = found_type p (find_type p.ipc_queue t p.ipc_queue.count 0)

-- The system after the current process has made that round.
abbrev pub after_round : (Process → Option IpcMessage × Process) → System → System
after_round round s = put_process s s.current_process (round (get_current_process s)).1

-- The loop of both functions. Between two rounds other processes run: `others` lists what they do
-- to the system, an entry for each round that finds nothing. `none` means that the list is used up
-- while the process still waits.
unfoldable pub receive_loop :
    (Process → Option IpcMessage × Process)
    → List (System → System)
    → System
    → Option (IpcMessage × System)
receive_loop round [] s =
    Option.map (λ m. (m, after_round round s)) (round (get_current_process s)).0
receive_loop round (f ∷ fs) s = elim (round (get_current_process s)).0 [
  | some m ↦ some (m, after_round round s)
  | none ↦ receive_loop round fs (f (after_round round s))
]

-- `has_buffer` says that `msg_buffer` is not null; the message is what it is filled with.
unfoldable pub ipc_receive_message :
    Bool → List (System → System) → System → Option (IpcResult × Option IpcMessage × System)
ipc_receive_message false others s = some (invalid_msg, none, s)
ipc_receive_message true others s =
    Option.map (λ r. (success, some r.0, r.1)) (receive_loop receive_round others s)

unfoldable pub ipc_receive_message_type :
    Bool
    → IpcMessageType
    → List (System → System)
    → System
    → Option (IpcResult × Option IpcMessage × System)
ipc_receive_message_type false t others s = some (invalid_msg, none, s)
ipc_receive_message_type true t others s =
    Option.map (λ r. (success, some r.0, r.1)) (receive_loop (receive_type_round t) others s)

unfoldable pub ipc_get_queue_count : System → ℕ
ipc_get_queue_count s = (get_current_process s).ipc_queue.count

unfoldable pub ipc_has_messages : System → Bool
unfolding ipc_get_queue_count
ipc_has_messages s = ltb 0 (ipc_get_queue_count s)

unfoldable pub ipc_has_message_type : System → IpcMessageType → Bool
ipc_has_message_type s t =
    let q = (get_current_process s).ipc_queue in
    elim (find_type q t q.count 0) [ none ↦ false | some _ ↦ true ]

unfoldable pub flush_queue : MessageQueue → MessageQueue
flush_queue q = record q { head = 0; tail = 0; count = 0; priority_bitmap = 0 }

unfoldable pub ipc_flush_queue : System → System
unfolding flush_queue
ipc_flush_queue s =
    let p = get_current_process s in
    put_process s s.current_process (record p { ipc_queue = flush_queue p.ipc_queue })
