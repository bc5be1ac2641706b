-- ===== src/Ipc/Send.antt =====
-- IpcSendMessage, IpcSendRequest, IpcSendResponse and ToData. `now` is what GetSystemTicks
-- returns; a null pointer is `none`; the request id goes through `request_id` as a result.
use void_frame.Prelude.{
  ℕ, ◌-◌, ◌%◌, Bool, true, false, ◌&&◌, List, Option, none, some, ltb, leb, if◌then◌else◌, set,
  length,
}
use void_frame.Prelude.Words.{add32, add64}
use void_frame.Ipc.Message.{
  IpcMessage, low, normal, high, rank, request, response, request_payload, response_payload,
  max_messages, ipc_max_payload, IpcResult, success, queue_full, no_process, invalid_msg,
}
use void_frame.Ipc.Queue.{MessageQueue, ensure_lock, recompute_bitmap, find_lowest}
use void_frame.Ipc.Process.{
  ProcessState, blocked, ready, System, get_current_process_by_pid, process_at, get_current_process,
  put_process,
}

-- The slot that the message goes to, and the queue with its counters moved; none when it is full
-- and no entry has to give way.
unfoldable pub place : MessageQueue → IpcMessage → Option (ℕ × MessageQueue)
place q msg =
    if leb max_messages q.count
    then (if ltb (rank low) (rank msg.priority)
          && ltb (rank (find_lowest q).lowest) (rank msg.priority)
        then some ((find_lowest q).drop_idx, record q { dropped_count = add32 q.dropped_count 1 })
        else none)
    else some (q.tail, record q { tail = add32 q.tail 1 % max_messages; count = add32 q.count 1 })

abbrev pub stamp : IpcMessage → ℕ → ℕ → IpcMessage
stamp msg now id = record msg { timestamp = now; sequence_id = id }

unfoldable pub store : MessageQueue → ℕ → IpcMessage → MessageQueue
store q dest msg = recompute_bitmap (record q { messages = set q.messages dest msg })

abbrev pub wake : ProcessState → ProcessState
wake blocked = ready
wake other = other

-- The part of IpcSendMessage under the queue's lock, on the process at `index`: what follows the
-- choice of a slot, and the whole.
unfoldable pub delivered :
    System → ℕ → ℕ → IpcMessage → Option (ℕ × MessageQueue) → IpcResult × System
delivered s now index msg none =
    let p = process_at s index in
    (queue_full, put_process s index (record p { ipc_queue = ensure_lock p.ipc_queue }))
delivered s now index msg (some (dest, q)) =
    let p = process_at s index in
    (
      success,
      record s {
        processes = set s.processes index (record p {
          ipc_queue = store q dest (stamp msg now s.next_sequence_id);
          state = wake p.state;
        });
        next_sequence_id = add32 s.next_sequence_id 1;
      },
    )

unfoldable pub deliver : System → ℕ → ℕ → IpcMessage → IpcResult × System
unfolding delivered
deliver s now index msg =
    delivered s now index msg (place (ensure_lock (process_at s index).ipc_queue) msg)

unfoldable pub ipc_send_message : System → ℕ → ℕ → Option IpcMessage → IpcResult × System
ipc_send_message s now target_pid none = (invalid_msg, s)
ipc_send_message s now target_pid (some msg) = elim (get_current_process_by_pid s target_pid) [
  | none ↦ (no_process, s)
  | some index ↦ deliver s now index msg
]

-- The request data is `none` for a null pointer; `size` of its bytes are copied.
unfoldable pub request_message : ℕ → ℕ → List ℕ → IpcMessage
request_message sender id contents = record {
  sender_pid = sender;
  sequence_id = 0;
  type = request;
  priority = normal;
  timestamp = 0;
  size = add64 (length contents) 8;
  payload = request_payload id 0 contents;
}

-- `wants_id` says that `request_id` is not null. The identifier is returned when one was drawn.
unfoldable pub ipc_send_request :
    System → ℕ → ℕ → Option (List ℕ) → Bool → IpcResult × Option ℕ × System
ipc_send_request s now target_pid none wants_id = (invalid_msg, none, s)
ipc_send_request s now target_pid (some contents) false = (invalid_msg, none, s)
ipc_send_request s now target_pid (some contents) true =
    if ltb (ipc_max_payload - 8) (length contents)
    then (invalid_msg, none, s)
    else (let id = s.next_sequence_id in
        let msg = request_message (get_current_process s).pid id contents in
        let s' = record s { next_sequence_id = add32 id 1 } in
        let (r, t) = ipc_send_message s' now target_pid (some msg) in (r, some id, t))

unfoldable pub response_message : ℕ → ℕ → ℕ → List ℕ → IpcMessage
response_message sender id status contents = record {
  sender_pid = sender;
  sequence_id = 0;
  type = response;
  priority = high;
  timestamp = 0;
  size = add64 (length contents) 8;
  payload = response_payload id status contents;
}

unfoldable pub ipc_send_response : System → ℕ → ℕ → ℕ → List ℕ → ℕ → IpcResult × System
ipc_send_response s now target_pid id contents status =
    if ltb (ipc_max_payload - 8) (length contents)
    then (invalid_msg, s)
    else ipc_send_message s now target_pid
        (some (response_message (get_current_process s).pid id status contents))
