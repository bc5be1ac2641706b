-- ===== src/Ipc/Tests.antt =====
-- IPC at concrete inputs: a kernel process and a service, and messages of two priorities.
use void_frame.Prelude.{
  ℕ, zero, suc, ◌<◌, ◌≤◌, ◌≡◌, refl, ◌↔◌, ◌⊎◌, true, none, some, [], ◌∷◌, arith,
}
use void_frame.Prelude.Words.{test_bit}
use void_frame.Ipc.Message.{
  IpcMessage, data_message, IpcPriority, low, high, rank, value, success, no_process, no_message,
}
use void_frame.Ipc.Queue.{
  MessageQueue, entry, recompute_bitmap, find_priority_message, scan_best, get_highest_priority,
}
use void_frame.Ipc.Process.{
  Process, running, empty_queue, System, get_current_process, get_current_process_by_pid,
}
use void_frame.Ipc.Send.{ipc_send_message, deliver, place, store, stamp}
use void_frame.Ipc.Receive.{
  receive_round, receive_type_round, drop_head, shift_to_head, ipc_receive_message,
}
use void_frame.Ipc.View.{contents}
use void_frame.Ipc.Bitmap.{Queued, bitmap_exact, get_highest_priority-Queued}
use void_frame.Ipc.Best.{IsBest}
use void_frame.Ipc.Dequeue.{
  Waits, Takes, NoneOf, IsFirst, receive_round_lem, receive_type_round_lem,
}
use void_frame.Ipc.Table.{AllValid, empty_queue-IsValid}
use void_frame.Ipc.Reach.{Reach, here, next, sends, Reach-AllValid}
use void_frame.Ipc.Delivery.{Delivers, ipc_send_message_lem, ipc_receive_message_served}

abbrev message : IpcPriority → ℕ → IpcMessage
message p v = record no_message { sender_pid = 1; priority = p; payload = value v }

abbrev service : Process
service = record { pid = 7; state = running; ipc_queue = empty_queue }

abbrev kernel : Process
kernel = record { pid = 1; state = running; ipc_queue = empty_queue }

abbrev small_system : System
small_system = record {
  processes = kernel ∷ service ∷ [];
  current_process = 1;
  next_sequence_id = 5;
}

small_system-AllValid : AllValid small_system
small_system-AllValid zero = empty_queue-IsValid
small_system-AllValid (suc zero) = empty_queue-IsValid
small_system-AllValid (suc (suc i)) = empty_queue-IsValid

service_found : get_current_process_by_pid small_system 7 ≡ some 1
unfolding get_current_process_by_pid
service_found = refl

-- The system after two sends to the service, the second more urgent.
abbrev after_sends : System
after_sends =
    (ipc_send_message (ipc_send_message small_system 10 7 (some (message low 1))).1 11 7
      (some (message high 2))).1

two_sends : Reach small_system after_sends
two_sends =
    next (next here (sends 10 7 (some (message low 1)) (omega arith)))
      (sends 11 7 (some (message high 2)) (omega arith))

after_sends-AllValid : AllValid after_sends
after_sends-AllValid = Reach-AllValid two_sends small_system-AllValid

-- The urgent message is received first.
urgent_first :
    (receive_round (get_current_process after_sends)).0 ≡ some (stamp (message high 2) 11 6)
unfolding receive_round ipc_send_message deliver get_current_process_by_pid place store
    recompute_bitmap find_priority_message scan_best drop_head shift_to_head
urgent_first = refl

Reach-AllValid_example : AllValid after_sends
Reach-AllValid_example = Reach-AllValid two_sends small_system-AllValid

ipc_send_message_lem_example :
    let (r, t) = ipc_send_message small_system 10 7 (some (message low 1)) in
    ((get_current_process_by_pid small_system 7 ≡ none) × (r ≡ no_process) × (t ≡ small_system))
    ⊎ ((index : ℕ) × (get_current_process_by_pid small_system 7 ≡ some index)
        × Delivers small_system t index (stamp (message low 1) 10 5) r)
ipc_send_message_lem_example =
    ipc_send_message_lem small_system 10 7 (message low 1) (omega arith) small_system-AllValid

receive_round_lem_example :
    let p = get_current_process after_sends in
    let (m, p') = receive_round p in
    ((p.ipc_queue.count ≡ 0) × Waits p p' m) ⊎ ((k : ℕ) × IsBest p.ipc_queue k × Takes p p' m k)
receive_round_lem_example =
    receive_round_lem (get_current_process after_sends) (after_sends-AllValid _)

receive_type_round_lem_example :
    let p = get_current_process after_sends in
    let (m, p') = receive_type_round data_message p in
    (NoneOf data_message p.ipc_queue × Waits p p' m)
    ⊎ ((k : ℕ) × IsFirst data_message p.ipc_queue k × Takes p p' m k)
receive_type_round_lem_example =
    receive_type_round_lem data_message (get_current_process after_sends) (after_sends-AllValid _)

ipc_receive_message_served_example :
    let send = λ (u : System). (ipc_send_message u 10 7 (some (message low 1))).1 in
    (t : System) × (ipc_receive_message true (send ∷ []) small_system
      ≡ some (success, some (stamp (message low 1) 10 5), t))
    × (contents (get_current_process t).ipc_queue ≡ [])
ipc_receive_message_served_example =
    ipc_receive_message_served small_system 10 7 (message low 1) (omega arith) small_system-AllValid
      service_found refl

abbrev loaded : MessageQueue
loaded = (get_current_process after_sends).ipc_queue

bitmap_exact_example : (test_bit loaded.priority_bitmap (rank high) ≡ true) ↔ Queued loaded high
bitmap_exact_example = bitmap_exact loaded high (after_sends-AllValid after_sends.current_process)

loaded_count : loaded.count ≡ 2
unfolding ipc_send_message deliver get_current_process_by_pid place store recompute_bitmap
loaded_count = refl

get_highest_priority-Queued_example :
    Queued loaded (get_highest_priority loaded)
    × ((i : ℕ)
        → i < loaded.count
        → rank (entry loaded i).priority ≤ rank (get_highest_priority loaded))
get_highest_priority-Queued_example =
    get_highest_priority-Queued loaded (after_sends-AllValid after_sends.current_process)
      (omega (arith, loaded_count))
