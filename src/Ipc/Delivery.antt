-- ===== src/Ipc/Delivery.antt =====
-- From the sender to the receiver: what a send does to the target and to nobody else, and that a
-- waiting receiver gets the message that is sent to it.
use mathlib.Core.Option
use void_frame.Prelude.{
  ℕ, zero, suc, ◌<◌, ◌≡◌, refl, sym, ap, ap₂, subst, ◌∙◌, ◌≢◌, ◌⊎◌, inl, inr, true, false, Option,
  none, some, List, [], ◌∷◌, ◌++◌, arith, length, set, get_or, get_or-set_self, get_or-set_ne,
  length-set, Option-cases, remove_at, tabulate,
}
use void_frame.Prelude.Words.{u64_mod}
use void_frame.Ipc.Message.{IpcMessage, IpcResult, success, queue_full, no_process}
use void_frame.Ipc.Queue.{MessageQueue, entry, ensure_lock}
use void_frame.Ipc.Process.{
  ProcessState, blocked, System, Process, is_terminated, no_process_entry, process_at,
  get_current_process, get_current_process_by_pid,
}
use void_frame.Ipc.Send.{ipc_send_message, deliver, delivered, place, store, stamp, wake}
use void_frame.Ipc.Receive.{after_round, receive_round, receive_loop, ipc_receive_message}
use void_frame.Ipc.View.{IsValid, contents, ensure_lock-IsValid}
use void_frame.Ipc.Enqueue.{Enqueues, Appends, Replaces, Refuses, enqueue_lem}
use void_frame.Ipc.Dequeue.{receive_round_lem, Waits}
use void_frame.Ipc.Table.{
  AllValid, put_process-AllValid, get_current_process_by_pid-found,
  get_current_process_by_pid-put_process,
}

-- What a send that reached the process at `index` did.
pub record Delivers (s t : System) (index : ℕ) (m : IpcMessage) (r : IpcResult) : Type 0 where
  pub outcome :
      let q = ensure_lock (process_at s index).ipc_queue in
      let q' = (process_at t index).ipc_queue in
      ((r ≡ success) × (Appends q m q' ⊎ Replaces q m q'))
      ⊎ ((r ≡ queue_full) × Refuses q m × (q' ≡ q))
  pub valid : IsValid (process_at t index).ipc_queue
  pub awake : r ≡ success → (process_at t index).state ≢ blocked
  pub others : (j : ℕ) → j ≢ index → process_at t j ≡ process_at s j
  pub current : t.current_process ≡ s.current_process
  pub size : length t.processes ≡ length s.processes

wake-ne : (x : ProcessState) → wake x ≢ blocked
wake-ne x e = ground arith

deliver-Delivers :
    (s : System) (now index : ℕ) (msg : IpcMessage)
    → now < u64_mod
    → index < length s.processes
    → IsValid (process_at s index).ipc_queue
    → let (r, t) = deliver s now index msg in
      Delivers s t index (stamp msg now s.next_sequence_id) r
unfolding deliver
deliver-Delivers s now index msg small inside v =
    go (place q msg) (enqueue_lem q msg m refl small (ensure_lock-IsValid v))
  where
    q : MessageQueue
    q = ensure_lock (process_at s index).ipc_queue

    m : IpcMessage
    m = stamp msg now s.next_sequence_id

    written : (p : Process) → get_or (set s.processes index p) index no_process_entry ≡ p
    written p = get_or-set_self s.processes index p no_process_entry inside

    others :
        (p : Process) (j : ℕ)
        → j ≢ index
        → get_or (set s.processes index p) j no_process_entry ≡ process_at s j
    others p j ne = get_or-set_ne s.processes index j p no_process_entry (λ e. ne (sym e))

    go :
        (o : Option (ℕ × MessageQueue))
        → Enqueues q m (Option.map (λ r. store r.1 r.0 m) o)
        → let (r, t) = delivered s now index msg o in Delivers s t index m r
    go none e = record {
      outcome = inr (refl, e, ap (λ p. p.ipc_queue) (written _));
      valid = rw (written _) (ensure_lock-IsValid v);
      awake = λ e. cc;
      others = others _;
      current = refl;
      size = length-set s.processes index _;
    }
    go (some (dest, q')) e = record {
      outcome = inl (refl, rw (written _) e.1);
      valid = rw (written _) e.0;
      awake = λ _. rw (written _) (wake-ne (process_at s index).state);
      others = others _;
      current = refl;
      size = length-set s.processes index _;
    }

-- Every branch of a send of `msg`: no such process, or the queue of the target has taken it, with
-- its stamp and the next sequence number, or has refused it. No other process is touched, and a
-- target that has been given a message does not stay blocked.
pub ipc_send_message_lem :
    (s : System) (now pid : ℕ) (msg : IpcMessage)
    → now < u64_mod
    → AllValid s
    → let (r, t) = ipc_send_message s now pid (some msg) in
      ((get_current_process_by_pid s pid ≡ none) × (r ≡ no_process) × (t ≡ s))
      ⊎ ((index : ℕ) × (get_current_process_by_pid s pid ≡ some index)
          × Delivers s t index (stamp msg now s.next_sequence_id) r)
unfolding ipc_send_message
ipc_send_message_lem s now pid msg small all =
    elim (Option-cases (get_current_process_by_pid s pid)) [
      | inl e ↦ rw (e, ipc_send_message) (inl (refl, refl, refl))
      | inr (index, e) ↦
          rw (e, ipc_send_message)
            (inr (
              index,
              refl,
              deliver-Delivers s now index msg small
                  (get_current_process_by_pid-found s pid index e).0 (all index),
            ))
    ]

contents_nil : (n : ℕ) (f : ℕ → IpcMessage) → tabulate n f ≡ [] → n ≡ 0
contents_nil zero f e = refl
contents_nil (suc n) f e = cc

contents_single :
    (n : ℕ) (f : ℕ → IpcMessage) (m : IpcMessage) → tabulate n f ≡ m ∷ [] → (n ≡ 1) × (f 0 ≡ m)
contents_single zero f m e = cc
contents_single (suc zero) f m e = (refl, cc)
contents_single (suc (suc n)) f m e = cc

some_inj : {a b : ℕ} → some a ≡ some b → a ≡ b
some_inj e = cc

none_of_some : {a : ℕ} → none ≡ some a → ⊥
none_of_some e = cc

-- An empty queue takes any message.
sent_to_empty :
    (s : System) (now pid index : ℕ) (msg : IpcMessage)
    → now < u64_mod
    → AllValid s
    → get_current_process_by_pid s pid ≡ some index
    → (process_at s index).ipc_queue.count ≡ 0
    → let t = (ipc_send_message s now pid (some msg)).1 in
      (contents (process_at t index).ipc_queue ≡ stamp msg now s.next_sequence_id ∷ [])
      × IsValid (process_at t index).ipc_queue
      × (t.current_process ≡ s.current_process)
      × (length t.processes ≡ length s.processes)
sent_to_empty s now pid index msg small all found empty =
    elim (ipc_send_message_lem s now pid msg small all) [
      | inl (lost, _, _) ↦ absurd (none_of_some (sym lost ∙ found))
      | inr (i, e, d) ↦ let same : i ≡ index = some_inj (sym e ∙ found) in go i same d
    ]
  where
    t : System
    t = (ipc_send_message s now pid (some msg)).1

    m : IpcMessage
    m = stamp msg now s.next_sequence_id

    q : MessageQueue
    q = ensure_lock (process_at s index).ipc_queue

    arrived :
        Delivers s t index m (ipc_send_message s now pid (some msg)).0
        → (contents (process_at t index).ipc_queue ≡ m ∷ [])
          × IsValid (process_at t index).ipc_queue
          × (t.current_process ≡ s.current_process)
          × (length t.processes ≡ length s.processes)
    arrived d = elim d.outcome [
      | inl (_, inl app) ↦
          (app.1 ∙ ap (λ n. tabulate n (entry q) ++ (m ∷ [])) empty, d.valid, d.current, d.size)
      | inl (_, inr rep) ↦ absurd (omega (arith, rep.1))
      | inr (_, refused, _) ↦ absurd (omega (arith, refused.0))
    ]

    go :
        (i : ℕ)
        → i ≡ index
        → Delivers s t i m (ipc_send_message s now pid (some msg)).0
        → (contents (process_at t index).ipc_queue ≡ m ∷ [])
          × IsValid (process_at t index).ipc_queue
          × (t.current_process ≡ s.current_process)
          × (length t.processes ≡ length s.processes)
    go i same d =
        arrived (subst (λ j. Delivers s t j m (ipc_send_message s now pid (some msg)).0) same d)

-- The one message of a queue is what the next round takes.
takes_single :
    (p : Process) (m : IpcMessage)
    → IsValid p.ipc_queue
    → contents p.ipc_queue ≡ m ∷ []
    → let (r, p') = receive_round p in (r ≡ some m) × (contents p'.ipc_queue ≡ [])
takes_single p m v one = elim (receive_round_lem p v) [
  | inl (empty, _) ↦ absurd (omega (arith, single.0))
  | inr (k, best, takes) ↦
      let first : k ≡ 0 = omega (arith, single.0, best.queued) in
      (
        takes.message ∙ ap (λ j. some (entry p.ipc_queue j)) first ∙ ap some single.1,
        takes.rest ∙ ap₂ remove_at one first,
      )
]
  where
    single : (p.ipc_queue.count ≡ 1) × (entry p.ipc_queue 0 ≡ m)
    single = contents_single p.ipc_queue.count (entry p.ipc_queue) m one

loop_found :
    (round : Process → Option IpcMessage × Process) (s : System) (m : IpcMessage)
    → (round (get_current_process s)).0 ≡ some m
    → receive_loop round [] s ≡ some (m, after_round round s)
unfolding receive_loop
loop_found round s m e = ap (Option.map (λ x. (x, after_round round s))) e

loop_waits :
    (round : Process → Option IpcMessage × Process) (f : System → System)
    (fs : List (System → System)) (s : System)
    → (round (get_current_process s)).0 ≡ none
    → receive_loop round (f ∷ fs) s ≡ receive_loop round fs (f (after_round round s))
unfolding receive_loop
loop_waits round f fs s e = rw (e, receive_loop)

-- A receiver whose queue is empty blocks; when a message is then sent to it, its next round
-- returns that message, and the queue is empty again.
pub ipc_receive_message_served :
    (s : System) (now pid : ℕ) (msg : IpcMessage)
    → now < u64_mod
    → AllValid s
    → get_current_process_by_pid s pid ≡ some s.current_process
    → (get_current_process s).ipc_queue.count ≡ 0
    → let send = λ (u : System). (ipc_send_message u now pid (some msg)).1 in
      (t : System) × (ipc_receive_message true (send ∷ []) s
        ≡ some (success, some (stamp msg now s.next_sequence_id), t))
      × (contents (get_current_process t).ipc_queue ≡ [])
unfolding ipc_receive_message
ipc_receive_message_served s now pid msg small all found empty =
    elim (receive_round_lem (get_current_process s) (all s.current_process)) [
      | inr (k, best, _) ↦ absurd (omega (arith, best.queued))
      | inl (_, waits) ↦
          let (message, left) = second waits in
          (
            after_round receive_round (u waits),
            ap (Option.map (λ r. (success, some r.0, r.1))) (
                loop_waits receive_round _ [] s waits.message
                ∙ loop_found receive_round _ m message),
            left,
          )
    ]
  where
    c : ℕ
    c = s.current_process

    p1 : Process
    p1 = (receive_round (get_current_process s)).1

    s1 : System
    s1 = after_round receive_round s

    u : Waits (get_current_process s) p1 (receive_round (get_current_process s)).0 → System
    u w = (ipc_send_message s1 now pid (some msg)).1

    m : IpcMessage
    m = stamp msg now s.next_sequence_id

    target :
        (c < length s.processes)
        × ((process_at s c).pid ≡ pid)
        × (is_terminated (process_at s c).state ≡ false)
    target = get_current_process_by_pid-found s pid c found

    second :
        (w : Waits (get_current_process s) p1 (receive_round (get_current_process s)).0)
        → ((receive_round (get_current_process (u w))).0 ≡ some m)
          × (contents (get_current_process (after_round receive_round (u w))).ipc_queue ≡ [])
    second w =
        let at : process_at s1 c ≡ p1 =
          get_or-set_self s.processes c p1 no_process_entry target.0 in
        let valid1 : AllValid s1 = put_process-AllValid s c p1 all w.valid in
        let found1 =
          get_current_process_by_pid-put_process s pid c p1 w.pid (rw (w.state, target.2))
          ∙ found in
        let none_left : p1.ipc_queue.count ≡ 0 =
          contents_nil p1.ipc_queue.count (entry p1.ipc_queue)
            (w.rest ∙ ap (λ n. tabulate n (entry (process_at s c).ipc_queue)) empty) in
        let (one, valid2, current, size) =
          sent_to_empty s1 now pid c msg small valid1 found1 (rw at none_left) in
        let takes =
          takes_single (get_current_process (u w)) m (rw current valid2) (rw current one) in
        let inside : (u w).current_process < length (u w).processes =
          omega (arith, current, size, target.0, length-set s.processes c p1) in
        (
          takes.0,
          rw
              (get_or-set_self (u w).processes (u w).current_process
                (receive_round (get_current_process (u w))).1 no_process_entry inside)
              takes.1,
        )
