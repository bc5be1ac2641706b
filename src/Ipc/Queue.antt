-- ===== src/Ipc/Queue.antt =====
-- The message queue of kernel/ipc/Ipc.c: a ring of 32 slots, and the scans over it. `lock` says
-- whether the spinlock has been created; a section under the lock is one atomic function.
use Prim.Native.Nat.{bit_or}
use void_frame.Prelude.{
  ℕ, zero, suc, ◌+◌, ◌-◌, ◌/◌, ◌%◌, ◌^◌, Bool, true, ◌&&◌, ◌||◌, List, Option, none, some, ltb, leb,
  ◌==◌, if◌then◌else◌, get_or,
}
use void_frame.Prelude.Words.{u64_mod, add32}
use void_frame.Ipc.Message.{
  IpcMessage, IpcMessageType, IpcPriority, low, normal, high, urgent, rank, type_code, max_messages,
  no_message,
}

pub record MessageQueue : Type 0 where
  pub messages : List IpcMessage
  pub head : ℕ
  pub tail : ℕ
  pub count : ℕ
  pub lock : Bool
  pub dropped_count : ℕ
  pub priority_bitmap : ℕ

-- (queue->head + i) % MAX_MESSAGES
abbrev pub slot : ℕ → ℕ → ℕ
slot head i = add32 head i % max_messages

-- The message at that slot: the i-th from the head.
abbrev pub entry : MessageQueue → ℕ → IpcMessage
entry q i = get_or q.messages (slot q.head i) no_message

abbrev pub ensure_lock : MessageQueue → MessageQueue
ensure_lock q = record q { lock = true }

unfoldable pub update_priority_bitmap : ℕ → IpcPriority → ℕ
update_priority_bitmap bitmap p = bit_or bitmap (2 ^ rank p)

-- The loop that sets the bits of the entries `i .. i + n`.
unfoldable pub add_priorities : MessageQueue → ℕ → ℕ → ℕ → ℕ
add_priorities q zero i bitmap = bitmap
add_priorities q (suc n) i bitmap =
    add_priorities q n (i + 1) (update_priority_bitmap bitmap (entry q i).priority)

unfoldable pub recompute_bitmap : MessageQueue → MessageQueue
recompute_bitmap q = record q { priority_bitmap = add_priorities q q.count 0 0 }

-- __builtin_clz on 32 bits: the zeros above the highest of the low `n` bits that is set.
unfoldable pub clz_below : ℕ → ℕ → ℕ
clz_below zero w = 0
clz_below (suc n) w = let rest = clz_below n w in if w / 2 ^ n % 2 == 1 then 0 else rest + 1

-- The priority with that value; `clz ^ 31` is `31 - clz` for a value below 32.
unfoldable pub priority_of : ℕ → IpcPriority
priority_of n = if n == 0 then low else if n == 1 then normal else if n == 2 then high else urgent

unfoldable pub highest_of : ℕ → IpcPriority
unfolding clz_below priority_of
highest_of bitmap = if bitmap == 0 then normal else priority_of (31 - clz_below 32 bitmap)

unfoldable pub get_highest_priority : MessageQueue → IpcPriority
get_highest_priority q = highest_of q.priority_bitmap

pub record Best : Type 0 where
  pub best_idx : ℕ
  pub best_priority : IpcPriority
  pub oldest_time : ℕ

-- The test of find_priority_message for one message.
abbrev pub is_better : IpcPriority → Best → IpcMessage → Bool
is_better min_priority b m =
    leb (rank min_priority) (rank m.priority)
    && (ltb (rank b.best_priority) (rank m.priority)
        || (rank m.priority == rank b.best_priority) && ltb m.timestamp b.oldest_time)

abbrev pub consider : MessageQueue → IpcPriority → ℕ → Best → Best
consider q min_priority i b =
    if is_better min_priority b (entry q i)
    then record {
      best_idx = slot q.head i;
      best_priority = (entry q i).priority;
      oldest_time = (entry q i).timestamp;
    }
    else b

unfoldable pub scan_best : MessageQueue → IpcPriority → ℕ → ℕ → Best → Best
scan_best q min_priority zero i b = b
scan_best q min_priority (suc n) i b =
    scan_best q min_priority n (i + 1) (consider q min_priority i b)

unfoldable pub find_priority_message : MessageQueue → IpcPriority → ℕ
find_priority_message q min_priority = (scan_best q min_priority q.count 0 start).best_idx
  where
    start : Best
    start = record { best_idx = q.head; best_priority = low; oldest_time = u64_mod - 1 }

-- The search of IpcSendMessage for the entry to drop.
pub record Lowest : Type 0 where
  pub lowest : IpcPriority
  pub drop_idx : ℕ

abbrev pub consider_lowest : MessageQueue → ℕ → Lowest → Lowest
consider_lowest q i a =
    if ltb (rank (entry q i).priority) (rank a.lowest)
    then record { lowest = (entry q i).priority; drop_idx = slot q.head i }
    else a

unfoldable pub scan_lowest : MessageQueue → ℕ → ℕ → Lowest → Lowest
scan_lowest q zero i a = a
scan_lowest q (suc n) i a = scan_lowest q n (i + 1) (consider_lowest q i a)

unfoldable pub find_lowest : MessageQueue → Lowest
find_lowest q = scan_lowest q q.count 0 (record { lowest = urgent; drop_idx = q.head })

-- The first loop of IpcReceiveMessageType: the entry of that type nearest to the head.
unfoldable pub find_type : MessageQueue → IpcMessageType → ℕ → ℕ → Option ℕ
find_type q t zero i = none
find_type q t (suc n) i =
    let rest = find_type q t n (i + 1) in
    if type_code (entry q i).type == type_code t then some i else rest
