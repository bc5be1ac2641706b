-- ===== src/Ipc/Message.antt =====
-- The messages of kernel/ipc/Ipc.h. A byte of a payload is a number; a message holds the arm of
-- the union that its writer filled in.
use void_frame.Prelude.{ℕ, List, []}

abbrev pub max_messages : ℕ
max_messages = 32

abbrev pub ipc_max_payload : ℕ
ipc_max_payload = 512

pub data IpcMessageType : Type 0 where
  data_message notification request response signal broadcast urgent_message : IpcMessageType

abbrev pub type_code : IpcMessageType → ℕ
type_code data_message = 0
type_code notification = 1
type_code request = 2
type_code response = 3
type_code signal = 4
type_code broadcast = 5
type_code urgent_message = 6

pub data IpcPriority : Type 0 where
  low normal high urgent : IpcPriority

-- The value of the enumerator.
abbrev pub rank : IpcPriority → ℕ
rank low = 0
rank normal = 1
rank high = 2
rank urgent = 3

pub data Payload : Type 0 where
  bytes : List ℕ → Payload
  value : ℕ → Payload
  request_payload : ℕ → ℕ → List ℕ → Payload
  response_payload : ℕ → ℕ → List ℕ → Payload

pub record IpcMessage : Type 0 where
  pub sender_pid : ℕ
  pub sequence_id : ℕ
  pub type : IpcMessageType
  pub priority : IpcPriority
  pub timestamp : ℕ
  pub size : ℕ
  pub payload : Payload

-- What a zeroed slot of the ring holds.
abbrev pub no_message : IpcMessage
no_message = record {
  sender_pid = 0;
  sequence_id = 0;
  type = data_message;
  priority = low;
  timestamp = 0;
  size = 0;
  payload = bytes [];
}

pub data IpcResult : Type 0 where
  success queue_full no_process invalid_msg timeout interrupted : IpcResult
