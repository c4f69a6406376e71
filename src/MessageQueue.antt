-- ===== src/MessageQueue.antt =====
-- message_queue.h and message_queue.c: the System V queues between the processes. The kernel's
-- answers are parameters.
use handle_wifi_camera_itop.Common.{ℕ, Bool, true, false, List, [], ◌∷◌, ◌++◌, Option, some, none}
use handle_wifi_camera_itop.Public.ErrorCode.{
  ok, msgget_fail, msgctl_fail, msgsnd_fail, msgrcv_fail, no_message_in_queue,
}

abbrev pub message_queue_take_photo_type : ℕ
message_queue_take_photo_type = 1

pub record TakePhotoMsg : Type 0 where
  pub type : ℕ
  pub succeed : Bool
  pub photo_name : List ℕ
  pub photo_size : ℕ

pub record SendPhotoMsg : Type 0 where
  pub type : ℕ
  pub succeed : Bool
  pub photo_path_name : List ℕ
  pub photo_size : ℕ

-- The system calls that are made, with the key or the queue that they are made on.
pub data IpcCall : Type 0 where
  get_new get remove : ℕ → IpcCall

-- What `msgget` answers with IPC_EXCL: a new queue, EEXIST, or another error.
pub data NewReply : Type 0 where
  made : ℕ → NewReply
  exists refused : NewReply

-- `first`, `second` and `last` are the answers to the calls of `msgget` in order; `none` is -1.
pub record Ipc : Type 0 where
  pub first : NewReply
  pub second : Option ℕ
  pub last : Option ℕ

pub record Created : Type 0 where
  pub code : ℕ
  pub msg_id : Option ℕ
  pub calls : List IpcCall

-- What is done about a queue that is there already. A failed second `msgget` leads to a `msgctl` on
-- -1, which the kernel refuses.
replace : ℕ → Ipc → List IpcCall
replace key ipc = elim ipc.first [
  | exists ↦ get_new key ∷ get key ∷ elim ipc.second [ none ↦ [] | some id ↦ remove id ∷ [] ]
  | _ ↦ get_new key ∷ []
]

unfoldable pub create_message_queue : ℕ → Bool → Ipc → Created
unfolding replace
create_message_queue key is_create_flag ipc =
    let before : List IpcCall = elim is_create_flag [ true ↦ replace key ipc | false ↦ [] ] in
    elim ipc.last [
      | none ↦ record { code = msgget_fail; msg_id = none; calls = before ++ (get key ∷ []) }
      | some id ↦ record { code = ok; msg_id = some id; calls = before ++ (get key ∷ []) }
    ]

-- `true` says that `msgctl`, or `msgsnd`, succeeds.
abbrev pub del_message_queue : Bool → ℕ
del_message_queue true = ok
del_message_queue false = msgctl_fail

abbrev pub send_message_to_queue : Bool → ℕ
send_message_to_queue true = ok
send_message_to_queue false = msgsnd_fail

-- What `msgrcv` answers: the first message of the type, ENOMSG, or another error.
pub data MsgReply {ℓ} (A : Type ℓ) : Type ℓ where
  received : A → MsgReply A
  no_message : MsgReply A
  failed : MsgReply A

-- The code, and msg_buf, which keeps its old value without a message.
abbrev pub recv_message_from_queue {ℓ} : {A : Type ℓ} → MsgReply A → A → ℕ × A
recv_message_from_queue (received m) msg_buf = (ok, m)
recv_message_from_queue no_message msg_buf = (no_message_in_queue, msg_buf)
recv_message_from_queue failed msg_buf = (msgrcv_fail, msg_buf)
