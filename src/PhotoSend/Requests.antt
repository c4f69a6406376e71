-- ===== src/PhotoSend/Requests.antt =====
-- `photo_trans` of photo_send.c: the photographs that are asked for are sent, each on a connection of
-- its own, and the queue gets a result.
pub mod Answering
pub mod Closing
use handle_wifi_camera_itop.Common.{
  ℕ, ◌==◌, if◌then◌else◌, Bool, true, false, List, [], ◌∷◌, ◌++◌, Option, some, none, take,
}
use handle_wifi_camera_itop.Public.ErrorCode.{
  ok, send_message_to_queue_fail, get_ipc_key_fail, get_addr_shm_id_fail, map_addr_share_mem_fail,
  create_message_queue_fail, recv_message_from_queue_fail, create_tcp_client_socket_fail,
  return_trans_result_to_message_queue_fail,
}
use handle_wifi_camera_itop.MessageQueue.{
  SendPhotoMsg, MsgReply, Ipc, create_message_queue, send_message_to_queue, recv_message_from_queue,
}
use handle_wifi_camera_itop.NetTrans.Send.{SendReply}
use handle_wifi_camera_itop.NetTrans.Packets.{Echo}
use handle_wifi_camera_itop.NetTrans.Sockets.{Kernel, Call, close, init_tcp_client_socket}
use handle_wifi_camera_itop.SharedAddress.{
  Mapping, mapped, null, invalid, Shm, refused, attached, attach,
}
use handle_wifi_camera_itop.PhotoSend.File.{ReadReply, Photo, send_photo_data}

abbrev pub message_queue_trans_photo_over_type : ℕ
message_queue_trans_photo_over_type = 4

abbrev pub photo_trans_socket_port : ℕ
photo_trans_socket_port = 8000

abbrev pub max_photo_path_name_length : ℕ
max_photo_path_name_length = 48

abbrev pub result_msg : List ℕ → Bool → SendPhotoMsg
result_msg photo_path_name is_trans_succeed = record {
  type = message_queue_trans_photo_over_type;
  succeed = is_trans_succeed;
  photo_path_name = take max_photo_path_name_length photo_path_name;
  photo_size = 0;
}

-- The code, and what has been put into the queue.
unfoldable pub return_trans_photo_result_to_message_queue :
    Bool → List ℕ → Bool → ℕ × List SendPhotoMsg
return_trans_photo_result_to_message_queue msgsnd photo_path_name is_trans_succeed =
    if send_message_to_queue msgsnd == ok
    then (ok, result_msg photo_path_name is_trans_succeed ∷ [])
    else (send_message_to_queue_fail, [])

-- The memory is zeroed before each `msgrcv`.
abbrev pub no_photo_msg : SendPhotoMsg
no_photo_msg = record { type = 0; succeed = false; photo_path_name = []; photo_size = 0 }

-- What the outside world answers in one round: to `msgrcv`, `access`, the reading
-- of the shared address, the calls of `init_tcp_client_socket`, those of `send_photo_data`, and
-- `msgsnd`.
pub record Round : Type 0 where
  pub request : MsgReply SendPhotoMsg
  pub accessible : Bool
  pub client_addr : ℕ
  pub kernel : Kernel
  pub can_open : Bool
  pub reads : List ReadReply
  pub file : List ℕ
  pub sends : List (List SendReply)
  pub msgsnd : Bool

-- How a round ends: with the next round; with a `return` of photo_trans; waiting in a call; or at an
-- address that cannot be read.
pub data Ending : Type 0 where
  continue waiting fault : Ending
  exited : ℕ → Ending

-- The results in the queue, and the calls on the sockets, in order.
pub record Trans : Type 0 where
  pub ending : Ending
  pub queued : List SendPhotoMsg
  pub calls : List Call

abbrev trans : Ending → List SendPhotoMsg → List Call → Trans
trans ending queued calls = record { ending = ending; queued = queued; calls = calls }

-- The result goes into the queue, and `closing` is what the round closes.
unfoldable pub give_result : Round → List ℕ → Bool → List Call → List Call → Trans
unfolding return_trans_photo_result_to_message_queue
give_result w path is_trans_succeed calls closing =
    let (ret, msgs) = return_trans_photo_result_to_message_queue w.msgsnd path is_trans_succeed in
    trans (if ret == ok then continue else exited return_trans_result_to_message_queue_fail) msgs
      (calls ++ closing)

abbrev pub send_requested : Round → SendPhotoMsg → Photo
send_requested w msg = send_photo_data w.can_open w.reads w.file w.sends msg.photo_size

-- photo_send.c:270-305, on the connected socket.
unfoldable pub send_on : Round → SendPhotoMsg → ℕ → List Call → Trans
unfolding give_result
send_on w msg fd calls = elim (send_requested w msg).echo.code [
  | none ↦ trans waiting [] calls
  | some ret ↦ give_result w msg.photo_path_name (ret == ok) calls (close fd ∷ [])
]

-- photo_send.c:259-305. The socket number is -1 only with an error code.
unfoldable pub connect_and_send : Round → SendPhotoMsg → Trans
unfolding send_on
connect_and_send w msg =
    let r = init_tcp_client_socket w.kernel w.client_addr photo_trans_socket_port in
    if r.code == ok
    then elim r.socket_fd [ none ↦ trans fault [] r.calls | some fd ↦ send_on w msg fd r.calls ]
    else trans (exited create_tcp_client_socket_fail) [] r.calls

unfoldable pub trans_photo : Mapping → Round → SendPhotoMsg → Trans
unfolding connect_and_send give_result
trans_photo global_addr w msg = elim w.accessible [
  | false ↦ give_result w msg.photo_path_name false [] []
  | true ↦ elim global_addr [
    | mapped ↦ connect_and_send w msg
    | null ↦ trans fault [] []
    | invalid ↦ trans fault [] []
  ]
]

-- One round of `while(1)`.
unfoldable pub photo_round : Mapping → Round → Trans
unfolding trans_photo
photo_round global_addr w =
    let (ret, msg) = recv_message_from_queue w.request no_photo_msg in
    if ret == ok
    then trans_photo global_addr w msg
    else trans (exited recv_message_from_queue_fail) [] []

unfoldable pub photo_rounds : Mapping → List Round → Trans
unfolding photo_round
photo_rounds global_addr [] = trans continue [] []
photo_rounds global_addr (w ∷ ws) =
    let r = photo_round global_addr w in
    let rest = photo_rounds global_addr ws in
    elim r.ending [
      | continue ↦ trans rest.ending (r.queued ++ rest.queued) (r.calls ++ rest.calls)
      | waiting ↦ r
      | fault ↦ r
      | exited _ ↦ r
    ]

abbrev pub ipc_key_seed_for_send_photo_msg : ℕ
ipc_key_seed_for_send_photo_msg = 0x03

-- The key and the queue; `queue` says what the kernel answers to `msgget` for a key. No queue is
-- created, and msg_id stays 0 without one.
unfoldable pub open_send_queue : (ℕ → Option ℕ) → (ℕ → Ipc) → List Round → Mapping → Trans
unfolding photo_rounds
open_send_queue ftok queue ws global_addr = elim (ftok ipc_key_seed_for_send_photo_msg) [
  | none ↦ trans (exited get_ipc_key_fail) [] []
  | some file_send_key ↦
      if (create_message_queue file_send_key false (queue file_send_key)).code == ok
      then photo_rounds global_addr ws
      else trans (exited create_message_queue_fail) [] []
]

unfoldable pub photo_trans : Shm → (ℕ → Ipc) → List Round → Trans
unfolding open_send_queue
photo_trans k queue ws = elim (attach k) [
  | refused code ↦ trans (exited code) [] []
  | attached global_addr ↦ open_send_queue k.ftok queue ws global_addr
]
