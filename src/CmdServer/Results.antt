-- ===== src/CmdServer/Results.antt =====
-- `check_take_photo_results` and `check_send_photo_results` of cmd_server.c: the finished photographs
-- are taken from a queue and reported to the phone.

pub mod Echoing
use handle_wifi_camera_itop.Common.{
  ℕ, ◌==◌, if◌then◌else◌, false, List, [], ◌∷◌, ◌++◌, Option, some, none,
}
use handle_wifi_camera_itop.Public.ErrorCode.{
  ok, no_message_in_queue, send_take_photo_cmd_echo_fail, send_send_photo_cmd_echo_fail,
  recv_message_from_queue_fail,
}
use handle_wifi_camera_itop.NetTrans.Send.{SendReply}
use handle_wifi_camera_itop.MessageQueue.{
  MsgReply, TakePhotoMsg, SendPhotoMsg, recv_message_from_queue,
}
use handle_wifi_camera_itop.NetTrans.Packets.{Echo, answered, and_then, first_of, others_of}
use handle_wifi_camera_itop.CmdServer.Commands.{send_take_photo_cmd_echo, send_send_photo_cmd_echo}

-- The loop that both functions have: `replies` are the answers of `msgrcv`, and `sends` those of the
-- kernel to each answer that is sent.
module _ {A : Type 0} (echo_fail : ℕ) (send_cmd_echo : List SendReply → A → Echo) where
  unfoldable pub check_results : List (MsgReply A) → List (List SendReply) → A → Echo
  check_results [] sends msg = answered none []
  check_results (reply ∷ replies) sends msg =
      let (ret, msg') = recv_message_from_queue reply msg in
      let rest = check_results replies (others_of sends) msg' in
      if ret == no_message_in_queue
      then answered (some ok) []
      else (if ret == ok
          then and_then echo_fail (send_cmd_echo (first_of sends) msg') rest
          else answered (some recv_message_from_queue_fail) [])

abbrev pub take_photo_echo : List SendReply → TakePhotoMsg → Echo
take_photo_echo replies msg =
    send_take_photo_cmd_echo replies msg.photo_name msg.succeed msg.photo_size

abbrev pub send_photo_echo : List SendReply → SendPhotoMsg → Echo
send_photo_echo replies msg =
    send_send_photo_cmd_echo replies msg.photo_path_name msg.succeed msg.photo_size

unfoldable pub check_take_photo_results :
    List (MsgReply TakePhotoMsg) → List (List SendReply) → Echo
unfolding check_results
check_take_photo_results replies sends =
    check_results send_take_photo_cmd_echo_fail take_photo_echo replies sends
      (record { type = 0; succeed = false; photo_name = []; photo_size = 0 })

pub check_send_photo_results : List (MsgReply SendPhotoMsg) → List (List SendReply) → Echo
unfolding check_results
check_send_photo_results replies sends =
    check_results send_send_photo_cmd_echo_fail send_photo_echo replies sends
      (record { type = 0; succeed = false; photo_path_name = []; photo_size = 0 })
