-- ===== src/Tests/Photos.antt =====
-- The photo sender: a file of three bytes, and the rounds that ask for it.
use handle_wifi_camera_itop.Common.{
  ℕ, ◌≤◌, ◌≡◌, refl, Bool, true, false, List, [], ◌∷◌, some, arith, replicate,
}
use mathlib.Core.List.{flatten}
use handle_wifi_camera_itop.Public.ErrorCode.{ok, open_picture_file_fail}
use handle_wifi_camera_itop.NetTrans.Sockets.{Kernel, init_tcp_client_socket}
use handle_wifi_camera_itop.NetTrans.Send.Delivery.{progress}
use handle_wifi_camera_itop.NetTrans.Packets.{answered, send_packet}
use handle_wifi_camera_itop.NetTrans.Send.{SendReply, accepts, tcp_send_data}
use handle_wifi_camera_itop.MessageQueue.{SendPhotoMsg, received, failed}
use handle_wifi_camera_itop.SharedAddress.{mapped}
use handle_wifi_camera_itop.PhotoSend.File.{ReadReply, gives, again, send_photo_data}
use handle_wifi_camera_itop.PhotoSend.File.Sending.{IsSent, send_photo_data-IsSent}
use handle_wifi_camera_itop.PhotoSend.File.Progress.{send_photo_data_returns}
use handle_wifi_camera_itop.PhotoSend.Requests.{
  Round, photo_rounds, result_msg, photo_round, trans_photo, connect_and_send, send_on, give_result,
  return_trans_photo_result_to_message_queue,
}
use handle_wifi_camera_itop.PhotoSend.Requests.Answering.{IsAnswered, photo_rounds-IsAnswered}
use handle_wifi_camera_itop.PhotoSend.Requests.Closing.{ClosesAll, photo_rounds-ClosesAll}

abbrev picture : List ℕ
picture = 0xFF ∷ 0xD8 ∷ 0xFF ∷ []

abbrev all_at_once : List SendReply
all_at_once = accepts 1400 ∷ []

abbrev in_two_reads : List ReadReply
in_two_reads = gives 0 ∷ again ∷ gives 7 ∷ gives 7 ∷ []

sent_photo_bytes :
    (send_photo_data true in_two_reads picture (all_at_once ∷ all_at_once ∷ []) 3).echo.sent
    ≡ 0 ∷ 0 ∷ 0 ∷ 3 ∷ 0xFF ∷ 0xD8 ∷ 0xFF ∷ []
unfolding send_photo_data send_packet tcp_send_data flatten
sent_photo_bytes = refl

send_photo_data-IsSent_example :
    IsSent picture 3 (send_photo_data true in_two_reads picture (all_at_once ∷ all_at_once ∷ []) 3)
    × (send_photo_data false in_two_reads picture (all_at_once ∷ all_at_once ∷ []) 3
        ≡ record { echo = answered (some open_picture_file_fail) []; closed = 0 })
send_photo_data-IsSent_example =
    send_photo_data-IsSent in_two_reads picture (all_at_once ∷ all_at_once ∷ []) 3

abbrev byte_by_byte : List SendReply
byte_by_byte = replicate 1400 (accepts 1)

abbrev turns : List (List SendReply)
turns = byte_by_byte ∷ byte_by_byte ∷ byte_by_byte ∷ byte_by_byte ∷ []

send_photo_data_returns_example :
    ((send_photo_data true in_two_reads picture turns 3).echo.code ≡ some ok)
    × ((send_photo_data true in_two_reads picture turns 3).closed ≡ 1)
send_photo_data_returns_example =
    let each : 1400 ≤ progress byte_by_byte = omega arith in
    send_photo_data_returns in_two_reads picture turns 3 tt (omega arith) (omega arith)
      (tt, each, (tt, each, (tt, each, (tt, each, tt)))) (omega arith)

abbrev wanted : SendPhotoMsg
wanted = record { type = 3; succeed = false; photo_path_name = 0x61 ∷ 0 ∷ []; photo_size = 3 }

abbrev phone : Kernel
phone = record {
  new_socket = some 7;
  set_reuse_addr = λ _. true;
  set_nodelay = λ _. true;
  do_bind = λ _ _. true;
  do_listen = λ _ _. true;
  do_connect = λ _ _ _. true;
}

abbrev asks : Bool → Round
asks accessible = record {
  request = received wanted;
  accessible = accessible;
  client_addr = 0x0A00A8C0;
  kernel = phone;
  can_open = true;
  reads = in_two_reads;
  file = picture;
  sends = all_at_once ∷ all_at_once ∷ [];
  msgsnd = true;
}

abbrev no_more : Round
no_more = record (asks true) { request = failed }

abbrev asked_twice : List Round
asked_twice = asks true ∷ asks false ∷ no_more ∷ []

one_sent_one_missing :
    (photo_rounds mapped asked_twice).queued
    ≡ result_msg (0x61 ∷ 0 ∷ []) true ∷ result_msg (0x61 ∷ 0 ∷ []) false ∷ []
unfolding photo_rounds photo_round trans_photo connect_and_send send_on give_result
    return_trans_photo_result_to_message_queue init_tcp_client_socket send_photo_data send_packet
    tcp_send_data flatten
one_sent_one_missing = refl

photo_rounds-IsAnswered_example : IsAnswered asked_twice (photo_rounds mapped asked_twice)
photo_rounds-IsAnswered_example = photo_rounds-IsAnswered mapped asked_twice

photo_rounds-ClosesAll_example : ClosesAll 7 (photo_rounds mapped asked_twice)
photo_rounds-ClosesAll_example = photo_rounds-ClosesAll mapped asked_twice 7
