-- ===== src/Tests/Commands.antt =====
-- A TAKE_PHOTO command of the phone and the answer.
use mathlib.Core.List.{flatten}
use handle_wifi_camera_itop.Common.{ℕ, ◌≡◌, refl, true, false, List, [], ◌∷◌, ◌++◌, replicate}
use handle_wifi_camera_itop.NetTrans.Send.{accepts, tcp_send_data}
use handle_wifi_camera_itop.NetTrans.Recv.{RecvReply, arrives, tcp_recv_data}
use handle_wifi_camera_itop.NetTrans.Recv
use handle_wifi_camera_itop.MessageQueue.{
  MsgReply, received, no_message, TakePhotoMsg, SendPhotoMsg,
}
use handle_wifi_camera_itop.CmdServer.Commands.{
  recv_cmd, dispose_take_photo_cmd, send_take_photo_cmd_echo, send_echo,
}
use handle_wifi_camera_itop.CmdServer.Commands.Framing.{IsFramed, recv_cmd-IsFramed}
use handle_wifi_camera_itop.CmdServer.Results.{
  check_results, check_take_photo_results, check_send_photo_results,
}
use handle_wifi_camera_itop.NetTrans.Packets.{send_packet}
use handle_wifi_camera_itop.NetTrans.Packets.Echoing.{Echoed}
use handle_wifi_camera_itop.CmdServer.Results.Echoing.{
  finished, all_bytes, photo_bytes, sent_bytes, check_results-all,
}
use handle_wifi_camera_itop.CmdServer.Serving.{Server, Round, continue, round, rounds}
use handle_wifi_camera_itop.CmdServer.Serving.Releasing.{Releases, rounds-Releases}

abbrev photo_name : List ℕ
photo_name = b'a' ∷ replicate 24 0

-- The length 34, then TAKE_PHOTO_CMD, the flag, the name and the size.
abbrev stream : List ℕ
stream = 34 ∷ 0 ∷ 0 ∷ 0 ∷ 7 ∷ 0 ∷ 0 ∷ 0 ∷ 0 ∷ (photo_name ++ (0 ∷ 0 ∷ 0 ∷ 0 ∷ []))

abbrev head : List RecvReply
head = arrives 3 ∷ []

abbrev body : List RecvReply
body = arrives 9 ∷ Recv.eagain ∷ arrives 99 ∷ []

abbrev taken : List (MsgReply TakePhotoMsg)
taken =
    received (record { type = 2; succeed = true; photo_name = photo_name; photo_size = 70000 })
    ∷ no_message
    ∷ []

abbrev sent : List (MsgReply SendPhotoMsg)
sent = no_message ∷ []

abbrev start : Server
start = record { stream = stream; queued = []; sent = []; released = [] }

abbrev one_round : Round
one_round = record {
  head = head;
  body = body;
  stime = λ _. true;
  sending = [];
  msgsnd = true;
  results = taken;
  sends = (accepts 100 ∷ []) ∷ [];
}

abbrev answer : List ℕ
answer = 0 ∷ 0 ∷ 0 ∷ 34 ∷ 0 ∷ 0 ∷ 0 ∷ 8 ∷ 1 ∷ (photo_name ++ (0 ∷ 1 ∷ 0x11 ∷ 0x70 ∷ []))

photo_taken :
    rounds (one_round ∷ []) start
    ≡ continue (record {
      stream = [];
      queued = record { type = 1; succeed = false; photo_name = photo_name; photo_size = 0 } ∷ [];
      sent = answer;
      released = [];
    })
unfolding rounds round recv_cmd tcp_recv_data dispose_take_photo_cmd check_take_photo_results
    check_results send_take_photo_cmd_echo send_echo send_packet tcp_send_data flatten
photo_taken = refl

recv_cmd-IsFramed_example : IsFramed stream (recv_cmd head body stream)
recv_cmd-IsFramed_example = recv_cmd-IsFramed head body stream

check_results-all_example :
    Echoed (all_bytes photo_bytes (finished taken)) (check_take_photo_results taken [])
    × Echoed (all_bytes sent_bytes (finished sent)) (check_send_photo_results sent [])
check_results-all_example = check_results-all taken sent []

rounds-Releases_example : Releases start (rounds (one_round ∷ []) start)
rounds-Releases_example = rounds-Releases (one_round ∷ []) start
