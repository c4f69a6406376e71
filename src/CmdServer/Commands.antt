-- ===== src/CmdServer/Commands.antt =====
-- The packets of cmd_server.h, and the functions of cmd_server.c that read a command and write an
-- answer.
pub mod Framing
use mathlib.Core.List.{flatten}
use handle_wifi_camera_itop.Common.{
  ℕ, ◌+◌, ◌*◌, ◌==◌, ltb, if◌then◌else◌, Bool, true, false, List, [], ◌∷◌, ◌++◌, Option, some, none,
  length, take, drop, get_or, replicate, le32, htonl,
}
use handle_wifi_camera_itop.Public.ErrorCode.{
  ok, take_syn_time_fail, tcp_send_data_fail, send_syn_time_echo_fail, send_message_to_queue_fail,
}
use handle_wifi_camera_itop.NetTrans.Send.{SendReply, tcp_send_data}
use handle_wifi_camera_itop.NetTrans.Packets.{Echo, send_packet}
use handle_wifi_camera_itop.NetTrans.Recv.{RecvReply, msg_dontwait, tcp_recv_data}
use handle_wifi_camera_itop.MessageQueue.{
  TakePhotoMsg, message_queue_take_photo_type, send_message_to_queue,
}

abbrev pub max_cmd_length : ℕ
max_cmd_length = 1200

abbrev pub max_photo_name_length : ℕ
max_photo_name_length = 25

abbrev pub max_photo_path_name_length : ℕ
max_photo_path_name_length = 48

abbrev pub syn_time_cmd : ℕ
syn_time_cmd = 0x01

abbrev pub echo_syn_time_cmd : ℕ
echo_syn_time_cmd = 0x02

abbrev pub take_photo_cmd : ℕ
take_photo_cmd = 0x07

abbrev pub echo_take_photo_cmd : ℕ
echo_take_photo_cmd = 0x08

abbrev pub echo_send_photo_cmd : ℕ
echo_send_photo_cmd = 0x0C

-- A native int read from memory.
abbrev pub le32_value : List ℕ → ℕ
le32_value d = get_or d 0 0 + get_or d 1 0 * 256 + get_or d 2 0 * 0x10000 + get_or d 3 0 * 0x1000000

abbrev pub flag_byte : Bool → ℕ
flag_byte true = 1
flag_byte false = 0

-- How `recv_cmd` ends: with a code, `cmd` (zeroed before the call) and what is unread; waiting for
-- the client; or writing past the 1200 bytes of `cmd`, which C leaves undefined.
pub data Command : Type 0 where
  returned : ℕ → List ℕ → List ℕ → Command
  waits overruns : List ℕ → Command

-- The body of the command, after its length.
recv_body : List RecvReply → List ℕ → ℕ → Command
recv_body replies stream cmd_len =
    let r = tcp_recv_data replies stream cmd_len 0 in
    if ltb max_cmd_length (length r.buff) then overruns r.stream else elim r.code [
      | none ↦ waits r.stream
      | some ret ↦ returned ret (r.buff ++ replicate max_cmd_length 0) r.stream
    ]

-- `head` and `body` are the kernel's answers while the length and the command are read.
unfoldable pub recv_cmd : List RecvReply → List RecvReply → List ℕ → Command
unfolding recv_body
recv_cmd head body stream =
    let r = tcp_recv_data head stream 4 msg_dontwait in
    elim r.code [
      | none ↦ waits r.stream
      | some ret ↦
          if ret == ok
          then recv_body body r.stream (le32_value r.buff)
          else returned ret [] r.stream
    ]

-- `tcp_send_data` of an answer, as each of the three functions below calls it.
unfoldable pub send_echo : List SendReply → List ℕ → ℕ → Echo
send_echo replies packet size = send_packet tcp_send_data_fail replies packet size

-- syn_time_echo, photo_snapshot_echo and photo_send. The numbers of the last are not swapped, nor is
-- CMD in the first.
abbrev pub syn_time_echo : Bool → List ℕ
syn_time_echo flag = le32 (htonl 5) ++ (le32 echo_syn_time_cmd ++ (flag_byte flag ∷ []))

abbrev pub sizeof_syn_time_echo : ℕ
sizeof_syn_time_echo = 9

abbrev pub sizeof_photo_snapshot : ℕ
sizeof_photo_snapshot = 34

abbrev pub photo_snapshot_echo : List ℕ → Bool → ℕ → List ℕ
photo_snapshot_echo photo_name flag photo_size =
    le32 (htonl sizeof_photo_snapshot)
    ++ (le32 (htonl echo_take_photo_cmd)
        ++ ((flag_byte flag ∷ [])
            ++ (take max_photo_name_length photo_name ++ le32 (htonl photo_size))))

abbrev pub sizeof_photo_snapshot_echo : ℕ
sizeof_photo_snapshot_echo = 38

abbrev pub photo_send : List ℕ → Bool → ℕ → List ℕ
photo_send photo_path_name flag photo_size =
    le32 echo_send_photo_cmd
    ++ ((flag_byte flag ∷ [])
        ++ (take max_photo_path_name_length photo_path_name ++ le32 photo_size))

abbrev pub sizeof_photo_send : ℕ
sizeof_photo_send = 57

pub send_syn_time_echo : List SendReply → Bool → Echo
unfolding send_echo
send_syn_time_echo replies flag = send_echo replies (syn_time_echo flag) sizeof_syn_time_echo

unfoldable pub send_take_photo_cmd_echo : List SendReply → List ℕ → Bool → ℕ → Echo
unfolding send_echo
send_take_photo_cmd_echo replies photo_name flag photo_size =
    send_echo replies (photo_snapshot_echo photo_name flag photo_size) sizeof_photo_snapshot_echo

unfoldable pub send_send_photo_cmd_echo : List SendReply → List ℕ → Bool → ℕ → Echo
unfolding send_echo
send_send_photo_cmd_echo replies photo_path_name flag photo_size =
    send_echo replies (photo_send photo_path_name flag photo_size) sizeof_photo_send

-- The `time` field of syn_time lies behind CMD and is_succeed.
pub time_field : List ℕ → ℕ
time_field cmd = le32_value (drop 5 cmd)

-- `stime` says for a time whether the clock can be set to it.
pub take_syn_time : (ℕ → Bool) → List ℕ → ℕ
unfolding time_field
take_syn_time stime cmd = elim (stime (time_field cmd)) [ true ↦ ok | false ↦ take_syn_time_fail ]

-- The answer says whether the clock has been set.
pub dispose_syn_time_cmd : (ℕ → Bool) → List SendReply → List ℕ → Echo
unfolding take_syn_time
dispose_syn_time_cmd stime replies cmd =
    let echo =
      if take_syn_time stime cmd == ok
      then send_syn_time_echo replies true
      else send_syn_time_echo replies false in
    record {
      code = elim echo.code [
        | none ↦ none
        | some ret ↦ if ret == ok then some ok else some send_syn_time_echo_fail
      ];
      sent = echo.sent;
    }

-- The message that `dispose_take_photo_cmd` puts into the queue.
pub take_photo_msg : List ℕ → TakePhotoMsg
take_photo_msg cmd = record {
  type = message_queue_take_photo_type;
  succeed = false;
  photo_name = take max_photo_name_length (drop 5 cmd);
  photo_size = 0;
}

-- The code, and the message that has been put into the queue.
unfoldable pub dispose_take_photo_cmd : Bool → List ℕ → ℕ × List TakePhotoMsg
unfolding take_photo_msg
dispose_take_photo_cmd msgsnd cmd =
    if send_message_to_queue msgsnd == ok
    then (ok, take_photo_msg cmd ∷ [])
    else (send_message_to_queue_fail, [])
