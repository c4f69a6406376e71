-- ===== src/CmdServer/Serving.antt =====
-- The loop over the commands of one client in `cmd_server` (cmd_server.c:499-607).
pub mod Releasing
use handle_wifi_camera_itop.Common.{
  ℕ, ◌==◌, if◌then◌else◌, Bool, true, false, List, [], ◌∷◌, ◌++◌, Option, some, none,
}
use handle_wifi_camera_itop.Public.ErrorCode.{
  ok, no_data_to_recv, tcp_connectiong_has_been_closed, recv_cmd_fail, dispose_syn_time_fail,
  dispose_take_photo_fail, recv_unknow_cmd, check_take_photo_results_fail,
}
use handle_wifi_camera_itop.NetTrans.Send.{SendReply}
use handle_wifi_camera_itop.NetTrans.Recv.{RecvReply}
use handle_wifi_camera_itop.MessageQueue.{MsgReply, TakePhotoMsg}
use handle_wifi_camera_itop.NetTrans.Packets.{Echo}
use handle_wifi_camera_itop.CmdServer.Commands.{
  returned, waits, overruns, recv_cmd, le32_value, syn_time_cmd, take_photo_cmd,
  dispose_syn_time_cmd, dispose_take_photo_cmd,
}
use handle_wifi_camera_itop.CmdServer.Results.{check_take_photo_results}

-- What the server holds: the sockets, the two queues, the mapped address and its shared memory.
pub data Resource : Type 0 where
  listen_socketfd cmd_socketfd : Resource
  msg_id_for_take_photo msg_id_for_send_file : Resource
  global_addr shm_id : Resource

-- What the client has sent and is unread, the requests put into the queue, the bytes sent to the
-- client, and what has been closed, removed or detached, in order.
pub record Server : Type 0 where
  pub stream : List ℕ
  pub queued : List TakePhotoMsg
  pub sent : List ℕ
  pub released : List Resource

-- What the outside world answers in one round: to the two `tcp_recv_data`, to `stime` and the sending
-- of its answer, to `msgsnd`, to `msgrcv`, and to the sending of the results.
pub record Round : Type 0 where
  pub head : List RecvReply
  pub body : List RecvReply
  pub stime : ℕ → Bool
  pub sending : List SendReply
  pub msgsnd : Bool
  pub results : List (MsgReply TakePhotoMsg)
  pub sends : List (List SendReply)

-- The next round; the next `accept`; a `return` of cmd_server; waiting in a call; or a command that
-- overruns its buffer.
pub data Next : Type 0 where
  continue next_client waiting overrun : Server → Next
  exited : ℕ → Server → Next

-- The clean-up that every `return` in the loop has.
pub leave : ℕ → Server → Next
leave code s = exited code (record s {
  released =
      s.released
      ++ (listen_socketfd ∷ cmd_socketfd ∷ msg_id_for_take_photo ∷ msg_id_for_send_file
          ∷ global_addr ∷ shm_id ∷ []);
})

-- A function with an answer to the client has ended.
after_echo : ℕ → Echo → (Server → Next) → Server → Next
unfolding leave
after_echo fail echo done s =
    let s' = record s { sent = s.sent ++ echo.sent } in
    elim echo.code [ none ↦ waiting s' | some ret ↦ if ret == ok then done s' else leave fail s' ]

-- cmd_server.c:591-606.
report_results : Round → Server → Next
unfolding after_echo
report_results w s =
    after_echo check_take_photo_results_fail (check_take_photo_results w.results w.sends) continue s

on_syn_time : Round → List ℕ → Server → Next
unfolding after_echo
on_syn_time w cmd s =
    after_echo dispose_syn_time_fail (dispose_syn_time_cmd w.stime w.sending cmd) (report_results w)
      s

on_take_photo : Round → List ℕ → Server → Next
unfolding leave
on_take_photo w cmd s =
    let (ret, msgs) = dispose_take_photo_cmd w.msgsnd cmd in
    if ret == ok
    then report_results w (record s { queued = s.queued ++ msgs })
    else leave dispose_take_photo_fail s

-- The `switch` on cmd_number.
dispatch : Round → List ℕ → Server → Next
unfolding on_syn_time on_take_photo leave
dispatch w cmd s =
    let cmd_number = le32_value cmd in
    if cmd_number == syn_time_cmd
    then on_syn_time w cmd s
    else (if cmd_number == take_photo_cmd then on_take_photo w cmd s else leave recv_unknow_cmd s)

-- After `recv_cmd`.
on_received : Round → ℕ → List ℕ → Server → Next
unfolding dispatch report_results leave
on_received w ret cmd s =
    if ret == no_data_to_recv
    then report_results w s
    else (if ret == ok
        then dispatch w cmd s
        else (if ret == tcp_connectiong_has_been_closed
            then next_client (record s { released = s.released ++ (cmd_socketfd ∷ []) })
            else leave recv_cmd_fail s))

unfoldable pub round : Round → Server → Next
unfolding on_received
round w s = elim (recv_cmd w.head w.body s.stream) [
  | returned ret cmd stream ↦ on_received w ret cmd (record s { stream = stream })
  | waits stream ↦ waiting (record s { stream = stream })
  | overruns stream ↦ overrun (record s { stream = stream })
]

-- The rounds of one client.
unfoldable pub rounds : List Round → Server → Next
unfolding round
rounds [] s = continue s
rounds (w ∷ ws) s = elim (round w s) [
  | continue s' ↦ rounds ws s'
  | next_client s' ↦ next_client s'
  | waiting s' ↦ waiting s'
  | overrun s' ↦ overrun s'
  | exited code s' ↦ exited code s'
]
