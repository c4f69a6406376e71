-- ===== src/NetTrans/Recv.antt =====
-- `tcp_recv_data` of net_trans.c.
pub mod Reception
use handle_wifi_camera_itop.Common.{
  ℕ, zero, suc, ◌-◌, ◌==◌, min, if◌then◌else◌, Bool, true, false, List, [], ◌∷◌, ◌++◌, Option, some,
  none, length, take, drop,
}
use handle_wifi_camera_itop.Public.ErrorCode.{
  ok, no_data_to_recv, tcp_socket_recv_fail, tcp_connectiong_has_been_closed,
}

-- What the kernel answers to one `recv`: suc n bytes have arrived (or the end of the peer's
-- stream), there are none yet (EAGAIN), the call is interrupted (EINTR), or it fails.
pub data RecvReply : Type 0 where
  arrives : ℕ → RecvReply
  eagain eintr failed : RecvReply

-- `code` is `none` while the loop still waits; `buff` is what has been written to the buffer, and
-- `stream` what the peer has sent and nobody has read.
pub record Received : Type 0 where
  pub code : Option ℕ
  pub buff : List ℕ
  pub stream : List ℕ
  pub replies : List RecvReply

-- MSG_DONTWAIT of <sys/socket.h>.
abbrev pub msg_dontwait : ℕ
msg_dontwait = 0x40

abbrev pub stop : Option ℕ → List ℕ → List ℕ → List RecvReply → Received
stop code buff stream replies = record {
  code = code;
  buff = buff;
  stream = stream;
  replies = replies;
}

-- The loop `while(0 != buff_len)` under MSG_DONTWAIT (`true`) or 0 (`false`); `buff` holds
-- have_recv_len bytes. A `recv` of 0 bytes means that the peer has closed the connection.
pub recv_loop : Bool → List RecvReply → List ℕ → List ℕ → ℕ → Received
recv_loop dontwait replies stream buff zero = stop (some ok) buff stream replies
recv_loop dontwait [] stream buff (suc buff_len) = stop none buff stream []
recv_loop dontwait (arrives n ∷ replies) [] buff (suc buff_len) =
    stop (some tcp_connectiong_has_been_closed) buff [] replies
recv_loop dontwait (arrives n ∷ replies) (b ∷ stream) buff (suc buff_len) =
    let chunk = take (min (suc n) (suc buff_len)) (b ∷ stream) in
    recv_loop dontwait replies (drop (length chunk) (b ∷ stream)) (buff ++ chunk)
      (suc buff_len - length chunk)
recv_loop true (eagain ∷ replies) stream [] (suc buff_len) =
    stop (some no_data_to_recv) [] stream replies
recv_loop true (eagain ∷ replies) stream (b ∷ buff) (suc buff_len) =
    recv_loop true replies stream (b ∷ buff) (suc buff_len)
recv_loop false (eagain ∷ replies) stream buff (suc buff_len) =
    recv_loop false replies stream buff (suc buff_len)
recv_loop dontwait (eintr ∷ replies) stream buff (suc buff_len) =
    recv_loop dontwait replies stream buff (suc buff_len)
recv_loop dontwait (failed ∷ replies) stream buff (suc buff_len) =
    stop (some tcp_socket_recv_fail) buff stream replies

-- With another flag no `recv` is called, recv_len stays 0, and the loop never ends.
recv_spin : List RecvReply → List ℕ → ℕ → Received
recv_spin replies stream zero = stop (some ok) [] stream replies
recv_spin replies stream (suc buff_len) = stop none [] stream replies

unfoldable pub tcp_recv_data : List RecvReply → List ℕ → ℕ → ℕ → Received
unfolding recv_loop recv_spin
tcp_recv_data replies stream buff_len flag =
    if flag == msg_dontwait
    then recv_loop true replies stream [] buff_len
    else (if flag == 0
        then recv_loop false replies stream [] buff_len
        else recv_spin replies stream buff_len)
