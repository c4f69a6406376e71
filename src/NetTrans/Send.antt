-- ===== src/NetTrans/Send.antt =====
-- `tcp_send_data` and `udp_send_data` of net_trans.c.
pub mod Delivery
use handle_wifi_camera_itop.Common.{
  ℕ, zero, suc, ◌+◌, ◌-◌, min, List, [], ◌∷◌, Option, some, none, take, drop,
}
use handle_wifi_camera_itop.Public.ErrorCode.{ok, tcp_socket_send_fail, udp_socket_send_fail}

-- What the kernel answers to one `send`: it takes up to n of the bytes offered, it is interrupted
-- (EINTR), it would block (EAGAIN), or it fails with another errno.
pub data SendReply : Type 0 where
  accepts : ℕ → SendReply
  eintr eagain failed : SendReply

-- `code` is the value returned, `none` while the loop still waits for an answer of the kernel;
-- `chunks` are the bytes that each successful call took.
pub record Sent : Type 0 where
  pub code : Option ℕ
  pub chunks : List (List ℕ)

abbrev pub returned : ℕ → Sent
returned c = record { code = some c; chunks = [] }

abbrev pub waiting : Sent
waiting = record { code = none; chunks = [] }

abbrev pub add_chunk : List ℕ → Sent → Sent
add_chunk c s = record s { chunks = c ∷ s.chunks }

-- The loop `while(0 != buff_len)`, which both functions have: `have` is have_send_len.
pub send_loop : ℕ → List ℕ → List SendReply → ℕ → ℕ → Sent
send_loop fail buff replies have zero = returned ok
send_loop fail buff [] have (suc buff_len) = waiting
send_loop fail buff (accepts n ∷ replies) have (suc buff_len) =
    let send_len = min n (suc buff_len) in
    add_chunk (take send_len (drop have buff))
      (send_loop fail buff replies (have + send_len) (suc buff_len - send_len))
send_loop fail buff (eintr ∷ replies) have (suc buff_len) =
    send_loop fail buff replies have (suc buff_len)
send_loop fail buff (eagain ∷ replies) have (suc buff_len) =
    send_loop fail buff replies have (suc buff_len)
send_loop fail buff (failed ∷ replies) have (suc buff_len) = returned fail

unfoldable pub tcp_send_data : List SendReply → List ℕ → ℕ → Sent
unfolding send_loop
tcp_send_data replies buff buff_len = send_loop tcp_socket_send_fail buff replies 0 buff_len

pub udp_send_data : List SendReply → List ℕ → ℕ → Sent
unfolding send_loop
udp_send_data replies buff buff_len = send_loop udp_socket_send_fail buff replies 0 buff_len
