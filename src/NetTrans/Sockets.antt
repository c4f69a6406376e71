-- ===== src/NetTrans/Sockets.antt =====
-- `init_tcp_server_socket` and `init_tcp_client_socket` of net_trans.c.
pub mod Descriptors
use handle_wifi_camera_itop.Common.{
  ℕ, Bool, true, false, List, [], ◌∷◌, ◌++◌, Option, some, none, if◌then◌else◌,
}
use handle_wifi_camera_itop.Public.ErrorCode.{
  ok, create_tcp_server_socket_fail, create_tcp_client_socket_fail, connect_server_fail,
  set_socket_reuse_addr_fail, set_socket_nodelay_fail, socket_bind_addr_fail, listen_socket_fail,
}

-- The system calls that the two functions make, with the descriptor that they are made on.
pub data Call : Type 0 where
  socket : Call
  reuse_addr nodelay close : ℕ → Call
  bind : ℕ → ℕ → Call
  listen : ℕ → ℕ → Call
  connect : ℕ → ℕ → ℕ → Call

-- What the kernel answers: `none` is the -1 of `socket`, `false` the failure of another call.
pub record Kernel : Type 0 where
  pub new_socket : Option ℕ
  pub set_reuse_addr : ℕ → Bool
  pub set_nodelay : ℕ → Bool
  pub do_bind : ℕ → ℕ → Bool
  pub do_listen : ℕ → ℕ → Bool
  pub do_connect : ℕ → ℕ → ℕ → Bool

-- The value returned, `*socket_fd` (`none` is -1), and the calls in order.
pub record Opened : Type 0 where
  pub code : ℕ
  pub socket_fd : Option ℕ
  pub calls : List Call

abbrev opened : ℕ → Option ℕ → List Call → Opened
opened code fd calls = record { code = code; socket_fd = fd; calls = calls }

-- The commented-out SO_SNDTIMEO block of the source is not there.
server_on : Kernel → ℕ → ℕ → Opened
server_on k port fd =
    let upto_bind = socket ∷ reuse_addr fd ∷ nodelay fd ∷ bind fd port ∷ [] in
    if k.set_reuse_addr fd
    then (if k.set_nodelay fd
        then (if k.do_bind fd port
            then (if k.do_listen fd 20
                then opened ok (some fd) (upto_bind ++ listen fd 20 ∷ [])
                else opened listen_socket_fail (some fd)
                    (upto_bind ++ listen fd 20 ∷ close fd ∷ []))
            else opened socket_bind_addr_fail (some fd) (upto_bind ++ close fd ∷ []))
        else opened set_socket_nodelay_fail (some fd)
            (socket ∷ reuse_addr fd ∷ nodelay fd ∷ close fd ∷ []))
    else opened set_socket_reuse_addr_fail (some fd) (socket ∷ reuse_addr fd ∷ close fd ∷ [])

unfoldable pub init_tcp_server_socket : Kernel → ℕ → Opened
unfolding server_on
init_tcp_server_socket k port = elim k.new_socket [
  | none ↦ opened create_tcp_server_socket_fail none (socket ∷ [])
  | some fd ↦ server_on k port fd
]

unfoldable pub init_tcp_client_socket : Kernel → ℕ → ℕ → Opened
init_tcp_client_socket k server_ip_addr port = elim k.new_socket [
  | none ↦ opened create_tcp_client_socket_fail none (socket ∷ [])
  | some fd ↦
      let upto_connect = socket ∷ connect fd server_ip_addr port ∷ [] in
      if k.do_connect fd server_ip_addr port
      then opened ok (some fd) upto_connect
      else opened connect_server_fail (some fd) (upto_connect ++ close fd ∷ [])
]
