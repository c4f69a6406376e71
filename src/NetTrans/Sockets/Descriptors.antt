-- ===== src/NetTrans/Sockets/Descriptors.antt =====
-- The descriptors that the functions of net_trans.c open and close.
use handle_wifi_camera_itop.Common.{
  ℕ, suc, ◌≡◌, ◌≢◌, ◌⊎◌, ◌==◌, if◌then◌else◌, List, [], ◌∷◌, some, none, arith,
}
use handle_wifi_camera_itop.Public.ErrorCode.{ok}
use handle_wifi_camera_itop.NetTrans.Sockets.{
  Call, close, Kernel, Opened, init_tcp_server_socket, init_tcp_client_socket,
}

-- How often the calls close the descriptor.
abbrev pub closes : ℕ → List Call → ℕ
closes fd [] = 0
closes fd (close other ∷ calls) =
    let rest = closes fd calls in if fd == other then suc rest else rest
closes fd (_ ∷ calls) = closes fd calls

-- The descriptor that the kernel handed out is returned open on success, and closed once otherwise.
abbrev pub Accounted : Kernel → Opened → Type 0
Accounted k r =
    ((r.code ≡ ok)
      × ((fd : ℕ) × (k.new_socket ≡ some fd) × (r.socket_fd ≡ some fd) × (closes fd r.calls ≡ 0)))
    ⊎ ((r.code ≢ ok)
        × ((k.new_socket ≡ none) ⊎ ((fd : ℕ) × (k.new_socket ≡ some fd) × (closes fd r.calls ≡ 1))))

init_tcp_server_socket-Accounted :
    (k : Kernel) (port : ℕ) → Accounted k (init_tcp_server_socket k port)
unfolding init_tcp_server_socket
init_tcp_server_socket-Accounted k port = ground arith

init_tcp_client_socket-Accounted :
    (k : Kernel) (ip port : ℕ) → Accounted k (init_tcp_client_socket k ip port)
unfolding init_tcp_client_socket
init_tcp_client_socket-Accounted k ip port = ground arith

-- Whatever the kernel answers, `init_tcp_server_socket` and `init_tcp_client_socket` return OK with
-- the new descriptor open, or an error with the descriptor closed exactly once (or never obtained).
pub init_tcp_sockets-Accounted :
    (k : Kernel) (ip port : ℕ)
    → Accounted k (init_tcp_server_socket k port) × Accounted k (init_tcp_client_socket k ip port)
init_tcp_sockets-Accounted k ip port =
    (init_tcp_server_socket-Accounted k port, init_tcp_client_socket-Accounted k ip port)
