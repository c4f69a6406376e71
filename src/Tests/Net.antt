-- ===== src/Tests/Net.antt =====
-- The functions of net_trans.c on small buffers.
use handle_wifi_camera_itop.Common.{ℕ, ◌≡◌, refl, true, false, List, [], ◌∷◌, some, arith}
use handle_wifi_camera_itop.Public.ErrorCode.{ok}
use handle_wifi_camera_itop.NetTrans.Send.{SendReply, accepts, eintr, eagain, tcp_send_data}
use handle_wifi_camera_itop.NetTrans.Send.Delivery.{
  Delivers, tcp_send_data-Delivers, tcp_send_data_returns,
}
use handle_wifi_camera_itop.NetTrans.Recv.{RecvReply, arrives, msg_dontwait, tcp_recv_data}
use handle_wifi_camera_itop.NetTrans.Recv
use handle_wifi_camera_itop.NetTrans.Recv.Reception.{Reads, tcp_recv_data-Reads}
use handle_wifi_camera_itop.NetTrans.Sockets.{
  Kernel, init_tcp_server_socket, init_tcp_client_socket,
}
use handle_wifi_camera_itop.NetTrans.Sockets.Descriptors.{Accounted, init_tcp_sockets-Accounted}

abbrev bytes : List ℕ
bytes = 10 ∷ 20 ∷ 30 ∷ 40 ∷ 50 ∷ []

abbrev taking : List SendReply
taking = accepts 2 ∷ eintr ∷ accepts 1 ∷ eagain ∷ accepts 9 ∷ []

abbrev arriving : List RecvReply
arriving = arrives 1 ∷ Recv.eagain ∷ arrives 0 ∷ Recv.eintr ∷ arrives 7 ∷ []

-- `listen` fails.
abbrev deaf : Kernel
deaf = record {
  new_socket = some 3;
  set_reuse_addr = λ _. true;
  set_nodelay = λ _. true;
  do_bind = λ _ _. true;
  do_listen = λ _ _. false;
  do_connect = λ _ _ _. true;
}

sending : (tcp_send_data taking bytes 5).chunks ≡ (10 ∷ 20 ∷ []) ∷ (30 ∷ []) ∷ (40 ∷ 50 ∷ []) ∷ []
unfolding tcp_send_data
sending = refl

receiving : (tcp_recv_data arriving bytes 4 msg_dontwait).buff ≡ 10 ∷ 20 ∷ 30 ∷ 40 ∷ []
unfolding tcp_recv_data
receiving = refl

nothing_yet : (tcp_recv_data (Recv.eagain ∷ arriving) bytes 4 msg_dontwait).buff ≡ []
unfolding tcp_recv_data
nothing_yet = refl

tcp_recv_data-Reads_example :
    Reads true [] bytes 4 (tcp_recv_data arriving bytes 4 msg_dontwait)
    × Reads false [] bytes 4 (tcp_recv_data arriving bytes 4 0)
tcp_recv_data-Reads_example = tcp_recv_data-Reads arriving bytes 4

tcp_send_data-Delivers_example : Delivers bytes 0 5 (tcp_send_data taking bytes 5)
tcp_send_data-Delivers_example = tcp_send_data-Delivers taking bytes 5

tcp_send_data_returns_example : (tcp_send_data taking bytes 3).code ≡ some ok
tcp_send_data_returns_example = tcp_send_data_returns taking bytes 3 tt (omega arith)

init_tcp_sockets-Accounted_example :
    Accounted deaf (init_tcp_server_socket deaf 554)
    × Accounted deaf (init_tcp_client_socket deaf 0x0100007f 554)
init_tcp_sockets-Accounted_example = init_tcp_sockets-Accounted deaf 0x0100007f 554
