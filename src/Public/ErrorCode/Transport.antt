-- ===== src/Public/ErrorCode/Transport.antt =====
-- `enum error_code_list` of public.h: the codes of sockets and message queues, with the values of
-- the C enumeration.
use Prim.Native.Nat.{ℕ}

abbrev pub ok : ℕ
ok = 0

abbrev pub ftok_ipc_key_fail : ℕ
ftok_ipc_key_fail = 1

abbrev pub get_ipc_key_fail : ℕ
get_ipc_key_fail = 2

abbrev pub create_tcp_server_socket_fail : ℕ
create_tcp_server_socket_fail = 3

abbrev pub create_tcp_client_socket_fail : ℕ
create_tcp_client_socket_fail = 4

abbrev pub connect_server_fail : ℕ
connect_server_fail = 5

abbrev pub set_socket_reuse_addr_fail : ℕ
set_socket_reuse_addr_fail = 6

abbrev pub set_socket_send_timeout_fail : ℕ
set_socket_send_timeout_fail = 7

abbrev pub set_socket_nodelay_fail : ℕ
set_socket_nodelay_fail = 8

abbrev pub socket_bind_addr_fail : ℕ
socket_bind_addr_fail = 9

abbrev pub listen_socket_fail : ℕ
listen_socket_fail = 10

abbrev pub tcp_socket_send_fail : ℕ
tcp_socket_send_fail = 11

abbrev pub udp_socket_send_fail : ℕ
udp_socket_send_fail = 12

abbrev pub no_data_to_recv : ℕ
no_data_to_recv = 13

abbrev pub tcp_socket_recv_fail : ℕ
tcp_socket_recv_fail = 14

abbrev pub tcp_connectiong_has_been_closed : ℕ
tcp_connectiong_has_been_closed = 15

abbrev pub msgget_fail : ℕ
msgget_fail = 16

abbrev pub msgctl_fail : ℕ
msgctl_fail = 17

abbrev pub msgsnd_fail : ℕ
msgsnd_fail = 18

abbrev pub msgrcv_fail : ℕ
msgrcv_fail = 19

abbrev pub no_message_in_queue : ℕ
no_message_in_queue = 20
