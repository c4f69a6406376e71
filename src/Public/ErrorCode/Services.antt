-- ===== src/Public/ErrorCode/Services.antt =====
-- `enum error_code_list` of public.h: the codes of processes, commands and start-up, with the
-- values of the C enumeration.
use Prim.Native.Nat.{ℕ}

abbrev pub sem_open_fail : ℕ
sem_open_fail = 47

abbrev pub fork_cmd_server_fail : ℕ
fork_cmd_server_fail = 48

abbrev pub cmd_server_running_fail : ℕ
cmd_server_running_fail = 49

abbrev pub sem_wait_fail : ℕ
sem_wait_fail = 50

abbrev pub sem_close_fail : ℕ
sem_close_fail = 51

abbrev pub sem_unlink_fail : ℕ
sem_unlink_fail = 52

abbrev pub fork_video_server_fail : ℕ
fork_video_server_fail = 53

abbrev pub video_server_running_fail : ℕ
video_server_running_fail = 54

abbrev pub fork_photo_trans_client_fail : ℕ
fork_photo_trans_client_fail = 55

abbrev pub photo_trans_client_running_fail : ℕ
photo_trans_client_running_fail = 56

abbrev pub get_addr_shm_id_fail : ℕ
get_addr_shm_id_fail = 57

abbrev pub map_addr_share_mem_fail : ℕ
map_addr_share_mem_fail = 58

abbrev pub create_message_queue_fail : ℕ
create_message_queue_fail = 59

abbrev pub sem_post_fail : ℕ
sem_post_fail = 60

abbrev pub init_cmd_socket_fail : ℕ
init_cmd_socket_fail = 61

abbrev pub accept_cmd_socket_fail : ℕ
accept_cmd_socket_fail = 62

abbrev pub recv_cmd_fail : ℕ
recv_cmd_fail = 63

abbrev pub recv_cmd_data_length_fail : ℕ
recv_cmd_data_length_fail = 64

abbrev pub recv_cmd_data_fail : ℕ
recv_cmd_data_fail = 65

abbrev pub send_message_to_queue_fail : ℕ
send_message_to_queue_fail = 66

abbrev pub take_syn_time_fail : ℕ
take_syn_time_fail = 67

abbrev pub send_syn_time_echo_fail : ℕ
send_syn_time_echo_fail = 68

abbrev pub dispose_syn_time_fail : ℕ
dispose_syn_time_fail = 69

abbrev pub dispose_take_photo_fail : ℕ
dispose_take_photo_fail = 70

abbrev pub recv_unknow_cmd : ℕ
recv_unknow_cmd = 71

abbrev pub tcp_send_data_fail : ℕ
tcp_send_data_fail = 72

abbrev pub send_take_photo_cmd_echo_fail : ℕ
send_take_photo_cmd_echo_fail = 73

abbrev pub recv_message_from_queue_fail : ℕ
recv_message_from_queue_fail = 74

abbrev pub check_take_photo_results_fail : ℕ
check_take_photo_results_fail = 75

abbrev pub send_send_photo_cmd_echo_fail : ℕ
send_send_photo_cmd_echo_fail = 76

abbrev pub init_rtsp_socket_fail : ℕ
init_rtsp_socket_fail = 77

abbrev pub accept_rtsp_socket_fail : ℕ
accept_rtsp_socket_fail = 78

abbrev pub get_client_port_fail : ℕ
get_client_port_fail = 79
