-- ===== src/Public/ErrorCode/Rtsp.antt =====
-- `enum error_code_list` of public.h: the codes of RTSP texts and frames, with the values of the C
-- enumeration.
use Prim.Native.Nat.{ℕ}

abbrev pub scan_option_tail_fail : ℕ
scan_option_tail_fail = 21

abbrev pub scan_option_header_fail : ℕ
scan_option_header_fail = 22

abbrev pub get_rtsp_uri_fail : ℕ
get_rtsp_uri_fail = 23

abbrev pub get_server_ip_fail : ℕ
get_server_ip_fail = 24

abbrev pub scan_describe_tail_fail : ℕ
scan_describe_tail_fail = 25

abbrev pub scan_describe_header_fail : ℕ
scan_describe_header_fail = 26

abbrev pub scan_transport_info_tail_fail : ℕ
scan_transport_info_tail_fail = 27

abbrev pub scan_transport_info_header_fail : ℕ
scan_transport_info_header_fail = 28

abbrev pub get_transport_info_fail : ℕ
get_transport_info_fail = 29

abbrev pub scan_setup_tail_fail : ℕ
scan_setup_tail_fail = 30

abbrev pub scan_setup_header_fail : ℕ
scan_setup_header_fail = 31

abbrev pub scan_play_tail_fail : ℕ
scan_play_tail_fail = 32

abbrev pub scan_play_header_fail : ℕ
scan_play_header_fail = 33

abbrev pub scan_teardown_tail_fail : ℕ
scan_teardown_tail_fail = 34

abbrev pub scan_teardown_header_fail : ℕ
scan_teardown_header_fail = 35

abbrev pub compile_regex_fail : ℕ
compile_regex_fail = 36

abbrev pub regex_match_fail : ℕ
regex_match_fail = 37

abbrev pub sscanf_client_port_fail : ℕ
sscanf_client_port_fail = 38

abbrev pub match_server_ip_fail : ℕ
match_server_ip_fail = 39

abbrev pub match_rtsp_uri_fail : ℕ
match_rtsp_uri_fail = 40

abbrev pub get_frame_mutex_lock_fail : ℕ
get_frame_mutex_lock_fail = 41

abbrev pub get_frame_cond_wait_fail : ℕ
get_frame_cond_wait_fail = 42

abbrev pub create_udp_socket_fail : ℕ
create_udp_socket_fail = 43

abbrev pub udp_bind_addr_fail : ℕ
udp_bind_addr_fail = 44

abbrev pub get_globe_frame_fail : ℕ
get_globe_frame_fail = 45

abbrev pub udp_send_data_fail : ℕ
udp_send_data_fail = 46
