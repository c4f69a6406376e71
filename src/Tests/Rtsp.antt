-- ===== src/Tests/Rtsp.antt =====
-- A client that asks for the options, and the encoders of the SDP text.
use handle_wifi_camera_itop.Common.{
  arith, ◌≡◌, refl, true, false, [], ◌∷◌, some, length, Text, codes, ◌++◌, none, is_prefix, decimal,
}
use handle_wifi_camera_itop.NetTrans.Send.{accepts}
use handle_wifi_camera_itop.Rtsp.Encode.{base64_encoded_len, base64_encode}
use handle_wifi_camera_itop.Rtsp.Encode.Groups.{base64_groups, base64_encode-groups}
use handle_wifi_camera_itop.Rtsp.Search.Port.{get_port-Reads}
use handle_wifi_camera_itop.Rtsp.Search.{Regex, matched, crlf, get_port}
use handle_wifi_camera_itop.Rtsp.Handlers.{
  Clock, handle_options, handle_describe, handle_setup, handle_play, handle_teardown,
}
use handle_wifi_camera_itop.Rtsp.Handlers.Cseq.{Answers}
use handle_wifi_camera_itop.Rtsp.Handlers.Describing.{Describes, handle_describe-Describes}
use handle_wifi_camera_itop.Rtsp.Handlers.Answering.{
  AtOk, OrUri, OrIp, OrTransport, handlers-Answers,
}
use handle_wifi_camera_itop.Public.ErrorCode.{
  ok, sscanf_client_port_fail, scan_option_tail_fail, scan_option_header_fail,
  scan_describe_tail_fail, scan_describe_header_fail, scan_setup_tail_fail, scan_setup_header_fail,
  scan_play_tail_fail, scan_play_header_fail, scan_teardown_tail_fail, scan_teardown_header_fail,
}
use handle_wifi_camera_itop.NetTrans.Sockets.{Kernel}
use handle_wifi_camera_itop.VideoServer.Serving.{Client, rtsp_conn_sockfd, video_server}
use handle_wifi_camera_itop.VideoServer.Serving.Releasing.{Accounts, video_server-Accounts}
use handle_wifi_camera_itop.VideoServer.Session.{Session, World, Media, rounds}
use handle_wifi_camera_itop.VideoServer.Session.Protocol.{fresh, IsAt}
use handle_wifi_camera_itop.VideoServer.Session.Ending.{Ends, rounds-Ends}

sample : base64_encode (77 ∷ 97 ∷ 110 ∷ 77 ∷ []) 4 ≡ codes "TWFuTQ=="
unfolding base64_encode
sample = refl

base64_encode-groups_example :
    (base64_encode (77 ∷ 97 ∷ 110 ∷ 77 ∷ []) 4 ≡ base64_groups (77 ∷ 97 ∷ 110 ∷ 77 ∷ []))
    × (length (base64_encode (77 ∷ 97 ∷ 110 ∷ 77 ∷ []) 4) ≡ base64_encoded_len 4)
base64_encode-groups_example =
    base64_encode-groups (77 ∷ 97 ∷ 110 ∷ 77 ∷ [])
      (omega arith, (omega arith, (omega arith, (omega arith, tt))))

port_of_setup :
    get_port (
      codes "SETUP x RTSP/1.0"
      ++ (crlf ++ codes "Transport: RTP/AVP;unicast;client_port=5004-5005"))
    ≡ (0, some 5004)
unfolding get_port
port_of_setup = refl

abbrev regex : Regex
regex = record { compiles = λ _. true; exec = λ _ _. matched 0 4 }

abbrev media : Media
media = record {
  sps = 0 ∷ 0 ∷ 0 ∷ 1 ∷ 0x67 ∷ 66 ∷ 0 ∷ 30 ∷ [];
  length_of_sps = 8;
  pps = 0 ∷ 0 ∷ 0 ∷ 1 ∷ 0x68 ∷ [];
  length_of_pps = 5;
}

abbrev start : Session
start = record {
  rtsp_bit_mask = 0;
  client_port = 0;
  video = true;
  rtp = false;
  joined_video = 0;
  joined_rtp = 0;
  replies = [];
}

abbrev asking : Text → World
asking text = record {
  request = some text;
  sending = accepts 4096 ∷ [];
  create_rtp = 0;
  clock = record { asctime = []; seconds = 0 };
}

abbrev options_request : World
options_request = asking (codes "OPTIONS * RTSP/1.0" ++ (crlf ++ (codes "CSeq: 1" ++ crlf)))

start-IsAt : IsAt fresh start
start-IsAt = record { mask = refl; video_runs = refl; rtp_runs = refl }

rounds-Ends_example :
    Ends fresh start
      (rounds regex media (codes "1") (options_request ∷ asking (codes "PLAY") ∷ []) start)
rounds-Ends_example =
    rounds-Ends regex media (codes "1") (options_request ∷ asking (codes "PLAY") ∷ []) start
      start-IsAt

abbrev request : Text
request = codes "PLAY rtsp://10.0.0.1:554 RTSP/1.0" ++ (crlf ++ (codes "CSeq: 4" ++ crlf))

abbrev clock : Clock
clock = record { asctime = codes "Thu Jan  1" ++ (10 ∷ []); seconds = 7 }

handlers-Answers_example :
    Answers scan_option_header_fail scan_option_tail_fail AtOk request (handle_options [] request)
    × Answers scan_describe_header_fail scan_describe_tail_fail OrIp request
        (handle_describe regex clock [] request media.sps 8 media.pps 5)
    × Answers scan_setup_header_fail scan_setup_tail_fail OrTransport request
        (handle_setup clock [] request (codes "1"))
    × Answers scan_play_header_fail scan_play_tail_fail OrUri request
        (handle_play regex clock [] request (codes "1"))
    × Answers scan_teardown_header_fail scan_teardown_tail_fail AtOk request
        (handle_teardown [] request (codes "1"))
handlers-Answers_example = handlers-Answers regex clock request (codes "1") media.sps media.pps 8 5

abbrev kernel : Kernel
kernel = record {
  new_socket = some 3;
  set_reuse_addr = λ _. true;
  set_nodelay = λ _. true;
  do_bind = λ _ _. true;
  do_listen = λ _ _. true;
  do_connect = λ _ _ _. true;
}

-- A client whose first request is out of turn.
abbrev client : Client
client = record {
  accept = true;
  create_video = 0;
  sem_wait = true;
  rand = 5;
  media = media;
  requests = asking (codes "PLAY") ∷ [];
}

video_server-Accounts_example :
    Accounts rtsp_conn_sockfd (video_server regex kernel (client ∷ client ∷ []))
video_server-Accounts_example =
    video_server-Accounts regex rtsp_conn_sockfd kernel (client ∷ client ∷ [])

handle_describe-Describes_example :
    Describes media.sps media.pps (handle_describe regex clock [] request media.sps 8 media.pps 5)
handle_describe-Describes_example =
    handle_describe-Describes regex clock request media.sps media.pps (omega arith) (omega arith)

-- What is read where "client_port=" is the first '_', and where another name has it.
get_port-Reads_example :
    (get_port (codes "client_port=5004-5005") ≡ (ok, some 5004))
    × (get_port (codes "client_cam") ≡ (sscanf_client_port_fail, none))
unfolding is_prefix decimal
get_port-Reads_example =
    get_port-Reads b'c' (codes "lient")
      (
        λ h. omega arith,
        (
          λ h. omega arith,
          (λ h. omega arith, (λ h. omega arith, (λ h. omega arith, (λ h. omega arith, tt)))),
        ),
      )
      5004 (codes "5005") (codes "cam") (omega arith) refl
