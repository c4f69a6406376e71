-- ===== src/Rtsp/Handlers.antt =====
-- `Handle_OPTIONS`, `Handle_DESCRIBE`, `Handle_SETUP`, `Handle_PLAY` and `Handle_TEARDOWN` of rtsp.c.
pub mod Cseq
pub mod Answering
pub mod Describing
use handle_wifi_camera_itop.Common.{
  ℕ, ◌+◌, ◌-◌, ◌%◌, ◌==◌, ltb, leb, ◌||◌, Bool, false, if◌then◌else◌, List, [], ◌∷◌, ◌++◌, some,
  none, length, take, drop, Text, codes, get_or, strstr, strncat, decimal,
}
use handle_wifi_camera_itop.Public.ErrorCode.{
  ok, scan_option_tail_fail, scan_option_header_fail, scan_describe_tail_fail,
  scan_describe_header_fail, scan_setup_tail_fail, scan_setup_header_fail, scan_play_tail_fail,
  scan_play_header_fail, scan_teardown_tail_fail, scan_teardown_header_fail, get_rtsp_uri_fail,
  get_server_ip_fail, get_transport_info_fail,
}
use handle_wifi_camera_itop.FrameBuffer.{h264_start_code_length}
use handle_wifi_camera_itop.Rtsp.Encode.{base64_encode, base16_encode}
use handle_wifi_camera_itop.Rtsp.Search.{
  crlf, Regex, get_transport_info, get_server_ip, get_rtsp_uri,
}

-- RTSP_INFO[].
pub rtsp_info : List Text
rtsp_info =
    (codes "RTSP/1.0 200 OK " ++ crlf)
    ∷ (codes "Server: COPYRIGHT@hxj" ++ crlf)
    ∷ codes "CSeq: "
    ∷ (codes "Public: OPTIONS, DESCRIBE, SETUP, TEARDOWN, PLAY, PAUSE" ++ (crlf ++ crlf))
    ∷ codes "Date: "
    ∷ codes "Content-Base: "
    ∷ (codes "Content-Type: application/sdp" ++ crlf)
    ∷ codes "Content-Length: "
    ∷ codes "User-Agent: "
    ∷ codes "Transport: "
    ∷ codes "Session: "
    ∷ codes "Range: "
    ∷ codes "Expries: "
    ∷ codes "RTP-Info: url="
    ∷ []

-- RTSP_INFO[i].
pub info : ℕ → Text
unfolding rtsp_info
info i = get_or rtsp_info i []

-- What the handlers ask of the C library: `asctime(localtime(&now))`, and the seconds of `time`.
pub record Clock : Type 0 where
  pub asctime : Text
  pub seconds : ℕ

-- The code returned, and the text in send_buf; `overrun` says, of an answer to DESCRIBE or SETUP that
-- is OK, that the code has gone behind the end of an array or of a parameter set on the way, from
-- where on C leaves open what it does.
pub record Handled : Type 0 where
  pub code : ℕ
  pub send_buf : Text
  pub overrun : Bool

abbrev pub handled : ℕ → Text → Handled
handled code send_buf = record { code = code; send_buf = send_buf; overrun = false }

-- The newline of asctime is cut off.
pub get_time : Clock → Text
get_time clock = take (length clock.asctime - 1) clock.asctime ++ (codes " GMT" ++ crlf)

pub get_ntp : Clock → ℕ
get_ntp clock = clock.seconds

-- What the handlers have in common: the status and server lines, then the search of the CSeq line,
-- which is copied, and the rest of the answer; or one of the two codes.
pub with_cseq : ℕ → ℕ → Text → Text → (Text → Handled) → Handled
unfolding info
with_cseq header_fail tail_fail send_buf recv_buf_rtsp answer =
    let opening : Text = send_buf ++ (info 0 ++ info 1) in
    elim (strstr recv_buf_rtsp (codes "CSeq: ")) [
      | none ↦ handled header_fail opening
      | some ptr_start ↦ elim (strstr ptr_start crlf) [
        | none ↦ handled tail_fail opening
        | some ptr_end ↦
            answer (strncat opening ptr_start (length ptr_start - length ptr_end) ++ crlf)
      ]
    ]

pub handle_options : Text → Text → Handled
handle_options send_buf recv_buf_rtsp =
    with_cseq scan_option_header_fail scan_option_tail_fail send_buf recv_buf_rtsp
      (λ b. handled ok (b ++ info 3))

-- sdp_media_info. Lengths below 4 are negative in C; what is said here of such is not meant.
pub sdp_media_info : List ℕ → ℕ → List ℕ → ℕ → Text
sdp_media_info sps length_of_sps pps length_of_pps =
    codes "a=fmtp:96 profile-level-id="
    ++ (base16_encode (drop 5 sps) 3
        ++ (codes ";packetization-mode=1;sprop-parameter-sets="
            ++ (base64_encode (drop h264_start_code_length sps)
                  (length_of_sps - h264_start_code_length)
                ++ (codes ","
                    ++ (base64_encode (drop h264_start_code_length pps)
                          (length_of_pps - h264_start_code_length)
                        ++ crlf)))))

-- sdp_info.
pub sdp : ℕ → Text → Text → Text
sdp ntp server_ip media_info =
    (codes "v=0" ++ crlf)
    ++ ((codes "o=NVRStream "
          ++ (decimal ntp
              ++ (codes " " ++ (decimal ntp ++ (codes " IN IP4 " ++ (server_ip ++ crlf))))))
        ++ ((codes "s=H.264 video streamed by NVR" ++ crlf)
            ++ ((codes "t=0 0" ++ crlf)
                ++ ((codes "a=control:*" ++ crlf)
                    ++ ((codes "a=range:npt=now-" ++ crlf)
                        ++ ((codes "m=video 0 RTP/AVP 96" ++ crlf)
                            ++ ((codes "c=IN IP4 0.0.0.0" ++ crlf)
                                ++ ((codes "a=rtpmap:96 H264/90000" ++ crlf)
                                    ++ (media_info
                                        ++ (codes "a=control:streamid=0" ++ crlf))))))))))

-- Where C goes behind the end of something: base16_encode reads three bytes from the sixth of the SPS
-- on; a length below 4 is negative for base64_encode, which compares it without its sign; and the
-- arrays have 500, 1024 and, in video_server, 1400 bytes, of which a text takes one for its NUL.
pub beyond_the_end : ℕ → ℕ → Text → Text → Text → Bool
beyond_the_end length_of_sps length_of_pps media_info sdp_info send_buf =
    ltb length_of_sps 8
    || (ltb length_of_pps 4
        || (leb 500 (length media_info)
            || (leb 1024 (length sdp_info) || leb 1400 (length send_buf))))

module _ (regex : Regex) (clock : Clock) where
  -- SPS and PPS begin with a start code of four bytes.
  pub handle_describe : Text → Text → List ℕ → ℕ → List ℕ → ℕ → Handled
  handle_describe send_buf recv_buf_rtsp sps length_of_sps pps length_of_pps =
      with_cseq scan_describe_header_fail scan_describe_tail_fail send_buf recv_buf_rtsp (λ b.
        let dated : Text = b ++ (info 4 ++ (get_time clock ++ info 5)) in
        let content_base = get_rtsp_uri regex recv_buf_rtsp in
        if content_base.code == 0
        then (let based : Text = dated ++ (content_base.text ++ (codes "/" ++ crlf)) in
            let server_ip = get_server_ip regex recv_buf_rtsp in
            if server_ip.code == 0
            then (let media_info : Text = sdp_media_info sps length_of_sps pps length_of_pps in
                let sdp_info : Text = sdp (get_ntp clock) server_ip.text media_info in
                let text : Text =
                  based
                  ++ (info 6
                      ++ (info 7 ++ (decimal (length sdp_info) ++ ((crlf ++ crlf) ++ sdp_info)))) in
                record {
                  code = ok;
                  send_buf = text;
                  overrun = beyond_the_end length_of_sps length_of_pps media_info sdp_info text;
                })
            else handled get_server_ip_fail based)
        else handled get_rtsp_uri_fail dated)

  pub handle_play : Text → Text → Text → Handled
  handle_play send_buf recv_buf_rtsp session_id =
      with_cseq scan_play_header_fail scan_play_tail_fail send_buf recv_buf_rtsp (λ b.
        let opening : Text = b ++ (info 10 ++ (session_id ++ (crlf ++ info 13))) in
        let url = get_rtsp_uri regex recv_buf_rtsp in
        if url.code == 0
        then handled ok
            (opening ++ (url.text ++ (codes "/trackID=1;seq=0;rtptime=0" ++ (crlf ++ crlf))))
        else handled get_rtsp_uri_fail opening)

module _ (clock : Clock) where
  -- transport_info has 50 bytes.
  pub handle_setup : Text → Text → Text → Handled
  handle_setup send_buf recv_buf_rtsp session_id =
      with_cseq scan_setup_header_fail scan_setup_tail_fail send_buf recv_buf_rtsp (λ b.
        let opening : Text =
          b
          ++ (info 10
              ++ (session_id
                  ++ (crlf ++ (info 4 ++ (get_time clock ++ (info 12 ++ get_time clock)))))) in
        let transport_info = get_transport_info recv_buf_rtsp in
        if transport_info.code == 0
        then record {
          code = ok;
          send_buf =
              opening
              ++ (transport_info.text ++ (codes ";server-port=5004-5005" ++ (crlf ++ crlf)));
          overrun = leb 50 (length transport_info.text);
        }
        else handled get_transport_info_fail opening)

pub handle_teardown : Text → Text → Text → Handled
handle_teardown send_buf recv_buf_rtsp session_id =
    with_cseq scan_teardown_header_fail scan_teardown_tail_fail send_buf recv_buf_rtsp (λ b.
      handled ok (
        b ++ (info 10 ++ (session_id ++ (crlf ++ (codes "Connection: Close " ++ (crlf ++ crlf)))))))

-- `Create_Session_ID`: `rand` is what rand() returns after srand(time(NULL)).
pub create_session_id : ℕ → Text
create_session_id rand = decimal (10000000 + rand % 999999999)
