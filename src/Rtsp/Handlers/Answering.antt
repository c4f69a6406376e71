-- ===== src/Rtsp/Handlers/Answering.antt =====
-- The CSeq line in the answers of the five handlers.
use handle_wifi_camera_itop.Common.{
  ℕ, ◌==◌, ◌≡◌, ◌⊎◌, inl, inr, refl, ◌∙◌, Bool-cases, List, [], ◌++◌, append_assoc, Text,
}
use handle_wifi_camera_itop.Public.ErrorCode.{
  ok, scan_option_tail_fail, scan_option_header_fail, scan_describe_tail_fail,
  scan_describe_header_fail, scan_setup_tail_fail, scan_setup_header_fail, scan_play_tail_fail,
  scan_play_header_fail, scan_teardown_tail_fail, scan_teardown_header_fail, get_rtsp_uri_fail,
  get_server_ip_fail, get_transport_info_fail,
}
use handle_wifi_camera_itop.Rtsp.Search.{Regex, get_transport_info, get_server_ip, get_rtsp_uri}
use handle_wifi_camera_itop.Rtsp.Handlers.{
  Clock, info, handle_options, handle_describe, handle_setup, handle_play, handle_teardown,
}
use handle_wifi_camera_itop.Rtsp.Handlers.Cseq.{Answers, with_cseq-Answers}

-- The codes that a handler may return once the CSeq line is found.
abbrev pub AtOk : ℕ → Type 0
AtOk code = code ≡ ok

abbrev pub OrUri : ℕ → Type 0
OrUri code = (code ≡ ok) ⊎ (code ≡ get_rtsp_uri_fail)

abbrev pub OrIp : ℕ → Type 0
OrIp code = (code ≡ ok) ⊎ ((code ≡ get_rtsp_uri_fail) ⊎ (code ≡ get_server_ip_fail))

abbrev pub OrTransport : ℕ → Type 0
OrTransport code = (code ≡ ok) ⊎ (code ≡ get_transport_info_fail)

module _ (regex : Regex) (clock : Clock) (request : Text) where
  options-Answers :
      Answers scan_option_header_fail scan_option_tail_fail AtOk request (handle_options [] request)
  unfolding handle_options
  options-Answers =
      with_cseq-Answers scan_option_header_fail scan_option_tail_fail AtOk request _
        (λ b. (refl, (info 3, refl)))

  teardown-Answers :
      (session_id : Text)
      → Answers scan_teardown_header_fail scan_teardown_tail_fail AtOk request
          (handle_teardown [] request session_id)
  unfolding handle_teardown
  teardown-Answers session_id =
      with_cseq-Answers scan_teardown_header_fail scan_teardown_tail_fail AtOk request _
        (λ b. (refl, (_, refl)))

  play-Answers :
      (session_id : Text)
      → Answers scan_play_header_fail scan_play_tail_fail OrUri request
          (handle_play regex clock [] request session_id)
  unfolding handle_play
  play-Answers session_id =
      with_cseq-Answers scan_play_header_fail scan_play_tail_fail OrUri request _ (λ b.
        elim (Bool-cases ((get_rtsp_uri regex request).code == 0)) [
          | inl good ↦ rw good (inl refl, (_, append_assoc b _ _))
          | inr bad ↦ rw bad (inr refl, (_, refl))
        ])

  setup-Answers :
      (session_id : Text)
      → Answers scan_setup_header_fail scan_setup_tail_fail OrTransport request
          (handle_setup clock [] request session_id)
  unfolding handle_setup
  setup-Answers session_id =
      with_cseq-Answers scan_setup_header_fail scan_setup_tail_fail OrTransport request _ (λ b.
        elim (Bool-cases ((get_transport_info request).code == 0)) [
          | inl good ↦ rw good (inl refl, (_, append_assoc b _ _))
          | inr bad ↦ rw bad (inr refl, (_, refl))
        ])

  describe-Answers :
      (sps pps : List ℕ) (n m : ℕ)
      → Answers scan_describe_header_fail scan_describe_tail_fail OrIp request
          (handle_describe regex clock [] request sps n pps m)
  unfolding handle_describe
  describe-Answers sps pps n m =
      with_cseq-Answers scan_describe_header_fail scan_describe_tail_fail OrIp request _ (λ b.
        elim (Bool-cases ((get_rtsp_uri regex request).code == 0)) [
          | inl good ↦ elim (Bool-cases ((get_server_ip regex request).code == 0)) [
            | inl good' ↦
                rw (good, good') (inl refl, (_, append_assoc (b ++ _) _ _ ∙ append_assoc b _ _))
            | inr bad' ↦ rw (good, bad') (inr (inr refl), (_, append_assoc b _ _))
          ]
          | inr bad ↦ rw bad (inr (inl refl), (_, refl))
        ])

-- Each of the five handlers answers a request that has no CSeq line, or one that does not end, with
-- the code of that; any other answer begins with the status line, the server line and the CSeq line
-- as the client wrote it, and its code is OK or, but for OPTIONS and TEARDOWN, that of a part of the
-- request that is missing.
pub handlers-Answers :
    (regex : Regex) (clock : Clock) (request session_id : Text) (sps pps : List ℕ) (n m : ℕ)
    → Answers scan_option_header_fail scan_option_tail_fail AtOk request (handle_options [] request)
      × Answers scan_describe_header_fail scan_describe_tail_fail OrIp request
          (handle_describe regex clock [] request sps n pps m)
      × Answers scan_setup_header_fail scan_setup_tail_fail OrTransport request
          (handle_setup clock [] request session_id)
      × Answers scan_play_header_fail scan_play_tail_fail OrUri request
          (handle_play regex clock [] request session_id)
      × Answers scan_teardown_header_fail scan_teardown_tail_fail AtOk request
          (handle_teardown [] request session_id)
handlers-Answers regex clock request session_id sps pps n m = (
  options-Answers regex clock request,
  describe-Answers regex clock request sps pps n m,
  setup-Answers regex clock request session_id,
  play-Answers regex clock request session_id,
  teardown-Answers regex clock request session_id,
)
