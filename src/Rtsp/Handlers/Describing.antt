-- ===== src/Rtsp/Handlers/Describing.antt =====
-- What a client reads in the answer to DESCRIBE.
use handle_wifi_camera_itop.Common.{
  ℕ, zero, suc, ◌<◌, true, false, ◌-◌, ◌≤◌, ◌≡◌, ◌≢◌, ◌⊎◌, inl, inr, sym, ap, ◌∙◌, List, [], ◌∷◌,
  ◌++◌, append_assoc, ◌==◌, if_either, arith, length, drop, length-drop, Text, codes, decimal,
  strtoul,
}
use handle_wifi_camera_itop.Common.Strings.Decimals.{strtoul-decimal, stops_at_line_end}
use handle_wifi_camera_itop.Public.ErrorCode.{
  ok, scan_describe_header_fail, scan_describe_tail_fail,
}
use handle_wifi_camera_itop.FrameBuffer.{h264_start_code_length}
use handle_wifi_camera_itop.Rtsp.Encode.{base64_encode, base16_encode}
use handle_wifi_camera_itop.Rtsp.Encode.Groups.{AreBytes, base64_encode-groups}
use handle_wifi_camera_itop.Rtsp.Encode.Decoding.{base64_decode, base64_decode-groups}
use handle_wifi_camera_itop.Rtsp.Search.{crlf, Regex, get_rtsp_uri, get_server_ip}
use handle_wifi_camera_itop.Rtsp.Handlers.Cseq.{with_cseq-either}
use handle_wifi_camera_itop.Rtsp.Handlers.{
  Clock, Handled, info, get_time, get_ntp, sdp_media_info, sdp, beyond_the_end, handle_describe,
}

-- In the description stand the profile in hexadecimal and two base64 texts, which decode to the
-- parameter sets.
abbrev pub Announces : List ℕ → List ℕ → Text → Type 0
Announces sps pps description =
    (before : Text) × (sps_text : Text) × (pps_text : Text) × (after : Text) × (description
      ≡ before
        ++ ((codes "a=fmtp:96 profile-level-id="
              ++ (base16_encode (drop 5 sps) 3
                  ++ (codes ";packetization-mode=1;sprop-parameter-sets="
                      ++ (sps_text ++ (codes "," ++ (pps_text ++ crlf))))))
            ++ after))
    × (base64_decode sps_text ≡ drop h264_start_code_length sps)
    × (base64_decode pps_text ≡ drop h264_start_code_length pps)

-- Something is too short or too long for the code.
abbrev pub DoesNotFit : List ℕ → List ℕ → Text → Text → Type 0
DoesNotFit sps pps description send_buf =
    (length sps < 8)
    ⊎ ((length pps < 4)
        ⊎ ((500 ≤ length (sdp_media_info sps (length sps) pps (length pps)))
            ⊎ ((1024 ≤ length description) ⊎ (1400 ≤ length send_buf))))

-- The answer ends in the length of the description, an empty line and the description. Either it goes
-- behind the end of something that does not fit; or the client reads the length as that of what
-- follows, and the description announces the parameter sets.
abbrev pub Describes : List ℕ → List ℕ → Handled → Type 0
Describes sps pps r =
    (r.code ≢ ok)
    ⊎ ((head : Text) × (number : Text) × (description : Text) × (r.send_buf
          ≡ head ++ (codes "Content-Length: " ++ (number ++ ((crlf ++ crlf) ++ description))))
        × (((r.overrun ≡ true) × DoesNotFit sps pps description r.send_buf)
            ⊎ ((r.overrun ≡ false)
                × (strtoul (number ++ ((crlf ++ crlf) ++ description)) ≡ length description)
                × Announces sps pps description)))

AreBytes-drop : (n : ℕ) (bs : List ℕ) → AreBytes bs → AreBytes (drop n bs)
AreBytes-drop zero bs h = h
AreBytes-drop (suc n) [] h = tt
AreBytes-drop (suc n) (b ∷ bs) h = AreBytes-drop n bs h.1

-- One parameter set behind its start code.
set_text :
    (bs : List ℕ)
    → AreBytes bs
    → base64_decode (base64_encode (drop 4 bs) (length bs - 4)) ≡ drop 4 bs
set_text bs h =
    let bytes = AreBytes-drop 4 bs h in
    ap (λ n. base64_decode (base64_encode (drop 4 bs) n)) (sym (length-drop 4 bs))
    ∙ ap base64_decode (base64_encode-groups (drop 4 bs) bytes).0
    ∙ base64_decode-groups (drop 4 bs) bytes

sdp-Announces :
    (ntp : ℕ) (ip : Text) (sps pps : List ℕ)
    → AreBytes sps
    → AreBytes pps
    → Announces sps pps (sdp ntp ip (sdp_media_info sps (length sps) pps (length pps)))
unfolding sdp sdp_media_info
sdp-Announces ntp ip sps pps hs hp =
    let origin : Text =
      codes "o=NVRStream "
      ++ (decimal ntp ++ (codes " " ++ (decimal ntp ++ (codes " IN IP4 " ++ (ip ++ crlf))))) in
    let lines : Text =
      (codes "s=H.264 video streamed by NVR" ++ crlf)
      ++ ((codes "t=0 0" ++ crlf)
          ++ ((codes "a=control:*" ++ crlf)
              ++ ((codes "a=range:npt=now-" ++ crlf)
                  ++ ((codes "m=video 0 RTP/AVP 96" ++ crlf)
                      ++ ((codes "c=IN IP4 0.0.0.0" ++ crlf)
                          ++ (codes "a=rtpmap:96 H264/90000" ++ crlf)))))) in
    (
      (codes "v=0" ++ crlf) ++ (origin ++ lines),
      base64_encode (drop 4 sps) (length sps - 4),
      base64_encode (drop 4 pps) (length pps - 4),
      codes "a=control:streamid=0" ++ crlf,
      ap (λ l. (codes "v=0" ++ crlf) ++ l) (sym (append_assoc origin lines _)),
      set_text sps hs,
      set_text pps hp,
    )

-- The number reads back.
reads :
    (description : Text)
    → length description < 1024
    → strtoul (decimal (length description) ++ ((crlf ++ crlf) ++ description)) ≡ length description
reads description short =
    strtoul-decimal (length description) ((crlf ++ crlf) ++ description) (omega arith)
      (stops_at_line_end (10 ∷ 13 ∷ 10 ∷ description))

-- What the flag means.
fits :
    (sps pps : List ℕ) (description send_buf : Text)
    → let media_info = sdp_media_info sps (length sps) pps (length pps) in
      let overrun = beyond_the_end (length sps) (length pps) media_info description send_buf in
      ((overrun ≡ true) × DoesNotFit sps pps description send_buf)
      ⊎ ((overrun ≡ false) × (length description < 1024))
unfolding beyond_the_end
fits sps pps description send_buf = ground arith

module _ (regex : Regex) (clock : Clock) where
  -- Whatever the client asks: if the answer to DESCRIBE has the code OK, and the parameter sets are
  -- bytes, it ends in `Content-Length: `, a number, an empty line and a description. Either the code
  -- goes behind the end of something, and then the SPS has less than 8 bytes, the PPS less than 4, the
  -- media line 500 or more, the description 1024 or more, or the answer 1400 or more; or the number
  -- reads as the length of the description, and the description names the profile in hexadecimal and,
  -- in base64, the two parameter sets behind their start codes.
  pub handle_describe-Describes :
      (request : Text) (sps pps : List ℕ)
      → AreBytes sps
      → AreBytes pps
      → Describes sps pps (handle_describe regex clock [] request sps (length sps) pps (length pps))
  unfolding handle_describe info
  handle_describe-Describes request sps pps hs hp =
      with_cseq-either (Describes sps pps) scan_describe_header_fail scan_describe_tail_fail request
        _ (λ b. inl (λ z. omega arith)) (λ b. inl (λ z. omega arith))
        (λ b.
          let content_base = get_rtsp_uri regex request in
          let server_ip = get_server_ip regex request in
          if_either (Describes sps pps) (content_base.code == 0) _ _
            (if_either (Describes sps pps) (server_ip.code == 0) _ _
              (described (get_ntp clock) server_ip.text (
                (b ++ (info 4 ++ (get_time clock ++ info 5)))
                ++ (content_base.text ++ (codes "/" ++ crlf))))
              (inl (λ z. omega arith)))
            (inl (λ z. omega arith)))
    where
      described :
          (ntp : ℕ) (ip based : Text)
          → let media_info = sdp_media_info sps (length sps) pps (length pps) in
            let description = sdp ntp ip media_info in
            let text =
              based
              ++ (info 6
                  ++ (info 7
                      ++ (decimal (length description) ++ ((crlf ++ crlf) ++ description)))) in
            Describes sps pps (record {
              code = ok;
              send_buf = text;
              overrun = beyond_the_end (length sps) (length pps) media_info description text;
            })
      described ntp ip based =
          let description = sdp ntp ip (sdp_media_info sps (length sps) pps (length pps)) in
          let text =
            based
            ++ (info 6
                ++ (info 7 ++ (decimal (length description) ++ ((crlf ++ crlf) ++ description)))) in
          inr (
            based ++ info 6,
            decimal (length description),
            description,
            sym (append_assoc based (info 6) _),
            elim (fits sps pps description text) [
              | inl h ↦ inl h
              | inr (inside, short) ↦
                  inr (inside, reads description short, sdp-Announces ntp ip sps pps hs hp)
            ],
          )
