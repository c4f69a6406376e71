-- ===== src/Rtp/Sender/Single.antt =====
-- What one `udp_send_data` of a packet does to the sender, and the one-packet mode.
use handle_wifi_camera_itop.Common.{
  ℕ, zero, suc, ◌+◌, ◌≤◌, ◌<◌, ◌≡◌, refl, ap, ◌∙◌, List, [], ◌∷◌, ◌++◌, arith, length, take, memcpy,
  take-memcpy, take-append_add, leb, true,
}
use handle_wifi_camera_itop.NetTrans.Send.{SendReply, accepts}
use handle_wifi_camera_itop.NetTrans.Send.Delivery.{udp_send_data_whole}
use handle_wifi_camera_itop.Rtp.Packet.{payload_max_size, header_bytes, single_bytes}
use handle_wifi_camera_itop.Rtp.Sender.{
  Sender, sent, next_seq, rtp_header, transmit, after_send, send_single, send_nalu,
}

-- The kernel takes each datagram whole at the first `sendto`, as UDP does; 1414 bytes is the longest.
abbrev pub Accepting : (ℕ → List SendReply) → Type 0
Accepting net =
    (k : ℕ) → (n : ℕ) × (rest : List SendReply) × (net k ≡ accepts n ∷ rest) × (1414 ≤ n)

pub header_length : (m seq ts n : ℕ) → 12 + n ≡ length (header_bytes (rtp_header m seq ts)) + n
unfolding header_bytes
header_length m seq ts n = omega arith

-- The round sends one datagram, the header with the marker bit and then the NALU, and steps seq_num.
abbrev pub SentWhole : (ℕ → List SendReply) → List ℕ → ℕ → ℕ → Sender → Type 0
SentWhole net nalu_buf nalu_length time_stamp s =
    (s' : Sender) × (send_nalu net nalu_buf nalu_length time_stamp s ≡ sent s')
    × (s'.datagrams
        ≡ s.datagrams
          ++ ((header_bytes (rtp_header 1 s.seq_num time_stamp) ++ take nalu_length nalu_buf) ∷ []))
    × (s'.seq_num ≡ next_seq s.seq_num)

module _ (net : ℕ → List SendReply) (accepting : Accepting net) where
  pub transmit_whole :
      (s : Sender) (bytes : List ℕ) (len : ℕ)
      → 0 < len
      → len ≤ 1414
      → transmit net s bytes len
        ≡ sent (record s { datagrams = s.datagrams ++ (take len bytes ∷ []) })
  unfolding transmit after_send
  transmit_whole s bytes zero p h = absurd (omega arith)
  transmit_whole s bytes (suc len) p h =
      let (n, rest, e, le) = accepting (length s.datagrams) in
      rw (e, udp_send_data_whole bytes n len rest (omega arith))

  -- If the kernel takes each datagram whole, a NALU of at most 1400 bytes that lies in the buffer
  -- goes out as one datagram: a header with the marker bit, then exactly the NALU. The sequence
  -- number is stepped once.
  pub send_nalu_single :
      (nalu_buf : List ℕ) (nalu_length time_stamp : ℕ) (s : Sender)
      → nalu_length ≤ payload_max_size
      → nalu_length ≤ length nalu_buf
      → SentWhole net nalu_buf nalu_length time_stamp s
  unfolding send_nalu send_single single_bytes
  send_nalu_single nalu_buf nalu_length time_stamp s h l =
      let test : leb nalu_length payload_max_size ≡ true = ground arith in
      let header = header_bytes (rtp_header 1 s.seq_num time_stamp) in
      let payload = memcpy s.single_rtp_packet.payload nalu_buf nalu_length in
      let s1 = record s {
        seq_num = next_seq s.seq_num;
        next_frame = 0;
        single_rtp_packet = record {
          header = rtp_header 1 s.seq_num time_stamp;
          payload = payload;
        };
      } in
      (
        record s1 { datagrams = s.datagrams ++ (take (12 + nalu_length) (header ++ payload) ∷ []) },
        rw test
            (transmit_whole s1 (header ++ payload) (12 + nalu_length) (omega arith) (omega arith)),
        ap (λ d. s.datagrams ++ (d ∷ []))
            (take-append_add header payload (12 + nalu_length) nalu_length
                (header_length 1 s.seq_num time_stamp nalu_length)
              ∙ ap (λ l. header ++ l)
                  (take-memcpy s.single_rtp_packet.payload nalu_buf nalu_length l)),
        refl,
      )
