-- ===== src/Rtp/Sender.antt =====
-- The body of the loop of `rtp_pthread` in rtp.c: one NALU becomes one packet or a row of fragments.
pub mod Single
pub mod Pieces
pub mod Slices
pub mod Fragments
pub mod Reassembly
pub mod Exits
use handle_wifi_camera_itop.Common.{
  ℕ, zero, suc, ◌+◌, ◌*◌, ◌/◌, ◌%◌, ◌==◌, leb, if◌then◌else◌, Bool, true, false, ◌&&◌, List, [],
  ◌∷◌, ◌++◌, Option, some, none, length, drop, htons, htonl, memcpy,
}
use handle_wifi_camera_itop.Public.ErrorCode.{ok, udp_send_data_fail}
use handle_wifi_camera_itop.NetTrans.Send.{SendReply, udp_send_data}
use handle_wifi_camera_itop.Rtp.Packet.{
  payload_max_size, RtpHeader, FuIndicator, FuHeader, SingleRtpPacket, FragmentRtpPacket,
  sizeof_rtp_header, sizeof_fu_header, sizeof_fu_indicator, single_bytes, fragment_bytes,
}

-- The variables of `rtp_pthread` that outlive a round, and the datagrams sent so far.
pub record Sender : Type 0 where
  pub seq_num : ℕ
  pub next_frame : ℕ
  pub single_rtp_packet : SingleRtpPacket
  pub fu_a_rtp_packet : FragmentRtpPacket
  pub datagrams : List (List ℕ)

-- A round goes on, waits in `sendto` for ever, or ends the thread with a code.
pub data Round : Type 0 where
  sent : Sender → Round
  blocked : Sender → Round
  exited : ℕ → Sender → Round

-- seq_num is an unsigned short.
abbrev pub next_seq : ℕ → ℕ
next_seq n = (n + 1) % 0x10000

abbrev pub rtp_header : ℕ → ℕ → ℕ → RtpHeader
rtp_header m seq_num time_stamp = record {
  cc = 0;
  x = 0;
  p = 0;
  version = 2;
  pt = 96;
  m = m;
  seq = htons seq_num;
  ts = htonl time_stamp;
  ssrc = htonl 1;
}

-- *nalu_buf; the buffer is never empty.
abbrev pub first_byte : List ℕ → ℕ
first_byte [] = 0
first_byte (b ∷ _) = b

-- What a call of `udp_send_data` makes of the round; `net` gives the kernel's answers to the call
-- that follows a number of datagrams.
after_send : Sender → List (List ℕ) → Option ℕ → Round
after_send s chunks code =
    let s' = record s { datagrams = s.datagrams ++ chunks } in
    elim code [
      | none ↦ blocked s'
      | some ret ↦ if ret == ok then sent s' else exited udp_send_data_fail s'
    ]

module _ (net : ℕ → List SendReply) where
  pub transmit : Sender → List ℕ → ℕ → Round
  unfolding after_send
  transmit s bytes len =
      let out = udp_send_data (net (length s.datagrams)) bytes len in
      after_send s out.chunks out.code

  -- rtp.c:128-148, for a NALU of at most PAYLOAD_MAX_SIZE bytes.
  send_single : List ℕ → ℕ → ℕ → Sender → Round
  send_single nalu_buf nalu_length time_stamp s =
      let packet : SingleRtpPacket = record {
        header = rtp_header 1 s.seq_num time_stamp;
        payload = memcpy s.single_rtp_packet.payload nalu_buf nalu_length;
      } in
      transmit (record s { seq_num = next_seq s.seq_num; single_rtp_packet = packet })
        (single_bytes packet) (sizeof_rtp_header + nalu_length)

  -- One fragment: rtp.c:158-211 in the loop, 218-249 behind it. The C writes `*nalu_buf & 0x80>>7`
  -- and `*nalu_buf & 0x60>>5`, where `>>` binds first: the masks are 1 and 3.
  pub send_fragment : List ℕ → ℕ → ℕ → ℕ → ℕ → Sender → Round
  send_fragment nalu_buf time_stamp start last len s =
      let first : ℕ = first_byte nalu_buf in
      let packet : FragmentRtpPacket = record {
        header = rtp_header last s.seq_num time_stamp;
        fu_indicator = record { type = 28; nri = first % 4; f = first % 2 };
        fu_header = record { type = first % 32; r = 0; e = last; s = start };
        payload_data = memcpy s.fu_a_rtp_packet.payload_data (drop (1 + s.next_frame) nalu_buf) len;
      } in
      transmit
        (record s {
          seq_num = next_seq s.seq_num;
          next_frame = s.next_frame + len;
          fu_a_rtp_packet = packet;
        })
        (fragment_bytes packet) (sizeof_rtp_header + sizeof_fu_header + sizeof_fu_indicator + len)

  -- The `for` loop of rtp.c:156-212: i is the current round, and `left` rounds remain.
  pub send_slices : List ℕ → ℕ → ℕ → ℕ → ℕ → ℕ → Sender → Round
  send_slices nalu_buf time_stamp last_slice_length slices_count zero i s = sent s
  send_slices nalu_buf time_stamp last_slice_length slices_count (suc left) i s =
      let start : ℕ = if i == 1 then 1 else 0 in
      let last : ℕ = if (last_slice_length == 0) && (slices_count == i) then 1 else 0 in
      elim (send_fragment nalu_buf time_stamp start last payload_max_size s) [
        | sent s' ↦ send_slices nalu_buf time_stamp last_slice_length slices_count left (i + 1) s'
        | blocked s' ↦ blocked s'
        | exited code s' ↦ exited code s'
      ]

  -- The fragment behind the loop, if the slices do not come out even.
  send_last : List ℕ → ℕ → ℕ → Round → Round
  send_last nalu_buf time_stamp last_slice_length (sent s) =
      if last_slice_length == 0
      then sent s
      else send_fragment nalu_buf time_stamp 0 1 last_slice_length s
  send_last nalu_buf time_stamp last_slice_length (blocked s) = blocked s
  send_last nalu_buf time_stamp last_slice_length (exited code s) = exited code s

  -- rtp.c:150-251, for a longer NALU.
  send_fragments : List ℕ → ℕ → ℕ → Sender → Round
  send_fragments nalu_buf nalu_length time_stamp s =
      let nalu_payload_length : ℕ = nalu_length + 1 in
      let last_slice_length : ℕ = nalu_payload_length % payload_max_size in
      let slices_count : ℕ = nalu_payload_length / payload_max_size in
      send_last nalu_buf time_stamp last_slice_length
        (send_slices nalu_buf time_stamp last_slice_length slices_count slices_count 1 s)

  -- One round of `while(1)`, after `get_globe_frame_info` has filled nalu_buf.
  pub send_nalu : List ℕ → ℕ → ℕ → Sender → Round
  send_nalu nalu_buf nalu_length time_stamp s =
      let s0 = record s { next_frame = 0 } in
      if leb nalu_length payload_max_size
      then send_single nalu_buf nalu_length time_stamp s0
      else send_fragments nalu_buf nalu_length time_stamp s0
