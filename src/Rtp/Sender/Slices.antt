-- ===== src/Rtp/Sender/Slices.antt =====
-- One fragment, and the loop over the whole slices: what they put on the wire.
use handle_wifi_camera_itop.Common.{
  ℕ, zero, suc, ◌+◌, ◌*◌, ◌%◌, ◌≤◌, ◌≡◌, refl, sym, ap, ap₂, ◌∙◌, List, [], ◌∷◌, ◌++◌, append_assoc,
  append-nil, arith, length, take, drop, memcpy, take-memcpy, take-append_add, length-drop, ◌==◌,
  if◌then◌else◌, not, ◌&&◌,
}
use handle_wifi_camera_itop.NetTrans.Send.{SendReply}
use handle_wifi_camera_itop.Rtp.Packet.{
  payload_max_size, FuIndicator, FuHeader, header_bytes, indicator_byte, fu_header_byte,
  fragment_bytes,
}
use handle_wifi_camera_itop.Rtp.Sender.{
  Sender, Round, sent, next_seq, rtp_header, first_byte, send_fragment, send_slices,
}
use handle_wifi_camera_itop.Rtp.Sender.Pieces.{fu_datagram, last_flag, fu_row, advance, slices}
use handle_wifi_camera_itop.Rtp.Sender.Single.{Accepting, transmit_whole}

-- What a run of sends has done: it went on, and has put a row of datagrams on the wire.
abbrev pub Did : Sender → Round → List (List ℕ) → ℕ → ℕ → Type 0
Did s round row seq next =
    (s' : Sender) × (round ≡ sent s')
    × (s'.datagrams ≡ s.datagrams ++ row)
    × (s'.seq_num ≡ seq)
    × (s'.next_frame ≡ next)

fu_bytes :
    (first start last : ℕ)
    → start ≤ 1
    → last ≤ 1
    → (indicator_byte (record { type = 28; nri = first % 4; f = first % 2 })
        ≡ 28 + first % 4 * 32 + first % 2 * 128)
      × (fu_header_byte (record { type = first % 32; r = 0; e = last; s = start })
          ≡ first % 32 + last * 64 + start * 128)
unfolding indicator_byte fu_header_byte
fu_bytes first start last h k = omega arith

-- The `end` test of the loop says whether a piece is the last of all.
end_flag :
    (nalu_buf : List ℕ) (last_slice_length slices_count left i offset : ℕ)
    → i + suc left ≡ slices_count + 1
    → (if (last_slice_length == 0) && (slices_count == i) then 1 else 0)
      ≡ last_flag (slices nalu_buf left offset) (not (last_slice_length == 0))
end_flag nalu_buf last_slice_length slices_count zero i offset h = ground arith
end_flag nalu_buf last_slice_length slices_count (suc left) i offset h = ground arith

intro_length :
    (m seq ts a b n : ℕ) → 14 + n ≡ length (header_bytes (rtp_header m seq ts) ++ (a ∷ b ∷ [])) + n
unfolding header_bytes
intro_length m seq ts a b n = omega arith

module _ (net : ℕ → List SendReply) (accepting : Accepting net) (nalu_buf : List ℕ)
    (time_stamp : ℕ) where
  pub send_fragment-Did :
      (start last len : ℕ) (s : Sender)
      → start ≤ 1
      → last ≤ 1
      → len ≤ payload_max_size
      → 1 + s.next_frame + len ≤ length nalu_buf
      → Did s
          (send_fragment net nalu_buf time_stamp start last len s)
          (fu_datagram
              (first_byte nalu_buf)
              time_stamp
              start
              last
              s.seq_num
              (take len (drop (1 + s.next_frame) nalu_buf))
            ∷ [])
          (next_seq s.seq_num)
          (s.next_frame + len)
  unfolding send_fragment fragment_bytes
  send_fragment-Did start last len s hs hl hlen hbuf =
      let first = first_byte nalu_buf in
      let source = drop (1 + s.next_frame) nalu_buf in
      let payload = memcpy s.fu_a_rtp_packet.payload_data source len in
      let header = header_bytes (rtp_header last s.seq_num time_stamp) in
      let indicator : FuIndicator = record { type = 28; nri = first % 4; f = first % 2 } in
      let fu_header : FuHeader = record { type = first % 32; r = 0; e = last; s = start } in
      let s1 = record s {
        seq_num = next_seq s.seq_num;
        next_frame = s.next_frame + len;
        fu_a_rtp_packet = record {
          header = rtp_header last s.seq_num time_stamp;
          fu_indicator = indicator;
          fu_header = fu_header;
          payload_data = payload;
        };
      } in
      let intro = header ++ (indicator_byte indicator ∷ fu_header_byte fu_header ∷ []) in
      (
        record s1 { datagrams = s.datagrams ++ (take (14 + len) (intro ++ payload) ∷ []) },
        transmit_whole net accepting s1 (intro ++ payload) (14 + len) (omega arith) (omega arith),
        ap (λ d. s.datagrams ++ (d ∷ []))
            (take-append_add intro payload (14 + len) len (
                intro_length last s.seq_num time_stamp (indicator_byte indicator)
                  (fu_header_byte fu_header) len)
              ∙ ap₂ (λ b l. (header ++ b) ++ l)
                  (ap₂ (λ a b. a ∷ b ∷ []) (fu_bytes first start last hs hl).0
                    (fu_bytes first start last hs hl).1)
                  (take-memcpy s.fu_a_rtp_packet.payload_data source len
                    (omega (arith, length-drop (1 + s.next_frame) nalu_buf)))),
        refl,
        refl,
      )

  -- One round after another; the rest starts with what the first has left.
  pub Did-then :
      (s : Sender) (round : Round) (k : Sender → Round) (row row' : List (List ℕ))
      (seq next seq' next' : ℕ) {goal : Round}
      → ((s' : Sender) → round ≡ sent s' → goal ≡ k s')
      → Did s round row seq next
      → ((s' : Sender) → s'.seq_num ≡ seq → s'.next_frame ≡ next → Did s' (k s') row' seq' next')
      → Did s goal (row ++ row') seq' next'
  Did-then s round k row row' seq next seq' next' step (s1, e, d, q, n) rest =
      let (s2, e2, d2, q2, n2) = rest s1 q n in
      (s2, step s1 e ∙ e2, d2 ∙ ap (λ l. l ++ row') d ∙ append_assoc s.datagrams row row', q2, n2)

  pub send_slices-Did :
      (last_slice_length slices_count left i start : ℕ) (s : Sender)
      → i + left ≡ slices_count + 1
      → 1 ≤ i
      → start ≡ (if i == 1 then 1 else 0)
      → 1 + s.next_frame + left * payload_max_size ≤ length nalu_buf
      → let pieces = slices nalu_buf left s.next_frame in
        Did s
          (send_slices net nalu_buf time_stamp last_slice_length slices_count left i s)
          (fu_row
            (first_byte nalu_buf)
            time_stamp
            (not (last_slice_length == 0))
            start
            s.seq_num
            pieces)
          (advance s.seq_num pieces)
          (s.next_frame + left * payload_max_size)
  unfolding send_slices
  send_slices-Did ll sc zero i start s hi pos e hb =
      (s, refl, sym (append-nil s.datagrams), refl, omega arith)
  send_slices-Did ll sc (suc left) i start s hi pos e hb =
      let st : ℕ = if i == 1 then 1 else 0 in
      let last : ℕ = if (ll == 0) && (sc == i) then 1 else 0 in
      let more = not (ll == 0) in
      let first = first_byte nalu_buf in
      let piece = take payload_max_size (drop (1 + s.next_frame) nalu_buf) in
      let rest = slices nalu_buf left (s.next_frame + payload_max_size) in
      Did-then s (send_fragment net nalu_buf time_stamp st last payload_max_size s)
        (λ s1. send_slices net nalu_buf time_stamp ll sc left (i + 1) s1)
        (fu_datagram first time_stamp start (last_flag rest more) s.seq_num piece ∷ [])
        (fu_row first time_stamp more 0 (next_seq s.seq_num) rest) (next_seq s.seq_num)
        (s.next_frame + payload_max_size) (advance (next_seq s.seq_num) rest)
        (s.next_frame + suc left * payload_max_size) (λ s1 e1. rw (e1, send_slices))
        (rw (e, ← end_flag nalu_buf ll sc left i (s.next_frame + payload_max_size) hi)
          (send_fragment-Did st last payload_max_size s (ground arith) (ground arith) (omega arith)
            (omega arith)))
        (λ s1 q n.
          let end : s.next_frame + suc left * payload_max_size
              ≡ s1.next_frame + left * payload_max_size =
            omega (arith, n) in
          rw (end, ← q, ← n)
            (send_slices-Did ll sc left (i + 1) 0 s1 (omega arith) (omega arith) (ground arith)
              (omega (arith, n))))
