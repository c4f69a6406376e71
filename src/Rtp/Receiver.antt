-- ===== src/Rtp/Receiver.antt =====
-- A receiver of H.264 over RTP after RFC 6184: what the phone makes of the datagrams, if none is
-- lost.
use mathlib.Core.List.{flatten}
use handle_wifi_camera_itop.Common.{
  ℕ, ◌+◌, ◌*◌, ◌/◌, ◌%◌, ◌<◌, ◌≤◌, ◌==◌, if◌then◌else◌, ◌≡◌, ◌≢◌, refl, sym, ap, ap₂, ◌∙◌, Bool,
  true, false, List, [], ◌∷◌, ◌++◌, append_assoc, append-nil, arith, get_or, drop, be32_value,
  be32_value-htonl, eq→==,
}
use handle_wifi_camera_itop.FrameBuffer.Handoff.{Frame}
use handle_wifi_camera_itop.Rtp.Packet.{header_bytes}
use handle_wifi_camera_itop.Rtp.Sender.{next_seq, rtp_header}
use handle_wifi_camera_itop.Rtp.Sender.Pieces.{fu_datagram, fu_row}

-- The NALU that is being put together, and those that are complete, with their time stamps.
pub record Receiver : Type 0 where
  pub collected : List ℕ
  pub frames : List Frame

abbrev pub complete : Receiver → List ℕ → ℕ → Receiver
complete r nalu stamp = record {
  collected = [];
  frames = r.frames ++ (record { nalu = nalu; stamp = stamp } ∷ []);
}

-- The first fragment brings the NALU header, the last completes the NALU.
abbrev join_fragment : ℕ → Bool → List ℕ → Receiver → List ℕ
join_fragment header true piece r = header ∷ piece
join_fragment header false piece r = r.collected ++ piece

abbrev take_fragment : ℕ → Bool → Bool → ℕ → List ℕ → Receiver → Receiver
take_fragment header start true stamp piece r =
    complete r (join_fragment header start piece r) stamp
take_fragment header start false stamp piece r = record r {
  collected = join_fragment header start piece r;
}

-- Behind the twelve bytes of header a datagram has a NALU, or, under type 28, the FU indicator with
-- F and NRI, the FU header with the start bit, the end bit and the type, and a piece.
take_in : Receiver → List ℕ → Receiver
take_in r d =
    let indicator : ℕ = get_or d 12 0 in
    let fu_header : ℕ = get_or d 13 0 in
    let stamp : ℕ = be32_value (drop 4 d) in
    if indicator % 32 == 28
    then take_fragment (indicator / 32 * 32 + fu_header % 32) (fu_header / 128 == 1)
        (fu_header / 64 % 2 == 1) stamp (drop 14 d) r
    else complete r (drop 12 d) stamp

unfoldable pub receive : Receiver → List (List ℕ) → Receiver
unfolding take_in
receive r [] = r
receive r (d ∷ ds) = receive (take_in r d) ds

pub receive-append :
    (r : Receiver) (xs ys : List (List ℕ)) → receive r (xs ++ ys) ≡ receive (receive r xs) ys
unfolding receive
receive-append r [] ys = refl
receive-append r (x ∷ xs) ys = receive-append (take_in r x) xs ys

-- The NALU header that the receiver of a row of `rtp_pthread` puts together.
abbrev pub garbled : ℕ → ℕ
garbled first = first % 4 * 32 + first % 2 * 128 + first % 32

-- One datagram with a whole NALU.
pub receive_single :
    (r : Receiver) (seq stamp b : ℕ) (nalu : List ℕ)
    → stamp < 0x100000000
    → b % 32 ≢ 28
    → receive r ((header_bytes (rtp_header 1 seq stamp) ++ (b ∷ nalu)) ∷ [])
      ≡ complete r (b ∷ nalu) stamp
unfolding receive take_in header_bytes
receive_single r seq stamp b nalu small kind = ground arith

take_in_fragment :
    (r : Receiver) (first stamp start last seq : ℕ) (piece : List ℕ)
    → stamp < 0x100000000
    → start ≤ 1
    → last ≤ 1
    → take_in r (fu_datagram first stamp start last seq piece)
      ≡ take_fragment (garbled first) (start == 1) (last == 1) stamp piece r
unfolding take_in header_bytes
take_in_fragment r first stamp start last seq piece small hs hl =
    ap₂
      (λ (k : Bool) (x : Receiver). if k then x else complete r (drop 12 d) (be32_value (drop 4 d)))
      (eq→== _ 28 is_fragment) refl
    ∙ ap₂ (λ (h t : ℕ). take_fragment h (fu_header / 128 == 1) (fu_header / 64 % 2 == 1) t piece r)
        header stamped
    ∙ ap₂ (λ (s e : Bool). take_fragment (garbled first) s e stamp piece r) (ground arith)
        (ground arith)
  where
    d : List ℕ
    d = fu_datagram first stamp start last seq piece

    indicator : ℕ
    indicator = 28 + first % 4 * 32 + first % 2 * 128

    fu_header : ℕ
    fu_header = first % 32 + last * 64 + start * 128

    is_fragment : indicator % 32 ≡ 28
    is_fragment = omega arith

    header : indicator / 32 * 32 + fu_header % 32 ≡ garbled first
    header = omega arith

    stamped : be32_value (drop 4 d) ≡ stamp
    stamped = be32_value-htonl stamp [] small

-- The fragments behind the first.
receive_rest :
    (r : Receiver) (first stamp seq : ℕ) (p : List ℕ) (ps : List (List ℕ))
    → stamp < 0x100000000
    → receive r (fu_row first stamp false 0 seq (p ∷ ps))
      ≡ complete r (r.collected ++ flatten (p ∷ ps)) stamp
unfolding receive flatten
receive_rest r first stamp seq p [] small =
    take_in_fragment r first stamp 0 1 seq p small (omega arith) (omega arith)
    ∙ ap (λ l. complete r (r.collected ++ l) stamp) (sym (append-nil p))
receive_rest r first stamp seq p (q ∷ ps) small =
    ap (λ x. receive x (fu_row first stamp false 0 (next_seq seq) (q ∷ ps)))
      (take_in_fragment r first stamp 0 0 seq p small (omega arith) (omega arith))
    ∙ receive_rest (record r { collected = r.collected ++ p }) first stamp (next_seq seq) q ps small
    ∙ ap (λ l. complete r l stamp) (append_assoc r.collected p (flatten (q ∷ ps)))

-- A whole row.
pub receive_row :
    (r : Receiver) (first stamp seq : ℕ) (p : List ℕ) (ps : List (List ℕ))
    → stamp < 0x100000000
    → receive r (fu_row first stamp false 1 seq (p ∷ ps))
      ≡ complete r (garbled first ∷ flatten (p ∷ ps)) stamp
unfolding receive flatten
receive_row r first stamp seq p [] small =
    take_in_fragment r first stamp 1 1 seq p small (omega arith) (omega arith)
    ∙ ap (λ l. complete r (garbled first ∷ l) stamp) (sym (append-nil p))
receive_row r first stamp seq p (q ∷ ps) small =
    ap (λ x. receive x (fu_row first stamp false 0 (next_seq seq) (q ∷ ps)))
      (take_in_fragment r first stamp 1 0 seq p small (omega arith) (omega arith))
    ∙ receive_rest (record r { collected = garbled first ∷ p }) first stamp (next_seq seq) q ps
        small
