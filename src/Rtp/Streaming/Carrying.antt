-- ===== src/Rtp/Streaming/Carrying.antt =====
-- What one round of sends brings to a receiver.
use mathlib.Core.List.{flatten}
use handle_wifi_camera_itop.Common.{
  ℕ, zero, suc, ◌+◌, ◌-◌, ◌%◌, ◌<◌, ◌≤◌, ◌≡◌, ◌≢◌, ◌⊎◌, inl, inr, refl, sym, ap, ap₂, ◌∙◌, Bool,
  false, List, [], ◌∷◌, ◌++◌, leb, Bool-cases, arith, length, take, drop, length-take, length-drop,
  take-nil, take-add, drop-drop, be16_value, be16_value-htons,
}
use handle_wifi_camera_itop.FrameBuffer.Handoff.{Frame}
use handle_wifi_camera_itop.NetTrans.Send.{SendReply}
use handle_wifi_camera_itop.Rtp.Packet.{payload_max_size, header_bytes}
use handle_wifi_camera_itop.Rtp.Sender.{Sender, sent, next_seq, first_byte, rtp_header, send_nalu}
use handle_wifi_camera_itop.Rtp.Sender.Single.{Accepting, send_nalu_single}
use handle_wifi_camera_itop.Rtp.Sender.Pieces.{fu_datagram, fu_row, last_flag, advance}
use handle_wifi_camera_itop.Rtp.Sender.Fragments.{send_nalu_fragments}
use handle_wifi_camera_itop.Rtp.Receiver.{
  Receiver, complete, receive, garbled, receive_single, receive_row,
}

-- A NALU that is not empty and has not the type 28 of a fragment, with a 32-bit time stamp.
abbrev pub IsSendable : Frame → Type 0
IsSendable f = (0 < length f.nalu) × (first_byte f.nalu % 32 ≢ 28) × (f.stamp < 0x100000000)

-- A NALU of at most 1400 bytes comes out as it went in; a longer one with another NALU header and
-- two more bytes at its end. The time stamp is kept.
abbrev pub Carries : Frame → Frame → Type 0
Carries f out =
    (out.stamp ≡ f.stamp)
    × (((length f.nalu ≤ payload_max_size) × (out.nalu ≡ f.nalu))
        ⊎ ((payload_max_size < length f.nalu)
            × ((stale : List ℕ) × (length stale ≡ 2)
                × (out.nalu ≡ garbled (first_byte f.nalu) ∷ (drop 1 f.nalu ++ stale)))))

-- The datagrams have consecutive sequence numbers from k on; k' is the next.
abbrev pub Consecutive : ℕ → List (List ℕ) → ℕ → Type 0
Consecutive k [] k' = k' ≡ k
Consecutive k (d ∷ ds) k' = (be16_value (drop 2 d) ≡ k) × Consecutive (next_seq k) ds k'

pub Consecutive-append :
    (k m n : ℕ) (xs ys : List (List ℕ))
    → Consecutive k xs m
    → Consecutive m ys n
    → Consecutive k (xs ++ ys) n
Consecutive-append k m n [] ys h h' = rw (← h) h'
Consecutive-append k m n (x ∷ xs) ys (e, h) h' = (e, Consecutive-append (next_seq k) m n xs ys h h')

seq_of_header :
    (m seq ts : ℕ) (rest : List ℕ)
    → seq < 0x10000
    → be16_value (drop 2 (header_bytes (rtp_header m seq ts) ++ rest)) ≡ seq
unfolding header_bytes
seq_of_header m seq ts rest small = be16_value-htons seq [] small

seq_of_fragment :
    (first ts start last seq : ℕ) (piece : List ℕ)
    → seq < 0x10000
    → be16_value (drop 2 (fu_datagram first ts start last seq piece)) ≡ seq
unfolding header_bytes
seq_of_fragment first ts start last seq piece small = be16_value-htons seq [] small

Consecutive-fu_row :
    (first ts : ℕ) (more : Bool) (start seq : ℕ) (pieces : List (List ℕ))
    → seq < 0x10000
    → Consecutive seq (fu_row first ts more start seq pieces) (advance seq pieces)
Consecutive-fu_row first ts more start seq [] small = refl
Consecutive-fu_row first ts more start seq (p ∷ ps) small = (
  seq_of_fragment first ts start (last_flag ps more) seq p small,
  Consecutive-fu_row first ts more 0 (next_seq seq) ps (omega arith),
)

receive_nalu :
    (r : Receiver) (seq stamp : ℕ) (nalu : List ℕ)
    → stamp < 0x100000000
    → 0 < length nalu
    → first_byte nalu % 32 ≢ 28
    → receive r ((header_bytes (rtp_header 1 seq stamp) ++ nalu) ∷ []) ≡ complete r nalu stamp
receive_nalu r seq stamp [] small some_byte kind = absurd (omega arith)
receive_nalu r seq stamp (b ∷ nalu) small some_byte kind =
    receive_single r seq stamp b nalu small kind

receive_pieces :
    (r : Receiver) (first stamp seq : ℕ) (pieces : List (List ℕ)) (bytes : List ℕ)
    → stamp < 0x100000000
    → 0 < length bytes
    → flatten pieces ≡ bytes
    → receive r (fu_row first stamp false 1 seq pieces) ≡ complete r (garbled first ∷ bytes) stamp
unfolding flatten
receive_pieces r first stamp seq [] bytes small some_byte e = absurd (omega (arith, ap length e))
receive_pieces r first stamp seq (p ∷ ps) bytes small some_byte e =
    receive_row r first stamp seq p ps small ∙ ap (λ l. complete r (garbled first ∷ l) stamp) e

first_byte-take : (n : ℕ) (buf : List ℕ) → 0 < n → first_byte (take n buf) ≡ first_byte buf
first_byte-take zero buf h = absurd (omega arith)
first_byte-take (suc n) [] h = refl
first_byte-take (suc n) (b ∷ buf) h = refl

drop_one-take : (n : ℕ) (buf : List ℕ) → drop 1 (take n buf) ≡ take (n - 1) (drop 1 buf)
drop_one-take zero [] = refl
drop_one-take zero (b ∷ buf) = refl
drop_one-take (suc n) [] = sym (take-nil (suc n - 1))
drop_one-take (suc n) (b ∷ buf) = ap (λ k. take k buf) (omega arith)

advance_small : (seq : ℕ) (ps : List (List ℕ)) → seq < 0x10000 → advance seq ps < 0x10000
advance_small seq [] h = h
advance_small seq (p ∷ ps) h = advance_small (next_seq seq) ps (omega arith)

-- What is behind the first byte of a long NALU, and the two bytes behind it in the buffer.
stale_tail :
    (buf : List ℕ) (len : ℕ)
    → 0 < len
    → take (len + 1) (drop 1 buf) ≡ drop 1 (take len buf) ++ take 2 (drop len buf)
stale_tail buf len h =
    ap (λ k. take k (drop 1 buf)) (omega arith)
    ∙ sym (take-add (len - 1) 2 (drop 1 buf))
    ∙ ap₂ (λ a b. a ++ take 2 b) (sym (drop_one-take len buf))
        (drop-drop (len - 1) 1 buf ∙ ap (λ k. drop k buf) (omega arith))

module _ (net : ℕ → List SendReply) (accepting : Accepting net) (buf : List ℕ) (len ts : ℕ)
    (s : Sender) (r : Receiver) where
  -- The round goes on, and its datagrams complete one frame at the receiver.
  abbrev pub Delivers : Type 0
  Delivers =
      (s' : Sender) × (row : List (List ℕ)) × (out : Frame) × (send_nalu net buf len ts s ≡ sent s')
      × (s'.datagrams ≡ s.datagrams ++ row)
      × (receive r row ≡ complete r out.nalu out.stamp)
      × Carries (record { nalu = take len buf; stamp = ts }) out
      × Consecutive s.seq_num row s'.seq_num
      × (s'.seq_num < 0x10000)

  module _ (room : len + 2 ≤ length buf) (small : s.seq_num < 0x10000)
      (sendable : IsSendable (record { nalu = take len buf; stamp = ts })) where
    size : length (take len buf) ≡ len
    size = omega (arith, length-take len buf)

    single-Delivers : len ≤ payload_max_size → Delivers
    single-Delivers short =
        let (some_byte, kind, stamp_small) = sendable in
        let (s', e, d, q) = send_nalu_single net accepting buf len ts s short (omega arith) in
        (
          s',
          (header_bytes (rtp_header 1 s.seq_num ts) ++ take len buf) ∷ [],
          record { nalu = take len buf; stamp = ts },
          e,
          d,
          receive_nalu r s.seq_num ts (take len buf) stamp_small some_byte kind,
          (refl, inl (omega (arith, size), refl)),
          (seq_of_header 1 s.seq_num ts (take len buf) small, q),
          omega (arith, q),
        )

    row-Delivers : payload_max_size < len → Delivers
    row-Delivers long =
        let (some_byte, kind, stamp_small) = sendable in
        let (s', pieces, e, d, f, full, q) =
          send_nalu_fragments net accepting buf ts len s long room in
        let behind = take (len + 1) (drop 1 buf) in
        let first = first_byte buf in
        let some_behind : 0 < length behind =
          omega (arith, length-take (len + 1) (drop 1 buf), length-drop 1 buf) in
        (
          s',
          fu_row first ts false 1 s.seq_num pieces,
          record { nalu = garbled first ∷ behind; stamp = ts },
          e,
          d,
          receive_pieces r first ts s.seq_num pieces behind stamp_small some_behind f,
          (
            refl,
            inr (
              omega (arith, size),
              (
                take 2 (drop len buf),
                omega (arith, length-take 2 (drop len buf), length-drop len buf),
                ap₂ (λ b l. garbled b ∷ l) (sym (first_byte-take len buf (omega arith)))
                    (stale_tail buf len (omega arith)),
              ),
            ),
          ),
          rw q (Consecutive-fu_row first ts false 1 s.seq_num pieces small),
          rw q (advance_small s.seq_num pieces small),
        )

    -- A round for a NALU of which the receiver can make something.
    pub send_nalu-Delivers : Delivers
    send_nalu-Delivers = elim (Bool-cases (leb len payload_max_size)) [
      | inl short ↦ single-Delivers (ground arith)
      | inr long ↦ row-Delivers (ground arith)
    ]
