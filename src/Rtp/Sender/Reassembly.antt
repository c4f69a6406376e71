-- ===== src/Rtp/Sender/Reassembly.antt =====
-- What a receiver makes of an FU-A row.
use mathlib.Core.List.{flatten}
use handle_wifi_camera_itop.Common.{
  ℕ, ◌+◌, ◌-◌, ◌/◌, ◌%◌, ◌≤◌, ◌<◌, ◌≡◌, refl, sym, ap, ◌∙◌, List, [], ◌∷◌, ◌++◌, arith, length,
  ◌==◌, ==→eq, ==→ne, Bool-cases, ◌⊎◌, inl, inr, take, drop, get_or, take-add, drop-drop, Bool,
  false,
}
use handle_wifi_camera_itop.NetTrans.Send.{SendReply}
use handle_wifi_camera_itop.Rtp.Packet.{payload_max_size, header_bytes}
use handle_wifi_camera_itop.Rtp.Sender.{Sender, sent, next_seq, first_byte, send_nalu}
use handle_wifi_camera_itop.Rtp.Sender.Single.{Accepting}
use handle_wifi_camera_itop.Rtp.Sender.Pieces.{fu_datagram, fu_row, last_flag}
use handle_wifi_camera_itop.Rtp.Sender.Fragments.{send_nalu_fragments}

-- The payloads behind the twelve bytes of header, the indicator and the FU header, joined.
abbrev pub reassemble : List (List ℕ) → List ℕ
reassemble [] = []
reassemble (d ∷ row) = drop 14 d ++ reassemble row

-- The forbidden_zero_bit of the FU indicator is set in every datagram.
abbrev pub Forbidden : List (List ℕ) → Type 0
Forbidden [] = Unit
Forbidden (d ∷ row) = (get_or d 12 0 / 128 ≡ 1) × Forbidden row

payload_of_datagram :
    (first time_stamp start last seq : ℕ) (piece : List ℕ)
    → drop 14 (fu_datagram first time_stamp start last seq piece) ≡ piece
unfolding header_bytes
payload_of_datagram first time_stamp start last seq piece = refl

reassemble-fu_row :
    (first time_stamp : ℕ) (more : Bool) (start seq : ℕ) (pieces : List (List ℕ))
    → reassemble (fu_row first time_stamp more start seq pieces) ≡ flatten pieces
unfolding flatten
reassemble-fu_row first time_stamp more start seq [] = refl
reassemble-fu_row first time_stamp more start seq (piece ∷ pieces) =
    ap (λ l. l ++ reassemble (fu_row first time_stamp more 0 (next_seq seq) pieces))
      (payload_of_datagram first time_stamp start (last_flag pieces more) seq piece)
    ∙ ap (λ l. piece ++ l) (reassemble-fu_row first time_stamp more 0 (next_seq seq) pieces)

indicator_of_datagram :
    (first time_stamp start last seq : ℕ) (piece : List ℕ)
    → first % 2 ≡ 1
    → get_or (fu_datagram first time_stamp start last seq piece) 12 0 / 128 ≡ 1
unfolding header_bytes
indicator_of_datagram first time_stamp start last seq piece odd = omega arith

Forbidden-fu_row :
    (first time_stamp : ℕ) (more : Bool) (start seq : ℕ) (pieces : List (List ℕ))
    → first % 2 ≡ 1
    → Forbidden (fu_row first time_stamp more start seq pieces)
Forbidden-fu_row first time_stamp more start seq [] odd = tt
Forbidden-fu_row first time_stamp more start seq (piece ∷ pieces) odd = (
  indicator_of_datagram first time_stamp start (last_flag pieces more) seq piece odd,
  Forbidden-fu_row first time_stamp more 0 (next_seq seq) pieces odd,
)

even_or_Forbidden :
    (first time_stamp seq : ℕ) (pieces : List (List ℕ))
    → (first % 2 ≡ 0) ⊎ Forbidden (fu_row first time_stamp false 1 seq pieces)
even_or_Forbidden first time_stamp seq pieces = elim (Bool-cases (first % 2 == 0)) [
  | inl even ↦ inl (==→eq (first % 2) 0 even)
  | inr odd ↦ inr (
      Forbidden-fu_row first time_stamp false 1 seq pieces (omega (arith, ==→ne (first % 2) 0 odd)))
]

-- The round sends a row of datagrams of which something holds.
abbrev pub SendsRow :
    (ℕ → List SendReply) → List ℕ → ℕ → ℕ → Sender → (List (List ℕ) → Type 0) → Type 0
SendsRow net nalu_buf nalu_length time_stamp s P =
    (s' : Sender) × (row : List (List ℕ)) × (send_nalu net nalu_buf nalu_length time_stamp s
      ≡ sent s')
    × (s'.datagrams ≡ s.datagrams ++ row)
    × P row

module _ (net : ℕ → List SendReply) (accepting : Accepting net) (nalu_buf : List ℕ)
    (time_stamp nalu_length : ℕ) (s : Sender) (long : payload_max_size < nalu_length)
    (fits : nalu_length + 2 ≤ length nalu_buf) where
  -- If the kernel takes each datagram whole, and the NALU has more than 1400 bytes and lies in
  -- nalu_buf with two bytes behind it, the receiver joins the nalu_length - 1 bytes behind the NALU
  -- header, and two more: those that lie behind the NALU in nalu_buf. If the NALU header is odd, as
  -- that of a slice (1) or of an IDR slice (5) is, every fragment has the forbidden_zero_bit set,
  -- whatever the NALU's own bit is.
  pub send_nalu_garbles : SendsRow net nalu_buf nalu_length time_stamp s (λ row.
      (reassemble row
        ≡ take (nalu_length - 1) (drop 1 nalu_buf) ++ take 2 (drop nalu_length nalu_buf))
      × ((first_byte nalu_buf % 2 ≡ 0) ⊎ Forbidden row))
  send_nalu_garbles =
      let (s', pieces, e, d, f, full, q) =
        send_nalu_fragments net accepting nalu_buf time_stamp nalu_length s long fits in
      let first = first_byte nalu_buf in
      let behind : 1 + (nalu_length - 1) ≡ nalu_length = omega arith in
      let total : nalu_length - 1 + 2 ≡ nalu_length + 1 = omega arith in
      (
        s',
        fu_row first time_stamp false 1 s.seq_num pieces,
        e,
        d,
        (
          reassemble-fu_row first time_stamp false 1 s.seq_num pieces
              ∙ f
              ∙ ap (λ k. take k (drop 1 nalu_buf)) (sym total)
              ∙ sym (take-add (nalu_length - 1) 2 (drop 1 nalu_buf))
              ∙ ap (λ l. take (nalu_length - 1) (drop 1 nalu_buf) ++ take 2 l)
                  (drop-drop (nalu_length - 1) 1 nalu_buf ∙ ap (λ k. drop k nalu_buf) behind),
          even_or_Forbidden first time_stamp s.seq_num pieces,
        ),
      )
