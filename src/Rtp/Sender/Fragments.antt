-- ===== src/Rtp/Sender/Fragments.antt =====
-- The fragmentation mode (FU-A): the row of datagrams that a long NALU becomes.
use mathlib.Core.List.{flatten}
use handle_wifi_camera_itop.Common.{
  ==→ne, ==→eq, ◌-◌, ℕ, suc, ◌+◌, ◌*◌, ◌/◌, ◌%◌, ◌≤◌, ◌<◌, ◌≡◌, ◌≢◌, inl, inr, refl, sym, ap, ap₂,
  ◌∙◌, List, [], ◌∷◌, ◌++◌, append_assoc, arith, length, take, drop, take-add, drop-drop,
  length-take, length-drop, leb, ◌==◌, Bool, true, false, not, Bool-cases,
}
use handle_wifi_camera_itop.NetTrans.Send.{SendReply}
use handle_wifi_camera_itop.Rtp.Packet.{payload_max_size}
use handle_wifi_camera_itop.Rtp.Sender.{
  Sender, Round, sent, next_seq, first_byte, send_slices, send_last, send_fragments, send_nalu,
}
use handle_wifi_camera_itop.Rtp.Sender.Pieces.{
  fu_datagram, fu_row, advance, advance_snoc, slices, fu_row-append, flatten-slices, flatten_snoc,
  FullButLast, FullButLast-slices, FullButLast-snoc,
}
use handle_wifi_camera_itop.Rtp.Sender.Single.{Accepting}
use handle_wifi_camera_itop.Rtp.Sender.Slices.{Did, send_fragment-Did, send_slices-Did}

-- The round sends the row of some pieces, which are the nalu_length + 1 bytes behind the first.
abbrev pub Fragmented : (ℕ → List SendReply) → List ℕ → ℕ → ℕ → Sender → Type 0
Fragmented net nalu_buf nalu_length time_stamp s =
    (s' : Sender) × (pieces : List (List ℕ)) × (send_nalu net nalu_buf nalu_length time_stamp s
      ≡ sent s')
    × (s'.datagrams
        ≡ s.datagrams ++ fu_row (first_byte nalu_buf) time_stamp false 1 s.seq_num pieces)
    × (flatten pieces ≡ take (nalu_length + 1) (drop 1 nalu_buf))
    × FullButLast pieces
    × (s'.seq_num ≡ advance s.seq_num pieces)

module _ (net : ℕ → List SendReply) (accepting : Accepting net) (nalu_buf : List ℕ)
    (time_stamp : ℕ) where
  -- The row that the branch for long NALUs sends, for suc c whole slices and ll bytes behind them.
  abbrev Row : Sender → Round → ℕ → Type 0
  Row s round total =
      (s' : Sender) × (pieces : List (List ℕ)) × (round ≡ sent s')
      × (s'.datagrams
          ≡ s.datagrams ++ fu_row (first_byte nalu_buf) time_stamp false 1 s.seq_num pieces)
      × (flatten pieces ≡ take total (drop 1 nalu_buf))
      × FullButLast pieces
      × (s'.seq_num ≡ advance s.seq_num pieces)

  -- The loop has sent the whole slices, and they are all.
  even-Row :
      (ll c : ℕ) (s : Sender) (round : Round) (more : Bool) (seq next : ℕ)
      → more ≡ false
      → (ll == 0) ≡ true
      → seq ≡ advance s.seq_num (slices nalu_buf (suc c) 0)
      → 1 + suc c * payload_max_size ≤ length nalu_buf
      → Did s round
          (fu_row (first_byte nalu_buf) time_stamp more 1 s.seq_num (slices nalu_buf (suc c) 0))
          seq
          next
      → Row s (send_last net nalu_buf time_stamp ll round) (suc c * payload_max_size)
  unfolding send_last
  even-Row ll c s round more seq next none_left even seq_eq hb (s', e, d, q, n) =
      let row = λ (b : Bool).
        fu_row (first_byte nalu_buf) time_stamp b 1 s.seq_num (slices nalu_buf (suc c) 0) in
      (
        s',
        slices nalu_buf (suc c) 0,
        rw e (rw even),
        d ∙ ap (λ b. s.datagrams ++ row b) none_left,
        flatten-slices nalu_buf (suc c) 0,
        FullButLast-slices nalu_buf c 0 (omega arith),
        q ∙ seq_eq,
      )

  -- The loop has sent the whole slices, and ll bytes are left for one more fragment.
  uneven-Row :
      (ll c : ℕ) (s : Sender) (round : Round) (more : Bool) (seq next : ℕ)
      → more ≡ true
      → (ll == 0) ≡ false
      → ll < payload_max_size
      → next ≡ suc c * payload_max_size
      → seq ≡ advance s.seq_num (slices nalu_buf (suc c) 0)
      → 1 + suc c * payload_max_size + ll ≤ length nalu_buf
      → Did s round
          (fu_row (first_byte nalu_buf) time_stamp more 1 s.seq_num (slices nalu_buf (suc c) 0))
          seq
          next
      → Row s (send_last net nalu_buf time_stamp ll round) (suc c * payload_max_size + ll)
  unfolding send_last
  uneven-Row ll c s round more seq next some_left uneven small next_eq seq_eq hb (s', e, d, q, n) =
      let first = first_byte nalu_buf in
      let rest = take ll (drop (1 + suc c * payload_max_size) nalu_buf) in
      let row = λ (b : Bool). fu_row first time_stamp b 1 s.seq_num (slices nalu_buf (suc c) 0) in
      let size : length rest ≡ ll = omega (
        arith,
        length-take ll (drop (1 + suc c * payload_max_size) nalu_buf),
        length-drop (1 + suc c * payload_max_size) nalu_buf,
      ) in
      let positive : ll ≢ 0 = ==→ne ll 0 uneven in
      let (s2, e2, d2, q2, n2) =
        send_fragment-Did net accepting nalu_buf time_stamp 0 1 ll s' (omega arith) (omega arith)
          (omega arith) (omega (arith, n, next_eq)) in
      (
        s2,
        slices nalu_buf (suc c) 0 ++ (rest ∷ []),
        rw e (rw uneven e2),
        d2
            ∙ ap₂
                (λ l (o : ℕ × ℕ).
                  l
                  ++ (fu_datagram first time_stamp 0 1 o.0 (take ll (drop (1 + o.1) nalu_buf))
                      ∷ []))
                (d ∙ ap (λ b. s.datagrams ++ row b) some_left)
                (λ t. ((q ∙ seq_eq) t, (n ∙ next_eq) t))
            ∙ append_assoc s.datagrams (row true) _
            ∙ ap (λ l. s.datagrams ++ l)
                (fu_row-append first time_stamp 1 s.seq_num
                  (take payload_max_size (drop 1 nalu_buf)) (slices nalu_buf c payload_max_size)
                  rest),
        flatten_snoc (slices nalu_buf (suc c) 0) rest
            ∙ ap (λ l. l ++ rest) (flatten-slices nalu_buf (suc c) 0)
            ∙ ap (λ l. take (suc c * payload_max_size) (drop 1 nalu_buf) ++ take ll l)
                (sym (drop-drop (suc c * payload_max_size) 1 nalu_buf))
            ∙ take-add (suc c * payload_max_size) ll (drop 1 nalu_buf),
        FullButLast-snoc nalu_buf (suc c) 0 rest (omega arith) (omega (arith, size))
            (omega (arith, size)),
        q2
            ∙ ap next_seq (q ∙ seq_eq)
            ∙ sym (advance_snoc s.seq_num (slices nalu_buf (suc c) 0) rest),
      )

  long-Row :
      (ll c : ℕ) (s : Sender)
      → ll < payload_max_size
      → 1 + suc c * payload_max_size + ll ≤ length nalu_buf
      → let s0 = record s { next_frame = 0 } in
        Row s
          (send_last net nalu_buf time_stamp ll
            (send_slices net nalu_buf time_stamp ll (suc c) (suc c) 1 s0))
          (suc c * payload_max_size + ll)
  long-Row ll c s small hb =
      let s0 = record s { next_frame = 0 } in
      let round = send_slices net nalu_buf time_stamp ll (suc c) (suc c) 1 s0 in
      let loop =
        send_slices-Did net accepting nalu_buf time_stamp ll (suc c) (suc c) 1 1 s0 (omega arith)
          (omega arith) refl (omega arith) in
      let total : (ll == 0) ≡ true → suc c * payload_max_size + ll ≡ suc c * payload_max_size =
        λ even. omega (arith, ==→eq ll 0 even) in
      elim (Bool-cases (ll == 0)) [
        | inl even ↦
            rw (total even) (
              even-Row ll c s0 round (not (ll == 0)) _ _ (ap not even) even refl (omega arith) loop)
        | inr uneven ↦
            uneven-Row ll c s0 round (not (ll == 0)) _ _ (ap not uneven) uneven small (omega arith)
              refl hb loop
      ]

  -- If the kernel takes each datagram whole, a NALU of more than 1400 bytes that lies in the buffer
  -- with two bytes behind it goes out as an FU-A row: the pieces have 1400 bytes but for the last,
  -- which is shorter and not empty; start bit on the first, end bit and marker on the last,
  -- consecutive sequence numbers. Together they are the nalu_length + 1 bytes behind the NALU
  -- header byte; seq_num is stepped once for each.
  pub send_nalu_fragments :
      (nalu_length : ℕ) (s : Sender)
      → payload_max_size < nalu_length
      → nalu_length + 2 ≤ length nalu_buf
      → Fragmented net nalu_buf nalu_length time_stamp s
  unfolding send_nalu send_fragments
  send_nalu_fragments nalu_length s h hb =
      let sc = (nalu_length + 1) / payload_max_size in
      let ll = (nalu_length + 1) % payload_max_size in
      let long : leb nalu_length payload_max_size ≡ false = ground arith in
      let some_slice : sc ≡ suc (sc - 1) = omega arith in
      let total : nalu_length + 1 ≡ suc (sc - 1) * payload_max_size + ll = omega arith in
      let (s', pieces, e, d, f, full, q) = long-Row ll (sc - 1) s (omega arith) (omega arith) in
      (
        s',
        pieces,
        rw (long, send_fragments)
            (ap
                (λ k.
                  send_last net nalu_buf time_stamp ll
                    (send_slices net nalu_buf time_stamp ll k k 1 (record s { next_frame = 0 })))
                some_slice
              ∙ e),
        d,
        f ∙ ap (λ k. take k (drop 1 nalu_buf)) (sym total),
        full,
        q,
      )
