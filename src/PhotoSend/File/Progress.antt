-- ===== src/PhotoSend/File/Progress.antt =====
-- When `send_photo_data` ends.
use handle_wifi_camera_itop.Common.{
  if◌then◌else◌, inl, inr, ℕ, zero, suc, ◌+◌, ◌-◌, ◌≤◌, ◌==◌, ◌≡◌, ◌∙◌, refl, ap, min, Bool-cases,
  true, List, [], ◌∷◌, ◌++◌, Option, some, none, arith, length, length-drop, length-take, take,
  drop, le32, htonl,
}
use handle_wifi_camera_itop.Public.ErrorCode.{ok, send_photo_data_fail, read_photo_file_fail}
use handle_wifi_camera_itop.NetTrans.Send.{SendReply}
use handle_wifi_camera_itop.NetTrans.Send.Delivery.{NoFailure, progress, tcp_send_data_returns}
use handle_wifi_camera_itop.NetTrans.Packets.{Echo, answered, first_of, send_packet, and_then}
use handle_wifi_camera_itop.PhotoSend.File.{
  ReadReply, gives, again, failed, ReadIn, read_loop, need_to_send, send_piece, send_rounds,
  send_header, behind_header, send_photo_data,
}
use handle_wifi_camera_itop.PhotoSend.File.Reading.{need_bounds, read_loop-Fills}

-- No `read` fails.
abbrev pub NoReadFailure : List ReadReply → Type 0
NoReadFailure [] = Unit
NoReadFailure (gives n ∷ reads) = NoReadFailure reads
NoReadFailure (again ∷ reads) = NoReadFailure reads
NoReadFailure (failed ∷ reads) = ⊥

-- How many give something.
abbrev pub giving : List ReadReply → ℕ
giving [] = 0
giving (gives n ∷ reads) = suc (giving reads)
giving (again ∷ reads) = giving reads
giving (failed ∷ reads) = giving reads

-- Each piece can be sent.
abbrev pub Sendable : List (List SendReply) → Type 0
Sendable [] = Unit
Sendable (replies ∷ sends) = NoFailure replies × (1400 ≤ progress replies) × Sendable sends

-- A read that ends well, with what is left for the next.
abbrev pub ReadWell : List ReadReply → ℕ → ReadIn → Type 0
ReadWell reads need r =
    (r.code ≡ some ok) × NoReadFailure r.reads × (giving reads ≤ giving r.reads + need)

read_loop-ReadWell :
    (reads : List ReadReply) (file buffer : List ℕ) (need : ℕ)
    → NoReadFailure reads
    → need ≤ giving reads
    → need ≤ length file
    → ReadWell reads need (read_loop reads file buffer need)
unfolding read_loop
read_loop-ReadWell reads file buffer zero f g l = (refl, f, omega arith)
read_loop-ReadWell [] file buffer (suc need) f g l = absurd (omega (arith, g))
read_loop-ReadWell (gives n ∷ reads) file buffer (suc need) f g l =
    let c = take (min (suc n) (suc need)) file in
    let size = length-take (min (suc n) (suc need)) file in
    let (ih_code, ih_f, ih_g) =
      read_loop-ReadWell reads (drop (length c) file) (buffer ++ c) (suc need - length c) f
        (omega (arith, size, g, l)) (omega (arith, size, g, l, length-drop (length c) file)) in
    (ih_code, ih_f, omega (arith, ih_g, size, l))
read_loop-ReadWell (again ∷ reads) file buffer (suc need) f g l =
    read_loop-ReadWell reads file buffer (suc need) f g l
read_loop-ReadWell (failed ∷ reads) file buffer (suc need) f g l = absurd f

send_packet_returns :
    (fail : ℕ) (replies : List SendReply) (packet : List ℕ) (size : ℕ)
    → NoFailure replies
    → size ≤ progress replies
    → (send_packet fail replies packet size).code ≡ some ok
unfolding send_packet
send_packet_returns fail replies packet size f h =
    ap
      (λ (code : Option ℕ). elim code as (λ _. Option ℕ) [
        | none ↦ none
        | some ret ↦ if ret == ok then some ok else some fail
      ])
      (tcp_send_data_returns replies packet size f h)

and_then_returns :
    (fail : ℕ) (echo rest : Echo)
    → echo.code ≡ some ok
    → rest.code ≡ some ok
    → (and_then fail echo rest).code ≡ some ok
and_then_returns fail echo rest h g =
    ap
      (λ (code : Option ℕ).
        (elim code as (λ _. Echo) [
          | none ↦ answered none echo.sent
          | some ret ↦
              if ret == ok
              then answered rest.code (echo.sent ++ rest.sent)
              else answered (some fail) echo.sent
        ]).code)
      h
    ∙ g

send_piece_sends :
    (sends : List (List SendReply)) (r : ReadIn) (need : ℕ) (rest : Echo)
    → r.code ≡ some ok
    → send_piece sends r need rest
      ≡ and_then send_photo_data_fail
          (send_packet send_photo_data_fail (first_of sends) r.buffer need)
          rest
send_piece_sends sends r need rest e =
    ap
      (λ (code : Option ℕ). elim code as (λ _. Echo) [
        | none ↦ answered none []
        | some ret ↦
            if ret == ok
            then and_then send_photo_data_fail
                (send_packet send_photo_data_fail (first_of sends) r.buffer need) rest
            else answered (some read_photo_file_fail) []
      ])
      e

send_rounds_returns :
    (fuel left : ℕ) (reads : List ReadReply) (file : List ℕ) (sends : List (List SendReply))
    → left ≤ fuel
    → NoReadFailure reads
    → left ≤ giving reads
    → left ≤ length file
    → Sendable sends
    → left ≤ length sends
    → (send_rounds fuel left reads file sends).code ≡ some ok
unfolding send_rounds
send_rounds_returns fuel zero reads file sends enough f g l s n = refl
send_rounds_returns zero (suc left) reads file sends enough f g l s n =
    absurd (omega (arith, enough))
send_rounds_returns (suc fuel) (suc left) reads file [] enough f g l s n = absurd (omega (arith, n))
send_rounds_returns (suc fuel) (suc left) reads file (replies ∷ sends) enough f g l (sf, sp, ss) n =
    let need = need_to_send (suc left) in
    let r = read_loop reads file [] need in
    let bounds = need_bounds left in
    let (read_ok, rf, rg) =
      read_loop-ReadWell reads file [] need f (omega (arith, g, bounds))
        (omega (arith, l, bounds)) in
    let behind : r.file ≡ drop need file = elim (read_loop-Fills reads file [] need) [
      | inl (_, _, _, h) ↦ h
      | inr h ↦ absurd (h read_ok)
    ] in
    ap (λ (e : Echo). e.code)
      (send_piece_sends (replies ∷ sends) r need
        (send_rounds fuel (suc left - need) r.reads r.file sends) read_ok)
    ∙ (and_then_returns send_photo_data_fail
        (send_packet send_photo_data_fail replies r.buffer need)
        (send_rounds fuel (suc left - need) r.reads r.file sends)
        (send_packet_returns send_photo_data_fail replies r.buffer need sf
          (omega (arith, sp, bounds)))
        (send_rounds_returns fuel (suc left - need) r.reads r.file sends
          (omega (arith, enough, bounds)) rf (omega (arith, rg, g, bounds))
          (omega (arith, l, bounds, ap length behind, length-drop need file)) ss
          (omega (arith, n, bounds))))

send_header_returns :
    (photo_size : ℕ) (sends : List (List SendReply))
    → Sendable sends
    → suc photo_size ≤ length sends
    → ((send_header photo_size sends).code ≡ some ok)
      × Sendable (behind_header photo_size sends)
      × (photo_size ≤ length (behind_header photo_size sends))
unfolding send_header
send_header_returns photo_size [] s n = absurd (omega (arith, n))
send_header_returns photo_size (replies ∷ sends) (sf, sp, ss) n =
    elim (Bool-cases (photo_size == 0)) [
      | inl e ↦ rw e (refl, (sf, sp, ss), omega (arith, n))
      | inr e ↦ rw e (
        send_packet_returns send_photo_data_fail replies (le32 (htonl photo_size)) 4 sf
            (omega (arith, sp)),
        ss,
        omega (arith, n),
      )
    ]

-- `send_photo_data` of a file that can be opened and holds at least photo_size bytes returns OK and
-- closes it, if no `read` and no `send` fails, at least photo_size reads give something, and there
-- are photo_size + 1 turns of the network that each take 1400 bytes in the end.
pub send_photo_data_returns :
    (reads : List ReadReply) (file : List ℕ) (sends : List (List SendReply)) (photo_size : ℕ)
    → NoReadFailure reads
    → photo_size ≤ giving reads
    → photo_size ≤ length file
    → Sendable sends
    → suc photo_size ≤ length sends
    → ((send_photo_data true reads file sends photo_size).echo.code ≡ some ok)
      × ((send_photo_data true reads file sends photo_size).closed ≡ 1)
unfolding send_photo_data
send_photo_data_returns reads file sends photo_size f g l s n =
    let (header_ok, ss, sn) = send_header_returns photo_size sends s n in
    let e =
      and_then_returns send_photo_data_fail (send_header photo_size sends)
        (send_rounds photo_size photo_size reads file (behind_header photo_size sends)) header_ok
        (send_rounds_returns photo_size photo_size reads file (behind_header photo_size sends)
          (omega arith) f g l ss sn) in
    (e, ap (λ (code : Option ℕ). elim code as (λ _. ℕ) [ none ↦ 0 | some _ ↦ 1 ]) e)
