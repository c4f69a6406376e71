-- ===== src/PhotoSend/File/Sending.antt =====
-- Which bytes `send_photo_data` puts on the socket.
use mathlib.Core.Path.{subst}
use mathlib.Core.Option.{some-injective}
use handle_wifi_camera_itop.Common.{
  ℕ, zero, suc, ◌+◌, ◌-◌, ◌≤◌, ◌==◌, ==→eq, if◌then◌else◌, ◌≡◌, ◌≢◌, ◌⊎◌, inl, inr, refl, ap, ap₂,
  ◌∙◌, Bool-cases, true, false, List, [], ◌++◌, Option, some, none, arith, length, length-take,
  length-drop, take, drop, take-add, take_all, le32, htonl,
}
use handle_wifi_camera_itop.Public.ErrorCode.{
  ok, open_picture_file_fail, send_photo_data_fail, read_photo_file_fail,
}
use handle_wifi_camera_itop.NetTrans.Send.{SendReply}
use handle_wifi_camera_itop.NetTrans.Packets.{
  Echo, answered, first_of, others_of, send_packet, and_then,
}
use handle_wifi_camera_itop.NetTrans.Packets.Echoing.{Echoed, send_packet-Echoed, and_then-Echoed}
use handle_wifi_camera_itop.PhotoSend.File.{
  ReadReply, ReadIn, read_loop, need_to_send, send_piece, send_rounds, send_header, behind_header,
  Photo, closing, send_photo_data,
}
use handle_wifi_camera_itop.PhotoSend.File.Reading.{read_loop-Fills, need_bounds}

-- What is shown of a read that is not OK, and of the piece that is sent after one that is.
send_piece-cases :
    (P : Echo → Type 0) (sends : List (List SendReply)) (r : ReadIn) (need : ℕ) (rest : Echo)
    → ((code : Option ℕ) → code ≢ some ok → P (answered code []))
    → ((r.code ≡ some ok)
        → P (
            and_then send_photo_data_fail
              (send_packet send_photo_data_fail (first_of sends) r.buffer need)
              rest))
    → P (send_piece sends r need rest)
send_piece-cases P sends r need rest stopped go = ends r.code refl
  where
    ends :
        (code : Option ℕ)
        → r.code ≡ code
        → P (elim code [
          | none ↦ answered none []
          | some ret ↦
              if ret == ok
              then and_then send_photo_data_fail
                  (send_packet send_photo_data_fail (first_of sends) r.buffer need)
                  rest
              else answered (some read_photo_file_fail) []
        ])
    ends none e = stopped none (λ h. cc)
    ends (some ret) e = elim (Bool-cases (ret == ok)) [
      | inl good ↦ rw good (go (e ∙ ap some (==→eq ret ok good)))
      | inr bad ↦
          rw bad (
            stopped (some read_photo_file_fail) (λ h. absurd (omega (arith, some-injective _ _ h))))
    ]

and_then_fails :
    (fail : ℕ) (echo rest : Echo)
    → fail ≢ ok
    → rest.code ≢ some ok
    → (and_then fail echo rest).code ≢ some ok
and_then_fails fail echo rest f h = ends echo.code
  where
    ends :
        (code : Option ℕ)
        → (elim code as (λ _. Echo) [
          | none ↦ answered none echo.sent
          | some ret ↦
              if ret == ok
              then answered rest.code (echo.sent ++ rest.sent)
              else answered (some fail) echo.sent
        ]).code
          ≢ some ok
    ends none = λ q. cc
    ends (some ret) = elim (Bool-cases (ret == ok)) [
      | inl good ↦ rw good h
      | inr bad ↦ rw bad (λ q. f (some-injective _ _ q))
    ]

send_rounds-Echoed :
    (fuel left : ℕ) (reads : List ReadReply) (file : List ℕ) (sends : List (List SendReply))
    → Echoed (take left file) (send_rounds fuel left reads file sends)
unfolding send_rounds
send_rounds-Echoed fuel zero reads file sends = inl (refl, refl)
send_rounds-Echoed zero (suc left) reads file sends = inr (λ h. cc, (take (suc left) file, refl))
send_rounds-Echoed (suc fuel) (suc left) reads file sends =
    let need = need_to_send (suc left) in
    let r = read_loop reads file [] need in
    let ih = send_rounds-Echoed fuel (suc left - need) r.reads r.file (others_of sends) in
    let total : need + (suc left - need) ≡ suc left = omega (arith, need_bounds left) in
    send_piece-cases (Echoed (take (suc left) file)) sends r need _
      (λ code h. inr (h, (take (suc left) file, refl)))
      (λ e. elim (read_loop-Fills reads file [] need) [
        | inr h ↦ absurd (h e)
        | inl (c, l, b, f) ↦
            subst
              (λ all. Echoed all (
                and_then send_photo_data_fail
                  (send_packet send_photo_data_fail (first_of sends) r.buffer need)
                  (send_rounds fuel (suc left - need) r.reads r.file (others_of sends))))
              (ap₂ (λ (x y : List ℕ). take need x ++ take (suc left - need) y) b f
                ∙ ap (λ x. x ++ take (suc left - need) (drop need file))
                    (take_all need (take need file) (omega (arith, length-take need file)))
                ∙ take-add need (suc left - need) file
                ∙ ap (λ m. take m file) total)
              (and_then-Echoed send_photo_data_fail _ _ (take need r.buffer)
                (take (suc left - need) r.file) (λ q. omega arith)
                (send_packet-Echoed send_photo_data_fail (λ q. omega arith) (first_of sends)
                  r.buffer need)
                ih)
      ])

-- The file was long enough, or the code is not OK.
send_rounds_long :
    (fuel left : ℕ) (reads : List ReadReply) (file : List ℕ) (sends : List (List SendReply))
    → (left ≤ length file) ⊎ ((send_rounds fuel left reads file sends).code ≢ some ok)
unfolding send_rounds
send_rounds_long fuel zero reads file sends = inl (omega arith)
send_rounds_long zero (suc left) reads file sends = inr (λ h. cc)
send_rounds_long (suc fuel) (suc left) reads file sends =
    let need = need_to_send (suc left) in
    let r = read_loop reads file [] need in
    send_piece-cases (λ e. (suc left ≤ length file) ⊎ (e.code ≢ some ok)) sends r need _
      (λ code h. inr h)
      (λ e. elim (read_loop-Fills reads file [] need) [
        | inr h ↦ absurd (h e)
        | inl (c, l, b, f) ↦
            elim (send_rounds_long fuel (suc left - need) r.reads r.file (others_of sends)) [
              | inl h ↦ inl (omega (arith, need_bounds left, ap length f, length-drop need file))
              | inr h ↦ inr (
                  and_then_fails send_photo_data_fail
                    (send_packet send_photo_data_fail (first_of sends) r.buffer need)
                    (send_rounds fuel (suc left - need) r.reads r.file (others_of sends))
                    (λ q. omega arith) h)
            ]
      ])

-- The four bytes before a photograph.
abbrev pub size_bytes : ℕ → List ℕ
size_bytes photo_size = if photo_size == 0 then [] else le32 (htonl photo_size)

send_header-Echoed :
    (photo_size : ℕ) (sends : List (List SendReply))
    → Echoed (size_bytes photo_size) (send_header photo_size sends)
unfolding send_header
send_header-Echoed photo_size sends = elim (Bool-cases (photo_size == 0)) [
  | inl none_to_send ↦ rw none_to_send (inl (refl, refl))
  | inr some_to_send ↦ rw some_to_send (
      send_packet-Echoed send_photo_data_fail (λ q. omega arith) (first_of sends)
        (le32 (htonl photo_size)) 4)
]

-- A run on a file that can be opened: OK, the file has the bytes, and the size and the bytes have
-- gone out; or another end, and a beginning of them has. The file is closed once, unless a call
-- still waits.
abbrev pub IsSent : List ℕ → ℕ → Photo → Type 0
IsSent file photo_size p =
    Echoed (size_bytes photo_size ++ take photo_size file) p.echo
    × ((photo_size ≤ length file) ⊎ (p.echo.code ≢ some ok))
    × (((p.echo.code ≡ none) × (p.closed ≡ 0)) ⊎ ((p.echo.code ≢ none) × (p.closed ≡ 1)))

closing_once :
    (e : Echo)
    → ((e.code ≡ none) × ((closing e).closed ≡ 0)) ⊎ ((e.code ≢ none) × ((closing e).closed ≡ 1))
closing_once e = ends e.code
  where
    ends :
        (code : Option ℕ)
        → ((code ≡ none) × (elim code as (λ _. ℕ) [ none ↦ 0 | some _ ↦ 1 ] ≡ 0))
          ⊎ ((code ≢ none) × (elim code as (λ _. ℕ) [ none ↦ 0 | some _ ↦ 1 ] ≡ 1))
    ends none = inl (refl, refl)
    ends (some c) = inr (λ h. cc, refl)

-- If the file can be opened, `send_photo_data` returns OK only if the file has photo_size bytes, and
-- then the socket has got the size in network order (nothing for an empty photograph) and exactly
-- these bytes, in order; on every other end it has got a beginning of them. The file is closed once
-- on every return. If the file cannot be opened, nothing is sent and nothing closed.
pub send_photo_data-IsSent :
    (reads : List ReadReply) (file : List ℕ) (sends : List (List SendReply)) (photo_size : ℕ)
    → IsSent file photo_size (send_photo_data true reads file sends photo_size)
      × (send_photo_data false reads file sends photo_size
          ≡ record { echo = answered (some open_picture_file_fail) []; closed = 0 })
unfolding send_photo_data
send_photo_data-IsSent reads file sends photo_size =
    let rest = send_rounds photo_size photo_size reads file (behind_header photo_size sends) in
    let e = and_then send_photo_data_fail (send_header photo_size sends) rest in
    (
      (
        and_then-Echoed send_photo_data_fail (send_header photo_size sends) rest
            (size_bytes photo_size) (take photo_size file) (λ q. omega arith)
            (send_header-Echoed photo_size sends)
            (send_rounds-Echoed photo_size photo_size reads file (behind_header photo_size sends)),
        elim (send_rounds_long photo_size photo_size reads file (behind_header photo_size sends)) [
          | inl h ↦ inl h
          | inr h ↦ inr (
              and_then_fails send_photo_data_fail (send_header photo_size sends) rest
                (λ q. omega arith) h)
        ],
        closing_once e,
      ),
      refl,
    )
