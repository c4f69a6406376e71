-- ===== src/CmdServer/Commands/Framing.antt =====
-- How `recv_cmd` cuts the client's stream into commands.
use handle_wifi_camera_itop.Common.{
  ℕ, ◌≤◌, ◌==◌, ltb, if◌then◌else◌, ◌≡◌, ◌⊎◌, inl, inr, refl, sym, ap, ◌∙◌, true, false, Bool-cases,
  List, [], ◌++◌, append_assoc, some, none, arith, length, replicate,
}
use handle_wifi_camera_itop.Public.ErrorCode.{
  ok, no_data_to_recv, tcp_socket_recv_fail, tcp_connectiong_has_been_closed,
}
use handle_wifi_camera_itop.NetTrans.Recv.{RecvReply, Received, msg_dontwait, tcp_recv_data}
use handle_wifi_camera_itop.NetTrans.Recv.Reception.{
  Reads, Ending, full, idle, closed, lost, still_waiting, tcp_recv_data-Reads,
}
use handle_wifi_camera_itop.CmdServer.Commands.{
  Command, returned, waits, overruns, recv_body, recv_cmd, le32_value, max_cmd_length,
}

-- The stream is a command of cmd_len bytes behind a native number cmd_len, and the rest.
abbrev pub Frame : List ℕ → List ℕ → List ℕ → Type 0
Frame stream cmd rest =
    (cmd_len : List ℕ) × (packet : List ℕ) × (stream ≡ cmd_len ++ (packet ++ rest))
    × (length cmd_len ≡ 4)
    × (length packet ≡ le32_value cmd_len)
    × (length packet ≤ max_cmd_length)
    × (cmd ≡ packet ++ replicate max_cmd_length 0)

-- What is unread is the end of the stream.
abbrev pub Beyond : List ℕ → List ℕ → Type 0
Beyond stream rest = (taken : List ℕ) × (taken ++ rest ≡ stream)

-- OK with one frame taken off; "no data" with nothing taken; or another end in the middle of a frame.
abbrev pub IsFramed : List ℕ → Command → Type 0
IsFramed stream (returned ret cmd rest) =
    ((ret ≡ ok) × Frame stream cmd rest)
    ⊎ (((ret ≡ no_data_to_recv) × (rest ≡ stream))
        ⊎ (((ret ≡ tcp_connectiong_has_been_closed) ⊎ (ret ≡ tcp_socket_recv_fail))
            × Beyond stream rest))
IsFramed stream (waits rest) = Beyond stream rest
IsFramed stream (overruns rest) = Beyond stream rest

body_ends : Received → Command
body_ends r = if ltb max_cmd_length (length r.buff) then overruns r.stream else elim r.code [
  | none ↦ waits r.stream
  | some ret ↦ returned ret (r.buff ++ replicate max_cmd_length 0) r.stream
]

-- Behind a length that has been read, the packet.
body-IsFramed :
    (stream cmd_len unread : List ℕ) (r : Received)
    → stream ≡ cmd_len ++ unread
    → length cmd_len ≡ 4
    → Reads false [] unread (le32_value cmd_len) r
    → IsFramed stream (body_ends r)
unfolding body_ends
body-IsFramed stream cmd_len unread r e four v =
    elim (Bool-cases (ltb max_cmd_length (length r.buff))) [
      | inl long ↦ rw long (cmd_len ++ r.buff, beyond)
      | inr fits ↦ rw fits (ends (ground arith) v.ending)
    ]
  where
    beyond : (cmd_len ++ r.buff) ++ r.stream ≡ stream
    beyond = append_assoc cmd_len r.buff r.stream ∙ ap (λ l. cmd_len ++ l) v.kept ∙ sym e

    ends :
        length r.buff ≤ max_cmd_length
        → Ending false [] (le32_value cmd_len) r
        → IsFramed stream (elim r.code [
          | none ↦ waits r.stream
          | some ret ↦ returned ret (r.buff ++ replicate max_cmd_length 0) r.stream
        ])
    ends short (full c n) = rw c (
        inl (
          refl,
          (
            cmd_len,
            r.buff,
            e ∙ ap (λ l. cmd_len ++ l) (sym v.kept),
            four,
            omega (arith, n),
            short,
            refl,
          ),
        ))
    ends short (idle c d b g p) = absurd (cc d)
    ends short (closed c s n) = rw c (inr (inr (inl refl, (cmd_len ++ r.buff, beyond))))
    ends short (lost c n) = rw c (inr (inr (inr refl, (cmd_len ++ r.buff, beyond))))
    ends short (still_waiting c n) = rw c (cmd_len ++ r.buff, beyond)

-- However the bytes arrive, `recv_cmd` returns OK with exactly the next command of the stream, whose
-- length the four bytes before it say, zeros behind it; "no data" with the stream untouched; or it
-- ends within a command, because the connection is closed or fails, the client makes it wait, or the
-- command is longer than 1200 bytes.
pub recv_cmd-IsFramed :
    (head body : List RecvReply) (stream : List ℕ) → IsFramed stream (recv_cmd head body stream)
unfolding recv_cmd recv_body body_ends
recv_cmd-IsFramed head body stream = ends v.ending
  where
    r : Received
    r = tcp_recv_data head stream 4 msg_dontwait

    v : Reads true [] stream 4 r
    v = (tcp_recv_data-Reads head stream 4).0

    ends :
        Ending true [] 4 r
        → IsFramed stream (elim r.code [
          | none ↦ waits r.stream
          | some ret ↦
              if ret == ok
              then recv_body body r.stream (le32_value r.buff)
              else returned ret [] r.stream
        ])
    ends (full c n) = rw c (
        body-IsFramed stream r.buff r.stream (tcp_recv_data body r.stream (le32_value r.buff) 0)
          (sym v.kept) n (tcp_recv_data-Reads body r.stream (le32_value r.buff)).1)
    ends (idle c d b g p) = rw c (inr (inl (refl, ap (λ l. l ++ r.stream) (sym b) ∙ v.kept)))
    ends (closed c s n) = rw c (inr (inr (inl refl, (r.buff, v.kept))))
    ends (lost c n) = rw c (inr (inr (inr refl, (r.buff, v.kept))))
    ends (still_waiting c n) = rw c (r.buff, v.kept)
