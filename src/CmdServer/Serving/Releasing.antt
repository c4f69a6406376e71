-- ===== src/CmdServer/Serving/Releasing.antt =====
-- What `cmd_server` has released when the rounds of a client are over.
use handle_wifi_camera_itop.Common.{
  ℕ, ◌==◌, if◌then◌else◌, ◌≡◌, ◌≢◌, inl, inr, refl, sym, ap, ◌∙◌, Bool-cases, List, [], ◌∷◌, ◌++◌,
  append_assoc, append-nil, Option, some, none, arith,
}
use handle_wifi_camera_itop.Public.ErrorCode.{
  ok, no_data_to_recv, tcp_connectiong_has_been_closed, recv_cmd_fail, dispose_syn_time_fail,
  dispose_take_photo_fail, recv_unknow_cmd, check_take_photo_results_fail,
}
use handle_wifi_camera_itop.NetTrans.Packets.{Echo}
use handle_wifi_camera_itop.CmdServer.Commands.{
  Command, returned, waits, overruns, recv_cmd, le32_value, syn_time_cmd, take_photo_cmd,
  dispose_syn_time_cmd, dispose_take_photo_cmd,
}
use handle_wifi_camera_itop.CmdServer.Results.{check_take_photo_results}
use handle_wifi_camera_itop.CmdServer.Serving.{
  Resource, listen_socketfd, cmd_socketfd, msg_id_for_take_photo, msg_id_for_send_file, global_addr,
  shm_id, Server, Round, Next, continue, next_client, waiting, overrun, exited, leave, after_echo,
  report_results, on_syn_time, on_take_photo, dispatch, on_received, round, rounds,
}

abbrev pub everything : List Resource
everything =
    listen_socketfd ∷ cmd_socketfd ∷ msg_id_for_take_photo ∷ msg_id_for_send_file ∷ global_addr
    ∷ shm_id ∷ []

-- Nothing is released while the client is served, its socket when it is gone, and everything, once,
-- when the server ends, which it does with an error. What has been sent is never taken back.
abbrev pub Releases : Server → Next → Type 0
Releases s (continue t) = (t.released ≡ s.released) × ((more : List ℕ) × (t.sent ≡ s.sent ++ more))
Releases s (waiting t) = (t.released ≡ s.released) × ((more : List ℕ) × (t.sent ≡ s.sent ++ more))
Releases s (overrun t) = (t.released ≡ s.released) × ((more : List ℕ) × (t.sent ≡ s.sent ++ more))
Releases s (next_client t) =
    (t.released ≡ s.released ++ (cmd_socketfd ∷ [])) × ((more : List ℕ) × (t.sent ≡ s.sent ++ more))
Releases s (exited code t) =
    (code ≢ ok)
    × (t.released ≡ s.released ++ everything)
    × ((more : List ℕ) × (t.sent ≡ s.sent ++ more))

leave-Releases : (code : ℕ) (s : Server) → code ≢ ok → Releases s (leave code s)
unfolding leave
leave-Releases code s h = (h, refl, ([], sym (append-nil s.sent)))

-- What holds from a later server holds from an earlier one that has released the same.
Releases-earlier :
    (s t : Server) (r : Next) (more : List ℕ)
    → t.released ≡ s.released
    → t.sent ≡ s.sent ++ more
    → Releases t r
    → Releases s r
Releases-earlier s t (continue u) more e h (a, (b, c)) =
    (a ∙ e, (more ++ b, c ∙ ap (λ l. l ++ b) h ∙ append_assoc s.sent more b))
Releases-earlier s t (waiting u) more e h (a, (b, c)) =
    (a ∙ e, (more ++ b, c ∙ ap (λ l. l ++ b) h ∙ append_assoc s.sent more b))
Releases-earlier s t (overrun u) more e h (a, (b, c)) =
    (a ∙ e, (more ++ b, c ∙ ap (λ l. l ++ b) h ∙ append_assoc s.sent more b))
Releases-earlier s t (next_client u) more e h (a, (b, c)) = (
  a ∙ ap (λ l. l ++ (cmd_socketfd ∷ [])) e,
  (more ++ b, c ∙ ap (λ l. l ++ b) h ∙ append_assoc s.sent more b),
)
Releases-earlier s t (exited code u) more e h (n, a, (b, c)) = (
  n,
  a ∙ ap (λ l. l ++ everything) e,
  (more ++ b, c ∙ ap (λ l. l ++ b) h ∙ append_assoc s.sent more b),
)

after_echo-Releases :
    (fail : ℕ) (echo : Echo) (done : Server → Next) (s : Server)
    → fail ≢ ok
    → ((t : Server) → Releases t (done t))
    → Releases s (after_echo fail echo done s)
unfolding after_echo
after_echo-Releases fail echo done s f h = ended echo.code
  where
    s' : Server
    s' = record s { sent = s.sent ++ echo.sent }

    ended :
        (code : Option ℕ)
        → Releases s (elim code [
          | none ↦ waiting s'
          | some ret ↦ if ret == ok then done s' else leave fail s'
        ])
    ended none = (refl, (echo.sent, refl))
    ended (some ret) = elim (Bool-cases (ret == ok)) [
      | inl good ↦ rw good (Releases-earlier s s' (done s') echo.sent refl refl (h s'))
      | inr bad ↦
          rw bad
            (Releases-earlier s s' (leave fail s') echo.sent refl refl (leave-Releases fail s' f))
    ]

report_results-Releases : (w : Round) (s : Server) → Releases s (report_results w s)
unfolding report_results
report_results-Releases w s =
    after_echo-Releases check_take_photo_results_fail (check_take_photo_results w.results w.sends)
      continue s (λ h. omega arith) (λ t. (refl, ([], sym (append-nil t.sent))))

on_take_photo-Releases :
    (w : Round) (cmd : List ℕ) (s : Server) → Releases s (on_take_photo w cmd s)
unfolding on_take_photo
on_take_photo-Releases w cmd s = elim (Bool-cases ((dispose_take_photo_cmd w.msgsnd cmd).0 == ok)) [
  | inl good ↦ rw good (
      Releases-earlier s (record s { queued = s.queued ++ (dispose_take_photo_cmd w.msgsnd cmd).1 })
        _ [] refl (sym (append-nil s.sent)) (report_results-Releases w _))
  | inr bad ↦ rw bad (leave-Releases dispose_take_photo_fail s (λ h. omega arith))
]

dispatch-Releases : (w : Round) (cmd : List ℕ) (s : Server) → Releases s (dispatch w cmd s)
unfolding dispatch on_syn_time
dispatch-Releases w cmd s = elim (Bool-cases (le32_value cmd == syn_time_cmd)) [
  | inl syn ↦ rw syn (
      after_echo-Releases dispose_syn_time_fail (dispose_syn_time_cmd w.stime w.sending cmd)
        (report_results w) s (λ h. omega arith) (report_results-Releases w))
  | inr other ↦ elim (Bool-cases (le32_value cmd == take_photo_cmd)) [
    | inl take_photo ↦ rw (other, take_photo) (on_take_photo-Releases w cmd s)
    | inr unknown ↦ rw (other, unknown) (leave-Releases recv_unknow_cmd s (λ h. omega arith))
  ]
]

on_received-Releases :
    (w : Round) (ret : ℕ) (cmd : List ℕ) (s : Server) → Releases s (on_received w ret cmd s)
unfolding on_received
on_received-Releases w ret cmd s = elim (Bool-cases (ret == no_data_to_recv)) [
  | inl idle ↦ rw idle (report_results-Releases w s)
  | inr busy ↦ elim (Bool-cases (ret == ok)) [
    | inl good ↦ rw (busy, good) (dispatch-Releases w cmd s)
    | inr bad ↦ elim (Bool-cases (ret == tcp_connectiong_has_been_closed)) [
      | inl gone ↦ rw (busy, bad, gone) (refl, ([], sym (append-nil s.sent)))
      | inr lost ↦ rw (busy, bad, lost) (leave-Releases recv_cmd_fail s (λ h. omega arith))
    ]
  ]
]

round-Releases : (w : Round) (s : Server) → Releases s (round w s)
unfolding round
round-Releases w s = received (recv_cmd w.head w.body s.stream)
  where
    received :
        (c : Command)
        → Releases s (elim c [
          | returned ret cmd stream ↦ on_received w ret cmd (record s { stream = stream })
          | waits stream ↦ waiting (record s { stream = stream })
          | overruns stream ↦ overrun (record s { stream = stream })
        ])
    received (returned ret cmd stream) =
        Releases-earlier s (record s { stream = stream }) _ [] refl (sym (append-nil s.sent))
          (on_received-Releases w ret cmd (record s { stream = stream }))
    received (waits stream) = (refl, ([], sym (append-nil s.sent)))
    received (overruns stream) = (refl, ([], sym (append-nil s.sent)))

after_round :
    (s : Server) (ws : List Round)
    → ((t : Server) → Releases t (rounds ws t))
    → (r : Next) → Releases s r
    → Releases s (elim r [
      | continue s' ↦ rounds ws s'
      | next_client s' ↦ next_client s'
      | waiting s' ↦ waiting s'
      | overrun s' ↦ overrun s'
      | exited code s' ↦ exited code s'
    ])
after_round s ws ih (continue t) (e, (more, h)) = Releases-earlier s t (rounds ws t) more e h (ih t)
after_round s ws ih (next_client t) h = h
after_round s ws ih (waiting t) h = h
after_round s ws ih (overrun t) h = h
after_round s ws ih (exited code t) h = h

-- However the rounds of a client go, nothing is released while it is served, exactly its socket when
-- it has closed the connection, and all six resources, once, when the server ends; it ends only with
-- an error. What has been sent to the client stays sent.
pub rounds-Releases : (ws : List Round) (s : Server) → Releases s (rounds ws s)
unfolding rounds
rounds-Releases [] s = (refl, ([], sym (append-nil s.sent)))
rounds-Releases (w ∷ ws) s = after_round s ws (rounds-Releases ws) (round w s) (round-Releases w s)
