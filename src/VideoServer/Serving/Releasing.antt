-- ===== src/VideoServer/Serving/Releasing.antt =====
-- What `video_server` has released when it waits and when it returns.
use handle_wifi_camera_itop.Common.{
  ℕ, suc, ◌+◌, ◌==◌, if◌then◌else◌, ◌≡◌, ◌⊎◌, inl, inr, refl, false, Bool-cases, List, [], ◌∷◌,
  ◌++◌, arith,
}
use handle_wifi_camera_itop.Public.ErrorCode.{ok, init_rtsp_socket_fail, recv_rtsp_command_fail}
use handle_wifi_camera_itop.NetTrans.Sockets.{Kernel, init_tcp_server_socket}
use handle_wifi_camera_itop.Rtsp.Search.{Regex}
use handle_wifi_camera_itop.Rtsp.Handlers.{create_session_id}
use handle_wifi_camera_itop.VideoServer.Session.{Next, continue, break, return, sending}
use handle_wifi_camera_itop.VideoServer.Session.Protocol.{fresh}
use handle_wifi_camera_itop.VideoServer.Session.Ending.{Ends, rounds-Ends}
use handle_wifi_camera_itop.VideoServer.Serving.{
  Resource, send_buf, recv_buf, frame_buffer, sps, pps, mtx, cond, sem, rtsp_sockfd,
  rtsp_conn_sockfd, Client, Served, accepting, in_session, returned, without_sockets, with_sockets,
  from_session, start, after_session, rtsp_socket_port, serve, video_server,
}

abbrev tag : Resource → ℕ
tag send_buf = 0
tag recv_buf = 1
tag frame_buffer = 2
tag sps = 3
tag pps = 4
tag mtx = 5
tag cond = 6
tag sem = 7
tag rtsp_sockfd = 8
tag rtsp_conn_sockfd = 9

-- How often a resource is released.
abbrev pub times : Resource → List Resource → ℕ
times r [] = 0
times r (x ∷ released) = let rest = times r released in if tag r == tag x then suc rest else rest

-- While the server runs, only connections have been closed; when it returns, the connection of
-- every client has, and all else once.
abbrev pub while_running : Resource → ℕ → ℕ
while_running rtsp_conn_sockfd finished = finished
while_running _ finished = 0

abbrev pub at_return : Resource → ℕ → ℕ
at_return rtsp_conn_sockfd accepted = accepted
at_return _ accepted = 1

-- The descriptor of a socket that could not be opened is not the server's to close.
abbrev pub Accounts : Resource → Served → Type 0
Accounts r (accepting released accepted) = times r released ≡ while_running r accepted
Accounts r (in_session released accepted s) =
    (finished : ℕ) × (accepted ≡ suc finished) × (times r released ≡ while_running r finished)
Accounts r (returned code released accepted rtp) =
    ((times r released ≡ at_return r accepted)
      ⊎ ((code ≡ init_rtsp_socket_fail) × (r ≡ rtsp_sockfd) × (times r released ≡ 0)))
    × ((rtp ≡ false) ⊎ (code ≡ recv_rtsp_command_fail))

times-append : (r : Resource) (xs ys : List Resource) → times r (xs ++ ys) ≡ times r xs + times r ys
times-append r [] ys = omega arith
times-append r (x ∷ xs) ys = elim (Bool-cases (tag r == tag x)) [
  | inl same ↦ rw same (omega (arith, times-append r xs ys))
  | inr other ↦ rw other (times-append r xs ys)
]

closed_one :
    (r : Resource) (released : List Resource) (n : ℕ)
    → times r released ≡ while_running r n
    → times r (released ++ (rtsp_conn_sockfd ∷ [])) ≡ while_running r (suc n)
closed_one rtsp_conn_sockfd released n h =
    omega (arith, times-append rtsp_conn_sockfd released (rtsp_conn_sockfd ∷ []))
closed_one r released n h = omega (arith, times-append r released (rtsp_conn_sockfd ∷ []))

closed_all :
    (r : Resource) (code : ℕ) (released : List Resource) (n : ℕ)
    → times r released ≡ while_running r n
    → times r (released ++ from_session code) ≡ at_return r (suc n)
closed_all r code released n h = elim (Bool-cases (code == recv_rtsp_command_fail)) [
  | inl lost ↦ rw lost (with_all r h)
  | inr failed ↦ rw failed (play_all r h)
]
  where
    with_all :
        (r : Resource)
        → times r released ≡ while_running r n
        → times r (released ++ with_sockets) ≡ at_return r (suc n)
    with_all rtsp_conn_sockfd h = omega (arith, times-append rtsp_conn_sockfd released with_sockets)
    with_all r h = omega (arith, times-append r released with_sockets)

    play_all :
        (r : Resource)
        → times r released ≡ while_running r n
        → times r (released ++ from_session 0) ≡ at_return r (suc n)
    play_all rtsp_conn_sockfd h =
        omega (arith, times-append rtsp_conn_sockfd released (from_session 0))
    play_all r h = omega (arith, times-append r released (from_session 0))

closed_listening :
    (r : Resource) (released : List Resource) (n : ℕ)
    → times r released ≡ while_running r n
    → times r (released ++ (without_sockets ++ (rtsp_sockfd ∷ []))) ≡ at_return r n
closed_listening rtsp_conn_sockfd released n h =
    omega (arith, times-append rtsp_conn_sockfd released (without_sockets ++ (rtsp_sockfd ∷ [])))
closed_listening r released n h =
    omega (arith, times-append r released (without_sockets ++ (rtsp_sockfd ∷ [])))

module _ (regex : Regex) (r : Resource) where
  after_session-Accounts :
      (clients : List Client) (released : List Resource) (n : ℕ) (next : Next)
      → ((released : List Resource) (n : ℕ)
          → times r released ≡ while_running r n
          → Accounts r (serve regex clients released n))
      → times r released ≡ while_running r n
      → Ends fresh start next
      → Accounts r (after_session (serve regex clients) released (suc n) next)
  after_session-Accounts clients released n (continue s) ih h e = (n, refl, h)
  after_session-Accounts clients released n (sending s) ih h e = (n, refl, h)
  after_session-Accounts clients released n (break s) ih h e =
      ih (released ++ (rtsp_conn_sockfd ∷ [])) (suc n) (closed_one r released n h)
  after_session-Accounts clients released n (return code s) ih h (_, inl stopped) =
      (inl (closed_all r code released n h), inl stopped)
  after_session-Accounts clients released n (return code s) ih h (_, inr (_, lost)) =
      (inl (closed_all r code released n h), inr lost)

  serve-Accounts :
      (clients : List Client) (released : List Resource) (n : ℕ)
      → times r released ≡ while_running r n
      → Accounts r (serve regex clients released n)
  unfolding serve
  serve-Accounts [] released n h = h
  serve-Accounts (c ∷ clients) released n h = elim (Bool-cases c.accept) [
    | inr refused ↦ rw refused (inl (closed_listening r released n h), inl refl)
    | inl accepted ↦ elim (Bool-cases (c.create_video == ok)) [
      | inr failed ↦
          rw (accepted, failed) (inl (closed_all r recv_rtsp_command_fail released n h), inl refl)
      | inl created ↦ elim (Bool-cases c.sem_wait) [
        | inr failed ↦
            rw (accepted, created, failed)
              (inl (closed_all r recv_rtsp_command_fail released n h), inl refl)
        | inl waited ↦
            rw (accepted, created, waited)
              (after_session-Accounts clients released n _ (serve-Accounts clients) h (
                rounds-Ends regex c.media (create_session_id c.rand) c.requests start
                  (record { mask = refl; video_runs = refl; rtp_runs = refl })))
      ]
    ]
  ]

nothing_yet : (r : Resource) → times r [] ≡ while_running r 0
nothing_yet rtsp_conn_sockfd = refl
nothing_yet r = refl

not_opened :
    (r : Resource)
    → let released = send_buf ∷ recv_buf ∷ frame_buffer ∷ sps ∷ pps ∷ mtx ∷ cond ∷ sem ∷ [] in
      (times r released ≡ at_return r 0)
      ⊎ ((init_rtsp_socket_fail ≡ init_rtsp_socket_fail)
          × (r ≡ rtsp_sockfd)
          × (times r released ≡ 0))
not_opened rtsp_sockfd = inr (refl, refl, refl)
not_opened r = inl refl

-- Whatever the clients and the system do, while `video_server` runs it has closed the connection of
-- each client that is gone and released nothing else; when it returns, it has released each of its
-- buffers, locks and sockets exactly once, but for a listening socket that it could not open, and
-- no RTP thread runs unless `recv` has failed.
pub video_server-Accounts :
    (regex : Regex) (r : Resource) (kernel : Kernel) (clients : List Client)
    → Accounts r (video_server regex kernel clients)
unfolding video_server
video_server-Accounts regex r kernel clients =
    elim (Bool-cases ((init_tcp_server_socket kernel rtsp_socket_port).code == ok)) [
      | inl opened ↦ rw opened (serve-Accounts regex r clients [] 0 (nothing_yet r))
      | inr failed ↦ rw failed (not_opened r, inl refl)
    ]
