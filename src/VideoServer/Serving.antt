-- ===== src/VideoServer/Serving.antt =====
-- `video_server` around the sessions: the loop over `accept` (video_server.c:8-131 and 424-440).
pub mod Releasing
use handle_wifi_camera_itop.Common.{
  ℕ, suc, ◌==◌, if◌then◌else◌, Bool, true, false, List, [], ◌∷◌, ◌++◌,
}
use handle_wifi_camera_itop.Public.ErrorCode.{
  ok, init_rtsp_socket_fail, accept_rtsp_socket_fail, create_video_pthread_fail,
  sem_wait_video_pthread_fail, recv_rtsp_command_fail,
}
use handle_wifi_camera_itop.NetTrans.Sockets.{Kernel, init_tcp_server_socket}
use handle_wifi_camera_itop.Rtsp.Search.{Regex}
use handle_wifi_camera_itop.Rtsp.Handlers.{create_session_id}
use handle_wifi_camera_itop.VideoServer.Session.{
  Session, World, Media, Next, continue, break, return, sending, rounds,
}

abbrev pub rtsp_socket_port : ℕ
rtsp_socket_port = 554

-- What is allocated, initialised or opened, and has to be released.
pub data Resource : Type 0 where
  send_buf recv_buf frame_buffer sps pps : Resource
  mtx cond sem : Resource
  rtsp_sockfd rtsp_conn_sockfd : Resource

-- What the outside world does with one client: whether `accept` and `sem_wait` succeed, what
-- `pthread_create` returns for the camera thread, rand(), the SPS and PPS that the camera thread
-- stores, and the rounds of the session.
pub record Client : Type 0 where
  pub accept : Bool
  pub create_video : ℕ
  pub sem_wait : Bool
  pub rand : ℕ
  pub media : Media
  pub requests : List World

-- The server waits in `accept`, or in a session; or it has returned a code. `released` is what has
-- been freed, destroyed or closed, in order, `accepted` how many clients there have been, and `rtp`
-- whether the RTP thread of the last one still runs.
pub data Served : Type 0 where
  accepting : List Resource → ℕ → Served
  in_session : List Resource → ℕ → Session → Served
  returned : ℕ → List Resource → ℕ → Bool → Served

abbrev pub without_sockets : List Resource
without_sockets = recv_buf ∷ send_buf ∷ frame_buffer ∷ sps ∷ pps ∷ mtx ∷ cond ∷ sem ∷ []

abbrev pub with_sockets : List Resource
with_sockets = without_sockets ++ (rtsp_conn_sockfd ∷ rtsp_sockfd ∷ [])

-- The `return` of PLAY frees the two buffers in the other order.
abbrev pub from_session : ℕ → List Resource
from_session code =
    if code == recv_rtsp_command_fail
    then with_sockets
    else send_buf ∷ recv_buf ∷ frame_buffer ∷ sps ∷ pps ∷ mtx ∷ cond ∷ sem ∷ rtsp_conn_sockfd
      ∷ rtsp_sockfd ∷ []

-- A new session: the camera thread runs, and no request has come.
abbrev pub start : Session
start = record {
  rtsp_bit_mask = 0;
  client_port = 0;
  video = true;
  rtp = false;
  joined_video = 0;
  joined_rtp = 0;
  replies = [];
}

-- What follows the session of a client.
abbrev pub after_session : (List Resource → ℕ → Served) → List Resource → ℕ → Next → Served
after_session others released accepted (continue s) = in_session released accepted s
after_session others released accepted (sending s) = in_session released accepted s
after_session others released accepted (break s) =
    others (released ++ (rtsp_conn_sockfd ∷ [])) accepted
after_session others released accepted (return code s) =
    returned code (released ++ from_session code) accepted s.rtp

module _ (regex : Regex) where
  pub serve : List Client → List Resource → ℕ → Served
  serve [] released accepted = accepting released accepted
  serve (c ∷ clients) released accepted =
      if c.accept
      then (if c.create_video == ok
          then (if c.sem_wait
              then after_session (serve clients) released (suc accepted)
                  (rounds regex c.media (create_session_id c.rand) c.requests start)
              else returned sem_wait_video_pthread_fail (released ++ with_sockets) (suc accepted)
                  false)
          else returned create_video_pthread_fail (released ++ with_sockets) (suc accepted) false)
      else returned accept_rtsp_socket_fail (released ++ (without_sockets ++ (rtsp_sockfd ∷ [])))
          accepted false

  pub video_server : Kernel → List Client → Served
  unfolding serve
  video_server kernel clients =
      if (init_tcp_server_socket kernel rtsp_socket_port).code == ok
      then serve clients [] 0
      else returned init_rtsp_socket_fail
          (send_buf ∷ recv_buf ∷ frame_buffer ∷ sps ∷ pps ∷ mtx ∷ cond ∷ sem ∷ []) 0 false
