-- ===== src/VideoServer/Session/Protocol.antt =====
-- The session against the protocol: what each state of the bit mask allows.
use handle_wifi_camera_itop.Common.{ℕ, ◌+◌, ◌≡◌, ◌⊎◌, Bool, true, false, Option, some, none, length}
use handle_wifi_camera_itop.Public.ErrorCode.{create_rtp_thread_fail, recv_rtsp_command_fail}
use handle_wifi_camera_itop.VideoServer.Session.{
  Session, Next, continue, break, return, sending, Method, options, describe, setup, play,
}

-- How far a client has come: the requests are accepted in this order only.
pub data Stage : Type 0 where
  fresh optioned described ready streaming : Stage

abbrev pub mask_of : Stage → ℕ
mask_of fresh = 0b0000
mask_of optioned = 0b0001
mask_of described = 0b0011
mask_of ready = 0b0111
mask_of streaming = 0b1111

abbrev pub is_streaming : Stage → Bool
is_streaming streaming = true
is_streaming _ = false

-- How many requests have been accepted.
abbrev pub rank : Stage → ℕ
rank fresh = 0
rank optioned = 1
rank described = 2
rank ready = 3
rank streaming = 4

-- The accepted requests, by stage.
pub data Accepts : Stage → Method → Stage → Type 0 where
  on_options : Accepts fresh options optioned
  on_describe : Accepts optioned describe described
  on_setup : Accepts described setup ready
  on_play : Accepts ready play streaming

-- At the head of the loop: the mask is that of a stage, the camera thread runs, and the RTP thread
-- runs exactly while streaming.
pub record IsAt (stage : Stage) (s : Session) : Type 0 where
  pub mask : s.rtsp_bit_mask ≡ mask_of stage
  pub video_runs : s.video ≡ true
  pub rtp_runs : s.rtp ≡ is_streaming stage

-- The threads that ran have been joined, each once; no other has.
abbrev pub add_if : Bool → ℕ → ℕ
add_if true n = n + 1
add_if false n = n

pub record IsClosed (stage : Stage) (s t : Session) : Type 0 where
  pub no_video : t.video ≡ false
  pub no_rtp : t.rtp ≡ false
  pub video_once : t.joined_video ≡ s.joined_video + 1
  pub rtp_once : t.joined_rtp ≡ add_if (is_streaming stage) s.joined_rtp

-- What a round may do: continue by an accepted request, stay in `send`, give the connection up with
-- all threads joined, or end the server, with the RTP thread as it was.
pub data Outcome (stage : Stage) (s : Session) (m : Option Method) : Next → Type 0 where
  accepted :
      {t : Session} (next : Stage) (method : Method)
      → m ≡ some method
      → Accepts stage method next
      → IsAt next t
      → length t.replies ≡ length s.replies + 1
      → t.joined_video ≡ s.joined_video
      → t.joined_rtp ≡ s.joined_rtp
      → Outcome stage s m (continue t)
  still_sending :
      {t : Session}
      → IsAt stage t
      → length t.replies ≡ length s.replies
      → Outcome stage s m (sending t)
  closed : {t : Session} → IsClosed stage s t → Outcome stage s m (break t)
  ended :
      {t : Session} (code : ℕ)
      → (code ≡ recv_rtsp_command_fail) × (m ≡ none)
        ⊎ (code ≡ create_rtp_thread_fail) × (m ≡ some play) × (stage ≡ ready)
      → t.video ≡ false
      → t.rtp ≡ is_streaming stage
      → Outcome stage s m (return code t)
