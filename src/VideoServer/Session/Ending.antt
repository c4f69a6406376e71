-- ===== src/VideoServer/Session/Ending.antt =====
-- How the rounds of one connection end.
use handle_wifi_camera_itop.Common.{
  ℕ, ◌+◌, ◌≡◌, ◌⊎◌, inl, inr, refl, ap, Bool, true, false, List, [], ◌∷◌, Option, some, none, arith,
  Text, length,
}
use handle_wifi_camera_itop.Public.ErrorCode.{recv_rtsp_command_fail, create_rtp_thread_fail}
use handle_wifi_camera_itop.Rtsp.Search.{Regex}
use handle_wifi_camera_itop.VideoServer.Session.{
  Session, World, Media, Next, continue, break, return, sending, Method, play, rounds,
}
use handle_wifi_camera_itop.VideoServer.Session.Protocol.{
  Stage, fresh, ready, rank, is_streaming, IsAt, Outcome, accepted, still_sending, closed, ended,
  Accepts, add_if,
}
use handle_wifi_camera_itop.VideoServer.Session.Accepting.{method_in, round-Outcome}

-- How the rounds of a connection may end, for one that begins at a stage. While it lasts, one answer
-- has been sent for each stage passed.
abbrev pub Ends : Stage → Session → Next → Type 0
Ends stage s (continue t) =
    (now : Stage) × IsAt now t × (length t.replies + rank stage ≡ length s.replies + rank now)
Ends stage s (sending t) =
    (now : Stage) × IsAt now t × (length t.replies + rank stage ≡ length s.replies + rank now)
Ends stage s (break t) =
    (t.video ≡ false)
    × (t.rtp ≡ false)
    × (t.joined_video ≡ s.joined_video + 1)
    × ((t.joined_rtp ≡ s.joined_rtp) ⊎ (t.joined_rtp ≡ s.joined_rtp + 1))
Ends stage s (return code t) =
    (t.video ≡ false) × ((t.rtp ≡ false) ⊎ ((t.rtp ≡ true) × (code ≡ recv_rtsp_command_fail)))

rank-Accepts : {stage next : Stage} {m : Method} → Accepts stage m next → rank next ≡ rank stage + 1
rank-Accepts Accepts.on_options = refl
rank-Accepts Accepts.on_describe = refl
rank-Accepts Accepts.on_setup = refl
rank-Accepts Accepts.on_play = refl

Ends-earlier :
    (stage next : Stage) (s t : Session) (r : Next)
    → rank next ≡ rank stage + 1
    → length t.replies ≡ length s.replies + 1
    → t.joined_video ≡ s.joined_video
    → t.joined_rtp ≡ s.joined_rtp
    → Ends next t r
    → Ends stage s r
Ends-earlier stage next s t (continue u) k l jv jr (now, v, e) = (now, v, omega arith)
Ends-earlier stage next s t (sending u) k l jv jr (now, v, e) = (now, v, omega arith)
Ends-earlier stage next s t (break u) k l jv jr (a, b, c, d) = (a, b, omega arith, rw (← jr) d)
Ends-earlier stage next s t (return code u) k l jv jr h = h

joined_at_most_once :
    (streams : Bool) (s t : Session)
    → t.joined_rtp ≡ add_if streams s.joined_rtp
    → (t.joined_rtp ≡ s.joined_rtp) ⊎ (t.joined_rtp ≡ s.joined_rtp + 1)
joined_at_most_once true s t h = inr h
joined_at_most_once false s t h = inl h

left_running :
    (streams : Bool) (code : ℕ) (t : Session)
    → (streams ≡ true → code ≡ recv_rtsp_command_fail)
    → t.rtp ≡ streams
    → (t.rtp ≡ false) ⊎ ((t.rtp ≡ true) × (code ≡ recv_rtsp_command_fail))
left_running true code t h e = inr (e, h refl)
left_running false code t h e = inl e

streaming_code :
    (stage : Stage) (code : ℕ) (m : Option Method)
    → (code ≡ recv_rtsp_command_fail) × (m ≡ none)
      ⊎ (code ≡ create_rtp_thread_fail) × (m ≡ some play) × (stage ≡ ready)
    → is_streaming stage ≡ true
    → code ≡ recv_rtsp_command_fail
streaming_code stage code m (inl (c, _)) e = c
streaming_code stage code m (inr (_, _, at_ready)) e = cc (ap is_streaming at_ready)

module _ (regex : Regex) (media : Media) (session_id : Text) where
  after_round :
      (ws : List World)
      → ((stage : Stage) (s : Session)
          → IsAt stage s
          → Ends stage s (rounds regex media session_id ws s))
      → (stage : Stage) (s : Session) (m : Option Method) {r : Next} → Outcome stage s m r
      → Ends stage s (elim r [
        | continue s' ↦ rounds regex media session_id ws s'
        | break s' ↦ break s'
        | return code s' ↦ return code s'
        | sending s' ↦ sending s'
      ])
  after_round ws ih stage s m (accepted {t} next method e a v l jv jr) =
      Ends-earlier stage next s t (rounds regex media session_id ws t) (rank-Accepts a) l jv jr
        (ih next t v)
  after_round ws ih stage s m (still_sending v l) = (stage, v, ap (λ n. n + rank stage) l)
  after_round ws ih stage s m (closed {t} v) =
      (v.no_video, v.no_rtp, v.video_once, joined_at_most_once (is_streaming stage) s t v.rtp_once)
  after_round ws ih stage s m (ended {t} code why no_video rtp) =
      (no_video, left_running (is_streaming stage) code t (streaming_code stage code m why) rtp)

  rounds-Ends_from :
      (ws : List World) (stage : Stage) (s : Session)
      → IsAt stage s
      → Ends stage s (rounds regex media session_id ws s)
  unfolding rounds
  rounds-Ends_from [] stage s v = (stage, v, refl)
  rounds-Ends_from (w ∷ ws) stage s v =
      after_round ws (rounds-Ends_from ws) stage s (method_in w.request)
        (round-Outcome regex media session_id w stage s v)

  -- Whatever a client sends in whatever order, its connection is at a stage of the protocol with one
  -- answer sent for each stage passed, so that RTP runs only after OPTIONS, DESCRIBE, SETUP and PLAY;
  -- or it is given up with no thread running, the camera thread joined once and the RTP thread at
  -- most once; or the server ends, and then RTP is left running only if `recv` failed.
  pub rounds-Ends :
      (ws : List World) (s : Session)
      → IsAt fresh s
      → Ends fresh s (rounds regex media session_id ws s)
  rounds-Ends ws s v = rounds-Ends_from ws fresh s v
