-- ===== src/VideoServer/Session/Accepting.antt =====
-- One round of the session against the protocol.
use Prim.Native.Nat.{bit_or}
use handle_wifi_camera_itop.Common.{
  ℕ, inl, inr, refl, ap, ◌==◌, Bool-cases, [], ◌∷◌, ◌++◌, Option, some, none, arith, Text,
  length-append,
}
use handle_wifi_camera_itop.Public.ErrorCode.{ok, create_rtp_thread_fail, recv_rtsp_command_fail}
use handle_wifi_camera_itop.Rtsp.Search.{Regex, get_port}
use handle_wifi_camera_itop.Rtsp.Handlers.{
  handle_options, handle_describe, handle_setup, handle_play, handle_teardown,
}
use handle_wifi_camera_itop.VideoServer.Session
use handle_wifi_camera_itop.VideoServer.Session.{
  Session, World, Media, Next, continue, break, return, sending, Method, options, describe, setup,
  play, teardown, unknown, method_of, answer, dispatch, round, rounds, stop_video, stop_rtp, refuse,
  playing, out_of_turn, advance, mask_options, mask_describe, mask_setup, mask_play, mask_teardown,
  start_rtp, stop_both,
}
use handle_wifi_camera_itop.VideoServer.Session.Protocol.{
  Stage, fresh, optioned, described, ready, streaming, IsAt, Outcome, accepted, still_sending,
  closed, ended, Accepts,
}
use handle_wifi_camera_itop.VideoServer.Session.Answers.{
  answer_ends, refuse-Outcome, answer-Outcome,
}

module _ (regex : Regex) (media : Media) (session_id : Text) (w : World) (text : Text)
    (s : Session) where
  on_options-Outcome :
      (stage : Stage)
      → IsAt stage s
      → Outcome stage s (some options) (Session.on_options regex media session_id w text s)
  unfolding Session.on_options
  on_options-Outcome fresh v = rw (ap (out_of_turn mask_options 0) v.mask) (
      answer-Outcome fresh optioned options w (handle_options [] text) mask_options s s
        Accepts.on_options refl refl refl v v refl refl refl)
  on_options-Outcome _ v =
      rw (ap (out_of_turn mask_options 0) v.mask) (refuse-Outcome _ s (some options) v)

  on_describe-Outcome :
      (stage : Stage)
      → IsAt stage s
      → Outcome stage s (some describe) (Session.on_describe regex media session_id w text s)
  unfolding Session.on_describe
  on_describe-Outcome optioned v = rw (ap (out_of_turn mask_describe mask_options) v.mask) (
      answer-Outcome optioned described describe w
        (handle_describe regex w.clock [] text media.sps media.length_of_sps media.pps
          media.length_of_pps)
        mask_describe s s Accepts.on_describe refl refl refl v v refl refl refl)
  on_describe-Outcome _ v =
      rw (ap (out_of_turn mask_describe mask_options) v.mask) (refuse-Outcome _ s (some describe) v)

  on_setup-Outcome :
      (stage : Stage)
      → IsAt stage s
      → Outcome stage s (some setup) (Session.on_setup regex media session_id w text s)
  unfolding Session.on_setup
  on_setup-Outcome described v =
      rw (ap (out_of_turn mask_setup 3) v.mask) (ported (get_port text).1)
    where
      ported :
          (port : Option ℕ)
          → Outcome described s (some setup) (elim port [
            | none ↦ break (stop_video s)
            | some client_port ↦
                answer w
                  (handle_setup w.clock [] text session_id)
                  stop_video
                  (advance mask_setup)
                  (record s { client_port = client_port })
          ])
      ported none = closed (ground arith)
      ported (some p) =
          answer-Outcome described ready setup w (handle_setup w.clock [] text session_id)
            mask_setup s (record s { client_port = p }) Accepts.on_setup refl refl refl v
            (ground arith) refl refl refl
  on_setup-Outcome _ v =
      rw (ap (out_of_turn mask_setup 3) v.mask) (refuse-Outcome _ s (some setup) v)

  start_rtp-Outcome :
      IsAt ready s
      → (reply : Text)
      → Outcome ready s
          (some play)
          (start_rtp regex media session_id w (record s { replies = s.replies ++ (reply ∷ []) }))
  unfolding start_rtp
  start_rtp-Outcome v reply = elim (Bool-cases (w.create_rtp == ok)) [
    | inl created ↦ rw created (
        accepted streaming play refl Accepts.on_play
          (record {
            mask = ap (λ k. bit_or k mask_play) v.mask;
            video_runs = v.video_runs;
            rtp_runs = refl;
          })
          (omega (arith, length-append s.replies (reply ∷ []))) refl refl)
    | inr failed ↦ rw failed (ended create_rtp_thread_fail (inr (refl, refl, refl)) refl v.rtp_runs)
  ]

  on_play-Outcome :
      (stage : Stage)
      → IsAt stage s
      → Outcome stage s (some play) (Session.on_play regex media session_id w text s)
  unfolding Session.on_play
  on_play-Outcome ready v = rw (ap (out_of_turn mask_play 7) v.mask) (
      answer_ends (Outcome ready s (some play)) w (handle_play regex w.clock [] text session_id)
        stop_video (start_rtp regex media session_id w) s (start_rtp-Outcome v _)
        (still_sending v refl) (closed (ground arith)))
  on_play-Outcome _ v = rw (ap (out_of_turn mask_play 7) v.mask) (refuse-Outcome _ s (some play) v)

  on_teardown-Outcome :
      (stage : Stage)
      → IsAt stage s
      → Outcome stage s (some teardown) (Session.on_teardown regex media session_id w text s)
  unfolding Session.on_teardown
  on_teardown-Outcome streaming v = rw (ap (out_of_turn mask_teardown 15) v.mask) (
      answer_ends (Outcome streaming s (some teardown)) w (handle_teardown [] text session_id)
        (stop_both regex media session_id)
        (λ t. break (record (stop_both regex media session_id t) {
          rtsp_bit_mask = bit_or t.rtsp_bit_mask mask_teardown;
        }))
        s (closed (ground arith)) (still_sending v refl) (closed (ground arith)))
  on_teardown-Outcome _ v =
      rw (ap (out_of_turn mask_teardown 15) v.mask) (refuse-Outcome _ s (some teardown) v)

  dispatch-Outcome :
      (m : Method) (stage : Stage)
      → IsAt stage s
      → Outcome stage s (some m) (dispatch regex media session_id m w text s)
  unfolding dispatch
  dispatch-Outcome options stage v = on_options-Outcome stage v
  dispatch-Outcome describe stage v = on_describe-Outcome stage v
  dispatch-Outcome setup stage v = on_setup-Outcome stage v
  dispatch-Outcome play stage v = on_play-Outcome stage v
  dispatch-Outcome teardown stage v = on_teardown-Outcome stage v
  dispatch-Outcome unknown stage v = refuse-Outcome stage s (some unknown) v

abbrev pub method_in : Option Text → Option Method
method_in none = none
method_in (some text) = some (method_of text)

module _ (regex : Regex) (media : Media) (session_id : Text) where
  pub round-Outcome :
      (w : World) (stage : Stage) (s : Session)
      → IsAt stage s
      → Outcome stage s (method_in w.request) (round regex media session_id w s)
  unfolding round
  round-Outcome w stage s v = requested w.request
    where
      requested :
          (request : Option Text)
          → Outcome stage s (method_in request) (elim request [
            | none ↦ return recv_rtsp_command_fail (stop_video s)
            | some recv_buf ↦ dispatch regex media session_id (method_of recv_buf) w recv_buf s
          ])
      requested none = ended recv_rtsp_command_fail (inl (refl, refl)) refl v.rtp_runs
      requested (some text) =
          dispatch-Outcome regex media session_id w text s (method_of text) stage v
