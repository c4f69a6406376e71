-- ===== src/VideoServer/Session/Answers.antt =====
-- The ends of an answer and a refusal, against the protocol.
use Prim.Native.Nat.{bit_or}
use handle_wifi_camera_itop.Common.{
  ℕ, ◌+◌, ◌≡◌, inl, inr, refl, sym, ap, ◌∙◌, ◌==◌, false, Bool-cases, [], ◌∷◌, ◌++◌, Option, some,
  none, arith, length, length-append, if◌then◌else◌,
}
use handle_wifi_camera_itop.Public.ErrorCode.{ok}
use handle_wifi_camera_itop.NetTrans.Send.{tcp_send_data}
use handle_wifi_camera_itop.Rtsp.Handlers.{Handled}
use handle_wifi_camera_itop.VideoServer.Session.{
  Session, World, Next, break, sending, Method, answer, stop_video, refuse, playing, advance,
}
use handle_wifi_camera_itop.VideoServer.Session.Protocol.{
  Stage, fresh, mask_of, is_streaming, IsAt, Outcome, accepted, still_sending, closed, Accepts,
  add_if,
}

-- What is shown of the three ends of a branch holds of `answer`.
pub answer_ends :
    (P : Next → Type 0) (w : World) (h : Handled) (cleanup : Session → Session)
    (done : Session → Next) (s : Session)
    → P (done (record s { replies = s.replies ++ (h.send_buf ∷ []) }))
    → P (sending s)
    → P (break (cleanup s))
    → P (answer w h cleanup done s)
unfolding answer
answer_ends P w h cleanup done s p_done p_sending p_break = elim (Bool-cases (h.code == ok)) [
  | inl good ↦ rw good (sent (tcp_send_data w.sending h.send_buf (length h.send_buf)).code)
  | inr bad ↦ rw bad p_break
]
  where
    sent :
        (code : Option ℕ)
        → P (elim code [
          | none ↦ sending s
          | some ret ↦
              if ret == ok
              then done (record s { replies = s.replies ++ (h.send_buf ∷ []) })
              else break (cleanup s)
        ])
    sent none = p_sending
    sent (some ret) = elim (Bool-cases (ret == ok)) [
      | inl good ↦ rw good p_done
      | inr bad ↦ rw bad p_break
    ]

pub refuse-Outcome :
    (stage : Stage) (s : Session) (m : Option Method) → IsAt stage s → Outcome stage s m (refuse s)
refuse-Outcome fresh s m v =
    rw (ap (λ k. playing (record s { rtsp_bit_mask = k })) v.mask) (closed (ground arith))
refuse-Outcome _ s m v =
    rw (ap (λ k. playing (record s { rtsp_bit_mask = k })) v.mask) (closed (ground arith))

-- `answer` in its turn: on success the next stage, and otherwise everything is stopped.
pub answer-Outcome :
    (stage next : Stage) (method : Method) (w : World) (h : Handled) (mask : ℕ) (s s' : Session)
    → Accepts stage method next
    → is_streaming stage ≡ false
    → is_streaming next ≡ false
    → bit_or (mask_of stage) mask ≡ mask_of next
    → IsAt stage s
    → IsAt stage s'
    → s'.replies ≡ s.replies
    → s'.joined_video ≡ s.joined_video
    → s'.joined_rtp ≡ s.joined_rtp
    → Outcome stage s (some method) (answer w h stop_video (advance mask) s')
answer-Outcome stage next method w h mask s s' a e e' m v v' r jv jr =
    answer_ends (Outcome stage s (some method)) w h stop_video (advance mask) s'
      (accepted next method refl a
        (record {
          mask = ap (λ k. bit_or k mask) v'.mask ∙ m;
          video_runs = v'.video_runs;
          rtp_runs = v'.rtp_runs ∙ e ∙ sym e';
        })
        (omega (arith, ap length r, length-append s'.replies (h.send_buf ∷ []))) jv jr)
      (still_sending v' (ap length r))
      (closed (record {
        no_video = refl;
        no_rtp = v'.rtp_runs ∙ e;
        video_once = ap (λ n. n + 1) jv;
        rtp_once = jr ∙ ap (λ b. add_if b s.joined_rtp) (sym e);
      }))
