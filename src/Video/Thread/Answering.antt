-- ===== src/Video/Thread/Answering.antt =====
-- The results that the loop of `video_pthread` gives, against the requests.
use handle_wifi_camera_itop.Common.{
  ◌≡◌, ◌≢◌, ◌⊎◌, ◌∙◌, inl, inr, refl, sym, ap, List, [], ◌∷◌, ◌++◌, append-nil, append_assoc,
}
use handle_wifi_camera_itop.Public.ErrorCode.{}
use handle_wifi_camera_itop.MessageQueue.{TakePhotoMsg, SendPhotoMsg}
use handle_wifi_camera_itop.Video.Results.{}
use handle_wifi_camera_itop.Video.Thread.{
  Camera, Round, continue, Thread, thread_round, thread_rounds,
}
use handle_wifi_camera_itop.Video.Thread.Owing.{photo_of, thread_round-Answers}
use handle_wifi_camera_itop.Video.Thread.Photographing.{Owes, Answers}
use handle_wifi_camera_itop.Video.Thread.Branches.{go_on, go_on_cases}

-- What the requests of several rounds are owed, each in the state that the rounds before have left.
abbrev pub OwesAll : List Round → Camera → List TakePhotoMsg → List SendPhotoMsg → Type 0
OwesAll [] s results requests = (results ≡ []) × (requests ≡ [])
OwesAll (w ∷ ws) s results requests =
    (first : List TakePhotoMsg) × (more : List TakePhotoMsg) × (asked : List SendPhotoMsg)
    × (further : List SendPhotoMsg) × (results ≡ first ++ more)
    × (requests ≡ asked ++ further)
    × Owes w.request (photo_of w s) first asked
    × OwesAll ws (thread_round w s).camera more further

abbrev pub AnswersAll : List Round → Camera → Thread → Type 0
AnswersAll ws s r =
    (r.ending ≢ continue)
    ⊎ ((results : List TakePhotoMsg) × (requests : List SendPhotoMsg) × (r.camera.results
          ≡ s.results ++ results)
        × (r.camera.requests ≡ s.requests ++ requests)
        × OwesAll ws s results requests)

go_on-AnswersAll :
    (w : Round) (ws : List Round) (s : Camera)
    → let r = thread_round w s in
      Answers w.request (photo_of w s) s.results s.requests r
      → AnswersAll ws r.camera (thread_rounds ws r.camera)
      → AnswersAll (w ∷ ws) s (go_on ws r)
go_on-AnswersAll w ws s (inl h) later =
    go_on_cases (AnswersAll (w ∷ ws) s) ws (thread_round w s) (λ e. absurd (h e)) (λ off. inl off)
go_on-AnswersAll w ws s (inr _) (inl stop) =
    go_on_cases (AnswersAll (w ∷ ws) s) ws (thread_round w s) (λ e. inl stop) (λ off. inl off)
go_on-AnswersAll w ws s (inr (a, b, ra, rb, o)) (inr (c, d, rc, rd, os)) =
    go_on_cases (AnswersAll (w ∷ ws) s) ws (thread_round w s)
      (λ e. inr (
        a ++ c,
        b ++ d,
        rc ∙ ap (λ l. l ++ c) ra ∙ append_assoc s.results a c,
        rd ∙ ap (λ l. l ++ d) rb ∙ append_assoc s.requests b d,
        (a, c, b, d, refl, refl, o, os),
      ))
      (λ off. inl off)

-- Rounds that do not end the loop: each request has got one result, in order and under its name,
-- which is a success exactly if `take_pohto` returned OK; and exactly the photographs on which it
-- did have been passed on to be sent, in order, with the path and the size that it left.
pub thread_rounds-AnswersAll : (ws : List Round) (s : Camera) → AnswersAll ws s (thread_rounds ws s)
unfolding thread_rounds go_on
thread_rounds-AnswersAll [] s =
    inr ([], [], sym (append-nil s.results), sym (append-nil s.requests), (refl, refl))
thread_rounds-AnswersAll (w ∷ ws) s =
    let r = thread_round w s in
    go_on-AnswersAll w ws s (thread_round-Answers w s) (thread_rounds-AnswersAll ws r.camera)
