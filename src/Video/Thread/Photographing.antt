-- ===== src/Video/Thread/Photographing.antt =====
-- The result that `video_pthread` gives of a photograph.
use handle_wifi_camera_itop.Common.{
  if_cases, ==→eq, ==→ne, ap, Text, ℕ, ◌==◌, if◌then◌else◌, ◌≡◌, ◌≢◌, ◌⊎◌, ◌∙◌, inl, inr, refl, sym,
  Bool, true, false, List, [], ◌∷◌, ◌++◌, append-nil, arith,
}
use handle_wifi_camera_itop.Public.ErrorCode.{ok}
use handle_wifi_camera_itop.MessageQueue.{
  TakePhotoMsg, SendPhotoMsg, MsgReply, received, no_message, failed,
}
use handle_wifi_camera_itop.Video.Snapshot.{Taken, Finish, returned, fault, overrun, take_pohto}
use handle_wifi_camera_itop.Video.Results.{
  take_result, send_request, return_take_photo_result_to_message_queue, dispose_send_file,
}
use handle_wifi_camera_itop.Video.Thread.{
  Camera, Round, continue, fault_at_null, undefined, Thread, thread, pthread_exit, back_to_preview,
  on_photo, on_no_photo, on_request,
}

-- What `take_pohto` makes of a photo_name, from the state of the thread.
abbrev pub photo_at : Round → Camera → Text → Taken
photo_at w s photo_name = take_pohto w.shot photo_name s.path s.photo_size s.device

-- What one round owes: nothing without a request; else one result under the name of the request:
-- if `take_pohto` has returned OK, a success, and a request to send its file, with its size; and
-- otherwise a failure, and no such request.
abbrev pub Owes :
    MsgReply TakePhotoMsg → (Text → Taken) → List TakePhotoMsg → List SendPhotoMsg → Type 0
Owes no_message photo results requests = (results ≡ []) × (requests ≡ [])
Owes failed photo results requests = ⊥
Owes (received msg) photo results requests =
    let t = photo msg.photo_name in
    ((t.finish ≡ returned ok)
      × (results ≡ take_result msg.photo_name t.size true ∷ [])
      × (requests ≡ send_request t.path t.size ∷ []))
    ⊎ ((t.finish ≢ returned ok)
        × (results ≡ take_result msg.photo_name t.size false ∷ [])
        × (requests ≡ []))

-- A round that does not end the loop has given what it owes, behind what was in the queues before.
abbrev pub Answers :
    MsgReply TakePhotoMsg → (Text → Taken) → List TakePhotoMsg → List SendPhotoMsg → Thread → Type 0
Answers request photo results_before requests_before r =
    (r.ending ≢ continue)
    ⊎ ((results : List TakePhotoMsg) × (requests : List SendPhotoMsg) × (r.camera.results
          ≡ results_before ++ results)
        × (r.camera.requests ≡ requests_before ++ requests)
        × Owes request photo results requests)

-- The queues stay as they are on the way back to the preview.
abbrev Same : Camera → Thread → Type 0
Same s r = (r.camera.results ≡ s.results) × (r.camera.requests ≡ s.requests)

back_to_preview-Same : (s : Camera) → Same s (back_to_preview s)
unfolding back_to_preview pthread_exit
back_to_preview-Same s = ground arith

-- The state behind `take_pohto`.
abbrev with_photo : Camera → Taken → Camera
with_photo s t = record s { device = t.device; path = t.path; photo_size = t.size }

on_photo-Answers :
    (w : Round) (msg : TakePhotoMsg) (photo : Text → Taken) (s : Camera)
    → (photo msg.photo_name).finish ≡ returned ok
    → Answers
        (received msg)
        photo
        s.results
        s.requests
        (on_photo w msg (with_photo s (photo msg.photo_name)))
unfolding on_photo pthread_exit return_take_photo_result_to_message_queue dispose_send_file
on_photo-Answers w msg photo s good = ends w.result_sent w.request_sent
  where
    ends :
        (a b : Bool)
        → Answers (received msg) photo s.results s.requests (
            on_photo
              (record w { result_sent = a; request_sent = b })
              msg
              (with_photo s (photo msg.photo_name)))
    ends true true =
        let t = photo msg.photo_name in
        let result = take_result msg.photo_name t.size true in
        let request = send_request t.path t.size in
        let (e, f) = back_to_preview-Same (record (with_photo s t) {
          results = s.results ++ (result ∷ []);
          requests = s.requests ++ (request ∷ []);
        }) in
        inr (result ∷ [], request ∷ [], e, f, inl (good, refl, refl))
    ends true false = inl (λ h. cc)
    ends false true = inl (λ h. cc)
    ends false false = inl (λ h. cc)

on_no_photo-Answers :
    (w : Round) (msg : TakePhotoMsg) (photo : Text → Taken) (s : Camera)
    → (photo msg.photo_name).finish ≢ returned ok
    → Answers
        (received msg)
        photo
        s.results
        s.requests
        (on_no_photo w msg (with_photo s (photo msg.photo_name)))
unfolding on_no_photo pthread_exit return_take_photo_result_to_message_queue
on_no_photo-Answers w msg photo s bad = ends w.result_sent
  where
    ends :
        (a : Bool)
        → Answers
            (received msg)
            photo
            s.results
            s.requests
            (on_no_photo (record w { result_sent = a }) msg (with_photo s (photo msg.photo_name)))
    ends true =
        let t = photo msg.photo_name in
        let result = take_result msg.photo_name t.size false in
        let (e, f) =
          back_to_preview-Same (record (with_photo s t) { results = s.results ++ (result ∷ []) }) in
        inr (result ∷ [], [], e, f ∙ sym (append-nil s.requests), inr (bad, refl, refl))
    ends false = inl (λ h. cc)

code_of : Finish → ℕ
code_of (returned code) = code
code_of fault = 1
code_of overrun = 1

pub on_request-Answers :
    (w : Round) (msg : TakePhotoMsg) (s : Camera)
    → Answers (received msg) (photo_at w s) s.results s.requests (on_request w msg s)
unfolding on_request code_of
on_request-Answers w msg s = ends (photo_at w s msg.photo_name).finish refl
  where
    s' : Camera
    s' = with_photo s (photo_at w s msg.photo_name)

    ends :
        (f : Finish)
        → (photo_at w s msg.photo_name).finish ≡ f
        → Answers (received msg) (photo_at w s) s.results s.requests (elim f as (λ _. Thread) [
          | returned ret ↦ if ret == ok then on_photo w msg s' else on_no_photo w msg s'
          | fault ↦ thread fault_at_null s'
          | overrun ↦ thread undefined s'
        ])
    ends (returned ret) e =
        if_cases (Answers (received msg) (photo_at w s) s.results s.requests) (ret == ok)
          (on_photo w msg s') (on_no_photo w msg s')
          (λ good. on_photo-Answers w msg (photo_at w s) s (e ∙ ap returned (==→eq ret ok good)))
          (λ bad.
            on_no_photo-Answers w msg (photo_at w s) s
              (λ h. ==→ne ret ok bad (ap code_of (sym e ∙ h))))
    ends fault e = inl (λ h. cc)
    ends overrun e = inl (λ h. cc)
