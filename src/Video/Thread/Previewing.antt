-- ===== src/Video/Thread/Previewing.antt =====
-- The state of the camera in the loop of `video_pthread`.
use mathlib.Core.Path.{subst}
use handle_wifi_camera_itop.Common.{
  if_either, ℕ, ◌+◌, ◌%◌, ◌^◌, ◌==◌, ==→eq, ltb, if◌then◌else◌, ◌≢◌, ◌⊎◌, inl, inr, sym, ap, Bool,
  true, false, Bool-cases, List, [], ◌∷◌, ◌++◌, Option, some, none, take, drop, length,
}
use handle_wifi_camera_itop.Public.ErrorCode.{
  ok, pthread_cond_wait_fail, recv_message_from_queue_fail, update_globe_frame_info_fail,
  v4l2_dequeue_buffer_fail, poll_yuv_buffer_fail, reset_v4l2_stream_fail,
}
use handle_wifi_camera_itop.MessageQueue.{TakePhotoMsg, MsgReply, received, no_message, failed}
use handle_wifi_camera_itop.FrameBuffer.{update_globe_frame_info}
use handle_wifi_camera_itop.Video.Device.{
  dqbuf, logged, accepted, max_nr_buffers, fimc_poll, fimc_v4l2_dqbuf,
}
use handle_wifi_camera_itop.Video.Stream.{reset_v4l2_stream}
use handle_wifi_camera_itop.Video.Snapshot.{Finish, returned, fault, overrun, take_pohto}
use handle_wifi_camera_itop.Video.Results.{
  take_result, send_request, return_take_photo_result_to_message_queue, dispose_send_file,
}
use handle_wifi_camera_itop.Video.Thread.{
  Camera, Round, continue, waiting, fault_at_null, undefined, Thread, thread, pthread_exit,
  update_failed, back_to_preview, on_photo, on_no_photo, on_request, check_requests, hand_over,
  encode, encode_frame, thread_round, thread_rounds, aligned_y_size, aligned_c_size,
}
use handle_wifi_camera_itop.Video.Thread.Branches.{go_on, go_on_cases}
use handle_wifi_camera_itop.Video.Stream.Tracking.{Streams, reset-Streams}
use handle_wifi_camera_itop.Video.Thread.Encoding.{encode-Streams}

-- A round that does not end the loop leaves the camera in the preview.
abbrev pub Previews : Thread → Type 0
Previews r = (r.ending ≢ continue) ⊎ Streams 640 480 r.camera.device

pub exit-Previews : (code : ℕ) (s : Camera) → Previews (pthread_exit code s)
unfolding pthread_exit
exit-Previews code s = inl (λ h. cc)

pub update_failed-Previews : (ret : ℕ) (s : Camera) → Previews (update_failed ret s)
unfolding update_failed
update_failed-Previews ret s =
    if_either Previews (ret == pthread_cond_wait_fail) (thread undefined s)
      (pthread_exit update_globe_frame_info_fail s) (inl (λ h. cc))
      (exit-Previews update_globe_frame_info_fail s)

back_to_preview-Previews : (s : Camera) → Previews (back_to_preview s)
unfolding back_to_preview
back_to_preview-Previews s =
    let r = reset_v4l2_stream 640 480 1 s.device in
    let s' = record s { device = r.device } in
    elim (Bool-cases (r.code == ok)) [
      | inl e ↦
          subst Previews
            (sym (
              ap
                (λ (b : Bool).
                  if b then thread continue s' else pthread_exit reset_v4l2_stream_fail s')
                e))
            (inr (reset-Streams 640 480 1 s.device (==→eq r.code ok e)))
      | inr e ↦
          subst Previews
            (sym (
              ap
                (λ (b : Bool).
                  if b then thread continue s' else pthread_exit reset_v4l2_stream_fail s')
                e))
            (exit-Previews reset_v4l2_stream_fail s')
    ]

on_photo-Previews : (w : Round) (msg : TakePhotoMsg) (s : Camera) → Previews (on_photo w msg s)
unfolding on_photo pthread_exit return_take_photo_result_to_message_queue dispose_send_file
on_photo-Previews w msg s = ends w.result_sent w.request_sent
  where
    ends : (a b : Bool) → Previews (on_photo (record w { result_sent = a; request_sent = b }) msg s)
    ends true true = back_to_preview-Previews (record s {
      results = s.results ++ (take_result msg.photo_name s.photo_size true ∷ []);
      requests = s.requests ++ (send_request s.path s.photo_size ∷ []);
    })
    ends true false = inl (λ h. cc)
    ends false true = inl (λ h. cc)
    ends false false = inl (λ h. cc)

on_no_photo-Previews :
    (w : Round) (msg : TakePhotoMsg) (s : Camera) → Previews (on_no_photo w msg s)
unfolding on_no_photo pthread_exit return_take_photo_result_to_message_queue
on_no_photo-Previews w msg s = ends w.result_sent
  where
    ends : (a : Bool) → Previews (on_no_photo (record w { result_sent = a }) msg s)
    ends true =
        back_to_preview-Previews
          (record s { results = s.results ++ (take_result msg.photo_name s.photo_size false ∷ []) })
    ends false = inl (λ h. cc)

on_request-Previews : (w : Round) (msg : TakePhotoMsg) (s : Camera) → Previews (on_request w msg s)
unfolding on_request
on_request-Previews w msg s =
    let t = take_pohto w.shot msg.photo_name s.path s.photo_size s.device in
    ends t.finish (record s { device = t.device; path = t.path; photo_size = t.size })
  where
    ends :
        (f : Finish) (s' : Camera)
        → Previews (elim f as (λ _. Thread) [
          | returned ret ↦ if ret == ok then on_photo w msg s' else on_no_photo w msg s'
          | fault ↦ thread fault_at_null s'
          | overrun ↦ thread undefined s'
        ])
    ends (returned ret) s' =
        if_either Previews (ret == ok) (on_photo w msg s') (on_no_photo w msg s')
          (on_photo-Previews w msg s') (on_no_photo-Previews w msg s')
    ends fault s' = inl (λ h. cc)
    ends overrun s' = inl (λ h. cc)

check_requests-Previews :
    (w : Round) (s : Camera) → Streams 640 480 s.device → Previews (check_requests w s)
unfolding check_requests
check_requests-Previews w s p = ends w.request
  where
    ends : (q : MsgReply TakePhotoMsg) → Previews (check_requests (record w { request = q }) s)
    ends (received msg) = on_request-Previews (record w { request = received msg }) msg s
    ends no_message = inr p
    ends failed = exit-Previews recv_message_from_queue_fail s

hand_over-Previews : (w : Round) (s : Camera) → Streams 640 480 s.device → Previews (hand_over w s)
unfolding hand_over
hand_over-Previews w s p =
    let u =
      update_globe_frame_info w.can_lock w.wakes s.buffer w.encoded (length w.encoded)
        s.time_stamp in
    ends u.code (record s { buffer = u.buffer }) p
  where
    ends :
        (code : Option ℕ) (s' : Camera)
        → Streams 640 480 s'.device
        → Previews (elim code as (λ _. Thread) [
          | none ↦ thread waiting s'
          | some ret ↦ if ret == ok then check_requests w s' else update_failed ret s'
        ])
    ends none s' p = inl (λ h. cc)
    ends (some ret) s' p =
        if_either Previews (ret == ok) (check_requests w s') (update_failed ret s')
          (check_requests-Previews w s' p) (update_failed-Previews ret s')

encode_frame-Previews :
    (w : Round) (index : ℕ) (s : Camera)
    → Streams 640 480 s.device
    → Previews (encode_frame w index s)
unfolding encode_frame
encode_frame-Previews w index s p =
    let r = encode index (logged (dqbuf index) accepted s.device.replies s.device) in
    let s' = record s {
      device = r.device;
      y_input = take aligned_y_size (w.frame index);
      c_input = take aligned_c_size (drop aligned_y_size (w.frame index));
      time_stamp = (s.time_stamp + w.time_stamp_increse) % 2 ^ 32;
    } in
    elim (Bool-cases (r.code == ok)) [
      | inl e ↦
          subst Previews
            (sym (ap (λ (b : Bool). if b then hand_over w s' else pthread_exit r.code s') e))
            (hand_over-Previews w s' (encode-Streams 640 480 index s.device p (==→eq r.code ok e)))
      | inr e ↦
          subst Previews
            (sym (ap (λ (b : Bool). if b then hand_over w s' else pthread_exit r.code s') e))
            (exit-Previews r.code s')
    ]

thread_round-Previews :
    (w : Round) (s : Camera) → Streams 640 480 s.device → Previews (thread_round w s)
unfolding thread_round
thread_round-Previews w s p =
    let index = fimc_v4l2_dqbuf w.dequeued in
    if_either Previews (fimc_poll w.polled == ok)
      (if ltb index max_nr_buffers
        then encode_frame w index s
        else pthread_exit v4l2_dequeue_buffer_fail s)
      (pthread_exit poll_yuv_buffer_fail s)
      (if_either Previews (ltb index max_nr_buffers) (encode_frame w index s)
        (pthread_exit v4l2_dequeue_buffer_fail s) (encode_frame-Previews w index s p)
        (exit-Previews v4l2_dequeue_buffer_fail s))
      (exit-Previews poll_yuv_buffer_fail s)

-- If, by the calls that the driver has accepted, the camera streams 640 x 480 pictures and the driver
-- has the 8 buffers, then after any rounds of the loop, with or without photographs, it does so again
-- and has them again, unless the loop has ended.
pub thread_rounds-Previews :
    (ws : List Round) (s : Camera) → Streams 640 480 s.device → Previews (thread_rounds ws s)
unfolding thread_rounds go_on
thread_rounds-Previews [] s p = inr p
thread_rounds-Previews (w ∷ ws) s p =
    let r = thread_round w s in
    after_round (thread_round-Previews w s p) (λ q. thread_rounds-Previews ws r.camera q)
  where
    after_round :
        Previews (thread_round w s)
        → (Streams 640 480 (thread_round w s).camera.device
            → Previews (thread_rounds ws (thread_round w s).camera))
        → Previews (go_on ws (thread_round w s))
    after_round (inl h) f =
        go_on_cases Previews ws (thread_round w s) (λ e. absurd (h e)) (λ off. inl off)
    after_round (inr q) f = go_on_cases Previews ws (thread_round w s) (λ e. f q) (λ off. inl off)
