-- ===== src/Video/Thread/Owing.antt =====
-- The results that one round of `video_pthread` gives.
use handle_wifi_camera_itop.Common.{
  if_either, Text, ℕ, ◌==◌, if◌then◌else◌, inl, inr, refl, sym, List, [], append-nil, Option, some,
  none, take, drop, length, ltb, ◌+◌, ◌%◌, ◌^◌,
}
use handle_wifi_camera_itop.Public.ErrorCode.{
  ok, pthread_cond_wait_fail, recv_message_from_queue_fail, update_globe_frame_info_fail,
  v4l2_dequeue_buffer_fail, poll_yuv_buffer_fail,
}
use handle_wifi_camera_itop.FrameBuffer.{update_globe_frame_info}
use handle_wifi_camera_itop.Video.Device.{
  dqbuf, logged, accepted, max_nr_buffers, fimc_poll, fimc_v4l2_dqbuf,
}
use handle_wifi_camera_itop.MessageQueue.{
  TakePhotoMsg, SendPhotoMsg, MsgReply, received, no_message, failed,
}
use handle_wifi_camera_itop.Video.Snapshot.{Taken}
use handle_wifi_camera_itop.Video.Thread.{
  Camera, Round, waiting, undefined, Thread, thread, pthread_exit, update_failed, check_requests,
  hand_over, encode_frame, thread_round, encode, aligned_y_size, aligned_c_size,
}
use handle_wifi_camera_itop.Video.Thread.Photographing.{photo_at, Answers, on_request-Answers}

exit-Answers :
    (q : MsgReply TakePhotoMsg) (p : Text → Taken) (a : List TakePhotoMsg) (b : List SendPhotoMsg)
    (code : ℕ) (s : Camera)
    → Answers q p a b (pthread_exit code s)
unfolding pthread_exit
exit-Answers q p a b code s = inl (λ h. cc)

update_failed-Answers :
    (q : MsgReply TakePhotoMsg) (p : Text → Taken) (a : List TakePhotoMsg) (b : List SendPhotoMsg)
    (ret : ℕ) (s : Camera)
    → Answers q p a b (update_failed ret s)
unfolding update_failed
update_failed-Answers q p a b ret s =
    if_either (Answers q p a b) (ret == pthread_cond_wait_fail) (thread undefined s)
      (pthread_exit update_globe_frame_info_fail s) (inl (λ h. cc))
      (exit-Answers q p a b update_globe_frame_info_fail s)

check_requests-Answers :
    (w : Round) (s : Camera)
    → Answers w.request (photo_at w s) s.results s.requests (check_requests w s)
unfolding check_requests
check_requests-Answers w s = ends w.request
  where
    ends :
        (q : MsgReply TakePhotoMsg)
        → Answers q
            (photo_at w s)
            s.results
            s.requests
            (check_requests (record w { request = q }) s)
    ends (received msg) = on_request-Answers (record w { request = received msg }) msg s
    ends no_message =
        inr ([], [], sym (append-nil s.results), sym (append-nil s.requests), (refl, refl))
    ends failed =
        exit-Answers failed (photo_at w s) s.results s.requests recv_message_from_queue_fail s

hand_over-Answers :
    (w : Round) (s : Camera) → Answers w.request (photo_at w s) s.results s.requests (hand_over w s)
unfolding hand_over
hand_over-Answers w s =
    let u =
      update_globe_frame_info w.can_lock w.wakes s.buffer w.encoded (length w.encoded)
        s.time_stamp in
    ends u.code (record s { buffer = u.buffer })
  where
    ends :
        (code : Option ℕ) (s' : Camera)
        → Answers w.request (photo_at w s') s'.results s'.requests (elim code as (λ _. Thread) [
          | none ↦ thread waiting s'
          | some ret ↦ if ret == ok then check_requests w s' else update_failed ret s'
        ])
    ends none s' = inl (λ h. cc)
    ends (some ret) s' =
        if_either (Answers w.request (photo_at w s') s'.results s'.requests) (ret == ok)
          (check_requests w s') (update_failed ret s') (check_requests-Answers w s')
          (update_failed-Answers w.request (photo_at w s') s'.results s'.requests ret s')

-- The state in which a round asks for photographs, but for the shared buffer.
abbrev pub encoded : Round → ℕ → Camera → Camera
encoded w index s = record s {
  device = (encode index (logged (dqbuf index) accepted s.device.replies s.device)).device;
  y_input = take aligned_y_size (w.frame index);
  c_input = take aligned_c_size (drop aligned_y_size (w.frame index));
  time_stamp = (s.time_stamp + w.time_stamp_increse) % 2 ^ 32;
}

-- The photograph that a round takes, if it comes to that.
abbrev pub photo_of : Round → Camera → Text → Taken
photo_of w s = photo_at w (encoded w (fimc_v4l2_dqbuf w.dequeued) s)

encode_frame-Answers :
    (w : Round) (index : ℕ) (s : Camera)
    → Answers w.request
        (photo_at w (encoded w index s))
        s.results
        s.requests
        (encode_frame w index s)
unfolding encode_frame
encode_frame-Answers w index s =
    let r = encode index (logged (dqbuf index) accepted s.device.replies s.device) in
    let s' = encoded w index s in
    if_either (Answers w.request (photo_at w s') s.results s.requests) (r.code == ok)
      (hand_over w s') (pthread_exit r.code s') (hand_over-Answers w s')
      (exit-Answers w.request (photo_at w s') s.results s.requests r.code s')

pub thread_round-Answers :
    (w : Round) (s : Camera)
    → Answers w.request (photo_of w s) s.results s.requests (thread_round w s)
unfolding thread_round
thread_round-Answers w s =
    let index = fimc_v4l2_dqbuf w.dequeued in
    let A = Answers w.request (photo_of w s) s.results s.requests in
    let gives_up = exit-Answers w.request (photo_of w s) s.results s.requests in
    if_either A (fimc_poll w.polled == ok)
      (if ltb index max_nr_buffers
        then encode_frame w index s
        else pthread_exit v4l2_dequeue_buffer_fail s)
      (pthread_exit poll_yuv_buffer_fail s)
      (if_either A (ltb index max_nr_buffers) (encode_frame w index s)
        (pthread_exit v4l2_dequeue_buffer_fail s) (encode_frame-Answers w index s)
        (gives_up v4l2_dequeue_buffer_fail s))
      (gives_up poll_yuv_buffer_fail s)
