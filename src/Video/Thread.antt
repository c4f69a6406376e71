-- ===== src/Video/Thread.antt =====
-- The loop of `video_pthread` in video.c: frames go to the encoder and into the shared buffer, and
-- between two frames a photograph is taken.
pub mod Branches
pub mod Photographing
pub mod Owing
pub mod Answering
pub mod Encoding
pub mod Previewing
use handle_wifi_camera_itop.Common.{
  ℕ, ◌+◌, ◌*◌, ◌/◌, ◌%◌, ◌^◌, ◌==◌, ltb, if◌then◌else◌, Bool, true, false, List, [], ◌∷◌, ◌++◌,
  Option, some, none, length, take, drop, Text,
}
use handle_wifi_camera_itop.Public.ErrorCode.{
  ok, poll_yuv_buffer_fail, v4l2_dequeue_buffer_fail, ioctl_vidioc_qbuf_fail,
  h264_encode_set_in_buffer_fail, h264_encode_encode_buffer_fail, h264_encode_get_out_buffer_fail,
  pthread_cond_wait_fail, update_globe_frame_info_fail, no_message_in_queue,
  recv_message_from_queue_fail, return_trans_result_to_message_queue_fail, dispose_send_file_fail,
  reset_v4l2_stream_fail,
}
use handle_wifi_camera_itop.MessageQueue.{
  TakePhotoMsg, SendPhotoMsg, MsgReply, recv_message_from_queue,
}
use handle_wifi_camera_itop.FrameBuffer.{FrameBuffer, Wake, update_globe_frame_info}
use handle_wifi_camera_itop.Video.Encoder.{camera_preview_width, camera_preview_height}
use handle_wifi_camera_itop.Video.Device.{
  Device, Reply, accepted, Done, Step, PollReply, done, asks, must, logged, qbuf, dqbuf,
  enc_set_in_buf, enc_exe, enc_get_out_buf, max_nr_buffers, fimc_poll, fimc_v4l2_dqbuf,
}
use handle_wifi_camera_itop.Video.Stream.{reset_v4l2_stream, cleanup_video_pthread}
use handle_wifi_camera_itop.Video.Snapshot.{
  Shot, Taken, returned, fault, overrun, take_pohto, align, buf_l_unit,
}
use handle_wifi_camera_itop.Video.Results.{
  return_take_photo_result_to_message_queue, dispose_send_file,
}

abbrev pub is_mode_preview_video : ℕ
is_mode_preview_video = 1

-- The devices; the shared buffer; the two planes in the encoder's input; time_stamp; photo_path_name
-- and photo_file_size; and what has been put into the two queues.
pub record Camera : Type 0 where
  pub device : Device
  pub buffer : FrameBuffer
  pub y_input : List ℕ
  pub c_input : List ℕ
  pub time_stamp : ℕ
  pub path : Text
  pub photo_size : ℕ
  pub results : List TakePhotoMsg
  pub requests : List SendPhotoMsg

-- What the outside world answers in one round: to `poll` and VIDIOC_DQBUF; what the buffers hold;
-- what the encoder puts out; the ticks of 90 kHz since the last frame; to the calls on the mutex
-- and the condition; to `msgrcv`; to all that `take_pohto` calls; and to the two `msgsnd`.
pub record Round : Type 0 where
  pub polled : PollReply
  pub dequeued : Option ℕ
  pub frame : ℕ → List ℕ
  pub encoded : List ℕ
  pub time_stamp_increse : ℕ
  pub can_lock : Bool
  pub wakes : List Wake
  pub request : MsgReply TakePhotoMsg
  pub shot : Shot
  pub result_sent : Bool
  pub request_sent : Bool

-- How a round ends: with the next one; with `pthread_exit`; with a `return`, behind which no clean-up
-- runs; waiting for the condition; at NULL; or in what C leaves undefined.
pub data Ending : Type 0 where
  continue waiting fault_at_null undefined : Ending
  exited returned_early : ℕ → Ending

pub record Thread : Type 0 where
  pub ending : Ending
  pub camera : Camera

abbrev pub thread : Ending → Camera → Thread
thread ending camera = record { ending = ending; camera = camera }

-- `pthread_exit` behind pthread_cleanup_push.
unfoldable pub pthread_exit : ℕ → Camera → Thread
pthread_exit code s = thread (exited code) (record s { device = cleanup_video_pthread s.device })

-- What follows a failed `update_globe_frame_info`. If pthread_cond_wait has failed, that has returned
-- behind pthread_cleanup_push, and the handler of its frame is left to pthread_exit, which POSIX
-- leaves undefined.
unfoldable pub update_failed : ℕ → Camera → Thread
unfolding pthread_exit
update_failed ret s =
    if ret == pthread_cond_wait_fail
    then thread undefined s
    else pthread_exit update_globe_frame_info_fail s

-- video.c:1830-1839.
unfoldable pub back_to_preview : Camera → Thread
unfolding pthread_exit
back_to_preview s =
    let r =
      reset_v4l2_stream camera_preview_width camera_preview_height is_mode_preview_video s.device in
    let s' = record s { device = r.device } in
    if r.code == ok then thread continue s' else pthread_exit reset_v4l2_stream_fail s'

-- video.c:1806-1839.
unfoldable pub on_photo : Round → TakePhotoMsg → Camera → Thread
unfolding back_to_preview pthread_exit
on_photo w msg s =
    let (ret, results) =
      return_take_photo_result_to_message_queue w.result_sent msg.photo_name s.photo_size true in
    let s' = record s { results = s.results ++ results } in
    let (sent, requests) = dispose_send_file w.request_sent s.path s.photo_size in
    if ret == ok
    then (if sent == ok
        then back_to_preview (record s' { requests = s.requests ++ requests })
        else thread (returned_early dispose_send_file_fail) s')
    else pthread_exit return_trans_result_to_message_queue_fail s'

-- video.c:1794-1803 and 1830-1839. The size is that of the last photograph.
unfoldable pub on_no_photo : Round → TakePhotoMsg → Camera → Thread
unfolding back_to_preview pthread_exit
on_no_photo w msg s =
    let (ret, results) =
      return_take_photo_result_to_message_queue w.result_sent msg.photo_name s.photo_size false in
    let s' = record s { results = s.results ++ results } in
    if ret == ok
    then back_to_preview s'
    else pthread_exit return_trans_result_to_message_queue_fail s'

-- video.c:1784-1840.
unfoldable pub on_request : Round → TakePhotoMsg → Camera → Thread
unfolding on_photo on_no_photo
on_request w msg s =
    let t = take_pohto w.shot msg.photo_name s.path s.photo_size s.device in
    let s' = record s { device = t.device; path = t.path; photo_size = t.size } in
    elim t.finish [
      | returned ret ↦ if ret == ok then on_photo w msg s' else on_no_photo w msg s'
      | fault ↦ thread fault_at_null s'
      | overrun ↦ thread undefined s'
    ]

abbrev pub no_take_msg : TakePhotoMsg
no_take_msg = record { type = 0; succeed = false; photo_name = []; photo_size = 0 }

-- video.c:1781-1850. take_photo_msg is not looked at without a message.
unfoldable pub check_requests : Round → Camera → Thread
unfolding on_request pthread_exit
check_requests w s =
    let (ret, msg) = recv_message_from_queue w.request no_take_msg in
    if ret == no_message_in_queue
    then thread continue s
    else (if ret == ok then on_request w msg s else pthread_exit recv_message_from_queue_fail s)

-- video.c:1770-1779.
unfoldable pub hand_over : Round → Camera → Thread
unfolding check_requests update_failed
hand_over w s =
    let u =
      update_globe_frame_info w.can_lock w.wakes s.buffer w.encoded (length w.encoded)
        s.time_stamp in
    let s' = record s { buffer = u.buffer } in
    elim u.code [
      | none ↦ thread waiting s'
      | some ret ↦ if ret == ok then check_requests w s' else update_failed ret s'
    ]

-- The calls of video.c:1720-1768.
unfoldable pub encode : ℕ → Step
encode index = must ioctl_vidioc_qbuf_fail (asks (qbuf index) ioctl_vidioc_qbuf_fail) (
    must h264_encode_set_in_buffer_fail (asks enc_set_in_buf h264_encode_set_in_buffer_fail) (
      must h264_encode_encode_buffer_fail (asks enc_exe h264_encode_encode_buffer_fail)
        (asks enc_get_out_buf h264_encode_get_out_buffer_fail)))

abbrev pub preview_pixels : ℕ
preview_pixels = camera_preview_width * camera_preview_height

abbrev pub aligned_y_size : ℕ
aligned_y_size = align preview_pixels (64 * buf_l_unit)

abbrev pub aligned_c_size : ℕ
aligned_c_size = align (preview_pixels / 2) (64 * buf_l_unit)

-- video.c:1717-1779. A run that stops in the encoder leaves time_stamp unread.
unfoldable pub encode_frame : Round → ℕ → Camera → Thread
unfolding hand_over pthread_exit encode
encode_frame w index s =
    let r = encode index (logged (dqbuf index) accepted s.device.replies s.device) in
    let s' = record s {
      device = r.device;
      y_input = take aligned_y_size (w.frame index);
      c_input = take aligned_c_size (drop aligned_y_size (w.frame index));
      time_stamp = (s.time_stamp + w.time_stamp_increse) % 2 ^ 32;
    } in
    if r.code == ok then hand_over w s' else pthread_exit r.code s'

-- One round of `while(1)`.
unfoldable pub thread_round : Round → Camera → Thread
unfolding encode_frame pthread_exit
thread_round w s =
    let index = fimc_v4l2_dqbuf w.dequeued in
    if fimc_poll w.polled == ok
    then (if ltb index max_nr_buffers
        then encode_frame w index s
        else pthread_exit v4l2_dequeue_buffer_fail s)
    else pthread_exit poll_yuv_buffer_fail s

unfoldable pub thread_rounds : List Round → Camera → Thread
unfolding thread_round
thread_rounds [] s = thread continue s
thread_rounds (w ∷ ws) s =
    let r = thread_round w s in
    elim r.ending [
      | continue ↦ thread_rounds ws r.camera
      | waiting ↦ r
      | fault_at_null ↦ r
      | undefined ↦ r
      | exited _ ↦ r
      | returned_early _ ↦ r
    ]
