-- ===== src/Video/Start.antt =====
-- How `video_pthread` of video.c gets to its loop.
pub mod Streaming
pub mod Readiness
use handle_wifi_camera_itop.Common.{
  ℕ, ◌==◌, if◌then◌else◌, Bool, true, false, List, [], Option, some, none, length,
}
use handle_wifi_camera_itop.Public.ErrorCode.{
  ok, get_ipc_key_fail, create_message_queue_fail, open_camera_fail, v4l2_query_capacity_fail,
  v4l2_enum_input_fail, v4l2_set_input_channel_fail, v4l2_enum_format_fail, open_h264_encode_fail,
  init_h264_encode_fail, h264_encode_get_in_buffer_fail, h264_encode_get_out_buffer_fail,
  get_sps_and_pps_from_header_fail, video_sem_post_fail, update_globe_frame_info_fail,
}
use handle_wifi_camera_itop.MessageQueue.{Ipc, create_message_queue}
use handle_wifi_camera_itop.FrameBuffer.{Wake, update_globe_frame_info}
use handle_wifi_camera_itop.Video.Header.{ParameterSets, get_sps_and_pps_from_header}
use handle_wifi_camera_itop.Video.Encoder.{
  camera_preview_width, camera_preview_height, init_h264_encoder_param,
}
use handle_wifi_camera_itop.Video.Device.{
  Device, Done, Step, done, asks, must, open_camera, enc_open, enc_init, enc_get_in_buf,
  enc_get_out_buf, fimc_v4l2_querycap, fimc_v4l2_enuminput, fimc_v4l2_s_input, fimc_v4l2_enum_fmt,
}
use handle_wifi_camera_itop.Video.Stream.{start_stream}
use handle_wifi_camera_itop.Video.Thread.{
  Camera, Round, Thread, Ending, continue, waiting, exited, thread, pthread_exit, update_failed,
  thread_rounds,
}

abbrev pub ipc_key_seed_for_take_photo_msg : ℕ
ipc_key_seed_for_take_photo_msg = 0x02

abbrev pub ipc_key_seed_for_send_photo_msg : ℕ
ipc_key_seed_for_send_photo_msg = 0x03

-- V4L2_PIX_FMT_NV12.
abbrev pub video_pix_format : ℕ
video_pix_format = 0x3231564E

-- What the outside world answers before the loop: to `ftok` and `msgget`; whether the program is
-- built with DEBUG, and what the driver then says of itself; the encoder's header and what follows
-- it in memory; to `sem_post`; and to the calls of the two `update_globe_frame_info`.
pub record Startup : Type 0 where
  pub ftok : ℕ → Option ℕ
  pub queue : ℕ → Ipc
  pub debug : Bool
  pub captures : Bool
  pub formats : List ℕ
  pub header : List ℕ
  pub header_size : ℕ
  pub can_post : Bool
  pub can_lock : Bool
  pub sps_wakes : List Wake
  pub pps_wakes : List Wake

unfoldable pub open_queue : Startup → ℕ → ℕ
open_queue k seed = elim (k.ftok seed) [
  | none ↦ get_ipc_key_fail
  | some key ↦
      if (create_message_queue key false (k.queue key)).code == ok
      then ok
      else create_message_queue_fail
]

-- video.c:1404-1446.
unfoldable pub open_queues : Startup → ℕ
unfolding open_queue
open_queues k =
    let ret = open_queue k ipc_key_seed_for_take_photo_msg in
    if ret == ok then open_queue k ipc_key_seed_for_send_photo_msg else ret

-- video.c:1459-1473 and 1486-1493, of which only a build with DEBUG has any.
unfoldable pub query_device : Startup → Step → Step
query_device k rest =
    if k.debug
    then must v4l2_query_capacity_fail (fimc_v4l2_querycap k.captures)
        (must v4l2_enum_input_fail (fimc_v4l2_enuminput 0) rest)
    else rest

unfoldable pub query_format : Startup → Step → Step
query_format k rest d =
    if k.debug
    then (if fimc_v4l2_enum_fmt k.formats video_pix_format == ok
        then rest d
        else record { code = v4l2_enum_format_fail; device = d })
    else rest d

-- video.c:1448-1601.
unfoldable pub start_camera : Startup → Step
unfolding query_device query_format
start_camera k = must open_camera_fail (asks open_camera open_camera_fail) (
    query_device k (
      must v4l2_set_input_channel_fail (fimc_v4l2_s_input 0) (
        query_format k (
          start_stream camera_preview_width camera_preview_height 1
            (asks enc_open open_h264_encode_fail)))))

-- video.c:1607-1636.
unfoldable pub start_encoder : Step
start_encoder =
    must init_h264_encode_fail (asks (enc_init init_h264_encoder_param) init_h264_encode_fail) (
      must h264_encode_get_in_buffer_fail (asks enc_get_in_buf h264_encode_get_in_buffer_fail)
        (asks enc_get_out_buf h264_encode_get_out_buffer_fail))

-- The thread; the parameter sets, if they have been read; and whether the semaphore has been posted.
pub record Started : Type 0 where
  pub thread : Thread
  pub sets : Option ParameterSets
  pub posted : Bool

abbrev pub started : Thread → Option ParameterSets → Bool → Started
started t sets posted = record { thread = t; sets = sets; posted = posted }

-- `update_globe_frame_info` of one parameter set, and the rest.
unfoldable pub hand_set : Startup → List Wake → List ℕ → (Camera → Thread) → Camera → Thread
hand_set k wakes bytes rest s =
    let u = update_globe_frame_info k.can_lock wakes s.buffer bytes (length bytes) 0 in
    let s' = record s { buffer = u.buffer } in
    elim u.code [
      | none ↦ thread waiting s'
      | some ret ↦ if ret == ok then rest s' else update_failed ret s'
    ]

-- video.c:1655-1851.
unfoldable pub announce : Startup → List Round → ParameterSets → Camera → Started
unfolding hand_set
announce k ws sets s =
    if k.can_post
    then started
        (hand_set k k.sps_wakes sets.sps (hand_set k k.pps_wakes sets.pps (thread_rounds ws)) s)
        (some sets) true
    else started (pthread_exit video_sem_post_fail s) (some sets) false

-- video.c:1641-1851.
unfoldable pub read_header : Startup → List Round → Camera → Started
unfolding announce
read_header k ws s =
    let sets = get_sps_and_pps_from_header k.header k.header_size in
    if sets.code == ok
    then announce k ws sets s
    else started (pthread_exit get_sps_and_pps_from_header_fail s) none false

-- The whole thread. Before pthread_cleanup_push nothing is cleaned up.
unfoldable pub video_pthread : Startup → List Round → Camera → Started
unfolding open_queues start_camera start_encoder read_header
video_pthread k ws s =
    if open_queues k == ok
    then (let r = start_camera k s.device in
        let s' = record s { device = r.device } in
        if r.code == ok
        then (let e = start_encoder r.device in
            let s'' = record s { device = e.device } in
            if e.code == ok
            then read_header k ws s''
            else started (pthread_exit e.code s'') none false)
        else started (thread (exited r.code) s') none false)
    else started (thread (exited (open_queues k)) s) none false
