-- ===== src/Video/Stream/Resets.antt =====
-- The functions of the stream against the lists of their calls.
use handle_wifi_camera_itop.Common.{ℕ, ◌≢◌, List, [], ◌∷◌, ◌++◌, arith}
use handle_wifi_camera_itop.Public.ErrorCode.{
  ok, v4l2_stream_off_fail, clear_v4l2_mmap_fail, clear_v4l2_stream_mmap_fail,
  h264_encode_close_fail, v4l2_set_camera_format_fail, v4l2_set_isp_format_fail, v4l2_set_ctrl_fail,
  v4l2_require_buffers_fail, v4l2_query_buffers_fail, v4l2_queue_buffer_fail, v4l2_stream_on_fail,
  ioctl_vidioc_querybuf_fail, ioctl_vidioc_qbuf_fail, ioctl_vidioc_streamon_fail,
  ioctl_vidioc_streamoff_fail,
}
use handle_wifi_camera_itop.Video.Device.{
  DeviceCall, streamoff, streamon, close_camera, munmap, mmap, querybuf, qbuf, reqbufs, s_fmt,
  s_fmt_is, s_ctrl, enc_close, v4l2_cid_is_s_scenario_mode, v4l2_cid_cacheable, Device, Step, done,
  asks, tells, must, for_buffers, fimc_v4l2_s_fmt, fimc_v4l2_s_fmt_is, fimc_v4l2_reqbufs,
  fimc_v4l2_querybuf, fimc_v4l2_qbuf, fimc_v4l2_streamon, fimc_v4l2_streamoff, fimc_v4l2_s_ctrl,
}
use handle_wifi_camera_itop.Video.Stream.{
  clear_v4l2_mmap, clear_v4l2_stream_mmap, clear_video_pthread_mem, start_stream, reset_v4l2_stream,
}
use handle_wifi_camera_itop.Video.Stream.Scripts.{
  Runs, Follows, done-Follows, asks-Follows, tells-Follows, must-Follows, for_each,
  for_buffers-Follows,
}
use handle_wifi_camera_itop.Video.Stream.Entries.{Entry, asked, told}

abbrev pub stop_script : ℕ → List Entry
stop_script fail = asked streamoff fail ∷ for_each (λ i. told (munmap i) ∷ []) 8 0 []

abbrev pub start_script : ℕ → ℕ → ℕ → List Entry → List Entry
start_script width height scenario script =
    asked (s_fmt width height) v4l2_set_camera_format_fail
    ∷ asked (s_fmt_is width height scenario) v4l2_set_isp_format_fail
    ∷ asked (s_ctrl v4l2_cid_is_s_scenario_mode scenario) v4l2_set_ctrl_fail
    ∷ asked (s_ctrl v4l2_cid_cacheable 1) v4l2_set_ctrl_fail
    ∷ asked (reqbufs 8) v4l2_require_buffers_fail
    ∷ for_each (λ i. asked (querybuf i) v4l2_query_buffers_fail ∷ told (mmap i) ∷ []) 8 0
        (for_each (λ i. asked (qbuf i) v4l2_queue_buffer_fail ∷ []) 8 0
          (asked streamon v4l2_stream_on_fail ∷ script))

clear_v4l2_mmap-Follows : Follows (for_each (λ i. told (munmap i) ∷ []) 8 0 []) clear_v4l2_mmap
unfolding clear_v4l2_mmap
clear_v4l2_mmap-Follows =
    for_buffers-Follows (λ i rest. tells (munmap i) rest) (λ i. told (munmap i) ∷ [])
      (λ i script rest h. tells-Follows (munmap i) script rest h) 8 0 [] done done-Follows

-- One call, under the code of the caller, before a script.
pub must_ask :
    (fail code : ℕ) (c : DeviceCall) (script : List Entry) (rest : Step)
    → fail ≢ ok
    → code ≢ ok
    → Follows script rest
    → Follows (asked c fail ∷ script) (must fail (asks c code) rest)
must_ask fail code c script rest f n h =
    must-Follows fail (asked c code ∷ []) script (asks c code) rest f (asks-Follows c code n) h

clear_v4l2_stream_mmap-Follows : Follows (stop_script v4l2_stream_off_fail) clear_v4l2_stream_mmap
unfolding clear_v4l2_stream_mmap fimc_v4l2_streamoff
clear_v4l2_stream_mmap-Follows =
    must_ask v4l2_stream_off_fail ioctl_vidioc_streamoff_fail streamoff
      (for_each (λ i. told (munmap i) ∷ []) 8 0 []) (must clear_v4l2_mmap_fail clear_v4l2_mmap done)
      (λ z. omega arith) (λ z. omega arith)
      (must-Follows clear_v4l2_mmap_fail (for_each (λ i. told (munmap i) ∷ []) 8 0 []) []
        clear_v4l2_mmap done (λ z. omega arith) clear_v4l2_mmap-Follows done-Follows)

fimc_v4l2_querybuf-Follows :
    Follows
      (for_each (λ i. asked (querybuf i) ioctl_vidioc_querybuf_fail ∷ told (mmap i) ∷ []) 8 0 [])
      (fimc_v4l2_querybuf 8)
unfolding fimc_v4l2_querybuf
fimc_v4l2_querybuf-Follows =
    for_buffers-Follows
      (λ i rest.
        must ioctl_vidioc_querybuf_fail (asks (querybuf i) ioctl_vidioc_querybuf_fail)
          (tells (mmap i) rest))
      (λ i. asked (querybuf i) ioctl_vidioc_querybuf_fail ∷ told (mmap i) ∷ [])
      (λ i script rest h.
        must_ask ioctl_vidioc_querybuf_fail ioctl_vidioc_querybuf_fail (querybuf i)
          (told (mmap i) ∷ script) (tells (mmap i) rest) (λ z. omega arith) (λ z. omega arith)
          (tells-Follows (mmap i) script rest h))
      8 0 [] done done-Follows

-- The last part of a start: the buffers are queued, and the stream is switched on.
queue_and_go : Step → Step
queue_and_go rest =
    for_buffers (λ i more. must v4l2_queue_buffer_fail (fimc_v4l2_qbuf i) more) 8 0
      (must v4l2_stream_on_fail fimc_v4l2_streamon rest)

queue_script : List Entry → List Entry
queue_script script =
    for_each (λ i. asked (qbuf i) v4l2_queue_buffer_fail ∷ []) 8 0
      (asked streamon v4l2_stream_on_fail ∷ script)

queue_and_go-Follows :
    (script : List Entry) (rest : Step)
    → Follows script rest
    → Follows (queue_script script) (queue_and_go rest)
unfolding queue_and_go queue_script fimc_v4l2_qbuf fimc_v4l2_streamon
queue_and_go-Follows script rest h =
    for_buffers-Follows (λ i more. must v4l2_queue_buffer_fail (fimc_v4l2_qbuf i) more)
      (λ i. asked (qbuf i) v4l2_queue_buffer_fail ∷ [])
      (λ i others more g.
        must_ask v4l2_queue_buffer_fail ioctl_vidioc_qbuf_fail (qbuf i) others more
          (λ z. omega arith) (λ z. omega arith) g)
      8 0 (asked streamon v4l2_stream_on_fail ∷ script)
      (must v4l2_stream_on_fail fimc_v4l2_streamon rest)
      (must_ask v4l2_stream_on_fail ioctl_vidioc_streamon_fail streamon script rest
        (λ z. omega arith) (λ z. omega arith) h)

-- The part behind VIDIOC_REQBUFS.
map_and_go : Step → Step
unfolding queue_and_go
map_and_go rest = must v4l2_query_buffers_fail (fimc_v4l2_querybuf 8) (queue_and_go rest)

map_script : List Entry → List Entry
unfolding queue_script
map_script script =
    for_each (λ i. asked (querybuf i) v4l2_query_buffers_fail ∷ told (mmap i) ∷ []) 8 0
      (queue_script script)

map_and_go-Follows :
    (script : List Entry) (rest : Step)
    → Follows script rest
    → Follows (map_script script) (map_and_go rest)
unfolding map_and_go map_script
map_and_go-Follows script rest h =
    must-Follows v4l2_query_buffers_fail
      (for_each (λ i. asked (querybuf i) ioctl_vidioc_querybuf_fail ∷ told (mmap i) ∷ []) 8 0 [])
      (queue_script script) (fimc_v4l2_querybuf 8) (queue_and_go rest) (λ z. omega arith)
      fimc_v4l2_querybuf-Follows (queue_and_go-Follows script rest h)

pub start_stream-Follows :
    (width height scenario : ℕ) (script : List Entry) (rest : Step)
    → Follows script rest
    → Follows (start_script width height scenario script) (start_stream width height scenario rest)
unfolding start_stream map_and_go map_script queue_and_go queue_script fimc_v4l2_s_fmt
    fimc_v4l2_s_fmt_is fimc_v4l2_s_ctrl fimc_v4l2_reqbufs
start_stream-Follows width height scenario script rest h =
    must_ask _ _ (s_fmt width height) _ _ (λ z. omega arith) (λ z. omega arith)
      (must_ask _ _ (s_fmt_is width height scenario) _ _ (λ z. omega arith) (λ z. omega arith)
        (must_ask _ _ (s_ctrl v4l2_cid_is_s_scenario_mode scenario) _ _ (λ z. omega arith)
          (λ z. omega arith)
          (must_ask _ _ (s_ctrl v4l2_cid_cacheable 1) _ _ (λ z. omega arith) (λ z. omega arith)
            (must_ask _ _ (reqbufs 8) _ _ (λ z. omega arith) (λ z. omega arith)
              (map_and_go-Follows script rest h)))))

-- The stream is switched off and unmapped, and started anew.
abbrev pub reset_script : ℕ → ℕ → ℕ → List Entry
reset_script width height scenario =
    stop_script clear_v4l2_stream_mmap_fail ++ start_script width height scenario []

-- Whatever the driver answers, `reset_v4l2_stream` makes the calls of a fixed list, in order:
-- STREAMOFF, munmap of the 8 buffers, the two formats, the two controls, REQBUFS, QUERYBUF and mmap
-- of each buffer, QBUF of each, STREAMON. Either the driver accepts all of them that can be refused,
-- and it returns OK; or it returns the code that belongs to the first call that the driver refuses,
-- which is the last that is made.
pub reset_v4l2_stream-Runs :
    (width height scenario : ℕ) (d : Device)
    → Runs (reset_script width height scenario) d (reset_v4l2_stream width height scenario d)
unfolding reset_v4l2_stream
reset_v4l2_stream-Runs width height scenario =
    must-Follows clear_v4l2_stream_mmap_fail (stop_script v4l2_stream_off_fail)
      (start_script width height scenario []) clear_v4l2_stream_mmap
      (start_stream width height scenario done) (λ z. omega arith) clear_v4l2_stream_mmap-Follows
      (start_stream-Follows width height scenario [] done done-Follows)

abbrev pub clean_up_script : List Entry
clean_up_script =
    stop_script clear_v4l2_stream_mmap_fail
    ++ (told close_camera ∷ asked enc_close h264_encode_close_fail ∷ [])

-- Whatever the devices answer, `clear_video_pthread_mem` switches the stream off, unmaps the 8
-- buffers, closes the camera and closes the encoder, and returns OK if nothing is refused; if STREAMOFF is
-- refused, it does nothing else, and if only the encoder refuses, all else has been done.
pub clear_video_pthread_mem-Runs : (d : Device) → Runs clean_up_script d (clear_video_pthread_mem d)
unfolding clear_video_pthread_mem
clear_video_pthread_mem-Runs =
    must-Follows clear_v4l2_stream_mmap_fail (stop_script v4l2_stream_off_fail)
      (told close_camera ∷ asked enc_close h264_encode_close_fail ∷ []) clear_v4l2_stream_mmap
      (tells close_camera (asks enc_close h264_encode_close_fail)) (λ z. omega arith)
      clear_v4l2_stream_mmap-Follows
      (tells-Follows close_camera (asked enc_close h264_encode_close_fail ∷ [])
        (asks enc_close h264_encode_close_fail)
        (asks-Follows enc_close h264_encode_close_fail (λ z. omega arith)))
