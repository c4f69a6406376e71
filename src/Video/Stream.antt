-- ===== src/Video/Stream.antt =====
-- How video.c sets the stream of the camera up, resets it, and lets it go.
pub mod Entries
pub mod Scripts
pub mod Resets
pub mod Tracking
use handle_wifi_camera_itop.Common.{ℕ, ◌==◌, if◌then◌else◌}
use handle_wifi_camera_itop.Public.ErrorCode.{
  ok, v4l2_stream_off_fail, clear_v4l2_mmap_fail, clear_v4l2_stream_mmap_fail,
  h264_encode_close_fail, v4l2_set_camera_format_fail, v4l2_set_isp_format_fail, v4l2_set_ctrl_fail,
  v4l2_require_buffers_fail, v4l2_query_buffers_fail, v4l2_queue_buffer_fail, v4l2_stream_on_fail,
}
use handle_wifi_camera_itop.Video.Device.{
  max_nr_buffers, close_camera, munmap, enc_close, v4l2_cid_is_s_scenario_mode, v4l2_cid_cacheable,
  Device, Done, Step, done, asks, tells, must, for_buffers, fimc_v4l2_s_fmt, fimc_v4l2_s_fmt_is,
  fimc_v4l2_reqbufs, fimc_v4l2_querybuf, fimc_v4l2_qbuf, fimc_v4l2_streamon, fimc_v4l2_streamoff,
  fimc_v4l2_s_ctrl,
}

unfoldable pub clear_v4l2_mmap : Step
clear_v4l2_mmap = for_buffers (λ i rest. tells (munmap i) rest) max_nr_buffers 0 done

pub clear_v4l2_mmap_camfd : Step
unfolding clear_v4l2_mmap
clear_v4l2_mmap_camfd = must clear_v4l2_mmap_fail clear_v4l2_mmap (tells close_camera done)

unfoldable pub clear_v4l2_stream_mmap : Step
unfolding clear_v4l2_mmap
clear_v4l2_stream_mmap =
    must v4l2_stream_off_fail fimc_v4l2_streamoff (must clear_v4l2_mmap_fail clear_v4l2_mmap done)

-- The code of `SsbSipMfcEncClose` is MFC_RET_OK or another.
unfoldable pub clear_video_pthread_mem : Step
unfolding clear_v4l2_stream_mmap
clear_video_pthread_mem =
    must clear_v4l2_stream_mmap_fail clear_v4l2_stream_mmap
      (tells close_camera (asks enc_close h264_encode_close_fail))

unfoldable pub cleanup_video_pthread : Device → Device
unfolding clear_video_pthread_mem
cleanup_video_pthread d = (clear_video_pthread_mem d).device

-- The part that `reset_v4l2_stream` and `video_pthread` have in common: lines 907 to 998, and 1495 to
-- 1588.
unfoldable pub start_stream : ℕ → ℕ → ℕ → Step → Step
start_stream width height scenario rest =
    must v4l2_set_camera_format_fail (fimc_v4l2_s_fmt width height) (
      must v4l2_set_isp_format_fail (fimc_v4l2_s_fmt_is width height scenario) (
        must v4l2_set_ctrl_fail (fimc_v4l2_s_ctrl v4l2_cid_is_s_scenario_mode scenario) (
          must v4l2_set_ctrl_fail (fimc_v4l2_s_ctrl v4l2_cid_cacheable 1) (
            must v4l2_require_buffers_fail (fimc_v4l2_reqbufs max_nr_buffers) (
              must v4l2_query_buffers_fail (fimc_v4l2_querybuf max_nr_buffers) (
                for_buffers (λ i more. must v4l2_queue_buffer_fail (fimc_v4l2_qbuf i) more)
                  max_nr_buffers 0 (must v4l2_stream_on_fail fimc_v4l2_streamon rest)))))))

unfoldable pub reset_v4l2_stream : ℕ → ℕ → ℕ → Step
unfolding clear_v4l2_stream_mmap start_stream
reset_v4l2_stream width height scenario =
    must clear_v4l2_stream_mmap_fail clear_v4l2_stream_mmap
      (start_stream width height scenario done)
