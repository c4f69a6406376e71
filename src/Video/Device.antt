-- ===== src/Video/Device.antt =====
-- The calls that video.c makes on the camera and on the encoder: the `fimc_` functions.
use handle_wifi_camera_itop.Common.{
  ℕ, zero, suc, ◌==◌, if◌then◌else◌, Bool, true, false, List, [], ◌∷◌, ◌++◌, Option, some, none,
}
use handle_wifi_camera_itop.Video.Encoder.{EncH264Param}
use handle_wifi_camera_itop.Public.ErrorCode.{
  ok, poll_fail, poll_time_out, ioctl_vidioc_querycap_fail, no_capture_devices,
  ioctl_vidioc_enuminput_fail, ioctl_vidioc_s_input_fail, ioctl_vidioc_s_fmt_format_fail,
  ioctl_isp_vidioc_s_fmt_format_fail, ioctl_vidioc_enum_fmt_fail, ioctl_vidioc_reqbufs_fail,
  ioctl_vidioc_querybuf_fail, ioctl_vidioc_qbuf_fail, ioctl_vidioc_streamon_fail,
  ioctl_vidioc_streamoff_fail, ioctl_vidioc_dqbuf_fail, ioctl_vidioc_s_ctrl_fail,
}

abbrev pub max_nr_buffers : ℕ
max_nr_buffers = 8

pub data Control : Type 0 where
  v4l2_cid_is_s_scenario_mode v4l2_cid_cacheable : Control

-- A call on the camera or the encoder, with what it is about: the number of a buffer, or a format.
-- `dqbuf` stands for a buffer that the driver has given.
pub data DeviceCall : Type 0 where
  open_camera querycap streamon streamoff close_camera : DeviceCall
  enuminput s_input reqbufs querybuf mmap munmap qbuf dqbuf : ℕ → DeviceCall
  s_fmt : ℕ → ℕ → DeviceCall
  s_fmt_is : ℕ → ℕ → ℕ → DeviceCall
  s_ctrl : Control → ℕ → DeviceCall
  enc_init : EncH264Param → DeviceCall
  enc_open enc_get_in_buf enc_get_out_buf enc_set_in_buf enc_exe enc_close : DeviceCall

-- What came of a call: the device has done it, it has refused it, or its answer is not looked at.
pub data Reply : Type 0 where
  accepted refused unread : Reply

-- The answers that the devices will give, and the calls that have been made, with what came of each.
pub record Device : Type 0 where
  pub replies : List Bool
  pub calls : List (DeviceCall × Reply)

pub record Done : Type 0 where
  pub code : ℕ
  pub device : Device

abbrev pub Step : Type 0
Step = Device → Done

abbrev pub done : Step
done d = record { code = ok; device = d }

abbrev pub logged : DeviceCall → Reply → List Bool → Device → Device
logged c reply replies d = record { replies = replies; calls = d.calls ++ ((c, reply) ∷ []) }

-- A call that can be refused, and what its caller returns then. Without a further answer it is
-- refused.
unfoldable pub asks : DeviceCall → ℕ → Step
asks c fail d = elim d.replies [
  | [] ↦ record { code = fail; device = logged c refused [] d }
  | true ∷ replies ↦ record { code = ok; device = logged c accepted replies d }
  | false ∷ replies ↦ record { code = fail; device = logged c refused replies d }
]

-- A call whose answer is not looked at.
unfoldable pub tells : DeviceCall → Step → Step
tells c rest d = rest (logged c unread d.replies d)

-- if(OK != ret) return fail;
unfoldable pub must : ℕ → Step → Step → Step
must fail step rest d =
    let r = step d in
    if r.code == ok then rest r.device else record { code = fail; device = r.device }

-- A step for each buffer from the i-th on.
unfoldable pub for_buffers : (ℕ → Step → Step) → ℕ → ℕ → Step → Step
for_buffers step zero i rest = rest
for_buffers step (suc n) i rest = step i (for_buffers step n (suc i) rest)

-- A driver that sets the bit V4L2_CAP_VIDEO_CAPTURE if `captures`.
pub fimc_v4l2_querycap : Bool → Step
unfolding asks must
fimc_v4l2_querycap captures =
    must ioctl_vidioc_querycap_fail (asks querycap ioctl_vidioc_querycap_fail)
      (λ d. record { code = if captures then ok else no_capture_devices; device = d })

unfoldable pub fimc_v4l2_enuminput : ℕ → Step
fimc_v4l2_enuminput index = asks (enuminput index) ioctl_vidioc_enuminput_fail

unfoldable pub fimc_v4l2_s_input : ℕ → Step
fimc_v4l2_s_input index = asks (s_input index) ioctl_vidioc_s_input_fail

unfoldable pub fimc_v4l2_s_fmt : ℕ → ℕ → Step
fimc_v4l2_s_fmt width height = asks (s_fmt width height) ioctl_vidioc_s_fmt_format_fail

unfoldable pub fimc_v4l2_s_fmt_is : ℕ → ℕ → ℕ → Step
fimc_v4l2_s_fmt_is width height field =
    asks (s_fmt_is width height field) ioctl_isp_vidioc_s_fmt_format_fail

-- The driver's pixel formats by index, until the first error.
unfoldable pub fimc_v4l2_enum_fmt : List ℕ → ℕ → ℕ
fimc_v4l2_enum_fmt [] fmt = ioctl_vidioc_enum_fmt_fail
fimc_v4l2_enum_fmt (pixelformat ∷ formats) fmt =
    let rest = fimc_v4l2_enum_fmt formats fmt in if pixelformat == fmt then ok else rest

unfoldable pub fimc_v4l2_reqbufs : ℕ → Step
fimc_v4l2_reqbufs nr_bufs = asks (reqbufs nr_bufs) ioctl_vidioc_reqbufs_fail

-- The test `mmap(...) < 0` is on a pointer and never true.
unfoldable pub fimc_v4l2_querybuf : ℕ → Step
fimc_v4l2_querybuf nr_frames =
    for_buffers
      (λ i rest.
        must ioctl_vidioc_querybuf_fail (asks (querybuf i) ioctl_vidioc_querybuf_fail)
          (tells (mmap i) rest))
      nr_frames 0 done

unfoldable pub fimc_v4l2_qbuf : ℕ → Step
fimc_v4l2_qbuf index = asks (qbuf index) ioctl_vidioc_qbuf_fail

unfoldable pub fimc_v4l2_streamon : Step
fimc_v4l2_streamon = asks streamon ioctl_vidioc_streamon_fail

unfoldable pub fimc_v4l2_streamoff : Step
fimc_v4l2_streamoff = asks streamoff ioctl_vidioc_streamoff_fail

unfoldable pub fimc_v4l2_s_ctrl : Control → ℕ → Step
fimc_v4l2_s_ctrl id value = asks (s_ctrl id value) ioctl_vidioc_s_ctrl_fail

-- How a `poll` of 5 seconds ends.
pub data PollReply : Type 0 where
  ready timed_out poll_error : PollReply

unfoldable pub fimc_poll : PollReply → ℕ
fimc_poll ready = ok
fimc_poll timed_out = poll_time_out
fimc_poll poll_error = poll_fail

-- The number of the buffer that is taken (`none` is a failed ioctl), or the code.
unfoldable pub fimc_v4l2_dqbuf : Option ℕ → ℕ
fimc_v4l2_dqbuf none = ioctl_vidioc_dqbuf_fail
fimc_v4l2_dqbuf (some index) = index
