-- ===== src/Video/Start/Streaming.antt =====
-- What the steps before the loop of `video_pthread` do to the camera.
use handle_wifi_camera_itop.Common.{
  ℕ, ◌==◌, ==→eq, ==→ne, ◌≢◌, ◌⊎◌, ◌∙◌, inl, inr, ap, false, Bool-cases, [], ◌∷◌, arith,
}
use handle_wifi_camera_itop.Public.ErrorCode.{
  ok, open_camera_fail, v4l2_query_capacity_fail, v4l2_enum_input_fail, v4l2_set_input_channel_fail,
  open_h264_encode_fail, init_h264_encode_fail, h264_encode_get_in_buffer_fail,
  h264_encode_get_out_buffer_fail,
}
use handle_wifi_camera_itop.Video.Encoder.{init_h264_encoder_param}
use handle_wifi_camera_itop.Video.Device.{
  Device, Step, asks, must, enc_open, enc_init, enc_get_in_buf, enc_get_out_buf, fimc_v4l2_querycap,
  fimc_v4l2_enuminput, fimc_v4l2_enum_fmt,
}
use handle_wifi_camera_itop.Video.Stream.{start_stream}
use handle_wifi_camera_itop.Video.Stream.Scripts.{asks-Follows}
use handle_wifi_camera_itop.Video.Stream.Entries.{asked, log_of}
use handle_wifi_camera_itop.Video.Stream.Resets.{must_ask, start_script, start_stream-Follows}
use handle_wifi_camera_itop.Video.Stream.Tracking.{
  Streams, tracked, track_all, track_all-append, run_of,
}
use handle_wifi_camera_itop.Video.Start.{
  Startup, video_pix_format, query_device, query_format, start_camera, start_encoder,
}

-- A step that succeeds only where the camera streams.
abbrev Reaches : Step → Type 0
Reaches step = (d : Device) → ((step d).code ≢ ok) ⊎ Streams 640 480 (step d).device

must-Reaches :
    (fail : ℕ) (step rest : Step) → fail ≢ ok → Reaches rest → Reaches (must fail step rest)
unfolding must
must-Reaches fail step rest ne h d = elim (Bool-cases ((step d).code == ok)) [
  | inl e ↦ rw e (h (step d).device)
  | inr e ↦ rw e (inl ne)
]

streaming-Reaches : Reaches (start_stream 640 480 1 (asks enc_open open_h264_encode_fail))
streaming-Reaches d =
    let script = start_script 640 480 1 (asked enc_open open_h264_encode_fail ∷ []) in
    let step = start_stream 640 480 1 (asks enc_open open_h264_encode_fail) in
    let start = tracked 0 0 false 0 in
    let runs =
      start_stream-Follows 640 480 1 (asked enc_open open_h264_encode_fail ∷ [])
        (asks enc_open open_h264_encode_fail)
        (asks-Follows enc_open open_h264_encode_fail (λ z. omega arith)) d in
    elim (Bool-cases ((step d).code == ok)) [
      | inl e ↦ inr (
          ap (λ cs. track_all cs start) (run_of script d (step d) runs (==→eq (step d).code ok e))
          ∙ track_all-append d.calls (log_of script) start)
      | inr e ↦ inl (==→ne (step d).code ok e)
    ]

query_format-Reaches : (k : Startup) (rest : Step) → Reaches rest → Reaches (query_format k rest)
unfolding query_format
query_format-Reaches k rest h d = elim (Bool-cases k.debug) [
  | inr e ↦ rw e (h d)
  | inl e ↦ rw e (elim (Bool-cases (fimc_v4l2_enum_fmt k.formats video_pix_format == ok)) [
    | inl f ↦ rw f (h d)
    | inr f ↦ rw f (inl (λ z. omega arith))
  ])
]

query_device-Reaches : (k : Startup) (rest : Step) → Reaches rest → Reaches (query_device k rest)
unfolding query_device
query_device-Reaches k rest h d = elim (Bool-cases k.debug) [
  | inr e ↦ rw e (h d)
  | inl e ↦ rw e (
      must-Reaches v4l2_query_capacity_fail (fimc_v4l2_querycap k.captures)
        (must v4l2_enum_input_fail (fimc_v4l2_enuminput 0) rest) (λ z. omega arith)
        (must-Reaches v4l2_enum_input_fail (fimc_v4l2_enuminput 0) rest (λ z. omega arith) h) d)
]

pub start_camera-Reaches : (k : Startup) → Reaches (start_camera k)
unfolding start_camera
start_camera-Reaches k =
    must-Reaches open_camera_fail _ _ (λ z. omega arith)
      (query_device-Reaches k _ (
        must-Reaches v4l2_set_input_channel_fail _ _ (λ z. omega arith)
          (query_format-Reaches k _ streaming-Reaches)))

-- The encoder does not touch the camera.
pub start_encoder-Streams :
    (d : Device)
    → Streams 640 480 d
    → ((start_encoder d).code ≢ ok) ⊎ Streams 640 480 (start_encoder d).device
unfolding start_encoder
start_encoder-Streams d p =
    let start = tracked 0 0 false 0 in
    let script =
      asked (enc_init init_h264_encoder_param) init_h264_encode_fail
      ∷ asked enc_get_in_buf h264_encode_get_in_buffer_fail
      ∷ asked enc_get_out_buf h264_encode_get_out_buffer_fail
      ∷ [] in
    let runs =
      must_ask init_h264_encode_fail init_h264_encode_fail (enc_init init_h264_encoder_param) _ _
        (λ z. omega arith) (λ z. omega arith)
        (must_ask h264_encode_get_in_buffer_fail h264_encode_get_in_buffer_fail enc_get_in_buf _ _
          (λ z. omega arith) (λ z. omega arith)
          (asks-Follows enc_get_out_buf h264_encode_get_out_buffer_fail (λ z. omega arith)))
        d in
    elim (Bool-cases ((start_encoder d).code == ok)) [
      | inl e ↦ inr (
          ap (λ cs. track_all cs start)
            (run_of script d (start_encoder d) runs (==→eq (start_encoder d).code ok e))
          ∙ track_all-append d.calls (log_of script) start
          ∙ ap (λ t. track_all (log_of script) t) p)
      | inr e ↦ inl (==→ne (start_encoder d).code ok e)
    ]
