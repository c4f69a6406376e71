-- ===== src/Video/Thread/Encoding.antt =====
-- The calls of a round of `video_pthread` that encodes a picture, and the state of the camera.
use handle_wifi_camera_itop.Common.{ℕ, ◌≡◌, ◌∙◌, ap, false, [], ◌∷◌, arith}
use handle_wifi_camera_itop.Public.ErrorCode.{
  ok, ioctl_vidioc_qbuf_fail, h264_encode_set_in_buffer_fail, h264_encode_encode_buffer_fail,
  h264_encode_get_out_buffer_fail,
}
use handle_wifi_camera_itop.Video.Device.{
  qbuf, dqbuf, enc_get_out_buf, enc_set_in_buf, enc_exe, Device, logged, accepted,
}
use handle_wifi_camera_itop.Video.Stream.Scripts.{Follows, asks-Follows}
use handle_wifi_camera_itop.Video.Stream.Entries.{asked}
use handle_wifi_camera_itop.Video.Stream.Resets.{must_ask}
use handle_wifi_camera_itop.Video.Thread.{encode}
use handle_wifi_camera_itop.Video.Stream.Tracking.{
  Streams, tracked, track_all, track_all-append, run_of,
}

encode-Follows :
    (index : ℕ)
    → Follows
        (asked (qbuf index) ioctl_vidioc_qbuf_fail
          ∷ asked enc_set_in_buf h264_encode_set_in_buffer_fail
          ∷ asked enc_exe h264_encode_encode_buffer_fail
          ∷ asked enc_get_out_buf h264_encode_get_out_buffer_fail
          ∷ [])
        (encode index)
unfolding encode
encode-Follows index =
    must_ask _ _ (qbuf index) _ _ (λ z. omega arith) (λ z. omega arith)
      (must_ask _ _ enc_set_in_buf _ _ (λ z. omega arith) (λ z. omega arith)
        (must_ask _ _ enc_exe _ _ (λ z. omega arith) (λ z. omega arith)
          (asks-Follows enc_get_out_buf h264_encode_get_out_buffer_fail (λ z. omega arith))))

pub encode-Streams :
    (w h index : ℕ) (d : Device)
    → Streams w h d
    → (encode index (logged (dqbuf index) accepted d.replies d)).code ≡ ok
    → Streams w h (encode index (logged (dqbuf index) accepted d.replies d)).device
encode-Streams w h index d s e =
    let given = logged (dqbuf index) accepted d.replies d in
    let start = tracked 0 0 false 0 in
    let made =
      (qbuf index, accepted)
      ∷ (enc_set_in_buf, accepted)
      ∷ (enc_exe, accepted)
      ∷ (enc_get_out_buf, accepted)
      ∷ [] in
    ap (λ cs. track_all cs start)
      (run_of
        (asked (qbuf index) ioctl_vidioc_qbuf_fail
          ∷ asked enc_set_in_buf h264_encode_set_in_buffer_fail
          ∷ asked enc_exe h264_encode_encode_buffer_fail
          ∷ asked enc_get_out_buf h264_encode_get_out_buffer_fail
          ∷ [])
        given (encode index given) (encode-Follows index given) e)
    ∙ track_all-append given.calls made start
    ∙ ap (λ t. track_all made t) (track_all-append d.calls ((dqbuf index, accepted) ∷ []) start)
    ∙ ap (λ t. track_all made (track_all ((dqbuf index, accepted) ∷ []) t)) s
