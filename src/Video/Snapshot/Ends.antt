-- ===== src/Video/Snapshot/Ends.antt =====
-- The ends of `take_pohto`.
use handle_wifi_camera_itop.Common.{
  if_either, if_cases, ℕ, ◌==◌, ltb, if◌then◌else◌, ◌≡◌, ◌≢◌, refl, true, List, [], ◌∷◌, Option,
  some, none, arith, Text,
}
use handle_wifi_camera_itop.Public.ErrorCode.{
  ok, reset_v4l2_stream_fail, poll_yuv_buffer_fail, v4l2_dequeue_buffer_fail,
  convert_nv12_to_iyuv_fail, mkdir_fail,
}
use handle_wifi_camera_itop.Video.Device.{
  logged, accepted, dqbuf, max_nr_buffers, Device, fimc_poll, fimc_v4l2_dqbuf,
}
use handle_wifi_camera_itop.Video.Stream.{reset_v4l2_stream}
use handle_wifi_camera_itop.Video.Image.{convert_nv12_to_iyuv, Converted}
use handle_wifi_camera_itop.Video.Snapshot.{
  Shot, Event, alloc_nv12, free_nv12, Finish, returned, fault, Taken, compress_photo, convert_photo,
  fetch_photo, take_pohto, photo_path, nv12_image, camera_snapshot_width, camera_snapshot_height,
  is_mode_capture_still,
}

-- What holds of both ends holds of a step that may wait.
after_code :
    (P : Taken → Type 0) (code : Option ℕ) (good bad : Taken)
    → P good
    → P bad
    → P (elim code [ none ↦ bad | some ret ↦ if ret == ok then good else bad ])
after_code P none good bad p q = q
after_code P (some ret) good bad p q = if_either P (ret == ok) good bad p q

abbrev pub ended : Finish → Text → ℕ → List Event → Device → Taken
ended finish path size events d = record {
  finish = finish;
  device = d;
  path = path;
  size = size;
  events = events;
}

-- The image that buffer `index` gives.
abbrev pub image_of : Shot → ℕ → Converted
image_of w index =
    convert_nv12_to_iyuv (some (nv12_image (w.frame index))) w.pcache camera_snapshot_width
      camera_snapshot_height

-- A number below 8 is that of a buffer.
taken_from :
    (r : Option ℕ) → ltb (fimc_v4l2_dqbuf r) max_nr_buffers ≡ true → r ≡ some (fimc_v4l2_dqbuf r)
unfolding fimc_v4l2_dqbuf
taken_from none e = absurd (cc e)
taken_from (some index) e = refl

-- What all ends of `take_pohto` have: those before the memory is had, at NULL, those before the
-- image is compressed, and those of `compress_photo`.
module _ (P : Taken → Type 0) (w : Shot) (photo_name path : Text) (size : ℕ)
    (early : (code : ℕ) (d : Device) → code ≢ ok → P (ended (returned code) path size [] d))
    (null : (d : Device) → P (ended fault path size [] d))
    (middle : (code : ℕ) (d : Device)
      → code ≢ ok
      → P (ended (returned code) path size (alloc_nv12 ∷ free_nv12 ∷ []) d))
    (late : (index : ℕ) (d : Device)
      → w.dequeued ≡ some index
      → P (compress_photo w index (image_of w index).image (photo_path w photo_name) size d)) where
  convert_photo-ends :
      (index : ℕ) (d : Device)
      → w.dequeued ≡ some index
      → P (convert_photo w photo_name index path size d)
  unfolding convert_photo
  convert_photo-ends index d e =
      let next = compress_photo w index (image_of w index).image (photo_path w photo_name) size d in
      let failing = ended (returned mkdir_fail) path size (alloc_nv12 ∷ free_nv12 ∷ []) d in
      after_code P (image_of w index).code
        (if w.dir_exists then next else (if w.can_make_dir then next else failing))
        (ended (returned convert_nv12_to_iyuv_fail) path size (alloc_nv12 ∷ free_nv12 ∷ []) d)
        (if_either P w.dir_exists next (if w.can_make_dir then next else failing) (late index d e) (
          if_either P w.can_make_dir next failing (late index d e)
            (middle mkdir_fail d (λ z. omega arith))))
        (middle convert_nv12_to_iyuv_fail d (λ z. omega arith))

  fetch_photo-ends : (d : Device) → P (fetch_photo w photo_name path size d)
  unfolding fetch_photo
  fetch_photo-ends d =
      let index = fimc_v4l2_dqbuf w.dequeued in
      let given = logged (dqbuf index) accepted d.replies d in
      let inner = convert_photo w photo_name index path size given in
      let filled = if w.nv12_memory then inner else ended fault path size [] d in
      let refused = ended (returned v4l2_dequeue_buffer_fail) path size [] d in
      if_either P (fimc_poll w.polled == ok) (if ltb index max_nr_buffers then filled else refused)
        (ended (returned poll_yuv_buffer_fail) path size [] d)
        (if_cases P (ltb index max_nr_buffers) filled refused
          (λ few.
            if_either P w.nv12_memory inner (ended fault path size [] d)
              (convert_photo-ends index given (taken_from w.dequeued few)) (null d))
          (λ _. early v4l2_dequeue_buffer_fail d (λ z. omega arith)))
        (early poll_yuv_buffer_fail d (λ z. omega arith))

  pub take_pohto-ends : (d : Device) → P (take_pohto w photo_name path size d)
  unfolding take_pohto
  take_pohto-ends d =
      let r =
        reset_v4l2_stream camera_snapshot_width camera_snapshot_height is_mode_capture_still d in
      if_either P (r.code == ok) (fetch_photo w photo_name path size r.device)
        (ended (returned reset_v4l2_stream_fail) path size [] r.device) (fetch_photo-ends r.device)
        (early reset_v4l2_stream_fail r.device (λ z. omega arith))
