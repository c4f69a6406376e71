-- ===== src/Tests/Handing.antt =====
-- The shared frame buffer on one frame.
use handle_wifi_camera_itop.Common.{ℕ, ◌≡◌, refl, true, false, List, [], ◌∷◌, ◌++◌, arith}
use handle_wifi_camera_itop.FrameBuffer.{
  FrameBuffer, wait_failed, update_globe_frame_info, get_globe_frame_info,
}
use handle_wifi_camera_itop.Public.ErrorCode.{get_frame_cond_wait_fail, pthread_cond_wait_fail}
use handle_wifi_camera_itop.FrameBuffer.Handoff.{
  System, produce, consume, Reach, here, next, pending, produced_by, consumed_by, Reach-IsOrdered,
}
use handle_wifi_camera_itop.FrameBuffer.Locking.{Released, mutex_Released}

abbrev empty : FrameBuffer
empty = record {
  frame_length = 0;
  frame_buffer = [];
  time_stamp = 0;
  is_full = false;
  locked = false;
}

abbrev start : System
start = record { buffer = empty; nalu_buf = []; produced = []; consumed = [] }

abbrev frame : List ℕ
frame = 0 ∷ 0 ∷ 0 ∷ 1 ∷ 0x67 ∷ 66 ∷ []

abbrev after_one : System
after_one = consumed_by (produced_by start frame 3600)

handed_over : after_one.consumed ≡ record { nalu = 0x67 ∷ 66 ∷ []; stamp = 3600 } ∷ []
unfolding update_globe_frame_info get_globe_frame_info
handed_over = refl

one_frame : Reach start after_one
unfolding update_globe_frame_info
one_frame = next (next here (produce frame 3600 refl (omega arith) (omega arith))) (consume refl)

Reach-IsOrdered_example :
    after_one.produced ≡ after_one.consumed ++ pending after_one.buffer.is_full after_one.buffer
Reach-IsOrdered_example = Reach-IsOrdered refl refl one_frame

mutex_Released_example :
    (let r =
        update_globe_frame_info true
          (wait_failed ∷ [])
          (record empty { is_full = true })
          frame
          6
          3600 in
      Released pthread_cond_wait_fail r.code r.buffer)
    × (let r =
          get_globe_frame_info true
            (wait_failed ∷ [])
            (record empty { is_full = true })
            frame
            6
            3600 in
        Released get_frame_cond_wait_fail r.code r.buffer)
mutex_Released_example =
    mutex_Released (wait_failed ∷ []) (record empty { is_full = true }) frame 6 3600
