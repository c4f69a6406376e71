-- ===== src/Rtp/Streaming.antt =====
-- The camera thread, the frame buffer and the RTP thread together.
pub mod Carrying
pub mod Invariant
pub mod Delivery
use handle_wifi_camera_itop.Common.{
  ℕ, ◌≤◌, ◌≡◌, true, false, List, [], ◌∷◌, ◌++◌, length, take, drop,
}
use handle_wifi_camera_itop.NetTrans.Send.{SendReply}
use handle_wifi_camera_itop.FrameBuffer.{
  FrameBuffer, h264_start_code_length, nalu_buffer_length, update_globe_frame_info,
}
use handle_wifi_camera_itop.FrameBuffer.Handoff.{Frame, System}
use handle_wifi_camera_itop.Rtp.Thread.{RtpThread, going, what_is_held, fresh_thread, rtp_round}

-- The frame buffer and the RTP thread, with the frames that the camera thread has handed over and
-- those that the RTP thread has taken.
pub record Stream : Type 0 where
  pub buffer : FrameBuffer
  pub thread : RtpThread
  pub produced : List Frame
  pub consumed : List Frame

-- The RTP thread has just entered its loop.
abbrev pub fresh_stream : FrameBuffer → Stream
fresh_stream b = record {
  buffer = b;
  thread = fresh_thread true (what_is_held true);
  produced = [];
  consumed = [];
}

abbrev pub handed_over : Stream → List ℕ → ℕ → Stream
handed_over s frame time_stamp = record s {
  buffer = (update_globe_frame_info true [] s.buffer frame (length frame) time_stamp).buffer;
  produced =
      s.produced ++ (record { nalu = drop h264_start_code_length frame; stamp = time_stamp } ∷ []);
}

abbrev pub taken : Stream → FrameBuffer → RtpThread → Stream
taken s b th = record s {
  buffer = b;
  thread = th;
  consumed =
      s.consumed ++ (record { nalu = take th.nalu_length th.nalu_buf; stamp = th.time_stamp } ∷ []);
}

-- The camera thread hands a frame over to an empty buffer, or the RTP thread makes a round that
-- finds a full one and goes on. What it sends behind the unlock touches nothing that the camera
-- thread uses, so a round is one step.
pub data Step (net : ℕ → List SendReply) (s : Stream) : Stream → Type 0 where
  produce :
      (frame : List ℕ) (time_stamp : ℕ)
      → s.buffer.is_full ≡ false
      → h264_start_code_length ≤ length frame
      → length frame ≤ nalu_buffer_length
      → Step net s (handed_over s frame time_stamp)
  round :
      (b : FrameBuffer) (th : RtpThread)
      → s.buffer.is_full ≡ true
      → rtp_round net true [] s.buffer s.thread ≡ going b th
      → Step net s (taken s b th)

pub data Reach (net : ℕ → List SendReply) (s : Stream) : Stream → Type 0 where
  here : Reach net s s
  next : {t u : Stream} → Reach net s t → Step net t u → Reach net s u

-- The hand-over of frames alone.
abbrev pub hand_over : Stream → System
hand_over s = record {
  buffer = s.buffer;
  nalu_buf = s.thread.nalu_buf;
  produced = s.produced;
  consumed = s.consumed;
}
