-- ===== src/Tests/Streaming.antt =====
-- The RTP thread as a whole, from a full frame buffer to the receiver.
use handle_wifi_camera_itop.Common.{ℕ, ◌≡◌, refl, true, false, List, [], ◌∷◌, arith}
use handle_wifi_camera_itop.NetTrans.Send.{SendReply, accepts}
use handle_wifi_camera_itop.FrameBuffer.{FrameBuffer, update_globe_frame_info}
use handle_wifi_camera_itop.Rtp.Sender.Single.{Accepting}
use handle_wifi_camera_itop.Rtp.Thread.{Setup, Turn, RtpThread, going, rtp_round, rtp_pthread}
use handle_wifi_camera_itop.Rtp.Thread.Releasing.{GivesBack, rtp_pthread-GivesBack}
use handle_wifi_camera_itop.Rtp.Streaming.{
  Stream, fresh_stream, handed_over, taken, produce, round, Reach, here, next,
}
use handle_wifi_camera_itop.Rtp.Streaming.Invariant.{AllSendable}
use handle_wifi_camera_itop.Rtp.Streaming.Delivery.{
  StreamDelivers, full_goes_on, reached, Reach-Delivers,
}

abbrev net : ℕ → List SendReply
net k = accepts 1500 ∷ []

net-Accepting : Accepting net
net-Accepting k = (1500, [], refl, omega arith)

abbrev empty_buffer : FrameBuffer
empty_buffer = record {
  frame_length = 0;
  frame_buffer = [];
  time_stamp = 0;
  is_full = false;
  locked = false;
}

abbrev frame : List ℕ
frame = 0 ∷ 0 ∷ 0 ∷ 1 ∷ 0x41 ∷ 7 ∷ 8 ∷ []

abbrev full_buffer : FrameBuffer
full_buffer = record empty_buffer {
  frame_length = 7;
  frame_buffer = frame;
  time_stamp = 3600;
  is_full = true;
}

-- The mutex cannot be had in the second round.
abbrev turns : List Turn
turns =
    record { can_lock = true; buffer = full_buffer; wakes = [] }
    ∷ record { can_lock = false; buffer = full_buffer; wakes = [] }
    ∷ []

abbrev setup : Setup
setup = record { has_socket = true; can_bind = true; has_memory = true }

rtp_pthread-GivesBack_example : GivesBack (rtp_pthread net setup turns empty_buffer)
rtp_pthread-GivesBack_example = rtp_pthread-GivesBack net setup turns empty_buffer

abbrev with_frame : Stream
with_frame = handed_over (fresh_stream empty_buffer) frame 3600

sendable : AllSendable with_frame.produced
sendable = omega arith

handed : Reach net (fresh_stream empty_buffer) with_frame
handed = next here (produce frame 3600 refl (omega arith) (omega arith))

sending :
    (b : FrameBuffer) × (th : RtpThread) × (rtp_round net true [] with_frame.buffer
        with_frame.thread
      ≡ going b th)
unfolding update_globe_frame_info
sending =
    full_goes_on net net-Accepting with_frame refl sendable
      (reached net net-Accepting refl handed sendable)

-- The stream when the RTP thread has sent the frame.
abbrev with_packet : Stream
with_packet = taken with_frame sending.0 sending.1

sent_on : Reach net (fresh_stream empty_buffer) with_packet
unfolding update_globe_frame_info
sent_on = next handed (round sending.0 sending.1 refl sending.2)

Reach-Delivers_example : StreamDelivers net with_packet
Reach-Delivers_example = Reach-Delivers net net-Accepting refl sent_on sendable
