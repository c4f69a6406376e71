-- ===== src/Rtp/Streaming/Invariant.antt =====
-- What holds of the stream at each step.
use handle_wifi_camera_itop.Common.{ℕ, ◌<◌, ◌≤◌, ◌≡◌, true, List, [], ◌∷◌, ◌++◌, length}
use handle_wifi_camera_itop.NetTrans.Send.{SendReply}
use handle_wifi_camera_itop.FrameBuffer.{
  FrameBuffer, Fetched, nalu_buffer_length, get_globe_frame_info,
}
use handle_wifi_camera_itop.FrameBuffer.Handoff.{Frame, full_fetch, IsOrdered}
use handle_wifi_camera_itop.Rtp.Sender.{Sender, sent, send_nalu}
use handle_wifi_camera_itop.Rtp.Receiver.{Receiver, receive}
use handle_wifi_camera_itop.Rtp.Thread.{
  RtpThread, Next, going, waiting, ended, undefined, rtp_round,
}
use handle_wifi_camera_itop.Rtp.Streaming.{Stream, hand_over}
use handle_wifi_camera_itop.Rtp.Streaming.Carrying.{IsSendable, Carries, Consecutive}

abbrev pub AllSendable : List Frame → Type 0
AllSendable [] = Unit
AllSendable (f ∷ fs) = IsSendable f × AllSendable fs

pub AllSendable-append :
    (fs gs : List Frame) → AllSendable (fs ++ gs) → AllSendable fs × AllSendable gs
AllSendable-append [] gs h = (tt, h)
AllSendable-append (f ∷ fs) gs (h, hs) = let (a, b) = AllSendable-append fs gs hs in ((h, a), b)

-- Each frame that was taken has come out once, in order.
abbrev pub CarriesAll : List Frame → List Frame → Type 0
CarriesAll [] [] = Unit
CarriesAll [] (_ ∷ _) = ⊥
CarriesAll (_ ∷ _) [] = ⊥
CarriesAll (f ∷ fs) (o ∷ os) = Carries f o × CarriesAll fs os

pub CarriesAll-append :
    (fs gs os ps : List Frame)
    → CarriesAll fs os
    → CarriesAll gs ps
    → CarriesAll (fs ++ gs) (os ++ ps)
CarriesAll-append [] gs [] ps h k = k
CarriesAll-append [] gs (o ∷ os) ps h k = absurd h
CarriesAll-append (f ∷ fs) gs [] ps h k = absurd h
CarriesAll-append (f ∷ fs) gs (o ∷ os) ps (h, hs) k = (h, CarriesAll-append fs gs os ps hs k)

abbrev pub nothing : Receiver
nothing = record { collected = []; frames = [] }

-- The frames in order on their way through the buffer; the receiver has made one frame of each that
-- was taken; the datagrams have consecutive sequence numbers from 0.
pub record IsDelivered (s : Stream) : Type 0 where
  pub ordered : IsOrdered (hand_over s)
  pub memory : s.thread.has_memory ≡ true
  pub room : nalu_buffer_length ≤ length s.thread.nalu_buf
  pub small : s.thread.sender.seq_num < 0x10000
  pub numbered : Consecutive 0 s.thread.sender.datagrams s.thread.sender.seq_num
  pub out : List Frame
  pub received : receive nothing s.thread.sender.datagrams ≡ record { collected = []; frames = out }
  pub carried : CarriesAll s.consumed out

abbrev pub thread_of : RtpThread → Next → RtpThread
thread_of th (going b th') = th'
thread_of th (waiting b th') = th'
thread_of th (ended code th') = th'
thread_of th (undefined th') = th'

abbrev pub buffer_of : FrameBuffer → Next → FrameBuffer
buffer_of b (going b' th) = b'
buffer_of b (waiting b' th) = b'
buffer_of b (ended code th) = b
buffer_of b (undefined th) = b

-- What the thread has when `get_globe_frame_info` has returned, and its round has sent the frame.
abbrev pub after_round : RtpThread → Fetched → Sender → RtpThread
after_round th f s' = record th {
  nalu_buf = f.nalu_buf;
  nalu_length = f.nalu_length;
  time_stamp = f.time_stamp;
  sender = s';
}

module _ (net : ℕ → List SendReply) where
  pub round_goes_on :
      (b : FrameBuffer) (th : RtpThread) (s' : Sender)
      → b.is_full ≡ true
      → th.has_memory ≡ true
      → (let f = get_globe_frame_info true [] b th.nalu_buf 0 0 in
          send_nalu net f.nalu_buf f.nalu_length f.time_stamp th.sender ≡ sent s')
      → (let f = get_globe_frame_info true [] b th.nalu_buf 0 0 in
          rtp_round net true [] b th ≡ going f.buffer (after_round th f s'))
  unfolding rtp_round
  round_goes_on b th s' full memory e =
      let (same, code, empty) = full_fetch b th.nalu_buf th.nalu_length th.time_stamp full in
      rw (same, rtp_round) (rw (code, rtp_round) (rw (memory, rtp_round) (rw (e, rtp_round))))
