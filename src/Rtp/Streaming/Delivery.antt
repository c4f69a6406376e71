-- ===== src/Rtp/Streaming/Delivery.antt =====
-- From the frames of the camera thread to those of a receiver.
use mathlib.Core.Path.{subst}
use native.Mathlib.Nat.{le_trans, le_of_eq}
use handle_wifi_camera_itop.Common.{
  ℕ, ◌≤◌, ◌≡◌, ◌⊎◌, inl, inr, refl, sym, ap, ◌∙◌, true, false, List, [], ◌∷◌, ◌++◌, Bool-cases,
  append-nil, arith, length, take,
}
use handle_wifi_camera_itop.NetTrans.Send.{SendReply}
use handle_wifi_camera_itop.FrameBuffer.{
  FrameBuffer, h264_start_code_length, nalu_buffer_length, get_globe_frame_info,
}
use handle_wifi_camera_itop.FrameBuffer.Handoff
use handle_wifi_camera_itop.FrameBuffer.Handoff.{
  Frame, System, produced_by, consumed_by, full_fetch, fetch_room, pending, IsOrdered,
  Step-IsOrdered,
}
use handle_wifi_camera_itop.Rtp.Sender.Single.{Accepting}
use handle_wifi_camera_itop.Rtp.Receiver.{receive, receive-append}
use handle_wifi_camera_itop.Rtp.Thread.{
  RtpThread, going, fresh_thread, length-calloc, rtp_round, fresh_sender,
}
use handle_wifi_camera_itop.Rtp.Streaming.{
  Stream, fresh_stream, handed_over, taken, produce, round, Reach, here, next, hand_over,
}
use handle_wifi_camera_itop.Rtp.Streaming.Carrying.{
  IsSendable, Consecutive, Consecutive-append, Delivers, send_nalu-Delivers,
}
use handle_wifi_camera_itop.Rtp.Streaming.Invariant.{
  AllSendable, AllSendable-append, CarriesAll, CarriesAll-append, nothing, IsDelivered, thread_of,
  buffer_of, after_round, round_goes_on,
}

-- The RTP thread has nothing to send, or its next round sends it and goes on.
abbrev pub GoesOn : (ℕ → List SendReply) → Stream → Type 0
GoesOn net t =
    (t.buffer.is_full ≡ false)
    ⊎ ((b : FrameBuffer) × (th : RtpThread) × (rtp_round net true [] t.buffer t.thread
          ≡ going b th))

abbrev pub StreamDelivers : (ℕ → List SendReply) → Stream → Type 0
StreamDelivers net t =
    (out : List Frame) × (t.produced ≡ t.consumed ++ pending t.buffer.is_full t.buffer)
    × (receive nothing t.thread.sender.datagrams ≡ record { collected = []; frames = out })
    × CarriesAll t.consumed out
    × Consecutive 0 t.thread.sender.datagrams t.thread.sender.seq_num
    × GoesOn net t

produce-IsDelivered :
    {s : Stream} (frame : List ℕ) (t : ℕ)
    → s.buffer.is_full ≡ false
    → h264_start_code_length ≤ length frame
    → length frame ≤ nalu_buffer_length
    → IsDelivered s
    → IsDelivered (handed_over s frame t)
produce-IsDelivered frame t e l u d = record {
  ordered = Step-IsOrdered (Handoff.produce frame t e l u) d.ordered;
  memory = d.memory;
  room = d.room;
  small = d.small;
  numbered = d.numbered;
  out = d.out;
  received = d.received;
  carried = d.carried;
}

-- The last of a list of frames.
AllSendable-last : (fs : List Frame) (f : Frame) → AllSendable (fs ++ (f ∷ [])) → IsSendable f
AllSendable-last fs f h = (AllSendable-append fs (f ∷ []) h).1.0

module _ (net : ℕ → List SendReply) (accepting : Accepting net) where
  -- The frame that waits in a full buffer.
  abbrev waiting_frame : Stream → Frame
  waiting_frame s =
      let f = get_globe_frame_info true [] s.buffer s.thread.nalu_buf 0 0 in
      record { nalu = take f.nalu_length f.nalu_buf; stamp = f.time_stamp }

  waiting_frame-IsSendable :
      (s : Stream)
      → s.buffer.is_full ≡ true
      → IsOrdered (consumed_by (hand_over s))
      → AllSendable s.produced
      → IsSendable (waiting_frame s)
  waiting_frame-IsSendable s full v all =
      let f = get_globe_frame_info true [] s.buffer s.thread.nalu_buf 0 0 in
      let fs = s.consumed ++ (waiting_frame s ∷ []) in
      let empty = (full_fetch s.buffer s.thread.nalu_buf 0 0 full).2 in
      AllSendable-last s.consumed (waiting_frame s)
        (subst AllSendable (v.order ∙ ap (λ k. fs ++ pending k f.buffer) empty ∙ append-nil fs) all)

  -- What the receiver has when the round has sent the frame.
  abbrev Sends : Stream → List Frame → Type 0
  Sends s out =
      let f = get_globe_frame_info true [] s.buffer s.thread.nalu_buf 0 0 in
      Delivers net accepting f.nalu_buf f.nalu_length f.time_stamp s.thread.sender
        (record { collected = []; frames = out })

  full-Sends :
      (s : Stream)
      → s.buffer.is_full ≡ true
      → AllSendable s.produced
      → (d : IsDelivered s) → Sends s d.out
  full-Sends s full all d =
      let f = get_globe_frame_info true [] s.buffer s.thread.nalu_buf 0 0 in
      let (room, fits) = fetch_room (hand_over s) full d.ordered d.room in
      send_nalu-Delivers net accepting f.nalu_buf f.nalu_length f.time_stamp s.thread.sender
        (record { collected = []; frames = d.out }) (le_trans fits room) d.small
        (waiting_frame-IsSendable s full (Step-IsOrdered (Handoff.consume full) d.ordered) all)

  pub full_goes_on :
      (s : Stream)
      → s.buffer.is_full ≡ true
      → AllSendable s.produced
      → IsDelivered s
      → (b : FrameBuffer) × (th : RtpThread) × (rtp_round net true [] s.buffer s.thread
          ≡ going b th)
  full_goes_on s full all d =
      let f = get_globe_frame_info true [] s.buffer s.thread.nalu_buf 0 0 in
      let sends = full-Sends s full all d in
      (
        f.buffer,
        after_round s.thread f sends.0,
        round_goes_on net s.buffer s.thread sends.0 full d.memory sends.3,
      )

  sent-IsDelivered :
      (s : Stream)
      → s.buffer.is_full ≡ true
      → (d : IsDelivered s) (k : Sends s d.out)
      → let f = get_globe_frame_info true [] s.buffer s.thread.nalu_buf 0 0 in
        IsDelivered (taken s f.buffer (after_round s.thread f k.0))
  sent-IsDelivered s full d (s', row, out, sends, datagrams, receives, carries, numbers, small) =
      let sent_so_far = s.thread.sender.datagrams in
      record {
        ordered = Step-IsOrdered (Handoff.consume full) d.ordered;
        memory = d.memory;
        room = (fetch_room (hand_over s) full d.ordered d.room).0;
        small = small;
        numbered =
            subst (λ l. Consecutive 0 l s'.seq_num) (sym datagrams)
              (Consecutive-append 0 s.thread.sender.seq_num s'.seq_num sent_so_far row d.numbered
                numbers);
        out = d.out ++ (out ∷ []);
        received =
            ap (receive nothing) datagrams
            ∙ receive-append nothing sent_so_far row
            ∙ ap (λ r. receive r row) d.received
            ∙ receives;
        carried =
            CarriesAll-append s.consumed (waiting_frame s ∷ []) d.out (out ∷ []) d.carried
              (carries, tt);
      }

  round-IsDelivered :
      (s : Stream) (b : FrameBuffer) (th : RtpThread)
      → s.buffer.is_full ≡ true
      → rtp_round net true [] s.buffer s.thread ≡ going b th
      → AllSendable s.produced
      → IsDelivered s
      → IsDelivered (taken s b th)
  round-IsDelivered s b th full e all d =
      let sends = full-Sends s full all d in
      let goes_on = round_goes_on net s.buffer s.thread sends.0 full d.memory sends.3 in
      subst (λ (r : FrameBuffer × RtpThread). IsDelivered (taken s r.0 r.1))
        (λ i. (buffer_of b ((sym goes_on ∙ e) i), thread_of th ((sym goes_on ∙ e) i)))
        (sent-IsDelivered s full d sends)

  fresh-IsDelivered : (b : FrameBuffer) → b.is_full ≡ false → IsDelivered (fresh_stream b)
  unfolding fresh_thread fresh_sender receive
  fresh-IsDelivered b empty = record {
    ordered = Handoff.reached (hand_over (fresh_stream b)) empty refl Handoff.Reach.here;
    memory = refl;
    room = le_of_eq (sym (length-calloc nalu_buffer_length));
    small = omega arith;
    numbered = refl;
    out = [];
    received = refl;
    carried = tt;
  }

  pub reached :
      {b : FrameBuffer} {t : Stream}
      → b.is_full ≡ false
      → Reach net (fresh_stream b) t
      → AllSendable t.produced
      → IsDelivered t
  reached {b} empty here all = fresh-IsDelivered b empty
  reached empty (next {t} r (produce frame stamp e l u)) all =
      produce-IsDelivered frame stamp e l u
        (reached empty r (AllSendable-append t.produced _ all).0)
  reached empty (next {t} r (round b th full e)) all =
      round-IsDelivered t b th full e all (reached empty r all)

  next_round : (t : Stream) → AllSendable t.produced → IsDelivered t → GoesOn net t
  next_round t all d = elim (Bool-cases t.buffer.is_full) [
    | inl full ↦ inr (full_goes_on t full all d)
    | inr empty ↦ inl empty
  ]

  -- If the kernel takes each datagram whole, then from an empty buffer and a fresh RTP thread,
  -- whatever the two threads do: the frames that the camera thread has handed over, if they are
  -- NALUs of another type than 28 with 32-bit time stamps, are those that the RTP thread has taken,
  -- in order, and the one in a full buffer; a receiver after RFC 6184 has made exactly one frame of
  -- each that was taken, in order, with its time stamp: the same NALU if it has at most 1400 bytes,
  -- else its bytes behind the NALU header, with two more and with another NALU header; the
  -- datagrams have consecutive sequence numbers from 0; and if a frame waits in the buffer, the
  -- next round of the RTP thread sends it and goes on.
  pub Reach-Delivers :
      {b : FrameBuffer} {t : Stream}
      → b.is_full ≡ false
      → Reach net (fresh_stream b) t
      → AllSendable t.produced
      → StreamDelivers net t
  Reach-Delivers {t = t} empty r all =
      let d = reached empty r all in
      (d.out, d.ordered.order, d.received, d.carried, d.numbered, next_round t all d)
