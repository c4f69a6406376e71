-- ===== src/Rtp/Thread/Releasing.antt =====
-- What the RTP thread gives back.
use handle_wifi_camera_itop.Common.{
  ℕ, ◌==◌, if_either, ◌≡◌, ◌≢◌, ◌⊎◌, inl, inr, refl, Bool, List, [], ◌∷◌, Option, some, none, arith,
}
use handle_wifi_camera_itop.Public.ErrorCode.{ok, get_frame_cond_wait_fail, udp_bind_addr_fail}
use handle_wifi_camera_itop.NetTrans.Send.{SendReply}
use handle_wifi_camera_itop.FrameBuffer.{FrameBuffer, Wake, get_globe_frame_info}
use handle_wifi_camera_itop.Rtp.Sender.{Round, sent, blocked, exited, send_nalu}
use handle_wifi_camera_itop.Rtp.Sender.Exits.{Fails, send_nalu-Fails}
use handle_wifi_camera_itop.Rtp.Thread.{
  socket_fd, RtpThread, Next, going, waiting, ended, undefined, what_is_held, cleanup_rtp_pthread,
  on_sent, on_frame, rtp_round, Turn, Setup, fresh_thread, rtp_rounds, rtp_pthread,
}

-- Nothing has been given back, and the handler would give everything back once.
abbrev pub Holding : RtpThread → Type 0
Holding th = (th.released ≡ []) × ((cleanup_rtp_pthread th).released ≡ th.acquired)

-- A thread that has ended has given back what it had acquired, once each; but when `bind` failed, the
-- socket is still open. It never ends with OK.
abbrev pub GivesBack : Next → Type 0
GivesBack (going b th) = Holding th
GivesBack (waiting b th) = Holding th
GivesBack (undefined th) = Holding th
GivesBack (ended code th) =
    (code ≢ ok)
    × ((th.released ≡ th.acquired)
        ⊎ ((code ≡ udp_bind_addr_fail) × (th.acquired ≡ socket_fd ∷ []) × (th.released ≡ [])))

on_sent-GivesBack :
    (b : FrameBuffer) (th : RtpThread) (r : Round)
    → Fails r
    → Holding th
    → GivesBack (on_sent b th r)
unfolding on_sent cleanup_rtp_pthread
on_sent-GivesBack b th (sent s) f h = h
on_sent-GivesBack b th (blocked s) f h = h
on_sent-GivesBack b th (exited code s) f (e, h) = (λ z. omega (arith, f, z), inl h)

module _ (net : ℕ → List SendReply) where
  on_frame-GivesBack :
      (code : Option ℕ) (b : FrameBuffer) (th : RtpThread)
      → Holding th
      → GivesBack (on_frame net code b th)
  unfolding on_frame cleanup_rtp_pthread
  on_frame-GivesBack none b th h = h
  on_frame-GivesBack (some code) b th h =
      if_either GivesBack (code == ok) _ _
        (if_either GivesBack th.has_memory _ _
          (on_sent-GivesBack b th (send_nalu net th.nalu_buf th.nalu_length th.time_stamp th.sender)
            (send_nalu-Fails net th.nalu_buf th.nalu_length th.time_stamp th.sender) h)
          h)
        (if_either GivesBack (code == get_frame_cond_wait_fail) _ _ h ((λ z. omega arith), inl h.1))

  rtp_round-GivesBack :
      (can_lock : Bool) (wakes : List Wake) (b : FrameBuffer) (th : RtpThread)
      → Holding th
      → GivesBack (rtp_round net can_lock wakes b th)
  unfolding rtp_round cleanup_rtp_pthread
  rtp_round-GivesBack can_lock wakes b th h =
      let r = get_globe_frame_info can_lock wakes b th.nalu_buf th.nalu_length th.time_stamp in
      on_frame-GivesBack r.code r.buffer
        (record th {
          nalu_buf = r.nalu_buf;
          nalu_length = r.nalu_length;
          time_stamp = r.time_stamp;
        })
        h

  rtp_rounds-GivesBack :
      (turns : List Turn) (b : FrameBuffer) (th : RtpThread)
      → Holding th
      → GivesBack (rtp_rounds net turns b th)
  unfolding rtp_rounds
  rtp_rounds-GivesBack [] b th h = h
  rtp_rounds-GivesBack (turn ∷ turns) b th h =
      after (rtp_round net turn.can_lock turn.wakes turn.buffer th)
        (rtp_round-GivesBack turn.can_lock turn.wakes turn.buffer th h)
        (λ b' th' h'. rtp_rounds-GivesBack turns b' th' h')
    where
      after :
          (r : Next)
          → GivesBack r
          → ((b' : FrameBuffer) (th' : RtpThread)
              → Holding th'
              → GivesBack (rtp_rounds net turns b' th'))
          → GivesBack (elim r as (λ _. Next) [
            | going b' th' ↦ rtp_rounds net turns b' th'
            | waiting b' th' ↦ waiting b' th'
            | ended code th' ↦ ended code th'
            | undefined th' ↦ undefined th'
          ])
      after (going b' th') h ih = ih b' th' h
      after (waiting b' th') h ih = h
      after (ended code th') h ih = h
      after (undefined th') h ih = h

  -- Whatever the kernel answers and however the frame buffer is found: as long as `rtp_pthread`
  -- goes on or waits it has released nothing, and its clean-up handler, which a cancellation runs,
  -- gives back its socket and its buffer once each; when it has ended, with a code other than OK,
  -- it has given back once each what it had acquired, but for the socket when `bind` failed.
  pub rtp_pthread-GivesBack :
      (k : Setup) (turns : List Turn) (b : FrameBuffer) → GivesBack (rtp_pthread net k turns b)
  unfolding rtp_pthread fresh_thread cleanup_rtp_pthread
  rtp_pthread-GivesBack k turns b =
      if_either GivesBack k.has_socket _ _
        (if_either GivesBack k.can_bind _ _
          (rtp_rounds-GivesBack turns b (fresh_thread k.has_memory (what_is_held k.has_memory))
            (refl, refl))
          ((λ z. omega arith), inr (refl, refl, refl)))
        ((λ z. omega arith), inl refl)
