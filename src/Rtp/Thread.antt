-- ===== src/Rtp/Thread.antt =====
-- `rtp_pthread` of rtp.c as a whole: its socket, its buffer, and the loop over the frames.
pub mod Releasing
use handle_wifi_camera_itop.Common.{
  ℕ, ◌==◌, if◌then◌else◌, Bool, true, false, List, [], ◌∷◌, ◌++◌, Option, some, none, replicate,
  length, length-replicate, ◌≡◌,
}
use handle_wifi_camera_itop.Public.ErrorCode.{
  ok, create_udp_socket_fail, udp_bind_addr_fail, get_globe_frame_fail, get_frame_cond_wait_fail,
}
use handle_wifi_camera_itop.NetTrans.Send.{SendReply}
use handle_wifi_camera_itop.FrameBuffer.{
  FrameBuffer, Wake, nalu_buffer_length, get_globe_frame_info,
}
use handle_wifi_camera_itop.Rtp.Packet.{payload_max_size, RtpHeader}
use handle_wifi_camera_itop.Rtp.Sender.{Sender, Round, sent, blocked, exited, send_nalu}

-- The two members of `struct_free_rtp_param`.
pub data Resource : Type 0 where
  socket_fd nalu_buf : Resource

-- The variables of the thread, and what it has acquired and released. Without memory `nalu_buf` is
-- NULL.
pub record RtpThread : Type 0 where
  pub has_memory : Bool
  pub nalu_buf : List ℕ
  pub nalu_length : ℕ
  pub time_stamp : ℕ
  pub sender : Sender
  pub acquired : List Resource
  pub released : List Resource

-- A round goes on, waits (for the condition or in `sendto`), ends the thread with a code, or does
-- what C leaves undefined. The frame buffer is as the round has left it.
pub data Next : Type 0 where
  going : FrameBuffer → RtpThread → Next
  waiting : FrameBuffer → RtpThread → Next
  ended : ℕ → RtpThread → Next
  undefined : RtpThread → Next

-- `free(NULL)` releases nothing.
abbrev pub what_is_held : Bool → List Resource
what_is_held true = socket_fd ∷ nalu_buf ∷ []
what_is_held false = socket_fd ∷ []

-- The handler that runs when the thread exits in its loop or is cancelled there.
unfoldable pub cleanup_rtp_pthread : RtpThread → RtpThread
cleanup_rtp_pthread th = record th { released = th.released ++ what_is_held th.has_memory }

-- rtp.c:138-147, 203-211, 242-250: what the sends come to.
on_sent : FrameBuffer → RtpThread → Round → Next
unfolding cleanup_rtp_pthread
on_sent b th (sent s) = going b (record th { sender = s })
on_sent b th (blocked s) = waiting b (record th { sender = s })
on_sent b th (exited code s) = ended code (cleanup_rtp_pthread (record th { sender = s }))

module _ (net : ℕ → List SendReply) where
  -- rtp.c:117-251. A `return` between pthread_cleanup_push and pthread_cleanup_pop, as behind a
  -- failed pthread_cond_wait, leaves the handler of a dead frame to pthread_exit: undefined by
  -- POSIX. So is memcpy to NULL.
  on_frame : Option ℕ → FrameBuffer → RtpThread → Next
  unfolding on_sent cleanup_rtp_pthread
  on_frame none b th = waiting b th
  on_frame (some code) b th =
      if code == ok
      then (if th.has_memory
          then on_sent b th (send_nalu net th.nalu_buf th.nalu_length th.time_stamp th.sender)
          else undefined th)
      else if code == get_frame_cond_wait_fail
      then undefined th
      else ended get_globe_frame_fail (cleanup_rtp_pthread th)

  -- One round of `while(1)`.
  unfoldable pub rtp_round : Bool → List Wake → FrameBuffer → RtpThread → Next
  unfolding on_frame
  rtp_round can_lock wakes b th =
      let r = get_globe_frame_info can_lock wakes b th.nalu_buf th.nalu_length th.time_stamp in
      on_frame r.code r.buffer (record th {
        nalu_buf = r.nalu_buf;
        nalu_length = r.nalu_length;
        time_stamp = r.time_stamp;
      })

-- What a round finds: whether the mutex can be had, the frame buffer as the camera thread has left
-- it, and how its waits end.
pub record Turn : Type 0 where
  pub can_lock : Bool
  pub buffer : FrameBuffer
  pub wakes : List Wake

-- Whether `socket`, `bind` and `calloc` succeed.
pub record Setup : Type 0 where
  pub has_socket : Bool
  pub can_bind : Bool
  pub has_memory : Bool

abbrev pub blank_header : RtpHeader
blank_header = record {
  cc = 0;
  x = 0;
  p = 0;
  version = 0;
  pt = 0;
  m = 0;
  seq = 0;
  ts = 0;
  ssrc = 0;
}

-- The variables as rtp.c:58-74 initialises them. The payload arrays of the packets are
-- PAYLOAD_MAX_SIZE zeros.
unfoldable pub fresh_sender : Sender
fresh_sender = record {
  seq_num = 0;
  next_frame = 0;
  single_rtp_packet = record { header = blank_header; payload = replicate payload_max_size 0 };
  fu_a_rtp_packet = record {
    header = blank_header;
    fu_indicator = record { type = 0; nri = 0; f = 0 };
    fu_header = record { type = 0; r = 0; e = 0; s = 0 };
    payload_data = replicate payload_max_size 0;
  };
  datagrams = [];
}

-- `calloc(n, 1)` that succeeds.
pub calloc : ℕ → List ℕ
calloc n = replicate n 0

pub length-calloc : (n : ℕ) → length (calloc n) ≡ n
unfolding calloc
length-calloc n = length-replicate n 0

unfoldable pub fresh_thread : Bool → List Resource → RtpThread
fresh_thread has_memory acquired = record {
  has_memory = has_memory;
  nalu_buf = if has_memory then calloc nalu_buffer_length else [];
  nalu_length = 0;
  time_stamp = 0;
  sender = fresh_sender;
  acquired = acquired;
  released = [];
}

module _ (net : ℕ → List SendReply) where
  -- The loop, as long as there are turns; b is the frame buffer before the first.
  unfoldable pub rtp_rounds : List Turn → FrameBuffer → RtpThread → Next
  rtp_rounds [] b th = going b th
  rtp_rounds (turn ∷ turns) b th = elim (rtp_round net turn.can_lock turn.wakes turn.buffer th) [
    | going b' th' ↦ rtp_rounds turns b' th'
    | waiting b' th' ↦ waiting b' th'
    | ended code th' ↦ ended code th'
    | undefined th' ↦ undefined th'
  ]

  unfoldable pub rtp_pthread : Setup → List Turn → FrameBuffer → Next
  unfolding rtp_rounds
  rtp_pthread k turns b =
      let looping = rtp_rounds turns b (fresh_thread k.has_memory (what_is_held k.has_memory)) in
      if k.has_socket
      then (if k.can_bind
          then looping
          else ended udp_bind_addr_fail (fresh_thread false (socket_fd ∷ [])))
      else ended create_udp_socket_fail (fresh_thread false [])
