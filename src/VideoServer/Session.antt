-- ===== src/VideoServer/Session.antt =====
-- The loop over the requests of one connection in `video_server` (video_server.c:133-424).
pub mod Protocol
pub mod Answers
pub mod Accepting
pub mod Ending
use Prim.Native.Nat.{bit_and, bit_or}
use handle_wifi_camera_itop.Common.{
  ℕ, ◌+◌, ◌-◌, ◌==◌, ◌||◌, not, if◌then◌else◌, Bool, true, false, List, [], ◌∷◌, ◌++◌, Option, some,
  none, length, take, drop, Text, codes, strstr,
}
use handle_wifi_camera_itop.Public.ErrorCode.{ok, create_rtp_thread_fail, recv_rtsp_command_fail}
use handle_wifi_camera_itop.NetTrans.Send.{SendReply, tcp_send_data}
use handle_wifi_camera_itop.Rtsp.Search.{Regex, get_port}
use handle_wifi_camera_itop.Rtsp.Handlers.{
  Clock, Handled, handle_options, handle_describe, handle_setup, handle_play, handle_teardown,
}

-- RTSP_CMD_BIT_MASK_* of rtsp.h.
abbrev pub mask_options : ℕ
mask_options = 0b00000001

abbrev pub mask_describe : ℕ
mask_describe = 0b00000010

abbrev pub mask_setup : ℕ
mask_setup = 0b00000100

abbrev pub mask_play : ℕ
mask_play = 0b00001000

abbrev pub mask_teardown : ℕ
mask_teardown = 0b00010000

-- The state of a connection: `video` and `rtp` say which threads run, `joined` counts the
-- `pthread_join` calls on each (video first), and `replies` are the answers sent.
pub record Session : Type 0 where
  pub rtsp_bit_mask : ℕ
  pub client_port : ℕ
  pub video : Bool
  pub rtp : Bool
  pub joined_video : ℕ
  pub joined_rtp : ℕ
  pub replies : List Text

-- What the outside world does in one round: the request that `recv` gives (`none` for 0 or -1), the
-- kernel's answers to the sending of the reply, and the code of `pthread_create`.
pub record World : Type 0 where
  pub request : Option Text
  pub sending : List SendReply
  pub create_rtp : ℕ
  pub clock : Clock

-- The next round of the inner loop; `break`; `return` from video_server; or still sending.
pub data Next : Type 0 where
  continue : Session → Next
  break : Session → Next
  return : ℕ → Session → Next
  sending : Session → Next

-- pthread_cancel and pthread_join.
abbrev pub stop_video : Session → Session
stop_video s = record s { video = false; joined_video = s.joined_video + 1 }

abbrev pub stop_rtp : Session → Session
stop_rtp s = record s { rtp = false; joined_rtp = s.joined_rtp + 1 }

-- The requests are told apart by the first of these words that occurs anywhere in the text.
pub data Method : Type 0 where
  options describe setup play teardown unknown : Method

occurs : Text → Text → Bool
occurs text word = elim (strstr text word) [ none ↦ false | some _ ↦ true ]

pub method_of : Text → Method
unfolding occurs
method_of text =
    if occurs text (codes "OPTIONS")
    then options
    else (if occurs text (codes "DESCRIBE")
        then describe
        else (if occurs text (codes "SETUP")
            then setup
            else (if occurs text (codes "PLAY")
                then play
                else (if occurs text (codes "TEARDOWN ") then teardown else unknown))))

-- The guards at the head of the branches.
abbrev pub out_of_turn : ℕ → ℕ → ℕ → Bool
out_of_turn own before mask = (bit_and mask own == own) || not (mask == before)

abbrev pub playing : Session → Bool
playing s = bit_and s.rtsp_bit_mask mask_play == mask_play

-- A request out of turn, or of no known method: both threads are stopped, RTP if PLAY is set.
abbrev pub refuse : Session → Next
refuse s = if playing s then break (stop_video (stop_rtp s)) else break (stop_video s)

-- SPS and PPS of the stream, with their lengths.
pub record Media : Type 0 where
  pub sps : List ℕ
  pub length_of_sps : ℕ
  pub pps : List ℕ
  pub length_of_pps : ℕ

-- A handler has made its answer: it is sent, and the branch goes on with `done`; if the handler or
-- `tcp_send_data` fails, the threads are stopped by `cleanup` and the connection is given up. A handler
-- that has gone behind the end of an array is taken for one that has not.
pub answer : World → Handled → (Session → Session) → (Session → Next) → Session → Next
answer w h cleanup done s =
    if h.code == ok
    then elim (tcp_send_data w.sending h.send_buf (length h.send_buf)).code [
      | none ↦ sending s
      | some ret ↦
          if ret == ok
          then done (record s { replies = s.replies ++ (h.send_buf ∷ []) })
          else break (cleanup s)
    ]
    else break (cleanup s)

abbrev advance : ℕ → Session → Next
advance mask s = continue (record s { rtsp_bit_mask = bit_or s.rtsp_bit_mask mask })

module _ (regex : Regex) (media : Media) (session_id : Text) where
  on_options : World → Text → Session → Next
  unfolding answer
  on_options w recv_buf s =
      if out_of_turn mask_options 0 s.rtsp_bit_mask
      then refuse s
      else answer w (handle_options [] recv_buf) stop_video (advance mask_options) s

  on_describe : World → Text → Session → Next
  unfolding answer
  on_describe w recv_buf s =
      if out_of_turn mask_describe mask_options s.rtsp_bit_mask
      then refuse s
      else answer w
          (handle_describe regex w.clock [] recv_buf media.sps media.length_of_sps media.pps
            media.length_of_pps)
          stop_video (advance mask_describe) s

  on_setup : World → Text → Session → Next
  unfolding answer
  on_setup w recv_buf s =
      let (ret, port) = get_port recv_buf in
      if out_of_turn mask_setup (mask_options + mask_describe) s.rtsp_bit_mask
      then refuse s
      else elim port [
        | none ↦ break (stop_video s)
        | some client_port ↦
            answer w (handle_setup w.clock [] recv_buf session_id) stop_video (advance mask_setup)
              (record s { client_port = client_port })
      ]

  -- video_server.c:332-355: the RTP thread is started after the answer has been sent.
  start_rtp : World → Session → Next
  start_rtp w s =
      if w.create_rtp == ok
      then advance mask_play (record s { rtp = true })
      else return create_rtp_thread_fail (stop_video s)

  on_play : World → Text → Session → Next
  unfolding answer start_rtp
  on_play w recv_buf s =
      if out_of_turn mask_play (mask_options + mask_describe + mask_setup) s.rtsp_bit_mask
      then refuse s
      else answer w (handle_play regex w.clock [] recv_buf session_id) stop_video (start_rtp w) s

  abbrev stop_both : Session → Session
  stop_both s = stop_rtp (stop_video s)

  on_teardown : World → Text → Session → Next
  unfolding answer
  on_teardown w recv_buf s =
      if out_of_turn mask_teardown (mask_options + mask_describe + mask_setup + mask_play)
        s.rtsp_bit_mask
      then refuse s
      else answer w (handle_teardown [] recv_buf session_id) stop_both
          (λ t.
            break (record (stop_both t) { rtsp_bit_mask = bit_or t.rtsp_bit_mask mask_teardown }))
          s

  -- The chain of `else if` on the method.
  dispatch : Method → World → Text → Session → Next
  unfolding on_options on_describe on_setup on_play on_teardown
  dispatch options w recv_buf s = on_options w recv_buf s
  dispatch describe w recv_buf s = on_describe w recv_buf s
  dispatch setup w recv_buf s = on_setup w recv_buf s
  dispatch play w recv_buf s = on_play w recv_buf s
  dispatch teardown w recv_buf s = on_teardown w recv_buf s
  dispatch unknown w recv_buf s = refuse s

  -- One round. A `recv` of 0 or -1 ends the whole server.
  pub round : World → Session → Next
  unfolding dispatch
  round w s = elim w.request [
    | none ↦ return recv_rtsp_command_fail (stop_video s)
    | some recv_buf ↦ dispatch (method_of recv_buf) w recv_buf s
  ]

  -- `while(1)` over the rounds of a connection; after the last it waits for the next request.
  pub rounds : List World → Session → Next
  rounds [] s = continue s
  rounds (w ∷ ws) s = elim (round w s) [
    | continue s' ↦ rounds ws s'
    | break s' ↦ break s'
    | return code s' ↦ return code s'
    | sending s' ↦ sending s'
  ]
