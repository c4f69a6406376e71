-- ===== src/Rtp/Sender/Exits.antt =====
-- With what a round of sends ends the thread.
use handle_wifi_camera_itop.Common.{
  ℕ, zero, suc, ◌+◌, ◌==◌, leb, if◌then◌else◌, ◌&&◌, if_either, ◌≡◌, List, length, Option, some,
  none, arith,
}
use handle_wifi_camera_itop.Public.ErrorCode.{udp_send_data_fail}
use handle_wifi_camera_itop.NetTrans.Send.{SendReply, udp_send_data}
use handle_wifi_camera_itop.Rtp.Packet.{payload_max_size}
use handle_wifi_camera_itop.Rtp.Sender.{
  Sender, Round, sent, blocked, exited, after_send, transmit, send_single, send_fragment,
  send_slices, send_last, send_fragments, send_nalu,
}

-- The only code with which a round of sends exits.
abbrev pub Fails : Round → Type 0
Fails (sent s) = Unit
Fails (blocked s) = Unit
Fails (exited code s) = code ≡ udp_send_data_fail

after_send-Fails :
    (s : Sender) (chunks : List (List ℕ)) (code : Option ℕ) → Fails (after_send s chunks code)
unfolding after_send
after_send-Fails s chunks none = tt
after_send-Fails s chunks (some code) = ground arith

module _ (net : ℕ → List SendReply) where
  transmit-Fails : (s : Sender) (bytes : List ℕ) (len : ℕ) → Fails (transmit net s bytes len)
  unfolding transmit
  transmit-Fails s bytes len =
      let out = udp_send_data (net (length s.datagrams)) bytes len in
      after_send-Fails s out.chunks out.code

  send_fragment-Fails :
      (buf : List ℕ) (ts start last len : ℕ) (s : Sender)
      → Fails (send_fragment net buf ts start last len s)
  unfolding send_fragment
  send_fragment-Fails buf ts start last len s = transmit-Fails _ _ _

  send_slices-Fails :
      (buf : List ℕ) (ts ll sc left i : ℕ) (s : Sender)
      → Fails (send_slices net buf ts ll sc left i s)
  unfolding send_slices
  send_slices-Fails buf ts ll sc zero i s = tt
  send_slices-Fails buf ts ll sc (suc left) i s =
      let start : ℕ = if i == 1 then 1 else 0 in
      let last : ℕ = if (ll == 0) && (sc == i) then 1 else 0 in
      split (send_fragment net buf ts start last payload_max_size s)
        (send_fragment-Fails buf ts start last payload_max_size s)
        (λ s'. send_slices-Fails buf ts ll sc left (i + 1) s')
    where
      split :
          (r : Round)
          → Fails r
          → ((s' : Sender) → Fails (send_slices net buf ts ll sc left (i + 1) s'))
          → Fails (elim r as (λ _. Round) [
            | sent s' ↦ send_slices net buf ts ll sc left (i + 1) s'
            | blocked s' ↦ blocked s'
            | exited code s' ↦ exited code s'
          ])
      split (sent s') h ih = ih s'
      split (blocked s') h ih = tt
      split (exited code s') h ih = h

  send_last-Fails :
      (buf : List ℕ) (ts ll : ℕ) (r : Round) → Fails r → Fails (send_last net buf ts ll r)
  unfolding send_last
  send_last-Fails buf ts ll (sent s) h =
      if_either Fails (ll == 0) _ _ tt (send_fragment-Fails buf ts 0 1 ll s)
  send_last-Fails buf ts ll (blocked s) h = h
  send_last-Fails buf ts ll (exited code s) h = h

  pub send_nalu-Fails :
      (buf : List ℕ) (len ts : ℕ) (s : Sender) → Fails (send_nalu net buf len ts s)
  unfolding send_nalu send_single send_fragments
  send_nalu-Fails buf len ts s =
      if_either Fails (leb len payload_max_size) _ _ (transmit-Fails _ _ _) (
        send_last-Fails buf ts _ _ (send_slices-Fails buf ts _ _ _ 1 (record s { next_frame = 0 })))
