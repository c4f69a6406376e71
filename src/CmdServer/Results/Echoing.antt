-- ===== src/CmdServer/Results/Echoing.antt =====
-- Which bytes the two `check_…_results` send for the messages of their queues.
use mathlib.Core.Option.{some-injective}
use handle_wifi_camera_itop.Common.{ℕ, ◌≢◌, inl, inr, refl, List, [], ◌∷◌, ◌++◌, arith, take}
use handle_wifi_camera_itop.Public.ErrorCode.{
  ok, tcp_send_data_fail, send_take_photo_cmd_echo_fail, send_send_photo_cmd_echo_fail,
}
use handle_wifi_camera_itop.NetTrans.Send.{SendReply}
use handle_wifi_camera_itop.MessageQueue.{
  MsgReply, received, no_message, failed, TakePhotoMsg, SendPhotoMsg,
}
use handle_wifi_camera_itop.NetTrans.Packets.{Echo, first_of, others_of}
use handle_wifi_camera_itop.NetTrans.Packets.Echoing.{Echoed, and_then-Echoed, send_packet-Echoed}
use handle_wifi_camera_itop.CmdServer.Commands.{
  photo_snapshot_echo, photo_send, sizeof_photo_snapshot_echo, sizeof_photo_send,
  send_take_photo_cmd_echo, send_send_photo_cmd_echo,
}
use handle_wifi_camera_itop.CmdServer.Results.{
  check_results, take_photo_echo, send_photo_echo, check_take_photo_results,
  check_send_photo_results,
}

-- The messages that `msgrcv` gives before it gives none.
abbrev pub finished : {A : Type 0} → List (MsgReply A) → List A
finished [] = []
finished (received m ∷ replies) = m ∷ finished replies
finished (no_message ∷ replies) = []
finished (failed ∷ replies) = []

abbrev pub all_bytes : {A : Type 0} → (A → List ℕ) → List A → List ℕ
all_bytes bytes [] = []
all_bytes bytes (m ∷ ms) = bytes m ++ all_bytes bytes ms

module _ {A : Type 0} (fail : ℕ) (fail_ne : fail ≢ ok) (send_cmd_echo : List SendReply → A → Echo)
    (bytes : A → List ℕ)
    (echoes : (replies : List SendReply) (m : A) → Echoed (bytes m) (send_cmd_echo replies m)) where
  check_results-Echoed :
      (replies : List (MsgReply A)) (sends : List (List SendReply)) (msg : A)
      → Echoed
          (all_bytes bytes (finished replies))
          (check_results fail send_cmd_echo replies sends msg)
  unfolding check_results
  check_results-Echoed [] sends msg = inr (λ h. cc, ([], refl))
  check_results-Echoed (received m ∷ replies) sends msg =
      and_then-Echoed fail (send_cmd_echo (first_of sends) m) _ (bytes m) _ fail_ne
        (echoes (first_of sends) m) (check_results-Echoed replies (others_of sends) m)
  check_results-Echoed (no_message ∷ replies) sends msg = inl (refl, refl)
  check_results-Echoed (failed ∷ replies) sends msg =
      inr (λ h. absurd (omega (arith, some-injective _ _ h)), ([], refl))

-- The packets for a finished photograph and for a sent one.
abbrev pub photo_bytes : TakePhotoMsg → List ℕ
photo_bytes m =
    take sizeof_photo_snapshot_echo (photo_snapshot_echo m.photo_name m.succeed m.photo_size)

abbrev pub sent_bytes : SendPhotoMsg → List ℕ
sent_bytes m = take sizeof_photo_send (photo_send m.photo_path_name m.succeed m.photo_size)

-- Both functions report the messages of the queue in order and each once: all of them if they return
-- OK, and otherwise a beginning of the bytes.
pub check_results-all :
    (taken : List (MsgReply TakePhotoMsg)) (sent : List (MsgReply SendPhotoMsg))
    (sends : List (List SendReply))
    → Echoed (all_bytes photo_bytes (finished taken)) (check_take_photo_results taken sends)
      × Echoed (all_bytes sent_bytes (finished sent)) (check_send_photo_results sent sends)
unfolding check_take_photo_results check_send_photo_results send_take_photo_cmd_echo
    send_send_photo_cmd_echo
check_results-all taken sent sends = (
  check_results-Echoed send_take_photo_cmd_echo_fail (λ h. omega arith) take_photo_echo photo_bytes
      (λ replies m.
        send_packet-Echoed tcp_send_data_fail (λ h. omega arith) replies _
          sizeof_photo_snapshot_echo)
      taken sends _,
  check_results-Echoed send_send_photo_cmd_echo_fail (λ h. omega arith) send_photo_echo sent_bytes
      (λ replies m.
        send_packet-Echoed tcp_send_data_fail (λ h. omega arith) replies _ sizeof_photo_send)
      sent sends _,
)
