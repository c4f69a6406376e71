-- ===== src/NetTrans/Packets.antt =====
-- Packets sent one after another by `tcp_send_data`: what the callers of net_trans.c have in common.
pub mod Echoing
use mathlib.Core.List.{flatten}
use handle_wifi_camera_itop.Common.{ℕ, ◌==◌, if◌then◌else◌, List, [], ◌∷◌, ◌++◌, Option, some, none}
use handle_wifi_camera_itop.Public.ErrorCode.{ok}
use handle_wifi_camera_itop.NetTrans.Send.{SendReply, tcp_send_data}

-- What an answer comes to: the code (`none` while a call waits), and the bytes that went out.
pub record Echo : Type 0 where
  pub code : Option ℕ
  pub sent : List ℕ

abbrev pub answered : Option ℕ → List ℕ → Echo
answered code sent = record { code = code; sent = sent }

-- The kernel's answers to the next `tcp_send_data`, and to those behind it.
abbrev pub first_of : List (List SendReply) → List SendReply
first_of [] = []
first_of (r ∷ _) = r

abbrev pub others_of : List (List SendReply) → List (List SendReply)
others_of [] = []
others_of (_ ∷ rs) = rs

-- `tcp_send_data` of a packet of `size` bytes; `fail` is what the caller returns if it fails.
unfoldable pub send_packet : ℕ → List SendReply → List ℕ → ℕ → Echo
send_packet fail replies packet size =
    let out = tcp_send_data replies packet size in
    record {
      code = elim out.code [ none ↦ none | some ret ↦ if ret == ok then some ok else some fail ];
      sent = flatten out.chunks;
    }

-- After an answer: the caller goes on only if it went out.
abbrev pub and_then : ℕ → Echo → Echo → Echo
and_then echo_fail echo rest = elim echo.code [
  | none ↦ answered none echo.sent
  | some ret ↦
      if ret == ok
      then answered rest.code (echo.sent ++ rest.sent)
      else answered (some echo_fail) echo.sent
]
