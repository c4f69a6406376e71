-- ===== src/NetTrans/Packets/Echoing.antt =====
-- Which bytes have gone out after packets sent one after another.
use mathlib.Core.Option.{some-injective}
use handle_wifi_camera_itop.Common.{
  ℕ, ◌+◌, ◌-◌, ◌==◌, ==→eq, if◌then◌else◌, ◌≡◌, ◌≢◌, ◌⊎◌, inl, inr, sym, ap, ap₂, ◌∙◌, Bool-cases,
  List, ◌++◌, append_assoc, Option, some, none, arith, take, drop, take-add,
}
use handle_wifi_camera_itop.Public.ErrorCode.{ok}
use handle_wifi_camera_itop.NetTrans.Send.{SendReply, tcp_send_data}
use handle_wifi_camera_itop.NetTrans.Send.Delivery.{tcp_send_data-Delivers}
use handle_wifi_camera_itop.NetTrans.Packets.{Echo, answered, send_packet, and_then}

-- OK and all the bytes have gone out; or another end, and a beginning of them has.
abbrev pub Echoed : List ℕ → Echo → Type 0
Echoed all e =
    ((e.code ≡ some ok) × (e.sent ≡ all))
    ⊎ ((e.code ≢ some ok) × ((rest : List ℕ) × (e.sent ++ rest ≡ all)))

echo_code : ℕ → Option ℕ → Option ℕ
echo_code fail code = elim code [
  | none ↦ none
  | some ret ↦ if ret == ok then some ok else some fail
]

echo_code_fails :
    (fail : ℕ) → fail ≢ ok → (code : Option ℕ) → code ≢ some ok → echo_code fail code ≢ some ok
unfolding echo_code
echo_code_fails fail f none h = h
echo_code_fails fail f (some ret) h = elim (Bool-cases (ret == ok)) [
  | inl good ↦ absurd (h (ap some (==→eq ret ok good)))
  | inr bad ↦ rw bad (λ e. f (some-injective _ _ e))
]

pub send_packet-Echoed :
    (fail : ℕ)
    → fail ≢ ok
    → (replies : List SendReply) (packet : List ℕ) (size : ℕ)
    → Echoed (take size packet) (send_packet fail replies packet size)
unfolding send_packet echo_code
send_packet-Echoed fail f replies packet size =
    let d = tcp_send_data-Delivers replies packet size in
    let total : d.count + (size - d.count) ≡ size = omega (arith, d.bounded) in
    elim d.how_much [
      | inl (e, c) ↦ inl (ap (echo_code fail) e, d.bytes ∙ ap (λ k. take k packet) c)
      | inr (e, c) ↦ inr (
        echo_code_fails fail f (tcp_send_data replies packet size).code e,
        (
          take (size - d.count) (drop d.count packet),
          ap (λ l. l ++ take (size - d.count) (drop d.count packet)) d.bytes
              ∙ take-add d.count (size - d.count) packet
              ∙ ap (λ k. take k packet) total,
        ),
      )
    ]

pub and_then-Echoed :
    (fail : ℕ) (echo rest : Echo) (here others : List ℕ)
    → fail ≢ ok
    → Echoed here echo
    → Echoed others rest
    → Echoed (here ++ others) (and_then fail echo rest)
and_then-Echoed fail echo rest here others f (inl (e, h)) (inl (e', h')) =
    rw e (inl (e', ap₂ (λ (a b : List ℕ). a ++ b) h h'))
and_then-Echoed fail echo rest here others f (inl (e, h)) (inr (e', (more, h'))) =
    rw e (
      inr (e', (more, append_assoc echo.sent rest.sent more ∙ ap₂ (λ (a b : List ℕ). a ++ b) h h')))
and_then-Echoed fail echo rest here others f (inr (e, (more, h))) k = stopped echo.code e
  where
    gone : echo.sent ++ (more ++ others) ≡ here ++ others
    gone = sym (append_assoc echo.sent more others) ∙ ap (λ l. l ++ others) h

    stopped :
        (code : Option ℕ)
        → code ≢ some ok
        → Echoed (here ++ others) (elim code [
          | none ↦ answered none echo.sent
          | some ret ↦
              if ret == ok
              then answered rest.code (echo.sent ++ rest.sent)
              else answered (some fail) echo.sent
        ])
    stopped none n = inr (n, (more ++ others, gone))
    stopped (some ret) n = elim (Bool-cases (ret == ok)) [
      | inl good ↦ absurd (n (ap some (==→eq ret ok good)))
      | inr bad ↦ rw bad (inr (λ q. f (some-injective _ _ q), (more ++ others, gone)))
    ]
