-- ===== src/PhotoSend/Requests/Answering.antt =====
-- The results of `photo_trans` against the requests.
use handle_wifi_camera_itop.Common.{
  ℕ, suc, ◌≡◌, ◌≢◌, ◌⊎◌, ◌<◌, inl, inr, refl, ap, ap₂, ◌==◌, ◌&&◌, Bool, false, List, [], ◌∷◌, ◌++◌,
  map, length, take, some, none, arith,
}
use handle_wifi_camera_itop.Public.ErrorCode.{ok}
use handle_wifi_camera_itop.MessageQueue.{SendPhotoMsg, MsgReply, received, no_message, failed}
use handle_wifi_camera_itop.NetTrans.Packets.{Echo}
use handle_wifi_camera_itop.NetTrans.Sockets.{Kernel, init_tcp_client_socket}
use handle_wifi_camera_itop.SharedAddress.{Mapping}
use handle_wifi_camera_itop.PhotoSend.Requests.{
  Round, Ending, continue, waiting, fault, exited, Trans, result_msg, no_photo_msg, send_requested,
  photo_trans_socket_port, return_trans_photo_result_to_message_queue, give_result, send_on,
  connect_and_send, trans_photo, photo_round, photo_rounds,
}

-- The request of a round.
abbrev pub asked : Round → SendPhotoMsg
asked w = elim w.request [ received m ↦ m | no_message ↦ no_photo_msg | failed ↦ no_photo_msg ]

abbrev pub was_sent : Echo → Bool
was_sent e = elim e.code [ none ↦ false | some ret ↦ ret == ok ]

abbrev connected : Kernel → ℕ → Bool
connected k addr = elim k.new_socket [
  | none ↦ false
  | some fd ↦ k.do_connect fd addr photo_trans_socket_port
]

-- The photograph of a round has gone out whole.
abbrev pub delivered : Round → SendPhotoMsg → Bool
delivered w msg =
    w.accessible && (connected w.kernel w.client_addr && was_sent (send_requested w msg).echo)

-- The result that a round owes.
abbrev pub answer : Round → SendPhotoMsg
answer w = result_msg (asked w).photo_path_name (delivered w (asked w))

abbrev Gives : Round → SendPhotoMsg → Trans → Type 0
Gives w msg r =
    ((r.ending ≡ continue) × (r.queued ≡ result_msg msg.photo_path_name (delivered w msg) ∷ []))
    ⊎ ((r.ending ≢ continue) × (r.queued ≡ []))

trans_photo-Gives :
    (m : Mapping) (w : Round) (msg : SendPhotoMsg) → Gives w msg (trans_photo m w msg)
unfolding trans_photo connect_and_send send_on give_result
    return_trans_photo_result_to_message_queue init_tcp_client_socket
trans_photo-Gives m w msg = ground arith

-- What one round gives.
abbrev pub Answered : Round → Trans → Type 0
Answered w r =
    ((r.ending ≡ continue) × (w.request ≡ received (asked w)) × (r.queued ≡ answer w ∷ []))
    ⊎ ((r.ending ≢ continue) × (r.queued ≡ []))

photo_round-Answered : (m : Mapping) (w : Round) → Answered w (photo_round m w)
unfolding photo_round
photo_round-Answered m w = ends w.request
  where
    ends :
        (q : MsgReply SendPhotoMsg)
        → Answered (record w { request = q }) (photo_round m (record w { request = q }))
    ends (received msg) = elim (trans_photo-Gives m (record w { request = received msg }) msg) [
      | inl (e, q) ↦ inl (e, refl, q)
      | inr h ↦ inr h
    ]
    ends no_message = ground arith
    ends failed = ground arith

-- The first k rounds were answered, in order; either they are all, or the loop has ended in the next.
abbrev pub IsAnswered : List Round → Trans → Type 0
IsAnswered ws r =
    (k : ℕ) × (r.queued ≡ map answer (take k ws))
    × (map (λ w. w.request) (take k ws) ≡ map (λ w. received (asked w)) (take k ws))
    × (((r.ending ≡ continue) × (k ≡ length ws)) ⊎ ((r.ending ≢ continue) × (k < length ws)))

-- A further round before an answered run, as `photo_rounds` joins them.
unfoldable pub joined : (r rest : Trans) → Trans
joined r rest = elim r.ending [
  | continue ↦ record {
    ending = rest.ending;
    queued = r.queued ++ rest.queued;
    calls = r.calls ++ rest.calls;
  }
  | waiting ↦ r
  | fault ↦ r
  | exited _ ↦ r
]

pub joined_on :
    (r rest : Trans)
    → r.ending ≡ continue
    → joined r rest ≡ record {
      ending = rest.ending;
      queued = r.queued ++ rest.queued;
      calls = r.calls ++ rest.calls;
    }
unfolding joined
joined_on r rest e = rw e refl

pub joined_off : (r rest : Trans) → r.ending ≢ continue → joined r rest ≡ r
unfolding joined
joined_off r rest h = ends r.ending h
  where
    ends :
        (x : Ending)
        → x ≢ continue
        → elim x as (λ _. Trans) [
          | continue ↦ record {
            ending = rest.ending;
            queued = r.queued ++ rest.queued;
            calls = r.calls ++ rest.calls;
          }
          | waiting ↦ r
          | fault ↦ r
          | exited _ ↦ r
        ]
          ≡ r
    ends continue e = absurd (e refl)
    ends waiting e = refl
    ends fault e = refl
    ends (exited c) e = refl

joined-IsAnswered :
    (w : Round) (ws : List Round) (r rest : Trans)
    → Answered w r
    → IsAnswered ws rest
    → IsAnswered (w ∷ ws) (joined r rest)
unfolding joined
joined-IsAnswered w ws r rest (inl (e, g, q)) (k, qs, gs, h) = rw e (
  suc k,
  ap₂ (λ (x y : List SendPhotoMsg). x ++ y) q qs,
  ap₂ (λ x y. x ∷ y) g gs,
  elim h [ inl (c, n) ↦ inl (c, ap suc n) | inr (c, n) ↦ inr (c, omega (arith, n)) ],
)
joined-IsAnswered w ws r rest (inr (e, q)) h = stops r.ending refl
  where
    stops : (x : Ending) → r.ending ≡ x → IsAnswered (w ∷ ws) (joined r rest)
    stops continue x = absurd (e x)
    stops waiting x = rw x (0, q, refl, inr ((λ h. cc), omega arith))
    stops fault x = rw x (0, q, refl, inr ((λ h. cc), omega arith))
    stops (exited c) x = rw x (0, q, refl, inr ((λ h. cc), omega arith))

-- For all rounds of `photo_trans`, whatever the kernel and the mapping: each request that is taken
-- gets one result, in the order of the requests, with its path and with `succeed` exactly if the
-- file was there, the connection was made and `send_photo_data` returned OK; only the request on
-- which the loop ends or waits has none.
pub photo_rounds-IsAnswered : (m : Mapping) (ws : List Round) → IsAnswered ws (photo_rounds m ws)
unfolding photo_rounds joined
photo_rounds-IsAnswered m [] = (0, refl, refl, inl (refl, refl))
photo_rounds-IsAnswered m (w ∷ ws) =
    joined-IsAnswered w ws (photo_round m w) (photo_rounds m ws) (photo_round-Answered m w)
      (photo_rounds-IsAnswered m ws)
