-- ===== src/PhotoSend/Requests/Closing.antt =====
-- The sockets of `photo_trans`.
use mathlib.Core.Path.{subst}
use handle_wifi_camera_itop.Common.{
  ℕ, suc, ◌≡◌, ◌⊎◌, ◌∙◌, inl, inr, refl, sym, ◌+◌, ◌==◌, if◌then◌else◌, Bool-cases, List, [], ◌∷◌,
  ◌++◌, arith,
}
use handle_wifi_camera_itop.NetTrans.Sockets.{
  Call, socket, reuse_addr, nodelay, bind, listen, connect, close, init_tcp_client_socket,
}
use handle_wifi_camera_itop.NetTrans.Sockets.Descriptors.{closes}
use handle_wifi_camera_itop.SharedAddress.{Mapping}
use handle_wifi_camera_itop.PhotoSend.Requests.{
  Round, Ending, continue, waiting, fault, exited, Trans,
  return_trans_photo_result_to_message_queue, give_result, send_on, connect_and_send, trans_photo,
  photo_round, photo_rounds,
}
use handle_wifi_camera_itop.PhotoSend.Requests.Answering.{joined, joined_on, joined_off}

-- How often the calls connect the descriptor.
abbrev pub connects : ℕ → List Call → ℕ
connects fd [] = 0
connects fd (connect other _ _ ∷ calls) =
    let rest = connects fd calls in if fd == other then suc rest else rest
connects fd (_ ∷ calls) = connects fd calls

-- What is connected has been closed, or the run waits on one open socket, if it is `fd`.
abbrev pub ClosesAll : ℕ → Trans → Type 0
ClosesAll fd r =
    (connects fd r.calls ≡ closes fd r.calls)
    ⊎ ((r.ending ≡ waiting) × (connects fd r.calls ≡ suc (closes fd r.calls)))

connects-append :
    (fd : ℕ) (cs ds : List Call) → connects fd (cs ++ ds) ≡ connects fd cs + connects fd ds
connects-append fd [] ds = omega arith
connects-append fd (socket ∷ cs) ds = connects-append fd cs ds
connects-append fd (reuse_addr _ ∷ cs) ds = connects-append fd cs ds
connects-append fd (nodelay _ ∷ cs) ds = connects-append fd cs ds
connects-append fd (bind _ _ ∷ cs) ds = connects-append fd cs ds
connects-append fd (listen _ _ ∷ cs) ds = connects-append fd cs ds
connects-append fd (close _ ∷ cs) ds = connects-append fd cs ds
connects-append fd (connect o _ _ ∷ cs) ds = elim (Bool-cases (fd == o)) [
  | inl e ↦ rw e (omega (arith, connects-append fd cs ds))
  | inr e ↦ rw e (connects-append fd cs ds)
]

closes-append : (fd : ℕ) (cs ds : List Call) → closes fd (cs ++ ds) ≡ closes fd cs + closes fd ds
closes-append fd [] ds = omega arith
closes-append fd (socket ∷ cs) ds = closes-append fd cs ds
closes-append fd (reuse_addr _ ∷ cs) ds = closes-append fd cs ds
closes-append fd (nodelay _ ∷ cs) ds = closes-append fd cs ds
closes-append fd (bind _ _ ∷ cs) ds = closes-append fd cs ds
closes-append fd (listen _ _ ∷ cs) ds = closes-append fd cs ds
closes-append fd (connect _ _ _ ∷ cs) ds = closes-append fd cs ds
closes-append fd (close o ∷ cs) ds = elim (Bool-cases (fd == o)) [
  | inl e ↦ rw e (omega (arith, closes-append fd cs ds))
  | inr e ↦ rw e (closes-append fd cs ds)
]

photo_round-ClosesAll : (fd : ℕ) (m : Mapping) (w : Round) → ClosesAll fd (photo_round m w)
unfolding photo_round trans_photo connect_and_send send_on give_result
    return_trans_photo_result_to_message_queue init_tcp_client_socket
photo_round-ClosesAll fd m w = ground arith

joined-ClosesAll :
    (fd : ℕ) (r rest : Trans) → ClosesAll fd r → ClosesAll fd rest → ClosesAll fd (joined r rest)
joined-ClosesAll fd r rest h hs = ends r.ending refl
  where
    both :
        r.ending ≡ continue
        → ClosesAll fd (record {
          ending = rest.ending;
          queued = r.queued ++ rest.queued;
          calls = r.calls ++ rest.calls;
        })
    both e = elim h [
      | inr (x, _) ↦ absurd (let bad : continue ≡ waiting = sym e ∙ x in cc)
      | inl x ↦ elim hs [
        | inl y ↦ inl (
            omega (
              arith,
              x,
              y,
              connects-append fd r.calls rest.calls,
              closes-append fd r.calls rest.calls,
            ))
        | inr (c, y) ↦ inr (
          c,
          omega (
            arith,
            x,
            y,
            connects-append fd r.calls rest.calls,
            closes-append fd r.calls rest.calls,
          ),
        )
      ]
    ]

    ends : (x : Ending) → r.ending ≡ x → ClosesAll fd (joined r rest)
    ends continue e = subst (ClosesAll fd) (sym (joined_on r rest e)) (both e)
    ends waiting e =
        subst (ClosesAll fd)
          (sym (joined_off r rest (λ q. let bad : waiting ≡ continue = sym e ∙ q in cc))) h
    ends fault e =
        subst (ClosesAll fd)
          (sym (joined_off r rest (λ q. let bad : fault ≡ continue = sym e ∙ q in cc))) h
    ends (exited c) e =
        subst (ClosesAll fd)
          (sym (joined_off r rest (λ q. let bad : exited c ≡ continue = sym e ∙ q in cc))) h

-- In every run of the loop of `photo_trans`, each descriptor has been closed as often as it has been
-- connected, also by a failed connection and on every `return`; but if the run waits in a call, one
-- connection may be open.
pub photo_rounds-ClosesAll :
    (m : Mapping) (ws : List Round) (fd : ℕ) → ClosesAll fd (photo_rounds m ws)
unfolding photo_rounds joined
photo_rounds-ClosesAll m [] fd = inl refl
photo_rounds-ClosesAll m (w ∷ ws) fd =
    joined-ClosesAll fd (photo_round m w) (photo_rounds m ws) (photo_round-ClosesAll fd m w)
      (photo_rounds-ClosesAll m ws fd)
