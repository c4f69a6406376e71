-- ===== src/NetTrans/Send/Delivery.antt =====
-- What the sending loops of net_trans.c deliver.
use mathlib.Core.List.{flatten}
use mathlib.Core.Option.{some-injective}
use native.Mathlib.Nat.{min-eq_right}
use handle_wifi_camera_itop.Common.{
  ℕ, zero, suc, ◌+◌, ◌-◌, ◌≤◌, ◌<◌, ◌≡◌, ◌≢◌, ◌⊎◌, inl, inr, refl, ap, ◌∙◌, sym, min, List, [], ◌∷◌,
  ◌++◌, some, arith, take, drop, drop-drop, take-add,
}
use handle_wifi_camera_itop.Public.ErrorCode.{ok, tcp_socket_send_fail}
use handle_wifi_camera_itop.NetTrans.Send.{
  SendReply, accepts, eintr, eagain, failed, Sent, send_loop, tcp_send_data, udp_send_data,
}

-- The bytes handed to the kernel are the first `count` bytes from offset `have`, in order and each
-- once; they are all `len` of them exactly when the code is OK.
pub record Delivers (buff : List ℕ) (have len : ℕ) (s : Sent) : Type 0 where
  pub count : ℕ
  pub bounded : count ≤ len
  pub bytes : flatten s.chunks ≡ take count (drop have buff)
  pub how_much : ((s.code ≡ some ok) × (count ≡ len)) ⊎ ((s.code ≢ some ok) × (count < len))

module _ (fail : ℕ) (fail_ne : fail ≢ ok) (buff : List ℕ) where
  pub send_loop-Delivers :
      (replies : List SendReply) (have len : ℕ)
      → Delivers buff have len (send_loop fail buff replies have len)
  unfolding send_loop flatten
  send_loop-Delivers replies have zero = record {
    count = 0;
    bounded = omega arith;
    bytes = refl;
    how_much = inl (refl, refl);
  }
  send_loop-Delivers [] have (suc len) = record {
    count = 0;
    bounded = omega arith;
    bytes = refl;
    how_much = inr (λ h. cc, omega arith);
  }
  send_loop-Delivers (accepts n ∷ replies) have (suc len) =
      let k : ℕ = min n (suc len) in
      let rest = send_loop-Delivers replies (have + k) (suc len - k) in
      record {
        count = k + rest.count;
        bounded = omega (arith, rest.bounded);
        bytes =
            ap (λ l. take k (drop have buff) ++ l)
              (rest.bytes ∙ ap (take rest.count) (sym (drop-drop k have buff)))
            ∙ take-add k rest.count (drop have buff);
        how_much = elim rest.how_much [
          | inl (e, h) ↦ inl (e, omega arith)
          | inr (e, h) ↦ inr (e, omega arith)
        ];
      }
  send_loop-Delivers (eintr ∷ replies) have (suc len) = send_loop-Delivers replies have (suc len)
  send_loop-Delivers (eagain ∷ replies) have (suc len) = send_loop-Delivers replies have (suc len)
  send_loop-Delivers (failed ∷ replies) have (suc len) = record {
    count = 0;
    bounded = omega arith;
    bytes = refl;
    how_much = inr (λ h. fail_ne (some-injective _ _ h), omega arith);
  }

-- How many answers take at least one byte, and that none is a hard failure.
abbrev pub progress : List SendReply → ℕ
progress [] = 0
progress (accepts zero ∷ replies) = progress replies
progress (accepts (suc n) ∷ replies) = suc (progress replies)
progress (eintr ∷ replies) = progress replies
progress (eagain ∷ replies) = progress replies
progress (failed ∷ replies) = progress replies

abbrev pub NoFailure : List SendReply → Type 0
NoFailure [] = Unit
NoFailure (accepts n ∷ replies) = NoFailure replies
NoFailure (eintr ∷ replies) = NoFailure replies
NoFailure (eagain ∷ replies) = NoFailure replies
NoFailure (failed ∷ replies) = ⊥

module _ (fail : ℕ) (buff : List ℕ) where
  pub send_loop_returns :
      (replies : List SendReply) (have len : ℕ)
      → NoFailure replies
      → len ≤ progress replies
      → (send_loop fail buff replies have len).code ≡ some ok
  unfolding send_loop
  send_loop_returns replies have zero f h = refl
  send_loop_returns [] have (suc len) f h = absurd (omega arith)
  send_loop_returns (accepts zero ∷ replies) have (suc len) f h =
      send_loop_returns replies (have + min 0 (suc len)) (suc len - min 0 (suc len)) f (omega arith)
  send_loop_returns (accepts (suc n) ∷ replies) have (suc len) f h =
      send_loop_returns replies (have + min (suc n) (suc len)) (suc len - min (suc n) (suc len)) f
        (omega arith)
  send_loop_returns (eintr ∷ replies) have (suc len) f h =
      send_loop_returns replies have (suc len) f h
  send_loop_returns (eagain ∷ replies) have (suc len) f h =
      send_loop_returns replies have (suc len) f h
  send_loop_returns (failed ∷ replies) have (suc len) f h = absurd f

-- `tcp_send_data` hands the kernel the first bytes of the buffer, in order and each once: all
-- buff_len of them if it returns OK, and fewer if it fails or still waits.
pub tcp_send_data-Delivers :
    (replies : List SendReply) (buff : List ℕ) (buff_len : ℕ)
    → Delivers buff 0 buff_len (tcp_send_data replies buff buff_len)
unfolding tcp_send_data
tcp_send_data-Delivers replies buff buff_len =
    send_loop-Delivers tcp_socket_send_fail (λ h. omega arith) buff replies 0 buff_len

-- `tcp_send_data` returns OK after at most any number of interrupted and blocked calls, if no call
-- fails and at least buff_len of them take a byte.
pub tcp_send_data_returns :
    (replies : List SendReply) (buff : List ℕ) (buff_len : ℕ)
    → NoFailure replies
    → buff_len ≤ progress replies
    → (tcp_send_data replies buff buff_len).code ≡ some ok
unfolding tcp_send_data
tcp_send_data_returns replies buff buff_len f h =
    send_loop_returns tcp_socket_send_fail buff replies 0 buff_len f h

-- A datagram that the kernel takes whole at the first call goes out as one datagram.
pub udp_send_data_whole :
    (buff : List ℕ) (n buff_len : ℕ) (replies : List SendReply)
    → suc buff_len ≤ n
    → udp_send_data (accepts n ∷ replies) buff (suc buff_len)
      ≡ record { code = some ok; chunks = take (suc buff_len) buff ∷ [] }
unfolding udp_send_data
udp_send_data_whole buff n buff_len replies h =
    let e : suc buff_len - suc buff_len ≡ 0 = omega arith in rw (min-eq_right h) (rw e)
