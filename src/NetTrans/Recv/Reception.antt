-- ===== src/NetTrans/Recv/Reception.antt =====
-- What the receiving loop of net_trans.c has read when it returns.
use handle_wifi_camera_itop.Common.{
  ℕ, zero, suc, ◌+◌, ◌-◌, ◌≤◌, ◌<◌, ◌≡◌, refl, ap, ◌∙◌, min, Bool, true, false, List, [], ◌∷◌, ◌++◌,
  append_assoc, some, none, arith, length, take, drop, length-append, length-take,
}
use handle_wifi_camera_itop.Public.ErrorCode.{
  ok, no_data_to_recv, tcp_socket_recv_fail, tcp_connectiong_has_been_closed,
}
use handle_wifi_camera_itop.NetTrans.Recv.{
  RecvReply, arrives, eintr, eagain, failed, Received, msg_dontwait, recv_loop, tcp_recv_data,
}

-- How the loop may end when it starts with the bytes `got` in the buffer: OK with the buffer full; no
-- data, only under MSG_DONTWAIT and before any byte; closed, only at the end of the peer's stream;
-- failed; or still waiting. But for the first, the buffer is not full.
pub data Ending (dontwait : Bool) (got : List ℕ) (len : ℕ) (r : Received) : Type 0 where
  full : r.code ≡ some ok → length r.buff ≡ length got + len → Ending dontwait got len r
  idle :
      r.code ≡ some no_data_to_recv
      → dontwait ≡ true
      → r.buff ≡ []
      → got ≡ []
      → 0 < len
      → Ending dontwait got len r
  closed :
      r.code ≡ some tcp_connectiong_has_been_closed
      → r.stream ≡ []
      → length r.buff < length got + len
      → Ending dontwait got len r
  lost :
      r.code ≡ some tcp_socket_recv_fail
      → length r.buff < length got + len
      → Ending dontwait got len r
  still_waiting : r.code ≡ none → length r.buff < length got + len → Ending dontwait got len r

-- What holds of a run of the loop that starts with the bytes `got` in the buffer and `stream` unread.
pub record Reads (dontwait : Bool) (got stream : List ℕ) (len : ℕ) (r : Received) : Type 0 where
  -- nothing is lost, duplicated or reordered between the buffer and the stream
  pub kept : r.buff ++ r.stream ≡ got ++ stream
  pub ending : Ending dontwait got len r

take-drop_chunk : (n : ℕ) (xs : List ℕ) → take n xs ++ drop (length (take n xs)) xs ≡ xs
take-drop_chunk zero xs = refl
take-drop_chunk (suc n) [] = refl
take-drop_chunk (suc n) (x ∷ xs) = ap (λ l. x ∷ l) (take-drop_chunk n xs)

Ending-chunk :
    (dontwait : Bool) (got c : List ℕ) (len : ℕ) (r : Received)
    → 0 < length c
    → length c ≤ len
    → Ending dontwait (got ++ c) (len - length c) r
    → Ending dontwait got len r
Ending-chunk dontwait got c len r pos le (full e h) = full e (omega (arith, length-append got c))
Ending-chunk dontwait got c len r pos le (idle e d b g p) =
    absurd (omega (arith, ap length g, length-append got c))
Ending-chunk dontwait got c len r pos le (closed e s h) =
    closed e s (omega (arith, length-append got c))
Ending-chunk dontwait got c len r pos le (lost e h) = lost e (omega (arith, length-append got c))
Ending-chunk dontwait got c len r pos le (still_waiting e h) =
    still_waiting e (omega (arith, length-append got c))

-- A call that reads the nonempty chunk `c` leaves the rest of the loop the rest of the stream.
Reads-chunk :
    (dontwait : Bool) (got c rest stream : List ℕ) (len : ℕ) (r : Received)
    → c ++ rest ≡ stream
    → 0 < length c
    → length c ≤ len
    → Reads dontwait (got ++ c) rest (len - length c) r
    → Reads dontwait got stream len r
Reads-chunk dontwait got c rest stream len r e pos le h = record {
  kept = h.kept ∙ append_assoc got c rest ∙ ap (λ l. got ++ l) e;
  ending = Ending-chunk dontwait got c len r pos le h.ending;
}

recv_loop-Reads :
    (dontwait : Bool) (replies : List RecvReply) (stream got : List ℕ) (len : ℕ)
    → Reads dontwait got stream len (recv_loop dontwait replies stream got len)
unfolding recv_loop
recv_loop-Reads true replies stream got zero = record {
  kept = refl;
  ending = full refl (omega arith);
}
recv_loop-Reads false replies stream got zero = record {
  kept = refl;
  ending = full refl (omega arith);
}
recv_loop-Reads true [] stream got (suc len) = record {
  kept = refl;
  ending = still_waiting refl (omega arith);
}
recv_loop-Reads false [] stream got (suc len) = record {
  kept = refl;
  ending = still_waiting refl (omega arith);
}
recv_loop-Reads true (arrives n ∷ replies) [] got (suc len) = record {
  kept = refl;
  ending = closed refl refl (omega arith);
}
recv_loop-Reads false (arrives n ∷ replies) [] got (suc len) = record {
  kept = refl;
  ending = closed refl refl (omega arith);
}
recv_loop-Reads true (arrives n ∷ replies) (b ∷ stream) got (suc len) =
    let c : List ℕ = take (min (suc n) (suc len)) (b ∷ stream) in
    let size = length-take (min (suc n) (suc len)) (b ∷ stream) in
    Reads-chunk true got c (drop (length c) (b ∷ stream)) (b ∷ stream) (suc len) _
      (take-drop_chunk (min (suc n) (suc len)) (b ∷ stream)) (omega (arith, size))
      (omega (arith, size))
      (recv_loop-Reads true replies (drop (length c) (b ∷ stream)) (got ++ c) (suc len - length c))
recv_loop-Reads false (arrives n ∷ replies) (b ∷ stream) got (suc len) =
    let c : List ℕ = take (min (suc n) (suc len)) (b ∷ stream) in
    let size = length-take (min (suc n) (suc len)) (b ∷ stream) in
    Reads-chunk false got c (drop (length c) (b ∷ stream)) (b ∷ stream) (suc len) _
      (take-drop_chunk (min (suc n) (suc len)) (b ∷ stream)) (omega (arith, size))
      (omega (arith, size))
      (recv_loop-Reads false replies (drop (length c) (b ∷ stream)) (got ++ c) (suc len - length c))
recv_loop-Reads true (eagain ∷ replies) stream [] (suc len) = record {
  kept = refl;
  ending = idle refl refl refl refl (omega arith);
}
recv_loop-Reads true (eagain ∷ replies) stream (b ∷ got) (suc len) =
    recv_loop-Reads true replies stream (b ∷ got) (suc len)
recv_loop-Reads false (eagain ∷ replies) stream got (suc len) =
    recv_loop-Reads false replies stream got (suc len)
recv_loop-Reads true (eintr ∷ replies) stream got (suc len) =
    recv_loop-Reads true replies stream got (suc len)
recv_loop-Reads false (eintr ∷ replies) stream got (suc len) =
    recv_loop-Reads false replies stream got (suc len)
recv_loop-Reads true (failed ∷ replies) stream got (suc len) = record {
  kept = refl;
  ending = lost refl (omega arith);
}
recv_loop-Reads false (failed ∷ replies) stream got (suc len) = record {
  kept = refl;
  ending = lost refl (omega arith);
}

-- What `tcp_recv_data` has done in whatever way it ends, under MSG_DONTWAIT or 0: the bytes in the
-- buffer are the next of the peer's stream; OK means all buff_len of them; "no data" is returned only
-- under MSG_DONTWAIT, with nothing read; "closed" only at the end of the stream.
pub tcp_recv_data-Reads :
    (replies : List RecvReply) (stream : List ℕ) (buff_len : ℕ)
    → Reads true [] stream buff_len (tcp_recv_data replies stream buff_len msg_dontwait)
      × Reads false [] stream buff_len (tcp_recv_data replies stream buff_len 0)
unfolding tcp_recv_data
tcp_recv_data-Reads replies stream buff_len = (
  recv_loop-Reads true replies stream [] buff_len,
  recv_loop-Reads false replies stream [] buff_len,
)
