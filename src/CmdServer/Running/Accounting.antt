-- ===== src/CmdServer/Running/Accounting.antt =====
-- What a run of `cmd_server` has released.
use handle_wifi_camera_itop.Common.{
  ℕ, suc, ◌≡◌, ◌≢◌, ◌⊎◌, ◌∙◌, inl, inr, refl, sym, ap, true, List, [], ◌∷◌, ◌++◌, append-nil,
  append_assoc, Option, some, none, arith, length, replicate,
}
use handle_wifi_camera_itop.Public.ErrorCode.{ok, accept_cmd_socket_fail}
use handle_wifi_camera_itop.SharedAddress.{Mapping, mapped, null, invalid}
use handle_wifi_camera_itop.CmdServer.Serving.{
  Resource, listen_socketfd, cmd_socketfd, msg_id_for_take_photo, msg_id_for_send_file, global_addr,
  shm_id, Server, Next, continue, next_client, waiting, overrun, exited, rounds,
}
use handle_wifi_camera_itop.CmdServer.Serving.Releasing.{Releases, everything, rounds-Releases}
use handle_wifi_camera_itop.CmdServer.Running.{
  Client, Outcome, came, fault, Run, run, release, without_client, serve_clients,
}

-- What is left to give back when there is no client, and when there is no socket at all.
abbrev pub all_but_client : List Resource
all_but_client =
    listen_socketfd ∷ msg_id_for_take_photo ∷ msg_id_for_send_file ∷ global_addr ∷ shm_id ∷ []

abbrev pub all_but_sockets : List Resource
all_but_sockets = msg_id_for_take_photo ∷ msg_id_for_send_file ∷ global_addr ∷ shm_id ∷ []

-- Of the clients that have come, one for each address written, n are gone: all, or all but the one
-- that is served.
abbrev pub AllGone : ℕ → ℕ → Type 0
AllGone n addresses = n ≡ addresses

abbrev pub OneServed : ℕ → ℕ → Type 0
OneServed n addresses = suc n ≡ addresses

-- The sockets of the clients that are gone, and nothing else.
abbrev pub Running : List Resource → ℕ → ℕ → Server → Type 0
Running before n a t =
    (AllGone n a ⊎ OneServed n a) × (t.released ≡ before ++ replicate n cmd_socketfd)

-- That holds as long as the server runs. When it returns, which it does with an error, it has
-- released with them each other resource once, and the socket of a client that is served.
abbrev pub Released : List Resource → ℕ → ℕ → Outcome → Type 0
Released before n a (came (exited code t)) =
    (code ≢ ok)
    × ((OneServed n a × (t.released ≡ before ++ (replicate n cmd_socketfd ++ everything)))
        ⊎ (AllGone n a × (t.released ≡ before ++ (replicate n cmd_socketfd ++ all_but_client))))
Released before n a (came (continue t)) = Running before n a t
Released before n a (came (waiting t)) = Running before n a t
Released before n a (came (overrun t)) = Running before n a t
Released before n a (came (next_client t)) = Running before n a t
Released before n a (fault t) = Running before n a t

-- One client more.
one_more :
    (before now t rest : List Resource)
    → now ≡ before ++ (cmd_socketfd ∷ [])
    → t ≡ now ++ rest
    → t ≡ before ++ (cmd_socketfd ∷ rest)
one_more before now t rest e h =
    h ∙ ap (λ l. l ++ rest) e ∙ append_assoc before (cmd_socketfd ∷ []) rest

-- What holds of the later clients holds with one more before them.
Running-more :
    (before now : List Resource) (n a : ℕ) (t : Server)
    → now ≡ before ++ (cmd_socketfd ∷ [])
    → Running now n a t
    → Running before (suc n) (suc a) t
Running-more before now n a t e (inl g, h) =
    (inl (ap suc g), one_more before now t.released (replicate n cmd_socketfd) e h)
Running-more before now n a t e (inr g, h) =
    (inr (ap suc g), one_more before now t.released (replicate n cmd_socketfd) e h)

more_client :
    (before now : List Resource) (n a : ℕ) (o : Outcome)
    → now ≡ before ++ (cmd_socketfd ∷ [])
    → Released now n a o
    → Released before (suc n) (suc a) o
more_client before now n a (came (exited code t)) e (ne, inl (g, h)) = (
  ne,
  inl (ap suc g, one_more before now t.released (replicate n cmd_socketfd ++ everything) e h),
)
more_client before now n a (came (exited code t)) e (ne, inr (g, h)) = (
  ne,
  inr (ap suc g, one_more before now t.released (replicate n cmd_socketfd ++ all_but_client) e h),
)
more_client before now n a (came (continue t)) e h = Running-more before now n a t e h
more_client before now n a (came (waiting t)) e h = Running-more before now n a t e h
more_client before now n a (came (overrun t)) e h = Running-more before now n a t e h
more_client before now n a (came (next_client t)) e h = Running-more before now n a t e h
more_client before now n a (fault t) e h = Running-more before now n a t e h

-- As many clients are gone as have their sockets released.
abbrev pub RunReleased : List Resource → Run → Type 0
RunReleased before r = (n : ℕ) × Released before n (length r.addresses) r.outcome

-- What follows the rounds of a client.
after_client :
    (m : Mapping) (cs : List Client) (addr : ℕ) (s : Server) (r : Next)
    → Releases s r
    → ((t : Server) → RunReleased t.released (serve_clients m cs t))
    → RunReleased s.released (elim r as (λ _. Run) [
      | next_client t ↦
          run (serve_clients m cs t).outcome (addr ∷ (serve_clients m cs t).addresses) true
      | continue t ↦ run (came (continue t)) (addr ∷ []) true
      | waiting t ↦ run (came (waiting t)) (addr ∷ []) true
      | overrun t ↦ run (came (overrun t)) (addr ∷ []) true
      | exited code t ↦ run (came (exited code t)) (addr ∷ []) true
    ])
after_client m cs addr s (next_client t) (h, _) ih =
    let (n, rest) = ih t in
    (
      suc n,
      more_client s.released t.released n (length (serve_clients m cs t).addresses)
          (serve_clients m cs t).outcome h rest,
    )
after_client m cs addr s (continue t) (h, _) ih = (0, (inr refl, h ∙ sym (append-nil s.released)))
after_client m cs addr s (waiting t) (h, _) ih = (0, (inr refl, h ∙ sym (append-nil s.released)))
after_client m cs addr s (overrun t) (h, _) ih = (0, (inr refl, h ∙ sym (append-nil s.released)))
after_client m cs addr s (exited code t) (ne, h, _) ih = (0, (ne, inl (refl, h)))

pub serve_clients-Released :
    (m : Mapping) (cs : List Client) (s : Server) → RunReleased s.released (serve_clients m cs s)
unfolding serve_clients
serve_clients-Released m [] s = (0, (inl refl, sym (append-nil s.released)))
serve_clients-Released m (c ∷ cs) s = ends c.address m (λ t. serve_clients-Released m cs t)
  where
    ends :
        (a : Option ℕ) (m' : Mapping)
        → ((t : Server) → RunReleased t.released (serve_clients m cs t))
        → RunReleased s.released (elim a as (λ _. Run) [
          | none ↦ run (came (exited accept_cmd_socket_fail (release without_client s))) [] true
          | some addr ↦ elim m' as (λ _. Run) [
            | mapped ↦ elim (rounds c.rounds (record s { stream = c.stream })) as (λ _. Run) [
              | next_client t ↦
                  run (serve_clients m cs t).outcome (addr ∷ (serve_clients m cs t).addresses) true
              | continue t ↦ run (came (continue t)) (addr ∷ []) true
              | waiting t ↦ run (came (waiting t)) (addr ∷ []) true
              | overrun t ↦ run (came (overrun t)) (addr ∷ []) true
              | exited code t ↦ run (came (exited code t)) (addr ∷ []) true
            ]
            | null ↦ run (fault s) [] true
            | invalid ↦ run (fault s) [] true
          ]
        ])
    ends none m' ih = (0, ((λ z. omega arith), inr (refl, refl)))
    ends (some addr) mapped ih =
        after_client m cs addr (record s { stream = c.stream })
          (rounds c.rounds (record s { stream = c.stream }))
          (rounds-Releases c.rounds (record s { stream = c.stream })) ih
    ends (some addr) null ih = (0, (inl refl, sym (append-nil s.released)))
    ends (some addr) invalid ih = (0, (inl refl, sym (append-nil s.released)))
