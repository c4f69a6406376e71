-- ===== src/CmdServer/Running/Starting.antt =====
-- What `cmd_server` has done when it has posted the semaphore, and when it has not.
use handle_wifi_camera_itop.Common.{
  ℕ, ◌==◌, if◌then◌else◌, if_either, ◌≡◌, ◌≢◌, ◌⊎◌, inl, inr, refl, true, false, List, [], ◌∷◌,
  Option, some, none, arith,
}
use handle_wifi_camera_itop.Public.ErrorCode.{
  ok, accept_cmd_socket_fail, init_cmd_socket_fail, sem_post_fail, create_message_queue_fail,
  get_ipc_key_fail,
}
use handle_wifi_camera_itop.Public.Report.{get_ipc_key}
use handle_wifi_camera_itop.MessageQueue.{create_message_queue}
use handle_wifi_camera_itop.NetTrans.Sockets.{init_tcp_server_socket}
use handle_wifi_camera_itop.SharedAddress.{
  Mapping, mapped, null, invalid, Shm, Attached, refused, attached, attach,
}
use handle_wifi_camera_itop.CmdServer.Serving.{
  msg_id_for_send_file, Server, Next, continue, next_client, waiting, overrun, exited, rounds,
}
use handle_wifi_camera_itop.CmdServer.Running.{
  Client, came, fault, Run, run, release, without_client, without_socket, serve_clients, Start,
  open_server, open_queues, cmd_server, cmd_socket_port, ipc_key_seed_for_take_photo_msg,
  ipc_key_seed_for_send_photo_msg,
}
use handle_wifi_camera_itop.CmdServer.Running.Accounting.{
  all_but_sockets, RunReleased, serve_clients-Released,
}

-- The server has returned with an error and has not posted the semaphore; or it has posted it, and
-- has given the queues and the memory back, since it has no socket, or serves clients.
abbrev pub Accounts : Server → Run → Type 0
Accounts s r =
    ((r.posted ≡ false)
      × ((code : ℕ) × (t : Server) × (r.outcome ≡ came (exited code t)) × (code ≢ ok)))
    ⊎ ((r.posted ≡ true)
        × ((r.outcome ≡ came (exited init_cmd_socket_fail (release all_but_sockets s)))
            ⊎ RunReleased s.released r))

posts : (m : Mapping) (cs : List Client) (s : Server) → (serve_clients m cs s).posted ≡ true
unfolding serve_clients
posts m [] s = refl
posts m (c ∷ cs) s = ends c.address m (rounds c.rounds (record s { stream = c.stream }))
  where
    ends :
        (a : Option ℕ) (m' : Mapping) (r : Next)
        → (elim a as (λ _. Run) [
          | none ↦ run (came (exited accept_cmd_socket_fail (release without_client s))) [] true
          | some addr ↦ elim m' as (λ _. Run) [
            | mapped ↦ elim r as (λ _. Run) [
              | next_client t ↦
                  run (serve_clients m cs t).outcome (addr ∷ (serve_clients m cs t).addresses) true
              | continue t ↦ run (came (continue t)) (addr ∷ []) true
              | waiting t ↦ run (came (waiting t)) (addr ∷ []) true
              | overrun t ↦ run (came (overrun t)) (addr ∷ []) true
              | exited code t ↦ run (came (exited code t)) (addr ∷ []) true
            ]
            | null ↦ run (fault s) [] true
            | invalid ↦ run (fault s) [] true
          ]
        ]).posted
          ≡ true
    ends none m' r = refl
    ends (some addr) null r = refl
    ends (some addr) invalid r = refl
    ends (some addr) mapped (next_client t) = refl
    ends (some addr) mapped (continue t) = refl
    ends (some addr) mapped (waiting t) = refl
    ends (some addr) mapped (overrun t) = refl
    ends (some addr) mapped (exited code t) = refl

open_server-Accounts :
    (k : Start) (m : Mapping) (cs : List Client) (s : Server) → Accounts s (open_server k m cs s)
unfolding open_server
open_server-Accounts k m cs s =
    let socket = init_tcp_server_socket k.kernel cmd_socket_port in
    let no_socket = run (came (exited init_cmd_socket_fail (release without_socket s))) [] true in
    let not_posted = run (came (exited sem_post_fail (release without_socket s))) [] false in
    if_either (Accounts s) k.can_post
      (if socket.code == ok then serve_clients m cs s else no_socket) not_posted
      (if_either (Accounts s) (socket.code == ok) (serve_clients m cs s) no_socket
        (inr (posts m cs s, inr (serve_clients-Released m cs s))) (inr (refl, inl refl)))
      (inl (refl, (sem_post_fail, release without_socket s, refl, λ z. omega arith)))

-- A return before the semaphore is posted.
too_early : (code : ℕ) (s t : Server) → code ≢ ok → Accounts s (run (came (exited code t)) [] false)
too_early code s t ne = inl (refl, (code, t, refl, ne))

open_queues-Accounts :
    (k : Start) (m : Mapping) (cs : List Client) (s : Server) → Accounts s (open_queues k m cs s)
unfolding open_queues
open_queues-Accounts k m cs s =
    ends (k.shm.ftok ipc_key_seed_for_take_photo_msg) (k.shm.ftok ipc_key_seed_for_send_photo_msg)
  where
    no_queue : Run
    no_queue =
        run (came (exited create_message_queue_fail (release (msg_id_for_send_file ∷ []) s))) []
          false

    no_queue-Accounts : Accounts s no_queue
    no_queue-Accounts =
        too_early create_message_queue_fail s (release (msg_id_for_send_file ∷ []) s)
          (λ z. omega arith)

    second : Option ℕ → Run
    second b = elim b as (λ _. Run) [
      | none ↦ run (came (exited get_ipc_key_fail s)) [] false
      | some other ↦
          if (create_message_queue other true (k.send_file_queue other)).code == ok
          then open_server k m cs s
          else no_queue
    ]

    second-Accounts : (b : Option ℕ) → Accounts s (second b)
    second-Accounts none = too_early get_ipc_key_fail s s (λ z. omega arith)
    second-Accounts (some other) =
        if_either (Accounts s)
          ((create_message_queue other true (k.send_file_queue other)).code == ok)
          (open_server k m cs s) no_queue (open_server-Accounts k m cs s) no_queue-Accounts

    ends :
        (a b : Option ℕ)
        → Accounts s (elim a as (λ _. Run) [
          | none ↦ run (came (exited get_ipc_key_fail s)) [] false
          | some key ↦
              if (create_message_queue key true (k.take_photo_queue key)).code == ok
              then second b
              else no_queue
        ])
    ends none b = too_early get_ipc_key_fail s s (λ z. omega arith)
    ends (some key) b =
        if_either (Accounts s) ((create_message_queue key true (k.take_photo_queue key)).code == ok)
          (second b) no_queue (second-Accounts b) no_queue-Accounts

AttachCode : Attached → Type 0
AttachCode (refused code) = code ≢ ok
AttachCode (attached m) = Unit

attach_fails : (k : Shm) → AttachCode (attach k)
unfolding attach get_ipc_key AttachCode
attach_fails k = ground arith

-- However `cmd_server` begins and whichever clients come: if it does not post the semaphore, it has
-- returned with an error. If it does, it gives back the queues and the memory because it gets no
-- socket; or, as long as it runs, it has released exactly the sockets of the clients that are gone,
-- which are all that have come or all but the one that is served; and when it returns, with an
-- error, besides those each of the other resources once, and the socket of the client that it
-- serves.
pub cmd_server-Accounts :
    (k : Start) (cs : List Client) (s : Server) → Accounts s (cmd_server k cs s)
unfolding cmd_server AttachCode
cmd_server-Accounts k cs s = ends (attach k.shm) (attach_fails k.shm)
  where
    ends :
        (a : Attached)
        → AttachCode a
        → Accounts s (elim a as (λ _. Run) [
          | refused code ↦ run (came (exited code s)) [] false
          | attached m ↦ open_queues k m cs s
        ])
    ends (refused code) ne = too_early code s s ne
    ends (attached m) _ = open_queues-Accounts k m cs s
