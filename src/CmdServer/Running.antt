-- ===== src/CmdServer/Running.antt =====
-- `cmd_server` of cmd_server.c: its start, and the loop over its clients.
pub mod Accounting
pub mod Starting
use handle_wifi_camera_itop.Common.{
  ℕ, ◌==◌, if◌then◌else◌, Bool, true, false, List, [], ◌∷◌, ◌++◌, Option, some, none,
}
use handle_wifi_camera_itop.Public.ErrorCode.{
  ok, get_ipc_key_fail, create_message_queue_fail, sem_post_fail, init_cmd_socket_fail,
  accept_cmd_socket_fail,
}
use handle_wifi_camera_itop.MessageQueue.{Ipc, create_message_queue}
use handle_wifi_camera_itop.NetTrans.Sockets.{Kernel, init_tcp_server_socket}
use handle_wifi_camera_itop.SharedAddress.{
  Mapping, mapped, null, invalid, Shm, refused, attached, attach,
}
use handle_wifi_camera_itop.CmdServer.Serving.{
  Resource, listen_socketfd, msg_id_for_take_photo, msg_id_for_send_file, global_addr, shm_id,
  Server, Round, Next, continue, next_client, waiting, overrun, exited, rounds,
}

abbrev pub cmd_socket_port : ℕ
cmd_socket_port = 8080

abbrev pub ipc_key_seed_for_take_photo_msg : ℕ
ipc_key_seed_for_take_photo_msg = 0x02

abbrev pub ipc_key_seed_for_send_photo_msg : ℕ
ipc_key_seed_for_send_photo_msg = 0x03

-- One `accept`: the client's address (`none` if it fails), what the client sends, and the rounds.
pub record Client : Type 0 where
  pub address : Option ℕ
  pub stream : List ℕ
  pub rounds : List Round

-- A run comes to what the rounds of a client come to, or faults at *global_addr.
pub data Outcome : Type 0 where
  came : Next → Outcome
  fault : Server → Outcome

-- The outcome; the addresses written to *global_addr, in order; and whether the semaphore has been
-- posted.
pub record Run : Type 0 where
  pub outcome : Outcome
  pub addresses : List ℕ
  pub posted : Bool

abbrev pub run : Outcome → List ℕ → Bool → Run
run outcome addresses posted = record { outcome = outcome; addresses = addresses; posted = posted }

abbrev pub release : List Resource → Server → Server
release resources s = record s { released = s.released ++ resources }

-- What a `return` behind a failed `accept` releases.
abbrev pub without_client : List Resource
without_client =
    listen_socketfd ∷ msg_id_for_take_photo ∷ msg_id_for_send_file ∷ global_addr ∷ shm_id ∷ []

-- The outer `while(1)`. A run that has no more clients waits in `accept`.
unfoldable pub serve_clients : Mapping → List Client → Server → Run
serve_clients m [] s = run (came (waiting s)) [] true
serve_clients m (c ∷ cs) s = elim c.address [
  | none ↦ run (came (exited accept_cmd_socket_fail (release without_client s))) [] true
  | some addr ↦ elim m [
    | mapped ↦ elim (rounds c.rounds (record s { stream = c.stream })) [
      | next_client t ↦
          let rest = serve_clients m cs t in run rest.outcome (addr ∷ rest.addresses) true
      | continue t ↦ run (came (continue t)) (addr ∷ []) true
      | waiting t ↦ run (came (waiting t)) (addr ∷ []) true
      | overrun t ↦ run (came (overrun t)) (addr ∷ []) true
      | exited code t ↦ run (came (exited code t)) (addr ∷ []) true
    ]
    | null ↦ run (fault s) [] true
    | invalid ↦ run (fault s) [] true
  ]
]

-- What the kernel answers before the loop.
pub record Start : Type 0 where
  pub shm : Shm
  pub take_photo_queue : ℕ → Ipc
  pub send_file_queue : ℕ → Ipc
  pub can_post : Bool
  pub kernel : Kernel

-- What both returns behind the queues release.
abbrev pub without_socket : List Resource
without_socket = msg_id_for_take_photo ∷ msg_id_for_send_file ∷ global_addr ∷ shm_id ∷ []

unfoldable pub open_server : Start → Mapping → List Client → Server → Run
unfolding serve_clients
open_server k m clients s =
    if k.can_post
    then (if (init_tcp_server_socket k.kernel cmd_socket_port).code == ok
        then serve_clients m clients s
        else run (came (exited init_cmd_socket_fail (release without_socket s))) [] true)
    else run (came (exited sem_post_fail (release without_socket s))) [] false

-- Both failures of `create_message_queue` remove msg_id_for_send_file, which has no queue then.
unfoldable pub open_queues : Start → Mapping → List Client → Server → Run
unfolding open_server
open_queues k m clients s =
    let no_queue =
      run (came (exited create_message_queue_fail (release (msg_id_for_send_file ∷ []) s))) []
        false in
    let no_key = run (came (exited get_ipc_key_fail s)) [] false in
    elim (k.shm.ftok ipc_key_seed_for_take_photo_msg) [
      | none ↦ no_key
      | some take_photo_key ↦
          if (create_message_queue take_photo_key true (k.take_photo_queue take_photo_key)).code
            == ok
          then elim (k.shm.ftok ipc_key_seed_for_send_photo_msg) [
            | none ↦ no_key
            | some file_send_key ↦
                if (create_message_queue file_send_key true (k.send_file_queue file_send_key)).code
                  == ok
                then open_server k m clients s
                else no_queue
          ]
          else no_queue
    ]

unfoldable pub cmd_server : Start → List Client → Server → Run
unfolding open_queues
cmd_server k clients s = elim (attach k.shm) [
  | refused code ↦ run (came (exited code s)) [] false
  | attached m ↦ open_queues k m clients s
]
