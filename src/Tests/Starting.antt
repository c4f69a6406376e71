-- ===== src/Tests/Starting.antt =====
-- The start of the program, and of cmd_server.
use handle_wifi_camera_itop.Common.{◌≡◌, refl, true, List, [], ◌∷◌, some, none}
use handle_wifi_camera_itop.Public.ErrorCode.{video_server_running_fail}
use handle_wifi_camera_itop.Public.Report.{get_ipc_key}
use handle_wifi_camera_itop.MessageQueue.{made, create_message_queue}
use handle_wifi_camera_itop.NetTrans.Sockets.{Kernel, init_tcp_server_socket}
use handle_wifi_camera_itop.SharedAddress.{mapped, attach}
use handle_wifi_camera_itop.CmdServer.Serving.{Server, rounds}
use handle_wifi_camera_itop.CmdServer.Running.{
  Client, Start, cmd_server, open_queues, open_server, serve_clients,
}
use handle_wifi_camera_itop.CmdServer.Running.Starting.{Accounts, cmd_server-Accounts}
use handle_wifi_camera_itop.Main.{
  start_servers, Boot, parent, child, main, process, exits, start, await_cmd_server, sem_open,
  fork_cmd_server, sem_wait, sem_close, sem_unlink, fork_video_server,
}
use handle_wifi_camera_itop.Main.Waiting.{WaitsFor, main-WaitsFor}
use handle_wifi_camera_itop.Main.Ordering.{Begins, whole_start, main-Begins}

abbrev phone : Kernel
phone = record {
  new_socket = some 7;
  set_reuse_addr = λ _. true;
  set_nodelay = λ _. true;
  do_bind = λ _ _. true;
  do_listen = λ _ _. true;
  do_connect = λ _ _ _. true;
}

abbrev setup : Start
setup = record {
  shm = record { ftok = λ seed. some seed; shmget = some 4; shmat = mapped };
  take_photo_queue = λ key. record { first = made key; second = some key; last = some key };
  send_file_queue = λ key. record { first = made key; second = some key; last = some key };
  can_post = true;
  kernel = phone;
}

abbrev fresh : Server
fresh = record { stream = []; queued = []; sent = []; released = [] }

abbrev callers : List Client
callers =
    record { address = some 0x0A00A8C0; stream = []; rounds = [] }
    ∷ record { address = none; stream = []; rounds = [] }
    ∷ []

cmd_server-Accounts_example : Accounts fresh (cmd_server setup callers fresh)
cmd_server-Accounts_example = cmd_server-Accounts setup callers fresh

-- The child that runs video_server, which fails.
abbrev boot : Boot
boot = record {
  opened = true;
  cmd_fork = parent 11;
  cmd_server = none;
  waited = some true;
  closed = true;
  unlinked = true;
  video_fork = child;
  video_server = some 5;
  photo_fork = parent 13;
  photo_trans = none;
}

video_child :
    main boot
    ≡ process
        (exits video_server_running_fail)
        (sem_open ∷ fork_cmd_server ∷ sem_wait ∷ sem_close ∷ sem_unlink ∷ fork_video_server ∷ [])
unfolding main await_cmd_server start start_servers
video_child = refl

main-Begins_example : Begins (whole_start boot) (main boot)
main-Begins_example = main-Begins boot

main-WaitsFor_example : WaitsFor boot setup (cmd_server setup callers fresh)
unfolding cmd_server open_queues open_server serve_clients attach create_message_queue
    init_tcp_server_socket get_ipc_key rounds
main-WaitsFor_example = main-WaitsFor boot setup callers fresh (λ _. refl)
