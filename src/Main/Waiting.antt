-- ===== src/Main/Waiting.antt =====
-- `main` of main.c waits for `cmd_server` of cmd_server.c.
use handle_wifi_camera_itop.Common.{
  ℕ, ◌==◌, ==→eq, if◌then◌else◌, if_either, if_cases, ◌≡◌, ◌≢◌, ◌⊎◌, inl, inr, refl, Bool, true,
  false, List, [], ◌∷◌, ◌++◌, Option, some, none, arith,
}
use handle_wifi_camera_itop.Public.ErrorCode.{
  ok, sem_open_fail, fork_cmd_server_fail, cmd_server_running_fail, sem_wait_fail,
  create_message_queue_fail, get_ipc_key_fail,
}
use handle_wifi_camera_itop.Public.Report.{get_ipc_key}
use handle_wifi_camera_itop.MessageQueue.{create_message_queue}
use handle_wifi_camera_itop.SharedAddress.{
  Mapping, mapped, null, invalid, Shm, Attached, refused, attached, attach,
}
use handle_wifi_camera_itop.CmdServer.Serving.{msg_id_for_send_file, Server, exited}
use handle_wifi_camera_itop.CmdServer.Running.{
  Client, came, Run, run, release, Start, open_server, open_queues, cmd_server,
  ipc_key_seed_for_take_photo_msg, ipc_key_seed_for_send_photo_msg,
}
use handle_wifi_camera_itop.CmdServer.Running.Starting.{cmd_server-Accounts}
use handle_wifi_camera_itop.Main.Ordering.{not_ok}
use handle_wifi_camera_itop.Main.{
  Fork, no_fork, child, parent, Act, sem_open, fork_cmd_server, sem_wait, returned, exits, blocked,
  Process, process, after, Boot, run_child, start, await_cmd_server, main,
}

-- The two queues are there; and the memory is attached, or shmat has failed with (void *)-1, which
-- cmd_server does not notice.
abbrev pub IsSetUp : Start → Type 0
IsSetUp k =
    (m : Mapping) × (take_photo_key : ℕ) × (send_file_key : ℕ) × (attach k.shm ≡ attached m)
    × ((m ≡ mapped) ⊎ (m ≡ invalid))
    × (k.shm.ftok ipc_key_seed_for_take_photo_msg ≡ some take_photo_key)
    × ((create_message_queue take_photo_key true (k.take_photo_queue take_photo_key)).code ≡ ok)
    × (k.shm.ftok ipc_key_seed_for_send_photo_msg ≡ some send_file_key)
    × ((create_message_queue send_file_key true (k.send_file_queue send_file_key)).code ≡ ok)

attached_is : (k : Shm) (m : Mapping) → attach k ≡ attached m → (m ≡ mapped) ⊎ (m ≡ invalid)
unfolding attach get_ipc_key
attached_is k mapped e = inl refl
attached_is k invalid e = inr refl
attached_is k null e = ground (arith, e)

-- A run that has not posted the semaphore, or what is shown of one that has.
abbrev Posts : Type 0 → Run → Type 0
Posts A r = (r.posted ≡ false) ⊎ A

open_queues-Posts :
    (k : Start) (m : Mapping) (cs : List Client) (s : Server)
    → attach k.shm ≡ attached m
    → Posts (IsSetUp k) (open_queues k m cs s)
unfolding open_queues
open_queues-Posts k m cs s att = first (k.shm.ftok ipc_key_seed_for_take_photo_msg) refl
  where
    no_queue : Run
    no_queue =
        run (came (exited create_message_queue_fail (release (msg_id_for_send_file ∷ []) s))) []
          false

    second : Option ℕ → Run
    second b = elim b as (λ _. Run) [
      | none ↦ run (came (exited get_ipc_key_fail s)) [] false
      | some other ↦
          if (create_message_queue other true (k.send_file_queue other)).code == ok
          then open_server k m cs s
          else no_queue
    ]

    second-Posts :
        (key : ℕ) (b : Option ℕ)
        → k.shm.ftok ipc_key_seed_for_take_photo_msg ≡ some key
        → (create_message_queue key true (k.take_photo_queue key)).code ≡ ok
        → k.shm.ftok ipc_key_seed_for_send_photo_msg ≡ b
        → Posts (IsSetUp k) (second b)
    second-Posts key none e made f = inl refl
    second-Posts key (some other) e made f =
        let queue = create_message_queue other true (k.send_file_queue other) in
        if_cases (Posts (IsSetUp k)) (queue.code == ok) (open_server k m cs s) no_queue
          (λ good.
            inr (m, key, other, att, attached_is k.shm m att, e, made, f, ==→eq queue.code ok good))
          (λ _. inl refl)

    first :
        (a : Option ℕ)
        → k.shm.ftok ipc_key_seed_for_take_photo_msg ≡ a
        → Posts (IsSetUp k) (elim a as (λ _. Run) [
          | none ↦ run (came (exited get_ipc_key_fail s)) [] false
          | some key ↦
              if (create_message_queue key true (k.take_photo_queue key)).code == ok
              then second (k.shm.ftok ipc_key_seed_for_send_photo_msg)
              else no_queue
        ])
    first none e = inl refl
    first (some key) e =
        let queue = create_message_queue key true (k.take_photo_queue key) in
        if_cases (Posts (IsSetUp k)) (queue.code == ok)
          (second (k.shm.ftok ipc_key_seed_for_send_photo_msg)) no_queue
          (λ good.
            second-Posts key (k.shm.ftok ipc_key_seed_for_send_photo_msg) e
              (==→eq queue.code ok good) refl)
          (λ _. inl refl)

cmd_server-Posts :
    (k : Start) (cs : List Client) (s : Server) → Posts (IsSetUp k) (cmd_server k cs s)
unfolding cmd_server
cmd_server-Posts k cs s = ends (attach k.shm) refl
  where
    ends :
        (a : Attached)
        → attach k.shm ≡ a
        → Posts (IsSetUp k) (elim a as (λ _. Run) [
          | refused code ↦ run (came (exited code s)) [] false
          | attached m ↦ open_queues k m cs s
        ])
    ends (refused code) e = inl refl
    ends (attached m) e = open_queues-Posts k m cs s e

abbrev pub first_calls : List Act
first_calls = sem_open ∷ fork_cmd_server ∷ sem_wait ∷ []

-- A process of `main` goes no further than `sem_wait` and does not return OK. It waits there, unless
-- the semaphore could not be opened, there was no parent, or the wait was interrupted.
abbrev pub Stops : Boot → Process → Type 0
Stops b p =
    ((rest : List Act) × (p.acts ++ rest ≡ first_calls))
    × (p.ending ≢ returned ok)
    × ((p ≡ process blocked first_calls)
        ⊎ (b.opened ≡ false)
        ⊎ (b.cmd_fork ≡ no_fork)
        ⊎ (b.cmd_fork ≡ child)
        ⊎ (b.waited ≡ some false))

child-Stops :
    (b : Boot) (server : Option ℕ)
    → b.cmd_fork ≡ child
    → Stops b (after sem_open (after fork_cmd_server (run_child cmd_server_running_fail server)))
child-Stops b none e = ((sem_wait ∷ [], refl), λ h. cc, inr (inr (inr (inl e))))
child-Stops b (some ret) e =
    if_either (λ p. Stops b (after sem_open (after fork_cmd_server p))) (ret == ok)
      (process (exits ok) []) (process (exits cmd_server_running_fail) [])
      ((sem_wait ∷ [], refl), λ h. cc, inr (inr (inr (inl e))))
      ((sem_wait ∷ [], refl), λ h. cc, inr (inr (inr (inl e))))

main-Stops : (b : Boot) → b.waited ≢ some true → Stops b (main b)
unfolding main start await_cmd_server
main-Stops b ne = ends b.opened b.cmd_fork b.waited refl refl refl
  where
    ends :
        (o : Bool) (f : Fork) (w : Option Bool)
        → b.opened ≡ o
        → b.cmd_fork ≡ f
        → b.waited ≡ w
        → Stops b (main (record b { opened = o; cmd_fork = f; waited = w }))
    ends false f w eo ef ew = (
      (fork_cmd_server ∷ sem_wait ∷ [], refl),
      not_ok sem_open_fail (λ z. omega arith),
      inr (inl eo),
    )
    ends true no_fork w eo ef ew =
        ((sem_wait ∷ [], refl), not_ok fork_cmd_server_fail (λ z. omega arith), inr (inr (inl ef)))
    ends true child w eo ef ew = child-Stops b b.cmd_server ef
    ends true (parent pid) none eo ef ew = (([], refl), λ h. cc, inl refl)
    ends true (parent pid) (some false) eo ef ew =
        (([], refl), not_ok sem_wait_fail (λ z. omega arith), inr (inr (inr (inr ew))))
    ends true (parent pid) (some true) eo ef ew = absurd (ne ew)

-- The server has posted the semaphore, and it is set up; or it has returned
-- with an error, and `main` stops.
abbrev pub WaitsFor : Boot → Start → Run → Type 0
WaitsFor b k r =
    ((r.posted ≡ true) × IsSetUp k)
    ⊎ ((r.posted ≡ false)
        × ((code : ℕ) × (t : Server) × (r.outcome ≡ came (exited code t)) × (code ≢ ok))
        × Stops b (main b))

-- If `sem_wait` of `main` succeeds only on the semaphore that its child `cmd_server` has posted: either
-- `cmd_server` has posted it, and then it has created both queues, which video_server and photo_trans
-- use, and attached the shared memory, or has taken a failed shmat, (void *)-1, for it; or it has returned with an error, and then `main` starts
-- neither of them and does not return OK, but waits for the semaphore, unless it could not be opened,
-- `fork` has made no parent, or `sem_wait` failed.
pub main-WaitsFor :
    (b : Boot) (k : Start) (cs : List Client) (s : Server)
    → (b.waited ≡ some true → (cmd_server k cs s).posted ≡ true)
    → WaitsFor b k (cmd_server k cs s)
main-WaitsFor b k cs s woken = elim (cmd_server-Accounts k cs s) [
  | inl (not_yet, early) ↦ inr (not_yet, early, main-Stops b (λ w. cc (woken w, not_yet)))
  | inr (posted, _) ↦ elim (cmd_server-Posts k cs s) [
    | inl not_yet ↦ absurd (cc (posted, not_yet))
    | inr set_up ↦ inl (posted, set_up)
  ]
]
