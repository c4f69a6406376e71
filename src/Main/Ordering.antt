-- ===== src/Main/Ordering.antt =====
-- The order in which `main` starts the processes.
use handle_wifi_camera_itop.Common.{
  ℕ, ◌==◌, if_either, ◌≡◌, ◌≢◌, ◌⊎◌, inl, inr, refl, ap, Bool, true, false, List, [], ◌∷◌, ◌++◌,
  Option, some, none, arith,
}
use handle_wifi_camera_itop.Public.ErrorCode.{
  ok, sem_open_fail, fork_cmd_server_fail, cmd_server_running_fail, sem_wait_fail, sem_close_fail,
  sem_unlink_fail, fork_video_server_fail, video_server_running_fail, fork_photo_trans_client_fail,
  photo_trans_client_running_fail,
}
use handle_wifi_camera_itop.Main.{
  Fork, no_fork, child, parent, Act, sem_open, fork_cmd_server, sem_wait, sem_close, sem_unlink,
  fork_video_server, fork_photo_trans, waitpid, Ending, returned, exits, serving, blocked, Process,
  process, after, Boot, run_child, start, await_all, start_servers, await_cmd_server, main,
}

abbrev pub pid_of : Fork → ℕ
pid_of no_fork = 0
pid_of child = 0
pid_of (parent pid) = pid

-- All the calls of a start that goes well.
abbrev pub awaiting : ℕ → Boot → List Act
awaiting pid k = waitpid pid ∷ waitpid (pid_of k.video_fork) ∷ waitpid (pid_of k.photo_fork) ∷ []

abbrev pub whole_start : Boot → List Act
whole_start k =
    sem_open
    ∷ fork_cmd_server
    ∷ sem_wait
    ∷ sem_close
    ∷ sem_unlink
    ∷ fork_video_server
    ∷ fork_photo_trans
    ∷ awaiting (pid_of k.cmd_fork) k

-- The calls of a process are the first of a list: all of them if it returns OK.
abbrev pub Begins : List Act → Process → Type 0
Begins all p =
    (rest : List Act) × (p.acts ++ rest ≡ all)
    × (((p.ending ≡ returned ok) × (rest ≡ [])) ⊎ (p.ending ≢ returned ok))

after-Begins :
    (a : Act) (all : List Act) (p : Process) → Begins all p → Begins (a ∷ all) (after a p)
after-Begins a all p (rest, e, h) = (rest, ap (λ l. a ∷ l) e, h)

code_of : Ending → ℕ
code_of (returned code) = code
code_of (exits code) = 1
code_of serving = 1
code_of blocked = 1

pub not_ok : (code : ℕ) → code ≢ ok → returned code ≢ returned ok
unfolding code_of
not_ok code ne h = ne (ap code_of h)

fails-Begins : (code : ℕ) (all : List Act) → code ≢ ok → Begins all (process (returned code) [])
fails-Begins code all ne = (all, refl, inr (not_ok code ne))

child-Begins : (fail : ℕ) (server : Option ℕ) (all : List Act) → Begins all (run_child fail server)
child-Begins fail none all = (all, refl, inr (λ h. cc))
child-Begins fail (some ret) all =
    if_either (Begins all) (ret == ok) (process (exits ok) []) (process (exits fail) [])
      (all, refl, inr (λ h. cc)) (all, refl, inr (λ h. cc))

start-Begins :
    (a : Act) (f : Fork) (no_child fail : ℕ) (server : Option ℕ) (rest : ℕ → Process)
    (all : List Act)
    → no_child ≢ ok
    → Begins all (rest (pid_of f))
    → Begins (a ∷ all) (start a f no_child fail server rest)
unfolding start
start-Begins a no_fork no_child fail server rest all ne h =
    after-Begins a all (process (returned no_child) []) (fails-Begins no_child all ne)
start-Begins a child no_child fail server rest all ne h =
    after-Begins a all (run_child fail server) (child-Begins fail server all)
start-Begins a (parent pid) no_child fail server rest all ne h = after-Begins a all (rest pid) h

start_servers-Begins :
    (k : Boot) (pid : ℕ)
    → Begins (fork_video_server ∷ fork_photo_trans ∷ awaiting pid k) (start_servers k pid)
unfolding start_servers
start_servers-Begins k pid =
    start-Begins fork_video_server k.video_fork fork_video_server_fail video_server_running_fail
      k.video_server
      (λ video_server_pid.
        start fork_photo_trans k.photo_fork fork_photo_trans_client_fail
          photo_trans_client_running_fail k.photo_trans
          (λ photo_trans_pid. await_all pid video_server_pid photo_trans_pid))
      (fork_photo_trans ∷ awaiting pid k) (λ z. omega arith)
      (start-Begins fork_photo_trans k.photo_fork fork_photo_trans_client_fail
        photo_trans_client_running_fail k.photo_trans
        (λ photo_trans_pid. await_all pid (pid_of k.video_fork) photo_trans_pid) (awaiting pid k)
        (λ z. omega arith) ([], refl, inl (refl, refl)))

await_cmd_server-Begins :
    (k : Boot) (pid : ℕ)
    → Begins
        (sem_wait ∷ sem_close ∷ sem_unlink ∷ fork_video_server ∷ fork_photo_trans ∷ awaiting pid k)
        (await_cmd_server k pid)
unfolding await_cmd_server
await_cmd_server-Begins k pid = ends k.waited k.closed k.unlinked
  where
    later : List Act
    later = fork_video_server ∷ fork_photo_trans ∷ awaiting pid k

    ends :
        (w : Option Bool) (c u : Bool)
        → Begins
            (sem_wait ∷ sem_close ∷ sem_unlink ∷ later)
            (await_cmd_server (record k { waited = w; closed = c; unlinked = u }) pid)
    ends none c u =
        after-Begins sem_wait (sem_close ∷ sem_unlink ∷ later) (process blocked [])
          (sem_close ∷ sem_unlink ∷ later, refl, inr (λ h. cc))
    ends (some false) c u =
        after-Begins sem_wait (sem_close ∷ sem_unlink ∷ later) (process (returned sem_wait_fail) [])
          (fails-Begins sem_wait_fail (sem_close ∷ sem_unlink ∷ later) (λ z. omega arith))
    ends (some true) false u =
        after-Begins sem_wait (sem_close ∷ sem_unlink ∷ later)
          (after sem_close (process (returned sem_close_fail) []))
          (after-Begins sem_close (sem_unlink ∷ later) (process (returned sem_close_fail) [])
            (fails-Begins sem_close_fail (sem_unlink ∷ later) (λ z. omega arith)))
    ends (some true) true false =
        after-Begins sem_wait (sem_close ∷ sem_unlink ∷ later)
          (after sem_close (after sem_unlink (process (returned sem_unlink_fail) [])))
          (after-Begins sem_close (sem_unlink ∷ later)
            (after sem_unlink (process (returned sem_unlink_fail) []))
            (after-Begins sem_unlink later (process (returned sem_unlink_fail) [])
              (fails-Begins sem_unlink_fail later (λ z. omega arith))))
    ends (some true) true true =
        after-Begins sem_wait (sem_close ∷ sem_unlink ∷ later)
          (after sem_close (after sem_unlink (start_servers k pid)))
          (after-Begins sem_close (sem_unlink ∷ later) (after sem_unlink (start_servers k pid))
            (after-Begins sem_unlink later (start_servers k pid) (start_servers-Begins k pid)))

-- Whatever the kernel answers, a process of `main` makes its calls in one order, without a gap: the
-- semaphore is opened, cmd_server started and waited for, the semaphore closed and unlinked, and only
-- then video_server and photo_trans are started, and all three waited for. It returns OK only after
-- all of them.
pub main-Begins : (k : Boot) → Begins (whole_start k) (main k)
unfolding main
main-Begins k = ends k.opened
  where
    rest : List Act
    rest =
        sem_wait
        ∷ sem_close
        ∷ sem_unlink
        ∷ fork_video_server
        ∷ fork_photo_trans
        ∷ awaiting (pid_of k.cmd_fork) k

    ends : (b : Bool) → Begins (sem_open ∷ fork_cmd_server ∷ rest) (main (record k { opened = b }))
    ends true =
        after-Begins sem_open (fork_cmd_server ∷ rest)
          (start fork_cmd_server k.cmd_fork fork_cmd_server_fail cmd_server_running_fail
            k.cmd_server (λ pid. await_cmd_server k pid))
          (start-Begins fork_cmd_server k.cmd_fork fork_cmd_server_fail cmd_server_running_fail
            k.cmd_server (λ pid. await_cmd_server k pid) rest (λ z. omega arith)
            (await_cmd_server-Begins k (pid_of k.cmd_fork)))
    ends false =
        after-Begins sem_open (fork_cmd_server ∷ rest) (process (returned sem_open_fail) [])
          (fails-Begins sem_open_fail (fork_cmd_server ∷ rest) (λ z. omega arith))
