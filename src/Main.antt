-- ===== src/Main.antt =====
-- `main` of main.c: the three processes of the program.
pub mod Ordering
pub mod Waiting
use handle_wifi_camera_itop.Common.{
  ℕ, ◌==◌, if◌then◌else◌, Bool, true, false, List, [], ◌∷◌, Option, some, none,
}
use handle_wifi_camera_itop.Public.ErrorCode.{
  ok, sem_open_fail, fork_cmd_server_fail, cmd_server_running_fail, sem_wait_fail, sem_close_fail,
  sem_unlink_fail, fork_video_server_fail, video_server_running_fail, fork_photo_trans_client_fail,
  photo_trans_client_running_fail,
}

-- What `fork` answers: -1, 0 in the child, or the number of the child.
pub data Fork : Type 0 where
  no_fork child : Fork
  parent : ℕ → Fork

-- The calls of `main`, in order.
pub data Act : Type 0 where
  sem_open fork_cmd_server sem_wait sem_close sem_unlink fork_video_server fork_photo_trans : Act
  waitpid : ℕ → Act

-- How a process ends: with a `return`; as a child, with `exit`; in its server; or waiting for the
-- semaphore.
pub data Ending : Type 0 where
  returned exits : ℕ → Ending
  serving blocked : Ending

pub record Process : Type 0 where
  pub ending : Ending
  pub acts : List Act

abbrev pub process : Ending → List Act → Process
process ending acts = record { ending = ending; acts = acts }

abbrev pub after : Act → Process → Process
after a p = record p { acts = a ∷ p.acts }

-- What the kernel answers, and what each server returns if this process is the child that runs it
-- (`none` while it runs). `waited` is `none` while nobody posts the semaphore.
pub record Boot : Type 0 where
  pub opened : Bool
  pub cmd_fork : Fork
  pub cmd_server : Option ℕ
  pub waited : Option Bool
  pub closed : Bool
  pub unlinked : Bool
  pub video_fork : Fork
  pub video_server : Option ℕ
  pub photo_fork : Fork
  pub photo_trans : Option ℕ

-- A child leaves with OK or with the code of its server's failure.
abbrev pub run_child : ℕ → Option ℕ → Process
run_child fail none = process serving []
run_child fail (some ret) = if ret == ok then process (exits ok) [] else process (exits fail) []

-- `fork`, the child, and the rest of the parent.
unfoldable pub start : Act → Fork → ℕ → ℕ → Option ℕ → (ℕ → Process) → Process
start a f no_child fail server rest = after a (elim f [
  | no_fork ↦ process (returned no_child) []
  | child ↦ run_child fail server
  | parent pid ↦ rest pid
])

abbrev pub await_all : ℕ → ℕ → ℕ → Process
await_all cmd_server_pid video_server_pid photo_trans_pid =
    process (returned ok)
      (waitpid cmd_server_pid ∷ waitpid video_server_pid ∷ waitpid photo_trans_pid ∷ [])

-- main.c:97-161.
unfoldable pub start_servers : Boot → ℕ → Process
unfolding start
start_servers k cmd_server_pid =
    start fork_video_server k.video_fork fork_video_server_fail video_server_running_fail
      k.video_server
      (λ video_server_pid.
        start fork_photo_trans k.photo_fork fork_photo_trans_client_fail
          photo_trans_client_running_fail k.photo_trans
          (λ photo_trans_pid. await_all cmd_server_pid video_server_pid photo_trans_pid))

-- main.c:60-161.
unfoldable pub await_cmd_server : Boot → ℕ → Process
unfolding start_servers
await_cmd_server k cmd_server_pid = after sem_wait (elim k.waited [
  | none ↦ process blocked []
  | some false ↦ process (returned sem_wait_fail) []
  | some true ↦ after sem_close (
      if k.closed
      then after sem_unlink (
          if k.unlinked
          then start_servers k cmd_server_pid
          else process (returned sem_unlink_fail) [])
      else process (returned sem_close_fail) [])
])

unfoldable pub main : Boot → Process
unfolding await_cmd_server start
main k = after sem_open (
    if k.opened
    then start fork_cmd_server k.cmd_fork fork_cmd_server_fail cmd_server_running_fail k.cmd_server
        (λ cmd_server_pid. await_cmd_server k cmd_server_pid)
    else process (returned sem_open_fail) [])
