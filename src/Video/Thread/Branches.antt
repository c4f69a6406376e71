-- ===== src/Video/Thread/Branches.antt =====
-- A round and what follows it.
use handle_wifi_camera_itop.Common.{◌≡◌, ◌≢◌, refl, List}
use handle_wifi_camera_itop.Video.Thread.{
  Round, Ending, continue, waiting, fault_at_null, undefined, exited, returned_early, Thread,
  thread_rounds,
}

-- What follows a round.
unfoldable pub go_on : List Round → Thread → Thread
go_on ws r = elim r.ending [
  | continue ↦ thread_rounds ws r.camera
  | waiting ↦ r
  | fault_at_null ↦ r
  | undefined ↦ r
  | exited _ ↦ r
  | returned_early _ ↦ r
]

pub go_on_cases :
    (P : Thread → Type 0) (ws : List Round) (r : Thread)
    → (r.ending ≡ continue → P (thread_rounds ws r.camera))
    → (r.ending ≢ continue → P r)
    → P (go_on ws r)
unfolding go_on
go_on_cases P ws r on off = ends r.ending on off
  where
    ends :
        (x : Ending)
        → (x ≡ continue → P (thread_rounds ws r.camera))
        → (x ≢ continue → P r)
        → P (elim x as (λ _. Thread) [
          | continue ↦ thread_rounds ws r.camera
          | waiting ↦ r
          | fault_at_null ↦ r
          | undefined ↦ r
          | exited _ ↦ r
          | returned_early _ ↦ r
        ])
    ends continue on off = on refl
    ends waiting on off = off (λ h. cc)
    ends fault_at_null on off = off (λ h. cc)
    ends undefined on off = off (λ h. cc)
    ends (exited c) on off = off (λ h. cc)
    ends (returned_early c) on off = off (λ h. cc)
