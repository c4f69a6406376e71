-- ===== src/Video/Start/Readiness.antt =====
-- What holds when `video_pthread` has told the others that it runs.
use handle_wifi_camera_itop.Common.{
  if_either, if_cases, ℕ, ◌==◌, ==→eq, if◌then◌else◌, ◌≡◌, ◌≢◌, ◌⊎◌, inl, inr, refl, true, false,
  List, Option, some, none, length,
}
use handle_wifi_camera_itop.Public.ErrorCode.{
  ok, get_sps_and_pps_from_header_fail, video_sem_post_fail,
}
use handle_wifi_camera_itop.FrameBuffer.{Wake, update_globe_frame_info}
use handle_wifi_camera_itop.Video.Header.{ParameterSets, get_sps_and_pps_from_header}
use handle_wifi_camera_itop.Video.Device.{Done}
use handle_wifi_camera_itop.Video.Stream.Tracking.{Streams}
use handle_wifi_camera_itop.Video.Thread.{
  Camera, Round, Thread, continue, waiting, exited, thread, pthread_exit, update_failed,
  thread_rounds,
}
use handle_wifi_camera_itop.Video.Thread.Previewing.{
  Previews, update_failed-Previews, thread_rounds-Previews,
}
use handle_wifi_camera_itop.Video.Start.{
  Startup, Started, started, start_camera, start_encoder, hand_set, announce, read_header,
  open_queues, video_pthread,
}
use handle_wifi_camera_itop.Video.Start.Streaming.{start_camera-Reaches, start_encoder-Streams}

hand_set-Previews :
    (k : Startup) (wakes : List Wake) (bytes : List ℕ) (rest : Camera → Thread) (s : Camera)
    → ((s' : Camera) → Streams 640 480 s'.device → Previews (rest s'))
    → Streams 640 480 s.device
    → Previews (hand_set k wakes bytes rest s)
unfolding hand_set
hand_set-Previews k wakes bytes rest s h p =
    let u = update_globe_frame_info k.can_lock wakes s.buffer bytes (length bytes) 0 in
    ends u.code (record s { buffer = u.buffer }) p
  where
    ends :
        (code : Option ℕ) (s' : Camera)
        → Streams 640 480 s'.device
        → Previews (elim code as (λ _. Thread) [
          | none ↦ thread waiting s'
          | some ret ↦ if ret == ok then rest s' else update_failed ret s'
        ])
    ends none s' p = inl (λ h. cc)
    ends (some ret) s' p =
        if_either Previews (ret == ok) (rest s') (update_failed ret s') (h s' p)
          (update_failed-Previews ret s')

-- The semaphore has not been posted and the thread has ended; or it has, the parameter sets are
-- there, and if the thread goes on the camera is in the preview.
abbrev pub IsReady : Started → Type 0
IsReady r =
    ((r.posted ≡ false) × (r.thread.ending ≢ continue))
    ⊎ ((r.posted ≡ true)
        × ((sets : ParameterSets) × (r.sets ≡ some sets) × (sets.code ≡ ok))
        × Previews r.thread)

not-IsReady :
    (code : ℕ) (s : Camera) (sets : Option ParameterSets)
    → IsReady (started (pthread_exit code s) sets false)
unfolding pthread_exit
not-IsReady code s sets = inl (refl, λ h. cc)

read_header-IsReady :
    (k : Startup) (ws : List Round) (s : Camera)
    → Streams 640 480 s.device
    → IsReady (read_header k ws s)
unfolding read_header announce
read_header-IsReady k ws s p =
    let sets = get_sps_and_pps_from_header k.header k.header_size in
    let run =
      hand_set k k.sps_wakes sets.sps (hand_set k k.pps_wakes sets.pps (thread_rounds ws)) s in
    if_cases IsReady (sets.code == ok)
      (if k.can_post
        then started run (some sets) true
        else started (pthread_exit video_sem_post_fail s) (some sets) false)
      (started (pthread_exit get_sps_and_pps_from_header_fail s) none false)
      (λ good.
        if_cases IsReady k.can_post (started run (some sets) true)
          (started (pthread_exit video_sem_post_fail s) (some sets) false)
          (λ _. inr (
            refl,
            (sets, refl, ==→eq sets.code ok good),
            hand_set-Previews k k.sps_wakes sets.sps
                (hand_set k k.pps_wakes sets.pps (thread_rounds ws)) s
                (λ s' q.
                  hand_set-Previews k k.pps_wakes sets.pps (thread_rounds ws) s'
                    (λ t r. thread_rounds-Previews ws t r) q)
                p,
          ))
          (λ _. not-IsReady video_sem_post_fail s (some sets)))
      (λ _. not-IsReady get_sps_and_pps_from_header_fail s none)

-- Whatever the outside world answers before the loop of `video_pthread` and in any rounds of it:
-- either the semaphore on which `video_server` waits is not posted, and the thread is not in its
-- loop; or it is posted, the two parameter sets have been read, and if the thread goes on with its
-- loop, the driver has accepted the calls by which the camera streams 640 x 480 pictures and the
-- driver has the 8 buffers.
pub video_pthread-IsReady :
    (k : Startup) (ws : List Round) (s : Camera) → IsReady (video_pthread k ws s)
unfolding video_pthread
video_pthread-IsReady k ws s =
    let r = start_camera k s.device in
    let s' = record s { device = r.device } in
    let e = start_encoder r.device in
    let s'' = record s { device = e.device } in
    let on =
      if e.code == ok then read_header k ws s'' else started (pthread_exit e.code s'') none false in
    let off = started (thread (exited r.code) s') none false in
    if_cases IsReady (open_queues k == ok) (if r.code == ok then on else off)
      (started (thread (exited (open_queues k)) s) none false)
      (λ _.
        if_cases IsReady (r.code == ok) on off
          (λ camera.
            if_cases IsReady (e.code == ok) (read_header k ws s'')
              (started (pthread_exit e.code s'') none false)
              (λ encoder. read_header-IsReady k ws s'' (
                streams r e (start_camera-Reaches k s.device) (==→eq r.code ok camera)
                  (start_encoder-Streams r.device) (==→eq e.code ok encoder)))
              (λ _. not-IsReady e.code s'' none))
          (λ _. inl (refl, λ h. cc)))
      (λ _. inl (refl, λ h. cc))
  where
    streams :
        (a b : Done)
        → (a.code ≢ ok) ⊎ Streams 640 480 a.device
        → a.code ≡ ok
        → (Streams 640 480 a.device → (b.code ≢ ok) ⊎ Streams 640 480 b.device)
        → b.code ≡ ok
        → Streams 640 480 b.device
    streams a b (inl bad) here f good = absurd (bad here)
    streams a b (inr p) here f good = elim (f p) [ inl bad ↦ absurd (bad good) | inr q ↦ q ]
