-- ===== src/Video/Stream/Tracking.antt =====
-- What the calls on the camera have made of it.
use handle_wifi_camera_itop.Common.{
  ℕ, suc, ◌-◌, ◌≡◌, ◌∙◌, inl, inr, refl, sym, ap, Bool, true, false, List, [], ◌∷◌, ◌++◌,
}
use handle_wifi_camera_itop.Public.ErrorCode.{ok}
use handle_wifi_camera_itop.Video.Device.{
  DeviceCall, Reply, accepted, refused, unread, streamon, streamoff, reqbufs, qbuf, dqbuf, s_fmt,
  Device, Done,
}
use handle_wifi_camera_itop.Video.Stream.{reset_v4l2_stream}
use handle_wifi_camera_itop.Video.Stream.Scripts.{Runs}
use handle_wifi_camera_itop.Video.Stream.Entries.{Entry, log_of}
use handle_wifi_camera_itop.Video.Stream.Resets.{reset_script, reset_v4l2_stream-Runs}

-- What the accepted calls have made of the camera: the format, whether it streams, and how many buffers the
-- driver has.
pub record Tracked : Type 0 where
  pub width : ℕ
  pub height : ℕ
  pub streaming : Bool
  pub queued : ℕ

abbrev pub tracked : ℕ → ℕ → Bool → ℕ → Tracked
tracked w h s q = record { width = w; height = h; streaming = s; queued = q }

abbrev pub track : DeviceCall → Tracked → Tracked
track (s_fmt w h) t = record t { width = w; height = h }
track streamon t = record t { streaming = true }
track streamoff t = record t { streaming = false; queued = 0 }
track (reqbufs n) t = record t { queued = 0 }
track (qbuf i) t = record t { queued = suc t.queued }
track (dqbuf i) t = record t { queued = t.queued - 1 }
track _ t = t

-- Only what the device has accepted has an effect on it.
abbrev pub effect : DeviceCall × Reply → Tracked → Tracked
effect (c, accepted) t = track c t
effect (c, refused) t = t
effect (c, unread) t = t

abbrev pub track_all : List (DeviceCall × Reply) → Tracked → Tracked
track_all [] t = t
track_all (c ∷ cs) t = track_all cs (effect c t)

pub track_all-append :
    (cs ds : List (DeviceCall × Reply)) (t : Tracked)
    → track_all (cs ++ ds) t ≡ track_all ds (track_all cs t)
track_all-append [] ds t = refl
track_all-append (c ∷ cs) ds t = track_all-append cs ds (effect c t)

-- The camera streams w x h pictures, and the driver has the 8 buffers.
abbrev pub Streams : ℕ → ℕ → Device → Type 0
Streams w h d = track_all d.calls (tracked 0 0 false 0) ≡ tracked w h true 8

-- A script that has been run to its end.
pub run_of :
    (script : List Entry) (d : Device) (r : Done)
    → Runs script d r
    → r.code ≡ ok
    → r.device.calls ≡ d.calls ++ log_of script
run_of script d r (inl (k, a, e)) h = e
run_of script d r (inr (before, c, code, after, left, s, ne, k, a, stop, e)) h =
    absurd (ne (sym k ∙ h))

pub reset-Streams :
    (w h scenario : ℕ) (d : Device)
    → (reset_v4l2_stream w h scenario d).code ≡ ok
    → Streams w h (reset_v4l2_stream w h scenario d).device
reset-Streams w h scenario d e =
    let r = reset_v4l2_stream w h scenario d in
    let start = tracked 0 0 false 0 in
    ap (λ cs. track_all cs start)
      (run_of (reset_script w h scenario) d r (reset_v4l2_stream-Runs w h scenario d) e)
    ∙ track_all-append d.calls (log_of (reset_script w h scenario)) start
