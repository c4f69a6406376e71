-- ===== src/FrameBuffer/Locking.antt =====
-- Who holds the mutex when the two functions return.
use handle_wifi_camera_itop.Common.{
  ℕ, ◌≡◌, ◌⊎◌, refl, Bool, true, false, List, [], ◌∷◌, Option, some, none, arith,
}
use handle_wifi_camera_itop.Public.ErrorCode.{ok, get_frame_cond_wait_fail, pthread_cond_wait_fail}
use handle_wifi_camera_itop.FrameBuffer.{
  FrameBuffer, Wake, woken, wait_failed, store, fetch, update_wait, update_globe_frame_info,
  get_wait, get_globe_frame_info,
}

-- A failed wait returns with the mutex locked; every other end, a wait included, has released it.
abbrev pub Released : ℕ → Option ℕ → FrameBuffer → Type 0
Released failure code b =
    ((code ≡ some failure) × (b.locked ≡ true))
    ⊎ (((code ≡ some ok) ⊎ (code ≡ none)) × (b.locked ≡ false))

update_wait-Released :
    (wakes : List Wake) (full : Bool) (b : FrameBuffer) (frame : List ℕ) (n t : ℕ)
    → b.locked ≡ true
    → let r = update_wait wakes full b frame n t in Released pthread_cond_wait_fail r.code r.buffer
unfolding update_wait store
update_wait-Released wakes false b frame n t h = ground arith
update_wait-Released [] true b frame n t h = ground arith
update_wait-Released (woken b' ∷ wakes) true b frame n t h =
    update_wait-Released wakes b'.is_full (record b' { locked = true }) frame n t refl
update_wait-Released (wait_failed ∷ wakes) true b frame n t h = ground arith

get_wait-Released :
    (wakes : List Wake) (full : Bool) (b : FrameBuffer) (nalu_buf : List ℕ) (n t : ℕ)
    → b.locked ≡ true
    → let r = get_wait wakes full b nalu_buf n t in
      Released get_frame_cond_wait_fail r.code r.buffer
unfolding get_wait fetch
get_wait-Released wakes true b nalu_buf n t h = ground arith
get_wait-Released [] false b nalu_buf n t h = ground arith
get_wait-Released (woken b' ∷ wakes) false b nalu_buf n t h =
    get_wait-Released wakes b'.is_full (record b' { locked = true }) nalu_buf n t refl
get_wait-Released (wait_failed ∷ wakes) false b nalu_buf n t h = ground arith

-- Once `pthread_mutex_lock` has succeeded, both functions release the mutex on every way out but
-- one: when `pthread_cond_wait` fails they return its code with the mutex still locked.
pub mutex_Released :
    (wakes : List Wake) (b : FrameBuffer) (bytes : List ℕ) (n t : ℕ)
    → (let r = update_globe_frame_info true wakes b bytes n t in
        Released pthread_cond_wait_fail r.code r.buffer)
      × (let r = get_globe_frame_info true wakes b bytes n t in
          Released get_frame_cond_wait_fail r.code r.buffer)
unfolding update_globe_frame_info get_globe_frame_info
mutex_Released wakes b bytes n t = (
  update_wait-Released wakes b.is_full (record b { locked = true }) bytes n t refl,
  get_wait-Released wakes b.is_full (record b { locked = true }) bytes n t refl,
)
