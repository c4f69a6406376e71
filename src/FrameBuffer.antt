-- ===== src/FrameBuffer.antt =====
-- The one-frame buffer that the camera thread and the RTP thread share: `struct_frame_buffer` of
-- video.h, `update_globe_frame_info` of video.c and `get_globe_frame_info` of rtp.c.
pub mod Handoff
pub mod Locking
use handle_wifi_camera_itop.Common.{
  ℕ, ◌+◌, ◌-◌, ◌*◌, ◌%◌, ◌^◌, Bool, true, false, List, [], ◌∷◌, Option, some, none, drop, memcpy,
}
use handle_wifi_camera_itop.Public.ErrorCode.{
  ok, get_frame_mutex_lock_fail, get_frame_cond_wait_fail, pthread_mutex_lock_fail,
  pthread_cond_wait_fail,
}

abbrev pub h264_start_code_length : ℕ
h264_start_code_length = 4

abbrev pub nalu_buffer_length : ℕ
nalu_buffer_length = 1024 * 1024

-- The fields that the two functions use; `locked` says that a thread holds `mtx`.
pub record FrameBuffer : Type 0 where
  pub frame_length : ℕ
  pub frame_buffer : List ℕ
  pub time_stamp : ℕ
  pub is_full : Bool
  pub locked : Bool

-- How a `pthread_cond_wait` ends: with the buffer as the other thread has left it (the mutex held
-- again), or with an error (the mutex still held).
pub data Wake : Type 0 where
  woken : FrameBuffer → Wake
  wait_failed : Wake

-- `code` is `none` while the thread waits for the condition, with the mutex released.
pub record Updated : Type 0 where
  pub code : Option ℕ
  pub buffer : FrameBuffer

pub record Fetched : Type 0 where
  pub code : Option ℕ
  pub buffer : FrameBuffer
  pub nalu_buf : List ℕ
  pub nalu_length : ℕ
  pub time_stamp : ℕ

-- video.c:860-868: the copy, the signal and the unlock.
pub store : FrameBuffer → List ℕ → ℕ → ℕ → FrameBuffer
store b frame frame_length time_stamp = record b {
  frame_buffer = memcpy b.frame_buffer frame frame_length;
  time_stamp = time_stamp;
  frame_length = frame_length;
  is_full = true;
  locked = false;
}

-- video.c:847-859: `while(is_full == true)` waits.
update_wait : List Wake → Bool → FrameBuffer → List ℕ → ℕ → ℕ → Updated
update_wait wakes false b frame frame_length time_stamp = record {
  code = some ok;
  buffer = store b frame frame_length time_stamp;
}
update_wait [] true b frame frame_length time_stamp = record {
  code = none;
  buffer = record b { locked = false };
}
update_wait (woken b' ∷ wakes) true b frame frame_length time_stamp =
    update_wait wakes b'.is_full (record b' { locked = true }) frame frame_length time_stamp
update_wait (wait_failed ∷ wakes) true b frame frame_length time_stamp = record {
  code = some pthread_cond_wait_fail;
  buffer = b;
}

-- `lock` says whether `pthread_mutex_lock` succeeds.
unfoldable pub update_globe_frame_info : Bool → List Wake → FrameBuffer → List ℕ → ℕ → ℕ → Updated
unfolding update_wait store
update_globe_frame_info false wakes b frame frame_length time_stamp = record {
  code = some pthread_mutex_lock_fail;
  buffer = b;
}
update_globe_frame_info true wakes b frame frame_length time_stamp =
    update_wait wakes b.is_full (record b { locked = true }) frame frame_length time_stamp

-- rtp.c:34-42. The length is an unsigned int: below 4 bytes it wraps, and the copy then runs behind both
-- buffers, where C leaves open what follows.
pub fetch : FrameBuffer → List ℕ → Fetched
fetch b nalu_buf =
    let nalu_length : ℕ = (b.frame_length + 2 ^ 32 - h264_start_code_length) % 2 ^ 32 in
    record {
      code = some ok;
      buffer = record b { is_full = false; locked = false };
      nalu_buf = memcpy nalu_buf (drop h264_start_code_length b.frame_buffer) nalu_length;
      nalu_length = nalu_length;
      time_stamp = b.time_stamp;
    }

-- rtp.c:20-32: `while(is_full == false)` waits. The out-parameters keep their old values until then.
get_wait : List Wake → Bool → FrameBuffer → List ℕ → ℕ → ℕ → Fetched
get_wait wakes true b nalu_buf nalu_length time_stamp = fetch b nalu_buf
get_wait [] false b nalu_buf nalu_length time_stamp = record {
  code = none;
  buffer = record b { locked = false };
  nalu_buf = nalu_buf;
  nalu_length = nalu_length;
  time_stamp = time_stamp;
}
get_wait (woken b' ∷ wakes) false b nalu_buf nalu_length time_stamp =
    get_wait wakes b'.is_full (record b' { locked = true }) nalu_buf nalu_length time_stamp
get_wait (wait_failed ∷ wakes) false b nalu_buf nalu_length time_stamp = record {
  code = some get_frame_cond_wait_fail;
  buffer = b;
  nalu_buf = nalu_buf;
  nalu_length = nalu_length;
  time_stamp = time_stamp;
}

unfoldable pub get_globe_frame_info : Bool → List Wake → FrameBuffer → List ℕ → ℕ → ℕ → Fetched
unfolding get_wait fetch
get_globe_frame_info false wakes b nalu_buf nalu_length time_stamp = record {
  code = some get_frame_mutex_lock_fail;
  buffer = b;
  nalu_buf = nalu_buf;
  nalu_length = nalu_length;
  time_stamp = time_stamp;
}
get_globe_frame_info true wakes b nalu_buf nalu_length time_stamp =
    get_wait wakes b.is_full (record b { locked = true }) nalu_buf nalu_length time_stamp
