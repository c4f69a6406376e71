-- ===== src/FrameBuffer/Handoff.antt =====
-- The hand-over of frames from the camera thread to the RTP thread.
use handle_wifi_camera_itop.Common.{
  ℕ, ◌+◌, ◌-◌, ◌≤◌, ◌≡◌, refl, sym, ap, ap₂, ◌%◌, ◌^◌, take_all, drop-append, take-append,
  length-append, ◌∙◌, Bool, true, false, some, List, [], ◌∷◌, ◌++◌, arith, length, take, drop,
  memcpy, take-memcpy, append-nil, length-drop, length-take,
}
use handle_wifi_camera_itop.Public.ErrorCode.{ok}
use handle_wifi_camera_itop.FrameBuffer.{
  FrameBuffer, h264_start_code_length, nalu_buffer_length, update_globe_frame_info,
  get_globe_frame_info,
}

-- A NALU with its time stamp.
pub record Frame : Type 0 where
  pub nalu : List ℕ
  pub stamp : ℕ

-- The two threads around the buffer, with what has gone in and what has come out.
pub record System : Type 0 where
  pub buffer : FrameBuffer
  pub nalu_buf : List ℕ
  pub produced : List Frame
  pub consumed : List Frame

-- The camera thread calls `update_globe_frame_info` with a frame (a start code and a NALU).
abbrev pub produced_by : System → List ℕ → ℕ → System
produced_by s frame time_stamp = record s {
  buffer = (update_globe_frame_info true [] s.buffer frame (length frame) time_stamp).buffer;
  produced =
      s.produced ++ (record { nalu = drop h264_start_code_length frame; stamp = time_stamp } ∷ []);
}

-- The RTP thread calls `get_globe_frame_info`, and takes the first nalu_length bytes of nalu_buf.
abbrev pub consumed_by : System → System
consumed_by s =
    let r = get_globe_frame_info true [] s.buffer s.nalu_buf 0 0 in
    record s {
      buffer = r.buffer;
      nalu_buf = r.nalu_buf;
      consumed =
          s.consumed
          ++ (record { nalu = take r.nalu_length r.nalu_buf; stamp = r.time_stamp } ∷ []);
    }

-- One call of each function that finds the buffer ready, so that it runs through: any interleaving
-- of the two threads is a sequence of such steps, since both hold the mutex from test to change.
pub data Step (s : System) : System → Type 0 where
  produce :
      (frame : List ℕ) (time_stamp : ℕ)
      → s.buffer.is_full ≡ false
      → h264_start_code_length ≤ length frame
      → length frame ≤ nalu_buffer_length
      → Step s (produced_by s frame time_stamp)
  consume : s.buffer.is_full ≡ true → Step s (consumed_by s)

pub data Reach (s : System) : System → Type 0 where
  here : Reach s s
  next : {t u : System} → Reach s t → Step t u → Reach s u

-- On a full buffer `get_globe_frame_info` returns OK with the buffer no longer full, and its
-- out-parameters do not depend on what they held.
pub full_fetch :
    (b : FrameBuffer) (nalu_buf : List ℕ) (n t : ℕ)
    → b.is_full ≡ true
    → (get_globe_frame_info true [] b nalu_buf n t ≡ get_globe_frame_info true [] b nalu_buf 0 0)
      × ((get_globe_frame_info true [] b nalu_buf 0 0).code ≡ some ok)
      × ((get_globe_frame_info true [] b nalu_buf 0 0).buffer.is_full ≡ false)
unfolding get_globe_frame_info
full_fetch b nalu_buf n t full = rw full (refl, refl, refl)

-- The frame that waits in a full buffer.
abbrev pub pending : Bool → FrameBuffer → List Frame
pending false b = []
pending true b =
    record {
      nalu =
          take (b.frame_length - h264_start_code_length)
            (drop h264_start_code_length b.frame_buffer);
      stamp = b.time_stamp;
    }
    ∷ []

pub record IsOrdered (s : System) : Type 0 where
  pub order : s.produced ≡ s.consumed ++ pending s.buffer.is_full s.buffer
  pub long : s.buffer.is_full ≡ true → h264_start_code_length ≤ s.buffer.frame_length
  pub short : s.buffer.is_full ≡ true → s.buffer.frame_length ≤ nalu_buffer_length
  pub held : s.buffer.is_full ≡ true → s.buffer.frame_length ≤ length s.buffer.frame_buffer

stored_nalu :
    (frame old : List ℕ)
    → 4 ≤ length frame
    → take (length frame - 4) (drop 4 (memcpy old frame (length frame))) ≡ drop 4 frame
stored_nalu frame old h =
    let n = length frame in
    ap (λ l. take (n - 4) (drop 4 (l ++ drop n old))) (take_all n frame (omega arith))
    ∙ ap (take (n - 4)) (drop-append 4 frame (drop n old) h)
    ∙ take-append (drop 4 frame) (drop n old) (n - 4) (omega (arith, length-drop 4 frame))

produce-IsOrdered :
    (s : System) (frame : List ℕ) (t : ℕ)
    → s.buffer.is_full ≡ false
    → 4 ≤ length frame
    → length frame ≤ nalu_buffer_length
    → IsOrdered s
    → IsOrdered (produced_by s frame t)
unfolding update_globe_frame_info
produce-IsOrdered s frame t e l u v =
    let ordered : s.produced ≡ s.consumed =
      v.order ∙ ap (λ b. s.consumed ++ pending b s.buffer) e ∙ append-nil s.consumed in
    rw e (record {
      order =
          ap₂ (λ (l : List Frame) (f : List ℕ). l ++ (record { nalu = f; stamp = t } ∷ [])) ordered
            (sym (stored_nalu frame s.buffer.frame_buffer l));
      long = λ _. l;
      short = λ _. u;
      held = λ _. omega (
        arith,
        length-append (take (length frame) frame) (drop (length frame) s.buffer.frame_buffer),
        length-take (length frame) frame,
      );
    })

consume-IsOrdered : (s : System) → s.buffer.is_full ≡ true → IsOrdered s → IsOrdered (consumed_by s)
unfolding get_globe_frame_info
consume-IsOrdered s e v =
    let b = s.buffer in
    let n : ℕ = (b.frame_length + 2 ^ 32 - 4) % 2 ^ 32 in
    let n_eq : n ≡ b.frame_length - 4 = omega (arith, v.long e, v.short e) in
    let fetched : take n (memcpy s.nalu_buf (drop 4 b.frame_buffer) n)
        ≡ take n (drop 4 b.frame_buffer) =
      take-memcpy s.nalu_buf (drop 4 b.frame_buffer) n
        (omega (arith, n_eq, v.held e, length-drop 4 b.frame_buffer)) in
    rw e (record {
      order =
          v.order
          ∙ ap (λ full. s.consumed ++ pending full b) e
          ∙ ap (λ f. s.consumed ++ (record { nalu = f; stamp = b.time_stamp } ∷ []))
              (sym (fetched ∙ ap (λ k. take k (drop 4 b.frame_buffer)) n_eq))
          ∙ sym (append-nil _);
      long = λ h. cc;
      short = λ h. cc;
      held = λ h. cc;
    })

-- `nalu_buf` keeps its size, and has room for two bytes behind the NALU.
pub fetch_room :
    (s : System)
    → s.buffer.is_full ≡ true
    → IsOrdered s
    → nalu_buffer_length ≤ length s.nalu_buf
    → (nalu_buffer_length ≤ length (get_globe_frame_info true [] s.buffer s.nalu_buf 0 0).nalu_buf)
      × ((get_globe_frame_info true [] s.buffer s.nalu_buf 0 0).nalu_length + 2
          ≤ nalu_buffer_length)
unfolding get_globe_frame_info
fetch_room s e v room =
    let b = s.buffer in
    let n : ℕ = (b.frame_length + 2 ^ 32 - 4) % 2 ^ 32 in
    let source = drop 4 b.frame_buffer in
    let n_eq : n ≡ b.frame_length - 4 = omega (arith, v.long e, v.short e) in
    let held : n ≤ length source = omega (arith, n_eq, v.held e, length-drop 4 b.frame_buffer) in
    rw e (
      omega (
        arith,
        room,
        held,
        length-append (take n source) (drop n s.nalu_buf),
        length-take n source,
        length-drop n s.nalu_buf,
      ),
      omega (arith, n_eq, v.long e, v.short e),
    )

pub Step-IsOrdered : {s t : System} → Step s t → IsOrdered s → IsOrdered t
Step-IsOrdered {s} (produce frame t e l u) v = produce-IsOrdered s frame t e l u v
Step-IsOrdered {s} (consume e) v = consume-IsOrdered s e v

pub reached :
    (s : System) {t : System}
    → s.buffer.is_full ≡ false
    → s.produced ≡ s.consumed
    → Reach s t
    → IsOrdered t
reached s e p here = record {
  order = p ∙ sym (append-nil s.consumed) ∙ ap (λ b. s.consumed ++ pending b s.buffer) (sym e);
  long = λ h. cc;
  short = λ h. cc;
  held = λ h. cc;
}
reached s e p (next r st) = Step-IsOrdered st (reached s e p r)

-- From an empty buffer, whatever the two threads do, the frames that have come out are those that
-- have gone in, in order, each once and with its time stamp, but for the one in a full buffer.
pub Reach-IsOrdered :
    {s t : System}
    → s.buffer.is_full ≡ false
    → s.produced ≡ s.consumed
    → Reach s t
    → t.produced ≡ t.consumed ++ pending t.buffer.is_full t.buffer
Reach-IsOrdered {s} e p r = (reached s e p r).order
