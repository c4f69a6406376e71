-- ===== src/Video/Snapshot/Saving.antt =====
-- The memory and the file of a photograph, and what a success means.
use handle_wifi_camera_itop.Common.{
  ℕ, suc, ◌<◌, length, false, ◌≡◌, ◌≢◌, ◌⊎◌, inl, inr, refl, ap, List, [], ◌∷◌, some, arith, Text,
}
use handle_wifi_camera_itop.Public.ErrorCode.{ok}
use handle_wifi_camera_itop.Video.Device.{Device}
use handle_wifi_camera_itop.Video.Snapshot.{
  Shot, Event, alloc_nv12, free_nv12, alloc_jpg, free_jpg, opened, closed, written, alloc_library,
  Finish, returned, fault, overrun, Taken, jpg_data_size, save_photo, compress_photo, take_pohto,
  photo_path,
}
use handle_wifi_camera_itop.Video.Snapshot.Ends.{image_of, take_pohto-ends}

-- How many events are of one kind.
abbrev pub allocated_nv12 : List Event → ℕ
allocated_nv12 [] = 0
allocated_nv12 (alloc_nv12 ∷ es) = suc (allocated_nv12 es)
allocated_nv12 (_ ∷ es) = allocated_nv12 es

abbrev pub freed_nv12 : List Event → ℕ
freed_nv12 [] = 0
freed_nv12 (free_nv12 ∷ es) = suc (freed_nv12 es)
freed_nv12 (_ ∷ es) = freed_nv12 es

abbrev pub allocated_jpg : List Event → ℕ
allocated_jpg [] = 0
allocated_jpg (alloc_jpg ∷ es) = suc (allocated_jpg es)
allocated_jpg (_ ∷ es) = allocated_jpg es

abbrev pub freed_jpg : List Event → ℕ
freed_jpg [] = 0
freed_jpg (free_jpg ∷ es) = suc (freed_jpg es)
freed_jpg (_ ∷ es) = freed_jpg es

abbrev pub left_over : List Event → ℕ
left_over [] = 0
left_over (alloc_library ∷ es) = suc (left_over es)
left_over (_ ∷ es) = left_over es

abbrev pub opens : List Event → ℕ
opens [] = 0
opens (opened ∷ es) = suc (opens es)
opens (_ ∷ es) = opens es

abbrev pub closes : List Event → ℕ
closes [] = 0
closes (closed ∷ es) = suc (closes es)
closes (_ ∷ es) = closes es

-- The image and the JPEG have been freed and the file has been closed, unless the run ends at NULL or
-- behind the end of jpg_data_buffer. Memory of the JPEG library is left over if `Grows`, and then the
-- call has failed.
abbrev TidyIf : Type 0 → Taken → Type 0
TidyIf Grows t =
    (t.finish ≡ fault)
    ⊎ (t.finish ≡ overrun)
    ⊎ (((left_over t.events ≡ 0) ⊎ ((left_over t.events ≡ 1) × (t.finish ≢ returned ok) × Grows))
        × (allocated_nv12 t.events ≡ freed_nv12 t.events)
        × (allocated_jpg t.events ≡ freed_jpg t.events)
        × (opens t.events ≡ closes t.events))

-- The JPEG library has to allocate memory itself: there is none for the JPEG, or the JPEG is larger.
abbrev pub Tidy : Shot → Taken → Type 0
Tidy w = TidyIf (
    (w.jpg_memory ≡ false)
    ⊎ ((index : ℕ) × (w.dequeued ≡ some index)
        × (jpg_data_size < length (w.jpeg (image_of w index).image))))

compress_photo-TidyIf :
    (w : Shot) (index : ℕ) (image : List ℕ) (path : Text) (size : ℕ) (d : Device)
    → TidyIf
        ((w.jpg_memory ≡ false) ⊎ (jpg_data_size < length (w.jpeg image)))
        (compress_photo w index image path size d)
unfolding compress_photo save_photo
compress_photo-TidyIf w index image path size d = ground arith

compress_photo-Tidy :
    (w : Shot) (index : ℕ) (path : Text) (size : ℕ) (d : Device)
    → w.dequeued ≡ some index
    → Tidy w (compress_photo w index (image_of w index).image path size d)
compress_photo-Tidy w index path size d e =
    elim (compress_photo-TidyIf w index (image_of w index).image path size d) [
      | inl h ↦ inl h
      | inr (inl h) ↦ inr (inl h)
      | inr (inr (inl h, a, b, c)) ↦ inr (inr (inl h, a, b, c))
      | inr (inr (inr (one, ne, inl h), a, b, c)) ↦ inr (inr (inr (one, ne, inl h), a, b, c))
      | inr (inr (inr (one, ne, inr h), a, b, c)) ↦
          inr (inr (inr (one, ne, inr (index, e, h)), a, b, c))
    ]

take_pohto-Tidy :
    (w : Shot) (photo_name path : Text) (size : ℕ) (d : Device)
    → Tidy w (take_pohto w photo_name path size d)
take_pohto-Tidy w photo_name path size d =
    take_pohto-ends (Tidy w) w photo_name path size
      (λ code d _. inr (inr (inl refl, refl, refl, refl))) (λ d. inl refl)
      (λ code d _. inr (inr (inl refl, refl, refl, refl)))
      (λ index d e. compress_photo-Tidy w index (photo_path w photo_name) size d e) d

-- The end of a run whose picture is `image`: a success leaves `path`, the size and the file; a
-- failure leaves the size as it was.
abbrev pub Saved : Shot → List ℕ → Text → ℕ → Taken → Type 0
Saved w image path size t =
    ((t.finish ≡ returned ok)
      × (t.path ≡ path)
      × (w.stat ≡ some t.size)
      × (t.events
          ≡ alloc_nv12
            ∷ alloc_jpg
            ∷ free_nv12
            ∷ opened
            ∷ written (w.jpeg image)
            ∷ closed
            ∷ free_jpg
            ∷ []))
    ⊎ ((t.finish ≢ returned ok) × (t.size ≡ size))

compress_photo-Saved :
    (w : Shot) (index : ℕ) (image : List ℕ) (path : Text) (size : ℕ) (d : Device)
    → Saved w image path size (compress_photo w index image path size d)
unfolding compress_photo save_photo
compress_photo-Saved w index image path size d = ground arith

-- The picture is that of the buffer that was taken from the driver.
abbrev pub IsPhoto : Shot → Text → ℕ → Taken → Type 0
IsPhoto w photo_name size t =
    ((index : ℕ) × (w.dequeued ≡ some index)
      × Saved w (image_of w index).image (photo_path w photo_name) size t)
    ⊎ ((t.finish ≢ returned ok) × (t.size ≡ size))

returned_code : Finish → ℕ
returned_code (returned code) = code
returned_code fault = 1
returned_code overrun = 1

take_pohto-IsPhoto :
    (w : Shot) (photo_name path : Text) (size : ℕ) (d : Device)
    → IsPhoto w photo_name size (take_pohto w photo_name path size d)
unfolding returned_code
take_pohto-IsPhoto w photo_name path size d =
    take_pohto-ends (IsPhoto w photo_name size) w photo_name path size
      (λ code d ne. inr (λ h. ne (ap returned_code h), refl)) (λ d. inr (λ h. cc, refl))
      (λ code d ne. inr (λ h. ne (ap returned_code h), refl))
      (λ index d e. inl (
        index,
        e,
        compress_photo-Saved w index (image_of w index).image (photo_path w photo_name) size d,
      ))
      d

-- If `take_pohto` returns OK, the file holds what the JPEG library makes of the image of the buffer
-- that the driver gave, photo_path_name is its path, and *photo_size the size that `stat` gives. On
-- every other end *photo_size is as before. However it returns, the image and the JPEG have been
-- freed as often as they have been allocated, and the file is closed if it was opened; but if the
-- JPEG library had to allocate memory itself, because there was none for the JPEG or the JPEG did
-- not fit, that is left over, and the call fails. A run may instead end at NULL, or behind the end
-- of jpg_data_buffer.
pub take_pohto-Saves :
    (w : Shot) (photo_name path : Text) (size : ℕ) (d : Device)
    → let t = take_pohto w photo_name path size d in IsPhoto w photo_name size t × Tidy w t
take_pohto-Saves w photo_name path size d =
    (take_pohto-IsPhoto w photo_name path size d, take_pohto-Tidy w photo_name path size d)
