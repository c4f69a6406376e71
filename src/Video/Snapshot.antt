-- ===== src/Video/Snapshot.antt =====
-- `take_pohto` of video.c: a picture is taken and saved.
pub mod Ends
pub mod Saving
pub mod Naming
use handle_wifi_camera_itop.Common.{
  ℕ, ◌+◌, ◌-◌, ◌*◌, ◌/◌, ◌==◌, ltb, if◌then◌else◌, Bool, true, false, List, [], ◌∷◌, ◌++◌, Option,
  some, none, length, take, drop, Text, codes, span_ne,
}
use handle_wifi_camera_itop.Public.ErrorCode.{
  ok, reset_v4l2_stream_fail, poll_yuv_buffer_fail, v4l2_dequeue_buffer_fail,
  convert_nv12_to_iyuv_fail, mkdir_fail, ioctl_vidioc_qbuf_fail, open_picture_file_fail,
  fwrite_fail, lstat_photo_file_fail,
}
use handle_wifi_camera_itop.Video.Device.{
  PollReply, max_nr_buffers, qbuf, dqbuf, logged, accepted, Device, Done, asks, fimc_poll,
  fimc_v4l2_dqbuf,
}
use handle_wifi_camera_itop.Video.Stream.{reset_v4l2_stream}
use handle_wifi_camera_itop.Video.Image.{Converted, convert_nv12_to_iyuv}

abbrev pub camera_snapshot_width : ℕ
camera_snapshot_width = 1600

abbrev pub camera_snapshot_height : ℕ
camera_snapshot_height = 1200

abbrev pub is_mode_capture_still : ℕ
is_mode_capture_still = 2

abbrev pub buf_l_unit : ℕ
buf_l_unit = 1024

abbrev pub align : ℕ → ℕ → ℕ
align x alignbyte = (x + alignbyte - 1) / alignbyte * alignbyte

abbrev pub sd_card_mnt : Text
sd_card_mnt = codes "/mnt/sdcard"

abbrev pub max_photo_dir_name_length : ℕ
max_photo_dir_name_length = 23

-- What the outside world answers: to `poll` and VIDIOC_DQBUF; what the buffers hold; to the three
-- allocations (`pcache` as in `convert_nv12_to_iyuv`); the date; to `access` and `mkdir`; what the
-- JPEG library makes of an image; to `fopen`, `fwrite` and `stat`. `leftover` is what dir_name
-- holds behind the mount point where `strftime` has no room, which C leaves open.
pub record Shot : Type 0 where
  pub polled : PollReply
  pub dequeued : Option ℕ
  pub frame : ℕ → List ℕ
  pub nv12_memory : Bool
  pub pcache : Option (List ℕ)
  pub today : Text
  pub leftover : Text
  pub dir_exists : Bool
  pub can_make_dir : Bool
  pub jpg_memory : Bool
  pub jpeg : List ℕ → List ℕ
  pub can_open : Bool
  pub can_write : Bool
  pub stat : Option ℕ

-- What happens to the two pieces of memory and to the file. `alloc_library` is memory that the JPEG
-- library allocates itself.
pub data Event : Type 0 where
  alloc_nv12 free_nv12 alloc_jpg free_jpg alloc_library opened closed removed : Event
  written : List ℕ → Event

-- How the call ends: with a code, at the address NULL, or behind the end of jpg_data_buffer.
pub data Finish : Type 0 where
  returned : ℕ → Finish
  fault overrun : Finish

-- The end, the device, photo_path_name and *photo_size as they are then, and the events in order.
pub record Taken : Type 0 where
  pub finish : Finish
  pub device : Device
  pub path : Text
  pub size : ℕ
  pub events : List Event

abbrev taken : Finish → Device → Text → ℕ → List Event → Taken
taken finish device path size events = record {
  finish = finish;
  device = device;
  path = path;
  size = size;
  events = events;
}

-- `strftime` of the date and a slash into `max` bytes, the closing NUL counted.
abbrev pub strftime : ℕ → Text → Text → Text
strftime max text leftover = if ltb (length text) max then text else leftover

unfoldable pub dir_name : Shot → Text
dir_name w =
    let mount = sd_card_mnt ++ codes "/" in
    mount ++ strftime (max_photo_dir_name_length - length mount) (w.today ++ codes "/") w.leftover

-- What a string function reads of the bytes.
abbrev pub c_string : List ℕ → Text
c_string bytes = let (text, rest) = span_ne 0 bytes in text

abbrev pub photo_path : Shot → Text → Text
photo_path w photo_name = dir_name w ++ (codes "/" ++ c_string photo_name)

abbrev pub snapshot_pixels : ℕ
snapshot_pixels = camera_snapshot_width * camera_snapshot_height

-- NV12_image: the two planes of a buffer, the second aligned in it.
abbrev pub nv12_image : List ℕ → List ℕ
nv12_image buffer =
    take snapshot_pixels buffer
    ++ take (snapshot_pixels / 2) (drop (align snapshot_pixels (64 * buf_l_unit)) buffer)

-- jpg_data_size, as it is given to the JPEG library.
abbrev pub jpg_data_size : ℕ
jpg_data_size = snapshot_pixels * 3 / 2

-- The JPEG does not fit into jpg_data_buffer. The library then goes on in memory of its own, as it
-- does from the start without a buffer; `I420_data_to_JPEG_data` gives the size back, but not the
-- address.
abbrev pub outgrown : Shot → List ℕ → Bool
outgrown w image = ltb jpg_data_size (length (w.jpeg image))

abbrev pub compressing : Shot → List ℕ → List Event
compressing w image =
    if w.jpg_memory
    then (if outgrown w image then alloc_jpg ∷ alloc_library ∷ [] else alloc_jpg ∷ [])
    else alloc_library ∷ []

abbrev pub free_of_jpg : Shot → List Event
free_of_jpg w = if w.jpg_memory then free_jpg ∷ [] else []

-- video.c:1248-1290. `fwrite` is given jpg_data_buffer with the size of the JPEG.
unfoldable pub save_photo : Shot → List ℕ → Text → ℕ → Device → List Event → Taken
save_photo w image path size d events =
    if w.can_open
    then (if w.jpg_memory
        then (if outgrown w image
            then taken overrun d path size (events ++ (opened ∷ []))
            else (if w.can_write
                then elim w.stat [
                  | none ↦
                      taken (returned lstat_photo_file_fail) d path size
                        (events ++ (opened ∷ written (w.jpeg image) ∷ closed ∷ free_jpg ∷ []))
                  | some st_size ↦
                      taken (returned ok) d path st_size
                        (events ++ (opened ∷ written (w.jpeg image) ∷ closed ∷ free_jpg ∷ []))
                ]
                else taken (returned fwrite_fail) d path size
                    (events ++ (opened ∷ free_jpg ∷ closed ∷ removed ∷ []))))
        else taken fault d path size (events ++ (opened ∷ [])))
    else taken (returned open_picture_file_fail) d path size (events ++ free_of_jpg w)

-- video.c:1230-1246. The buffer goes back to the driver.
unfoldable pub compress_photo : Shot → ℕ → List ℕ → Text → ℕ → Device → Taken
unfolding save_photo
compress_photo w index image path size d =
    let events = (alloc_nv12 ∷ compressing w image) ++ (free_nv12 ∷ []) in
    let r = asks (qbuf index) ioctl_vidioc_qbuf_fail d in
    if r.code == ok
    then save_photo w image path size r.device events
    else taken (returned ioctl_vidioc_qbuf_fail) r.device path size (events ++ free_of_jpg w)

-- video.c:1198-1228.
unfoldable pub convert_photo : Shot → Text → ℕ → Text → ℕ → Device → Taken
unfolding compress_photo
convert_photo w photo_name index path size d =
    let r =
      convert_nv12_to_iyuv (some (nv12_image (w.frame index))) w.pcache camera_snapshot_width
        camera_snapshot_height in
    let failed = λ (code : ℕ). taken (returned code) d path size (alloc_nv12 ∷ free_nv12 ∷ []) in
    elim r.code [
      | none ↦ failed convert_nv12_to_iyuv_fail
      | some ret ↦
          if ret == ok
          then (if w.dir_exists
              then compress_photo w index r.image (photo_path w photo_name) size d
              else (if w.can_make_dir
                  then compress_photo w index r.image (photo_path w photo_name) size d
                  else failed mkdir_fail))
          else failed convert_nv12_to_iyuv_fail
    ]

-- video.c:1172-1196.
unfoldable pub fetch_photo : Shot → Text → Text → ℕ → Device → Taken
unfolding convert_photo
fetch_photo w photo_name path size d =
    if fimc_poll w.polled == ok
    then (let index = fimc_v4l2_dqbuf w.dequeued in
        if ltb index max_nr_buffers
        then (if w.nv12_memory
            then convert_photo w photo_name index path size
                (logged (dqbuf index) accepted d.replies d)
            else taken fault d path size [])
        else taken (returned v4l2_dequeue_buffer_fail) d path size [])
    else taken (returned poll_yuv_buffer_fail) d path size []

-- `path` and `size` are what the two out-parameters hold before.
unfoldable pub take_pohto : Shot → Text → Text → ℕ → Device → Taken
unfolding fetch_photo
take_pohto w photo_name path size d =
    let r =
      reset_v4l2_stream camera_snapshot_width camera_snapshot_height is_mode_capture_still d in
    if r.code == ok
    then fetch_photo w photo_name path size r.device
    else taken (returned reset_v4l2_stream_fail) r.device path size []
