-- ===== src/Tests/Camera.antt =====
-- The camera thread: a header, small images, and rounds with and without a photograph.
use handle_wifi_camera_itop.Common.{
  ℕ, suc, ◌≡◌, ◌≤◌, ◌++◌, refl, true, false, List, [], ◌∷◌, some, arith, length, replicate, codes,
  strstr, span_ne,
}
use handle_wifi_camera_itop.Public.ErrorCode.{ok}
use handle_wifi_camera_itop.FrameBuffer.{FrameBuffer}
use handle_wifi_camera_itop.MessageQueue.{made, TakePhotoMsg, received, no_message}
use handle_wifi_camera_itop.Video.Header.{get_sps_and_pps_from_header}
use handle_wifi_camera_itop.Video.Header.Splitting.{Splits, get_sps_and_pps_from_header-Splits}
use handle_wifi_camera_itop.Video.Image.{
  converted, convert_loop, convert_nv12_to_iyuv, i420_data_to_jpeg_data,
}
use handle_wifi_camera_itop.Video.Image.Planes.{Deinterleaves, convert_nv12_to_iyuv-Deinterleaves}
use handle_wifi_camera_itop.Video.Image.Rows.{AllInPlanes, i420_data_to_jpeg_data-AllInPlanes}
use handle_wifi_camera_itop.Video.Device.{Device, accepted, s_fmt, streamon, qbuf, ready}
use handle_wifi_camera_itop.Video.Stream.{reset_v4l2_stream, clear_video_pthread_mem}
use handle_wifi_camera_itop.Video.Stream.Scripts.{Runs}
use handle_wifi_camera_itop.Video.Stream.Resets.{
  reset_script, clean_up_script, reset_v4l2_stream-Runs, clear_video_pthread_mem-Runs,
}
use handle_wifi_camera_itop.Video.Snapshot.{Shot, take_pohto, dir_name, photo_path}
use handle_wifi_camera_itop.Video.Snapshot.Saving.{Tidy, IsPhoto, take_pohto-Saves}
use handle_wifi_camera_itop.Video.Snapshot.Naming.{photo_path-Fits}
use handle_wifi_camera_itop.Video.Thread.{Camera, Round, thread_rounds}
use handle_wifi_camera_itop.Video.Thread.Answering.{AnswersAll, thread_rounds-AnswersAll}
use handle_wifi_camera_itop.Video.Thread.Previewing.{Previews, thread_rounds-Previews}
use handle_wifi_camera_itop.Video.Start.{Startup, video_pthread}
use handle_wifi_camera_itop.Video.Start.Readiness.{IsReady, video_pthread-IsReady}

abbrev header : List ℕ
header = 0 ∷ 0 ∷ 0 ∷ 1 ∷ 0x67 ∷ 66 ∷ 0 ∷ 0 ∷ 0 ∷ 1 ∷ 0x68 ∷ 9 ∷ 7 ∷ 7 ∷ 7 ∷ 7 ∷ []

two_sets : get_sps_and_pps_from_header header 12 ≡ record {
  code = ok;
  sps = 0 ∷ 0 ∷ 0 ∷ 1 ∷ 0x67 ∷ 66 ∷ [];
  pps = 0 ∷ 0 ∷ 0 ∷ 1 ∷ 0x68 ∷ 9 ∷ [];
}
unfolding get_sps_and_pps_from_header strstr
two_sets = refl

get_sps_and_pps_from_header-Splits_example :
    Splits header 12 (get_sps_and_pps_from_header header 12)
get_sps_and_pps_from_header-Splits_example = get_sps_and_pps_from_header-Splits header 12

abbrev nv12 : List ℕ
nv12 = 10 ∷ 11 ∷ 12 ∷ 13 ∷ 14 ∷ 15 ∷ 16 ∷ 17 ∷ 1 ∷ 2 ∷ 3 ∷ 4 ∷ []

abbrev spare : List ℕ
spare = 99 ∷ 98 ∷ 97 ∷ 96 ∷ []

planes_apart :
    convert_nv12_to_iyuv (some nv12) (some spare) 4 2
    ≡ converted (some ok) (10 ∷ 11 ∷ 12 ∷ 13 ∷ 14 ∷ 15 ∷ 16 ∷ 17 ∷ 1 ∷ 3 ∷ 2 ∷ 4 ∷ [])
unfolding convert_nv12_to_iyuv convert_loop
planes_apart = refl

convert_nv12_to_iyuv-Deinterleaves_example :
    Deinterleaves nv12 2 (convert_nv12_to_iyuv (some nv12) (some spare) 4 2)
convert_nv12_to_iyuv-Deinterleaves_example =
    convert_nv12_to_iyuv-Deinterleaves nv12 spare 4 2 2 refl refl refl

i420_data_to_jpeg_data-AllInPlanes_example :
    AllInPlanes 8 32 (i420_data_to_jpeg_data 8 32) × (length (i420_data_to_jpeg_data 8 32) ≡ 2)
i420_data_to_jpeg_data-AllInPlanes_example = i420_data_to_jpeg_data-AllInPlanes 8 32 4 2 refl refl

-- The calls that have put the camera into the preview, and a driver that refuses nothing for a while.
abbrev previewing : Device
previewing = record {
  replies = replicate 60 true;
  calls =
      (s_fmt 640 480, accepted)
      ∷ (qbuf 0, accepted)
      ∷ (qbuf 1, accepted)
      ∷ (qbuf 2, accepted)
      ∷ (qbuf 3, accepted)
      ∷ (qbuf 4, accepted)
      ∷ (qbuf 5, accepted)
      ∷ (qbuf 6, accepted)
      ∷ (qbuf 7, accepted)
      ∷ (streamon, accepted)
      ∷ [];
}

reset_v4l2_stream-Runs_example :
    Runs (reset_script 1600 1200 2) previewing (reset_v4l2_stream 1600 1200 2 previewing)
reset_v4l2_stream-Runs_example = reset_v4l2_stream-Runs 1600 1200 2 previewing

clear_video_pthread_mem-Runs_example :
    Runs clean_up_script previewing (clear_video_pthread_mem previewing)
clear_video_pthread_mem-Runs_example = clear_video_pthread_mem-Runs previewing

abbrev shot : Shot
shot = record {
  polled = ready;
  dequeued = some 3;
  frame = λ _. nv12;
  nv12_memory = true;
  pcache = some spare;
  today = codes "2016-01-09";
  leftover = codes "2016-01-09";
  dir_exists = true;
  can_make_dir = true;
  jpg_memory = true;
  jpeg = λ image. 0xFF ∷ 0xD8 ∷ image;
  can_open = true;
  can_write = true;
  stat = some 14;
}

abbrev picture_name : List ℕ
picture_name = codes "a.jpg" ++ (0 ∷ [])

take_pohto-Saves_example :
    IsPhoto shot picture_name 0 (take_pohto shot picture_name [] 0 previewing)
    × Tidy shot (take_pohto shot picture_name [] 0 previewing)
take_pohto-Saves_example = take_pohto-Saves shot picture_name [] 0 previewing

photo_path-Fits_example :
    (dir_name shot ≡ codes "/mnt/sdcard/" ++ shot.leftover)
    × (suc (length (photo_path shot picture_name)) ≤ 48)
unfolding span_ne
photo_path-Fits_example = photo_path-Fits shot picture_name refl (omega arith) (omega arith)

abbrev no_frame : FrameBuffer
no_frame = record {
  frame_length = 0;
  frame_buffer = [];
  time_stamp = 0;
  is_full = false;
  locked = false;
}

abbrev camera : Camera
camera = record {
  device = previewing;
  buffer = no_frame;
  y_input = [];
  c_input = [];
  time_stamp = 0;
  path = [];
  photo_size = 0;
  results = [];
  requests = [];
}

abbrev wanted : TakePhotoMsg
wanted = record { type = 1; succeed = false; photo_name = picture_name; photo_size = 0 }

abbrev with_photo : Round
with_photo = record {
  polled = ready;
  dequeued = some 5;
  frame = λ _. nv12;
  encoded = 0 ∷ 0 ∷ 0 ∷ 1 ∷ 0x65 ∷ 8 ∷ [];
  time_stamp_increse = 3600;
  can_lock = true;
  wakes = [];
  request = received wanted;
  shot = shot;
  result_sent = true;
  request_sent = true;
}

abbrev shooting : List Round
shooting = with_photo ∷ record with_photo { request = no_message; wakes = [] } ∷ []

thread_rounds-AnswersAll_example : AnswersAll shooting camera (thread_rounds shooting camera)
thread_rounds-AnswersAll_example = thread_rounds-AnswersAll shooting camera

thread_rounds-Previews_example : Previews (thread_rounds shooting camera)
thread_rounds-Previews_example = thread_rounds-Previews shooting camera refl

abbrev startup : Startup
startup = record {
  ftok = λ seed. some seed;
  queue = λ key. record { first = made key; second = some key; last = some key };
  debug = true;
  captures = true;
  formats = 7 ∷ 0x3231564E ∷ [];
  header = header;
  header_size = 12;
  can_post = true;
  can_lock = true;
  sps_wakes = [];
  pps_wakes = [];
}

abbrev switched_off : Camera
switched_off = record camera { device = record { replies = replicate 60 true; calls = [] } }

video_pthread-IsReady_example : IsReady (video_pthread startup shooting switched_off)
video_pthread-IsReady_example = video_pthread-IsReady startup shooting switched_off
