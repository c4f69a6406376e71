-- ===== src/Video/Results.antt =====
-- The two functions of video.c that put a message about a photograph into a queue.
use handle_wifi_camera_itop.Common.{
  ℕ, ◌-◌, ◌==◌, if◌then◌else◌, Bool, false, List, [], ◌∷◌, ◌++◌, take, length, replicate, Text,
}
use handle_wifi_camera_itop.Public.ErrorCode.{ok, send_message_to_queue_fail}
use handle_wifi_camera_itop.MessageQueue.{TakePhotoMsg, SendPhotoMsg, send_message_to_queue}

abbrev pub message_queue_take_photo_over_type : ℕ
message_queue_take_photo_over_type = 2

abbrev pub message_queue_trans_photo_type : ℕ
message_queue_trans_photo_type = 3

abbrev pub max_photo_name_length : ℕ
max_photo_name_length = 25

abbrev pub max_photo_path_name_length : ℕ
max_photo_path_name_length = 48

abbrev pub take_result : List ℕ → ℕ → Bool → TakePhotoMsg
take_result photo_name photo_size is_take_photo_succeed = record {
  type = message_queue_take_photo_over_type;
  succeed = is_take_photo_succeed;
  photo_name = take max_photo_name_length photo_name;
  photo_size = photo_size;
}

-- The code, and what has been put into the queue.
unfoldable pub return_take_photo_result_to_message_queue :
    Bool → List ℕ → ℕ → Bool → ℕ × List TakePhotoMsg
return_take_photo_result_to_message_queue msgsnd photo_name photo_size is_take_photo_succeed =
    if send_message_to_queue msgsnd == ok
    then (ok, take_result photo_name photo_size is_take_photo_succeed ∷ [])
    else (send_message_to_queue_fail, [])

-- `strcpy` into a field of zeros. A path of more than 47 characters would overrun it.
abbrev pub send_request : Text → ℕ → SendPhotoMsg
send_request photo_path_name photo_size = record {
  type = message_queue_trans_photo_type;
  succeed = false;
  photo_path_name =
      photo_path_name ++ replicate (max_photo_path_name_length - length photo_path_name) 0;
  photo_size = photo_size;
}

unfoldable pub dispose_send_file : Bool → Text → ℕ → ℕ × List SendPhotoMsg
dispose_send_file msgsnd photo_path_name photo_size =
    if send_message_to_queue msgsnd == ok
    then (ok, send_request photo_path_name photo_size ∷ [])
    else (send_message_to_queue_fail, [])
