-- ===== src/Public/ErrorCode/Camera.antt =====
-- `enum error_code_list` of public.h: the codes of camera, encoder and photos, with the values of
-- the C enumeration.
use Prim.Native.Nat.{ℕ}

abbrev pub create_video_pthread_fail : ℕ
create_video_pthread_fail = 80

abbrev pub open_camera_fail : ℕ
open_camera_fail = 81

abbrev pub poll_fail : ℕ
poll_fail = 82

abbrev pub poll_time_out : ℕ
poll_time_out = 83

abbrev pub ioctl_vidioc_querycap_fail : ℕ
ioctl_vidioc_querycap_fail = 84

abbrev pub no_capture_devices : ℕ
no_capture_devices = 85

abbrev pub ioctl_vidioc_enuminput_fail : ℕ
ioctl_vidioc_enuminput_fail = 86

abbrev pub ioctl_vidioc_s_input_fail : ℕ
ioctl_vidioc_s_input_fail = 87

abbrev pub ioctl_vidioc_s_fmt_format_fail : ℕ
ioctl_vidioc_s_fmt_format_fail = 88

abbrev pub ioctl_isp_vidioc_s_fmt_format_fail : ℕ
ioctl_isp_vidioc_s_fmt_format_fail = 89

abbrev pub ioctl_vidioc_enum_fmt_fail : ℕ
ioctl_vidioc_enum_fmt_fail = 90

abbrev pub ioctl_vidioc_reqbufs_fail : ℕ
ioctl_vidioc_reqbufs_fail = 91

abbrev pub ioctl_vidioc_querybuf_fail : ℕ
ioctl_vidioc_querybuf_fail = 92

abbrev pub memory_map_buffers_fail : ℕ
memory_map_buffers_fail = 93

abbrev pub ioctl_vidioc_qbuf_fail : ℕ
ioctl_vidioc_qbuf_fail = 94

abbrev pub ioctl_vidioc_streamon_fail : ℕ
ioctl_vidioc_streamon_fail = 95

abbrev pub ioctl_vidioc_streamoff_fail : ℕ
ioctl_vidioc_streamoff_fail = 96

abbrev pub ioctl_vidioc_dqbuf_fail : ℕ
ioctl_vidioc_dqbuf_fail = 97

abbrev pub ioctl_vidioc_s_ctrl_fail : ℕ
ioctl_vidioc_s_ctrl_fail = 98

abbrev pub v4l2_query_capacity_fail : ℕ
v4l2_query_capacity_fail = 99

abbrev pub v4l2_enum_input_fail : ℕ
v4l2_enum_input_fail = 100

abbrev pub v4l2_set_input_channel_fail : ℕ
v4l2_set_input_channel_fail = 101

abbrev pub v4l2_enum_format_fail : ℕ
v4l2_enum_format_fail = 102

abbrev pub v4l2_set_camera_format_fail : ℕ
v4l2_set_camera_format_fail = 103

abbrev pub v4l2_set_isp_format_fail : ℕ
v4l2_set_isp_format_fail = 104

abbrev pub v4l2_set_ctrl_fail : ℕ
v4l2_set_ctrl_fail = 105

abbrev pub v4l2_require_buffers_fail : ℕ
v4l2_require_buffers_fail = 106

abbrev pub v4l2_query_buffers_fail : ℕ
v4l2_query_buffers_fail = 107

abbrev pub v4l2_queue_buffer_fail : ℕ
v4l2_queue_buffer_fail = 108

abbrev pub v4l2_stream_on_fail : ℕ
v4l2_stream_on_fail = 109

abbrev pub v4l2_stream_off_fail : ℕ
v4l2_stream_off_fail = 110

abbrev pub clear_v4l2_mmap_fail : ℕ
clear_v4l2_mmap_fail = 111

abbrev pub clear_v4l2_stream_mmap_fail : ℕ
clear_v4l2_stream_mmap_fail = 112

abbrev pub h264_encode_close_fail : ℕ
h264_encode_close_fail = 113

abbrev pub open_h264_encode_fail : ℕ
open_h264_encode_fail = 114

abbrev pub init_h264_encode_fail : ℕ
init_h264_encode_fail = 115

abbrev pub h264_encode_get_in_buffer_fail : ℕ
h264_encode_get_in_buffer_fail = 116

abbrev pub h264_encode_get_out_buffer_fail : ℕ
h264_encode_get_out_buffer_fail = 117

abbrev pub scan_frame_start_code_fail : ℕ
scan_frame_start_code_fail = 118

abbrev pub get_sps_and_pps_from_header_fail : ℕ
get_sps_and_pps_from_header_fail = 119

abbrev pub video_sem_post_fail : ℕ
video_sem_post_fail = 120

abbrev pub sem_wait_video_pthread_fail : ℕ
sem_wait_video_pthread_fail = 121

abbrev pub recv_rtsp_command_fail : ℕ
recv_rtsp_command_fail = 122

abbrev pub create_rtp_thread_fail : ℕ
create_rtp_thread_fail = 123

abbrev pub pthread_mutex_lock_fail : ℕ
pthread_mutex_lock_fail = 124

abbrev pub pthread_cond_wait_fail : ℕ
pthread_cond_wait_fail = 125

abbrev pub update_globe_frame_info_fail : ℕ
update_globe_frame_info_fail = 126

abbrev pub poll_yuv_buffer_fail : ℕ
poll_yuv_buffer_fail = 127

abbrev pub v4l2_dequeue_buffer_fail : ℕ
v4l2_dequeue_buffer_fail = 128

abbrev pub h264_encode_set_in_buffer_fail : ℕ
h264_encode_set_in_buffer_fail = 129

abbrev pub h264_encode_encode_buffer_fail : ℕ
h264_encode_encode_buffer_fail = 130

abbrev pub reset_v4l2_stream_fail : ℕ
reset_v4l2_stream_fail = 131

abbrev pub calloc_memory_fail : ℕ
calloc_memory_fail = 132

abbrev pub convert_nv12_to_iyuv_fail : ℕ
convert_nv12_to_iyuv_fail = 133

abbrev pub mkdir_fail : ℕ
mkdir_fail = 134

abbrev pub open_picture_file_fail : ℕ
open_picture_file_fail = 135

abbrev pub fwrite_fail : ℕ
fwrite_fail = 136

abbrev pub lstat_photo_file_fail : ℕ
lstat_photo_file_fail = 137

abbrev pub take_pohto_fail : ℕ
take_pohto_fail = 138

abbrev pub return_trans_result_to_message_queue_fail : ℕ
return_trans_result_to_message_queue_fail = 139

abbrev pub dispose_send_file_fail : ℕ
dispose_send_file_fail = 140

abbrev pub clear_video_pthread_mem_fail : ℕ
clear_video_pthread_mem_fail = 141

abbrev pub can_not_find_image_file : ℕ
can_not_find_image_file = 142

abbrev pub send_photo_data_fail : ℕ
send_photo_data_fail = 143

abbrev pub read_photo_file_fail : ℕ
read_photo_file_fail = 144

abbrev pub enum_error_code_list_end : ℕ
enum_error_code_list_end = 145
