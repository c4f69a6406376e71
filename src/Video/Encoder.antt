-- ===== src/Video/Encoder.antt =====
-- The parameters of the H.264 encoder: `init_h264_encoder_param` of video.c.
use handle_wifi_camera_itop.Common.{ℕ, ◌+◌}

-- The size of the pictures in the preview.
abbrev pub camera_preview_width : ℕ
camera_preview_width = 640

abbrev pub camera_preview_height : ℕ
camera_preview_height = 480

-- `SSBSIP_MFC_CODEC_TYPE` and `SSBSIP_MFC_INSTRM_MODE_TYPE` of SsbSipMfcApi.h, as far as they are
-- used.
abbrev pub h264_enc : ℕ
h264_enc = 12

abbrev pub nv12_linear : ℕ
nv12_linear = 0

pub record EncH264Param : Type 0 where
  pub codec_type : ℕ
  pub source_width : ℕ
  pub source_height : ℕ
  pub idr_period : ℕ
  pub slice_mode : ℕ
  pub random_intra_mb_refresh : ℕ
  pub enable_frm_rate_control : ℕ
  pub bitrate : ℕ
  pub frame_qp : ℕ
  pub frame_qp_p : ℕ
  pub qs_code_max : ℕ
  pub qs_code_min : ℕ
  pub cbr_period_rf : ℕ
  pub pad_control_on : ℕ
  pub luma_pad_val : ℕ
  pub cb_pad_val : ℕ
  pub cr_pad_val : ℕ
  pub frame_map : ℕ
  pub profile_idc : ℕ
  pub level_idc : ℕ
  pub frame_qp_b : ℕ
  pub frame_rate : ℕ
  pub slice_argument : ℕ
  pub number_b_frames : ℕ
  pub number_reference_frames : ℕ
  pub number_ref_for_p_frames : ℕ
  pub loop_filter_disable : ℕ
  pub loop_filter_alpha_c0_offset : ℕ
  pub loop_filter_beta_offset : ℕ
  pub symbol_mode : ℕ
  pub picture_interlace : ℕ
  pub transform_8x8_mode : ℕ
  pub enable_mb_rate_control : ℕ
  pub dark_disable : ℕ
  pub smooth_disable : ℕ
  pub static_disable : ℕ
  pub activity_disable : ℕ

-- Every field is set, so that what stood there before does not matter.
unfoldable pub init_h264_encoder_param : EncH264Param
init_h264_encoder_param =
    let frame_qp : ℕ = 20 in
    record {
      codec_type = h264_enc;
      source_width = camera_preview_width;
      source_height = camera_preview_height;
      idr_period = 20;
      slice_mode = 0;
      random_intra_mb_refresh = 0;
      enable_frm_rate_control = 0;
      bitrate = 1000;
      frame_qp = frame_qp;
      frame_qp_p = frame_qp + 1;
      qs_code_max = 51;
      qs_code_min = 10;
      cbr_period_rf = 100;
      pad_control_on = 0;
      luma_pad_val = 0;
      cb_pad_val = 0;
      cr_pad_val = 0;
      frame_map = nv12_linear;
      profile_idc = 1;
      level_idc = 40;
      frame_qp_b = frame_qp + 3;
      frame_rate = 35;
      slice_argument = 0;
      number_b_frames = 0;
      number_reference_frames = 1;
      number_ref_for_p_frames = 1;
      loop_filter_disable = 1;
      loop_filter_alpha_c0_offset = 0;
      loop_filter_beta_offset = 0;
      symbol_mode = 0;
      picture_interlace = 0;
      transform_8x8_mode = 0;
      enable_mb_rate_control = 0;
      dark_disable = 1;
      smooth_disable = 1;
      static_disable = 1;
      activity_disable = 1;
    }
