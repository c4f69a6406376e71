-- ===== src/Video/Header.antt =====
-- `get_sps_and_pps_from_header` of video.c: the encoder's header is cut into its two parameter sets.
pub mod Splitting
use handle_wifi_camera_itop.Common.{
  ℕ, ◌+◌, ◌-◌, List, [], ◌∷◌, Option, some, none, length, take, drop, strstr,
}
use handle_wifi_camera_itop.Public.ErrorCode.{ok, scan_frame_start_code_fail}

abbrev pub start_code : List ℕ
start_code = 0 ∷ 0 ∷ 0 ∷ 1 ∷ []

pub record ParameterSets : Type 0 where
  pub code : ℕ
  pub sps : List ℕ
  pub pps : List ℕ

-- `memory` is what begins at encode_header, and `found` what the search has found in `window`.
abbrev pub cut_header : List ℕ → ℕ → List ℕ → Option (List ℕ) → ParameterSets
cut_header memory encode_header_length window none = record {
  code = scan_frame_start_code_fail;
  sps = [];
  pps = [];
}
cut_header memory encode_header_length window (some found) =
    let position = 4 + (length window - length found) in
    record {
      code = ok;
      sps = take position memory;
      pps = take (encode_header_length - position) (drop position memory);
    }

-- The search begins 4 bytes behind encode_header, but goes over encode_header_length bytes all the
-- same.
unfoldable pub get_sps_and_pps_from_header : List ℕ → ℕ → ParameterSets
get_sps_and_pps_from_header memory encode_header_length =
    let window = take encode_header_length (drop 4 memory) in
    cut_header memory encode_header_length window (strstr window start_code)
