-- ===== src/Rtsp/Search.antt =====
-- The parts of a request that rtsp.c looks for: `get_transport_info`, `regex_pattern_match_string`,
-- `get_server_ip`, `get_rtsp_uri` and `get_port`.
pub mod Port
use handle_wifi_camera_itop.Common.{
  ℕ, ◌-◌, ◌%◌, ◌^◌, Bool, [], ◌∷◌, Option, some, none, length, take, drop, ◌==◌, if◌then◌else◌,
  Text, codes, strstr, strtoul, span_ne, is_prefix,
}
use handle_wifi_camera_itop.Public.ErrorCode.{
  ok, scan_transport_info_tail_fail, scan_transport_info_header_fail, compile_regex_fail,
  regex_match_fail, match_server_ip_fail, match_rtsp_uri_fail, sscanf_client_port_fail,
}

-- A code, and the text written to the out-parameter, if any.
pub record Found : Type 0 where
  pub code : ℕ
  pub text : Text

abbrev pub crlf : Text
crlf = 13 ∷ 10 ∷ []

pub get_transport_info : Text → Found
unfolding strstr
get_transport_info recv_buf_rtsp = elim (strstr recv_buf_rtsp (codes "Transport: ")) [
  | none ↦ record { code = scan_transport_info_header_fail; text = [] }
  | some ptr_start ↦ elim (strstr ptr_start crlf) [
    | none ↦ record { code = scan_transport_info_tail_fail; text = [] }
    | some ptr_end ↦ record { code = ok; text = take (length ptr_start - length ptr_end) ptr_start }
  ]
]

-- <regex.h>: whether a pattern compiles, and what `regexec` answers. After an error other than
-- REG_NOMATCH the two ends are what happened to be in `string_position`.
pub data RegexReply : Type 0 where
  matched : ℕ → ℕ → RegexReply
  no_match : RegexReply
  exec_error : ℕ → ℕ → RegexReply

pub record Regex : Type 0 where
  pub compiles : Text → Bool
  pub exec : Text → Text → RegexReply

abbrev copy_range : Text → ℕ → ℕ → Found
copy_range source rm_so rm_eo = record {
  code = ok;
  text = take (rm_eo - rm_so) (drop rm_so source);
}

module _ (regex : Regex) where
  pub regex_pattern_match_string : Text → Text → Found
  regex_pattern_match_string source_string pattern =
      if regex.compiles pattern
      then elim (regex.exec pattern source_string) [
        | matched rm_so rm_eo ↦ copy_range source_string rm_so rm_eo
        | no_match ↦ record { code = regex_match_fail; text = [] }
        | exec_error rm_so rm_eo ↦ copy_range source_string rm_so rm_eo
      ]
      else record { code = compile_regex_fail; text = [] }

  pub get_server_ip : Text → Found
  unfolding regex_pattern_match_string
  get_server_ip rtsp_info =
      let r = regex_pattern_match_string rtsp_info (codes "([0-9]{1,3}[.]){3}[0-9]{1,3}") in
      if r.code == ok then r else record { code = match_server_ip_fail; text = r.text }

  pub get_rtsp_uri : Text → Found
  unfolding regex_pattern_match_string
  get_rtsp_uri recv_buf_rtsp =
      let r =
        regex_pattern_match_string recv_buf_rtsp
          (codes "rtsp://(([0-9]{1,3}[.]){3}[0-9]{1,3}):([0-9]{1,5})") in
      if r.code == ok then r else record { code = match_rtsp_uri_fail; text = r.text }

-- sscanf(recv_buf_rtsp, "%*[^_]_port=%[^-]-", client_port_string): `none` where nothing is stored.
scan_port : Text → Option Text
unfolding span_ne is_prefix
scan_port text =
    let (skipped, rest) = span_ne b'_' text in
    let (digits, after) = span_ne b'-' (drop 6 rest) in
    elim skipped [
      | [] ↦ none
      | c ∷ more ↦
          if is_prefix (codes "_port=") rest
          then elim digits [ [] ↦ none | d ∷ ds ↦ some (d ∷ ds) ]
          else none
    ]

-- The code, and `*client_port` (an unsigned short) if it is written.
unfoldable pub get_port : Text → ℕ × Option ℕ
unfolding scan_port strtoul
get_port recv_buf_rtsp = elim (scan_port recv_buf_rtsp) [
  | none ↦ (sscanf_client_port_fail, none)
  | some client_port_string ↦ (ok, some (strtoul client_port_string % 2 ^ 16))
]
