-- ===== src/Rtp/Packet.antt =====
-- The packets of rtp.h and how they lie in memory (`#pragma pack(1)`, bit-fields from the low bit).
pub mod Header
pub mod Layout
use handle_wifi_camera_itop.Common.{ℕ, ◌+◌, ◌*◌, ◌%◌, List, [], ◌∷◌, ◌++◌, le16, le32}

abbrev pub payload_max_size : ℕ
payload_max_size = 1400

-- The twelve bytes that `struct_RTP_header` and the two packets begin with; `seq`, `ts` and `ssrc`
-- hold what `htons` and `htonl` gave.
pub record RtpHeader : Type 0 where
  pub cc : ℕ
  pub x : ℕ
  pub p : ℕ
  pub version : ℕ
  pub pt : ℕ
  pub m : ℕ
  pub seq : ℕ
  pub ts : ℕ
  pub ssrc : ℕ

pub record FuIndicator : Type 0 where
  pub type : ℕ
  pub nri : ℕ
  pub f : ℕ

pub record FuHeader : Type 0 where
  pub type : ℕ
  pub r : ℕ
  pub e : ℕ
  pub s : ℕ

pub record SingleRtpPacket : Type 0 where
  pub header : RtpHeader
  pub payload : List ℕ

pub record FragmentRtpPacket : Type 0 where
  pub header : RtpHeader
  pub fu_indicator : FuIndicator
  pub fu_header : FuHeader
  pub payload_data : List ℕ

abbrev pub sizeof_rtp_header : ℕ
sizeof_rtp_header = 12

abbrev pub sizeof_fu_header : ℕ
sizeof_fu_header = 1

abbrev pub sizeof_fu_indicator : ℕ
sizeof_fu_indicator = 1

-- A value stored in a bit-field of k bits keeps its low k bits.
unfoldable pub header_bytes : RtpHeader → List ℕ
header_bytes h =
    (h.cc % 16 + h.x % 2 * 16 + h.p % 2 * 32 + h.version % 4 * 64)
    ∷ (h.pt % 128 + h.m % 2 * 128)
    ∷ (le16 h.seq ++ (le32 h.ts ++ le32 h.ssrc))

unfoldable pub indicator_byte : FuIndicator → ℕ
indicator_byte i = i.type % 32 + i.nri % 4 * 32 + i.f % 2 * 128

unfoldable pub fu_header_byte : FuHeader → ℕ
fu_header_byte h = h.type % 32 + h.r % 2 * 32 + h.e % 2 * 64 + h.s % 2 * 128

unfoldable pub single_bytes : SingleRtpPacket → List ℕ
single_bytes p = header_bytes p.header ++ p.payload

unfoldable pub fragment_bytes : FragmentRtpPacket → List ℕ
fragment_bytes p =
    (header_bytes p.header ++ (indicator_byte p.fu_indicator ∷ fu_header_byte p.fu_header ∷ []))
    ++ p.payload_data
