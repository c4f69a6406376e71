-- ===== src/Rtp/Packet/Header.antt =====
-- The twelve header bytes against RFC 3550.
use handle_wifi_camera_itop.Common.{
  ℕ, ◌/◌, ◌%◌, ◌<◌, ◌≡◌, List, ◌++◌, drop, get_or, arith, be16_value, be32_value, htons, htonl,
}
use handle_wifi_camera_itop.Rtp.Packet.{header_bytes}

-- The fields as a receiver reads them, in network order: version, padding, extension and CSRC count
-- in byte 0, marker and payload type in byte 1, then sequence number, timestamp and SSRC.
pub record Fields : Type 0 where
  pub version : ℕ
  pub padding : ℕ
  pub extension : ℕ
  pub csrc_count : ℕ
  pub marker : ℕ
  pub payload_type : ℕ
  pub sequence : ℕ
  pub timestamp : ℕ
  pub ssrc : ℕ

abbrev pub parse_fields : List ℕ → Fields
parse_fields d = record {
  version = get_or d 0 0 / 64;
  padding = get_or d 0 0 / 32 % 2;
  extension = get_or d 0 0 / 16 % 2;
  csrc_count = get_or d 0 0 % 16;
  marker = get_or d 1 0 / 128;
  payload_type = get_or d 1 0 % 128;
  sequence = be16_value (drop 2 d);
  timestamp = be32_value (drop 4 d);
  ssrc = be32_value (drop 8 d);
}

-- A header whose fields fit their bit-fields, with `seq`, `ts` and `ssrc` swapped by `htons` and
-- `htonl`, is read back field by field by a receiver that follows RFC 3550.
pub parse-header_bytes :
    (version p x cc m pt seq ts ssrc : ℕ) (rest : List ℕ)
    → version < 4
    → p < 2
    → x < 2
    → cc < 16
    → m < 2
    → pt < 128
    → seq < 0x10000
    → ts < 0x100000000
    → ssrc < 0x100000000
    → parse_fields (
        header_bytes (record {
          cc = cc;
          x = x;
          p = p;
          version = version;
          pt = pt;
          m = m;
          seq = htons seq;
          ts = htonl ts;
          ssrc = htonl ssrc;
        })
        ++ rest)
      ≡ record {
        version = version;
        padding = p;
        extension = x;
        csrc_count = cc;
        marker = m;
        payload_type = pt;
        sequence = seq;
        timestamp = ts;
        ssrc = ssrc;
      }
unfolding header_bytes
parse-header_bytes version p x cc m pt seq ts ssrc rest h1 h2 h3 h4 h5 h6 h7 h8 h9 = ground arith
