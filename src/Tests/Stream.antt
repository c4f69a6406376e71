-- ===== src/Tests/Stream.antt =====
-- The packets and the sender of rtp.c on a short and on a long NALU.
use handle_wifi_camera_itop.Common.{
  ℕ, zero, suc, ◌%◌, ◌⊎◌, ◌≡◌, refl, List, [], ◌∷◌, ◌++◌, take, drop, arith, htons, htonl,
}
use handle_wifi_camera_itop.NetTrans.Send.{SendReply, accepts}
use handle_wifi_camera_itop.Rtp.Packet.{RtpHeader, FuIndicator, FuHeader, header_bytes}
use handle_wifi_camera_itop.Rtp.Packet.Header.{parse_fields, parse-header_bytes}
use handle_wifi_camera_itop.Rtp.Sender.{Sender}
use handle_wifi_camera_itop.Rtp.Sender.Single.{Accepting}
use handle_wifi_camera_itop.Rtp.Sender.Fragments.{Fragmented, send_nalu_fragments}
use handle_wifi_camera_itop.Rtp.Sender.Reassembly.{
  reassemble, Forbidden, SendsRow, send_nalu_garbles,
}

abbrev fill : ℕ → ℕ → List ℕ
fill zero b = []
fill (suc n) b = b ∷ fill n b

abbrev zero_header : RtpHeader
zero_header = record { cc = 0; x = 0; p = 0; version = 0; pt = 0; m = 0; seq = 0; ts = 0; ssrc = 0 }

abbrev no_indicator : FuIndicator
no_indicator = record { type = 0; nri = 0; f = 0 }

abbrev no_fu_header : FuHeader
no_fu_header = record { type = 0; r = 0; e = 0; s = 0 }

abbrev start : Sender
start = record {
  seq_num = 65535;
  next_frame = 0;
  single_rtp_packet = record { header = zero_header; payload = [] };
  fu_a_rtp_packet = record {
    header = zero_header;
    fu_indicator = no_indicator;
    fu_header = no_fu_header;
    payload_data = [];
  };
  datagrams = [];
}

abbrev open_net : ℕ → List SendReply
open_net k = accepts 1500 ∷ []

open_net-Accepting : Accepting open_net
open_net-Accepting k = (1500, [], refl, omega arith)

-- An IDR slice (NAL type 5, nal_ref_idc 3) of 1401 bytes, in a buffer with two more.
abbrev idr : List ℕ
idr = 0x65 ∷ fill 1402 7

abbrev sps : List ℕ
sps = 0x67 ∷ 66 ∷ 0 ∷ 30 ∷ []

send_nalu_fragments_example : Fragmented open_net idr 1401 3600 start
send_nalu_fragments_example =
    send_nalu_fragments open_net open_net-Accepting idr 3600 1401 start (omega arith) (omega arith)

send_nalu_garbles_example : SendsRow open_net idr 1401 3600 start (λ row.
    (reassemble row ≡ take 1400 (drop 1 idr) ++ take 2 (drop 1401 idr))
    × ((0x65 % 2 ≡ 0) ⊎ Forbidden row))
send_nalu_garbles_example =
    send_nalu_garbles open_net open_net-Accepting idr 3600 1401 start (omega arith) (omega arith)

parse-header_bytes_example :
    parse_fields (
      header_bytes (record {
        cc = 0;
        x = 0;
        p = 0;
        version = 2;
        pt = 96;
        m = 1;
        seq = htons 258;
        ts = htonl 3600;
        ssrc = htonl 1;
      })
      ++ sps)
    ≡ record {
      version = 2;
      padding = 0;
      extension = 0;
      csrc_count = 0;
      marker = 1;
      payload_type = 96;
      sequence = 258;
      timestamp = 3600;
      ssrc = 1;
    }
parse-header_bytes_example =
    parse-header_bytes 2 0 0 0 1 96 258 3600 1 sps (omega arith) (omega arith) (omega arith)
      (omega arith) (omega arith) (omega arith) (omega arith) (omega arith) (omega arith)
