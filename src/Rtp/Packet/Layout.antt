-- ===== src/Rtp/Packet/Layout.antt =====
-- `struct_RTP_header` and its bytes in memory are the same thing.
use mathlib.Core.Equiv.{IsEquiv, Iso, iso_to_equiv}
use mathlib.Core.HLevel.{Σ_prop_path, ×_prop, Unit-prop}
use native.Mathlib.Bridge.{le_prop}
use native.Mathlib.Nat.{ℕ_set}
use handle_wifi_camera_itop.Common.{
  ℕ, ◌+◌, ◌*◌, ◌/◌, ◌%◌, ◌<◌, ◌≡◌, List, [], ◌∷◌, arith, length, get_or,
}
use handle_wifi_camera_itop.Rtp.Packet.{RtpHeader, header_bytes}

-- Every field fits its bit-field, or its 16 or 32 bits.
abbrev pub Fits : RtpHeader → Type 0
Fits h =
    (h.cc < 16)
    × (h.x < 2)
    × (h.p < 2)
    × (h.version < 4)
    × (h.pt < 128)
    × (h.m < 2)
    × (h.seq < 0x10000)
    × (h.ts < 0x100000000)
    × (h.ssrc < 0x100000000)

abbrev pub FittingHeader : Type 0
FittingHeader = (h : RtpHeader) × Fits h

abbrev pub AllBytes : List ℕ → Type 0
AllBytes [] = Unit
AllBytes (b ∷ bs) = (b < 256) × AllBytes bs

abbrev pub TwelveBytes : Type 0
TwelveBytes = (bs : List ℕ) × ((length bs ≡ 12) × AllBytes bs)

bytes-IsTwelve : (h : RtpHeader) → (length (header_bytes h) ≡ 12) × AllBytes (header_bytes h)
unfolding header_bytes
bytes-IsTwelve h = omega arith

pub packed : FittingHeader → TwelveBytes
packed (h, _) = (header_bytes h, bytes-IsTwelve h)

le32_value : ℕ → List ℕ → ℕ
le32_value i bs =
    get_or bs i 0
    + get_or bs (i + 1) 0 * 256
    + get_or bs (i + 2) 0 * 0x10000
    + get_or bs (i + 3) 0 * 0x1000000

read_header : List ℕ → RtpHeader
unfolding le32_value
read_header bs = record {
  cc = get_or bs 0 0 % 16;
  x = get_or bs 0 0 / 16 % 2;
  p = get_or bs 0 0 / 32 % 2;
  version = get_or bs 0 0 / 64;
  pt = get_or bs 1 0 % 128;
  m = get_or bs 1 0 / 128;
  seq = get_or bs 2 0 + get_or bs 3 0 * 256;
  ts = le32_value 4 bs;
  ssrc = le32_value 8 bs;
}

read_header-Fits : (bs : List ℕ) → length bs ≡ 12 → AllBytes bs → Fits (read_header bs)
unfolding read_header
read_header-Fits (a ∷ b ∷ c ∷ d ∷ e ∷ f ∷ g ∷ h ∷ i ∷ j ∷ k ∷ l ∷ []) n all = omega arith
read_header-Fits bs n all = absurd (omega arith)

header_bytes-read_header :
    (bs : List ℕ) → length bs ≡ 12 → AllBytes bs → header_bytes (read_header bs) ≡ bs
unfolding read_header header_bytes
header_bytes-read_header (a ∷ b ∷ c ∷ d ∷ e ∷ f ∷ g ∷ h ∷ i ∷ j ∷ k ∷ l ∷ []) n all = ground arith
header_bytes-read_header bs n all = absurd (omega arith)

read_header-header_bytes : (h : RtpHeader) → Fits h → read_header (header_bytes h) ≡ h
unfolding read_header header_bytes
read_header-header_bytes h fits = ground arith

AllBytes-prop : (bs : List ℕ) → IsProp (AllBytes bs)
AllBytes-prop [] = Unit-prop
AllBytes-prop (b ∷ bs) = ×_prop le_prop (AllBytes-prop bs)

Fits-prop : (h : RtpHeader) → IsProp (Fits h)
Fits-prop h = hlevel (le_prop)

packed-Iso : Iso FittingHeader TwelveBytes
unfolding packed
packed-Iso = record {
  fun = packed;
  inv = λ (bs, (n, all)). (read_header bs, read_header-Fits bs n all);
  rinv = λ (bs, (n, all)).
      Σ_prop_path (λ l. ×_prop (ℕ_set _ _) (AllBytes-prop l)) (header_bytes-read_header bs n all);
  linv = λ (h, fits). Σ_prop_path Fits-prop (read_header-header_bytes h fits);
}

-- The headers whose fields fit and the strings of twelve bytes are one type: each string is the
-- memory of exactly one such header, so that no two headers look alike and no byte is unused.
pub packed-IsEquiv : IsEquiv packed
unfolding packed-Iso
packed-IsEquiv = (iso_to_equiv packed-Iso).1
