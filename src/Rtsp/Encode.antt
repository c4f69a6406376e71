-- ===== src/Rtsp/Encode.antt =====
-- `base64_encode` and `base16_encode` of rtsp.c.
pub mod Sextets
pub mod Groups
pub mod Decoding
use handle_wifi_camera_itop.Common.{
  ℕ, zero, suc, ◌+◌, ◌-◌, ◌*◌, ◌/◌, ◌%◌, ◌^◌, ltb, if◌then◌else◌, List, [], ◌∷◌, ◌++◌, get_or, ◌==◌,
  Text, codes, hex_byte,
}

abbrev pub base64 : Text
base64 = codes "ABCDEFGHIJKLMNOPQRSTUVWXYZabcdefghijklmnopqrstuvwxyz0123456789+/"

pub base64_encoded_len : ℕ → ℕ
base64_encoded_len raw_len = (raw_len + 3 - 1) / 3 * 4

-- The sextet at a bit position: bytes are below 256, so the two parts of `tmp |= …` do not overlap
-- and `|` is a sum.
pub sextet : List ℕ → ℕ → ℕ → ℕ
sextet raw len bit =
    let byte : ℕ = bit / 8 in
    let shift : ℕ = bit % 8 in
    let high : ℕ = get_or raw byte 0 * 2 ^ shift in
    let tmp : ℕ =
      if ltb (byte + 1) len then high + get_or raw (byte + 1) 0 / 2 ^ (8 - shift) else high in
    tmp / 4 % 64

-- `for ( ; ( bit % 8 ) != 0 ; bit += 6 )`; three rounds are enough, since bit is even.
pub pad_loop : ℕ → ℕ → Text
pad_loop zero bit = []
pad_loop (suc fuel) bit =
    let rest = b'=' ∷ pad_loop fuel (bit + 6) in if bit % 8 == 0 then [] else rest

-- `for ( bit = 0 ; bit < raw_bit_len ; bit += 6 )`, then the padding.
pub encode_loop : ℕ → List ℕ → ℕ → ℕ → Text
unfolding sextet pad_loop
encode_loop zero raw len bit = []
encode_loop (suc fuel) raw len bit =
    let rest = get_or base64 (sextet raw len bit) 0 ∷ encode_loop fuel raw len (bit + 6) in
    if ltb bit (8 * len) then rest else pad_loop 4 bit

-- There are at most 2 * len rounds. 8 * len is an int, that is for less than 2^28 bytes.
unfoldable pub base64_encode : List ℕ → ℕ → Text
unfolding encode_loop
base64_encode raw len = encode_loop (2 * len + 1) raw len 0

pub base16_encoded_len : ℕ → ℕ
base16_encoded_len raw_len = 2 * raw_len

pub base16_encode : List ℕ → ℕ → Text
base16_encode raw zero = []
base16_encode [] (suc len) = []
base16_encode (b ∷ raw) (suc len) = hex_byte b ++ base16_encode raw len
