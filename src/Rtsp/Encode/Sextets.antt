-- ===== src/Rtsp/Encode/Sextets.antt =====
-- One round of each loop of `base64_encode`.
use handle_wifi_camera_itop.Common.{
  ℕ, zero, suc, ◌+◌, ◌-◌, ◌*◌, ◌/◌, ◌%◌, ◌^◌, ◌≤◌, ◌<◌, ◌==◌, ltb, ◌≡◌, ◌≢◌, refl, ap, true, false,
  List, [], ◌∷◌, ◌++◌, arith, length, get_or,
}
use handle_wifi_camera_itop.Rtsp.Encode.{base64, sextet, pad_loop, encode_loop}

abbrev pub letter : ℕ → ℕ
letter n = get_or base64 n 0

pub get_or-append :
    (pre xs : List ℕ) (n i : ℕ) → n ≡ length pre + i → get_or (pre ++ xs) n 0 ≡ get_or xs i 0
get_or-append [] xs n i h = ap (λ k. get_or xs k 0) (omega arith)
get_or-append (p ∷ pre) xs zero i h = absurd (omega arith)
get_or-append (p ∷ pre) xs (suc n) i h = get_or-append pre xs n i (omega arith)

-- A sextet from the byte that it begins in and, if there is one, the next.
pub sextet_inside :
    (raw : List ℕ) (len bit byte shift x y : ℕ)
    → bit / 8 ≡ byte
    → bit % 8 ≡ shift
    → byte + 1 < len
    → get_or raw byte 0 ≡ x
    → get_or raw (byte + 1) 0 ≡ y
    → sextet raw len bit ≡ (x * 2 ^ shift + y / 2 ^ (8 - shift)) / 4 % 64
unfolding sextet
sextet_inside raw len bit byte shift x y e f l g h =
    let inside : ltb (byte + 1) len ≡ true = ground arith in rw (e, f, inside, g, h) refl

pub sextet_end :
    (raw : List ℕ) (len bit byte shift x : ℕ)
    → bit / 8 ≡ byte
    → bit % 8 ≡ shift
    → len ≤ byte + 1
    → get_or raw byte 0 ≡ x
    → sextet raw len bit ≡ (x * 2 ^ shift) / 4 % 64
unfolding sextet
sextet_end raw len bit byte shift x e f l g =
    let outside : ltb (byte + 1) len ≡ false = ground arith in rw (e, f, outside, g) refl

-- One round of the loop.
pub step :
    (fuel : ℕ) (raw : List ℕ) (len bit n : ℕ)
    → bit < 8 * len
    → sextet raw len bit ≡ n
    → encode_loop (suc fuel) raw len bit ≡ letter n ∷ encode_loop fuel raw len (bit + 6)
unfolding encode_loop
step fuel raw len bit n h e =
    let going : ltb bit (8 * len) ≡ true = ground arith in rw (going, e) refl

pub stop :
    (fuel : ℕ) (raw : List ℕ) (len bit : ℕ)
    → 8 * len ≤ bit
    → encode_loop (suc fuel) raw len bit ≡ pad_loop 4 bit
unfolding encode_loop
stop fuel raw len bit h = let done : ltb bit (8 * len) ≡ false = ground arith in rw done refl

pub pad_more :
    (fuel bit : ℕ) → bit % 8 ≢ 0 → pad_loop (suc fuel) bit ≡ b'=' ∷ pad_loop fuel (bit + 6)
unfolding pad_loop
pad_more fuel bit h = let more : (bit % 8 == 0) ≡ false = ground arith in rw more refl

pub pad_done : (fuel bit : ℕ) → bit % 8 ≡ 0 → pad_loop (suc fuel) bit ≡ []
unfolding pad_loop
pad_done fuel bit h = let done : (bit % 8 == 0) ≡ true = ground arith in rw done refl
