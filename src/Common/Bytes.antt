-- ===== src/Common/Bytes.antt =====
-- Byte order and memory copies. The target is a little-endian ARM: a number is stored low byte first,
-- and `htons`, `htonl` swap the bytes. x & (2^k - 1) is written x % 2^k, and x >> k is x / 2^k.
use Prim.Native.Nat.{ℕ, ◌+◌, ◌*◌, ◌/◌, ◌%◌, ◌≤◌, ◌<◌}
use mathlib.Core.Path.{◌≡◌}
use mathlib.Core.List.{List, [], ◌∷◌, ◌++◌}
use native.Mathlib.Omega.{arith}
use handle_wifi_camera_itop.Common.Lists.{length, take, drop, length-take, take-append}

abbrev pub htons : ℕ → ℕ
htons n = n % 256 * 256 + n / 256 % 256

abbrev pub htonl : ℕ → ℕ
htonl n =
    n % 256 * 0x1000000 + n / 256 % 256 * 0x10000 + n / 0x10000 % 256 * 256 + n / 0x1000000 % 256

-- How a 16-bit and a 32-bit number lie in memory.
abbrev pub le16 : ℕ → List ℕ
le16 n = n % 256 ∷ n / 256 % 256 ∷ []

abbrev pub le32 : ℕ → List ℕ
le32 n = n % 256 ∷ n / 256 % 256 ∷ n / 0x10000 % 256 ∷ n / 0x1000000 % 256 ∷ []

-- The numbers that a reader of network order finds.
abbrev pub be16_value : List ℕ → ℕ
be16_value (a ∷ b ∷ _) = a * 256 + b
be16_value _ = 0

abbrev pub be32_value : List ℕ → ℕ
be32_value (a ∷ b ∷ c ∷ d ∷ _) = a * 0x1000000 + b * 0x10000 + c * 256 + d
be32_value _ = 0

pub be16_value-htons :
    (n : ℕ) (rest : List ℕ) → n < 0x10000 → be16_value (le16 (htons n) ++ rest) ≡ n
be16_value-htons n rest h = omega arith

pub be32_value-htonl :
    (n : ℕ) (rest : List ℕ) → n < 0x100000000 → be32_value (le32 (htonl n) ++ rest) ≡ n
be32_value-htonl n rest h = omega arith

-- memcpy(dst, src, n): the first n bytes of dst become those of src.
abbrev pub memcpy : List ℕ → List ℕ → ℕ → List ℕ
memcpy dst src n = take n src ++ drop n dst

-- Where src has n bytes, they are the first n of the result.
pub take-memcpy :
    (dst src : List ℕ) (n : ℕ) → n ≤ length src → take n (memcpy dst src n) ≡ take n src
take-memcpy dst src n h = take-append (take n src) (drop n dst) n (omega (arith, length-take n src))
