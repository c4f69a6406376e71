-- ===== src/Rtsp/Encode/Decoding.antt =====
-- What a client gets back from base64 text.
use handle_wifi_camera_itop.Common.{
  ℕ, zero, suc, ◌+◌, ◌-◌, ◌*◌, ◌/◌, ◌%◌, ◌<◌, ◌≡◌, refl, ap, ap₂, Bool, true, false, not, ◌&&◌,
  List, [], ◌∷◌, leb, ◌==◌, if◌then◌else◌, arith, Text, length, get_or,
}
use handle_wifi_camera_itop.Rtsp.Encode.Sextets.{letter}
use handle_wifi_camera_itop.Rtsp.Encode.{base64}
use handle_wifi_camera_itop.Rtsp.Encode.Groups.{base64_groups, AreBytes}

-- The six bits of a letter of RFC 4648.
letter_value : ℕ → ℕ
letter_value c =
    if leb b'A' c && leb c b'Z'
    then c - b'A'
    else if leb b'a' c && leb c b'z'
    then c - b'a' + 26
    else if leb b'0' c && leb c b'9'
    then c - b'0' + 52
    else if c == b'+'
    then 62
    else 63

-- Four letters are three bytes; `=` fills up the last four.
unfoldable pub base64_decode : Text → List ℕ
unfolding letter_value
base64_decode (a ∷ b ∷ c ∷ d ∷ rest) =
    let x : ℕ = letter_value a * 4 + letter_value b / 16 in
    let y : ℕ = letter_value b % 16 * 16 + letter_value c / 4 in
    let z : ℕ = letter_value c % 4 * 64 + letter_value d in
    if c == b'=' then x ∷ [] else if d == b'=' then x ∷ y ∷ [] else x ∷ y ∷ z ∷ base64_decode rest
base64_decode _ = []

-- The letters of a text are read as the numbers from n on, and none is the filler.
are_numbered : ℕ → Text → Bool
are_numbered n [] = true
are_numbered n (c ∷ cs) = (letter_value c == n && not (c == b'=')) && are_numbered (suc n) cs

alphabet-are_numbered : are_numbered 0 base64 ≡ true
unfolding are_numbered letter_value
alphabet-are_numbered = refl

-- A text with such letters, read at one place.
read_numbered :
    (cs : Text) (n i : ℕ)
    → are_numbered n cs ≡ true
    → i < length cs
    → (letter_value (get_or cs i 0) ≡ n + i) × ((get_or cs i 0 == b'=') ≡ false)
unfolding are_numbered
read_numbered [] n i h lt = absurd (omega arith)
read_numbered (c ∷ cs) n zero h lt = (ground arith, ground arith)
read_numbered (c ∷ cs) n (suc i) h lt =
    let (value, other) = read_numbered cs (suc n) i (ground arith) (omega arith) in
    (omega (arith, value), other)

read_letter : (k : ℕ) → k < 64 → (letter_value (letter k) ≡ k) × ((letter k == b'=') ≡ false)
read_letter k h =
    let (value, other) = read_numbered base64 0 k alphabet-are_numbered h in
    (omega (arith, value), other)

pub base64_decode-groups : (raw : List ℕ) → AreBytes raw → base64_decode (base64_groups raw) ≡ raw
unfolding base64_decode
base64_decode-groups [] h = refl
base64_decode-groups (a ∷ []) h =
    let (u, _) = read_letter (a / 4) (omega arith) in
    let (v, _) = read_letter (a % 4 * 16) (omega arith) in ap (λ x. x ∷ []) (omega (arith, u, v))
base64_decode-groups (a ∷ b ∷ []) h =
    let (u, _) = read_letter (a / 4) (omega arith) in
    let (v, _) = read_letter (a % 4 * 16 + b / 16) (omega arith) in
    let (w, more) = read_letter (b % 16 * 4) (omega arith) in
    rw more (ap₂ (λ x y. x ∷ y ∷ []) (omega (arith, u, v)) (omega (arith, v, w)))
base64_decode-groups (a ∷ b ∷ c ∷ raw) h =
    let (u, _) = read_letter (a / 4) (omega arith) in
    let (v, _) = read_letter (a % 4 * 16 + b / 16) (omega arith) in
    let (w, more) = read_letter (b % 16 * 4 + c / 64) (omega arith) in
    let (x, most) = read_letter (c % 64) (omega arith) in
    rw (more, most)
      (ap₂ (λ p q. p ∷ q) (omega (arith, u, v))
        (ap₂ (λ p q. p ∷ q) (omega (arith, v, w))
          (ap₂ (λ p q. p ∷ q) (omega (arith, w, x)) (base64_decode-groups raw h.1.1.1))))
