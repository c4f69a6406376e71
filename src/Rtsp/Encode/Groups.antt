-- ===== src/Rtsp/Encode/Groups.antt =====
-- `base64_encode` against RFC 4648, which takes three bytes at a time.
use handle_wifi_camera_itop.Common.{
  ℕ, suc, ◌+◌, ◌-◌, ◌*◌, ◌/◌, ◌%◌, ◌≤◌, ◌<◌, ◌≡◌, refl, sym, ap, ap₂, ◌∙◌, List, [], ◌∷◌, ◌++◌,
  append_assoc, arith, length, length-append, Text,
}
use handle_wifi_camera_itop.Rtsp.Encode.{base64_encoded_len, base64_encode, sextet, encode_loop}
use handle_wifi_camera_itop.Rtsp.Encode.Sextets.{
  letter, get_or-append, sextet_inside, sextet_end, step, stop, pad_more, pad_done,
}

-- Three bytes are four letters; one or two left over are filled up with `=`.
abbrev pub base64_groups : List ℕ → Text
base64_groups [] = []
base64_groups (a ∷ []) = letter (a / 4) ∷ letter (a % 4 * 16) ∷ b'=' ∷ b'=' ∷ []
base64_groups (a ∷ b ∷ []) =
    letter (a / 4) ∷ letter (a % 4 * 16 + b / 16) ∷ letter (b % 16 * 4) ∷ b'=' ∷ []
base64_groups (a ∷ b ∷ c ∷ raw) =
    letter (a / 4)
    ∷ letter (a % 4 * 16 + b / 16)
    ∷ letter (b % 16 * 4 + c / 64)
    ∷ letter (c % 64)
    ∷ base64_groups raw

abbrev pub AreBytes : List ℕ → Type 0
AreBytes [] = Unit
AreBytes (b ∷ raw) = (b < 256) × AreBytes raw

-- At the k-th group of a text: `pre` are the bytes before it.
module _ (pre : List ℕ) (k : ℕ) (at_group : length pre ≡ 3 * k) where
  abbrev whole : List ℕ → List ℕ
  whole raw = pre ++ raw

  first_two :
      (fuel a b : ℕ) (raw : List ℕ)
      → a < 256
      → b < 256
      → encode_loop (suc (suc fuel)) (whole (a ∷ b ∷ raw)) (3 * k + length (a ∷ b ∷ raw)) (24 * k)
        ≡ letter (a / 4)
          ∷ letter (a % 4 * 16 + b / 16)
          ∷ encode_loop fuel (whole (a ∷ b ∷ raw)) (3 * k + length (a ∷ b ∷ raw)) (24 * k + 6 + 6)
  first_two fuel a b raw ha hb =
      let all = whole (a ∷ b ∷ raw) in
      let len = 3 * k + length (a ∷ b ∷ raw) in
      let x = get_or-append pre (a ∷ b ∷ raw) (3 * k) 0 (omega arith) in
      let y = get_or-append pre (a ∷ b ∷ raw) (3 * k + 1) 1 (omega arith) in
      step (suc fuel) all len (24 * k) (a / 4) (omega arith) (
        sextet_inside all len (24 * k) (3 * k) 0 a b (omega arith) (omega arith) (omega arith) x y
        ∙ omega arith)
      ∙ ap (λ l. letter (a / 4) ∷ l)
          (step fuel all len (24 * k + 6) (a % 4 * 16 + b / 16) (omega arith) (
            sextet_inside all len (24 * k + 6) (3 * k) 6 a b (omega arith) (omega arith)
              (omega arith) x y
            ∙ omega arith))

  third :
      (fuel a b c : ℕ) (raw : List ℕ)
      → b < 256
      → c < 256
      → encode_loop
          (suc fuel)
          (whole (a ∷ b ∷ c ∷ raw))
          (3 * k + length (a ∷ b ∷ c ∷ raw))
          (24 * k + 6 + 6)
        ≡ letter (b % 16 * 4 + c / 64)
          ∷ encode_loop fuel
              (whole (a ∷ b ∷ c ∷ raw))
              (3 * k + length (a ∷ b ∷ c ∷ raw))
              (24 * k + 6 + 6 + 6)
  third fuel a b c raw hb hc =
      let all = whole (a ∷ b ∷ c ∷ raw) in
      let len = 3 * k + length (a ∷ b ∷ c ∷ raw) in
      step fuel all len (24 * k + 6 + 6) (b % 16 * 4 + c / 64) (omega arith) (
        sextet_inside all len (24 * k + 6 + 6) (3 * k + 1) 4 b c (omega arith) (omega arith)
          (omega arith) (get_or-append pre (a ∷ b ∷ c ∷ raw) (3 * k + 1) 1 (omega arith))
          (get_or-append pre (a ∷ b ∷ c ∷ raw) (3 * k + 1 + 1) 2 (omega arith))
        ∙ omega arith)

  fourth_sextet :
      (a b c : ℕ) (raw : List ℕ)
      → c < 256
      → AreBytes raw
      → sextet (whole (a ∷ b ∷ c ∷ raw)) (3 * k + length (a ∷ b ∷ c ∷ raw)) (24 * k + 6 + 6 + 6)
        ≡ c % 64
  fourth_sextet a b c [] hc h =
      sextet_end (whole (a ∷ b ∷ c ∷ [])) (3 * k + length (a ∷ b ∷ c ∷ [])) (24 * k + 6 + 6 + 6)
        (3 * k + 2) 2 c (omega arith) (omega arith) (omega arith)
        (get_or-append pre (a ∷ b ∷ c ∷ []) (3 * k + 2) 2 (omega arith))
      ∙ omega arith
  fourth_sextet a b c (d ∷ raw) hc (hd, h) =
      sextet_inside (whole (a ∷ b ∷ c ∷ d ∷ raw)) (3 * k + length (a ∷ b ∷ c ∷ d ∷ raw))
        (24 * k + 6 + 6 + 6) (3 * k + 2) 2 c d (omega arith) (omega arith) (omega arith)
        (get_or-append pre (a ∷ b ∷ c ∷ d ∷ raw) (3 * k + 2) 2 (omega arith))
        (get_or-append pre (a ∷ b ∷ c ∷ d ∷ raw) (3 * k + 2 + 1) 3 (omega arith))
      ∙ omega arith

  one_left :
      (fuel a : ℕ)
      → a < 256
      → encode_loop (suc (suc (suc fuel))) (whole (a ∷ [])) (3 * k + 1) (24 * k)
        ≡ base64_groups (a ∷ [])
  one_left fuel a ha =
      let all = whole (a ∷ []) in
      let x = get_or-append pre (a ∷ []) (3 * k) 0 (omega arith) in
      step (suc (suc fuel)) all (3 * k + 1) (24 * k) (a / 4) (omega arith) (
        sextet_end all (3 * k + 1) (24 * k) (3 * k) 0 a (omega arith) (omega arith) (omega arith) x
        ∙ omega arith)
      ∙ ap (λ l. letter (a / 4) ∷ l)
          (step (suc fuel) all (3 * k + 1) (24 * k + 6) (a % 4 * 16) (omega arith) (
              sextet_end all (3 * k + 1) (24 * k + 6) (3 * k) 6 a (omega arith) (omega arith)
                (omega arith) x
              ∙ omega arith)
            ∙ ap (λ l. letter (a % 4 * 16) ∷ l)
                (stop fuel all (3 * k + 1) (24 * k + 6 + 6) (omega arith)
                  ∙ pad_more 3 (24 * k + 6 + 6) (λ h. omega arith)
                  ∙ ap (λ l. b'=' ∷ l)
                      (pad_more 2 (24 * k + 6 + 6 + 6) (λ h. omega arith)
                        ∙ ap (λ l. b'=' ∷ l) (pad_done 1 (24 * k + 6 + 6 + 6 + 6) (omega arith)))))

  two_left :
      (fuel a b : ℕ)
      → a < 256
      → b < 256
      → encode_loop (suc (suc (suc (suc fuel)))) (whole (a ∷ b ∷ [])) (3 * k + 2) (24 * k)
        ≡ base64_groups (a ∷ b ∷ [])
  two_left fuel a b ha hb =
      let all = whole (a ∷ b ∷ []) in
      first_two (suc (suc fuel)) a b [] ha hb
      ∙ ap (λ l. letter (a / 4) ∷ letter (a % 4 * 16 + b / 16) ∷ l)
          (step (suc fuel) all (3 * k + 2) (24 * k + 6 + 6) (b % 16 * 4) (omega arith) (
              sextet_end all (3 * k + 2) (24 * k + 6 + 6) (3 * k + 1) 4 b (omega arith)
                (omega arith) (omega arith)
                (get_or-append pre (a ∷ b ∷ []) (3 * k + 1) 1 (omega arith))
              ∙ omega arith)
            ∙ ap (λ l. letter (b % 16 * 4) ∷ l)
                (stop fuel all (3 * k + 2) (24 * k + 6 + 6 + 6) (omega arith)
                  ∙ pad_more 3 (24 * k + 6 + 6 + 6) (λ h. omega arith)
                  ∙ ap (λ l. b'=' ∷ l) (pad_done 2 (24 * k + 6 + 6 + 6 + 6) (omega arith))))

loop_groups :
    (raw pre : List ℕ) (k fuel : ℕ)
    → length pre ≡ 3 * k
    → AreBytes raw
    → 2 * length raw + 1 ≤ fuel
    → encode_loop fuel (pre ++ raw) (3 * k + length raw) (24 * k) ≡ base64_groups raw
loop_groups [] pre k fuel e h f =
    ap (λ n. encode_loop n (pre ++ []) (3 * k + 0) (24 * k)) {x = fuel} {y = suc (fuel - 1)}
      (omega arith)
    ∙ stop (fuel - 1) (pre ++ []) (3 * k + 0) (24 * k) (omega arith)
    ∙ pad_done 3 (24 * k) (omega arith)
loop_groups (a ∷ []) pre k fuel e (ha, h) f =
    let enough : fuel ≡ suc (suc (suc (fuel - 3))) = omega arith in
    ap (λ n. encode_loop n (pre ++ (a ∷ [])) (3 * k + 1) (24 * k)) enough
    ∙ one_left pre k e (fuel - 3) a ha
loop_groups (a ∷ b ∷ []) pre k fuel e (ha, (hb, h)) f =
    let enough : fuel ≡ suc (suc (suc (suc (fuel - 4)))) = omega arith in
    ap (λ n. encode_loop n (pre ++ (a ∷ b ∷ [])) (3 * k + 2) (24 * k)) enough
    ∙ two_left pre k e (fuel - 4) a b ha hb
loop_groups (a ∷ b ∷ c ∷ raw) pre k fuel e (ha, (hb, (hc, h))) f =
    let enough : fuel ≡ suc (suc (suc (suc (fuel - 4)))) = omega arith in
    let all = pre ++ (a ∷ b ∷ c ∷ raw) in
    let len = 3 * k + length (a ∷ b ∷ c ∷ raw) in
    let moved : len ≡ 3 * (k + 1) + length raw = omega arith in
    let bit : 24 * k + 6 + 6 + 6 + 6 ≡ 24 * (k + 1) = omega arith in
    let rest =
      loop_groups raw (pre ++ (a ∷ b ∷ c ∷ [])) (k + 1) (fuel - 4)
        (omega (arith, length-append pre (a ∷ b ∷ c ∷ []))) h (omega arith) in
    ap (λ n. encode_loop n all len (24 * k)) enough
    ∙ first_two pre k e (suc (suc (fuel - 4))) a b (c ∷ raw) ha hb
    ∙ ap (λ l. letter (a / 4) ∷ letter (a % 4 * 16 + b / 16) ∷ l)
        (third pre k e (suc (fuel - 4)) a b c raw hb hc
          ∙ ap (λ l. letter (b % 16 * 4 + c / 64) ∷ l)
              (step (fuel - 4) all len (24 * k + 6 + 6 + 6) (c % 64) (omega arith)
                  (fourth_sextet pre k e a b c raw hc h)
                ∙ ap (λ l. letter (c % 64) ∷ l)
                    (ap (λ l. encode_loop (fuel - 4) l len (24 * k + 6 + 6 + 6 + 6))
                        (sym (append_assoc pre (a ∷ b ∷ c ∷ []) raw))
                      ∙ ap₂ (encode_loop (fuel - 4) ((pre ++ (a ∷ b ∷ c ∷ [])) ++ raw)) moved bit
                      ∙ rest)))

groups_length : (raw : List ℕ) → length (base64_groups raw) ≡ base64_encoded_len (length raw)
unfolding base64_encoded_len
groups_length [] = refl
groups_length (a ∷ []) = refl
groups_length (a ∷ b ∷ []) = refl
groups_length (a ∷ b ∷ c ∷ raw) = omega (arith, groups_length raw)

-- `base64_encode` of bytes is their base64 text after RFC 4648, and its length is what
-- `base64_encoded_len` says, so that a buffer of that size and one more byte for the NUL holds it.
pub base64_encode-groups :
    (raw : List ℕ)
    → AreBytes raw
    → (base64_encode raw (length raw) ≡ base64_groups raw)
      × (length (base64_encode raw (length raw)) ≡ base64_encoded_len (length raw))
unfolding base64_encode
base64_encode-groups raw h =
    let same =
      ap (λ n. encode_loop (2 * length raw + 1) raw n 0) (omega arith)
      ∙ loop_groups raw [] 0 (2 * length raw + 1) refl h (omega arith) in
    (same, ap length same ∙ groups_length raw)
