-- ===== src/Video/Header/Splitting.antt =====
-- The two parameter sets against the header.
use handle_wifi_camera_itop.Common.{
  ℕ, ◌+◌, ◌-◌, ◌≤◌, ◌≡◌, ◌⊎◌, ◌∙◌, refl, sym, ap, inl, inr, List, [], ◌∷◌, ◌++◌, Option, some, none,
  arith, length, take, drop, strstr, strstr-append, take-add, take-append-drop, append_assoc,
  drop-drop, length-take, length-drop, length-append,
}
use handle_wifi_camera_itop.Public.ErrorCode.{ok, scan_frame_start_code_fail}
use handle_wifi_camera_itop.Video.Header.{
  start_code, ParameterSets, cut_header, get_sps_and_pps_from_header,
}

-- No start code, or two parts that make up the header: the first has 4 bytes at least, and a start
-- code stands in memory where the second begins.
abbrev pub Splits : List ℕ → ℕ → ParameterSets → Type 0
Splits memory n r =
    ((r.code ≡ scan_frame_start_code_fail) × (strstr (take n (drop 4 memory)) start_code ≡ none))
    ⊎ ((r.code ≡ ok)
        × (r.sps ++ r.pps ≡ take n memory)
        × (4 ≤ length r.sps)
        × (length r.sps ≤ n)
        × (take 4 (drop (length r.sps) memory) ≡ start_code))

drop_before : (xs ys : List ℕ) → drop (length xs) (xs ++ ys) ≡ ys
drop_before [] ys = refl
drop_before (x ∷ xs) ys = drop_before xs ys

-- What the search has found stands behind `before`.
found_at :
    (memory before rest : List ℕ) (n : ℕ)
    → take n (drop 4 memory) ≡ before ++ (start_code ++ rest)
    → take 4 (drop (4 + length before) memory) ≡ start_code
found_at memory before rest n e =
    let behind = drop n (drop 4 memory) in
    let all : drop 4 memory ≡ before ++ ((start_code ++ rest) ++ behind) =
      sym (take-append-drop n (drop 4 memory))
      ∙ ap (λ l. l ++ behind) e
      ∙ append_assoc before (start_code ++ rest) behind in
    ap (λ l. take 4 l)
      (sym (drop-drop (length before) 4 memory)
        ∙ ap (λ l. drop (length before) l) all
        ∙ drop_before before ((start_code ++ rest) ++ behind))

cut_header-Splits :
    (memory : List ℕ) (n : ℕ) (found : Option (List ℕ))
    → strstr (take n (drop 4 memory)) start_code ≡ found
    → Splits memory n (cut_header memory n (take n (drop 4 memory)) found)
cut_header-Splits memory n none e = inl (refl, e)
cut_header-Splits memory n (some found) e =
    let window = take n (drop 4 memory) in
    let (before, rest, at, starts) = strstr-append window start_code found e in
    let read = length-take n (drop 4 memory) in
    let left = length-drop 4 memory in
    let parts : length window ≡ length before + (4 + length rest) =
      ap length at
      ∙ length-append before found
      ∙ ap (λ (l : List ℕ). length before + length l) starts
      ∙ ap (λ k. length before + k) (length-append start_code rest) in
    let here : length found ≡ 4 + length rest = ap length starts ∙ length-append start_code rest in
    let p = 4 + (length window - length found) in
    let place : p ≡ 4 + length before = omega (arith, read, left, parts, here) in
    let inside : p + (n - p) ≡ n = omega (arith, read, left, parts, here) in
    let size : length (take p memory) ≡ p =
      omega (arith, read, left, parts, here, length-take p memory) in
    inr (
      refl,
      take-add p (n - p) memory ∙ ap (λ k. take k memory) inside,
      omega (arith, size),
      omega (arith, size, inside, read, left, parts, here),
      ap (λ k. take 4 (drop k memory)) (size ∙ place)
          ∙ found_at memory before rest n (at ∙ ap (λ l. before ++ l) starts),
    )

-- Of every header, `get_sps_and_pps_from_header` either fails, and then there is no start code in the
-- encode_header_length bytes from the fifth on; or it returns OK, the two parts together are the
-- header, the first is not shorter than 4 nor longer than the header, and a start code stands in
-- memory where the second begins.
pub get_sps_and_pps_from_header-Splits :
    (memory : List ℕ) (n : ℕ) → Splits memory n (get_sps_and_pps_from_header memory n)
unfolding get_sps_and_pps_from_header
get_sps_and_pps_from_header-Splits memory n =
    cut_header-Splits memory n (strstr (take n (drop 4 memory)) start_code) refl
