-- ===== src/Video/Image/Planes.antt =====
-- The planes of a converted image.
use handle_wifi_camera_itop.Common.{
  ℕ, zero, suc, ◌+◌, ◌*◌, ◌/◌, ◌%◌, ◌==◌, eq→==, ◌≤◌, ◌≡◌, ◌∙◌, refl, sym, ap, ap₂, true, false,
  List, [], ◌∷◌, ◌++◌, append-nil, append_assoc, some, arith, length, take, drop, take-append-drop,
  take_all, length-append, length-take, length-drop,
}
use handle_wifi_camera_itop.Public.ErrorCode.{ok}
use handle_wifi_camera_itop.Video.Image.{
  poke, convert_loop, Converted, converted, convert_nv12_to_iyuv,
}

-- The bytes of two planes, in turns: how NV12 keeps them.
abbrev pub interleave : List ℕ → List ℕ → List ℕ
interleave [] vs = []
interleave (u ∷ us) [] = []
interleave (u ∷ us) (v ∷ vs) = u ∷ v ∷ interleave us vs

poke-append :
    (xs ys : List ℕ) (n b c : ℕ) → n ≡ length xs → poke n b (xs ++ (c ∷ ys)) ≡ xs ++ (b ∷ ys)
poke-append [] ys zero b c e = refl
poke-append [] ys (suc n) b c e = absurd (omega (arith, e))
poke-append (x ∷ xs) ys zero b c e = absurd (omega (arith, e))
poke-append (x ∷ xs) ys (suc n) b c e = ap (λ l. x ∷ l) (poke-append xs ys n b c (omega (arith, e)))

-- Two rounds of the loop.
convert_pair :
    (u v : ℕ) (bytes : List ℕ) (i p q : ℕ) (pcache : List ℕ)
    → i % 2 ≡ 0
    → convert_loop (u ∷ v ∷ bytes) i p q pcache
      ≡ convert_loop bytes (suc (suc i)) (suc p) (suc q) (poke q v (poke p u pcache))
unfolding convert_loop
convert_pair u v bytes i p q pcache e =
    let even : (i % 2 == 0) ≡ true = eq→== (i % 2) 0 e in
    let odd : (suc i % 2 == 0) ≡ false = ground arith in rw even (rw odd refl)

poke_left : (xs ys : List ℕ) (n b : ℕ) → suc n ≤ length xs → poke n b (xs ++ ys) ≡ poke n b xs ++ ys
poke_left [] ys n b h = absurd (omega (arith, h))
poke_left (x ∷ xs) ys zero b h = refl
poke_left (x ∷ xs) ys (suc n) b h = ap (λ l. x ∷ l) (poke_left xs ys n b (omega (arith, h)))

poke_right :
    (xs ys : List ℕ) (n r b : ℕ) → n ≡ length xs + r → poke n b (xs ++ ys) ≡ xs ++ poke r b ys
poke_right [] ys n r b e = ap (λ k. poke k b ys) (omega (arith, e))
poke_right (x ∷ xs) ys zero r b e = absurd (omega (arith, e))
poke_right (x ∷ xs) ys (suc n) r b e = ap (λ l. x ∷ l) (poke_right xs ys n r b (omega (arith, e)))

-- One byte behind those that have been written to a plane.
poke_next :
    (written spare : List ℕ) (n b c : ℕ)
    → n ≡ length written
    → poke n b (written ++ (c ∷ spare)) ≡ (written ++ (b ∷ [])) ++ spare
poke_next written spare n b c e =
    poke-append written spare n b c e ∙ sym (append_assoc written (b ∷ []) spare)

-- From any even byte on: `es` and `os` have been written, `gs` and `hs` are still to be.
convert_loop_planes :
    (us vs es gs os hs : List ℕ) (i p q : ℕ)
    → i % 2 ≡ 0
    → p ≡ length es
    → q ≡ length (es ++ gs) + length os
    → length us ≡ length gs
    → length vs ≡ length hs
    → length us ≡ length vs
    → convert_loop (interleave us vs) i p q ((es ++ gs) ++ (os ++ hs)) ≡ (es ++ us) ++ (os ++ vs)
unfolding convert_loop
convert_loop_planes [] [] es [] os [] i p q e ep eq lu lv l = refl
convert_loop_planes [] (v ∷ vs) es gs os hs i p q e ep eq lu lv l = absurd (omega (arith, l))
convert_loop_planes [] [] es (g ∷ gs) os hs i p q e ep eq lu lv l = absurd (omega (arith, lu))
convert_loop_planes [] [] es [] os (h ∷ hs) i p q e ep eq lu lv l = absurd (omega (arith, lv))
convert_loop_planes (u ∷ us) [] es gs os hs i p q e ep eq lu lv l = absurd (omega (arith, l))
convert_loop_planes (u ∷ us) (v ∷ vs) es [] os hs i p q e ep eq lu lv l = absurd (omega (arith, lu))
convert_loop_planes (u ∷ us) (v ∷ vs) es (g ∷ gs) os [] i p q e ep eq lu lv l =
    absurd (omega (arith, lv))
convert_loop_planes (u ∷ us) (v ∷ vs) es (g ∷ gs) os (h ∷ hs) i p q e ep eq lu lv l =
    let es' = es ++ (u ∷ []) in
    let os' = os ++ (v ∷ []) in
    let first = length-append es (g ∷ gs) in
    let grown = length-append es (u ∷ []) in
    let both = length-append es' gs in
    let grown' = length-append os (v ∷ []) in
    let step : poke q v (poke p u ((es ++ (g ∷ gs)) ++ (os ++ (h ∷ hs))))
        ≡ (es' ++ gs) ++ (os' ++ hs) =
      ap (λ c. poke q v c)
        (poke_left (es ++ (g ∷ gs)) (os ++ (h ∷ hs)) p u (omega (arith, ep, first))
          ∙ ap (λ c. c ++ (os ++ (h ∷ hs))) (poke_next es gs p u g ep))
      ∙ poke_right (es' ++ gs) (os ++ (h ∷ hs)) q (length os) v
          (omega (arith, eq, first, both, grown))
      ∙ ap (λ c. (es' ++ gs) ++ c) (poke_next os hs (length os) v h refl) in
    convert_pair u v (interleave us vs) i p q ((es ++ (g ∷ gs)) ++ (os ++ (h ∷ hs))) e
    ∙ ap (λ c. convert_loop (interleave us vs) (suc (suc i)) (suc p) (suc q) c) step
    ∙ convert_loop_planes us vs es' gs os' hs (suc (suc i)) (suc p) (suc q) (omega (arith, e))
        (omega (arith, ep, grown)) (omega (arith, eq, first, both, grown, grown'))
        (omega (arith, lu)) (omega (arith, lv)) (omega (arith, l))
    ∙ ap₂ (λ (a b : List ℕ). a ++ b) (append_assoc es (u ∷ []) us) (append_assoc os (v ∷ []) vs)

-- A list of even length is two planes in turns.
planes_of :
    (k : ℕ) (bytes : List ℕ)
    → length bytes ≡ 2 * k
    → (us : List ℕ) × (vs : List ℕ) × (bytes ≡ interleave us vs) × (length us ≡ k) × (length vs ≡ k)
planes_of zero [] h = ([], [], refl, refl, refl)
planes_of zero (b ∷ bs) h = absurd (omega (arith, h))
planes_of (suc k) [] h = absurd (omega (arith, h))
planes_of (suc k) (b ∷ []) h = absurd (omega (arith, h))
planes_of (suc k) (b ∷ c ∷ bs) h =
    let (us, vs, e, lu, lv) = planes_of k bs (omega (arith, h)) in
    (b ∷ us, c ∷ vs, ap (λ l. b ∷ c ∷ l) e, ap suc lu, ap suc lv)

drop_all : (n : ℕ) (xs : List ℕ) → length xs ≤ n → drop n xs ≡ []
drop_all zero [] h = refl
drop_all zero (x ∷ xs) h = absurd (omega (arith, h))
drop_all (suc n) [] h = refl
drop_all (suc n) (x ∷ xs) h = drop_all n xs (omega (arith, h))

-- The image has its first plane as before, and behind it the two planes that were interleaved there.
abbrev pub Deinterleaves : List ℕ → ℕ → Converted → Type 0
Deinterleaves pbuf k r =
    (us : List ℕ) × (vs : List ℕ) × (length us ≡ k)
    × (length vs ≡ k)
    × (pbuf ≡ take (4 * k) pbuf ++ interleave us vs)
    × (r ≡ converted (some ok) (take (4 * k) pbuf ++ (us ++ vs)))

-- If the image has 4k pixels and the 6k bytes of NV12, and the 2k bytes of pcache can be had
-- (whatever is in them), then `ConvertNV12toIYUV` returns OK with an image of the same first plane
-- and the two planes whose bytes stood in turns behind it, one after the other; so no byte is lost.
pub convert_nv12_to_iyuv-Deinterleaves :
    (pbuf pcache : List ℕ) (imgw imgh k : ℕ)
    → imgw * imgh ≡ 4 * k
    → length pbuf ≡ 6 * k
    → length pcache ≡ 2 * k
    → Deinterleaves pbuf k (convert_nv12_to_iyuv (some pbuf) (some pcache) imgw imgh)
unfolding convert_nv12_to_iyuv
convert_nv12_to_iyuv-Deinterleaves pbuf pcache imgw imgh k size lp lc =
    let rest = drop (4 * k) pbuf in
    let (us, vs, e, lu, lv) = planes_of k rest (omega (arith, length-drop (4 * k) pbuf, lp)) in
    let loop : convert_loop (take (4 * k / 2) rest) 0 0 (4 * k / 4) pcache ≡ us ++ vs =
      ap (λ l. convert_loop l 0 0 (4 * k / 4) pcache)
        (take_all (4 * k / 2) rest (omega (arith, length-drop (4 * k) pbuf, lp)) ∙ e)
      ∙ ap (λ q. convert_loop (interleave us vs) 0 0 q pcache) (omega arith)
      ∙ ap (λ c. convert_loop (interleave us vs) 0 0 k c) (sym (take-append-drop k pcache))
      ∙ convert_loop_planes us vs [] (take k pcache) [] (drop k pcache) 0 0 k refl refl
          (omega (arith, length-take k pcache, lc)) (omega (arith, length-take k pcache, lc, lu))
          (omega (arith, length-drop k pcache, lc, lv)) (omega (arith, lu, lv)) in
    (
      us,
      vs,
      lu,
      lv,
      sym (take-append-drop (4 * k) pbuf) ∙ ap (λ l. take (4 * k) pbuf ++ l) e,
      ap
            (λ m. converted (some ok) (
              take m pbuf
              ++ (convert_loop (take (m / 2) (drop m pbuf)) 0 0 (m / 4) pcache
                  ++ drop (m + m / 2) pbuf)))
            size
          ∙ ap (λ l. converted (some ok) (take (4 * k) pbuf ++ l))
              (ap₂ (λ (a b : List ℕ). a ++ b) loop
                  (drop_all (4 * k + 4 * k / 2) pbuf (omega (arith, lp)))
                ∙ append-nil (us ++ vs)),
    )
