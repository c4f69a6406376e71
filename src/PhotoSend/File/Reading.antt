-- ===== src/PhotoSend/File/Reading.antt =====
-- Which bytes the read of a piece of a photograph gets.
use mathlib.Core.Option.{some-injective}
use handle_wifi_camera_itop.Common.{
  ℕ, zero, suc, ◌+◌, ◌-◌, ◌≤◌, ◌<◌, min, ◌≡◌, ◌≢◌, ◌⊎◌, inl, inr, refl, sym, ap, ◌∙◌, List, [], ◌∷◌,
  ◌++◌, append_assoc, append-nil, some, arith, length, length-take, length-drop, take, drop,
  take-add, drop-drop,
}
use handle_wifi_camera_itop.Public.ErrorCode.{ok}
use handle_wifi_camera_itop.PhotoSend.File.{
  ReadReply, gives, again, failed, ReadIn, read_loop, need_to_send,
}

-- How the read of a piece ends: the buffer holds the next `need` bytes of the file behind what it
-- held, and they have been taken off; or the code is not OK.
abbrev pub Fills : List ℕ → List ℕ → ℕ → ReadIn → Type 0
Fills file buffer need r =
    ((r.code ≡ some ok)
      × (need ≤ length file)
      × (r.buffer ≡ buffer ++ take need file)
      × (r.file ≡ drop need file))
    ⊎ (r.code ≢ some ok)

take-length : (n : ℕ) (xs : List ℕ) → take (length (take n xs)) xs ≡ take n xs
take-length zero xs = refl
take-length (suc n) [] = refl
take-length (suc n) (x ∷ xs) = ap (λ l. x ∷ l) (take-length n xs)

Fills-chunk :
    (file buffer : List ℕ) (n need : ℕ) (r : ReadIn)
    → n ≤ need
    → Fills
        (drop (length (take n file)) file)
        (buffer ++ take n file)
        (need - length (take n file))
        r
    → Fills file buffer need r
Fills-chunk file buffer n need r le (inr h) = inr h
Fills-chunk file buffer n need r le (inl (e, l, b, f)) =
    let c = take n file in
    let size = length-take n file in
    let k = length c in
    let split : k + (need - k) ≡ need = omega (arith, size) in
    inl (
      e,
      omega (arith, size, length-drop k file),
      b
          ∙ append_assoc buffer c (take (need - k) (drop k file))
          ∙ ap (λ l. buffer ++ l)
              (ap (λ l. l ++ take (need - k) (drop k file)) (sym (take-length n file))
                ∙ take-add k (need - k) file
                ∙ ap (λ m. take m file) split),
      f ∙ drop-drop (need - k) k file ∙ ap (λ m. drop m file) split,
    )

pub read_loop-Fills :
    (reads : List ReadReply) (file buffer : List ℕ) (need : ℕ)
    → Fills file buffer need (read_loop reads file buffer need)
unfolding read_loop
read_loop-Fills reads file buffer zero = inl (refl, omega arith, sym (append-nil buffer), refl)
read_loop-Fills [] file buffer (suc need) = inr (λ h. cc)
read_loop-Fills (gives n ∷ reads) file buffer (suc need) =
    let c = take (min (suc n) (suc need)) file in
    Fills-chunk file buffer (min (suc n) (suc need)) (suc need)
      (read_loop reads (drop (length c) file) (buffer ++ c) (suc need - length c)) (omega arith)
      (read_loop-Fills reads (drop (length c) file) (buffer ++ c) (suc need - length c))
read_loop-Fills (again ∷ reads) file buffer (suc need) =
    read_loop-Fills reads file buffer (suc need)
read_loop-Fills (failed ∷ reads) file buffer (suc need) =
    inr (λ h. absurd (omega (arith, some-injective _ _ h)))

pub need_bounds :
    (left : ℕ)
    → (need_to_send (suc left) ≤ suc left)
      × (0 < need_to_send (suc left))
      × (need_to_send (suc left) ≤ 1400)
need_bounds left = ground arith
