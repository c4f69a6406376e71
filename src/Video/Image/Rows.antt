-- ===== src/Video/Image/Rows.antt =====
-- The rows that are handed to the JPEG library.
use mathlib.Core.Path.{subst}
use handle_wifi_camera_itop.Common.{
  ℕ, zero, suc, ◌+◌, ◌-◌, ◌*◌, ◌/◌, ◌%◌, ◌==◌, ==→eq, ==→ne, ltb, ◌≤◌, ◌<◌, ◌≡◌, refl, ap,
  Bool-cases, true, false, inl, inr, List, [], ◌∷◌, arith, length,
}
use handle_wifi_camera_itop.Video.Image.{Strip, strip_from, strips_from, i420_data_to_jpeg_data}

-- Each address of a list begins a row of `size` bytes between two others.
abbrev pub Within : ℕ → ℕ → ℕ → List ℕ → Type 0
Within low high size [] = Unit
Within low high size (a ∷ rest) = (low ≤ a) × (a + size ≤ high) × Within low high size rest

-- The rows of a strip lie in the three planes of a w x h image.
abbrev pub InPlanes : ℕ → ℕ → Strip → Type 0
InPlanes w h s =
    Within 0 (w * h) w s.y
    × Within (w * h) (w * h + w * h / 4) (w / 2) s.cb
    × Within (w * h + w * h / 4) (w * h + w * h / 2) (w / 2) s.cr

-- In a strip there are as many rows as the library takes at once.
abbrev pub AllInPlanes : ℕ → ℕ → List Strip → Type 0
AllInPlanes w h [] = Unit
AllInPlanes w h (s ∷ ss) =
    InPlanes w h s × (length s.y ≡ 16) × (length s.cb ≡ 8) × (length s.cr ≡ 8) × AllInPlanes w h ss

-- A number of whole rows more.
more_rows : (w r n m : ℕ) → r + n ≤ m → w * r + w * n ≤ w * m
more_rows w r n m le =
    let e : w * m ≡ w * (r + n + (m - (r + n))) = ap (λ k. w * k) (omega arith) in
    beyond (m - (r + n)) e
  where
    beyond : (d : ℕ) → w * m ≡ w * (r + n + d) → w * r + w * n ≤ w * m
    beyond d e = omega (arith, e)

-- An image of 2a times 16m pixels.
module _ (a m : ℕ) where
  row_inside : (r : ℕ) → suc r ≤ 16 * m → 2 * a * r + 2 * a ≤ 2 * a * (16 * m)
  row_inside r le = omega (arith, more_rows (2 * a) r 1 (16 * m) (omega (arith, le)))

  half_width : 2 * a / 2 ≡ a
  half_width = omega arith

  half_row_inside : (r : ℕ) → suc r ≤ 16 * m → 2 * a / 2 * (r / 2) + 2 * a / 2 ≤ 8 * (a * m)
  half_row_inside r le =
      let same = ap (λ k. k * (r / 2)) half_width in
      omega (arith, same, half_width, more_rows a (r / 2) 1 (8 * m) (omega (arith, le)))

  quarter : 2 * a * (16 * m) / 4 ≡ 8 * (a * m)
  quarter = omega arith

  half : 2 * a * (16 * m) / 2 ≡ 16 * (a * m)
  half = omega arith

  -- The rounds from i on in the strip at j.
  strip_from-InPlanes :
      (rounds i j : ℕ)
      → i + rounds ≡ 16
      → j + 16 ≤ 16 * m
      → InPlanes (2 * a) (16 * m) (strip_from rounds i (2 * a) (16 * m) j)
        × (length (strip_from rounds i (2 * a) (16 * m) j).y ≡ rounds)
        × (length (strip_from rounds i (2 * a) (16 * m) j).cb ≡ rounds / 2)
        × (length (strip_from rounds i (2 * a) (16 * m) j).cr ≡ rounds / 2)
  unfolding strip_from
  strip_from-InPlanes zero i j e le = ((tt, tt, tt), refl, refl, refl)
  strip_from-InPlanes (suc rounds) i j e le =
      let ((ys, cbs, crs), ly, lcb, lcr) =
        strip_from-InPlanes rounds (suc i) j (omega (arith, e)) le in
      let row = row_inside (i + j) (omega (arith, e, le)) in
      let c_row = half_row_inside (i + j) (omega (arith, e, le)) in
      elim (Bool-cases (i % 2 == 0)) [
        | inl even ↦ rw even (
          (
            (omega arith, row, ys),
            (omega arith, omega (arith, c_row, quarter, half_width), cbs),
            (omega arith, omega (arith, c_row, quarter, half, half_width), crs),
          ),
          ap suc ly,
          omega (arith, lcb, e, ==→eq (i % 2) 0 even),
          omega (arith, lcr, e, ==→eq (i % 2) 0 even),
        )
        | inr odd ↦ rw odd (
          ((omega arith, row, ys), cbs, crs),
          ap suc ly,
          omega (arith, lcb, e, ==→ne (i % 2) 0 odd),
          omega (arith, lcr, e, ==→ne (i % 2) 0 odd),
        )
      ]

  -- The strips from the n-th on.
  strips_from-AllInPlanes :
      (fuel n : ℕ)
      → n ≤ m
      → 16 * m ≤ fuel + 16 * n
      → AllInPlanes (2 * a) (16 * m) (strips_from fuel (2 * a) (16 * m) (16 * n))
        × (length (strips_from fuel (2 * a) (16 * m) (16 * n)) + n ≡ m)
  unfolding strips_from
  strips_from-AllInPlanes zero n le enough = (tt, omega (arith, le, enough))
  strips_from-AllInPlanes (suc fuel) n le enough = elim (Bool-cases (ltb (16 * n) (16 * m))) [
    | inl more ↦
        let below : n < m = below_of n more in
        let (ih, count) =
          strips_from-AllInPlanes fuel (suc n) (omega (arith, below)) (omega (arith, enough)) in
        let (inside, ly, lcb, lcr) =
          strip_from-InPlanes 16 0 (16 * n) refl (omega (arith, below)) in
        let at : 16 * suc n ≡ 16 * n + 16 = omega arith in
        rw more (
          (
            inside,
            ly,
            lcb,
            lcr,
            subst (λ j. AllInPlanes (2 * a) (16 * m) (strips_from fuel (2 * a) (16 * m) j)) at ih,
          ),
          omega (arith, count, ap (λ j. length (strips_from fuel (2 * a) (16 * m) j)) at),
        )
    | inr done ↦ rw done (tt, omega (arith, le, above_of n done))
  ]
    where
      below_of : (n : ℕ) → ltb (16 * n) (16 * m) ≡ true → n < m
      below_of n e = ground arith

      above_of : (n : ℕ) → ltb (16 * n) (16 * m) ≡ false → m ≤ n
      above_of n e = ground arith

-- If the width is even and the height is a multiple of 16, then in every strip that
-- `I420_data_to_JPEG_data` hands over, the 16, 8 and 8 rows lie in the three planes of the image, and
-- there are height / 16 strips.
pub i420_data_to_jpeg_data-AllInPlanes :
    (image_width image_height a m : ℕ)
    → image_width ≡ 2 * a
    → image_height ≡ 16 * m
    → AllInPlanes image_width image_height (i420_data_to_jpeg_data image_width image_height)
      × (length (i420_data_to_jpeg_data image_width image_height) ≡ m)
unfolding i420_data_to_jpeg_data
i420_data_to_jpeg_data-AllInPlanes image_width image_height a m even whole =
    let (inside, count) = strips_from-AllInPlanes a m (16 * m) 0 (omega arith) (omega arith) in
    rw even (rw whole (inside, omega (arith, count)))
