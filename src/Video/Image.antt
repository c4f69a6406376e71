-- ===== src/Video/Image.antt =====
-- `ConvertNV12toIYUV` and `I420_data_to_JPEG_data` of video.c: the memory of a photograph.
pub mod Planes
pub mod Rows
use handle_wifi_camera_itop.Common.{
  ℕ, zero, suc, ◌+◌, ◌-◌, ◌*◌, ◌/◌, ◌%◌, ◌==◌, ltb, if◌then◌else◌, List, [], ◌∷◌, ◌++◌, Option,
  some, none, take, drop,
}
use handle_wifi_camera_itop.Public.ErrorCode.{ok, calloc_memory_fail}

-- *(p + at) = b; a write behind the end of the memory is left out.
abbrev pub poke : ℕ → ℕ → List ℕ → List ℕ
poke at b [] = []
poke zero b (c ∷ cs) = b ∷ cs
poke (suc at) b (c ∷ cs) = c ∷ poke at b cs

-- The loop over the bytes of the second plane from the i-th on: an even one goes to *pPV++, an odd
-- one to *pPU++, both in pcache.
unfoldable pub convert_loop : List ℕ → ℕ → ℕ → ℕ → List ℕ → List ℕ
convert_loop [] i ppv ppu pcache = pcache
convert_loop (b ∷ bytes) i ppv ppu pcache =
    let is_even = i % 2 == 0 in
    convert_loop bytes (suc i) (if is_even then suc ppv else ppv) (if is_even then ppu else suc ppu)
      (poke (if is_even then ppv else ppu) b pcache)

-- The code (`none` is -1), and the image.
pub record Converted : Type 0 where
  pub code : Option ℕ
  pub image : List ℕ

abbrev pub converted : Option ℕ → List ℕ → Converted
converted code image = record { code = code; image = image }

-- `pbuf` is `none` for NULL, and `pcache` for a failed `malloc`; else it is what happens to be in the
-- new memory.
unfoldable pub convert_nv12_to_iyuv : Option (List ℕ) → Option (List ℕ) → ℕ → ℕ → Converted
unfolding convert_loop
convert_nv12_to_iyuv none pcache imgw imgh = converted none []
convert_nv12_to_iyuv (some pbuf) none imgw imgh = converted (some calloc_memory_fail) pbuf
convert_nv12_to_iyuv (some pbuf) (some pcache) imgw imgh =
    let y_size = imgw * imgh in
    let half = y_size / 2 in
    converted (some ok) (
      take y_size pbuf
      ++ (convert_loop (take half (drop y_size pbuf)) 0 0 (y_size / 4) pcache
          ++ drop (y_size + half) pbuf))

-- The addresses, from I420_Data on, of the rows that are handed to `jpeg_write_raw_data` at once.
pub record Strip : Type 0 where
  pub y : List ℕ
  pub cb : List ℕ
  pub cr : List ℕ

-- The 16 - i rounds of the inner loop from i on.
unfoldable pub strip_from : ℕ → ℕ → ℕ → ℕ → ℕ → Strip
strip_from zero i image_width image_height j = record { y = []; cb = []; cr = [] }
strip_from (suc rounds) i image_width image_height j =
    let rest = strip_from rounds (suc i) image_width image_height j in
    let u_row = image_width * image_height + image_width / 2 * ((i + j) / 2) in
    let v_row =
      image_width * image_height
      + image_width * image_height / 4
      + image_width / 2 * ((i + j) / 2) in
    record {
      y = image_width * (i + j) ∷ rest.y;
      cb = if i % 2 == 0 then (u_row ∷ rest.cb) else rest.cb;
      cr = if i % 2 == 0 then (v_row ∷ rest.cr) else rest.cr;
    }

-- The outer loop from j on. As j grows, `fuel` rounds are enough if they are not fewer than
-- image_height.
unfoldable pub strips_from : ℕ → ℕ → ℕ → ℕ → List Strip
unfolding strip_from
strips_from zero image_width image_height j = []
strips_from (suc fuel) image_width image_height j =
    let rest = strips_from fuel image_width image_height (j + 16) in
    if ltb j image_height then strip_from 16 0 image_width image_height j ∷ rest else []

-- What the library is given. It reads image_width bytes of a row of the first plane, and half as many
-- of the others.
unfoldable pub i420_data_to_jpeg_data : ℕ → ℕ → List Strip
unfolding strips_from
i420_data_to_jpeg_data image_width image_height =
    strips_from image_height image_width image_height 0
