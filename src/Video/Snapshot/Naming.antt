-- ===== src/Video/Snapshot/Naming.antt =====
-- The names that `take_pohto` makes.
use handle_wifi_camera_itop.Common.{
  ℕ, suc, ◌≤◌, ◌≡◌, ap, Bool, false, ltb, if◌then◌else◌, List, ◌++◌, arith, length, length-append,
  codes,
}
use handle_wifi_camera_itop.Video.Snapshot.{Shot, dir_name, photo_path, c_string}

-- For a date of 10 characters `strftime` has no room, so that dir_name is the mount point and
-- whatever C leaves behind it; and if that has at most 10 characters and the name at most 24, the
-- path with its closing NUL fits into the 48 bytes of photo_path_name.
pub photo_path-Fits :
    (w : Shot) (photo_name : List ℕ)
    → length w.today ≡ 10
    → length w.leftover ≤ 10
    → length (c_string photo_name) ≤ 24
    → (dir_name w ≡ codes "/mnt/sdcard/" ++ w.leftover)
      × (suc (length (photo_path w photo_name)) ≤ 48)
unfolding dir_name
photo_path-Fits w photo_name date left name =
    let long = length-append w.today (codes "/") in
    let no_room : ltb (length (w.today ++ codes "/")) 11 ≡ false = ground (arith, long, date) in
    let dir : dir_name w ≡ codes "/mnt/sdcard/" ++ w.leftover =
      ap (λ (b : Bool). codes "/mnt/sdcard/" ++ (if b then w.today ++ codes "/" else w.leftover))
        no_room in
    (
      dir,
      omega (
        arith,
        name,
        left,
        length-append (dir_name w) (codes "/" ++ c_string photo_name),
        ap length dir,
        length-append (codes "/mnt/sdcard/") w.leftover,
        length-append (codes "/") (c_string photo_name),
      ),
    )
