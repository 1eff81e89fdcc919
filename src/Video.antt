-- ===== src/Video.antt =====
-- board/motion/motion_modified/video_common.c: the brightness that is asked of a camera, and the
-- conversion of 4:2:2 pictures to planes.
pub mod Brightness
pub mod Planes
pub mod Uyvy
mod Tests
use cy_prus.Prelude.{
  ℕ, zero, suc, ◌+◌, ◌-◌, ◌*◌, ◌/◌, ◌%◌, ◌≤◌, Bool, true, false, if◌then◌else◌, ltb, ◌==◌, min, max,
  List, get_or, set, rounds,
}

-- AUTOBRIGHT_HYSTERESIS
abbrev pub hysteresis : ℕ
hysteresis = 10

-- AUTOBRIGHT_DAMPER
abbrev pub damper : ℕ
damper = 5

-- AUTOBRIGHT_MAX; AUTOBRIGHT_MIN is 0.
abbrev pub max_brightness : ℕ
max_brightness = 255

-- The sum and the number of the bytes that are looked at, every 101st one.
pub sample_average : (motionsize : ℕ) → (image : List ℕ) → ℕ
sample_average motionsize image =
    let j = (motionsize + 100) / 101 in rounds (λ i avg. avg + get_or image (i * 101) 0) j 0 / j

-- The brightness afterwards, and make_change.
pub towards : (brightness_target avg brightness : ℕ) → ℕ × Bool
towards brightness_target avg brightness =
    let down = min ((avg - brightness_target) / damper + 1) brightness in
    let up = min ((brightness_target - avg) / damper + 1) (max_brightness - brightness) in
    if ltb (min (brightness_target + hysteresis) 255) avg
    then if ltb (down + 1) brightness then (brightness - down, true) else (brightness, false)
    else if ltb avg (max (brightness_target - hysteresis) 1)
    then if ltb brightness (max_brightness - up)
      then (brightness + up, true)
      else (brightness, false)
    else (brightness, false)

-- vid_do_autobright, on a picture that is not empty. `brightness_conf` is the option brightness.
pub do_autobright :
    (brightness_conf motionsize : ℕ) → (image : List ℕ) → (brightness : ℕ) → ℕ × Bool
unfolding sample_average towards
do_autobright brightness_conf motionsize image brightness =
    towards (if brightness_conf == 0 then 128 else brightness_conf)
      (sample_average motionsize image) brightness

-- The mean of two bytes.
abbrev pub mean_of : (map : List ℕ) → (i j : ℕ) → ℕ
mean_of map i j = (get_or map i 0 + get_or map j 0) / 2

module _ (cap_map : List ℕ) (width height : ℕ) where
  -- The loop for the Y plane.
  pub luma_plane : (map : List ℕ) → List ℕ
  luma_plane map = rounds (λ i m. set m i (get_or cap_map (i * 2) 0)) (width * height) map

  -- The loop for U and V: `src` in row `i` and column `j` of the planes.
  abbrev pub src_at : (i j : ℕ) → ℕ
  src_at i j = 1 + i * (width / 2 * 4 + width * 2) + j * 4

  pub chroma_step : (i j : ℕ) → (map : List ℕ) → List ℕ
  chroma_step i j map =
      let src = src_at i j in
      let dest = width * height + (i * (width / 2) + j) in
      let with_u = set map dest (mean_of cap_map src (src + width * 2)) in
      set with_u (dest + width * height / 4) (mean_of cap_map (src + 2) (src + 2 + width * 2))

  pub conv_yuv422to420p : (map : List ℕ) → List ℕ
  unfolding luma_plane chroma_step
  conv_yuv422to420p map =
      rounds (λ i m. rounds (λ j m. chroma_step i j m) (width / 2) m) (height / 2) (luma_plane map)

-- The body of the inner loop of conv_uyvyto420p in row `ix`, for the pair of columns `j`: a row has
-- `n` pairs, and four bytes are read for each.
module _ (cap_map : List ℕ) (width height : ℕ) where
  pub uyvy_step : (n ix j : ℕ) → (map : List ℕ) → List ℕ
  uyvy_step n ix j map =
      let cap = ix * (n * 4) + j * 4 in
      let pY = ix * (n * 2) + j * 2 in
      let pU = width * height + (ix / 2 * n + j) in
      let pV = pU + width * height / 4 in
      let even = ix % 2 == 0 in
      let with_u = if even then set map pU (mean_of cap_map cap (cap + width * 2)) else map in
      let with_y = set with_u pY (get_or cap_map (cap + 1) 0) in
      let with_v =
        if even then set with_y pV (mean_of cap_map (cap + 2) (cap + 2 + width * 2)) else with_y in
      set with_v (pY + 1) (get_or cap_map (cap + 3) 0)

  pub conv_uyvyto420p : (map : List ℕ) → List ℕ
  unfolding uyvy_step
  conv_uyvyto420p map =
      let n = (width + 1) / 2 in rounds (λ ix m. rounds (λ j m. uyvy_step n ix j m) n m) height map
