-- ===== src/Alg/Locate.antt =====
-- board/motion/motion_modified/alg.c: alg_locate_center_size, and the boxes and crosses that
-- alg_draw_location and alg_draw_red_location draw.
pub mod Placed
pub mod Frames
use cy_prus.Prelude.{
  ℕ, zero, suc, ◌+◌, ◌-◌, ◌*◌, ◌/◌, ◌%◌, Bool, true, false, not, ◌&&◌, if◌then◌else◌, ltb, leb,
  ◌==◌, truth,
}
use cy_prus.Prelude.{List, get_or, set, rounds, min}
use cy_prus.Prelude.Int.{ℤ, sub_ℕ}

-- struct coord. Its first six numbers are not negative once alg_locate_center_size has returned.
pub record Coord : Type 0 where
  pub x : ℕ
  pub y : ℕ
  pub width : ℤ
  pub height : ℤ
  pub minx : ℕ
  pub maxx : ℕ
  pub miny : ℕ
  pub maxy : ℕ

-- What the loops over the picture add up.
pub record Sums : Type 0 where
  pub xs : ℕ
  pub ys : ℕ
  pub centc : ℕ

-- Does the pixel at `p` count: in a marked label group, or in the motion picture?
abbrev pub in_motion : (labelsize_max : ℕ) → (labels out : List ℕ) → ℕ → Bool
in_motion labelsize_max labels out p =
    if truth labelsize_max then truth (get_or labels p 0 / 32768 % 2) else truth (get_or out p 0)

-- A pixel in column `x` and row `y`.
abbrev pub add_pixel : (counts : Bool) → (x y : ℕ) → Sums → Sums
add_pixel true x y t = record { xs = t.xs + x; ys = t.ys + y; centc = t.centc + 1 }
add_pixel false x y t = t

-- Both loops over the picture: `fx` and `fy` say what a pixel adds.
pub sum_pixels : (counts : ℕ → Bool) → (fx fy : ℕ → ℕ) → (width height : ℕ) → Sums
sum_pixels counts fx fy width height =
    rounds (λ y s. rounds (λ x t. add_pixel (counts (y * width + x)) (fx x) (fy y) t) width s)
      height (record { xs = 0; ys = 0; centc = 0 })

-- How far a coordinate lies from the center.
abbrev pub distance_to : ℕ → ℕ → ℕ
distance_to center x = if ltb center x then x - center else if ltb x center then center - x else 0

-- The tests `v > size - 1` and `v < 0` that end in a value of the picture.
abbrev pub clamp : (size v : ℕ) → ℕ
clamp size v = if ltb (size - 1) v then size - 1 else v

-- The mean, where a pixel counted.
abbrev pub mean : (sum centc : ℕ) → ℕ
mean sum centc = if truth centc then sum / centc else sum

-- The box around a center, from the distances of the pixels to it. A difference below 0 becomes 0
-- in the test of `clamp`.
pub box_around : (width height x y : ℕ) → Sums → Coord
box_around width height x y d =
    let c = truth d.centc in
    let minx = clamp width (if c then x - d.xs / d.centc * 2 else width) in
    let maxx = clamp width (if c then x + d.xs / d.centc * 2 else 0) in
    let miny = clamp height (if c then y - d.ys / d.centc * 3 else height) in
    let maxy = clamp height (if c then y + d.ys / d.centc * 2 else 0) in
    let minx' = minx + minx % 2 in
    let miny' = miny + miny % 2 in
    let maxx' = maxx - maxx % 2 in
    let maxy' = maxy - maxy % 2 in
    record {
      x = x;
      y = (miny' + maxy') / 2;
      width = sub_ℕ maxx' minx';
      height = sub_ℕ maxy' miny';
      minx = minx';
      maxx = maxx';
      miny = miny';
      maxy = maxy';
    }

pub locate_center_size : (labelsize_max : ℕ) (labels out : List ℕ) (width height : ℕ) → Coord
locate_center_size labelsize_max labels out width height =
    let counts = in_motion labelsize_max labels out in
    let s = sum_pixels counts (λ x. x) (λ y. y) width height in
    let x = mean s.xs s.centc in
    let y = mean s.ys s.centc in
    box_around width height x y (sum_pixels counts (distance_to x) (distance_to y) width height)

-- `p[i] =~ p[i]` on an unsigned char
abbrev pub invert : List ℕ → ℕ → List ℕ
invert p i = set p i (255 - get_or p i 0)

-- The same at the index i - d; one before the buffer is not part of it.
abbrev pub invert_back : List ℕ → (i d : ℕ) → List ℕ
invert_back p i d = if leb d i then invert p (i - d) else p

-- The box that both routines draw by inverting pixels.
pub draw_box : Coord → (width : ℕ) → List ℕ → List ℕ
draw_box cent width p =
    let across =
      rounds
        (λ k q.
          invert (invert q (cent.minx + k + width * cent.miny)) (cent.minx + k + width * cent.maxy))
        (cent.maxx + 1 - cent.minx) p in
    rounds
      (λ k q.
        invert (invert q (cent.minx + (cent.miny + k) * width))
          (cent.maxx + (cent.miny + k) * width))
      (cent.maxy + 1 - cent.miny) across

pub draw_cross : Coord → (width : ℕ) → List ℕ → List ℕ
draw_cross cent width p =
    let across = rounds (λ k q. invert_back q (cent.y * width + cent.x + k) 10) 21 p in
    rounds (λ k q. invert_back q (cent.x + (cent.y + k) * width) (10 * width)) 21 across

pub data Style : Type 0 where
  box redbox cross redcross : Style

-- The new motion picture and the new picture.
pub draw_location :
    Coord
    → (width : ℕ) → (out new : List ℕ) → Style
    → (both process_thisframe : Bool) → List ℕ × List ℕ
draw_location cent width out new style both process_thisframe =
    let out' = if both && process_thisframe then draw_box cent width out else out in
    elim style [
      | box ↦ (out', draw_box cent width new)
      | cross ↦ (draw_cross cent width out', draw_cross cent width new)
      | redbox ↦ (out', new)
      | redcross ↦ (out', new)
    ]

-- The colour of a red pixel, in both chroma planes.
abbrev pub red_chroma : (motionsize : ℕ) → List ℕ → ℕ → List ℕ
red_chroma motionsize p i = set (set p (motionsize + i) 128) (motionsize + motionsize / 4 + i) 255

-- Two by two pixels of luma at `i`.
abbrev pub grey_block : (width : ℕ) → List ℕ → ℕ → List ℕ
grey_block width p i = set (set (set (set p i 128) (i + 1) 128) (i + width) 128) (i + 1 + width) 128

pub draw_red_box : Coord → (width motionsize : ℕ) → List ℕ → List ℕ
draw_red_box cent width motionsize p =
    let cwidth = width / 2 in
    let across =
      rounds
        (λ k q.
          let x = cent.minx + 2 + 2 * k in
          let q1 = red_chroma motionsize q (x / 2 + cwidth * (cent.miny / 2)) in
          let q2 = red_chroma motionsize q1 (x / 2 + cwidth * (cent.maxy / 2)) in
          grey_block width (grey_block width q2 (x + width * cent.miny)) (x + width * cent.maxy))
        ((cent.maxx - cent.minx - 2) / 2) p in
    rounds
      (λ k q.
        let y = cent.miny + 2 * k in
        let q1 = red_chroma motionsize q (cent.minx / 2 + y / 2 * cwidth) in
        let q2 = red_chroma motionsize q1 (cent.maxx / 2 + y / 2 * cwidth) in
        grey_block width (grey_block width q2 (cent.minx + y * width)) (cent.maxx + y * width))
      ((cent.maxy + 2 - cent.miny) / 2) across

-- base + (p - 10) / 2 * step, where C rounds towards 0.
abbrev pub half_step : (base p step : ℕ) → ℕ
half_step base p step = if leb 10 p then base + (p - 10) / 2 * step else base - (10 - p) / 2 * step

pub draw_red_cross : Coord → (width motionsize : ℕ) → List ℕ → List ℕ
draw_red_cross cent width motionsize p =
    let cwidth = width / 2 in
    let u = motionsize in
    let v = motionsize + motionsize / 4 in
    let across =
      rounds
        (λ k q.
          let i = λ (plane : ℕ). half_step (plane + cwidth * (cent.y / 2)) (cent.x + 2 * k) 1 in
          set (set q (i u) 128) (i v) 255)
        11 p in
    rounds
      (λ k q.
        let i = λ (plane : ℕ). half_step (plane + cent.x / 2) (cent.y + 2 * k) cwidth in
        set (set q (i u) 128) (i v) 255)
      11 across

pub draw_red_location :
    Coord
    → (width motionsize : ℕ) → (out new : List ℕ) → Style
    → (both process_thisframe : Bool) → List ℕ × List ℕ
draw_red_location cent width motionsize out new style both process_thisframe =
    let out' = if both && process_thisframe then draw_box cent width out else out in
    elim style [
      | redbox ↦ (out', draw_red_box cent width motionsize new)
      | redcross ↦ (out', draw_red_cross cent width motionsize new)
      | box ↦ (out', new)
      | cross ↦ (out', new)
    ]
