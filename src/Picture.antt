-- ===== src/Picture.antt =====
-- Pictures (board/motion/motion_modified/picture.c): the overlays of masks and labels, the PPM
-- output, and the reading of a mask.
pub mod Tinted
pub mod Overlaid
pub mod Colour
pub mod Ppm
pub mod Pgm
pub mod Scaled
pub mod Loaded
mod Tests
use cy_prus.Prelude.{
  ℕ, suc, ◌+◌, ◌-◌, ◌*◌, ◌/◌, ◌%◌, Bool, true, false, ◌||◌, ◌&&◌, not, ◌==◌, ltb, leb,
  if◌then◌else◌, Option, none, some, List, [], ◌∷◌, ◌++◌, length, get_or, set, rounds, Bytes, codes,
}
use cy_prus.Prelude.Int.{ℤ, pos, negsuc, sub_ℕ, ◌+ℤ◌, ◌-ℤ◌}
use cy_prus.Conf.Number.{print_number}

-- The picture, and how far the two chroma pointers have moved.
pub record Tint : Type 0 where
  pub image : List ℕ
  pub at : ℕ

-- One of the four pixels of a block is marked.
abbrev pub is_hit : (ℕ → Bool) → ℕ → ℕ → ℕ → Bool
is_hit marked width line x =
    marked (line + x)
    || (marked (line + x + 1) || (marked (line + width + x) || marked (line + width + x + 1)))

-- One block: the planes start at `first` and `second`, and get `a` and `b`.
unfoldable pub tint : ℕ → ℕ → ℕ → ℕ → Bool → Tint → Tint
tint first a second b hit t = record {
  image = if hit then set (set t.image (first + t.at) a) (second + t.at) b else t.image;
  at = t.at + 1;
}

-- The loops over the blocks, and over the luma pixels.
unfoldable pub overlay : (ℕ → Bool) → ℕ → ℕ → ℕ → ℕ → ℕ → ℕ → List ℕ → List ℕ
overlay marked first a second b width height out =
    let tinted =
      rounds
        (λ i.
          rounds (λ x. tint first a second b (is_hit marked width (2 * i * width) (2 * x)))
            ((width + 1) / 2))
        ((height + 1) / 2) (record { image = out; at = 0 }) in
    rounds (λ i out. if marked i then set out i 0 else out) (width * height) tinted.image

abbrev pub u_plane : ℕ → ℕ → ℕ
u_plane width height = width * height

abbrev pub v_plane : ℕ → ℕ → ℕ
v_plane width height = width * height + width * height / 4

-- `motionsize` is the product of the sides.
unfoldable pub overlay_smartmask : List ℕ → ℕ → ℕ → List ℕ → List ℕ
overlay_smartmask smartmask width height out =
    overlay (λ i. get_or smartmask i 0 == 0) (v_plane width height) 255 (u_plane width height) 128
      width height out

unfoldable pub overlay_fixed_mask : List ℕ → ℕ → ℕ → List ℕ → List ℕ
overlay_fixed_mask mask width height out =
    overlay (λ i. get_or mask i 0 == 0) (v_plane width height) 0 (u_plane width height) 0 width
      height out

-- `label & 32768`, of a number that is not negative.
abbrev pub is_largest : ℕ → Bool
is_largest label = not (label / 32768 % 2 == 0)

unfoldable pub overlay_largest_label : List ℕ → ℕ → ℕ → List ℕ → List ℕ
overlay_largest_label labels width height out =
    overlay (λ i. is_largest (get_or labels i 0)) (u_plane width height) 255 (v_plane width height)
      128 width height out

abbrev pub times : ℕ → ℤ → ℤ
times k (pos n) = pos (k * n)
times k (negsuc n) = sub_ℕ 0 (k * suc n)

-- `z >> 16`, and the range of a byte.
abbrev pub shift_and_clamp : ℤ → ℕ
shift_and_clamp (negsuc n) = 0
shift_and_clamp (pos n) = if ltb 255 (n / 65536) then 255 else n / 65536

-- The three bytes of a pixel.
unfoldable pub rgb_of : ℕ → ℕ → ℕ → Bytes
unfolding ◌+ℤ◌ ◌-ℤ◌
rgb_of l u v =
    let light = times 76283 (sub_ℕ l 16) in
    let r = light +ℤ times 104595 (sub_ℕ u 128) in
    let g = light -ℤ times 53281 (sub_ℕ u 128) -ℤ times 25625 (sub_ℕ v 128) in
    let b = light +ℤ times 132252 (sub_ℕ v 128) in
    shift_and_clamp b ∷ (shift_and_clamp g ∷ (shift_and_clamp r ∷ []))

-- The file so far, the three pointers into the picture, and whether every byte that was read lies in
-- its buffer.
pub record Cursor : Type 0 where
  pub file : Bytes
  pub inside : Bool
  pub l : ℕ
  pub u : ℕ
  pub v : ℕ

abbrev pub is_odd : ℕ → Bool
is_odd n = n % 2 == 1

unfoldable pub ppm_pixel : List ℕ → ℕ → Cursor → Cursor
ppm_pixel image x c = record {
  file = c.file ++ rgb_of (get_or image c.l 0) (get_or image c.u 0) (get_or image c.v 0);
  inside =
      c.inside && (ltb c.l (length image) && (ltb c.u (length image) && ltb c.v (length image)));
  l = c.l + 1;
  u = if is_odd x then c.u + 1 else c.u;
  v = if is_odd x then c.v + 1 else c.v;
}

unfoldable pub ppm_row : List ℕ → ℕ → ℕ → Cursor → Cursor
ppm_row image width y c =
    let c' = rounds (ppm_pixel image) width c in
    record c' {
      u = if is_odd y then c'.u - width / 2 else c'.u;
      v = if is_odd y then c'.v - width / 2 else c'.v;
    }

unfoldable pub ppm_header : ℕ → ℕ → Bytes
ppm_header width height =
    codes "P6\n"
    ++ (print_number (pos width) ++ (b' ' ∷ (print_number (pos height) ++ codes "\n255\n")))

-- The file; `none` is a read outside the buffer of the picture.
unfoldable pub put_ppm_bgr24_file : List ℕ → ℕ → ℕ → Option Bytes
put_ppm_bgr24_file image width height =
    let c = rounds (ppm_row image width) height (record {
      file = ppm_header width height;
      inside = true;
      l = 0;
      u = width * height;
      v = width * height + width * height / 4;
    }) in
    if c.inside then some c.file else none
