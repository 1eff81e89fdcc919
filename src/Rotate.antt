-- ===== src/Rotate.antt =====
-- board/motion/motion_modified/rotate.c: rotation of a picture by multiples of 90 degrees. A pointer
-- into a buffer is its index there.
pub mod Words
pub mod Quads
pub mod Turns
pub mod Planes
pub mod Init
mod Tests
use cy_prus.Prelude.{
  ℕ, zero, suc, ◌+◌, ◌-◌, ◌*◌, ◌/◌, ◌%◌, ◌^◌, Bool, true, false, ◌||◌, if◌then◌else◌, ltb, ◌==◌,
}
use cy_prus.Prelude.{Option, none, some, List, ◌++◌, get_or, set, take, drop, scatter2}
use cy_prus.Prelude.Int.{ℤ, pos, negsuc, mod_by, ltb_ℤ}

-- rot__bswap_constant_32, its masks and shifts written as division and remainder.
pub swap_bytes : ℕ → ℕ
swap_bytes x =
    x / 2 ^ 24 % 256 + x / 2 ^ 16 % 256 * 2 ^ 8 + x / 2 ^ 8 % 256 * 2 ^ 16 + x % 256 * 2 ^ 24

-- A 32-bit word in memory, its low byte first.
abbrev pub load32 : List ℕ → ℕ → ℕ
load32 buf i =
    get_or buf i 0
    + get_or buf (i + 1) 0 * 2 ^ 8
    + get_or buf (i + 2) 0 * 2 ^ 16
    + get_or buf (i + 3) 0 * 2 ^ 24

abbrev pub store32 : List ℕ → ℕ → ℕ → List ℕ
store32 buf i w =
    set (set (set (set buf i (w % 256)) (i + 1) (w / 2 ^ 8 % 256)) (i + 2) (w / 2 ^ 16 % 256))
      (i + 3) (w / 2 ^ 24 % 256)

-- The body of the loop of reverse_inplace_quad.
pub swap_quads : (nsrc ndst : ℕ) → List ℕ → List ℕ
swap_quads nsrc ndst buf =
    let tmp = swap_bytes (load32 buf ndst) in
    let buf' = store32 buf ndst (swap_bytes (load32 buf nsrc)) in store32 buf' nsrc tmp

pub reverse_loop : ℕ → (nsrc ndst : ℕ) → List ℕ → List ℕ
unfolding swap_quads
reverse_loop zero nsrc ndst buf = buf
reverse_loop (suc fuel) nsrc ndst buf =
    let next = reverse_loop fuel (nsrc + 4) (ndst - 4) (swap_quads nsrc ndst buf) in
    if ltb nsrc ndst then next else buf

-- Each round brings the two indices closer, so `size` rounds are enough.
pub reverse_inplace_quad : (src size : ℕ) → List ℕ → List ℕ
unfolding reverse_loop
reverse_inplace_quad src size buf = reverse_loop size src (src + size - 4) buf

-- Where rot90cw and rot90ccw read and write, in column `i` from the left and `j` rows from the
-- bottom. `src` and `dst` are the starts of the block in either buffer.
abbrev pub read_at : (src size width : ℕ) → (i j : ℕ) → ℕ
read_at src size width i j = src + size - width + i - j * width

pub rot90cw : (from : List ℕ) → (src dst size width height : ℕ) → List ℕ → List ℕ
rot90cw from src dst size width height buf =
    scatter2 (λ i j. dst + (i * height + j)) (λ i j. get_or from (read_at src size width i j) 0)
      width height buf

pub rot90ccw : (from : List ℕ) → (src dst size width height : ℕ) → List ℕ → List ℕ
rot90ccw from src dst size width height buf =
    scatter2 (λ i j. dst + size - 1 - (i * height + j))
      (λ i j. get_or from (read_at src size width i j) 0) width height buf

-- imgs->type, as far as rotation tells palettes apart.
pub data Palette : Type 0 where
  yuv420p grey other : Palette

-- What rotate_init sets up: struct rotdata and the output dimensions. `temp_size` is the size of
-- the temporary buffer, where there is one.
pub record Setup : Type 0 where
  pub rotate_deg : ℤ
  pub degrees : ℤ
  pub cap_width : ℕ
  pub cap_height : ℕ
  pub width : ℕ
  pub height : ℕ
  pub temp_size : Option ℕ

-- `d == k`
abbrev pub is_degrees : ℤ → ℕ → Bool
is_degrees (pos n) k = n == k
is_degrees (negsuc n) k = false

-- `width` and `height` are the capture dimensions, which imgs.width and imgs.height hold at first.
pub rotate_init : (rotate_deg : ℤ) → Palette → (width height : ℕ) → Setup
rotate_init rotate_deg type width height =
    let odd = ltb_ℤ (pos 0) (mod_by rotate_deg 90) in
    let deg = if odd then pos 0 else rotate_deg in
    let degrees = if odd then pos 0 else mod_by rotate_deg 360 in
    let turned = is_degrees degrees 90 || is_degrees degrees 270 in
    let w = if turned then height else width in
    let h = if turned then width else height in
    let setup : Setup = record {
      rotate_deg = deg;
      degrees = degrees;
      cap_width = width;
      cap_height = height;
      width = w;
      height = h;
      temp_size = none;
    } in
    if is_degrees degrees 0 then setup else elim type [
      | yuv420p ↦ record setup { temp_size = if turned then some (w * h * 3 / 2) else none }
      | grey ↦ record setup { temp_size = if turned then some (w * h) else none }
      | other ↦ record setup { degrees = pos 0 }
    ]

-- The sizes that rotate_map works out: of the luma plane, of a chroma plane and its sides, and of
-- the whole picture.
pub record Sizes : Type 0 where
  pub wh : ℕ
  pub wh4 : ℕ
  pub w2 : ℕ
  pub h2 : ℕ
  pub size : ℕ

pub sizes_of : Bool → (width height : ℕ) → Sizes
sizes_of planar width height =
    let wh = width * height in
    if planar
    then record { wh = wh; wh4 = wh / 4; w2 = width / 2; h2 = height / 2; size = wh * 3 / 2 }
    else record { wh = wh; wh4 = 0; w2 = 0; h2 = 0; size = wh }

abbrev pub is_planar : Palette → Bool
is_planar yuv420p = true
is_planar grey = false
is_planar other = false

-- memcpy(map, temp_buf, size)
abbrev pub copy_back : ℕ → (temp map : List ℕ) → List ℕ
copy_back size temp map = take size temp ++ drop size map

-- The new contents of the picture and of the temporary buffer; `none` is the result -1.
pub rotate_map : Setup → Palette → (map temp : List ℕ) → Option (List ℕ × List ℕ)
rotate_map s type map temp =
    let planar = is_planar type in
    let z = sizes_of planar s.cap_width s.cap_height in
    let u = z.wh in
    let v = z.wh + z.wh4 in
    let cw = rot90cw map 0 0 z.wh s.cap_width s.cap_height temp in
    let cw' =
      if planar then rot90cw map v v z.wh4 z.w2 z.h2 (rot90cw map u u z.wh4 z.w2 z.h2 cw) else cw in
    let ccw = rot90ccw map 0 0 z.wh s.cap_width s.cap_height temp in
    let ccw' =
      if planar
      then rot90ccw map v v z.wh4 z.w2 z.h2 (rot90ccw map u u z.wh4 z.w2 z.h2 ccw)
      else ccw in
    let half = reverse_inplace_quad 0 z.wh map in
    let half' =
      if planar then reverse_inplace_quad v z.wh4 (reverse_inplace_quad u z.wh4 half) else half in
    if is_degrees s.degrees 90
    then some (copy_back z.size cw' map, cw')
    else if is_degrees s.degrees 180
    then some (half', temp)
    else if is_degrees s.degrees 270
    then some (copy_back z.size ccw' map, ccw')
    else none
