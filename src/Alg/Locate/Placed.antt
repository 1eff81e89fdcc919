-- ===== src/Alg/Locate/Placed.antt =====
-- Where alg_locate_center_size puts the center and the box.
use cy_prus.Prelude.{
  ℕ, zero, suc, ◌+◌, ◌-◌, ◌*◌, ◌/◌, ◌%◌, ◌≤◌, ◌<◌, ◌≡◌, refl, Bool, true, false, List, rounds,
  rounds_inv, arith, if◌then◌else◌, sum_below, count_below, sum_below-suc, sum_below-zero,
}
use cy_prus.Prelude.{dec_le}
use native.Mathlib.Nat.{div-mul-le_self}
use cy_prus.Alg.Locate.{
  add_pixel, mean, box_around, Coord, Sums, sum_pixels, in_motion, distance_to, locate_center_size,
}

-- How many pixels count.
abbrev pub pixels_counted : (counts : ℕ → Bool) → (width height : ℕ) → ℕ
pixels_counted counts width height =
    sum_below (λ y. count_below (λ x. counts (y * width + x)) width) height

add-le :
    (b : Bool) (dx dy k : ℕ) (t : Sums)
    → dx ≤ k
    → t.xs ≤ t.centc * k
    → let r = add_pixel b dx dy t in r.xs ≤ r.centc * k
add-le true dx dy k t h p = grind arith
add-le false dx dy k t h p = p

add-counted :
    (b : Bool) (dx dy : ℕ) (t : Sums) → (add_pixel b dx dy t).centc ≡ t.centc + (if b then 1 else 0)
add-counted true dx dy t = refl
add-counted false dx dy t = omega arith

module _ (counts : ℕ → Bool) (fx fy : ℕ → ℕ) (width height : ℕ) where
  -- The loops add up at most the last column for each pixel that counts.
  sum_pixels-le :
      ((x : ℕ) → x < width → fx x ≤ width - 1)
      → let s = sum_pixels counts fx fy width height in s.xs ≤ s.centc * (width - 1)
  unfolding sum_pixels
  sum_pixels-le hx =
      rounds_inv (λ i (s : Sums). s.xs ≤ s.centc * (width - 1)) _ height _ (omega arith)
        (λ i s hi p.
          rounds_inv (λ j (t : Sums). t.xs ≤ t.centc * (width - 1)) _ width s p
            (λ j t hj q. add-le _ (fx j) (fy i) (width - 1) t (hx j hj) q))

  one : ℕ → ℕ → ℕ
  one y x = if counts (y * width + x) then 1 else 0

  row_counted :
      (i : ℕ) (s : Sums)
      → (rounds (λ x t. add_pixel (counts (i * width + x)) (fx x) (fy i) t) width s).centc
        ≡ s.centc + sum_below (one i) width
  unfolding one
  row_counted i s =
      rounds_inv (λ j (t : Sums). t.centc ≡ s.centc + sum_below (one i) j) _ width s
        (omega (arith, sum_below-zero (one i)))
        (λ j t hj q.
          omega (
            arith,
            q,
            add-counted (counts (i * width + j)) (fx j) (fy i) t,
            sum_below-suc (one i) j,
          ))

  sum_pixels-counted :
      (sum_pixels counts fx fy width height).centc ≡ pixels_counted counts width height
  unfolding sum_pixels one
  sum_pixels-counted =
      rounds_inv (λ i (s : Sums). s.centc ≡ sum_below (λ y. sum_below (one y) width) i) _ height _
        (omega (arith, sum_below-zero (λ y. sum_below (one y) width)))
        (λ i s hi p.
          omega (arith, p, row_counted i s, sum_below-suc (λ y. sum_below (one y) width) i))

-- The center and the box of a picture, `counted` pixels of which are in motion.
pub record Placed (width height counted : ℕ) (c : Coord) : Type 0 where
  pub center : c.x < width
  pub center_row : c.y < height
  pub right : c.maxx < width
  pub bottom : c.maxy < height
  pub left : c.minx ≤ width
  pub top : c.miny ≤ height
  pub even : (c.minx % 2 ≡ 0) × (c.maxx % 2 ≡ 0) × (c.miny % 2 ≡ 0) × (c.maxy % 2 ≡ 0)
  pub between : (2 * c.y ≤ c.miny + c.maxy) × (c.miny + c.maxy ≤ 2 * c.y + 1)
  pub around : 0 < counted → (c.minx ≤ c.x + 1) × (c.x ≤ c.maxx + 1)

cancel : (q k n : ℕ) → q * suc n ≤ suc n * k → q ≤ k
cancel q k n h = elim (dec_le q k) [
  | yes le ↦ le
  | no gt ↦ absurd (let bigger : suc n * suc k ≤ q * suc n = grind arith in omega arith)
]

mean_le : (xs n k : ℕ) → xs ≤ n * k → mean xs n ≤ k
mean_le xs zero k h = omega arith
mean_le xs (suc n) k h =
    let here : mean xs (suc n) ≡ xs / suc n = ground arith in
    rw here (cancel (xs / suc n) k n (omega (arith, h, div-mul-le_self xs (suc n))))

box_lem :
    (width height x y : ℕ) (d : Sums)
    → x < width
    → 0 < height
    → Placed width height d.centc (box_around width height x y d)
unfolding box_around
box_lem width height x y d wide high = record {
  center = wide;
  center_row = ground arith;
  right = ground arith;
  bottom = ground arith;
  left = ground arith;
  top = ground arith;
  even = (ground arith, ground arith, ground arith, ground arith);
  between = (omega arith, omega arith);
  around = λ moving. (ground arith, ground arith);
}

-- The center lies in the picture, and so does the box but for its left and top sides, which may
-- lie one past the last column and row; the sides of the box are even, and the center's row is
-- halfway between two of them. When a pixel is in motion the center lies between the left and the
-- right side or one beside them. The picture is not empty.
pub locate_center_size-Placed :
    (labelsize_max : ℕ) (labels out : List ℕ) (width height : ℕ)
    → 0 < width
    → 0 < height
    → Placed width height
        (pixels_counted (in_motion labelsize_max labels out) width height)
        (locate_center_size labelsize_max labels out width height)
unfolding locate_center_size
locate_center_size-Placed labelsize_max labels out width height wide high =
    let counts = in_motion labelsize_max labels out in
    let s = sum_pixels counts (λ x. x) (λ y. y) width height in
    let x_le =
      mean_le s.xs s.centc (width - 1)
        (sum_pixels-le counts (λ x. x) (λ y. y) width height (λ x h. omega arith)) in
    let x = mean s.xs s.centc in
    let y = mean s.ys s.centc in
    rw (← sum_pixels-counted counts (distance_to x) (distance_to y) width height) (
      box_lem width height x y (sum_pixels counts (distance_to x) (distance_to y) width height)
        (omega arith) high)
