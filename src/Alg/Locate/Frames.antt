-- ===== src/Alg/Locate/Frames.antt =====
-- What the box of alg_draw_location touches.
use cy_prus.Prelude.{
  ℕ, ◌+◌, ◌-◌, ◌*◌, ◌≤◌, ◌<◌, ◌≡◌, refl, ◌∙◌, List, length, get_or, length-set, get_or-set_ne,
  rounds_inv, arith,
}
use cy_prus.Alg.Locate.{Coord, invert, draw_box}
use cy_prus.Alg.Locate.Placed.{Placed}

-- Nothing at `bound` or after it changed.
pub record KeptFrom (bound : ℕ) (old now : List ℕ) : Type 0 where
  pub size : length now ≡ length old
  pub kept : (q : ℕ) → bound ≤ q → get_or now q 0 ≡ get_or old q 0

inverted :
    {bound : ℕ} {old now : List ℕ} (i : ℕ)
    → i < bound
    → KeptFrom bound old now
    → KeptFrom bound old (invert now i)
inverted {bound} {old} {now} i h k = record {
  size = length-set now i _ ∙ k.size;
  kept = λ q le. get_or-set_ne now i q _ 0 (omega arith) ∙ k.kept q le;
}

inside : (width height x y : ℕ) → x < width → y < height → x + width * y < width * height
inside width height x y hx hy = grind arith

column : (width height x y : ℕ) → x < width → y < height → x + y * width < width * height
column width height x y hx hy = grind arith

-- The box that is drawn around motion inverts pixels of the picture only: nothing after its
-- width * height bytes changes, such as the chroma planes of a YUV picture. The box is one that
-- alg_locate_center_size may give, with its left and top sides inside the picture.
pub draw_box-KeptFrom :
    (cent : Coord) (width height counted : ℕ) (p : List ℕ)
    → Placed width height counted cent
    → cent.minx < width
    → cent.miny < height
    → KeptFrom (width * height) p (draw_box cent width p)
unfolding draw_box
draw_box-KeptFrom cent width height counted p placed left top =
    let right = placed.right in
    let bottom = placed.bottom in
    rounds_inv (λ k (q : List ℕ). KeptFrom (width * height) p q) _ (cent.maxy + 1 - cent.miny) _
      (rounds_inv (λ k (q : List ℕ). KeptFrom (width * height) p q) _ (cent.maxx + 1 - cent.minx) p
        (record { size = refl; kept = λ q h. refl })
        (λ k q h kept.
          inverted _ (inside width height _ cent.maxy (omega arith) bottom)
            (inverted _ (inside width height _ cent.miny (omega arith) top) kept)))
      (λ k q h kept.
        inverted _ (column width height _ _ right (omega arith))
          (inverted _ (column width height _ _ left (omega arith)) kept))
