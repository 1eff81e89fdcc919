-- ===== src/Draw/Line.antt =====
-- A line of text changes no byte outside the rectangle of its characters.
use cy_prus.Prelude.{
  ℕ, suc, ◌+◌, ◌-◌, ◌*◌, ◌/◌, ◌^◌, ◌<◌, ◌≤◌, ◌≡◌, ◌≢◌, inl, inr, refl, sym, ap, ◌∙◌, Bool, false,
  ltb, leb, if◌then◌else◌, List, arith, length, get_or, rounds, rounds_inv, Bytes, Bool-cases,
  ltb→lt,
}
use mathlib.Core.Path.{subst}
use cy_prus.Draw.{DrawChar, Pen, draw_char, marks_of, start_of, fitting, u32, draw_textn}
use cy_prus.Draw.Glyph.{draw_char-IsPainted}

steps : (pos n k : ℕ) → pos < n → pos * k + k ≤ n * k
steps pos n k lt =
    let d : ℕ = n - suc pos in let e : n ≡ suc pos + d = omega arith in rw e (grind arith)

-- What a line may have done after `n` characters from the place `base`.
pub record InLine (image : List ℕ) (width scale base n : ℕ) (now : Pen) : Type 0 where
  pub size : length now.image ≡ length image
  pub at_is : now.at ≡ base + n * (6 * scale)
  pub others :
      (i : ℕ)
      → ((y x : ℕ) → y < 8 * scale → x < n * (6 * scale) + scale → i ≢ base + width * y + x)
      → get_or now.image i 0 ≡ get_or image i 0

-- With the rows of the line inside the picture, n characters change only a rectangle.
pub line-InLine :
    (marks : ℕ → ℕ → ℕ) (negative : ℕ → Bool) (image : List ℕ) (width scale base n : ℕ)
    → 0 < scale
    → 7 * scale ≤ width
    → base + n * (6 * scale) + width * (8 * scale) ≤ length image + (width - scale)
    → InLine image width scale base n (
        rounds
          (λ pos. draw_char (marks pos) (negative pos) width scale)
          n
          (record { image = image; at = base; byte = 0 }))
line-InLine marks negative image width scale base n positive fits room =
    rounds_inv (InLine image width scale base)
      (λ pos. draw_char (marks pos) (negative pos) width scale) n
      (record { image = image; at = base; byte = 0 })
      (record { size = refl; at_is = omega arith; others = λ i far. refl })
      (λ pos now lt l.
        let more : pos * (6 * scale) + 6 * scale ≤ n * (6 * scale) = steps pos n (6 * scale) lt in
        let p =
          draw_char-IsPainted (marks pos) (negative pos) width scale now fits positive
            (omega (arith, l.size, l.at_is)) in
        let next : suc pos * (6 * scale) ≡ pos * (6 * scale) + 6 * scale = grind arith in
        record {
          size = p.size ∙ l.size;
          at_is = omega (arith, p.at_is, l.at_is, next);
          others = λ i far.
              p.others i (λ y x y_in x_in e.
                far y (pos * (6 * scale) + x) y_in (omega (arith, next)) (omega (arith, l.at_is)))
              ∙ l.others i (λ y x y_in x_in. far y x y_in (omega (arith, next)));
        })

div_mul_le : (k m : ℕ) → k / m * m ≤ k
div_mul_le k m = grind arith

right_of :
    (startx width len scale : ℕ)
    → len * 6 * scale ≡ len * (6 * scale)
    → startx + len * (6 * scale) < 2 ^ 32
    → leb width (u32 (startx + len * 6 * scale)) ≡ false
    → startx + len * (6 * scale) < width
right_of startx width len scale same short fits = ground arith

-- The characters that are drawn end before the right edge.
fitting_bound :
    (startx width len scale : ℕ)
    → startx < width
    → width < 2 ^ 31
    → startx + len * (6 * scale) < 2 ^ 32
    → startx + fitting startx width len scale * (6 * scale) < width
unfolding fitting
fitting_bound startx width len scale inside small short =
    let same : len * 6 * scale ≡ len * (6 * scale) = grind arith in
    let rest : u32 (width + 2 ^ 33 - startx - 1) ≡ width - startx - 1 = omega arith in
    elim (Bool-cases (leb width (u32 (startx + len * 6 * scale)))) [
      | inl long ↦ rw (long, rest) (omega (arith, div_mul_le (width - startx - 1) (6 * scale)))
      | inr fits ↦ rw fits (right_of startx width len scale same short fits)
    ]

-- The place where a line starts, and that its unsigned subtraction does not wrap.
start_of-eq :
    (startx width len scale : ℕ)
    → startx < 2 ^ 31
    → (width / 2 < startx → len * (6 * scale) ≤ startx)
    → start_of startx width len scale
      ≡ (if ltb (width / 2) startx then startx - len * (6 * scale) else startx)
unfolding start_of
start_of-eq startx width len scale small room = elim (Bool-cases (ltb (width / 2) startx)) [
  | inl right ↦ rw right (let le = room (ltb→lt _ _ right) in omega arith)
  | inr left ↦ rw left refl
]

start_le :
    (startx width len scale : ℕ)
    → start_of startx width len scale
      ≡ (if ltb (width / 2) startx then startx - len * (6 * scale) else startx)
    → start_of startx width len scale ≤ startx
start_le startx width len scale e = rw e (ground arith)

-- A line of the text on a picture: where it starts, how far it goes, and what it leaves.
pub record IsInRect (image : List ℕ) (x y width scale n : ℕ) (now : List ℕ) : Type 0 where
  pub inside : x + n * (6 * scale) < width
  pub size : length now ≡ length image
  pub others :
      (i : ℕ)
      → ((row col : ℕ)
          → row < 8 * scale
          → col < n * (6 * scale) + scale
          → i ≢ x + y * width + width * row + col)
      → get_or now i 0 ≡ get_or image i 0

-- draw_textn writes a line in a rectangle that starts in the given row, has the height of the
-- characters and ends at the latest `scale - 1` columns behind the right edge, and changes no other
-- byte. A line in the right half has to be short enough for the column that it is told to end at;
-- the picture has the rows of the line, and `scale - 1` bytes behind them.
pub draw_textn-IsInRect :
    (table : List DrawChar) (past : DrawChar) (image : List ℕ) (startx starty width : ℕ)
    (text : Bytes) (len factor : ℕ)
    → startx < width
    → 7 * (factor + 1) ≤ width
    → width < 2 ^ 31
    → (width / 2 < startx → len * (6 * (factor + 1)) ≤ startx)
    → startx + len * (6 * (factor + 1)) < 2 ^ 32
    → starty * width + width * (8 * (factor + 1)) + factor ≤ length image
    → length image < 2 ^ 32
    → IsInRect image
        (start_of startx width len (factor + 1))
        starty
        width
        (factor + 1)
        (fitting (start_of startx width len (factor + 1)) width len (factor + 1))
        (draw_textn table past image startx starty width text len factor)
unfolding draw_textn
draw_textn-IsInRect table past image startx starty width text len factor inside fits small room
      short rows sized =
    let scale : ℕ = factor + 1 in
    let x : ℕ = start_of startx width len scale in
    let n : ℕ = fitting x width len scale in
    let start = start_of-eq startx width len scale (omega arith) room in
    let x_le : x ≤ startx = start_le startx width len scale start in
    let edge : x + n * (6 * scale) < width =
      fitting_bound x width len scale (omega arith) small (omega arith) in
    let base : x + u32 (starty * width) ≡ x + starty * width = omega arith in
    let l =
      line-InLine (marks_of table past factor text) (λ pos. leb 128 (get_or text pos 0)) image width
        scale (x + starty * width) n (omega arith) fits (omega arith) in
    let drawn : ℕ → List ℕ = λ at.
      (rounds
        (λ pos.
          draw_char (marks_of table past factor text pos) (leb 128 (get_or text pos 0)) width scale)
        n (record { image = image; at = at; byte = 0 })).image in
    subst (IsInRect image x starty width scale n) (ap drawn (sym base))
      (record { inside = edge; size = l.size; others = l.others })
