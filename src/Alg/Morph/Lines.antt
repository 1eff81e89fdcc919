-- ===== src/Alg/Morph/Lines.antt =====
-- What the inner loops of the four functions have in common, against any description of a pixel.
use cy_prus.Prelude.{ℕ, ◌+◌, ◌-◌, ◌*◌, ◌≤◌, ◌<◌, ◌≡◌, Bool, length, get_or, count_below}
use cy_prus.Alg.Morph.{Sweep, Line, line_of}

-- A pixel's new value, and whether it counts, from the rows above, at and below it.
pub record Shape : Type 0 where
  pub pixel : Line → Line → Line → ℕ → ℕ
  pub counts : Line → Line → Line → ℕ → Bool

-- The first `width` values of two rows are the same.
abbrev pub Same : ℕ → Line → Line → Type 0
Same width r r' = (x : ℕ) → x < width → r x ≡ r' x

-- At an inner column a shape looks only at the columns of the picture.
pub record IsLocal (width : ℕ) (sh : Shape) : Type 0 where
  pub pixels :
      (r1 r2 r3 q1 q2 q3 : Line) (x : ℕ)
      → Same width r1 q1
      → Same width r2 q2
      → Same width r3 q3
      → 1 ≤ x
      → x + 1 < width
      → sh.pixel r1 r2 r3 x ≡ sh.pixel q1 q2 q3 x
  pub counted :
      (r1 r2 r3 q1 q2 q3 : Line) (x : ℕ)
      → Same width r1 q1
      → Same width r2 q2
      → Same width r3 q3
      → 1 ≤ x
      → x + 1 < width
      → sh.counts r1 r2 r3 x ≡ sh.counts q1 q2 q3 x

-- The inner loop has written the shape's pixels between the two ends of row `y`, which it found
-- equal to `row2`, has left all else alone, and has counted.
pub record Draws (width : ℕ) (sh : Shape) (y : ℕ) (s t : Sweep) : Type 0 where
  pub size : length t.img ≡ length s.img
  pub row2 : t.row2 ≡ s.row2
  pub row3 : t.row3 ≡ s.row3
  pub inside :
      (x : ℕ)
      → 1 ≤ x
      → x + 1 < width
      → get_or t.img (y * width + x) 0
        ≡ sh.pixel (line_of s.row1) (line_of s.row2) (line_of s.row3) x
  pub before : (j : ℕ) → j < y * width + 1 → get_or t.img j 0 ≡ get_or s.img j 0
  pub after : (j : ℕ) → y * width + width ≤ j + 1 → get_or t.img j 0 ≡ get_or s.img j 0
  pub counted :
      t.sum
      ≡ s.sum
        + count_below
            (λ k. sh.counts (line_of s.row1) (line_of s.row2) (line_of s.row3) (k + 1))
            (width - 2)

-- The loop `line` draws the shape, at every row of a picture that holds the row.
abbrev pub Implements : ℕ → Shape → (ℕ → Sweep → Sweep) → Type 0
Implements width sh line =
    (y : ℕ) (s : Sweep)
    → y * width + width ≤ length s.img
    → ((x : ℕ) → x < width → get_or s.img (y * width + x) 0 ≡ line_of s.row2 x)
    → Draws width sh y s (line y s)
