-- ===== src/Alg/Morph/Maxima.antt =====
-- The largest value of a neighbourhood, as dilate9 and dilate5 mean it.
use cy_prus.Prelude.{ℕ, suc, ◌+◌, ◌-◌, ◌≤◌, ◌<◌, ◌≡◌, refl, ap, max, arith}
use cy_prus.Prelude.{truth}
use cy_prus.Alg.Morph.{Sweep, Line, line_of, max2, max3, column}
use cy_prus.Alg.Morph.Lines.{Shape, Same, IsLocal}

-- The largest of the nine values around a place, and of the five of the plus shape.
unfoldable pub largest9 : Line → Line → Line → ℕ → ℕ
largest9 r1 r2 r3 x =
    max (max (max (r1 (x - 1)) (max (r2 (x - 1)) (r3 (x - 1)))) (max (r1 x) (max (r2 x) (r3 x))))
      (max (r1 (x + 1)) (max (r2 (x + 1)) (r3 (x + 1))))

unfoldable pub largest5 : Line → Line → Line → ℕ → ℕ
largest5 r1 r2 r3 x = max (max (r1 x) (r3 x)) (max (r2 (x - 1)) (max (r2 x) (r2 (x + 1))))

-- A pixel becomes the largest value around it, and counts if that is not 0.
abbrev pub dilating : (Line → Line → Line → ℕ → ℕ) → Shape
dilating largest = record { pixel = largest; counts = λ r1 r2 r3 x. truth (largest r1 r2 r3 x) }

pub max3-max : (x y z : ℕ) → max3 x y z ≡ max x (max y z)
unfolding max3
max3-max x y z = ground arith

pub max2-max : (x y : ℕ) → max2 x y ≡ max x y
unfolding max2
max2-max x y = ground arith

pub largest9_columns :
    (width : ℕ) (s : Sweep) (k : ℕ)
    → largest9 (line_of s.row1) (line_of s.row2) (line_of s.row3) (suc k)
      ≡ max (max (column width s k) (column width s (k + 1))) (column width s (k + 2))
unfolding largest9
largest9_columns width s k =
    let less : suc k - 1 ≡ k = omega arith in
    let same : suc k ≡ k + 1 = omega arith in
    let more : suc k + 1 ≡ k + 2 = omega arith in rw (less, more, same) (simp max3-max)

pub largest9-ge : (r1 r2 r3 : Line) (x : ℕ) → r2 x ≤ largest9 r1 r2 r3 x
unfolding largest9
largest9-ge r1 r2 r3 x = omega arith

pub largest5-ge : (r1 r2 r3 : Line) (x : ℕ) → r2 x ≤ largest5 r1 r2 r3 x
unfolding largest5
largest5-ge r1 r2 r3 x = omega arith

largest9_local :
    (width : ℕ) (r1 r2 r3 q1 q2 q3 : Line) (x : ℕ)
    → Same width r1 q1
    → Same width r2 q2
    → Same width r3 q3
    → 1 ≤ x
    → x + 1 < width
    → largest9 r1 r2 r3 x ≡ largest9 q1 q2 q3 x
unfolding largest9
largest9_local width r1 r2 r3 q1 q2 q3 x h1 h2 h3 lo hi =
    rw
      (
        h1 (x - 1) (omega arith),
        h1 x (omega arith),
        h1 (x + 1) hi,
        h2 (x - 1) (omega arith),
        h2 x (omega arith),
        h2 (x + 1) hi,
        h3 (x - 1) (omega arith),
        h3 x (omega arith),
        h3 (x + 1) hi,
      )
      refl

pub dilating9-IsLocal : (width : ℕ) → IsLocal width (dilating largest9)
dilating9-IsLocal width = record {
  pixels = largest9_local width;
  counted = λ r1 r2 r3 q1 q2 q3 x h1 h2 h3 lo hi.
      ap truth (largest9_local width r1 r2 r3 q1 q2 q3 x h1 h2 h3 lo hi);
}

largest5_local :
    (width : ℕ) (r1 r2 r3 q1 q2 q3 : Line) (x : ℕ)
    → Same width r1 q1
    → Same width r2 q2
    → Same width r3 q3
    → 1 ≤ x
    → x + 1 < width
    → largest5 r1 r2 r3 x ≡ largest5 q1 q2 q3 x
unfolding largest5
largest5_local width r1 r2 r3 q1 q2 q3 x h1 h2 h3 lo hi =
    rw
      (
        h1 x (omega arith),
        h2 (x - 1) (omega arith),
        h2 x (omega arith),
        h2 (x + 1) hi,
        h3 x (omega arith),
      )
      refl

pub dilating5-IsLocal : (width : ℕ) → IsLocal width (dilating largest5)
dilating5-IsLocal width = record {
  pixels = largest5_local width;
  counted = λ r1 r2 r3 q1 q2 q3 x h1 h2 h3 lo hi.
      ap truth (largest5_local width r1 r2 r3 q1 q2 q3 x h1 h2 h3 lo hi);
}
