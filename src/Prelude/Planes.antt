-- ===== src/Prelude/Planes.antt =====
-- Places in the planes of a picture.
use Prim.Native.Nat.{ℕ, ◌+◌, ◌*◌, ◌/◌, ◌≤◌, ◌<◌}
use mathlib.Core.Path.{◌≡◌, ap}
use native.Mathlib.Omega.{arith}
use native.Mathlib.Decide.{ℕ_discrete, dec_lt}

pub row_gap : (a y i : ℕ) → y < i → y * a + a ≤ i * a
row_gap a y i h = grind arith

-- A place in a row is found from its index.
pub place_unique : (a i j y x : ℕ) → j < a → x < a → y * a + x ≡ i * a + j → (y ≡ i) × (x ≡ j)
place_unique a i j y x hj hx e = elim (ℕ_discrete y i) [
  | yes same ↦ (same, let e' : y * a ≡ i * a = ap (λ (t : ℕ). t * a) same in omega arith)
  | no ne ↦ elim (dec_lt y i) [
    | yes less ↦ absurd (omega (arith, row_gap a y i less))
    | no more ↦ absurd (omega (arith, row_gap a i y (omega arith)))
  ]
]

-- The planes of a picture of 2 * a columns and 2 * b rows.
pub luma_size : (a b : ℕ) → 2 * a * (2 * b) ≡ 4 * (a * b)
luma_size a b = grind arith

pub halves : (a b : ℕ) → (2 * a / 2 ≡ a) × (2 * b / 2 ≡ b) × (2 * a * (2 * b) / 4 ≡ a * b)
halves a b = (omega arith, omega arith, rw (luma_size a b) (omega arith))
