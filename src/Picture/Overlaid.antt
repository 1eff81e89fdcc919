-- ===== src/Picture/Overlaid.antt =====
-- An overlay blackens the marked pixels and tints the blocks with one, and leaves all else.
use cy_prus.Prelude.{
  ℕ, ◌+◌, ◌*◌, ◌/◌, ◌≤◌, ◌<◌, ◌≡◌, ◌≢◌, refl, ap, ◌∙◌, Bool, if◌then◌else◌, List, arith, length,
  get_or, set, rounds, rounds_inv, row_gap, halves, Passed, Passed-start, Passed-set_if,
}
use cy_prus.Picture.Tinted.{block, Tinted, Tinted-all}
use cy_prus.Picture.{
  Tint, is_hit, tint, overlay, u_plane, v_plane, is_largest, overlay_largest_label,
}

-- What an overlay makes of a picture of 2 * a columns and 2 * b rows, with its two chroma planes at
-- `first` and `second`.
pub record IsOverlaid (marked : ℕ → Bool) (first u second v a b : ℕ) (old now : List ℕ)
    : Type 0 where
  pub size : length now ≡ length old
  -- Marked pixels become black.
  pub luma :
      (p : ℕ) → p < 2 * a * (2 * b) → get_or now p 0 ≡ (if marked p then 0 else get_or old p 0)
  -- Blocks with a marked pixel get the colour.
  pub one :
      (y x : ℕ)
      → y < b
      → x < a
      → get_or now (first + (y * a + x)) 0 ≡ (
          if is_hit marked (2 * a) (2 * y * (2 * a)) (2 * x)
          then u
          else get_or old (first + (y * a + x)) 0)
  pub two :
      (y x : ℕ)
      → y < b
      → x < a
      → get_or now (second + (y * a + x)) 0 ≡ (
          if is_hit marked (2 * a) (2 * y * (2 * a)) (2 * x)
          then v
          else get_or old (second + (y * a + x)) 0)

half_up : (a : ℕ) → (2 * a + 1) / 2 ≡ a
half_up a = omega arith

-- The luma pass over a picture whose chroma is done.
blacken :
    (marked : ℕ → Bool) (n : ℕ) (old : List ℕ)
    → n ≤ length old
    → Passed
        (λ i. if marked i then 0 else get_or old i 0)
        old
        n
        (rounds (λ i out. if marked i then set out i 0 else out) n old)
blacken marked n old room =
    rounds_inv (Passed (λ i. if marked i then 0 else get_or old i 0) old)
      (λ i out. if marked i then set out i 0 else out) n old (Passed-start _ old)
      (λ i out lt p. Passed-set_if (marked i) 0 p (omega arith) refl)

module _ (marked : ℕ → Bool) (first u second v a b : ℕ) (old : List ℕ)
    (behind₁ : 2 * a * (2 * b) ≤ first) (behind₂ : 2 * a * (2 * b) ≤ second)
    (apart : (j k : ℕ) → j < b * a → k < b * a → first + j ≢ second + k)
    (room₁ : first + b * a ≤ length old) (room₂ : second + b * a ≤ length old) where
  pub overlay-IsOverlaid :
      IsOverlaid marked first u second v a b old
        (overlay marked first u second v (2 * a) (2 * b) old)
  unfolding overlay
  overlay-IsOverlaid =
      let t : Tint =
        rounds
          (λ y. rounds (λ x. tint first u second v (block marked first u second v a b old y x)) a) b
          (record { image = old; at = 0 }) in
      let p : Tinted marked first u second v a b old (b * a) t =
        Tinted-all marked first u second v a b old (b * a) apart room₁ room₂ (omega arith) in
      let l = blacken marked (2 * a * (2 * b)) t.image (omega (arith, p.size)) in
      let luma_kept : (i : ℕ) → i < 2 * a * (2 * b) → get_or t.image i 0 ≡ get_or old i 0 =
        λ i lt. p.others i (λ j lt'. ((λ e. absurd (omega arith)), (λ e. absurd (omega arith)))) in
      rw (half_up a, half_up b)
        (record {
          size = l.size ∙ p.size;
          luma = λ i lt. l.done i lt ∙ ap (λ (z : ℕ). if marked i then 0 else z) (luma_kept i lt);
          one = λ y x y_in x_in.
              l.ahead (first + (y * a + x)) (omega arith)
              ∙ p.one y x x_in (omega (arith, row_gap a y b y_in));
          two = λ y x y_in x_in.
              l.ahead (second + (y * a + x)) (omega arith)
              ∙ p.two y x x_in (omega (arith, row_gap a y b y_in));
        })

quarter : (a b : ℕ) → 2 * a * (2 * b) / 4 ≡ b * a
quarter a b = (halves a b).2 ∙ (grind arith)

-- overlay_largest_label in the same way for the pixels of the largest labels: black, with the U plane
-- at 255 and the V plane at 128.
pub overlay_largest_label-IsOverlaid :
    (labels : List ℕ) (a b : ℕ) (old : List ℕ)
    → 2 * a * (2 * b) + 2 * (b * a) ≤ length old
    → IsOverlaid
        (λ i. is_largest (get_or labels i 0))
        (u_plane (2 * a) (2 * b))
        255
        (v_plane (2 * a) (2 * b))
        128
        a
        b
        old
        (overlay_largest_label labels (2 * a) (2 * b) old)
unfolding overlay_largest_label
overlay_largest_label-IsOverlaid labels a b old room =
    overlay-IsOverlaid (λ i. is_largest (get_or labels i 0)) (u_plane (2 * a) (2 * b)) 255
      (v_plane (2 * a) (2 * b)) 128 a b old (omega arith) (omega arith)
      (λ j k j_in k_in e. absurd (omega (arith, quarter a b))) (omega (arith, quarter a b))
      (omega (arith, quarter a b))
