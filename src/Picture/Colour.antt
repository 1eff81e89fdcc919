-- ===== src/Picture/Colour.antt =====
-- The three bytes of a pixel of the PPM output, from its luma and chroma.
use cy_prus.Prelude.{ℕ, ◌+◌, ◌-◌, ◌*◌, ◌/◌, ◌≤◌, ◌<◌, ◌≡◌, refl, arith, get_or}
use cy_prus.Prelude.Int.{ℤ, pos, negsuc, sub_ℕ, pos_part, neg_part, ◌+ℤ◌, ◌-ℤ◌, +ℤ_parts, -ℤ_parts}
use cy_prus.Picture.{times, shift_and_clamp, rgb_of}

-- The byte for the difference plus - minus: a part in 65536 of it, kept between 0 and 255.
pub record IsByte (plus minus byte : ℕ) : Type 0 where
  pub below : plus < minus + 65536 → byte ≡ 0
  pub between : minus ≤ plus → plus < minus + 256 * 65536 → byte ≡ (plus - minus) / 65536
  pub above : minus + 256 * 65536 ≤ plus → byte ≡ 255

-- The bytes of a pixel in the order of the file.
pub record IsColour (l u v blue green red : ℕ) : Type 0 where
  pub blue_is : IsByte (76283 * l + 132252 * v) (76283 * 16 + 132252 * 128) blue
  pub green_is :
      IsByte (76283 * l + 53281 * 128 + 25625 * 128) (76283 * 16 + 53281 * u + 25625 * v) green
  pub red_is : IsByte (76283 * l + 104595 * u) (76283 * 16 + 104595 * 128) red

-- `z` is plus - minus.
abbrev IsDifference : (plus minus : ℕ) → ℤ → Type 0
IsDifference plus minus z = pos_part z + minus ≡ neg_part z + plus

shift_and_clamp-IsByte :
    (plus minus : ℕ) (z : ℤ) → IsDifference plus minus z → IsByte plus minus (shift_and_clamp z)
shift_and_clamp-IsByte plus minus (pos n) e = record {
  below = λ h. ground arith;
  between = λ h h'. ground arith;
  above = λ h. ground arith;
}
shift_and_clamp-IsByte plus minus (negsuc n) e = record {
  below = λ h. refl;
  between = λ h h'. absurd (omega arith);
  above = λ h. absurd (omega arith);
}

times_parts :
    (k : ℕ) (z : ℤ)
    → (pos_part (times k z) ≡ k * pos_part z) × (neg_part (times k z) ≡ k * neg_part z)
times_parts k (pos n) = (refl, grind arith)
times_parts k (negsuc n) = (ground arith, ground arith)

sub_parts : (a b : ℕ) → pos_part (sub_ℕ a b) + b ≡ neg_part (sub_ℕ a b) + a
sub_parts a b = ground arith

pub rgb_of-IsColour :
    (l u v : ℕ)
    → IsColour l u v
        (get_or (rgb_of l u v) 0 0)
        (get_or (rgb_of l u v) 1 0)
        (get_or (rgb_of l u v) 2 0)
unfolding rgb_of
rgb_of-IsColour l u v =
    let luma = times_parts 76283 (sub_ℕ l 16) in
    let light = times 76283 (sub_ℕ l 16) in
    let a = sub_ℕ u 128 in
    let b = sub_ℕ v 128 in
    let l_is = sub_parts l 16 in
    let u_is = sub_parts u 128 in
    let v_is = sub_parts v 128 in
    record {
      blue_is =
          shift_and_clamp-IsByte _ _ (light +ℤ times 132252 b) (
            omega (arith, luma, l_is, v_is, times_parts 132252 b, +ℤ_parts light (times 132252 b)));
      green_is = shift_and_clamp-IsByte _ _ (light -ℤ times 53281 a -ℤ times 25625 b) (
          omega (
            arith,
            luma,
            l_is,
            u_is,
            v_is,
            times_parts 53281 a,
            times_parts 25625 b,
            -ℤ_parts light (times 53281 a),
            -ℤ_parts (light -ℤ times 53281 a) (times 25625 b),
          ));
      red_is =
          shift_and_clamp-IsByte _ _ (light +ℤ times 104595 a) (
            omega (arith, luma, l_is, u_is, times_parts 104595 a, +ℤ_parts light (times 104595 a)));
    }
