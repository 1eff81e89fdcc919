-- ===== src/Alg/Tune/Bounds.antt =====
-- How far the noise level can rise, and what counts as a switched light.
use cy_prus.Prelude.{
  ℕ, suc, ◌-◌, ◌*◌, ◌/◌, ◌≤◌, ◌<◌, ◌≡◌, ◌↔◌, refl, true, arith, Option, none, some, List,
}
use cy_prus.Prelude.{get_or, rounds, rounds_inv}
use cy_prus.Prelude.Int.{ℤ, pos, negsuc}
use cy_prus.Alg.Tune.{Totals, noise_at, noise_step, noise_tune, percentage, lightswitch}

-- Every element of the buffer is an `unsigned char`.
abbrev pub Bytes : List ℕ → Type 0
Bytes xs = (i : ℕ) → get_or xs i 0 < 256

product-le : (a b : ℕ) → a < 256 → b < 256 → a * b ≤ 65025
product-le a b p q = grind arith

product_mono : (a b m : ℕ) → a ≤ b → a * m ≤ b * m
product_mono a b m h = grind arith

-- The rounded mean of at least four values of at most 256 each, as the code divides.
mean-le : (sum count : ℕ) → 3 < count → sum ≤ 256 * count → sum / (count / 3) ≤ 1280
mean-le sum count c h = grind arith

module _ (ref new : List ℕ) (mask : Option (List ℕ)) (smartmask : List ℕ) (br : Bytes ref)
    (bn : Bytes new) (bm : (m : List ℕ) → mask ≡ some m → Bytes m) where
  noise_at-le : (i : ℕ) → noise_at ref new mask smartmask i ≤ 255
  unfolding noise_at
  noise_at-le i = go mask refl
    where
      go : (m : Option (List ℕ)) → mask ≡ m → noise_at ref new mask smartmask i ≤ 255
      go none e = rw e (ground (arith, br i, bn i))
      go (some m) e = rw e (
          ground (
            arith,
            br i,
            bn i,
            product-le _ _ (br i) (bm m e i),
            product-le _ _ (bn i) (bm m e i),
            product_mono (get_or ref i 0 - get_or new i 0) (get_or ref i 0) (get_or m i 0),
            product_mono (get_or new i 0 - get_or ref i 0) (get_or new i 0) (get_or m i 0),
          ))

  abbrev SumBound : ℕ → Totals → Type 0
  SumBound n t = t.sum ≤ 256 * t.count

  totals-le :
      (n : ℕ)
      → SumBound n (rounds (noise_step ref new mask smartmask) n (record { sum = 0; count = 0 }))
  unfolding noise_step
  totals-le n = rounds_inv SumBound _ n _ (omega arith) (λ i t h p. step i t p)
    where
      step :
          (i : ℕ) (t : Totals)
          → SumBound i t
          → SumBound (suc i) (noise_step ref new mask smartmask i t)
      step i t p = ground (arith, noise_at-le i)

  -- On buffers of bytes a noise level of at most 1288 stays so, however often it is tuned.
  pub noise_tune-le :
      (motionsize noise : ℕ)
      → noise ≤ 1288
      → noise_tune ref new mask smartmask motionsize noise ≤ 1288
  unfolding noise_tune
  noise_tune-le motionsize noise h =
      let t =
        rounds (noise_step ref new mask smartmask) motionsize (record { sum = 0; count = 0 }) in
      ground (arith, totals-le motionsize, mean-le t.sum t.count)

-- The test of alg_lightswitch, rounded down as it is, holds exactly if more than the configured
-- percentage of the picture's pixels changed, taken between 0 and 100; and that is the percentage
-- that the configuration holds from then on.
pub lightswitch_iff :
    (motionsize : ℕ) (percent : ℤ) (diffs : ℕ)
    → let p = percentage percent in
      (((lightswitch motionsize percent diffs).0 ≡ true) ↔ (motionsize * p < diffs * 100))
      × ((lightswitch motionsize percent diffs).1 ≡ pos p)
      × (p ≤ 100)
unfolding lightswitch
lightswitch_iff motionsize (pos n) diffs = ground arith
lightswitch_iff motionsize (negsuc n) diffs = ground arith
