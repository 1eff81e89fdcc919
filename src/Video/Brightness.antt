-- ===== src/Video/Brightness.antt =====
-- vid_do_autobright changes the brightness in small steps and within its range.
use cy_prus.Prelude.{
  ℕ, ◌+◌, ◌-◌, ◌/◌, ◌≤◌, ◌<◌, ◌≡◌, Bool, true, false, if◌then◌else◌, ◌==◌, min, max, List, arith,
}
use cy_prus.Video.{towards, do_autobright, sample_average}

-- What one call does to the brightness, for a target and the average of a picture.
pub record IsAdjusted (target avg brightness : ℕ) (r : ℕ × Bool) : Type 0 where
  pub range : r.0 ≤ 255
  pub unchanged : r.1 ≡ false → r.0 ≡ brightness
  -- Downwards only for an average above the window, and never to 0 or 1.
  pub darker : r.0 < brightness → (min (target + 10) 255 < avg) × (1 < r.0)
  pub brighter : brightness < r.0 → (avg < max (target - 10) 1) × (r.0 < 255)
  -- Outside the window the step is one more than the fifth part of the distance, where there is room.
  pub down :
      min (target + 10) 255 < avg
      → (avg - target) / 5 + 2 < brightness
      → r ≡ (brightness - ((avg - target) / 5 + 1), true)
  pub up :
      avg < max (target - 10) 1
      → avg ≤ min (target + 10) 255
      → brightness + ((target - avg) / 5 + 1) < 255
      → r ≡ (brightness + ((target - avg) / 5 + 1), true)

towards-IsAdjusted :
    (target avg brightness : ℕ)
    → brightness ≤ 255
    → IsAdjusted target avg brightness (towards target avg brightness)
unfolding towards
towards-IsAdjusted target avg brightness h = record {
  range = ground arith;
  unchanged = λ e. ground arith;
  darker = λ lt. (ground arith, ground arith);
  brighter = λ lt. (ground arith, ground arith);
  down = λ over room. ground arith;
  up = λ under below room. ground arith;
}

-- For a brightness up to 255 the new one is up to 255, and other than the old one only with
-- make_change. It falls only where the average is above its window, and not below 2; it rises only
-- where the average is below the window, and stays below 255. Where there is room for the step, that
-- is one more than the fifth part of the distance from the target.
pub do_autobright-IsAdjusted :
    (brightness_conf motionsize : ℕ) (image : List ℕ) (brightness : ℕ)
    → brightness ≤ 255
    → IsAdjusted
        (if brightness_conf == 0 then 128 else brightness_conf)
        (sample_average motionsize image)
        brightness
        (do_autobright brightness_conf motionsize image brightness)
unfolding do_autobright
do_autobright-IsAdjusted brightness_conf motionsize image brightness h =
    towards-IsAdjusted (if brightness_conf == 0 then 128 else brightness_conf)
      (sample_average motionsize image) brightness h
