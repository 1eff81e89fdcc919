-- ===== src/Alg/Tune.antt =====
-- alg_noise_tune, alg_threshold_tune and alg_lightswitch of board/motion/motion_modified/alg.c.
pub mod Bounds
pub mod Window
use cy_prus.Prelude.{
  ℕ, suc, ◌+◌, ◌-◌, ◌*◌, ◌/◌, Bool, true, false, not, ◌&&◌, if◌then◌else◌, ltb, ◌==◌,
}
use cy_prus.Prelude.{truth, abs_diff, Option, none, some, List, get_or, set, max, rounds}
use cy_prus.Prelude.Int.{ℤ, pos, negsuc}

-- The running totals of alg_noise_tune.
pub record Totals : Type 0 where
  pub sum : ℕ
  pub count : ℕ

module _ (ref new : List ℕ) (mask : Option (List ℕ)) (smartmask : List ℕ) where
  -- `diff` at one pixel, after the fixed mask
  unfoldable pub noise_at : ℕ → ℕ
  noise_at i =
      let d = abs_diff (get_or ref i 0) (get_or new i 0) in
      elim mask [ none ↦ d | some m ↦ d * get_or m i 0 / 255 ]

  pub noise_step : ℕ → Totals → Totals
  noise_step i t =
      if truth (get_or smartmask i 0)
      then record { sum = t.sum + (noise_at i + 1); count = t.count + 1 }
      else t

  -- The new noise level, for pictures of `motionsize` pixels and the level `noise`.
  pub noise_tune : (motionsize noise : ℕ) → ℕ
  unfolding noise_step
  noise_tune motionsize noise =
      let t = rounds noise_step motionsize (record { sum = 0; count = 0 }) in
      let sum = if ltb 3 t.count then t.sum / (t.count / 3) else t.sum in 4 + (noise + sum) / 2

-- THRESHOLD_TUNE_LENGTH
abbrev pub threshold_tune_length : ℕ
threshold_tune_length = 256

-- cnt->threshold and cnt->diffs_last
pub record Thresholds : Type 0 where
  pub threshold : ℕ
  pub diffs_last : List ℕ

-- `diffs_last` under the loop, with `sum` and `top`
pub record Scan : Type 0 where
  pub last : List ℕ
  pub sum : ℕ
  pub top : ℕ

-- One round of the loop of alg_threshold_tune.
pub scan_step : (motion : Bool) (quarter i : ℕ) → Scan → Scan
scan_step motion quarter i s =
    let next = get_or s.last (suc i) 0 in
    let kept = if truth next && not motion then next else quarter in
    record {
      last = set s.last i kept;
      sum = s.sum + get_or s.last i 0;
      top = if ltb s.top kept then kept else s.top;
    }

-- What follows the loop, from its state `s` and the count of changes.
pub settle : (max_changes diffs : ℕ) → Bool → Thresholds → Scan → Thresholds
settle max_changes diffs motion t s =
    let rest = threshold_tune_length - 1 in
    let mean = (s.sum + get_or s.last rest 0) / (threshold_tune_length / 4) in
    let level = if ltb mean (s.top * 2) then s.top * 2 else mean in
    record {
      threshold = if ltb level max_changes then (t.threshold + level) / 2 else t.threshold;
      diffs_last = set s.last rest (if motion then t.threshold / 4 else diffs);
    }

pub threshold_tune : (max_changes diffs : ℕ) → Bool → Thresholds → Thresholds
unfolding scan_step settle
threshold_tune max_changes diffs motion t =
    let s =
      rounds (scan_step motion (t.threshold / 4)) (threshold_tune_length - 1)
        (record { last = t.diffs_last; sum = 0; top = diffs }) in
    if diffs == 0 then t else settle max_changes diffs motion t s

-- conf->lightswitch after the two tests that keep it between 0 and 100
abbrev pub percentage : ℤ → ℕ
percentage (negsuc n) = 0
percentage (pos n) = if ltb 100 n then 100 else n

-- The result of alg_lightswitch, and the value that it leaves in conf->lightswitch.
pub lightswitch : (motionsize : ℕ) → ℤ → (diffs : ℕ) → Bool × ℤ
lightswitch motionsize percent diffs =
    let p = percentage percent in (ltb (motionsize * p / 100) diffs, pos p)
