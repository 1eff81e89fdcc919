-- ===== src/Alg/Diff/Fast.antt =====
-- alg_diff_fast: what its early return computes, and the flashes that it does not see.
use cy_prus.Prelude.{ℕ, zero, suc, ◌+◌, ◌-◌, ◌*◌, ◌/◌, ◌≤◌, ◌<◌, ◌≡◌, ◌∙◌, ap}
use cy_prus.Prelude.{Bool, false, if◌then◌else◌, ltb, List, get_or, arith}
use cy_prus.Prelude.{
  ap₂, max, sum_below, sum_below-head, sum_below-zero, sum_below_ext, sum_below_const, count_below,
  none,
}
use cy_prus.Prelude.{u8, abs_diff, length}
use cy_prus.Alg.Diff.{Frame, masked_diff, diff_standard, fast_diff, diff_fast_loop, fast_step}
use cy_prus.Alg.Diff.{diff_fast, diff}
use cy_prus.Alg.Diff.Standard.{is_moving, diff_standard-IsDifference}

-- How many of the indices k, k + step, … (m of them) pass the test.
abbrev pub samples : (ℕ → Bool) → ℕ → ℕ → ℕ → ℕ
samples p step k m = count_below (λ j. p (k + j * step)) m

samples-suc :
    (p : ℕ → Bool) (step k m : ℕ)
    → samples p step k (suc m) ≡ (if p k then 1 else 0) + samples p step (k + step) m
samples-suc p step k m =
    sum_below-head (λ j. if p (k + j * step) then 1 else 0) m ∙ ap₂ ◌+◌ first later
  where
    first : ◌≡◌ {A = ℕ} (if p (k + 0 * step) then 1 else 0) (if p k then 1 else 0)
    first = ap (λ (t : ℕ). if p t then 1 else 0) (omega arith)

    later : sum_below (λ j. if p (k + suc j * step) then 1 else 0) m ≡ samples p step (k + step) m
    later = sum_below_ext _ _ m (λ j h. ap (λ (t : ℕ). if p t then 1 else 0) (omega arith))

module _ (c : Frame) (new : List ℕ) (signed : Bool) where
  -- The sampled pixel with index `k` counts as a change.
  abbrev pub is_hit : ℕ → Bool
  is_hit k = ltb c.noise (fast_diff c new signed k)

  -- With `m` samples to go the loop answers whether the count in the end exceeds the limit.
  diff_fast_loop_lem :
      (step limit m fuel i k diffs : ℕ)
      → m ≤ fuel
      → diffs ≤ limit
      → i ≤ m * step
      → m * step < i + step
      → diff_fast_loop c new signed step limit fuel i k diffs
        ≡ ltb limit (diffs + samples is_hit step k m)
  unfolding diff_fast_loop
  diff_fast_loop_lem step limit zero zero i k diffs f d lo hi =
      ground (arith, sum_below-zero (λ j. if is_hit (k + j * step) then 1 else 0))
  diff_fast_loop_lem step limit zero (suc fuel) i k diffs f d lo hi =
      ground (arith, sum_below-zero (λ j. if is_hit (k + j * step) then 1 else 0))
  diff_fast_loop_lem step limit (suc m) zero i k diffs f d lo hi = absurd (omega arith)
  diff_fast_loop_lem step limit (suc m) (suc fuel) i k diffs f d lo hi = ground (
    arith,
    samples-suc is_hit step k m,
    diff_fast_loop_lem step limit m fuel (i - step) (k + step) diffs,
    diff_fast_loop_lem step limit m fuel (i - step) (k + step) (diffs + 1),
  )

fast_step_lem : (n : ℕ) → fast_step n ≡ max 1 (n / 10000)
fast_step_lem n = ground arith

-- The number of samples is the picture's size over the step, rounded up.
rounded_up :
    (n step : ℕ)
    → 1 ≤ step
    → (n ≤ (n + step - 1) / step * step)
      × ((n + step - 1) / step * step < n + step)
      × ((n + step - 1) / step ≤ n)
rounded_up n step h = (omega arith, omega arith, grind arith)

-- alg_diff_fast looks at every `step`-th pixel, with `step` a ten thousandth of the picture and at
-- least one, and returns 1 exactly if more than `max_n_changes / step` of the samples differ by
-- more than the noise level.
pub diff_fast-samples :
    (signed : Bool) (c : Frame) (max_n_changes : ℕ) (new : List ℕ)
    → let step = max 1 (c.motionsize / 10000) in
      diff_fast signed c max_n_changes new
      ≡ ltb
          (max_n_changes / step)
          (samples (is_hit c new signed) step 0 ((c.motionsize + step - 1) / step))
unfolding diff_fast
diff_fast-samples signed c max_n_changes new =
    let step = max 1 (c.motionsize / 10000) in
    let (lo, hi, fuel) = rounded_up c.motionsize step (omega arith) in
    rw (fast_step_lem c.motionsize) (
      diff_fast_loop_lem c new signed step (max_n_changes / step) _ c.motionsize c.motionsize 0 0
        fuel (omega arith) lo hi
      ∙ ap (ltb (max_n_changes / step)) (omega arith))

-- A pixel that brightens by 256 less a step of the noise or more passes the cut to eight bits as
-- a small difference.
fast_diff_flash :
    (c : Frame) (new : List ℕ) (signed : Bool) (i : ℕ)
    → c.noise < 128
    → get_or new i 0 < 256
    → get_or c.ref i 0 + 256 ≤ get_or new i 0 + c.noise
    → is_hit c new signed i ≡ false
unfolding fast_diff
fast_diff_flash c new signed i n b h = ground arith

sampled_inside : (n step m j : ℕ) → m * step < n + step → j < m → 0 + j * step < n
sampled_inside n step m j hi h = grind arith

masked_diff_unmasked :
    (c : Frame) (new : List ℕ) (i : ℕ)
    → c.mask ≡ none
    → masked_diff c new i ≡ u8 (abs_diff (get_or c.ref i 0) (get_or new i 0))
unfolding masked_diff
masked_diff_unmasked c new i e = rw e

fast_flash :
    (signed : Bool) (c : Frame) (max_n_changes : ℕ) (new : List ℕ)
    → c.noise < 128
    → ((i : ℕ) → get_or new i 0 < 256)
    → ((i : ℕ) → i < c.motionsize → get_or c.ref i 0 + 256 ≤ get_or new i 0 + c.noise)
    → diff_fast signed c max_n_changes new ≡ false
fast_flash signed c max_n_changes new n b flash =
    let step = max 1 (c.motionsize / 10000) in
    let m = (c.motionsize + step - 1) / step in
    let (lo, hi, fuel) = rounded_up c.motionsize step (omega arith) in
    let none_hit : samples (is_hit c new signed) step 0 m ≡ m * 0 =
      sum_below_const (λ j. if is_hit c new signed (0 + j * step) then 1 else 0) 0 m
        (λ j h. rw (
          fast_diff_flash c new signed (0 + j * step) n (b _)
            (flash _ (sampled_inside c.motionsize step m j hi h)))) in
    diff_fast-samples signed c max_n_changes new ∙ ground (arith, none_hit)

standard_flash :
    (c : Frame) (new buffer : List ℕ)
    → c.motionsize ≤ length buffer
    → c.noise < 128
    → c.mask ≡ none
    → c.smartmask_speed ≡ 0
    → ((i : ℕ) → get_or new i 0 < 256)
    → ((i : ℕ) → i < c.motionsize → get_or c.ref i 0 + 256 ≤ get_or new i 0 + c.noise)
    → (diff_standard c new buffer).diffs ≡ c.motionsize
standard_flash c new buffer size n no_mask off b flash =
    (diff_standard-IsDifference c new buffer size).counted
    ∙ sum_below_const (λ i. if is_moving c new i then 1 else 0) 1 c.motionsize moving
    ∙ omega arith
  where
    moving : (i : ℕ) → i < c.motionsize → ◌≡◌ {A = ℕ} (if is_moving c new i then 1 else 0) 1
    moving i h = ground (arith, flash i h, b i, masked_diff_unmasked c new i no_mask)

-- For noise levels below 128, whether `char` is signed or not: if every pixel brightens by at
-- least 256 less the noise level, alg_diff reports no change and leaves its buffers alone, where
-- alg_diff_standard, with no mask in use, counts every pixel of the picture as changed.
pub diff_misses_flash :
    (signed : Bool) (c : Frame) (new out buffer : List ℕ)
    → c.motionsize ≤ length buffer
    → c.noise < 128
    → c.mask ≡ none
    → c.smartmask_speed ≡ 0
    → ((i : ℕ) → get_or new i 0 < 256)
    → ((i : ℕ) → i < c.motionsize → get_or c.ref i 0 + 256 ≤ get_or new i 0 + c.noise)
    → (diff signed c new out buffer ≡ record { out = out; smartmask_buffer = buffer; diffs = 0 })
      × ((diff_standard c new buffer).diffs ≡ c.motionsize)
unfolding diff
diff_misses_flash signed c new out buffer size n no_mask off b flash = (
  rw (fast_flash signed c (c.max_changes / 2) new n b flash),
  standard_flash c new buffer size n no_mask off b flash,
)
