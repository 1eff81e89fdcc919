-- ===== src/Alg/Diff.antt =====
-- alg_diff_standard, alg_diff_fast and alg_diff of board/motion/motion_modified/alg.c, without the
-- MMX alternative of alg_diff_standard. Pointers that walk over the buffers are an index.
pub mod Standard
pub mod Fast
use cy_prus.Prelude.{
  ℕ, zero, suc, true, false, ◌+◌, ◌-◌, ◌*◌, ◌/◌, ◌%◌, Bool, not, ◌&&◌, if◌then◌else◌, ltb, leb,
  ◌==◌, truth,
}
use cy_prus.Prelude.{u8, abs_diff, Option, none, some, List, ◌++◌, get_or, set, replicate, rounds}

-- The fields of `struct context` and `struct images` that the functions read and write.
pub record Frame : Type 0 where
  pub motionsize : ℕ
  pub noise : ℕ
  pub smartmask_speed : ℕ
  pub event_nr : ℕ
  pub prev_event : ℕ
  pub max_changes : ℕ
  pub ref : List ℕ
  pub mask : Option (List ℕ)
  pub smartmask_final : List ℕ

-- What alg_diff_standard writes: imgs->out, imgs->smartmask_buffer and its result.
pub record Diffs : Type 0 where
  pub out : List ℕ
  pub smartmask_buffer : List ℕ
  pub diffs : ℕ

-- SMARTMASK_SENSITIVITY_INCR
abbrev pub smartmask_sensitivity_incr : ℕ
smartmask_sensitivity_incr = 5

abbrev pub apply_mask : Option (List ℕ) → ℕ → ℕ → ℕ
apply_mask none i d = d
apply_mask (some m) i d = u8 (d * get_or m i 0 / 255)

module _ (c : Frame) (new : List ℕ) where
  -- `curdiff` after the fixed mask
  unfoldable pub masked_diff : ℕ → ℕ
  masked_diff i = apply_mask c.mask i (u8 (abs_diff (get_or c.ref i 0) (get_or new i 0)))

  -- One round of the pixel loop, at the pixel with index `i`.
  pub diff_step : ℕ → Diffs → Diffs
  diff_step i s =
      let d = masked_diff i in
      let over = truth c.smartmask_speed && ltb c.noise d in
      let buffer =
        if over && not (c.event_nr == c.prev_event)
        then set s.smartmask_buffer i (get_or s.smartmask_buffer i 0 + smartmask_sensitivity_incr)
        else s.smartmask_buffer in
      let curdiff = if over && get_or c.smartmask_final i 0 == 0 then 0 else d in
      if ltb c.noise curdiff
      then record {
        out = set s.out i (get_or new i 0);
        smartmask_buffer = buffer;
        diffs = s.diffs + 1;
      }
      else record s { smartmask_buffer = buffer }

  -- The buffers before the call; the picture buffer is cleared, and its chroma part set to 128.
  unfoldable pub diff_standard : List ℕ → Diffs
  unfolding diff_step masked_diff
  diff_standard buffer = rounds diff_step c.motionsize (record {
    out = replicate c.motionsize 0 ++ replicate (c.motionsize / 2) 128;
    smartmask_buffer = buffer;
    diffs = 0;
  })

  -- `abs((char)(*ref - *new))` as an `unsigned char`: the difference is cut to eight bits first.
  -- Whether `char` is signed is the compiler's choice.
  unfoldable pub fast_diff : Bool → ℕ → ℕ
  fast_diff signed i =
      let w = u8 (get_or c.ref i 0 + 256 - get_or new i 0) in
      if signed && leb 128 w then 256 - w else w

  -- The loop with `i` pixels to go, at index `k`; true is `return 1`.
  pub diff_fast_loop : Bool → ℕ → ℕ → ℕ → ℕ → ℕ → ℕ → Bool
  diff_fast_loop signed step max_n_changes zero i k diffs = false
  diff_fast_loop signed step max_n_changes (suc fuel) i k diffs =
      let hit = ltb c.noise (fast_diff signed k) in
      let next =
        diff_fast_loop signed step max_n_changes fuel (i - step) (k + step)
          (if hit then diffs + 1 else diffs) in
      if i == 0 then false else if hit && ltb max_n_changes (diffs + 1) then true else next

-- `step` after `if (!step % 2) step++`, which C reads as `(!step) % 2`.
abbrev pub fast_step : ℕ → ℕ
fast_step motionsize =
    let step = motionsize / 10000 in
    let negated : ℕ = if step == 0 then 1 else 0 in if truth (negated % 2) then step + 1 else step

-- A round lowers the count of pixels to go by at least one: `motionsize` rounds are enough.
pub diff_fast : Bool → Frame → ℕ → List ℕ → Bool
unfolding diff_fast_loop fast_diff
diff_fast signed c max_n_changes new =
    let step = fast_step c.motionsize in
    diff_fast_loop c new signed step (max_n_changes / step) c.motionsize c.motionsize 0 0

-- The buffers are left alone where the fast test returns 0.
pub diff : Bool → Frame → List ℕ → List ℕ → List ℕ → Diffs
unfolding diff_fast diff_standard
diff signed c new out buffer =
    let standard = diff_standard c new buffer in
    if diff_fast signed c (c.max_changes / 2) new
    then standard
    else record { out = out; smartmask_buffer = buffer; diffs = 0 }
