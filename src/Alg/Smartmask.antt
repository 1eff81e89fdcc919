-- ===== src/Alg/Smartmask.antt =====
-- alg_tune_smartmask of board/motion/motion_modified/alg.c: the mask that learns where motion
-- always is.
pub mod Tuned
use cy_prus.Prelude.{
  ℕ, ◌+◌, ◌-◌, ◌*◌, ◌/◌, ◌%◌, if◌then◌else◌, ltb, leb, truth, u8, List, get_or, set, rounds,
}
use cy_prus.Alg.Morph.{erode9, erode5}

-- The three buffers that the function updates.
pub record Masks : Type 0 where
  pub smartmask : List ℕ
  pub smartmask_final : List ℕ
  pub smartmask_buffer : List ℕ

-- The elements of the buffers at one index.
pub record Cell : Type 0 where
  pub mask : ℕ
  pub buffer : ℕ

abbrev pub sensitivity : (lastrate smartmask_speed : ℕ) → ℕ
sensitivity lastrate smartmask_speed = lastrate * (11 - smartmask_speed)

-- `smartmask[i]` and `smartmask_buffer[i]` after the two adjustments.
unfoldable pub tune_cell : (sens : ℕ) → Cell → Cell
tune_cell sens c =
    let mask = if ltb 0 c.mask then u8 (c.mask - 1) else c.mask in
    let diff = c.buffer / sens in
    if truth diff
    then record {
      mask = if leb mask (diff + 80) then u8 (mask + diff) else 80;
      buffer = c.buffer % sens;
    }
    else record { mask = mask; buffer = c.buffer }

-- The value for the final stage.
abbrev pub final_of : ℕ → ℕ
final_of mask = if ltb 20 mask then 0 else 255

abbrev pub cell_at : Masks → ℕ → Cell
cell_at m i = record { mask = get_or m.smartmask i 0; buffer = get_or m.smartmask_buffer i 0 }

pub tune_step : (sens i : ℕ) → Masks → Masks
tune_step sens i m =
    let c = tune_cell sens (cell_at m i) in
    record {
      smartmask = set m.smartmask i c.mask;
      smartmask_final = set m.smartmask_final i (final_of c.mask);
      smartmask_buffer = set m.smartmask_buffer i c.buffer;
    }

-- The loop over the pixels, before the mask is expanded.
pub tune_pixels : (sens motionsize : ℕ) → Masks → Masks
unfolding tune_step tune_cell
tune_pixels sens motionsize m = rounds (tune_step sens) motionsize m

pub tune_smartmask :
    (lastrate smartmask_speed motionsize width height : ℕ)
    → (common_buffer : List ℕ) → Masks
    → Masks
unfolding tune_pixels
tune_smartmask lastrate smartmask_speed motionsize width height common_buffer m =
    let t = tune_pixels (sensitivity lastrate smartmask_speed) motionsize m in
    let once = (erode9 t.smartmask_final width height common_buffer 255).img in
    record t { smartmask_final = (erode5 once width height common_buffer 255).img }
