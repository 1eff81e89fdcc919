-- ===== src/Alg/Smartmask/Tuned.antt =====
-- What the tuning of the smart mask does to each pixel.
use cy_prus.Prelude.{ℕ, suc, ◌*◌, ◌/◌, ◌≤◌, ◌<◌, ◌≡◌, ap, List, length, get_or, arith}
use cy_prus.Prelude.{Passed, Passed-start, Passed-set, rounds_inv, if◌then◌else◌, ltb}
use cy_prus.Alg.Morph.{any_zero9, any_zero5, erode9, erode5}
use cy_prus.Alg.Morph.Erode.{eroding}
use cy_prus.Alg.Morph.Rows.{IsDrawn}
use cy_prus.Alg.Smartmask.{
  Masks, Cell, sensitivity, tune_cell, final_of, cell_at, tune_step, tune_pixels, tune_smartmask,
}

module _ (sens : ℕ) (old : Masks) where
  abbrev tuned : ℕ → Cell
  tuned i = tune_cell sens (cell_at old i)

  record Tunes (n : ℕ) (m : Masks) : Type 0 where
    masks : Passed (λ i. (tuned i).mask) old.smartmask n m.smartmask
    finals : Passed (λ i. final_of (tuned i).mask) old.smartmask_final n m.smartmask_final
    buffers : Passed (λ i. (tuned i).buffer) old.smartmask_buffer n m.smartmask_buffer

  -- The three buffers have an element for each pixel.
  pub record HasRoom (motionsize : ℕ) : Type 0 where
    pub mask_room : motionsize ≤ length old.smartmask
    pub final_room : motionsize ≤ length old.smartmask_final
    pub buffer_room : motionsize ≤ length old.smartmask_buffer

  Tunes-step :
      (n motionsize : ℕ) (m : Masks)
      → n < motionsize
      → HasRoom motionsize
      → Tunes n m
      → Tunes (suc n) (tune_step sens n m)
  unfolding tune_step
  Tunes-step n motionsize m h room p =
      let same : cell_at m n ≡ cell_at old n = λ k. record {
        mask = p.masks.ahead n (omega arith) k;
        buffer = p.buffers.ahead n (omega arith) k;
      } in
      record {
        masks =
            Passed-set _ p.masks (omega (arith, room.mask_room))
              (ap (λ c. (tune_cell sens c).mask) same);
        finals =
            Passed-set _ p.finals (omega (arith, room.final_room))
              (ap (λ c. final_of (tune_cell sens c).mask) same);
        buffers =
            Passed-set _ p.buffers (omega (arith, room.buffer_room))
              (ap (λ c. (tune_cell sens c).buffer) same);
      }

  tune_pixels-Tunes :
      (motionsize : ℕ) → HasRoom motionsize → Tunes motionsize (tune_pixels sens motionsize old)
  unfolding tune_pixels
  tune_pixels-Tunes motionsize room =
      rounds_inv Tunes (tune_step sens) motionsize old
        (record { masks = Passed-start _ _; finals = Passed-start _ _; buffers = Passed-start _ _ })
        (λ n m h p. Tunes-step n motionsize m h room p)

quotient-le : (b sens : ℕ) → 0 < sens → b < 26 * sens → b / sens ≤ 25
quotient-le b sens pos h = grind arith

cell_bounds :
    (sens : ℕ) (c : Cell)
    → 0 < sens
    → c.mask ≤ 130
    → c.buffer < 26 * sens
    → ((tune_cell sens c).mask ≤ 130) × ((tune_cell sens c).buffer < sens)
unfolding tune_cell
cell_bounds sens c pos hm hb = ground (arith, quotient-le c.buffer sens pos hb)

positive : (lastrate speed : ℕ) → 1 ≤ lastrate → speed ≤ 10 → 0 < sensitivity lastrate speed
positive lastrate speed rate slow = grind arith

module _ (lastrate speed motionsize width height : ℕ) (common_buffer : List ℕ) (old : Masks) where
  abbrev pub sens_of : ℕ
  sens_of = sensitivity lastrate speed

  abbrev pub new_masks : Masks
  new_masks = tune_smartmask lastrate speed motionsize width height common_buffer old

  -- For at least one frame a second and a speed of at most 10: masks of at most 130 stay so, with
  -- no wrap of the `unsigned char`, if no buffer element has reached 26 times the sensitivity; and
  -- each buffer element is below the sensitivity afterwards.
  pub tune_smartmask_bounds :
      1 ≤ lastrate
      → speed ≤ 10
      → HasRoom sens_of old motionsize
      → (i : ℕ) → i < motionsize
      → get_or old.smartmask i 0 ≤ 130
      → get_or old.smartmask_buffer i 0 < 26 * sens_of
      → (get_or new_masks.smartmask i 0 ≤ 130) × (get_or new_masks.smartmask_buffer i 0 < sens_of)
  unfolding tune_smartmask
  tune_smartmask_bounds rate slow room i h hm hb =
      let t = tune_pixels-Tunes sens_of old motionsize room in
      let b = cell_bounds sens_of (cell_at old i) (positive lastrate speed rate slow) hm hb in
      (rw (t.masks.done i h) b.0, rw (t.buffers.done i h) b.1)

  -- The final mask: the pixels whose tuned mask is above 20 are set to 0 and the others to 255, and
  -- the result is eroded by the nine and then by the five neighbours, with 255 around the picture.
  pub record IsExpanded : Type 0 where
    pub raw : List ℕ
    pub once : List ℕ
    pub trigger :
        (i : ℕ)
        → i < motionsize
        → get_or raw i 0 ≡ (if ltb 20 (get_or new_masks.smartmask i 0) then 0 else 255)
    pub first :
        IsDrawn width height 255 raw (eroding any_zero9) (erode9 raw width height common_buffer 255)
    pub once_lem : once ≡ (erode9 raw width height common_buffer 255).img
    pub second :
        IsDrawn width height 255 once
          (eroding any_zero5)
          (erode5 once width height common_buffer 255)
    pub final : new_masks.smartmask_final ≡ (erode5 once width height common_buffer 255).img
