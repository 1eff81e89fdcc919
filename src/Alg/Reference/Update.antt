-- ===== src/Alg/Reference/Update.antt =====
-- The update of the reference frame, pixel by pixel.
use mathlib.Core.Path.{subst}
use native.Mathlib.Nat.{div-mul-le_self, div-add-mod', mod-lt}
use cy_prus.Prelude.{
  ℕ, suc, ◌+◌, ◌*◌, ◌/◌, ◌≤◌, ◌<◌, ◌≡◌, ◌⊎◌, refl, sym, ◌∙◌, ap, true, false, ltb, abs_diff, arith,
  length, get_or,
}
use cy_prus.Prelude.{Passed, Passed-start, Passed-set, rounds_inv, take}
use cy_prus.Prelude.{replicate, get_or-append_left, length-replicate, get_or-replicate}
use cy_prus.Prelude.{length-take_le, get_or-take}
use cy_prus.Alg.Reference.{
  Scene, Reference, Pixel, accept_timer, update_pixel, update_ref_frame, reset_ref_frame,
}
use cy_prus.Alg.Reference.{pixel_at, updated, update_step, update_reference_frame}

-- The counter above which a pixel is accepted: the pictures of 10 seconds, or for more than 5 pictures
-- per second the thirty or so that are counted at three per second.
pub record IsTimer (lastrate timer : ℕ) : Type 0 where
  pub slow : lastrate ≤ 5 → timer ≡ 10 * lastrate
  pub fast :
      5 < lastrate
      → (timer * (lastrate / 3) ≤ 10 * lastrate) × (10 * lastrate < suc timer * (lastrate / 3))

-- The two values of a pixel are farther apart than 20 percent of the noise level.
abbrev pub Differs : (noise a b : ℕ) → Type 0
Differs noise a b = (b + noise * 20 / 100 < a) ⊎ (a + noise * 20 / 100 < b)

-- The rule for a pixel, from the values of the new picture, the smart mask and the motion picture.
pub record Follows (lastrate noise virgin mask out : ℕ) (old new : Pixel) : Type 0 where
  pub timer : ℕ
  pub timer_is : IsTimer lastrate timer
  pub like : ¬ Differs noise old.ref virgin → new ≡ record { ref = virgin; dyn = 0 }
  pub masked : mask ≡ 0 → new ≡ record { ref = virgin; dyn = 0 }
  pub first :
      Differs noise old.ref virgin
      → 0 < mask
      → old.dyn ≡ 0
      → new ≡ record { ref = old.ref; dyn = 1 }
  pub accepted :
      Differs noise old.ref virgin
      → 0 < mask
      → timer < old.dyn
      → new ≡ record { ref = virgin; dyn = 0 }
  pub moving :
      Differs noise old.ref virgin
      → 0 < mask
      → 0 < old.dyn
      → old.dyn ≤ timer
      → 0 < out
      → new ≡ record { ref = old.ref; dyn = old.dyn + 1 }
  pub still :
      Differs noise old.ref virgin
      → 0 < mask
      → 0 < old.dyn
      → old.dyn ≤ timer
      → out ≡ 0
      → new ≡ record { ref = (old.ref + virgin) / 2; dyn = 0 }

accept_timer-IsTimer : (lastrate : ℕ) → IsTimer lastrate (accept_timer lastrate)
unfolding accept_timer
accept_timer-IsTimer lastrate = record {
  slow = λ h. ground arith;
  fast = λ h.
      let n = lastrate * 10 in
      let m = lastrate / 3 in
      let timer : accept_timer lastrate ≡ n / m = ground arith in
      let some_m : 0 < m = omega arith in
      rw timer (
        omega (arith, div-mul-le_self n m),
        let next : suc (n / m) * m ≡ n / m * m + m = grind arith in
            omega (arith, next, div-add-mod' n m, mod-lt n some_m),
      );
}

over_lem :
    (noise a b : ℕ)
    → (Differs noise a b → ltb (noise * 20 / 100) (abs_diff a b) ≡ true)
      × (¬ Differs noise a b → ltb (noise * 20 / 100) (abs_diff a b) ≡ false)
over_lem noise a b = (λ h. ground (arith, h), λ h. ground (arith, h))

module _ (c : Scene) where
  -- The body of the loop follows the rule.
  updated-Follows :
      (i : ℕ) (old : Pixel)
      → Follows c.lastrate c.noise
          (get_or c.image_virgin i 0)
          (get_or c.smartmask_final i 0)
          (get_or c.out i 0)
          old
          (updated c i old)
  unfolding update_pixel
  updated-Follows i old =
      let virgin = get_or c.image_virgin i 0 in
      let over = over_lem c.noise old.ref virgin in
      record {
        timer = accept_timer c.lastrate;
        timer_is = accept_timer-IsTimer c.lastrate;
        like = λ h. rw (over.1 h) refl;
        masked = λ h. rw h (ground arith);
        first = λ h m z. rw (over.0 h) (ground arith);
        accepted = λ h m t. rw (over.0 h) (ground arith);
        moving = λ h m d t o. rw (over.0 h) (ground arith);
        still = λ h m d t o. rw (over.0 h) (ground arith);
      }

  record Updates (old : Reference) (n : ℕ) (r : Reference) : Type 0 where
    refs : Passed (λ i. (updated c i (pixel_at old i)).ref) old.ref n r.ref
    dyns : Passed (λ i. (updated c i (pixel_at old i)).dyn) old.ref_dyn n r.ref_dyn

  Updates-step :
      (old : Reference) (n : ℕ) (r : Reference)
      → n < length old.ref
      → n < length old.ref_dyn
      → Updates old n r
      → Updates old (suc n) (update_step c n r)
  unfolding update_step
  Updates-step old n r hr hd u = record {
    refs = Passed-set _ u.refs hr (ap (λ p. (updated c n p).ref) same);
    dyns = Passed-set _ u.dyns hd (ap (λ p. (updated c n p).dyn) same);
  }
    where
      same : pixel_at r n ≡ pixel_at old n
      same =
          λ k. record { ref = u.refs.ahead n (omega arith) k; dyn = u.dyns.ahead n (omega arith) k }

  -- The two buffers hold the luma part of a picture at least.
  abbrev pub HasRoom : Reference → Type 0
  HasRoom r = (c.motionsize ≤ length r.ref) × (c.motionsize ≤ length r.ref_dyn)

  -- What the loop leaves.
  pub record IsRun (old new : Reference) : Type 0 where
    pub inside : (i : ℕ) → i < c.motionsize → pixel_at new i ≡ updated c i (pixel_at old i)
    pub outside : (i : ℕ) → c.motionsize ≤ i → pixel_at new i ≡ pixel_at old i
    pub ref_size : length new.ref ≡ length old.ref
    pub dyn_size : length new.ref_dyn ≡ length old.ref_dyn

  pub update_reference_frame-IsRun :
      (old : Reference) → HasRoom old → IsRun old (update_reference_frame c update_ref_frame old)
  unfolding update_reference_frame
  update_reference_frame-IsRun old room =
      let u =
        rounds_inv (Updates old) (update_step c) c.motionsize old
          (record { refs = Passed-start _ old.ref; dyns = Passed-start _ old.ref_dyn })
          (λ i r lt u. Updates-step old i r (omega arith) (omega arith) u) in
      record {
        inside = λ i lt. λ k. record { ref = u.refs.done i lt k; dyn = u.dyns.done i lt k };
        outside = λ i le. λ k. record { ref = u.refs.ahead i le k; dyn = u.dyns.ahead i le k };
        ref_size = u.refs.size;
        dyn_size = u.dyns.size;
      }

  -- Each pixel of the luma part follows the rule, on what it held before the call; the rest of the
  -- buffers and their sizes stay.
  pub record IsUpdate (old new : Reference) : Type 0 where
    pub inside :
        (i : ℕ)
        → i < c.motionsize
        → Follows c.lastrate c.noise
            (get_or c.image_virgin i 0)
            (get_or c.smartmask_final i 0)
            (get_or c.out i 0)
            (pixel_at old i)
            (pixel_at new i)
    pub outside : (i : ℕ) → c.motionsize ≤ i → pixel_at new i ≡ pixel_at old i
    pub ref_size : length new.ref ≡ length old.ref
    pub dyn_size : length new.ref_dyn ≡ length old.ref_dyn

  -- UPDATE_REF_FRAME on each pixel of the luma part: one that differs from the new picture by more
  -- than 20 percent of the noise level, outside the masked part, keeps its value while its counter
  -- runs: the counter starts at 1 and grows by 1 while the pixel is in motion; a pixel that is not
  -- in motion any more becomes the mean of both values, and one whose counter is past the time for
  -- static objects takes the new value, both with counter 0. Every other pixel takes the new value
  -- with counter 0, and nothing else changes. The two buffers have room for the luma part.
  pub update_reference_frame-IsUpdate :
      (old : Reference) → HasRoom old → IsUpdate old (update_reference_frame c update_ref_frame old)
  update_reference_frame-IsUpdate old room =
      let u = update_reference_frame-IsRun old room in
      record {
        inside = λ i lt.
            subst
              (Follows c.lastrate c.noise (get_or c.image_virgin i 0) (get_or c.smartmask_final i 0)
                (get_or c.out i 0) (pixel_at old i))
              (sym (u.inside i lt)) (updated-Follows i (pixel_at old i));
        outside = u.outside;
        ref_size = u.ref_size;
        dyn_size = u.dyn_size;
      }

  -- RESET_REF_FRAME copies the whole new picture, and clears every counter of the luma part.
  pub reset_lem :
      (old : Reference) (i : ℕ)
      → c.size ≤ length c.image_virgin
      → let new = update_reference_frame c reset_ref_frame old in
        (i < c.size → get_or new.ref i 0 ≡ get_or c.image_virgin i 0)
        × (i < c.motionsize → get_or new.ref_dyn i 0 ≡ 0)
  unfolding update_reference_frame
  reset_lem old i size = (
    λ h.
        get_or-append_left (take c.size c.image_virgin) _ i 0 (rw (length-take_le, size) h)
        ∙ get_or-take c.size c.image_virgin i 0 h,
    λ h.
        get_or-append_left (replicate c.motionsize 0) _ i 0 (rw length-replicate h)
        ∙ get_or-replicate c.motionsize i 0 0 h,
  )
