-- ===== src/Alg/Reference/Static.antt =====
-- How long a static object stays out of the reference frame.
use cy_prus.Prelude.{
  ℕ, zero, suc, ◌+◌, ◌≤◌, ◌<◌, ◌≡◌, ◌≢◌, refl, ◌∙◌, ap, arith, abs_diff, get_or, rounds,
}
use cy_prus.Alg.Reference.{Scene, Reference, update_ref_frame, Pixel, update_pixel}
use cy_prus.Alg.Reference.{pixel_at, updated, accept_timer, threshold_ref, update_reference_frame}
use cy_prus.Alg.Reference.Update.{HasRoom, update_reference_frame-IsRun}

module _ (c : Scene) where
  -- The frames of a scene that does not change, one update of the reference frame for each.
  abbrev pub frames : ℕ → Reference → Reference
  frames n r = rounds (λ _ s. update_reference_frame c update_ref_frame s) n r

  frames-suc :
      (n : ℕ) (r : Reference)
      → frames (suc n) r ≡ update_reference_frame c update_ref_frame (frames n r)
  unfolding rounds
  frames-suc n r = refl

  frames-zero : (r : Reference) → frames 0 r ≡ r
  unfolding rounds
  frames-zero r = refl

  frames-HasRoom : (n : ℕ) (r : Reference) → HasRoom c r → HasRoom c (frames n r)
  frames-HasRoom zero r room = rw (frames-zero r) room
  frames-HasRoom (suc n) r room =
      let before = frames-HasRoom n r room in
      let u = update_reference_frame-IsRun c (frames n r) before in
      rw (frames-suc n r, u.ref_size, u.dyn_size) before

  -- The pixel shows an object that was not there before: it is off the reference by more than the
  -- exclusion level, in the motion picture, and not hidden by the smart mask.
  pub record IsNew (r : Reference) (i : ℕ) : Type 0 where
    pub inside : i < c.motionsize
    pub fresh : get_or r.ref_dyn i 0 ≡ 0
    pub off : threshold_ref c < abs_diff (get_or r.ref i 0) (get_or c.image_virgin i 0)
    pub unmasked : get_or c.smartmask_final i 0 ≢ 0
    pub moving : get_or c.out i 0 ≢ 0

  module _ (r : Reference) (i : ℕ) (room : HasRoom c r) (new : IsNew r i) where
    frames_at : (n : ℕ) → pixel_at (frames (suc n) r) i ≡ updated c i (pixel_at (frames n r) i)
    frames_at n = rw (frames-suc n r) (
        (update_reference_frame-IsRun c (frames n r) (frames-HasRoom n r room)).inside i new.inside)

    waiting :
        (n : ℕ)
        → n ≤ suc (accept_timer c.lastrate)
        → pixel_at (frames n r) i ≡ record { ref = get_or r.ref i 0; dyn = n }
    unfolding update_pixel
    waiting zero h = rw (frames-zero r, new.fresh)
    waiting (suc n) h =
        frames_at n
        ∙ ap (updated c i) (waiting n (omega arith))
        ∙ ground (arith, new.off, new.unmasked, new.moving)

    -- If the scene stays as it is, the reference frame keeps its pixel for `accept_timer` + 1
    -- updates, and takes over the object's pixel, with its counter back at 0, in the next one.
    pub static_accepted :
        ((n : ℕ) → n ≤ accept_timer c.lastrate + 1 → get_or (frames n r).ref i 0 ≡ get_or r.ref i 0)
        × (get_or (frames (accept_timer c.lastrate + 2) r).ref i 0 ≡ get_or c.image_virgin i 0)
        × (get_or (frames (accept_timer c.lastrate + 2) r).ref_dyn i 0 ≡ 0)
    unfolding update_pixel
    static_accepted =
        let last : accept_timer c.lastrate + 2 ≡ suc (suc (accept_timer c.lastrate)) =
          omega arith in
        (
          λ n h. ap (λ (p : Pixel). p.ref) (waiting n (omega arith)),
          rw last (ap (λ (p : Pixel). p.ref) taken),
          rw last (ap (λ (p : Pixel). p.dyn) taken),
        )
      where
        taken :
            pixel_at (frames (suc (suc (accept_timer c.lastrate))) r) i
            ≡ record { ref = get_or c.image_virgin i 0; dyn = 0 }
        taken =
            frames_at (suc (accept_timer c.lastrate))
            ∙ ap (updated c i) (waiting (suc (accept_timer c.lastrate)) (omega arith))
            ∙ ground (arith, new.off, new.unmasked, new.moving)
