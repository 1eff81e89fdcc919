-- ===== src/Motion/Save/Outputs.antt =====
-- What process_image_ring passes on for a picture: the event IMAGE_DETECTED and the filler frames.
use cy_prus.Prelude.{
  ℕ, ◌-◌, ◌≤◌, ◌<◌, ◌≡◌, refl, sym, ap, Bool, true, false, ◌&&◌, if◌then◌else◌, ltb, ◌==◌, ltb→lt,
  arith, Option, none, some, List, ◌∷◌, ◌++◌, replicate, rounds, rounds_inv,
}
use mathlib.Core.Path.{subst}
use cy_prus.Motion.{Image, Event, Context, Conf, event, image_detected, ffmpeg_put}
use cy_prus.Motion.Ring.{image_at}
use cy_prus.Motion.Save.{
  save_three_preview, image_save_as_preview, fill_movie, put_image, keep_preview, mark_saved,
  save_image, is_locate_preview, shots_put,
}

-- The events before a picture, and those behind it, the last event first. A picture whose shot is
-- below the frame limit is passed on once; the first shot of a second may be followed by filler
-- frames of the same picture, `movie_fps` at most. Any other picture is not passed on.
pub data Output (conf : Conf) (img : Image) (before : List Event) : List Event → Type 0 where
  put :
      (n : ℕ)
      → img.shot < conf.frame_limit
      → n ≤ conf.movie_fps
      → (0 < n → img.shot ≡ 0)
      → Output conf img before
          (replicate n (ffmpeg_put img.image) ++ (image_detected img.image ∷ before))
  skipped : conf.frame_limit ≤ img.shot → Output conf img before before

either_events :
    (P : List Event → Type 0) (b : Bool) (d e : Context)
    → (b ≡ true → P d.events)
    → (b ≡ false → P e.events)
    → P ((if b then d else e).events)
either_events P true d e h k = h refl
either_events P false d e h k = k refl

shot_events :
    (P : List Event → Type 0) (s : Option ℕ) (d e : Context)
    → P d.events
    → P e.events
    → P ((elim s as (λ _. Context) [ none ↦ d | some _ ↦ e ]).events)
shot_events P none d e h k = h
shot_events P (some _) d e h k = k

fillers :
    (x : Event) (c : Context) (n : ℕ)
    → (rounds (λ _ d. event x d) n c).events ≡ replicate n x ++ c.events
fillers x c n =
    rounds_inv (λ i (d : Context). d.events ≡ replicate i x ++ c.events) _ n c refl
      (λ i d lt h. ap (λ es. x ∷ es) h)

module _ (conf : Conf) where
  put_image-Output :
      (img : Image) (c : Context)
      → img.shot < conf.frame_limit
      → Output conf img c.events (put_image conf img c).events
  unfolding put_image fill_movie
  put_image-Output img c short =
      let P = Output conf img c.events in
      let shown = event (image_detected img.image) c in
      let alone : P shown.events = put 0 short (omega arith) (λ h. absurd (omega arith)) in
      let n = conf.movie_fps - shots_put c.movie_last_shot in
      let synced =
        either_events P (img.shot == 0 && c.recording) _ _
          (λ h. shot_events P c.movie_last_shot _ _ alone (
            subst P (sym (fillers (ffmpeg_put img.image) shown n))
              (put n short (omega arith) (λ _. ground (arith, h)))))
          (λ h.
            either_events P (img.shot == shots_put c.movie_last_shot) _ _ (λ _. alone)
              (λ _. alone)) in
      shot_events P _ _ _ synced synced

  keep_preview-events : (img : Image) (c : Context) → (keep_preview conf img c).events ≡ c.events
  unfolding keep_preview image_save_as_preview save_three_preview
  keep_preview-events img c =
      let P : List Event → Type 0 = λ es. es ≡ c.events in
      let best =
        either_events P (conf.newimg_best && ltb c.preview_image.diffs img.diffs) _ c
          (λ _.
            either_events P (is_locate_preview conf.locate_motion_mode) _ _ (λ _. refl) (λ _. refl))
          (λ _. refl) in
      either_events P _ _ _ (λ _. best) (λ _. best)

  -- One round of the loop passes on the picture at image_ring_out.
  pub save_image-Output :
      (c : Context)
      → Output conf (image_at c.image_ring c.image_ring_out) c.events (save_image conf c).events
  unfolding save_image
  save_image-Output c =
      let img = image_at c.image_ring c.image_ring_out in
      let P = Output conf img c.events in
      let put =
        either_events P (ltb img.shot conf.frame_limit) (put_image conf img c) c
          (λ h. put_image-Output img c (ltb→lt _ _ h)) (λ h. skipped (ground (arith, h))) in
      either_events P img.flags.motion _ _
        (λ _. subst P (sym (keep_preview-events (mark_saved img) _)) put) (λ _. put)
