-- ===== src/Motion/Save/Kept.antt =====
-- What saving one picture does to the ring.
use cy_prus.Prelude.{
  ℕ, ◌≡◌, refl, ◌∙◌, ap₂, Bool, true, false, ◌&&◌, if◌then◌else◌, ltb, ◌==◌, rounds, rounds_inv,
  Option, some, none, set,
}
use cy_prus.Motion.{Image, Context, Conf, event, ffmpeg_put, image_detected}
use cy_prus.Motion.Ring.{image_at, next_place}
use cy_prus.Motion.Save.{
  save_three_preview, image_save_as_preview, fill_movie, put_image, keep_preview, mark_saved,
  save_image, is_locate_preview, shots_put,
}

-- The ring and its places are the same, and so are the number of the event and makemovie.
pub record SameRing (c d : Context) : Type 0 where
  pub ring : d.image_ring ≡ c.image_ring
  pub size : d.image_ring_size ≡ c.image_ring_size
  pub ring_in : d.image_ring_in ≡ c.image_ring_in
  pub ring_out : d.image_ring_out ≡ c.image_ring_out
  pub makemovie : d.makemovie ≡ c.makemovie
  pub event_nr : d.event_nr ≡ c.event_nr

pub same : (c : Context) → SameRing c c
same c = record {
  ring = refl;
  size = refl;
  ring_in = refl;
  ring_out = refl;
  makemovie = refl;
  event_nr = refl;
}

either :
    (b : Bool) (c d e : Context) → SameRing c d → SameRing c e → SameRing c (if b then d else e)
either true c d e h k = h
either false c d e h k = k

then_same : (c d e : Context) → SameRing c d → SameRing d e → SameRing c e
then_same c d e h k = record {
  ring = k.ring ∙ h.ring;
  size = k.size ∙ h.size;
  ring_in = k.ring_in ∙ h.ring_in;
  ring_out = k.ring_out ∙ h.ring_out;
  makemovie = k.makemovie ∙ h.makemovie;
  event_nr = k.event_nr ∙ h.event_nr;
}

set_shot :
    (c d : Context) (s : Option ℕ) → SameRing c d → SameRing c (record d { movie_last_shot = s })
set_shot c d s h = record {
  ring = h.ring;
  size = h.size;
  ring_in = h.ring_in;
  ring_out = h.ring_out;
  makemovie = h.makemovie;
  event_nr = h.event_nr;
}

fillers :
    (conf : Conf) (img : Image) (c : Context) (n : ℕ)
    → SameRing c (rounds (λ _ d. event (ffmpeg_put img.image) d) n c)
fillers conf img c n =
    rounds_inv (λ _ (d : Context). SameRing c d) _ n c (same c)
      (λ _ d _ h. record {
        ring = h.ring;
        size = h.size;
        ring_in = h.ring_in;
        ring_out = h.ring_out;
        makemovie = h.makemovie;
        event_nr = h.event_nr;
      })

-- A choice by movie_last_shot.
by_shot :
    (c d e : Context) (s : Option ℕ)
    → SameRing c d
    → SameRing c e
    → SameRing c (elim s [ none ↦ d | some _ ↦ e ])
by_shot c d e none h k = h
by_shot c d e (some _) h k = k

fill_movie-SameRing : (conf : Conf) (img : Image) (c : Context) → SameRing c (fill_movie conf img c)
unfolding fill_movie
fill_movie-SameRing conf img c =
    by_shot c _ _ c.movie_last_shot (set_shot c c _ (same c))
      (set_shot c _ _ (fillers conf img c _))

put_image-SameRing : (conf : Conf) (img : Image) (c : Context) → SameRing c (put_image conf img c)
unfolding put_image
put_image-SameRing conf img c =
    let shown = event (image_detected img.image) c in
    let begin : SameRing c shown = record {
      ring = refl;
      size = refl;
      ring_in = refl;
      ring_out = refl;
      makemovie = refl;
      event_nr = refl;
    } in
    let filled = then_same c shown _ begin (fill_movie-SameRing conf img shown) in
    let synced = either (img.shot == 0 && c.recording) c _ _ filled (
      either (img.shot == shots_put c.movie_last_shot) c shown _ begin
        (set_shot c shown none begin)) in
    by_shot c _ _ _ synced (set_shot c _ _ synced)

image_save_as_preview-SameRing :
    (conf : Conf) (img : Image) (c : Context) → SameRing c (image_save_as_preview conf img c)
unfolding image_save_as_preview
image_save_as_preview-SameRing conf img c =
    either (is_locate_preview conf.locate_motion_mode) c _ _
      (record {
        ring = refl;
        size = refl;
        ring_in = refl;
        ring_out = refl;
        makemovie = refl;
        event_nr = refl;
      })
      (record {
        ring = refl;
        size = refl;
        ring_in = refl;
        ring_out = refl;
        makemovie = refl;
        event_nr = refl;
      })

pub save_three_preview-SameRing :
    (a b d : Image) (c : Context) → SameRing c (save_three_preview a b d c)
unfolding save_three_preview
save_three_preview-SameRing a b d c = record {
  ring = refl;
  size = refl;
  ring_in = refl;
  ring_out = refl;
  makemovie = refl;
  event_nr = refl;
}

keep_preview-SameRing :
    (conf : Conf) (img : Image) (c : Context) → SameRing c (keep_preview conf img c)
unfolding keep_preview
keep_preview-SameRing conf img c =
    let best =
      either (conf.newimg_best && ltb c.preview_image.diffs img.diffs) c _ _
        (image_save_as_preview-SameRing conf img c) (same c) in
    either _ c _ _ (then_same c _ _ best (save_three_preview-SameRing _ _ _ _)) best

-- One picture is marked, and the place to be saved next moves on.
pub record SavedOne (c d : Context) : Type 0 where
  pub ring :
      d.image_ring
      ≡ set c.image_ring c.image_ring_out (mark_saved (image_at c.image_ring c.image_ring_out))
  pub size : d.image_ring_size ≡ c.image_ring_size
  pub ring_in : d.image_ring_in ≡ c.image_ring_in
  pub ring_out : d.image_ring_out ≡ next_place c.image_ring_size c.image_ring_out
  pub makemovie : d.makemovie ≡ c.makemovie
  pub event_nr : d.event_nr ≡ c.event_nr

pub save_image-SavedOne : (conf : Conf) (c : Context) → SavedOne c (save_image conf c)
unfolding save_image
save_image-SavedOne conf c =
    let img = image_at c.image_ring c.image_ring_out in
    let put =
      either (ltb img.shot conf.frame_limit) c _ _ (put_image-SameRing conf img c) (same c) in
    let p = if ltb img.shot conf.frame_limit then put_image conf img c else c in
    let marked = record p { image_ring = set p.image_ring p.image_ring_out (mark_saved img) } in
    let kept =
      either img.flags.motion marked _ _ (keep_preview-SameRing conf (mark_saved img) marked)
        (same marked) in
    record {
      ring = kept.ring ∙ ap₂ (λ ring out. set ring out (mark_saved img)) put.ring put.ring_out;
      size = kept.size ∙ put.size;
      ring_in = kept.ring_in ∙ put.ring_in;
      ring_out = ap₂ next_place (kept.size ∙ put.size) (kept.ring_out ∙ put.ring_out);
      makemovie = kept.makemovie ∙ put.makemovie;
      event_nr = kept.event_nr ∙ put.event_nr;
    }
