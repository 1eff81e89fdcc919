-- ===== src/Motion/Save.antt =====
-- board/motion/motion_modified/motion.c: process_image_ring, which saves the flagged pictures of
-- the ring in order, and the previews that it keeps: save_three_preview, image_save_as_preview.
pub mod Kept
pub mod Outputs
pub mod First
pub mod Drain
pub mod Previews
use cy_prus.Prelude.{
  ℕ, zero, suc, ◌+◌, ◌-◌, ◌%◌, ◌^◌, Bool, true, false, not, ◌||◌, ◌&&◌, if◌then◌else◌, ltb, leb,
  ◌==◌,
}
use cy_prus.Prelude.{Option, none, some, List, [], ◌∷◌, set, rounds}
use cy_prus.Alg.Locate.{Style, box, redbox, cross, redcross, draw_location, draw_red_location}
use cy_prus.Motion.{
  Flags, Image, Event, LocateMode, locate_on, locate_preview, locate_off, Conf, Context, event,
  image_detected, ffmpeg_put,
}
use cy_prus.Motion.Ring.{image_at, next_place}

-- Each preview has its own buffer, so its picture is a copy.
pub save_three_preview : (img1 img2 img3 : Image) → Context → Context
save_three_preview img1 img2 img3 c = record c {
  preview_image = img1;
  preview_image2 = img2;
  preview_image3 = img3;
}

-- The drawing routine for the style, on the motion picture and on `new`.
pub draw_motion : Conf → (both : Bool) → Image → (new : List ℕ) → Context → List ℕ × List ℕ
draw_motion conf both img new c =
    let plain =
      draw_location img.location conf.width c.out new conf.locate_motion_style both
        c.process_thisframe in
    let red =
      draw_red_location img.location conf.width conf.motionsize c.out new conf.locate_motion_style
        both c.process_thisframe in
    elim conf.locate_motion_style [ box ↦ plain | cross ↦ plain | redbox ↦ red | redcross ↦ red ]

abbrev pub is_locate_preview : LocateMode → Bool
is_locate_preview locate_off = false
is_locate_preview locate_on = false
is_locate_preview locate_preview = true

-- A picture that is kept as the preview has diffs 1 at least, so that the preview is saved.
pub image_save_as_preview : Conf → Image → Context → Context
image_save_as_preview conf img c =
    let kept = record img { diffs = if img.diffs == 0 then 1 else img.diffs } in
    let drawn = draw_motion conf false img img.image c in
    if is_locate_preview conf.locate_motion_mode
    then record c { preview_image = record kept { image = drawn.1 }; out = drawn.0 }
    else record c { preview_image = kept }

-- The places idx2 and idx3, of the pictures before and after the one at idx1.
abbrev pub place_before : (size idx1 : ℕ) → ℕ
place_before size idx1 = if leb 3 size then if ltb 0 idx1 then idx1 - 1 else size - 1 else idx1

abbrev pub place_after : (size idx1 : ℕ) → ℕ
place_after size idx1 =
    if leb 3 size
    then if ltb idx1 (size - 1) then idx1 + 1 else 0
    else if size == 2
    then if idx1 == 1 then 0 else 1
    else idx1

-- movie_last_shot + 1
abbrev pub shots_put : Option ℕ → ℕ
shots_put none = 0
shots_put (some n) = n + 1

-- Filler frames keep up the frame rate: one for every shot that the last second is short of.
pub fill_movie : Conf → Image → Context → Context
fill_movie conf img c =
    let filled =
      rounds (λ _ d. event (ffmpeg_put img.image) d) (conf.movie_fps - shots_put c.movie_last_shot)
        c in
    elim c.movie_last_shot [
      | none ↦ record c { movie_last_shot = some 0 }
      | some _ ↦ record filled { movie_last_shot = some 0 }
    ]

-- The output of a picture: to a file and to the movie.
pub put_image : Conf → Image → Context → Context
put_image conf img c =
    let shown = event (image_detected img.image) c in
    let synced =
      if img.shot == 0 && c.recording
      then fill_movie conf img shown
      else if img.shot == shots_put c.movie_last_shot
      then shown
      else record shown { movie_last_shot = none } in
    elim synced.movie_last_shot [
      | none ↦ synced
      | some _ ↦ record synced { movie_last_shot = some img.shot }
    ]

-- The previews that a saved picture with motion becomes.
pub keep_preview : Conf → Image → Context → Context
keep_preview conf img c =
    let best =
      if conf.newimg_best && ltb c.preview_image.diffs img.diffs
      then image_save_as_preview conf img c
      else c in
    let size = best.image_ring_size in
    let idx1 = best.image_ring_out in
    if conf.newimg_center && ltb img.cent_dist best.preview_image.cent_dist
    then save_three_preview (image_at best.image_ring idx1)
        (image_at best.image_ring (place_before size idx1))
        (image_at best.image_ring (place_after size idx1)) best
    else best

abbrev pub mark_saved : Image → Image
mark_saved img = record img { flags = record img.flags { saved = true } }

-- One picture: the body of the loop, up to and with the step of image_ring_out.
pub save_image : Conf → Context → Context
save_image conf c =
    let img = image_at c.image_ring c.image_ring_out in
    let put = if ltb img.shot conf.frame_limit then put_image conf img c else c in
    let marked = record put {
      image_ring = set put.image_ring put.image_ring_out (mark_saved img);
    } in
    let kept = if img.flags.motion then keep_preview conf (mark_saved img) marked else marked in
    record kept { image_ring_out = next_place kept.image_ring_size kept.image_ring_out }

-- (unsigned int)-1
abbrev pub image_buffer_flush : ℕ
image_buffer_flush = 2 ^ 32 - 1

-- Is the picture flagged to be saved, and not saved yet?
abbrev pub to_be_saved : Image → Bool
to_be_saved img = img.flags.save && not img.flags.saved

-- What is left of max_images after a picture, and whether that ends the loop.
abbrev pub images_left : ℕ → ℕ
images_left m = if m == image_buffer_flush then m else (m + 2 ^ 32 - 1) % 2 ^ 32

-- The loop; `none` is a loop that has not ended after `fuel` pictures.
pub process_loop : (fuel : ℕ) → Conf → (max_images : ℕ) → Context → Option Context
process_loop zero conf max_images c = none
process_loop (suc fuel) conf max_images c =
    let saved = save_image conf c in
    let left = images_left max_images in
    let rest = process_loop fuel conf left saved in
    if not (to_be_saved (image_at c.image_ring c.image_ring_out))
    then some c
    else if left == 0 || saved.image_ring_out == saved.image_ring_in
    then some saved
    else rest

-- One picture for every place of the ring is enough.
pub process_image_ring : Conf → (max_images : ℕ) → Context → Option Context
process_image_ring conf max_images c = process_loop (suc c.image_ring_size) conf max_images c
