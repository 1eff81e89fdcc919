-- ===== src/Motion/Tests.antt =====
-- Runs of the picture ring and of the event control.
use cy_prus.Prelude.{ℕ, ◌≡◌, refl, true, false, none, some, [], ◌∷◌, arith}
use cy_prus.Alg.Locate.{box}
use cy_prus.Motion.{no_flags, Image, Conf, Context, locate_off}
use cy_prus.Motion.Ring.{grey_image, image_ring_resize, next_image}
use cy_prus.Motion.Ring.Bounds.{WellFormed, Stored, next_image-Stored, image_ring_resize_strands}
use cy_prus.Motion.Save.{keep_preview}
use cy_prus.Motion.Save.Previews.{ThreePreviews, keep_preview-ThreePreviews}
use cy_prus.Motion.Control.{control}
use cy_prus.Motion.Control.Frame.{Controlled, control-Controlled}

abbrev conf : Conf
conf = record {
  width = 4;
  height = 4;
  motionsize = 16;
  threshold = 3;
  frame_limit = 5;
  post_capture = 2;
  event_gap = 60;
  max_movie_time = 0;
  minimum_motion_frames = 2;
  emulate_motion = false;
  stream_motion = false;
  setup_mode = false;
  motion_img = true;
  opens_movie = true;
  movie_fps = 2;
  newimg_first = false;
  newimg_best = false;
  newimg_center = true;
  locate_motion_mode = locate_off;
  locate_motion_style = box;
}

-- A picture with motion that waits to be saved.
abbrev waiting : (shot cent_dist : ℕ) → Image
waiting shot cent_dist = record (grey_image 2) {
  diffs = 9;
  shot = shot;
  cent_dist = cent_dist;
  flags = record no_flags { motion = true; save = true };
}

abbrev far_preview : Image
far_preview = record (grey_image 2) { cent_dist = 1000 }

-- Four places; the last picture was stored at 2, and 3 is the next to be saved.
abbrev context : Context
context = record {
  image_ring = waiting 1 20 ∷ waiting 2 10 ∷ waiting 3 30 ∷ waiting 0 40 ∷ [];
  image_ring_size = 4;
  image_ring_in = 2;
  image_ring_out = 3;
  preview_image = far_preview;
  preview_image2 = far_preview;
  preview_image3 = far_preview;
  out = [];
  event_nr = 2;
  prev_event = 1;
  eventtime = 100;
  lasttime = 100;
  postcap = 0;
  lightswitch_framecounter = 0;
  detecting_motion = false;
  makemovie = false;
  process_thisframe = true;
  movie_last_shot = none;
  recording = true;
  events = [];
}

context-WellFormed : WellFormed context
context-WellFormed = record { size = refl; in_room = omega arith; out_room = omega arith }

control_example : (d : Context) × ((control conf 0 100 context ≡ some d) × Controlled context d)
control_example = control-Controlled conf 0 100 context context-WellFormed

stored_example : Stored 101 0 context (next_image 101 0 context)
stored_example = next_image-Stored 101 0 context context-WellFormed

previews_example : ThreePreviews context (keep_preview conf (waiting 0 40) context)
previews_example =
    keep_preview-ThreePreviews conf (waiting 0 40) context context-WellFormed (omega arith) refl
      refl (omega arith)

-- The same ring with its last place stored, as it grows.
abbrev at_end : Context
at_end = record context { image_ring_in = 3; image_ring_out = 0 }

at_end-WellFormed : WellFormed at_end
at_end-WellFormed = record { size = refl; in_room = omega arith; out_room = omega arith }

strands_example : ¬ WellFormed (image_ring_resize 2 3 context)
strands_example =
    image_ring_resize_strands 2 3 context context-WellFormed (omega arith) refl (omega arith)
