-- ===== src/Motion/Control.antt =====
-- board/motion/motion_modified/motion.c: motion_detected, and the section of motion_loop that
-- controls actions and events. Camera tracking and area_detect are not part of it here.
pub mod Trigger
pub mod Places
pub mod Frame
use cy_prus.Prelude.{
  ℕ, zero, suc, ◌+◌, ◌-◌, ◌*◌, ◌/◌, Bool, true, false, not, ◌||◌, ◌&&◌, if◌then◌else◌, ltb, leb,
  ◌==◌, truth, abs_diff,
}
use cy_prus.Prelude.{Option, none, some, List, [], ◌∷◌, map, set}
use cy_prus.Motion.{
  Flags, Image, Event, LocateMode, locate_on, locate_preview, locate_off, Conf, Context, event,
  first_motion, motion, stream, imagem_detected, end_motion, preview_saved,
}
use cy_prus.Motion.Ring.{image_at}
use cy_prus.Motion.Save.{save_three_preview, draw_motion, image_buffer_flush, process_image_ring}

-- current_image, which is the place of the ring that was stored last.
abbrev pub current : Context → Image
current c = image_at c.image_ring c.image_ring_in

abbrev pub with_current : Image → Context → Context
with_current img c = record c { image_ring = set c.image_ring c.image_ring_in img }

-- `flags |= …` on the current picture
abbrev pub with_flags : (Flags → Flags) → Context → Context
with_flags f c = let img = current c in with_current (record img { flags = f img.flags }) c

abbrev pub is_locate_on : LocateMode → Bool
is_locate_on locate_off = false
is_locate_on locate_on = true
is_locate_on locate_preview = false

-- A new event. The handlers of its first call forget the last shot and may open a movie.
pub start_event : Conf → Image → Context → Context
start_event conf img c =
    let began = record c { prev_event = c.event_nr; eventtime = img.timestamp } in
    let called = record (event (first_motion img.image) began) {
      movie_last_shot = none;
      recording = conf.opens_movie;
    } in
    if conf.newimg_first || conf.newimg_best || conf.newimg_center
    then save_three_preview img img img called
    else called

-- The location that is drawn on the picture with motion, and its distance to the center.
pub locate_motion : Conf → Context → Context
locate_motion conf c =
    let img = current c in
    let drawn = draw_motion conf true img img.image c in
    let located =
      if is_locate_on conf.locate_motion_mode
      then with_current (record img { image = drawn.1 }) (record c { out = drawn.0 })
      else c in
    let dist_x = abs_diff (conf.width / 2) img.location.x in
    let dist_y = abs_diff (conf.height / 2) img.location.y in
    if conf.newimg_center
    then with_current (record (current located) { cent_dist = dist_x * dist_x + dist_y * dist_y })
        located
    else located

-- The calls that a trigger makes.
pub trigger_events : Conf → Image → Context → Context
trigger_events conf img c =
    if img.flags.trigger
    then event motion (if not (c.event_nr == c.prev_event) then start_event conf img c else c)
    else c

-- The calls within the frame rate.
pub stream_events : Conf → Image → Context → Context
stream_events conf img c =
    let streamed =
      if conf.stream_motion && not conf.setup_mode && not (img.shot == 1)
      then event (stream img.image) c
      else c in
    if conf.motion_img then event imagem_detected streamed else streamed

pub call_events : Conf → Context → Context
call_events conf c =
    let img = current c in
    let triggered = trigger_events conf img c in
    if ltb img.shot conf.frame_limit then stream_events conf img triggered else triggered

pub motion_detected : Conf → Context → Context
motion_detected conf c = call_events conf (locate_motion conf c)

-- The place before `pos`.
abbrev pub previous_place : (size pos : ℕ) → ℕ
previous_place size pos = if pos == 0 then size - 1 else pos - 1

-- How many of the last `frames` pictures, from `pos` back, have motion.
pub motion_frames : (ring : List Image) → (size frames pos : ℕ) → ℕ
motion_frames ring size zero pos = 0
motion_frames ring size (suc frames) pos =
    (if (image_at ring pos).flags.motion then 1 else 0)
    + motion_frames ring size frames (previous_place size pos)

-- Is there motion in the picture?
pub flag_motion : Conf → Context → Context
flag_motion conf c =
    if ltb conf.threshold (current c).diffs
    then record (with_flags (λ f. record f { motion = true }) c) {
      lightswitch_framecounter = c.lightswitch_framecounter + 1;
    }
    else record c { lightswitch_framecounter = 0 }

abbrev pub flag_save : Image → Image
flag_save img = record img { flags = record (img.flags) { save = true } }

-- One more picture after the motion.
abbrev pub capture_after : Context → Context
capture_after c = record (with_flags (λ f. record f { postcap = true; save = true }) c) {
  postcap = c.postcap - 1;
}

-- Enough pictures with motion: the trigger.
abbrev pub trigger_save : Conf → Context → Context
trigger_save conf c =
    let flagged = with_flags (λ f. record f { trigger = true; save = true }) c in
    record flagged {
      detecting_motion = true;
      postcap = conf.post_capture;
      image_ring = map flag_save flagged.image_ring;
    }

abbrev pub emulate : Conf → Context → Context
emulate conf c =
    let flagged = with_flags (λ f. record f { trigger = true; save = true }) c in
    record flagged {
      detecting_motion = true;
      postcap = if c.recording then conf.post_capture else c.postcap;
    }

-- What becomes of the current picture.
pub take_action : Conf → (startup_frames : ℕ) → Context → Context
take_action conf startup_frames c =
    let started = startup_frames == 0 in
    let postcap = truth c.postcap && c.recording in
    let precap = with_flags (λ f. record f { precap = true }) c in
    let enough =
      leb conf.minimum_motion_frames
        (motion_frames c.image_ring c.image_ring_size conf.minimum_motion_frames c.image_ring_in) in
    if conf.emulate_motion && started
    then motion_detected conf (emulate conf c)
    else if (current c).flags.motion && started
    then motion_detected conf
        (if enough then trigger_save conf c else if postcap then capture_after c else precap)
    else if postcap
    then capture_after c
    else record precap {
      makemovie = conf.event_gap == 0 && c.detecting_motion || c.makemovie;
      detecting_motion = false;
    }

-- Is it time to end the event? The clock may run backwards: a difference below 0 is 0 here, and
-- both are less than what they are compared with.
pub times_up : Conf → (currenttime : ℕ) → Context → Bool
times_up conf currenttime c =
    leb conf.event_gap (currenttime - c.lasttime) && ltb 0 conf.event_gap || c.makemovie

-- The end of an event, after the ring was flushed.
pub end_event : Context → Context
end_event c =
    let shown =
      if truth c.preview_image.diffs
      then record (event (preview_saved c.preview_image c.preview_image2 c.preview_image3) c) {
        preview_image = record (c.preview_image) { diffs = 0 };
      }
      else c in
    record (event end_motion shown) {
      recording = false;
      makemovie = false;
      postcap = 0;
      event_nr = c.event_nr + 1;
      lightswitch_framecounter = 0;
    }

-- The times that are kept, and the movie that became too long.
pub note_times : Conf → (currenttime : ℕ) → Context → Context
note_times conf currenttime c =
    let long =
      truth conf.max_movie_time
      && c.event_nr == c.prev_event
      && leb conf.max_movie_time (currenttime - c.eventtime) in
    record c {
      lasttime = if (current c).flags.save then (current c).timestamp else c.lasttime;
      makemovie = long || c.makemovie;
    }

-- The whole section, for one picture.
pub control : Conf → (startup_frames currenttime : ℕ) → Context → Option Context
control conf startup_frames currenttime c =
    let noted =
      note_times conf currenttime (take_action conf startup_frames (flag_motion conf c)) in
    if times_up conf currenttime noted && (noted.event_nr == noted.prev_event || noted.makemovie)
    then elim (process_image_ring conf image_buffer_flush noted) [
      | none ↦ none
      | some flushed ↦ process_image_ring conf 2 (end_event flushed)
    ]
    else process_image_ring conf 2 noted
