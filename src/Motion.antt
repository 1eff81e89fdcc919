-- ===== src/Motion.antt =====
-- board/motion/motion_modified/motion.c and motion.h: what a camera thread keeps about its ring of
-- pictures and its current event.
pub mod Format
pub mod Ring
pub mod Save
pub mod Control
mod Tests
use cy_prus.Prelude.{
  ℕ, suc, ◌+◌, Bool, true, false, ◌||◌, ◌&&◌, not, if◌then◌else◌, Option, none, some, List, [], ◌∷◌,
}
use cy_prus.Alg.Locate.{Coord, Style}

-- The bits IMAGE_MOTION .. IMAGE_POSTCAP of image_data.flags.
pub record Flags : Type 0 where
  pub motion : Bool
  pub trigger : Bool
  pub save : Bool
  pub saved : Bool
  pub precap : Bool
  pub postcap : Bool

abbrev pub no_flags : Flags
no_flags = record {
  motion = false;
  trigger = false;
  save = false;
  saved = false;
  precap = false;
  postcap = false;
}

-- struct image_data. timestamp_tm is the timestamp broken down, and has no field of its own.
pub record Image : Type 0 where
  pub image : List ℕ
  pub diffs : ℕ
  pub timestamp : ℕ
  pub shot : ℕ
  pub cent_dist : ℕ
  pub flags : Flags
  pub location : Coord
  pub total_labels : ℕ

-- The calls of `event`, with the picture that they pass on.
pub data Event : Type 0 where
  first_motion image_detected ffmpeg_put stream : List ℕ → Event
  preview_saved : (best before after : Image) → Event
  motion imagem_detected end_motion : Event

pub data LocateMode : Type 0 where
  locate_off locate_on locate_preview : LocateMode

-- The settings that are read here, of struct config and of struct context.
pub record Conf : Type 0 where
  pub width : ℕ
  pub height : ℕ
  pub motionsize : ℕ
  pub threshold : ℕ
  pub frame_limit : ℕ
  pub post_capture : ℕ
  pub event_gap : ℕ
  pub max_movie_time : ℕ
  pub minimum_motion_frames : ℕ
  pub emulate_motion : Bool
  pub stream_motion : Bool
  pub setup_mode : Bool
  pub motion_img : Bool
  -- Do the handlers of a new event open a movie?
  pub opens_movie : Bool
  pub movie_fps : ℕ
  -- The bits NEWIMG_FIRST, NEWIMG_BEST and NEWIMG_CENTER of new_img.
  pub newimg_first : Bool
  pub newimg_best : Bool
  pub newimg_center : Bool
  pub locate_motion_mode : LocateMode
  pub locate_motion_style : Style

-- The part of struct context that changes. `movie_last_shot` is -1 where it is `none`. `recording`
-- is the test `ffmpeg_output || (useextpipe && extpipe)`; `events` has the last event first.
pub record Context : Type 0 where
  pub image_ring : List Image
  pub image_ring_size : ℕ
  pub image_ring_in : ℕ
  pub image_ring_out : ℕ
  pub preview_image : Image
  pub preview_image2 : Image
  pub preview_image3 : Image
  pub out : List ℕ
  pub event_nr : ℕ
  pub prev_event : ℕ
  pub eventtime : ℕ
  pub lasttime : ℕ
  pub postcap : ℕ
  pub lightswitch_framecounter : ℕ
  pub detecting_motion : Bool
  pub makemovie : Bool
  pub process_thisframe : Bool
  pub movie_last_shot : Option ℕ
  pub recording : Bool
  pub events : List Event

-- event(cnt, …): the handlers are outside the model, and the call is recorded.
abbrev pub event : Event → Context → Context
event e c = record c { events = e ∷ c.events }
