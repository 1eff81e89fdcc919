-- ===== src/Motion/Ring.antt =====
-- board/motion/motion_modified/motion.c: the ring of pictures. image_ring_resize,
-- image_ring_destroy, and the part of motion_loop that moves on to the next place.
pub mod Bounds
use cy_prus.Prelude.{
  ℕ, zero, suc, ◌+◌, ◌-◌, ◌≡◌, ◌<◌, Bool, true, false, not, ◌||◌, ◌&&◌, if◌then◌else◌, ltb, ◌==◌,
}
use cy_prus.Prelude.{List, [], ◌++◌, length, get_or, set, take, replicate}
use cy_prus.Prelude.Int.{pos}
use cy_prus.Alg.Locate.{Coord}
use cy_prus.Motion.{Flags, no_flags, Image, Context}

abbrev pub no_location : Coord
no_location = record {
  x = 0;
  y = 0;
  width = pos 0;
  height = pos 0;
  minx = 0;
  maxx = 0;
  miny = 0;
  maxy = 0;
}

-- A place of the ring before anything is stored in it.
abbrev pub grey_image : (bytes : ℕ) → Image
grey_image bytes = record {
  image = replicate bytes 128;
  diffs = 0;
  timestamp = 0;
  shot = 0;
  cent_dist = 0;
  flags = no_flags;
  location = no_location;
  total_labels = 0;
}

-- A read outside the ring has no meaning; it gives an empty picture here.
abbrev pub image_at : List Image → ℕ → Image
image_at ring i = get_or ring i (grey_image 0)

-- mymalloc clears what it returns, so the new places have every field 0 beside their picture.
pub image_ring_resize : (bytes new_size : ℕ) → Context → Context
image_ring_resize bytes new_size c =
    let smallest = if ltb new_size c.image_ring_size then new_size else c.image_ring_size in
    -- image_ring_in is an int, and equals -1 never
    let last = not (smallest == 0) && c.image_ring_in + 1 == smallest in
    if not (c.event_nr == c.prev_event) && (last || smallest == 0)
    then record c {
      image_ring = take smallest c.image_ring ++ replicate (new_size - smallest) (grey_image bytes);
      image_ring_size = new_size;
    }
    else c

pub image_ring_destroy : Context → Context
image_ring_destroy c = record c { image_ring = []; image_ring_size = 0 }

-- `if (++i >= size) i = 0`
abbrev pub next_place : (size i : ℕ) → ℕ
next_place size i = if ltb (suc i) size then suc i else 0

-- The picture that is stored next, cleared; or with what the one before it holds when the frame is
-- not processed.
abbrev pub prepared : (process_thisframe : Bool) → (old now : Image) → Image
prepared true old now = record now {
  diffs = 0;
  flags = no_flags;
  cent_dist = 0;
  location = no_location;
  total_labels = 0;
}
prepared false old now = record old { image = now.image }

-- motion_loop, from `ring_buffer_in is pointing to current pos` to the shot number that it stores.
-- The picture before is the one at the old place.
pub next_image : (currenttime shots : ℕ) → Context → Context
next_image currenttime shots c =
    let size = c.image_ring_size in
    let ring_in = next_place size c.image_ring_in in
    let ring_out =
      if ring_in == c.image_ring_out then next_place size c.image_ring_out else c.image_ring_out in
    let old = image_at c.image_ring c.image_ring_in in
    let now = prepared c.process_thisframe old (image_at c.image_ring ring_in) in
    record c {
      image_ring = set c.image_ring ring_in (record now { timestamp = currenttime; shot = shots });
      image_ring_in = ring_in;
      image_ring_out = ring_out;
    }
