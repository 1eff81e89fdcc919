-- ===== src/Alg/Tests.antt =====
-- Runs of the routines of alg.c on small pictures.
use cy_prus.Prelude.{
  ℕ, zero, suc, ◌+◌, ◌≤◌, ◌<◌, ◌≡◌, refl, true, none, some, List, [], ◌∷◌, get_or, replicate,
  rounds, arith,
}
use cy_prus.Prelude.Int.{pos}
use cy_prus.Alg.Diff.{Frame, diff_standard, diff}
use cy_prus.Alg.Diff.Fast.{diff_misses_flash}
use cy_prus.Alg.Reference.{Scene, Reference, update_ref_frame, update_reference_frame, accept_timer}
use cy_prus.Alg.Reference.Update.{IsUpdate, update_reference_frame-IsUpdate}
use cy_prus.Alg.Reference.Static.{frames, static_accepted}
use cy_prus.Alg.Tune.{Thresholds}
use cy_prus.Alg.Morph.{dilate9}
use cy_prus.Alg.Morph.Maxima.{dilating, largest9}
use cy_prus.Alg.Morph.Rows.{IsDrawn}
use cy_prus.Alg.Morph.Pictures.{dilate9-IsDrawn}
use cy_prus.Alg.Smartmask.{Masks}
use cy_prus.Alg.Locate.{Coord, locate_center_size, in_motion}
use cy_prus.Alg.Locate.Placed.{Placed, pixels_counted, locate_center_size-Placed}

-- A picture of four by two pixels, and the next one.
abbrev before : List ℕ
before = 10 ∷ 10 ∷ 10 ∷ 10 ∷ 20 ∷ 20 ∷ 20 ∷ 20 ∷ []

abbrev after : List ℕ
after = 10 ∷ 90 ∷ 95 ∷ 10 ∷ 20 ∷ 20 ∷ 80 ∷ 22 ∷ []

abbrev frame : Frame
frame = record {
  motionsize = 8;
  noise = 4;
  smartmask_speed = 5;
  event_nr = 2;
  prev_event = 1;
  max_changes = 100;
  ref = before;
  mask = none;
  smartmask_final = replicate 8 255;
}

diff_standard_three : (diff_standard frame after (replicate 8 0)).diffs ≡ 3
unfolding diff_standard rounds
diff_standard_three = refl

-- A full flash: every pixel brightens by 252 or more.
abbrev dark : Frame
dark = record frame { smartmask_speed = 0; ref = 0 ∷ 1 ∷ 2 ∷ 3 ∷ []; motionsize = 4 }

abbrev flash : List ℕ
flash = 255 ∷ 254 ∷ 254 ∷ 255 ∷ []

flash_byte : (i : ℕ) → get_or flash i 0 < 256
flash_byte zero = omega arith
flash_byte (suc zero) = omega arith
flash_byte (suc (suc zero)) = omega arith
flash_byte (suc (suc (suc zero))) = omega arith
flash_byte (suc (suc (suc (suc i)))) = omega arith

flash_lem : (i : ℕ) → i < 4 → get_or dark.ref i 0 + 256 ≤ get_or flash i 0 + 4
flash_lem zero h = omega arith
flash_lem (suc zero) h = omega arith
flash_lem (suc (suc zero)) h = omega arith
flash_lem (suc (suc (suc zero))) h = omega arith
flash_lem (suc (suc (suc (suc i)))) h = absurd (omega arith)

flash_example :
    (diff true dark flash [] (replicate 4 0)
      ≡ record { out = []; smartmask_buffer = replicate 4 0; diffs = 0 })
    × ((diff_standard dark flash (replicate 4 0)).diffs ≡ 4)
flash_example =
    diff_misses_flash true dark flash [] (replicate 4 0) (omega arith) (omega arith) refl refl
      flash_byte flash_lem

-- A scene with an object at the second pixel, at five frames a second.
abbrev scene : Scene
scene = record {
  motionsize = 4;
  size = 6;
  lastrate = 5;
  noise = 4;
  image_virgin = 10 ∷ 200 ∷ 12 ∷ 13 ∷ 128 ∷ 128 ∷ [];
  smartmask_final = replicate 4 255;
  out = 0 ∷ 200 ∷ 0 ∷ 0 ∷ [];
}

abbrev reference : Reference
reference = record { ref = 10 ∷ 11 ∷ 12 ∷ 13 ∷ 128 ∷ 128 ∷ []; ref_dyn = replicate 4 0 }

reference_frame_example :
    IsUpdate scene reference (update_reference_frame scene update_ref_frame reference)
reference_frame_example = update_reference_frame-IsUpdate scene reference (omega arith, omega arith)

static_example :
    ((n : ℕ) → n ≤ accept_timer 5 + 1 → get_or (frames scene n reference).ref 1 0 ≡ 11)
    × (get_or (frames scene (accept_timer 5 + 2) reference).ref 1 0 ≡ 200)
    × (get_or (frames scene (accept_timer 5 + 2) reference).ref_dyn 1 0 ≡ 0)
static_example =
    static_accepted scene reference 1 (omega arith, omega arith)
      (record {
        inside = omega arith;
        fresh = refl;
        off = omega arith;
        unmasked = omega arith;
        moving = omega arith;
      })

before_byte : (i : ℕ) → get_or (10 ∷ 20 ∷ []) i 0 < 256
before_byte zero = omega arith
before_byte (suc zero) = omega arith
before_byte (suc (suc i)) = omega arith

no_mask : (m : List ℕ) → none ≡ some m → (i : ℕ) → get_or m i 0 < 256
no_mask m e = ground arith

abbrev thresholds : Thresholds
thresholds = record { threshold = 1500; diffs_last = replicate 256 7 }

-- A picture of four by three pixels.
abbrev picture : List ℕ
picture = 5 ∷ 0 ∷ 7 ∷ 8 ∷ 1 ∷ 2 ∷ 3 ∷ 4 ∷ 9 ∷ 9 ∷ 9 ∷ 9 ∷ []

dilate9_example : IsDrawn 4 3 0 picture (dilating largest9) (dilate9 picture 4 3 [])
dilate9_example = dilate9-IsDrawn picture 4 3 [] (omega arith) (omega arith)

abbrev masks : Masks
masks = record {
  smartmask = 30 ∷ 0 ∷ 100 ∷ 7 ∷ [];
  smartmask_final = replicate 4 255;
  smartmask_buffer = 0 ∷ 70 ∷ 500 ∷ 3 ∷ [];
}

-- The motion picture of four by four pixels, with motion in the middle.
abbrev motion_picture : List ℕ
motion_picture = 0 ∷ 0 ∷ 0 ∷ 0 ∷ 0 ∷ 9 ∷ 9 ∷ 0 ∷ 0 ∷ 9 ∷ 9 ∷ 0 ∷ 0 ∷ 0 ∷ 0 ∷ 0 ∷ []

locate_example :
    Placed 4 4
      (pixels_counted (in_motion 0 [] motion_picture) 4 4)
      (locate_center_size 0 [] motion_picture 4 4)
locate_example = locate_center_size-Placed 0 [] motion_picture 4 4 (omega arith) (omega arith)

abbrev box_in_picture : Coord
box_in_picture = record {
  x = 1;
  y = 1;
  width = pos 2;
  height = pos 2;
  minx = 0;
  maxx = 2;
  miny = 0;
  maxy = 2;
}

box_in_picture-Placed : Placed 4 4 4 box_in_picture
box_in_picture-Placed = record {
  center = omega arith;
  center_row = omega arith;
  right = omega arith;
  bottom = omega arith;
  left = omega arith;
  top = omega arith;
  even = (omega arith, omega arith, omega arith, omega arith);
  between = (omega arith, omega arith);
  around = λ h. (omega arith, omega arith);
}
