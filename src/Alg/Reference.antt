-- ===== src/Alg/Reference.antt =====
-- alg_update_reference_frame of board/motion/motion_modified/alg.c: the picture that new frames
-- are compared with. The pointers that walk over the buffers are an index.
pub mod Update
pub mod Static
use cy_prus.Prelude.{ℕ, ◌+◌, ◌*◌, ◌/◌, ◌<◌, if◌then◌else◌, ltb, ◌==◌, truth, ◌&&◌, abs_diff}
use cy_prus.Prelude.{List, ◌++◌, get_or, set, replicate, take, drop, rounds}

-- What the function reads: `size` is the byte count of a whole picture, of which `motionsize`
-- bytes are the luma part.
pub record Scene : Type 0 where
  pub motionsize : ℕ
  pub size : ℕ
  pub lastrate : ℕ
  pub noise : ℕ
  pub image_virgin : List ℕ
  pub smartmask_final : List ℕ
  pub out : List ℕ

-- What it updates: imgs->ref and imgs->ref_dyn.
pub record Reference : Type 0 where
  pub ref : List ℕ
  pub ref_dyn : List ℕ

-- UPDATE_REF_FRAME and RESET_REF_FRAME
pub data Action : Type 0 where
  update_ref_frame reset_ref_frame : Action

-- ACCEPT_STATIC_OBJECT_TIME and EXCLUDE_LEVEL_PERCENT
abbrev pub accept_static_object_time : ℕ
accept_static_object_time = 10

abbrev pub exclude_level_percent : ℕ
exclude_level_percent = 20

pub accept_timer : ℕ → ℕ
accept_timer lastrate =
    let timer = lastrate * accept_static_object_time in
    if ltb 5 lastrate then timer / (lastrate / 3) else timer

-- A pixel of the reference frame with its counter.
pub record Pixel : Type 0 where
  pub ref : ℕ
  pub dyn : ℕ

-- The body of the loop at one pixel: the value of the new picture, of the smart mask and of the
-- motion picture at its place.
unfoldable pub update_pixel : (timer threshold_ref : ℕ) → (virgin smartmask out : ℕ) → Pixel → Pixel
update_pixel timer threshold_ref virgin smartmask out p =
    if ltb threshold_ref (abs_diff p.ref virgin) && truth smartmask
    then if p.dyn == 0
      then record p { dyn = 1 }
      else if ltb timer p.dyn
      then record { ref = virgin; dyn = 0 }
      else if truth out
      then record p { dyn = p.dyn + 1 }
      else record { ref = (p.ref + virgin) / 2; dyn = 0 }
    else record { ref = virgin; dyn = 0 }

abbrev pub pixel_at : Reference → ℕ → Pixel
pixel_at r i = record { ref = get_or r.ref i 0; dyn = get_or r.ref_dyn i 0 }

abbrev pub threshold_ref : Scene → ℕ
threshold_ref c = c.noise * exclude_level_percent / 100

abbrev pub updated : Scene → ℕ → Pixel → Pixel
updated c i =
    update_pixel (accept_timer c.lastrate) (threshold_ref c) (get_or c.image_virgin i 0)
      (get_or c.smartmask_final i 0) (get_or c.out i 0)

pub update_step : Scene → ℕ → Reference → Reference
update_step c i r =
    let p = updated c i (pixel_at r i) in
    record { ref = set r.ref i p.ref; ref_dyn = set r.ref_dyn i p.dyn }

pub update_reference_frame : Scene → Action → Reference → Reference
unfolding update_step accept_timer
update_reference_frame c update_ref_frame r = rounds (update_step c) c.motionsize r
update_reference_frame c reset_ref_frame r = record {
  ref = take c.size c.image_virgin ++ drop c.size r.ref;
  ref_dyn = replicate c.motionsize 0 ++ drop c.motionsize r.ref_dyn;
}
