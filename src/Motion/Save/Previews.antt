-- ===== src/Motion/Save/Previews.antt =====
-- The three pictures that become the preview of an event.
use cy_prus.Prelude.{ℕ, ◌≤◌, ◌<◌, ◌≡◌, ◌≢◌, refl, true, false, arith, lt→ltb}
use cy_prus.Motion.{Image, Context, Conf}
use cy_prus.Motion.Ring.{image_at, next_place}
use cy_prus.Motion.Ring.Bounds.{WellFormed}
use cy_prus.Motion.Save.{save_three_preview, place_before, place_after, keep_preview}

-- The previews of `now` are the picture of `c` at image_ring_out, its neighbour before it and its
-- neighbour after it, at three different places of the ring.
pub record ThreePreviews (c now : Context) : Type 0 where
  pub before : ℕ
  pub after : ℕ
  pub room : (before < c.image_ring_size) × (after < c.image_ring_size)
  pub neighbours :
      (next_place c.image_ring_size before ≡ c.image_ring_out)
      × (next_place c.image_ring_size c.image_ring_out ≡ after)
  pub different : (before ≢ c.image_ring_out) × (after ≢ c.image_ring_out) × (before ≢ after)
  pub preview : now.preview_image ≡ image_at c.image_ring c.image_ring_out
  pub preview2 : now.preview_image2 ≡ image_at c.image_ring before
  pub preview3 : now.preview_image3 ≡ image_at c.image_ring after

-- With output_pictures=center, a picture with its motion nearer to the center than that of the
-- preview so far becomes the preview, with its two neighbours in the ring. The ring is well-formed
-- and has three places at least, as motion_loop makes it.
pub keep_preview-ThreePreviews :
    (conf : Conf) (img : Image) (c : Context)
    → WellFormed c
    → 3 ≤ c.image_ring_size
    → conf.newimg_best ≡ false
    → conf.newimg_center ≡ true
    → img.cent_dist < c.preview_image.cent_dist
    → ThreePreviews c (keep_preview conf img c)
unfolding keep_preview save_three_preview
keep_preview-ThreePreviews conf img c w three best center nearer =
    let out_room = w.out_room in
    rw (best, center, lt→ltb _ _ nearer)
      (record {
        before = place_before c.image_ring_size c.image_ring_out;
        after = place_after c.image_ring_size c.image_ring_out;
        room = (ground arith, ground arith);
        neighbours = (ground arith, ground arith);
        different = (ground arith, ground arith, ground arith);
        preview = refl;
        preview2 = refl;
        preview3 = refl;
      })
