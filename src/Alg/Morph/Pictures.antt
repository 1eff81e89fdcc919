-- ===== src/Alg/Morph/Pictures.antt =====
-- The four functions on a whole picture.
use cy_prus.Prelude.{ℕ, ◌*◌, ◌≤◌, List, length}
use cy_prus.Alg.Morph.{any_zero5, erode_line, dilate9_line, dilate5_line, erode5, dilate9, dilate5}
use cy_prus.Alg.Morph.Erode.{eroding, eroding5-IsLocal, erode_line-Implements}
use cy_prus.Alg.Morph.Maxima.{dilating, largest9, largest5, dilating9-IsLocal, dilating5-IsLocal}
use cy_prus.Alg.Morph.Dilate.{dilate9_line-Implements, dilate5_line-Implements}
use cy_prus.Alg.Morph.Rows.{IsDrawn, sweep-IsDrawn}

module _ (img : List ℕ) (width height : ℕ) (buffer : List ℕ) (wide : 2 ≤ width)
    (room : height * width ≤ length img) where
  -- erode5 does the same with the five pixels of a plus shape.
  pub erode5-IsDrawn :
      (flag : ℕ)
      → IsDrawn width height flag img (eroding any_zero5) (erode5 img width height buffer flag)
  unfolding erode5
  erode5-IsDrawn flag =
      sweep-IsDrawn width height flag img (eroding any_zero5) (erode_line width any_zero5) wide
        (eroding5-IsLocal width) (erode_line-Implements width any_zero5 wide) room buffer

  -- dilate9, on a picture at least two pixels wide: an inner pixel becomes the largest of the nine
  -- values around it before the call, with 0 above and below the picture; the two ends of each row
  -- become 0; nothing behind the picture changes; and the result is the number of inner pixels
  -- that are not 0 afterwards.
  pub dilate9-IsDrawn :
      IsDrawn width height 0 img (dilating largest9) (dilate9 img width height buffer)
  unfolding dilate9
  dilate9-IsDrawn =
      sweep-IsDrawn width height 0 img (dilating largest9) (dilate9_line width) wide
        (dilating9-IsLocal width) (dilate9_line-Implements width wide) room buffer

  -- dilate5 does the same with the five pixels of a plus shape.
  pub dilate5-IsDrawn :
      IsDrawn width height 0 img (dilating largest5) (dilate5 img width height buffer)
  unfolding dilate5
  dilate5-IsDrawn =
      sweep-IsDrawn width height 0 img (dilating largest5) (dilate5_line width) wide
        (dilating5-IsLocal width) (dilate5_line-Implements width wide) room buffer
