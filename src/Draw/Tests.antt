-- ===== src/Draw/Tests.antt =====
-- Runs and instances for text on pictures.
use cy_prus.Prelude.{
  refl, ◌^◌, ◌≡◌, false, [], ◌∷◌, arith, codes, replicate, ◌+◌, ◌-◌, ◌*◌, ℕ, List, Bytes, length,
  length-replicate,
}
use cy_prus.Draw.{DrawChar, Pen, draw_char, marks_of, draw_textn, start_of, fitting}
use cy_prus.Draw.Glyph.{IsPainted, draw_char-IsPainted}
use cy_prus.Draw.Line.{IsInRect, draw_textn-IsInRect}
use cy_prus.Draw.Wrap.{IsFarBehind, draw_textn_wraps}

-- A character of white pixels.
abbrev white : DrawChar
white = record { ascii = b'a'; pix = λ y x. 2 }

abbrev grey_pen : Pen
grey_pen = record { image = replicate 160 128; at = 3; byte = 0 }

glyph_example :
    IsPainted (λ k. 2) false 20 1 grey_pen (omega arith) (draw_char (λ k. 2) false 20 1 grey_pen)
glyph_example =
    draw_char-IsPainted (λ k. 2) false 20 1 grey_pen (omega arith) (omega arith) (omega arith)

clipped_example :
    IsInRect
      (replicate 200 128)
      (start_of 2 20 2 1)
      1
      20
      1
      (fitting (start_of 2 20 2 1) 20 2 1)
      (draw_textn (white ∷ []) white (replicate 200 128) 2 1 20 (codes "aa") 2 0)
clipped_example =
    draw_textn-IsInRect (white ∷ []) white (replicate 200 128) 2 1 20 (codes "aa") 2 0 (omega arith)
      (omega arith) (omega arith) (λ h. absurd (omega arith)) (omega arith) (omega arith)
      (omega arith)

-- A memory with a picture of 320 columns, and a text of 60 characters that is to end at column 310.
unfoldable bytes : ℕ → List ℕ
bytes n = replicate n 128

length-bytes : (n : ℕ) → length (bytes n) ≡ n
unfolding bytes
length-bytes n = length-replicate n 128

abbrev sixty : Bytes
sixty = replicate 60 b'a'

wraps_example :
    IsFarBehind
      (marks_of (white ∷ []) white 0 sixty 59)
      (bytes (2 ^ 33))
      (310 + 2 ^ 32 - 6 * (0 + 1) + 10 * 320)
      320
      1
      (draw_textn (white ∷ []) white (bytes (2 ^ 33)) 310 10 320 sixty 60 0)
wraps_example =
    draw_textn_wraps (white ∷ []) white sixty 0 (bytes (2 ^ 33)) 310 10 320 59 (omega arith)
      (omega arith) (omega arith) (omega arith) (omega arith) (omega arith) (omega arith)
      (omega (arith, length-bytes (2 ^ 33))) refl
