-- ===== src/Rotate/Init.antt =====
-- rotate_init: which configured angles are taken, and what it leaves for rotate_map.
use cy_prus.Prelude.{
  ℕ, suc, ◌*◌, ◌/◌, ◌%◌, ◌≡◌, ◌≢◌, refl, Bool, true, false, ◌==◌, ◌||◌, none, some, List, arith,
}
use cy_prus.Prelude.Int.{pos, negsuc, mod_by, ◌≤ℤ◌}
use cy_prus.Rotate.{Palette, yuv420p, grey, other, Setup, rotate_init, rotate_map}

-- The bytes of a picture of the palette.
abbrev pub picture_size : Palette → ℕ → ℕ → ℕ
picture_size yuv420p w h = w * h * 3 / 2
picture_size grey w h = w * h
picture_size other w h = 0

-- A quarter turn, one way or the other.
abbrev pub is_quarter : ℕ → Bool
is_quarter n = n % 360 == 90 || n % 360 == 270

-- An angle of 0 or more, for a supported palette: what is no multiple of 90 degrees turns rotation
-- off, also in the configuration; any other is taken modulo 360. The output sides are the capture
-- sides, changed over for a quarter turn, and a temporary buffer of the size of a picture is there
-- exactly for a quarter turn.
pub record IsReady (n : ℕ) (type : Palette) (width height : ℕ) (s : Setup) : Type 0 where
  pub refused : n % 90 ≢ 0 → (s.degrees ≡ pos 0) × (s.rotate_deg ≡ pos 0)
  pub taken : n % 90 ≡ 0 → (s.degrees ≡ pos (n % 360)) × (s.rotate_deg ≡ pos n)
  pub captured : (s.cap_width ≡ width) × (s.cap_height ≡ height)
  pub turned :
      is_quarter n ≡ true
      → (s.width ≡ height)
        × (s.height ≡ width)
        × (s.temp_size ≡ some (picture_size type height width))
  pub upright :
      is_quarter n ≡ false → (s.width ≡ width) × (s.height ≡ height) × (s.temp_size ≡ none)

-- rotate_init with an angle of 0 or more and a palette that can be rotated: an angle that is no
-- multiple of 90 degrees turns rotation off; any other is taken modulo 360; the output sides change
-- over, and there is a temporary buffer for a picture, exactly for a quarter turn.
pub rotate_init-IsReady :
    (n : ℕ) (type : Palette) (width height : ℕ)
    → type ≢ other
    → IsReady n type width height (rotate_init (pos n) type width height)
unfolding rotate_init
rotate_init-IsReady n yuv420p width height known = record {
  refused = λ h. ground arith;
  taken = λ h. ground arith;
  captured = ground arith;
  turned = λ h. ground arith;
  upright = λ h. ground arith;
}
rotate_init-IsReady n grey width height known = record {
  refused = λ h. ground arith;
  taken = λ h. ground arith;
  captured = ground arith;
  turned = λ h. ground arith;
  upright = λ h. ground arith;
}
rotate_init-IsReady n other width height known = absurd (known refl)

-- A negative angle that is no multiple of 360 degrees is never refused: it stays negative, no
-- temporary buffer is allocated, and every rotation of a picture fails.
pub rotate_init_negative :
    (n : ℕ) (type : Palette) (width height : ℕ) (map temp : List ℕ)
    → suc n % 360 ≢ 0
    → type ≢ other
    → let s = rotate_init (negsuc n) type width height in
      (s.degrees ≡ mod_by (negsuc n) 360)
      × (s.degrees ≤ℤ negsuc 0)
      × (s.temp_size ≡ none)
      × (rotate_map s type map temp ≡ none)
unfolding rotate_init rotate_map
rotate_init_negative n yuv420p width height map temp whole known = ground arith
rotate_init_negative n grey width height map temp whole known = ground arith
rotate_init_negative n other width height map temp whole known = absurd (known refl)

-- For a palette that cannot be rotated rotation is turned off, but a quarter turn leaves the
-- sides changed over.
pub rotate_init_unsupported :
    (n width height : ℕ)
    → n % 90 ≡ 0
    → is_quarter n ≡ true
    → let s = rotate_init (pos n) other width height in
      (s.degrees ≡ pos 0) × (s.width ≡ height) × (s.height ≡ width) × (s.temp_size ≡ none)
unfolding rotate_init
rotate_init_unsupported n width height whole quarter = ground arith
