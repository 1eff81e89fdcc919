-- ===== src/Picture/Tests.antt =====
-- Runs and instances for pictures.
use cy_prus.Prelude.{ℕ, ◌≡◌, refl, List, [], ◌∷◌, none, rounds}
use cy_prus.Picture.{rgb_of, ppm_pixel, ppm_row, put_ppm_bgr24_file}

white_pixel : rgb_of 235 128 128 ≡ 254 ∷ (254 ∷ (254 ∷ []))
unfolding rgb_of
white_pixel = refl

-- Two columns and two rows, with a masked pixel.
abbrev mask : List ℕ
mask = 255 ∷ 0 ∷ 255 ∷ 255 ∷ []

abbrev planes : List ℕ
planes = 10 ∷ 20 ∷ 30 ∷ 40 ∷ 100 ∷ 110 ∷ []

-- The same planes, and the row of chroma behind them that is read.
abbrev buffer : List ℕ
buffer = 10 ∷ 20 ∷ 30 ∷ 40 ∷ 100 ∷ 110 ∷ 120 ∷ []

-- With no room behind the planes the last row reads outside.
outside : put_ppm_bgr24_file planes 2 2 ≡ none
unfolding put_ppm_bgr24_file rounds ppm_row ppm_pixel
outside = refl
