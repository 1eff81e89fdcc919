-- ===== src/Picture/Ppm.antt =====
-- The pixels that put_ppm_bgr24_file writes.
use cy_prus.Prelude.{
  ℕ, ◌+◌, ◌≤◌, ◌*◌, ◌/◌, ◌<◌, ◌≡◌, true, List, [], ◌∷◌, ◌++◌, length, get_or, Bytes,
}
use cy_prus.Prelude.Int.{pos}
use cy_prus.Conf.Number.{print_number}
use cy_prus.Picture.Colour.{IsColour}
use cy_prus.Picture.{rgb_of, Cursor}

-- The header of the file.
pub header_text : (width height : ℕ) → Bytes
header_text width height =
    (b'P' ∷ (b'6' ∷ (b'\n' ∷ [])))
    ++ (print_number (pos width)
        ++ (b' '
            ∷ (print_number (pos height) ++ (b'\n' ∷ (b'2' ∷ (b'5' ∷ (b'5' ∷ (b'\n' ∷ []))))))))

-- The buffer has every byte that is read: the last is in row height / 2 of the second chroma plane.
abbrev pub HasRoom : (image : List ℕ) (a height : ℕ) → Type 0
HasRoom image a height = 2 * a * height + 2 * a * height / 4 + (height / 2 * a + a) ≤ length image

module _ (image : List ℕ) (a height : ℕ) (head : Bytes) where
  abbrev start : ℕ
  start = length head

  -- The bytes of the pixel in row `y` and column `x`.
  abbrev pub pixel : ℕ → ℕ → Bytes
  pixel y x =
      rgb_of (get_or image (y * (2 * a) + x) 0)
        (get_or image (2 * a * height + ((y + 1) / 2 * a + x / 2)) 0)
        (get_or image (2 * a * height + 2 * a * height / 4 + ((y + 1) / 2 * a + x / 2)) 0)

  -- In row `y` at column `n`.
  record AtPixel (y n : ℕ) (c : Cursor) : Type 0 where
    pub inside : c.inside ≡ true
    pub headed : (i : ℕ) → i < start → get_or c.file i 0 ≡ get_or head i 0
    pub size : length c.file ≡ start + 3 * (y * (2 * a) + n)
    pub l_is : c.l ≡ y * (2 * a) + n
    pub u_is : c.u ≡ 2 * a * height + ((y + 1) / 2 * a + n / 2)
    pub v_is : c.v ≡ 2 * a * height + 2 * a * height / 4 + ((y + 1) / 2 * a + n / 2)
    pub written :
        (i x k : ℕ)
        → x < 2 * a
        → i * (2 * a) + x < y * (2 * a) + n
        → k < 3
        → get_or c.file (start + 3 * (i * (2 * a) + x) + k) 0 ≡ get_or (pixel i x) k 0

-- What put_ppm_bgr24_file writes: the header, and for each pixel three bytes with the colour of its
-- luma and of the chroma in row (y + 1) / 2 and column x / 2.
pub record IsPpmWith (head : Bytes) (image : List ℕ) (a height : ℕ) (file : Bytes) : Type 0 where
  pub size : length file ≡ length head + 3 * (height * (2 * a))
  pub header : (i : ℕ) → i < length head → get_or file i 0 ≡ get_or head i 0
  pub pixels :
      (y x : ℕ)
      → y < height
      → x < 2 * a
      → let at = length head + 3 * (y * (2 * a) + x) in
        let chroma = (y + 1) / 2 * a + x / 2 in
        IsColour
          (get_or image (y * (2 * a) + x) 0)
          (get_or image (2 * a * height + chroma) 0)
          (get_or image (2 * a * height + 2 * a * height / 4 + chroma) 0)
          (get_or file at 0)
          (get_or file (at + 1) 0)
          (get_or file (at + 2) 0)

abbrev pub IsPpm : (image : List ℕ) (a height : ℕ) (file : Bytes) → Type 0
IsPpm image a height = IsPpmWith (header_text (2 * a) height) image a height
