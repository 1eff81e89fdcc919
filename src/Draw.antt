-- ===== src/Draw.antt =====
-- Text on pictures (board/motion/motion_modified/draw.c): draw_textn paints one line and draw_text
-- the lines of a text, with the characters that initialize_chars makes. Pointers are indices, and
-- unsigned numbers of 32 bits wrap around.
pub mod Glyph
pub mod Line
pub mod Wrap
mod Tests
use cy_prus.Prelude.{
  ℕ, zero, suc, ◌+◌, ◌-◌, ◌*◌, ◌/◌, ◌%◌, ◌^◌, Bool, true, false, ◌==◌, ltb, leb, if◌then◌else◌,
  Option, none, some, List, [], ◌∷◌, ◌++◌, length, get_or, set, take, drop, rounds, Bytes, strstr,
  codes,
}

-- An entry of draw_table: a character and its picture by row and column.
pub record DrawChar : Type 0 where
  pub ascii : ℕ
  pub pix : ℕ → ℕ → ℕ

-- `[big_]char_arr_ptr[c]` after initialize_chars: the last entry of the table for `c`, and the
-- first entry of all where there is none.
unfoldable pub find_char : DrawChar → List DrawChar → ℕ → DrawChar
find_char found [] c = found
find_char found (entry ∷ table) c = find_char (if entry.ascii == c then entry else found) table c

abbrev blank : DrawChar
blank = record { ascii = b' '; pix = λ y x. 0 }

abbrev first_char : List DrawChar → DrawChar
first_char [] = blank
first_char (entry ∷ _) = entry

-- The array has 127 places; `past` is what the memory behind it points to.
unfoldable pub char_ptr : List DrawChar → (past : DrawChar) → ℕ → DrawChar
char_ptr table past c = if ltb c 127 then find_char (first_char table) table c else past

-- The byte at `k` of the small picture, or of the one in big_table, where each pixel is doubled.
unfoldable pub glyph_byte : DrawChar → ℕ → ℕ → ℕ
glyph_byte entry factor k =
    if factor == 0 then entry.pix (k / 7) (k % 7) else entry.pix (k / 14 / 2) (k % 14 / 2)

-- The picture, `image_ptr`, and how far `char_ptr` has moved.
pub record Pen : Type 0 where
  pub image : List ℕ
  pub at : ℕ
  pub byte : ℕ

abbrev pub ink : ℕ → ℕ → ℕ
ink mark old = if mark == 1 then 0 else if mark == 2 then 255 else old

-- One pixel; a character that is negative as a `char` leaves the picture.
unfoldable pub draw_pixel : (ℕ → ℕ) → Bool → Pen → Pen
draw_pixel marks negative pen = record {
  image =
      if negative
      then pen.image
      else if marks pen.byte == 1
      then set pen.image pen.at 0
      else if marks pen.byte == 2
      then set pen.image pen.at 255
      else pen.image;
  at = pen.at + 1;
  byte = pen.byte + 1;
}

-- A row of pixels, and `line_offset`.
unfoldable pub draw_row : (ℕ → ℕ) → Bool → ℕ → ℕ → Pen → Pen
draw_row marks negative width scale pen =
    let pen' = rounds (λ x. draw_pixel marks negative) (7 * scale) pen in
    record pen' { at = pen'.at + width - 7 * scale }

-- The rows of a character, and `next_char_offs`.
unfoldable pub draw_char : (ℕ → ℕ) → Bool → ℕ → ℕ → Pen → Pen
draw_char marks negative width scale pen =
    let pen' =
      rounds (λ y. draw_row marks negative width scale) (8 * scale) (record pen { byte = 0 }) in
    record pen' { at = pen'.at - (width * (8 * scale) - 6 * scale) }

abbrev pub u32 : ℕ → ℕ
u32 n = n % 2 ^ 32

-- Where the line starts: a line in the right half ends where it was told to start.
unfoldable pub start_of : ℕ → ℕ → ℕ → ℕ → ℕ
start_of startx width len scale =
    if ltb (width / 2) startx then u32 (startx + 2 ^ 32 - u32 (len * (6 * scale))) else startx

-- How many characters are drawn.
unfoldable pub fitting : ℕ → ℕ → ℕ → ℕ → ℕ
fitting startx width len scale =
    if leb width (u32 (startx + len * 6 * scale))
    then u32 (width + 2 ^ 33 - startx - 1) / (6 * scale)
    else len

module _ (table : List DrawChar) (past : DrawChar) where
  abbrev pub marks_of : ℕ → Bytes → ℕ → ℕ → ℕ
  marks_of factor text pos k = glyph_byte (char_ptr table past (get_or text pos 0)) factor k

  -- The first `len` characters of `text`.
  unfoldable pub draw_textn : List ℕ → ℕ → ℕ → ℕ → Bytes → ℕ → ℕ → List ℕ
  draw_textn image startx starty width text len factor =
      let scale = factor + 1 in
      let startx' = start_of startx width len scale in
      (rounds
        (λ pos. draw_char (marks_of factor text pos) (leb 128 (get_or text pos 0)) width scale)
        (fitting startx' width len scale)
        (record { image = image; at = startx' + u32 (starty * width); byte = 0 })).image

  -- `\n`, written as two characters in the text.
  abbrev new_line : Bytes
  new_line = b'\\' ∷ (b'n' ∷ [])

  abbrev pub count_from : (Bytes → ℕ) → Bytes → Option ℕ → ℕ
  count_from loop end none = 0
  count_from loop end (some l) = suc (loop (drop (l + 2) end))

  unfoldable pub count_newlines : ℕ → Bytes → ℕ
  count_newlines zero end = 0
  count_newlines (suc fuel) end = count_from (count_newlines fuel) end (strstr new_line end)

  -- The lines up to the last, and the last.
  abbrev pub draw_from :
      (Bytes → ℕ → List ℕ → List ℕ) → ℕ → ℕ → ℕ → Bytes → ℕ → List ℕ → Option ℕ → List ℕ
  draw_from loop startx width factor begin starty image none =
      draw_textn image startx starty width begin (length begin) factor
  draw_from loop startx width factor begin starty image (some l) =
      loop (drop (l + 2) begin) (u32 (starty + (factor + 1) * 9))
        (draw_textn image startx starty width begin l factor)

  unfoldable pub draw_lines : ℕ → ℕ → ℕ → ℕ → Bytes → ℕ → List ℕ → List ℕ
  draw_lines zero startx width factor begin starty image = image
  draw_lines (suc fuel) startx width factor begin starty image =
      draw_from (draw_lines fuel startx width factor) startx width factor begin starty image
        (strstr new_line begin)

  -- Each line takes at least two bytes of the text, so that the fuel suffices.
  unfoldable pub draw_text : List ℕ → ℕ → ℕ → ℕ → Bytes → ℕ → List ℕ
  draw_text image startx starty width text factor =
      draw_lines (length text + 1) startx width factor text
        (u32 (starty + 2 ^ 32 - u32 ((factor + 1) * 9 * count_newlines (length text + 1) text)))
        image
