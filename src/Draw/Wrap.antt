-- ===== src/Draw/Wrap.antt =====
-- A line of text that is longer than the column it is told to end at: where it is drawn.
use cy_prus.Prelude.{
  ℕ, suc, ◌+◌, ◌-◌, ◌*◌, ◌/◌, ◌^◌, ◌<◌, ◌≤◌, ◌≡◌, refl, sym, ap, ap₂, ◌∙◌, Bool, false, leb, lt→ltb,
  List, arith, length, get_or, rounds, Bytes,
}
use mathlib.Core.Path.{subst}
use cy_prus.Draw.{DrawChar, Pen, draw_char, marks_of, start_of, fitting, u32, draw_textn}
use cy_prus.Draw.Glyph.{ink_of, draw_char-IsPainted}
use cy_prus.Draw.Line.{line-InLine}

le→ltb_not : (a b : ℕ) → b < a → leb a b ≡ false
le→ltb_not a b h = ground arith

module _ (startx width len scale : ℕ) (long : startx < len * (6 * scale)) where
  -- The unsigned subtraction wraps around.
  start_wraps :
      width < 2 ^ 31
      → width / 2 < startx
      → startx < width
      → len * (6 * scale) < 2 ^ 31
      → start_of startx width len scale ≡ startx + 2 ^ 32 - len * (6 * scale)
  unfolding start_of
  start_wraps small right inside short = rw (lt→ltb _ _ right) (omega arith)

  -- The test for the right edge wraps back.
  fitting_wraps :
      width < 2 ^ 31
      → startx < width
      → len * (6 * scale) < 2 ^ 31
      → fitting (startx + 2 ^ 32 - len * (6 * scale)) width len scale ≡ len
  unfolding fitting
  fitting_wraps small inside short =
      let same : len * 6 * scale ≡ len * (6 * scale) = grind arith in
      let back : u32 (startx + 2 ^ 32 - len * (6 * scale) + len * 6 * scale) ≡ startx =
        omega arith in
      rw back (rw (le→ltb_not width startx inside) refl)

-- What the line does to the memory that starts with the picture: nothing to its first 2 ^ 31 bytes,
-- and at `base` and behind the pixels of its last character, which `marks` gives, are set.
pub record IsFarBehind (marks : ℕ → ℕ) (memory : List ℕ) (base width scale : ℕ) (now : List ℕ)
    : Type 0 where
  pub size : length now ≡ length memory
  pub near : (i : ℕ) → i < 2 ^ 31 → get_or now i 0 ≡ get_or memory i 0
  pub far : 2 ^ 31 ≤ base
  pub black :
      (y x : ℕ)
      → y < 8 * scale
      → x < 7 * scale
      → marks (7 * scale * y + x) ≡ 1
      → get_or now (base + (width * y + x)) 0 ≡ 0
  pub white :
      (y x : ℕ)
      → y < 8 * scale
      → x < 7 * scale
      → marks (7 * scale * y + x) ≡ 2
      → get_or now (base + (width * y + x)) 0 ≡ 255

module _ (table : List DrawChar) (past : DrawChar) (text : Bytes) (factor : ℕ) where
  -- The loop over a line of `suc n` characters from a place so far behind.
  drawn_far :
      (memory : List ℕ) (width base n : ℕ)
      → 2 ^ 31 ≤ base
      → 7 * (factor + 1) ≤ width
      → base + suc n * (6 * (factor + 1)) + width * (8 * (factor + 1)) ≤ length memory
      → leb 128 (get_or text n 0) ≡ false
      → IsFarBehind
          (marks_of table past factor text n)
          memory
          (base + n * (6 * (factor + 1)))
          width
          (factor + 1)
          (rounds
            (λ pos.
              draw_char
                (marks_of table past factor text pos)
                (leb 128 (get_or text pos 0))
                width
                (factor + 1))
            (suc n)
            (record { image = memory; at = base; byte = 0 })).image
  unfolding rounds
  drawn_far memory width base n far fits room ascii =
      let scale : ℕ = factor + 1 in
      let marks = marks_of table past factor text in
      let negative = λ (pos : ℕ). leb 128 (get_or text pos 0) in
      let begin : Pen = record { image = memory; at = base; byte = 0 } in
      let more : suc n * (6 * scale) ≡ n * (6 * scale) + 6 * scale = grind arith in
      let all =
        line-InLine marks negative memory width scale base (suc n) (omega arith) fits
          (omega arith) in
      let l =
        line-InLine marks negative memory width scale base n (omega arith) fits
          (omega (arith, more)) in
      let old : Pen = rounds (λ pos. draw_char (marks pos) (negative pos) width scale) n begin in
      let p =
        draw_char-IsPainted (marks n) (negative n) width scale old fits (omega arith)
          (omega (arith, l.size, l.at_is, more)) in
      let place : (y x : ℕ) → base + n * (6 * scale) + (width * y + x) ≡ old.at + width * y + x =
        λ y x. omega (arith, l.at_is) in
      let inked =
        λ (y x mark : ℕ) (y_in : y < 8 * scale) (x_in : x < 7 * scale)
            (e : marks n (7 * scale * y + x) ≡ mark).
          ap (λ (k : ℕ). get_or (draw_char (marks n) (negative n) width scale old).image k 0)
            (place y x)
          ∙ p.inked y x y_in x_in
          ∙ ap₂ (λ (b : Bool) (m : ℕ). ink_of b m (get_or old.image (old.at + width * y + x) 0))
              ascii e in
      record {
        size = all.size;
        near = λ i lt. all.others i (λ y x y_in x_in e. absurd (omega arith));
        far = omega arith;
        black = λ y x y_in x_in e. inked y x 1 y_in x_in e;
        white = λ y x y_in x_in e. inked y x 2 y_in x_in e;
      }

  -- A line in the right half that is longer than the column it is told to end at: the unsigned
  -- subtraction wraps around and nothing is cut off. draw_textn changes none of the first 2 ^ 31
  -- bytes, which a picture has at most, and sets the pixels of the last character about 2 ^ 32
  -- bytes behind the place that was meant. `memory` is the memory from the picture on, taken to have
  -- these places; the last character is ASCII.
  pub draw_textn_wraps :
      (memory : List ℕ) (startx starty width n : ℕ)
      → startx < width
      → 7 * (factor + 1) ≤ width
      → width < 2 ^ 31
      → width / 2 < startx
      → startx < suc n * (6 * (factor + 1))
      → suc n * (6 * (factor + 1)) < 2 ^ 31
      → starty * width < 2 ^ 32
      → startx + 2 ^ 32 + starty * width + width * (8 * (factor + 1)) ≤ length memory
      → leb 128 (get_or text n 0) ≡ false
      → IsFarBehind
          (marks_of table past factor text n)
          memory
          (startx + 2 ^ 32 - 6 * (factor + 1) + starty * width)
          width
          (factor + 1)
          (draw_textn table past memory startx starty width text (suc n) factor)
  unfolding draw_textn
  draw_textn_wraps memory startx starty width n inside fits small right long short rows room ascii =
      let scale : ℕ = factor + 1 in
      let len : ℕ = suc n in
      let more : len * (6 * scale) ≡ n * (6 * scale) + 6 * scale = grind arith in
      let start = start_wraps startx width len scale long small right inside short in
      let all = fitting_wraps startx width len scale long small inside short in
      let base : ℕ = startx + 2 ^ 32 - len * (6 * scale) + starty * width in
      let last : base + n * (6 * scale) ≡ startx + 2 ^ 32 - 6 * scale + starty * width =
        omega (arith, more) in
      let place : startx + 2 ^ 32 - len * (6 * scale) + u32 (starty * width) ≡ base = omega arith in
      let drawn : (count at : ℕ) → List ℕ = λ count at.
        (rounds
          (λ pos.
            draw_char (marks_of table past factor text pos) (leb 128 (get_or text pos 0)) width
              scale)
          count (record { image = memory; at = at; byte = 0 })).image in
      let marks = marks_of table past factor text n in
      let same =
        ap₂ drawn (ap (λ (k : ℕ). fitting k width len scale) start ∙ all)
          (ap (λ (k : ℕ). k + u32 (starty * width)) start ∙ place) in
      subst (IsFarBehind marks memory (startx + 2 ^ 32 - 6 * scale + starty * width) width scale)
        (sym same)
        (subst (λ (k : ℕ). IsFarBehind marks memory k width scale (drawn len base)) last
          (drawn_far memory width base n (omega arith) fits (omega arith) ascii))
