-- ===== src/Draw/Glyph.antt =====
-- A character paints the pixels of its picture and no other.
use cy_prus.Prelude.{
  ℕ, zero, suc, ◌+◌, ◌-◌, ◌*◌, ◌<◌, ◌≤◌, ◌≡◌, ◌≢◌, ◌⊎◌, inl, inr, refl, sym, ap, ap₂, ◌∙◌, Bool,
  if◌then◌else◌, arith, length, get_or, length-set, get_or-set_self, get_or-set_ne, rounds,
  rounds_inv, ℕ_discrete, dec_lt, dec_le,
}
use cy_prus.Draw.{Pen, ink, draw_pixel, draw_row, draw_char}

abbrev pub ink_of : Bool → ℕ → ℕ → ℕ
ink_of negative mark old = if negative then old else ink mark old

draw_pixel-at :
    (marks : ℕ → ℕ) (negative : Bool) (pen : Pen)
    → pen.at < length pen.image
    → get_or (draw_pixel marks negative pen).image pen.at 0
      ≡ ink_of negative (marks pen.byte) (get_or pen.image pen.at 0)
unfolding draw_pixel
draw_pixel-at marks negative pen h =
    ground (arith, get_or-set_self pen.image pen.at 0 0 h, get_or-set_self pen.image pen.at 255 0 h)

draw_pixel-ne :
    (marks : ℕ → ℕ) (negative : Bool) (pen : Pen) (i : ℕ)
    → pen.at ≢ i
    → get_or (draw_pixel marks negative pen).image i 0 ≡ get_or pen.image i 0
unfolding draw_pixel
draw_pixel-ne marks negative pen i ne =
    ground
      (arith, get_or-set_ne pen.image pen.at i 0 0 ne, get_or-set_ne pen.image pen.at i 255 0 ne)

length-draw_pixel :
    (marks : ℕ → ℕ) (negative : Bool) (pen : Pen)
    → length (draw_pixel marks negative pen).image ≡ length pen.image
unfolding draw_pixel
length-draw_pixel marks negative pen =
    ground (arith, length-set pen.image pen.at 0, length-set pen.image pen.at 255)

draw_pixel_moves :
    (marks : ℕ → ℕ) (negative : Bool) (pen : Pen)
    → ((draw_pixel marks negative pen).at ≡ pen.at + 1)
      × ((draw_pixel marks negative pen).byte ≡ pen.byte + 1)
unfolding draw_pixel
draw_pixel_moves marks negative pen = (refl, refl)

module _ (marks : ℕ → ℕ) (negative : Bool) (old : Pen) where
  -- After `n` pixels of a row.
  pub record InRow (n : ℕ) (now : Pen) : Type 0 where
    pub size : length now.image ≡ length old.image
    pub at_is : now.at ≡ old.at + n
    pub byte_is : now.byte ≡ old.byte + n
    pub inked :
        (j : ℕ)
        → j < n
        → get_or now.image (old.at + j) 0
          ≡ ink_of negative (marks (old.byte + j)) (get_or old.image (old.at + j) 0)
    pub others :
        (i : ℕ) → (i < old.at) ⊎ (old.at + n ≤ i) → get_or now.image i 0 ≡ get_or old.image i 0

  outside : (n i : ℕ) → (i < old.at) ⊎ (old.at + suc n ≤ i) → i ≡ old.at + n → ⊥
  outside n i far e = ground arith

  nearer : (n i : ℕ) → (i < old.at) ⊎ (old.at + suc n ≤ i) → (i < old.at) ⊎ (old.at + n ≤ i)
  nearer n i (inl h) = inl h
  nearer n i (inr h) = inr (omega arith)

  InRow-step :
      (n : ℕ) (now : Pen)
      → old.at + n < length old.image
      → InRow n now
      → InRow (suc n) (draw_pixel marks negative now)
  InRow-step n now room r =
      let moved = draw_pixel_moves marks negative now in
      let here : get_or (draw_pixel marks negative now).image (old.at + n) 0
          ≡ ink_of negative (marks (old.byte + n)) (get_or old.image (old.at + n) 0) =
        rw (sym r.at_is) (
          draw_pixel-at marks negative now (omega (arith, r.size, r.at_is))
          ∙ ap (λ (k : ℕ). ink_of negative (marks k) (get_or now.image now.at 0)) r.byte_is)
        ∙ ap (ink_of negative (marks (old.byte + n))) (
            ap (λ (k : ℕ). get_or now.image k 0) r.at_is
            ∙ r.others (old.at + n) (inr (omega arith))) in
      record {
        size = length-draw_pixel marks negative now ∙ r.size;
        at_is = omega (arith, moved.0, r.at_is);
        byte_is = omega (arith, moved.1, r.byte_is);
        inked = λ j lt. elim (ℕ_discrete n j) [
          | yes e ↦ rw (sym e) here
          | no ne ↦
              draw_pixel-ne marks negative now (old.at + j) (λ e. ne (omega (arith, r.at_is)))
              ∙ r.inked j (omega arith)
        ];
        others = λ i far.
            draw_pixel-ne marks negative now i (λ e. outside n i far (omega (arith, r.at_is)))
            ∙ r.others i (nearer n i far);
      }

  InRow-start : InRow 0 old
  InRow-start = record {
    size = refl;
    at_is = omega arith;
    byte_is = omega arith;
    inked = λ j lt. absurd (omega arith);
    others = λ i far. refl;
  }

  -- A whole row, before the pointer goes to the next one.
  pub row-InRow :
      (n : ℕ)
      → old.at + n ≤ length old.image
      → InRow n (rounds (λ x. draw_pixel marks negative) n old)
  row-InRow n room =
      rounds_inv InRow (λ x. draw_pixel marks negative) n old InRow-start
        (λ x now lt r. InRow-step x now (omega arith) r)

ink_same :
    (negative : Bool) (marks : ℕ → ℕ) {k k' old old' : ℕ}
    → k ≡ k'
    → old ≡ old'
    → ink_of negative (marks k) old ≡ ink_of negative (marks k') old'
ink_same negative marks e f = ap₂ (λ (n m : ℕ). ink_of negative (marks n) m) e f

below_row : (width y y' : ℕ) → y' < y → width * y' + width ≤ width * y
below_row width y zero lt = grind arith
below_row width y (suc y') lt =
    let d : ℕ = y - suc (suc y') in let e : y ≡ suc (suc y') + d = omega arith in rw e (grind arith)

module _ (marks : ℕ → ℕ) (negative : Bool) (width scale : ℕ) (old : Pen)
    (fits : 7 * scale ≤ width) where
  abbrev pub place_of : ℕ → ℕ → ℕ
  place_of y x = old.at + width * y + x

  abbrev pub byte_of : ℕ → ℕ → ℕ
  byte_of y x = 7 * scale * y + x

  -- After `n` rows of a character.
  pub record InChar (n : ℕ) (now : Pen) : Type 0 where
    pub size : length now.image ≡ length old.image
    pub at_is : now.at ≡ old.at + width * n
    pub byte_is : now.byte ≡ 7 * scale * n
    pub inked :
        (y x : ℕ)
        → y < n
        → x < 7 * scale
        → get_or now.image (place_of y x) 0
          ≡ ink_of negative (marks (byte_of y x)) (get_or old.image (place_of y x) 0)
    pub others :
        (i : ℕ)
        → ((y x : ℕ) → y < n → x < 7 * scale → i ≢ place_of y x)
        → get_or now.image i 0 ≡ get_or old.image i 0

  beside :
      (n : ℕ) (now : Pen) (i : ℕ)
      → now.at ≡ old.at + width * n
      → ((x : ℕ) → x < 7 * scale → i ≢ place_of n x)
      → (i < now.at) ⊎ (now.at + 7 * scale ≤ i)
  beside n now i e far = elim (dec_lt i now.at) [
    | yes below ↦ inl below
    | no above ↦ elim (dec_le (now.at + 7 * scale) i) [
      | yes past ↦ inr past
      | no within ↦ absurd (far (i - now.at) (omega arith) (omega arith))
    ]
  ]

  InChar-step :
      (n : ℕ) (now : Pen)
      → old.at + width * n + 7 * scale ≤ length old.image
      → InChar n now
      → InChar (suc n) (draw_row marks negative width scale now)
  unfolding draw_row
  InChar-step n now room c =
      let r = row-InRow marks negative now (7 * scale) (omega (arith, c.size, c.at_is)) in
      let row : Pen = rounds (λ x. draw_pixel marks negative) (7 * scale) now in
      let next : width * suc n ≡ width * n + width = grind arith in
      let bytes : 7 * scale * suc n ≡ 7 * scale * n + 7 * scale = grind arith in
      record {
        size = r.size ∙ c.size;
        at_is = omega (arith, r.at_is, c.at_is, next);
        byte_is = omega (arith, r.byte_is, c.byte_is, bytes);
        inked = λ y x y_in x_in. elim (ℕ_discrete y n) [
          | yes e ↦ rw e (
              ap (λ (k : ℕ). get_or row.image (k + x) 0) (sym c.at_is)
              ∙ r.inked x x_in
              ∙ ink_same negative marks (ap (λ (k : ℕ). k + x) c.byte_is) (
                  ap (λ (k : ℕ). get_or now.image (k + x) 0) c.at_is
                  ∙ c.others (place_of n x)
                      (λ y' x' y_in' x_in' e'. absurd (omega (arith, below_row width n y' y_in')))))
          | no ne ↦
              r.others (place_of y x)
                (inl (omega (arith, c.at_is, below_row width n y (omega arith))))
              ∙ c.inked y x (omega arith) x_in
        ];
        others = λ i far.
            r.others i (beside n now i c.at_is (λ x x_in. far n x (omega arith) x_in))
            ∙ c.others i (λ y x y_in x_in. far y x (omega arith) x_in);
      }

  InChar-start : InChar 0 (record old { byte = 0 })
  InChar-start = record {
    size = refl;
    at_is = grind arith;
    byte_is = grind arith;
    inked = λ y x y_in x_in. absurd (omega arith);
    others = λ i far. refl;
  }

  -- What draw_char does to a picture that has room for the character.
  pub record IsPainted (now : Pen) : Type 0 where
    pub size : length now.image ≡ length old.image
    pub at_is : now.at ≡ old.at + 6 * scale
    pub inked :
        (y x : ℕ)
        → y < 8 * scale
        → x < 7 * scale
        → get_or now.image (place_of y x) 0
          ≡ ink_of negative (marks (byte_of y x)) (get_or old.image (place_of y x) 0)
    pub others :
        (i : ℕ)
        → ((y x : ℕ) → y < 8 * scale → x < 7 * scale → i ≢ place_of y x)
        → get_or now.image i 0 ≡ get_or old.image i 0

  rows_room : (y : ℕ) → y < 8 * scale → width * y + width ≤ width * (8 * scale)
  rows_room y h = below_row width (8 * scale) y h

  -- A character is painted pixel by pixel where its picture has a 1 (black) or a 2 (white), and only
  -- there; one that is negative as a `char` is not painted; the pointer moves on by six columns. The
  -- rows of the character lie in a picture that is at least one character wide.
  pub draw_char-IsPainted :
      0 < scale
      → old.at + width * (8 * scale) ≤ length old.image + (width - 7 * scale)
      → IsPainted (draw_char marks negative width scale old)
  unfolding draw_char
  draw_char-IsPainted positive room =
      let c : InChar (8 * scale) (
          rounds (λ y. draw_row marks negative width scale) (8 * scale) (record old { byte = 0 })) =
        rounds_inv InChar (λ y. draw_row marks negative width scale) (8 * scale)
          (record old { byte = 0 }) InChar-start
          (λ y now lt c. InChar-step y now (omega (arith, rows_room y lt)) c) in
      let enough = rows_room 0 (omega arith) in
      record {
        size = c.size;
        at_is = omega (arith, c.at_is, enough);
        inked = c.inked;
        others = c.others;
      }
