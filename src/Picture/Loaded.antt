-- ===== src/Picture/Loaded.antt =====
-- get_pgm loads a mask of the right size, and divides by zero where the file says so.
use cy_prus.Prelude.{
  ℕ, suc, ◌+◌, ◌*◌, ◌<◌, ◌≡◌, refl, ap, ◌∙◌, true, false, ◌==◌, Option, some, List, [], ◌∷◌, ◌++◌,
  arith, length, get_or, take, Bytes, codes, c_string, c_string-append, IsText, All-append, ≡→==,
}
use mathlib.Core.List.{append_assoc}
use cy_prus.Prelude.Int.{ℤ, pos}
use cy_prus.Conf.File.{fgets}
use cy_prus.Conf.Lines.{IsBody, fgets-append}
use cy_prus.Conf.Options.{same}
use cy_prus.Picture.Pgm.{divided, skip_comments, load_rows, get_pgm}

-- A line of the header, without its newline.
pub record IsHeaderLine (body : Bytes) : Type 0 where
  pub one_line : IsBody body
  pub text : IsText body
  pub short : length body < 250

regroup :
    (body stale : Bytes) → body ++ (b'\n' ∷ (0 ∷ stale)) ≡ (body ++ (b'\n' ∷ [])) ++ (0 ∷ stale)
regroup body stale = simp append_assoc

-- What fgets gives for it.
read_line :
    (line body rest : Bytes)
    → IsHeaderLine body
    → (stale : Bytes) × (fgets 255 line (body ++ (b'\n' ∷ rest))
        ≡ some (body ++ (b'\n' ∷ (0 ∷ stale)), rest))
      × (c_string (body ++ (b'\n' ∷ (0 ∷ stale))) ≡ body ++ (b'\n' ∷ []))
read_line line body rest h =
    let f = fgets-append 255 line body rest h.one_line (omega (arith, h.short)) in
    (
      f.0,
      f.1,
      ap c_string (regroup body f.0)
          ∙ c_string-append (body ++ (b'\n' ∷ [])) f.0
              (All-append _ body (b'\n' ∷ []) h.text (refl, tt)),
    )

-- A line that is no comment ends the loop at once.
first_line :
    (fuel : ℕ) (line body rest stale : Bytes)
    → (get_or body 0 0 == b'#') ≡ false
    → fgets 255 line (body ++ (b'\n' ∷ rest)) ≡ some (body ++ (b'\n' ∷ (0 ∷ stale)), rest)
    → skip_comments (fuel + 1) line (body ++ (b'\n' ∷ rest))
      ≡ some (body ++ (b'\n' ∷ (0 ∷ stale)), rest)
unfolding skip_comments
first_line fuel line [] rest stale h e =
    let more : fuel + 1 ≡ suc fuel = omega arith in rw (more, e) refl
first_line fuel line (c ∷ cs) rest stale h e =
    let more : fuel + 1 ≡ suc fuel = omega arith in rw (more, e) (rw h refl)

module _ (scan_two : Bytes → Option (ℤ × ℤ)) (scan_one : Bytes → Option ℤ) (memory : List ℕ)
    (width height : ℕ) (line magic sides top pixels : Bytes) (magic_line : IsHeaderLine magic)
    (sides_line : IsHeaderLine sides) (top_line : IsHeaderLine top)
    (p5 : same (take 2 (magic ++ (b'\n' ∷ []))) (codes "P5") ≡ true)
    (sides_first : (get_or sides 0 0 == b'#') ≡ false)
    (top_first : (get_or top 0 0 == b'#') ≡ false)
    (sides_read : scan_two (sides ++ (b'\n' ∷ [])) ≡ some (pos width, pos height)) where
  -- The header is read up to the pixels.
  get_pgm-header :
      get_pgm scan_two scan_one memory width height line
        (magic ++ (b'\n' ∷ (sides ++ (b'\n' ∷ (top ++ (b'\n' ∷ pixels))))))
      ≡ load_rows scan_two scan_one memory width height pixels (scan_one (top ++ (b'\n' ∷ [])))
  unfolding get_pgm
  get_pgm-header =
      let third : Bytes = top ++ (b'\n' ∷ pixels) in
      let second : Bytes = sides ++ (b'\n' ∷ third) in
      let m = read_line line magic second magic_line in
      let line₁ : Bytes = magic ++ (b'\n' ∷ (0 ∷ m.0)) in
      let s = read_line line₁ sides third sides_line in
      let line₂ : Bytes = sides ++ (b'\n' ∷ (0 ∷ s.0)) in
      let t = read_line line₂ top pixels top_line in
      let w_same : (width == width) ≡ true = ≡→== width width refl in
      let h_same : (height == height) ≡ true = ≡→== height height refl in
      rw m.1 (
        rw (m.2, p5)
          (rw (first_line (length second) line₁ sides third s.0 sides_first s.1) (
            rw (s.2, sides_read)
              (rw (w_same, h_same)
                (rw (first_line (length third) line₂ top pixels t.0 top_first t.1)
                  (rw t.2 refl))))))

  -- A maximum of 0 is not refused: the first pixel divides by it.
  pub get_pgm_divides :
      scan_one (top ++ (b'\n' ∷ [])) ≡ some (pos 0)
      → (width * height == 0) ≡ false
      → get_pgm scan_two scan_one memory width height line
          (magic ++ (b'\n' ∷ (sides ++ (b'\n' ∷ (top ++ (b'\n' ∷ pixels))))))
        ≡ divided
  get_pgm_divides top_read some_pixels = get_pgm-header ∙ rw top_read (rw some_pixels refl)
