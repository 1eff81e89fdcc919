-- ===== src/Alg/Morph.antt =====
-- erode9, erode5, dilate9 and dilate5 of board/motion/motion_modified/alg.c. The three rows of the
-- temporary buffer are lists; where dilate9 and dilate5 turn the row pointers round, the rows
-- change places here too.
pub mod Lines
pub mod Erode
pub mod Maxima
pub mod Slide
pub mod Dilate
pub mod Rows
pub mod Pictures
use cy_prus.Prelude.{
  ℕ, suc, ◌+◌, ◌-◌, ◌*◌, Bool, true, false, not, ◌||◌, if◌then◌else◌, ltb, leb, ◌==◌,
}
use cy_prus.Prelude.{truth, List, get_or, set, take, drop, replicate, rounds}

-- MAX2 and MAX3
unfoldable pub max2 : ℕ → ℕ → ℕ
max2 x y = if ltb y x then x else y

unfoldable pub max3 : ℕ → ℕ → ℕ → ℕ
max3 x y z = if ltb y x then (if ltb z x then x else z) else if ltb z y then y else z

-- The image, the three rows that surround the current one, and the result so far.
pub record Sweep : Type 0 where
  pub img : List ℕ
  pub row1 : List ℕ
  pub row2 : List ℕ
  pub row3 : List ℕ
  pub sum : ℕ

abbrev pub Line : Type 0
Line = ℕ → ℕ

abbrev pub line_of : List ℕ → Line
line_of row x = get_or row x 0

-- The tests of erode9 and erode5 at column `i`.
unfoldable pub any_zero9 : Line → Line → Line → ℕ → Bool
any_zero9 r1 r2 r3 i =
    r1 (i - 1) == 0
    || r1 i == 0
    || r1 (i + 1) == 0
    || r2 (i - 1) == 0
    || r2 i == 0
    || r2 (i + 1) == 0
    || r3 (i - 1) == 0
    || r3 i == 0
    || r3 (i + 1) == 0

unfoldable pub any_zero5 : Line → Line → Line → ℕ → Bool
any_zero5 r1 r2 r3 i = r1 i == 0 || r2 (i - 1) == 0 || r2 i == 0 || r2 (i + 1) == 0 || r3 i == 0

-- The sliding window of dilate9, its index, and the current maximum.
pub record Window : Type 0 where
  pub window0 : ℕ
  pub window1 : ℕ
  pub window2 : ℕ
  pub widx : ℕ
  pub blob : ℕ

-- `window[widx] = latest`
abbrev pub put_window : ℕ → Window → Window
put_window latest w =
    if w.widx == 0
    then record w { window0 = latest }
    else if w.widx == 1
    then record w { window1 = latest }
    else record w { window2 = latest }

-- `blob` and `mem` of dilate5
pub record Plus : Type 0 where
  pub blob : ℕ
  pub mem : ℕ

module _ (width : ℕ) where
  -- The inner loop of the erosions at row `y` runs down from column `width - 2`.
  pub erode_step : (Line → Line → Line → ℕ → Bool) → (y k : ℕ) → Sweep → Sweep
  erode_step test y k s =
      let i = width - 2 - k in
      if test (line_of s.row1) (line_of s.row2) (line_of s.row3) i
      then record s { img = set s.img (y * width + i) 0 }
      else record s { sum = s.sum + 1 }

  pub erode_line : (Line → Line → Line → ℕ → Bool) → ℕ → Sweep → Sweep
  unfolding erode_step
  erode_line test y s = rounds (erode_step test y) (width - 2) s

  -- The largest value of a column of the three rows.
  abbrev pub column : Sweep → ℕ → ℕ
  column s i = max3 (get_or s.row1 i 0) (get_or s.row2 i 0) (get_or s.row3 i 0)

  -- One round of the inner loop of dilate9, at column `k + 2`.
  pub dilate9_step : (y k : ℕ) → Window × Sweep → Window × Sweep
  dilate9_step y k (w, s) =
      let i = k + 2 in
      let latest = column s i in
      let w' = put_window latest w in
      let blob = if leb w.blob latest then latest else max3 w'.window0 w'.window1 w'.window2 in
      let widx = if w.widx + 1 == 3 then 0 else w.widx + 1 in
      let s' =
        if truth blob
        then record s { img = set s.img (y * width + i - 1) blob; sum = s.sum + 1 }
        else s in
      (record w' { widx = widx; blob = blob }, s')

  abbrev pub first_window : Sweep → Window
  first_window s = record {
    window0 = column s 0;
    window1 = column s 1;
    window2 = 0;
    widx = 2;
    blob = max2 (column s 0) (column s 1);
  }

  -- `window[2]` is written before it is read.
  pub dilate9_line : ℕ → Sweep → Sweep
  unfolding dilate9_step max2 max3
  dilate9_line y s = (rounds (dilate9_step y) (width - 2) (first_window s, s)).1

  -- One round of the inner loop of dilate5, at column `k + 1`.
  pub dilate5_step : (y k : ℕ) → Plus × Sweep → Plus × Sweep
  dilate5_step y k (p, s) =
      let i = k + 1 in
      let latest = max3 (get_or s.row1 i 0) (get_or s.row2 (i + 1) 0) (get_or s.row3 i 0) in
      let p' : Plus =
        if p.blob == 0 then record { blob = latest; mem = get_or s.row2 (i + 1) 0 } else record {
          blob = max2 p.mem latest;
          mem = max2 (get_or s.row2 i 0) (get_or s.row2 (i + 1) 0);
        } in
      let s' =
        if truth p'.blob
        then record s { img = set s.img (y * width + i) p'.blob; sum = s.sum + 1 }
        else s in
      (p', s')

  pub dilate5_line : ℕ → Sweep → Sweep
  unfolding dilate5_step max2 max3
  dilate5_line y s =
      let start : Plus = record { blob = 1; mem = max2 (get_or s.row2 0 0) (get_or s.row2 1 0) } in
      (rounds (dilate5_step y) (width - 2) (start, s)).1

  -- What the four functions share: the rows move down by one, and the row below the last one is
  -- filled with `flag`.
  pub next_rows : (height flag y : ℕ) → Sweep → Sweep
  next_rows height flag y s = record s {
    row1 = s.row2;
    row2 = s.row3;
    row3 =
        if y == height - 1 then replicate width flag else take width (drop ((y + 1) * width) s.img);
  }

  -- The two ends of row `y`.
  pub close_row : (flag y : ℕ) → Sweep → Sweep
  close_row flag y s = record s {
    img = set (set s.img (y * width + width - 1) flag) (y * width) flag;
  }

  pub sweep_row : (ℕ → Sweep → Sweep) → (height flag y : ℕ) → Sweep → Sweep
  unfolding next_rows close_row
  sweep_row line height flag y s = close_row flag y (line y (next_rows height flag y s))

  pub sweep : (ℕ → Sweep → Sweep) → (height flag : ℕ) → (img buffer : List ℕ) → Sweep
  unfolding sweep_row
  sweep line height flag img buffer = rounds (sweep_row line height flag) height (record {
    img = img;
    row1 = take width buffer;
    row2 = replicate width flag;
    row3 = take width img;
    sum = 0;
  })

-- The image that each function leaves, and its result, in the fields `img` and `sum`.
pub erode9 : (img : List ℕ) → (width height : ℕ) → (buffer : List ℕ) → (flag : ℕ) → Sweep
unfolding sweep erode_line any_zero9
erode9 img width height buffer flag =
    sweep width (erode_line width any_zero9) height flag img buffer

pub erode5 : (img : List ℕ) → (width height : ℕ) → (buffer : List ℕ) → (flag : ℕ) → Sweep
unfolding sweep erode_line any_zero5
erode5 img width height buffer flag =
    sweep width (erode_line width any_zero5) height flag img buffer

pub dilate9 : (img : List ℕ) → (width height : ℕ) → (buffer : List ℕ) → Sweep
unfolding sweep dilate9_line
dilate9 img width height buffer = sweep width (dilate9_line width) height 0 img buffer

pub dilate5 : (img : List ℕ) → (width height : ℕ) → (buffer : List ℕ) → Sweep
unfolding sweep dilate5_line
dilate5 img width height buffer = sweep width (dilate5_line width) height 0 img buffer
