-- ===== src/Alg/Morph/Rows.antt =====
-- The row loop that erode9, erode5, dilate9 and dilate5 share, against the picture as it was before
-- the call: what a function does to a pixel in place depends on no pixel that it has changed.
use cy_prus.Prelude.{
  ℕ, zero, suc, ◌+◌, ◌-◌, ◌*◌, ◌≤◌, ◌<◌, ◌≡◌, ◌≢◌, refl, sym, ◌∙◌, ap, ap₂, Bool, if◌then◌else◌,
  ltb, ◌==◌, ◌||◌, arith,
}
use cy_prus.Prelude.{
  List, length, get_or, take, replicate, length-set, get_or-set_self, get_or-set_ne, rounds_inv,
  get_or-take, get_or-drop, get_or-replicate,
}
use cy_prus.Prelude.{
  ≢→==, ≡→==, lt→ltb, le→ltb, dec_lt, ℕ_discrete, sum_below, sum_below-suc, sum_below-zero,
  sum_below_ext, count_below,
}
use cy_prus.Alg.Morph.{Sweep, Line, line_of, next_rows, close_row, sweep_row, sweep}
use cy_prus.Alg.Morph.Lines.{Shape, Same, IsLocal, Draws, Implements}

module _ (width height flag : ℕ) (old : List ℕ) where
  -- The lines of the picture, with a line of `flag` above it and below it.
  unfoldable pub padded : ℕ → Line
  padded zero x = flag
  padded (suc y) x = if ltb y height then get_or old (y * width + x) 0 else flag

  padded_top : (x : ℕ) → padded 0 x ≡ flag
  unfolding padded
  padded_top x = refl

  row_before : (x y n : ℕ) → x < width → y < n → y * width + x < n * width
  row_before x y n hx hy = grind arith

  padded_in : (y x : ℕ) → y < height → padded (suc y) x ≡ get_or old (y * width + x) 0
  unfolding padded
  padded_in y x h = rw (lt→ltb y height h)

  module _ (sh : Shape) where
    -- What becomes of the pixel in column `x` of row `y`: the two ends of a row are set to `flag`.
    abbrev pub drawn : (x y : ℕ) → ℕ
    drawn x y =
        if x == 0 || x + 1 == width
        then flag
        else sh.pixel (padded y) (padded (suc y)) (padded (suc (suc y))) x

    drawn_inner :
        (x y : ℕ)
        → 1 ≤ x
        → x + 1 < width
        → drawn x y ≡ sh.pixel (padded y) (padded (suc y)) (padded (suc (suc y))) x
    drawn_inner x y lo hi = rw (≢→== x 0 (omega arith), ≢→== (x + 1) width (omega arith))

    drawn_last : (y : ℕ) → 2 ≤ width → drawn (width - 1) y ≡ flag
    drawn_last y h = rw (≢→== (width - 1) 0 (omega arith), ≡→== (width - 1 + 1) width (omega arith))

    -- The number of inner pixels of row `y` that count.
    abbrev pub row_count : ℕ → ℕ
    row_count y =
        count_below (λ k. sh.counts (padded y) (padded (suc y)) (padded (suc (suc y))) (k + 1))
          (width - 2)

    -- Each pixel of the picture is drawn from the picture as it was before, what lies behind the
    -- picture is unchanged, and the result is the number of inner pixels that count.
    pub record IsDrawn (t : Sweep) : Type 0 where
      pub size : length t.img ≡ length old
      pub pixels : (x y : ℕ) → x < width → y < height → get_or t.img (y * width + x) 0 ≡ drawn x y
      pub behind : (j : ℕ) → height * width ≤ j → get_or t.img j 0 ≡ get_or old j 0
      pub counted : t.sum ≡ sum_below row_count height

    -- Before row `n`: the rows above are drawn, the others and the copies are as they were.
    record Sweeps (n : ℕ) (t : Sweep) : Type 0 where
      size : length t.img ≡ length old
      drawn_rows : (x y : ℕ) → x < width → y < n → get_or t.img (y * width + x) 0 ≡ drawn x y
      ahead : (j : ℕ) → n * width ≤ j → get_or t.img j 0 ≡ get_or old j 0
      above : Same width (line_of t.row2) (padded n)
      current : n < height → Same width (line_of t.row3) (padded (suc n))
      counted : t.sum ≡ sum_below row_count n

    module _ (line : ℕ → Sweep → Sweep) (wide : 2 ≤ width) (local : IsLocal width sh)
        (implements : Implements width sh line) (room : height * width ≤ length old) where
      row_room : (n : ℕ) → n < height → n * width + width ≤ length old
      row_room n h = grind arith

      next_below :
          (n : ℕ) (t : Sweep)
          → n < height
          → Sweeps n t
          → Same width (line_of (next_rows width height flag n t).row3) (padded (suc (suc n)))
      unfolding next_rows padded
      next_below n t h p x hx = elim (dec_lt (suc n) height) [
        | yes more ↦
            rw (≢→== n (height - 1) (omega arith), lt→ltb (suc n) height more)
              (get_or-take width _ x 0 hx
                ∙ get_or-drop ((n + 1) * width) t.img x 0
                ∙ p.ahead ((n + 1) * width + x) (omega arith)
                ∙ ap (λ (k : ℕ). get_or old (k * width + x) 0) next)
        | no last ↦
            rw (≡→== n (height - 1) (omega arith), le→ltb (suc n) height (omega arith))
              (get_or-replicate width x flag 0 hx)
      ]
        where
          next : n + 1 ≡ suc n
          next = omega arith

      -- The ends of the row, and everything else.
      close_ends :
          (n : ℕ) (t : Sweep)
          → n * width + width ≤ length t.img
          → (get_or (close_row width flag n t).img (n * width + 0) 0 ≡ flag)
            × (get_or (close_row width flag n t).img (n * width + (width - 1)) 0 ≡ flag)
      unfolding close_row
      close_ends n t h = (
        (let e : n * width + 0 ≡ n * width = omega arith in
            rw e (get_or-set_self _ (n * width) flag 0 (rw length-set (omega arith)))),
        (let e : n * width + (width - 1) ≡ n * width + width - 1 = omega arith in
            rw e (
              get_or-set_ne _ (n * width) (n * width + width - 1) flag 0 (omega arith)
              ∙ get_or-set_self t.img (n * width + width - 1) flag 0 (omega arith))),
      )

      close_other :
          (n : ℕ) (t : Sweep) (j : ℕ)
          → j ≢ n * width
          → j ≢ n * width + width - 1
          → get_or (close_row width flag n t).img j 0 ≡ get_or t.img j 0
      unfolding close_row
      close_other n t j first last =
          get_or-set_ne _ (n * width) j flag 0 (λ e. first (sym e))
          ∙ get_or-set_ne t.img (n * width + width - 1) j flag 0 (λ e. last (sym e))

      length-close_row : (n : ℕ) (t : Sweep) → length (close_row width flag n t).img ≡ length t.img
      unfolding close_row
      length-close_row n t = length-set _ (n * width) flag ∙ length-set t.img _ flag

      row_drawn :
          (n : ℕ) (t : Sweep)
          → n < height
          → Sweeps n t
          → Draws width sh n
              (next_rows width height flag n t)
              (line n (next_rows width height flag n t))
      unfolding next_rows
      row_drawn n t h p =
          implements n (next_rows width height flag n t) (rw p.size (row_room n h)) (λ x hx.
            p.ahead (n * width + x) (omega arith) ∙ sym (p.current h x hx ∙ padded_in n x h))

      module _ (n : ℕ) (t : Sweep) (h : n < height) (p : Sweeps n t) where
        abbrev begun : Sweep
        begun = next_rows width height flag n t

        above1 : Same width (line_of begun.row1) (padded n)
        unfolding next_rows
        above1 = p.above

        above2 : Same width (line_of begun.row2) (padded (suc n))
        unfolding next_rows
        above2 = p.current h

        begun_img : begun.img ≡ t.img
        unfolding next_rows
        begun_img = refl

        begun_sum : begun.sum ≡ t.sum
        unfolding next_rows
        begun_sum = refl

        d : Draws width sh n begun (line n begun)
        d = row_drawn n t h p

        d_size : length (line n begun).img ≡ length old
        d_size = d.size ∙ ap (λ b. length b) begun_img ∙ p.size

        d_inside :
            (x : ℕ)
            → 1 ≤ x
            → x + 1 < width
            → get_or (line n begun).img (n * width + x) 0 ≡ drawn x n
        d_inside x lo hi =
            d.inside x lo hi
            ∙ local.pixels _ _ _ _ _ _ x above1 above2 (next_below n t h p) lo hi
            ∙ sym (drawn_inner x n lo hi)

        row_pixels :
            (x : ℕ)
            → x < width
            → get_or (close_row width flag n (line n begun)).img (n * width + x) 0 ≡ drawn x n
        row_pixels x hx =
            let (left, right) = close_ends n (line n begun) (rw d_size (row_room n h)) in
            elim (ℕ_discrete x 0) [
              | yes e ↦ rw e left
              | no lo ↦ elim (ℕ_discrete x (width - 1)) [
                | yes e ↦ rw e (right ∙ sym (drawn_last n wide))
                | no hi ↦
                    close_other n _ (n * width + x) (omega arith) (omega arith)
                    ∙ d_inside x (omega arith) (omega arith)
              ]
            ]

        row_counted : (line n begun).sum ≡ sum_below row_count (suc n)
        row_counted =
            d.counted
            ∙ ap₂ ◌+◌ (begun_sum ∙ p.counted) (
                sum_below_ext _ _ (width - 2) (λ k lt.
                  ap (λ (b : Bool). if b then 1 else 0)
                    (local.counted _ _ _ _ _ _ (k + 1) above1 above2 (next_below n t h p)
                      (omega arith) (omega arith))))
            ∙ sym (sum_below-suc row_count n)

        Sweeps-step : Sweeps (suc n) (sweep_row width line height flag n t)
        unfolding sweep_row close_row
        Sweeps-step = record {
          size = length-close_row n (line n begun) ∙ d_size;
          drawn_rows = λ x y hx hy. elim (ℕ_discrete y n) [
            | yes e ↦ rw e (row_pixels x hx)
            | no ne ↦
                let before : y * width + x < n * width = row_before x y n hx (omega arith) in
                close_other n (line n begun) (y * width + x) (omega arith) (omega arith)
                ∙ d.before (y * width + x) (omega arith)
                ∙ ap (λ b. get_or b (y * width + x) 0) begun_img
                ∙ p.drawn_rows x y hx (omega arith)
          ];
          ahead = λ j le.
              close_other n (line n begun) j (omega arith) (omega arith)
              ∙ d.after j (omega arith)
              ∙ ap (λ b. get_or b j 0) begun_img
              ∙ p.ahead j (omega arith);
          above = λ x hx. ap (λ b. get_or b x 0) d.row2 ∙ above2 x hx;
          current = λ more x hx. ap (λ b. get_or b x 0) d.row3 ∙ next_below n t h p x hx;
          counted = row_counted;
        }

      -- The functions of this shape, on a picture of `height` rows.
      pub sweep-IsDrawn : (buffer : List ℕ) → IsDrawn (sweep width line height flag old buffer)
      unfolding sweep
      sweep-IsDrawn buffer =
          let p =
            rounds_inv Sweeps (sweep_row width line height flag) height
              (record {
                img = old;
                row1 = take width buffer;
                row2 = replicate width flag;
                row3 = take width old;
                sum = 0;
              })
              (record {
                size = refl;
                drawn_rows = λ x y hx hy. absurd (omega arith);
                ahead = λ j le. refl;
                above = λ x hx. get_or-replicate width x flag 0 hx ∙ sym (padded_top x);
                current = λ h x hx.
                    get_or-take width old x 0 hx
                    ∙ (let e : x ≡ 0 * width + x = omega arith in ap (λ (k : ℕ). get_or old k 0) e)
                    ∙ sym (padded_in 0 x h);
                counted = sym (sum_below-zero row_count);
              })
              (λ n t h q. Sweeps-step n t h q) in
          record { size = p.size; pixels = p.drawn_rows; behind = p.ahead; counted = p.counted }
