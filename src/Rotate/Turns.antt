-- ===== src/Rotate/Turns.antt =====
-- rot90cw and rot90ccw move each pixel of a block to its place in the turned block.
use cy_prus.Prelude.{ℕ, ◌+◌, ◌-◌, ◌*◌, ◌≤◌, ◌<◌, ◌≡◌, ◌⊎◌, ◌∙◌, ap, List, length, get_or, arith}
use cy_prus.Prelude.{Scattered2, scatter2-Scattered2, dec_lt}
use cy_prus.Rotate.{read_at, rot90cw, rot90ccw}

-- Places in a block: y rows of w, and x in the last one.
pub place_lt : (w h x y : ℕ) → x < w → y < h → y * w + x < h * w
place_lt w h x y hx hy = grind arith

pub place_below : (w x x' y y' : ℕ) → x < w → y < y' → y * w + x < y' * w + x'
place_below w x x' y y' hx hy = grind arith

place_inj : (w x x' y y' : ℕ) → x < w → x' < w → y * w + x ≡ y' * w + x' → (y ≡ y') × (x ≡ x')
place_inj w x x' y y' hx hx' e = elim (dec_lt y y') [
  | yes lt ↦ absurd (omega (arith, place_below w x x' y y' hx lt))
  | no le ↦ elim (dec_lt y' y) [
    | yes lt ↦ absurd (omega (arith, place_below w x' x y' y hx' lt))
    | no ge ↦ let same : y ≡ y' = omega arith in (same, ground (arith, ap (λ (k : ℕ). k * w) same))
  ]
]

rows_split : (w h y : ℕ) → y < h → (h - 1 - y) * w + y * w + w ≡ w * h
rows_split w h y hy = let k = h - 1 - y in let e : h ≡ k + y + 1 = omega arith in rw e (grind arith)

module _ (from : List ℕ) (src dst w h : ℕ) (old : List ℕ) where
  -- The pixel in column `x` of row `y` goes to row `x` of the turned block, `y` columns from its
  -- right end; the rest of the buffer is unchanged.
  pub record TurnsCw (now : List ℕ) : Type 0 where
    pub size : length now ≡ length old
    pub pixels :
        (x y : ℕ)
        → x < w
        → y < h
        → get_or now (dst + (x * h + (h - 1 - y))) 0 ≡ get_or from (src + (y * w + x)) 0
    pub kept : (q : ℕ) → (q < dst) ⊎ (dst + w * h ≤ q) → get_or now q 0 ≡ get_or old q 0

  -- The pixel in column `x` of row `y` goes to the turned block's row `x` from its bottom, in
  -- column `y`.
  pub record TurnsCcw (now : List ℕ) : Type 0 where
    pub size : length now ≡ length old
    pub pixels :
        (x y : ℕ)
        → x < w
        → y < h
        → get_or now (dst + ((w - 1 - x) * h + y)) 0 ≡ get_or from (src + (y * w + x)) 0
    pub kept : (q : ℕ) → (q < dst) ⊎ (dst + w * h ≤ q) → get_or now q 0 ≡ get_or old q 0

  abbrev value : ℕ → ℕ → ℕ
  value i j = get_or from (read_at src (w * h) w i j) 0

  read_lem : (x y : ℕ) → x < w → y < h → read_at src (w * h) w x (h - 1 - y) ≡ src + (y * w + x)
  read_lem x y hx hy = omega (arith, rows_split w h y hy)

  module _ (room : dst + w * h ≤ length old) where
    cw : Scattered2 (λ i j. dst + (i * h + j)) value h old w (rot90cw from src dst (w * h) w h old)
    unfolding rot90cw
    cw =
        scatter2-Scattered2 _ value w h old
          (λ i j i' j' hi hj hi' hj' e. place_inj h j j' i i' hj hj' (omega arith))
          (λ i j hi hj. omega (arith, place_lt h w j i hj hi))

    pub rot90cw-TurnsCw : TurnsCw (rot90cw from src dst (w * h) w h old)
    rot90cw-TurnsCw = record {
      size = cw.size;
      pixels = λ x y hx hy.
          cw.written x (h - 1 - y) hx (omega arith)
          ∙ ap (λ (k : ℕ). get_or from k 0) (read_lem x y hx hy);
      kept = λ q out. cw.kept q (λ i j hi hj e. ground (arith, out, place_lt h w j i hj hi));
    }

    ccw_place : (i j : ℕ) → i < w → j < h → (w - 1 - i) * h + (h - 1 - j) + (i * h + j) + 1 ≡ w * h
    ccw_place i j hi hj = omega (arith, rows_split h w i hi)

    ccw :
        Scattered2
          (λ i j. dst + w * h - 1 - (i * h + j))
          value
          h
          old
          w
          (rot90ccw from src dst (w * h) w h old)
    unfolding rot90ccw
    ccw =
        scatter2-Scattered2 _ value w h old
          (λ i j i' j' hi hj hi' hj' e.
            place_inj h j j' i i' hj hj'
              (omega (arith, place_lt h w j i hj hi, place_lt h w j' i' hj' hi')))
          (λ i j hi hj. omega (arith, place_lt h w j i hj hi))

    pub rot90ccw-TurnsCcw : TurnsCcw (rot90ccw from src dst (w * h) w h old)
    rot90ccw-TurnsCcw = record {
      size = ccw.size;
      pixels = λ x y hx hy.
          let e : dst + ((w - 1 - x) * h + y) ≡ dst + w * h - 1 - (x * h + (h - 1 - y)) =
            omega (arith, ccw_place x (h - 1 - y) hx (omega arith)) in
          rw e (
            ccw.written x (h - 1 - y) hx (omega arith)
            ∙ ap (λ (k : ℕ). get_or from k 0) (read_lem x y hx hy));
      kept = λ q out. ccw.kept q (λ i j hi hj e. ground (arith, out, place_lt h w j i hj hi));
    }

-- A block turned by 90 degrees clockwise and then counterclockwise is the block again, pixel by
-- pixel. The two buffers that are written have room for the block.
pub rot90ccw-rot90cw :
    (from temp buf : List ℕ) (w h : ℕ)
    → w * h ≤ length temp
    → h * w ≤ length buf
    → (x y : ℕ) → x < w
    → y < h
    → get_or (rot90ccw (rot90cw from 0 0 (w * h) w h temp) 0 0 (h * w) h w buf) (y * w + x) 0
      ≡ get_or from (y * w + x) 0
rot90ccw-rot90cw from temp buf w h room room' x y hx hy =
    let now = rot90cw from 0 0 (w * h) w h temp in
    let cw = rot90cw-TurnsCw from 0 0 w h temp (omega arith) in
    let ccw = rot90ccw-TurnsCcw now 0 0 h w buf (omega arith) in
    let row : h - 1 - (h - 1 - y) ≡ y = omega arith in
    ap (λ (q : ℕ). get_or (rot90ccw now 0 0 (h * w) h w buf) q 0) (rw row (omega arith))
    ∙ ccw.pixels (h - 1 - y) x (omega arith) hx
    ∙ cw.pixels x y hx hy
    ∙ ap (λ (q : ℕ). get_or from q 0) (omega arith)
