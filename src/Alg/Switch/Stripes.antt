-- ===== src/Alg/Switch/Stripes.antt =====
-- What alg_switchfilter takes for a switch of the camera.
use cy_prus.Prelude.{
  ℕ, ◌+◌, ◌*◌, ◌/◌, ◌≡◌, ◌&&◌, if◌then◌else◌, ltb, truth, List, get_or, rounds, rounds_inv,
  sum_below, count_below, sum_below-suc, sum_below-zero, arith,
}
use cy_prus.Alg.Switch.{Lines, line_at, line_step, is_switch, switchfilter}

module _ (width : ℕ) (out : List ℕ) where
  -- How many pixels of row `y` are in motion.
  abbrev pub moving_in : ℕ → ℕ
  moving_in y = count_below (λ x. truth (get_or out (y * width + x) 0)) width

  line_at_lem : (y : ℕ) → line_at width out y ≡ moving_in y
  unfolding line_at
  line_at_lem y =
      let one =
        λ (x : ℕ). let n : ℕ = (if truth (get_or out (y * width + x) 0) then 1 else 0) in n in
      rounds_inv (λ i (line : ℕ). line ≡ sum_below one i) _ width 0
        (omega (arith, sum_below-zero one)) (λ i line h e. ground (arith, sum_below-suc one i))

  -- How many of the rows have more than `limit` pixels in motion.
  abbrev pub rows_over : (limit height : ℕ) → ℕ
  rows_over limit height = count_below (λ y. ltb limit (moving_in y)) height

  record Counted (linediff n : ℕ) (s : Lines) : Type 0 where
    vertlines : s.vertlines ≡ rows_over (width / 18) n
    lines : s.lines ≡ rows_over (linediff * 2) n

  lines_lem :
      (linediff height : ℕ)
      → Counted linediff height
          (rounds (line_step width linediff out) height (record { lines = 0; vertlines = 0 }))
  unfolding line_step
  lines_lem linediff height =
      let wide = λ (y : ℕ). let n : ℕ = (if ltb (width / 18) (moving_in y) then 1 else 0) in n in
      let long = λ (y : ℕ). let n : ℕ = (if ltb (linediff * 2) (moving_in y) then 1 else 0) in n in
      rounds_inv (Counted linediff) _ height _
        (record {
          vertlines = omega (arith, sum_below-zero wide);
          lines = omega (arith, sum_below-zero long);
        })
        (λ i s h p. record {
          vertlines = ground (arith, p.vertlines, line_at_lem i, sum_below-suc wide i);
          lines = ground (arith, p.lines, line_at_lem i, sum_below-suc long i);
        })

-- alg_switchfilter keeps the changes exactly if more than a quarter of the rows have more than an
-- eighteenth of their pixels in motion, and fewer than a third of that number have more than twice
-- the mean; and gives 0 if not. Its other tests decide nothing.
pub switchfilter_lem :
    (width height diffs : ℕ) (out : List ℕ)
    → let vertlines = rows_over width out (width / 18) height in
      let lines = rows_over width out (diffs / height * 2) height in
      switchfilter width height diffs out
      ≡ (if ltb (height / 4) vertlines && ltb lines (vertlines / 3) then diffs else 0)
unfolding switchfilter is_switch
switchfilter_lem width height diffs out =
    let c = lines_lem width out (diffs / height) height in rw (c.vertlines, c.lines) (ground arith)
