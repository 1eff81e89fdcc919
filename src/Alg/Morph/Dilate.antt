-- ===== src/Alg/Morph/Dilate.antt =====
-- The inner loops of dilate9 and dilate5: the sliding maxima are the maxima of the neighbourhoods.
use cy_prus.Prelude.{
  inl, inr, ℕ, suc, ◌+◌, ◌-◌, ◌*◌, ◌≤◌, ◌<◌, ◌≡◌, refl, sym, ◌∙◌, ap, if◌then◌else◌, max, arith,
}
use cy_prus.Prelude.{
  truth, length, get_or, set, length-set, get_or-set_self, get_or-set_ne, rounds_inv,
}
use cy_prus.Prelude.{Bool-cases, ℕ_discrete, count_below, sum_below-suc, sum_below-zero}
use cy_prus.Alg.Morph.{Sweep, Line, line_of, max2, Window, Plus, column, first_window}
use cy_prus.Alg.Morph.{dilate9_step, dilate9_line, dilate5_step, dilate5_line}
use cy_prus.Alg.Morph.Maxima.{
  dilating, largest9, largest5, max2-max, largest9_columns, largest9-ge, largest5-ge,
}
use cy_prus.Alg.Morph.Slide.{Slides, next_window_lem, Carries, next_plus-blob, next_plus-Carries}
use cy_prus.Alg.Morph.Lines.{Draws, Implements}

-- What the rounds before `k` of either loop have drawn.
module _ (width : ℕ) (largest : Line → Line → Line → ℕ → ℕ) (y : ℕ) (s : Sweep) where
  abbrev value : ℕ → ℕ
  value x = largest (line_of s.row1) (line_of s.row2) (line_of s.row3) x

  record Dilates (k : ℕ) (t : Sweep) : Type 0 where
    size : length t.img ≡ length s.img
    row1 : t.row1 ≡ s.row1
    row2 : t.row2 ≡ s.row2
    row3 : t.row3 ≡ s.row3
    inside : (x : ℕ) → 1 ≤ x → x ≤ k → get_or t.img (y * width + x) 0 ≡ value x
    before : (j : ℕ) → j < y * width + 1 → get_or t.img j 0 ≡ get_or s.img j 0
    after : (j : ℕ) → y * width + k < j → get_or t.img j 0 ≡ get_or s.img j 0
    counted : t.sum ≡ s.sum + count_below (λ m. truth (value (m + 1))) k

  Dilates-start : Dilates 0 s
  Dilates-start = record {
    size = refl;
    row1 = refl;
    row2 = refl;
    row3 = refl;
    inside = λ x lo hi. absurd (omega arith);
    before = λ j lt. refl;
    after = λ j lt. refl;
    counted = omega (arith, sum_below-zero (λ m. if truth (value (m + 1)) then 1 else 0));
  }

  -- A round writes the value if it is not 0; a value of 0 was there before.
  Dilates-suc :
      (k v : ℕ) (t : Sweep)
      → y * width + suc k < length s.img
      → Dilates k t
      → v ≡ value (suc k)
      → (v ≡ 0 → get_or s.img (y * width + suc k) 0 ≡ 0)
      → Dilates (suc k) (
          if truth v
          then record t { img = set t.img (y * width + suc k) v; sum = t.sum + 1 }
          else t)
  Dilates-suc k v t room p e clear = elim (Bool-cases (truth v)) [
    | inl some ↦ rw some (record {
      size = length-set t.img place v ∙ p.size;
      row1 = p.row1;
      row2 = p.row2;
      row3 = p.row3;
      inside = λ x lo hi. elim (ℕ_discrete x (suc k)) [
        | yes same ↦ rw same (get_or-set_self t.img place v 0 (omega (arith, p.size)) ∙ e)
        | no other ↦
            get_or-set_ne t.img place (y * width + x) v 0 (omega arith)
            ∙ p.inside x lo (omega arith)
      ];
      before = λ j lt. get_or-set_ne t.img place j v 0 (omega arith) ∙ p.before j lt;
      after = λ j lt. get_or-set_ne t.img place j v 0 (omega arith) ∙ p.after j (omega arith);
      counted =
          ground
            (arith, p.counted, next, sum_below-suc (λ m. if truth (value (m + 1)) then 1 else 0) k);
    })
    | inr none ↦ rw none (record {
      size = p.size;
      row1 = p.row1;
      row2 = p.row2;
      row3 = p.row3;
      inside = λ x lo hi. elim (ℕ_discrete x (suc k)) [
        | yes same ↦ rw same (p.after place (omega arith) ∙ clear (ground arith) ∙ ground arith)
        | no other ↦ p.inside x lo (omega arith)
      ];
      before = p.before;
      after = λ j lt. p.after j (omega arith);
      counted =
          ground
            (arith, p.counted, next, sum_below-suc (λ m. if truth (value (m + 1)) then 1 else 0) k);
    })
  ]
    where
      place : ℕ
      place = y * width + suc k

      next : value (k + 1) ≡ v
      next = let same : k + 1 ≡ suc k = omega arith in ap value same ∙ sym e

module _ (width : ℕ) (y : ℕ) (s : Sweep) (wide : 2 ≤ width)
    (room : y * width + width ≤ length s.img)
    (current : (x : ℕ) → x < width → get_or s.img (y * width + x) 0 ≡ line_of s.row2 x) where
  -- A largest value of 0 is the pixel's own.
  zero_before :
      (largest : Line → Line → Line → ℕ → ℕ) (k : ℕ)
      → ((r1 r2 r3 : Line) (x : ℕ) → r2 x ≤ largest r1 r2 r3 x)
      → k < width - 2
      → value width largest y s (suc k) ≡ 0
      → get_or s.img (y * width + suc k) 0 ≡ 0
  zero_before largest k above h e =
      current (suc k) (omega arith)
      ∙ omega (arith, e, above (line_of s.row1) (line_of s.row2) (line_of s.row3) (suc k))

  Draws-Dilates :
      (largest : Line → Line → Line → ℕ → ℕ) (t : Sweep)
      → Dilates width largest y s (width - 2) t
      → Draws width (dilating largest) y s t
  Draws-Dilates largest t p = record {
    size = p.size;
    row2 = p.row2;
    row3 = p.row3;
    inside = λ x lo hi. p.inside x lo (omega arith);
    before = p.before;
    after = λ j le. p.after j (omega arith);
    counted = p.counted;
  }

  record Runs9 (k : ℕ) (ws : Window × Sweep) : Type 0 where
    slides : Slides (column width s) k ws.0
    dilates : Dilates width largest9 y s k ws.1

  Runs9-step :
      (k : ℕ) (ws : Window × Sweep)
      → k < width - 2
      → Runs9 k ws
      → Runs9 (suc k) (dilate9_step width y k ws)
  unfolding dilate9_step
  Runs9-step k (w, t) h p =
      let same : column width t (k + 2) ≡ column width s (k + 2) =
        rw (p.dilates.row1, p.dilates.row2, p.dilates.row3) in
      let (blob, slides) =
        next_window_lem (column width s) w.window0 w.window1 w.window2 w.widx w.blob k p.slides in
      let new = blob ∙ sym (largest9_columns width s k) in
      let place : y * width + (k + 2) - 1 ≡ y * width + suc k = omega arith in
      rw (same, place)
        (record {
          slides = slides;
          dilates =
              Dilates-suc width largest9 y s k _ t (omega arith) p.dilates new
                (λ z. zero_before largest9 k largest9-ge h (sym new ∙ z));
        })

  dilate9_line-Draws : Draws width (dilating largest9) y s (dilate9_line width y s)
  unfolding dilate9_line
  dilate9_line-Draws =
      let p =
        rounds_inv Runs9 (dilate9_step width y) (width - 2) (first_window width s, s)
          (record {
            slides = record {
              small = omega arith;
              older = refl;
              newer = let e : 0 + 1 ≡ 1 = omega arith in rw e;
              blob_older = omega (arith, max2-max (column width s 0) (column width s 1));
              blob_newer =
                  let e : 0 + 1 ≡ 1 = omega arith in
                  omega (arith, max2-max (column width s 0) (column width s 1));
            };
            dilates = Dilates-start width largest9 y s;
          })
          Runs9-step in
      Draws-Dilates largest9 _ p.dilates

  record Runs5 (k : ℕ) (ps : Plus × Sweep) : Type 0 where
    carries : Carries (get_or s.row2 k 0) (get_or s.row2 (k + 1) 0) ps.0
    dilates : Dilates width largest5 y s k ps.1

  largest5_plus :
      (k : ℕ)
      → largest5 (line_of s.row1) (line_of s.row2) (line_of s.row3) (suc k)
        ≡ max
            (max (get_or s.row1 (k + 1) 0) (get_or s.row3 (k + 1) 0))
            (max (get_or s.row2 k 0) (max (get_or s.row2 (k + 1) 0) (get_or s.row2 (k + 1 + 1) 0)))
  unfolding largest5
  largest5_plus k =
      let less : suc k - 1 ≡ k = omega arith in
      let same : suc k ≡ k + 1 = omega arith in rw (less, same)

  Runs5-step :
      (k : ℕ) (ps : Plus × Sweep)
      → k < width - 2
      → Runs5 k ps
      → Runs5 (suc k) (dilate5_step width y k ps)
  unfolding dilate5_step
  Runs5-step k (q, t) h p =
      let a = get_or s.row2 k 0 in
      let b = get_or s.row2 (k + 1) 0 in
      let c = get_or s.row2 (k + 1 + 1) 0 in
      let u = get_or s.row1 (k + 1) 0 in
      let v = get_or s.row3 (k + 1) 0 in
      let eb : get_or t.row2 (k + 1) 0 ≡ b = rw p.dilates.row2 in
      let ec : get_or t.row2 (k + 1 + 1) 0 ≡ c = rw p.dilates.row2 in
      let eu : get_or t.row1 (k + 1) 0 ≡ u = rw p.dilates.row1 in
      let ev : get_or t.row3 (k + 1) 0 ≡ v = rw p.dilates.row3 in
      let new = next_plus-blob a b c u v q p.carries ∙ sym (largest5_plus k) in
      let place : y * width + (k + 1) ≡ y * width + suc k = omega arith in
      let same : suc k ≡ k + 1 = omega arith in
      rw (eb, ec, eu, ev, place)
        (record {
          carries = rw same (next_plus-Carries a b c u v q p.carries);
          dilates =
              Dilates-suc width largest5 y s k _ t (omega arith) p.dilates new
                (λ z. zero_before largest5 k largest5-ge h (sym new ∙ z));
        })

  dilate5_line-Draws : Draws width (dilating largest5) y s (dilate5_line width y s)
  unfolding dilate5_line
  dilate5_line-Draws =
      let e : 0 + 1 ≡ 1 = omega arith in
      let start : Plus = record { blob = 1; mem = max2 (get_or s.row2 0 0) (get_or s.row2 1 0) } in
      let p =
        rounds_inv Runs5 (dilate5_step width y) (width - 2) (start, s)
          (record {
            carries = record {
              none = λ (z : start.blob ≡ 0). absurd (omega arith);
              some = λ z. rw e (max2-max (get_or s.row2 0 0) (get_or s.row2 1 0));
            };
            dilates = Dilates-start width largest5 y s;
          })
          Runs5-step in
      Draws-Dilates largest5 _ p.dilates

pub dilate9_line-Implements :
    (width : ℕ) → 2 ≤ width → Implements width (dilating largest9) (dilate9_line width)
dilate9_line-Implements width wide y s room current = dilate9_line-Draws width y s wide room current

pub dilate5_line-Implements :
    (width : ℕ) → 2 ≤ width → Implements width (dilating largest5) (dilate5_line width)
dilate5_line-Implements width wide y s room current = dilate5_line-Draws width y s wide room current
