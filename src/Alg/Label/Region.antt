-- ===== src/Alg/Label/Region.antt =====
-- One scan line of iflood, with room on the stack: afterwards all that is next to a painted pixel is
-- painted or on the stack.
use cy_prus.Prelude.{
  ℕ, zero, suc, ◌+◌, ◌-◌, ◌*◌, ◌≤◌, ◌<◌, ◌≡◌, ◌≢◌, ◌⊎◌, inl, inr, refl, sym, ◌∙◌, ap, true, false,
  ◌&&◌, if◌then◌else◌, ltb, ◌==◌, truth, arith, dec_lt, dec_le, Bool-cases,
}
use cy_prus.Prelude.{List, get_or}
use cy_prus.Alg.Label.{
  Fill, Dir, down, up, opposite, Segment, maxs, push, is_open, fill_right, grow_right,
}
use cy_prus.Alg.Label.Runs.{Run, RightFill}
use cy_prus.Alg.Label.Budget.{push-length, Budget, open-before}
use cy_prus.Alg.Label.Rounds.{Entry, grown, round_fill, grow_right-Budget}
use cy_prus.Alg.Label.Reach.{
  right, left, NextRow, Covered, Open, Reach, step, Painted, Explored, Explored-less,
}
use cy_prus.Alg.Label.Explored.{
  push-Covered, push-Explored, run_painted, still_painted, run-Explored,
}

pub either_row :
    (d : Dir) (y r : ℕ)
    → NextRow down y r ⊎ NextRow up y r
    → NextRow d y r ⊎ NextRow (opposite d) y r
either_row down y r h = h
either_row up y r (inl h) = inr h
either_row up y r (inr h) = inl h

module _ (out : List ℕ) (width height new old : ℕ) (before : List ℕ) (x0 y0 : ℕ) where
  abbrev Free : (x y : ℕ) → Type 0
  Free = Open out width height new old before x0 y0

  abbrev Fits : (todo : ℕ → ℕ → Type 0) → Fill → Type 0
  Fits = Explored out width height new old before x0 y0

  abbrev Filled : Fill → (x y : ℕ) → Type 0
  Filled = Painted out width height new old before x0 y0

  abbrev Paid : (k b : ℕ) → Fill → Type 0
  Paid = Budget out width height new old before

  abbrev Joined : (x y : ℕ) → Type 0
  Joined = Reach out width height new old before x0 y0

  -- A pixel that was open and is closed now is painted.
  pub closed_painted :
      {k b : ℕ} {f : Fill}
      → Paid k b f
      → (u v : ℕ) → is_open out width height new old f.labels v u ≡ false
      → Free u v
      → Filled f u v
  closed_painted h u v e o = elim (h.pixels (v * width + u)) [
    | inr p ↦ p.0
    | inl same ↦
        let was = ap (λ k. truth (get_or out (v * width + u) 0) && k == old) same in
        let clash : true ≡ false = sym o.is ∙ sym was ∙ e in absurd (cc)
  ]

  -- The pixels of a run were open before the fill.
  pub cells_before :
      (ne : new ≢ old) (k b : ℕ) (f g : Fill) (y a c : ℕ)
      → Paid k b f
      → Run out width height new old (y * width + a) (y * width + c) f g
      → c ≤ width
      → y < height
      → (q : ℕ) → a ≤ q
      → q < c
      → Free q y
  cells_before ne k b f g y a c h run inside row q le lt = record {
    column = omega arith;
    row = row;
    is =
        open-before out width height new old before ne h (y * width + q)
          (run.opened (y * width + q) (omega arith) (omega arith));
  }

  -- From one pixel to all of a run on its right, and on its left.
  pub reach_right :
      (y x b n : ℕ)
      → (Free x y → Joined x y)
      → ((q : ℕ) → x ≤ q → q < b → Free q y)
      → x + n < b
      → Joined (x + n) y
  reach_right y x b zero base free lt =
      let e : x + 0 ≡ x = omega arith in rw e (base (free x (omega arith) (omega arith)))
  reach_right y x b (suc n) base free lt =
      step (reach_right y x b n base free (omega arith)) (right (omega arith) refl)
        (free (x + suc n) (omega arith) lt)

  pub reach_left :
      (y x n : ℕ)
      → (Free x y → Joined x y)
      → ((q : ℕ) → x ≤ q + n → q ≤ x → Free q y)
      → (q : ℕ) → q + n ≡ x
      → Joined q y
  reach_left y x zero base free q e =
      let same : q ≡ x = omega arith in rw same (base (free x (omega arith) (omega arith)))
  reach_left y x (suc n) base free q e =
      step (reach_left y x n base (λ p h h'. free p (omega arith) h') (q + 1) (omega arith))
        (left refl refl) (free q (omega arith) (omega arith))

  module _ (ne : new ≢ old) (start : Free x0 y0) (y x2 : ℕ) (dy : Dir) (row : y < height)
      (col : x2 < width) (b : ℕ) (fits : b ≤ maxs) (x1 : ℕ)
      (targets : (q : ℕ) → x1 ≤ q → q ≤ x2 → Free q y → Joined q y) where
    -- The row that the segment came from.
    abbrev pub Behind : Fill → Type 0
    Behind f =
        (q : ℕ) (r : ℕ)
        → x1 ≤ q
        → q ≤ x2
        → NextRow (opposite dy) y r
        → Free q r
        → Filled f q r ⊎ Covered f.stack q r

    -- The columns from `x` on are still to be looked at.
    abbrev Rest : (x u v : ℕ) → Type 0
    Rest x u v = (v ≡ y) × (x ≤ u) × (u ≤ x2)

    -- At the start of the do loop, moreover column `x`, and the row ahead of the painted columns.
    abbrev pub Todo : (l x u v : ℕ) → Type 0
    Todo l x u v = ((v ≡ y) × (x ≤ u) × ((u ≤ x2) ⊎ (u ≡ x))) ⊎ (NextRow dy y v × (l ≤ u) × (u < x))

    abbrev InRound : (l x : ℕ) (f : Fill) → Type 0
    InRound = Entry out width height new old before ne y x2 dy row col b

    -- At the start of the do loop.
    pub record Round (l x : ℕ) (f : Fill) : Type 0 where
      pub entry : InRound l x f
      pub explored : Fits (Todo l x) f
      pub behind : Behind f
      pub cells : (q : ℕ) → l ≤ q → q < x → Free q y × Filled f q y
      pub base : Free x y → Joined x y
      pub lower : x1 ≤ x
      pub left_stop : (q : ℕ) → q + 1 ≡ x → Free q y → Filled f q y

    -- At the label `skip`.
    pub record Skip (x : ℕ) (f : Fill) : Type 0 where
      pub inside : x ≤ width
      pub lower : x1 ≤ x
      pub paid : Paid 0 b f
      pub explored : Fits (Rest x) f
      pub behind : Behind f
      pub stop : Free x y → Filled f x y

    pub Behind-pushed :
        (f : Fill) (s : Segment) → Behind f → Behind (record f { stack = push height s f.stack })
    Behind-pushed f s h q r le ge n o = elim (h q r le ge n o) [
      | inl p ↦ inl p
      | inr c ↦ inr (push-Covered height s f.stack q r c)
    ]

    module _ (l x : ℕ) (f : Fill) (h : Round l x f) (r : ℕ × Fill)
        (fill : RightFill out width height new old y x f r) where
      round_slack : (k : ℕ) × Paid k b f
      round_slack = elim h.entry.budget [ inl q ↦ (2, q.1) | inr q ↦ (0, q.2) ]

      cells_new : (q : ℕ) → x ≤ q → q < r.0 → Free q y
      cells_new =
          cells_before ne (round_slack.0) b f r.1 y x r.0 round_slack.1 fill.run fill.room row

      painted_right : (q : ℕ) → x ≤ q → q < r.0 → Filled r.1 q y
      painted_right =
          run_painted out width height new old before x0 y0 f r.1 y x r.0 fill.run fill.room

      still_right : (u v : ℕ) → Filled f u v → Filled r.1 u v
      still_right =
          still_painted out width height new old before x0 y0 f r.1 y x r.0 fill.run fill.room

      -- The columns from `l` on, after the fill to the right.
      cells_right : (q : ℕ) → l ≤ q → q < r.0 → Free q y × Filled r.1 q y
      cells_right q le lt = elim (dec_lt q x) [
        | yes before_x ↦ let c = h.cells q le before_x in (c.0, still_right q y c.1)
        | no from_x ↦ (cells_new q (omega arith) lt, painted_right q (omega arith) lt)
      ]

      stop_right : Free r.0 y → Filled f r.0 y
      stop_right o = closed_painted round_slack.1 r.0 y (fill.stop o.column) o

      rear_right : Behind r.1
      rear_right q v le ge n o = elim (h.behind q v le ge n o) [
        | inl p ↦ inl (still_right q v p)
        | inr c ↦ inr (rw fill.run.stack c)
      ]

      -- What the two segments of the round are for.
      explored_right :
          Fits
            (λ u v.
              (Rest r.0 u v ⊎ (NextRow (opposite dy) y v × (x2 + 1 ≤ u) × (u ≤ r.0 - 1)))
              ⊎ (NextRow dy y v × (l ≤ u) × (u ≤ r.0 - 1)))
            r.1
      explored_right =
          Explored-less out width height new old before x0 y0 start
            (run-Explored out width height new old before x0 y0 f r.1 y x r.0 fill.run fill.room
              (Todo l x)
              (λ q le lt o.
                let e : x + (q - x) ≡ q = omega arith in
                rw (← e) (reach_right y x r.0 (q - x) h.base cells_new (omega arith)))
              h.left_stop (λ o. inl (stop_right o)) h.explored)
            (λ u v o t. elim t [
              | inl (inl (same, le, among)) ↦ elim (dec_lt u r.0) [
                | yes lt ↦ inl (rw same (painted_right u le lt))
                | no ge ↦ elim among [
                  | inl le2 ↦ inr (inr (inl (inl (same, omega arith, le2))))
                  | inr at ↦
                      let e : u ≡ r.0 = omega (arith, fill.order) in
                      let o' : Free r.0 y = rw (← e, ← same) o in
                      inl (rw (e, same) (still_right r.0 y (stop_right o')))
                ]
              ]
              | inl (inr (n, le, lt)) ↦ inr (inr (inr (n, le, omega (arith, fill.order))))
              | inr (n, le, lt) ↦ elim (either_row dy y v n) [
                | inl ahead ↦ inr (inr (inr (ahead, omega (arith, h.entry.order), omega arith)))
                | inr back ↦ elim (dec_le u x2) [
                  | no past ↦ inr (inr (inl (inr (back, omega arith, omega arith))))
                  | yes le2 ↦ elim (rear_right u v (omega (arith, h.lower)) le2 back o) [
                    | inl p ↦ inl p
                    | inr c ↦ inr (inl c)
                  ]
                ]
              ]
            ])

      -- The segment ahead is on the stack.
      abbrev with_ahead : Fill
      with_ahead = record r.1 {
        stack = push height (record { y = y; xl = l; xr = r.0 - 1; dy = dy }) r.1.stack;
      }

      explored_ahead :
          Fits
            (λ u v. Rest r.0 u v ⊎ (NextRow (opposite dy) y v × (x2 + 1 ≤ u) × (u ≤ r.0 - 1)))
            with_ahead
      explored_ahead =
          let g = grown out width height new old before ne y x2 dy row col b l x f r fill h.entry in
          push-Explored out width height new old before x0 y0 r.1 dy y l (r.0 - 1) start
            (λ q le ge. cells_right q le (omega (arith, g.0)))
            (λ u v. Rest r.0 u v ⊎ (NextRow (opposite dy) y v × (x2 + 1 ≤ u) × (u ≤ r.0 - 1)))
            (omega (arith, g.1.paid)) explored_right

      -- The segment of the leak on the right.
      abbrev right_leak : Segment
      right_leak = record { y = y; xl = x2 + 1; xr = r.0 - 1; dy = opposite dy }

      abbrev with_right_leak : Fill
      with_right_leak = record with_ahead {
        stack =
            if ltb (x2 + 1) r.0 then push height right_leak with_ahead.stack else with_ahead.stack;
      }

      explored_leak : Fits (Rest r.0) with_right_leak × Behind with_right_leak
      explored_leak =
          let g = grown out width height new old before ne y x2 dy row col b l x f r fill h.entry in
          let ahead : Segment = record { y = y; xl = l; xr = r.0 - 1; dy = dy } in
          let behind = Behind-pushed r.1 ahead rear_right in
          elim (Bool-cases (ltb (x2 + 1) r.0)) [
            | inl leaks ↦ rw leaks (
              push-Explored out width height new old before x0 y0 with_ahead (opposite dy) y
                  (x2 + 1) (r.0 - 1) start
                  (λ q le ge.
                    cells_right q (omega (arith, h.entry.order, h.entry.span)) (omega (arith, g.0)))
                  (Rest r.0) (omega (arith, g.1.paid, push-length height ahead r.1.stack))
                  explored_ahead,
              Behind-pushed with_ahead right_leak behind,
            )
            | inr fits_in ↦ rw fits_in (
              Explored-less out width height new old before x0 y0 start explored_ahead (λ u v o t.
                  elim t [ inl rest ↦ inr (inr rest) | inr (n, le, ge) ↦ absurd (ground arith) ]),
              behind,
            )
          ]

    -- A round of the do loop, up to `skip`.
    pub grow_right-Skip :
        (l x : ℕ) (f : Fill)
        → Round l x f
        → (x ≤ (grow_right out width height new old y x2 dy l x f).0)
          × Skip
              (grow_right out width height new old y x2 dy l x f).0
              (grow_right out width height new old y x2 dy l x f).1
    unfolding grow_right
    grow_right-Skip l x f h =
        let r = fill_right out width height new old y (width - x) x f in
        let fill = round_fill out width height new old before ne y x2 dy row col b l x f h.entry in
        let kept =
          grow_right-Budget out width height new old before ne y x2 dy row col b l x f h.entry in
        let seen = explored_leak l x f h r fill in
        (
          kept.0,
          record {
            inside = kept.1;
            lower = omega (arith, h.lower, fill.order);
            paid = kept.2;
            explored = seen.0;
            behind = seen.1;
            stop = λ o. let p = still_right l x f h r fill r.0 y (stop_right l x f h r fill o) in p;
          },
        )
