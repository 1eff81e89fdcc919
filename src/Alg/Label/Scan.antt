-- ===== src/Alg/Label/Scan.antt =====
-- A segment of iflood's stack from its pop to the end of its scan line, with room on the stack.
use cy_prus.Prelude.{
  ℕ, ◌+◌, ◌-◌, ◌≤◌, ◌<◌, ◌≡◌, ◌≢◌, ◌⊎◌, inl, inr, refl, ltb, leb, arith, dec_lt, ℕ_discrete,
  Bool-cases,
}
use cy_prus.Prelude.{some, List}
use cy_prus.Alg.Label.{
  Fill, Dir, opposite, Segment, maxs, fill_left, next_open, spans, scan_segment,
}
use cy_prus.Alg.Label.Runs.{LeftFill, fill_left-LeftFill}
use cy_prus.Alg.Label.Steps.{next_open-Skipped, next_open_later, spans_inv}
use cy_prus.Alg.Label.Budget.{Budget, Run-Budget}
use cy_prus.Alg.Label.Rounds.{with_leak, leak-Budget, next_open-Entry}
use cy_prus.Alg.Label.Reach.{right, NextRow, Open, Reach, step, Painted, Explored, Explored-less}
use cy_prus.Alg.Label.Explored.{push-Explored, run_painted, still_painted, run-Explored}
use cy_prus.Alg.Label.Region.{
  closed_painted, cells_before, reach_left, either_row, Behind, Behind-pushed, Todo, Round, Skip,
  grow_right-Skip,
}

module _ (out : List ℕ) (width height new old : ℕ) (before : List ℕ) (x0 y0 : ℕ) where
  abbrev Free : (x y : ℕ) → Type 0
  Free = Open out width height new old before x0 y0

  abbrev Fits : (todo : ℕ → ℕ → Type 0) → Fill → Type 0
  Fits = Explored out width height new old before x0 y0

  abbrev Filled : Fill → (x y : ℕ) → Type 0
  Filled = Painted out width height new old before x0 y0

  abbrev Joined : (x y : ℕ) → Type 0
  Joined = Reach out width height new old before x0 y0

  module _ (ne : new ≢ old) (start : Free x0 y0) (y x2 : ℕ) (dy : Dir) (row : y < height)
      (col : x2 < width) (b : ℕ) (fits : b ≤ maxs) (x1 : ℕ)
      (targets : (q : ℕ) → x1 ≤ q → q ≤ x2 → Free q y → Joined q y) where
    abbrev AtSkip : (x : ℕ) (f : Fill) → Type 0
    AtSkip = Skip out width height new old before x0 y0 ne start y x2 dy row col b fits x1 targets

    abbrev AtRound : (l x : ℕ) (f : Fill) → Type 0
    AtRound = Round out width height new old before x0 y0 ne start y x2 dy row col b fits x1 targets

    module _ (x : ℕ) (f : Fill) (h : AtSkip x f) where
      abbrev next : ℕ
      next = next_open out width height new old f.labels y x2 x

      -- The columns that the loop passes over are painted, where they were open before.
      passed : (q : ℕ) → x ≤ q → q < next → Free q y → Filled f q y
      passed q le lt o = elim (ℕ_discrete x q) [
        | yes e ↦ rw (← e) (h.stop (rw e o))
        | no other ↦
            let closed = next_open-Skipped out width height new old y x2 f.labels x in
            closed_painted out width height new old before x0 y0 h.paid q y
              (closed.closed q (omega arith) lt) o
      ]

      -- What is left for column `z` on, where the columns before are passed.
      pub explored_next : Fits (λ u v. (v ≡ y) × (next ≤ u) × (u ≤ x2)) f
      explored_next =
          Explored-less out width height new old before x0 y0 start h.explored
            (λ u v o (same, le, le2). elim (dec_lt u next) [
              | yes lt ↦ inl (rw same (passed u le lt (rw (← same) o)))
              | no ge ↦ inr (inr (same, omega arith, le2))
            ])

      pub skip-Round : next ≤ x2 → AtRound next next f
      skip-Round le =
          let later : x < next = next_open_later out width height new old y x2 f.labels x in
          record {
            entry =
                next_open-Entry out width height new old before ne y x2 dy row col b x f le
                  (h.inside, h.paid);
            explored =
                Explored-less out width height new old before x0 y0 start explored_next
                  (λ u v o (same, ge, le2). inr (inr (inl (same, ge, inl le2))));
            behind = h.behind;
            cells = λ q ge lt. absurd (omega arith);
            base = targets next (omega (arith, h.lower)) le;
            lower = omega (arith, h.lower);
            left_stop = λ q e o. passed q (omega arith) (omega arith) o;
          }

      pub skip_end : x2 < next → Fits (λ u v. ⊥) f
      skip_end lt =
          Explored-less out width height new old before x0 y0 start explored_next
            (λ u v o (same, ge, le2). absurd (omega arith))

    abbrev Paid : Fill → Type 0
    Paid = Budget out width height new old before 0 b

    pub spans-Explored :
        (fuel l x : ℕ) (f : Fill)
        → x2 + 2 ≤ fuel + x
        → AtRound l x f
        → (g : Fill) × (spans out width height new old fuel y x2 dy l x f ≡ some g)
          × Paid g
          × Fits (λ u v. ⊥) g
    spans-Explored fuel l x f enough h =
        let run =
          spans_inv out width height new old y x2 dy AtRound AtSkip
            (grow_right-Skip out width height new old before x0 y0 ne start y x2 dy row col b fits
              x1 targets)
            (λ x f le h. skip-Round x f h le) fuel l x f enough h.entry.span h in
        (run.0, run.2, run.3.paid, skip_end run.1 run.0 run.3 run.4)

    abbrev Back : Fill → Type 0
    Back = Behind out width height new old before x0 y0 ne start y x2 dy row col b fits x1 targets

    abbrev Ahead : (l x u v : ℕ) → Type 0
    Ahead = Todo out width height new old before x0 y0 ne start y x2 dy row col b fits x1 targets

    module _ (f : Fill) (le : x1 ≤ x2) (paid : Paid f)
        (explored : Fits (λ u v. (v ≡ y) × (x1 ≤ u) × (u ≤ x2)) f) (behind : Back f) where
      -- The first pixel is closed, and the scan goes on at `skip`.
      pub first-Skip : (Free x1 y → Filled f x1 y) → AtSkip x1 f
      first-Skip stop = record {
        inside = omega arith;
        lower = omega arith;
        paid = paid;
        explored = explored;
        behind = behind;
        stop = stop;
      }

      module _ (r : ℕ × Fill) (near : r.0 ≤ x1)
          (fill : LeftFill out width height new old y (x1 + 1) f r) where
        inside_left : x1 + 1 ≤ width
        inside_left = omega arith

        cells_left : (q : ℕ) → r.0 ≤ q → q < x1 + 1 → Free q y
        cells_left =
            cells_before out width height new old before x0 y0 ne 0 b f r.1 y r.0 (x1 + 1) paid
              fill.run inside_left row

        painted_left : (q : ℕ) → r.0 ≤ q → q < x1 + 1 → Filled r.1 q y
        painted_left =
            run_painted out width height new old before x0 y0 f r.1 y r.0 (x1 + 1) fill.run
              inside_left

        behind_left : Back r.1
        behind_left q v ge le n o = elim (behind q v ge le n o) [
          | inl p ↦ inl (
              still_painted out width height new old before x0 y0 f r.1 y r.0 (x1 + 1) fill.run
                inside_left q v p)
          | inr c ↦ inr (rw fill.run.stack c)
        ]

        -- Every painted column is joined with the start through column x1.
        linked_left : (q : ℕ) → r.0 ≤ q → q < x1 + 1 → Joined q y
        linked_left q ge lt =
            reach_left out width height new old before x0 y0 y x1 (x1 - q)
              (targets x1 (omega arith) le) (λ p h h'. cells_left p (omega arith) (omega arith)) q
              (omega arith)

        explored_left :
            Fits
              (λ u v. Ahead r.0 (x1 + 1) u v ⊎ (NextRow (opposite dy) y v × (r.0 ≤ u) × (u < x1)))
              r.1
        explored_left =
            Explored-less out width height new old before x0 y0 start
              (run-Explored out width height new old before x0 y0 f r.1 y r.0 (x1 + 1) fill.run
                inside_left (λ u v. ((v ≡ y) × (x1 ≤ u) × (u ≤ x2)) ⊎ ((v ≡ y) × (u ≡ x1 + 1)))
                (λ q ge lt o. linked_left q ge lt)
                (λ q e o.
                  closed_painted out width height new old before x0 y0 paid q y (fill.stop q e) o)
                (λ o. inr (inr (inr (refl, refl))))
                (Explored-less out width height new old before x0 y0 start explored
                  (λ u v o t. inr (inr (inl t)))))
              (λ u v o t. elim t [
                | inl (inl (same, ge, le2)) ↦ elim (ℕ_discrete u x1) [
                  | yes at ↦ inl (rw same (painted_left u (omega arith) (omega arith)))
                  | no past ↦ inr (inr (inl (inl (same, omega arith, inl le2))))
                ]
                | inl (inr (same, at)) ↦ inr (inr (inl (inl (same, omega arith, inr at))))
                | inr (n, ge, lt) ↦ elim (either_row dy y v n) [
                  | inl ahead ↦ inr (inr (inl (inr (ahead, ge, lt))))
                  | inr back ↦ elim (ℕ_discrete u x1) [
                    | no before_x1 ↦ inr (inr (inr (back, ge, omega arith)))
                    | yes at ↦ elim (behind_left u v (omega arith) (omega arith) back o) [
                      | inl p ↦ inl p
                      | inr c ↦ inr (inl c)
                    ]
                  ]
                ]
              ])

        abbrev leaked : Fill
        leaked = with_leak out width height new old before ne y x2 dy row col b x1 r.0 r.1

        abbrev left_segment : Segment
        left_segment = record { y = y; xl = r.0; xr = x1 - 1; dy = opposite dy }

        paid_left : Budget out width height new old before 3 b r.1
        paid_left = Run-Budget out width height new old before ne fill.run (omega arith) paid

        explored_leaked : Fits (Ahead r.0 (x1 + 1)) leaked × Back leaked
        explored_leaked = elim (Bool-cases (ltb r.0 x1)) [
          | inr near_x1 ↦ rw near_x1 (
            Explored-less out width height new old before x0 y0 start explored_left (λ u v o t.
                elim t [ inl rest ↦ inr (inr rest) | inr (n, ge, lt) ↦ absurd (ground arith) ]),
            behind_left,
          )
          | inl leaks ↦
              let lt : r.0 < x1 = ground arith in
              rw leaks (
                push-Explored out width height new old before x0 y0 r.1 (opposite dy) y r.0 (x1 - 1)
                    start
                    (λ q ge le'. (cells_left q ge (omega arith), painted_left q ge (omega arith)))
                    (Ahead r.0 (x1 + 1)) (omega (arith, paid_left.paid))
                    (Explored-less out width height new old before x0 y0 start explored_left
                      (λ u v o t. elim t [
                        | inl rest ↦ inr (inr (inl rest))
                        | inr (n, ge, lt') ↦ inr (inr (inr (n, ge, omega arith)))
                      ])),
                Behind-pushed out width height new old before x0 y0 ne start y x2 dy row col b fits
                    x1 targets r.1 left_segment behind_left,
              )
        ]

        leaked_labels : leaked.labels ≡ r.1.labels
        leaked_labels = refl

        -- The do loop starts.
        pub left-Round : AtRound r.0 (x1 + 1) leaked
        left-Round = record {
          entry = record {
            order = omega arith;
            inside = omega arith;
            span = omega arith;
            budget = inl (
              omega arith,
              leak-Budget out width height new old before ne y x2 dy row col b x1 r.0 r.1 near
                  (omega arith) paid_left,
            );
          };
          explored = explored_leaked.0;
          behind = explored_leaked.1;
          cells = λ q ge lt. (cells_left q ge lt, painted_left q ge lt);
          base = λ o. step (linked_left x1 near (omega arith)) (right refl refl) o;
          lower = omega arith;
          left_stop = λ q e o. painted_left q (omega arith) (omega arith);
        }

      -- The whole scan line of a segment.
      pub scan_segment-Explored :
          (g : Fill) × (scan_segment out width height new old y x1 x2 dy f ≡ some g)
          × Paid g
          × Fits (λ u v. ⊥) g
      unfolding scan_segment
      scan_segment-Explored =
          let r = fill_left out width height new old y (x1 + 1) f in
          let fill =
            fill_left-LeftFill out width height new old ne y row (x1 + 1) f (omega arith)
              paid.room in
          let next = next_open out width height new old f.labels y x2 x1 in
          elim (Bool-cases (ltb x1 r.0)) [
            | inl far ↦
                let at : x1 + 1 ≡ r.0 = ground (arith, fill.order) in
                let skip = first-Skip (λ o.
                  closed_painted out width height new old before x0 y0 paid x1 y (fill.stop x1 at)
                    o) in
                rw far (elim (Bool-cases (leb next x2)) [
                  | inl within ↦ rw within (
                      spans-Explored (x2 + 2) next next f (omega arith)
                        (skip-Round x1 f skip (ground arith)))
                  | inr past ↦ rw past (f, refl, paid, skip_end x1 f skip (ground arith))
                ])
            | inr near ↦ rw near (
                let le' : r.0 ≤ x1 = ground arith in
                spans-Explored (x2 + 2) r.0 (x1 + 1) (leaked r le' fill) (omega arith)
                  (left-Round r le' fill))
          ]
