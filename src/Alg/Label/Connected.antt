-- ===== src/Alg/Label/Connected.antt =====
-- With room on its stack, iflood labels exactly the pixels that are joined with its start.
use cy_prus.Prelude.{
  ℕ, zero, suc, ◌+◌, ◌-◌, ◌*◌, ◌≤◌, ◌<◌, ◌≡◌, ◌≢◌, ◌⊎◌, inl, inr, refl, sym, ◌∙◌, ap, ap₂, true,
  false, ◌&&◌, ltb, lt→ltb, arith, Bool-cases, count_below-le,
}
use cy_prus.Prelude.{Option, none, some, List, [], ◌∷◌, length, get_or}
use mathlib.Core.Path.{subst}
use cy_prus.Alg.Label.{
  Fill, Dir, down, up, opposite, Segment, maxs, push, row_after, is_row_after, scan_segment, iflood,
}
use cy_prus.Alg.Label.Runs.{open_at, open_count, painted-closed}
use cy_prus.Alg.Label.Steps.{flood_inv}
use cy_prus.Alg.Label.Budget.{AllPlaced, row_after_lt, Budget}
use cy_prus.Alg.Label.Rounds.{pop-Budget}
use cy_prus.Alg.Label.Flood.{seeds, seeded, seeded-Budget}
use cy_prus.Alg.Label.Reach.{
  below, NextRow, Covered, Open, Reach, here, step, Painted, Sources, Parents, Explored,
}
use cy_prus.Alg.Label.Scan.{scan_segment-Explored}

-- Back from the next row.
pub back_row :
    (height : ℕ) (d : Dir) (y r : ℕ)
    → is_row_after height d y ≡ true
    → NextRow (opposite d) (row_after d y) r
    → r ≡ y
back_row height down y r h n = omega arith
back_row height up y r h n = ground arith

pub row_after_ne :
    (height : ℕ) (d : Dir) (y : ℕ) → is_row_after height d y ≡ true → row_after d y ≢ y
row_after_ne height down y h = λ e. omega arith
row_after_ne height up y h = λ e. ground arith

module _ (out : List ℕ) (width height new old : ℕ) (before : List ℕ) (x0 y0 : ℕ) where
  abbrev Free : (x y : ℕ) → Type 0
  Free = Open out width height new old before x0 y0

  abbrev Fits : (todo : ℕ → ℕ → Type 0) → Fill → Type 0
  Fits = Explored out width height new old before x0 y0

  abbrev Filled : Fill → (x y : ℕ) → Type 0
  Filled = Painted out width height new old before x0 y0

  abbrev Joined : (x y : ℕ) → Type 0
  Joined = Reach out width height new old before x0 y0

  module _ (f : Fill) (s : Segment) (rest : List Segment) (e : f.stack ≡ s ∷ rest) where
    abbrev popped : Fill
    popped = record f { stack = rest }

    -- The columns of the segment are to be looked at.
    pop-Explored :
        Fits (λ u v. ⊥) f → Fits (λ u v. (v ≡ row_after s.dy s.y) × (s.xl ≤ u) × (u ≤ s.xr)) popped
    pop-Explored h =
        let here_or_below : (u v : ℕ)
            → Covered f.stack u v
            → Covered rest u v ⊎ ((v ≡ row_after s.dy s.y) × (s.xl ≤ u) × (u ≤ s.xr)) =
          λ u v c. elim (subst (λ (st : List Segment). Covered st u v) (e) c) [
            | inl own ↦ inr (sym own.2, own.0, own.1)
            | inr other ↦ inl other
          ] in
        record {
          reached = h.reached;
          around = λ u v u' v' o p n o'. elim (h.around u v u' v' o p n o') [
            | inl p' ↦ inl p'
            | inr (inl c) ↦ inr (here_or_below u' v' c)
            | inr (inr none_left) ↦ absurd none_left
          ];
          sources = (subst (Sources out width height new old before x0 y0) (e) h.sources).1;
          parents = (subst (Parents out width height new old before x0 y0 f) (e) h.parents).1;
          begun = elim h.begun [
            | inl p' ↦ inl p'
            | inr (inl c) ↦ inr (here_or_below x0 y0 c)
            | inr (inr none_left) ↦ absurd none_left
          ];
        }

    -- The row that the segment came from is painted, or on the stack.
    pop_behind :
        is_row_after height s.dy s.y ≡ true
        → Fits (λ u v. ⊥) f
        → (q r : ℕ) → s.xl ≤ q
        → q ≤ s.xr
        → NextRow (opposite s.dy) (row_after s.dy s.y) r
        → Free q r
        → Filled f q r ⊎ Covered rest q r
    pop_behind valid h q r le ge n o =
        let same : r ≡ s.y = back_row height s.dy s.y r valid n in
        let parents = (subst (Parents out width height new old before x0 y0 f) (e) h.parents).0 in
        elim (parents q le ge (rw (← same) o)) [
          | inl p ↦ inl (rw same p)
          | inr (inl c) ↦ inr (rw same c)
          | inr (inr (ex, ey)) ↦ elim h.begun [
            | inl p ↦ inl (rw (same, ex, ey) p)
            | inr (inr none_left) ↦ absurd none_left
            | inr (inl c) ↦ elim (subst (λ (st : List Segment). Covered st x0 y0) (e) c) [
              | inl own ↦ absurd (row_after_ne height s.dy s.y valid (own.2 ∙ sym ey))
              | inr other ↦ inr (rw (same, ex, ey) other)
            ]
          ]
        ]

  module _ (ne : new ≢ old) (start : Free x0 y0) where
    -- A round of the loop over the stack.
    round-Explored :
        (b : ℕ)
        → suc b ≤ maxs
        → (f : Fill) (s : Segment) (rest : List Segment) → f.stack ≡ s ∷ rest
        → Budget out width height new old before 0 (suc b) f
        → Fits (λ u v. ⊥) f
        → (g : Fill) × (scan_segment out width height new old
              (row_after s.dy s.y)
              s.xl
              s.xr
              s.dy
              (record f { stack = rest })
            ≡ some g)
          × Budget out width height new old before 0 b g
          × Fits (λ u v. ⊥) g
    round-Explored b fits f s rest e h seen =
        let at = (subst (AllPlaced width height) (e) h.placed).0 in
        let targets = (subst (Sources out width height new old before x0 y0) (e) seen.sources).0 in
        scan_segment-Explored out width height new old before x0 y0 ne start (row_after s.dy s.y)
          s.xr s.dy (row_after_lt height s.dy s.y at.row) at.column b (omega arith) s.xl targets
          (record f { stack = rest }) at.order
          (pop-Budget out width height new old before ne b f s rest e h)
          (pop-Explored f s rest e seen) (pop_behind f s rest e at.row seen)

    -- Some bound on the rounds to come, which is no larger than the stack.
    abbrev Bounded : (n : ℕ) → Fill → Type 0
    Bounded n f =
        (b : ℕ) × (b ≤ n)
        × (b ≤ maxs)
        × Budget out width height new old before 0 b f
        × Fits (λ u v. ⊥) f

    limited_round :
        (n : ℕ) (f : Fill) (s : Segment) (rest : List Segment)
        → f.stack ≡ s ∷ rest
        → Bounded (suc n) f
        → (g : Fill) × (scan_segment out width height new old
              (row_after s.dy s.y)
              s.xl
              s.xr
              s.dy
              (record f { stack = rest })
            ≡ some g)
          × Bounded n g
    limited_round n f s rest e (zero, le, fits, h, seen) =
        absurd (omega (arith, h.paid, ap length e))
    limited_round n f s rest e (suc b, le, fits, h, seen) =
        let r = round-Explored b fits f s rest e h seen in
        (r.0, r.1, (b, omega arith, omega arith, r.2, r.3))

    -- After the loop every pixel that is joined with the start is painted.
    linked_painted :
        (f : Fill)
        → f.stack ≡ []
        → Fits (λ u v. ⊥) f
        → (u v : ℕ) → Joined u v
        → Filled f u v × Free u v
    linked_painted f e h u v here = elim h.begun [
      | inl p ↦ (p, start)
      | inr (inl c) ↦ absurd (subst (λ (st : List Segment). Covered st x0 y0) (e) c)
      | inr (inr none_left) ↦ absurd none_left
    ]
    linked_painted f e h u' v' (step {x = u} {y = v} j n o) =
        let p = linked_painted f e h u v j in
        elim (h.around u v u' v' p.1 p.0 n o) [
          | inl p' ↦ (p', o)
          | inr (inl c) ↦ absurd (subst (λ (st : List Segment). Covered st u' v') (e) c)
          | inr (inr none_left) ↦ absurd none_left
        ]

    abbrev lower_seed : Segment
    lower_seed = record { y = y0; xl = x0; xr = x0; dy = down }

    abbrev upper_seed : Segment
    upper_seed = record { y = y0 + 1; xl = x0; xr = x0; dy = up }

    unpainted : (u v : ℕ) → Free u v → ¬ Filled (seeded out width height new old before x0 y0) u v
    unpainted u v o p =
        let closed = painted-closed out width height new old ne before (v * width + u) p in
        let clash : true ≡ false = sym o.is ∙ closed in absurd (cc)

    -- The upper seed leads to the start.
    upper_start : row_after up (y0 + 1) ≡ y0
    upper_start = omega arith

    seeded_both :
        y0 + 1 < height
        → Fits
            (λ u v. ⊥)
            (record { labels = before; stack = upper_seed ∷ (lower_seed ∷ []); count = 0 })
    seeded_both lt = record {
      reached = λ u v o p. absurd (unpainted u v o p);
      around = λ u v u' v' o p n o'. absurd (unpainted u v o p);
      sources = (
        λ q le ge o. let e : q ≡ x0 = omega arith in rw (e, upper_start) here,
        (λ q le ge o. let e : x0 ≡ q = omega arith in step here (below e refl) o, tt),
      );
      parents = (
        λ q le ge o. inr (inl (inl (le, ge, refl))),
        (λ q le ge o. inr (inr (omega arith, refl)), tt),
      );
      begun = inr (inl (inl (omega arith, omega arith, upper_start)));
    }

    seeded_upper :
        height ≤ y0 + 1
        → Fits (λ u v. ⊥) (record { labels = before; stack = upper_seed ∷ []; count = 0 })
    seeded_upper last = record {
      reached = λ u v o p. absurd (unpainted u v o p);
      around = λ u v u' v' o p n o'. absurd (unpainted u v o p);
      sources = (λ q le ge o. let e : q ≡ x0 = omega arith in rw (e, upper_start) here, tt);
      parents = (λ q le ge o. let h : y0 + 1 < height = o.row in absurd (omega arith), tt);
      begun = inr (inl (inl (omega arith, omega arith, upper_start)));
    }

    seeded-Explored : Fits (λ u v. ⊥) (seeded out width height new old before x0 y0)
    unfolding push
    seeded-Explored =
        let here_in : (ltb 0 (y0 + 1) && ltb (y0 + 1 - 1) height) ≡ true =
          ground (arith, start.row) in
        elim (Bool-cases (ltb (y0 + 1) height)) [
          | inl more ↦ rw (more, here_in) (seeded_both (ground arith))
          | inr last ↦ rw (last, here_in) (seeded_upper (ground arith))
        ]

    -- The pixels that are joined with the start have the new label, the others their old one.
    pub record Region (after : List ℕ) : Type 0 where
      pub joined : (u v : ℕ) → Joined u v → get_or after (v * width + u) 0 ≡ new
      pub others :
          (u v : ℕ)
          → u < width
          → v < height
          → ¬ Joined u v
          → get_or after (v * width + u) 0 ≡ get_or before (v * width + u) 0

    -- Let the new label differ from the old one, the start be open, and the stack be large enough
    -- for the open pixels. Then iflood ends; every pixel that open pixels join with the start has the
    -- new label, every other pixel of the picture has its label still, and with the count the number
    -- of open pixels is what it was.
    pub iflood-Region :
        width * height ≤ length before
        → 3 * open_count out width height new old before + 2 ≤ maxs
        → (after : List ℕ) × (count : ℕ) × (iflood out width height new old x0 y0 before
            ≡ some (after, count))
          × Region after
          × (count + open_count out width height new old after
              ≡ open_count out width height new old before)
    unfolding iflood open_count
    iflood-Region room fits =
        let enough : 3 * open_count out width height new old before + 2 ≤ 3 * (width * height) + 3 =
          omega
            (arith, count_below-le (open_at out width height new old before) (width * height)) in
        let run =
          flood_inv out width height new old Bounded
            (λ f s rest e (b, le, fits, h, seen). omega (arith, h.paid, ap length e)) limited_round
            (3 * (width * height) + 3) (seeds out width height new old before x0 y0)
            (seeded out width height new old before x0 y0) refl
            (
              _,
              enough,
              fits,
              seeded-Budget out width height new old before x0 y0 start.column room,
              seeded-Explored,
            ) in
        let (b, le, small, paid, seen) = run.4 in
        let inside : (ltb x0 width && ltb y0 height) ≡ true =
          ap₂ ◌&&◌ (lt→ltb _ _ start.column) (lt→ltb _ _ start.row) in
        let ended =
          ap {B = Option (List ℕ × ℕ)}
            (λ (v : Option Fill). elim v [ none ↦ none | some f ↦ some (f.labels, f.count) ])
            run.2 in
        (
          run.0.labels,
          run.0.count,
          rw inside ended,
          record {
            joined = λ u v j. (linked_painted run.0 run.3 seen u v j).0;
            others = λ u v hu hv apart. elim (paid.pixels (v * width + u)) [
              | inl same ↦ same
              | inr p ↦
                  absurd (apart (seen.reached u v (record { column = hu; row = hv; is = p.1 }) p.0))
            ];
          },
          paid.total,
        )
