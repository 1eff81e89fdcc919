-- ===== src/Alg/Label/Rounds.antt =====
-- The rounds of iflood keep the budget, and so its loops end.
use cy_prus.Prelude.{
  ℕ, suc, ◌+◌, ◌-◌, ◌*◌, ◌≤◌, ◌<◌, ◌≡◌, ◌≢◌, ◌⊎◌, inl, inr, refl, ap, true, if◌then◌else◌, leb, ltb,
  arith, Bool-cases,
}
use cy_prus.Prelude.{some, List, [], ◌∷◌, length}
use cy_prus.Alg.Label.{
  Fill, Dir, opposite, Segment, push, row_after, is_open, fill_left, fill_right, grow_right,
  next_open, spans, scan_segment, flood_loop,
}
use cy_prus.Alg.Label.Runs.{RightFill, fill_left-LeftFill, fill_right-RightFill}
use cy_prus.Alg.Label.Steps.{next_open_open, spans_inv, flood_inv}
use mathlib.Core.Path.{subst}
use cy_prus.Alg.Label.Budget.{AllPlaced, row_after_lt, Budget, Budget-less, push-Budget, Run-Budget}

module _ (out : List ℕ) (width height new old : ℕ) (before : List ℕ) where
  abbrev Paid : (k b : ℕ) → Fill → Type 0
  Paid = Budget out width height new old before

  module _ (ne : new ≢ old) where
    module _ (y x2 : ℕ) (dy : Dir) (row : y < height) (col : x2 < width) (b : ℕ) where
      -- At the start of the do loop: something was painted from column `l` on, or will be.
      pub record Entry (l x : ℕ) (f : Fill) : Type 0 where
        pub order : l ≤ x
        pub inside : x ≤ width
        pub span : x ≤ x2 + 1
        pub budget :
            ((l < x) × Paid 2 b f)
            ⊎ ((x < width) × (is_open out width height new old f.labels y x ≡ true) × Paid 0 b f)

      -- After the fill to the right both its segments are paid for, and it is not empty.
      pub grown :
          (l x : ℕ) (f : Fill) (r : ℕ × Fill)
          → RightFill out width height new old y x f r
          → Entry l x f
          → (l < r.0) × Paid 2 b r.1
      grown l x f r fill e = elim e.budget [
        | inl (lt, h) ↦ (
          omega (arith, fill.order),
          Run-Budget out width height new old before ne fill.run (omega (arith, fill.order)) h,
        )
        | inr (lt, is, h) ↦
            let some_painted : x < r.0 = fill.start lt is in
            (
              omega (arith, e.order),
              Run-Budget out width height new old before ne fill.run (omega arith) h,
            )
      ]

      pub Entry-room : {l x : ℕ} {f : Fill} → Entry l x f → width * height ≤ length f.labels
      Entry-room e = elim e.budget [ inl (lt, h) ↦ h.room | inr (lt, is, h) ↦ h.room ]

      -- The fill to the right at the start of a round.
      pub round_fill :
          (l x : ℕ) (f : Fill)
          → Entry l x f
          → RightFill out width height new old y x f
              (fill_right out width height new old y (width - x) x f)
      round_fill l x f e =
          fill_right-RightFill out width height new old ne y row (width - x) x f e.inside refl
            (Entry-room e)

      pub grow_right-Budget :
          (l x : ℕ) (f : Fill)
          → Entry l x f
          → (x ≤ (grow_right out width height new old y x2 dy l x f).0)
            × ((grow_right out width height new old y x2 dy l x f).0 ≤ width)
            × Paid 0 b (grow_right out width height new old y x2 dy l x f).1
      unfolding grow_right
      grow_right-Budget l x f e =
          let r = fill_right out width height new old y (width - x) x f in
          let fill = round_fill l x f e in
          let kept = grown l x f r fill e in
          let lt : l < r.0 = kept.0 in
          let inside : r.0 ≤ width = fill.room in
          let s : Segment = record { y = y; xl = l; xr = r.0 - 1; dy = dy } in
          let one =
            push-Budget out width height new old before 1 b r.1 s (omega arith) (omega arith)
              kept.1 in
          (
            fill.order,
            inside,
            elim (Bool-cases (ltb (x2 + 1) r.0)) [
              | inr e' ↦ rw e' (Budget-less out width height new old before one (omega arith))
              | inl e' ↦ rw e' (
                  push-Budget out width height new old before 0 b
                    (record r.1 { stack = push height s r.1.stack })
                    (record { y = y; xl = x2 + 1; xr = r.0 - 1; dy = opposite dy }) (ground arith)
                    (omega arith) one)
            ],
          )

      -- The next round starts at an open pixel.
      pub next_open-Entry :
          (x : ℕ) (f : Fill)
          → next_open out width height new old f.labels y x2 x ≤ x2
          → (x ≤ width) × Paid 0 b f
          → Entry
              (next_open out width height new old f.labels y x2 x)
              (next_open out width height new old f.labels y x2 x)
              f
      next_open-Entry x f le h = record {
        order = omega arith;
        inside = omega arith;
        span = omega arith;
        budget = inr (omega arith, next_open_open out width height new old y x2 f.labels x le, h.1);
      }

      pub spans-Budget :
          (fuel l x : ℕ) (f : Fill)
          → x2 + 2 ≤ fuel + x
          → Entry l x f
          → (g : Fill) × (spans out width height new old fuel y x2 dy l x f ≡ some g) × Paid 0 b g
      spans-Budget fuel l x f enough e =
          let run =
            spans_inv out width height new old y x2 dy Entry (λ x g. (x ≤ width) × Paid 0 b g)
              (λ l x f e. let h = grow_right-Budget l x f e in (h.0, (h.1, h.2))) next_open-Entry
              fuel l x f enough e.span e in
          (run.0, run.2, run.3.1)

      -- The fill `f` of the row, with the leak of the columns `l` to x1 - 1.
      abbrev pub with_leak : (x1 l : ℕ) → Fill → Fill
      with_leak x1 l f =
          let leak =
            push height (record { y = y; xl = l; xr = x1 - 1; dy = opposite dy }) f.stack in
          record f { stack = if ltb l x1 then leak else f.stack }

      pub leak-Budget :
          (x1 l : ℕ) (f : Fill) → l ≤ x1 → x1 < width → Paid 3 b f → Paid 2 b (with_leak x1 l f)
      leak-Budget x1 l f le lt h = elim (Bool-cases (ltb l x1)) [
        | inr near ↦ rw near (Budget-less out width height new old before h (omega arith))
        | inl leaks ↦ rw leaks (
            push-Budget out width height new old before 2 b f
              (record { y = y; xl = l; xr = x1 - 1; dy = opposite dy }) (ground arith) (omega arith)
              h)
      ]

      -- One segment, taken off the stack.
      pub scan_segment-Budget :
          (x1 : ℕ) (f : Fill)
          → x1 ≤ x2
          → Paid 0 b f
          → (g : Fill) × (scan_segment out width height new old y x1 x2 dy f ≡ some g) × Paid 0 b g
      unfolding scan_segment
      scan_segment-Budget x1 f le h =
          let r = fill_left out width height new old y (x1 + 1) f in
          let fill =
            fill_left-LeftFill out width height new old ne y row (x1 + 1) f (omega arith) h.room in
          let next = next_open out width height new old f.labels y x2 x1 in
          elim (Bool-cases (ltb x1 r.0)) [
            | inl far ↦ rw far (elim (Bool-cases (leb next x2)) [
              | inl within ↦ rw within (
                  spans-Budget (x2 + 2) next next f (omega arith)
                    (next_open-Entry x1 f (ground arith) (omega arith, h)))
              | inr past ↦ rw past (f, refl, h)
            ])
            | inr near ↦ rw near (
                let l_le : r.0 ≤ x1 = ground arith in
                let left : Paid 3 b r.1 =
                  Run-Budget out width height new old before ne fill.run (omega arith) h in
                let entry : Entry r.0 (x1 + 1) (with_leak x1 r.0 r.1) = record {
                  order = omega arith;
                  inside = omega arith;
                  span = omega arith;
                  budget = inl (omega arith, leak-Budget x1 r.0 r.1 l_le (omega arith) left);
                } in
                spans-Budget (x2 + 2) r.0 (x1 + 1) (with_leak x1 r.0 r.1) (omega arith) entry)
          ]

    module _ (b : ℕ) where
      pub pop-Budget :
          (f : Fill) (s : Segment) (rest : List Segment)
          → f.stack ≡ s ∷ rest
          → Paid 0 (suc b) f
          → Paid 0 b (record f { stack = rest })
      pop-Budget f s rest e h = record {
        room = h.room;
        paid = omega (arith, h.paid, ap length e);
        total = h.total;
        pixels = h.pixels;
        placed = (subst (AllPlaced width height) (e) h.placed).1;
      }

      -- A round of the loop over the stack uses one of the `b` rounds.
      pub round-Budget :
          (f : Fill) (s : Segment) (rest : List Segment)
          → f.stack ≡ s ∷ rest
          → Paid 0 (suc b) f
          → (g : Fill) × (scan_segment out width height new old
                (row_after s.dy s.y)
                s.xl
                s.xr
                s.dy
                (record f { stack = rest })
              ≡ some g)
            × Paid 0 b g
      round-Budget f s rest e h =
          let at = (subst (AllPlaced width height) (e) h.placed).0 in
          scan_segment-Budget (row_after s.dy s.y) s.xr s.dy (row_after_lt height s.dy s.y at.row)
            at.column b s.xl (record f { stack = rest }) at.order (pop-Budget f s rest e h)

    -- Enough fuel: every segment is taken off the stack.
    pub flood_loop-Budget :
        (n : ℕ) (f : Fill)
        → Paid 0 n f
        → (g : Fill) × (m : ℕ) × (flood_loop out width height new old n f.stack f ≡ some g)
          × (g.stack ≡ [])
          × Paid 0 m g
    flood_loop-Budget n f h =
        flood_inv out width height new old (Paid 0)
          (λ f s rest e h. omega (arith, h.paid, ap length e))
          (λ n f s rest e h. round-Budget n f s rest e h) n f.stack f refl h
