-- ===== src/Alg/Label/Steps.antt =====
-- Rules for the loops of iflood: what every round keeps holds at the end, and the fuel is enough.
use cy_prus.Prelude.{
  ℕ, zero, suc, ◌+◌, ◌-◌, ◌≤◌, ◌<◌, ◌≡◌, refl, ◌∙◌, ap, true, false, leb, arith, dec_le,
}
use cy_prus.Prelude.{Option, none, some, List, [], ◌∷◌}
use cy_prus.Alg.Label.{
  Fill, Dir, Segment, row_after, is_open, grow_right, next_open, spans, scan_segment, flood_loop,
}
use cy_prus.Alg.Label.Runs.{Skipped, skip_closed-Skipped}

module _ (out : List ℕ) (width height new old : ℕ) where
  module _ (y x2 : ℕ) (labels : List ℕ) (x : ℕ) where
    -- The next column after `x`, and no column between is open.
    pub next_open-Skipped :
        Skipped out width height new old labels y
          (x2 + 1 - (x + 1))
          (x + 1)
          (next_open out width height new old labels y x2 x)
    next_open-Skipped = skip_closed-Skipped out width height new old labels y _ _

    pub next_open_later : x < next_open out width height new old labels y x2 x
    next_open_later = omega (arith, next_open-Skipped.order)

    pub next_open_open :
        next_open out width height new old labels y x2 x ≤ x2
        → is_open out width height new old labels y
            (next_open out width height new old labels y x2 x)
          ≡ true
    next_open_open h = next_open-Skipped.stop (omega (arith, next_open_later))

  module _ (y x2 : ℕ) (dy : Dir) (P : ℕ → ℕ → Fill → Type 0) (Q : ℕ → Fill → Type 0)
      (grow : (l x : ℕ) (f : Fill)
        → P l x f
        → (x ≤ (grow_right out width height new old y x2 dy l x f).0)
          × Q
              (grow_right out width height new old y x2 dy l x f).0
              (grow_right out width height new old y x2 dy l x f).1)
      (more : (x : ℕ) (f : Fill)
        → next_open out width height new old f.labels y x2 x ≤ x2
        → Q x f
        → P
            (next_open out width height new old f.labels y x2 x)
            (next_open out width height new old f.labels y x2 x)
            f) where
    -- The do loop, whose rounds start with `P` and come to `skip` with `Q`.
    pub spans_inv :
        (fuel l x : ℕ) (f : Fill)
        → x2 + 2 ≤ fuel + x
        → x ≤ x2 + 1
        → P l x f
        → (g : Fill) × (z : ℕ) × (spans out width height new old fuel y x2 dy l x f ≡ some g)
          × Q z g
          × (x2 < next_open out width height new old g.labels y x2 z)
    unfolding spans
    spans_inv zero l x f enough h p = absurd (omega arith)
    spans_inv (suc fuel) l x f enough h p =
        let r = grow_right out width height new old y x2 dy l x f in
        let kept = grow l x f p in
        let next = next_open out width height new old r.1.labels y x2 r.0 in
        let later : r.0 < next = next_open_later y x2 r.1.labels r.0 in
        elim (dec_le next x2) [
          | yes le ↦
              let rest =
                spans_inv fuel next next r.1 (omega (arith, kept.0)) (omega arith)
                  (more r.0 r.1 le kept.1) in
              let test : leb next x2 ≡ true = ground arith in
              (rest.0, rest.1, rw (test, rest.2) refl, rest.3, rest.4)
          | no gt ↦
              let test : leb next x2 ≡ false = ground arith in
              (r.1, r.0, rw test refl, kept.1, omega arith)
        ]

  module _ (I : ℕ → Fill → Type 0)
      (done : (f : Fill) (s : Segment) (rest : List Segment) → f.stack ≡ s ∷ rest → I 0 f → ⊥)
      (scan : (n : ℕ) (f : Fill) (s : Segment) (rest : List Segment)
        → f.stack ≡ s ∷ rest
        → I (suc n) f
        → (g : Fill) × (scan_segment out width height new old
              (row_after s.dy s.y)
              s.xl
              s.xr
              s.dy
              (record f { stack = rest })
            ≡ some g)
          × I n g) where
    -- The loop over the stack, with `n` bounding the segments that are still to come.
    pub flood_inv :
        (n : ℕ) (stack : List Segment) (f : Fill)
        → f.stack ≡ stack
        → I n f
        → (g : Fill) × (m : ℕ) × (flood_loop out width height new old n stack f ≡ some g)
          × (g.stack ≡ [])
          × I m g
    unfolding flood_loop
    flood_inv zero [] f e i = (f, 0, refl, e, i)
    flood_inv (suc n) [] f e i = (f, suc n, refl, e, i)
    flood_inv zero (s ∷ rest) f e i = absurd (done f s rest e i)
    flood_inv (suc n) (s ∷ rest) f e i =
        let one = scan n f s rest e i in
        let others = flood_inv n one.0.stack one.0 refl one.2 in
        let run =
          ap {B = Option Fill}
            (λ (v : Option Fill). elim v [
              | none ↦ none
              | some h ↦ flood_loop out width height new old n h.stack h
            ])
            one.1 in
        (others.0, others.1, run ∙ others.2, others.3, others.4)
