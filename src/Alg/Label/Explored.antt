-- ===== src/Alg/Label/Explored.antt =====
-- Painting a run of a row, and putting a segment on the stack, keep what iflood knows.
use cy_prus.Prelude.{
  ℕ, ◌+◌, ◌*◌, ◌≤◌, ◌<◌, ◌≡◌, ◌⊎◌, inl, inr, refl, sym, ◌∙◌, ap, ap₂, lt→ltb, true, false, ◌&&◌,
  ltb, arith, dec_lt, ℕ_discrete, Bool-cases,
}
use cy_prus.Prelude.{List, [], ◌∷◌, length}
use cy_prus.Alg.Label.{Fill, Dir, down, up, Segment, maxs, push, row_after, is_row_after}
use cy_prus.Alg.Label.Runs.{Run}
use cy_prus.Alg.Label.Reach.{
  Near, right, left, below, above, NextRow, Covered, Open, Reach, step, Painted, Seen, Parents,
  Explored, Explored-less,
}

pub NextRow-row_after : (d : Dir) (y r : ℕ) → NextRow d y r → row_after d y ≡ r
NextRow-row_after down y r n = n
NextRow-row_after up y r n = omega arith

pub NextRow-is_row_after :
    (height : ℕ) (d : Dir) (y r : ℕ) → NextRow d y r → r < height → is_row_after height d y ≡ true
NextRow-is_row_after height down y r n h = ground arith
NextRow-is_row_after height up y r n h = ground arith

pub row_after-NextRow :
    (height : ℕ) (d : Dir) (y : ℕ) → is_row_after height d y ≡ true → NextRow d y (row_after d y)
row_after-NextRow height down y h = refl
row_after-NextRow height up y h = ground arith

pub NextRow-Near : (d : Dir) (x y r : ℕ) → NextRow d y r → Near x y x r
NextRow-Near down x y r n = below refl n
NextRow-Near up x y r n = above refl n

pub push-Covered :
    (height : ℕ) (s : Segment) (stack : List Segment) (x y : ℕ)
    → Covered stack x y
    → Covered (push height s stack) x y
unfolding push
push-Covered height s stack x y c =
    elim (Bool-cases (ltb (length stack) maxs && is_row_after height s.dy s.y)) [
      | inl e ↦ rw e (inr c)
      | inr e ↦ rw e c
    ]

module _ (out : List ℕ) (width height new old : ℕ) (before : List ℕ) (x0 y0 : ℕ) where
  abbrev Free : (x y : ℕ) → Type 0
  Free = Open out width height new old before x0 y0

  abbrev Fits : (todo : ℕ → ℕ → Type 0) → Fill → Type 0
  Fits = Explored out width height new old before x0 y0

  abbrev Filled : Fill → (x y : ℕ) → Type 0
  Filled = Painted out width height new old before x0 y0

  module _ (f : Fill) (d : Dir) (y a b : ℕ) where
    abbrev pushed : Segment
    pushed = record { y = y; xl = a; xr = b; dy = d }

    module _ (start : Free x0 y0) (cells : (q : ℕ) → a ≤ q → q ≤ b → Free q y × Filled f q y) where
      -- A segment next to painted pixels.
      on_stack :
          {todo : ℕ → ℕ → Type 0}
          → is_row_after height d y ≡ true
          → Fits todo f
          → Fits todo (record f { stack = pushed ∷ f.stack })
      on_stack {todo} valid e =
          let more : (u v : ℕ)
              → Seen out width height new old before x0 y0 todo f u v
              → Seen out width height new old before x0 y0 todo
                  (record f { stack = pushed ∷ f.stack }) u v =
            λ u v s. elim s [
              | inl p ↦ inl p
              | inr (inl c) ↦ inr (inl (inr c))
              | inr (inr t) ↦ inr (inr t)
            ] in
          record {
            reached = e.reached;
            around = λ u v u' v' o p n o'. more u' v' (e.around u v u' v' o p n o');
            sources = (
              λ q le ge o.
                  step (e.reached q y (cells q le ge).0 (cells q le ge).1)
                    (NextRow-Near d q y (row_after d y) (row_after-NextRow height d y valid)) o,
              e.sources,
            );
            parents = (λ q le ge o. inl (cells q le ge).1, e.parents);
            begun = more x0 y0 e.begun;
          }

      -- PUSH, with room on the stack: the pixels in the next row need not be looked at any more.
      pub push-Explored :
          (todo : ℕ → ℕ → Type 0)
          → length f.stack < maxs
          → Fits (λ u v. todo u v ⊎ (NextRow d y v × (a ≤ u) × (u ≤ b))) f
          → Fits todo (record f { stack = push height pushed f.stack })
      unfolding push
      push-Explored todo room e = elim (Bool-cases (is_row_after height d y)) [
        | inl valid ↦
            let test : (ltb (length f.stack) maxs && is_row_after height d y) ≡ true =
              ap₂ ◌&&◌ (lt→ltb _ _ room) valid in
            rw test (
              Explored-less out width height new old before x0 y0 start (on_stack valid e)
                (λ u v o t. elim t [
                  | inl q ↦ inr (inr q)
                  | inr n ↦ inr (inl (inl (n.1, n.2, NextRow-row_after d y v n.0)))
                ]))
        | inr outside ↦
            let test : (ltb (length f.stack) maxs && is_row_after height d y) ≡ false =
              ap₂ ◌&&◌ (lt→ltb _ _ room) outside in
            rw test (
              Explored-less out width height new old before x0 y0 start e (λ u v o t. elim t [
                | inl q ↦ inr (inr q)
                | inr n ↦
                    let inside = NextRow-is_row_after height d y v n.0 o.row in
                    absurd (let clash : true ≡ false = sym inside ∙ outside in (cc))
              ]))
      ]

  pub Parents-painted :
      (f g : Fill) (stack : List Segment)
      → ((u v : ℕ) → Filled f u v → Filled g u v)
      → Parents out width height new old before x0 y0 f stack
      → Parents out width height new old before x0 y0 g stack
  Parents-painted f g [] keep h = tt
  Parents-painted f g (s ∷ rest) keep h = (
    λ q le ge o. elim (h.0 q le ge o) [ inl p ↦ inl (keep q s.y p) | inr other ↦ inr other ],
    Parents-painted f g rest keep h.1,
  )

  row_step : (v y : ℕ) → v < y → v * width + width ≤ y * width
  row_step v y h = grind arith

  -- A pixel of the picture among the columns of a run is in its row.
  pub row_of :
      (y a b u v : ℕ)
      → u < width
      → b ≤ width
      → y * width + a ≤ v * width + u
      → v * width + u < y * width + b
      → v ≡ y
  row_of y a b u v hu hb le lt = elim (ℕ_discrete v y) [
    | yes e ↦ e
    | no ne ↦ elim (dec_lt v y) [
      | yes less ↦ absurd (omega (arith, row_step v y less))
      | no more ↦ absurd (omega (arith, row_step y v (omega arith)))
    ]
  ]

  module _ (f g : Fill) (y a b : ℕ)
      (run : Run out width height new old (y * width + a) (y * width + b) f g)
      (inside : b ≤ width) where
    pub painted_before :
        (u v : ℕ) → u < width → Filled g u v → Filled f u v ⊎ ((v ≡ y) × (a ≤ u) × (u < b))
    painted_before u v h p = elim (dec_lt (v * width + u) (y * width + a)) [
      | yes lt ↦ inl (sym (run.outside _ (inl lt)) ∙ p)
      | no ge ↦ elim (dec_lt (v * width + u) (y * width + b)) [
        | no past ↦ inl (sym (run.outside _ (inr (omega arith))) ∙ p)
        | yes lt ↦
            let same : v ≡ y = row_of y a b u v h inside (omega arith) lt in
            let e : v * width ≡ y * width = ap (λ (k : ℕ). k * width) same in
            inr (same, omega arith, omega arith)
      ]
    ]

    pub run_painted : (q : ℕ) → a ≤ q → q < b → Filled g q y
    run_painted q le lt = run.inside (y * width + q) (omega arith) (omega arith)

    pub still_painted : (u v : ℕ) → Filled f u v → Filled g u v
    still_painted u v p = elim (dec_lt (v * width + u) (y * width + a)) [
      | yes lt ↦ run.outside _ (inl lt) ∙ p
      | no ge ↦ elim (dec_lt (v * width + u) (y * width + b)) [
        | no past ↦ run.outside _ (inr (omega arith)) ∙ p
        | yes lt ↦ run.inside _ (omega arith) lt
      ]
    ]

    -- What is still to be looked at after a run: the rows beside it.
    abbrev pub Beside : (todo : ℕ → ℕ → Type 0) → ℕ → ℕ → Type 0
    Beside todo u v = todo u v ⊎ ((NextRow down y v ⊎ NextRow up y v) × (a ≤ u) × (u < b))

    module _ (todo : ℕ → ℕ → Type 0)
        (reach : (q : ℕ)
          → a ≤ q
          → q < b
          → Free q y
          → Reach out width height new old before x0 y0 q y)
        (left_stop : (q : ℕ) → q + 1 ≡ a → Free q y → Filled f q y)
        (right_stop : Free b y → Seen out width height new old before x0 y0 todo f b y) where
      still_seen :
          (u v : ℕ)
          → Seen out width height new old before x0 y0 todo f u v
          → Seen out width height new old before x0 y0 (Beside todo) g u v
      still_seen u v s = elim s [
        | inl p ↦ inl (still_painted u v p)
        | inr (inl c) ↦ inr (inl (rw run.stack c))
        | inr (inr t) ↦ inr (inr (inl t))
      ]

      next_to_run :
          (u u' v' : ℕ)
          → a ≤ u
          → u < b
          → Near u y u' v'
          → Free u' v'
          → Seen out width height new old before x0 y0 (Beside todo) g u' v'
      next_to_run u u' v' le lt (right e same) o = elim (dec_lt u' b) [
        | yes in_run ↦ inl (rw (← same) (run_painted u' (omega arith) in_run))
        | no past ↦
            let at : u' ≡ b = omega arith in
            let o' : Free b y = rw (same, ← at) o in
            rw (at, ← same) (still_seen b y (right_stop o'))
      ]
      next_to_run u u' v' le lt (left e same) o = elim (dec_lt u' a) [
        | no in_run ↦ inl (rw (← same) (run_painted u' (omega arith) (omega arith)))
        | yes past ↦
            let o' : Free u' y = rw same o in
            inl (rw (← same) (still_painted u' y (left_stop u' (omega arith) o')))
      ]
      next_to_run u u' v' le lt (below e n) o = inr (inr (inr (inl n, omega arith, omega arith)))
      next_to_run u u' v' le lt (above e n) o = inr (inr (inr (inr n, omega arith, omega arith)))

      -- After a run all that is next to it is seen, or stands in the rows beside it.
      pub run-Explored : Fits todo f → Fits (Beside todo) g
      run-Explored e = record {
        reached = λ u v o p. elim (painted_before u v o.column p) [
          | inl p' ↦ e.reached u v o p'
          | inr (same, le, lt) ↦ rw same (reach u le lt (rw (← same) o))
        ];
        around = λ u v u' v' o p n o'. elim (painted_before u v o.column p) [
          | inl p' ↦ still_seen u' v' (e.around u v u' v' o p' n o')
          | inr (same, le, lt) ↦ next_to_run u u' v' le lt (rw (← same) n) o'
        ];
        sources = rw run.stack e.sources;
        parents = rw run.stack (Parents-painted f g f.stack still_painted e.parents);
        begun = still_seen x0 y0 e.begun;
      }
