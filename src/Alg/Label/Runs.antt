-- ===== src/Alg/Label/Runs.antt =====
-- The loops of iflood along a row: a run of open pixels gets its label.
use cy_prus.Prelude.{
  ℕ, zero, suc, ◌+◌, ◌-◌, ◌*◌, ◌≤◌, ◌<◌, ◌≡◌, ◌≢◌, ◌⊎◌, inl, inr, refl, sym, ◌∙◌, ap, Bool, true,
  false, ◌&&◌, ◌==◌, truth, arith, Bool-cases, dec_lt, ℕ_discrete, ≢→==,
}
use cy_prus.Prelude.{
  List, length, get_or, set, length-set, get_or-set_self, get_or-set_ne, count_below,
  count_below_one,
}
use cy_prus.Alg.Label.{Fill, is_open, paint, fill_left, fill_right, skip_closed}

module _ (out : List ℕ) (width height new old : ℕ) where
  -- The pixel with index `p` is open.
  abbrev pub open_at : List ℕ → ℕ → Bool
  open_at labels p = truth (get_or out p 0) && get_or labels p 0 == old

  -- How many pixels of the picture are open.
  unfoldable pub open_count : List ℕ → ℕ
  open_count labels = count_below (open_at labels) (width * height)

  -- The pixels from index `a` to before `b` were open, and have the new label.
  pub record Run (a b : ℕ) (f f' : Fill) : Type 0 where
    pub order : a ≤ b
    pub size : length f'.labels ≡ length f.labels
    pub stack : f'.stack ≡ f.stack
    pub count : f'.count + a ≡ f.count + b
    pub opened : (p : ℕ) → a ≤ p → p < b → open_at f.labels p ≡ true
    pub inside : (p : ℕ) → a ≤ p → p < b → get_or f'.labels p 0 ≡ new
    pub outside : (p : ℕ) → (p < a) ⊎ (b ≤ p) → get_or f'.labels p 0 ≡ get_or f.labels p 0
    pub closing : open_count f'.labels + b ≡ open_count f.labels + a

  pub Run-nil : (a : ℕ) (f : Fill) → Run a a f f
  Run-nil a f = record {
    order = omega arith;
    size = refl;
    stack = refl;
    count = refl;
    opened = λ p h h'. absurd (omega arith);
    inside = λ p h h'. absurd (omega arith);
    outside = λ p h. refl;
    closing = refl;
  }

  -- The pixels outside a run stay open or closed.
  pub Run-open_at :
      {a b : ℕ} {f f' : Fill}
      → Run a b f f'
      → (p : ℕ) → (p < a) ⊎ (b ≤ p)
      → open_at f'.labels p ≡ open_at f.labels p
  Run-open_at r p q = ap (λ v. truth (get_or out p 0) && v == old) (r.outside p q)

  -- A run keeps the size of the buffer.
  pub Run-room :
      {a b n : ℕ} {f f' : Fill} → Run a b f f' → n ≤ length f.labels → n ≤ length f'.labels
  Run-room r h = omega (arith, r.size)

  module _ (ne : new ≢ old) where
    -- A closed pixel is one with the new label, or one that was closed before.
    pub painted-closed :
        (labels : List ℕ) (p : ℕ) → get_or labels p 0 ≡ new → open_at labels p ≡ false
    painted-closed labels p e = rw e (ground (arith, ≢→== new old ne))

    pub paint-Run :
        (f : Fill) (y x b : ℕ)
        → b ≡ y * width + x + 1
        → width * height ≤ length f.labels
        → y * width + x < width * height
        → is_open out width height new old f.labels y x ≡ true
        → Run (y * width + x) b f (paint out width height new old y x f)
    unfolding open_count
    paint-Run f y x b next room lt is =
        let k = y * width + x in
        let self : get_or (set f.labels k new) k 0 ≡ new =
          get_or-set_self f.labels k new 0 (omega arith) in
        let same : (p : ℕ) → k ≢ p → get_or (set f.labels k new) p 0 ≡ get_or f.labels p 0 =
          λ p n. get_or-set_ne f.labels k p new 0 n in
        record {
          order = omega arith;
          size = length-set f.labels k new;
          stack = refl;
          count = omega arith;
          opened = λ p h h'. let e : k ≡ p = omega arith in rw (← e) is;
          inside = λ p h h'. let e : k ≡ p = omega arith in rw (← e) self;
          outside = λ p h. same p (omega arith);
          closing = omega (
            arith,
            count_below_one (open_at f.labels) (open_at (set f.labels k new)) (width * height) k lt
                is (painted-closed _ k self)
                (λ i n. ap (λ q. truth (get_or out i 0) && q == old) (same i (λ e. n (sym e)))),
          );
        }

  -- Two runs side by side, the right one first.
  pub Run-left : {a m b : ℕ} {f g h : Fill} → Run m b f g → Run a m g h → Run a b f h
  Run-left r s = record {
    order = omega (arith, r.order, s.order);
    size = s.size ∙ r.size;
    stack = s.stack ∙ r.stack;
    count = omega (arith, r.count, s.count);
    opened = λ p q q'. elim (dec_lt p _) [
      | yes lt ↦ sym (Run-open_at r p (inl lt)) ∙ s.opened p q lt
      | no ge ↦ r.opened p (omega arith) q'
    ];
    inside = λ p q q'. elim (dec_lt p _) [
      | yes lt ↦ s.inside p q lt
      | no ge ↦ s.outside p (inr (omega arith)) ∙ r.inside p (omega arith) q'
    ];
    outside = λ p q.
        s.outside p (elim q [ inl lt ↦ inl lt | inr ge ↦ inr (omega (arith, r.order)) ])
        ∙ r.outside p (elim q [ inl lt ↦ inl (omega (arith, s.order)) | inr ge ↦ inr ge ]);
    closing = omega (arith, r.closing, s.closing);
  }

  -- Two runs side by side, the left one first.
  pub Run-right : {a m b : ℕ} {f g h : Fill} → Run a m f g → Run m b g h → Run a b f h
  Run-right r s = record {
    order = omega (arith, r.order, s.order);
    size = s.size ∙ r.size;
    stack = s.stack ∙ r.stack;
    count = omega (arith, r.count, s.count);
    opened = λ p q q'. elim (dec_lt p _) [
      | yes lt ↦ r.opened p q lt
      | no ge ↦ sym (Run-open_at r p (inr (omega arith))) ∙ s.opened p (omega arith) q'
    ];
    inside = λ p q q'. elim (dec_lt p _) [
      | yes lt ↦ s.outside p (inl lt) ∙ r.inside p q lt
      | no ge ↦ s.inside p (omega arith) q'
    ];
    outside = λ p q.
        s.outside p (elim q [ inl lt ↦ inl (omega (arith, r.order)) | inr ge ↦ inr ge ])
        ∙ r.outside p (elim q [ inl lt ↦ inl lt | inr ge ↦ inr (omega (arith, s.order)) ]);
    closing = omega (arith, r.closing, s.closing);
  }

  -- What the loop to the left does from column l - 1 on.
  pub record LeftFill (y l : ℕ) (f : Fill) (r : ℕ × Fill) : Type 0 where
    pub order : r.0 ≤ l
    pub run : Run (y * width + r.0) (y * width + l) f r.1
    pub stop : (q : ℕ) → q + 1 ≡ r.0 → is_open out width height new old f.labels y q ≡ false

  -- What the loop to the right does from column `x` on.
  pub record RightFill (y x : ℕ) (f : Fill) (r : ℕ × Fill) : Type 0 where
    pub order : x ≤ r.0
    pub room : r.0 ≤ width
    pub run : Run (y * width + x) (y * width + r.0) f r.1
    pub start : x < width → is_open out width height new old f.labels y x ≡ true → x < r.0
    pub stop : r.0 < width → is_open out width height new old f.labels y r.0 ≡ false

  module _ (ne : new ≢ old) (y : ℕ) (row : y < height) where
    pub index_lt : (x : ℕ) → x < width → y * width + x < width * height
    index_lt x h = grind arith

    pub fill_left-LeftFill :
        (l : ℕ) (f : Fill)
        → l ≤ width
        → width * height ≤ length f.labels
        → LeftFill y l f (fill_left out width height new old y l f)
    unfolding fill_left
    fill_left-LeftFill zero f h room = record {
      order = omega arith;
      run = Run-nil _ f;
      stop = λ q h'. absurd (omega arith);
    }
    fill_left-LeftFill (suc x) f h room =
        elim (Bool-cases (is_open out width height new old f.labels y x)) [
          | inr e ↦ rw e (record {
            order = omega arith;
            run = Run-nil _ f;
            stop = λ q h'. let same : q ≡ x = omega arith in rw same e;
          })
          | inl e ↦ rw e (
              let p = paint out width height new old y x f in
              let one =
                paint-Run ne f y x (y * width + suc x) (omega arith) room (index_lt x (omega arith))
                  e in
              let ih = fill_left-LeftFill x p (omega arith) (Run-room one room) in
              record {
                order = omega (arith, ih.order);
                run = Run-left one ih.run;
                stop =
                    λ q h'. sym (Run-open_at one _ (inl (omega (arith, ih.order)))) ∙ ih.stop q h';
              })
        ]

    pub fill_right-RightFill :
        (n x : ℕ) (f : Fill)
        → x ≤ width
        → n ≡ width - x
        → width * height ≤ length f.labels
        → RightFill y x f (fill_right out width height new old y n x f)
    unfolding fill_right
    fill_right-RightFill zero x f h en room = record {
      order = omega arith;
      room = h;
      run = Run-nil _ f;
      start = λ q. absurd (omega arith);
      stop = λ q. absurd (omega arith);
    }
    fill_right-RightFill (suc n) x f h en room =
        elim (Bool-cases (is_open out width height new old f.labels y x)) [
          | inr e ↦ rw e (record {
            order = omega arith;
            room = h;
            run = Run-nil _ f;
            start = λ q e'. cc;
            stop = λ q. e;
          })
          | inl e ↦ rw e (
              let p = paint out width height new old y x f in
              let one =
                paint-Run ne f y x (y * width + (x + 1)) (omega arith) room
                  (index_lt x (omega arith)) e in
              let ih =
                fill_right-RightFill n (x + 1) p (omega arith) (omega arith) (Run-room one room) in
              record {
                order = omega (arith, ih.order);
                room = ih.room;
                run = Run-right one ih.run;
                start = λ q e'. omega (arith, ih.order);
                stop = λ q. sym (Run-open_at one _ (inr (omega (arith, ih.order)))) ∙ ih.stop q;
              })
        ]

  -- Where the loop over closed pixels ends, from `x` on with `n` columns to go.
  pub record Skipped (labels : List ℕ) (y n x r : ℕ) : Type 0 where
    pub order : x ≤ r
    pub room : r ≤ x + n
    pub closed : (q : ℕ) → x ≤ q → q < r → is_open out width height new old labels y q ≡ false
    pub stop : r < x + n → is_open out width height new old labels y r ≡ true

  pub skip_closed-Skipped :
      (labels : List ℕ) (y n x : ℕ)
      → Skipped labels y n x (skip_closed out width height new old labels y n x)
  unfolding skip_closed
  skip_closed-Skipped labels y zero x = record {
    order = omega arith;
    room = omega arith;
    closed = λ q h h'. absurd (omega arith);
    stop = λ h. absurd (omega arith);
  }
  skip_closed-Skipped labels y (suc n) x =
      elim (Bool-cases (is_open out width height new old labels y x)) [
        | inl e ↦ rw e (record {
          order = omega arith;
          room = omega arith;
          closed = λ q h h'. absurd (omega arith);
          stop = λ h. e;
        })
        | inr e ↦ rw e (
            let ih = skip_closed-Skipped labels y n (x + 1) in
            record {
              order = omega (arith, ih.order);
              room = omega (arith, ih.room);
              closed = λ q h h'. elim (ℕ_discrete x q) [
                | yes same ↦ rw (← same) e
                | no other ↦ ih.closed q (omega arith) h'
              ];
              stop = λ h. ih.stop (omega arith);
            })
      ]
