-- ===== src/Alg/Label/Budget.antt =====
-- What every round of iflood keeps, also when its stack is full: the segments stay in the picture,
-- the count is right, and the open pixels pay for the segments that are still to come.
use cy_prus.Prelude.{
  ℕ, suc, ◌+◌, ◌*◌, ◌≤◌, ◌<◌, ◌≡◌, ◌≢◌, ◌⊎◌, inl, inr, sym, ◌∙◌, ap, true, ◌&&◌, ltb, ◌==◌, truth,
  arith, dec_lt, Bool-cases,
}
use cy_prus.Prelude.{List, [], ◌∷◌, length, get_or}
use cy_prus.Alg.Label.{Fill, Dir, down, up, Segment, maxs, push, row_after, is_row_after}
use cy_prus.Alg.Label.Runs.{open_at, open_count, Run}

-- A segment on the stack: its columns and the row next to it are in the picture.
pub record Placed (width height : ℕ) (s : Segment) : Type 0 where
  pub order : s.xl ≤ s.xr
  pub column : s.xr < width
  pub row : is_row_after height s.dy s.y ≡ true

abbrev pub AllPlaced : (width height : ℕ) → List Segment → Type 0
AllPlaced width height [] = Unit
AllPlaced width height (s ∷ rest) = Placed width height s × AllPlaced width height rest

pub row_after_lt :
    (height : ℕ) (dy : Dir) (y : ℕ) → is_row_after height dy y ≡ true → row_after dy y < height
row_after_lt height down y e = ground arith
row_after_lt height up y e = ground arith

pub push-AllPlaced :
    (width height : ℕ) (s : Segment) (stack : List Segment)
    → s.xl ≤ s.xr
    → s.xr < width
    → AllPlaced width height stack
    → AllPlaced width height (push height s stack)
unfolding push
push-AllPlaced width height s stack le lt h =
    elim (Bool-cases (ltb (length stack) maxs && is_row_after height s.dy s.y)) [
      | inr e ↦ rw e h
      | inl e ↦ rw e (record { order = le; column = lt; row = ground arith }, h)
    ]

pub push-length :
    (height : ℕ) (s : Segment) (stack : List Segment)
    → length (push height s stack) ≤ length stack + 1
unfolding push
push-length height s stack = ground arith

module _ (out : List ℕ) (width height new old : ℕ) (before : List ℕ) where
  -- The fill `f` began with the labels `before`; `k` more segments can be paid for, and then there
  -- are `b` rounds at most.
  pub record Budget (k b : ℕ) (f : Fill) : Type 0 where
    pub room : width * height ≤ length f.labels
    pub paid : 3 * open_count out width height new old f.labels + length f.stack + k ≤ b
    pub total :
        f.count + open_count out width height new old f.labels
        ≡ open_count out width height new old before
    pub pixels :
        (p : ℕ)
        → (get_or f.labels p 0 ≡ get_or before p 0)
          ⊎ ((get_or f.labels p 0 ≡ new) × (open_at out width height new old before p ≡ true))
    pub placed : AllPlaced width height f.stack

  pub Budget-less : {k m b : ℕ} {f : Fill} → Budget k b f → m ≤ k → Budget m b f
  Budget-less h le = record {
    room = h.room;
    paid = omega (arith, h.paid);
    total = h.total;
    pixels = h.pixels;
    placed = h.placed;
  }

  pub Budget-more : {k b c : ℕ} → b ≤ c → {f : Fill} → Budget k b f → Budget k c f
  Budget-more le h = record {
    room = h.room;
    paid = omega (arith, h.paid);
    total = h.total;
    pixels = h.pixels;
    placed = h.placed;
  }

  pub push-Budget :
      (k b : ℕ) (f : Fill) (s : Segment)
      → s.xl ≤ s.xr
      → s.xr < width
      → Budget (suc k) b f
      → Budget k b (record f { stack = push height s f.stack })
  push-Budget k b f s le lt h = record {
    room = h.room;
    paid = omega (arith, h.paid, push-length height s f.stack);
    total = h.total;
    pixels = h.pixels;
    placed = push-AllPlaced width height s f.stack le lt h.placed;
  }

  module _ (ne : new ≢ old) where
    -- A pixel that is still open was open before the fill.
    pub open-before :
        {k b : ℕ} {f : Fill}
        → Budget k b f
        → (p : ℕ) → open_at out width height new old f.labels p ≡ true
        → open_at out width height new old before p ≡ true
    open-before h p e = elim (h.pixels p) [
      | inl same ↦ sym (ap (λ v. truth (get_or out p 0) && v == old) same) ∙ e
      | inr painted ↦ painted.1
    ]

    pub Run-Budget :
        {k m b a c : ℕ} {f g : Fill}
        → Run out width height new old a c f g
        → m + 3 * a ≤ k + 3 * c
        → Budget k b f
        → Budget m b g
    Run-Budget {k} {m} {b} {a} {c} {f} {g} r le h = record {
      room = omega (arith, r.size, h.room);
      paid = omega (arith, h.paid, r.closing, ap length r.stack);
      total = omega (arith, h.total, r.closing, r.count);
      pixels = λ p. elim (dec_lt p a) [
        | yes lt ↦ rw (r.outside p (inl lt)) (h.pixels p)
        | no ge ↦ elim (dec_lt p c) [
          | yes lt ↦
              inr (r.inside p (omega arith) lt, open-before h p (r.opened p (omega arith) lt))
          | no ge' ↦ rw (r.outside p (inr (omega arith))) (h.pixels p)
        ]
      ];
      placed = rw r.stack h.placed;
    }
