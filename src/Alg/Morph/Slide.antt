-- ===== src/Alg/Morph/Slide.antt =====
-- The sliding window of dilate9 and the two running maxima of dilate5, round by round.
use cy_prus.Prelude.{
  ℕ, zero, suc, ◌+◌, ◌%◌, ◌≤◌, ◌<◌, ◌≡◌, ◌≢◌, refl, sym, ◌∙◌, ap, if◌then◌else◌, ◌==◌, max, arith,
}
use cy_prus.Prelude.{leb}
use cy_prus.Alg.Morph.{max2, max3, Window, Plus, put_window}
use cy_prus.Alg.Morph.Maxima.{max3-max, max2-max}

abbrev pub slot : Window → ℕ → ℕ
slot w i = if i == 0 then w.window0 else if i == 1 then w.window1 else w.window2

-- Before the round at column `k + 2` the window holds the two columns before it, in the slots
-- after its index, and `blob` is at least as large as both.
module _ (col : ℕ → ℕ) where
  pub record Slides (k : ℕ) (w : Window) : Type 0 where
    pub small : w.widx < 3
    pub older : slot w ((w.widx + 1) % 3) ≡ col k
    pub newer : slot w ((w.widx + 2) % 3) ≡ col (k + 1)
    pub blob_older : col k ≤ w.blob
    pub blob_newer : col (k + 1) ≤ w.blob

  abbrev pub next_window : ℕ → Window → Window
  next_window latest w =
      let w' = put_window latest w in
      record w' {
        widx = if w.widx + 1 == 3 then 0 else w.widx + 1;
        blob = if leb w.blob latest then latest else max3 w'.window0 w'.window1 w'.window2;
      }

  -- A step of the window, from the two columns that it holds.
  blob_step :
      (k m x y z : ℕ)
      → col k ≤ m
      → col (k + 1) ≤ m
      → max x (max y z) ≡ max (max (col k) (col (k + 1))) (col (k + 2))
      → (if leb m (col (k + 2)) then col (k + 2) else max3 x y z)
        ≡ max (max (col k) (col (k + 1))) (col (k + 2))
  blob_step k m x y z lo hi e = ground (arith, max3-max x y z)

  Slides-next :
      (k : ℕ) (w : Window)
      → w.widx < 3
      → slot w ((w.widx + 1) % 3) ≡ col (k + 1)
      → slot w ((w.widx + 2) % 3) ≡ col (k + 2)
      → w.blob ≡ max (max (col k) (col (k + 1))) (col (k + 2))
      → Slides (suc k) w
  Slides-next k w small older newer blob =
      let e : suc k ≡ k + 1 = omega arith in
      let f : suc k + 1 ≡ k + 2 = omega arith in
      record {
        small = small;
        older = older ∙ ap col (sym e);
        newer = newer ∙ ap col (sym f);
        blob_older = rw e (omega arith);
        blob_newer = rw f (omega arith);
      }

  pub next_window_lem :
      (a b c i m k : ℕ)
      → let w : Window = record { window0 = a; window1 = b; window2 = c; widx = i; blob = m } in
        Slides k w
        → ((next_window (col (k + 2)) w).blob ≡ max (max (col k) (col (k + 1))) (col (k + 2)))
          × Slides (suc k) (next_window (col (k + 2)) w)
  next_window_lem a b c zero m k p =
      let e =
        blob_step k m (col (k + 2)) b c p.blob_older p.blob_newer
          (omega (arith, p.older, p.newer)) in
      (e, Slides-next k _ (omega arith) p.newer refl e)
  next_window_lem a b c (suc zero) m k p =
      let e =
        blob_step k m a (col (k + 2)) c p.blob_older p.blob_newer
          (omega (arith, p.older, p.newer)) in
      (e, Slides-next k _ (omega arith) p.newer refl e)
  next_window_lem a b c (suc (suc zero)) m k p =
      let e =
        blob_step k m a b (col (k + 2)) p.blob_older p.blob_newer
          (omega (arith, p.older, p.newer)) in
      (e, Slides-next k _ (omega arith) p.newer refl e)
  next_window_lem a b c (suc (suc (suc i))) m k p = absurd (omega (arith, p.small))

-- `blob` and `mem` of dilate5 in the round at column `k + 1`: a, b, c are the values of the middle
-- row at k, k + 1 and k + 2, and u, v those above and below.
abbrev pub next_plus : (a b c u v : ℕ) → Plus → Plus
next_plus a b c u v p =
    if p.blob == 0
    then record { blob = max3 u c v; mem = c }
    else record { blob = max2 p.mem (max3 u c v); mem = max2 b c }

pub record Carries (a b : ℕ) (p : Plus) : Type 0 where
  pub none : p.blob ≡ 0 → (a ≡ 0) × (b ≡ 0)
  pub some : p.blob ≢ 0 → p.mem ≡ max a b

pub next_plus-blob :
    (a b c u v : ℕ) (p : Plus)
    → Carries a b p
    → (next_plus a b c u v p).blob ≡ max (max u v) (max a (max b c))
next_plus-blob a b c u v p h =
    ground (arith, max3-max u c v, max2-max p.mem (max3 u c v), h.none, h.some)

pub next_plus-Carries :
    (a b c u v : ℕ) (p : Plus) → Carries a b p → Carries b c (next_plus a b c u v p)
next_plus-Carries a b c u v p h = record {
  none = λ e. let f = sym (next_plus-blob a b c u v p h) ∙ e in omega arith;
  some = λ e. ground (arith, max2-max b c, h.none);
}
