-- ===== src/Alg/Morph/Erode.antt =====
-- The inner loops of erode9 and erode5.
use cy_prus.Prelude.{
  inl, inr, true, false, ℕ, suc, ◌+◌, ◌-◌, ◌*◌, ◌≤◌, ◌<◌, ◌≡◌, refl, ◌∙◌, ap, Bool, not,
  if◌then◌else◌, arith,
}
use cy_prus.Prelude.{length, get_or, set, length-set, get_or-set_self, get_or-set_ne, rounds_inv}
use cy_prus.Prelude.{
  Bool-cases, ℕ_discrete, count_below, sum_below-suc, sum_below-zero, sum_below-reverse,
}
use cy_prus.Alg.Morph.{Sweep, Line, line_of, any_zero9, any_zero5, erode_step, erode_line}
use cy_prus.Alg.Morph.Lines.{Shape, IsLocal, Draws, Implements}

-- A pixel becomes 0 if the test finds a zero around it, and counts if not.
abbrev pub eroding : (Line → Line → Line → ℕ → Bool) → Shape
eroding test = record {
  pixel = λ r1 r2 r3 x. if test r1 r2 r3 x then 0 else r2 x;
  counts = λ r1 r2 r3 x. not (test r1 r2 r3 x);
}

pub eroding9-IsLocal : (width : ℕ) → IsLocal width (eroding any_zero9)
unfolding any_zero9
eroding9-IsLocal width = record {
  pixels = λ r1 r2 r3 q1 q2 q3 x h1 h2 h3 lo hi.
      rw
        (
          h1 (x - 1) (omega arith),
          h1 x (omega arith),
          h1 (x + 1) hi,
          h2 (x - 1) (omega arith),
          h2 x (omega arith),
          h2 (x + 1) hi,
          h3 (x - 1) (omega arith),
          h3 x (omega arith),
          h3 (x + 1) hi,
        )
        refl;
  counted = λ r1 r2 r3 q1 q2 q3 x h1 h2 h3 lo hi.
      rw
        (
          h1 (x - 1) (omega arith),
          h1 x (omega arith),
          h1 (x + 1) hi,
          h2 (x - 1) (omega arith),
          h2 x (omega arith),
          h2 (x + 1) hi,
          h3 (x - 1) (omega arith),
          h3 x (omega arith),
          h3 (x + 1) hi,
        )
        refl;
}

pub eroding5-IsLocal : (width : ℕ) → IsLocal width (eroding any_zero5)
unfolding any_zero5
eroding5-IsLocal width = record {
  pixels = λ r1 r2 r3 q1 q2 q3 x h1 h2 h3 lo hi.
      rw
        (
          h1 x (omega arith),
          h2 (x - 1) (omega arith),
          h2 x (omega arith),
          h2 (x + 1) hi,
          h3 x (omega arith),
        )
        refl;
  counted = λ r1 r2 r3 q1 q2 q3 x h1 h2 h3 lo hi.
      rw
        (
          h1 x (omega arith),
          h2 (x - 1) (omega arith),
          h2 x (omega arith),
          h2 (x + 1) hi,
          h3 x (omega arith),
        )
        refl;
}

module _ (width : ℕ) (test : Line → Line → Line → ℕ → Bool) (y : ℕ) (s : Sweep) where
  abbrev zero_at : ℕ → Bool
  zero_at x = test (line_of s.row1) (line_of s.row2) (line_of s.row3) x

  -- The rounds before `k` have been through the columns from `width - 1 - k` on.
  record Erodes (k : ℕ) (t : Sweep) : Type 0 where
    size : length t.img ≡ length s.img
    row1 : t.row1 ≡ s.row1
    row2 : t.row2 ≡ s.row2
    row3 : t.row3 ≡ s.row3
    inside :
        (x : ℕ)
        → width ≤ x + k + 1
        → x + 1 < width
        → get_or t.img (y * width + x) 0 ≡ (if zero_at x then 0 else line_of s.row2 x)
    before : (j : ℕ) → j + k + 1 < y * width + width → get_or t.img j 0 ≡ get_or s.img j 0
    after : (j : ℕ) → y * width + width ≤ j + 1 → get_or t.img j 0 ≡ get_or s.img j 0
    counted : t.sum ≡ s.sum + count_below (λ m. not (zero_at (width - 2 - m))) k

  module _ (room : y * width + width ≤ length s.img)
      (current : (x : ℕ) → x < width → get_or s.img (y * width + x) 0 ≡ line_of s.row2 x) where
    Erodes-zero :
        (k : ℕ) (t : Sweep)
        → k < width - 2
        → Erodes k t
        → zero_at (width - 2 - k) ≡ true
        → Erodes (suc k) (record t { img = set t.img (y * width + (width - 2 - k)) 0 })
    Erodes-zero k t h p e =
        let i = width - 2 - k in
        let place = y * width + i in
        record {
          size = length-set t.img place 0 ∙ p.size;
          row1 = p.row1;
          row2 = p.row2;
          row3 = p.row3;
          inside = λ x lo hi. elim (ℕ_discrete i x) [
            | yes same ↦ rw (← same, e) (get_or-set_self t.img place 0 0 (omega (arith, p.size)))
            | no other ↦
                get_or-set_ne t.img place (y * width + x) 0 0 (omega arith)
                ∙ p.inside x (omega arith) hi
          ];
          before = λ j lt. get_or-set_ne t.img place j 0 0 (omega arith) ∙ p.before j (omega arith);
          after = λ j le. get_or-set_ne t.img place j 0 0 (omega arith) ∙ p.after j le;
          counted = ground (
            arith,
            p.counted,
            sum_below-suc (λ m. if not (zero_at (width - 2 - m)) then 1 else 0) k,
          );
        }

    Erodes-keep :
        (k : ℕ) (t : Sweep)
        → k < width - 2
        → Erodes k t
        → zero_at (width - 2 - k) ≡ false
        → Erodes (suc k) (record t { sum = t.sum + 1 })
    Erodes-keep k t h p e =
        let i = width - 2 - k in
        record {
          size = p.size;
          row1 = p.row1;
          row2 = p.row2;
          row3 = p.row3;
          inside = λ x lo hi. elim (ℕ_discrete i x) [
            | yes same ↦
                rw (← same, e) (p.before (y * width + i) (omega arith) ∙ current i (omega arith))
            | no other ↦ p.inside x (omega arith) hi
          ];
          before = λ j lt. p.before j (omega arith);
          after = p.after;
          counted = ground (
            arith,
            p.counted,
            sum_below-suc (λ m. if not (zero_at (width - 2 - m)) then 1 else 0) k,
          );
        }

    Erodes-step :
        (k : ℕ) (t : Sweep)
        → k < width - 2
        → Erodes k t
        → Erodes (suc k) (erode_step width test y k t)
    unfolding erode_step
    Erodes-step k t h p =
        let same : test (line_of t.row1) (line_of t.row2) (line_of t.row3) (width - 2 - k)
            ≡ zero_at (width - 2 - k) =
          rw (p.row1, p.row2, p.row3) in
        elim (Bool-cases (zero_at (width - 2 - k))) [
          | inl e ↦ rw (same ∙ e) (Erodes-zero k t h p e)
          | inr e ↦ rw (same ∙ e) (Erodes-keep k t h p e)
        ]

    erode_line-Draws : 2 ≤ width → Draws width (eroding test) y s (erode_line width test y s)
    unfolding erode_line
    erode_line-Draws wide =
        let p =
          rounds_inv Erodes (erode_step width test y) (width - 2) s
            (record {
              size = refl;
              row1 = refl;
              row2 = refl;
              row3 = refl;
              inside = λ x lo hi. absurd (omega arith);
              before = λ j lt. refl;
              after = λ j le. refl;
              counted =
                  omega
                    (arith, sum_below-zero (λ m. if not (zero_at (width - 2 - m)) then 1 else 0));
            })
            Erodes-step in
        record {
          size = p.size;
          row2 = p.row2;
          row3 = p.row3;
          inside = λ x lo hi. p.inside x (omega arith) hi;
          before = λ j lt. p.before j (omega arith);
          after = p.after;
          counted =
              p.counted
              ∙ ap (λ k. s.sum + k)
                  (sum_below-reverse (λ x. if not (zero_at x) then 1 else 0) (width - 2));
        }

pub erode_line-Implements :
    (width : ℕ) (test : Line → Line → Line → ℕ → Bool)
    → 2 ≤ width
    → Implements width (eroding test) (erode_line width test)
erode_line-Implements width test wide y s room current =
    erode_line-Draws width test y s room current wide
