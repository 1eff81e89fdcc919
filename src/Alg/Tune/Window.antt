-- ===== src/Alg/Tune/Window.antt =====
-- alg_threshold_tune against a description of its window of change counts.
use cy_prus.Prelude.{ℕ, suc, ◌+◌, ◌*◌, ◌/◌, ◌≤◌, ◌<◌, ◌≡◌, ◌≢◌, ◌⊎◌, inl, inr, refl, sym, ◌∙◌, ap}
use cy_prus.Prelude.{
  Bool, not, ◌&&◌, if◌then◌else◌, ltb, truth, List, get_or, set, max, length, arith,
}
use cy_prus.Prelude.{
  rounds, rounds_inv, sum_below, sum_below-suc, sum_below-zero, Passed, Passed-start, Passed-set,
}
use cy_prus.Prelude.{
  ≢→==, lt→ltb, le→ltb, dec_lt, ℕ_discrete, get_or-set_self, get_or-set_ne, length-set,
}
use cy_prus.Alg.Tune.{Thresholds, Scan, scan_step, settle, threshold_tune}

module _ (motion : Bool) (quarter : ℕ) (old : List ℕ) where
  -- An entry of the window moves down by one place; where it is zero, or there is motion, a
  -- quarter of the threshold takes its place.
  unfoldable pub shifted : ℕ → ℕ
  shifted i = if truth (get_or old (suc i) 0) && not motion then get_or old (suc i) 0 else quarter

module _ (motion : Bool) (quarter diffs : ℕ) (old : List ℕ) where
  abbrev moved_to : ℕ → ℕ
  moved_to = shifted motion quarter old

  record Scans (n : ℕ) (s : Scan) : Type 0 where
    window : Passed moved_to old n s.last
    total : s.sum ≡ sum_below (λ i. get_or old i 0) n
    above : (i : ℕ) → i < n → moved_to i ≤ s.top
    least : diffs ≤ s.top
    attained : (s.top ≡ diffs) ⊎ ((i : ℕ) × (i < n) × (moved_to i ≡ s.top))

  scan_step_lem :
      (n : ℕ) (s : Scan)
      → Scans n s
      → scan_step motion quarter n s ≡ record {
        last = set s.last n (moved_to n);
        sum = s.sum + get_or old n 0;
        top = if ltb s.top (moved_to n) then moved_to n else s.top;
      }
  unfolding scan_step shifted
  scan_step_lem n s p = rw (p.window.ahead (suc n) (omega arith), p.window.ahead n (omega arith))

  Scans-step :
      (n : ℕ) (s : Scan) → n < length old → Scans n s → Scans (suc n) (scan_step motion quarter n s)
  Scans-step n s h p = rw (scan_step_lem n s p) (record {
    window = Passed-set _ p.window h refl;
    total = ap (λ k. k + get_or old n 0) p.total ∙ sym (sum_below-suc (λ i. get_or old i 0) n);
    above = λ i lt. elim (ℕ_discrete n i) [
      | yes e ↦ rw (← e) (ground arith)
      | no e ↦ ground (arith, p.above i)
    ];
    least = ground (arith, p.least);
    attained = elim (dec_lt s.top (moved_to n)) [
      | yes lt ↦ inr (n, omega arith, rw (lt→ltb _ _ lt))
      | no le ↦
          rw (le→ltb s.top (moved_to n) (omega arith))
            (elim p.attained [ inl e ↦ inl e | inr (i, lt, e) ↦ inr (i, omega arith, e) ])
    ];
  })

  Scans-all :
      (n : ℕ)
      → n ≤ length old
      → Scans n (rounds (scan_step motion quarter) n (record { last = old; sum = 0; top = diffs }))
  Scans-all n h =
      rounds_inv Scans _ n _
        (record {
          window = Passed-start _ old;
          total = sym (sum_below-zero (λ i. get_or old i 0));
          above = λ i lt. absurd (omega arith);
          least = omega arith;
          attained = inl refl;
        })
        (λ i s lt p. Scans-step i s (omega arith) p)

-- The values that alg_threshold_tune compares: the entries of the moved window before its last,
-- and the count of changes that it is given.
pub record IsTop (motion : Bool) (t : Thresholds) (diffs top : ℕ) : Type 0 where
  pub least : diffs ≤ top
  pub above : (i : ℕ) → i < 255 → shifted motion (t.threshold / 4) t.diffs_last i ≤ top
  pub attained :
      (top ≡ diffs)
      ⊎ ((i : ℕ) × (i < 255) × (shifted motion (t.threshold / 4) t.diffs_last i ≡ top))

pub record IsTuned (max_changes diffs : ℕ) (motion : Bool) (t new : Thresholds) : Type 0 where
  pub size : length new.diffs_last ≡ 256
  pub moved :
      (i : ℕ)
      → i < 255
      → get_or new.diffs_last i 0 ≡ shifted motion (t.threshold / 4) t.diffs_last i
  pub newest : get_or new.diffs_last 255 0 ≡ (if motion then t.threshold / 4 else diffs)
  pub top : ℕ
  pub top_IsTop : IsTop motion t diffs top
  pub level :
      let level = max (sum_below (λ i. get_or t.diffs_last i 0) 256 / 64) (top * 2) in
      new.threshold ≡ (if ltb level max_changes then (t.threshold + level) / 2 else t.threshold)

settle-IsTuned :
    (max_changes diffs : ℕ) (motion : Bool) (t : Thresholds) (s : Scan)
    → length t.diffs_last ≡ 256
    → Scans motion (t.threshold / 4) diffs t.diffs_last 255 s
    → IsTuned max_changes diffs motion t (settle max_changes diffs motion t s)
unfolding settle
settle-IsTuned max_changes diffs motion t s size p = record {
  size = length-set s.last 255 newest ∙ p.window.size ∙ size;
  moved = λ i lt. get_or-set_ne s.last 255 i newest 0 (omega arith) ∙ p.window.done i lt;
  newest = get_or-set_self s.last 255 newest 0 (omega (arith, p.window.size));
  top = s.top;
  top_IsTop = record { least = p.least; above = p.above; attained = p.attained };
  level = ground (
    arith,
    p.total,
    p.window.ahead 255 (omega arith),
    sum_below-suc (λ i. get_or t.diffs_last i 0) 255,
  );
}
  where
    newest : ℕ
    newest = if motion then t.threshold / 4 else diffs

-- For a nonzero count and a window of 256 entries: the window moves down by one place, its newest
-- entry is the count, or a quarter of the threshold while there is motion; the level is four times
-- the mean of the old window or twice the largest value compared, whichever is more; and the
-- threshold goes half way to that level if the level is below `max_changes`, and stays if not.
pub threshold_tune-IsTuned :
    (max_changes diffs : ℕ) (motion : Bool) (t : Thresholds)
    → diffs ≢ 0
    → length t.diffs_last ≡ 256
    → IsTuned max_changes diffs motion t (threshold_tune max_changes diffs motion t)
unfolding threshold_tune
threshold_tune-IsTuned max_changes diffs motion t nonzero size =
    let scans = Scans-all motion (t.threshold / 4) diffs t.diffs_last 255 (omega arith) in
    rw (≢→== diffs 0 nonzero) (settle-IsTuned max_changes diffs motion t _ size scans)
