-- ===== src/Alg/Switch.antt =====
-- alg_switchfilter of board/motion/motion_modified/alg.c: stripes of motion across the picture, as a
-- camera shows when it is switched.
pub mod Stripes
use cy_prus.Prelude.{
  ℕ, ◌+◌, ◌*◌, ◌/◌, Bool, ◌&&◌, ◌||◌, if◌then◌else◌, ltb, truth, List, get_or, rounds,
}
use cy_prus.Prelude.Int.{pos, sub_ℕ, ltb_ℤ}

-- `lines` and `vertlines`
pub record Lines : Type 0 where
  pub lines : ℕ
  pub vertlines : ℕ

-- The inner loop: the moving pixels of row `y`.
pub line_at : (width : ℕ) → (out : List ℕ) → (y : ℕ) → ℕ
line_at width out y =
    rounds (λ x line. if truth (get_or out (y * width + x) 0) then line + 1 else line) width 0

-- One round of the outer loop.
pub line_step : (width linediff : ℕ) → (out : List ℕ) → (y : ℕ) → Lines → Lines
line_step width linediff out y s =
    let line = line_at width out y in
    record {
      vertlines = if ltb (width / 18) line then s.vertlines + 1 else s.vertlines;
      lines = if ltb (linediff * 2) line then s.lines + 1 else s.lines;
    }

-- What the numbers of lines say about a picture.
pub is_switch : (height : ℕ) → Lines → Bool
is_switch height s =
    ltb (height / 10) s.vertlines
    && ltb s.lines (s.vertlines / 3)
    && (ltb (height / 4) s.vertlines || ltb_ℤ (pos (s.lines / 2)) (sub_ℕ s.lines s.vertlines))

pub switchfilter : (width height diffs : ℕ) → (out : List ℕ) → ℕ
unfolding line_step is_switch
switchfilter width height diffs out =
    let s =
      rounds (line_step width (diffs / height) out) height (record { lines = 0; vertlines = 0 }) in
    if is_switch height s then diffs else 0
