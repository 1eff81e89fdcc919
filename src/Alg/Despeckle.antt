-- ===== src/Alg/Despeckle.antt =====
-- alg_despeckle of board/motion/motion_modified/alg.c: the actions of the option despeckle_filter.
-- The three rows of the common buffer stand in the order of their last use.
pub mod Actions
use cy_prus.Prelude.{ℕ, ◌+◌, ◌*◌, ◌≤◌, Bool, true, false, ◌||◌, if◌then◌else◌, ◌==◌}
use cy_prus.Prelude.{Option, none, some, List, [], ◌∷◌, ◌++◌}
use cy_prus.Alg.Label.{Regions, labeling}
use cy_prus.Alg.Morph.{Sweep, erode9, erode5, dilate9, dilate5}

-- What the loop changes. `regions` are the labels and the numbers that alg_labeling keeps.
pub record Despeckle : Type 0 where
  pub out : List ℕ
  pub common_buffer : List ℕ
  pub regions : Regions
  pub diffs : ℕ
  pub done : ℕ

-- The picture, the buffer and the result of an erosion or a dilation.
abbrev pub with_sweep : Sweep → Despeckle → Despeckle
with_sweep w s = record s {
  out = w.img;
  common_buffer = w.row1 ++ (w.row2 ++ w.row3);
  diffs = w.sum;
  done = 1;
}

module _ (threshold width height : ℕ) where
  -- The `switch`: the state afterwards, and whether the loop ends.
  pub action : (c : ℕ) → Despeckle → Option (Bool × Despeckle)
  action c s =
      let big = erode9 s.out width height s.common_buffer 0 in
      let small = erode5 s.out width height s.common_buffer 0 in
      let labelled = labeling threshold s.out width height s.regions.largest_label in
      if c == b'E'
      then some (big.sum == 0, with_sweep big s)
      else if c == b'e'
      then some (small.sum == 0, with_sweep small s)
      else if c == b'D'
      then some (false, with_sweep (dilate9 s.out width height s.common_buffer) s)
      else if c == b'd'
      then some (false, with_sweep (dilate5 s.out width height s.common_buffer) s)
      else if c == b'l'
      then elim labelled [
        | none ↦ none
        | some r ↦ some (true, record s { regions = r; diffs = r.labelgroup_max; done = 2 })
      ]
      else some (false, s)

  pub actions : (despeckle_filter : List ℕ) → Despeckle → Option Despeckle
  unfolding action
  actions [] s = some s
  actions (c ∷ rest) s = elim (action c s) [
    | none ↦ none
    | some (ends, s') ↦ let more = actions rest s' in if ends then some s' else more
  ]

  -- The result, and what is left of the picture and the numbers.
  abbrev pub finish_despeckle : (olddiffs : ℕ) → Despeckle → ℕ × Despeckle
  finish_despeckle olddiffs s = (
    if s.done == 0 then olddiffs else s.diffs,
    if s.done == 2 then s else record s { regions = record s.regions { labelsize_max = 0 } },
  )

  pub despeckle :
      (olddiffs : ℕ) (despeckle_filter : List ℕ) (out common_buffer : List ℕ) (regions : Regions)
      → Option (ℕ × Despeckle)
  unfolding actions
  despeckle olddiffs despeckle_filter out common_buffer regions =
      let start : Despeckle = record {
        out = out;
        common_buffer = common_buffer;
        regions = regions;
        diffs = 0;
        done = 0;
      } in
      elim (actions despeckle_filter start) [
        | none ↦ none
        | some s ↦ some (finish_despeckle olddiffs s)
      ]
