-- ===== src/Alg/Label/Tests.antt =====
-- Runs of the labelling of alg.c, and of alg_despeckle, on a small picture.
use cy_prus.Prelude.{ℕ, ◌+◌, ◌*◌, ◌≤◌, ◌<◌, ◌≡◌, ◌≢◌, refl, arith, sum_below}
use cy_prus.Prelude.{some, List, [], ◌∷◌}
use cy_prus.Alg.Label.{Regions, iflood, labeling}
use cy_prus.Alg.Label.Runs.{open_count}
use cy_prus.Alg.Label.Reach.{Open}
use cy_prus.Alg.Label.Flood.{Flooded, iflood-Flooded}
use cy_prus.Alg.Label.Connected.{Region, iflood-Region}
use cy_prus.Alg.Label.Labels.{moved, Numbered, labeling-Numbered}

-- Three columns and two rows; the pixels with motion are connected around a corner.
abbrev moving : List ℕ
moving = 9 ∷ 0 ∷ 9 ∷ 9 ∷ 9 ∷ 0 ∷ []

abbrev blank : List ℕ
blank = 0 ∷ 0 ∷ 0 ∷ 0 ∷ 0 ∷ 0 ∷ []

two≢zero : ◌≢◌ {A = ℕ} 2 0
two≢zero e = omega arith

start_open : Open moving 3 2 2 0 blank 0 0 0 0
start_open = record { column = omega arith; row = omega arith; is = refl }

few_open : 3 * open_count moving 3 2 2 0 blank + 2 ≤ 10000
unfolding open_count sum_below
few_open = omega arith

few_moving : moved 1 moving 3 2 < 32768
unfolding sum_below
few_moving = omega arith

connected_example :
    (after : List ℕ) × (count : ℕ) × (iflood moving 3 2 2 0 0 0 blank ≡ some (after, count))
    × Region moving 3 2 2 0 blank 0 0 two≢zero start_open after
    × (count + open_count moving 3 2 2 0 after ≡ open_count moving 3 2 2 0 blank)
connected_example =
    iflood-Region moving 3 2 2 0 blank 0 0 two≢zero start_open (omega arith) few_open

flood_example :
    (after : List ℕ) × (count : ℕ) × (iflood moving 3 2 2 0 0 0 blank ≡ some (after, count))
    × Flooded moving 3 2 2 0 blank after count
flood_example = iflood-Flooded moving 3 2 2 0 blank 0 0 two≢zero (omega arith)

labeling_example : (r : Regions) × (labeling 1 moving 3 2 0 ≡ some r) × Numbered 1 moving 3 2 r
labeling_example = labeling-Numbered 1 moving 3 2 0 few_moving

abbrev no_regions : Regions
no_regions = record {
  labels = blank;
  total_labels = 0;
  labelsize_max = 0;
  labelgroup_max = 0;
  labels_above = 0;
  largest_label = 0;
  current_label = 2;
}

abbrev rows : List ℕ
rows = 0 ∷ 0 ∷ 0 ∷ 0 ∷ 0 ∷ 0 ∷ 0 ∷ 0 ∷ 0 ∷ []
