-- ===== src/Alg/Label.antt =====
-- The labelling of board/motion/motion_modified/alg.c: iflood, which fills a connected region, and
-- alg_labeling, which gives every region a number.
pub mod Runs
pub mod Steps
pub mod Budget
pub mod Rounds
pub mod Flood
pub mod Reach
pub mod Explored
pub mod Region
pub mod Scan
pub mod Connected
pub mod Labels
pub mod Ends
mod Tests
use cy_prus.Prelude.{
  ℕ, zero, suc, ◌+◌, ◌-◌, ◌*◌, ◌/◌, ◌<◌, ◌≤◌, Bool, true, false, not, ◌&&◌, if◌then◌else◌, ltb, leb,
  ◌==◌, truth,
}
use cy_prus.Prelude.{Option, none, some, List, [], ◌∷◌, length, get_or, set, replicate, rounds}

-- `dy`, which is 1 or -1
pub data Dir : Type 0 where
  down up : Dir

abbrev pub opposite : Dir → Dir
opposite down = up
opposite up = down

pub record Segment : Type 0 where
  pub y : ℕ
  pub xl : ℕ
  pub xr : ℕ
  pub dy : Dir

-- MAXS
abbrev pub maxs : ℕ
maxs = 10000

-- `Y + DY`
abbrev pub row_after : Dir → ℕ → ℕ
row_after down y = y + 1
row_after up y = y - 1

-- `Y + (DY) >= 0 && Y + (DY) < height`
abbrev pub is_row_after : (height : ℕ) → Dir → ℕ → Bool
is_row_after height down y = ltb (y + 1) height
is_row_after height up y = ltb 0 y && ltb (y - 1) height

-- PUSH; the stack has its top first.
pub push : (height : ℕ) → Segment → List Segment → List Segment
push height s stack =
    if ltb (length stack) maxs && is_row_after height s.dy s.y then s ∷ stack else stack

-- What iflood changes: the labels, its stack and its count.
pub record Fill : Type 0 where
  pub labels : List ℕ
  pub stack : List Segment
  pub count : ℕ

module _ (out : List ℕ) (width height newvalue oldvalue : ℕ) where
  -- `out[y * width + x] != 0 && labels[y * width + x] == oldvalue`
  abbrev pub is_open : List ℕ → (y x : ℕ) → Bool
  is_open labels y x =
      truth (get_or out (y * width + x) 0) && get_or labels (y * width + x) 0 == oldvalue

  -- One pixel gets its label.
  abbrev pub paint : (y x : ℕ) → Fill → Fill
  paint y x f = record f { labels = set f.labels (y * width + x) newvalue; count = f.count + 1 }

  -- The loop to the left, from column l - 1 on; with the new `l`.
  pub fill_left : (y l : ℕ) → Fill → ℕ × Fill
  fill_left y zero f = (zero, f)
  fill_left y (suc x) f =
      let rest = fill_left y x (paint y x f) in if is_open f.labels y x then rest else (suc x, f)

  -- The loop to the right, from column `x` on, with `n` columns to go; with the new `x`.
  pub fill_right : (y n x : ℕ) → Fill → ℕ × Fill
  fill_right y zero x f = (x, f)
  fill_right y (suc n) x f =
      let rest = fill_right y n (x + 1) (paint y x f) in
      if is_open f.labels y x then rest else (x, f)

  -- The loop that passes over closed pixels, from `x` on with `n` columns to go.
  pub skip_closed : (labels : List ℕ) (y n x : ℕ) → ℕ
  skip_closed labels y zero x = x
  skip_closed labels y (suc n) x =
      let rest = skip_closed labels y n (x + 1) in if is_open labels y x then x else rest

  -- From the label `skip`, at `x`: the next open column of the span, or one past it.
  abbrev pub next_open : (labels : List ℕ) (y x2 x : ℕ) → ℕ
  next_open labels y x2 x = skip_closed labels y (x2 + 1 - (x + 1)) (x + 1)

  -- The body of the do loop before `skip`: the fill to the right and its two segments.
  pub grow_right : (y x2 : ℕ) → Dir → (l x : ℕ) → Fill → ℕ × Fill
  unfolding fill_right push
  grow_right y x2 dy l x f =
      let (x', f') = fill_right y (width - x) x f in
      let stack = push height (record { y = y; xl = l; xr = x' - 1; dy = dy }) f'.stack in
      let leak = push height (record { y = y; xl = x2 + 1; xr = x' - 1; dy = opposite dy }) stack in
      (x', record f' { stack = if ltb (x2 + 1) x' then leak else stack })

  -- The do loop, with `l` and `x` at its start.
  pub spans : (fuel y x2 : ℕ) → Dir → (l x : ℕ) → Fill → Option Fill
  spans zero y x2 dy l x f = none
  spans (suc fuel) y x2 dy l x f =
      let (x', f') = grow_right y x2 dy l x f in
      let next = next_open f'.labels y x2 x' in
      let rest = spans fuel y x2 dy next next f' in if leb next x2 then rest else some f'

  -- One segment of the stack, `row` being the scan line next to it.
  pub scan_segment : (row x1 x2 : ℕ) → Dir → Fill → Option Fill
  unfolding fill_left spans
  scan_segment row x1 x2 dy f =
      let (l, f') = fill_left row (x1 + 1) f in
      let leak = push height (record { y = row; xl = l; xr = x1 - 1; dy = opposite dy }) f'.stack in
      let f'' = record f' { stack = if ltb l x1 then leak else f'.stack } in
      let next = next_open f.labels row x2 x1 in
      let skipped = spans (x2 + 2) row x2 dy next next f in
      if ltb x1 l
      then if leb next x2 then skipped else some f
      else spans (x2 + 2) row x2 dy l (x1 + 1) f''

  -- The loop over the stack, which is the list.
  pub flood_loop : (fuel : ℕ) → List Segment → Fill → Option Fill
  unfolding scan_segment
  flood_loop fuel [] f = some f
  flood_loop zero (s ∷ rest) f = none
  flood_loop (suc fuel) (s ∷ rest) f =
      elim (scan_segment (row_after s.dy s.y) s.xl s.xr s.dy (record f { stack = rest })) [
        | none ↦ none
        | some f' ↦ flood_loop fuel f'.stack f'
      ]

  -- The labels afterwards and the count. Each pixel that gets its label pushes three segments at
  -- most, so this fuel is enough.
  pub iflood : (x y : ℕ) → (labels : List ℕ) → Option (List ℕ × ℕ)
  unfolding flood_loop
  iflood x y labels =
      let below = push height (record { y = y; xl = x; xr = x; dy = down }) [] in
      let stack = push height (record { y = y + 1; xl = x; xr = x; dy = up }) below in
      let run =
        flood_loop (3 * (width * height) + 3) stack
          (record { labels = labels; stack = stack; count = 0 }) in
      if ltb x width && ltb y height
      then elim run [ none ↦ none | some f ↦ some (f.labels, f.count) ]
      else some (labels, 0)

-- What alg_labeling keeps, in struct images and cnt->current_image, and the number of the next
-- region.
pub record Regions : Type 0 where
  pub labels : List ℕ
  pub total_labels : ℕ
  pub labelsize_max : ℕ
  pub labelgroup_max : ℕ
  pub labels_above : ℕ
  pub largest_label : ℕ
  pub current_label : ℕ

-- A region of `labelsize` pixels was found; a large one was marked by the second fill.
pub count_region : (large : Bool) → (labelsize : ℕ) → Regions → Regions
count_region large labelsize r =
    let grouped =
      if large
      then record r {
        labelgroup_max = r.labelgroup_max + labelsize;
        labels_above = r.labels_above + 1;
      }
      else r in
    let largest =
      if ltb r.labelsize_max labelsize
      then record grouped { labelsize_max = labelsize; largest_label = r.current_label }
      else grouped in
    record largest { total_labels = r.total_labels + 1; current_label = r.current_label + 1 }

module _ (threshold : ℕ) (out : List ℕ) (width height : ℕ) where
  -- A region above the threshold is filled again, with 32768 added to its number.
  pub mark_large : (ix iy labelsize : ℕ) → Regions → Option Regions
  unfolding iflood count_region
  mark_large ix iy labelsize r =
      let again =
        iflood out width height (r.current_label + 32768) r.current_label ix iy r.labels in
      if ltb threshold labelsize
      then elim again [
        | none ↦ none
        | some (labels, size) ↦ some (count_region true size (record r { labels = labels }))
      ]
      else some (count_region false labelsize r)

  -- The pixel in column `ix` of row `iy`.
  pub label_pixel : (iy ix : ℕ) → Regions → Option Regions
  unfolding mark_large
  label_pixel iy ix r =
      let p = iy * width + ix in
      let first = iflood out width height r.current_label 0 ix iy r.labels in
      if get_or out p 0 == 0
      then some (record r { labels = set r.labels p 1 })
      else if ltb 0 (get_or r.labels p 0)
      then some r
      else elim first [
        | none ↦ none
        | some (labels, size) ↦
            if ltb 0 size
            then mark_large ix iy size (record r { labels = labels })
            else some (record r { labels = labels })
      ]

  abbrev pub label_step : (iy ix : ℕ) → Option Regions → Option Regions
  label_step iy ix none = none
  label_step iy ix (some r) = label_pixel iy ix r

  -- The last row and the last column are not looked at. The result is labelgroup_max.
  pub labeling : (largest_label : ℕ) → Option Regions
  unfolding label_pixel
  labeling largest_label =
      rounds (λ iy s. rounds (λ ix t. label_step iy ix t) (width - 1) s) (height - 1)
        (some (record {
          labels = replicate (width * height) 0;
          total_labels = 0;
          labelsize_max = 0;
          labelgroup_max = 0;
          labels_above = 0;
          largest_label = largest_label;
          current_label = 2;
        }))
