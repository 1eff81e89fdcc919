-- ===== src/Alg/Label/Reach.antt =====
-- The region of a pixel, and what iflood knows in the middle of a fill when its stack has room:
-- which pixels next to the painted ones are on the stack, or still to be looked at.
use cy_prus.Prelude.{ℕ, ◌+◌, ◌*◌, ◌≤◌, ◌<◌, ◌≡◌, ◌⊎◌, inl, inr, true}
use cy_prus.Prelude.{List, [], ◌∷◌, get_or}
use cy_prus.Alg.Label.{Fill, Dir, down, up, Segment, row_after}
use cy_prus.Alg.Label.Runs.{open_at}

-- Two pixels with a common side.
pub data Near (x y x' y' : ℕ) : Type 0 where
  right : x + 1 ≡ x' → y ≡ y' → Near x y x' y'
  left : x ≡ x' + 1 → y ≡ y' → Near x y x' y'
  below : x ≡ x' → y + 1 ≡ y' → Near x y x' y'
  above : x ≡ x' → y ≡ y' + 1 → Near x y x' y'

-- The row `r` is next to the row `y` in a direction.
abbrev pub NextRow : Dir → (y r : ℕ) → Type 0
NextRow down y r = y + 1 ≡ r
NextRow up y r = y ≡ r + 1

abbrev pub Covers : Segment → (x y : ℕ) → Type 0
Covers s x y = (s.xl ≤ x) × (x ≤ s.xr) × (row_after s.dy s.y ≡ y)

-- Some segment of the stack has the pixel.
abbrev pub Covered : List Segment → (x y : ℕ) → Type 0
Covered [] x y = ⊥
Covered (s ∷ rest) x y = Covers s x y ⊎ Covered rest x y

module _ (out : List ℕ) (width height new old : ℕ) (before : List ℕ) (x0 y0 : ℕ) where
  -- Open before the fill.
  pub record Open (x y : ℕ) : Type 0 where
    pub column : x < width
    pub row : y < height
    pub is : open_at out width height new old before (y * width + x) ≡ true

  -- The pixels that a path of open pixels joins with the start.
  pub data Reach : ℕ → ℕ → Type 0 where
    here : Reach x0 y0
    step : {x y x' y' : ℕ} → Reach x y → Near x y x' y' → Open x' y' → Reach x' y'

  abbrev pub Painted : Fill → (x y : ℕ) → Type 0
  Painted f x y = get_or f.labels (y * width + x) 0 ≡ new

  -- Painted, on the stack, or still to be looked at.
  abbrev pub Seen : (todo : ℕ → ℕ → Type 0) → Fill → (x y : ℕ) → Type 0
  Seen todo f x y = Painted f x y ⊎ (Covered f.stack x y ⊎ todo x y)

  abbrev pub Sources : List Segment → Type 0
  Sources [] = Unit
  Sources (s ∷ rest) =
      ((x : ℕ) → s.xl ≤ x → x ≤ s.xr → Open x (row_after s.dy s.y) → Reach x (row_after s.dy s.y))
      × Sources rest

  -- The row that a segment comes from is painted, or some of it is on the stack below.
  abbrev pub Parent : Fill → Segment → List Segment → Type 0
  Parent f s rest =
      (x : ℕ)
      → s.xl ≤ x
      → x ≤ s.xr
      → Open x s.y
      → Painted f x s.y ⊎ (Covered rest x s.y ⊎ ((x ≡ x0) × (s.y ≡ y0)))

  abbrev pub Parents : Fill → List Segment → Type 0
  Parents f [] = Unit
  Parents f (s ∷ rest) = Parent f s rest × Parents f rest

  pub record Explored (todo : ℕ → ℕ → Type 0) (f : Fill) : Type 0 where
    pub reached : (x y : ℕ) → Open x y → Painted f x y → Reach x y
    pub around :
        (x y x' y' : ℕ) → Open x y → Painted f x y → Near x y x' y' → Open x' y' → Seen todo f x' y'
    pub sources : Sources f.stack
    pub parents : Parents f f.stack
    pub begun : Seen todo f x0 y0

  -- What is still to be looked at may be given up where it is seen.
  pub Explored-less :
      {todo todo' : ℕ → ℕ → Type 0} {f : Fill}
      → Open x0 y0
      → Explored todo f
      → ((x y : ℕ) → Open x y → todo x y → Seen todo' f x y)
      → Explored todo' f
  Explored-less {todo} {todo'} {f} start e given =
      let seen : (x y : ℕ) → Open x y → Seen todo f x y → Seen todo' f x y = λ x y o s. elim s [
        | inl p ↦ inl p
        | inr (inl c) ↦ inr (inl c)
        | inr (inr t) ↦ given x y o t
      ] in
      record {
        reached = e.reached;
        around = λ x y x' y' o p n o'. seen x' y' o' (e.around x y x' y' o p n o');
        sources = e.sources;
        parents = e.parents;
        begun = seen x0 y0 start e.begun;
      }
