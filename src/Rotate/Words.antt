-- ===== src/Rotate/Words.antt =====
-- One round of reverse_inplace_quad: two words change places, each reversed.
use cy_prus.Prelude.{
  ◌==◌, ℕ, ◌+◌, ◌-◌, ◌*◌, ◌/◌, ◌%◌, ◌^◌, ◌≤◌, ◌<◌, ◌≡◌, ◌⊎◌, refl, ◌∙◌, List, length, get_or, set,
  if◌then◌else◌, arith,
}
use cy_prus.Prelude.{get_or-set, length-set}
use cy_prus.Rotate.{swap_bytes, load32, store32, swap_quads}

-- Every element is an `unsigned char`.
abbrev pub Bytes : List ℕ → Type 0
Bytes xs = (i : ℕ) → get_or xs i 0 < 256

-- The four bytes of a word, swapped, are those of the word from the last to the first.
swap_bytes_lem :
    (b0 b1 b2 b3 : ℕ)
    → b0 < 256
    → b1 < 256
    → b2 < 256
    → b3 < 256
    → let w = swap_bytes (b0 + b1 * 2 ^ 8 + b2 * 2 ^ 16 + b3 * 2 ^ 24) in
      (w % 256 ≡ b3) × (w / 2 ^ 8 % 256 ≡ b2) × (w / 2 ^ 16 % 256 ≡ b1) × (w / 2 ^ 24 % 256 ≡ b0)
unfolding swap_bytes
swap_bytes_lem b0 b1 b2 b3 h0 h1 h2 h3 = omega arith

-- A word written at `i`.
store32-at :
    (buf : List ℕ) (i w j : ℕ)
    → i + 4 ≤ length buf
    → get_or (store32 buf i w) j 0 ≡ (
        if i + 3 == j
        then w / 2 ^ 24 % 256
        else if i + 2 == j
        then w / 2 ^ 16 % 256
        else if i + 1 == j
        then w / 2 ^ 8 % 256
        else if i == j
        then w % 256
        else get_or buf j 0)
store32-at buf i w j h =
    let one = set buf i (w % 256) in
    let two = set one (i + 1) (w / 2 ^ 8 % 256) in
    let three = set two (i + 2) (w / 2 ^ 16 % 256) in
    let size1 = length-set buf i (w % 256) in
    let size2 = length-set one (i + 1) (w / 2 ^ 8 % 256) in
    let size3 = length-set two (i + 2) (w / 2 ^ 16 % 256) in
    rw
      (
        get_or-set three (i + 3) j (w / 2 ^ 24 % 256) 0 (omega arith),
        get_or-set two (i + 2) j (w / 2 ^ 16 % 256) 0 (omega arith),
        get_or-set one (i + 1) j (w / 2 ^ 8 % 256) 0 (omega arith),
        get_or-set buf i j (w % 256) 0 (omega arith),
      )
      refl

length-store32 : (buf : List ℕ) (i w : ℕ) → length (store32 buf i w) ≡ length buf
length-store32 buf i w = simp length-set

-- Two quads change places, and each is reversed.
pub record Swaps (p q : ℕ) (old now : List ℕ) : Type 0 where
  pub size : length now ≡ length old
  pub first : (t : ℕ) → t < 4 → get_or now (p + t) 0 ≡ get_or old (q + 3 - t) 0
  pub second : (t : ℕ) → t < 4 → get_or now (q + t) 0 ≡ get_or old (p + 3 - t) 0
  pub kept :
      (j : ℕ) → (j < p) ⊎ (p + 4 ≤ j) → (j < q) ⊎ (q + 4 ≤ j) → get_or now j 0 ≡ get_or old j 0

module _ (p q : ℕ) (old : List ℕ) (bytes : Bytes old) (apart : p + 4 ≤ q)
    (room : q + 4 ≤ length old) where
  abbrev low : ℕ
  low = swap_bytes (load32 old p)

  abbrev high : ℕ
  high = swap_bytes (load32 old q)

  low_lem :
      (low % 256 ≡ get_or old (p + 3) 0)
      × (low / 2 ^ 8 % 256 ≡ get_or old (p + 2) 0)
      × (low / 2 ^ 16 % 256 ≡ get_or old (p + 1) 0)
      × (low / 2 ^ 24 % 256 ≡ get_or old p 0)
  low_lem = swap_bytes_lem _ _ _ _ (bytes p) (bytes (p + 1)) (bytes (p + 2)) (bytes (p + 3))

  high_lem :
      (high % 256 ≡ get_or old (q + 3) 0)
      × (high / 2 ^ 8 % 256 ≡ get_or old (q + 2) 0)
      × (high / 2 ^ 16 % 256 ≡ get_or old (q + 1) 0)
      × (high / 2 ^ 24 % 256 ≡ get_or old q 0)
  high_lem = swap_bytes_lem _ _ _ _ (bytes q) (bytes (q + 1)) (bytes (q + 2)) (bytes (q + 3))

  -- Any element after the two writes.
  swapped-at :
      (j : ℕ)
      → get_or (swap_quads p q old) j 0 ≡ (
          if p + 3 == j
          then get_or old q 0
          else if p + 2 == j
          then get_or old (q + 1) 0
          else if p + 1 == j
          then get_or old (q + 2) 0
          else if p == j
          then get_or old (q + 3) 0
          else if q + 3 == j
          then get_or old p 0
          else if q + 2 == j
          then get_or old (p + 1) 0
          else if q + 1 == j
          then get_or old (p + 2) 0
          else if q == j
          then get_or old (p + 3) 0
          else get_or old j 0)
  unfolding swap_quads
  swapped-at j =
      store32-at (store32 old q low) p high j (omega (arith, length-store32 old q low))
      ∙ rw
          (
            store32-at old q low j room,
            low_lem.0,
            low_lem.1,
            low_lem.2,
            low_lem.3,
            high_lem.0,
            high_lem.1,
            high_lem.2,
            high_lem.3,
          )
          refl

  length-swap_quads : length (swap_quads p q old) ≡ length old
  unfolding swap_quads
  length-swap_quads = length-store32 (store32 old q low) p high ∙ length-store32 old q low

  pub swap_quads-Bytes : Bytes (swap_quads p q old)
  swap_quads-Bytes j = rw (swapped-at j) (
      ground (
        arith,
        bytes p,
        bytes (p + 1),
        bytes (p + 2),
        bytes (p + 3),
        bytes q,
        bytes (q + 1),
        bytes (q + 2),
        bytes (q + 3),
        bytes j,
      ))

  first_quad : (t : ℕ) → t < 4 → get_or (swap_quads p q old) (p + t) 0 ≡ get_or old (q + 3 - t) 0
  first_quad t h = swapped-at (p + t) ∙ ground arith

  pub swap_quads-Swaps : Swaps p q old (swap_quads p q old)
  swap_quads-Swaps = record {
    size = length-swap_quads;
    first = first_quad;
    second = λ t h. swapped-at (q + t) ∙ ground arith;
    kept = λ j l r. swapped-at j ∙ ground arith;
  }
