-- ===== src/Rotate/Quads.antt =====
-- reverse_inplace_quad reverses a block of bytes.
use cy_prus.Prelude.{
  ℕ, zero, suc, ◌+◌, ◌-◌, ◌*◌, ◌≤◌, ◌<◌, ◌≡◌, ◌⊎◌, false, inl, inr, refl, ◌∙◌, ap, List, length,
  get_or, ltb, arith,
}
use cy_prus.Prelude.{lt→ltb, le→ltb, dec_lt, get_or_ext}
use cy_prus.Rotate.{swap_quads, reverse_loop, reverse_inplace_quad}
use cy_prus.Rotate.Words.{Bytes, Swaps, swap_quads-Bytes, swap_quads-Swaps}

-- The block of `n` bytes at `p` reversed, and nothing else changed.
pub record Reversed (p n : ℕ) (old now : List ℕ) : Type 0 where
  pub size : length now ≡ length old
  pub block : (t : ℕ) → t < n → get_or now (p + t) 0 ≡ get_or old (p + n - 1 - t) 0
  pub kept : (j : ℕ) → (j < p) ⊎ (p + n ≤ j) → get_or now j 0 ≡ get_or old j 0

-- One round, and the reversed rest.
around :
    (p k : ℕ) (old mid now : List ℕ)
    → Swaps p (p + 8 * k + 4) old mid
    → Reversed (p + 4) (8 * k) mid now
    → Reversed p (8 * suc k) old now
around p k old mid now s r = record {
  size = r.size ∙ s.size;
  block = λ t h. elim (dec_lt t 4) [
    | yes low ↦
        r.kept (p + t) (inl (omega arith))
        ∙ s.first t low
        ∙ ap (λ (i : ℕ). get_or old i 0) (omega arith)
    | no low ↦ elim (dec_lt t (8 * k + 4)) [
      | yes mid_t ↦ middle t (omega arith) mid_t
      | no high ↦ last t (omega arith) h
    ]
  ];
  kept = λ j out. r.kept j (ground arith) ∙ s.kept j (ground arith) (ground arith);
}
  where
    middle :
        (t : ℕ)
        → 4 ≤ t
        → t < 8 * k + 4
        → get_or now (p + t) 0 ≡ get_or old (p + 8 * suc k - 1 - t) 0
    middle t low high =
        let here : p + t ≡ p + 4 + (t - 4) = omega arith in
        let there : p + 4 + 8 * k - 1 - (t - 4) ≡ p + 8 * suc k - 1 - t = omega arith in
        ap (λ (i : ℕ). get_or now i 0) here
        ∙ r.block (t - 4) (omega arith)
        ∙ ap (λ (i : ℕ). get_or mid i 0) there
        ∙ s.kept _ (inr (omega arith)) (inl (omega arith))

    last :
        (t : ℕ)
        → 8 * k + 4 ≤ t
        → t < 8 * suc k
        → get_or now (p + t) 0 ≡ get_or old (p + 8 * suc k - 1 - t) 0
    last t low high =
        let here : p + t ≡ p + 8 * k + 4 + (t - (8 * k + 4)) = omega arith in
        r.kept (p + t) (inr (omega arith))
        ∙ ap (λ (i : ℕ). get_or mid i 0) here
        ∙ s.second (t - (8 * k + 4)) (omega arith)
        ∙ ap (λ (i : ℕ). get_or old i 0) (omega arith)

reverse_loop_lem :
    (fuel p k : ℕ) (buf : List ℕ)
    → k ≤ fuel
    → Bytes buf
    → p + 8 * k ≤ length buf
    → Reversed p (8 * k) buf (reverse_loop fuel p (p + 8 * k - 4) buf)
unfolding reverse_loop
reverse_loop_lem zero p zero buf h bytes room = record {
  size = refl;
  block = λ t lt. absurd (omega arith);
  kept = λ j out. refl;
}
reverse_loop_lem zero p (suc k) buf h bytes room = absurd (omega arith)
reverse_loop_lem (suc fuel) p zero buf h bytes room =
    let stop : ltb p (p + 8 * 0 - 4) ≡ false = le→ltb p (p + 8 * 0 - 4) (omega arith) in
    rw stop (record { size = refl; block = λ t lt. absurd (omega arith); kept = λ j out. refl })
reverse_loop_lem (suc fuel) p (suc k) buf h bytes room =
    let q : p + 8 * suc k - 4 ≡ p + 8 * k + 4 = omega arith in
    let next : p + 8 * k + 4 - 4 ≡ p + 4 + 8 * k - 4 = omega arith in
    let mid = swap_quads p (p + 8 * k + 4) buf in
    let s = swap_quads-Swaps p (p + 8 * k + 4) buf bytes (omega arith) (omega arith) in
    let bytes' = swap_quads-Bytes p (p + 8 * k + 4) buf bytes (omega arith) (omega arith) in
    rw (q, lt→ltb p (p + 8 * k + 4) (omega arith), next)
      (around p k buf mid _ s
        (reverse_loop_lem fuel (p + 4) k mid (omega arith) bytes' (omega (arith, s.size))))

-- A block whose length is a multiple of eight bytes is reversed in place, and nothing around it
-- changes. Every element of the buffer is a byte, and the block lies in it.
pub reverse_inplace_quad-Reversed :
    (src k : ℕ) (buf : List ℕ)
    → Bytes buf
    → src + 8 * k ≤ length buf
    → Reversed src (8 * k) buf (reverse_inplace_quad src (8 * k) buf)
unfolding reverse_inplace_quad
reverse_inplace_quad-Reversed src k buf bytes room =
    reverse_loop_lem (8 * k) src k buf (omega arith) bytes room

-- Where an index lies.
inside : (p n j : ℕ) → Dec ((p ≤ j) × (j < p + n))
inside p n j = elim (dec_lt j p) [
  | yes low ↦ no (λ h. omega arith)
  | no low ↦ elim (dec_lt j (p + n)) [
    | yes in_block ↦ yes (omega arith, in_block)
    | no high ↦ no (λ h. omega arith)
  ]
]

module _ (p n : ℕ) (old now : List ℕ) (r : Reversed p n old now) where
  block_at : (j : ℕ) → p ≤ j → j < p + n → get_or now j 0 ≡ get_or old (p + n - 1 - (j - p)) 0
  block_at j low high =
      ap (λ (i : ℕ). get_or now i 0) (let e : j ≡ p + (j - p) = omega arith in e)
      ∙ r.block (j - p) (omega arith)

  Reversed-Bytes : Bytes old → Bytes now
  Reversed-Bytes bytes j = elim (inside p n j) [
    | yes (low, high) ↦ rw (block_at j low high) (bytes _)
    | no out ↦ rw (r.kept j (ground arith)) (bytes j)
  ]

  Reversed-twice : (back : List ℕ) → Reversed p n now back → back ≡ old
  Reversed-twice back r' = get_or_ext 0 back old (r'.size ∙ r.size) (λ j h. elim (inside p n j) [
    | yes (low, high) ↦
        ap (λ (i : ℕ). get_or back i 0) (let e : j ≡ p + (j - p) = omega arith in e)
        ∙ r'.block (j - p) (omega arith)
        ∙ block_at (p + n - 1 - (j - p)) (omega arith) (omega arith)
        ∙ ap (λ (i : ℕ). get_or old i 0) (omega arith)
    | no out ↦ r'.kept j (ground arith) ∙ r.kept j (ground arith)
  ])

-- Reversing such a block twice gives the buffer back.
pub reverse_inplace_quad-reverse_inplace_quad :
    (src k : ℕ) (buf : List ℕ)
    → Bytes buf
    → src + 8 * k ≤ length buf
    → reverse_inplace_quad src (8 * k) (reverse_inplace_quad src (8 * k) buf) ≡ buf
reverse_inplace_quad-reverse_inplace_quad src k buf bytes room =
    let r = reverse_inplace_quad-Reversed src k buf bytes room in
    let r' =
      reverse_inplace_quad-Reversed src k _ (Reversed-Bytes _ _ _ _ r bytes)
        (omega (arith, r.size)) in
    Reversed-twice src (8 * k) buf _ r _ r'
