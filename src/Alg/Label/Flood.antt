-- ===== src/Alg/Label/Flood.antt =====
-- What iflood does to the labels, whatever the size of its stack.
use cy_prus.Prelude.{
  ℕ, ◌+◌, ◌*◌, ◌≤◌, ◌<◌, ◌≡◌, ◌≢◌, ◌⊎◌, inl, inr, refl, ap, true, ◌&&◌, ltb, arith, Bool-cases,
  count_below-le,
}
use cy_prus.Prelude.{Option, none, some, List, [], length, get_or}
use cy_prus.Alg.Label.{Fill, Segment, down, up, push, iflood}
use cy_prus.Alg.Label.Runs.{open_at, open_count}
use cy_prus.Alg.Label.Budget.{Budget, Budget-more, push-AllPlaced, push-length}
use cy_prus.Alg.Label.Rounds.{flood_loop-Budget}

module _ (out : List ℕ) (width height new old : ℕ) (before : List ℕ) where
  -- The labels are `before` with some open pixels given the new label, `count` of them.
  pub record Flooded (after : List ℕ) (count : ℕ) : Type 0 where
    pub room : width * height ≤ length after
    pub total :
        count + open_count out width height new old after
        ≡ open_count out width height new old before
    pub pixels :
        (p : ℕ)
        → (get_or after p 0 ≡ get_or before p 0)
          ⊎ ((get_or after p 0 ≡ new) × (open_at out width height new old before p ≡ true))

  abbrev pub seeds : (x y : ℕ) → List Segment
  seeds x y =
      push height (record { y = y + 1; xl = x; xr = x; dy = up })
        (push height (record { y = y; xl = x; xr = x; dy = down }) [])

  -- The state before the loop over the stack.
  abbrev pub seeded : (x y : ℕ) → Fill
  seeded x y = record { labels = before; stack = seeds x y; count = 0 }

  pub seeded-Budget :
      (x y : ℕ)
      → x < width
      → width * height ≤ length before
      → Budget out width height new old before 0
          (3 * open_count out width height new old before + 2)
          (seeded x y)
  seeded-Budget x y lt room = record {
    room = room;
    paid = omega (
      arith,
      push-length height (record { y = y + 1; xl = x; xr = x; dy = up })
          (push height (record { y = y; xl = x; xr = x; dy = down }) []),
      push-length height (record { y = y; xl = x; xr = x; dy = down }) [],
    );
    total = omega arith;
    pixels = λ p. inl refl;
    placed = push-AllPlaced width height _ _ (omega arith) lt (
        push-AllPlaced width height (record { y = y; xl = x; xr = x; dy = down }) [] (omega arith)
          lt tt);
  }

  -- Where the new label differs from the old one, iflood ends from every pixel and also when its
  -- stack is full. The pixels that it changes were open and have the new label, and with the count
  -- the number of open pixels is what it was.
  pub iflood-Flooded :
      (x y : ℕ)
      → new ≢ old
      → width * height ≤ length before
      → (after : List ℕ) × (count : ℕ) × (iflood out width height new old x y before
          ≡ some (after, count))
        × Flooded after count
  unfolding iflood open_count
  iflood-Flooded x y ne room = elim (Bool-cases (ltb x width && ltb y height)) [
    | inr e ↦
        (before, 0, rw e refl, record { room = room; total = omega arith; pixels = λ p. inl refl })
    | inl e ↦
        let enough : 3 * open_count out width height new old before + 2 ≤ 3 * (width * height) + 3 =
          omega
            (arith, count_below-le (open_at out width height new old before) (width * height)) in
        let run =
          flood_loop-Budget out width height new old before ne (3 * (width * height) + 3)
            (seeded x y)
            (Budget-more out width height new old before enough
              (seeded-Budget x y (ground arith) room)) in
        let ended =
          ap {B = Option (List ℕ × ℕ)}
            (λ (v : Option Fill). elim v [ none ↦ none | some f ↦ some (f.labels, f.count) ])
            run.2 in
        (
          run.0.labels,
          run.0.count,
          rw e ended,
          record { room = run.4.room; total = run.4.total; pixels = run.4.pixels },
        )
  ]
