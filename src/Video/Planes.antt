-- ===== src/Video/Planes.antt =====
-- conv_yuv422to420p takes every second byte as luma, and the mean of two rows as chroma.
use cy_prus.Prelude.{ℕ, suc, ◌+◌, ◌*◌, ◌/◌, ◌≤◌, ◌<◌, ◌≡◌, ◌≢◌, refl, sym, ◌∙◌, arith, ℕ_discrete}
use cy_prus.Prelude.{
  List, length, get_or, set, length-set, get_or-set_self, get_or-set_ne, rounds, rounds_inv,
  Scattered, scatter-Scattered,
}
use cy_prus.Prelude.{row_gap, place_unique, luma_size, halves}
use cy_prus.Video.{mean_of, luma_plane, chroma_step, conv_yuv422to420p}

-- A byte in each of two planes of `q` bytes behind the first `n` ones.
module _ (map : List ℕ) (n q k u v : ℕ) (room : n + q + q ≤ length map) (hk : k < q) where
  abbrev both : List ℕ
  both = set (set map (n + k) u) (n + k + q) v

  both-length : length both ≡ length map
  both-length = length-set (set map (n + k) u) (n + k + q) v ∙ length-set map (n + k) u

  both_kept : (p : ℕ) → p ≢ n + k → p ≢ n + k + q → get_or both p 0 ≡ get_or map p 0
  both_kept p h h' =
      get_or-set_ne (set map (n + k) u) (n + k + q) p v 0 (λ e. h' (sym e))
      ∙ get_or-set_ne map (n + k) p u 0 (λ e. h (sym e))

  both_first : get_or both (n + k) 0 ≡ u
  both_first =
      get_or-set_ne (set map (n + k) u) (n + k + q) (n + k) v 0 (λ e. omega arith)
      ∙ get_or-set_self map (n + k) u 0 (omega arith)

  both_second : get_or both (n + q + k) 0 ≡ v
  both_second =
      let e : n + q + k ≡ n + k + q = omega arith in
      rw e (
        get_or-set_self (set map (n + k) u) (n + k + q) v 0
          (omega (arith, length-set map (n + k) u)))

module _ (cap_map : List ℕ) (a b : ℕ) where
  -- The byte of a captured row at an offset.
  abbrev pub captured : (row offset : ℕ) → ℕ
  captured row offset = get_or cap_map (row * (4 * a) + offset) 0

  abbrev pub mean_below : (y offset : ℕ) → ℕ
  mean_below y offset = (captured (2 * y) offset + captured (2 * y + 1) offset) / 2

  -- The first `k` bytes of both chroma planes are written.
  pub record Chroma (luma : List ℕ) (k : ℕ) (map : List ℕ) : Type 0 where
    pub size : length map ≡ length luma
    pub kept : (p : ℕ) → p < 2 * a * (2 * b) → get_or map p 0 ≡ get_or luma p 0
    pub u :
        (y x : ℕ)
        → x < a
        → y * a + x < k
        → get_or map (2 * a * (2 * b) + (y * a + x)) 0 ≡ mean_below y (4 * x + 1)
    pub v :
        (y x : ℕ)
        → x < a
        → y * a + x < k
        → get_or map (2 * a * (2 * b) + a * b + (y * a + x)) 0 ≡ mean_below y (4 * x + 3)

  module _ (luma : List ℕ) (room : 6 * (a * b) ≤ length luma) (i j : ℕ) (hi : i < b)
      (hj : j < a) where
    inside : i * a + j < a * b
    inside = let e : a * b ≡ b * a = grind arith in omega (arith, row_gap a i b hi)

    first_mean :
        mean_of cap_map
          (1 + i * (a * 4 + 2 * a * 2) + j * 4)
          (1 + i * (a * 4 + 2 * a * 2) + j * 4 + 2 * a * 2)
        ≡ mean_below i (4 * j + 1)
    first_mean =
        let e : 1 + i * (a * 4 + 2 * a * 2) + j * 4 ≡ 2 * i * (4 * a) + (4 * j + 1) = grind arith in
        let e' : 2 * i * (4 * a) + (4 * j + 1) + 2 * a * 2 ≡ (2 * i + 1) * (4 * a) + (4 * j + 1) =
          grind arith in
        rw (e, e') refl

    second_mean :
        mean_of cap_map
          (1 + i * (a * 4 + 2 * a * 2) + j * 4 + 2)
          (1 + i * (a * 4 + 2 * a * 2) + j * 4 + 2 + 2 * a * 2)
        ≡ mean_below i (4 * j + 3)
    second_mean =
        let e : 1 + i * (a * 4 + 2 * a * 2) + j * 4 + 2 ≡ 2 * i * (4 * a) + (4 * j + 3) =
          grind arith in
        let e' : 2 * i * (4 * a) + (4 * j + 3) + 2 * a * 2 ≡ (2 * i + 1) * (4 * a) + (4 * j + 3) =
          grind arith in
        rw (e, e') refl

    chroma_step-Chroma :
        (map : List ℕ)
        → Chroma luma (i * a + j) map
        → Chroma luma (i * a + j + 1) (chroma_step cap_map (2 * a) (2 * b) i j map)
    unfolding chroma_step
    chroma_step-Chroma map h =
        let n = 2 * a * (2 * b) in
        let q = a * b in
        let k = i * a + j in
        let big : n + q + q ≤ length map = omega (arith, luma_size a b, h.size) in
        rw ((halves a b).0, (halves a b).2, first_mean, second_mean)
          (record {
            size = both-length map n q k _ _ big inside ∙ h.size;
            kept = λ p lt.
                both_kept map n q k _ _ big inside p (λ e. omega arith) (λ e. omega arith)
                ∙ h.kept p lt;
            u = λ y x hx lt. elim (ℕ_discrete (y * a + x) k) [
              | yes e ↦
                  let same = place_unique a i j y x hj hx e in
                  rw (same.0, same.1) (both_first map n q k _ _ big inside)
              | no ne ↦
                  both_kept map n q k _ _ big inside (n + (y * a + x)) (λ e. ne (omega arith))
                    (λ e. omega (arith, inside))
                  ∙ h.u y x hx (omega arith)
            ];
            v = λ y x hx lt. elim (ℕ_discrete (y * a + x) k) [
              | yes e ↦
                  let same = place_unique a i j y x hj hx e in
                  rw (same.0, same.1) (both_second map n q k _ _ big inside)
              | no ne ↦
                  both_kept map n q k _ _ big inside (n + q + (y * a + x))
                    (λ e. omega (arith, inside)) (λ e. ne (omega arith))
                  ∙ h.v y x hx (omega arith)
            ];
          })

  one_row-Chroma :
      (luma : List ℕ)
      → 6 * (a * b) ≤ length luma
      → (c : ℕ) → c ≡ a
      → (i : ℕ) (map : List ℕ) → i < b
      → Chroma luma (i * a) map
      → Chroma luma (suc i * a) (rounds (λ j m. chroma_step cap_map (2 * a) (2 * b) i j m) c map)
  one_row-Chroma luma room c e i map hi h =
      let first : i * a + 0 ≡ i * a = omega arith in
      let last : suc i * a ≡ i * a + a = grind arith in
      rw (last, e)
        (rounds_inv (λ j m. Chroma luma (i * a + j) m)
          (λ j m. chroma_step cap_map (2 * a) (2 * b) i j m) a map (rw first h)
          (λ j m hj h'.
            let next : i * a + suc j ≡ i * a + j + 1 = omega arith in
            rw next (chroma_step-Chroma luma room i j hi hj m h')))

  all_rows-Chroma :
      (luma : List ℕ)
      → 6 * (a * b) ≤ length luma
      → (c d : ℕ) → c ≡ a
      → d ≡ b
      → Chroma luma
          (b * a)
          (rounds (λ i m. rounds (λ j m. chroma_step cap_map (2 * a) (2 * b) i j m) c m) d luma)
  all_rows-Chroma luma room c d e e' = rw e' (
      rounds_inv (λ i m. Chroma luma (i * a) m)
        (λ i m. rounds (λ j m. chroma_step cap_map (2 * a) (2 * b) i j m) c m) b luma
        (record {
          size = refl;
          kept = λ p lt. refl;
          u = λ y x hx lt. absurd (omega arith);
          v = λ y x hx lt. absurd (omega arith);
        })
        (λ i m hi h. one_row-Chroma luma room c e i m hi h))

  luma_plane-Scattered :
      (map : List ℕ)
      → 6 * (a * b) ≤ length map
      → Scattered
          (λ k. k)
          (λ k. get_or cap_map (k * 2) 0)
          map
          (2 * a * (2 * b))
          (luma_plane cap_map (2 * a) (2 * b) map)
  unfolding luma_plane
  luma_plane-Scattered map room =
      scatter-Scattered (λ k. k) (λ k. get_or cap_map (k * 2) 0) (2 * a * (2 * b)) map
        (λ k m hk hm e. e) (λ k hk. omega (arith, luma_size a b))

  -- The three planes of a picture.
  pub record IsPlanar (old map : List ℕ) : Type 0 where
    pub size : length map ≡ length old
    pub luma : (p : ℕ) → p < 2 * a * (2 * b) → get_or map p 0 ≡ get_or cap_map (p * 2) 0
    pub u :
        (y x : ℕ)
        → x < a
        → y < b
        → get_or map (2 * a * (2 * b) + (y * a + x)) 0 ≡ mean_below y (4 * x + 1)
    pub v :
        (y x : ℕ)
        → x < a
        → y < b
        → get_or map (2 * a * (2 * b) + a * b + (y * a + x)) 0 ≡ mean_below y (4 * x + 3)

  -- Let the picture have 2 * a columns and 2 * b rows, and `map` room for it. Then pixel `p` has the
  -- captured byte 2 * p as its luma, and the U and V of a block of two by two pixels are the means of
  -- those of its two rows.
  pub conv_yuv422to420p-IsPlanar :
      (map : List ℕ)
      → 6 * (a * b) ≤ length map
      → IsPlanar map (conv_yuv422to420p cap_map (2 * a) (2 * b) map)
  unfolding conv_yuv422to420p
  conv_yuv422to420p-IsPlanar map room =
      let luma = luma_plane cap_map (2 * a) (2 * b) map in
      let first = luma_plane-Scattered map room in
      let all : Chroma luma (b * a) (conv_yuv422to420p cap_map (2 * a) (2 * b) map) =
        all_rows-Chroma luma (omega (arith, first.size)) (2 * a / 2) (2 * b / 2) (omega arith)
          (omega arith) in
      record {
        size = all.size ∙ first.size;
        luma = λ p lt. all.kept p lt ∙ first.written p lt;
        u = λ y x hx hy. all.u y x hx (omega (arith, row_gap a y b hy));
        v = λ y x hx hy. all.v y x hx (omega (arith, row_gap a y b hy));
      }
