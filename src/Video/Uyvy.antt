-- ===== src/Video/Uyvy.antt =====
-- conv_uyvyto420p: the planes of a captured U Y V Y picture.
use cy_prus.Prelude.{
  ℕ, zero, suc, ◌+◌, ◌*◌, ◌/◌, ◌%◌, ◌≤◌, ◌<◌, ◌≡◌, refl, ◌∙◌, true, false, ◌==◌, if◌then◌else◌,
  arith, ℕ_discrete,
}
use cy_prus.Prelude.{List, length, get_or, set, length-set, get_or-set, rounds, rounds_inv}
use cy_prus.Video.{mean_of, uyvy_step, conv_uyvyto420p}
use cy_prus.Prelude.{place_unique, row_gap, luma_size}
use cy_prus.Video.Planes.{mean_below}

-- Four writes in a row.
module _ (m : List ℕ) (u l v k U L V K : ℕ) (hu : u < length m) (hl : l < length m)
    (hv : v < length m) (hk : k < length m) where
  abbrev four : List ℕ
  four = set (set (set (set m u U) l L) v V) k K

  four_at :
      (p : ℕ)
      → get_or four p 0 ≡ (
          if k == p
          then K
          else if v == p
          then V
          else if l == p
          then L
          else if u == p
          then U
          else get_or m p 0)
  four_at p =
      let a = set m u U in
      let b = set a l L in
      let c = set b v V in
      let la = length-set m u U in
      let lb = length-set a l L in
      let lc = length-set b v V in
      rw
        (
          get_or-set c k p K 0 (omega (arith, la, lb, lc)),
          get_or-set b v p V 0 (omega (arith, la, lb)),
          get_or-set a l p L 0 (omega (arith, la)),
          get_or-set m u p U 0 hu,
        )
        refl

module _ (cap_map : List ℕ) (a b : ℕ) where
  -- The luma before index `l` and the chroma before index `k` of its planes are written.
  record Converted (size l k : ℕ) (map : List ℕ) : Type 0 where
    room : length map ≡ size
    luma : (p : ℕ) → p < l → get_or map p 0 ≡ get_or cap_map (p * 2 + 1) 0
    u :
        (y x : ℕ)
        → x < a
        → y * a + x < k
        → get_or map (2 * a * (2 * b) + (y * a + x)) 0 ≡ mean_below cap_map a b y (4 * x)
    v :
        (y x : ℕ)
        → x < a
        → y * a + x < k
        → get_or map (2 * a * (2 * b) + a * b + (y * a + x)) 0
          ≡ mean_below cap_map a b y (4 * x + 2)

  module _ (size : ℕ) (enough : 6 * (a * b) ≤ size) (y j : ℕ) (hy : y < b) (hj : j < a) where
    place_in : y * a + j < a * b
    place_in = let e : a * b ≡ b * a = grind arith in omega (arith, row_gap a y b hy)

    luma_in : 2 * y * (a * 2) + j * 2 + 1 < 4 * (a * b)
    luma_in = let e : 2 * y * (a * 2) ≡ 4 * (y * a) = grind arith in omega (arith, place_in)

    even_mean :
        (o p o' : ℕ)
        → p ≡ 2 * y * (a * 4) + j * 4 + o
        → o' ≡ 4 * j + o
        → mean_of cap_map p (p + 2 * a * 2) ≡ mean_below cap_map a b y o'
    even_mean o p o' ep eo =
        let e : p ≡ 2 * y * (4 * a) + o' = grind arith in
        let e' : p + 2 * a * 2 ≡ (2 * y + 1) * (4 * a) + o' = grind arith in rw (e', e) refl

    luma_index : 2 * y * (a * 4) + j * 4 ≡ (2 * y * (a * 2) + j * 2) * 2
    luma_index = grind arith

    even_row : (2 * y % 2 == 0) ≡ true
    even_row = ground arith

    odd_row : ((2 * y + 1) % 2 == 0) ≡ false
    odd_row = ground arith

    even_step :
        (map : List ℕ)
        → Converted size (2 * y * (a * 2) + j * 2) (y * a + j) map
        → Converted size
            (2 * y * (a * 2) + j * 2 + 2)
            (y * a + j + 1)
            (uyvy_step cap_map (2 * a) (2 * b) a (2 * y) j map)
    unfolding uyvy_step
    even_step map h =
        let n = 2 * a * (2 * b) in
        let q = a * b in
        let k = y * a + j in
        let l = 2 * y * (a * 2) + j * 2 in
        let half : 2 * y / 2 ≡ y = omega arith in
        let quarter : n / 4 ≡ q = rw (luma_size a b) (omega arith) in
        let at =
          four_at map (n + k) l (n + k + q) (l + 1) (mean_below cap_map a b y (4 * j))
            (get_or cap_map (2 * y * (a * 4) + j * 4 + 1) 0) (mean_below cap_map a b y (4 * j + 2))
            (get_or cap_map (2 * y * (a * 4) + j * 4 + 3) 0)
            (omega (arith, luma_size a b, h.room, place_in))
            (omega (arith, luma_size a b, h.room, luma_in))
            (omega (arith, luma_size a b, h.room, place_in))
            (omega (arith, luma_size a b, h.room, luma_in)) in
        let mean_u = even_mean 0 (2 * y * (a * 4) + j * 4) (4 * j) (omega arith) (omega arith) in
        let mean_v = even_mean 2 (2 * y * (a * 4) + j * 4 + 2) (4 * j + 2) refl refl in
        let below : l + 1 < n = omega (arith, luma_size a b, luma_in) in
        let kq : k < q = place_in in
        rw (even_row, half, quarter, mean_u, mean_v)
          (record {
            room =
                length-set _ (l + 1) _
                ∙ length-set _ (n + k + q) _
                ∙ length-set _ l _
                ∙ length-set map (n + k) _
                ∙ h.room;
            luma = λ p lt. elim (ℕ_discrete p (l + 1)) [
              | yes e ↦
                  let i' : p * 2 + 1 ≡ 2 * y * (a * 4) + j * 4 + 3 = omega (arith, luma_index) in
                  at p ∙ (ground arith)
              | no n1 ↦ elim (ℕ_discrete p l) [
                | yes e ↦
                    let i' : p * 2 + 1 ≡ 2 * y * (a * 4) + j * 4 + 1 = omega (arith, luma_index) in
                    at p ∙ (ground arith)
                | no n2 ↦ let old = h.luma p (omega arith) in at p ∙ (ground arith)
              ]
            ];
            u = λ y' x hx lt. elim (ℕ_discrete (y' * a + x) k) [
              | yes e ↦
                  let same = place_unique a y j y' x hj hx e in
                  rw (same.0, same.1) (at (n + k) ∙ (ground arith))
              | no ne ↦
                  let old = h.u y' x hx (omega arith) in at (n + (y' * a + x)) ∙ (ground arith)
            ];
            v = λ y' x hx lt. elim (ℕ_discrete (y' * a + x) k) [
              | yes e ↦
                  let same = place_unique a y j y' x hj hx e in
                  rw (same.0, same.1) (at (n + q + k) ∙ (ground arith))
              | no ne ↦
                  let old = h.v y' x hx (omega arith) in at (n + q + (y' * a + x)) ∙ (ground arith)
            ];
          })

    odd_step :
        (k : ℕ) (map : List ℕ)
        → Converted size ((2 * y + 1) * (a * 2) + j * 2) k map
        → Converted size
            ((2 * y + 1) * (a * 2) + j * 2 + 2)
            k
            (uyvy_step cap_map (2 * a) (2 * b) a (2 * y + 1) j map)
    unfolding uyvy_step
    odd_step k map h =
        let n = 2 * a * (2 * b) in
        let l = (2 * y + 1) * (a * 2) + j * 2 in
        let cap = (2 * y + 1) * (a * 4) + j * 4 in
        let index : cap ≡ l * 2 = grind arith in
        let wide : (2 * y + 1) * (a * 2) ≡ 2 * (y * a) + 2 * (y * a) + 2 * a = grind arith in
        let swap : a * b ≡ b * a = grind arith in
        let below : l + 1 < n = omega (arith, luma_size a b, row_gap a y b hy) in
        let first = set map l (get_or cap_map (cap + 1) 0) in
        let len = length-set map l (get_or cap_map (cap + 1) 0) in
        let at : (p : ℕ)
            → get_or (set first (l + 1) (get_or cap_map (cap + 3) 0)) p 0 ≡ (
                if l + 1 == p
                then get_or cap_map (cap + 3) 0
                else if l == p
                then get_or cap_map (cap + 1) 0
                else get_or map p 0) =
          λ p.
            rw
              (
                get_or-set first (l + 1) p (get_or cap_map (cap + 3) 0) 0
                    (omega (arith, luma_size a b, h.room, len)),
                get_or-set map l p (get_or cap_map (cap + 1) 0) 0
                    (omega (arith, luma_size a b, h.room)),
              )
              refl in
        rw odd_row (record {
          room = length-set first (l + 1) _ ∙ len ∙ h.room;
          luma = λ p lt. elim (ℕ_discrete p (l + 1)) [
            | yes e ↦ let i' : p * 2 + 1 ≡ cap + 3 = omega arith in at p ∙ (ground arith)
            | no n1 ↦ elim (ℕ_discrete p l) [
              | yes e ↦ let i' : p * 2 + 1 ≡ cap + 1 = omega arith in at p ∙ (ground arith)
              | no n2 ↦ let old = h.luma p (omega arith) in at p ∙ (ground arith)
            ]
          ];
          u = λ y' x hx lt. let old = h.u y' x hx lt in at (n + (y' * a + x)) ∙ (ground arith);
          v = λ y' x hx lt.
              let old = h.v y' x hx lt in at (n + a * b + (y' * a + x)) ∙ (ground arith);
        })

  -- Two rows.
  even_line :
      (size : ℕ)
      → 6 * (a * b) ≤ size
      → (y : ℕ) (map : List ℕ) → y < b
      → Converted size (2 * y * (a * 2)) (y * a) map
      → Converted size
          ((2 * y + 1) * (a * 2))
          (suc y * a)
          (rounds (λ j m. uyvy_step cap_map (2 * a) (2 * b) a (2 * y) j m) a map)
  even_line size enough y map hy h =
      let l0 : 2 * y * (a * 2) + 0 * 2 ≡ 2 * y * (a * 2) = omega arith in
      let k0 : y * a + 0 ≡ y * a = omega arith in
      let l1 : (2 * y + 1) * (a * 2) ≡ 2 * y * (a * 2) + a * 2 = grind arith in
      let k1 : suc y * a ≡ y * a + a = grind arith in
      rw (l1, k1)
        (rounds_inv (λ j m. Converted size (2 * y * (a * 2) + j * 2) (y * a + j) m) _ a map
          (rw (l0, k0) h)
          (λ j m hj h'.
            let l2 : 2 * y * (a * 2) + suc j * 2 ≡ 2 * y * (a * 2) + j * 2 + 2 = omega arith in
            let k2 : y * a + suc j ≡ y * a + j + 1 = omega arith in
            rw (l2, k2) (even_step size enough y j hy hj m h')))

  odd_line :
      (size : ℕ)
      → 6 * (a * b) ≤ size
      → (y k : ℕ) (map : List ℕ) → y < b
      → Converted size ((2 * y + 1) * (a * 2)) k map
      → Converted size
          (2 * suc y * (a * 2))
          k
          (rounds (λ j m. uyvy_step cap_map (2 * a) (2 * b) a (2 * y + 1) j m) a map)
  odd_line size enough y k map hy h =
      let l0 : (2 * y + 1) * (a * 2) + 0 * 2 ≡ (2 * y + 1) * (a * 2) = omega arith in
      let l1 : 2 * suc y * (a * 2) ≡ (2 * y + 1) * (a * 2) + a * 2 = grind arith in
      rw l1 (
        rounds_inv (λ j m. Converted size ((2 * y + 1) * (a * 2) + j * 2) k m) _ a map (rw l0 h)
          (λ j m hj h'.
            let l2 : (2 * y + 1) * (a * 2) + suc j * 2 ≡ (2 * y + 1) * (a * 2) + j * 2 + 2 =
              omega arith in
            rw l2 (odd_step size enough y j hy hj k m h')))

  abbrev one_line : (n ix : ℕ) → List ℕ → List ℕ
  one_line n ix m = rounds (λ j m. uyvy_step cap_map (2 * a) (2 * b) n ix j m) n m

  all_lines :
      (map : List ℕ)
      → 6 * (a * b) ≤ length map
      → (n c : ℕ) → c ≡ 2 * n
      → n ≤ b
      → Converted (length map) (2 * n * (a * 2)) (n * a) (rounds (one_line a) c map)
  unfolding rounds
  all_lines map enough zero c e le =
      let none_yet : c ≡ 0 = omega arith in
      rw none_yet (record {
        room = refl;
        luma = λ p lt. absurd (omega arith);
        u = λ y x hx lt. absurd (omega arith);
        v = λ y x hx lt. absurd (omega arith);
      })
  all_lines map enough (suc n) c e le =
      let two_more : c ≡ suc (suc (2 * n)) = omega arith in
      let odd : suc (2 * n) ≡ 2 * n + 1 = omega arith in
      let before = all_lines map enough n (2 * n) refl (omega arith) in
      let even_done =
        even_line (length map) enough n (rounds (one_line a) (2 * n) map) (omega arith) before in
      let last =
        odd_line (length map) enough n (suc n * a)
          (one_line a (2 * n) (rounds (one_line a) (2 * n) map)) (omega arith) even_done in
      rw two_more (rw odd last)

  any_count :
      (map : List ℕ) (n : ℕ)
      → 6 * (a * b) ≤ length map
      → n ≡ a
      → Converted (length map) (2 * b * (a * 2)) (b * a) (rounds (one_line n) (2 * b) map)
  any_count map n enough e = rw e (all_lines map enough b (2 * b) refl (omega arith))

  -- The three planes of a picture.
  pub record IsUnpacked (old map : List ℕ) : Type 0 where
    pub size : length map ≡ length old
    pub luma : (p : ℕ) → p < 2 * a * (2 * b) → get_or map p 0 ≡ get_or cap_map (p * 2 + 1) 0
    pub u :
        (y x : ℕ)
        → x < a
        → y < b
        → get_or map (2 * a * (2 * b) + (y * a + x)) 0 ≡ mean_below cap_map a b y (4 * x)
    pub v :
        (y x : ℕ)
        → x < a
        → y < b
        → get_or map (2 * a * (2 * b) + a * b + (y * a + x)) 0
          ≡ mean_below cap_map a b y (4 * x + 2)

  -- Let the picture have 2 * a columns and 2 * b rows, and `map` room for it. Then pixel `p` has the
  -- captured byte 2 * p + 1 as its luma, and the U and V of a block of two by two pixels are the means
  -- of those of its two rows, which stand before the luma bytes of a pair.
  pub conv_uyvyto420p-IsUnpacked :
      (map : List ℕ)
      → 6 * (a * b) ≤ length map
      → IsUnpacked map (conv_uyvyto420p cap_map (2 * a) (2 * b) map)
  unfolding conv_uyvyto420p
  conv_uyvyto420p-IsUnpacked map room =
      let pairs : (2 * a + 1) / 2 ≡ a = omega arith in
      let all = any_count map ((2 * a + 1) / 2) room pairs in
      let whole : 2 * b * (a * 2) ≡ 2 * a * (2 * b) = grind arith in
      record {
        size = all.room;
        luma = λ p lt. all.luma p (omega arith);
        u = λ y x hx hy. all.u y x hx (omega (arith, row_gap a y b hy));
        v = λ y x hx hy. all.v y x hx (omega (arith, row_gap a y b hy));
      }
