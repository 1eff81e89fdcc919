-- ===== src/Picture/Tinted.antt =====
-- The loop of an overlay over the chroma planes.
use cy_prus.Prelude.{
  ℕ, suc, ◌+◌, ◌*◌, ◌≤◌, ◌<◌, ◌≡◌, ◌≢◌, refl, sym, ap, ◌∙◌, Bool, if◌then◌else◌, List, arith,
  length, get_or, set, length-set, get_or-set_self, get_or-set_ne, rounds, rounds_inv, ℕ_discrete,
  place_unique, row_gap,
}
use mathlib.Core.Path.{subst}
use cy_prus.Picture.{Tint, is_hit, tint}

-- Two writes to different places, or none.
module _ (t : Tint) (first a second b : ℕ) (hit : Bool) where
  tint-first :
      first + t.at < length t.image
      → first + t.at ≢ second + t.at
      → get_or (tint first a second b hit t).image (first + t.at) 0
        ≡ (if hit then a else get_or t.image (first + t.at) 0)
  unfolding tint
  tint-first room apart = ground (
    arith,
    get_or-set_ne (set t.image (first + t.at) a) (second + t.at) (first + t.at) b 0
        (λ e. apart (sym e)),
    get_or-set_self t.image (first + t.at) a 0 room,
  )

  tint-second :
      second + t.at < length t.image
      → get_or (tint first a second b hit t).image (second + t.at) 0
        ≡ (if hit then b else get_or t.image (second + t.at) 0)
  unfolding tint
  tint-second room = ground (
    arith,
    get_or-set_self (set t.image (first + t.at) a) (second + t.at) b 0
        (omega (arith, length-set t.image (first + t.at) a)),
  )

  tint-ne :
      (i : ℕ)
      → first + t.at ≢ i
      → second + t.at ≢ i
      → get_or (tint first a second b hit t).image i 0 ≡ get_or t.image i 0
  unfolding tint
  tint-ne i f s = ground (
    arith,
    get_or-set_ne (set t.image (first + t.at) a) (second + t.at) i b 0 s,
    get_or-set_ne t.image (first + t.at) i a 0 f,
  )

  length-tint : length (tint first a second b hit t).image ≡ length t.image
  unfolding tint
  length-tint = ground (
    arith,
    length-set (set t.image (first + t.at) a) (second + t.at) b,
    length-set t.image (first + t.at) a,
  )

  tint-at : (tint first a second b hit t).at ≡ t.at + 1
  unfolding tint
  tint-at = refl

-- Chroma planes of `a * b` bytes at `first` and `second`, behind the luma plane.
module _ (marked : ℕ → Bool) (first u second v a b : ℕ) (old : List ℕ) where
  abbrev pub block : ℕ → ℕ → Bool
  block y x = is_hit marked (2 * a) (2 * y * (2 * a)) (2 * x)

  -- The blocks before the `k`-th are done.
  pub record Tinted (k : ℕ) (t : Tint) : Type 0 where
    pub size : length t.image ≡ length old
    pub at_is : t.at ≡ k
    pub one :
        (y x : ℕ)
        → x < a
        → y * a + x < k
        → get_or t.image (first + (y * a + x)) 0
          ≡ (if block y x then u else get_or old (first + (y * a + x)) 0)
    pub two :
        (y x : ℕ)
        → x < a
        → y * a + x < k
        → get_or t.image (second + (y * a + x)) 0
          ≡ (if block y x then v else get_or old (second + (y * a + x)) 0)
    pub others :
        (i : ℕ)
        → ((j : ℕ) → j < k → (i ≢ first + j) × (i ≢ second + j))
        → get_or t.image i 0 ≡ get_or old i 0

  module _ (n : ℕ) (apart : (j k : ℕ) → j < n → k < n → first + j ≢ second + k)
      (room₁ : first + n ≤ length old) (room₂ : second + n ≤ length old) where
    Tinted-step :
        (y x : ℕ) (t : Tint)
        → x < a
        → y * a + x < n
        → Tinted (y * a + x) t
        → Tinted (y * a + suc x) (tint first u second v (block y x) t)
    Tinted-step y x t x_in k_in p =
        let k : ℕ = y * a + x in
        let hit : Bool = block y x in
        let here : t.at ≡ k = p.at_is in
        let far : first + t.at ≢ second + t.at = apart t.at t.at (omega arith) (omega arith) in
        let old_one : get_or t.image (first + t.at) 0 ≡ get_or old (first + k) 0 =
          ap (λ (j : ℕ). get_or t.image (first + j) 0) here
          ∙ p.others (first + k)
              (λ j lt. ((λ e. absurd (omega arith)), (λ e. apart k j k_in (omega arith) e))) in
        let old_two : get_or t.image (second + t.at) 0 ≡ get_or old (second + k) 0 =
          ap (λ (j : ℕ). get_or t.image (second + j) 0) here
          ∙ p.others (second + k) (λ j lt.
            ((λ e. apart j k (omega arith) k_in (sym e)), (λ e. absurd (omega arith)))) in
        let new_one =
          ap (λ (j : ℕ). get_or (tint first u second v hit t).image (first + j) 0) (sym here)
          ∙ tint-first t first u second v hit (omega (arith, p.size)) far
          ∙ ap (λ (z : ℕ). if hit then u else z) old_one in
        let new_two =
          ap (λ (j : ℕ). get_or (tint first u second v hit t).image (second + j) 0) (sym here)
          ∙ tint-second t first u second v hit (omega (arith, p.size))
          ∙ ap (λ (z : ℕ). if hit then v else z) old_two in
        record {
          size = length-tint t first u second v hit ∙ p.size;
          at_is = omega (arith, tint-at t first u second v hit, here);
          one = λ y' x' x_in' lt. elim (ℕ_discrete (y' * a + x') k) [
            | yes same ↦ let e = place_unique a y x y' x' x_in x_in' same in rw (e.0, e.1) new_one
            | no other ↦
                tint-ne t first u second v hit (first + (y' * a + x')) (λ e. other (omega arith))
                  (λ e. apart (y' * a + x') t.at (omega arith) (omega arith) (sym e))
                ∙ p.one y' x' x_in' (omega arith)
          ];
          two = λ y' x' x_in' lt. elim (ℕ_discrete (y' * a + x') k) [
            | yes same ↦ let e = place_unique a y x y' x' x_in x_in' same in rw (e.0, e.1) new_two
            | no other ↦
                tint-ne t first u second v hit (second + (y' * a + x'))
                  (λ e. apart t.at (y' * a + x') (omega arith) (omega arith) e)
                  (λ e. other (omega arith))
                ∙ p.two y' x' x_in' (omega arith)
          ];
          others = λ i h.
              tint-ne t first u second v hit i (λ e. (h k (omega arith)).0 (omega arith))
                (λ e. (h k (omega arith)).1 (omega arith))
              ∙ p.others i (λ j lt. h j (omega arith));
        }

    Tinted-row :
        (y : ℕ) (t : Tint)
        → y * a + a ≤ n
        → Tinted (y * a) t
        → Tinted (suc y * a) (rounds (λ x. tint first u second v (block y x)) a t)
    Tinted-row y t enough p =
        let start : y * a + 0 ≡ y * a = omega arith in
        let end : suc y * a ≡ y * a + a = grind arith in
        subst (λ (k : ℕ). Tinted k (rounds (λ x. tint first u second v (block y x)) a t)) (sym end)
          (rounds_inv (λ x t'. Tinted (y * a + x) t') (λ x. tint first u second v (block y x)) a t
            (subst (λ (k : ℕ). Tinted k t) (sym start) p)
            (λ x t' lt p'. Tinted-step y x t' lt (omega arith) p'))

    pub Tinted-all :
        b * a ≤ n
        → Tinted (b * a) (
            rounds
              (λ y. rounds (λ x. tint first u second v (block y x)) a)
              b
              (record { image = old; at = 0 }))
    Tinted-all enough =
        rounds_inv (λ y t. Tinted (y * a) t)
          (λ y. rounds (λ x. tint first u second v (block y x)) a) b
          (record { image = old; at = 0 })
          (record {
            size = refl;
            at_is = omega arith;
            one = λ y x x_in lt. absurd (omega arith);
            two = λ y x x_in lt. absurd (omega arith);
            others = λ i h. refl;
          })
          (λ y t lt p. Tinted-row y t (omega (arith, row_gap a y b lt)) p)
