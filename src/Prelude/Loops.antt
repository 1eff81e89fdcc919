-- ===== src/Prelude/Loops.antt =====
-- Counted loops, and the sums that they compute.
use Prim.Native.Nat.{ℕ, zero, suc, ◌+◌, ◌-◌, ◌*◌, ◌≤◌, ◌<◌}
use mathlib.Core.Path.{◌≡◌, refl, sym, ◌∙◌, ap}
use mathlib.Core.Bool.{Bool, true, false}
use mathlib.Core.Logic.{◌≢◌}
use native.Mathlib.Decide.{ℕ_discrete}
use native.Mathlib.Omega.{arith}
use cy_prus.Prelude.Tests.{if◌then◌else◌}

-- The state after the rounds 0 .. n - 1 of a counted loop.
unfoldable pub rounds {ℓ} : {S : Type ℓ} → (ℕ → S → S) → ℕ → S → S
rounds body zero s = s
rounds body (suc n) s = body n (rounds body n s)

-- What holds at the start and is carried over every round holds at the end.
pub rounds_inv {ℓ κ} :
    {S : Type ℓ} (P : ℕ → S → Type κ) (body : ℕ → S → S) (n : ℕ) (s : S)
    → P 0 s
    → ((i : ℕ) (t : S) → i < n → P i t → P (suc i) (body i t))
    → P n (rounds body n s)
unfolding rounds
rounds_inv P body zero s h keep = h
rounds_inv P body (suc n) s h keep =
    keep n _ (omega arith) (rounds_inv P body n s h (λ i t p. keep i t (omega arith)))

-- f 0 + … + f (n - 1)
unfoldable pub sum_below : (ℕ → ℕ) → ℕ → ℕ
sum_below f zero = 0
sum_below f (suc n) = sum_below f n + f n

-- How many i < n pass the test.
abbrev pub count_below : (ℕ → Bool) → ℕ → ℕ
count_below p = sum_below (λ i. if p i then 1 else 0)

pub sum_below-suc : (f : ℕ → ℕ) (n : ℕ) → sum_below f (suc n) ≡ sum_below f n + f n
unfolding sum_below
sum_below-suc f n = refl

pub sum_below-zero : (f : ℕ → ℕ) → sum_below f 0 ≡ 0
unfolding sum_below
sum_below-zero f = refl

pub count_below-le : (p : ℕ → Bool) (n : ℕ) → count_below p n ≤ n
unfolding sum_below
count_below-le p zero = omega arith
count_below-le p (suc n) = ground (arith, count_below-le p n)

pub sum_below-head : (f : ℕ → ℕ) (n : ℕ) → sum_below f (suc n) ≡ f 0 + sum_below (λ i. f (suc i)) n
unfolding sum_below
sum_below-head f zero = omega arith
sum_below-head f (suc n) = omega (arith, sum_below-head f n)

-- Functions that agree below `n` have one sum.
pub sum_below_ext :
    (f g : ℕ → ℕ) (n : ℕ) → ((i : ℕ) → i < n → f i ≡ g i) → sum_below f n ≡ sum_below g n
unfolding sum_below
sum_below_ext f g zero h = refl
sum_below_ext f g (suc n) h =
    omega (arith, h n (omega arith), sum_below_ext f g n (λ i p. h i (omega arith)))

pub sum_below_const : (f : ℕ → ℕ) (k n : ℕ) → ((i : ℕ) → i < n → f i ≡ k) → sum_below f n ≡ n * k
unfolding sum_below
sum_below_const f k zero h = omega arith
sum_below_const f k (suc n) h =
    omega (arith, h n (omega arith), sum_below_const f k n (λ i p. h i (omega arith)))

-- The terms f 1, …, f n from the last to the first.
pub sum_below-reverse :
    (f : ℕ → ℕ) (n : ℕ) → sum_below (λ k. f (n - k)) n ≡ sum_below (λ k. f (k + 1)) n
sum_below-reverse f zero = sum_below-zero (λ k. f (0 - k)) ∙ sym (sum_below-zero (λ k. f (k + 1)))
sum_below-reverse f (suc n) =
    let first : f (suc n - 0) ≡ f (n + 1) = ap f (let e : suc n - 0 ≡ n + 1 = omega arith in e) in
    let others : sum_below (λ k. f (suc n - suc k)) n ≡ sum_below (λ k. f (n - k)) n =
      sum_below_ext (λ k. f (suc n - suc k)) (λ k. f (n - k)) n
        (λ i h. let e : suc n - suc i ≡ n - i = omega arith in ap f e) in
    omega (
      arith,
      sum_below-head (λ k. f (suc n - k)) n,
      first,
      others,
      sum_below-reverse f n,
      sum_below-suc (λ k. f (k + 1)) n,
    )

-- A test that fails at one more place counts one less.
pub count_below_one :
    (p q : ℕ → Bool) (n k : ℕ)
    → k < n
    → p k ≡ true
    → q k ≡ false
    → ((i : ℕ) → i ≢ k → q i ≡ p i)
    → count_below q n + 1 ≡ count_below p n
unfolding sum_below
count_below_one p q zero k h pk qk others = absurd (omega arith)
count_below_one p q (suc n) k h pk qk others = elim (ℕ_discrete n k) [
  | yes e ↦
      rw (e, pk, qk)
        (omega (
          arith,
          sum_below_ext (λ i. if q i then 1 else 0) (λ i. if p i then 1 else 0) k
              (λ i lt. ap (λ b. if b then 1 else 0) (others i (omega arith))),
        ))
  | no ne ↦ rw (others n ne) (omega (arith, count_below_one p q n k (omega arith) pk qk others))
]

pub sum_below_le :
    (f g : ℕ → ℕ) (n : ℕ) → ((i : ℕ) → i < n → f i ≤ g i) → sum_below f n ≤ sum_below g n
unfolding sum_below
sum_below_le f g zero h = omega arith
sum_below_le f g (suc n) h =
    omega (arith, h n (omega arith), sum_below_le f g n (λ i p. h i (omega arith)))

pub sum_below-add :
    (f g : ℕ → ℕ) (n : ℕ) → sum_below f n + sum_below g n ≡ sum_below (λ i. f i + g i) n
unfolding sum_below
sum_below-add f g zero = omega arith
sum_below-add f g (suc n) = omega (arith, sum_below-add f g n)

-- A test that is passed once is counted.
pub count_below-pos : (p : ℕ → Bool) (n k : ℕ) → k < n → p k ≡ true → 0 < count_below p n
unfolding sum_below
count_below-pos p zero k h e = absurd (omega arith)
count_below-pos p (suc n) k h e = elim (ℕ_discrete n k) [
  | yes same ↦ rw (same, e) (omega arith)
  | no other ↦ omega (arith, count_below-pos p n k (omega arith) e)
]
