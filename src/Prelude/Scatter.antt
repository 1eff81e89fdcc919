-- ===== src/Prelude/Scatter.antt =====
-- Loops that write each element of a part of a buffer once, in any order.
use Prim.Native.Nat.{ℕ, ◌<◌}
use mathlib.Core.Path.{◌≡◌, refl, sym, ◌∙◌}
use mathlib.Core.Logic.{◌≢◌}
use mathlib.Core.List.{List}
use native.Mathlib.Omega.{arith}
use native.Mathlib.Decide.{ℕ_discrete}
use cy_prus.Prelude.Lists.{length, get_or, set, length-set, get_or-set_self, get_or-set_ne}
use cy_prus.Prelude.Loops.{rounds, rounds_inv}

-- Round `k` of the loop writes `g k` to the place `p k`.
abbrev pub scatter : (p g : ℕ → ℕ) → ℕ → List ℕ → List ℕ
scatter p g n buf = rounds (λ k b. set b (p k) (g k)) n buf

-- The rounds before `n` have written, and nothing else has changed.
pub record Scattered (p g : ℕ → ℕ) (old : List ℕ) (n : ℕ) (now : List ℕ) : Type 0 where
  pub size : length now ≡ length old
  pub written : (k : ℕ) → k < n → get_or now (p k) 0 ≡ g k
  pub kept : (j : ℕ) → ((k : ℕ) → k < n → j ≢ p k) → get_or now j 0 ≡ get_or old j 0

abbrev pub Apart : ℕ → (ℕ → ℕ) → Type 0
Apart n p = (k m : ℕ) → k < n → m < n → p k ≡ p m → k ≡ m

pub scatter-Scattered :
    (p g : ℕ → ℕ) (n : ℕ) (old : List ℕ)
    → Apart n p
    → ((k : ℕ) → k < n → p k < length old)
    → Scattered p g old n (scatter p g n old)
scatter-Scattered p g n old apart room =
    rounds_inv (Scattered p g old) _ n old
      (record { size = refl; written = λ k h. absurd (omega arith); kept = λ j h. refl })
      (λ i b lt s. record {
        size = length-set b (p i) (g i) ∙ s.size;
        written = λ k h. elim (ℕ_discrete k i) [
          | yes e ↦ rw e (get_or-set_self b (p i) (g i) 0 (omega (arith, s.size, room i lt)))
          | no ne ↦
              get_or-set_ne b (p i) (p k) (g i) 0 (λ e. ne (sym (apart i k lt (omega arith) e)))
              ∙ s.written k (omega arith)
        ];
        kept = λ j h.
            get_or-set_ne b (p i) j (g i) 0 (λ e. h i (omega arith) (sym e))
            ∙ s.kept j (λ k lt'. h k (omega arith));
      })

-- The same for two loops, one in the other.
abbrev pub scatter2 : (p g : ℕ → ℕ → ℕ) → (n m : ℕ) → List ℕ → List ℕ
scatter2 p g n m buf = rounds (λ i b. scatter (p i) (g i) m b) n buf

pub record Scattered2 (p g : ℕ → ℕ → ℕ) (m : ℕ) (old : List ℕ) (n : ℕ) (now : List ℕ) : Type 0 where
  pub size : length now ≡ length old
  pub written : (i j : ℕ) → i < n → j < m → get_or now (p i j) 0 ≡ g i j
  pub kept : (q : ℕ) → ((i j : ℕ) → i < n → j < m → q ≢ p i j) → get_or now q 0 ≡ get_or old q 0

pub scatter2-Scattered2 :
    (p g : ℕ → ℕ → ℕ) (n m : ℕ) (old : List ℕ)
    → ((i j i' j' : ℕ) → i < n → j < m → i' < n → j' < m → p i j ≡ p i' j' → (i ≡ i') × (j ≡ j'))
    → ((i j : ℕ) → i < n → j < m → p i j < length old)
    → Scattered2 p g m old n (scatter2 p g n m old)
scatter2-Scattered2 p g n m old apart room =
    rounds_inv (Scattered2 p g m old) _ n old
      (record { size = refl; written = λ i j h. absurd (omega arith); kept = λ q h. refl })
      (λ i b lt s.
        let row =
          scatter-Scattered (p i) (g i) m b (λ k k' h h' e. (apart i k i k' lt h lt h' e).1)
            (λ k h. omega (arith, s.size, room i k lt h)) in
        record {
          size = row.size ∙ s.size;
          written = λ i' j h hj. elim (ℕ_discrete i' i) [
            | yes e ↦ rw e (row.written j hj)
            | no ne ↦
                row.kept (p i' j) (λ k hk e. ne (apart i' j i k (omega arith) hj lt hk e).0)
                ∙ s.written i' j (omega arith) hj
          ];
          kept = λ q h.
              row.kept q (λ k hk. h i k (omega arith) hk)
              ∙ s.kept q (λ i' j h' hj. h i' j (omega arith) hj);
        })
