-- ===== src/Prelude/Passes.antt =====
-- A pass over a buffer: a loop that writes or leaves each element in turn.
use Prim.Native.Nat.{ℕ, suc, ◌≤◌, ◌<◌}
use mathlib.Core.Path.{◌≡◌, refl, ◌∙◌}
use mathlib.Core.Bool.{Bool, true, false}
use mathlib.Core.List.{List}
use native.Mathlib.Omega.{arith}
use native.Mathlib.Decide.{ℕ_discrete}
use cy_prus.Prelude.Tests.{if◌then◌else◌}
use cy_prus.Prelude.Lists.{length, get_or, set, length-set, get_or-set_self, get_or-set_ne}

-- The elements before `n` are those of `f`, the others still those of `old`.
pub record Passed (f : ℕ → ℕ) (old : List ℕ) (n : ℕ) (now : List ℕ) : Type 0 where
  pub size : length now ≡ length old
  pub done : (i : ℕ) → i < n → get_or now i 0 ≡ f i
  pub ahead : (i : ℕ) → n ≤ i → get_or now i 0 ≡ get_or old i 0

module _ {f : ℕ → ℕ} {old now : List ℕ} {n : ℕ} where
  pub Passed-set :
      (v : ℕ) → Passed f old n now → n < length old → v ≡ f n → Passed f old (suc n) (set now n v)
  Passed-set v p h e = record {
    size = length-set now n v ∙ p.size;
    done = λ i lt. elim (ℕ_discrete n i) [
      | yes same ↦ rw (← same) (get_or-set_self now n v 0 (omega (arith, p.size)) ∙ e)
      | no other ↦ get_or-set_ne now n i v 0 other ∙ p.done i (omega arith)
    ];
    ahead = λ i le. get_or-set_ne now n i v 0 (omega arith) ∙ p.ahead i (omega arith);
  }

  pub Passed-keep : Passed f old n now → get_or old n 0 ≡ f n → Passed f old (suc n) now
  Passed-keep p e = record {
    size = p.size;
    done = λ i lt. elim (ℕ_discrete n i) [
      | yes same ↦ rw (← same) (p.ahead n (omega arith) ∙ e)
      | no other ↦ p.done i (omega arith)
    ];
    ahead = λ i le. p.ahead i (omega arith);
  }

pub Passed-set_if :
    {f : ℕ → ℕ} {old now : List ℕ} {n : ℕ} (b : Bool) (v : ℕ)
    → Passed f old n now
    → n < length old
    → (if b then v else get_or old n 0) ≡ f n
    → Passed f old (suc n) (if b then set now n v else now)
Passed-set_if true v p h e = Passed-set v p h e
Passed-set_if false v p h e = Passed-keep p e

pub Passed-start : (f : ℕ → ℕ) (old : List ℕ) → Passed f old 0 old
Passed-start f old = record { size = refl; done = λ i h. absurd (omega arith); ahead = λ i h. refl }
