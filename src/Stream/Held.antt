-- ===== src/Stream/Held.antt =====
-- Every buffer of the stream has as many users as its count says, and no freed buffer has a user.
use cy_prus.Prelude.{
  ℕ, zero, suc, ◌+◌, ◌<◌, ◌≡◌, ◌≢◌, ◌⊎◌, refl, sym, ◌∙◌, inl, inr, if◌then◌else◌, leb, ◌==◌, arith,
  Bool-cases, ℕ_discrete, ≡→==, ≢→==,
}
use cy_prus.Prelude.{
  Option, none, some, List, [], ◌∷◌, length, get_or, set, get_or-set_self, get_or-set_ne,
}
use mathlib.Core.Path.{subst}
use cy_prus.Stream.{Buffer, Heap, Client, release}

-- Whether a client uses the buffer at an address.
abbrev pub use_of : (a : ℕ) → Option ℕ → ℕ
use_of a none = 0
use_of a (some k) = if k == a then 1 else 0

unfoldable pub users : (a : ℕ) → List Client → ℕ
users a [] = 0
users a (c ∷ rest) = use_of a c.tmpbuffer + users a rest

-- The header of a new client is counted with 0, and has one user.
abbrev pub holders : Buffer → ℕ
holders b = if b.ref == 0 then 1 else b.ref

abbrev pub Holds : Option Buffer → (users : ℕ) → Type 0
Holds none n = n ≡ 0
Holds (some b) n = n ≡ holders b

pub used_in_heap :
    (heap : Heap) (a : ℕ) (b : Buffer) → get_or heap a none ≡ some b → a < length heap
used_in_heap [] a b e = absurd (ground arith)
used_in_heap (x ∷ heap) zero b e = omega arith
used_in_heap (x ∷ heap) (suc a) b e = omega (arith, used_in_heap heap a b e)

pub Holds-eq : (x : Option Buffer) {n m : ℕ} → n ≡ m → Holds x n → Holds x m
Holds-eq none e h = omega arith
Holds-eq (some b) e h = sym e ∙ h

pub option_cases {ℓ} : {A : Type ℓ} (x : Option A) → (x ≡ none) ⊎ ((a : A) × (x ≡ some a))
option_cases none = inl refl
option_cases (some a) = inr (a, refl)

pub Holds-none : {x : Option Buffer} {n : ℕ} → x ≡ none → Holds x n → n ≡ 0
Holds-none {x} {n} e h = subst (λ (y : Option Buffer). Holds y n) (e) h

pub Holds-at : {x : Option Buffer} {n : ℕ} (b : Buffer) → x ≡ some b → Holds x n → n ≡ holders b
Holds-at {x} {n} b e h = subst (λ (y : Option Buffer). Holds y n) (e) h

pub use_of_self : (a : ℕ) → use_of a (some a) ≡ 1
use_of_self a = rw (≡→== a a refl) refl

pub use_of_ne : (a i : ℕ) → a ≢ i → use_of i (some a) ≡ 0
use_of_ne a i ne = rw (≢→== a i ne) refl

-- A heap that changed at one place.
pub set-Holds :
    (heap : Heap) (a : ℕ) (x : Option Buffer) (m : ℕ → ℕ)
    → a < length heap
    → Holds x (m a)
    → ((i : ℕ) → a ≢ i → Holds (get_or heap i none) (m i))
    → (i : ℕ) → Holds (get_or (set heap a x) i none) (m i)
set-Holds heap a x m lt at h i = elim (ℕ_discrete a i) [
  | yes e ↦ rw (← e) (rw (get_or-set_self heap a x none lt) at)
  | no ne ↦ rw (get_or-set_ne heap a i x none ne) (h i ne)
]

module _ (heap : Heap) (k : ℕ → ℕ) (a : ℕ) (b : Buffer) (at : get_or heap a none ≡ some b) where
  -- A user less.
  pub release-Holds :
      ((i : ℕ) → Holds (get_or heap i none) (k i + use_of i (some a)))
      → (i : ℕ) → Holds (get_or (release a b heap) i none) (k i)
  release-Holds h =
      let lt = used_in_heap heap a b at in
      let own : k a + use_of a (some a) ≡ holders b = Holds-at b at (h a) in
      let one = use_of_self a in
      let others : (i : ℕ) → a ≢ i → Holds (get_or heap i none) (k i) =
        λ i ne. Holds-eq _ (omega (arith, use_of_ne a i ne)) (h i) in
      elim (Bool-cases (leb b.ref 1)) [
        | inl last ↦ rw last (set-Holds heap a none k lt (ground (arith, own, one)) others)
        | inr more ↦ rw more (set-Holds heap a _ k lt (ground (arith, own, one)) others)
      ]

-- Every buffer has the size that its address says, as long as it is not freed.
abbrev pub HasSize : Option Buffer → ℕ → Type 0
HasSize none n = Unit
HasSize (some b) n = b.size ≡ n

abbrev pub Sized : (size_of : ℕ → ℕ) → Heap → Type 0
Sized size_of heap = (a : ℕ) → HasSize (get_or heap a none) (size_of a)

pub set-Sized :
    (size_of : ℕ → ℕ) (heap : Heap) (a : ℕ) (x : Option Buffer)
    → a < length heap
    → HasSize x (size_of a)
    → Sized size_of heap
    → Sized size_of (set heap a x)
set-Sized size_of heap a x lt own h i = elim (ℕ_discrete a i) [
  | yes e ↦ rw (← e) (rw (get_or-set_self heap a x none lt) own)
  | no ne ↦ rw (get_or-set_ne heap a i x none ne) (h i)
]

pub Sized-at : {x : Option Buffer} {n : ℕ} (b : Buffer) → x ≡ some b → HasSize x n → b.size ≡ n
Sized-at {x} {n} b e h = subst (λ (y : Option Buffer). HasSize y n) (e) h

pub release-Sized :
    (size_of : ℕ → ℕ) (heap : Heap) (a : ℕ) (b : Buffer)
    → get_or heap a none ≡ some b
    → Sized size_of heap
    → Sized size_of (release a b heap)
release-Sized size_of heap a b at h =
    let lt = used_in_heap heap a b at in
    elim (Bool-cases (leb b.ref 1)) [
      | inl last ↦ rw last (set-Sized size_of heap a none lt tt h)
      | inr more ↦ rw more (set-Sized size_of heap a _ lt (Sized-at b at (h a)) h)
    ]
