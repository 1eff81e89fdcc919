-- ===== src/Web/Replaced.antt =====
-- replace finds the occurrences from left to right, and its memory is exactly large enough.
use mathlib.Core.Path.{subst}
use cy_prus.Prelude.{
  ℕ, zero, suc, ◌+◌, ◌<◌, ◌≤◌, ◌≡◌, ◌≢◌, refl, sym, ap, ◌∙◌, true, false, ◌==◌, Option, none, some,
  [], ◌∷◌, ◌++◌, arith, Bool-cases, inl, inr, length, take, drop, length-append, Bytes, ≡→==, ==→≡,
  starts_with, one_more, strstr,
}
use cy_prus.Web.Replace.{copy_more, copy_loop, replace}

starts_with_sound : (old s : Bytes) → starts_with old s ≡ true → s ≡ old ++ drop (length old) s
unfolding starts_with
starts_with_sound [] s h = refl
starts_with_sound (c ∷ old) [] h = absurd (ground arith)
starts_with_sound (c ∷ old) (d ∷ s) h = elim (Bool-cases (c == d)) [
  | inl e ↦
      ap (◌∷◌ d) (starts_with_sound old s (ground (arith, e)))
      ∙ ap (λ (x : ℕ). x ∷ (old ++ drop (length old) s)) (sym (==→≡ c d e))
  | inr ne ↦ absurd (ground (arith, ne))
]

starts_with-append : (old b : Bytes) → starts_with old (old ++ b) ≡ true
unfolding starts_with
starts_with-append [] b = refl
starts_with-append (c ∷ old) b = rw (≡→== c c refl) (starts_with-append old b)

-- Where the first occurrence is, if there is one.
abbrev pub IsFirst : Bytes → Bytes → Option ℕ → Type 0
IsFirst old s none = (f b : Bytes) → s ≢ f ++ (old ++ b)
IsFirst old s (some l) =
    (s ≡ take l s ++ (old ++ drop (l + length old) s))
    × (length (take l s) ≡ l)
    × ((f b : Bytes) → s ≡ f ++ (old ++ b) → l ≤ length f)

here-IsFirst : (old s : Bytes) → starts_with old s ≡ true → IsFirst old s (some 0)
here-IsFirst old s h = (
  starts_with_sound old s h ∙ ap (λ (n : ℕ). old ++ drop n s) (omega arith),
  refl,
  λ f b e. omega arith,
)

clash : false ≡ true → ⊥
clash e = cc

-- No occurrence starts where the test fails.
not_here : (old s b : Bytes) → starts_with old s ≡ false → s ≢ old ++ b
not_here old s b h e = absurd (clash (sym h ∙ ap (starts_with old) e ∙ starts_with-append old b))

later :
    (old : Bytes) (c : ℕ) (s f b : Bytes)
    → starts_with old (c ∷ s) ≡ false
    → c ∷ s ≡ f ++ (old ++ b)
    → (f' : Bytes) × (length f ≡ suc (length f')) × (s ≡ f' ++ (old ++ b))
later old c s [] b h e = absurd (not_here old (c ∷ s) b h e)
later old c s (d ∷ f) b h e = (f, refl, ap (drop 1) e)

next-IsFirst :
    (old : Bytes) (c : ℕ) (s : Bytes) (o : Option ℕ)
    → starts_with old (c ∷ s) ≡ false
    → IsFirst old s o
    → IsFirst old (c ∷ s) (one_more o)
next-IsFirst old c s none h first = λ f b e. let r = later old c s f b h e in first r.0 b r.2
next-IsFirst old c s (some l) h first =
    let e : suc (l + length old) ≡ suc l + length old = omega arith in
    (
      ap (◌∷◌ c) first.0 ∙ ap (λ (n : ℕ). c ∷ (take l s ++ (old ++ drop n (c ∷ s)))) e,
      ap suc first.1,
      λ f b e. let r = later old c s f b h e in omega (arith, r.1, first.2 r.0 b r.2),
    )

empty-IsFirst : (old : Bytes) → starts_with old [] ≡ false → IsFirst old [] none
unfolding starts_with
empty-IsFirst [] h [] b e = cc
empty-IsFirst [] h (d ∷ f) b e = absurd (omega (arith, ap length e))
empty-IsFirst (c ∷ old) h [] b e = absurd (omega (arith, ap length e))
empty-IsFirst (c ∷ old) h (d ∷ f) b e = absurd (omega (arith, ap length e))

pub strstr-IsFirst : (old s : Bytes) → IsFirst old s (strstr old s)
unfolding strstr
strstr-IsFirst old [] = elim (Bool-cases (starts_with old [])) [
  | inl e ↦ rw e (here-IsFirst old [] e)
  | inr ne ↦ rw ne (empty-IsFirst old ne)
]
strstr-IsFirst old (c ∷ s) = elim (Bool-cases (starts_with old (c ∷ s))) [
  | inl e ↦ rw e (here-IsFirst old (c ∷ s) e)
  | inr ne ↦ rw ne (next-IsFirst old c s (strstr old s) ne (strstr-IsFirst old s))
]

-- `out` is `s` with `new` for the occurrences of `old`, taken from left to right.
pub data Rewritten (old new : Bytes) : Bytes → Bytes → Type 0 where
  rest : {s : Bytes} → ((f b : Bytes) → s ≢ f ++ (old ++ b)) → Rewritten old new s s
  found :
      (front : Bytes) {back out : Bytes}
      → ((f b : Bytes) → front ++ (old ++ back) ≡ f ++ (old ++ b) → length front ≤ length f)
      → Rewritten old new back out
      → Rewritten old new (front ++ (old ++ back)) (front ++ (new ++ out))

module _ (old new : Bytes) (some_byte : 0 < length old) where
  copy_found :
      (fuel : ℕ) (s : Bytes) (o : Option ℕ)
      → IsFirst old s o
      → length s ≤ fuel
      → ((t : Bytes) → length t < length s → Rewritten old new t (copy_loop fuel old new t))
      → Rewritten old new s (copy_more (copy_loop fuel old new) old new s o)
  copy_found fuel s none h le again = rest h
  copy_found fuel s (some l) h le again =
      let back : Bytes = drop (l + length old) s in
      let front : Bytes = take l s in
      let sized : length s ≡ l + length old + length back =
        omega
          (arith, ap length h.0, h.1, length-append front (old ++ back), length-append old back) in
      subst (λ (xs : Bytes). Rewritten old new xs (front ++ (new ++ copy_loop fuel old new back)))
        (sym h.0)
        (found front (λ f b e. omega (arith, h.1, h.2 f b (h.0 ∙ e))) (again back (omega arith)))

  copy_loop-Rewritten :
      (fuel : ℕ) (s : Bytes) → length s < fuel → Rewritten old new s (copy_loop fuel old new s)
  unfolding copy_loop
  copy_loop-Rewritten zero s lt = absurd (omega arith)
  copy_loop-Rewritten (suc fuel) s lt =
      copy_found fuel s (strstr old s) (strstr-IsFirst old s) (omega arith)
        (λ t less. copy_loop-Rewritten fuel t (omega arith))

  -- The result is the string with the new text for every occurrence of the old one, from left to
  -- right, where the old text is not empty.
  pub replace-Rewritten : (str : Bytes) → Rewritten old new str (replace str old new)
  unfolding replace
  replace-Rewritten str = copy_loop-Rewritten (length str + 1) str (omega arith)
