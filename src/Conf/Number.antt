-- ===== src/Conf/Number.antt =====
-- The numbers of the configuration as text: sprintf's `%d` and atoi, for numbers of a C `int`.
use cy_prus.Prelude.{
  ℕ, zero, suc, ◌+◌, ◌-◌, ◌*◌, ◌/◌, ◌%◌, ◌^◌, ◌<◌, ◌≡◌, refl, ap, ◌∙◌, Bool, true, ◌==◌, ltb, leb,
  ◌&&◌, ◌||◌, inl, inr, if◌then◌else◌, [], ◌∷◌, ◌++◌, arith, Bool-cases, Bytes, All, All-append,
  lt→ltb, length, length-append, ◌≤◌, sym,
}
use cy_prus.Prelude.Int.{ℤ, pos, negsuc, sub_ℕ, pos_part, neg_part}
use mathlib.Core.List.{append-nil}
use mathlib.Core.List.{append_assoc}

abbrev pub is_digit : ℕ → Bool
is_digit c = leb b'0' c && leb c b'9'

-- The decimal digits of a number below 10 ^ fuel.
unfoldable pub digits : ℕ → ℕ → Bytes
digits zero n = []
digits (suc fuel) n =
    let front = digits fuel (n / 10) in
    if ltb n 10 then (b'0' + n) ∷ [] else (front ++ ((b'0' + n % 10) ∷ []))

-- An `int` has at most ten digits.
unfoldable pub print_number : ℤ → Bytes
unfolding digits
print_number (pos n) = digits 10 n
print_number (negsuc n) = b'-' ∷ digits 10 (n + 1)

unfoldable pub read_digits : ℕ → Bytes → ℕ
read_digits n [] = n
read_digits n (c ∷ cs) = if is_digit c then read_digits (n * 10 + (c - b'0')) cs else n

-- The sign, and what atoi does without one.
unfoldable pub read_signed : Bytes → ℤ
unfolding read_digits
read_signed [] = pos 0
read_signed (c ∷ cs) =
    if c == b'-'
    then sub_ℕ 0 (read_digits 0 cs)
    else pos (if c == b'+' then read_digits 0 cs else read_digits 0 (c ∷ cs))

-- isspace: blank, tab, line feed, vertical tab, form feed and carriage return.
unfoldable pub atoi : Bytes → ℤ
unfolding read_signed
atoi [] = pos 0
atoi (c ∷ cs) = if c == b' ' || (leb 9 c && leb c 13) then atoi cs else read_signed (c ∷ cs)

place : (n k : ℕ) → k * 10 + (b'0' + n - b'0') ≡ k * 10 + n
place n k = omega arith

regroup : (k w n : ℕ) → (k * w + n / 10) * 10 + n % 10 ≡ k * (w * 10) + n
regroup k w n = grind arith

tenth : (fuel n : ℕ) → n < 10 ^ suc fuel → n / 10 < 10 ^ fuel
tenth fuel n h = omega arith

next_digit :
    (k d : ℕ) (rest : Bytes)
    → d < 10
    → read_digits k ((b'0' + d) ∷ rest) ≡ read_digits (k * 10 + d) rest
unfolding read_digits
next_digit k d rest h = ground (arith, ap (λ (m : ℕ). read_digits m rest) (place d k))

-- Digits that stand before others.
read_digits-digits :
    (fuel n k : ℕ) (rest : Bytes)
    → n < 10 ^ fuel
    → (w : ℕ) × (read_digits k (digits fuel n ++ rest) ≡ read_digits (k * w + n) rest)
unfolding read_digits digits
read_digits-digits zero n k rest h = (1, ap (λ (m : ℕ). read_digits m rest) (omega arith))
read_digits-digits (suc fuel) n k rest h = elim (Bool-cases (ltb n 10)) [
  | inl small ↦ (10, rw small (ground (arith, ap (λ (m : ℕ). read_digits m rest) (place n k))))
  | inr big ↦
      let r = read_digits-digits fuel (n / 10) k ((b'0' + n % 10) ∷ rest) (tenth fuel n h) in
      (
        r.0 * 10,
        rw big (
            ap (read_digits k) (append_assoc (digits fuel (n / 10)) ((b'0' + n % 10) ∷ []) rest)
            ∙ r.1
            ∙ next_digit (k * r.0 + n / 10) (n % 10) rest (omega arith)
            ∙ ap (λ (m : ℕ). read_digits m rest) (regroup k r.0 n)),
      )
]

-- The bytes of a number are digits, after a minus sign perhaps.
abbrev pub is_numeral : ℕ → Bool
is_numeral c = is_digit c || c == b'-'

digits-All : (fuel n : ℕ) → All (λ c. is_numeral c ≡ true) (digits fuel n)
unfolding digits
digits-All zero n = tt
digits-All (suc fuel) n = elim (Bool-cases (ltb n 10)) [
  | inl small ↦ rw small (ground arith, tt)
  | inr big ↦
      rw big (All-append _ (digits fuel (n / 10)) _ (digits-All fuel (n / 10)) (ground arith, tt))
]

pub print_number-All : (z : ℤ) → All (λ c. is_numeral c ≡ true) (print_number z)
unfolding print_number
print_number-All (pos n) = digits-All 10 n
print_number-All (negsuc n) = (refl, digits-All 10 (n + 1))

-- The first digit.
digits_first :
    (fuel n : ℕ)
    → n < 10 ^ suc fuel
    → (c : ℕ) × (cs : Bytes) × (digits (suc fuel) n ≡ c ∷ cs) × (is_digit c ≡ true)
unfolding digits
digits_first zero n h = (b'0' + n, [], rw (lt→ltb n 10 (omega arith)) refl, ground arith)
digits_first (suc fuel) n h = elim (Bool-cases (ltb n 10)) [
  | inl small ↦ (b'0' + n, [], rw small refl, ground arith)
  | inr big ↦
      let r = digits_first fuel (n / 10) (tenth (suc fuel) n h) in
      (
        r.0,
        r.1 ++ ((b'0' + n % 10) ∷ []),
        rw big (ap (λ (xs : Bytes). xs ++ ((b'0' + n % 10) ∷ [])) r.2),
        r.3,
      )
]

read_digits-print : (n : ℕ) → n < 10 ^ 10 → read_digits 0 (digits 10 n) ≡ n
unfolding read_digits
read_digits-print n h =
    let r = read_digits-digits 10 n 0 [] h in
    ap (read_digits 0) (sym (append-nil (digits 10 n))) ∙ r.1 ∙ (omega arith)

-- A number of an `int` has at most ten digits.
abbrev pub IsInt : ℤ → Type 0
IsInt z = (pos_part z < 10 ^ 10) × (neg_part z < 10 ^ 10)

pub print_number-pos : (z : ℤ) → IsInt z → 0 < length (print_number z)
unfolding print_number
print_number-pos (pos n) h = let r = digits_first 9 n h.0 in rw r.2 (omega arith)
print_number-pos (negsuc n) h = omega arith

atoi_digit : (c : ℕ) (cs : Bytes) → is_digit c ≡ true → atoi (c ∷ cs) ≡ pos (read_digits 0 (c ∷ cs))
unfolding atoi read_signed
atoi_digit c cs h = ground arith

atoi_minus : (cs : Bytes) → atoi (b'-' ∷ cs) ≡ sub_ℕ 0 (read_digits 0 cs)
unfolding atoi read_signed
atoi_minus cs = refl

negated : (n : ℕ) → sub_ℕ 0 (n + 1) ≡ negsuc n
negated n = ground arith

-- atoi reads back the number that sprintf printed, for every number of at most ten digits.
pub atoi-print_number : (z : ℤ) → IsInt z → atoi (print_number z) ≡ z
unfolding print_number
atoi-print_number (pos n) h =
    let r = digits_first 9 n h.0 in
    let back : read_digits 0 (r.0 ∷ r.1) ≡ n =
      ap (read_digits 0) (sym r.2) ∙ read_digits-print n h.0 in
    ap atoi r.2 ∙ atoi_digit r.0 r.1 r.3 ∙ ap pos back
atoi-print_number (negsuc n) h =
    atoi_minus (digits 10 (n + 1))
    ∙ ap (sub_ℕ 0) (read_digits-print (n + 1) (omega arith))
    ∙ negated n

digits-le : (fuel n : ℕ) → length (digits fuel n) ≤ fuel
unfolding digits
digits-le zero n = omega arith
digits-le (suc fuel) n =
    ground
      (arith, digits-le fuel (n / 10), length-append (digits fuel (n / 10)) ((b'0' + n % 10) ∷ []))

pub print_number-le : (z : ℤ) → length (print_number z) ≤ 11
unfolding print_number
print_number-le (pos n) = omega (arith, digits-le 10 n)
print_number-le (negsuc n) = omega (arith, digits-le 10 (n + 1))
