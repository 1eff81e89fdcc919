-- ===== src/Web/Size.antt =====
-- The memory that replace asks for holds its result exactly.
use cy_prus.Prelude.{
  ℕ, zero, suc, ◌+◌, ◌-◌, ◌*◌, ◌%◌, ◌^◌, ◌<◌, ◌≤◌, ◌≡◌, sym, ap, ◌∙◌, ◌==◌, Option, none, some,
  ◌++◌, arith, Bool-cases, inl, inr, length, take, drop, length-append, length-drop, Bytes, ==→≡,
  leb, strstr,
}
use cy_prus.Web.Replace.{count_more, count_loop, replace_size, copy_more, copy_loop, replace}
use cy_prus.Web.Replaced.{IsFirst, strstr-IsFirst}

module _ (old new : Bytes) where
  -- With the same number of rounds the two loops agree.
  sizes_found :
      (fuel : ℕ) (s : Bytes) (o : Option ℕ)
      → IsFirst old s o
      → ((t : Bytes)
          → length (copy_loop fuel old new t) + (count_loop fuel old t).0 * length old
            ≡ length t + (count_loop fuel old t).0 * length new)
      → length (copy_more (copy_loop fuel old new) old new s o)
          + (count_more (count_loop fuel old) old s o).0 * length old
        ≡ length s + (count_more (count_loop fuel old) old s o).0 * length new
  sizes_found fuel s none h again = omega arith
  sizes_found fuel s (some l) h again =
      let back : Bytes = drop (l + length old) s in
      let front : Bytes = take l s in
      let n : ℕ = (count_loop fuel old back).0 in
      let out : Bytes = copy_loop fuel old new back in
      let sized : length s ≡ length front + (length old + length back) =
        ap length h.0
        ∙ length-append front (old ++ back)
        ∙ ap (λ (k : ℕ). length front + k) (length-append old back) in
      let made : length (front ++ (new ++ out)) ≡ length front + (length new + length out) =
        length-append front (new ++ out)
        ∙ ap (λ (k : ℕ). length front + k) (length-append new out) in
      let a : suc n * length old ≡ n * length old + length old = omega arith in
      let b : suc n * length new ≡ n * length new + length new = omega arith in
      omega (arith, a, b, sized, made, again back)

  sizes :
      (fuel : ℕ) (s : Bytes)
      → length (copy_loop fuel old new s) + (count_loop fuel old s).0 * length old
        ≡ length s + (count_loop fuel old s).0 * length new
  unfolding copy_loop count_loop
  sizes zero s = omega arith
  sizes (suc fuel) s = sizes_found fuel s (strstr old s) (strstr-IsFirst old s) (sizes fuel)

  left_found :
      (fuel : ℕ) (s : Bytes) (o : Option ℕ)
      → ((t : Bytes) → length (count_loop fuel old t).1 ≤ length t)
      → length (count_more (count_loop fuel old) old s o).1 ≤ length s
  left_found fuel s none again = omega arith
  left_found fuel s (some l) again =
      omega (arith, again (drop (l + length old) s), length-drop (l + length old) s)

  left : (fuel : ℕ) (s : Bytes) → length (count_loop fuel old s).1 ≤ length s
  unfolding count_loop
  left zero s = omega arith
  left (suc fuel) s = left_found fuel s (strstr old s) (left fuel)

distribute : (n a b : ℕ) → n * (a + b) ≡ n * a + n * b
distribute n a b = grind arith

-- `n * (b - a)` in unsigned numbers, also where `b` is below `a`.
wrapped :
    (size len n a b : ℕ)
    → size + n * a ≡ len + n * b
    → size < 2 ^ 64
    → a < 2 ^ 64
    → b < 2 ^ 64
    → (len + n * ((b + 2 ^ 64 - a) % 2 ^ 64)) % 2 ^ 64 ≡ size
wrapped size len n a b e small sa sb = elim (Bool-cases (leb a b)) [
  | inl up ↦
      let d : ℕ = b - a in
      let diff : (b + 2 ^ 64 - a) % 2 ^ 64 ≡ d = ground arith in
      let sum : b ≡ a + d = ground arith in
      let product : n * b ≡ n * a + n * d = ap (λ (k : ℕ). n * k) sum ∙ distribute n a d in
      rw diff (omega arith)
  | inr down ↦
      let d : ℕ = a - b in
      let diff : (b + 2 ^ 64 - a) % 2 ^ 64 ≡ 2 ^ 64 - d = ground arith in
      let sum : a ≡ b + d = ground arith in
      let product : n * a ≡ n * b + n * d = ap (λ (k : ℕ). n * k) sum ∙ distribute n b d in
      let total : n * (2 ^ 64 - d) + n * d ≡ n * 2 ^ 64 =
        sym (distribute n (2 ^ 64 - d) d)
        ∙ ap (λ (k : ℕ). n * k) (let s : 2 ^ 64 - d + d ≡ 2 ^ 64 = ground arith in s) in
      rw diff (omega arith)
]

-- The size that replace computes in unsigned 64-bit numbers, by the count of the occurrences, is the
-- length of the string that it makes, also where the new text is shorter than the old one; the old text
-- is not empty, and all lengths are below 2 ^ 64.
pub replace-size :
    (str old new : Bytes)
    → 0 < length old
    → length (replace str old new) < 2 ^ 64
    → length old < 2 ^ 64
    → length new < 2 ^ 64
    → replace_size str old new ≡ length (replace str old new)
unfolding replace replace_size
replace-size str old new some_byte small so sn =
    let e = sizes old new (length str + 1) str in
    let l = left old new (length str + 1) str in
    elim (Bool-cases (length old == length new)) [
      | inl same ↦
          let s : length old ≡ length new = ==→≡ _ _ same in
          rw same (omega (arith, ap (λ (k : ℕ). (count_loop (length str + 1) old str).0 * k) s))
      | inr other ↦
          let back : length str
                - length (count_loop (length str + 1) old str).1
                + length (count_loop (length str + 1) old str).1
              ≡ length str =
            omega arith in
          rw (other, back)
            (wrapped _ (length str) (count_loop (length str + 1) old str).0 (length old)
              (length new) e small so sn)
    ]
