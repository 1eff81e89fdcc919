-- ===== src/Web/Decoded.antt =====
-- The in-place decoding is the decoding of the list of characters, and an escape that is cut off
-- makes url_decode run out of its buffer.
use mathlib.Core.List.{append_assoc}
use cy_prus.Prelude.{
  ℕ, zero, suc, ◌+◌, ◌^◌, ◌<◌, ◌≡◌, refl, sym, ap, ap₂, ◌∙◌, false, ◌==◌, if◌then◌else◌, some, [],
  ◌∷◌, ◌++◌, arith, Bool-cases, inl, inr, length, get_elem?, set, length-append, Bytes,
}
use cy_prus.Prelude.Int.{ℤ, pos, ltb_ℤ}
use cy_prus.Web.Decode.{
  Url, char_of, put_byte, advance, put_escape, decode_escape, decode_char, url_step,
}

abbrev pub url : Bytes → ℕ → ℕ → ℕ → Url
url b at out left = record { buffer = b; at = at; out = out; left = left }

-- The state in which `done` is written, `gap` may be overwritten and `todo` is to be read.
abbrev pub state : Bytes → Bytes → Bytes → ℕ → Url
state done gap todo left = url (done ++ (gap ++ todo)) (length done + length gap) (length done) left

get_elem?-append :
    (xs ys : Bytes) (k n : ℕ) → n ≡ length xs + k → get_elem? (xs ++ ys) n ≡ get_elem? ys k
get_elem?-append [] ys k n e = ap (get_elem? ys) (omega arith)
get_elem?-append (x ∷ xs) ys k zero e = absurd (omega arith)
get_elem?-append (x ∷ xs) ys k (suc n) e = get_elem?-append xs ys k n (omega arith)

overwrite :
    (done : Bytes) (g v : ℕ) (rest : Bytes)
    → set (done ++ (g ∷ rest)) (length done) v ≡ (done ++ (v ∷ [])) ++ rest
overwrite [] g v rest = refl
overwrite (d ∷ done) g v rest = ap (◌∷◌ d) (overwrite done g v rest)

pub read_todo :
    (done gap todo : Bytes) (k left : ℕ)
    → get_elem? (state done gap todo left).buffer (length done + length gap + k) ≡ get_elem? todo k
read_todo done gap todo k left =
    get_elem?-append done (gap ++ todo) (length gap + k) _ (omega arith)
    ∙ get_elem?-append gap todo k _ refl

-- A written byte takes the place of the first byte that is read already, or of the next one.
pub write :
    (done gap : Bytes) (x v : ℕ) (ys : Bytes)
    → (gap' : Bytes) × (set (done ++ (gap ++ (x ∷ ys))) (length done) v
        ≡ (done ++ (v ∷ [])) ++ (gap' ++ ys))
      × (length gap' ≡ length gap)
write done [] x v ys = ([], overwrite done x v ys, refl)
write done (g ∷ gap) x v ys = (
  gap ++ (x ∷ []),
  overwrite done g v (gap ++ (x ∷ ys))
      ∙ ap (λ (zs : Bytes). (done ++ (v ∷ [])) ++ zs) (sym (append_assoc gap (x ∷ []) ys)),
  omega (arith, length-append gap (x ∷ [])),
)

same_state :
    {b b' : Bytes} {at at' out out' left left' : ℕ}
    → b ≡ b'
    → at ≡ at'
    → out ≡ out'
    → left ≡ left'
    → url b at out left ≡ url b' at' out' left'
same_state e f g h = ground arith

-- An escape that is kept is written back byte by byte.
three :
    (done gap : Bytes) (a b : ℕ) (ys : Bytes)
    → (gap' : Bytes) × (set
          (set
            (set (done ++ (gap ++ (b'%' ∷ (a ∷ (b ∷ ys))))) (length done) b'%')
            (length done + 1)
            a)
          (length done + 1 + 1)
          b
        ≡ (done ++ (b'%' ∷ (a ∷ (b ∷ [])))) ++ (gap' ++ ys))
      × (length gap' ≡ length gap)
three done gap a b ys =
    let w = write done gap b'%' b'%' (a ∷ (b ∷ ys)) in
    let done₁ : Bytes = done ++ (b'%' ∷ []) in
    let one : length done + 1 ≡ length done₁ = omega (arith, length-append done (b'%' ∷ [])) in
    let w' = write done₁ w.0 a a (b ∷ ys) in
    let done₂ : Bytes = done₁ ++ (a ∷ []) in
    let two : length done + 1 + 1 ≡ length done₂ = omega (arith, length-append done₁ (a ∷ [])) in
    let w'' = write done₂ w'.0 b b ys in
    let regroup : done₂ ++ (b ∷ []) ≡ done ++ (b'%' ∷ (a ∷ (b ∷ []))) = simp append_assoc in
    (
      w''.0,
      ap₂ (λ (xs : Bytes) (n : ℕ). set (set xs n a) (length done + 1 + 1) b) w.1 one
          ∙ ap₂ (λ (xs : Bytes) (n : ℕ). set xs n b) w'.1 two
          ∙ w''.1
          ∙ ap (λ (xs : Bytes). xs ++ (w''.0 ++ ys)) regroup,
      w''.2 ∙ w'.2 ∙ w.2,
    )

module _ (scan : ℕ → ℕ → ℤ) where
  -- What an escape stands for.
  abbrev pub escaped : ℕ → ℕ → Bytes
  escaped a b =
      if ltb_ℤ (scan a b) (pos 128) then char_of (scan a b) ∷ [] else b'%' ∷ (a ∷ (b ∷ []))

  abbrev pub unplus : ℕ → ℕ
  unplus c = if c == b'+' then b' ' else c

  pub step_char :
      (done gap todo : Bytes) (c left : ℕ)
      → (c == b'%') ≡ false
      → left + 1 < 2 ^ 64
      → (gap' : Bytes) × (url_step scan (state done gap (c ∷ todo) (left + 1))
          ≡ some (state (done ++ (unplus c ∷ [])) gap' todo left))
  unfolding url_step decode_char advance put_byte
  step_char done gap todo c left plain small =
      let w = write done gap c (unplus c) todo in
      let at : length done + length gap ≡ length done + length gap + 0 = omega arith in
      let c_read : get_elem? (done ++ (gap ++ (c ∷ todo))) (length done + length gap) ≡ some c =
        ap (get_elem? (done ++ (gap ++ (c ∷ todo)))) at ∙ read_todo done gap (c ∷ todo) 0 0 in
      (
        w.0,
        rw c_read (
            rw plain (
              ap some (
                same_state w.1 (omega (arith, w.2, length-append done (unplus c ∷ [])))
                  (omega (arith, length-append done (unplus c ∷ []))) (omega arith)))),
      )

  pub step_escape :
      (done gap todo : Bytes) (a b left : ℕ)
      → left + 3 < 2 ^ 64
      → (gap' : Bytes) × (url_step scan (state done gap (b'%' ∷ (a ∷ (b ∷ todo))) (left + 3))
          ≡ some (state (done ++ escaped a b) gap' todo left))
  unfolding url_step decode_char decode_escape put_escape advance put_byte
  step_escape done gap todo a b left small =
      let text : Bytes = b'%' ∷ (a ∷ (b ∷ todo)) in
      let line : Bytes = done ++ (gap ++ text) in
      let at : length done + length gap ≡ length done + length gap + 0 = omega arith in
      let mark : get_elem? line (length done + length gap) ≡ some b'%' =
        ap (get_elem? line) at ∙ read_todo done gap text 0 0 in
      let first : get_elem? line (length done + length gap + 1) ≡ some a =
        read_todo done gap text 1 0 in
      let second : get_elem? line (length done + length gap + 2) ≡ some b =
        read_todo done gap text 2 0 in
      elim (Bool-cases (ltb_ℤ (scan a b) (pos 128))) [
        | inl ascii ↦
            let v : ℕ = char_of (scan a b) in
            let w = write done gap b'%' v (a ∷ (b ∷ todo)) in
            (
              w.0 ++ (a ∷ (b ∷ [])),
              rw mark (
                  rw first (
                    rw second (
                      rw ascii (
                        ap some (
                          same_state
                            (w.1
                              ∙ ap (λ (zs : Bytes). (done ++ (v ∷ [])) ++ zs)
                                  (sym (append_assoc w.0 (a ∷ (b ∷ [])) todo)))
                            (omega (
                              arith,
                              w.2,
                              length-append done (v ∷ []),
                              length-append w.0 (a ∷ (b ∷ [])),
                            ))
                            (omega (arith, length-append done (v ∷ []))) (omega arith)))))),
            )
        | inr other ↦
            let w = three done gap a b todo in
            (
              w.0,
              rw mark (
                  rw first (
                    rw second (
                      rw other (
                        ap some (
                          same_state w.1
                            (omega (arith, w.2, length-append done (b'%' ∷ (a ∷ (b ∷ [])))))
                            (omega (arith, length-append done (b'%' ∷ (a ∷ (b ∷ [])))))
                            (omega arith)))))),
            )
      ]
