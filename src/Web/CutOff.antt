-- ===== src/Web/CutOff.antt =====
-- An escape that is cut off at the end of a value.
use cy_prus.Prelude.{
  ℕ, zero, suc, ◌+◌, ◌*◌, ◌^◌, ◌<◌, ◌≡◌, refl, ap, ◌∙◌, Option, none, some, [], ◌∷◌, ◌++◌, arith,
  length, get_elem?, length-append, Bytes, ≢→==,
}
use cy_prus.Prelude.Int.{ℤ}
use cy_prus.Web.Decode.{Url, url_step, decode_char, decode_escape, decode, url_decode}
use cy_prus.Web.Decoded.{state, read_todo}
use cy_prus.Web.Encoded.{Encoded, decode-Encoded, escape-Left, all_out, runs_out}

-- A percent sign with at most one character behind it.
abbrev pub cut_off : Option ℕ → Bytes
cut_off none = b'%' ∷ []
cut_off (some a) = b'%' ∷ (a ∷ [])

cut_length : (more : Option ℕ) → (0 < length (cut_off more)) × (length (cut_off more) < 3)
cut_length none = (omega arith, omega arith)
cut_length (some a) = (omega arith, omega arith)

module _ (scan : ℕ → ℕ → ℤ) where
  cut_round :
      (fuel : ℕ) (done gap tail : Bytes) (k : ℕ)
      → 0 < k
      → k < 3
      → fuel < 2 ^ 60
      → decode scan fuel (state done gap (b'%' ∷ tail) k) ≡ none
  unfolding decode url_step decode_char
  cut_round zero done gap tail k more few small = rw (≢→== k 0 (λ z. omega arith)) refl
  cut_round (suc fuel) done gap tail k more few small =
      let s : Url = state done gap (b'%' ∷ tail) k in
      let line : Bytes = done ++ (gap ++ (b'%' ∷ tail)) in
      let at : length done + length gap ≡ length done + length gap + 0 = omega arith in
      let mark : get_elem? line (length done + length gap) ≡ some b'%' =
        ap (get_elem? line) at ∙ read_todo done gap (b'%' ∷ tail) 0 0 in
      rw (≢→== k 0 (λ z. omega arith)) (
        rw mark (
          all_out scan fuel (decode_escape scan s)
            (escape-Left scan (λ n. (fuel * 3 < n) × (n < 2 ^ 64)) s (omega arith, omega arith))
            (λ s' m l. runs_out scan fuel s' m l)))

  cut_begins :
      (more : Option ℕ) (tail : Bytes) → (rest : Bytes) × (cut_off more ++ tail ≡ b'%' ∷ rest)
  cut_begins none tail = (tail, refl)
  cut_begins (some a) tail = (a ∷ tail, refl)

  -- A value that ends in a percent sign with fewer than two characters behind it: the count of
  -- characters wraps around below zero, and the decoding leaves its buffer, whatever is behind the
  -- value in a buffer of less than 2 ^ 60 bytes.
  pub url_decode-cut_off :
      {front ds : Bytes} (more : Option ℕ) (stale : Bytes)
      → Encoded scan front ds
      → length (front ++ (cut_off more ++ (0 ∷ stale))) < 2 ^ 60
      → url_decode scan (front ++ (cut_off more ++ (0 ∷ stale))) (length (front ++ cut_off more))
        ≡ none
  unfolding url_decode
  url_decode-cut_off {front} {ds} more stale x small =
      let line : Bytes = front ++ (cut_off more ++ (0 ∷ stale)) in
      let k : ℕ = length (cut_off more) in
      let sized : length line ≡ length front + (k + suc (length stale)) = omega (
        arith,
        length-append front (cut_off more ++ (0 ∷ stale)),
        length-append (cut_off more) (0 ∷ stale),
      ) in
      let few = cut_length more in
      let b = cut_begins more (0 ∷ stale) in
      let r =
        decode-Encoded scan (length line) [] [] (cut_off more ++ (0 ∷ stale)) k x
          (omega (arith, sized)) (omega (arith, sized)) in
      rw (length-append front (cut_off more)) (
        r.2
        ∙ ap (λ (xs : Bytes). decode scan r.1 (state ds r.0 xs k)) b.1
        ∙ cut_round r.1 ds r.0 b.0 k few.0 few.1 (omega (arith, r.4)))
