-- ===== src/Web/Encoded.antt =====
-- url_decode decodes a whole value in place, and leaves its buffer at an escape that is cut off.
use mathlib.Core.List.{append_assoc, append-nil}
use cy_prus.Prelude.{
  ℕ, zero, suc, ◌+◌, ◌-◌, ◌*◌, ◌%◌, ◌^◌, ◌<◌, ◌≤◌, ◌≡◌, ◌≢◌, refl, ap, ◌∙◌, true, false, ◌==◌, ltb,
  Option, none, some, [], ◌∷◌, ◌++◌, arith, Bool-cases, inl, inr, length, get_elem?, length-append,
  Bytes, ◌>>=◌, ≢→==, lt→ltb,
}
use cy_prus.Prelude.Int.{ℤ}
use cy_prus.Web.Decode.{
  Url, put_byte, advance, put_escape, decode_escape, decode_char, url_step, close, decode,
  url_decode,
}
use cy_prus.Web.Decoded.{state, escaped, unplus, step_char, step_escape, write}

-- What a value stands for: a plus sign for a blank, and an escape for a character below 128.
pub data Encoded (scan : ℕ → ℕ → ℤ) : Bytes → Bytes → Type 0 where
  end : Encoded scan [] []
  char :
      {c : ℕ} {cs ds : Bytes}
      → (c == b'%') ≡ false
      → Encoded scan cs ds
      → Encoded scan (c ∷ cs) ((unplus scan c ∷ []) ++ ds)
  escape :
      {a b : ℕ} {cs ds : Bytes}
      → Encoded scan cs ds
      → Encoded scan (b'%' ∷ (a ∷ (b ∷ cs))) (escaped scan a b ++ ds)

module _ (scan : ℕ → ℕ → ℤ) where
  decode_round :
      (fuel : ℕ) (s s' : Url)
      → s.left ≢ 0
      → url_step scan s ≡ some s'
      → decode scan (suc fuel) s ≡ decode scan fuel s'
  unfolding decode
  decode_round fuel s s' more e = rw (≢→== s.left 0 more) (rw e refl)

  -- The rounds over the characters before `tail`.
  pub decode-Encoded :
      {cs ds : Bytes} (fuel : ℕ) (done gap tail : Bytes) (k : ℕ)
      → Encoded scan cs ds
      → length cs ≤ fuel
      → length cs + k < 2 ^ 64
      → (rest : Bytes) × (fuel' : ℕ) × (decode scan fuel
            (state done gap (cs ++ tail) (length cs + k))
          ≡ decode scan fuel' (state (done ++ ds) rest tail k))
        × (fuel ≤ fuel' + length cs)
        × (fuel' ≤ fuel)
  decode-Encoded fuel done gap tail k end enough small =
      let e : 0 + k ≡ k = omega arith in
      (gap, fuel, rw (e, append-nil done) refl, omega arith, omega arith)
  decode-Encoded zero done gap tail k (char {c} {cs} {ds} h x) enough small = absurd (omega arith)
  decode-Encoded (suc fuel) done gap tail k (char {c} {cs} {ds} h x) enough small =
      let left : ℕ = length cs + k in
      let e : suc (length cs) + k ≡ left + 1 = omega arith in
      let s = step_char scan done gap (cs ++ tail) c left h (omega arith) in
      let r =
        decode-Encoded fuel (done ++ (unplus scan c ∷ [])) s.0 tail k x (omega arith)
          (omega arith) in
      (
        r.0,
        r.1,
        rw e (decode_round fuel _ _ (λ z. omega arith) s.1)
            ∙ r.2
            ∙ ap (λ (xs : Bytes). decode scan r.1 (state xs r.0 tail k))
                (append_assoc done (unplus scan c ∷ []) ds),
        omega (arith, r.3),
        omega (arith, r.4),
      )
  decode-Encoded zero done gap tail k (escape {a} {b} {cs} {ds} x) enough small =
      absurd (omega arith)
  decode-Encoded (suc fuel) done gap tail k (escape {a} {b} {cs} {ds} x) enough small =
      let left : ℕ = length cs + k in
      let e : suc (suc (suc (length cs))) + k ≡ left + 3 = omega arith in
      let s = step_escape scan done gap (cs ++ tail) a b left (omega arith) in
      let r =
        decode-Encoded fuel (done ++ escaped scan a b) s.0 tail k x (omega arith) (omega arith) in
      (
        r.0,
        r.1,
        rw e (decode_round fuel _ _ (λ z. omega arith) s.1)
            ∙ r.2
            ∙ ap (λ (xs : Bytes). decode scan r.1 (state xs r.0 tail k))
                (append_assoc done (escaped scan a b) ds),
        omega (arith, r.3),
        omega (arith, r.4),
      )

  decode_done : (fuel : ℕ) (s : Url) → s.left ≡ 0 → decode scan fuel s ≡ close scan s
  unfolding decode
  decode_done zero s e = rw e refl
  decode_done (suc fuel) s e = rw e refl

  close-state :
      (ds gap stale : Bytes)
      → (rest : Bytes) × (close scan (state ds gap (0 ∷ stale) 0) ≡ some (ds ++ (0 ∷ rest)))
  unfolding close
  close-state ds gap stale =
      let w = write ds gap 0 0 stale in
      let room : ltb (length ds) (length (ds ++ (gap ++ (0 ∷ stale)))) ≡ true =
        lt→ltb _ _
          (omega (arith, length-append ds (gap ++ (0 ∷ stale)), length-append gap (0 ∷ stale))) in
      (w.0 ++ stale, rw room (ap some (w.1 ∙ append_assoc ds (0 ∷ []) (w.0 ++ stale))))

  -- A value whose escapes are complete is decoded in place, without an access outside its buffer:
  -- afterwards the buffer starts with the decoded bytes and a zero.
  pub url_decode-Encoded :
      {cs ds : Bytes} (stale : Bytes)
      → Encoded scan cs ds
      → length cs < 2 ^ 64
      → (rest : Bytes) × (url_decode scan (cs ++ (0 ∷ stale)) (length cs) ≡ some (ds ++ (0 ∷ rest)))
  unfolding url_decode
  url_decode-Encoded {cs} {ds} stale x small =
      let r =
        decode-Encoded (length (cs ++ (0 ∷ stale))) [] [] (0 ∷ stale) 0 x
          (omega (arith, length-append cs (0 ∷ stale))) (omega arith) in
      let c = close-state ds r.0 stale in
      let e : length cs + 0 ≡ length cs = omega arith in
      (c.0, rw e at r.2 ∙ decode_done r.1 (state ds r.0 (0 ∷ stale) 0) refl ∙ c.1)

  put_escape-left : (a b : ℕ) (s : Url) → (put_escape scan a b s).left ≡ s.left
  unfolding put_escape put_byte
  put_escape-left a b s = ground arith

  abbrev pub Left : (ℕ → Type 0) → Option Url → Type 0
  Left P none = Unit
  Left P (some s) = P s.left

  bind-Left :
      (P : ℕ → Type 0) (o : Option ℕ) (f : ℕ → Option Url)
      → ((c : ℕ) → Left P (f c))
      → Left P (o >>= f)
  bind-Left P none f h = tt
  bind-Left P (some c) f h = h c

  -- A round counts down by one or by three, modulo 2 ^ 64.
  pub escape-Left :
      (P : ℕ → Type 0) (s : Url)
      → P ((s.left + (2 ^ 64 - 3)) % 2 ^ 64)
      → Left P (decode_escape scan s)
  unfolding decode_escape advance
  escape-Left P s h =
      bind-Left P _ _
        (λ a. bind-Left P (get_elem? s.buffer (s.at + 2)) _ (λ b. rw (put_escape-left a b s) h))

  char-Left :
      (P : ℕ → Type 0) (s : Url) (c : ℕ)
      → P ((s.left + (2 ^ 64 - 3)) % 2 ^ 64)
      → P ((s.left + (2 ^ 64 - 1)) % 2 ^ 64)
      → Left P (decode_char scan s c)
  unfolding decode_char advance put_byte
  char-Left P s c h k = elim (Bool-cases (c == b'%')) [
    | inl e ↦ rw e (escape-Left P s h)
    | inr ne ↦ rw ne k
  ]

  pub all_out :
      (fuel : ℕ) (o : Option Url)
      → Left (λ n. (fuel * 3 < n) × (n < 2 ^ 64)) o
      → ((s : Url) → fuel * 3 < s.left → s.left < 2 ^ 64 → decode scan fuel s ≡ none)
      → (o >>= decode scan fuel) ≡ none
  all_out fuel none h k = refl
  all_out fuel (some s) h k = k s h.0 h.1

  -- With more left than the fuel can count down no zero is reached.
  pub runs_out :
      (fuel : ℕ) (s : Url) → fuel * 3 < s.left → s.left < 2 ^ 64 → decode scan fuel s ≡ none
  unfolding decode url_step
  runs_out zero s more small = rw (≢→== s.left 0 (λ z. omega arith)) refl
  runs_out (suc fuel) s more small = rw (≢→== s.left 0 (λ z. omega arith)) (
      all_out fuel _
        (bind-Left (λ n. (fuel * 3 < n) × (n < 2 ^ 64)) (get_elem? s.buffer s.at)
          (decode_char scan s) (λ c. char-Left _ s c (omega arith) (omega arith)))
        (λ s' m l. runs_out fuel s' m l))
