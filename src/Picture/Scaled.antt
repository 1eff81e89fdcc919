-- ===== src/Picture/Scaled.antt =====
-- The mask that get_pgm loads has the scaled bytes of the file.
use cy_prus.Prelude.{
  ℕ, suc, ◌+◌, ◌-◌, ◌*◌, ◌≤◌, ◌<◌, ◌≡◌, refl, sym, ap, ap₂, ◌∙◌, List, arith, length, get_or, set,
  take, drop, length-set, length-take_le, length-drop, get_or-take, get_or-drop, get_or-set_self,
  get_or-set_ne, rounds, rounds_inv, Scattered, scatter-Scattered, ℕ_discrete, dec_lt, row_gap,
  Bytes, drop-drop,
}
use cy_prus.Prelude.Int.{ℤ}
use cy_prus.Picture.Pgm.{scaled, read_row, read_rows}

-- The pixels of a row are scaled in place.
scale_row :
    (maxval : ℤ) (base width : ℕ) (old : List ℕ)
    → base + width ≤ length old
    → Scattered
        (λ x. base + x)
        (λ x. scaled maxval (get_or old (base + x) 0))
        old
        width
        (rounds (λ x im. set im (base + x) (scaled maxval (get_or im (base + x) 0))) width old)
scale_row maxval base width old room =
    rounds_inv (Scattered (λ x. base + x) (λ x. scaled maxval (get_or old (base + x) 0)) old)
      (λ x im. set im (base + x) (scaled maxval (get_or im (base + x) 0))) width old
      (record { size = refl; written = λ k lt. absurd (omega arith); kept = λ j h. refl })
      (λ x im lt s.
        let v : ℕ = scaled maxval (get_or im (base + x) 0) in
        record {
          size = length-set im (base + x) v ∙ s.size;
          written = λ k k_in. elim (ℕ_discrete k x) [
            | yes e ↦ rw e (
                get_or-set_self im (base + x) v 0 (omega (arith, s.size))
                ∙ ap (scaled maxval) (s.kept (base + x) (λ j j_in e'. absurd (omega arith))))
            | no ne ↦
                get_or-set_ne im (base + x) (base + k) v 0 (λ e. ne (omega arith))
                ∙ s.written k (omega arith)
          ];
          kept = λ j h.
              get_or-set_ne im (base + x) j v 0 (λ e. h x (omega arith) (sym e))
              ∙ s.kept j (λ k k_in. h k (omega arith));
        })

-- A row that the file has all bytes of.
read_row-Scattered :
    (maxval : ℤ) (width y : ℕ) (bytes : Bytes) (image : List ℕ)
    → length bytes ≡ width
    → y * width + width ≤ length image
    → Scattered
        (λ x. y * width + x)
        (λ x. scaled maxval (get_or bytes x 0))
        image
        width
        (read_row maxval width bytes y image)
unfolding read_row
read_row-Scattered maxval width y bytes image whole room =
    let copied : List ℕ =
      rounds (λ x im. set im (y * width + x) (get_or bytes x 0)) (length bytes) image in
    let c : Scattered (λ x. y * width + x) (λ x. get_or bytes x 0) image (length bytes) copied =
      scatter-Scattered (λ x. y * width + x) (λ x. get_or bytes x 0) (length bytes) image
        (λ k m k_in m_in e. omega arith) (λ k k_in. omega arith) in
    let s = scale_row maxval (y * width) width copied (omega (arith, c.size)) in
    record {
      size = s.size ∙ c.size;
      written = λ x x_in. s.written x x_in ∙ ap (scaled maxval) (c.written x (omega arith));
      kept = λ j h. s.kept j h ∙ c.kept j (λ k k_in. h k (omega arith));
    }

-- After `y` rows of the bytes `file`.
record InRows (maxval : ℤ) (width : ℕ) (file : Bytes) (size y : ℕ) (s : List ℕ × Bytes)
    : Type 0 where
  pub sized : length s.0 ≡ size
  pub rest : s.1 ≡ drop (y * width) file
  pub done : (i : ℕ) → i < y * width → get_or s.0 i 0 ≡ scaled maxval (get_or file i 0)

InRows-step :
    (maxval : ℤ) (width : ℕ) (file : Bytes) (size y : ℕ) (s : List ℕ × Bytes)
    → y * width + width ≤ size
    → size ≤ length file
    → InRows maxval width file size y s
    → InRows maxval width file size
        (suc y)
        (read_row maxval width (take width s.1) y s.0, drop (length (take width s.1)) s.1)
InRows-step maxval width file size y s room enough p =
    let left : length s.1 ≡ length file - y * width =
      ap length p.rest ∙ length-drop (y * width) file in
    let whole : length (take width s.1) ≡ width = length-take_le width s.1 (omega (arith, left)) in
    let r = read_row-Scattered maxval width y (take width s.1) s.0 whole (omega (arith, p.sized)) in
    let next : suc y * width ≡ y * width + width = grind arith in
    record {
      sized = r.size ∙ p.sized;
      rest =
          ap₂ (λ (n : ℕ) (xs : Bytes). drop n xs) whole p.rest
          ∙ sym (drop-drop (y * width) width file)
          ∙ ap (λ (n : ℕ). drop n file) (sym next);
      done = λ i lt. elim (dec_lt i (y * width)) [
        | yes before ↦ r.kept i (λ k k_in e. absurd (omega arith)) ∙ p.done i before
        | no behind ↦
            let x : ℕ = i - y * width in
            let same : i ≡ y * width + x = omega arith in
            let x_in : x < width = omega (arith, next) in
            ap (λ (j : ℕ). get_or (read_row maxval width (take width s.1) y s.0) j 0) same
            ∙ r.written x x_in
            ∙ ap (scaled maxval) (
                get_or-take width s.1 x 0 x_in
                ∙ ap (λ (xs : Bytes). get_or xs x 0) p.rest
                ∙ get_or-drop (y * width) file x 0
                ∙ ap (λ (j : ℕ). get_or file j 0) (sym same))
      ];
    }

pub read_rows-InRows :
    (maxval : ℤ) (width height : ℕ) (file : Bytes) (memory : List ℕ)
    → length memory ≡ height * width
    → height * width ≤ length file
    → (length (read_rows maxval width height file memory).0 ≡ height * width)
      × ((i : ℕ)
          → i < height * width
          → get_or (read_rows maxval width height file memory).0 i 0
            ≡ scaled maxval (get_or file i 0))
unfolding read_rows
read_rows-InRows maxval width height file memory sized enough =
    let p : InRows maxval width file (height * width) height (
        rounds
          (λ y s.
            (read_row maxval width (take width s.1) y s.0, drop (length (take width s.1)) s.1))
          height (memory, file)) =
      rounds_inv (InRows maxval width file (height * width))
        (λ y s. (read_row maxval width (take width s.1) y s.0, drop (length (take width s.1)) s.1))
        height (memory, file)
        (record {
          sized = sized;
          rest = (let z : 0 * width ≡ 0 = omega arith in ap (λ (n : ℕ). drop n file) (sym z));
          done = λ i lt. absurd (omega arith);
        })
        (λ y s lt q.
          InRows-step maxval width file (height * width) y s (row_gap width y height lt) enough
            q) in
    (p.sized, p.done)
