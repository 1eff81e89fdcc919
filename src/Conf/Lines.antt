-- ===== src/Conf/Lines.antt =====
-- Files line by line: comments are skipped, and each option line is obeyed in turn.
use mathlib.Core.List.{append_assoc}
use mathlib.Core.Path.{subst}
use cy_prus.Prelude.{
  ℕ, zero, suc, ◌+◌, ◌-◌, ◌<◌, ◌≤◌, ◌≡◌, refl, sym, ap, ◌∙◌, Bool, true, false, not, ◌==◌, ◌||◌,
  ◌&&◌, Bool-cases, inl, inr, Option, some, List, [], ◌∷◌, ◌++◌, arith, length, get_or, drop,
  length-append, Bytes, All, IsText, strlen, strlen-append, All-append,
}
use cy_prus.Conf.Line.{skipped, parse_text, parse_line}
use cy_prus.Conf.Options.{Param, CameraContext}
use cy_prus.Conf.File.{put_first, take_line, into, fgets, process_line, process_lines}

-- The bytes of a line without its newline.
abbrev pub IsBody : Bytes → Type 0
IsBody = All (λ c. (c == b'\n') ≡ false)

-- Such bytes, and none of them zero, as a test.
unfoldable pub is_plain : Bytes → Bool
is_plain [] = true
is_plain (c ∷ cs) = not (c == b'\n' || c == 0) && is_plain cs

pub is_plain_sound : (xs : Bytes) → is_plain xs ≡ true → IsBody xs × IsText xs
unfolding is_plain
is_plain_sound [] h = (tt, tt)
is_plain_sound (c ∷ cs) h = elim (Bool-cases (c == b'\n' || c == 0)) [
  | inl bad ↦ absurd (ground arith)
  | inr good ↦
      let r = is_plain_sound cs (ground arith) in ((ground arith, r.0), (ground arith, r.1))
]

take_line-append :
    (n : ℕ) (body rest : Bytes)
    → IsBody body
    → length body < n
    → take_line n (body ++ (b'\n' ∷ rest)) ≡ (body ++ (b'\n' ∷ []), rest)
unfolding take_line
take_line-append zero body rest h lt = absurd (omega arith)
take_line-append (suc n) [] rest h lt = refl
take_line-append (suc n) (c ∷ cs) rest h lt =
    rw h.0 (ap (put_first c) (take_line-append n cs rest h.1 (omega arith)))

pub fgets-append :
    (size : ℕ) (line body rest : Bytes)
    → IsBody body
    → length body + 1 < size
    → (stale : Bytes) × (fgets size line (body ++ (b'\n' ∷ rest))
        ≡ some (body ++ (b'\n' ∷ (0 ∷ stale)), rest))
unfolding fgets
fgets-append size line [] rest h lt =
    (_, ap (λ r. some (into line r)) (take_line-append (size - 1) [] rest h (omega arith)))
fgets-append size line (c ∷ cs) rest h lt =
    let stale : Bytes = drop (suc (length ((c ∷ cs) ++ (b'\n' ∷ [])))) line in
    (
      stale,
      ap (λ r. some (into line r)) (take_line-append (size - 1) (c ∷ cs) rest h (omega arith))
          ∙ ap (λ (xs : Bytes). some (xs, rest)) (append_assoc (c ∷ cs) (b'\n' ∷ []) (0 ∷ stale)),
    )

module _ (thread : Bytes → List CameraContext → Option (List CameraContext))
    (params : List Param) where
  -- With fuel for every byte the file takes the contexts `cnt` to `r`, whatever the buffer holds.
  abbrev pub Reads : Bytes → List CameraContext → List CameraContext → Type 0
  Reads file cnt r =
      (fuel : ℕ) (line : Bytes)
      → length file ≤ fuel
      → process_lines thread params fuel line file cnt ≡ some r

  pub Reads-end : (cnt : List CameraContext) → Reads [] cnt cnt
  unfolding process_lines fgets
  Reads-end cnt zero line h = refl
  Reads-end cnt (suc fuel) line h = refl

  pub Reads-line :
      (body rest : Bytes) (cnt cnt' r : List CameraContext)
      → IsBody body
      → length body < 4094
      → ((stale : Bytes)
          → (b : Bytes) × (process_line thread params (body ++ (b'\n' ∷ (0 ∷ stale))) cnt
              ≡ some (b, cnt')))
      → Reads rest cnt' r
      → Reads (body ++ (b'\n' ∷ rest)) cnt r
  unfolding process_lines
  Reads-line body rest cnt cnt' r h short step later zero line le =
      absurd (omega (arith, length-append body (b'\n' ∷ rest)))
  Reads-line body rest cnt cnt' r h short step later (suc fuel) line le =
      let f = fgets-append 4095 line body rest h (omega arith) in
      let s = step f.0 in
      rw f.1 (rw s.1 (later fuel s.0 (omega (arith, length-append body (b'\n' ∷ rest)))))

-- Lines that are empty or begin with a comment mark.
pub data IsComments : Bytes → Type 0 where
  done : IsComments []
  comment :
      (body rest : Bytes)
      → IsBody body
      → IsText body
      → length body < 4094
      → (length body == 0 || (get_or body 0 0 == b'#' || get_or body 0 0 == b';')) ≡ true
      → IsComments rest
      → IsComments (body ++ (b'\n' ∷ rest))

append_newline : (xs tail : Bytes) → xs ++ (b'\n' ∷ tail) ≡ (xs ++ (b'\n' ∷ [])) ++ tail
append_newline xs tail = simp append_assoc

skip_line :
    (body stale : Bytes)
    → IsText body
    → (length body == 0 || (get_or body 0 0 == b'#' || get_or body 0 0 == b';')) ≡ true
    → parse_line (body ++ (b'\n' ∷ (0 ∷ stale))) ≡ some (body ++ (b'\n' ∷ (0 ∷ stale)), skipped)
unfolding parse_line parse_text
skip_line [] stale t h = rw (strlen-append (b'\n' ∷ []) stale (refl, tt)) refl
skip_line (c ∷ cs) stale t h =
    let whole : strlen ((c ∷ cs) ++ (b'\n' ∷ (0 ∷ stale)))
        ≡ some (length ((c ∷ cs) ++ (b'\n' ∷ []))) =
      ap strlen (append_newline (c ∷ cs) (0 ∷ stale))
      ∙ strlen-append ((c ∷ cs) ++ (b'\n' ∷ [])) stale
          (All-append _ (c ∷ cs) (b'\n' ∷ []) t (refl, tt)) in
    rw whole (ground arith)

module _ (thread : Bytes → List CameraContext → Option (List CameraContext))
    (params : List Param) where
  process_skip :
      (body stale : Bytes) (cnt : List CameraContext)
      → IsText body
      → (length body == 0 || (get_or body 0 0 == b'#' || get_or body 0 0 == b';')) ≡ true
      → process_line thread params (body ++ (b'\n' ∷ (0 ∷ stale))) cnt
        ≡ some (body ++ (b'\n' ∷ (0 ∷ stale)), cnt)
  unfolding process_line
  process_skip body stale cnt t s = rw (skip_line body stale t s) refl

  pub Reads-comment :
      (body rest : Bytes) (cnt r : List CameraContext)
      → IsBody body
      → IsText body
      → length body < 4094
      → (length body == 0 || (get_or body 0 0 == b'#' || get_or body 0 0 == b';')) ≡ true
      → Reads thread params rest cnt r
      → Reads thread params (body ++ (b'\n' ∷ rest)) cnt r
  Reads-comment body rest cnt r b t l s k =
      Reads-line thread params body rest cnt cnt r b l
        (λ stale. (body ++ (b'\n' ∷ (0 ∷ stale)), process_skip body stale cnt t s)) k

  pub Reads-IsComments :
      {block : Bytes} (rest : Bytes) (cnt r : List CameraContext)
      → IsComments block
      → Reads thread params rest cnt r
      → Reads thread params (block ++ rest) cnt r
  Reads-IsComments rest cnt r done k = k
  Reads-IsComments rest cnt r (comment body more b t l s c) k =
      subst (λ (xs : Bytes). Reads thread params xs cnt r)
        (sym (append_assoc body (b'\n' ∷ more) rest))
        (Reads-comment body (more ++ rest) cnt r b t l s (Reads-IsComments rest cnt r c k))
