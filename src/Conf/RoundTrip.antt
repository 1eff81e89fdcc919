-- ===== src/Conf/RoundTrip.antt =====
-- conf_process reads back the file that conf_print wrote.
use mathlib.Core.List.{append_assoc}
use mathlib.Core.Path.{subst}
use cy_prus.Prelude.{
  ◌<◌, ◌≤◌, ◌≡◌, inl, inr, refl, sym, ◌∙◌, true, false, ◌==◌, ◌||◌, Option, none, some, List, [],
  ◌∷◌, ◌++◌, arith, length, get_or, length-append, Bytes, All, IsText, All-append, codes,
  Bool-cases,
}
use cy_prus.Conf.Line.{in_command}
use cy_prus.Conf.Written.{Shown, IsLine, command-IsText}
use cy_prus.Conf.Trim.{parse_line-line_of}
use cy_prus.Conf.Options.{
  Param, CameraContext, Copy, copy_bool, copy_int, copy_string, config_thread, copy_value,
  find_param, set_param, conf_cmdparse, print_value,
}
use cy_prus.Conf.File.{process_line}
use cy_prus.Conf.Print.{
  quotes_needed, shown_value, unset_text, option_text, missing_text, thread_lines,
}
use cy_prus.Conf.Lines.{
  IsBody, is_plain, is_plain_sound, Reads, Reads-line, IsComments, Reads-comment, Reads-IsComments,
}
use cy_prus.Conf.Printable.{
  IsPrintable, IsStored, restore_option, Shown-shown_value, Printed, print_value-Printed,
}

-- An entry of the table that is found by its own name.
pub record IsParam (params : List Param) (p : Param) : Type 0 where
  pub help : IsComments (p.param_help ++ (b'\n' ∷ []))
  pub command : All (λ c. in_command c ≡ true) p.param_name
  pub one_line : IsBody p.param_name
  pub named : 0 < length p.param_name
  pub not_comment : (get_or p.param_name 0 0 == b'#' || get_or p.param_name 0 0 == b';') ≡ false
  pub short : length p.param_name < 1000
  pub found : find_param params p.param_name ≡ some p

sample_line :
    IsBody (codes "; thread /usr/local/etc/thread1.conf")
    × IsText (codes "; thread /usr/local/etc/thread1.conf")
unfolding is_plain
sample_line = is_plain_sound (codes "; thread /usr/local/etc/thread1.conf") refl

-- An option line sets the option to what stands in the line.
module _ (thread : Bytes → List CameraContext → Option (List CameraContext))
    (params : List Param) where
  process_option :
      {p : Param} {shown value : Bytes} (stale : Bytes) (cnt cnt' : List CameraContext)
      → IsParam params p
      → Shown shown value
      → set_param thread (some p) (some value) cnt ≡ some cnt'
      → (b : Bytes) × (process_line thread params
            ((p.param_name ++ (b' ' ∷ shown)) ++ (b'\n' ∷ (0 ∷ stale)))
            cnt
          ≡ some (b, cnt'))
  unfolding process_line conf_cmdparse
  process_option {p} {shown} {value} stale cnt cnt' v s e =
      let w : IsLine [] p.param_name b' ' [] shown = record {
        blanks = tt;
        command = v.command;
        named = v.named;
        not_comment = v.not_comment;
        separator = refl;
        gaps = tt;
      } in
      let r = parse_line-line_of (b'\n' ∷ []) stale w s (refl, tt) in
      (r.0, rw r.1 (rw v.found (rw e refl)))

  set_given :
      (p : Param) (t : Bytes) (cnt : List CameraContext)
      → set_param thread (some p) (some t) cnt ≡ copy_value thread p.copy p.conf_value (some t) cnt
  unfolding set_param
  set_given p t cnt = ground arith

  shown-IsBody : (name s : Bytes) → IsPrintable name s → IsBody (shown_value name s)
  unfolding shown_value
  shown-IsBody name s v = elim (Bool-cases (quotes_needed name s)) [
    | inl marks ↦ rw marks (refl, All-append _ s (b'"' ∷ []) v.one_line (refl, tt))
    | inr bare ↦ rw bare v.one_line
  ]

  shown-le : (name s : Bytes) → IsPrintable name s → length (shown_value name s) ≤ 3002
  unfolding shown_value
  shown-le name s v = ground (arith, v.short, length-append s (b'"' ∷ []))

  some_assoc :
      (help name shown rest : Bytes)
      → (help ++ (b'\n' ∷ (name ++ (b' ' ∷ (shown ++ codes "\n\n"))))) ++ rest
        ≡ (help ++ (b'\n' ∷ [])) ++ ((name ++ (b' ' ∷ shown)) ++ (b'\n' ∷ ([] ++ (b'\n' ∷ rest))))
  some_assoc help name shown rest = simp append_assoc

  Reads-some :
      {p : Param} (t rest : Bytes) (cnt cnt' r : List CameraContext)
      → IsParam params p
      → IsPrintable p.param_name t
      → copy_value thread p.copy p.conf_value (some t) cnt ≡ some cnt'
      → Reads thread params rest cnt' r
      → Reads thread params (option_text 0 [] p (some t) ++ rest) cnt r
  Reads-some {p} t rest cnt cnt' r v s e later =
      let shown : Bytes = shown_value p.param_name t in
      let one_line : IsBody (p.param_name ++ (b' ' ∷ shown)) =
        All-append _ p.param_name (b' ' ∷ shown) v.one_line (refl, shown-IsBody p.param_name t s) in
      let short : length (p.param_name ++ (b' ' ∷ shown)) < 4094 =
        omega
          (arith, length-append p.param_name (b' ' ∷ shown), v.short, shown-le p.param_name t s) in
      let blank = Reads-comment thread params [] rest cnt' r tt tt (omega arith) refl later in
      subst (λ (xs : Bytes). Reads thread params xs cnt r)
        (sym (some_assoc p.param_help p.param_name shown rest))
        (Reads-IsComments thread params _ cnt r v.help (
          Reads-line thread params (p.param_name ++ (b' ' ∷ shown)) ([] ++ (b'\n' ∷ rest)) cnt cnt'
            r one_line short
            (λ stale.
              process_option stale cnt cnt' v (Shown-shown_value p.param_name t s)
                (set_given p t cnt ∙ e))
            blank))

  none_assoc :
      (help name rest : Bytes)
      → (help ++ (b'\n' ∷ (codes "; " ++ (name ++ codes " value\n\n")))) ++ rest
        ≡ (help ++ (b'\n' ∷ []))
          ++ ((codes "; " ++ (name ++ codes " value")) ++ (b'\n' ∷ ([] ++ (b'\n' ∷ rest))))
  none_assoc help name rest = simp append_assoc

  Reads-unset :
      {p : Param} (rest : Bytes) (cnt r : List CameraContext)
      → IsParam params p
      → Reads thread params rest cnt r
      → Reads thread params
          ((p.param_help ++ (b'\n' ∷ (codes "; " ++ (p.param_name ++ codes " value\n\n")))) ++ rest)
          cnt
          r
  Reads-unset {p} rest cnt r v later =
      let body : Bytes = codes "; " ++ (p.param_name ++ codes " value") in
      let one_line : IsBody body = (
        refl,
        (
          refl,
          All-append _ p.param_name (codes " value") v.one_line
              (refl, (refl, (refl, (refl, (refl, (refl, tt)))))),
        ),
      ) in
      let text : IsText body = (
        refl,
        (
          refl,
          All-append _ p.param_name (codes " value") (command-IsText p.param_name v.command)
              (refl, (refl, (refl, (refl, (refl, (refl, tt)))))),
        ),
      ) in
      let short : length body < 4094 =
        omega (arith, length-append p.param_name (codes " value"), v.short) in
      subst (λ (xs : Bytes). Reads thread params xs cnt r)
        (sym (none_assoc p.param_help p.param_name rest))
        (Reads-IsComments thread params _ cnt r v.help (
          Reads-comment thread params body _ cnt r one_line text short (ground arith)
            (Reads-comment thread params [] rest cnt r tt tt (omega arith) refl later)))

  threads_assoc :
      (help rest : Bytes)
      → (help ++ (b'\n' ∷ (b'\n' ∷ codes "; thread /usr/local/etc/thread1.conf\n"))) ++ rest
        ≡ (help ++ (b'\n' ∷ []))
          ++ ([] ++ (b'\n' ∷ (codes "; thread /usr/local/etc/thread1.conf" ++ (b'\n' ∷ rest))))
  threads_assoc help rest = simp append_assoc

  Reads-threads :
      {p : Param} (rest : Bytes) (cnt r : List CameraContext)
      → IsParam params p
      → Reads thread params rest cnt r
      → Reads thread params
          ((p.param_help ++ (b'\n' ∷ (b'\n' ∷ codes "; thread /usr/local/etc/thread1.conf\n")))
            ++ rest)
          cnt
          r
  Reads-threads {p} rest cnt r v later =
      let (one_line, text) = sample_line in
      subst (λ (xs : Bytes). Reads thread params xs cnt r) (sym (threads_assoc p.param_help rest))
        (Reads-IsComments thread params _ cnt r v.help (
          Reads-comment thread params [] _ cnt r tt tt (omega arith) refl (
            Reads-comment thread params (codes "; thread /usr/local/etc/thread1.conf") rest cnt r
              one_line text (omega arith) refl later)))

  unset :
      (p : Param) (k : Copy) (rest : Bytes) (cnt r : List CameraContext)
      → IsParam params p
      → Reads thread params rest cnt r
      → Reads thread params (missing_text k [] p ++ rest) cnt r
  unfolding thread_lines
  unset p copy_bool rest cnt r v later = Reads-unset rest cnt r v later
  unset p copy_int rest cnt r v later = Reads-unset rest cnt r v later
  unset p copy_string rest cnt r v later = Reads-unset rest cnt r v later
  unset p config_thread rest cnt r v later = Reads-threads rest cnt r v later

  printed :
      (p : Param) (c : CameraContext) (rest : Bytes) (cnt r : List CameraContext)
      → IsParam params p
      → Reads thread params rest (restore_option p.copy p.conf_value c cnt) r
      → (t : Option Bytes) → Printed thread p.param_name p.conf_value c p.copy t
      → Reads thread params (option_text 0 [] p t ++ rest) cnt r
  unfolding unset_text
  printed p c rest cnt r v later none same =
      unset p p.copy rest cnt r v
        (subst (λ (xs : List CameraContext). Reads thread params rest xs r) (same cnt) later)
  printed p c rest cnt r v later (some t) h = Reads-some t rest cnt _ r v h.0 (h.1 cnt) later

  -- The text of one option.
  pub Reads-option :
      {p : Param} (c : CameraContext) (rest : Bytes) (cnt r : List CameraContext)
      → IsParam params p
      → IsStored p.copy p.param_name p.conf_value c
      → Reads thread params rest (restore_option p.copy p.conf_value c cnt) r
      → Reads thread params
          (option_text 0 [] p (print_value p.copy p.conf_value 0 c c) ++ rest)
          cnt
          r
  Reads-option {p} c rest cnt r v s later =
      printed p c rest cnt r v later (print_value p.copy p.conf_value 0 c c)
        (print_value-Printed thread p.param_name p.conf_value c p.copy s)
