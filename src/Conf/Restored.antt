-- ===== src/Conf/Restored.antt =====
-- The whole file that conf_print writes for a single camera gives its options back.
use mathlib.Core.List.{append_assoc}
use mathlib.Core.Path.{subst}
use cy_prus.Prelude.{
  ◌<◌, ◌≡◌, refl, sym, Option, List, [], ◌∷◌, ◌++◌, arith, length, Bytes, All, IsText, All-append,
  codes,
}
use cy_prus.Conf.Options.{Param, CameraContext, print_value}
use cy_prus.Conf.Print.{option_text, options_text, conf_print}
use cy_prus.Conf.Lines.{IsBody, is_plain, is_plain_sound, Reads, Reads-end, Reads-comment}
use cy_prus.Conf.Printable.{IsStored, restore_option}
use cy_prus.Conf.RoundTrip.{IsParam, Reads-option}

abbrev pub restore : CameraContext → List Param → List CameraContext → List CameraContext
restore c [] cnt = cnt
restore c (p ∷ params) cnt = restore c params (restore_option p.copy p.conf_value c cnt)

-- The options that a context can write, in a table where each is found by its name.
abbrev pub IsTable : List Param → CameraContext → List Param → Type 0
IsTable params c = All (λ p. IsParam params p × IsStored p.copy p.param_name p.conf_value c)

header_assoc :
    (name version rest : Bytes)
    → codes "# "
        ++ (name
            ++ (codes "\n#\n# This config file was generated by motion "
                ++ (version ++ (codes "\n\n\n" ++ rest))))
      ≡ (codes "# " ++ name)
        ++ (b'\n'
            ∷ (codes "#"
                ++ (b'\n'
                    ∷ ((codes "# This config file was generated by motion " ++ version)
                        ++ (b'\n' ∷ ([] ++ (b'\n' ∷ ([] ++ (b'\n' ∷ rest)))))))))
header_assoc name version rest = simp append_assoc

-- A name or version that fits in a comment line.
pub record IsTitle (xs : Bytes) : Type 0 where
  pub text : IsText xs
  pub one_line : IsBody xs
  pub short : length xs < 4000

made :
    IsBody (codes "# This config file was generated by motion ")
    × IsText (codes "# This config file was generated by motion ")
unfolding is_plain
made = is_plain_sound (codes "# This config file was generated by motion ") refl

module _ (thread : Bytes → List CameraContext → Option (List CameraContext)) (table : List Param)
    (c : CameraContext) where
  Reads-options :
      (params : List Param) (rest : Bytes) (cnt r : List CameraContext)
      → IsTable table c params
      → Reads thread table rest (restore c params cnt) r
      → Reads thread table (options_text 0 c c [] params ++ rest) cnt r
  unfolding options_text
  Reads-options [] rest cnt r v later = later
  Reads-options (p ∷ params) rest cnt r v later =
      subst (λ (xs : Bytes). Reads thread table xs cnt r)
        (sym (
          append_assoc (option_text 0 [] p (print_value p.copy p.conf_value 0 c c))
            (options_text 0 c c [] params) rest))
        (Reads-option thread table c (options_text 0 c c [] params ++ rest) cnt r v.0.0 v.0.1
          (Reads-options params rest (restore_option p.copy p.conf_value c cnt) r v.1 later))

  pub conf_print-Reads :
      (version : Bytes) (cnt : List CameraContext)
      → IsTitle version
      → IsTitle c.conf_filename
      → IsTable table c table
      → Reads thread table (conf_print version 0 c c [] table) cnt (restore c table cnt)
  unfolding conf_print
  conf_print-Reads version cnt v n t =
      let whole : List CameraContext = restore c table cnt in
      let (made_line, made_text) = made in
      let options = Reads-options table (b'\n' ∷ []) cnt whole t (
        Reads-comment thread table [] [] whole whole tt tt (omega arith) refl
          (Reads-end thread table whole)) in
      subst (λ (xs : Bytes). Reads thread table xs cnt whole)
        (sym (header_assoc c.conf_filename version (options_text 0 c c [] table ++ (b'\n' ∷ []))))
        (Reads-comment thread table (codes "# " ++ c.conf_filename) _ cnt whole
          (refl, (refl, n.one_line)) (refl, (refl, n.text)) (omega (arith, n.short)) (ground arith)
          (Reads-comment thread table (codes "#") _ cnt whole (refl, tt) (refl, tt) (omega arith)
            refl
            (Reads-comment thread table
              (codes "# This config file was generated by motion " ++ version) _ cnt whole
              (All-append _ (codes "# This config file was generated by motion ") version made_line
                v.one_line)
              (All-append _ (codes "# This config file was generated by motion ") version made_text
                v.text)
              (omega (arith, v.short)) (ground arith)
              (Reads-comment thread table [] _ cnt whole tt tt (omega arith) refl
                (Reads-comment thread table [] _ cnt whole tt tt (omega arith) refl options)))))
