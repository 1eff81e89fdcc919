-- ===== src/Conf/Print.antt =====
-- conf_print writes the options of a context as a configuration file.
use cy_prus.Prelude.{
  ℕ, Bool, ◌&&◌, ◌==◌, if◌then◌else◌, Option, none, some, List, [], ◌∷◌, ◌++◌, take, Bytes, codes,
}
use cy_prus.Conf.Options.{Param, CameraContext, Copy, config_thread, same, print_value}

abbrev newline : Bytes
newline = b'\n' ∷ []

-- The options named text… keep blanks at the start of their values by quotation marks.
unfoldable pub quotes_needed : Bytes → Bytes → Bool
quotes_needed name retval = same (take 4 name) (codes "text") && same (take 1 retval) (b' ' ∷ [])

unfoldable pub shown_value : Bytes → Bytes → Bytes
shown_value name retval =
    if quotes_needed name retval then b'"' ∷ (retval ++ (b'"' ∷ [])) else retval

-- `thread f` for every context behind the main one.
unfoldable pub thread_lines : List CameraContext → Bytes
thread_lines [] = []
thread_lines (c ∷ rest) = codes "thread " ++ (c.conf_filename ++ (b'\n' ∷ thread_lines rest))

abbrev sample_thread : Bytes → Bytes
sample_thread [] = codes "; thread /usr/local/etc/thread1.conf\n"
sample_thread (_ ∷ _) = []

-- What stands for an option with no value, by the function that prints it.
abbrev pub missing_text : Copy → List CameraContext → Param → Bytes
missing_text config_thread threads p =
    p.param_help
    ++ (b'\n' ∷ (thread_lines threads ++ (b'\n' ∷ sample_thread (thread_lines threads))))
missing_text _ threads p =
    p.param_help ++ (b'\n' ∷ (codes "; " ++ (p.param_name ++ codes " value\n\n")))

unfoldable pub unset_text : ℕ → List CameraContext → Param → Bytes
unset_text threadnr threads p = if threadnr == 0 then missing_text p.copy threads p else []

abbrev pub option_text : ℕ → List CameraContext → Param → Option Bytes → Bytes
option_text threadnr threads p none = unset_text threadnr threads p
option_text threadnr threads p (some retval) =
    p.param_help
    ++ (b'\n' ∷ (p.param_name ++ (b' ' ∷ (shown_value p.param_name retval ++ codes "\n\n"))))

-- The options of thread `threadnr`, whose context is `c`; `threads` are the contexts behind the main
-- one.
unfoldable pub options_text :
    ℕ → CameraContext → CameraContext → List CameraContext → List Param → Bytes
options_text threadnr main c threads [] = []
options_text threadnr main c threads (p ∷ params) =
    option_text threadnr threads p (print_value p.copy p.conf_value threadnr main c)
    ++ options_text threadnr main c threads params

-- The file of one context.
unfoldable pub conf_print :
    Bytes → ℕ → CameraContext → CameraContext → List CameraContext → List Param → Bytes
conf_print version threadnr main c threads params =
    codes "# "
    ++ (c.conf_filename
        ++ (codes "\n#\n# This config file was generated by motion "
            ++ (version
                ++ (codes "\n\n\n" ++ (options_text threadnr main c threads params ++ newline)))))
