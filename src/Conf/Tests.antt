-- ===== src/Conf/Tests.antt =====
-- Runs and instances for the configuration.
use cy_prus.Prelude.{
  ◌<◌, ◌≡◌, inl, inr, refl, true, false, ◌==◌, if◌then◌else◌, none, some, List, [], ◌∷◌, ◌++◌,
  arith, Bytes, codes, All, length, is_char,
}
use cy_prus.Prelude.Int.{pos, negsuc}
use cy_prus.Conf.Line.{option, parse_line}
use cy_prus.Conf.Written.{IsLine, quoted, plain}
use cy_prus.Conf.Trim.{parse_line-line_of, parse_line_blank, parse_line_stale}
use cy_prus.Conf.Number.{print_number, atoi}
use cy_prus.Conf.Options.{
  Param, CameraContext, copy_bool, copy_int, copy_string, config_thread, find_param, same_start,
  same_caseless, same, to_lower,
}
use cy_prus.Conf.File.{conf_process, load_thread}
use cy_prus.Conf.Print.{conf_print, quotes_needed}
use cy_prus.Conf.Lines.{is_plain, is_plain_sound, IsComments, comment, done}
use cy_prus.Conf.RoundTrip.{IsParam}
use cy_prus.Conf.Agreement.{Agrees, conf_process-conf_print}
use cy_prus.Conf.Nested.{load_thread_nested}

printed : print_number (negsuc 41) ≡ codes "-42"
unfolding print_number
printed = refl

read_back : atoi (codes " -42x") ≡ negsuc 41
unfolding atoi
read_back = refl

text-IsLine : IsLine (codes " ") (codes "text_left") b'\t' (codes "= ") (codes "\" a\"")
text-IsLine = record {
  blanks = (refl, tt);
  command = (refl, (refl, (refl, (refl, (refl, (refl, (refl, (refl, (refl, tt)))))))));
  named = omega arith;
  not_comment = refl;
  separator = refl;
  gaps = (refl, (refl, tt));
}

spaces_example :
    (l : Bytes) × (parse_line (codes " text_left\t= \" a\"" ++ (codes "\r\n" ++ (0 ∷ codes "old")))
      ≡ some (l, option (codes "text_left") (some (codes " a"))))
spaces_example =
    parse_line-line_of (codes "\r\n") (codes "old") text-IsLine
      (quoted {mark = b'"'} {value = codes " a"} (inl refl) (refl, (refl, tt))) (refl, (refl, tt))

blank_example : parse_line (codes " \n" ++ (0 ∷ [])) ≡ none
blank_example = parse_line_blank (codes " \n") [] (refl, (refl, tt)) (omega arith)

stale_example :
    (l : Bytes) × (parse_line (codes "logfile" ++ (0 ∷ (codes " " ++ (codes "on" ++ (0 ∷ [])))))
      ≡ some (l, option (codes "logfile") (some (codes "on"))))
stale_example =
    parse_line_stale (codes "logfile") (codes " ") []
      (refl, (refl, (refl, (refl, (refl, (refl, (refl, tt))))))) (omega arith) refl refl (refl, tt)
      (plain {c = b'o'} {cs = codes "n"} (refl, (refl, tt)) refl refl refl)

abbrev daemon : Param
daemon = record {
  param_name = codes "daemon";
  param_help = codes "# mode\n\n# of work";
  conf_value = 3;
  copy = copy_bool;
}

abbrev threshold : Param
threshold = record {
  param_name = codes "threshold";
  param_help = codes "# pixels";
  conf_value = 4;
  copy = copy_int;
}

abbrev text_left : Param
text_left = record {
  param_name = codes "text_left";
  param_help = codes "# text";
  conf_value = 5;
  copy = copy_string;
}

abbrev thread_param : Param
thread_param = record {
  param_name = codes "thread";
  param_help = codes "# files";
  conf_value = 0;
  copy = config_thread;
}

abbrev table : List Param
table = daemon ∷ (threshold ∷ (text_left ∷ (thread_param ∷ [])))

abbrev camera : CameraContext
camera = record {
  threadnr = 0;
  conf_filename = codes "motion.conf";
  numbers = λ k. if k == 4 then pos 1500 else pos 1;
  strings = λ k. some (codes " a");
}

abbrev fresh : CameraContext
fresh = record { threadnr = 0; conf_filename = []; numbers = λ k. pos 0; strings = λ k. none }

help_line :
    (xs : Bytes)
    → is_plain (b'#' ∷ xs) ≡ true
    → length xs < 4000
    → IsComments ((b'#' ∷ xs) ++ (b'\n' ∷ []))
help_line xs e short =
    let r = is_plain_sound (b'#' ∷ xs) e in
    comment (b'#' ∷ xs) [] r.0 r.1 (omega arith) (ground arith) done

daemon-IsParam : IsParam table daemon
unfolding find_param same_start same_caseless same to_lower is_plain
daemon-IsParam = record {
  help =
      let r = is_plain_sound (codes "# mode") refl in
      comment (codes "# mode") (codes "\n# of work\n") r.0 r.1 (omega arith) refl (
        comment [] (codes "# of work\n") tt tt (omega arith) refl
          (help_line (codes " of work") refl (omega arith)));
  command = (refl, (refl, (refl, (refl, (refl, (refl, tt))))));
  one_line = (is_plain_sound (codes "daemon") refl).0;
  named = omega arith;
  not_comment = refl;
  short = omega arith;
  found = refl;
}

threshold-IsParam : IsParam table threshold
unfolding find_param same_start same_caseless same to_lower is_plain
threshold-IsParam = record {
  help = help_line (codes " pixels") refl (omega arith);
  command = (refl, (refl, (refl, (refl, (refl, (refl, (refl, (refl, (refl, tt)))))))));
  one_line = (is_plain_sound (codes "threshold") refl).0;
  named = omega arith;
  not_comment = refl;
  short = omega arith;
  found = refl;
}

text_left-IsParam : IsParam table text_left
unfolding find_param same_start same_caseless same to_lower is_plain
text_left-IsParam = record {
  help = help_line (codes " text") refl (omega arith);
  command = (refl, (refl, (refl, (refl, (refl, (refl, (refl, (refl, (refl, tt)))))))));
  one_line = (is_plain_sound (codes "text_left") refl).0;
  named = omega arith;
  not_comment = refl;
  short = omega arith;
  found = refl;
}

thread_param-IsParam : IsParam table thread_param
unfolding find_param same_start same_caseless same to_lower is_plain
thread_param-IsParam = record {
  help = help_line (codes " files") refl (omega arith);
  command = (refl, (refl, (refl, (refl, (refl, (refl, tt))))));
  one_line = (is_plain_sound (codes "thread") refl).0;
  named = omega arith;
  not_comment = refl;
  short = omega arith;
  found = refl;
}

quotes_example : quotes_needed (codes "text_left") (codes " a") ≡ true
unfolding quotes_needed same
quotes_example = refl

file_name :
    All (λ c. (c == b'\n') ≡ false) (codes "motion.conf")
    × All (λ c. is_char c ≡ true) (codes "motion.conf")
unfolding is_plain
file_name = is_plain_sound (codes "motion.conf") refl

conf_example :
    (r : List CameraContext) × (conf_process
        (λ str cnt. none)
        table
        []
        (conf_print (codes "4.0") 0 camera camera [] table)
        (fresh ∷ (fresh ∷ []))
      ≡ some r)
    × All (Agrees camera table) r
conf_example =
    conf_process-conf_print (λ str cnt. none) table camera (codes "4.0") [] (fresh ∷ (fresh ∷ []))
      (record {
        text = (refl, (refl, (refl, tt)));
        one_line = (refl, (refl, (refl, tt)));
        short = omega arith;
      })
      (record { text = file_name.1; one_line = file_name.0; short = omega arith })
      (
        (daemon-IsParam, inr refl),
        (
          (threshold-IsParam, (omega arith, omega arith)),
          (
            (
              text_left-IsParam,
              record {
                text = (refl, (refl, tt));
                one_line = (refl, (refl, tt));
                some_byte = omega arith;
                short = omega arith;
                shown = inl quotes_example;
              },
            ),
            ((thread_param-IsParam, tt), tt),
          ),
        ),
      )
      refl

thread-IsLine : IsLine [] (codes "thread") b' ' [] (codes "b")
thread-IsLine = record {
  blanks = tt;
  command = (refl, (refl, (refl, (refl, (refl, (refl, tt))))));
  named = omega arith;
  not_comment = refl;
  separator = refl;
  gaps = tt;
}

nested_example :
    load_thread (λ str. some (codes "thread b\n")) [] table (codes "a") (camera ∷ []) ≡ none
nested_example =
    load_thread_nested (λ str. some (codes "thread b\n")) [] table (codes "a") []
      (codes "thread b\n") camera [] thread_param thread-IsLine
      (plain {c = b'b'} {cs = []} (refl, tt) refl refl refl)
      (refl, (refl, (refl, (refl, (refl, (refl, (refl, (refl, tt)))))))) (omega arith)
      thread_param-IsParam.found refl refl refl refl
