-- ===== src/Motion/Format/Tests.antt =====
-- Runs and instances for formats.
use cy_prus.Prelude.{arith, ◌≡◌, refl, none, some, [], ◌∷◌, ◌++◌, codes, c_string}
use cy_prus.Prelude.Int.{pos}
use cy_prus.Conf.Number.{print_number}
use cy_prus.Motion.Format.{Values, specifier, mystrftime, expand}
use cy_prus.Motion.Format.Expanded.{
  IsForeign, event, no_text, end, char, fps, value, other, mystrftime-Format, mystrftime_past_end,
}

abbrev values : Values
values = record {
  path_max = 4096;
  event_nr = pos 7;
  shot = pos 3;
  diffs = pos 1500;
  noise = pos 32;
  motion_width = pos 10;
  motion_height = pos 12;
  center_x = pos 100;
  center_y = pos 80;
  threshold = pos 1500;
  total_labels = pos 2;
  threadnr = pos 1;
  text_event_string = [];
  movie_fps = pos 25;
  filename = none;
  sqltype = pos 0;
}

filled_in : mystrftime values (codes "%v-%D %H %fps%" ++ (0 ∷ [])) ≡ some (codes "07-1500 %H 25%")
unfolding mystrftime expand specifier print_number c_string
filled_in = refl

-- The first name after the percent sign is looked at as %f, %fps or %f and more.
file_names :
    mystrftime (record values { filename = some (codes "x.avi") }) (codes "%f%fp%fps" ++ (0 ∷ []))
    ≡ some (codes "x.avix.avip25")
unfolding mystrftime expand specifier print_number c_string
file_names = refl

hours : IsForeign b'H'
hours = (
  refl,
  (
    refl,
    (
      refl,
      (refl, (refl, (refl, (refl, (refl, (refl, (refl, (refl, (refl, (refl, (refl, tt))))))))))),
    ),
  ),
)

format_example : mystrftime values (codes "%v%fps%H" ++ (0 ∷ [])) ≡ some (c_string (codes "0725%H"))
unfolding print_number
format_example =
    mystrftime-Format values {s = codes "%v%fps%H"} {out = codes "0725%H"} []
      (value {d = b'v'} {c = b'0'} {cs = codes "7"} refl refl event
        (fps {ds = codes "%H"} {out = codes "%H"} (other {d = b'H'} refl hours end)))
      (omega arith)

past_end_example : mystrftime values (codes "a" ++ (b'%' ∷ (b'C' ∷ (0 ∷ [])))) ≡ none
past_end_example = mystrftime_past_end values b'C' (char {c = b'a'} refl refl end) (no_text refl)
