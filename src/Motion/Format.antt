-- ===== src/Motion/Format.antt =====
-- mystrftime fills in Motion's own specifiers, and hands the rest to strftime. The format is read in
-- its buffer; `none` is a read outside it, or a write outside formatstring.
pub mod Expanded
mod Tests
use cy_prus.Prelude.{
  ℕ, zero, suc, ◌+◌, ◌-◌, Bool, true, false, ◌&&◌, ◌==◌, ltb, if◌then◌else◌, Option, none, some,
  List, [], ◌∷◌, ◌++◌, length, get_or, drop, take, Bytes, c_string, ◌>>=◌,
}
use cy_prus.Prelude.Int.{ℤ, pos}
use cy_prus.Conf.Number.{print_number}

-- What the specifiers stand for, and PATH_MAX, the size of formatstring and tempstring.
pub record Values : Type 0 where
  pub path_max : ℕ
  pub event_nr : ℤ
  pub shot : ℤ
  pub diffs : ℤ
  pub noise : ℤ
  pub motion_width : ℤ
  pub motion_height : ℤ
  pub center_x : ℤ
  pub center_y : ℤ
  pub threshold : ℤ
  pub total_labels : ℤ
  pub threadnr : ℤ
  pub text_event_string : Bytes
  pub movie_fps : ℤ
  pub filename : Option Bytes
  pub sqltype : ℤ

-- `%02d`
abbrev pub two_places : ℤ → Bytes
two_places z = if ltb (length (print_number z)) 2 then b'0' ∷ print_number z else print_number z

-- `text` is what `tempstr` holds, `absent` a specifier without a value, which takes one more
-- character of the format, and `foreign` one of strftime.
pub data Specifier : Type 0 where
  text : Bytes → Specifier
  absent foreign : Specifier

-- snprintf of `%s` to a buffer of `size` bytes.
abbrev pub cut_to : ℕ → Bytes → Bytes
cut_to size s = take (size - 1) s

abbrev pub text_or_absent : ℕ → Bytes → Specifier
text_or_absent size [] = absent
text_or_absent size (c ∷ cs) = text (cut_to size (c ∷ cs))

abbrev pub file_text : ℕ → Option Bytes → Specifier
file_text size none = absent
file_text size (some name) = text (cut_to size name)

abbrev pub is_nonzero : ℤ → Bool
is_nonzero (pos zero) = false
is_nonzero _ = true

unfoldable pub specifier : Values → ℕ → Specifier
specifier v c =
    if c == b'v'
    then text (two_places v.event_nr)
    else if c == b'q'
    then text (two_places v.shot)
    else if c == b'D'
    then text (print_number v.diffs)
    else if c == b'N'
    then text (print_number v.noise)
    else if c == b'i'
    then text (print_number v.motion_width)
    else if c == b'J'
    then text (print_number v.motion_height)
    else if c == b'K'
    then text (print_number v.center_x)
    else if c == b'L'
    then text (print_number v.center_y)
    else if c == b'o'
    then text (print_number v.threshold)
    else if c == b'Q'
    then text (print_number v.total_labels)
    else if c == b't'
    then text (print_number v.threadnr)
    else if c == b'C'
    then text_or_absent v.path_max v.text_event_string
    else if c == b'f'
    then file_text v.path_max v.filename
    else if c == b'n'
    then (if is_nonzero v.sqltype then text (print_number v.sqltype) else absent)
    else foreign

-- What stands behind the format made so far.
abbrev pub put_before : Bytes → Option Bytes → Option Bytes
put_before xs none = none
put_before xs (some ys) = some (xs ++ ys)

-- The character at the pointer is copied, whatever it is.
abbrev pub copy_char : (Bytes → Option Bytes) → Bytes → Option Bytes
copy_char loop [] = none
copy_char loop (c ∷ cs) = put_before (c ∷ []) (loop cs)

-- Behind the percent sign: `d` is the character there, and `ds` the rest.
abbrev pub use_specifier : (Bytes → Option Bytes) → ℕ → Bytes → Specifier → Option Bytes
use_specifier loop d ds foreign = put_before (b'%' ∷ (d ∷ [])) (loop ds)
use_specifier loop d ds absent = copy_char loop ds
use_specifier loop d ds (text []) = put_before (d ∷ []) (loop ds)
use_specifier loop d ds (text (c ∷ cs)) = put_before (c ∷ cs) (loop ds)

abbrev pub is_fps : ℕ → Bytes → Bool
is_fps d ds = d == b'f' && (get_or ds 0 0 == b'p' && get_or ds 1 0 == b's')

abbrev pub after_percent : Values → (Bytes → Option Bytes) → Bytes → Option Bytes
after_percent v loop [] = none
after_percent v loop (d ∷ ds) =
    if d == 0
    then put_before (b'%' ∷ []) (loop (d ∷ ds))
    else if is_fps d ds
    then put_before (print_number v.movie_fps) (loop (drop 2 ds))
    else use_specifier loop d ds (specifier v d)

abbrev pub next_char : Values → (Bytes → Option Bytes) → Bytes → Option Bytes
next_char v loop [] = none
next_char v loop (c ∷ cs) =
    if c == 0
    then some []
    else if c == b'%'
    then after_percent v loop cs
    else put_before (c ∷ []) (loop cs)

-- Each round reads at least one byte of the buffer.
unfoldable pub expand : Values → ℕ → Bytes → Option Bytes
expand v zero format = none
expand v (suc fuel) format = next_char v (expand v fuel) format

-- The format that strftime gets, where it and its terminating zero have room in formatstring.
unfoldable pub mystrftime : Values → Bytes → Option Bytes
mystrftime v userformat = expand v (length userformat) userformat >>= λ format.
    if ltb (length format) v.path_max then some (c_string format) else none
