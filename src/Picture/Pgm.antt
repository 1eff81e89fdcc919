-- ===== src/Picture/Pgm.antt =====
-- get_pgm reads the fixed mask. The open file is the bytes still to be read, `memory` what mymalloc
-- gives, and what sscanf reads from a line is a parameter.
use cy_prus.Prelude.{
  ℕ, zero, suc, ◌+◌, ◌-◌, ◌*◌, ◌/◌, ◌%◌, Bool, false, ◌==◌, not, ◌||◌, ◌&&◌, if◌then◌else◌, Option,
  none, some, List, length, get_or, set, take, drop, rounds, Bytes, codes, c_string,
}
use cy_prus.Prelude.Int.{ℤ, pos, negsuc}
use cy_prus.Conf.File.{fgets}
use cy_prus.Conf.Options.{same, same_number}

-- `divided` is a division by zero.
pub data Mask : Type 0 where
  refused divided : Mask
  loaded : List ℕ → Mask

-- `byte * 255 / maxval`, as an unsigned char, for a maximum that is not 0.
abbrev pub scaled : ℤ → ℕ → ℕ
scaled (pos m) byte = byte * 255 / m % 256
scaled (negsuc m) byte = (256 - byte * 255 / suc m % 256) % 256

-- A row: fread, which may find fewer bytes, and the scaling.
unfoldable pub read_row : ℤ → ℕ → Bytes → ℕ → List ℕ → List ℕ
read_row maxval width bytes y image =
    rounds (λ x im. set im (y * width + x) (scaled maxval (get_or im (y * width + x) 0))) width
      (rounds (λ x im. set im (y * width + x) (get_or bytes x 0)) (length bytes) image)

unfoldable pub read_rows : ℤ → ℕ → ℕ → Bytes → List ℕ → List ℕ × Bytes
read_rows maxval width height file memory =
    rounds
      (λ y s. (read_row maxval width (take width s.1) y s.0, drop (length (take width s.1)) s.1))
      height (memory, file)

abbrev pub skip_more :
    (Bytes → Bytes → Option (Bytes × Bytes)) → Option (Bytes × Bytes) → Option (Bytes × Bytes)
skip_more loop none = none
skip_more loop (some (line, rest)) =
    let more = loop line rest in if get_or line 0 0 == b'#' then more else some (line, rest)

-- The first line that is no comment; each line has at least one byte.
unfoldable pub skip_comments : ℕ → Bytes → Bytes → Option (Bytes × Bytes)
skip_comments zero line file = none
skip_comments (suc fuel) line file = skip_more (skip_comments fuel) (fgets 255 line file)

abbrev pub is_zero : ℤ → Bool
is_zero (pos m) = m == 0
is_zero (negsuc m) = false

module _ (scan_two : Bytes → Option (ℤ × ℤ)) (scan_one : Bytes → Option ℤ) (memory : List ℕ)
    (width height : ℕ) where
  abbrev pub load_rows : Bytes → Option ℤ → Mask
  load_rows file none = refused
  load_rows file (some maxval) =
      if is_zero maxval && not (width * height == 0)
      then divided
      else loaded (read_rows maxval width height file memory).0

  abbrev pub load_scaled : Option (Bytes × Bytes) → Mask
  load_scaled none = refused
  load_scaled (some (line, file)) = load_rows file (scan_one (c_string line))

  abbrev pub check_size : Bytes → Bytes → Option (ℤ × ℤ) → Mask
  check_size line file none = refused
  check_size line file (some (x, y)) =
      if not (same_number x (pos width)) || not (same_number y (pos height))
      then refused
      else load_scaled (skip_comments (length file + 1) line file)

  abbrev pub load_sized : Option (Bytes × Bytes) → Mask
  load_sized none = refused
  load_sized (some (line, file)) = check_size line file (scan_two (c_string line))

  abbrev pub load_magic : Option (Bytes × Bytes) → Mask
  load_magic none = refused
  load_magic (some (line, file)) =
      if not (same (take 2 (c_string line)) (codes "P5"))
      then refused
      else load_sized (skip_comments (length file + 1) line file)

  -- `line` is what the line buffer holds at first.
  unfoldable pub get_pgm : Bytes → Bytes → Mask
  get_pgm line picture = load_magic (fgets 255 line picture)
