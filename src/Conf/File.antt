-- ===== src/Conf/File.antt =====
-- conf_process reads a whole file into the contexts, and config_thread adds a context for a thread
-- file. The open files are the bytes still to be read.
use cy_prus.Prelude.{
  ℕ, zero, suc, ◌-◌, ◌==◌, if◌then◌else◌, truth, Option, none, some, List, [], ◌∷◌, ◌++◌, length,
  drop, Bytes, ◌>>=◌,
}
use cy_prus.Conf.Line.{Command, skipped, option, parse_line}
use cy_prus.Conf.Options.{
  Param, CameraContext, path_max, mystrdup, is_string, put_string, conf_cmdparse,
}

abbrev pub put_first : ℕ → Bytes × Bytes → Bytes × Bytes
put_first c (taken, rest) = (c ∷ taken, rest)

-- At most `n` bytes, up to and with the first newline, and what is left.
unfoldable pub take_line : ℕ → Bytes → Bytes × Bytes
take_line zero file = ([], file)
take_line (suc n) [] = ([], [])
take_line (suc n) (c ∷ cs) = if c == b'\n' then (c ∷ [], cs) else put_first c (take_line n cs)

-- The line goes to the start of the buffer, with a zero behind it.
abbrev pub into : Bytes → Bytes × Bytes → Bytes × Bytes
into line (taken, rest) = (taken ++ (0 ∷ drop (suc (length taken)) line), rest)

-- `fgets(line, size, fp)`: the new buffer and the rest of the file; `none` at its end.
unfoldable pub fgets : ℕ → Bytes → Bytes → Option (Bytes × Bytes)
fgets size line [] = none
fgets size line (c ∷ cs) = some (into line (take_line (size - 1) (c ∷ cs)))

-- What is done with the line that fgets has read, if there is one.
abbrev pub then_line :
    List CameraContext
    → (Bytes → Bytes → Option (List CameraContext))
    → Option (Bytes × Bytes)
    → Option (List CameraContext)
then_line cnt next none = some cnt
then_line cnt next (some (line, rest)) = next line rest

module _ (thread : Bytes → List CameraContext → Option (List CameraContext))
    (params : List Param) where
  abbrev pub obey : Command → List CameraContext → Option (List CameraContext)
  obey skipped cnt = some cnt
  obey (option cmd arg) cnt = conf_cmdparse thread params cmd arg cnt

  -- One line that fgets has read.
  unfoldable pub process_line : Bytes → List CameraContext → Option (Bytes × List CameraContext)
  process_line line cnt = parse_line line >>= λ r. obey r.1 cnt >>= λ cnt'. some (r.0, cnt')

  unfoldable pub process_lines :
      ℕ → Bytes → Bytes → List CameraContext → Option (List CameraContext)
  process_lines zero line file cnt = some cnt
  process_lines (suc fuel) line file cnt =
      then_line cnt (λ line' rest. process_line line' cnt >>= λ r. process_lines fuel r.0 rest r.1)
        (fgets (path_max - 1) line file)

  -- Each line takes at least one byte of the file.
  unfoldable pub conf_process : Bytes → Bytes → List CameraContext → Option (List CameraContext)
  conf_process line file cnt = process_lines (length file) line file cnt

-- Inside a thread file the contexts do not start their allocation, so that a thread option that
-- finds its file passes an inner pointer to realloc.
unfoldable pub nested_thread :
    (Bytes → Option Bytes) → Bytes → List CameraContext → Option (List CameraContext)
nested_thread files str [] = none
nested_thread files str (c ∷ rest) =
    if truth c.threadnr
    then some (c ∷ rest)
    else elim (files str) [ none ↦ some (c ∷ rest) | some _ ↦ none ]

-- The copies get their own strings, for every option that is one.
unfoldable pub malloc_strings : List Param → CameraContext → CameraContext
malloc_strings [] c = c
malloc_strings (p ∷ params) c =
    malloc_strings params (
      if is_string p.copy then put_string p.conf_value (mystrdup (c.strings p.conf_value)) c else c)

abbrev pub join_last : List CameraContext → List CameraContext → List CameraContext
join_last cnt fresh = cnt ++ fresh

-- `files` opens a file by its name, and `line` is what the buffer of the inner call holds at first.
unfoldable pub load_thread :
    (Bytes → Option Bytes)
    → Bytes
    → List Param
    → Bytes
    → List CameraContext
    → Option (List CameraContext)
load_thread files line params str [] = none
load_thread files line params str (c ∷ rest) =
    if truth c.threadnr then some (c ∷ rest) else elim (files str) [
      | none ↦ some (c ∷ rest)
      | some file ↦
          conf_process (nested_thread files) params line file
            (record (malloc_strings params c) { conf_filename = str } ∷ [])
          >>= λ fresh. some (join_last (c ∷ rest) fresh)
    ]

-- conf_process on the main file.
unfoldable pub load_main :
    (Bytes → Option Bytes)
    → Bytes
    → List Param
    → Bytes
    → Bytes
    → List CameraContext
    → Option (List CameraContext)
load_main files inner params line file cnt =
    conf_process (load_thread files inner params) params line file cnt
