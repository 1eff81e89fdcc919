-- ===== src/Conf/Line.antt =====
-- One round of conf_process: the line in its buffer is cut into a command and an argument. All
-- pointers are indices into the buffer `line`, whose bytes behind the text are those of earlier
-- lines; `none` is an access outside the buffer.
use cy_prus.Prelude.{
  ℕ, zero, suc, ◌+◌, ◌-◌, Bool, not, ◌&&◌, ◌||◌, ◌==◌, ltb, if◌then◌else◌, Option, none, some,
  get_or, set, drop, Bytes, run_of, strlen, c_string, ◌>>=◌,
}

pub data Command : Type 0 where
  skipped : Command
  option : Bytes → Option Bytes → Command

abbrev pub is_blank : ℕ → Bool
is_blank c = c == b' ' || c == b'\t'

-- What is trimmed at the end of a line.
abbrev pub is_space : ℕ → Bool
is_space c = is_blank c || (c == b'\n' || c == b'\r')

abbrev pub in_command : ℕ → Bool
in_command c = not (is_blank c) && (not (c == b'=') && not (c == 0))

-- What is skipped between the command and its argument.
abbrev pub is_gap : ℕ → Bool
is_gap c = is_blank c || (c == b'=' || (c == b'\n' || c == b'\r'))

-- `while (is_space(*end)) end--`, from `end = line + n - 1`; the result is one more than `end`.
unfoldable pub trim_end : Bytes → ℕ → Option ℕ
trim_end line zero = none
trim_end line (suc n) = if is_space (get_or line n 0) then trim_end line n else some (suc n)

abbrev pub quoted_by : ℕ → ℕ → ℕ → Bool
quoted_by mark first last = first == mark && last == mark

abbrev pub is_quoted : ℕ → ℕ → Bool
is_quoted first last = quoted_by b'"' first last || quoted_by b'\'' first last

abbrev pub argument : Bytes → ℕ → ℕ → Bytes × Command
argument line cmd beg = (line, option (c_string (drop cmd line)) (some (c_string (drop beg line))))

-- The argument starts at `beg` and has `n` bytes.
unfoldable pub strip_quotes : Bytes → ℕ → ℕ → ℕ → Bytes × Command
strip_quotes line cmd beg n =
    if is_quoted (get_or line beg 0) (get_or line (beg + n - 1) 0)
    then argument (set line (beg + n - 1) 0) cmd (beg + 1)
    else argument line cmd beg

-- The rest of the line from `beg` has `n` bytes.
unfoldable pub argument_from : Bytes → ℕ → ℕ → ℕ → Option (Bytes × Command)
argument_from line cmd beg n =
    let found = run_of is_gap (drop beg line) >>= λ gap.
    strlen (drop (beg + gap) line) >>= λ left. some (strip_quotes line cmd (beg + gap) left) in
    if n == 0 then some (line, option (c_string (drop cmd line)) none) else found

unfoldable pub argument_of : Bytes → ℕ → ℕ → Option (Bytes × Command)
argument_of line cmd beg = do n ← strlen (drop beg line); argument_from line cmd beg n

unfoldable pub command_of : Bytes → Option (Bytes × Command)
command_of line = do
  cmd ← run_of is_blank line
  n ← run_of in_command (drop cmd line)
  argument_of (set line (cmd + n) 0) cmd (cmd + n + 1)

unfoldable pub trimmed : Bytes → Option (Bytes × Command)
trimmed line = strlen line >>= λ n. if n == 0 then some (line, skipped) else command_of line

unfoldable pub parse_text : Bytes → ℕ → Option (Bytes × Command)
parse_text line n =
    let cut = trim_end line n >>= λ e. trimmed (set line e 0) in
    if get_or line 0 0 == b'#' || (get_or line 0 0 == b';' || ltb n 2)
    then some (line, skipped)
    else cut

-- The buffer after one round, and what goes to conf_cmdparse.
unfoldable pub parse_line : Bytes → Option (Bytes × Command)
parse_line line = do n ← strlen line; parse_text line n
