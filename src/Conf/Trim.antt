-- ===== src/Conf/Trim.antt =====
-- The white space at the end of a line is cut off, and a line of white space alone makes the
-- trimming loop leave the buffer.
use mathlib.Core.List.{append_assoc}
use cy_prus.Prelude.{
  ℕ, zero, suc, ◌+◌, ◌-◌, ◌<◌, ◌≡◌, refl, sym, ap, ◌∙◌, true, false, ◌==◌, ◌||◌, ltb, none, some,
  [], ◌∷◌, ◌++◌, arith, ≢→==,
}
use cy_prus.Prelude.{
  length, get_or, set, drop, get_or-append_left, length-append, Bytes, All, IsText, run_of,
  run_of-append, strlen, strlen-append, drop-append, set-append, All-append,
}
use cy_prus.Conf.Line.{
  option, is_blank, is_space, in_command, is_gap, trim_end, command_of, trimmed, parse_text,
  parse_line,
}
use cy_prus.Conf.Written.{
  Shown, Shown-Ends, at_drop, gap-IsText, IsLine, line_of, line_assoc, command_of_lem, blank-IsText,
  command-IsText, command_first, run_of-shown, argument_of_lem,
}

All-at :
    (xs : Bytes) (j : ℕ)
    → All (λ c. is_space c ≡ true) xs
    → j < length xs
    → is_space (get_or xs j 0) ≡ true
All-at [] j h lt = absurd (omega arith)
All-at (x ∷ xs) zero h lt = h.0
All-at (x ∷ xs) (suc j) h lt = All-at xs j h.1 (omega arith)

trim_end_space :
    (line : Bytes) (n : ℕ)
    → is_space (get_or line n 0) ≡ true
    → trim_end line (suc n) ≡ trim_end line n
unfolding trim_end
trim_end_space line n e = rw e refl

trim_end_spaces :
    (line : Bytes) (base k : ℕ)
    → ((j : ℕ) → j < k → is_space (get_or line (base + j) 0) ≡ true)
    → trim_end line (base + k) ≡ trim_end line base
trim_end_spaces line base zero h = ap (trim_end line) (omega arith)
trim_end_spaces line base (suc k) h =
    let e : base + suc k ≡ suc (base + k) = omega arith in
    rw e (
      trim_end_space line (base + k) (h k (omega arith))
      ∙ trim_end_spaces line base k (λ j lt. h j (omega arith)))

trim_end_zero : (line : Bytes) → trim_end line 0 ≡ none
unfolding trim_end
trim_end_zero line = refl

trim_end_stops :
    (line : Bytes) (n : ℕ)
    → 0 < n
    → is_space (get_or line (n - 1) 0) ≡ false
    → trim_end line n ≡ some n
unfolding trim_end
trim_end_stops line zero pos e = absurd (omega arith)
trim_end_stops line (suc n) pos e = let same : suc n - 1 ≡ n = omega arith in rw (rw same at e) refl

trim_end-append :
    (text junk tail : Bytes)
    → All (λ c. is_space c ≡ true) junk
    → 0 < length text
    → is_space (get_or text (length text - 1) 0) ≡ false
    → trim_end (text ++ (junk ++ tail)) (length text + length junk) ≡ some (length text)
trim_end-append text junk tail h pos e =
    let line : Bytes = text ++ (junk ++ tail) in
    trim_end_spaces line (length text) (length junk) (λ j lt.
      rw
        (
          at_drop line (junk ++ tail) (length text) j (length text + j)
              (drop-append text (junk ++ tail)) refl,
          get_or-append_left junk tail j 0 lt,
        )
        (All-at junk j h lt))
    ∙ trim_end_stops line (length text) pos
        (rw (get_or-append_left text (junk ++ tail) (length text - 1) 0 (omega arith)) e)

-- The zero that is written where the white space began.
cut_at :
    (text junk stale : Bytes)
    → (rest : Bytes) × (set (text ++ (junk ++ (0 ∷ stale))) (length text) 0 ≡ text ++ (0 ∷ rest))
cut_at text [] stale = (stale, set-append text 0 0 stale)
cut_at text (j ∷ junk) stale = (junk ++ (0 ∷ stale), set-append text j 0 (junk ++ (0 ∷ stale)))

space-IsText : (xs : Bytes) → All (λ c. is_space c ≡ true) xs → IsText xs
space-IsText [] h = tt
space-IsText (c ∷ cs) h = (ground arith, space-IsText cs h.1)

first_of :
    (lead name tail more : Bytes)
    → All (λ c. is_blank c ≡ true) lead
    → 0 < length name
    → (get_or name 0 0 == b'#' || get_or name 0 0 == b';') ≡ false
    → (get_or ((lead ++ (name ++ tail)) ++ more) 0 0 == b'#'
        || get_or ((lead ++ (name ++ tail)) ++ more) 0 0 == b';')
      ≡ false
first_of [] [] tail more h pos e = absurd (omega arith)
first_of [] (c ∷ cs) tail more h pos e = e
first_of (c ∷ cs) name tail more h pos e = ground (arith, h.0)

module _ {lead name gap shown value : Bytes} {sep : ℕ} (w : IsLine lead name sep gap shown)
    (s : Shown shown value) where
  line-IsText : IsText (line_of lead name sep gap shown)
  line-IsText = All-append _ lead _ (blank-IsText lead w.blanks) (
      All-append _ name _ (command-IsText name w.command) (
        ground (arith, w.separator),
        All-append _ gap shown (gap-IsText gap w.gaps) (Shown-Ends s).text,
      ))

  line_length :
      length (line_of lead name sep gap shown)
      ≡ length lead + length name + 1 + length gap + length shown
  line_length = omega (
    arith,
    length-append lead (name ++ (sep ∷ (gap ++ shown))),
    length-append name (sep ∷ (gap ++ shown)),
    length-append gap shown,
  )

  line_last :
      is_space
        (get_or (line_of lead name sep gap shown) (length (line_of lead name sep gap shown) - 1) 0)
      ≡ false
  line_last =
      let v = Shown-Ends s in
      let k : ℕ = length lead + length name + 1 + length gap in
      let front : Bytes = lead ++ (name ++ (sep ∷ gap)) in
      let e : line_of lead name sep gap shown ≡ front ++ shown = simp append_assoc in
      let sized : length front ≡ k =
        omega (arith, length-append lead (name ++ (sep ∷ gap)), length-append name (sep ∷ gap)) in
      let there : drop (length front) (line_of lead name sep gap shown) ≡ shown =
        ap (drop (length front)) e ∙ drop-append front shown in
      let same =
        at_drop (line_of lead name sep gap shown) shown (length front) (length shown - 1)
          (length (line_of lead name sep gap shown) - 1) there
          (omega (arith, line_length, sized, v.some_byte)) in
      rw same v.last

  first_byte :
      (tail : Bytes)
      → (get_or (line_of lead name sep gap shown ++ tail) 0 0 == b'#'
          || get_or (line_of lead name sep gap shown ++ tail) 0 0 == b';')
        ≡ false
  first_byte tail = first_of lead name _ tail w.blanks w.named w.not_comment

-- A line with a command and an argument goes to conf_cmdparse as that command and that value, with
-- any blanks before the command, any of blanks and equals signs between the two, any white space
-- at the end, quotation marks round the value or none, and whatever bytes an earlier line left
-- behind the end of the string.
pub parse_line-line_of :
    {lead name gap shown value : Bytes} {sep : ℕ} (junk stale : Bytes)
    → IsLine lead name sep gap shown
    → Shown shown value
    → All (λ c. is_space c ≡ true) junk
    → (l : Bytes) × (parse_line (line_of lead name sep gap shown ++ (junk ++ (0 ∷ stale)))
        ≡ some (l, option name (some value)))
unfolding parse_line parse_text trimmed
parse_line-line_of {lead} {name} {gap} {shown} {value} {sep} junk stale w s h =
    let text : Bytes = line_of lead name sep gap shown in
    let line : Bytes = text ++ (junk ++ (0 ∷ stale)) in
    let v = Shown-Ends s in
    let sized : length text ≡ length lead + length name + 1 + length gap + length shown =
      line_length w s in
    let whole : strlen line ≡ some (length text + length junk) =
      ap strlen (sym (append_assoc text junk (0 ∷ stale)))
      ∙ strlen-append (text ++ junk) stale
          (All-append _ text junk (line-IsText w s) (space-IsText junk h))
      ∙ ap some (length-append text junk) in
    let first = first_byte w s (junk ++ (0 ∷ stale)) in
    let kept : (get_or line 0 0 == b'#'
          || (get_or line 0 0 == b';' || ltb (length text + length junk) 2))
        ≡ false =
      ground (arith, first, sized, w.named, v.some_byte) in
    let trim : trim_end line (length text + length junk) ≡ some (length text) =
      trim_end-append text junk (0 ∷ stale) h (omega (arith, sized)) (line_last w s) in
    let c = cut_at text junk stale in
    let again : strlen (text ++ (0 ∷ c.0)) ≡ some (length text) =
      strlen-append text c.0 (line-IsText w s) in
    let long : (length text == 0) ≡ false = ≢→== _ 0 (λ z. omega (arith, sized)) in
    let r = command_of_lem w s c.0 in
    (
      r.0,
      rw whole (
          rw (kept, trim)
            (rw c.1 (
              rw again
                (rw long (ap command_of (line_assoc lead name gap shown (0 ∷ c.0) sep) ∙ r.1))))),
    )

-- A line of two or more white space characters, none of them a comment mark, makes the trimming
-- loop read the byte before the buffer.
pub parse_line_blank :
    (junk stale : Bytes)
    → All (λ c. is_space c ≡ true) junk
    → 1 < length junk
    → parse_line (junk ++ (0 ∷ stale)) ≡ none
unfolding parse_line parse_text
parse_line_blank junk stale h many =
    let line : Bytes = junk ++ (0 ∷ stale) in
    let whole : strlen line ≡ some (length junk) = strlen-append junk stale (space-IsText junk h) in
    let same : (i : ℕ) → i < length junk → get_or line i 0 ≡ get_or junk i 0 =
      λ i lt. get_or-append_left junk (0 ∷ stale) i 0 lt in
    let lead : is_space (get_or line 0 0) ≡ true =
      rw (same 0 (omega arith)) (All-at junk 0 h (omega arith)) in
    let kept : (get_or line 0 0 == b'#' || (get_or line 0 0 == b';' || ltb (length junk) 2))
        ≡ false =
      ground (arith, lead) in
    let under : trim_end line (0 + length junk) ≡ none =
      trim_end_spaces line 0 (length junk)
        (λ j lt. let e : 0 + j ≡ j = omega arith in rw (e, same j lt) (All-at junk j h lt))
      ∙ trim_end_zero line in
    let start : 0 + length junk ≡ length junk = omega arith in
    rw whole (rw (kept, rw start at under) refl)

-- A command without an argument on a last line that has no newline: the pointer steps over the end
-- of the string, and what an earlier line left there becomes the argument.
pub parse_line_stale :
    {shown value : Bytes} (name gap rest : Bytes)
    → All (λ c. in_command c ≡ true) name
    → 1 < length name
    → (get_or name 0 0 == b'#' || get_or name 0 0 == b';') ≡ false
    → is_space (get_or name (length name - 1) 0) ≡ false
    → All (λ c. is_gap c ≡ true) gap
    → Shown shown value
    → (l : Bytes) × (parse_line (name ++ (0 ∷ (gap ++ (shown ++ (0 ∷ rest)))))
        ≡ some (l, option name (some value)))
unfolding parse_line parse_text trimmed command_of
parse_line_stale {shown} {value} name gap rest h many mark last gaps s =
    let tail : Bytes = gap ++ (shown ++ (0 ∷ rest)) in
    let line : Bytes = name ++ (0 ∷ tail) in
    let text : IsText name = command-IsText name h in
    let whole : strlen line ≡ some (length name) = strlen-append name tail text in
    let same : (i : ℕ) → i < length name → get_or line i 0 ≡ get_or name i 0 =
      λ i lt. get_or-append_left name (0 ∷ tail) i 0 lt in
    let kept : (get_or line 0 0 == b'#' || (get_or line 0 0 == b';' || ltb (length name) 2))
        ≡ false =
      rw (same 0 (omega arith)) (ground (arith, mark)) in
    let trim : trim_end line (length name) ≡ some (length name) =
      trim_end_stops line (length name) (omega arith)
        (rw (same (length name - 1) (omega arith)) last) in
    let cut : set line (length name) 0 ≡ line = set-append name 0 0 tail in
    let long : (length name == 0) ≡ false = ≢→== _ 0 (λ z. omega arith) in
    let lead : run_of is_blank line ≡ some 0 =
      run_of-shown is_blank [] name (0 ∷ tail) tt (omega arith)
        (command_first name h (omega arith)) in
    let count : run_of in_command line ≡ some (length name) =
      run_of-append in_command name 0 tail h refl in
    let again : set line (0 + length name) 0 ≡ line =
      let e : 0 + length name ≡ length name = omega arith in rw e cut in
    let r =
      argument_of_lem line name gap rest 0 (0 + length name + 1) text gaps refl (omega arith) s in
    (r.0, rw whole (rw (kept, trim) (rw (cut, whole) (rw (long, lead) (rw (count, again) r.1)))))
