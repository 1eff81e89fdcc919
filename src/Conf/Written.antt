-- ===== src/Conf/Written.antt =====
-- A line with a command and an argument is read as that command and argument, whatever blanks
-- stand around them and whatever an earlier line left behind it in the buffer.
use mathlib.Core.List.{append_assoc}
use cy_prus.Prelude.{
  ℕ, suc, ◌+◌, ◌-◌, ◌<◌, ◌≡◌, ◌⊎◌, refl, sym, ap, ◌∙◌, Bool, true, false, ◌==◌, ◌||◌, some, [], ◌∷◌,
  ◌++◌, arith, ≢→==,
}
use cy_prus.Prelude.{
  length, get_or, set, drop, get_or-drop, get_or-append_left, length-append, Bytes, All, IsText,
  run_of, strlen, c_string, run_of-append, strlen-append, c_string-append, drop-append,
  drop-append_past, set-append, get_or-append_at, drop-drop, drop-set, set-append_past, All-append,
}
use cy_prus.Conf.Line.{
  option, is_blank, is_space, in_command, is_gap, is_quoted, strip_quotes, argument_from,
  argument_of, command_of,
}

-- How a value may stand in a line: `Shown shown value`.
pub data Shown : Bytes → Bytes → Type 0 where
  plain :
      {c : ℕ} {cs : Bytes}
      → IsText (c ∷ cs)
      → is_gap c ≡ false
      → is_space (get_or (c ∷ cs) (length cs) 0) ≡ false
      → is_quoted c (get_or (c ∷ cs) (length cs) 0) ≡ false
      → Shown (c ∷ cs) (c ∷ cs)
  quoted :
      {mark : ℕ} {value : Bytes}
      → (mark ≡ b'"') ⊎ (mark ≡ b'\'')
      → IsText value
      → Shown (mark ∷ (value ++ (mark ∷ []))) value

-- What the reading of a line needs of its last part.
pub record Ends (shown : Bytes) : Type 0 where
  pub text : IsText shown
  pub first : is_gap (get_or shown 0 0) ≡ false
  pub last : is_space (get_or shown (length shown - 1) 0) ≡ false
  pub some_byte : 0 < length shown

pub Shown-Ends : {shown value : Bytes} → Shown shown value → Ends shown
Shown-Ends (plain {c} {cs} t f l q) =
    let e : suc (length cs) - 1 ≡ length cs = omega arith in
    record { text = t; first = f; last = rw e l; some_byte = omega arith }
Shown-Ends (quoted {mark} {value} m t) =
    let e : suc (length (value ++ (mark ∷ []))) - 1 ≡ suc (length value) =
      omega (arith, length-append value (mark ∷ [])) in
    record {
      text = (ground arith, All-append _ value (mark ∷ []) t (ground arith, tt));
      first = ground arith;
      last = rw (e, get_or-append_at value mark []) (ground arith);
      some_byte = omega arith;
    }

quotes : {mark : ℕ} → (mark ≡ b'"') ⊎ (mark ≡ b'\'') → is_quoted mark mark ≡ true
quotes m = ground arith

pub at_drop :
    (line xs : Bytes) (i j k : ℕ) → drop i line ≡ xs → k ≡ i + j → get_or line k 0 ≡ get_or xs j 0
at_drop line xs i j k e place =
    rw place (sym (get_or-drop i line j 0) ∙ ap (λ (ys : Bytes). get_or ys j 0) e)

-- A zero written behind the command leaves the command.
name_kept :
    (line name more : Bytes) (cmd m k : ℕ)
    → IsText name
    → drop cmd line ≡ name ++ (0 ∷ more)
    → k ≡ cmd + (suc (length name) + m)
    → c_string (drop cmd (set line k 0)) ≡ name
name_kept line name more cmd m k t e place =
    rw (place, drop-set cmd (suc (length name) + m) 0 line, e, set-append_past name 0 m 0 more)
      (c_string-append name (set more m 0) t)

strip_quotes_lem :
    (line name gap rest : Bytes) {shown value : Bytes} (cmd beg : ℕ)
    → IsText name
    → drop cmd line ≡ name ++ (0 ∷ (gap ++ (shown ++ (0 ∷ rest))))
    → beg ≡ cmd + suc (length name) + length gap
    → drop beg line ≡ shown ++ (0 ∷ rest)
    → Shown shown value
    → (l : Bytes) × (strip_quotes line cmd beg (length shown) ≡ (l, option name (some value)))
unfolding strip_quotes
strip_quotes_lem line name gap rest cmd beg nt e place here (plain {c} {cs} t f l q) = (
  line,
  rw
      (
        at_drop line (c ∷ (cs ++ (0 ∷ rest))) beg 0 beg here (omega arith),
        at_drop line (c ∷ (cs ++ (0 ∷ rest))) beg (length cs) (beg + suc (length cs) - 1) here
            (omega arith),
        get_or-append_left (c ∷ cs) (0 ∷ rest) (length cs) 0 (omega arith),
        q,
      )
      (rw (here, e)
        (rw
          (
            c_string-append name (gap ++ (c ∷ (cs ++ (0 ∷ rest)))) nt,
            c_string-append (c ∷ cs) rest t,
          )
          refl)),
)
strip_quotes_lem line name gap rest cmd beg nt e place here (quoted {mark} {value} m t) =
    let n : ℕ = length (value ++ (mark ∷ [])) in
    let sized : n ≡ suc (length value) = omega (arith, length-append value (mark ∷ [])) in
    let at : beg + suc n - 1 ≡ beg + suc (length value) = omega arith in
    let here' : drop beg line ≡ mark ∷ (value ++ (mark ∷ (0 ∷ rest))) =
      here ∙ ap (◌∷◌ mark) (append_assoc value (mark ∷ []) (0 ∷ rest)) in
    let after : drop (beg + 1) line ≡ value ++ (mark ∷ (0 ∷ rest)) =
      drop-drop beg 1 line ∙ ap (drop 1) here' in
    let line' : Bytes = set line (beg + suc (length value)) 0 in
    let valued : c_string (drop (beg + 1) line') ≡ value =
      let same : beg + suc (length value) ≡ beg + 1 + length value = omega arith in
      rw (same, drop-set (beg + 1) (length value) 0 line, after, set-append value mark 0 (0 ∷ rest))
        (c_string-append value (0 ∷ rest) t) in
    let kept : c_string (drop cmd line') ≡ name =
      name_kept line name _ cmd (length gap + suc (length value)) (beg + suc (length value)) nt e
        (omega arith) in
    let last_mark : get_or line (beg + suc (length value)) 0 ≡ mark =
      at_drop line (mark ∷ (value ++ (mark ∷ (0 ∷ rest)))) beg (suc (length value))
        (beg + suc (length value)) here' refl
      ∙ get_or-append_at value mark (0 ∷ rest) in
    (
      line',
      rw (at, last_mark, at_drop line _ beg 0 beg here' (omega arith), quotes m)
          (rw (valued, kept) refl),
    )

pub gap-IsText : (gap : Bytes) → All (λ c. is_gap c ≡ true) gap → IsText gap
gap-IsText [] h = tt
gap-IsText (c ∷ cs) h = (ground arith, gap-IsText cs h.1)

pub run_of-shown :
    (test : ℕ → Bool) (gap shown rest : Bytes)
    → All (λ c. test c ≡ true) gap
    → 0 < length shown
    → test (get_or shown 0 0) ≡ false
    → run_of test (gap ++ (shown ++ rest)) ≡ some (length gap)
run_of-shown test gap [] rest h pos e = absurd (omega arith)
run_of-shown test gap (c ∷ cs) rest h pos e = run_of-append test gap c (cs ++ rest) h e

-- From the command's zero on.
pub argument_of_lem :
    (line name gap rest : Bytes) {shown value : Bytes} (cmd beg : ℕ)
    → IsText name
    → All (λ c. is_gap c ≡ true) gap
    → drop cmd line ≡ name ++ (0 ∷ (gap ++ (shown ++ (0 ∷ rest))))
    → beg ≡ cmd + suc (length name)
    → Shown shown value
    → (l : Bytes) × (argument_of line cmd beg ≡ some (l, option name (some value)))
unfolding argument_of argument_from
argument_of_lem line name gap rest {shown} {value} cmd beg nt gaps e place s =
    let v = Shown-Ends s in
    let here : drop beg line ≡ gap ++ (shown ++ (0 ∷ rest)) =
      rw (place, drop-drop cmd (suc (length name)) line, e)
        (drop-append_past name 0 (gap ++ (shown ++ (0 ∷ rest)))) in
    let there : drop (beg + length gap) line ≡ shown ++ (0 ∷ rest) =
      drop-drop beg (length gap) line
      ∙ ap (drop (length gap)) here
      ∙ drop-append gap (shown ++ (0 ∷ rest)) in
    let whole : strlen (drop beg line) ≡ some (length (gap ++ shown)) =
      rw (here, sym (append_assoc gap shown (0 ∷ rest)))
        (strlen-append (gap ++ shown) rest (All-append _ gap shown (gap-IsText gap gaps) v.text)) in
    let long : (length (gap ++ shown) == 0) ≡ false =
      ≢→== _ 0 (λ z. omega (arith, length-append gap shown, v.some_byte)) in
    let skip : run_of is_gap (drop beg line) ≡ some (length gap) =
      rw here (run_of-shown is_gap gap shown (0 ∷ rest) gaps v.some_byte v.first) in
    let left : strlen (drop (beg + length gap) line) ≡ some (length shown) =
      rw there (strlen-append shown rest v.text) in
    let r = strip_quotes_lem line name gap rest cmd (beg + length gap) nt e (omega arith) there s in
    (r.0, rw whole (rw (long, skip) (rw left (ap some r.1))))

-- A line: the command `name` after `lead`, a separator, and an argument after `gap`.
pub record IsLine (lead name : Bytes) (sep : ℕ) (gap shown : Bytes) : Type 0 where
  pub blanks : All (λ c. is_blank c ≡ true) lead
  pub command : All (λ c. in_command c ≡ true) name
  pub named : 0 < length name
  pub not_comment : (get_or name 0 0 == b'#' || get_or name 0 0 == b';') ≡ false
  pub separator : (is_blank sep || sep == b'=') ≡ true
  pub gaps : All (λ c. is_gap c ≡ true) gap

abbrev pub line_of : Bytes → Bytes → ℕ → Bytes → Bytes → Bytes
line_of lead name sep gap shown = lead ++ (name ++ (sep ∷ (gap ++ shown)))

pub blank-IsText : (xs : Bytes) → All (λ c. is_blank c ≡ true) xs → IsText xs
blank-IsText [] h = tt
blank-IsText (c ∷ cs) h = (ground arith, blank-IsText cs h.1)

pub command-IsText : (xs : Bytes) → All (λ c. in_command c ≡ true) xs → IsText xs
command-IsText [] h = tt
command-IsText (c ∷ cs) h = (ground arith, command-IsText cs h.1)

pub command_first :
    (name : Bytes)
    → All (λ c. in_command c ≡ true) name
    → 0 < length name
    → is_blank (get_or name 0 0) ≡ false
command_first [] h pos = absurd (omega arith)
command_first (c ∷ cs) h pos = ground (arith, h.0)

pub line_assoc :
    (lead name gap shown tail : Bytes) (sep : ℕ)
    → line_of lead name sep gap shown ++ tail ≡ lead ++ (name ++ (sep ∷ (gap ++ (shown ++ tail))))
line_assoc lead name gap shown tail sep = simp append_assoc

module _ {lead name gap shown value : Bytes} {sep : ℕ} (w : IsLine lead name sep gap shown)
    (s : Shown shown value) (rest : Bytes) where
  pub command_of_lem :
      (l : Bytes) × (command_of (lead ++ (name ++ (sep ∷ (gap ++ (shown ++ (0 ∷ rest))))))
        ≡ some (l, option name (some value)))
  unfolding command_of
  command_of_lem =
      let tail : Bytes = gap ++ (shown ++ (0 ∷ rest)) in
      let line : Bytes = lead ++ (name ++ (sep ∷ tail)) in
      let line' : Bytes = set line (length lead + length name) 0 in
      let skip : run_of is_blank line ≡ some (length lead) =
        run_of-shown is_blank lead name (sep ∷ tail) w.blanks w.named
          (command_first name w.command w.named) in
      let here : drop (length lead) line ≡ name ++ (sep ∷ tail) =
        drop-append lead (name ++ (sep ∷ tail)) in
      let cut : run_of in_command (drop (length lead) line) ≡ some (length name) =
        rw here (run_of-append in_command name sep tail w.command (ground (arith, w.separator))) in
      let here' : drop (length lead) line' ≡ name ++ (0 ∷ tail) =
        drop-set (length lead) (length name) 0 line
        ∙ ap (λ (xs : Bytes). set xs (length name) 0) here
        ∙ set-append name sep 0 tail in
      let r =
        argument_of_lem line' name gap rest (length lead) (length lead + length name + 1)
          (command-IsText name w.command) w.gaps here' (omega arith) s in
      (r.0, rw skip (rw cut r.1))
