-- ===== src/Motion/Format/Expanded.antt =====
-- Complete formats are filled in; one that ends in a specifier without a value is read past its end.
use mathlib.Core.List.{append_assoc, append-nil}
use cy_prus.Prelude.{
  ℕ, zero, suc, ◌+◌, ◌-◌, ◌≤◌, ◌<◌, ◌≡◌, refl, sym, ap, ◌∙◌, Bool, true, false, ◌&&◌, ◌==◌, ltb,
  lt→ltb, Option, none, some, [], ◌∷◌, ◌++◌, arith, length, length-append, take, Bytes, All, codes,
  c_string,
}
use cy_prus.Conf.Number.{print_number}
use cy_prus.Motion.Format.{
  Values, text, absent, foreign, text_or_absent, file_text, is_nonzero, two_places, is_fps,
  specifier, put_before, expand, mystrftime,
}

-- What each of Motion's own specifiers stands for, but for %fps.
pub data Stands (v : Values) : ℕ → Bytes → Type 0 where
  event : Stands v b'v' (two_places v.event_nr)
  shot : Stands v b'q' (two_places v.shot)
  diffs : Stands v b'D' (print_number v.diffs)
  noise : Stands v b'N' (print_number v.noise)
  width : Stands v b'i' (print_number v.motion_width)
  height : Stands v b'J' (print_number v.motion_height)
  column : Stands v b'K' (print_number v.center_x)
  row : Stands v b'L' (print_number v.center_y)
  threshold : Stands v b'o' (print_number v.threshold)
  labels : Stands v b'Q' (print_number v.total_labels)
  thread : Stands v b't' (print_number v.threadnr)
  event_text :
      {c : ℕ} {cs : Bytes}
      → v.text_event_string ≡ c ∷ cs
      → Stands v b'C' (take (v.path_max - 1) (c ∷ cs))
  file : {name : Bytes} → v.filename ≡ some name → Stands v b'f' (take (v.path_max - 1) name)
  sql : is_nonzero v.sqltype ≡ true → Stands v b'n' (print_number v.sqltype)

-- The specifiers without a value.
pub data Lacks (v : Values) : ℕ → Type 0 where
  no_text : v.text_event_string ≡ [] → Lacks v b'C'
  no_file : v.filename ≡ none → Lacks v b'f'
  no_sql : is_nonzero v.sqltype ≡ false → Lacks v b'n'

-- A letter that is none of Motion's own.
abbrev pub IsForeign : ℕ → Type 0
IsForeign d = All (λ c. (d == c) ≡ false) (codes "vqDNiJKLoQtCfn")

stands_lem : {v : Values} {d : ℕ} {xs : Bytes} → Stands v d xs → specifier v d ≡ text xs
unfolding specifier
stands_lem event = refl
stands_lem shot = refl
stands_lem diffs = refl
stands_lem noise = refl
stands_lem width = refl
stands_lem height = refl
stands_lem column = refl
stands_lem row = refl
stands_lem threshold = refl
stands_lem labels = refl
stands_lem thread = refl
stands_lem {v} (event_text e) = ap (text_or_absent v.path_max) e
stands_lem {v} (file e) = ap (file_text v.path_max) e
stands_lem (sql e) = rw e refl

lacks_lem : {v : Values} {d : ℕ} → Lacks v d → specifier v d ≡ absent
unfolding specifier
lacks_lem {v} (no_text e) = ap (text_or_absent v.path_max) e
lacks_lem {v} (no_file e) = ap (file_text v.path_max) e
lacks_lem (no_sql e) = rw e refl

foreign_lem : (v : Values) (d : ℕ) → IsForeign d → specifier v d ≡ foreign
unfolding specifier
foreign_lem v d
      (h1, (h2, (h3, (h4, (h5, (h6, (h7, (h8, (h9, (h10, (h11, (h12, (h13, (h14, _)))))))))))))) =
    rw (h1, h2, h3, h4, h5, h6, h7, h8, h9, h10, h11, h12, h13, h14) refl

-- A format, and what it becomes; no character of it is zero.
pub data Format (v : Values) : Bytes → Bytes → Type 0 where
  end : Format v [] []
  char :
      {c : ℕ} {cs out : Bytes}
      → (c == 0) ≡ false
      → (c == b'%') ≡ false
      → Format v cs out
      → Format v (c ∷ cs) ((c ∷ []) ++ out)
  fps :
      {ds out : Bytes}
      → Format v ds out
      → Format v (b'%' ∷ (b'f' ∷ (b'p' ∷ (b's' ∷ ds)))) (print_number v.movie_fps ++ out)
  value :
      {d c : ℕ} {cs ds out : Bytes}
      → (d == 0) ≡ false
      → is_fps d ds ≡ false
      → Stands v d (c ∷ cs)
      → Format v ds out
      → Format v (b'%' ∷ (d ∷ ds)) ((c ∷ cs) ++ out)
  -- A specifier without a value gives way to the character behind it.
  without :
      {d e : ℕ} {es out : Bytes}
      → (d == 0) ≡ false
      → is_fps d (e ∷ es) ≡ false
      → (e == 0) ≡ false
      → Lacks v d
      → Format v es out
      → Format v (b'%' ∷ (d ∷ (e ∷ es))) ((e ∷ []) ++ out)
  other :
      {d : ℕ} {ds out : Bytes}
      → (d == 0) ≡ false
      → IsForeign d
      → Format v ds out
      → Format v (b'%' ∷ (d ∷ ds)) ((b'%' ∷ (d ∷ [])) ++ out)

and_false : (b : Bool) → (b && false) ≡ false
and_false true = refl
and_false false = refl

-- The two characters that %f looks ahead at, in a format before another text.
is_fps_lem :
    (d : ℕ) (ds : Bytes) (t : ℕ) (ts : Bytes)
    → (t == b'p') ≡ false
    → (t == b's') ≡ false
    → is_fps d ds ≡ false
    → is_fps d (ds ++ (t ∷ ts)) ≡ false
is_fps_lem d [] t ts p s h = rw p (and_false _)
is_fps_lem d (x ∷ []) t ts p s h = rw (s, and_false (x == b'p')) (and_false _)
is_fps_lem d (x ∷ (y ∷ ds)) t ts p s h = h

put_before_assoc :
    (xs ys : Bytes) (o : Option Bytes) → put_before xs (put_before ys o) ≡ put_before (xs ++ ys) o
put_before_assoc xs ys none = refl
put_before_assoc xs ys (some zs) = ap some (sym (append_assoc xs ys zs))

put_nothing : (o : Option Bytes) → o ≡ put_before [] o
put_nothing none = refl
put_nothing (some xs) = refl

no_f : (d : ℕ) (ds : Bytes) → IsForeign d → is_fps d ds ≡ false
no_f d ds (_, (_, (_, (_, (_, (_, (_, (_, (_, (_, (_, (_, (h, _))))))))))))) = rw h refl

not_at_end : {v : Values} {d : ℕ} → Lacks v d → (d == 0) ≡ false
not_at_end (no_text e) = refl
not_at_end (no_file e) = refl
not_at_end (no_sql e) = refl

-- A round that puts `xs` before what the rest of the rounds make.
more :
    (xs out : Bytes) {o : Option Bytes} (o' : Option Bytes)
    → o ≡ put_before out o'
    → put_before xs o ≡ put_before (xs ++ out) o'
more xs out {o} o' h = ap (put_before xs) h ∙ put_before_assoc xs out o'

module _ (v : Values) where
  -- The rounds over a format before a text that starts with `t`.
  expand-Format :
      {format out : Bytes} (fuel t : ℕ) (ts : Bytes)
      → (t == b'p') ≡ false
      → (t == b's') ≡ false
      → Format v format out
      → length format ≤ fuel
      → (fuel' : ℕ) × (expand v fuel (format ++ (t ∷ ts))
          ≡ put_before out (expand v fuel' (t ∷ ts)))
        × (fuel ≤ fuel' + length format)
  unfolding expand
  expand-Format fuel t ts p s end enough = (fuel, put_nothing (expand v fuel (t ∷ ts)), omega arith)
  expand-Format zero t ts p s (char {c} {cs} {out} z n f) enough = absurd (omega arith)
  expand-Format (suc fuel) t ts p s (char {c} {cs} {out} z n f) enough =
      let r = expand-Format fuel t ts p s f (omega arith) in
      (r.0, rw z (rw n (more (c ∷ []) out (expand v r.0 (t ∷ ts)) r.1)), omega (arith, r.2))
  expand-Format zero t ts p s (fps {ds} {out} f) enough = absurd (omega arith)
  expand-Format (suc fuel) t ts p s (fps {ds} {out} f) enough =
      let r = expand-Format fuel t ts p s f (omega arith) in
      (r.0, more (print_number v.movie_fps) out (expand v r.0 (t ∷ ts)) r.1, omega (arith, r.2))
  expand-Format zero t ts p s (value {d} {c} {cs} {ds} {out} z n e f) enough = absurd (omega arith)
  expand-Format (suc fuel) t ts p s (value {d} {c} {cs} {ds} {out} z n e f) enough =
      let r = expand-Format fuel t ts p s f (omega arith) in
      (
        r.0,
        rw z (
            rw (is_fps_lem d ds t ts p s n)
              (rw (stands_lem e) (more (c ∷ cs) out (expand v r.0 (t ∷ ts)) r.1))),
        omega (arith, r.2),
      )
  expand-Format zero t ts p s (without {d} {e} {es} {out} z n ez a f) enough = absurd (omega arith)
  expand-Format (suc fuel) t ts p s (without {d} {e} {es} {out} z n ez a f) enough =
      let r = expand-Format fuel t ts p s f (omega arith) in
      (
        r.0,
        rw z (
            rw (is_fps_lem d (e ∷ es) t ts p s n)
              (rw (lacks_lem a) (more (e ∷ []) out (expand v r.0 (t ∷ ts)) r.1))),
        omega (arith, r.2),
      )
  expand-Format zero t ts p s (other {d} {ds} {out} z o f) enough = absurd (omega arith)
  expand-Format (suc fuel) t ts p s (other {d} {ds} {out} z o f) enough =
      let r = expand-Format fuel t ts p s f (omega arith) in
      (
        r.0,
        rw z (
            rw (no_f d (ds ++ (t ∷ ts)) o)
              (rw (foreign_lem v d o) (more (b'%' ∷ (d ∷ [])) out (expand v r.0 (t ∷ ts)) r.1))),
        omega (arith, r.2),
      )

  at_end : (fuel : ℕ) (stale : Bytes) → 0 < fuel → expand v fuel (0 ∷ stale) ≡ some []
  unfolding expand
  at_end zero stale h = absurd (omega arith)
  at_end (suc fuel) stale h = refl

  -- A format with no percent sign at its end is filled in from left to right: characters are copied,
  -- Motion's own specifiers with a value, and %fps, are replaced by the value, those without a value
  -- by the character behind them, and those of strftime are kept; nothing behind the end of the
  -- format is read. What becomes of it has room in formatstring, and no value is empty.
  pub mystrftime-Format :
      {s out : Bytes} (stale : Bytes)
      → Format v s out
      → length out < v.path_max
      → mystrftime v (s ++ (0 ∷ stale)) ≡ some (c_string out)
  unfolding mystrftime
  mystrftime-Format {s} {out} stale f room =
      let sized : length (s ++ (0 ∷ stale)) ≡ length s + suc (length stale) =
        length-append s (0 ∷ stale) in
      let r =
        expand-Format (length (s ++ (0 ∷ stale))) 0 stale refl refl f (omega (arith, sized)) in
      let e = at_end r.0 stale (omega (arith, r.2, sized)) in
      let all : expand v (length (s ++ (0 ∷ stale))) (s ++ (0 ∷ stale)) ≡ some out =
        r.1 ∙ ap (put_before out) e ∙ ap some (append-nil out) in
      rw all (rw (lt→ltb _ _ room) refl)

  -- A format that becomes longer than formatstring has room for is written behind its end.
  pub mystrftime_overflow :
      {s out : Bytes} (stale : Bytes)
      → Format v s out
      → v.path_max ≤ length out
      → mystrftime v (s ++ (0 ∷ stale)) ≡ none
  unfolding mystrftime
  mystrftime_overflow {s} {out} stale f long =
      let sized : length (s ++ (0 ∷ stale)) ≡ length s + suc (length stale) =
        length-append s (0 ∷ stale) in
      let r =
        expand-Format (length (s ++ (0 ∷ stale))) 0 stale refl refl f (omega (arith, sized)) in
      let e = at_end r.0 stale (omega (arith, r.2, sized)) in
      let all : expand v (length (s ++ (0 ∷ stale))) (s ++ (0 ∷ stale)) ≡ some out =
        r.1 ∙ ap (put_before out) e ∙ ap some (append-nil out) in
      let over : ltb (length out) v.path_max ≡ false = ground arith in rw all (rw over refl)

  expand_nothing : (fuel : ℕ) → expand v fuel [] ≡ none
  unfolding expand
  expand_nothing zero = refl
  expand_nothing (suc fuel) = refl

  last_absent :
      (fuel d : ℕ) → (d == 0) ≡ false → Lacks v d → expand v fuel (b'%' ∷ (d ∷ (0 ∷ []))) ≡ none
  unfolding expand
  last_absent zero d z a = refl
  last_absent (suc fuel) d z a = rw z (
      rw (and_false (d == b'f'))
        (rw (lacks_lem a) (ap (put_before (0 ∷ [])) (expand_nothing fuel))))

  -- A format that ends in a specifier without a value, such as %C with no text for events: the
  -- terminating zero is copied as the character behind the specifier, and what follows the string
  -- is read as format, here behind the end of its buffer.
  pub mystrftime_past_end :
      {front out : Bytes} (d : ℕ)
      → Format v front out
      → Lacks v d
      → mystrftime v (front ++ (b'%' ∷ (d ∷ (0 ∷ [])))) ≡ none
  unfolding mystrftime
  mystrftime_past_end {front} {out} d f a =
      let tail : Bytes = b'%' ∷ (d ∷ (0 ∷ [])) in
      let r =
        expand-Format (length (front ++ tail)) b'%' (d ∷ (0 ∷ [])) refl refl f
          (omega (arith, length-append front tail)) in
      let e : expand v (length (front ++ tail)) (front ++ tail) ≡ none =
        r.1 ∙ ap (put_before out) (last_absent r.0 d (not_at_end a) a) in
      rw e refl
