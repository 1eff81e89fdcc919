-- ===== src/Conf/Printable.antt =====
-- What the print functions write can stand in a line, and the copy functions take it back.
use cy_prus.Prelude.{
  ℕ, zero, suc, ◌<◌, ◌≤◌, ◌≡◌, ◌⊎◌, inl, inr, refl, sym, ap, ◌∙◌, Bool, true, false, Option, none,
  some, List, [], ◌∷◌, arith, length, get_or, take, Bytes, All, IsText, codes, Bool-cases,
}
use cy_prus.Prelude.Int.{ℤ, pos}
use cy_prus.Conf.Number.{
  print_number, IsInt, is_numeral, print_number-All, print_number-pos, print_number-le,
  atoi-print_number,
}
use cy_prus.Conf.Line.{is_gap, is_space, is_quoted}
use cy_prus.Conf.Lines.{IsBody}
use cy_prus.Conf.Written.{Shown, plain, quoted}
use cy_prus.Conf.Print.{quotes_needed, shown_value}
use cy_prus.Conf.Options.{
  CameraContext, Copy, copy_bool, copy_int, copy_string, config_thread, path_max, same,
  same_caseless, to_lower, each, put_number, put_string, bool_of, mystrdup, copy_value, print_value,
}

-- A string that a line can hold: either it is printed in quotation marks, or it needs none.
pub record IsPrintable (name s : Bytes) : Type 0 where
  pub text : IsText s
  pub one_line : IsBody s
  pub some_byte : 0 < length s
  pub short : length s < 3000
  pub shown : (quotes_needed name s ≡ true) ⊎ Shown s s

abbrev pub IsStoredString : Bytes → Option Bytes → Type 0
IsStoredString name none = Unit
IsStoredString name (some s) = IsPrintable name s

-- A value that the option's type allows.
abbrev pub IsStored : Copy → Bytes → ℕ → CameraContext → Type 0
IsStored copy_bool name place c = (c.numbers place ≡ pos 0) ⊎ (c.numbers place ≡ pos 1)
IsStored copy_int name place c = IsInt (c.numbers place)
IsStored copy_string name place c = IsStoredString name (c.strings place)
IsStored config_thread name place c = Unit

abbrev pub restore_string : ℕ → Option Bytes → List CameraContext → List CameraContext
restore_string place none cnt = cnt
restore_string place (some s) cnt = each (put_string place (some s)) cnt

-- What the lines of an option do to the contexts.
abbrev pub restore_option : Copy → ℕ → CameraContext → List CameraContext → List CameraContext
restore_option copy_bool place c cnt = each (put_number place (c.numbers place)) cnt
restore_option copy_int place c cnt = each (put_number place (c.numbers place)) cnt
restore_option copy_string place c cnt = restore_string place (c.strings place) cnt
restore_option config_thread place c cnt = cnt

Shown-plain : {b : Bool} {s : Bytes} → (b ≡ true) ⊎ Shown s s → b ≡ false → Shown s s
Shown-plain (inl e) f = absurd (ground arith)
Shown-plain (inr s) f = s

pub Shown-shown_value : (name s : Bytes) → IsPrintable name s → Shown (shown_value name s) s
unfolding shown_value
Shown-shown_value name s v = elim (Bool-cases (quotes_needed name s)) [
  | inl marks ↦ rw marks (quoted (inl refl) v.text)
  | inr bare ↦ rw bare (Shown-plain v.shown bare)
]

numeral_last :
    (c : ℕ) (cs : Bytes)
    → All (λ c. is_numeral c ≡ true) (c ∷ cs)
    → is_numeral (get_or (c ∷ cs) (length cs) 0) ≡ true
numeral_last c [] h = h.0
numeral_last c (d ∷ cs) h = numeral_last d cs h.1

numeral-IsText : (xs : Bytes) → All (λ c. is_numeral c ≡ true) xs → IsText xs
numeral-IsText [] h = tt
numeral-IsText (c ∷ cs) h = (ground (arith, h.0), numeral-IsText cs h.1)

numeral-IsBody : (xs : Bytes) → All (λ c. is_numeral c ≡ true) xs → IsBody xs
numeral-IsBody [] h = tt
numeral-IsBody (c ∷ cs) h = (ground (arith, h.0), numeral-IsBody cs h.1)

not_gap : (c : ℕ) → is_numeral c ≡ true → is_gap c ≡ false
not_gap c h = ground arith

not_space : (c : ℕ) → is_numeral c ≡ true → is_space c ≡ false
not_space c h = ground arith

not_quoted : (c d : ℕ) → is_numeral c ≡ true → is_quoted c d ≡ false
not_quoted c d h = ground arith

numeral-Shown : (xs : Bytes) → All (λ c. is_numeral c ≡ true) xs → 0 < length xs → Shown xs xs
numeral-Shown [] h some_byte = absurd (omega arith)
numeral-Shown (c ∷ cs) h some_byte =
    plain (numeral-IsText (c ∷ cs) h) (not_gap c h.0)
      (not_space (get_or (c ∷ cs) (length cs) 0) (numeral_last c cs h)) (not_quoted c _ h.0)

number-IsPrintable : (name : Bytes) (z : ℤ) → IsInt z → IsPrintable name (print_number z)
number-IsPrintable name z h =
    let v = print_number-All z in
    record {
      text = numeral-IsText _ v;
      one_line = numeral-IsBody _ v;
      some_byte = print_number-pos z h;
      short = omega (arith, print_number-le z);
      shown = inr (numeral-Shown _ v (print_number-pos z h));
    }

on-IsPrintable : (name : Bytes) → IsPrintable name (codes "on")
on-IsPrintable name = record {
  text = (refl, (refl, tt));
  one_line = (refl, (refl, tt));
  some_byte = omega arith;
  short = omega arith;
  shown = inr (plain (refl, (refl, tt)) refl refl refl);
}

off-IsPrintable : (name : Bytes) → IsPrintable name (codes "off")
off-IsPrintable name = record {
  text = (refl, (refl, (refl, tt)));
  one_line = (refl, (refl, (refl, tt)));
  some_byte = omega arith;
  short = omega arith;
  shown = inr (plain (refl, (refl, (refl, tt))) refl refl refl);
}

pub bool_of_on : bool_of (codes "on") ≡ pos 1
unfolding bool_of same_caseless same to_lower
bool_of_on = refl

pub bool_of_off : bool_of (codes "off") ≡ pos 0
unfolding bool_of same_caseless same to_lower
bool_of_off = refl

take_all : (n : ℕ) (xs : Bytes) → length xs ≤ n → take n xs ≡ xs
take_all zero [] h = refl
take_all zero (x ∷ xs) h = absurd (omega arith)
take_all (suc n) [] h = refl
take_all (suc n) (x ∷ xs) h = ap (◌∷◌ x) (take_all n xs (omega arith))

pub mystrdup_short : (s : Bytes) → 0 < length s → length s < 3000 → mystrdup (some s) ≡ some s
unfolding mystrdup
mystrdup_short [] some_byte h = absurd (omega arith)
mystrdup_short (c ∷ cs) some_byte h = ap some (take_all path_max (c ∷ cs) (omega arith))

-- What is printed for an option, and what copying it back does.
module _ (thread : Bytes → List CameraContext → Option (List CameraContext)) (name : Bytes)
    (place : ℕ) (c : CameraContext) where
  -- The printed text can stand in a line and is taken back; an option without text has no value.
  abbrev pub Printed : Copy → Option Bytes → Type 0
  Printed k none = (cnt : List CameraContext) → restore_option k place c cnt ≡ cnt
  Printed k (some t) =
      IsPrintable name t
      × ((cnt : List CameraContext)
          → copy_value thread k place (some t) cnt ≡ some (restore_option k place c cnt))

  string_back :
      (s : Option Bytes) → c.strings place ≡ s → IsStoredString name s → Printed copy_string s
  unfolding copy_value
  string_back none e h = λ cnt. ap (λ (o : Option Bytes). restore_string place o cnt) e
  string_back (some t) e h = (
    h,
    λ cnt.
        ap (λ (o : Option Bytes). some (each (put_string place o) cnt))
          (mystrdup_short t h.some_byte h.short)
        ∙ ap (λ (o : Option Bytes). some (restore_string place o cnt)) (sym e),
  )

  pub print_value-Printed :
      (k : Copy) → IsStored k name place c → Printed k (print_value k place 0 c c)
  unfolding print_value copy_value
  print_value-Printed copy_bool (inl off) = rw off (
    off-IsPrintable name,
    λ cnt. ap (λ (z : ℤ). some (each (put_number place z) cnt)) bool_of_off,
  )
  print_value-Printed copy_bool (inr on) =
      rw on (
        on-IsPrintable name,
        λ cnt. ap (λ (z : ℤ). some (each (put_number place z) cnt)) bool_of_on,
      )
  print_value-Printed copy_int h = (
    number-IsPrintable name (c.numbers place) h,
    λ cnt. ap (λ (z : ℤ). some (each (put_number place z) cnt)) (atoi-print_number _ h),
  )
  print_value-Printed copy_string h = string_back (c.strings place) refl h
  print_value-Printed config_thread h = λ cnt. refl
