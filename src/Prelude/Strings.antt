-- ===== src/Prelude/Strings.antt =====
-- C strings in buffers: a pointer is an index, and a scan that leaves the buffer is a fault.
use Prim.Native.Nat.{ℕ, zero, suc, ◌+◌}
use Prim.Native.String.{String}
use Prim.Native.Char.{code}
use mathlib.Core.Path.{◌≡◌, refl, sym, ◌∙◌, ap}
use mathlib.Core.Bool.{Bool, true, false, not, ◌&&◌}
use mathlib.Core.List.{List, [], ◌∷◌, ◌++◌}
use mathlib.Core.Option.{Option, none, some}
use native.Mathlib.Omega.{arith}
use cy_prus.Prelude.Tests.{◌==◌, if◌then◌else◌}
use cy_prus.Prelude.Lists.{length, get_or, set, drop}

abbrev pub Bytes : Type 0
Bytes = List ℕ

-- The bytes of a text.
abbrev pub codes : String → Bytes
codes String.[] = []
codes (String.◌∷◌ c s) = code c ∷ codes s

abbrev pub All {ℓ κ} : {A : Type ℓ} → (A → Type κ) → List A → Type κ
All P [] = Unit
All P (x ∷ xs) = P x × All P xs

abbrev pub one_more : Option ℕ → Option ℕ
one_more none = none
one_more (some n) = some (suc n)

infixl 5 ◌>>=◌
abbrev pub ◌>>=◌ {ℓ κ} : {A : Type ℓ} {B : Type κ} → Option A → (A → Option B) → Option B
none >>= next = none
some x >>= next = next x

-- `while (test(*p)) p++`: the steps made; `none` where `p` leaves the buffer.
unfoldable pub run_of : (ℕ → Bool) → Bytes → Option ℕ
run_of test [] = none
run_of test (c ∷ cs) = if test c then one_more (run_of test cs) else some 0

abbrev pub is_char : ℕ → Bool
is_char c = not (c == 0)

-- strlen
unfoldable pub strlen : Bytes → Option ℕ
strlen = run_of is_char

-- The string that begins with a buffer: its bytes before the first zero.
unfoldable pub c_string : Bytes → Bytes
c_string [] = []
c_string (c ∷ cs) = if c == 0 then [] else c ∷ c_string cs

unfoldable pub starts_with : Bytes → Bytes → Bool
starts_with [] str = true
starts_with (c ∷ cs) [] = false
starts_with (c ∷ cs) (d ∷ str) = c == d && starts_with cs str

-- strstr: how far behind `str` the first occurrence of `old` is.
unfoldable pub strstr : Bytes → Bytes → Option ℕ
strstr old [] = if starts_with old [] then some 0 else none
strstr old (c ∷ str) = if starts_with old (c ∷ str) then some 0 else one_more (strstr old str)

-- Bytes of a string.
abbrev pub IsText : Bytes → Type 0
IsText = All (λ c. is_char c ≡ true)

pub run_of-append :
    (test : ℕ → Bool) (xs : Bytes) (y : ℕ) (rest : Bytes)
    → All (λ c. test c ≡ true) xs
    → test y ≡ false
    → run_of test (xs ++ (y ∷ rest)) ≡ some (length xs)
unfolding run_of
run_of-append test [] y rest h e = rw e refl
run_of-append test (x ∷ xs) y rest h e = rw h.0 (rw (run_of-append test xs y rest h.1 e) refl)

pub strlen-append : (xs rest : Bytes) → IsText xs → strlen (xs ++ (0 ∷ rest)) ≡ some (length xs)
unfolding strlen
strlen-append xs rest h = run_of-append is_char xs 0 rest h refl

pub c_string-append : (xs rest : Bytes) → IsText xs → c_string (xs ++ (0 ∷ rest)) ≡ xs
unfolding c_string
c_string-append [] rest h = refl
c_string-append (x ∷ xs) rest h = ground (arith, c_string-append xs rest h.1)

pub drop-append : (xs ys : Bytes) → drop (length xs) (xs ++ ys) ≡ ys
drop-append [] ys = refl
drop-append (x ∷ xs) ys = drop-append xs ys

pub drop-append_past :
    (xs : Bytes) (y : ℕ) (ys : Bytes) → drop (suc (length xs)) (xs ++ (y ∷ ys)) ≡ ys
drop-append_past [] y ys = refl
drop-append_past (x ∷ xs) y ys = drop-append_past xs y ys

pub set-append :
    (xs : Bytes) (y v : ℕ) (ys : Bytes) → set (xs ++ (y ∷ ys)) (length xs) v ≡ xs ++ (v ∷ ys)
set-append [] y v ys = refl
set-append (x ∷ xs) y v ys = ap (◌∷◌ x) (set-append xs y v ys)

pub get_or-append_at : (xs : Bytes) (y : ℕ) (ys : Bytes) → get_or (xs ++ (y ∷ ys)) (length xs) 0 ≡ y
get_or-append_at [] y ys = refl
get_or-append_at (x ∷ xs) y ys = get_or-append_at xs y ys

drop_nil : (j : ℕ) → drop {A = ℕ} j [] ≡ []
drop_nil zero = refl
drop_nil (suc j) = refl

pub drop-drop : (i j : ℕ) (xs : Bytes) → drop (i + j) xs ≡ drop j (drop i xs)
drop-drop zero j xs = ap (λ (k : ℕ). drop k xs) (omega arith)
drop-drop (suc i) j [] = drop_nil (suc i + j) ∙ sym (drop_nil j)
drop-drop (suc i) j (x ∷ xs) =
    let e : suc i + j ≡ suc (i + j) = omega arith in rw e (drop-drop i j xs)

pub drop-set : (i j v : ℕ) (xs : Bytes) → drop i (set xs (i + j) v) ≡ set (drop i xs) j v
drop-set zero j v xs = ap (λ (k : ℕ). set xs k v) (omega arith)
drop-set (suc i) j v [] = refl
drop-set (suc i) j v (x ∷ xs) =
    let e : suc i + j ≡ suc (i + j) = omega arith in rw e (drop-set i j v xs)

pub set-append_past :
    (xs : Bytes) (y m v : ℕ) (ys : Bytes)
    → set (xs ++ (y ∷ ys)) (suc (length xs) + m) v ≡ xs ++ (y ∷ set ys m v)
set-append_past [] y m v ys = let e : suc 0 + m ≡ suc m = omega arith in rw e refl
set-append_past (x ∷ xs) y m v ys =
    let e : suc (suc (length xs)) + m ≡ suc (suc (length xs) + m) = omega arith in
    rw e (ap (◌∷◌ x) (set-append_past xs y m v ys))

pub All-append {ℓ κ} :
    {A : Type ℓ} (P : A → Type κ) (xs ys : List A) → All P xs → All P ys → All P (xs ++ ys)
All-append P [] ys h k = k
All-append P (x ∷ xs) ys h k = (h.0, All-append P xs ys h.1 k)
