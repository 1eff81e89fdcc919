-- ===== src/Conf/Options.antt =====
-- The options of motion: the table config_params, the fields of the contexts that it names, the
-- copy and print functions, and conf_cmdparse.
use cy_prus.Prelude.{
  ℕ, ◌+◌, Bool, true, false, ◌&&◌, ◌||◌, not, ◌==◌, leb, if◌then◌else◌, truth, Option, none, some,
  List, [], ◌∷◌, map, take, Bytes, codes,
}
use cy_prus.Prelude.Int.{ℤ, pos, negsuc}
use cy_prus.Conf.Number.{print_number, atoi}

-- The function that sets an option; the printing function of the same entry goes with it.
pub data Copy : Type 0 where
  copy_bool copy_int copy_string config_thread : Copy

-- `conf_value` is the place of the option's field in `struct context`.
pub record Param : Type 0 where
  pub param_name : Bytes
  pub param_help : Bytes
  pub conf_value : ℕ
  pub copy : Copy

-- A context: its number and file, and the fields of type `int` and `char *` by their places.
pub record CameraContext : Type 0 where
  pub threadnr : ℕ
  pub conf_filename : Bytes
  pub numbers : ℕ → ℤ
  pub strings : ℕ → Option Bytes

abbrev pub path_max : ℕ
path_max = 4096

unfoldable pub same : Bytes → Bytes → Bool
same [] [] = true
same (x ∷ xs) (y ∷ ys) = x == y && same xs ys
same [] (y ∷ ys) = false
same (x ∷ xs) [] = false

unfoldable pub to_lower : ℕ → ℕ
to_lower c = if leb b'A' c && leb c b'Z' then c + 32 else c

-- strcasecmp finds no difference.
unfoldable pub same_caseless : Bytes → Bytes → Bool
same_caseless a b = same (map to_lower a) (map to_lower b)

-- `!strncasecmp(a, b, n)`
unfoldable pub same_start : ℕ → Bytes → Bytes → Bool
same_start n a b = same_caseless (take n a) (take n b)

unfoldable pub put_number : ℕ → ℤ → CameraContext → CameraContext
put_number place z c = record c { numbers = λ k. if k == place then z else c.numbers k }

unfoldable pub put_string : ℕ → Option Bytes → CameraContext → CameraContext
put_string place s c = record c { strings = λ k. if k == place then s else c.strings k }

-- The loop of the copy functions: all contexts, or the first alone where it is a thread's.
unfoldable pub each : (CameraContext → CameraContext) → List CameraContext → List CameraContext
each put [] = []
each put (c ∷ rest) = if truth c.threadnr then put c ∷ rest else put c ∷ map put rest

unfoldable pub bool_of : Bytes → ℤ
bool_of str =
    if same str (b'1' ∷ []) || (same_caseless str (codes "yes") || same_caseless str (codes "on"))
    then pos 1
    else pos 0

unfoldable pub mystrdup : Option Bytes → Option Bytes
mystrdup none = none
mystrdup (some []) = none
mystrdup (some (c ∷ cs)) = some (take path_max (c ∷ cs))

-- What the option's copy function does; `none` is the use of a null pointer. `thread` is what
-- config_thread does with a file name.
unfoldable pub copy_value :
    (Bytes → List CameraContext → Option (List CameraContext))
    → Copy
    → ℕ
    → Option Bytes
    → List CameraContext
    → Option (List CameraContext)
copy_value thread copy_bool place none cnt = none
copy_value thread copy_bool place (some str) cnt = some (each (put_number place (bool_of str)) cnt)
copy_value thread copy_int place none cnt = none
copy_value thread copy_int place (some str) cnt = some (each (put_number place (atoi str)) cnt)
copy_value thread copy_string place str cnt = some (each (put_string place (mystrdup str)) cnt)
copy_value thread config_thread place none cnt = none
copy_value thread config_thread place (some str) cnt = thread str cnt

abbrev pub is_string : Copy → Bool
is_string copy_string = true
is_string copy_bool = false
is_string copy_int = false
is_string config_thread = false

abbrev pub is_missing : Option Bytes → Bool
is_missing none = true
is_missing (some _) = false

unfoldable pub find_param : List Param → Bytes → Option Param
find_param [] cmd = none
find_param (p ∷ rest) cmd = if same_start 305 cmd p.param_name then some p else find_param rest cmd

-- The option's value is set, unless it needs a value and there is none.
unfoldable pub set_param :
    (Bytes → List CameraContext → Option (List CameraContext))
    → Option Param
    → Option Bytes
    → List CameraContext
    → Option (List CameraContext)
set_param thread none arg cnt = some cnt
set_param thread (some p) arg cnt =
    if not (is_string p.copy) && (truth p.conf_value && is_missing arg)
    then some cnt
    else copy_value thread p.copy p.conf_value arg cnt

unfoldable pub conf_cmdparse :
    (Bytes → List CameraContext → Option (List CameraContext))
    → List Param
    → Bytes
    → Option Bytes
    → List CameraContext
    → Option (List CameraContext)
conf_cmdparse thread params cmd arg cnt = set_param thread (find_param params cmd) arg cnt

-- print_bool, print_int, print_string and print_thread without a place for its text: the option of
-- thread `threadnr`, which has nothing to print where it agrees with the main context.
abbrev pub same_number : ℤ → ℤ → Bool
same_number (pos a) (pos b) = a == b
same_number (negsuc a) (negsuc b) = a == b
same_number (pos a) (negsuc b) = false
same_number (negsuc a) (pos b) = false

abbrev pub same_string : Option Bytes → Option Bytes → Bool
same_string (some a) (some b) = same a b
same_string none b = false
same_string (some a) none = false

unfoldable pub print_value : Copy → ℕ → ℕ → CameraContext → CameraContext → Option Bytes
print_value copy_bool place threadnr main c =
    if truth threadnr && same_number (c.numbers place) (main.numbers place)
    then none
    else some (if same_number (c.numbers place) (pos 0) then codes "off" else codes "on")
print_value copy_int place threadnr main c =
    if truth threadnr && same_number (c.numbers place) (main.numbers place)
    then none
    else some (print_number (c.numbers place))
print_value copy_string place threadnr main c =
    if truth threadnr && same_string (main.strings place) (c.strings place)
    then none
    else c.strings place
print_value config_thread place threadnr main c = none
