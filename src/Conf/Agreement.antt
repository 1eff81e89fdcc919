-- ===== src/Conf/Agreement.antt =====
-- After its own file has been read, every context agrees with the one that was written.
use cy_prus.Prelude.{
  ℕ, ◌≡◌, refl, sym, ap, ◌==◌, Option, none, some, List, [], ◌∷◌, arith, length, map, Bytes, All,
  Bool-cases, inl, inr, ==→≡, ≡→==,
}
use cy_prus.Prelude.Int.{ℤ}
use cy_prus.Conf.Options.{
  Param, CameraContext, Copy, copy_bool, copy_int, copy_string, config_thread, each, put_number,
  put_string,
}
use cy_prus.Conf.File.{conf_process}
use cy_prus.Conf.Print.{conf_print}
use cy_prus.Conf.Printable.{restore_string, restore_option}
use cy_prus.Conf.Restored.{restore, IsTable, IsTitle, conf_print-Reads}

abbrev Carries : Option Bytes → Option Bytes → Type 0
Carries none there = Unit
Carries (some s) there = there ≡ some s

-- The field of an option has the value that it has in `c`, if it has one there.
abbrev Has : CameraContext → Copy → ℕ → CameraContext → Type 0
Has c copy_bool place d = d.numbers place ≡ c.numbers place
Has c copy_int place d = d.numbers place ≡ c.numbers place
Has c copy_string place d = Carries (c.strings place) (d.strings place)
Has c config_thread place d = Unit

abbrev pub Agrees : CameraContext → List Param → CameraContext → Type 0
Agrees c params d = All (λ p. Has c p.copy p.conf_value d) params

-- The list of contexts starts with the main one.
abbrev pub IsMain : List CameraContext → Type 0
IsMain [] = Unit
IsMain (c ∷ rest) = c.threadnr ≡ 0

each_main :
    (put : CameraContext → CameraContext) (cnt : List CameraContext)
    → IsMain cnt
    → each put cnt ≡ map put cnt
unfolding each
each_main put [] h = refl
each_main put (c ∷ rest) h = ground (arith, h)

All-map :
    (P Q : CameraContext → Type 0) (put : CameraContext → CameraContext) (cnt : List CameraContext)
    → ((d : CameraContext) → P d → Q (put d))
    → All P cnt
    → All Q (map put cnt)
All-map P Q put [] h k = tt
All-map P Q put (c ∷ rest) h k = (h c k.0, All-map P Q put rest h k.1)

number_keep :
    (c d : CameraContext) (place k : ℕ)
    → d.numbers k ≡ c.numbers k
    → (put_number place (c.numbers place) d).numbers k ≡ c.numbers k
unfolding put_number
number_keep c d place k h = elim (Bool-cases (k == place)) [
  | inl e ↦ rw e (ap c.numbers (sym (==→≡ k place e)))
  | inr ne ↦ rw ne h
]

number_set : (d : CameraContext) (place : ℕ) (z : ℤ) → (put_number place z d).numbers place ≡ z
unfolding put_number
number_set d place z = rw (≡→== place place refl) refl

string_set :
    (d : CameraContext) (place : ℕ) (s : Option Bytes) → (put_string place s d).strings place ≡ s
unfolding put_string
string_set d place s = rw (≡→== place place refl) refl

Carries-self : (s : Option Bytes) → Carries s s
Carries-self none = tt
Carries-self (some s) = refl

string_keep :
    (c d : CameraContext) (place k : ℕ) (s : Option Bytes)
    → c.strings place ≡ s
    → Carries (c.strings k) (d.strings k)
    → Carries (c.strings k) ((put_string place s d).strings k)
unfolding put_string
string_keep c d place k s e h = elim (Bool-cases (k == place)) [
  | inl same ↦ rw (same, ap c.strings (==→≡ k place same), e) (Carries-self s)
  | inr ne ↦ rw ne h
]

always :
    (P : CameraContext → Type 0) (cnt : List CameraContext)
    → ((d : CameraContext) → P d)
    → All P cnt
always P [] h = tt
always P (d ∷ cnt) h = (h d, always P cnt h)

module _ (c : CameraContext) where
  Has-put_number :
      (k : Copy) (at place : ℕ) (d : CameraContext)
      → Has c k at d
      → Has c k at (put_number place (c.numbers place) d)
  unfolding put_number
  Has-put_number copy_bool at place d h = number_keep c d place at h
  Has-put_number copy_int at place d h = number_keep c d place at h
  Has-put_number copy_string at place d h = h
  Has-put_number config_thread at place d h = tt

  Has-put_string :
      (k : Copy) (at place : ℕ) (s : Option Bytes) (d : CameraContext)
      → c.strings place ≡ s
      → Has c k at d
      → Has c k at (put_string place s d)
  unfolding put_string
  Has-put_string copy_bool at place s d e h = h
  Has-put_string copy_int at place s d e h = h
  Has-put_string copy_string at place s d e h = string_keep c d place at s e h
  Has-put_string config_thread at place s d e h = tt

  keep_string :
      (k : Copy) (at place : ℕ) (cnt : List CameraContext)
      → IsMain cnt
      → All (Has c k at) cnt
      → (s : Option Bytes) → c.strings place ≡ s
      → All (Has c k at) (restore_string place s cnt)
  keep_string k at place cnt m h none e = h
  keep_string k at place cnt m h (some s) e =
      rw (each_main (put_string place (some s)) cnt m) (
        All-map _ _ (put_string place (some s)) cnt (λ d. Has-put_string k at place (some s) d e) h)

  set_string :
      (place : ℕ) (cnt : List CameraContext)
      → IsMain cnt
      → (s : Option Bytes) → c.strings place ≡ s
      → All (λ d. Carries s (d.strings place)) (restore_string place s cnt)
  set_string place cnt m none e = always _ cnt (λ d. tt)
  set_string place cnt m (some s) e = rw (each_main (put_string place (some s)) cnt m) (
      All-map (λ d. Unit) _ (put_string place (some s)) cnt (λ d u. string_set d place (some s))
        (always _ cnt (λ d. tt)))

  -- One option of the file, for all that already agrees.
  keep_option :
      (k : Copy) (at : ℕ) (k' : Copy) (place : ℕ) (cnt : List CameraContext)
      → IsMain cnt
      → All (Has c k at) cnt
      → All (Has c k at) (restore_option k' place c cnt)
  keep_option k at copy_bool place cnt m h =
      rw (each_main (put_number place (c.numbers place)) cnt m)
        (All-map _ _ (put_number place (c.numbers place)) cnt (Has-put_number k at place) h)
  keep_option k at copy_int place cnt m h =
      rw (each_main (put_number place (c.numbers place)) cnt m)
        (All-map _ _ (put_number place (c.numbers place)) cnt (Has-put_number k at place) h)
  keep_option k at copy_string place cnt m h = keep_string k at place cnt m h (c.strings place) refl
  keep_option k at config_thread place cnt m h = h

  -- And for the option itself.
  set_option :
      (k : Copy) (place : ℕ) (cnt : List CameraContext)
      → IsMain cnt
      → All (Has c k place) (restore_option k place c cnt)
  set_option copy_bool place cnt m = rw (each_main (put_number place (c.numbers place)) cnt m) (
      All-map (λ d. Unit) _ (put_number place (c.numbers place)) cnt
        (λ d u. number_set d place (c.numbers place)) (always _ cnt (λ d. tt)))
  set_option copy_int place cnt m = rw (each_main (put_number place (c.numbers place)) cnt m) (
      All-map (λ d. Unit) _ (put_number place (c.numbers place)) cnt
        (λ d u. number_set d place (c.numbers place)) (always _ cnt (λ d. tt)))
  set_option copy_string place cnt m = set_string place cnt m (c.strings place) refl
  set_option config_thread place cnt m = always _ cnt (λ d. tt)

  IsMain-put_number :
      (place : ℕ) (z : ℤ) (cnt : List CameraContext)
      → IsMain cnt
      → IsMain (each (put_number place z) cnt)
  unfolding each put_number
  IsMain-put_number place z [] m = tt
  IsMain-put_number place z (d ∷ cnt) m = ground (arith, m)

  IsMain-put_string :
      (place : ℕ) (s : Option Bytes) (cnt : List CameraContext)
      → IsMain cnt
      → IsMain (each (put_string place s) cnt)
  unfolding each put_string
  IsMain-put_string place s [] m = tt
  IsMain-put_string place s (d ∷ cnt) m = ground (arith, m)

  IsMain-string :
      (place : ℕ) (s : Option Bytes) (cnt : List CameraContext)
      → IsMain cnt
      → IsMain (restore_string place s cnt)
  IsMain-string place none cnt m = m
  IsMain-string place (some s) cnt m = IsMain-put_string place (some s) cnt m

  IsMain-option :
      (k : Copy) (place : ℕ) (cnt : List CameraContext)
      → IsMain cnt
      → IsMain (restore_option k place c cnt)
  IsMain-option copy_bool place cnt m = IsMain-put_number place (c.numbers place) cnt m
  IsMain-option copy_int place cnt m = IsMain-put_number place (c.numbers place) cnt m
  IsMain-option copy_string place cnt m = IsMain-string place (c.strings place) cnt m
  IsMain-option config_thread place cnt m = m

  keep-All :
      (k : Copy) (at : ℕ) (params : List Param) (cnt : List CameraContext)
      → IsMain cnt
      → All (Has c k at) cnt
      → All (Has c k at) (restore c params cnt)
  keep-All k at [] cnt m h = h
  keep-All k at (p ∷ params) cnt m h =
      keep-All k at params (restore_option p.copy p.conf_value c cnt)
        (IsMain-option p.copy p.conf_value cnt m) (keep_option k at p.copy p.conf_value cnt m h)

  pair-All :
      (P Q : CameraContext → Type 0) (cnt : List CameraContext)
      → All P cnt
      → All Q cnt
      → All (λ d. P d × Q d) cnt
  pair-All P Q [] h k = tt
  pair-All P Q (d ∷ cnt) h k = ((h.0, k.0), pair-All P Q cnt h.1 k.1)

  restore-Agrees :
      (params : List Param) (cnt : List CameraContext)
      → IsMain cnt
      → All (Agrees c params) (restore c params cnt)
  restore-Agrees [] cnt m = always _ cnt (λ d. tt)
  restore-Agrees (p ∷ params) cnt m =
      let next : List CameraContext = restore_option p.copy p.conf_value c cnt in
      let m' = IsMain-option p.copy p.conf_value cnt m in
      pair-All (Has c p.copy p.conf_value) (Agrees c params) (restore c params next)
        (keep-All p.copy p.conf_value params next m' (set_option p.copy p.conf_value cnt m))
        (restore-Agrees params next m')

-- For a single camera, conf_process reads the file that conf_print wrote without a fault, into any
-- contexts that start with a main one; afterwards every option that had a value in the written
-- context has that value in every context. The options are those of a table whose entries are found
-- by their names, with comments as help and names of less than 1000 bytes; a Boolean option is 0 or
-- 1, a number has at most ten digits, and a string has from 1 to 2999 bytes, no newline and either
-- quotation marks when it is printed or no need of them.
pub conf_process-conf_print :
    (thread : Bytes → List CameraContext → Option (List CameraContext)) (table : List Param)
    (c : CameraContext) (version line : Bytes) (cnt : List CameraContext)
    → IsTitle version
    → IsTitle c.conf_filename
    → IsTable table c table
    → IsMain cnt
    → (r : List CameraContext) × (conf_process thread table line
          (conf_print version 0 c c [] table)
          cnt
        ≡ some r)
      × All (Agrees c table) r
unfolding conf_process
conf_process-conf_print thread table c version line cnt v n t m = (
  restore c table cnt,
  conf_print-Reads thread table c version cnt v n t (length (conf_print version 0 c c [] table))
      line (omega arith),
  restore-Agrees c table cnt m,
)
