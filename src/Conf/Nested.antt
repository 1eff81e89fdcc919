-- ===== src/Conf/Nested.antt =====
-- A thread option inside a thread file is not refused.
use cy_prus.Prelude.{
  ℕ, suc, ◌+◌, ◌<◌, ◌≡◌, refl, ◌∙◌, Bool, true, false, if◌then◌else◌, Option, none, some, List, [],
  ◌∷◌, ◌++◌, arith, length, length-append, Bytes,
}
use cy_prus.Conf.Written.{Shown, IsLine, line_of}
use cy_prus.Conf.Trim.{parse_line-line_of}
use cy_prus.Conf.Options.{
  Param, CameraContext, config_thread, find_param, set_param, copy_value, put_string, mystrdup,
  is_string, conf_cmdparse,
}
use cy_prus.Conf.File.{
  process_line, process_lines, conf_process, nested_thread, malloc_strings, load_thread,
}
use cy_prus.Conf.Lines.{IsBody, fgets-append}

kept :
    (b : Bool) (place : ℕ) (c : CameraContext)
    → (if b then put_string place (mystrdup (c.strings place)) c else c).threadnr ≡ c.threadnr
unfolding put_string
kept true place c = refl
kept false place c = refl

malloc_strings_threadnr :
    (params : List Param) (c : CameraContext) → (malloc_strings params c).threadnr ≡ c.threadnr
unfolding malloc_strings
malloc_strings_threadnr [] c = refl
malloc_strings_threadnr (p ∷ params) c =
    malloc_strings_threadnr params (
      if is_string p.copy then put_string p.conf_value (mystrdup (c.strings p.conf_value)) c else c)
    ∙ kept (is_string p.copy) p.conf_value c

nested_fault :
    (files : Bytes → Option Bytes) (str file : Bytes) (c : CameraContext)
    (rest : List CameraContext)
    → c.threadnr ≡ 0
    → files str ≡ some file
    → nested_thread files str (c ∷ rest) ≡ none
unfolding nested_thread
nested_fault files str file c rest m e = rw m (rw e refl)

-- The first line of the file, at any fuel.
first_line :
    {lead name gap shown value : Bytes} {sep : ℕ} (files : Bytes → Option Bytes)
    (params : List Param) (fuel : ℕ) (line more other : Bytes) (c : CameraContext) (p : Param)
    → IsLine lead name sep gap shown
    → Shown shown value
    → IsBody (line_of lead name sep gap shown)
    → length (line_of lead name sep gap shown) < 4094
    → find_param params name ≡ some p
    → p.copy ≡ config_thread
    → c.threadnr ≡ 0
    → files value ≡ some other
    → process_lines
        (nested_thread files)
        params
        (suc fuel)
        line
        (line_of lead name sep gap shown ++ (b'\n' ∷ more))
        (c ∷ [])
      ≡ none
unfolding process_lines process_line conf_cmdparse set_param copy_value
first_line {lead} {name} {gap} {shown} {value} {sep} files params fuel line more other c p w s b
      short found copy m there =
    let f = fgets-append 4095 line (line_of lead name sep gap shown) more b (omega arith) in
    let r = parse_line-line_of (b'\n' ∷ []) f.0 w s (refl, tt) in
    let fault = nested_fault files value other c [] m there in
    rw f.1 (rw r.1 (rw found (rw copy (ground (arith, fault)))))

-- A thread file that is opened from the main context and whose first line names another file that
-- can be opened makes config_thread pass an inner pointer to realloc.
pub load_thread_nested :
    {lead name gap shown value : Bytes} {sep : ℕ} (files : Bytes → Option Bytes) (line : Bytes)
    (params : List Param) (str more other : Bytes) (c : CameraContext)
    (threads : List CameraContext) (p : Param)
    → IsLine lead name sep gap shown
    → Shown shown value
    → IsBody (line_of lead name sep gap shown)
    → length (line_of lead name sep gap shown) < 4094
    → find_param params name ≡ some p
    → p.copy ≡ config_thread
    → c.threadnr ≡ 0
    → files str ≡ some (line_of lead name sep gap shown ++ (b'\n' ∷ more))
    → files value ≡ some other
    → load_thread files line params str (c ∷ threads) ≡ none
unfolding load_thread conf_process
load_thread_nested {lead} {name} {gap} {shown} {value} {sep} files line params str more other c
      threads p w s b short found copy m opened there =
    let file : Bytes = line_of lead name sep gap shown ++ (b'\n' ∷ more) in
    let fresh : CameraContext = record (malloc_strings params c) { conf_filename = str } in
    let long : length file ≡ suc (length (line_of lead name sep gap shown) + length more) =
      omega (arith, length-append (line_of lead name sep gap shown) (b'\n' ∷ more)) in
    let stop =
      first_line files params (length (line_of lead name sep gap shown) + length more) line more
        other fresh p w s b short found copy (malloc_strings_threadnr params c ∙ m) there in
    rw m (rw opened (rw long (rw stop refl)))
