-- ===== src/Web/Tests.antt =====
-- Runs and instances for the web control.
use cy_prus.Prelude.{
  ℕ, ◌+◌, ◌-◌, ◌*◌, ◌≡◌, refl, none, some, [], ◌∷◌, ◌++◌, arith, Bytes, codes, length, strstr,
  starts_with,
}
use cy_prus.Prelude.Int.{ℤ, pos}
use cy_prus.Web.Decode.{url_decode}
use cy_prus.Web.Encoded.{end, char, escape, url_decode-Encoded}
use cy_prus.Web.CutOff.{cut_off, url_decode-cut_off}
use cy_prus.Web.Replace.{replace, replace_size, copy_loop}
use cy_prus.Web.Replaced.{Rewritten, replace-Rewritten}
use cy_prus.Web.Size.{replace-size}

-- Two digits, without the letters.
abbrev two_digits : ℕ → ℕ → ℤ
two_digits a b = pos ((a - b'0') * 16 + (b - b'0'))

url_example :
    (rest : Bytes) × (url_decode two_digits (codes "a+%41b" ++ (0 ∷ [])) (length (codes "a+%41b"))
      ≡ some (codes "a Ab" ++ (0 ∷ rest)))
url_example =
    url_decode-Encoded two_digits []
      (char {c = b'a'} refl
        (char {c = b'+'} refl (escape {a = b'4'} {b = b'1'} (char {c = b'b'} refl end))))
      (omega arith)

cut_off_example :
    url_decode two_digits
      (codes "a" ++ (cut_off (some b'4') ++ (0 ∷ [])))
      (length (codes "a" ++ cut_off (some b'4')))
    ≡ none
cut_off_example =
    url_decode-cut_off two_digits (some b'4') [] (char {c = b'a'} refl end) (omega arith)

lines_replaced : replace (codes "a\n#b\n#c") (codes "\n#") (codes "<br>") ≡ codes "a<br>b<br>c"
unfolding replace copy_loop strstr starts_with
lines_replaced = refl

rewritten_example :
    Rewritten
      (codes "\n#")
      (codes "<br>")
      (codes "a\n#b")
      (replace (codes "a\n#b") (codes "\n#") (codes "<br>"))
rewritten_example = replace-Rewritten (codes "\n#") (codes "<br>") (omega arith) (codes "a\n#b")

result_length : length (replace (codes "a\n#b") (codes "\n#") (codes "<br>")) ≡ 6
unfolding replace copy_loop strstr starts_with
result_length = refl

size_example :
    replace_size (codes "a\n#b") (codes "\n#") (codes "<br>")
    ≡ length (replace (codes "a\n#b") (codes "\n#") (codes "<br>"))
size_example =
    replace-size (codes "a\n#b") (codes "\n#") (codes "<br>") (omega arith)
      (omega (arith, result_length)) (omega arith) (omega arith)
