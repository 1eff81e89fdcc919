-- ===== src/Web/Replace.antt =====
-- replace puts a new text in the place of every occurrence of an old one. The pointers `p` and `q`
-- are what is left of the string there.
use cy_prus.Prelude.{
  ℕ, zero, suc, ◌+◌, ◌-◌, ◌*◌, ◌%◌, ◌^◌, ◌==◌, if◌then◌else◌, Option, none, some, ◌++◌, length,
  take, drop, Bytes, strstr,
}

-- The first loop: how often `old` is found, and what is left at the end.
abbrev pub count_more : (Bytes → ℕ × Bytes) → Bytes → Bytes → Option ℕ → ℕ × Bytes
count_more loop old p none = (0, p)
count_more loop old p (some l) = let (n, rest) = loop (drop (l + length old) p) in (suc n, rest)

-- A round takes at least one byte where `old` is not empty.
unfoldable pub count_loop : ℕ → Bytes → Bytes → ℕ × Bytes
count_loop zero old p = (0, p)
count_loop (suc fuel) old p = count_more (count_loop fuel old) old p (strstr old p)

-- `retlen`, an unsigned 64-bit number.
unfoldable pub replace_size : Bytes → Bytes → Bytes → ℕ
replace_size str old new =
    if length old == length new
    then length str
    else (let (count, rest) = count_loop (length str + 1) old str in
        (length str
          - length rest
          + length rest
          + count * ((length new + 2 ^ 64 - length old) % 2 ^ 64))
        % 2 ^ 64)

-- The second loop, which copies.
abbrev pub copy_more : (Bytes → Bytes) → Bytes → Bytes → Bytes → Option ℕ → Bytes
copy_more loop old new p none = p
copy_more loop old new p (some l) = take l p ++ (new ++ loop (drop (l + length old) p))

unfoldable pub copy_loop : ℕ → Bytes → Bytes → Bytes → Bytes
copy_loop zero old new p = p
copy_loop (suc fuel) old new p = copy_more (copy_loop fuel old new) old new p (strstr old p)

unfoldable pub replace : Bytes → Bytes → Bytes → Bytes
replace str old new = copy_loop (length str + 1) old new str
