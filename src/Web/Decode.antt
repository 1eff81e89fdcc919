-- ===== src/Web/Decode.antt =====
-- url_decode works in place: `at` is the pointer `data`, `out` the pointer `urldecoded`, and `left`
-- the unsigned 64-bit `length`. `none` is an access outside the buffer. What sscanf leaves in `i`
-- for the two characters of an escape is the parameter `scan`: also the value of `i` where sscanf
-- reads no number.
use cy_prus.Prelude.{
  ℕ, zero, suc, ◌+◌, ◌-◌, ◌%◌, ◌^◌, ◌==◌, ltb, if◌then◌else◌, Option, none, some, get_elem?, set,
  length, Bytes, ◌>>=◌,
}
use cy_prus.Prelude.Int.{ℤ, pos, negsuc, ltb_ℤ}

pub record Url : Type 0 where
  pub buffer : Bytes
  pub at : ℕ
  pub out : ℕ
  pub left : ℕ

-- `(char) i`, as a byte.
abbrev pub char_of : ℤ → ℕ
char_of (pos n) = n % 256
char_of (negsuc n) = 255 - n % 256

unfoldable pub put_byte : ℕ → Url → Url
put_byte c s = record s { buffer = set s.buffer s.out c; out = s.out + 1 }

-- The end of a round: `data` and `length` have moved by `n`.
unfoldable pub advance : ℕ → Url → Url
advance n s = record s { at = s.at + n; left = (s.left + (2 ^ 64 - n)) % 2 ^ 64 }

module _ (scan : ℕ → ℕ → ℤ) where
  -- What is written for an escape.
  unfoldable pub put_escape : ℕ → ℕ → Url → Url
  put_escape a b s =
      if ltb_ℤ (scan a b) (pos 128)
      then put_byte (char_of (scan a b)) s
      else put_byte b (put_byte a (put_byte b'%' s))

  unfoldable pub decode_escape : Url → Option Url
  decode_escape s = do
    a ← get_elem? s.buffer (s.at + 1)
    b ← get_elem? s.buffer (s.at + 2)
    some (advance 3 (put_escape a b s))

  unfoldable pub decode_char : Url → ℕ → Option Url
  decode_char s c =
      let escape = decode_escape s in
      if c == b'%' then escape else some (advance 1 (put_byte (if c == b'+' then b' ' else c) s))

  unfoldable pub url_step : Url → Option Url
  url_step s = get_elem? s.buffer s.at >>= decode_char s

  unfoldable pub close : Url → Option Bytes
  close s = if ltb s.out (length s.buffer) then some (set s.buffer s.out 0) else none

  -- The pointer moves on in every round, so that it leaves the buffer when the fuel is spent.
  unfoldable pub decode : ℕ → Url → Option Bytes
  decode zero s = if s.left == 0 then close s else none
  decode (suc fuel) s =
      let rest = url_step s >>= decode fuel in if s.left == 0 then close s else rest

  unfoldable pub url_decode : Bytes → ℕ → Option Bytes
  url_decode urlencoded n =
      decode (length urlencoded) (record { buffer = urlencoded; at = 0; out = 0; left = n })
