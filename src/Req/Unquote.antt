-- ===== src/Req/Unquote.antt =====
-- lib/req.c `unquoteurl`.
use ashd.Base.{
  leb, ◌==◌, if◌then◌else◌, ◌>>=◌, Bytes, ℕ, ◌+◌, ◌-◌, ◌*◌, ◌&&◌, Option, none, some, [], ◌∷◌,
}

-- The ladder for one digit behind `%`.
unfoldable pub quoted_digit : ℕ → Option ℕ
quoted_digit c =
    if leb b'0' c && leb c b'9'
    then some (c - b'0')
    else if leb b'a' c && leb c b'f'
    then some (c - b'a' + 10)
    else if leb b'A' c && leb c b'F'
    then some (c - b'A' + 10)
    else none

-- The two digits of an escape; the second fills the four bits that the shift of the first left.
unfoldable pub quoted_byte : ℕ → ℕ → Option ℕ
unfolding quoted_digit
quoted_byte a b = do high ← quoted_digit a; low ← quoted_digit b; some (high * 16 + low)

-- One more byte in the buffer.
abbrev pub bufadd : ℕ → Option Bytes → Option Bytes
bufadd c none = none
bufadd c (some s) = some (c ∷ s)

-- An escape, if the two bytes behind `%` are digits.
unfoldable pub unquote_escape : Option ℕ → Option Bytes → Option Bytes
unquote_escape none rest = none
unquote_escape (some c) rest = bufadd c rest

-- The bytes of the buffer; `none` is NULL. A byte `%00` ends the C string that the caller sees.
unfoldable pub unquoteurl : Bytes → Option Bytes
unfolding quoted_byte unquote_escape
unquoteurl [] = some []
unquoteurl (c ∷ []) = if c == b'%' then none else some (c ∷ [])
unquoteurl (c ∷ a ∷ []) =
    let plain = bufadd c (unquoteurl (a ∷ [])) in if c == b'%' then none else plain
unquoteurl (c ∷ a ∷ b ∷ s) =
    let escaped = unquote_escape (quoted_byte a b) (unquoteurl s) in
    let plain = bufadd c (unquoteurl (a ∷ b ∷ s)) in if c == b'%' then escaped else plain
