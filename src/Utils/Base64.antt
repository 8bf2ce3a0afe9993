-- ===== src/Utils/Base64.antt =====
-- lib/utils.c `base64encode` and `base64decode`.
pub mod RoundTrip
use ashd.Base.{
  ltb, leb, ◌==◌, if◌then◌else◌, Bytes, codes, ℕ, zero, suc, ◌+◌, ◌-◌, ◌*◌, ◌/◌, ◌%◌, ◌^◌, ◌&&◌,
  ◌||◌, Option, none, some, List, [], ◌∷◌,
}

abbrev pub base64set : Bytes
base64set = codes "ABCDEFGHIJKLMNOPQRSTUVWXYZabcdefghijklmnopqrstuvwxyz0123456789+/"

-- An entry of a table.
unfoldable pub entry : List ℕ → ℕ → ℕ
entry [] n = 0
entry (x ∷ xs) zero = x
entry (x ∷ xs) (suc n) = entry xs n

unfoldable pub digit64 : ℕ → ℕ
unfolding entry
digit64 n = entry base64set n

-- `base64rev`, each of its runs by its place; `none` is -1.
unfoldable pub base64rev : ℕ → Option ℕ
base64rev c =
    if c == b'+'
    then some 62
    else if c == b'/'
    then some 63
    else if leb b'0' c && leb c b'9'
    then some (c - b'0' + 52)
    else if leb b'A' c && leb c b'Z'
    then some (c - b'A')
    else if leb b'a' c && leb c b'z'
    then some (c - b'a' + 26)
    else none

-- `x & 0xfc`, `x & 0x03` and their like, followed by a shift, are a quotient and a remainder.
unfoldable pub base64encode : Bytes → Bytes
unfolding digit64
base64encode [] = []
base64encode (a ∷ []) = digit64 (a / 4) ∷ digit64 (a % 4 * 16) ∷ codes "=="
base64encode (a ∷ b ∷ []) =
    digit64 (a / 4) ∷ digit64 (a % 4 * 16 + b / 16) ∷ digit64 (b % 16 * 4) ∷ codes "="
base64encode (a ∷ b ∷ c ∷ s) =
    digit64 (a / 4)
    ∷ digit64 (a % 4 * 16 + b / 16)
    ∷ digit64 (b % 16 * 4 + c / 64)
    ∷ digit64 (c % 64)
    ∷ base64encode s

-- `b` and `cur`: how many bits of `cur` are missing, which is 8, 2, 4 or 6 between two bytes, and
-- its bits so far, those above them. So `|` adds, and a `char` drops the bits above its eight.
pub record Decoder : Type 0 where
  pub missing : ℕ
  pub cur : ℕ

-- One digit of value `v`: the byte that it completes, if it does, and the state behind it. The
-- source takes 6 from `b`, and where that leaves it at -n or 0, shifts `v` down by n.
unfoldable pub decode_digit : Decoder → ℕ → Option ℕ × Decoder
decode_digit d v =
    if ltb 6 d.missing
    then (none, record { missing = d.missing - 6; cur = d.cur + v * 2 ^ (d.missing - 6) })
    else (
      some (d.cur + v / 2 ^ (6 - d.missing)),
      record { missing = d.missing + 2; cur = v * 2 ^ (d.missing + 2) % 256 },
    )

-- The byte in front of the decoded ones.
abbrev pub add_byte : Option ℕ → Option Bytes → Option Bytes
add_byte o none = none
add_byte none (some s) = some s
add_byte (some c) (some s) = some (c ∷ s)

-- The loop. It ends at a NUL, at a byte that is negative as a `char`, and at an equals sign; a
-- newline is skipped; `none` is NULL. The bits that are left over are dropped.
unfoldable pub decode_loop : Bytes → Decoder → Option Bytes
unfolding base64rev decode_digit
decode_loop [] d = some []
decode_loop (c ∷ s) d =
    let skip = decode_loop s d in
    let next = λ (v : ℕ). add_byte (decode_digit d v).0 (decode_loop s (decode_digit d v).1) in
    if c == 0 || leb 128 c
    then some []
    else if c == b'='
    then some []
    else if c == 10
    then skip
    else elim (base64rev c) [ none ↦ none | some v ↦ next v ]

unfoldable pub base64decode : Bytes → Option Bytes
unfolding decode_loop
base64decode s = decode_loop s (record { missing = 8; cur = 0 })
