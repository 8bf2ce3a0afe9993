-- ===== src/Utils/Hex.antt =====
-- lib/utils.c `hexdigit`, and the upper-case digits of printf's `%X`.
use ashd.Base.{
  ltb, leb, if◌then◌else◌, Bool-cases, ℕ, ◌+◌, ◌-◌, ◌<◌, ◌≡◌, inl, inr, ◌&&◌, Option, none, some,
  arith,
}

-- The value of a digit; `none` is the return value -1.
unfoldable pub hexdigit : ℕ → Option ℕ
hexdigit c =
    if leb b'0' c && leb c b'9'
    then some (c - b'0')
    else if leb b'a' c && leb c b'f'
    then some (c - b'a' + 10)
    else if leb b'A' c && leb c b'F'
    then some (c - b'A' + 10)
    else none

-- The digit that `%X` prints for a value below 16.
unfoldable pub upper_digit : ℕ → ℕ
upper_digit d = if ltb d 10 then b'0' + d else b'A' + (d - 10)

-- The digit that `%x` prints.
unfoldable pub lower_digit : ℕ → ℕ
lower_digit d = if ltb d 10 then b'0' + d else b'a' + (d - 10)

pub hexdigit-upper_digit : (d : ℕ) → d < 16 → hexdigit (upper_digit d) ≡ some d
unfolding hexdigit upper_digit
hexdigit-upper_digit d h = elim (Bool-cases (ltb d 10)) [
  | inl e ↦ rw e (ground arith)
  | inr e ↦ rw e (ground arith)
]

pub hexdigit-lower_digit : (d : ℕ) → d < 16 → hexdigit (lower_digit d) ≡ some d
unfolding hexdigit lower_digit
hexdigit-lower_digit d h = elim (Bool-cases (ltb d 10)) [
  | inl e ↦ rw e (ground arith)
  | inr e ↦ rw e (ground arith)
]
