-- ===== src/Req/Write.antt =====
-- lib/req.c `writeresp` and `writerespb`: a response as text. The formats `%i` and `%zx` of printf
-- are those of the C library.
use ashd.Base.{
  ltb, if◌then◌else◌, ◌>>=◌, Bytes, ℕ, zero, suc, ◌+◌, ◌/◌, ◌%◌, Option, some, List, [], ◌∷◌, ◌++◌,
}
use ashd.Req.Head.{Header, Hthead}

-- The digits of `n` in front of `out`, with a fuel that is at least the number of digits less one.
unfoldable pub print_digits : ℕ → ℕ → Bytes → Bytes
print_digits zero n out = (b'0' + n % 10) ∷ out
print_digits (suc fuel) n out =
    let more = print_digits fuel (n / 10) ((b'0' + n % 10) ∷ out) in
    if ltb n 10 then (b'0' + n) ∷ out else more

-- `%i` of a number that is not negative.
unfoldable pub print_dec : ℕ → Bytes
unfolding print_digits
print_dec n = print_digits n n []

-- The header loop: `"%s: %s\r\n"`.
unfoldable pub write_headers : List Header → Bytes
write_headers [] = []
write_headers ((n, v) ∷ hs) = n ++ (b':' ∷ b' ' ∷ (v ++ (13 ∷ 10 ∷ write_headers hs)))

-- `none` is a NULL string behind `%s`.
unfoldable pub writeresp : Hthead → Option Bytes
unfolding print_dec write_headers
writeresp resp = do
  ver ← resp.ver
  msg ← resp.msg
  some (
      ver
      ++ (b' ' ∷ (print_dec resp.code ++ (b' ' ∷ (msg ++ (13 ∷ 10 ∷ write_headers resp.headers))))))

unfoldable pub writerespb : Hthead → Option Bytes
unfolding print_dec write_headers
writerespb resp = do
  ver ← resp.ver
  msg ← resp.msg
  some (
      ver
      ++ (b' ' ∷ (print_dec resp.code ++ (b' ' ∷ (msg ++ (13 ∷ 10 ∷ write_headers resp.headers))))))
