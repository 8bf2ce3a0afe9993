-- ===== src/Req/Parse/Response.antt =====
-- The response parsers read back what the writers print, and read a bounded number of bytes.
use native.Mathlib.Nat.{zero-add}
use ashd.Base.{
  ltb, ltb→lt, Bool-cases, length, length-append, All, Bytes, ℕ, zero, suc, ◌+◌, ◌-◌, ◌*◌, ◌/◌, ◌%◌,
  ◌≤◌, ◌<◌, ◌≡◌, refl, ap, ◌∙◌, inl, inr, some, List, [], ◌∷◌, ◌++◌, append-nil, append_assoc,
  arith,
}
use ashd.Req.Head.{Header, Hthead, mkresp}
use ashd.Req.Parse.{
  max_headers, read_version, read_code, read_message, parseresponse, parseresponseb,
}
use ashd.Req.Parse.Headers.{IsPrintable, parseheaders-write_headers}
use ashd.Req.Write.{print_digits, print_dec, write_headers, writeresp, writerespb}

abbrev IsVersionByte : ℕ → Type 0
IsVersionByte c = (32 < c) × (c < 128)

abbrev IsMessageByte : ℕ → Type 0
IsMessageByte c = 32 ≤ c

-- A status line that survives the trip.
pub record IsStatus (ver msg : Bytes) (code : ℕ) : Type 0 where
  pub ver_bytes : All IsVersionByte ver
  pub ver_length : length ver < 128
  pub code_range : code < 10000
  pub msg_bytes : All IsMessageByte msg
  pub msg_length : length msg < 512

unfoldable pub response : Bytes → Bytes → ℕ → List Header → Hthead
unfolding mkresp
response ver msg code hs = record (mkresp code msg ver) { headers = hs }

read_version-append :
    (v rest ver : Bytes)
    → All IsVersionByte v
    → length ver + length v < 128
    → read_version (v ++ b' ' ∷ rest) ver ≡ some (ver ++ v, rest)
unfolding read_version
read_version-append [] rest ver b f = rw append-nil
read_version-append (c ∷ v) rest ver (b, bs) f = ground (
  arith,
  read_version-append v rest (ver ++ c ∷ []) bs (omega (arith, length-append ver (c ∷ []))),
  append_assoc ver (c ∷ []) v,
)

read_message-append :
    (m rest msg : Bytes)
    → All IsMessageByte m
    → length msg + length m < 512
    → read_message (m ++ 13 ∷ 10 ∷ rest) msg ≡ some (msg ++ m, rest)
unfolding read_message
read_message-append [] rest msg b f = rw append-nil
read_message-append (c ∷ m) rest msg (b, bs) f = ground (
  arith,
  read_message-append m rest (msg ++ c ∷ []) bs (omega (arith, length-append msg (c ∷ []))),
  append_assoc msg (c ∷ []) m,
)

-- Reading a last digit.
read_code_digit :
    (d n : ℕ) (out : Bytes)
    → d < 10
    → n * 10 + d < 10000
    → read_code ((b'0' + d) ∷ out) n ≡ read_code out (n * 10 + d)
unfolding read_code
read_code_digit d n out b f =
    let e : n * 10 + (48 + d - 48) ≡ n * 10 + d = omega arith in rw e (ground arith)

last_digit : (n : ℕ) → n / 10 * 10 + n % 10 ≡ n
last_digit n = omega arith

print_digits-append :
    (fuel n : ℕ) (out rest : Bytes)
    → print_digits fuel n out ++ rest ≡ print_digits fuel n (out ++ rest)
unfolding print_digits
print_digits-append zero n out rest = refl
print_digits-append (suc fuel) n out rest =
    ground (arith, print_digits-append fuel (n / 10) ((b'0' + n % 10) ∷ out) rest)

read_code-print_digits :
    (fuel n : ℕ) (out : Bytes)
    → n ≤ fuel
    → n < 10000
    → read_code (print_digits fuel n out) 0 ≡ read_code out n
unfolding print_digits
read_code-print_digits zero n out f b =
    let e : n ≡ 0 = omega arith in rw e (read_code_digit 0 0 out (omega arith) (omega arith))
read_code-print_digits (suc fuel) n out f b = elim (Bool-cases (ltb n 10)) [
  | inl e ↦
      rw e (read_code_digit n 0 out (ltb→lt n 10 e) (omega (arith, ltb→lt n 10 e)) ∙ rw zero-add)
  | inr e ↦ rw e (
      read_code-print_digits fuel (n / 10) ((b'0' + n % 10) ∷ out) (ground arith) (omega arith)
      ∙ read_code_digit (n % 10) (n / 10) out (omega arith) (omega arith)
      ∙ ap (read_code out) (last_digit n))
]

read_code-print_dec :
    (n : ℕ) (rest : Bytes) → n < 10000 → read_code (print_dec n ++ b' ' ∷ rest) 0 ≡ some (n, rest)
unfolding print_dec
read_code-print_dec n rest b =
    rw print_digits-append
      (read_code-print_digits n n (b' ' ∷ rest) (omega arith) b ∙ (unfold read_code in refl))

-- The response as the writers print it.
abbrev response_text : Bytes → Bytes → ℕ → List Header → Bytes
response_text ver msg code hs =
    ver ++ (b' ' ∷ (print_dec code ++ (b' ' ∷ (msg ++ (13 ∷ 10 ∷ write_headers hs)))))

response_text-append :
    (ver msg : Bytes) (code : ℕ) (hs : List Header) (rest : Bytes)
    → response_text ver msg code hs ++ rest
      ≡ ver ++ b' ' ∷ (print_dec code ++ b' ' ∷ (msg ++ 13 ∷ 10 ∷ (write_headers hs ++ rest)))
response_text-append ver msg code hs rest = simp append_assoc

writers_text :
    (ver msg : Bytes) (code : ℕ) (hs : List Header)
    → (writeresp (response ver msg code hs) ≡ some (response_text ver msg code hs))
      × (writerespb (response ver msg code hs) ≡ some (response_text ver msg code hs))
unfolding writeresp writerespb response
writers_text ver msg code hs = (refl, refl)

zero_add_lt : {n k : ℕ} → n < k → 0 + n < k
zero_add_lt h = omega arith

module _ (ver msg : Bytes) (code : ℕ) (hs : List Header) (rest : Bytes) where
  parsers_read :
      IsStatus ver msg code
      → All IsPrintable hs
      → length (write_headers hs) + 2 < max_headers
      → (parseresponse (response_text ver msg code hs ++ 13 ∷ 10 ∷ rest)
          ≡ some (response ver msg code hs, rest))
        × (parseresponseb (response_text ver msg code hs ++ 13 ∷ 10 ∷ rest)
            ≡ some (response ver msg code hs, rest))
  unfolding parseresponse parseresponseb response
  parsers_read w p f =
      let (read, readb) = parseheaders-write_headers hs rest (mkresp code msg ver) p f in
      rw
        (
          response_text-append,
          read_version-append ver _ [] w.ver_bytes (zero_add_lt w.ver_length),
          read_code-print_dec code _ w.code_range,
          read_message-append msg _ [] w.msg_bytes (zero_add_lt w.msg_length),
        )
        (read, readb)

  -- A response that is written by `writeresp` or `writerespb` and closed by an empty line, as
  -- `serve` does, is read back by both parsers, up to the bytes that follow it, if its status line
  -- is within the parsers' bounds and its headers are printable and short enough.
  pub parseresponse-writeresp :
      IsStatus ver msg code
      → All IsPrintable hs
      → length (write_headers hs) + 2 < max_headers
      → (text : Bytes) × (writeresp (response ver msg code hs) ≡ some text)
        × (writerespb (response ver msg code hs) ≡ some text)
        × (parseresponse (text ++ 13 ∷ 10 ∷ rest) ≡ some (response ver msg code hs, rest))
        × (parseresponseb (text ++ 13 ∷ 10 ∷ rest) ≡ some (response ver msg code hs, rest))
  parseresponse-writeresp w p f =
      let (write, writeb) = writers_text ver msg code hs in
      let (read, readb) = parsers_read w p f in
      (response_text ver msg code hs, write, writeb, read, readb)
