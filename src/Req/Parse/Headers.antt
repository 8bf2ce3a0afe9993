-- ===== src/Req/Parse/Headers.antt =====
-- The header parsers read back the headers that the writers print.
use native.Mathlib.Nat.{add-zero}
use ashd.Base.{
  length, length-append, All, All-imp, add-assoc_one, Bytes, cstr, cstr_self, ℕ, ◌+◌, ◌<◌, ◌≡◌, ◌∙◌,
  ◌≢◌, some, List, [], ◌∷◌, ◌++◌, append-nil, append_assoc, arith,
}
use ashd.Req.Head.{Header, Hthead, headappheader}
use ashd.Req.Parse.{
  trim, HeaderState, at_line, in_name, in_value, HeaderParser, header_loop, max_headers,
  parseheaders, parseheadersb,
}
use ashd.Req.Parse.Trim.{IsTrimmed, trim_self, trim-space}
use ashd.Req.Write.{write_headers}

abbrev IsValueByte : ℕ → Type 0
IsValueByte c = (c ≢ 0) × (c ≢ 10) × (c ≢ 13)

abbrev IsNameByte : ℕ → Type 0
IsNameByte c = IsValueByte c × (c ≢ b':')

-- A header that survives the trip: no line break and no NUL, no colon in the name, and no white
-- space at the ends.
pub record IsPrintable (h : Header) : Type 0 where
  pub name_bytes : All IsNameByte h.0
  pub name_trimmed : IsTrimmed h.0
  pub value_bytes : All IsValueByte h.1
  pub value_trimmed : IsTrimmed h.1

abbrev parser : HeaderState → Hthead → Bytes → Bytes → HeaderParser
parser s h n v = record { head = h; state = s; name = n; val = v }

sizes : (t n v : ℕ) → t + n + 1 + 1 + v + 1 + 1 ≡ t + n + v + 4
sizes t n v = omega arith

module _ (h : Hthead) where
  name_step :
      (c : ℕ) (rest n v : Bytes) (tsz : ℕ)
      → IsNameByte c
      → tsz + 1 < max_headers
      → (header_loop (c ∷ rest) tsz (parser in_name h n v)
          ≡ header_loop rest (tsz + 1) (parser in_name h (n ++ c ∷ []) v))
        × (header_loop (c ∷ rest) tsz (parser at_line h n v)
            ≡ header_loop rest (tsz + 1) (parser in_name h (n ++ c ∷ []) v))
  unfolding header_loop
  name_step c rest n v tsz b f = ground arith

  value_step :
      (c : ℕ) (rest n v : Bytes) (tsz : ℕ)
      → IsValueByte c
      → tsz + 1 < max_headers
      → header_loop (c ∷ rest) tsz (parser in_value h n v)
        ≡ header_loop rest (tsz + 1) (parser in_value h n (v ++ c ∷ []))
  unfolding header_loop
  value_step c rest n v tsz b f = ground arith

  colon_step :
      (rest n v : Bytes) (tsz : ℕ)
      → tsz + 1 < max_headers
      → (header_loop (b':' ∷ rest) tsz (parser in_name h n v)
          ≡ header_loop rest (tsz + 1) (parser in_value h (trim n) v))
        × (header_loop (b':' ∷ rest) tsz (parser at_line h n v)
            ≡ header_loop rest (tsz + 1) (parser in_value h (trim n) v))
  unfolding header_loop
  colon_step rest n v tsz f = ground arith

  end_step :
      (rest n v : Bytes) (tsz : ℕ)
      → tsz + 2 < max_headers
      → header_loop (13 ∷ 10 ∷ rest) tsz (parser in_value h n v)
        ≡ header_loop rest
            (tsz + 1 + 1)
            (parser at_line (headappheader h (cstr n) (cstr (trim v))) [] [])
  unfolding header_loop
  end_step rest n v tsz f = ground arith

  read_name :
      (m rest n v : Bytes) (tsz : ℕ)
      → All IsNameByte m
      → tsz + length m < max_headers
      → header_loop (m ++ rest) tsz (parser in_name h n v)
        ≡ header_loop rest (tsz + length m) (parser in_name h (n ++ m) v)
  read_name [] rest n v tsz b f = rw (append-nil, add-zero)
  read_name (c ∷ m) rest n v tsz (b, bs) f =
      (name_step c (m ++ rest) n v tsz b (omega arith)).0
      ∙ read_name m rest (n ++ c ∷ []) v (tsz + 1) bs (omega arith)
      ∙ rw (append_assoc, add-assoc_one tsz (length m))

  read_value :
      (m rest n v : Bytes) (tsz : ℕ)
      → All IsValueByte m
      → tsz + length m < max_headers
      → header_loop (m ++ rest) tsz (parser in_value h n v)
        ≡ header_loop rest (tsz + length m) (parser in_value h n (v ++ m))
  read_value [] rest n v tsz b f = rw (append-nil, add-zero)
  read_value (c ∷ m) rest n v tsz (b, bs) f =
      value_step c (m ++ rest) n v tsz b (omega arith)
      ∙ read_value m rest n (v ++ c ∷ []) (tsz + 1) bs (omega arith)
      ∙ rw (append_assoc, add-assoc_one tsz (length m))

  -- The name with its colon, from the start of the line.
  read_name_colon :
      (m rest : Bytes) (tsz : ℕ)
      → All IsNameByte m
      → IsTrimmed m
      → tsz + length m + 1 < max_headers
      → header_loop (m ++ b':' ∷ rest) tsz (parser at_line h [] [])
        ≡ header_loop rest (tsz + length m + 1) (parser in_value h m [])
  read_name_colon [] rest tsz b t f =
      rw add-zero ((colon_step rest [] [] tsz (omega arith)).1 ∙ rw (trim_self [] tt))
  read_name_colon (c ∷ m) rest tsz (b, bs) t f =
      (name_step c (m ++ b':' ∷ rest) [] [] tsz b (omega arith)).1
      ∙ read_name m (b':' ∷ rest) (c ∷ []) [] (tsz + 1) bs (omega arith)
      ∙ (colon_step rest (c ∷ m) [] (tsz + 1 + length m) (omega arith)).0
      ∙ rw (trim_self (c ∷ m) t, add-assoc_one tsz (length m))

  -- One line of a header.
  read_header :
      (n v rest : Bytes) (tsz : ℕ)
      → IsPrintable (n, v)
      → tsz + length n + length v + 4 < max_headers
      → header_loop (n ++ b':' ∷ b' ' ∷ (v ++ 13 ∷ 10 ∷ rest)) tsz (parser at_line h [] [])
        ≡ header_loop rest
            (tsz + length n + length v + 4)
            (parser at_line (headappheader h n v) [] [])
  read_header n v rest tsz p f =
      read_name_colon n (b' ' ∷ (v ++ 13 ∷ 10 ∷ rest)) tsz p.name_bytes p.name_trimmed (omega arith)
      ∙ value_step b' ' _ n [] (tsz + length n + 1) (omega arith) (omega arith)
      ∙ read_value v (13 ∷ 10 ∷ rest) n (b' ' ∷ []) (tsz + length n + 1 + 1) p.value_bytes
          (omega arith)
      ∙ end_step rest n (b' ' ∷ v) (tsz + length n + 1 + 1 + length v) (omega arith)
      ∙ rw (
        trim-space v,
        trim_self v p.value_trimmed,
        cstr_self n (All-imp _ _ (λ c b. b.0.0) n p.name_bytes),
        cstr_self v (All-imp _ _ (λ c b. b.0) v p.value_bytes),
        sizes tsz (length n) (length v),
      )

write_append :
    (n v : Bytes) (hs : List Header) (rest : Bytes)
    → write_headers ((n, v) ∷ hs) ++ 13 ∷ 10 ∷ rest
      ≡ n ++ b':' ∷ b' ' ∷ (v ++ 13 ∷ 10 ∷ (write_headers hs ++ 13 ∷ 10 ∷ rest))
unfolding write_headers
write_append n v hs rest = simp append_assoc

length-write_headers :
    (n v : Bytes) (hs : List Header)
    → length (write_headers ((n, v) ∷ hs)) ≡ length n + length v + 4 + length (write_headers hs)
unfolding write_headers
length-write_headers n v hs = omega (
  arith,
  length-append n (b':' ∷ b' ' ∷ (v ++ 13 ∷ 10 ∷ write_headers hs)),
  length-append v (13 ∷ 10 ∷ write_headers hs),
)

read_headers :
    (hs : List Header) (rest : Bytes) (h : Hthead) (tsz : ℕ)
    → All IsPrintable hs
    → tsz + length (write_headers hs) + 2 < max_headers
    → header_loop (write_headers hs ++ 13 ∷ 10 ∷ rest) tsz (parser at_line h [] [])
      ≡ some (record h { headers = h.headers ++ hs }, rest)
read_headers [] rest h tsz p f = unfold header_loop write_headers in (rw append-nil (ground arith))
read_headers ((n, v) ∷ hs) rest h tsz (p, ps) f = rw (write_append n v hs rest) (
    read_header h n v (write_headers hs ++ 13 ∷ 10 ∷ rest) tsz p
      (omega (arith, length-write_headers n v hs))
    ∙ read_headers hs rest (headappheader h n v) (tsz + length n + length v + 4) ps
        (omega (arith, length-write_headers n v hs))
    ∙ (unfold headappheader in rw append_assoc))

-- Headers that are printed with "%s: %s\r\n" each, and end with an empty line, are read back in
-- order behind those that the head has, and what follows them stays unread, if all of it takes
-- less than 65536 bytes.
pub parseheaders-write_headers :
    (hs : List Header) (rest : Bytes) (h : Hthead)
    → All IsPrintable hs
    → length (write_headers hs) + 2 < max_headers
    → (parseheaders h (write_headers hs ++ 13 ∷ 10 ∷ rest)
        ≡ some (record h { headers = h.headers ++ hs }, rest))
      × (parseheadersb h (write_headers hs ++ 13 ∷ 10 ∷ rest)
          ≡ some (record h { headers = h.headers ++ hs }, rest))
unfolding parseheaders parseheadersb
parseheaders-write_headers hs rest h p f =
    let read = read_headers hs rest h 0 p (omega arith) in (read, read)
