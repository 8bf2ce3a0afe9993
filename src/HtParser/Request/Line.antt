-- ===== src/HtParser/Request/Line.antt =====
-- A request that a client prints is what `parsereq` reads.
use ashd.Base.{
  length, length-append, All, Bytes, ◌+◌, ◌≤◌, ◌<◌, ◌≡◌, some, List, [], ◌∷◌, ◌++◌, append-nil,
  append_assoc, arith,
}
use ashd.Req.Head.{Header, mkreq}
use ashd.Req.Parse.{max_headers}
use ashd.Req.Parse.Headers.{IsPrintable, parseheaders-write_headers}
use ashd.Req.Write.{write_headers}
use ashd.HtParser.Trimx.{trimx}
use ashd.HtParser.Request.{max_url, read_method, read_url, read_version, parsereq}

-- A request line within the bounds of the parser.
pub record IsRequestLine (method url ver : Bytes) : Type 0 where
  pub method_bytes : All (λ c. (32 < c) × (c < 128)) method
  pub method_length : 0 + length method < 128
  pub url_bytes : All (λ c. 32 < c) url
  pub url_length : 0 + length url < max_url
  pub ver_bytes : All (λ c. (32 ≤ c) × (c < 128)) ver
  pub ver_length : 0 + length ver < 128

read_method-append :
    (m rest buf : Bytes)
    → All (λ c. (32 < c) × (c < 128)) m
    → length buf + length m < 128
    → read_method (m ++ b' ' ∷ rest) buf ≡ some (buf ++ m, rest)
unfolding read_method
read_method-append [] rest buf b f = rw append-nil
read_method-append (c ∷ m) rest buf (b, bs) f = ground (
  arith,
  read_method-append m rest (buf ++ c ∷ []) bs (omega (arith, length-append buf (c ∷ []))),
  append_assoc buf (c ∷ []) m,
)

read_url-append :
    (u rest buf : Bytes)
    → All (λ c. 32 < c) u
    → length buf + length u < max_url
    → read_url (u ++ b' ' ∷ rest) buf ≡ some (buf ++ u, rest)
unfolding read_url
read_url-append [] rest buf b f = rw append-nil
read_url-append (c ∷ u) rest buf (b, bs) f = ground (
  arith,
  read_url-append u rest (buf ++ c ∷ []) bs (omega (arith, length-append buf (c ∷ []))),
  append_assoc buf (c ∷ []) u,
)

read_version-append :
    (v rest buf : Bytes)
    → All (λ c. (32 ≤ c) × (c < 128)) v
    → length buf + length v < 128
    → read_version (v ++ 13 ∷ 10 ∷ rest) buf ≡ some (buf ++ v, rest)
unfolding read_version
read_version-append [] rest buf b f = rw append-nil
read_version-append (c ∷ v) rest buf (b, bs) f = ground (
  arith,
  read_version-append v rest (buf ++ c ∷ []) bs (omega (arith, length-append buf (c ∷ []))),
  append_assoc buf (c ∷ []) v,
)

-- A request whose line is within the bounds, with printable headers that are short enough, is
-- read with its headers in order, but for those that `trimx` removes, and what follows it stays
-- unread.
pub parsereq-print :
    (method url ver : Bytes) (hs : List Header) (rest : Bytes)
    → IsRequestLine method url ver
    → All IsPrintable hs
    → length (write_headers hs) + 2 < max_headers
    → parsereq
        (method ++ b' ' ∷ (url ++ b' ' ∷ (ver ++ 13 ∷ 10 ∷ (write_headers hs ++ 13 ∷ 10 ∷ rest))))
      ≡ some (trimx (record (mkreq method url ver) { headers = hs }), rest)
unfolding parsereq
parsereq-print method url ver hs rest line p f = rw (
  read_method-append method _ [] line.method_bytes line.method_length,
  read_url-append url _ [] line.url_bytes line.url_length,
  read_version-append ver _ [] line.ver_bytes line.ver_length,
  (parseheaders-write_headers hs rest (mkreq method url ver) p f).1,
)
