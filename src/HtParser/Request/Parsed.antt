-- ===== src/HtParser/Request/Parsed.antt =====
-- Whatever a client sends, a request that `parsereq` returns is within its bounds.
use ashd.Base.{
  bind-some, leb, if◌then◌else◌, length, length-append, All, All-append, Bytes, has_prefix_ci, ℕ,
  ◌+◌, ◌≤◌, ◌<◌, ◌≡◌, sym, ◌∙◌, Bool, true, false, none, some, [], ◌∷◌, ◌++◌, arith,
}
use ashd.Req.Head.{Hthead, mkreq, getheader}
use ashd.Req.Parse.{
  HeaderState, HeaderParser, header_byte, header_loop, Round, continue, finish, fail, parseheadersb,
  max_headers,
}
use ashd.HtParser.Trimx.{trimx, x_ash, getheader-trimx}
use ashd.HtParser.Request.{max_url, read_method, read_url, read_version, parsereq}

-- What `parsereq` promises of the request.
pub record IsParsed (req : Hthead) : Type 0 where
  pub method : Bytes
  pub url : Bytes
  pub ver : Bytes
  pub has_method : req.method ≡ some method
  pub has_url : req.url ≡ some url
  pub has_ver : req.ver ≡ some ver
  pub has_rest : req.rest ≡ some url
  pub method_length : length method < 128
  pub url_length : length url < max_url
  pub ver_length : length ver < 128
  pub method_bytes : All (λ c. (32 < c) × (c < 128)) method
  pub url_bytes : All (λ c. 32 < c) url
  pub ver_bytes : All (λ c. (32 ≤ c) × (c < 128)) ver
  pub trusted : (name : Bytes) → has_prefix_ci name x_ash ≡ true → getheader req name ≡ none

module _ (P : ℕ → Type 0) where
  All-concat : (xs : Bytes) (c : ℕ) → All P xs → P c → All P (xs ++ c ∷ [])
  All-concat xs c h p = All-append P xs (c ∷ []) h (p, tt)

read_method_sound :
    (input buf : Bytes) {m rest : Bytes}
    → read_method input buf ≡ some (m, rest)
    → length buf < 128
    → All (λ c. (32 < c) × (c < 128)) buf
    → (length m < 128) × All (λ c. (32 < c) × (c < 128)) m
unfolding read_method
read_method_sound [] buf e l b = cc
read_method_sound (c ∷ input) buf {m} {rest} e l b = ground (
  arith,
  read_method_sound input (buf ++ c ∷ []) {m = m} {rest = rest},
  All-concat (λ c. (32 < c) × (c < 128)) buf c b,
  length-append buf (c ∷ []),
)

read_url_sound :
    (input buf : Bytes) {u rest : Bytes}
    → read_url input buf ≡ some (u, rest)
    → length buf < max_url
    → All (λ c. 32 < c) buf
    → (length u < max_url) × All (λ c. 32 < c) u
unfolding read_url
read_url_sound [] buf e l b = cc
read_url_sound (c ∷ input) buf {u} {rest} e l b = ground (
  arith,
  read_url_sound input (buf ++ c ∷ []) {u = u} {rest = rest},
  All-concat (λ c. 32 < c) buf c b,
  length-append buf (c ∷ []),
)

read_version_sound :
    (input buf : Bytes) {v rest : Bytes}
    → read_version input buf ≡ some (v, rest)
    → length buf < 128
    → All (λ c. (32 ≤ c) × (c < 128)) buf
    → (length v < 128) × All (λ c. (32 ≤ c) × (c < 128)) v
unfolding read_version
read_version_sound [] buf e l b = cc
read_version_sound (c ∷ input) buf {v} {rest} e l b = ground (
  arith,
  read_version_sound input (buf ++ c ∷ []) {v = v} {rest = rest},
  read_version_sound input buf {v = v} {rest = rest},
  All-concat (λ c. (32 ≤ c) × (c < 128)) buf c b,
  length-append buf (c ∷ []),
)

-- The header parser leaves the request line alone.
abbrev SameLine : Hthead → Hthead → Type 0
SameLine h g = (h.method ≡ g.method) × (h.url ≡ g.url) × (h.ver ≡ g.ver) × (h.rest ≡ g.rest)

abbrev Keeps : Hthead → Round → Type 0
Keeps h (continue q) = SameLine q.head h
Keeps h (finish g) = SameLine g h
Keeps h fail = Unit

header_byte-Keeps : (s : HeaderState) (p : HeaderParser) (c : ℕ) → Keeps p.head (header_byte s p c)
unfolding header_byte
header_byte-Keeps _ p c = ground arith

header_loop_line :
    (input : Bytes) (tsz : ℕ) (p : HeaderParser) {h : Hthead} {rest : Bytes}
    → header_loop input tsz p ≡ some (h, rest)
    → SameLine h p.head
unfolding header_loop
header_loop_line [] tsz p e = cc
header_loop_line (c ∷ input) tsz p {h} {rest} e =
    go (leb max_headers (tsz + 1)) (header_byte p.state p c) (header_byte-Keeps p.state p c)
      (λ q. header_loop_line input (tsz + 1) q {h = h} {rest = rest}) e
  where
    go :
        (b : Bool) (r : Round)
        → Keeps p.head r
        → ((q : HeaderParser) → header_loop input (tsz + 1) q ≡ some (h, rest) → SameLine h q.head)
        → (if b then none else elim r [
          | continue q ↦ header_loop input (tsz + 1) q
          | finish head ↦ some (head, input)
          | fail ↦ none
        ])
          ≡ some (h, rest)
        → SameLine h p.head
    go true r k ih e = cc
    go false (continue q) (m, u, v, t) ih e =
        let (m', u', v', t') = ih q e in (m' ∙ m, u' ∙ u, v' ∙ v, t' ∙ t)
    go false (finish head) (m, u, v, t) ih e = let same : h ≡ head = cc in rw same (m, u, v, t)
    go false fail k ih e = cc

parseheadersb_line :
    (input : Bytes) (h : Hthead) {g : Hthead} {rest : Bytes}
    → parseheadersb h input ≡ some (g, rest)
    → SameLine g h
unfolding parseheadersb
parseheadersb_line input h e = header_loop_line input _ _ e

mkreq-IsParsed :
    (method url ver : Bytes) (head : Hthead)
    → SameLine head (mkreq method url ver)
    → (length method < 128) × All (λ c. (32 < c) × (c < 128)) method
    → (length url < max_url) × All (λ c. 32 < c) url
    → (length ver < 128) × All (λ c. (32 ≤ c) × (c < 128)) ver
    → IsParsed (trimx head)
unfolding mkreq trimx
mkreq-IsParsed method url ver head (m, u, v, r) (ml, mb) (ul, ub) (vl, vb) = record {
  method = method;
  url = url;
  ver = ver;
  has_method = m;
  has_url = u;
  has_ver = v;
  has_rest = r;
  method_length = ml;
  url_length = ul;
  ver_length = vl;
  method_bytes = mb;
  url_bytes = ub;
  ver_bytes = vb;
  trusted = λ name p. getheader-trimx head name ∙ rw p;
}

-- A request that `parsereq` returns has a method, a URL and a version within the bounds of the
-- parser, its rest string is the whole URL, and no lookup of a name that begins with "x-ash-"
-- finds a header.
pub parsereq-IsParsed :
    (input : Bytes) {req : Hthead} {rest : Bytes} → parsereq input ≡ some (req, rest) → IsParsed req
unfolding parsereq
parsereq-IsParsed input {req} {rest} e =
    let ((method, input1), em, e1) = bind-some (read_method input []) _ e in
    let ((url, input2), eu, e2) = bind-some (read_url input1 []) _ e1 in
    let ((ver, input3), ev, e3) = bind-some (read_version input2 []) _ e2 in
    let ((head, input4), eh, e4) = bind-some (parseheadersb (mkreq method url ver) input3) _ e3 in
    let same : trimx head ≡ req = cc in
    rw (sym same) (
      mkreq-IsParsed method url ver head (parseheadersb_line input3 _ eh)
        (read_method_sound input [] em (omega arith) tt)
        (read_url_sound input1 [] eu (omega arith) tt)
        (read_version_sound input2 [] ev (omega arith) tt))
