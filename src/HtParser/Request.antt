-- ===== src/HtParser/Request.antt =====
-- src/htparser.c `parsereq`, `canonreq` and `hasheader`: a request as the client sent it.
pub mod Parsed
pub mod Line
pub mod Canon
use ashd.Base.{
  ltb, leb, ◌==◌, if◌then◌else◌, ◌>>=◌, length, drop, Bytes, codes, strcasecmp, ℕ, ◌+◌, Bool, true,
  false, ◌&&◌, ◌||◌, Option, none, some, [], ◌∷◌, ◌++◌,
}
use ashd.Req.Head.{Hthead, mkreq, getheader, headappheader, replrest}
use ashd.Req.Parse.{parseheadersb, cr, lf}
use ashd.HtParser.Trimx.{trimx}

-- The first loop of `parsereq`: the method, up to a space.
unfoldable pub read_method : Bytes → Bytes → Option (Bytes × Bytes)
read_method [] method = none
read_method (c ∷ input) method =
    let rest = read_method input (method ++ c ∷ []) in
    if c == b' '
    then some (method, input)
    else if ltb c 32 || leb 128 c
    then none
    else if leb 128 (length method + 1)
    then none
    else rest

abbrev pub max_url : ℕ
max_url = 65536

-- The second loop: the URL, up to a space.
unfoldable pub read_url : Bytes → Bytes → Option (Bytes × Bytes)
read_url [] url = none
read_url (c ∷ input) url =
    let rest = read_url input (url ++ c ∷ []) in
    if c == b' '
    then some (url, input)
    else if ltb c 32
    then none
    else if leb max_url (length url + 1)
    then none
    else rest

-- The third loop: the version, up to the end of the line.
unfoldable pub read_version : Bytes → Bytes → Option (Bytes × Bytes)
read_version [] ver = none
read_version (c ∷ input) ver =
    let skip = read_version input ver in
    let rest = read_version input (ver ++ c ∷ []) in
    if c == lf
    then some (ver, input)
    else if c == cr
    then skip
    else if ltb c 32 || leb 128 c
    then none
    else if leb 128 (length ver + 1)
    then none
    else rest

-- The request and the unread bytes; `none` is NULL.
unfoldable pub parsereq : Bytes → Option (Hthead × Bytes)
unfolding read_method read_url read_version mkreq parseheadersb trimx
parsereq input = do
  (method, input1) ← read_method input []
  (url, input2) ← read_url input1 []
  (ver, input3) ← read_version input2 []
  (req, input4) ← parseheadersb (mkreq method url ver) input3
  some (trimx req, input4)

unfoldable pub hasheader : Hthead → Bytes → Bytes → Bool
hasheader head name val = elim (getheader head name) [ none ↦ false | some hd ↦ strcasecmp hd val ]

-- `if((p = strchr(req->rest, '?')) != NULL) *p = 0`.
unfoldable pub before_query : Bytes → Bytes
before_query [] = []
before_query (c ∷ s) = if c == b'?' then [] else c ∷ before_query s

-- Does the text begin with "://"? What follows it.
unfoldable pub after_mark : Bytes → Option Bytes
after_mark (a ∷ b ∷ c ∷ s) = if a == b':' && b == b'/' && c == b'/' then some s else none
after_mark _ = none

-- `strstr(url, "://")`: what stands in front of the first one and behind it.
unfoldable pub find_mark : Bytes → Option (Bytes × Bytes)
unfolding after_mark
find_mark [] = none
find_mark (c ∷ s) =
    let later = find_mark s in
    elim (after_mark (c ∷ s)) [
      | some rest ↦ some ([], rest)
      | none ↦ elim later [ none ↦ none | some (scheme, rest) ↦ some (c ∷ scheme, rest) ]
    ]

-- The host and, from its slash on, the path of what follows the scheme.
unfoldable pub split_host : Bytes → Bytes × Bytes
split_host [] = ([], b'/' ∷ [])
split_host (c ∷ s) =
    let (host, path) = split_host s in if c == b'/' then ([], c ∷ s) else (c ∷ host, path)

-- The end of both branches: the rest string is the URL without its slash and its query.
unfoldable pub set_rest : Hthead → Bytes → Hthead
unfolding before_query replrest
set_rest req url = replrest req (before_query (drop 1 url))

unfoldable pub is_http : Bytes → Bool
is_http scheme = strcasecmp scheme (codes "http") || strcasecmp scheme (codes "https")

-- An absolute URL: what the code does with what follows "://".
unfoldable pub canon_absolute : Hthead → Bytes → Hthead × Bool
unfolding split_host set_rest headappheader
canon_absolute req rest =
    let (host, path) = split_host rest in
    elim (getheader req (codes "host")) [
      | some _ ↦ (req, false)
      | none ↦
          (set_rest (record (headappheader req (codes "Host") host) { url = some path }) path, true)
    ]

-- The request afterwards and the return value, at a request with the URL `url`.
unfoldable pub canon_url : Hthead → Bytes → Hthead × Bool
unfolding set_rest find_mark is_http canon_absolute
canon_url req url =
    let slash = set_rest req url in
    let absolute : Hthead × Bool = elim (find_mark url) [
      | none ↦ (req, false)
      | some (scheme, rest) ↦ (if is_http scheme then canon_absolute req rest else (req, false))
    ] in
    elim url [ [] ↦ absolute | c ∷ _ ↦ (if c == b'/' then (slash, true) else absolute) ]

-- `none` is a read through a NULL `url`, which no request of `parsereq` has.
unfoldable pub canonreq : Hthead → Option (Hthead × Bool)
unfolding canon_url
canonreq req = do url ← req.url; some (canon_url req url)
