-- ===== src/Req/Head.antt =====
-- lib/req.c and lib/req.h: `struct hthead`, its constructors and the header operations.
pub mod Laws
use ashd.Base.{
  ℕ, ◌≡◌, refl, Bool, true, false, List, [], ◌∷◌, ◌++◌, Option, none, some, arith, Bytes,
  if◌then◌else◌, strcasecmp,
}

-- `char *name, *value`, one entry of `headers`.
abbrev pub Header : Type 0
Header = Bytes × Bytes

-- `headers` holds `noheaders` entries. A pointer that is NULL is `none`; a request has no `msg`,
-- a response no `method`, `url` and `rest`.
pub record Hthead : Type 0 where
  pub method : Option Bytes
  pub url : Option Bytes
  pub ver : Option Bytes
  pub msg : Option Bytes
  pub code : ℕ
  pub rest : Option Bytes
  pub headers : List Header

unfoldable pub mkreq : Bytes → Bytes → Bytes → Hthead
mkreq method url ver = record {
  method = some method;
  url = some url;
  ver = some ver;
  msg = none;
  code = 0;
  rest = some url;
  headers = [];
}

unfoldable pub mkresp : ℕ → Bytes → Bytes → Hthead
mkresp code msg ver = record {
  method = none;
  url = none;
  ver = some ver;
  msg = some msg;
  code = code;
  rest = none;
  headers = [];
}

-- The loop of `getheader`.
unfoldable pub find_header : Bytes → List Header → Option Bytes
find_header name [] = none
find_header name ((n, v) ∷ hs) = if strcasecmp n name then some v else find_header name hs

unfoldable pub getheader : Hthead → Bytes → Option Bytes
unfolding find_header
getheader head name = find_header name head.headers

unfoldable pub headpreheader : Hthead → Bytes → Bytes → Hthead
headpreheader head name val = record head { headers = (name, val) ∷ head.headers }

unfoldable pub headappheader : Hthead → Bytes → Bytes → Hthead
headappheader head name val = record head { headers = head.headers ++ (name, val) ∷ [] }

-- The loop of `headrmheader`: it removes the first fit and returns.
unfoldable pub remove_header : Bytes → List Header → List Header
remove_header name [] = []
remove_header name ((n, v) ∷ hs) = if strcasecmp n name then hs else (n, v) ∷ remove_header name hs

unfoldable pub headrmheader : Hthead → Bytes → Hthead
unfolding remove_header
headrmheader head name = record head { headers = remove_header name head.headers }

unfoldable pub replrest : Hthead → Bytes → Hthead
replrest head rest = record head { rest = some rest }
