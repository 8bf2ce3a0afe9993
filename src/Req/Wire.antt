-- ===== src/Req/Wire.antt =====
-- lib/req.c `sendreq2` and `recvreq`, lib/utils.c `decstr`: the datagram that carries a request
-- from one program to the next. The socket and the passed descriptor are not modelled.
pub mod RoundTrip
pub mod Truncated
use ashd.Base.{
  ltb, leb, ◌==◌, if◌then◌else◌, ltb→lt, lt→ltb, ==_iff, Bool-cases, Option-cases, ◌>>=◌, length,
  take, drop, length-append, take-append-drop, length-drop, length-take, take_all, take-nil,
  take_add, All, All-append, All-imp, Bytes, codes, IsByte, IsCstr, cstr, isspace, tolower, strcmp,
  strcasecmp, has_prefix_ci, split_at, ℕ, zero, suc, ◌+◌, ◌-◌, ◌*◌, ◌/◌, ◌%◌, ◌^◌, ◌≤◌, ◌<◌, max,
  ◌≡◌, refl, sym, ap, ◌∙◌, ◌≢◌, ◌↔◌, ◌⊎◌, inl, inr, Bool, true, false, not, ◌&&◌, ◌||◌, Option,
  none, some, List, [], ◌∷◌, ◌++◌, append-nil, append_assoc, arith,
}
use ashd.Req.Head.{Header, Hthead, headappheader}

-- `decstr`: the C string at the front of the bytes left, and what is left behind its NUL. NULL if
-- there is no NUL.
unfoldable pub decstr : Bytes → Option (Bytes × Bytes)
decstr [] = none
decstr (c ∷ s) =
    let rest = decstr s in
    if c == 0 then some ([], s) else elim rest [ none ↦ none | some (a, b) ↦ some (c ∷ a, b) ]

-- `bufcatstr2`: the string and its NUL.
abbrev pub bufcatstr2 : Bytes → Bytes → Bytes
bufcatstr2 buf s = buf ++ (s ++ 0 ∷ [])

-- The loop of `sendreq2` over the headers.
unfoldable pub cat_headers : Bytes → List Header → Bytes
cat_headers buf [] = buf
cat_headers buf ((n, v) ∷ hs) = cat_headers (bufcatstr2 (bufcatstr2 buf n) v) hs

-- `sendreq2` up to the call of `sendfd2`: the datagram. `none` is a read through a NULL string.
unfoldable pub sendreq2 : Hthead → Option Bytes
unfolding cat_headers
sendreq2 req = do
  method ← req.method
  url ← req.url
  ver ← req.ver
  rest ← req.rest
  let buf = bufcatstr2 (bufcatstr2 (bufcatstr2 (bufcatstr2 [] method) url) ver) rest
  some (bufcatstr2 (cat_headers buf req.headers) [])

-- `recvreq` returns a request, or it reads through the NULL that `decstr` returned: `sstrdup`
-- takes the length of its argument, and the header loop looks at the first byte of `name`.
pub data Received : Type 0 where
  received : Hthead → Received
  null_read : Received
  out_of_fuel : Received

-- `sstrdup(decstr(&p, &l))` and what follows it.
unfoldable pub next_string : Bytes → (Bytes → Bytes → Received) → Received
next_string p k = elim (decstr p) [ none ↦ null_read | some (s, p') ↦ k s p' ]

-- What the header loop does with a name and the bytes behind it.
unfoldable pub with_name : (Hthead → Bytes → Received) → Hthead → Bytes → Bytes → Received
unfolding next_string headappheader
with_name loop req [] p = received req
with_name loop req (c ∷ name) p = next_string p λ val p'. loop (headappheader req (c ∷ name) val) p'

-- The header loop of `recvreq`. Each round uses a byte at least, so the fuel is the bytes left.
unfoldable pub recv_headers : ℕ → Hthead → Bytes → Received
unfolding with_name
recv_headers zero req p = out_of_fuel
recv_headers (suc fuel) req p = next_string p (with_name (λ r q. recv_headers fuel r q) req)

unfoldable pub request : Bytes → Bytes → Bytes → Bytes → List Header → Hthead
request method url ver rest headers = record {
  method = some method;
  url = some url;
  ver = some ver;
  msg = none;
  code = 0;
  rest = some rest;
  headers = headers;
}

unfoldable pub recvreq : Bytes → Received
unfolding recv_headers decstr request
recvreq buf = next_string buf λ method p. next_string p λ url p1. next_string p1 λ ver p2.
    next_string p2 λ rest p3. recv_headers (suc (length p3)) (request method url ver rest []) p3
