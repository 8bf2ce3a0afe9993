-- ===== src/Tests/ReqTests.antt =====
-- Tests of lib/req.c and lib/resp.c.
use mathlib.Core.List.{cons-ne-nil}
use ashd.HtParser.Trimx.{trimx, x_ash, getheader-trimx}
use ashd.Base.{
  if◌then◌else◌, length, take, All, Bytes, codes, has_prefix_ci, ◌+◌, ◌<◌, ◌≡◌, refl, ◌↔◌, none,
  some, [], ◌∷◌, ◌++◌, arith,
}
use ashd.Req.Head.{Header, Hthead, getheader}
use ashd.Req.Wire.{sendreq2, received, null_read, request, recvreq}
use ashd.Req.Wire.RoundTrip.{IsWire, recvreq-sendreq2}
use ashd.Req.Wire.Truncated.{Accepts, recvreq_exact, recvreq_truncated}
use ashd.Req.Parse.{parseheaders, parseresponse, parseresponseb, max_headers}
use ashd.Req.Parse.Headers.{IsPrintable}
use ashd.Req.Parse.Response.{IsStatus, response, parseresponse-writeresp}
use ashd.Req.Write.{write_headers, writeresp, writerespb}
use ashd.Req.Unquote.{unquoteurl}
use ashd.Resp.Quote.{urlquote, unquoteurl-urlquote}

abbrev host : Header
host = (codes "Host", codes "a.b")

abbrev agent : Header
agent = (codes "User-Agent", codes "x y")

abbrev get : Bytes
get = codes "GET"

abbrev url : Bytes
url = codes "/x?y"

abbrev version : Bytes
version = codes "HTTP/1.1"

abbrev point : Bytes
point = codes "x"

sent :
    sendreq2 (request get url version point (host ∷ []))
    ≡ some (
        get
        ++ 0
          ∷ (url
              ++ 0
                ∷ (version
                    ++ 0 ∷ (point ++ 0 ∷ (codes "Host" ++ 0 ∷ (codes "a.b" ++ 0 ∷ 0 ∷ []))))))
unfolding sendreq2 request
sent = refl

get-IsWire : IsWire get url version point (host ∷ [])
get-IsWire = record {
  method_cstr = omega arith;
  url_cstr = omega arith;
  ver_cstr = omega arith;
  rest_cstr = omega arith;
  headers_wire = ((omega arith, omega arith, cons-ne-nil _ _), tt);
}

recvreq-sendreq2_example :
    (buf : Bytes) × (sendreq2 (request get url version point (host ∷ [])) ≡ some buf)
    × (recvreq (buf ++ 7 ∷ []) ≡ received (request get url version point (host ∷ [])))
recvreq-sendreq2_example = recvreq-sendreq2 get url version point (host ∷ []) (7 ∷ []) get-IsWire

recvreq_truncated_example :
    recvreq (
      take 9 (
        get
        ++ 0
          ∷ (url
              ++ 0
                ∷ (version
                    ++ 0 ∷ (point ++ 0 ∷ (codes "Host" ++ 0 ∷ (codes "a.b" ++ 0 ∷ 0 ∷ [])))))))
    ≡ null_read
recvreq_truncated_example =
    recvreq_truncated get url version point (host ∷ []) _ 9 get-IsWire sent (omega arith)

recvreq_exact_example :
    ((h : Hthead) → (recvreq (codes "GET") ≡ received h) ↔ Accepts (codes "GET") h)
    × (((h : Hthead) → ¬ Accepts (codes "GET") h) → recvreq (codes "GET") ≡ null_read)
recvreq_exact_example = recvreq_exact (codes "GET")

abbrev head : Hthead
head = response version (codes "OK") 200 (host ∷ agent ∷ [])

host-IsPrintable : All IsPrintable (host ∷ agent ∷ [])
host-IsPrintable = (
  record {
    name_bytes = omega arith;
    name_trimmed = (refl, refl);
    value_bytes = omega arith;
    value_trimmed = (refl, refl);
  },
  (
    record {
      name_bytes = omega arith;
      name_trimmed = (refl, refl);
      value_bytes = omega arith;
      value_trimmed = (refl, refl);
    },
    tt,
  ),
)

IsStatus-example : IsStatus version (codes "OK") 200
IsStatus-example = omega arith

headers_are_short : length (write_headers (host ∷ agent ∷ [])) + 2 < max_headers
unfolding write_headers
headers_are_short = omega arith

parseresponse-writeresp_example :
    (text : Bytes) × (writeresp head ≡ some text)
    × (writerespb head ≡ some text)
    × (parseresponse (text ++ 13 ∷ 10 ∷ codes "body") ≡ some (head, codes "body"))
    × (parseresponseb (text ++ 13 ∷ 10 ∷ codes "body") ≡ some (head, codes "body"))
parseresponse-writeresp_example =
    parseresponse-writeresp version (codes "OK") 200 (host ∷ agent ∷ []) (codes "body")
      IsStatus-example host-IsPrintable headers_are_short

-- A value is trimmed, and a header with an empty value is kept.
trims :
    parseheaders head (codes "A:  b \r\nC:\r\n\r\n")
    ≡ some (
      record head { headers = head.headers ++ (codes "A", codes "b") ∷ (codes "C", []) ∷ [] },
      [],
    )
unfolding parseheaders response
trims = refl

unquoteurl-urlquote_example : unquoteurl (urlquote (codes "a b%/<")) ≡ some (codes "a b%/<")
unquoteurl-urlquote_example = unquoteurl-urlquote (codes "a b%/<") (omega arith)

bad_escape : unquoteurl (codes "a%2") ≡ none
unfolding unquoteurl
bad_escape = refl

getheader-trimx_example : getheader (trimx head) (codes "X-ASH-File") ≡ (
    if has_prefix_ci (codes "X-ASH-File") x_ash then none else getheader head (codes "X-ASH-File"))
getheader-trimx_example = getheader-trimx head (codes "X-ASH-File")
