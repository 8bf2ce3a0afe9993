-- ===== src/Tests/HtTests.antt =====
-- Tests of src/htparser.c.
use ashd.Base.{
  length, Bytes, codes, strcasecmp, has_prefix_ci, ◌+◌, ◌<◌, ◌≡◌, refl, ◌⊎◌, Bool, true, false,
  none, some, List, [], ◌∷◌, ◌++◌, arith,
}
use mathlib.Core.List.{flatten}
use ashd.Req.Head.{mkresp, Header, Hthead, mkreq, getheader}
use ashd.Req.Parse.{max_headers}
use ashd.Req.Write.{write_headers}
use ashd.HtParser.Trimx.{trimx}
use ashd.HtParser.Request.{parsereq, canonreq}
use ashd.HtParser.Request.Parsed.{IsParsed, parsereq-IsParsed}
use ashd.HtParser.Request.Line.{IsRequestLine, parsereq-print}
use ashd.HtParser.Request.Canon.{IsCanonical, canonreq_sound}
use ashd.HtParser.Chunks.{print_hex, done, refused, recvchunks, passchunks}
use ashd.HtParser.Serve.{atoo, reply}
use ashd.HtParser.Serve.Delimited.{Sent, reply-Sent}
use ashd.HtParser.Chunks.Grammar.{Chunked, recvchunks_exact}
use ashd.HtParser.Chunks.RoundTrip.{recvchunks-passchunks}

abbrev batches : List Bytes
batches = codes "Hello, " ∷ [] ∷ codes "world!" ∷ []

recvchunks-passchunks_example :
    recvchunks (passchunks batches ++ codes "GET") ≡ done (flatten batches) (codes "GET")
recvchunks-passchunks_example = recvchunks-passchunks batches (codes "GET") (omega arith)

-- A size of 2 ^ 64 wraps to zero and ends the body.
size_wraps : recvchunks (codes "10000000000000000\r\n\r\nGET") ≡ done [] (codes "GET")
unfolding recvchunks
size_wraps = refl

size_extension : recvchunks (codes "5;x=y\r\nHello\r\n0\r\n\r\n") ≡ refused
unfolding recvchunks
size_extension = refl

recvchunks_exact_example :
    ((out : Bytes) × (rest : Bytes) × (recvchunks (codes "5\r\nHello\r\n0\r\n\r\nG")
        ≡ done out rest)
      × Chunked (codes "5\r\nHello\r\n0\r\n\r\nG") out rest)
    ⊎ ((recvchunks (codes "5\r\nHello\r\n0\r\n\r\nG") ≡ refused)
        × ((out rest : Bytes) → Chunked (codes "5\r\nHello\r\n0\r\n\r\nG") out rest → ⊥))
recvchunks_exact_example = recvchunks_exact (codes "5\r\nHello\r\n0\r\n\r\nG")

abbrev agent : Header
agent = (codes "X-Ash-A", codes "b")

abbrev host : Header
host = (codes "Host", codes "c.d")

abbrev hello : Bytes
hello = codes "GET /a?b HTTP/1.1\r\nX-Ash-A: b\r\nHost: c.d\r\n\r\nrest"

abbrev asked : Hthead
asked = record (mkreq (codes "GET") (codes "/a?b") (codes "HTTP/1.1")) { headers = host ∷ [] }

hello_parsed : parsereq hello ≡ some (asked, codes "rest")
unfolding parsereq mkreq has_prefix_ci
hello_parsed = refl

parsereq-IsParsed_example : IsParsed asked
parsereq-IsParsed_example = parsereq-IsParsed hello {req = asked} {rest = codes "rest"} hello_parsed

get-IsRequestLine : IsRequestLine (codes "GET") (codes "/a?b") (codes "HTTP/1.1")
get-IsRequestLine = record {
  method_bytes = omega arith;
  method_length = omega arith;
  url_bytes = omega arith;
  url_length = omega arith;
  ver_bytes = omega arith;
  ver_length = omega arith;
}

short : length (write_headers (host ∷ [])) + 2 < max_headers
unfolding write_headers
short = omega arith

parsereq-print_example :
    parsereq (
      codes "GET"
      ++ b' '
        ∷ (codes "/a?b"
            ++ b' '
              ∷ (codes "HTTP/1.1"
                  ++ 13 ∷ 10 ∷ (write_headers (host ∷ []) ++ 13 ∷ 10 ∷ codes "rest"))))
    ≡ some (
      trimx
          (record (mkreq (codes "GET") (codes "/a?b") (codes "HTTP/1.1")) { headers = host ∷ [] }),
      codes "rest",
    )
parsereq-print_example =
    parsereq-print (codes "GET") (codes "/a?b") (codes "HTTP/1.1") (host ∷ []) (codes "rest")
      get-IsRequestLine
      (
        record {
          name_bytes = omega arith;
          name_trimmed = (refl, refl);
          value_bytes = omega arith;
          value_trimmed = (refl, refl);
        },
        tt,
      )
      short

canonreq_sound_example :
    (req' : Hthead) × (accepted : Bool) × (canonreq asked ≡ some (req', accepted))
    × (accepted ≡ true → IsCanonical req' × (canonreq req' ≡ some (req', true)))
    × (accepted ≡ false → req' ≡ asked)
unfolding mkreq
canonreq_sound_example = canonreq_sound asked (codes "/a?b") refl

abbrev found : Hthead
found = mkresp 200 (codes "OK") (codes "HTTP/1.1")

abbrev greeting : Bytes
greeting = codes "HTTP/1.1 200 OK\r\nTransfer-Encoding: chunked\r\n\r\n2\r\nHi\r\n0\r\n\r\n"

greeting_sent : reply asked found (codes "Hi" ∷ []) ≡ some (greeting, true)
unfolding reply mkreq mkresp strcasecmp getheader print_hex
greeting_sent = refl

asked_method : asked.method ≡ some (codes "GET")
unfolding mkreq
asked_method = refl

reply-Sent_example : Sent (codes "GET") (codes "Hi" ∷ []) greeting
reply-Sent_example =
    reply-Sent asked found (codes "Hi" ∷ []) (codes "GET") {text = greeting} asked_method
      greeting_sent

lengths :
    (atoo (codes " 12x") ≡ some 12)
    × (atoo (codes "-1") ≡ none)
    × (atoo (codes "99999999999999999999") ≡ some 9223372036854775807)
unfolding atoo
lengths = (refl, refl, refl)
