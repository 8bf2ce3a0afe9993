-- ===== src/HtParser/Serve.antt =====
-- src/htparser.c `http10keep` and the end of `serve`: how a response goes to the client. The body
-- is the batches that the reads of the handler's stream found, up to its EOF; writes succeed.
pub mod Delimited
use mathlib.Core.List.{flatten}
use ashd.Base.{
  ◌>>=◌, ltb, leb, ◌==◌, if◌then◌else◌, length, take, Bytes, codes, isspace, strcasecmp, ℕ, ◌+◌,
  ◌-◌, ◌*◌, Bool, true, false, not, ◌&&◌, ◌||◌, Option, none, some, List, [], ◌∷◌, ◌++◌,
}
use ashd.Req.Head.{Hthead, getheader, headappheader, headrmheader}
use ashd.Req.Write.{writerespb}
use ashd.HtParser.Request.{hasheader}
use ashd.HtParser.Chunks.{passchunks, max_ssize}

unfoldable pub http10keep : Hthead → Hthead → Hthead × Bool
unfolding hasheader headrmheader headappheader
http10keep req resp =
    let resp' = headrmheader resp (codes "connection") in
    if not (hasheader resp (codes "connection") (codes "close"))
      && hasheader req (codes "connection") (codes "keep-alive")
    then (headappheader resp' (codes "Connection") (codes "Keep-Alive"), true)
    else (resp', false)

-- The digits of `strtoll`, which stops at the largest `off_t`.
unfoldable pub read_digits : Bytes → ℕ → ℕ
read_digits [] n = n
read_digits (c ∷ s) n =
    let more = read_digits s (n * 10 + (c - b'0')) in if leb b'0' c && leb c b'9' then more else n

abbrev pub max_off : ℕ
max_off = max_ssize - 1

abbrev pub clip : ℕ → ℕ
clip n = if ltb max_off n then max_off else n

-- The sign, and the number behind it; `none` is a negative number.
unfoldable pub read_signed : Bytes → Option ℕ
unfolding read_digits
read_signed [] = some 0
read_signed (c ∷ s) =
    if c == b'-'
    then (if read_digits s 0 == 0 then some 0 else none)
    else if c == b'+'
    then some (clip (read_digits s 0))
    else some (clip (read_digits (c ∷ s) 0))

-- lib/utils.c `atoo`.
unfoldable pub atoo : Bytes → Option ℕ
unfolding read_signed
atoo [] = some 0
atoo (c ∷ s) = let behind = atoo s in if isspace c then behind else read_signed (c ∷ s)

-- What follows the header of the response, and how its end shows.
pub data Framing : Type 0 where
  no_body : Framing
  counted : Option ℕ → Framing
  chunked : Framing
  until_close : Framing

-- The response to write, its framing, and whether the headers let the connection live on.
pub record Plan : Type 0 where
  pub resp : Hthead
  pub framing : Framing
  pub keep : Bool

unfoldable pub plan_http10 : Hthead → Bytes → Hthead → Plan
unfolding http10keep atoo headrmheader
plan_http10 req method resp =
    let (resp', keep) = http10keep req resp in
    if strcasecmp method (codes "head")
    then record { resp = resp'; framing = no_body; keep = keep }
    else elim (getheader resp (codes "content-length")) [
      | some hd ↦ record { resp = resp'; framing = counted (atoo hd); keep = keep }
      | none ↦ record {
        resp = headrmheader resp (codes "connection");
        framing = until_close;
        keep = false;
      }
    ]

-- `hasheader(req, "connection", "close") || hasheader(resp, "connection", "close")` is false.
unfoldable pub stays_open : Hthead → Hthead → Bool
unfolding hasheader
stays_open req resp = not (
    hasheader req (codes "connection") (codes "close")
    || hasheader resp (codes "connection") (codes "close"))

unfoldable pub plan_http11 : Hthead → Bytes → Hthead → Plan
unfolding atoo headappheader stays_open
plan_http11 req method resp =
    let resp' = headappheader resp (codes "Transfer-Encoding") (codes "chunked") in
    if strcasecmp method (codes "head")
    then record { resp = resp; framing = no_body; keep = stays_open req resp }
    else elim (getheader resp (codes "content-length")) [
      | some hd ↦ record { resp = resp; framing = counted (atoo hd); keep = stays_open req resp }
      | none ↦ elim (getheader resp (codes "transfer-encoding")) [
        | none ↦ record { resp = resp'; framing = chunked; keep = stays_open req resp' }
        | some _ ↦ record { resp = resp; framing = until_close; keep = false }
      ]
    ]

-- What is written of the body, and whether that is all that was promised. `passdata` with a
-- negative number passes everything on and never returns that number.
unfoldable pub payload : Framing → List Bytes → Bytes × Bool
unfolding passchunks
payload no_body batches = ([], true)
payload (counted (some n)) batches =
    (take n (flatten batches), length (take n (flatten batches)) == n)
payload (counted none) batches = (flatten batches, false)
payload chunked batches = (passchunks batches, true)
payload until_close batches = (flatten batches, false)

unfoldable pub send_plan : Plan → List Bytes → Option (Bytes × Bool)
unfolding writerespb payload
send_plan plan batches = do
  text ← writerespb plan.resp
  some (
    text ++ 13 ∷ 10 ∷ (payload plan.framing batches).0,
    plan.keep && (payload plan.framing batches).1,
  )

-- The two branches of `serve` for the versions, and the third, which writes nothing: what goes to
-- the client, and whether the loop goes on. `none` is a NULL pointer, which no request of
-- `parsereq` and no response of `parseresponseb` has.
unfoldable pub reply : Hthead → Hthead → List Bytes → Option (Bytes × Bool)
unfolding plan_http10 plan_http11 send_plan
reply req resp batches = do
  ver ← req.ver
  method ← req.method
  (if strcasecmp ver (codes "HTTP/1.0")
      then send_plan (plan_http10 req method resp) batches
      else if strcasecmp ver (codes "HTTP/1.1")
      then send_plan (plan_http11 req method resp) batches
      else some ([], false))
