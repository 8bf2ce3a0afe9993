-- ===== src/HtParser/Serve/Delimited.antt =====
-- While a connection lives on, the client sees where each response ends.
use mathlib.Core.List.{flatten}
use ashd.Base.{
  bind-some, if◌then◌else◌, ==_iff, length, take, Bytes, codes, strcasecmp, ℕ, ◌≡◌, refl, sym, ap,
  ◌∙◌, ◌⊎◌, inl, inr, Bool, true, false, not, ◌&&◌, Option, none, some, List, [], ◌∷◌, ◌++◌, arith,
}
use ashd.Req.Head.{Hthead, getheader, headappheader, headrmheader}
use ashd.Req.Head.Laws.{or_else-none, find_header-remove, getheader_added, or_else}
use ashd.Req.Write.{writerespb}
use ashd.HtParser.Chunks.{passchunks}
use ashd.HtParser.Request.{hasheader}
use ashd.HtParser.Serve.{
  http10keep, atoo, Framing, no_body, counted, chunked, until_close, Plan, plan_http10, plan_http11,
  stays_open, payload, send_plan, reply,
}

-- The header says how the payload ends.
abbrev pub Delimits : Bytes → Hthead → Bytes → List Bytes → Type 0
Delimits method resp body batches =
    ((strcasecmp method (codes "head") ≡ true) × (body ≡ []))
    ⊎ (((hd : Bytes) × (n : ℕ) × (getheader resp (codes "content-length") ≡ some hd)
          × (atoo hd ≡ some n)
          × (length body ≡ n)
          × (body ≡ take n (flatten batches)))
        ⊎ ((getheader resp (codes "transfer-encoding") ≡ some (codes "chunked"))
            × (getheader resp (codes "content-length") ≡ none)
            × (body ≡ passchunks batches)))

-- What the framing of a plan has to agree with.
abbrev Agrees : Bytes → Hthead → Framing → Type 0
Agrees method resp no_body = strcasecmp method (codes "head") ≡ true
Agrees method resp (counted o) =
    (hd : Bytes) × (getheader resp (codes "content-length") ≡ some hd) × (atoo hd ≡ o)
Agrees method resp chunked =
    (getheader resp (codes "transfer-encoding") ≡ some (codes "chunked"))
    × (getheader resp (codes "content-length") ≡ none)
Agrees method resp until_close = Unit

abbrev Agreed : Bytes → Plan → Type 0
Agreed method plan = Agrees method plan.resp plan.framing

getheader-headrmheader :
    (resp : Hthead) (n m : Bytes)
    → strcasecmp n m ≡ false
    → getheader (headrmheader resp n) m ≡ getheader resp m
unfolding getheader headrmheader
getheader-headrmheader resp n m e = find_header-remove m n resp.headers e

getheader-headappheader :
    (resp : Hthead) (n v m : Bytes)
    → strcasecmp n m ≡ false
    → getheader (headappheader resp n v) m ≡ getheader resp m
getheader-headappheader resp n v m e =
    (getheader_added resp n v m).0 ∙ rw e (or_else-none (getheader resp m))

chunked_header :
    (resp : Hthead)
    → getheader resp (codes "transfer-encoding") ≡ none
    → getheader
        (headappheader resp (codes "Transfer-Encoding") (codes "chunked"))
        (codes "transfer-encoding")
      ≡ some (codes "chunked")
unfolding strcasecmp
chunked_header resp e =
    (getheader_added resp (codes "Transfer-Encoding") (codes "chunked")
      (codes "transfer-encoding")).0
    ∙ ap (λ o. or_else o (some (codes "chunked"))) e

length_header :
    (resp : Hthead)
    → getheader
        (headappheader resp (codes "Transfer-Encoding") (codes "chunked"))
        (codes "content-length")
      ≡ getheader resp (codes "content-length")
unfolding strcasecmp
length_header resp =
    getheader-headappheader resp (codes "Transfer-Encoding") (codes "chunked")
      (codes "content-length") refl

-- `http10keep` touches no other header than Connection.
getheader-http10keep :
    (req resp : Hthead) (m : Bytes)
    → strcasecmp (codes "connection") m ≡ false
    → strcasecmp (codes "Connection") m ≡ false
    → getheader (http10keep req resp).0 m ≡ getheader resp m
unfolding http10keep
getheader-http10keep req resp m e f = go (
    not (hasheader resp (codes "connection") (codes "close"))
    && hasheader req (codes "connection") (codes "keep-alive"))
  where
    kept : getheader (headrmheader resp (codes "connection")) m ≡ getheader resp m
    kept = getheader-headrmheader resp (codes "connection") m e

    go :
        (b : Bool)
        → (let kept : Hthead × Bool =
              if b
              then (
                headappheader
                    (headrmheader resp (codes "connection"))
                    (codes "Connection")
                    (codes "Keep-Alive"),
                true,
              )
              else (headrmheader resp (codes "connection"), false) in
            getheader kept.0 m ≡ getheader resp m)
    go true =
        getheader-headappheader (headrmheader resp (codes "connection")) (codes "Connection")
          (codes "Keep-Alive") m f
        ∙ kept
    go false = kept

plan_http10-Agreed :
    (req resp : Hthead) (method : Bytes) → Agreed method (plan_http10 req method resp)
unfolding plan_http10 strcasecmp
plan_http10-Agreed req resp method =
    go (strcasecmp method (codes "head")) refl (getheader resp (codes "content-length")) refl
  where
    go :
        (b : Bool)
        → strcasecmp method (codes "head") ≡ b
        → (o : Option Bytes) → getheader resp (codes "content-length") ≡ o
        → (let (resp', keep) = http10keep req resp in
            let plan : Plan =
              if b then record { resp = resp'; framing = no_body; keep = keep } else elim o [
                | some hd ↦ record { resp = resp'; framing = counted (atoo hd); keep = keep }
                | none ↦ record {
                  resp = headrmheader resp (codes "connection");
                  framing = until_close;
                  keep = false;
                }
              ] in
            Agreed method plan)
    go true e o f = e
    go false e (some hd) f =
        (hd, getheader-http10keep req resp (codes "content-length") refl refl ∙ f, refl)
    go false e none f = tt

plan_http11-Agreed :
    (req resp : Hthead) (method : Bytes) → Agreed method (plan_http11 req method resp)
unfolding plan_http11
plan_http11-Agreed req resp method =
    go (strcasecmp method (codes "head")) refl (getheader resp (codes "content-length")) refl
      (getheader resp (codes "transfer-encoding")) refl
  where
    go :
        (b : Bool)
        → strcasecmp method (codes "head") ≡ b
        → (o : Option Bytes) → getheader resp (codes "content-length") ≡ o
        → (t : Option Bytes) → getheader resp (codes "transfer-encoding") ≡ t
        → (let resp' = headappheader resp (codes "Transfer-Encoding") (codes "chunked") in
            let plan : Plan =
              if b
              then record { resp = resp; framing = no_body; keep = stays_open req resp }
              else elim o [
                | some hd ↦ record {
                  resp = resp;
                  framing = counted (atoo hd);
                  keep = stays_open req resp;
                }
                | none ↦ elim t [
                  | none ↦ record { resp = resp'; framing = chunked; keep = stays_open req resp' }
                  | some _ ↦ record { resp = resp; framing = until_close; keep = false }
                ]
              ] in
            Agreed method plan)
    go true e o f t g = e
    go false e (some hd) f t g = (hd, f, refl)
    go false e none f (some _) g = tt
    go false e none f none g = (chunked_header resp g, length_header resp ∙ f)

payload-Delimits :
    (method : Bytes) (resp : Hthead) (framing : Framing) (batches : List Bytes)
    → Agrees method resp framing
    → (payload framing batches).1 ≡ true
    → Delimits method resp (payload framing batches).0 batches
unfolding payload
payload-Delimits method resp no_body batches a e = inl (a, refl)
payload-Delimits method resp (counted (some n)) batches (hd, h, v) e =
    inr (inl (hd, n, h, v, (==_iff (length (take n (flatten batches))) n).0 e, refl))
payload-Delimits method resp (counted none) batches a e = cc
payload-Delimits method resp chunked batches (t, l) e = inr (inr (t, l, refl))
payload-Delimits method resp until_close batches a e = cc

-- The conclusion for a text that was sent.
abbrev pub Sent : Bytes → List Bytes → Bytes → Type 0
Sent method batches text =
    (resp : Hthead) × (head : Bytes) × (body : Bytes) × (writerespb resp ≡ some head)
    × (text ≡ head ++ 13 ∷ 10 ∷ body)
    × Delimits method resp body batches

send_plan-Sent :
    (method : Bytes) (plan : Plan) (batches : List Bytes) {text : Bytes}
    → Agreed method plan
    → send_plan plan batches ≡ some (text, true)
    → Sent method batches text
unfolding send_plan
send_plan-Sent method plan batches {text} a e =
    let (head, w, f) = bind-some (writerespb plan.resp) _ e in
    let p : (head ++ 13 ∷ 10 ∷ (payload plan.framing batches).0) ≡ text = cc in
    let q : (plan.keep && (payload plan.framing batches).1) ≡ true = cc in
    let r : (payload plan.framing batches).1 ≡ true = ground arith in
    (
      plan.resp,
      head,
      (payload plan.framing batches).0,
      w,
      sym p,
      payload-Delimits method plan.resp plan.framing batches a r,
    )

-- If the connection lives on after a response, what was written is the header of a response, an
-- empty line and a body whose end the header shows: there is none after HEAD, it has the
-- Content-Length, or it is chunked, as the Transfer-Encoding says, and there is no Content-Length.
pub reply-Sent :
    (req resp : Hthead) (batches : List Bytes) (method : Bytes) {text : Bytes}
    → req.method ≡ some method
    → reply req resp batches ≡ some (text, true)
    → Sent method batches text
unfolding reply
reply-Sent req resp batches method {text} m e =
    let (ver, v, e1) = bind-some req.ver _ e in
    let (method', m', e2) = bind-some req.method _ e1 in
    let same : method' ≡ method = cc in
    go (strcasecmp ver (codes "HTTP/1.0")) (strcasecmp ver (codes "HTTP/1.1")) (rw same at e2)
  where
    go :
        (a b : Bool)
        → (if a
            then send_plan (plan_http10 req method resp) batches
            else if b
            then send_plan (plan_http11 req method resp) batches
            else some ([], false))
          ≡ some (text, true)
        → Sent method batches text
    go true b e =
        send_plan-Sent method (plan_http10 req method resp) batches
          (plan_http10-Agreed req resp method) e
    go false true e =
        send_plan-Sent method (plan_http11 req method resp) batches
          (plan_http11-Agreed req resp method) e
    go false false e = cc
