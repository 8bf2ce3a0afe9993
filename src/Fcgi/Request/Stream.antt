-- ===== src/Fcgi/Request/Stream.antt =====
-- What a FastCGI server reads of a request.
use ashd.Base.{
  ltb, length, take_all, All, Bytes, ℕ, ◌≤◌, ◌<◌, ◌≡◌, refl, sym, ap, ◌∙◌, false, some, List, [],
  ◌∷◌, ◌++◌, append-nil, append_assoc, arith,
}
use mathlib.Core.List.{flatten}
use ashd.Req.Head.{Hthead}
use ashd.Fcgi.Params.{Carried, read_variables}
use ashd.Fcgi.Record.{
  Rec, fcgi_begin_request, fcgi_params, fcgi_stdin, max_content, put_record, send_loop, sendrec,
  begreq,
}
use ashd.Fcgi.Record.RoundTrip.{
  Reads, records_of, recvrec-sendrec, Reads-append, Reads-put_record, Reads-nil, max_content_bound,
}
use ashd.Fcgi.Env.{cgi_vars, mkcgienv}
use ashd.Fcgi.Env.Laws.{mkcgienv-sendrec}
use ashd.Fcgi.Request.{send_body, send_params, send_request}

records_of-append :
    (type rid : ℕ) (ps qs : List Bytes)
    → records_of type rid (ps ++ qs) ≡ records_of type rid ps ++ records_of type rid qs
records_of-append type rid [] qs = refl
records_of-append type rid (p ∷ ps) qs =
    ap (λ rs. record { type = type; rid = rid; content = p } ∷ rs)
      (records_of-append type rid ps qs)

flatten_both : (ps qs : List Bytes) → flatten (ps ++ qs) ≡ flatten ps ++ flatten qs
unfolding flatten
flatten_both [] qs = refl
flatten_both (p ∷ ps) qs =
    ap (λ s. p ++ s) (flatten_both ps qs) ∙ sym (append_assoc p (flatten ps) (flatten qs))

-- Data that fit in one record are written as one.
sendrec_short :
    (type rid : ℕ) (content : Bytes)
    → length content ≤ max_content
    → sendrec type rid content ≡ some (put_record type rid content)
unfolding sendrec send_loop
sendrec_short type rid content l =
    let fits : ltb max_content (length content) ≡ false = ground arith in
    let whole = take_all max_content content l in rw (fits, whole) refl

Reads-one :
    (type rid : ℕ) (content : Bytes)
    → type < 256
    → rid < 65536
    → length content ≤ max_content
    → Reads
        (put_record type rid content)
        (record { type = type; rid = rid; content = content } ∷ [])
Reads-one type rid content t r l =
    rw (append-nil (put_record type rid content)) at
      (Reads-put_record type rid content [] [] t r l Reads-nil)

send_body-Reads :
    (batches : List Bytes)
    → (bytes : Bytes) × (pieces : List Bytes) × (send_body batches ≡ some bytes)
      × (flatten pieces ≡ flatten batches)
      × Reads bytes (records_of fcgi_stdin 1 pieces)
unfolding send_body flatten
send_body-Reads [] = ([], [], refl, refl, Reads-nil)
send_body-Reads (batch ∷ batches) =
    let (bytes, pieces, e, (f, _), r) =
      recvrec-sendrec fcgi_stdin 1 batch (omega arith) (omega arith) in
    let (more, others, e', f', r') = send_body-Reads batches in
    rw (e, e')
      (
        bytes ++ more,
        pieces ++ others,
        refl,
        flatten_both pieces others ∙ rw (f, f') refl,
        rw (records_of-append fcgi_stdin 1 pieces others) (
            Reads-append bytes more (records_of fcgi_stdin 1 pieces)
              (records_of fcgi_stdin 1 others) r r'),
      )

-- The records that a request with these parameters and this body is.
abbrev pub request_records : List Bytes → List Bytes → List Rec
request_records pieces body =
    (record { type = fcgi_begin_request; rid = 1; content = 0 ∷ 1 ∷ 0 ∷ 0 ∷ 0 ∷ 0 ∷ 0 ∷ 0 ∷ [] }
      ∷ [])
    ++ ((records_of fcgi_params 1 pieces ++ records_of fcgi_params 1 ([] ∷ []))
        ++ (records_of fcgi_stdin 1 body ++ records_of fcgi_stdin 1 ([] ∷ [])))

begreq-Reads :
    (bytes : Bytes) × (begreq 1 ≡ some bytes)
    × Reads bytes (
        record { type = fcgi_begin_request; rid = 1; content = 0 ∷ 1 ∷ 0 ∷ 0 ∷ 0 ∷ 0 ∷ 0 ∷ 0 ∷ [] }
        ∷ [])
unfolding begreq
begreq-Reads =
    let content : Bytes = 0 ∷ 1 ∷ 0 ∷ 0 ∷ 0 ∷ 0 ∷ 0 ∷ 0 ∷ [] in
    let room = max_content_bound.1 in
    let fits : length content ≤ max_content = omega arith in
    (
      put_record fcgi_begin_request 1 content,
      sendrec_short fcgi_begin_request 1 content fits,
      Reads-one fcgi_begin_request 1 content (omega arith) (omega arith) fits,
    )

empty-Reads :
    (type : ℕ)
    → type < 256
    → (bytes : Bytes) × (sendrec type 1 [] ≡ some bytes) × Reads bytes (records_of type 1 ([] ∷ []))
empty-Reads type t =
    let fits : 0 ≤ max_content = omega arith in
    (put_record type 1 [], sendrec_short type 1 [] fits, Reads-one type 1 [] t (omega arith) fits)

send_params-made :
    (version cwd buf sent no_params : Bytes) (req : Hthead)
    → mkcgienv version cwd req [] ≡ some buf
    → sendrec fcgi_params 1 buf ≡ some sent
    → sendrec fcgi_params 1 [] ≡ some no_params
    → send_params version cwd req ≡ some (sent ++ no_params)
unfolding send_params
send_params-made version cwd buf sent no_params req made e f = rw (send_params, made, e, f) refl

-- For a request with any body, whatever the batches in which it is read, what is written up to the
-- second fflush is read back by recvrec, and what follows it is left: a record that begins the
-- request; records of parameters that, put together, hold the variables of the request in their
-- order; an empty one; records of the body that, put together, are the body; and an empty one. The
-- names and the values must be shorter than 2^31 bytes.
pub send_request-Reads :
    (version cwd ver method url rest : Bytes) (req : Hthead) (batches : List Bytes)
    → req.ver ≡ some ver
    → req.method ≡ some method
    → req.url ≡ some url
    → req.rest ≡ some rest
    → All Carried (cgi_vars version cwd ver method url rest req)
    → (bytes : Bytes) × (pieces body : List Bytes) × (send_request version cwd req batches
        ≡ some bytes)
      × Reads bytes (request_records pieces body)
      × (read_variables (length (cgi_vars version cwd ver method url rest req)) (flatten pieces)
          ≡ some (cgi_vars version cwd ver method url rest req, []))
      × (flatten body ≡ flatten batches)
unfolding send_request
send_request-Reads version cwd ver method url rest req batches v m u r h =
    let (buf, sent, pieces, made, e, reads, got) =
      mkcgienv-sendrec version cwd ver method url rest req v m u r h in
    let (begun, eb, rb) = begreq-Reads in
    let (no_params, ep, rp) = empty-Reads fcgi_params (omega arith) in
    let (no_more, en, rn) = empty-Reads fcgi_stdin (omega arith) in
    let params = send_params-made version cwd buf sent no_params req made e ep in
    let (fed, body, es, f, rs) = send_body-Reads batches in
    rw (eb, params, es, en)
      (
        begun ++ ((sent ++ no_params) ++ (fed ++ no_more)),
        pieces,
        body,
        refl,
        Reads-append begun _ _ _ rb (
            Reads-append (sent ++ no_params) (fed ++ no_more) _ _
              (Reads-append sent no_params _ _ reads rp) (Reads-append fed no_more _ _ rs rn)),
        got,
        f,
      )
