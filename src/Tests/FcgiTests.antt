-- ===== src/Tests/FcgiTests.antt =====
-- Tests of src/callfcgi.c.
use ashd.Base.{
  length, All, Bytes, codes, strcmp, ◌≡◌, refl, true, false, some, List, [], ◌∷◌, ◌++◌, arith,
}
use ashd.Req.Head.{Hthead, mkreq}
use ashd.Fcgi.Params.{Variable, Carried, bufcatenv, read_variables, read_variables-bufcatenv}
use ashd.Fcgi.Record.{freed, Rec, fcgi_stdin, put_record, sendrec, recvrec}
use ashd.Fcgi.Record.RoundTrip.{Reads, Sends, recvrec-sendrec}
use ashd.Fcgi.Env.{
  ends_with, cut_rest, cut_query, client_vars, path_parts, unquoted_rest, cgi_vars, mkcgienv,
}
use ashd.Fcgi.Request.{send_request}
use ashd.Fcgi.Request.Stream.{request_records, send_request-Reads}
use ashd.Fcgi.Env.Laws.{IsNamed, cgi_vars-IsNamed}
use ashd.Fcgi.Outplex.{Out, double_free, outplex}
use ashd.Fcgi.Outplex.Streams.{all_filled}
use mathlib.Core.List.{flatten}

put_record_padded :
    put_record fcgi_stdin 1 (codes "abc")
    ≡ 1 ∷ 5 ∷ 0 ∷ 1 ∷ 0 ∷ 3 ∷ 5 ∷ 0 ∷ (codes "abc" ++ 0 ∷ 0 ∷ 0 ∷ 0 ∷ 0 ∷ [])
unfolding put_record
put_record_padded = refl

recvrec_short : recvrec (1 ∷ 5 ∷ 0 ∷ 1 ∷ 0 ∷ 3 ∷ 0 ∷ 0 ∷ codes "ab") ≡ freed
unfolding recvrec
recvrec_short = refl

recvrec-sendrec_example : Sends fcgi_stdin 1 (codes "abc") (sendrec fcgi_stdin 1 (codes "abc"))
recvrec-sendrec_example = recvrec-sendrec fcgi_stdin 1 (codes "abc") (omega arith) (omega arith)

abbrev two_vars : List Variable
two_vars = (codes "A", codes "bc") ∷ (codes "HTTPS", []) ∷ []

read_variables-bufcatenv_example :
    read_variables 2 (bufcatenv [] two_vars ++ codes "x") ≡ some (two_vars, codes "x")
read_variables-bufcatenv_example =
    read_variables-bufcatenv two_vars (codes "x")
      ((omega arith, omega arith), ((omega arith, omega arith), tt))

abbrev get_page : Hthead
get_page = record (mkreq (codes "GET") (codes "/a/b?q") (codes "HTTP/1.1")) {
  rest = some (codes "b");
}

abbrev page_vars : List Variable
page_vars =
    cgi_vars (codes "1") (codes "/") (codes "HTTP/1.1") (codes "GET") (codes "/a/b?q") (codes "b")
      get_page

cgi_vars-IsNamed_example : All IsNamed page_vars
cgi_vars-IsNamed_example =
    cgi_vars-IsNamed (codes "1") (codes "/") (codes "HTTP/1.1") (codes "GET") (codes "/a/b?q")
      (codes "b") get_page

page_vars-Carried : All Carried page_vars
unfolding cgi_vars path_parts ashd.Fcgi.Env.cut_query ashd.Fcgi.Env.cut_rest ashd.Fcgi.Env.ends_with
    unquoted_rest ashd.Req.Head.getheader mkreq ashd.Req.Unquote.unquoteurl ashd.Base.split_at
    strcmp ashd.Base.strcasecmp client_vars
page_vars-Carried = (
  (omega arith, omega arith),
  (
    (omega arith, omega arith),
    (
      (omega arith, omega arith),
      (
        (omega arith, omega arith),
        (
          (omega arith, omega arith),
          (
            (omega arith, omega arith),
            (
              (omega arith, omega arith),
              ((omega arith, omega arith), ((omega arith, omega arith), tt)),
            ),
          ),
        ),
      ),
    ),
  ),
)

send_request-Reads_example :
    (bytes : Bytes) × (pieces body : List Bytes) × (send_request
        (codes "1")
        (codes "/")
        get_page
        (codes "hello " ∷ codes "you" ∷ [])
      ≡ some bytes)
    × Reads bytes (request_records pieces body)
    × (read_variables (length page_vars) (flatten pieces) ≡ some (page_vars, []))
    × (flatten body ≡ flatten (codes "hello " ∷ codes "you" ∷ []))
unfolding mkreq
send_request-Reads_example =
    send_request-Reads (codes "1") (codes "/") (codes "HTTP/1.1") (codes "GET") (codes "/a/b?q")
      (codes "b") get_page (codes "hello " ∷ codes "you" ∷ []) refl refl refl refl page_vars-Carried

-- A byte on stdout and one on stderr, the end of stdout, and a record of another request.
abbrev answer : Bytes
answer =
    1 ∷ 6 ∷ 0 ∷ 1 ∷ 0 ∷ 1 ∷ 0 ∷ 0 ∷ 97 ∷ 1 ∷ 7 ∷ 0 ∷ 1 ∷ 0 ∷ 1 ∷ 0 ∷ 0 ∷ 98 ∷ 1 ∷ 6 ∷ 0 ∷ 1 ∷ 0 ∷ 0
    ∷ 0 ∷ 0 ∷ 1 ∷ 6 ∷ 0 ∷ 2 ∷ 0 ∷ 0 ∷ 0 ∷ 0 ∷ []

abbrev answer_records : List Rec
answer_records =
    record { type = 6; rid = 1; content = 97 ∷ [] }
    ∷ record { type = 7; rid = 1; content = 98 ∷ [] }
    ∷ record { type = 6; rid = 1; content = [] }
    ∷ record { type = 6; rid = 2; content = [] }
    ∷ []

abbrev two_streams : List Out
two_streams =
    record { id = 6; is_open = true; got = [] } ∷ record { id = 7; is_open = true; got = [] } ∷ []

answer_taken_apart :
    all_filled answer_records two_streams
    ≡ record { id = 6; is_open = false; got = 97 ∷ [] }
      ∷ record { id = 7; is_open = false; got = 98 ∷ [] }
      ∷ []
unfolding all_filled
answer_taken_apart = refl

-- The head of a record of three bytes, and two of them.
abbrev cut_record : Bytes
cut_record = 1 ∷ 6 ∷ 0 ∷ 1 ∷ 0 ∷ 3 ∷ 0 ∷ 0 ∷ codes "ab"

abbrev cut_answer : Bytes
cut_answer = 1 ∷ 6 ∷ 0 ∷ 1 ∷ 0 ∷ 1 ∷ 0 ∷ 0 ∷ 97 ∷ cut_record

-- The data of the second record are freed twice.
answer_cut_short : outplex (λ got data'. length data') cut_answer two_streams ≡ some double_free
unfolding outplex
answer_cut_short = refl
