-- ===== src/Fcgi/Request.antt =====
-- src/callfcgi.c `serve` up to the second fflush: what it writes to the FastCGI server for a request.
pub mod Stream
use ashd.Base.{Bytes, Option, none, some, List, [], ◌∷◌, ◌++◌}
use ashd.Req.Head.{Hthead}
use ashd.Fcgi.Record.{fcgi_params, fcgi_stdin, sendrec, begreq}
use ashd.Fcgi.Env.{mkcgienv}

-- One piece of the stream behind the other; `none` stands for `goto out`.
abbrev pub then_bytes : Option Bytes → Option Bytes → Option Bytes
then_bytes none more = none
then_bytes (some bytes) none = none
then_bytes (some bytes) (some more) = some (bytes ++ more)

-- The loop over the body. `batches` is what the calls of fread give.
unfoldable pub send_body : List Bytes → Option Bytes
send_body [] = some []
send_body (batch ∷ batches) = then_bytes (sendrec fcgi_stdin 1 batch) (send_body batches)

unfoldable pub send_params : Bytes → Bytes → Hthead → Option Bytes
send_params version cwd req = elim (mkcgienv version cwd req []) [
  | none ↦ none
  | some head ↦ then_bytes (sendrec fcgi_params 1 head) (sendrec fcgi_params 1 [])
]

unfoldable pub send_request : Bytes → Bytes → Hthead → List Bytes → Option Bytes
unfolding send_params send_body
send_request version cwd req batches = then_bytes (begreq 1) (
    then_bytes (send_params version cwd req)
      (then_bytes (send_body batches) (sendrec fcgi_stdin 1 [])))
