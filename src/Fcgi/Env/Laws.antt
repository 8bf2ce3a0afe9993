-- ===== src/Fcgi/Env/Laws.antt =====
-- What the variables of a request are made of, and what the server reads of them.
use ashd.Base.{
  leb, ◌==◌, if◌then◌else◌, le→leb, Bool-cases, length, length-append, take-length-append,
  drop-length-append, All, All-append, Bytes, codes, strcmp, split_at, strcmp_iff, ℕ, ◌-◌, ◌≡◌,
  refl, sym, ap, ◌∙◌, ◌≢◌, ◌⊎◌, inl, inr, Bool, true, false, ◌&&◌, ◌||◌, Option, none, some, List,
  [], ◌∷◌, ◌++◌, append-nil, arith,
}
use mathlib.Core.List.{flatten}
use ashd.Req.Head.{Header, Hthead, getheader}
use ashd.Fcgi.Params.{Variable, Carried, bufcatenv, read_variables, read_variables-bufcatenv}
use ashd.Fcgi.Record.{fcgi_params, sendrec}
use ashd.Fcgi.Record.RoundTrip.{Reads, records_of, recvrec-sendrec}
use ashd.Fcgi.Env.{
  header_var, https_var, length_var, file_var, env_byte, env_name, client_vars, cut_query,
  ends_with, cut_rest, unquoted_rest, path_parts, cgi_vars, mkcgienv,
}

-- A digit, a capital letter or an underscore.
abbrev pub is_env_byte : ℕ → Bool
is_env_byte c = (leb b'0' c && leb c b'9') || (leb b'A' c && leb c b'Z') || c == b'_'

abbrev pub IsClientName : Bytes → Type 0
IsClientName name =
    (more : Bytes) × (name ≡ codes "HTTP_" ++ more) × All (λ c. is_env_byte c ≡ true) more

env_byte-is_env_byte : (c : ℕ) → is_env_byte (env_byte c) ≡ true
env_byte-is_env_byte c = ground arith

env_name-All : (name : Bytes) → All (λ c. is_env_byte c ≡ true) (env_name name)
unfolding env_name
env_name-All [] = tt
env_name-All (c ∷ name) = (env_byte-is_env_byte c, env_name-All name)

-- The names of the variables that mkcgienv sets itself.
abbrev pub own_names : List Bytes
own_names =
    codes "SERVER_SOFTWARE"
    ∷ codes "GATEWAY_INTERFACE"
    ∷ codes "SERVER_PROTOCOL"
    ∷ codes "REQUEST_METHOD"
    ∷ codes "REQUEST_URI"
    ∷ codes "PATH_INFO"
    ∷ codes "SCRIPT_NAME"
    ∷ codes "QUERY_STRING"
    ∷ codes "SERVER_NAME"
    ∷ codes "SERVER_ADDR"
    ∷ codes "SERVER_PORT"
    ∷ codes "REMOTE_USER"
    ∷ codes "HTTPS"
    ∷ codes "REMOTE_ADDR"
    ∷ codes "REMOTE_PORT"
    ∷ codes "CONTENT_TYPE"
    ∷ codes "CONTENT_LENGTH"
    ∷ codes "SCRIPT_FILENAME"
    ∷ []

abbrev pub holds_name : Bytes → List Bytes → Bool
holds_name name [] = false
holds_name name (n ∷ names) = strcmp n name || holds_name name names

-- One of those names, or one that begins with HTTP_.
abbrev pub IsNamed : Variable → Type 0
IsNamed v = (holds_name v.0 own_names ≡ true) ⊎ IsClientName v.0

client_vars-IsNamed : (headers : List Header) → All IsNamed (client_vars headers)
unfolding client_vars env_name
client_vars-IsNamed [] = tt
client_vars-IsNamed ((name, val) ∷ headers) =
    (inr (env_name name, refl, env_name-All name), client_vars-IsNamed headers)

header_var-All :
    (req : Hthead) (header name : Bytes)
    → holds_name name own_names ≡ true
    → All IsNamed (header_var req header name)
header_var-All req header name h = go (getheader req header)
  where
    go : (o : Option Bytes) → All IsNamed (elim o [ none ↦ [] | some v ↦ (name, v) ∷ [] ])
    go none = tt
    go (some v) = (inl h, tt)

https_var-All : (o : Option Bytes) → All IsNamed (https_var o)
https_var-All none = tt
https_var-All (some h) = elim (Bool-cases (strcmp h (codes "https"))) [
  | inl e ↦ rw e (inl (unfold strcmp in refl), tt)
  | inr e ↦ rw e tt
]

length_var-All : (o : Option Bytes) → All IsNamed (length_var o)
length_var-All none = (inl (unfold strcmp in refl), tt)
length_var-All (some h) = (inl (unfold strcmp in refl), tt)

file_var-All : (cwd : Bytes) (o : Option Bytes) → All IsNamed (file_var cwd o)
file_var-All cwd none = tt
file_var-All cwd (some file) = (inl (unfold strcmp in refl), tt)

also : (a b : List Variable) → All IsNamed a → All IsNamed b → All IsNamed (a ++ b)
also a b p q = All-append IsNamed a b p q

own : (name val : Bytes) → holds_name name own_names ≡ true → All IsNamed ((name, val) ∷ [])
own name val h = (inl h, tt)

-- Whatever the request and its headers hold, every variable of the request has the name of one of
-- the variables that mkcgienv sets itself, or one that begins with HTTP_ and goes on with capital
-- letters, digits and underscores.
pub cgi_vars-IsNamed :
    (version cwd ver method url rest : Bytes) (req : Hthead)
    → All IsNamed (cgi_vars version cwd ver method url rest req)
unfolding cgi_vars strcmp
cgi_vars-IsNamed version cwd ver method url rest req =
    let v0 = header_var-All req (codes "Host") (codes "SERVER_NAME") refl in
    let v1 =
      also _ (header_var req (codes "X-Ash-Server-Address") (codes "SERVER_ADDR")) v0
        (header_var-All req (codes "X-Ash-Server-Address") (codes "SERVER_ADDR") refl) in
    let v2 =
      also _ (header_var req (codes "X-Ash-Server-Port") (codes "SERVER_PORT")) v1
        (header_var-All req (codes "X-Ash-Server-Port") (codes "SERVER_PORT") refl) in
    let v3 =
      also _ (header_var req (codes "X-Ash-Remote-User") (codes "REMOTE_USER")) v2
        (header_var-All req (codes "X-Ash-Remote-User") (codes "REMOTE_USER") refl) in
    let v4 =
      also _ (https_var (getheader req (codes "X-Ash-Protocol"))) v3
        (https_var-All (getheader req (codes "X-Ash-Protocol"))) in
    let v5 =
      also _ (header_var req (codes "X-Ash-Address") (codes "REMOTE_ADDR")) v4
        (header_var-All req (codes "X-Ash-Address") (codes "REMOTE_ADDR") refl) in
    let v6 =
      also _ (header_var req (codes "X-Ash-Port") (codes "REMOTE_PORT")) v5
        (header_var-All req (codes "X-Ash-Port") (codes "REMOTE_PORT") refl) in
    let v7 =
      also _ (header_var req (codes "Content-Type") (codes "CONTENT_TYPE")) v6
        (header_var-All req (codes "Content-Type") (codes "CONTENT_TYPE") refl) in
    let v8 =
      also _ (length_var (getheader req (codes "Content-Length"))) v7
        (length_var-All (getheader req (codes "Content-Length"))) in
    let v9 =
      also _ (file_var cwd (getheader req (codes "X-Ash-File"))) v8
        (file_var-All cwd (getheader req (codes "X-Ash-File"))) in
    let v10 = also _ (client_vars req.headers) v9 (client_vars-IsNamed req.headers) in
    (
      inl refl,
      (inl refl, (inl refl, (inl refl, (inl refl, (inl refl, (inl refl, (inl refl, v10))))))),
    )

split_at-append : (c : ℕ) (a b : Bytes) → All (λ d. d ≢ c) a → split_at c (a ++ c ∷ b) ≡ some (a, b)
unfolding split_at
split_at-append c [] b h = ground arith
split_at-append c (d ∷ a) b (n, h) =
    let other : (d == c) ≡ false = ground arith in rw (other, split_at-append c a b h) refl

cut_query-append :
    (path query : Bytes)
    → All (λ c. c ≢ b'?') path
    → cut_query (path ++ b'?' ∷ query) ≡ (path, query)
unfolding cut_query
cut_query-append path query h = rw (cut_query, split_at-append b'?' path query h) refl

cut_rest-append : (script rest : Bytes) → cut_rest (script ++ rest) rest ≡ script
unfolding cut_rest ends_with
cut_rest-append script [] = append-nil script
cut_rest-append script (c ∷ rest) =
    let whole = length-append script (c ∷ rest) in
    let fits : leb (length (c ∷ rest)) (length (script ++ c ∷ rest)) ≡ true =
      le→leb _ _ (omega arith) in
    let start : length (script ++ c ∷ rest) - length (c ∷ rest) ≡ length script = omega arith in
    let same : strcmp (c ∷ rest) (c ∷ rest) ≡ true = (strcmp_iff (c ∷ rest) (c ∷ rest)).1 refl in
    rw
      (
        fits,
        start,
        drop-length-append script (c ∷ rest),
        same,
        take-length-append script (c ∷ rest),
      )
      refl

-- Where the URL is a script, the rest string and a query, and there is no question mark in the
-- first two, SCRIPT_NAME is the script, PATH_INFO the unquoted rest string and QUERY_STRING the
-- query; but a script that is a slash alone goes in front of PATH_INFO.
path_parts-append :
    (script rest query : Bytes)
    → All (λ c. c ≢ b'?') (script ++ rest)
    → path_parts ((script ++ rest) ++ b'?' ∷ query) rest ≡ (
        if strcmp script (codes "/")
        then ([], b'/' ∷ unquoted_rest rest, query)
        else (script, unquoted_rest rest, query))
unfolding path_parts
path_parts-append script rest query h =
    rw (cut_query-append (script ++ rest) query h, cut_rest-append script rest) refl

-- For a request, mkcgienv makes a buffer that sendrec writes as records of parameters; read back
-- and put together, they hold the variables of the request in their order, if each name and each
-- value is shorter than 2^31 bytes.
pub mkcgienv-sendrec :
    (version cwd ver method url rest : Bytes) (req : Hthead)
    → req.ver ≡ some ver
    → req.method ≡ some method
    → req.url ≡ some url
    → req.rest ≡ some rest
    → All Carried (cgi_vars version cwd ver method url rest req)
    → (buf bytes : Bytes) × (pieces : List Bytes) × (mkcgienv version cwd req [] ≡ some buf)
      × (sendrec fcgi_params 1 buf ≡ some bytes)
      × Reads bytes (records_of fcgi_params 1 pieces)
      × (read_variables (length (cgi_vars version cwd ver method url rest req)) (flatten pieces)
          ≡ some (cgi_vars version cwd ver method url rest req, []))
unfolding mkcgienv
mkcgienv-sendrec version cwd ver method url rest req v m u r h =
    let vars = cgi_vars version cwd ver method url rest req in
    let buf = bufcatenv [] vars in
    let (bytes, pieces, e, (f, all), reads) =
      recvrec-sendrec fcgi_params 1 buf (omega arith) (omega arith) in
    let got : read_variables (length vars) buf ≡ some (vars, []) =
      ap (read_variables (length vars)) (sym (append-nil buf))
      ∙ read_variables-bufcatenv vars [] h in
    (buf, bytes, pieces, rw (v, m, u, r) refl, e, reads, ap (read_variables (length vars)) f ∙ got)
