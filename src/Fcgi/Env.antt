-- ===== src/Fcgi/Env.antt =====
-- src/callfcgi.c mkcgienv and absolutify: the variables that a request becomes.
pub mod Laws
use ashd.Base.{
  leb, ◌==◌, if◌then◌else◌, ◌>>=◌, length, take, drop, Bytes, codes, cstr, strcmp, split_at, ℕ, ◌-◌,
  Bool, false, ◌&&◌, ◌||◌, Option, none, some, List, [], ◌∷◌, ◌++◌,
}
use ashd.Req.Head.{Header, Hthead, getheader}
use ashd.Req.Unquote.{unquoteurl}
use ashd.Fcgi.Params.{Variable, bufcatenv}

-- isalnum(3) and toupper(3) in the C locale.
abbrev pub isalnum : ℕ → Bool
isalnum c = (leb b'0' c && leb c b'9') || (leb b'A' c && leb c b'Z') || (leb b'a' c && leb c b'z')

abbrev toupper : ℕ → ℕ
toupper c = if leb b'a' c && leb c b'z' then c - 32 else c

-- The URL in front of its query, and the query.
unfoldable pub cut_query : Bytes → Bytes × Bytes
cut_query url = elim (split_at b'?' url) [ none ↦ (url, []) | some (path, query) ↦ (path, query) ]

-- The test of the rest string: whether it is not empty and the URL ends with it.
unfoldable pub ends_with : Bytes → Bytes → Bool
ends_with url [] = false
ends_with url (c ∷ rest) =
    leb (length (c ∷ rest)) (length url)
    && strcmp (c ∷ rest) (drop (length url - length (c ∷ rest)) url)

unfoldable pub cut_rest : Bytes → Bytes → Bytes
unfolding ends_with
cut_rest url rest = if ends_with url rest then take (length url - length rest) url else url

-- `pi`, a C string.
unfoldable pub unquoted_rest : Bytes → Bytes
unquoted_rest rest = elim (unquoteurl rest) [ none ↦ rest | some bytes ↦ cstr bytes ]

-- SCRIPT_NAME, PATH_INFO and QUERY_STRING.
unfoldable pub path_parts : Bytes → Bytes → Bytes × Bytes × Bytes
unfolding cut_query cut_rest unquoted_rest
path_parts url rest =
    let (path, query) = cut_query url in
    let script = cut_rest path rest in
    let pi = unquoted_rest rest in
    if strcmp script (codes "/") then ([], b'/' ∷ pi, query) else (script, pi, query)

-- A variable that is the value of a header, if there is one.
abbrev pub header_var : Hthead → Bytes → Bytes → List Variable
header_var req header name = elim (getheader req header) [ none ↦ [] | some h ↦ (name, h) ∷ [] ]

abbrev pub https_var : Option Bytes → List Variable
https_var none = []
https_var (some h) = if strcmp h (codes "https") then (codes "HTTPS", codes "on") ∷ [] else []

abbrev pub length_var : Option Bytes → List Variable
length_var none = (codes "CONTENT_LENGTH", codes "0") ∷ []
length_var (some h) = (codes "CONTENT_LENGTH", h) ∷ []

-- `cwd` is what getcwd(3) gives.
unfoldable pub absolutify : Bytes → Bytes → Bytes
absolutify cwd [] = cwd ++ b'/' ∷ []
absolutify cwd (c ∷ file) = if c == b'/' then c ∷ file else cwd ++ b'/' ∷ c ∷ file

abbrev pub file_var : Bytes → Option Bytes → List Variable
file_var cwd none = []
file_var cwd (some file) = (codes "SCRIPT_FILENAME", absolutify cwd file) ∷ []

-- The loop over the name of a header.
abbrev pub env_byte : ℕ → ℕ
env_byte c = if isalnum c then toupper c else b'_'

unfoldable pub env_name : Bytes → Bytes
env_name [] = []
env_name (c ∷ name) = env_byte c ∷ env_name name

unfoldable pub client_vars : List Header → List Variable
unfolding env_name
client_vars [] = []
client_vars ((name, val) ∷ headers) = (env_name (codes "HTTP_" ++ name), val) ∷ client_vars headers

-- `version` is VERSION of the build.
unfoldable pub cgi_vars : Bytes → Bytes → Bytes → Bytes → Bytes → Bytes → Hthead → List Variable
unfolding path_parts client_vars absolutify
cgi_vars version cwd ver method url rest req =
    let (script, pi, query) = path_parts url rest in
    (codes "SERVER_SOFTWARE", codes "ashd/" ++ version)
    ∷ (codes "GATEWAY_INTERFACE", codes "CGI/1.1")
    ∷ (codes "SERVER_PROTOCOL", ver)
    ∷ (codes "REQUEST_METHOD", method)
    ∷ (codes "REQUEST_URI", url)
    ∷ (codes "PATH_INFO", pi)
    ∷ (codes "SCRIPT_NAME", script)
    ∷ (codes "QUERY_STRING", query)
    ∷ (header_var req (codes "Host") (codes "SERVER_NAME")
        ++ header_var req (codes "X-Ash-Server-Address") (codes "SERVER_ADDR")
        ++ header_var req (codes "X-Ash-Server-Port") (codes "SERVER_PORT")
        ++ header_var req (codes "X-Ash-Remote-User") (codes "REMOTE_USER")
        ++ https_var (getheader req (codes "X-Ash-Protocol"))
        ++ header_var req (codes "X-Ash-Address") (codes "REMOTE_ADDR")
        ++ header_var req (codes "X-Ash-Port") (codes "REMOTE_PORT")
        ++ header_var req (codes "Content-Type") (codes "CONTENT_TYPE")
        ++ length_var (getheader req (codes "Content-Length"))
        ++ file_var cwd (getheader req (codes "X-Ash-File"))
        ++ client_vars req.headers)

-- `none` is a NULL pointer, which no field of a request is.
unfoldable pub mkcgienv : Bytes → Bytes → Hthead → Bytes → Option Bytes
unfolding cgi_vars
mkcgienv version cwd req dst = do
  ver ← req.ver
  method ← req.method
  url ← req.url
  rest ← req.rest
  some (bufcatenv dst (cgi_vars version cwd ver method url rest req))
