-- ===== src/HtParser/Request/Canon.antt =====
-- What `canonreq` makes of a request.
use ashd.Base.{
  ◌==◌, if◌then◌else◌, ==_iff, Bool-cases, ◌>>=◌, drop, All, Bytes, codes, strcasecmp, ◌≡◌, refl,
  sym, ap, ◌∙◌, ◌≢◌, inl, inr, Bool, true, false, Option, none, some, [], ◌∷◌, ◌++◌, arith,
}
use ashd.Req.Head.{Hthead, getheader, headappheader, replrest}
use ashd.HtParser.Request.{
  before_query, find_mark, split_host, set_rest, is_http, canon_absolute, canon_url, canonreq,
  after_mark,
}

-- The URL is a path, and the rest string is what stands between its slash and its query.
pub record IsCanonical (req : Hthead) : Type 0 where
  pub path : Bytes
  pub has_url : req.url ≡ some (b'/' ∷ path)
  pub has_rest : req.rest ≡ some (before_query path)

split_host_path : (s : Bytes) → (path : Bytes) × ((split_host s).1 ≡ b'/' ∷ path)
unfolding split_host
split_host_path [] = ([], refl)
split_host_path (c ∷ s) = elim (Bool-cases (c == b'/')) [
  | inl e ↦ (s, ground arith)
  | inr e ↦ let (path, p) = split_host_path s in (path, ground arith)
]

set_rest-IsCanonical :
    (req : Hthead) (url path : Bytes)
    → req.url ≡ some url
    → url ≡ b'/' ∷ path
    → IsCanonical (set_rest req url)
unfolding set_rest replrest
set_rest-IsCanonical req url path e p = record {
  path = path;
  has_url = e ∙ ap some p;
  has_rest = ap (λ u. some (before_query (drop 1 u))) p;
}

-- The conclusion at a result of `canonreq`.
abbrev Sound : Hthead → Hthead × Bool → Type 0
Sound req (req', accepted) = (accepted ≡ true → IsCanonical req') × (accepted ≡ false → req' ≡ req)

canon_absolute-Sound : (req : Hthead) (rest : Bytes) → Sound req (canon_absolute req rest)
unfolding canon_absolute headappheader
canon_absolute-Sound req rest = go (getheader req (codes "host"))
  where
    go :
        (o : Option Bytes)
        → Sound req (elim o [
          | some _ ↦ (req, false)
          | none ↦ (
            set_rest
                (record (headappheader req (codes "Host") (split_host rest).0) {
                  url = some (split_host rest).1;
                })
                (split_host rest).1,
            true,
          )
        ])
    go (some _) = (λ e. cc, λ _. refl)
    go none =
        let (path, p) = split_host_path rest in
        (
          λ _.
              set_rest-IsCanonical
                (record (headappheader req (codes "Host") (split_host rest).0) {
                  url = some (split_host rest).1;
                })
                (split_host rest).1 path refl p,
          λ e. cc,
        )

absolute-Sound :
    (req : Hthead) (m : Option (Bytes × Bytes))
    → Sound req (elim m [
      | none ↦ (req, false)
      | some (scheme, rest) ↦ (if is_http scheme then canon_absolute req rest else (req, false))
    ])
absolute-Sound req none = (λ e. cc, λ _. refl)
absolute-Sound req (some (scheme, rest)) = go (is_http scheme)
  where
    go : (b : Bool) → Sound req (if b then canon_absolute req rest else (req, false))
    go true = canon_absolute-Sound req rest
    go false = (λ e. cc, λ _. refl)

canon_url-Sound : (req : Hthead) (url : Bytes) → req.url ≡ some url → Sound req (canon_url req url)
unfolding canon_url
canon_url-Sound req [] e = absolute-Sound req (find_mark [])
canon_url-Sound req (c ∷ s) e = go (c == b'/') refl
  where
    go :
        (b : Bool)
        → (c == b'/') ≡ b
        → Sound req (
            if b then (set_rest req (c ∷ s), true) else elim (find_mark (c ∷ s)) [
              | none ↦ (req, false)
              | some (scheme, rest) ↦
                  (if is_http scheme then canon_absolute req rest else (req, false))
            ])
    go true p =
        (λ _. set_rest-IsCanonical req (c ∷ s) s e (ap (λ d. d ∷ s) ((==_iff c b'/').0 p)), λ q. cc)
    go false p = absolute-Sound req (find_mark (c ∷ s))

canonreq_canonical : (req : Hthead) → IsCanonical req → canonreq req ≡ some (req, true)
unfolding canonreq canon_url set_rest replrest
canonreq_canonical req c =
    ap (λ o. o >>= λ url. some (canon_url req url)) c.has_url
    ∙ ap (λ r. some (record req { rest = r }, true)) (sym c.has_rest)

-- A request that `canonreq` accepts afterwards has a URL that begins with a slash, and its rest
-- string is what stands between that slash and the query; a second `canonreq` accepts it and
-- changes nothing. A request that it refuses is left as it was. A request with a URL is always
-- accepted or refused.
pub canonreq_sound :
    (req : Hthead) (url : Bytes)
    → req.url ≡ some url
    → (req' : Hthead) × (accepted : Bool) × (canonreq req ≡ some (req', accepted))
      × (accepted ≡ true → IsCanonical req' × (canonreq req' ≡ some (req', true)))
      × (accepted ≡ false → req' ≡ req)
unfolding canonreq
canonreq_sound req url e =
    let (good, bad) = canon_url-Sound req url e in
    (
      (canon_url req url).0,
      (canon_url req url).1,
      ap (λ o. o >>= λ url. some (canon_url req url)) e,
      λ a. (good a, canonreq_canonical (canon_url req url).0 (good a)),
      bad,
    )

split_host-append :
    (host path : Bytes)
    → All (λ c. c ≢ b'/') host
    → split_host (host ++ b'/' ∷ path) ≡ (host, b'/' ∷ path)
unfolding split_host
split_host-append [] path h = refl
split_host-append (c ∷ host) path (n, h) = ground (arith, split_host-append host path h)

canon_absolute-append :
    (req : Hthead) (host path : Bytes)
    → All (λ c. c ≢ b'/') host
    → canon_absolute req (host ++ b'/' ∷ path) ≡ elim (getheader req (codes "host")) [
      | some _ ↦ (req, false)
      | none ↦ (
        record (headappheader req (codes "Host") host) {
          url = some (b'/' ∷ path);
          rest = some (before_query path);
        },
        true,
      )
    ]
unfolding canon_absolute set_rest replrest headappheader
canon_absolute-append req host path h =
    ap
      (λ hp. elim (getheader req (codes "host")) [
        | some _ ↦ (req, false)
        | none ↦ (
          set_rest (record (headappheader req (codes "Host") hp.0) { url = some hp.1 }) hp.1,
          true,
        )
      ])
      (split_host-append host path h)

canon_url_absolute :
    (req : Hthead) (rest : Bytes)
    → canon_url req (codes "http://" ++ rest) ≡ canon_absolute req rest
unfolding canon_url find_mark after_mark is_http strcasecmp
canon_url_absolute req rest = refl

-- An absolute URL `http://HOST/PATH` of a request without a Host header becomes the path, with
-- the host in a Host header behind the others; a request that has a Host header is refused.
canonreq_absolute :
    (req : Hthead) (host path : Bytes)
    → req.url ≡ some (codes "http://" ++ (host ++ b'/' ∷ path))
    → All (λ c. c ≢ b'/') host
    → canonreq req
      ≡ some (elim (getheader req (codes "host")) [
        | some _ ↦ (req, false)
        | none ↦ (
          record (headappheader req (codes "Host") host) {
            url = some (b'/' ∷ path);
            rest = some (before_query path);
          },
          true,
        )
      ])
unfolding canonreq
canonreq_absolute req host path e h =
    ap (λ o. o >>= λ url. some (canon_url req url)) e
    ∙ ap some (canon_url_absolute req (host ++ b'/' ∷ path) ∙ canon_absolute-append req host path h)
