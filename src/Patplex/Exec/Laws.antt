-- ===== src/Patplex/Exec/Laws.antt =====
-- What `execmatch` leaves alone.
use ashd.Base.{
  leb, if◌then◌else◌, ◌>>=◌, length, drop, All, Bytes, strcasecmp, ℕ, ◌≤◌, ◌≡◌, refl, ap, ◌∙◌,
  false, Option, none, some, List, [], ◌∷◌, arith,
}
use ashd.Req.Head.{Header, Hthead, getheader, headappheader, headrmheader, replrest}
use ashd.Req.Head.Laws.{getheader_replaced}
use ashd.Patplex.Match.{Match}
use ashd.Patplex.Exec.{expand, exprestpat, set_headers, skip_rest, new_rest, execmatch}

-- The header does not set `name`.
abbrev pub Spares : Bytes → Header → Type 0
Spares name h = strcasecmp h.0 name ≡ false

getheader-replaced :
    (req : Hthead) (n v m : Bytes)
    → strcasecmp n m ≡ false
    → getheader (headappheader (headrmheader req n) n v) m ≡ getheader req m
getheader-replaced req n v m e = getheader_replaced req n v m ∙ rw e refl

getheader-set_headers :
    (hs : List Header) (req : Hthead) (m : Bytes)
    → All (Spares m) hs
    → getheader (set_headers req hs) m ≡ getheader req m
unfolding set_headers
getheader-set_headers [] req m h = refl
getheader-set_headers ((n, v) ∷ hs) req m (h, s) =
    getheader-set_headers hs (headappheader (headrmheader req n) n v) m s
    ∙ getheader-replaced req n v m h

getheader-replrest :
    (req : Hthead) (rest m : Bytes) → getheader (replrest req rest) m ≡ getheader req m
unfolding getheader replrest
getheader-replrest req rest m = refl

set_headers_line :
    (hs : List Header) (req : Hthead)
    → ((set_headers req hs).method ≡ req.method)
      × ((set_headers req hs).url ≡ req.url)
      × ((set_headers req hs).ver ≡ req.ver)
      × ((set_headers req hs).rest ≡ req.rest)
unfolding set_headers headappheader headrmheader
set_headers_line [] req = (refl, refl, refl, refl)
set_headers_line ((n, v) ∷ hs) req = set_headers_line hs (headappheader (headrmheader req n) n v)

-- The offset of a match lies in the rest string.
abbrev pub Fits : Bytes → Option ℕ → Type 0
Fits rest none = Unit
Fits rest (some n) = n ≤ length rest

-- What `execmatch` does to the rest string.
abbrev pub rewritten : {Regex : Type 0} → Hthead → Bytes → Match Regex → Bytes
rewritten req rest match = elim match.pat.restpat [
  | some restpat ↦ expand req rest (elim match.mstr [ none ↦ [] | some ss ↦ ss ]) restpat
  | none ↦ elim match.rmo [ none ↦ rest | some rmo ↦ drop rmo rest ]
]

module _ {Regex : Type 0} where
  new_rest-some :
      (req : Hthead) (rest : Bytes) (match : Match Regex)
      → req.rest ≡ some rest
      → Fits rest match.rmo
      → new_rest req match ≡ some (replrest req (rewritten req rest match))
  unfolding new_rest exprestpat skip_rest replrest
  new_rest-some req rest match e f = go match.pat.restpat match.rmo f
    where
      go :
          (pattern : Option Bytes) (rmo : Option ℕ)
          → Fits rest rmo
          → elim pattern [
            | some restpat ↦ exprestpat req restpat match.mstr
            | none ↦ elim rmo [ none ↦ some req | some n ↦ skip_rest req n ]
          ]
            ≡ some (
                replrest req (elim pattern [
                  | some restpat ↦
                      expand req rest (elim match.mstr [ none ↦ [] | some ss ↦ ss ]) restpat
                  | none ↦ elim rmo [ none ↦ rest | some n ↦ drop n rest ]
                ]))
      go (some restpat) rmo f =
          ap
            (λ o. o >>= λ r. some (record req {
              rest = some (expand req r (elim match.mstr [ none ↦ [] | some ss ↦ ss ]) restpat);
            }))
            e
      go none none f = ap (λ r. some (record req { rest = r })) e
      go none (some n) f =
          ap
            (λ o. o >>= λ r.
              (if leb n (length r) then some (record req { rest = some (drop n r) }) else none))
            e
          ∙ ground arith

  pub execmatch_rewrites :
      (req : Hthead) (rest : Bytes) (match : Match Regex)
      → req.rest ≡ some rest
      → Fits rest match.rmo
      → (req' : Hthead) × (execmatch req match ≡ some req')
        × (req'.method ≡ req.method)
        × (req'.url ≡ req.url)
        × (req'.ver ≡ req.ver)
        × (req'.rest ≡ some (rewritten req rest match))
        × ((name : Bytes)
            → All (Spares name) match.pat.headers
            → getheader req' name ≡ getheader req name)
  unfolding execmatch replrest
  execmatch_rewrites req rest match e f =
      let req1 : Hthead = replrest req (rewritten req rest match) in
      let (m, u, v, r) = set_headers_line match.pat.headers req1 in
      (
        set_headers req1 match.pat.headers,
        ap (λ o. o >>= λ h. some (set_headers h match.pat.headers))
            (new_rest-some req rest match e f),
        m,
        u,
        v,
        r,
        λ name s.
            getheader-set_headers match.pat.headers req1 name s
            ∙ getheader-replrest req (rewritten req rest match) name,
      )
