-- ===== src/HtParser/Trimx.antt =====
-- src/htparser.c `trimx`: a client cannot set the headers by which the programs trust one another.
use ashd.Base.{
  if◌then◌else◌, Bool-cases, Bytes, codes, strcasecmp, has_prefix_ci, strcasecmp_iff,
  has_prefix_ci_congr, ◌≡◌, inl, inr, none, List, [], ◌∷◌, arith,
}
use ashd.Req.Head.{Header, Hthead, find_header, getheader}

abbrev pub x_ash : Bytes
x_ash = codes "x-ash-"

-- The loop of `trimx` over the headers left.
unfoldable pub trim_headers : List Header → List Header
trim_headers [] = []
trim_headers ((n, v) ∷ hs) =
    if has_prefix_ci n x_ash then trim_headers hs else (n, v) ∷ trim_headers hs

unfoldable pub trimx : Hthead → Hthead
unfolding trim_headers
trimx req = record req { headers = trim_headers req.headers }

find_header-trim :
    (m : Bytes) (hs : List Header)
    → find_header m (trim_headers hs) ≡ (if has_prefix_ci m x_ash then none else find_header m hs)
unfolding find_header trim_headers
find_header-trim m [] = ground arith
find_header-trim m ((n, v) ∷ hs) = elim (Bool-cases (strcasecmp n m)) [
  | inl e ↦
      let same : has_prefix_ci n x_ash ≡ has_prefix_ci m x_ash =
        has_prefix_ci_congr n m x_ash ((strcasecmp_iff n m).0 e) in
      ground (arith, find_header-trim m hs)
  | inr e ↦ ground (arith, find_header-trim m hs)
]

-- After `trimx` no lookup of a name that begins with "x-ash-", in whatever case, finds a header;
-- the lookups of all other names are unchanged.
pub getheader-trimx :
    (req : Hthead) (m : Bytes)
    → getheader (trimx req) m ≡ (if has_prefix_ci m x_ash then none else getheader req m)
unfolding getheader trimx
getheader-trimx req m = find_header-trim m req.headers
