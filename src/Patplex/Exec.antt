-- ===== src/Patplex/Exec.antt =====
-- src/patplex.c `exprestpat` and `execmatch`: what a match does to the request.
pub mod Laws
pub mod Found
use ashd.Base.{
  ◌>>=◌, leb, ◌==◌, if◌then◌else◌, length, drop, Bytes, ℕ, zero, suc, ◌-◌, not, ◌&&◌, Option, none,
  some, List, [], ◌∷◌, ◌++◌,
}
use ashd.Req.Head.{Header, Hthead, getheader, headappheader, headrmheader, replrest}
use ashd.Patplex.Match.{Match}

-- `strchr(p, '}')`: what stands in front of it.
unfoldable pub up_to_brace : Bytes → Option Bytes
up_to_brace [] = none
up_to_brace (c ∷ s) =
    let more = up_to_brace s in
    if c == b'}' then some [] else elim more [ none ↦ none | some t ↦ some (c ∷ t) ]

-- `mstr[n]`, if there are more strings than `n`.
unfoldable pub group_at : List Bytes → ℕ → Bytes
group_at [] n = []
group_at (s ∷ ss) zero = s
group_at (s ∷ ss) (suc n) = group_at ss n

-- What `${` puts in the buffer: `s` begins behind the brace. `p` is left at the brace, so the
-- text in braces, and the closing one, are copied too, unless no brace closes it.
unfoldable pub expand_header : Hthead → Bytes → Bytes
unfolding up_to_brace getheader
expand_header req s = elim (up_to_brace s) [
  | none ↦ []
  | some name ↦ elim (getheader req name) [ none ↦ b'{' ∷ [] | some hdr ↦ hdr ++ b'{' ∷ [] ]
]

-- The loop over `restpat`, for a request with the rest string `rest`. A `$` at the end, or in front
-- of a byte of no meaning, is dropped.
unfoldable pub expand : Hthead → Bytes → List Bytes → Bytes → Bytes
unfolding expand_header group_at
expand req rest mstr [] = []
expand req rest mstr (c ∷ []) = if c == b'$' then [] else c ∷ []
expand req rest mstr (c ∷ d ∷ s) =
    let after = expand req rest mstr s in
    let again = expand req rest mstr (d ∷ s) in
    if not (c == b'$')
    then c ∷ again
    else if leb b'0' d && leb d b'9'
    then group_at mstr (d - b'0') ++ after
    else if d == b'_'
    then rest ++ after
    else if d == b'$'
    then b'$' ∷ after
    else if d == b'{'
    then expand_header req s ++ after
    else again

-- `none` is a read through a NULL `rest`.
unfoldable pub exprestpat : Hthead → Bytes → Option (List Bytes) → Option Hthead
unfolding expand replrest
exprestpat req restpat mstr = do
  rest ← req.rest
  some (replrest req (expand req rest (elim mstr [ none ↦ [] | some ss ↦ ss ]) restpat))

-- The loop over the headers of the pattern.
unfoldable pub set_headers : Hthead → List Header → Hthead
unfolding headrmheader headappheader
set_headers req [] = req
set_headers req ((name, value) ∷ hs) =
    set_headers (headappheader (headrmheader req name) name value) hs

-- `req->rest + rmo` is outside of the string if `rmo` is larger than its length.
unfoldable pub skip_rest : Hthead → ℕ → Option Hthead
unfolding replrest
skip_rest req rmo = do
  rest ← req.rest
  (if leb rmo (length rest) then some (replrest req (drop rmo rest)) else none)

module _ {Regex : Type 0} where
  unfoldable pub new_rest : Hthead → Match Regex → Option Hthead
  unfolding exprestpat skip_rest
  new_rest req match = elim match.pat.restpat [
    | some restpat ↦ exprestpat req restpat match.mstr
    | none ↦ elim match.rmo [ none ↦ some req | some rmo ↦ skip_rest req rmo ]
  ]

  unfoldable pub execmatch : Hthead → Match Regex → Option Hthead
  unfolding new_rest set_headers
  execmatch req match = do req' ← new_rest req match; some (set_headers req' match.pat.headers)
