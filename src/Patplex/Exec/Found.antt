-- ===== src/Patplex/Exec/Found.antt =====
-- src/patplex.c execmatch: what becomes of a request for which findmatch found a pattern.
use ashd.Base.{
  ◌==◌, drop, All, Bytes, ℕ, ◌+◌, ◌<◌, ◌≡◌, false, Option, none, some, List, [], ◌∷◌, ◌++◌,
}
use ashd.Patplex.Match.{Pattern, Match}
use ashd.Patplex.Exec.{group_at}

-- What a template is made of: bytes, `$0` to `$9`, `$_`, and `$$`.
pub data Piece : Type 0 where
  byte : ℕ → Piece
  group : ℕ → Piece
  whole dollar : Piece

abbrev pub IsPiece : Piece → Type 0
IsPiece (byte c) = (c == b'$') ≡ false
IsPiece (group n) = n < 10
IsPiece whole = Unit
IsPiece dollar = Unit

abbrev pub template : List Piece → Bytes
template [] = []
template (byte c ∷ ps) = c ∷ template ps
template (group n ∷ ps) = b'$' ∷ (b'0' + n) ∷ template ps
template (whole ∷ ps) = b'$' ∷ b'_' ∷ template ps
template (dollar ∷ ps) = b'$' ∷ b'$' ∷ template ps

-- What the pieces stand for, with the rest string and the groups.
abbrev pub meaning : Bytes → List Bytes → List Piece → Bytes
meaning rest groups [] = []
meaning rest groups (byte c ∷ ps) = c ∷ meaning rest groups ps
meaning rest groups (group n ∷ ps) = group_at groups n ++ meaning rest groups ps
meaning rest groups (whole ∷ ps) = rest ++ meaning rest groups ps
meaning rest groups (dollar ∷ ps) = b'$' ∷ meaning rest groups ps

abbrev pub groups_of : Option (List Bytes) → List Bytes
groups_of none = []
groups_of (some ss) = ss

-- The pattern has no template, or one of these pieces.
abbrev pub HasTemplate : {Regex : Type 0} → Option (List Piece) → Pattern Regex → Type 0
HasTemplate none pat = pat.restpat ≡ none
HasTemplate (some ps) pat = (pat.restpat ≡ some (template ps)) × All IsPiece ps

-- What the manual says of the rest string: it is the template, or what follows the part that
-- matched.
abbrev pub described : {Regex : Type 0} → Bytes → Match Regex → Option (List Piece) → Bytes
described rest match none = elim match.rmo [ none ↦ rest | some n ↦ drop n rest ]
described rest match (some ps) = meaning rest (groups_of match.mstr) ps
