-- ===== src/Tests/PatplexTests.antt =====
-- Tests of src/patplex.c, with literal prefixes for regular expressions.
use ashd.Base.{
  ◌==◌, if◌then◌else◌, length, Bytes, codes, strcmp, ℕ, ◌+◌, ◌^◌, ◌≤◌, ◌≡◌, refl, Bool, true, false,
  ◌&&◌, Option, none, some, List, [], ◌∷◌, arith,
}
use ashd.Req.Head.{Hthead, mkreq}
use ashd.Patplex.Offsets.{qoffsets}
use ashd.Patplex.Match.{pat_rest, pat_all, Rule, Pattern, Match, Groups, findmatch}
use ashd.Patplex.Match.Groups.{Within, WithinAll, IsRegexec, HasTexts}
use ashd.Patplex.Match.Best.{Calm, pattern_of, IsBest, findmatch-IsBest}
use ashd.Patplex.Match.Fits.{findmatch-Fits}
use ashd.Patplex.Config.{parsepattern}
use ashd.Patplex.Config.Valid.{IsUsable, parsepattern-IsUsable}
use ashd.Patplex.Exec.{expand}
use ashd.Patplex.Exec.Laws.{Fits}
use ashd.Patplex.Exec.Found.{Piece, byte, group, dollar}

unquotes : qoffsets (codes "a%2Fb") true ≡ (codes "a/b", 0 ∷ 1 ∷ 4 ∷ 5 ∷ [])
unfolding qoffsets
unquotes = refl

abbrev begins : Bytes → Bytes → Bool
begins [] text = true
begins (c ∷ rx) [] = false
begins (c ∷ rx) (d ∷ text) = (c == d) && begins rx text

abbrev prefix : Bytes → Bytes → Option Groups
prefix rx text = if begins rx text then some ((0, length rx), none ∷ []) else none

length-begins : (rx text : Bytes) → begins rx text ≡ true → length rx ≤ length text
length-begins [] text e = omega arith
length-begins (c ∷ rx) [] e = cc
length-begins (c ∷ rx) (d ∷ text) e = ground (arith, length-begins rx text)

prefix-IsRegexec : IsRegexec prefix
prefix-IsRegexec rx text gr e = go (begins rx text) refl e
  where
    go :
        (b : Bool)
        → begins rx text ≡ b
        → (if b then some ((0, length rx), none ∷ []) else none) ≡ some gr
        → Within (length text) gr.0 × WithinAll (length text) gr.1
    go true p q =
        let same : ((0, length rx), none ∷ []) ≡ gr = cc in
        let short = length-begins rx text p in rw⁻¹ same ((omega arith, short), tt)
    go false p q = cc

abbrev pattern : List (Rule Bytes) → ℕ → Bytes → Pattern Bytes
pattern rules prio child = record {
  headers = (codes "X-Ash-A", codes "b") ∷ [];
  childnm = some child;
  rules = rules;
  restpat = none;
  handler = 1;
  prio = prio;
  disable = false;
}

abbrev point : Bytes → Rule Bytes
point rx = record { kind = pat_rest rx; mss = true; unq = true }

abbrev all : Rule Bytes
all = record { kind = pat_all; mss = false; unq = false }

abbrev patterns : List (Pattern Bytes)
patterns =
    pattern (all ∷ []) 0 (codes "c")
    ∷ pattern (point (codes "/a") ∷ all ∷ []) 10 (codes "a")
    ∷ pattern (point (codes "/") ∷ []) 10 (codes "b")
    ∷ []

abbrev asked : Hthead
asked = mkreq (codes "GET") (codes "/ab") (codes "HTTP/1.1")

asked-HasTexts : HasTexts asked
unfolding mkreq
asked-HasTexts = ((codes "/ab", refl), (codes "/ab", refl), (codes "GET", refl))

abbrev picked : Match Bytes
picked = record {
  pat = pattern (point (codes "/a") ∷ all ∷ []) 10 (codes "a");
  mstr = some (codes "/a" ∷ []);
  rmo = some 2;
}

picks : findmatch prefix patterns asked none ≡ some (some picked)
unfolding findmatch qoffsets mkreq
picks = refl

patterns-Calm : Calm patterns
patterns-Calm = (λ e. absurd (cc), ((λ e. ((omega arith, tt), (tt, tt))), ((λ e. (tt, tt)), tt)))

findmatch-IsBest_example :
    (r : Option (Match Bytes)) × (findmatch prefix patterns asked none ≡ some r)
    × IsBest prefix asked patterns (pattern_of r)
findmatch-IsBest_example =
    findmatch-IsBest prefix prefix-IsRegexec [] patterns asked none asked-HasTexts patterns-Calm tt

-- The strings of the first match are freed with it, and are those of the second.
rising :
    findmatch prefix
      (pattern (point (codes "/a") ∷ []) 5 (codes "a") ∷ pattern (all ∷ []) 10 (codes "b") ∷ [])
      asked
      none
    ≡ none
unfolding findmatch qoffsets mkreq
rising = refl

asked_rest : asked.rest ≡ some (codes "/ab")
unfolding mkreq
asked_rest = refl

findmatch-Fits_example : Fits (codes "/ab") (some 2)
findmatch-Fits_example =
    findmatch-Fits prefix asked (codes "/ab") asked_rest patterns {m = picked} picks

-- The same pattern with a template.
abbrev templated : Pattern Bytes
templated = record (pattern (point (codes "/a") ∷ []) 10 (codes "a")) {
  restpat = some (codes "x$0$$");
}

abbrev templated_match : Match Bytes
templated_match = record { pat = templated; mstr = some (codes "/a" ∷ []); rmo = some 2 }

abbrev parts : List Piece
parts = byte b'x' ∷ group 0 ∷ dollar ∷ []

-- The name of a header stays in the text behind the value.
header_left : expand asked (codes "/ab") [] (codes "x${Host}y$_$$") ≡ codes "x{Host}y/ab$"
unfolding expand mkreq
header_left = refl

abbrev config : List (List Bytes)
config =
    (codes "point" ∷ codes "/a" ∷ codes "sq" ∷ [])
    ∷ (codes "handler" ∷ codes "a" ∷ [])
    ∷ (codes "xset" ∷ codes "A" ∷ codes "b" ∷ [])
    ∷ (codes "priority" ∷ codes "10" ∷ [])
    ∷ (codes "end" ∷ [])
    ∷ (codes "eof" ∷ [])
    ∷ []

abbrev literal : Bytes → Bool → Option Bytes
literal text _ = some text

abbrev configured : Pattern Bytes
configured = pattern (point (codes "/a") ∷ []) (2 ^ 31 + 10) (codes "a")

config_read :
    (parsepattern literal (codes "match" ∷ []) config).0
    ≡ some (record configured { headers = (codes "X-Ash-A", codes "b") ∷ [] })
unfolding parsepattern strcmp
config_read = refl

parsepattern-IsUsable_example :
    IsUsable (record configured { headers = (codes "X-Ash-A", codes "b") ∷ [] })
parsepattern-IsUsable_example =
    parsepattern-IsUsable literal (codes "match" ∷ []) config
      {p = record configured { headers = (codes "X-Ash-A", codes "b") ∷ [] }} config_read
