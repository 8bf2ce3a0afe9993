-- ===== src/Patplex/Match.antt =====
-- src/patplex.c `struct rule`, `struct pattern`, `struct match` and `findmatch`. What regcomp(3)
-- makes and regexec(3) are the parameters `Regex` and `regexec`.
pub mod Groups
pub mod Keeps
pub mod Rules
pub mod Best
pub mod Fits
use ashd.Base.{
  ◌>>=◌, leb, if◌then◌else◌, length, take, drop, Bytes, cstr, ℕ, zero, suc, ◌-◌, Bool, true, false,
  not, ◌&&◌, ◌||◌, Option, none, some, List, [], ◌∷◌,
}
use ashd.Req.Head.{Header, Hthead, getheader}
use ashd.Patplex.Offsets.{qoffsets}

-- `type` with the fields that belong to it: only PAT_ALL has no pattern, only PAT_HEADER a header.
pub data RuleType (Regex : Type 0) : Type 0 where
  pat_rest : Regex → RuleType Regex
  pat_url : Regex → RuleType Regex
  pat_method : Regex → RuleType Regex
  pat_header : Bytes → Regex → RuleType Regex
  pat_all : RuleType Regex

-- `mss` and `unq` are the flags PATFL_MSS and PATFL_UNQ.
pub record Rule (Regex : Type 0) : Type 0 where
  pub kind : RuleType Regex
  pub mss : Bool
  pub unq : Bool

-- `prio` is an int; it stands here as its distance from INT_MIN, since it is only compared.
pub record Pattern (Regex : Type 0) : Type 0 where
  pub headers : List Header
  pub childnm : Option Bytes
  pub rules : List (Rule Regex)
  pub restpat : Option Bytes
  pub handler : ℕ
  pub prio : ℕ
  pub disable : Bool

-- `rmo` is `none` for -1.
pub record Match (Regex : Type 0) : Type 0 where
  pub pat : Pattern Regex
  pub mstr : Option (List Bytes)
  pub rmo : Option ℕ

-- What regexec writes to `gr`: the whole match, and the groups, `none` for an unused entry.
abbrev pub Groups : Type 0
Groups = (ℕ × ℕ) × List (Option (ℕ × ℕ))

unfoldable pub offset_at : List ℕ → ℕ → Option ℕ
offset_at [] n = none
offset_at (k ∷ ks) zero = some k
offset_at (k ∷ ks) (suc n) = offset_at ks n

-- One group, copied out of the original text; `none` is a read outside of a buffer.
unfoldable pub copy_group : Bytes → List ℕ → ℕ × ℕ → Option Bytes
unfolding offset_at
copy_group pstr obuf (so, eo) = do
  s ← offset_at obuf so
  e ← offset_at obuf eo
  (if leb s e && leb e (length pstr) then some (take (e - s) (drop s pstr)) else none)

-- The loop that fills `mstr`, up to the first unused entry.
unfoldable pub copy_groups : Bytes → List ℕ → List (Option (ℕ × ℕ)) → Option (List Bytes)
unfolding copy_group
copy_groups pstr obuf [] = some []
copy_groups pstr obuf (none ∷ gs) = some []
copy_groups pstr obuf (some g ∷ gs) = do
  s ← copy_group pstr obuf g
  more ← copy_groups pstr obuf gs
  some (s ∷ more)

-- `rx` and `pstr`: nothing to match, a header that is not there, a NULL string, or both.
pub data Subject (Regex : Type 0) : Type 0 where
  no_regex : Subject Regex
  absent : Subject Regex
  null_text : Subject Regex
  try_on : Regex → Bytes → Subject Regex

-- What `mstr` points to, and whether `match->mstr` is the same pointer.
pub record Strings : Type 0 where
  pub lent : Bool
  pub texts : List Bytes

abbrev pub is_lent : Option Strings → Bool
is_lent none = false
is_lent (some ss) = ss.lent

abbrev pub lend : Option Strings → Option Strings
lend none = none
lend (some ss) = some (record ss { lent = true })

abbrev pub texts_of : Option Strings → Option (List Bytes)
texts_of none = none
texts_of (some ss) = some ss.texts

-- What the rules of a pattern come to, with `mstr` as they leave it. `bad_read` is a read outside of
-- a buffer or through NULL, or a freeca of the strings that `match` keeps: what is done with the
-- match then reads and frees them again.
pub data Outcome : Type 0 where
  matched : Option Strings → Option ℕ → Outcome
  failed : Option Strings → Outcome
  bad_read : Outcome

module _ {Regex : Type 0} where
  abbrev pub text_of : Regex → Option Bytes → Subject Regex
  text_of rx none = null_text
  text_of rx (some pstr) = try_on rx pstr

  unfoldable pub subject : Hthead → RuleType Regex → Subject Regex
  subject req (pat_rest rx) = text_of rx req.rest
  subject req (pat_url rx) = text_of rx req.url
  subject req (pat_method rx) = text_of rx req.method
  subject req (pat_header name rx) = elim (getheader req name) [
    | none ↦ absent
    | some pstr ↦ try_on rx pstr
  ]
  subject req pat_all = no_regex

  -- `rmo` after a rule that matched; the outer `none` is a read outside of `obuf`.
  unfoldable pub new_rmo : RuleType Regex → List ℕ → ℕ × ℕ → Option ℕ → Option (Option ℕ)
  unfolding offset_at
  new_rmo (pat_rest rx) obuf (so, eo) rmo = do o ← offset_at obuf eo; some (some o)
  new_rmo _ obuf whole rmo = some rmo

  unfoldable pub keep_groups :
      Rule Regex → Bytes → List ℕ → Groups → Option Strings → Option ℕ → Outcome
  unfolding copy_groups
  keep_groups rule pstr obuf (whole, subs) mstr rmo =
      let copied : Outcome = elim (copy_groups pstr obuf (some whole ∷ subs)) [
        | none ↦ bad_read
        | some strings ↦ matched (some (record { lent = false; texts = strings })) rmo
      ] in
      if not rule.mss then matched mstr rmo else if is_lent mstr then bad_read else copied

  -- `pat->disable || (match && (pat->prio <= match->pat->prio))`.
  unfoldable pub passed_over : Pattern Regex → Option (Match Regex) → Bool
  passed_over pat none = pat.disable
  passed_over pat (some m) = pat.disable || leb pat.prio m.pat.prio

  -- The match is kept, unless the strings that it would have are those of the one it replaces.
  abbrev pub keep_match : Bool → Option (Option (Match Regex)) → Option (Option (Match Regex))
  keep_match true found = none
  keep_match false found = found

  module _ (regexec : Regex → Bytes → Option Groups) where
    -- One round of the loop over the rules. The text ends at its first NUL for regexec.
    unfoldable pub try_rule : Hthead → Rule Regex → Option Strings → Option ℕ → Outcome
    unfolding subject new_rmo keep_groups
    try_rule req rule mstr rmo = elim (subject req rule.kind) [
      | no_regex ↦ matched mstr rmo
      | absent ↦ failed mstr
      | null_text ↦ bad_read
      | try_on rx pstr ↦
          let (pbuf, obuf) = qoffsets pstr rule.unq in
          elim (regexec rx (cstr pbuf)) [
            | none ↦ failed mstr
            | some gr ↦ elim (new_rmo rule.kind obuf gr.0 rmo) [
              | none ↦ bad_read
              | some rmo' ↦ keep_groups rule pstr obuf gr mstr rmo'
            ]
          ]
    ]

    unfoldable pub try_rules : Hthead → List (Rule Regex) → Option Strings → Option ℕ → Outcome
    unfolding try_rule
    try_rules req [] mstr rmo = matched mstr rmo
    try_rules req (rule ∷ rules) mstr rmo = elim (try_rule req rule mstr rmo) [
      | matched mstr' rmo' ↦ try_rules req rules mstr' rmo'
      | failed mstr' ↦ failed mstr'
      | bad_read ↦ bad_read
    ]

    -- The loop over the patterns. `mstr` lives on from one pattern to the next, and so a match may be
    -- made of what freematch has just freed with the match that it replaces, or of what a later rule
    -- frees; the result is `none` then, too.
    unfoldable pub find_loop :
        Hthead
        → List (Pattern Regex)
        → Option Strings
        → Option (Match Regex)
        → Option (Option (Match Regex))
    unfolding try_rules passed_over
    find_loop req [] mstr match = some match
    find_loop req (pat ∷ pats) mstr match =
        let skip = find_loop req pats mstr match in
        let next : Option (Option (Match Regex)) = elim (try_rules req pat.rules mstr none) [
          | matched mstr' rmo ↦ keep_match (is_lent mstr') (
              find_loop req pats (lend mstr')
                (some (record { pat = pat; mstr = texts_of mstr'; rmo = rmo })))
          | failed mstr' ↦ find_loop req pats mstr' match
          | bad_read ↦ none
        ] in
        if passed_over pat match then skip else next

    -- `cf->patterns` and the match so far; `none` is a run that goes wrong as `bad_read` does,
    -- or that makes a match of freed strings.
    unfoldable pub findmatch :
        List (Pattern Regex) → Hthead → Option (Match Regex) → Option (Option (Match Regex))
    unfolding find_loop
    findmatch patterns req match = find_loop req patterns none match
