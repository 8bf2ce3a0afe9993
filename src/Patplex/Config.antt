-- ===== src/Patplex/Config.antt =====
-- src/patplex.c `parsepattern` with newpattern and newrule, over the lines that getcfline gives, each
-- of them its words; behind the last one it gives "eof". `regcomp` is regalloc with the C library's
-- compiler of expressions, at a text and whether case does not count; `none` is one that it refuses.
-- The warnings are left out.
pub mod Valid
use ashd.Base.{
  ltb, ◌==◌, if◌then◌else◌, Bytes, codes, isspace, strcmp, ℕ, ◌+◌, ◌-◌, ◌%◌, ◌^◌, Bool, true, false,
  ◌||◌, Option, none, some, List, [], ◌∷◌, ◌++◌,
}
use ashd.Req.Head.{Header}
use ashd.HtParser.Serve.{read_digits}
use ashd.Patplex.Match.{RuleType, pat_rest, pat_url, pat_method, pat_header, pat_all, Rule, Pattern}

-- The priority 0, as `prio` stands in a pattern.
abbrev pub zero_prio : ℕ
zero_prio = 2 ^ 31

-- `(int)strtol(..)` of a number with this sign, which stops at the bounds of a `long`.
unfoldable pub wrap_int : Bool → ℕ → ℕ
wrap_int true n = (zero_prio + 2 ^ 64 - (if ltb (2 ^ 63) n then 2 ^ 63 else n)) % 2 ^ 32
wrap_int false n = (zero_prio + (if ltb (2 ^ 63 - 1) n then 2 ^ 63 - 1 else n)) % 2 ^ 32

-- `atoi`.
unfoldable pub atoi : Bytes → ℕ
unfolding wrap_int read_digits
atoi [] = zero_prio
atoi (c ∷ s) =
    let behind = atoi s in
    if isspace c
    then behind
    else if c == b'-'
    then wrap_int true (read_digits s 0)
    else if c == b'+'
    then wrap_int false (read_digits s 0)
    else wrap_int false (read_digits (c ∷ s) 0)

-- `strchr(flags, c)`, for a flag that is not NUL.
unfoldable pub has_flag : ℕ → Bytes → Bool
has_flag c [] = false
has_flag c (d ∷ s) = d == c || has_flag c s

-- The word after the fixed ones, if there is one: `argc` tells.
abbrev pub flags_of : List Bytes → Bytes
flags_of [] = []
flags_of (flags ∷ _) = flags

module _ {Regex : Type 0} where
  unfoldable pub newpattern : Pattern Regex
  newpattern = record {
    headers = [];
    childnm = none;
    rules = [];
    restpat = none;
    handler = 0;
    prio = zero_prio;
    disable = false;
  }

  unfoldable pub newrule : Pattern Regex → Rule Regex → Pattern Regex
  newrule pat rule = record pat { rules = pat.rules ++ rule ∷ [] }

  -- The rule of a "point", "url" or "method" line.
  abbrev pub text_rule : Bytes → Regex → Bytes → Rule Regex
  text_rule word rx flags = record {
    kind =
        (if strcmp word (codes "point")
          then pat_rest rx
          else if strcmp word (codes "url")
          then pat_url rx
          else pat_method rx);
    mss = has_flag b's' flags;
    unq = has_flag b'q' flags;
  }

  -- A directive with its words behind the first. One that lacks a word, or whose expression is
  -- refused, changes nothing.
  module _ (regcomp : Bytes → Bool → Option Regex) where
    unfoldable pub add_text : Pattern Regex → Bytes → List Bytes → Pattern Regex
    unfolding newrule has_flag
    add_text pat word [] = pat
    add_text pat word (text ∷ more) = elim (regcomp text (has_flag b'i' (flags_of more))) [
      | none ↦ pat
      | some rx ↦ newrule pat (text_rule word rx (flags_of more))
    ]

    unfoldable pub add_header : Pattern Regex → List Bytes → Pattern Regex
    unfolding newrule has_flag
    add_header pat (name ∷ text ∷ more) = elim (regcomp text (has_flag b'i' (flags_of more))) [
      | none ↦ pat
      | some rx ↦
          newrule pat
            (record { kind = pat_header name rx; mss = has_flag b's' (flags_of more); unq = false })
    ]
    add_header pat _ = pat

  unfoldable pub add_all : Pattern Regex → Pattern Regex
  unfolding newrule
  add_all pat = newrule pat (record { kind = pat_all; mss = false; unq = false })

  unfoldable pub set_handler : Pattern Regex → List Bytes → Pattern Regex
  set_handler pat [] = pat
  set_handler pat (name ∷ _) = record pat { childnm = some name; handler = 1 }

  unfoldable pub set_prio : Pattern Regex → List Bytes → Pattern Regex
  unfolding atoi
  set_prio pat [] = pat
  set_prio pat (n ∷ _) = record pat { prio = atoi n }

  unfoldable pub set_restpat : Pattern Regex → List Bytes → Pattern Regex
  set_restpat pat [] = pat
  set_restpat pat (text ∷ _) = record pat { restpat = some text }

  unfoldable pub add_set : Pattern Regex → Bytes → List Bytes → Pattern Regex
  add_set pat prefix (name ∷ value ∷ _) = record pat {
    headers = (prefix ++ name, value) ∷ pat.headers;
  }
  add_set pat prefix _ = pat

  -- The checks at the end.
  unfoldable pub complete : Pattern Regex → Option (Pattern Regex)
  complete pat = elim pat.rules [
    | [] ↦ none
    | _ ∷ _ ↦ (if pat.handler == 0 then none else some pat)
  ]

  module _ (regcomp : Bytes → Bool → Option Regex) where
    -- One line of the declaration; `none` is the end of it.
    unfoldable pub directive : Pattern Regex → Bytes → List Bytes → Option (Pattern Regex)
    unfolding add_text add_header add_all set_handler set_prio set_restpat add_set
    directive pat word args =
        if strcmp word (codes "point") || strcmp word (codes "url") || strcmp word (codes "method")
        then some (add_text regcomp pat word args)
        else if strcmp word (codes "header")
        then some (add_header regcomp pat args)
        else if strcmp word (codes "all")
        then some (add_all pat)
        else if strcmp word (codes "default")
        then some (record (add_all pat) { prio = zero_prio - 10 })
        else if strcmp word (codes "order") || strcmp word (codes "priority")
        then some (set_prio pat args)
        else if strcmp word (codes "handler")
        then some (set_handler pat args)
        else if strcmp word (codes "reparse")
        then some (record pat { handler = 2 })
        else if strcmp word (codes "restpat")
        then some (set_restpat pat args)
        else if strcmp word (codes "set")
        then some (add_set pat [] args)
        else if strcmp word (codes "xset")
        then some (add_set pat (codes "X-Ash-") args)
        else if strcmp word (codes "end") || strcmp word (codes "eof")
        then none
        else some pat

    -- The loop: the pattern and the lines that are left.
    unfoldable pub read_directives :
        Pattern Regex → List (List Bytes) → Pattern Regex × List (List Bytes)
    unfolding directive
    read_directives pat [] = (pat, [])
    read_directives pat ([] ∷ lines) = read_directives pat lines
    read_directives pat ((word ∷ args) ∷ lines) = elim (directive pat word args) [
      | none ↦ (pat, lines)
      | some pat' ↦ read_directives pat' lines
    ]

    -- The first line and those behind it; `none` is NULL, and then the lines are used up as well.
    unfoldable pub parsepattern :
        List Bytes → List (List Bytes) → Option (Pattern Regex) × List (List Bytes)
    unfolding newpattern read_directives complete
    parsepattern [] lines = (none, lines)
    parsepattern (word ∷ args) lines =
        let (pat, rest) = read_directives newpattern lines in
        if strcmp word (codes "match") then (complete pat, rest) else (none, lines)
