-- ===== src/Cf/Parse.antt =====
-- lib/cf.c parsefile, doinclude and parsefn. The parser runs as a thread that yields one line of
-- words after the other to getcfline; `out` is what it has yielded so far, the newest first. Between
-- two of them the reader may set `expstart`: `expects` says after which lines it does. It does so
-- after a directive only, not after a start or an end.
pub mod Levels
pub mod Nests
use ashd.Base.{
  ltb, ◌==◌, if◌then◌else◌, length, Bytes, codes, cstr, strcmp, lower, ℕ, zero, suc, ◌+◌, Bool,
  false, ◌||◌, Option, none, some, List, [], ◌∷◌, ◌++◌,
}
use ashd.Utils.Tokenize.{tokenize}
use ashd.Cf.Lines.{file_lines, strip_end, indentation, is_blank}

-- What doinclude uses of the system: dirname(3), glob(3), and fopen(3) with the text of the file.
pub record Files : Type 0 where
  pub dirname : Bytes → Bytes
  pub glob : Bytes → List Bytes
  pub fopen : Bytes → Option Bytes

-- `struct cfstate`. `indst` is local to parsefile: without its lowest entry, which is 0, and with
-- the innermost one first, it is the argument `indst` of the functions below.
pub record Parser : Type 0 where
  pub expstart : Bool
  pub out : List (List Bytes)

abbrev pub top : List ℕ → ℕ
top [] = 0
top (ind ∷ indst) = ind

-- `tokenize("start")`, `tokenize("end")` and `tokenize("eof")`.
abbrev pub start_line : List Bytes
start_line = codes "start" ∷ []

abbrev pub end_line : List Bytes
end_line = codes "end" ∷ []

abbrev pub eof_line : List Bytes
eof_line = codes "eof" ∷ []

-- `!strcmp(w[0], word)`.
abbrev pub begins_with : Bytes → List Bytes → Bool
begins_with word [] = false
begins_with word (w ∷ ws) = strcmp w word

abbrev pub is_illegal : List Bytes → Bool
is_illegal w =
    begins_with (codes "start") w || begins_with (codes "end") w || begins_with (codes "eof") w

-- The size of `indst`, its lowest entry included.
abbrev pub indst_size : ℕ
indst_size = 80

-- `none` is a write outside of `indst`, of which `indl` is the number of the entries here.
unfoldable pub deepen : ℕ → List ℕ → Parser → Option (List ℕ × Parser)
deepen ind indst s =
    let begun : Parser =
      if s.expstart then record s { expstart = false } else record s { out = start_line ∷ s.out } in
    if ltb (length indst + 1) indst_size then some (ind ∷ indst, begun) else none

-- The loop over the levels that end.
unfoldable pub dedent : ℕ → List ℕ → List (List Bytes) → List ℕ × List (List Bytes)
dedent ind [] out = ([], out)
dedent ind (level ∷ indst) out =
    let lower = dedent ind indst (end_line ∷ out) in
    if ltb ind level then lower else (level ∷ indst, out)

-- A block that was expected and is not there ends at once.
unfoldable pub end_expected : Parser → Parser
end_expected s = if s.expstart then record { expstart = false; out = end_line ∷ s.out } else s

-- From `reindent` on. It is come back to at most once, with `expstart` unset.
unfoldable pub reindent : ℕ → List ℕ → Parser → Option (List ℕ × Parser)
unfolding deepen dedent end_expected
reindent ind indst s =
    let ended = end_expected s in
    let (indst', out) = dedent ind indst ended.out in
    let same : Parser = record ended { out = out } in
    if ltb (top indst) ind
    then deepen ind indst s
    else if ltb (top indst') ind
    then deepen ind indst' same
    else some (indst', same)

module _ (fs : Files) where
  unfoldable pub include_spec : Bytes → Bytes → Bytes
  include_spec file [] = fs.dirname file ++ b'/' ∷ []
  include_spec file (c ∷ spec) = if c == b'/' then c ∷ spec else fs.dirname file ++ b'/' ∷ c ∷ spec

module _ (expects : List (List Bytes) → Bool) where
  unfoldable pub directive : List Bytes → Parser → Parser
  directive w s =
      if is_illegal w
      then s
      else record { expstart = s.expstart || expects (w ∷ s.out); out = w ∷ s.out }

  module _ (fs : Files) where
    module _ (parse : Bytes → Bytes → Parser → Option Parser) where
      -- The loop over the files that `glob` finds. Those that fopen refuses are passed over.
      unfoldable pub include_files : List Bytes → Parser → Option Parser
      include_files [] s = some s
      include_files (path ∷ paths) s = elim (fs.fopen path) [
        | none ↦ include_files paths s
        | some text ↦ elim (parse path text s) [ none ↦ none | some s' ↦ include_files paths s' ]
      ]

      unfoldable pub doincludes : Bytes → List Bytes → Parser → Option Parser
      unfolding include_files include_spec
      doincludes file [] s = some s
      doincludes file (spec ∷ specs) s =
          elim (include_files (fs.glob (include_spec fs file spec)) s) [
            | none ↦ none
            | some s' ↦ doincludes file specs s'
          ]

      -- The words of a line, at its level.
      unfoldable pub take_words : Bytes → List ℕ → List Bytes → Parser → Option Parser
      unfolding doincludes directive
      take_words file indst [] s = some s
      take_words file [] (w ∷ args) s =
          if strcmp w (codes "include")
          then doincludes file args s
          else some (directive (w ∷ args) s)
      take_words file (level ∷ indst) (w ∷ args) s = some (directive (w ∷ args) s)

      unfoldable pub parse_line : Bytes → Bytes → List ℕ → Parser → Option (List ℕ × Parser)
      unfolding take_words reindent
      parse_line file buf indst s =
          let line = strip_end (cstr buf) in
          let (ind, text) = indentation 0 line in
          let taken : Option (List ℕ × Parser) = elim (reindent ind indst s) [
            | none ↦ none
            | some (indst', s') ↦ elim (tokenize line) [
              | none ↦ none
              | some w ↦ elim (take_words file indst' w s') [
                | none ↦ none
                | some s'' ↦ some (indst', s'')
              ]
            ]
          ] in
          if is_blank text then some (indst, s) else taken

      unfoldable pub parse_lines : Bytes → List Bytes → List ℕ → Parser → Option Parser
      unfolding parse_line reindent
      parse_lines file [] indst s = elim (reindent 0 indst s) [
        | none ↦ none
        | some (_, s') ↦ some s'
      ]
      parse_lines file (buf ∷ bufs) indst s = elim (parse_line file buf indst s) [
        | none ↦ none
        | some (indst', s') ↦ parse_lines file bufs indst' s'
      ]

    -- On fuel for the files that include one another. `none` is a line that tokenize reads beyond, a
    -- write outside of `indst`, or the fuel.
    unfoldable pub parsefile : ℕ → Bytes → Bytes → Parser → Option Parser
    unfolding parse_lines
    parsefile zero file text s = none
    parsefile (suc fuel) file text s = parse_lines (parsefile fuel) file (file_lines text) [] s

    unfoldable pub parsefn : ℕ → Bytes → Bytes → Option (List (List Bytes))
    unfolding parsefile
    parsefn fuel file text =
        elim (parsefile fuel file text (record { expstart = false; out = [] })) [
          | none ↦ none
          | some s ↦ some (eof_line ∷ s.out)
        ]
