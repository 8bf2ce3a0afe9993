-- ===== src/Patplex/Match/Fits.antt =====
-- The offset that a match keeps lies in the rest string of the request.
use ashd.Base.{
  if◌then◌else◌, Bool-cases, ◌>>=◌, length, Bytes, cstr, ℕ, zero, suc, ◌+◌, ◌≤◌, ◌≡◌, refl, sym, ap,
  ◌∙◌, inl, inr, Bool, true, false, not, Option, none, some, List, [], ◌∷◌, arith,
}
use ashd.Req.Head.{Hthead}
use ashd.Patplex.Offsets.{qoffsets, Rises, qoffsets-Rises}
use ashd.Patplex.Match.{
  RuleType, pat_rest, pat_url, pat_method, pat_header, pat_all, Rule, Pattern, Match, Groups,
  offset_at, copy_groups, Subject, no_regex, absent, null_text, try_on, text_of, subject, new_rmo,
  Outcome, matched, failed, bad_read, keep_groups, try_rule, try_rules, passed_over, find_loop,
  findmatch, Strings, is_lent, lend, texts_of, keep_match,
}
use ashd.Patplex.Exec.Laws.{Fits}

abbrev FitsAfter : Bytes → Outcome → Type 0
FitsAfter rest (matched _ rmo) = Fits rest rmo
FitsAfter rest (failed _) = Unit
FitsAfter rest bad_read = Unit

abbrev FitsRead : Bytes → Option (Option ℕ) → Type 0
FitsRead rest none = Unit
FitsRead rest (some rmo) = Fits rest rmo

offset_at_bounded :
    (ks : List ℕ) (i n k : ℕ) {o : ℕ} → Rises i ks n → offset_at ks k ≡ some o → o ≤ n
unfolding offset_at
offset_at_bounded ks i n k r e = go ks i k r _ e
  where
    low : (ks : List ℕ) (i : ℕ) → Rises i ks n → i ≤ n
    low [] i r = absurd r
    low (a ∷ []) i (r, e) = omega arith
    low (a ∷ b ∷ ks) i (r, rs) = let l = low (b ∷ ks) (a + 1) rs in omega arith

    go : (ks : List ℕ) (i k : ℕ) → Rises i ks n → (o : ℕ) → offset_at ks k ≡ some o → o ≤ n
    go [] i k r o e = absurd r
    go (a ∷ []) i zero (r, q) o e = ground arith
    go (a ∷ []) i (suc k) r o e = cc
    go (a ∷ b ∷ ks) i zero (r, rs) o e = let l = low (b ∷ ks) (a + 1) rs in ground arith
    go (a ∷ b ∷ ks) i (suc k) (r, rs) o e = go (b ∷ ks) (a + 1) k rs o e

module _ {Regex : Type 0} where
  abbrev Point : RuleType Regex → Type 0
  Point (pat_rest rx) = Unit
  Point (pat_url rx) = ⊥
  Point (pat_method rx) = ⊥
  Point (pat_header name rx) = ⊥
  Point pat_all = ⊥

  subject-Point :
      (req : Hthead) (rest : Bytes) (kind : RuleType Regex) (rx : Regex) (pstr : Bytes)
      → req.rest ≡ some rest
      → subject req kind ≡ try_on rx pstr
      → Point kind
      → pstr ≡ rest
  unfolding subject
  subject-Point req rest (pat_rest rx') rx pstr e f p =
      let g : try_on rx' rest ≡ try_on rx pstr = sym (ap (text_of rx') e) ∙ f in cc
  subject-Point req rest (pat_url rx') rx pstr e f p = absurd p
  subject-Point req rest (pat_method rx') rx pstr e f p = absurd p
  subject-Point req rest (pat_header name rx') rx pstr e f p = absurd p
  subject-Point req rest pat_all rx pstr e f p = absurd p

  new_rmo-Fits :
      (kind : RuleType Regex) (rest pstr : Bytes) (obuf : List ℕ) (g : ℕ × ℕ) (rmo : Option ℕ)
      → Rises 0 obuf (length pstr)
      → (Point kind → pstr ≡ rest)
      → Fits rest rmo
      → FitsRead rest (new_rmo kind obuf g rmo)
  unfolding new_rmo
  new_rmo-Fits (pat_rest rx) rest pstr obuf (so, eo) rmo r p f =
      go (offset_at obuf eo) (λ o e. rw⁻¹ (p tt) (offset_at_bounded obuf 0 (length pstr) eo r e))
    where
      go :
          (m : Option ℕ)
          → ((o : ℕ) → m ≡ some o → o ≤ length rest)
          → FitsRead rest (m >>= λ o. some (some o))
      go none h = tt
      go (some o) h = h o refl
  new_rmo-Fits (pat_url rx) rest pstr obuf g rmo r p f = f
  new_rmo-Fits (pat_method rx) rest pstr obuf g rmo r p f = f
  new_rmo-Fits (pat_header name rx) rest pstr obuf g rmo r p f = f
  new_rmo-Fits pat_all rest pstr obuf g rmo r p f = f

  keep_groups-Fits :
      (rest : Bytes) (rule : Rule Regex) (pstr : Bytes) (obuf : List ℕ) (gr : Groups)
      (mstr : Option Strings) (rmo : Option ℕ)
      → Fits rest rmo
      → FitsAfter rest (keep_groups rule pstr obuf gr mstr rmo)
  unfolding keep_groups
  keep_groups-Fits rest rule pstr obuf gr mstr rmo f =
      go rule.mss (copy_groups pstr obuf (some gr.0 ∷ gr.1))
    where
      go :
          (b : Bool) (o : Option (List Bytes))
          → FitsAfter rest (
              let copied : Outcome = elim o [
                | none ↦ bad_read
                | some strings ↦ matched (some (record { lent = false; texts = strings })) rmo
              ] in
              if not b then matched mstr rmo else if is_lent mstr then bad_read else copied)
      go true none = elim (Bool-cases (is_lent mstr)) [ inl e ↦ rw e tt | inr e ↦ rw e tt ]
      go true (some ss) = elim (Bool-cases (is_lent mstr)) [ inl e ↦ rw e tt | inr e ↦ rw e f ]
      go false o = f

  module _ (regexec : Regex → Bytes → Option Groups) (req : Hthead) (rest : Bytes)
      (whole : req.rest ≡ some rest) where
    try_rule-Fits :
        (rule : Rule Regex) (mstr : Option Strings) (rmo : Option ℕ)
        → Fits rest rmo
        → FitsAfter rest (try_rule regexec req rule mstr rmo)
    unfolding try_rule
    try_rule-Fits rule mstr rmo f = go (subject req rule.kind) refl
      where
        go :
            (s : Subject Regex)
            → subject req rule.kind ≡ s
            → FitsAfter rest (elim s [
              | no_regex ↦ matched mstr rmo
              | absent ↦ failed mstr
              | null_text ↦ bad_read
              | try_on rx pstr ↦ elim (regexec rx (cstr (qoffsets pstr rule.unq).0)) [
                | none ↦ failed mstr
                | some gr ↦ elim (new_rmo rule.kind (qoffsets pstr rule.unq).1 gr.0 rmo) [
                  | none ↦ bad_read
                  | some rmo' ↦ keep_groups rule pstr (qoffsets pstr rule.unq).1 gr mstr rmo'
                ]
              ]
            ])
        go no_regex e = f
        go absent e = tt
        go null_text e = tt
        go (try_on rx pstr) e = found (regexec rx (cstr (qoffsets pstr rule.unq).0))
          where
            read :
                (gr : Groups) (r : Option (Option ℕ))
                → FitsRead rest r
                → FitsAfter rest (elim r [
                  | none ↦ bad_read
                  | some rmo' ↦ keep_groups rule pstr (qoffsets pstr rule.unq).1 gr mstr rmo'
                ])
            read gr none g = tt
            read gr (some rmo') g = keep_groups-Fits rest rule pstr _ gr mstr rmo' g

            found :
                (o : Option Groups)
                → FitsAfter rest (elim o [
                  | none ↦ failed mstr
                  | some gr ↦ elim (new_rmo rule.kind (qoffsets pstr rule.unq).1 gr.0 rmo) [
                    | none ↦ bad_read
                    | some rmo' ↦ keep_groups rule pstr (qoffsets pstr rule.unq).1 gr mstr rmo'
                  ]
                ])
            found none = tt
            found (some gr) = read gr (new_rmo rule.kind (qoffsets pstr rule.unq).1 gr.0 rmo) (
                new_rmo-Fits rule.kind rest pstr (qoffsets pstr rule.unq).1 gr.0 rmo
                  (qoffsets-Rises pstr rule.unq).1
                  (subject-Point req rest rule.kind rx pstr whole e) f)

    try_rules-Fits :
        (rules : List (Rule Regex)) (mstr : Option Strings) (rmo : Option ℕ)
        → Fits rest rmo
        → FitsAfter rest (try_rules regexec req rules mstr rmo)
    unfolding try_rules
    try_rules-Fits [] mstr rmo f = f
    try_rules-Fits (rule ∷ rules) mstr rmo f =
        go (try_rule regexec req rule mstr rmo) (try_rule-Fits rule mstr rmo f)
          (λ m r g. try_rules-Fits rules m r g)
      where
        go :
            (o : Outcome)
            → FitsAfter rest o
            → ((m : Option Strings) (r : Option ℕ)
                → Fits rest r
                → FitsAfter rest (try_rules regexec req rules m r))
            → FitsAfter rest (elim o [
              | matched mstr' rmo' ↦ try_rules regexec req rules mstr' rmo'
              | failed mstr' ↦ failed mstr'
              | bad_read ↦ bad_read
            ])
        go (matched m r) g more = more m r g
        go (failed m) g more = tt
        go bad_read g more = tt

    abbrev pub FitsMatch : Option (Match Regex) → Type 0
    FitsMatch none = Unit
    FitsMatch (some m) = Fits rest m.rmo

    abbrev FitsFound : Option (Option (Match Regex)) → Type 0
    FitsFound none = Unit
    FitsFound (some m) = FitsMatch m

    keep_match-Fits :
        (b : Bool) (o : Option (Option (Match Regex))) → FitsFound o → FitsFound (keep_match b o)
    keep_match-Fits true o f = tt
    keep_match-Fits false o f = f

    find_loop-Fits :
        (pats : List (Pattern Regex)) (mstr : Option Strings) (m : Option (Match Regex))
        → FitsMatch m
        → FitsFound (find_loop regexec req pats mstr m)
    unfolding find_loop
    find_loop-Fits [] mstr m f = f
    find_loop-Fits (p ∷ pats) mstr m f =
        go (passed_over p m) (try_rules regexec req p.rules mstr none)
          (try_rules-Fits p.rules mstr none tt) (λ s k g. find_loop-Fits pats s k g)
      where
        go :
            (skip : Bool) (o : Outcome)
            → FitsAfter rest o
            → ((s : Option Strings) (k : Option (Match Regex))
                → FitsMatch k
                → FitsFound (find_loop regexec req pats s k))
            → FitsFound (
                if skip then find_loop regexec req pats mstr m else elim o [
                  | matched mstr' rmo ↦ keep_match (is_lent mstr') (
                      find_loop regexec req pats
                        (lend mstr')
                        (some (record { pat = p; mstr = texts_of mstr'; rmo = rmo })))
                  | failed mstr' ↦ find_loop regexec req pats mstr' m
                  | bad_read ↦ none
                ])
        go true o g next = next mstr m f
        go false (matched s r) g next =
            keep_match-Fits (is_lent s) _
              (next (lend s) (some (record { pat = p; mstr = texts_of s; rmo = r })) g)
        go false (failed s) g next = next s m f
        go false bad_read g next = tt

    -- The offset of what `findmatch` finds lies in the rest string, whatever regexec reports.
    pub findmatch-Fits :
        (patterns : List (Pattern Regex)) {m : Match Regex}
        → findmatch regexec patterns req none ≡ some (some m)
        → Fits rest m.rmo
    unfolding findmatch
    findmatch-Fits patterns {m} e =
        go (find_loop regexec req patterns none none) (find_loop-Fits patterns none none tt) e
      where
        go : (o : Option (Option (Match Regex))) → FitsFound o → o ≡ some (some m) → Fits rest m.rmo
        go none f e = cc
        go (some none) f e = cc
        go (some (some k)) f e = let same : k ≡ m = cc in rw⁻¹ same f
