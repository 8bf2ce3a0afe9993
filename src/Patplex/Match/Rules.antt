-- ===== src/Patplex/Match/Rules.antt =====
-- A pattern matches when all of its rules do.
use ashd.Base.{
  if◌then◌else◌, length, Bytes, cstr, ℕ, ◌≡◌, refl, sym, ap, ◌∙◌, ◌≢◌, Bool, true, false, not, ◌&&◌,
  ◌||◌, Option, none, some, List, [], ◌∷◌, arith,
}
use ashd.Req.Head.{Hthead, getheader}
use ashd.Patplex.Offsets.{qoffsets, qoffsets-Rises}
use ashd.Patplex.Match.{
  RuleType, pat_rest, pat_url, pat_method, pat_header, pat_all, Rule, Groups, copy_groups, Subject,
  no_regex, absent, null_text, try_on, text_of, subject, new_rmo, Outcome, matched, failed,
  bad_read, Strings, is_lent, keep_groups, try_rule, try_rules,
}
use ashd.Patplex.Match.Keeps.{Keeps, held, try_rule-Keeps}
use ashd.Patplex.Match.Groups.{
  WithinAll, Within, IsRegexec, HasTexts, Covers, new_rmo-some, copy_groups-some, length-cstr,
}

abbrev pub Decides : Bool → Outcome → Type 0
Decides b (matched _ _) = b ≡ true
Decides b (failed _) = b ≡ false
Decides b bad_read = ⊥

module _ {Regex : Type 0} where
  -- Does the rule match, whatever the buffers hold?
  abbrev pub rule_matches : (Regex → Bytes → Option Groups) → Hthead → Rule Regex → Bool
  rule_matches regexec req rule = elim (subject req rule.kind) [
    | no_regex ↦ true
    | absent ↦ false
    | null_text ↦ false
    | try_on rx pstr ↦ elim (regexec rx (cstr (qoffsets pstr rule.unq).0)) [
      | none ↦ false
      | some _ ↦ true
    ]
  ]

  abbrev pub rules_match : (Regex → Bytes → Option Groups) → Hthead → List (Rule Regex) → Bool
  rules_match regexec req [] = true
  rules_match regexec req (rule ∷ rules) =
      rule_matches regexec req rule && rules_match regexec req rules

  subject_null :
      (req : Hthead) (kind : RuleType Regex) → HasTexts req → subject req kind ≢ null_text
  unfolding subject
  subject_null req (pat_rest rx) ((t, e), u, m) f =
      let g : try_on rx t ≡ null_text = sym (ap (text_of rx) e) ∙ f in cc
  subject_null req (pat_url rx) (r, (t, e), m) f =
      let g : try_on rx t ≡ null_text = sym (ap (text_of rx) e) ∙ f in cc
  subject_null req (pat_method rx) (r, u, (t, e)) f =
      let g : try_on rx t ≡ null_text = sym (ap (text_of rx) e) ∙ f in cc
  subject_null req (pat_header name rx) h f = go (getheader req name) f
    where
      go : (o : Option Bytes) → elim o [ none ↦ absent | some pstr ↦ try_on rx pstr ] ≢ null_text
      go none g = cc
      go (some t) g = cc
  subject_null req pat_all h f = cc

  keep_groups-Decides :
      (rule : Rule Regex) (pstr : Bytes) (obuf : List ℕ) (n : ℕ) (gr : Groups)
      (mstr : Option Strings) (rmo : Option ℕ)
      → is_lent mstr ≡ false
      → Covers pstr obuf n
      → Within n gr.0 × WithinAll n gr.1
      → Decides true (keep_groups rule pstr obuf gr mstr rmo)
  unfolding keep_groups
  keep_groups-Decides rule pstr obuf n gr mstr rmo l c w = go rule.mss
    where
      go :
          (b : Bool)
          → Decides true (
              let copied : Outcome = elim (copy_groups pstr obuf (some gr.0 ∷ gr.1)) [
                | none ↦ bad_read
                | some strings ↦ matched (some (record { lent = false; texts = strings })) rmo
              ] in
              if not b then matched mstr rmo else if is_lent mstr then bad_read else copied)
      go true = let (ss, e) = copy_groups-some pstr obuf n (some gr.0 ∷ gr.1) c w in rw (l, e) refl
      go false = refl

  module _ (regexec : Regex → Bytes → Option Groups) (promise : IsRegexec regexec) where
    read_groups-Decides :
        (rule : Rule Regex) (pstr : Bytes) (gr : Groups) (mstr : Option Strings) (rmo : Option ℕ)
        → is_lent mstr ≡ false
        → Within (length (cstr (qoffsets pstr rule.unq).0)) gr.0
          × WithinAll (length (cstr (qoffsets pstr rule.unq).0)) gr.1
        → Decides true (elim (new_rmo rule.kind (qoffsets pstr rule.unq).1 gr.0 rmo) [
          | none ↦ bad_read
          | some rmo' ↦ keep_groups rule pstr (qoffsets pstr rule.unq).1 gr mstr rmo'
        ])
    read_groups-Decides rule pstr gr mstr rmo l w =
        let (long, rises) = qoffsets-Rises pstr rule.unq in
        let short = length-cstr (qoffsets pstr rule.unq).0 in
        let covers : Covers pstr (qoffsets pstr rule.unq).1
            (length (cstr (qoffsets pstr rule.unq).0)) =
          (omega arith, rises) in
        let (o, e) = new_rmo-some rule.kind (qoffsets pstr rule.unq).1 _ gr.0 rmo pstr covers w.0 in
        rw e (keep_groups-Decides rule pstr (qoffsets pstr rule.unq).1 _ gr mstr o l covers w)

    try_rule-Decides :
        (req : Hthead) (rule : Rule Regex) (mstr : Option Strings) (rmo : Option ℕ)
        → HasTexts req
        → is_lent mstr ≡ false
        → Decides (rule_matches regexec req rule) (try_rule regexec req rule mstr rmo)
    unfolding try_rule
    try_rule-Decides req rule mstr rmo h l =
        go (subject req rule.kind) (subject_null req rule.kind h)
      where
        tried :
            (rx : Regex) (pstr : Bytes) (o : Option Groups)
            → regexec rx (cstr (qoffsets pstr rule.unq).0) ≡ o
            → Decides
                (elim o [ none ↦ false | some _ ↦ true ])
                (elim o [
                  | none ↦ failed mstr
                  | some gr ↦ elim (new_rmo rule.kind (qoffsets pstr rule.unq).1 gr.0 rmo) [
                    | none ↦ bad_read
                    | some rmo' ↦ keep_groups rule pstr (qoffsets pstr rule.unq).1 gr mstr rmo'
                  ]
                ])
        tried rx pstr none e = refl
        tried rx pstr (some gr) e =
            read_groups-Decides rule pstr gr mstr rmo l
              (promise rx (cstr (qoffsets pstr rule.unq).0) gr e)

        go :
            (s : Subject Regex)
            → s ≢ null_text
            → Decides
                (elim s [
                  | no_regex ↦ true
                  | absent ↦ false
                  | null_text ↦ false
                  | try_on rx pstr ↦ elim (regexec rx (cstr (qoffsets pstr rule.unq).0)) [
                    | none ↦ false
                    | some _ ↦ true
                  ]
                ])
                (elim s [
                  | no_regex ↦ matched mstr rmo
                  | absent ↦ failed mstr
                  | null_text ↦ bad_read
                  | try_on rx pstr ↦ elim (regexec rx (cstr (qoffsets pstr rule.unq).0)) [
                    | none ↦ failed mstr
                    | some gr ↦ elim (new_rmo rule.kind (qoffsets pstr rule.unq).1 gr.0 rmo) [
                      | none ↦ bad_read
                      | some rmo' ↦ keep_groups rule pstr (qoffsets pstr rule.unq).1 gr mstr rmo'
                    ]
                  ]
                ])
        go no_regex n = refl
        go absent n = refl
        go null_text n = absurd (n refl)
        go (try_on rx pstr) n = tried rx pstr (regexec rx (cstr (qoffsets pstr rule.unq).0)) refl

    -- The rules of a pattern are read within bounds, and they match when each of them does.
    pub try_rules-Decides :
        (req : Hthead) (rules : List (Rule Regex)) (mstr : Option Strings) (rmo : Option ℕ)
        → HasTexts req
        → is_lent mstr ≡ false
        → Decides (rules_match regexec req rules) (try_rules regexec req rules mstr rmo)
    unfolding try_rules
    try_rules-Decides req [] mstr rmo h l = refl
    try_rules-Decides req (rule ∷ rules) mstr rmo h l =
        go (rule_matches regexec req rule) (try_rule regexec req rule mstr rmo)
          (try_rule-Decides req rule mstr rmo h l) (try_rule-Keeps regexec req rule mstr rmo l)
          (λ m r e. try_rules-Decides req rules m r h e)
      where
        go :
            (b : Bool) (o : Outcome)
            → Decides b o
            → Keeps (held mstr || rule.mss) o
            → ((m : Option Strings) (r : Option ℕ)
                → is_lent m ≡ false
                → Decides (rules_match regexec req rules) (try_rules regexec req rules m r))
            → Decides (b && rules_match regexec req rules) (elim o [
              | matched mstr' rmo' ↦ try_rules regexec req rules mstr' rmo'
              | failed mstr' ↦ failed mstr'
              | bad_read ↦ bad_read
            ])
        go b (matched m r) d (e, _) more = rw d (more m r e)
        go b (failed m) d k more = rw d refl
        go b bad_read d k more = d
