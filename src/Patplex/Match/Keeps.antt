-- ===== src/Patplex/Match/Keeps.antt =====
-- What the rules of a pattern leave in `mstr`.
use ashd.Base.{
  if◌then◌else◌, Bytes, cstr, ℕ, ◌≡◌, refl, Bool, true, false, not, ◌||◌, Option, none, some, List,
  [], ◌∷◌, arith,
}
use ashd.Req.Head.{Hthead}
use ashd.Patplex.Offsets.{qoffsets}
use ashd.Patplex.Match.{
  Rule, Groups, copy_groups, Subject, no_regex, absent, null_text, try_on, subject, new_rmo,
  Strings, is_lent, Outcome, matched, failed, bad_read, keep_groups, try_rule, try_rules,
}

abbrev pub held : Option Strings → Bool
held none = false
held (some ss) = true

abbrev pub has_strings : {Regex : Type 0} → List (Rule Regex) → Bool
has_strings [] = false
has_strings (rule ∷ rules) = rule.mss || has_strings rules

-- The strings are not those of the match; there are none if there were none before.
abbrev pub Keeps : Bool → Outcome → Type 0
Keeps before (matched mstr rmo) = (is_lent mstr ≡ false) × (before ≡ false → held mstr ≡ false)
Keeps before (failed mstr) = (is_lent mstr ≡ false) × (before ≡ false → held mstr ≡ false)
Keeps before bad_read = Unit

Keeps-or : (a b : Bool) (o : Outcome) → Keeps a o → Keeps (a || b) o
Keeps-or a b (matched m r) (l, h) = (l, λ e. h (ground arith))
Keeps-or a b (failed m) (l, h) = (l, λ e. h (ground arith))
Keeps-or a b bad_read k = tt

module _ {Regex : Type 0} (regexec : Regex → Bytes → Option Groups) (req : Hthead) where
  keep_groups-Keeps :
      (rule : Rule Regex) (pstr : Bytes) (obuf : List ℕ) (gr : Groups) (mstr : Option Strings)
      (rmo : Option ℕ)
      → is_lent mstr ≡ false
      → Keeps (held mstr || rule.mss) (keep_groups rule pstr obuf gr mstr rmo)
  unfolding keep_groups
  keep_groups-Keeps rule pstr obuf gr mstr rmo l =
      go rule.mss (copy_groups pstr obuf (some gr.0 ∷ gr.1))
    where
      copied :
          (o : Option (List Bytes))
          → Keeps (held mstr || true) (elim o [
            | none ↦ bad_read
            | some strings ↦ matched (some (record { lent = false; texts = strings })) rmo
          ])
      copied none = tt
      copied (some ss) = (refl, λ e. ground arith)

      go :
          (b : Bool) (o : Option (List Bytes))
          → Keeps (held mstr || b) (
              let copied : Outcome = elim o [
                | none ↦ bad_read
                | some strings ↦ matched (some (record { lent = false; texts = strings })) rmo
              ] in
              if not b then matched mstr rmo else if is_lent mstr then bad_read else copied)
      go true o = rw l (copied o)
      go false o = (l, λ e. ground arith)

  pub try_rule-Keeps :
      (rule : Rule Regex) (mstr : Option Strings) (rmo : Option ℕ)
      → is_lent mstr ≡ false
      → Keeps (held mstr || rule.mss) (try_rule regexec req rule mstr rmo)
  unfolding try_rule
  try_rule-Keeps rule mstr rmo l = go (subject req rule.kind)
    where
      same : Keeps (held mstr || rule.mss) (matched mstr rmo)
      same = Keeps-or (held mstr) rule.mss (matched mstr rmo) (l, λ e. e)

      read :
          (pstr : Bytes) (gr : Groups) (r : Option (Option ℕ))
          → Keeps (held mstr || rule.mss) (elim r [
            | none ↦ bad_read
            | some rmo' ↦ keep_groups rule pstr (qoffsets pstr rule.unq).1 gr mstr rmo'
          ])
      read pstr gr none = tt
      read pstr gr (some rmo') = keep_groups-Keeps rule pstr _ gr mstr rmo' l

      found :
          (pstr : Bytes) (o : Option Groups)
          → Keeps (held mstr || rule.mss) (elim o [
            | none ↦ failed mstr
            | some gr ↦ elim (new_rmo rule.kind (qoffsets pstr rule.unq).1 gr.0 rmo) [
              | none ↦ bad_read
              | some rmo' ↦ keep_groups rule pstr (qoffsets pstr rule.unq).1 gr mstr rmo'
            ]
          ])
      found pstr none = same
      found pstr (some gr) = read pstr gr (new_rmo rule.kind (qoffsets pstr rule.unq).1 gr.0 rmo)

      go :
          (s : Subject Regex)
          → Keeps (held mstr || rule.mss) (elim s [
            | no_regex ↦ matched mstr rmo
            | absent ↦ failed mstr
            | null_text ↦ bad_read
            | try_on rx pstr ↦ elim (regexec rx (cstr (qoffsets pstr rule.unq).0)) [
              | none ↦ failed mstr
              | some gr ↦ elim (new_rmo rule.kind (qoffsets pstr rule.unq).1 gr.0 rmo) [
                | none ↦ bad_read
                | some rmo' ↦ keep_groups rule pstr (qoffsets pstr rule.unq).1 gr mstr rmo'
              ]
            ]
          ])
      go no_regex = same
      go absent = same
      go null_text = tt
      go (try_on rx pstr) = found pstr (regexec rx (cstr (qoffsets pstr rule.unq).0))

  weaken : (a b : Bool) (o : Outcome) → (a ≡ false → b ≡ false) → Keeps b o → Keeps a o
  weaken a b (matched m r) f (l, h) = (l, λ e. h (f e))
  weaken a b (failed m) f (l, h) = (l, λ e. h (f e))
  weaken a b bad_read f k = tt

  pub try_rules-Keeps :
      (rules : List (Rule Regex)) (mstr : Option Strings) (rmo : Option ℕ)
      → is_lent mstr ≡ false
      → Keeps (held mstr || has_strings rules) (try_rules regexec req rules mstr rmo)
  unfolding try_rules
  try_rules-Keeps [] mstr rmo l = (l, λ e. ground arith)
  try_rules-Keeps (rule ∷ rules) mstr rmo l =
      go (try_rule regexec req rule mstr rmo) (try_rule-Keeps rule mstr rmo l)
        (λ m r e. try_rules-Keeps rules m r e)
    where
      go :
          (o : Outcome)
          → Keeps (held mstr || rule.mss) o
          → ((m : Option Strings) (r : Option ℕ)
              → is_lent m ≡ false
              → Keeps (held m || has_strings rules) (try_rules regexec req rules m r))
          → Keeps (held mstr || (rule.mss || has_strings rules)) (elim o [
            | matched mstr' rmo' ↦ try_rules regexec req rules mstr' rmo'
            | failed mstr' ↦ failed mstr'
            | bad_read ↦ bad_read
          ])
      go (matched m r) (l', h) more =
          weaken (held mstr || (rule.mss || has_strings rules)) (held m || has_strings rules)
            (try_rules regexec req rules m r) (λ e. let q = h (ground arith) in ground arith)
            (more m r l')
      go (failed m) (l', h) more = (l', λ e. h (ground arith))
      go bad_read k more = tt
