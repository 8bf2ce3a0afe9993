-- ===== src/Patplex/Match/Best.antt =====
-- Which pattern `findmatch` picks.
use ashd.Base.{
  leb, Bool-cases, All, All-append, All-imp, Bytes, ℕ, ◌≤◌, ◌<◌, ◌≡◌, refl, ap, ◌∙◌, ◌⊎◌, inl, inr,
  Bool, true, false, not, ◌&&◌, ◌||◌, Option, none, some, List, [], ◌∷◌, ◌++◌, append-nil,
  append_assoc, arith,
}
use ashd.Req.Head.{Hthead}
use ashd.Patplex.Match.Keeps.{Keeps, held, has_strings, try_rules-Keeps}
use ashd.Patplex.Match.{
  Strings, is_lent, lend, texts_of, keep_match, Pattern, Match, Groups, Outcome, matched, failed,
  bad_read, try_rules, passed_over, find_loop, findmatch,
}
use ashd.Patplex.Match.Groups.{IsRegexec, HasTexts}
use ashd.Patplex.Match.Rules.{Decides, rules_match, try_rules-Decides}

abbrev pub pattern_of : {Regex : Type 0} → Option (Match Regex) → Option (Pattern Regex)
pattern_of none = none
pattern_of (some m) = some m.pat

module _ {Regex : Type 0} where
  -- No pattern has a higher priority than one in front of it.
  abbrev pub Falls : List (Pattern Regex) → Type 0
  Falls [] = Unit
  Falls (p ∷ pats) = All (λ q. q.prio ≤ p.prio) pats × Falls pats

  -- Behind the first pattern with a rule that keeps its groups, the priorities do not rise.
  abbrev pub Calm : List (Pattern Regex) → Type 0
  Calm [] = Unit
  Calm (p ∷ pats) = (has_strings p.rules ≡ true → Falls (p ∷ pats)) × Calm pats

module _ {Regex : Type 0} (regexec : Regex → Bytes → Option Groups) where
  -- Is the pattern enabled, and do all of its rules match?
  abbrev pub candidate : Hthead → Pattern Regex → Bool
  candidate req pat = not pat.disable && rules_match regexec req pat.rules

  -- The first of the candidates with the highest priority; `none` if there is no candidate.
  abbrev pub IsBest : Hthead → List (Pattern Regex) → Option (Pattern Regex) → Type 0
  IsBest req pats none = All (λ p. candidate req p ≡ false) pats
  IsBest req pats (some k) =
      (before : List (Pattern Regex)) × (after : List (Pattern Regex)) × (pats
        ≡ before ++ k ∷ after)
      × (candidate req k ≡ true)
      × All (λ p. candidate req p ≡ true → p.prio < k.prio) before
      × All (λ p. candidate req p ≡ true → p.prio ≤ k.prio) after

  -- The pattern does not take the place of the best one.
  abbrev NotBetter : Hthead → Pattern Regex → Option (Pattern Regex) → Type 0
  NotBetter req p none = candidate req p ≡ false
  NotBetter req p (some k) = candidate req p ≡ true → p.prio ≤ k.prio

  abbrev Better : Pattern Regex → Option (Pattern Regex) → Type 0
  Better p none = Unit
  Better p (some k) = k.prio < p.prio

  IsBest-kept :
      (req : Hthead) (seen : List (Pattern Regex)) (p : Pattern Regex) (o : Option (Pattern Regex))
      → IsBest req seen o
      → NotBetter req p o
      → IsBest req (seen ++ p ∷ []) o
  IsBest-kept req seen p none b n =
      All-append (λ q. candidate req q ≡ false) seen (p ∷ []) b (n, tt)
  IsBest-kept req seen p (some k) (before, after, e, c, f, g) n = (
    before,
    after ++ p ∷ [],
    ap (λ xs. xs ++ p ∷ []) e ∙ append_assoc before (k ∷ after) (p ∷ []),
    c,
    f,
    All-append (λ q. candidate req q ≡ true → q.prio ≤ k.prio) after (p ∷ []) g (n, tt),
  )

  IsBest-replaced :
      (req : Hthead) (seen : List (Pattern Regex)) (p : Pattern Regex) (o : Option (Pattern Regex))
      → IsBest req seen o
      → candidate req p ≡ true
      → Better p o
      → IsBest req (seen ++ p ∷ []) (some p)
  IsBest-replaced req seen p none b c h = (seen, [], refl, c, All-imp _ _ (λ q e f. cc) seen b, tt)
  IsBest-replaced req seen p (some k) (before, after, e, d, f, g) c h =
      let below : (q : Pattern Regex)
          → (candidate req q ≡ true → q.prio < k.prio)
          → candidate req q ≡ true
          → q.prio < p.prio =
        λ q l a. let m = l a in omega arith in
      let below' : (q : Pattern Regex)
          → (candidate req q ≡ true → q.prio ≤ k.prio)
          → candidate req q ≡ true
          → q.prio < p.prio =
        λ q l a. let m = l a in omega arith in
      (
        seen,
        [],
        refl,
        c,
        rw e (
            All-append _ before (k ∷ after) (All-imp _ _ below before f)
              (λ a. h, All-imp _ _ below' after g)),
        tt,
      )

  passed_over-NotBetter :
      (req : Hthead) (p : Pattern Regex) (m : Option (Match Regex))
      → passed_over p m ≡ true
      → NotBetter req p (pattern_of m)
  unfolding passed_over
  passed_over-NotBetter req p none e = rw e refl
  passed_over-NotBetter req p (some m) e = λ c. ground arith

  passed_over-Better :
      (p : Pattern Regex) (m : Option (Match Regex))
      → passed_over p m ≡ false
      → (p.disable ≡ false) × Better p (pattern_of m)
  unfolding passed_over
  passed_over-Better p none e = (e, tt)
  passed_over-Better p (some m) e = ground arith

  mismatch-NotBetter :
      (req : Hthead) (p : Pattern Regex) (m : Option (Match Regex))
      → rules_match regexec req p.rules ≡ false
      → NotBetter req p (pattern_of m)
  mismatch-NotBetter req p none e = ground arith
  mismatch-NotBetter req p (some m) e = λ c. ground arith

  -- The loop still owns its strings, or gives no more pattern a try.
  abbrev Owns : Option Strings → Option (Match Regex) → List (Pattern Regex) → Type 0
  Owns mstr m pats =
      ((is_lent mstr ≡ false) × (held mstr ≡ true → Falls pats))
      ⊎ All (λ q. passed_over q m ≡ true) pats

  lend_free : (mstr : Option Strings) → held mstr ≡ false → is_lent (lend mstr) ≡ false
  lend_free none e = refl
  lend_free (some ss) e = absurd cc

  lend-held : (mstr : Option Strings) → held (lend mstr) ≡ held mstr
  lend-held none = refl
  lend-held (some ss) = refl

  Owns-matched :
      (p : Pattern Regex) (pats : List (Pattern Regex)) (before : Bool) (mstr : Option Strings)
      (rmo : Option ℕ)
      → (before ≡ true → Falls (p ∷ pats))
      → (before ≡ false → held mstr ≡ false)
      → Owns (lend mstr) (some (record { pat = p; mstr = texts_of mstr; rmo = rmo })) pats
  unfolding passed_over
  Owns-matched p pats false mstr rmo f h =
      let empty = h refl in
      inl (lend_free mstr empty, λ e. let same = lend-held mstr in absurd (cc))
  Owns-matched p pats true mstr rmo f h = inr (
      All-imp (λ q. q.prio ≤ p.prio) (λ q. (q.disable || leb q.prio p.prio) ≡ true)
        (λ q l. ground arith) pats (f refl).0)

  Owns-failed :
      (p : Pattern Regex) (pats : List (Pattern Regex)) (before : Bool) (mstr : Option Strings)
      (m : Option (Match Regex))
      → (before ≡ true → Falls (p ∷ pats))
      → is_lent mstr ≡ false
      → (before ≡ false → held mstr ≡ false)
      → Owns mstr m pats
  Owns-failed p pats false mstr m f l h = let empty = h refl in inl (l, λ e. absurd (cc))
  Owns-failed p pats true mstr m f l h = inl (l, λ e. (f refl).1)

  Owns-skipped :
      (p : Pattern Regex) (pats : List (Pattern Regex)) (mstr : Option Strings)
      (m : Option (Match Regex))
      → Owns mstr m (p ∷ pats)
      → Owns mstr m pats
  Owns-skipped p pats mstr m (inl (l, f)) = inl (l, λ e. (f e).1)
  Owns-skipped p pats mstr m (inr (s, ss)) = inr ss

  Owns-tried :
      (p : Pattern Regex) (pats : List (Pattern Regex)) (mstr : Option Strings)
      (m : Option (Match Regex))
      → Calm (p ∷ pats)
      → Owns mstr m (p ∷ pats)
      → passed_over p m ≡ false
      → (is_lent mstr ≡ false) × ((held mstr || has_strings p.rules) ≡ true → Falls (p ∷ pats))
  Owns-tried p pats mstr m c (inr (s, ss)) e = absurd cc
  Owns-tried p pats mstr m (c, cs) (inl (l, f)) e = (
    l,
    λ either. elim (Bool-cases (held mstr)) [ inl has ↦ f has | inr none_held ↦ c (ground arith) ],
  )

  module _ (promise : IsRegexec regexec) (req : Hthead) (texts : HasTexts req) where
    abbrev Finds : List (Pattern Regex) → Option (Option (Match Regex)) → Type 0
    Finds whole found =
        (r : Option (Match Regex)) × (found ≡ some r) × IsBest req whole (pattern_of r)

    find_loop-IsBest :
        (pats seen : List (Pattern Regex)) (mstr : Option Strings) (m : Option (Match Regex))
        → Calm pats
        → Owns mstr m pats
        → IsBest req seen (pattern_of m)
        → Finds (seen ++ pats) (find_loop regexec req pats mstr m)
    unfolding find_loop
    find_loop-IsBest [] seen mstr m c w b = (m, refl, rw append-nil b)
    find_loop-IsBest (p ∷ pats) seen mstr m c w b =
        let next : (mstr' : Option Strings) (m' : Option (Match Regex))
            → Owns mstr' m' pats
            → IsBest req (seen ++ p ∷ []) (pattern_of m')
            → Finds (seen ++ p ∷ pats) (find_loop regexec req pats mstr' m') =
          λ mstr' m' w' b'.
            rw⁻¹ (append_assoc seen (p ∷ []) pats)
              (find_loop-IsBest pats (seen ++ p ∷ []) mstr' m' c.1 w' b') in
        elim (Bool-cases (passed_over p m)) [
          | inl skip ↦
              rw (find_loop, skip)
                (next mstr m (Owns-skipped p pats mstr m w)
                  (IsBest-kept req seen p (pattern_of m) b (passed_over-NotBetter req p m skip)))
          | inr tried ↦
              let (l, f) = Owns-tried p pats mstr m c w tried in
              rw (find_loop, tried)
                (go tried f (try_rules regexec req p.rules mstr none)
                  (try_rules-Decides regexec promise req p.rules mstr none texts l)
                  (try_rules-Keeps regexec req p.rules mstr none l) next)
        ]
      where
        go :
            passed_over p m ≡ false
            → ((held mstr || has_strings p.rules) ≡ true → Falls (p ∷ pats))
            → (o : Outcome) → Decides (rules_match regexec req p.rules) o
            → Keeps (held mstr || has_strings p.rules) o
            → ((mstr' : Option Strings) (m' : Option (Match Regex))
                → Owns mstr' m' pats
                → IsBest req (seen ++ p ∷ []) (pattern_of m')
                → Finds (seen ++ p ∷ pats) (find_loop regexec req pats mstr' m'))
            → Finds (seen ++ p ∷ pats) (elim o [
              | matched mstr' rmo ↦ keep_match (is_lent mstr') (
                  find_loop regexec req pats
                    (lend mstr')
                    (some (record { pat = p; mstr = texts_of mstr'; rmo = rmo })))
              | failed mstr' ↦ find_loop regexec req pats mstr' m
              | bad_read ↦ none
            ])
        go e f (matched mstr' rmo) d (l, h) next =
            let (on, better) = passed_over-Better p m e in
            rw l (
              next (lend mstr') (some (record { pat = p; mstr = texts_of mstr'; rmo = rmo }))
                (Owns-matched p pats (held mstr || has_strings p.rules) mstr' rmo f h)
                (IsBest-replaced req seen p (pattern_of m) b (ground arith) better))
        go e f (failed mstr') d (l, h) next =
            next mstr' m (Owns-failed p pats (held mstr || has_strings p.rules) mstr' m f l h)
              (IsBest-kept req seen p (pattern_of m) b (mismatch-NotBetter req p m d))
        go e f bad_read d k next = absurd d

  -- If regexec reports offsets within its text, and behind the first pattern that has a rule with
  -- the flag s the priorities do not rise, then for every request with a rest string, a URL and a
  -- method, and for a match that is the best of the patterns seen before, or none, findmatch reads
  -- nothing outside of its buffers, makes no match of strings that are freed, and comes to the first
  -- of all the enabled patterns, those seen before included, with the highest priority whose rules
  -- all match, and to nothing if there is none.
  pub findmatch-IsBest :
      IsRegexec regexec
      → (seen patterns : List (Pattern Regex)) (req : Hthead) (match : Option (Match Regex))
      → HasTexts req
      → Calm patterns
      → IsBest req seen (pattern_of match)
      → (r : Option (Match Regex)) × (findmatch regexec patterns req match ≡ some r)
        × IsBest req (seen ++ patterns) (pattern_of r)
  unfolding findmatch
  findmatch-IsBest promise seen patterns req match texts calm best =
      find_loop-IsBest promise req texts patterns seen none match calm (inl (refl, λ e. absurd cc))
        best
