-- ===== src/Patplex/Config/Valid.antt =====
-- A pattern of the configuration can be served.
use mathlib.Core.List.{cons-ne-nil}
use ashd.Base.{
  ◌==◌, if◌then◌else◌, Bytes, codes, strcmp, ◌≡◌, refl, sym, ◌∙◌, ◌≢◌, ◌⊎◌, inl, inr, Bool, true,
  false, ◌||◌, Option, none, some, List, [], ◌∷◌, arith,
}
use ashd.Patplex.Match.{pat_header, Rule, Pattern}
use ashd.Patplex.Config.{
  newpattern, newrule, text_rule, add_text, add_header, add_all, set_handler, set_prio, set_restpat,
  add_set, directive, read_directives, complete, parsepattern, flags_of, has_flag,
}

-- Any handler that is set can be used: a child has its name.
abbrev Handled : {Regex : Type 0} → Pattern Regex → Type 0
Handled pat =
    (pat.disable ≡ false)
    × ((pat.handler ≡ 0)
        ⊎ ((pat.handler ≡ 2) ⊎ ((pat.handler ≡ 1) × (name : Bytes) × (pat.childnm ≡ some name))))

abbrev HandledSome : {Regex : Type 0} → Option (Pattern Regex) → Type 0
HandledSome none = Unit
HandledSome (some pat) = Handled pat

-- What `serve` needs of a pattern.
abbrev pub IsUsable : {Regex : Type 0} → Pattern Regex → Type 0
IsUsable pat =
    (pat.rules ≢ [])
    × (pat.disable ≡ false)
    × ((pat.handler ≡ 2) ⊎ ((pat.handler ≡ 1) × (name : Bytes) × (pat.childnm ≡ some name)))

module _ {Regex : Type 0} (regcomp : Bytes → Bool → Option Regex) where
  abbrev Good : Option (Pattern Regex) → Type 0
  Good o = HandledSome o

  either : (b : Bool) (x y : Option (Pattern Regex)) → Good x → Good y → Good (if b then x else y)
  either true x y p q = p
  either false x y p q = q

  add_text-Handled :
      (pat : Pattern Regex) (word : Bytes) (args : List Bytes)
      → Handled pat
      → Handled (add_text regcomp pat word args)
  unfolding add_text newrule
  add_text-Handled pat word [] h = h
  add_text-Handled pat word (text ∷ more) h = go (regcomp text (has_flag b'i' (flags_of more)))
    where
      go :
          (o : Option Regex)
          → Handled
              (elim o [ none ↦ pat | some rx ↦ newrule pat (text_rule word rx (flags_of more)) ])
      go none = h
      go (some rx) = h

  add_header-Handled :
      (pat : Pattern Regex) (args : List Bytes)
      → Handled pat
      → Handled (add_header regcomp pat args)
  unfolding add_header newrule
  add_header-Handled pat [] h = h
  add_header-Handled pat (_ ∷ []) h = h
  add_header-Handled pat (name ∷ text ∷ more) h = go (regcomp text (has_flag b'i' (flags_of more)))
    where
      go :
          (o : Option Regex)
          → Handled (elim o [
            | none ↦ pat
            | some rx ↦ newrule pat (record {
              kind = pat_header name rx;
              mss = has_flag b's' (flags_of more);
              unq = false;
            })
          ])
      go none = h
      go (some rx) = h

  set_handler-Handled :
      (pat : Pattern Regex) (args : List Bytes) → Handled pat → Handled (set_handler pat args)
  unfolding set_handler
  set_handler-Handled pat [] h = h
  set_handler-Handled pat (name ∷ _) (d, h) = (d, inr (inr (refl, name, refl)))

  set_prio-Handled :
      (pat : Pattern Regex) (args : List Bytes) → Handled pat → Handled (set_prio pat args)
  unfolding set_prio
  set_prio-Handled pat [] h = h
  set_prio-Handled pat (n ∷ _) h = h

  set_restpat-Handled :
      (pat : Pattern Regex) (args : List Bytes) → Handled pat → Handled (set_restpat pat args)
  unfolding set_restpat
  set_restpat-Handled pat [] h = h
  set_restpat-Handled pat (text ∷ _) h = h

  add_set-Handled :
      (pat : Pattern Regex) (prefix : Bytes) (args : List Bytes)
      → Handled pat
      → Handled (add_set pat prefix args)
  unfolding add_set
  add_set-Handled pat prefix [] h = h
  add_set-Handled pat prefix (_ ∷ []) h = h
  add_set-Handled pat prefix (name ∷ value ∷ _) h = h

  directive-Good :
      (pat : Pattern Regex) (word : Bytes) (args : List Bytes)
      → Handled pat
      → Good (directive regcomp pat word args)
  unfolding directive add_all newrule
  directive-Good pat word args h =
      either
        (strcmp word (codes "point") || strcmp word (codes "url") || strcmp word (codes "method")) _
        _ (add_text-Handled pat word args h)
        (either (strcmp word (codes "header")) _ _ (add_header-Handled pat args h) (
          either (strcmp word (codes "all")) _ _ h (
            either (strcmp word (codes "default")) _ _ h (
              either (strcmp word (codes "order") || strcmp word (codes "priority")) _ _
                (set_prio-Handled pat args h)
                (either (strcmp word (codes "handler")) _ _ (set_handler-Handled pat args h) (
                  either (strcmp word (codes "reparse")) _ _ (h.0, inr (inl refl))
                    (either (strcmp word (codes "restpat")) _ _ (set_restpat-Handled pat args h) (
                      either (strcmp word (codes "set")) _ _ (add_set-Handled pat [] args h) (
                        either (strcmp word (codes "xset")) _ _
                          (add_set-Handled pat (codes "X-Ash-") args h)
                          (either (strcmp word (codes "end") || strcmp word (codes "eof")) none
                            (some pat) tt h))))))))))

  read_directives-Handled :
      (lines : List (List Bytes)) (pat : Pattern Regex)
      → Handled pat
      → Handled (read_directives regcomp pat lines).0
  unfolding read_directives
  read_directives-Handled [] pat h = h
  read_directives-Handled ([] ∷ lines) pat h = read_directives-Handled lines pat h
  read_directives-Handled ((word ∷ args) ∷ lines) pat h =
      go (directive regcomp pat word args) (directive-Good pat word args h)
        (λ p g. read_directives-Handled lines p g)
    where
      go :
          (o : Option (Pattern Regex))
          → Good o
          → ((p : Pattern Regex) → Handled p → Handled (read_directives regcomp p lines).0)
          → (let r : Pattern Regex × List (List Bytes) = elim o [
            | none ↦ (pat, lines)
            | some pat' ↦ read_directives regcomp pat' lines
          ] in
              Handled r.0)
      go none g more = h
      go (some p) g more = more p g

  complete-IsUsable :
      (pat : Pattern Regex) {p : Pattern Regex} → Handled pat → complete pat ≡ some p → IsUsable p
  unfolding complete
  complete-IsUsable pat {p} (d, h) e = go pat.rules refl (pat.handler == 0) refl e
    where
      usable : pat.rules ≢ [] → (pat.handler == 0) ≡ false → IsUsable pat
      usable r z = elim h [ inl zero_handler ↦ absurd (ground arith) | inr rest ↦ (r, d, rest) ]

      go :
          (rules : List (Rule Regex))
          → pat.rules ≡ rules
          → (b : Bool) → (pat.handler == 0) ≡ b
          → elim rules [ [] ↦ none | _ ∷ _ ↦ (if b then none else some pat) ] ≡ some p
          → IsUsable p
      go [] f b z e = cc
      go (r ∷ rs) f true z e = cc
      go (r ∷ rs) f false z e =
          let same : pat ≡ p = cc in rw⁻¹ same (usable (λ q. cons-ne-nil r rs (sym f ∙ q)) z)

  -- Whatever the lines, a pattern that `parsepattern` returns has a rule, is enabled, and is either
  -- to be served by a child whose name it has or to be matched again.
  pub parsepattern-IsUsable :
      (words : List Bytes) (lines : List (List Bytes)) {p : Pattern Regex}
      → (parsepattern regcomp words lines).0 ≡ some p
      → IsUsable p
  unfolding parsepattern newpattern
  parsepattern-IsUsable [] lines e = cc
  parsepattern-IsUsable (word ∷ args) lines {p} e =
      go (strcmp word (codes "match"))
        (complete-IsUsable (read_directives regcomp newpattern lines).0 {p = p}
          (read_directives-Handled lines newpattern (refl, inl refl)))
        e
    where
      go :
          (b : Bool)
          → (complete (read_directives regcomp newpattern lines).0 ≡ some p → IsUsable p)
          → (let r : Option (Pattern Regex) × List (List Bytes) =
                if b
                then (
                  complete (read_directives regcomp newpattern lines).0,
                  (read_directives regcomp newpattern lines).1,
                )
                else (none, lines) in
              r.0 ≡ some p)
          → IsUsable p
      go true f e = f e
      go false f e = cc
