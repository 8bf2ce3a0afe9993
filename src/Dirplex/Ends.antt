-- ===== src/Dirplex/Ends.antt =====
-- src/dirplex/dirplex.c checkpath: it ends with an answer.
use ashd.Base.{
  ◌==◌, if◌then◌else◌, Bool-cases, Option-cases, length, Bytes, cstr, split_at, ℕ, zero, suc, ◌≤◌,
  ◌<◌, ◌≡◌, refl, sym, ap, ◌∙◌, inl, inr, Bool, true, false, not, ◌||◌, Option, none, some, [], ◌∷◌,
  ◌++◌, arith,
}
use ashd.Req.Head.{Hthead, replrest}
use ashd.Req.Unquote.{unquoteurl}
use ashd.Dirplex.Match.{Config, World, strip_dot}
use ashd.Dirplex.Walk.{
  Answer, redirect, bad_request, under, holds, checkaccess, findfile, handle404, handledir, Again,
  checkentry, at_start, checkdir, cut_element, checkelement, or_404, checkpath, serve,
}
use ashd.Dirplex.Reply.{
  IsReply, AllReply, handle404-IsReply, handlefile-IsReply, handledir-IsReply, capture-IsReply,
}
use ashd.Dirplex.Served.{stat-cases}

split_at_shorter : (c : ℕ) (s a b : Bytes) → split_at c s ≡ some (a, b) → length b < length s
unfolding split_at
split_at_shorter c [] a b e = absurd cc
split_at_shorter c (x ∷ s) a b e =
    go (x == c) (split_at c s) e (λ a' b'. split_at_shorter c s a' b')
  where
    go :
        (found : Bool) (o : Option (Bytes × Bytes))
        → (let first : Option (Bytes × Bytes) = some ([], s) in
            if found then first else elim o [ none ↦ none | some (a', b') ↦ some (x ∷ a', b') ])
          ≡ some (a, b)
        → ((a' b' : Bytes) → o ≡ some (a', b') → length b' < length s)
        → length b < suc (length s)
    go true o e next = let same : s ≡ b = cc in rw (sym same) (omega arith)
    go false none e next = absurd cc
    go false (some (a', b')) e next =
        let same : b' ≡ b = cc in let less = next a' b' refl in rw (sym same) (omega arith)

module _ (w : World) where
  cut_element_shorter : (rest : Bytes) → length (cut_element w rest).1 ≤ length rest
  unfolding cut_element
  cut_element_shorter rest = go (split_at b'/' rest) refl
    where
      go :
          (o : Option (Bytes × Bytes))
          → split_at b'/' rest ≡ o
          → length (cut_element w rest).1 ≤ length rest
      go none q = rw (cut_element, q) (omega arith)
      go (some (el, more)) q =
          let less = split_at_shorter b'/' rest el more q in rw (cut_element, q) (omega arith)

  -- No directory has a reparse.
  abbrev pub NoReparse : Type 0
  NoReparse = (path : Bytes) (cf : Config) → w.getconfig path ≡ some cf → cf.reparse ≡ none

  -- Every directory has a configuration.
  abbrev pub AllConfigured : Type 0
  AllConfigured = (path : Bytes) → (cf : Config) × (w.getconfig path ≡ some cf)

  -- The fuel did not run out.
  abbrev Ends : Option (Option Answer) → Type 0
  Ends o = (r : Option Answer) × (o ≡ some r) × AllReply w r

  -- The fuel did not run out, and there is an answer if there has to be.
  abbrev Answers : Bool → Option (Option Answer) → Type 0
  Answers final o =
      (r : Option Answer) × (o ≡ some r)
      × AllReply w r
      × (final ≡ true → (a : Answer) × (r ≡ some a))

  -- With a shorter rest `checkpath` ends.
  abbrev EndsBelow : ℕ → Again → Type 0
  EndsBelow n again =
      (path rest : Bytes) (final : Bool) → length rest < n → Answers final (again path rest final)

  checkentry-Ends :
      (again : Again) (path rest el : Bytes) (req : Hthead) (final : Bool)
      → EndsBelow (length rest) again
      → Ends (checkentry w again path rest el req final)
  unfolding checkentry
  checkentry-Ends again path rest el req final on = elim (stat-cases w (under path el)) [
    | inl e ↦ elim (Bool-cases (holds b'.' el)) [
      | inl dot ↦ rw (checkentry, e, dot) (none, refl, tt)
      | inr no_dot ↦ elim (Option-cases (findfile w path el)) [
        | inl e' ↦ rw (checkentry, e, no_dot, e') (none, refl, tt)
        | inr (newpath, e') ↦
            rw (checkentry, e, no_dot, e')
              (_, refl, handlefile-IsReply w newpath (replrest req rest))
      ]
    ]
    | inr there ↦ elim (Bool-cases (checkaccess w path el)) [
      | inr refused ↦ elim there [
        | inl e ↦ rw (checkentry, e, refused) (none, refl, tt)
        | inr (inl e) ↦ rw (checkentry, e, refused) (none, refl, tt)
        | inr (inr e) ↦ rw (checkentry, e, refused) (none, refl, tt)
      ]
      | inl allowed ↦ elim there [
        | inl e ↦ rw (checkentry, e, allowed) (into rest on)
        | inr (inl e) ↦
            rw (checkentry, e, allowed)
              (_, refl, handlefile-IsReply w (under path el) (replrest req rest))
        | inr (inr e) ↦
            rw (checkentry, e, allowed) (_, refl, handle404-IsReply w (path ++ b'/' ∷ []) req)
      ]
    ]
  ]
    where
      into :
          (rest : Bytes)
          → EndsBelow (length rest) again
          → Ends (elim rest [
            | [] ↦ some (some (redirect (el ++ b'/' ∷ [])))
            | _ ∷ rest' ↦ again (under path el) rest' final
          ])
      into [] on = (some (redirect (el ++ b'/' ∷ [])), refl, tt)
      into (c ∷ rest') on =
          let (r, e, p, _) = on (under path el) rest' final (omega arith) in (r, e, p)

  checkelement-Ends :
      (again : Again) (path rest el : Bytes) (req : Hthead) (final : Bool)
      → EndsBelow (length rest) again
      → Ends (checkelement w again path rest el req final)
  unfolding checkelement
  checkelement-Ends again path rest [] req final on = at_end rest
    where
      at_end :
          (rest : Bytes)
          → Ends (elim rest [
            | [] ↦ some (some (handledir w path (replrest req [])))
            | _ ∷ _ ↦ some none
          ])
      at_end [] = (_, refl, handledir-IsReply w path (replrest req []))
      at_end (c ∷ s) = (none, refl, tt)
  checkelement-Ends again path rest (c ∷ s) req final on = elim (Bool-cases (holds b'/' (c ∷ s))) [
    | inl slash ↦ rw slash (none, refl, tt)
    | inr plain ↦ rw plain (checkentry-Ends again path rest (c ∷ s) req final on)
  ]

  or_404-Answers :
      (path : Bytes) (req : Hthead) (final : Bool) (o : Option (Option Answer))
      → Ends o
      → Answers final (or_404 w path req final o)
  or_404-Answers path req final none (r, e, p) = absurd cc
  or_404-Answers path req final (some (some a)) (r, e, p) =
      let same : r ≡ some a = cc in (some a, refl, rw same at p, λ _. (a, refl))
  or_404-Answers path req true (some none) (r, e, p) =
      let a = handle404 w (path ++ b'/' ∷ []) req in
      (some a, refl, handle404-IsReply w (path ++ b'/' ∷ []) req, λ _. (a, refl))
  or_404-Answers path req false (some none) (r, e, p) = (none, refl, tt, λ q. absurd cc)

  checkdir-Ends :
      AllConfigured
      → NoReparse
      → (again : Again) (path rest : Bytes) (req : Hthead) → Ends (checkdir w again path rest req)
  unfolding checkdir
  checkdir-Ends k no_reparse again path rest req = elim (Option-cases (w.getconfig path)) [
    | inl c ↦ let (cf, there) = k path in absurd (never c there)
    | inr (cf, c) ↦ elim (Option-cases cf.capture) [
      | inl e ↦ rw (checkdir, c, e, no_reparse path cf c) (none, refl, tt)
      | inr (name, e) ↦ elim (Bool-cases (cf.caproot || not (at_start w cf.path))) [
        | inl captures ↦
            rw (checkdir, c, e, captures) (_, refl, capture-IsReply w path rest name req)
        | inr passes ↦ rw (checkdir, c, e, passes, no_reparse path cf c) (none, refl, tt)
      ]
    ]
  ]
    where
      never : {A : Type 0} {o : Option A} {a : A} → o ≡ none → o ≡ some a → ⊥
      never e q = cc

  round-Answers :
      (again : Again) (here rest : Bytes) (req : Hthead) (final : Bool)
      → AllConfigured
      → NoReparse
      → EndsBelow (length rest) again
      → Answers final (elim (checkdir w again here rest req) [
        | none ↦ none
        | some (some a) ↦ some (some a)
        | some none ↦ elim (unquoteurl (cut_element w rest).0) [
          | none ↦ some (some bad_request)
          | some el ↦
              or_404 w here req final
                (checkelement w again here (cut_element w rest).1 (cstr el) req final)
        ]
      ])
  round-Answers again here rest req final k n on =
      go (checkdir w again here rest req) (checkdir-Ends k n again here rest req)
    where
      unquoted_el :
          (o : Option Bytes)
          → Answers final (elim o [
            | none ↦ some (some bad_request)
            | some el ↦
                or_404 w here req final
                  (checkelement w again here (cut_element w rest).1 (cstr el) req final)
          ])
      unquoted_el none = (some bad_request, refl, tt, λ _. (bad_request, refl))
      unquoted_el (some el) =
          let shorter = cut_element_shorter rest in
          or_404-Answers here req final
            (checkelement w again here (cut_element w rest).1 (cstr el) req final)
            (checkelement-Ends again here (cut_element w rest).1 (cstr el) req final
              (λ p r f l. on p r f (omega arith)))

      go :
          (o : Option (Option Answer))
          → Ends o
          → Answers final (elim o [
            | none ↦ none
            | some (some a) ↦ some (some a)
            | some none ↦ elim (unquoteurl (cut_element w rest).0) [
              | none ↦ some (some bad_request)
              | some el ↦
                  or_404 w here req final
                    (checkelement w again here (cut_element w rest).1 (cstr el) req final)
            ]
          ])
      go none (r, e, p) = absurd cc
      go (some (some a)) (r, e, p) =
          let same : r ≡ some a = cc in (some a, refl, rw same at p, λ _. (a, refl))
      go (some none) s = unquoted_el (unquoteurl (cut_element w rest).0)

  checkpath-Answers :
      AllConfigured
      → NoReparse
      → (fuel : ℕ) (req : Hthead) (path rest : Bytes) (final : Bool) → length rest < fuel
      → Answers final (checkpath w fuel req path rest final)
  unfolding checkpath
  checkpath-Answers k n zero req path rest final l = absurd (omega arith)
  checkpath-Answers k n (suc fuel) req path rest final l =
      round-Answers (λ p r f. checkpath w fuel req p r f) (strip_dot path) rest req final k n
        (λ p r f l'. checkpath-Answers k n fuel req p r f (omega arith))

  -- If every directory has a configuration, and none of them a reparse, the walk ends within a fuel
  -- that is more than the length of the rest string, and checkpath does not return 0: the request
  -- is handed to a handler or to a child, or answered with a redirection or an error, with no
  -- configuration read that is NULL.
  pub serve-Answers :
      AllConfigured
      → NoReparse
      → (fuel : ℕ) (req : Hthead) (rest : Bytes) → length rest < fuel
      → (a : Answer) × (serve w fuel req rest ≡ some (some a)) × IsReply w a
  unfolding serve
  serve-Answers k n fuel req rest l =
      let (r, e, p, answered) = checkpath-Answers k n fuel req (b'.' ∷ []) rest true l in
      let (a, e') = answered refl in (a, e ∙ ap some e', rw e' at p)
