-- ===== src/Dirplex/Served.antt =====
-- src/dirplex/dirplex.c checkpath: whatever the request asks for, what it is answered with.
use ashd.Base.{
  if◌then◌else◌, Bool-cases, Option-cases, length, Bytes, cstr, ℕ, zero, suc, ◌<◌, ◌≡◌, refl, ◌⊎◌,
  inl, inr, Bool, true, false, not, ◌||◌, Option, none, some, [], ◌∷◌, ◌++◌, arith,
}
use ashd.Req.Head.{Hthead, replrest}
use ashd.Req.Unquote.{unquoteurl}
use ashd.Dirplex.Match.{Config, Kind, regular, directory, special, World, strip_dot, findchild}
use ashd.Dirplex.Walk.{
  Answer, redirect, bad_request, silent, under, holds, checkaccess, findfile, handledir, Again,
  checkentry, capture, at_start, reparse_path, reparse_at, checkdir, cut_element, checkelement,
  or_404, checkpath, serve,
}
use ashd.Dirplex.Inside.{
  Inside, root, entry, reparsed, IsServed, IsSafe, AllSafe, handle404-IsSafe, handlefile-IsSafe,
  self-IsServed, findfile-IsServed, handledir-IsSafe,
}

module _ (w : World) where
  pub stat-cases :
      (path : Bytes)
      → (w.stat path ≡ none)
        ⊎ ((w.stat path ≡ some directory)
            ⊎ ((w.stat path ≡ some regular) ⊎ (w.stat path ≡ some special)))
  stat-cases path = go (w.stat path)
    where
      go :
          (o : Option Kind)
          → (o ≡ none) ⊎ ((o ≡ some directory) ⊎ ((o ≡ some regular) ⊎ (o ≡ some special)))
      go none = inl refl
      go (some directory) = inr (inl refl)
      go (some regular) = inr (inr (inl refl))
      go (some special) = inr (inr (inr refl))

  -- The walk goes on from a directory inside, or from none.
  abbrev GoesOn : Again → Type 0
  GoesOn again =
      (path rest : Bytes) (final : Bool)
      → Inside w (strip_dot path)
      → AllSafe w (again path rest final)

  checkentry-AllSafe :
      (again : Again) (path rest el : Bytes) (req : Hthead) (final : Bool)
      → GoesOn again
      → Inside w path
      → 0 < length el
      → holds b'/' el ≡ false
      → AllSafe w (checkentry w again path rest el req final)
  unfolding checkentry
  checkentry-AllSafe again path rest el req final on i some_el plain =
      elim (Bool-cases (checkaccess w path el)) [
        | inl allowed ↦
            let served : IsServed w (under path el) =
              inl (path, el, i, refl, inr (inl (allowed, inl plain))) in
            elim (stat-cases (under path el)) [
              | inr (inl e) ↦ rw (checkentry, e, allowed) (into allowed rest)
              | inr (inr (inl e)) ↦
                  rw (checkentry, e, allowed)
                    (handlefile-IsSafe w (under path el) (replrest req rest) served)
              | inr (inr (inr e)) ↦
                  rw (checkentry, e, allowed)
                    (handle404-IsSafe w (path ++ b'/' ∷ []) req (self-IsServed w path i))
              | inl e ↦ missing e
            ]
        | inr refused ↦ elim (stat-cases (under path el)) [
          | inr (inl e) ↦ rw (checkentry, e, refused) tt
          | inr (inr (inl e)) ↦ rw (checkentry, e, refused) tt
          | inr (inr (inr e)) ↦ rw (checkentry, e, refused) tt
          | inl e ↦ missing e
        ]
      ]
    where
      into :
          checkaccess w path el ≡ true
          → (rest : Bytes)
          → AllSafe w (elim rest [
            | [] ↦ some (some (redirect (el ++ b'/' ∷ [])))
            | _ ∷ rest' ↦ again (under path el) rest' final
          ])
      into allowed [] = (el, refl, plain)
      into allowed (c ∷ rest') =
          on (under path el) rest' final (entry path el i some_el plain allowed)

      missing :
          w.stat (under path el) ≡ none → AllSafe w (checkentry w again path rest el req final)
      missing e = elim (Bool-cases (holds b'.' el)) [
        | inl dot ↦ rw (checkentry, e, dot) tt
        | inr no_dot ↦ elim (Option-cases (findfile w path el)) [
          | inl e' ↦ rw (checkentry, e, no_dot, e') tt
          | inr (newpath, e') ↦
              rw (checkentry, e, no_dot, e')
                (handlefile-IsSafe w newpath (replrest req rest)
                  (findfile-IsServed w path el newpath i e'))
        ]
      ]

  capture-IsSafe : (path rest name : Bytes) (req : Hthead) → IsSafe w (capture w path rest name req)
  unfolding capture
  capture-IsSafe path rest name req = elim (Option-cases (findchild w (path ++ b'/' ∷ []) name)) [
    | inl e ↦ rw (capture, e) tt
    | inr (ccf, e) ↦ rw (capture, e) tt
  ]

  reparse_at-AllSafe :
      (again : Again) (path rest target : Bytes) (cf : Config) (req : Hthead)
      → GoesOn again
      → Inside w path
      → w.getconfig path ≡ some cf
      → cf.reparse ≡ some target
      → AllSafe w (reparse_at w again path rest cf target req)
  unfolding reparse_at
  reparse_at-AllSafe again path rest target cf req on i c q =
      let newpath = reparse_path w path target in
      elim (stat-cases newpath) [
        | inr (inl e) ↦
            rw (reparse_at, e) (on newpath rest (not cf.parsecomb) (reparsed path target cf i c q))
        | inr (inr (inl e)) ↦
            rw (reparse_at, e)
              (handlefile-IsSafe w newpath (replrest req rest)
                (inr (path, target, cf, i, c, q, refl)))
        | inr (inr (inr e)) ↦ rw (reparse_at, e) (none_there cf.parsecomb)
        | inl e ↦ rw (reparse_at, e) (none_there cf.parsecomb)
      ]
    where
      none_there : (b : Bool) → AllSafe w (some (if b then none else some silent))
      none_there true = tt
      none_there false = tt

  checkdir-AllSafe :
      (again : Again) (path rest : Bytes) (req : Hthead)
      → GoesOn again
      → Inside w path
      → AllSafe w (checkdir w again path rest req)
  unfolding checkdir
  checkdir-AllSafe again path rest req on i = go (w.getconfig path) refl
    where
      on_from :
          (cf : Config)
          → w.getconfig path ≡ some cf
          → (o : Option Bytes) → cf.reparse ≡ o
          → AllSafe w (elim o [
            | none ↦ some none
            | some target ↦ reparse_at w again path rest cf target req
          ])
      on_from cf c none q = tt
      on_from cf c (some target) q = reparse_at-AllSafe again path rest target cf req on i c q

      caught :
          (cf : Config)
          → w.getconfig path ≡ some cf
          → (o : Option Bytes)
          → AllSafe w (
              let go_on : Option (Option Answer) = elim cf.reparse [
                | none ↦ some none
                | some target ↦ reparse_at w again path rest cf target req
              ] in
              elim o [
                | none ↦ go_on
                | some name ↦
                    if cf.caproot || not (at_start w cf.path)
                    then some (some (capture w path rest name req))
                    else go_on
              ])
      caught cf c none = on_from cf c cf.reparse refl
      caught cf c (some name) = elim (Bool-cases (cf.caproot || not (at_start w cf.path))) [
        | inl captures ↦ rw captures (capture-IsSafe path rest name req)
        | inr passes ↦ rw passes (on_from cf c cf.reparse refl)
      ]

      go : (o : Option Config) → w.getconfig path ≡ o → AllSafe w (checkdir w again path rest req)
      go none c = rw (checkdir, c) tt
      go (some cf) c = rw (checkdir, c) (caught cf c cf.capture)

  checkelement-AllSafe :
      (again : Again) (path rest el : Bytes) (req : Hthead) (final : Bool)
      → GoesOn again
      → Inside w path
      → AllSafe w (checkelement w again path rest el req final)
  unfolding checkelement
  checkelement-AllSafe again path rest [] req final on i = at_end rest
    where
      at_end :
          (rest : Bytes)
          → AllSafe w (elim rest [
            | [] ↦ some (some (handledir w path (replrest req [])))
            | _ ∷ _ ↦ some none
          ])
      at_end [] = handledir-IsSafe w path (replrest req []) i
      at_end (c ∷ s) = tt
  checkelement-AllSafe again path rest (c ∷ s) req final on i =
      elim (Bool-cases (holds b'/' (c ∷ s))) [
        | inl slash ↦ rw slash tt
        | inr plain ↦
            rw plain (checkentry-AllSafe again path rest (c ∷ s) req final on i (omega arith) plain)
      ]

  or_404-AllSafe :
      (path : Bytes) (req : Hthead) (final : Bool) (o : Option (Option Answer))
      → Inside w path
      → AllSafe w o
      → AllSafe w (or_404 w path req final o)
  or_404-AllSafe path req final none i s = tt
  or_404-AllSafe path req final (some (some a)) i s = s
  or_404-AllSafe path req true (some none) i s =
      handle404-IsSafe w (path ++ b'/' ∷ []) req (self-IsServed w path i)
  or_404-AllSafe path req false (some none) i s = tt

  -- One round of `checkpath`.
  round-AllSafe :
      (again : Again) (here rest : Bytes) (req : Hthead) (final : Bool)
      → GoesOn again
      → Inside w here
      → AllSafe w (elim (checkdir w again here rest req) [
        | none ↦ none
        | some (some a) ↦ some (some a)
        | some none ↦ elim (unquoteurl (cut_element w rest).0) [
          | none ↦ some (some bad_request)
          | some el ↦
              or_404 w here req final
                (checkelement w again here (cut_element w rest).1 (cstr el) req final)
        ]
      ])
  round-AllSafe again here rest req final on i =
      go (checkdir w again here rest req) (checkdir-AllSafe again here rest req on i)
    where
      unquoted_el :
          (o : Option Bytes)
          → AllSafe w (elim o [
            | none ↦ some (some bad_request)
            | some el ↦
                or_404 w here req final
                  (checkelement w again here (cut_element w rest).1 (cstr el) req final)
          ])
      unquoted_el none = tt
      unquoted_el (some el) =
          or_404-AllSafe here req final
            (checkelement w again here (cut_element w rest).1 (cstr el) req final) i
            (checkelement-AllSafe again here (cut_element w rest).1 (cstr el) req final on i)

      go :
          (o : Option (Option Answer))
          → AllSafe w o
          → AllSafe w (elim o [
            | none ↦ none
            | some (some a) ↦ some (some a)
            | some none ↦ elim (unquoteurl (cut_element w rest).0) [
              | none ↦ some (some bad_request)
              | some el ↦
                  or_404 w here req final
                    (checkelement w again here (cut_element w rest).1 (cstr el) req final)
            ]
          ])
      go none s = tt
      go (some (some a)) s = s
      go (some none) s = unquoted_el (unquoteurl (cut_element w rest).0)

  checkpath-AllSafe :
      (fuel : ℕ) (req : Hthead) (path rest : Bytes) (final : Bool)
      → Inside w (strip_dot path)
      → AllSafe w (checkpath w fuel req path rest final)
  unfolding checkpath
  checkpath-AllSafe zero req path rest final i = tt
  checkpath-AllSafe (suc fuel) req path rest final i =
      round-AllSafe (λ p r f. checkpath w fuel req p r f) (strip_dot path) rest req final
        (λ p r f i'. checkpath-AllSafe fuel req p r f i') i

  -- Whatever the request asks for, and whatever the file system and the configurations hold:
  -- the file or the directory that is handed to a handler lies in a directory that the walk
  -- came to from the one it started in, by names that are not empty and hold no slash, to which
  -- checkaccess allows the access, and by what a reparse names; and it is that directory, or
  -- has in it such a name, or one from the list of the directory to which the access is
  -- allowed, or one of its index, or it is what the reparse of that directory names. A
  -- redirection leads to a name without a slash and a slash behind it.
  pub serve-AllSafe : (fuel : ℕ) (req : Hthead) (rest : Bytes) → AllSafe w (serve w fuel req rest)
  unfolding serve
  serve-AllSafe fuel req rest =
      checkpath-AllSafe fuel req (b'.' ∷ []) rest true (unfold strip_dot in root)
