-- ===== src/Dirplex/Inside.antt =====
-- src/dirplex/dirplex.c: the directories that the walk may come to, and what may be served of them.
use ashd.Base.{
  if◌then◌else◌, Bool-cases, Option-cases, ◌>>=◌, length, Bytes, strcmp, strcmp_iff, ◌<◌, ◌≡◌, refl,
  ◌⊎◌, inl, inr, Bool, true, false, ◌&&◌, ◌||◌, Option, none, some, List, [], ◌∷◌, ◌++◌, arith,
}
use ashd.Req.Head.{Hthead}
use ashd.Dirplex.Match.{
  file, dir, notfound, Config, World, strip_dot, getconfigs, any_of, findmatch,
}
use ashd.Dirplex.Walk.{
  Answer, run, run_notfound, redirect, under, holds, checkaccess, is_regular, looks_named, is_named,
  find_named, findfile, handle404, handlefile, try_index, index_of, handledir, reparse_path,
}

or_right : (a b : Bool) → b ≡ true → (a || b) ≡ true
or_right a b e = ground arith

and_right : (a b : Bool) → (a && b) ≡ true → b ≡ true
and_right a b e = ground arith

module _ (w : World) where
  -- The directories that the walk may come to: the one it is started in, one that is an entry of
  -- such a directory, with a name that is not empty and holds no slash, and to which the access is
  -- allowed, and one that the configuration of such a directory names for it.
  pub data Inside : Bytes → Type 0 where
    root : Inside (b'.' ∷ [])
    entry :
        (path el : Bytes)
        → Inside path
        → 0 < length el
        → holds b'/' el ≡ false
        → checkaccess w path el ≡ true
        → Inside (strip_dot (under path el))
    reparsed :
        (path target : Bytes) (cf : Config)
        → Inside path
        → w.getconfig path ≡ some cf
        → cf.reparse ≡ some target
        → Inside (strip_dot (reparse_path w path target))

  abbrev Listed : Bytes → Bytes → Type 0
  Listed path name =
      (names : List Bytes) × (w.readdir path ≡ some names)
      × (any_of (λ n. strcmp n name) names ≡ true)

  -- A name of the index of the directory.
  abbrev pub IsIndex : Bytes → Bytes → Type 0
  IsIndex path name =
      any_of (λ n. strcmp n name) (index_of w (getconfigs w (path ++ b'/' ∷ []))) ≡ true

  -- A name in a directory: that of the directory itself; one without a slash, or from the list of
  -- the directory, to which the access is allowed; or one of its index.
  abbrev pub IsName : Bytes → Bytes → Type 0
  IsName path name =
      (name ≡ [])
      ⊎ (((checkaccess w path name ≡ true) × ((holds b'/' name ≡ false) ⊎ Listed path name))
          ⊎ IsIndex path name)

  abbrev pub IsServed : Bytes → Type 0
  IsServed path =
      ((above : Bytes) × (name : Bytes) × Inside above
        × (path ≡ under above name)
        × IsName above name)
      ⊎ ((above : Bytes) × (target : Bytes) × (cf : Config) × Inside above
          × (w.getconfig above ≡ some cf)
          × (cf.reparse ≡ some target)
          × (path ≡ reparse_path w above target))

  -- A redirection leads to an element with a slash behind it, and so not to another server.
  abbrev pub IsSafe : Answer → Type 0
  IsSafe (run pat path req) = IsServed path
  IsSafe (run_notfound path req) = IsServed path
  IsSafe (redirect to) = (el : Bytes) × (to ≡ el ++ b'/' ∷ []) × (holds b'/' el ≡ false)
  IsSafe _ = Unit

  abbrev pub AllSafe : Option (Option Answer) → Type 0
  AllSafe (some (some a)) = IsSafe a
  AllSafe _ = Unit

  pub handle404-IsSafe :
      (path : Bytes) (req : Hthead) → IsServed path → IsSafe (handle404 w path req)
  unfolding handle404
  handle404-IsSafe path req s = elim (Option-cases (findmatch w path notfound)) [
    | inl e ↦ rw (handle404, e) s
    | inr (pat, e) ↦ rw (handle404, e) s
  ]

  pub handlefile-IsSafe :
      (path : Bytes) (req : Hthead) → IsServed path → IsSafe (handlefile w path req)
  unfolding handlefile
  handlefile-IsSafe path req s = elim (Option-cases (findmatch w path file)) [
    | inl e ↦ rw (handlefile, e) (handle404-IsSafe path req s)
    | inr (pat, e) ↦ rw (handlefile, e) s
  ]

  -- The directory itself.
  pub self-IsServed : (path : Bytes) → Inside path → IsServed (path ++ b'/' ∷ [])
  self-IsServed path i = inl (path, [], i, unfold under in refl, inl refl)

  any_of_here :
      (name : Bytes) (names : List Bytes) → any_of (λ n. strcmp n name) (name ∷ names) ≡ true
  any_of_here name names =
      let same : strcmp name name ≡ true = (strcmp_iff name name).1 refl in
      unfold any_of in rw same refl

  named_access : (path name d : Bytes) → is_named w path name d ≡ true → checkaccess w path d ≡ true
  unfolding is_named
  named_access path name d e = and_right (looks_named w path name d) (checkaccess w path d) e

  find_named-Listed :
      (path name : Bytes) (names : List Bytes) (found : Bytes)
      → find_named w path name names ≡ some found
      → (d : Bytes) × (found ≡ under path d)
        × (checkaccess w path d ≡ true)
        × (any_of (λ n. strcmp n d) names ≡ true)
  unfolding find_named
  find_named-Listed path name [] found e = absurd cc
  find_named-Listed path name (d ∷ ds) found e =
      go (is_named w path name d) refl e (find_named-Listed path name ds found)
    where
      go :
          (named : Bool)
          → is_named w path name d ≡ named
          → (if named then some (under path d) else find_named w path name ds) ≡ some found
          → (find_named w path name ds ≡ some found
              → (d : Bytes) × (found ≡ under path d)
                × (checkaccess w path d ≡ true)
                × (any_of (λ n. strcmp n d) ds ≡ true))
          → (d' : Bytes) × (found ≡ under path d')
            × (checkaccess w path d' ≡ true)
            × (any_of (λ n. strcmp n d') (d ∷ ds) ≡ true)
      go true q e next = (d, cc, named_access path name d q, any_of_here d ds)
      go false q e next = let (d', f, a, m) = next e in (d', f, a, unfold any_of in or_right _ _ m)

  pub findfile-IsServed :
      (path name found : Bytes) → Inside path → findfile w path name ≡ some found → IsServed found
  unfolding findfile
  findfile-IsServed path name found i e = go (w.readdir path) refl e
    where
      go :
          (o : Option (List Bytes))
          → w.readdir path ≡ o
          → (o >>= λ names. find_named w path name names) ≡ some found
          → IsServed found
      go none q e = absurd cc
      go (some names) q e =
          let (d, f, a, m) = find_named-Listed path name names found e in
          inl (path, d, i, f, inr (inl (a, inr (names, q, m))))

  abbrev AllSafeIndex : (path : Bytes) → Option Answer → Type 0
  AllSafeIndex path none = Unit
  AllSafeIndex path (some a) = IsSafe a

  try_index-IsSafe :
      (path : Bytes) (names : List Bytes) (req : Hthead)
      → Inside path
      → ((name : Bytes) → any_of (λ n. strcmp n name) names ≡ true → IsIndex path name)
      → AllSafeIndex path (try_index w path names req)
  unfolding try_index
  try_index-IsSafe path [] req i h = tt
  try_index-IsSafe path (inm ∷ inms) req i h =
      let here = h inm (any_of_here inm inms) in
      let later =
        try_index-IsSafe path inms req i (λ name m. h name (unfold any_of in or_right _ _ m)) in
      elim (Bool-cases (is_regular w (under path inm))) [
        | inl found ↦
            rw (try_index, found)
              (handlefile-IsSafe (under path inm) req (inl (path, inm, i, refl, inr (inr here))))
        | inr missing ↦ elim (Bool-cases (holds b'.' inm)) [
          | inl dot ↦ rw (try_index, missing, dot) later
          | inr plain ↦ elim (Option-cases (findfile w path inm)) [
            | inl e ↦ rw (try_index, missing, plain, e) later
            | inr (ipath, e) ↦
                rw (try_index, missing, plain, e)
                  (handlefile-IsSafe ipath req (findfile-IsServed path inm ipath i e))
          ]
        ]
      ]

  pub handledir-IsSafe : (path : Bytes) (req : Hthead) → Inside path → IsSafe (handledir w path req)
  unfolding handledir
  handledir-IsSafe path req i =
      let cpath = path ++ b'/' ∷ [] in
      let indexed = try_index-IsSafe path (index_of w (getconfigs w cpath)) req i (λ name m. m) in
      elim (Option-cases (try_index w path (index_of w (getconfigs w cpath)) req)) [
        | inr (a, e) ↦ rw (handledir, e) (rw e at indexed)
        | inl e ↦ elim (Option-cases (findmatch w cpath dir)) [
          | inl e' ↦ rw (handledir, e, e') tt
          | inr (pat, e') ↦ rw (handledir, e, e') (self-IsServed path i)
        ]
      ]
