-- ===== src/Dirplex/Walk.antt =====
-- src/dirplex/dirplex.c: the walk from the directory it is started in along the elements of the
-- rest string, and what is done with what it finds.
use ashd.Base.{
  ◌==◌, if◌then◌else◌, ◌>>=◌, Bytes, cstr, strcmp, split_at, ℕ, zero, suc, Bool, true, false, not,
  ◌&&◌, ◌||◌, Option, none, some, List, [], ◌∷◌, ◌++◌,
}
use ashd.Req.Head.{Hthead, replrest}
use ashd.Req.Unquote.{unquoteurl}
use ashd.Dirplex.Match.{
  Pattern, file, dir, notfound, Config, regular, directory, special, World, strip_dot, getconfigs,
  any_of, findmatch, findchild,
}

-- How the walk ends: `handle` of a pattern with a path, or with the child for what is not there;
-- a redirection; the errors; a request that a directory captures; a configuration that is NULL and
-- read; or a return without an answer.
pub data Answer : Type 0 where
  run : Pattern → Bytes → Hthead → Answer
  run_notfound : Bytes → Hthead → Answer
  redirect : Bytes → Answer
  captured : Bytes → Option Config → Hthead → Answer
  bad_request no_listing undeclared null_read silent : Answer

unfoldable pub under : Bytes → Bytes → Bytes
under path name = path ++ b'/' ∷ name

abbrev pub is_dot_name : Bytes → Bool
is_dot_name [] = false
is_dot_name (c ∷ name) = c == b'.'

-- `strchr(s, c) != NULL`.
unfoldable pub holds : ℕ → Bytes → Bool
holds c [] = false
holds c (d ∷ s) = d == c || holds c s

unfoldable pub ends_in : ℕ → Bytes → Bool
ends_in c [] = false
ends_in c (d ∷ []) = d == c
ends_in c (d ∷ e ∷ s) = ends_in c (e ∷ s)

-- `checkpath` that is called again, with a path, the rest, and `final`. The result is `none`
-- where the fuel ran out, and `some none` for 0.
abbrev pub Again : Type 0
Again = Bytes → Bytes → Bool → Option (Option Answer)

module _ (w : World) where
  -- The loop over the configurations ends at the first that has a dotallow.
  unfoldable pub dot_allowed : List Config → Bytes → Bool
  unfolding any_of
  dot_allowed [] name = false
  dot_allowed (cf ∷ cfs) name = elim cf.dotallow [
    | some allowed ↦ any_of (λ p. w.fnmatch p name) allowed
    | none ↦ dot_allowed cfs name
  ]

  unfoldable pub checkaccess : Bytes → Bytes → Bool
  unfolding dot_allowed getconfigs
  checkaccess path name =
      if is_dot_name name then dot_allowed (getconfigs w (path ++ b'/' ∷ [])) name else true

  abbrev pub is_regular : Bytes → Bool
  is_regular path = elim (w.stat path) [ some regular ↦ true | _ ↦ false ]

  -- The tests of the loop of findfile.
  unfoldable pub looks_named : Bytes → Bytes → Bytes → Bool
  unfolding ends_in split_at strcmp under
  looks_named path name d_name =
      not (ends_in b'~' d_name)
      && (elim (split_at b'.' d_name) [ none ↦ false | some (stem, _) ↦ strcmp stem name ])
      && is_regular (under path d_name)

  unfoldable pub is_named : Bytes → Bytes → Bytes → Bool
  unfolding checkaccess looks_named
  is_named path name d_name = looks_named path name d_name && checkaccess path d_name

  unfoldable pub find_named : Bytes → Bytes → List Bytes → Option Bytes
  unfolding is_named
  find_named path name [] = none
  find_named path name (d ∷ ds) =
      if is_named path name d then some (under path d) else find_named path name ds

  unfoldable pub findfile : Bytes → Bytes → Option Bytes
  unfolding find_named
  findfile path name = w.readdir path >>= λ names. find_named path name names

  unfoldable pub handle404 : Bytes → Hthead → Answer
  unfolding findmatch
  handle404 path req = elim (findmatch w path notfound) [
    | some pat ↦ run pat path req
    | none ↦ run_notfound path req
  ]

  unfoldable pub handlefile : Bytes → Hthead → Answer
  unfolding findmatch handle404
  handlefile path req = elim (findmatch w path file) [
    | some pat ↦ run pat path req
    | none ↦ handle404 path req
  ]

  -- The loop over the names of the index.
  unfoldable pub try_index : Bytes → List Bytes → Hthead → Option Answer
  unfolding handlefile findfile holds under
  try_index path [] req = none
  try_index path (inm ∷ inms) req =
      if is_regular (under path inm)
      then some (handlefile (under path inm) req)
      else if holds b'.' inm
      then try_index path inms req
      else elim (findfile path inm) [
        | some ipath ↦ some (handlefile ipath req)
        | none ↦ try_index path inms req
      ]

  unfoldable pub index_of : List Config → List Bytes
  index_of [] = []
  index_of (cf ∷ cfs) = elim cf.index [ some names ↦ names | none ↦ index_of cfs ]

  unfoldable pub handledir : Bytes → Hthead → Answer
  unfolding try_index index_of findmatch getconfigs
  handledir path req =
      let cpath = path ++ b'/' ∷ [] in
      elim (try_index path (index_of (getconfigs w cpath)) req) [
        | some a ↦ a
        | none ↦ elim (findmatch w cpath dir) [ some pat ↦ run pat cpath req | none ↦ no_listing ]
      ]

  unfoldable pub checkentry : Again → Bytes → Bytes → Bytes → Hthead → Bool → Option (Option Answer)
  unfolding checkaccess handlefile handle404 findfile holds under replrest
  checkentry again path rest el req final = elim (w.stat (under path el)) [
    | some kind ↦ if not (checkaccess path el) then some none else elim kind [
      | directory ↦ elim rest [
        | [] ↦ some (some (redirect (el ++ b'/' ∷ [])))
        | _ ∷ rest' ↦ again (under path el) rest' final
      ]
      | regular ↦ some (some (handlefile (under path el) (replrest req rest)))
      | special ↦ some (some (handle404 (path ++ b'/' ∷ []) req))
    ]
    | none ↦ if holds b'.' el then some none else elim (findfile path el) [
      | some newpath ↦ some (some (handlefile newpath (replrest req rest)))
      | none ↦ some none
    ]
  ]

  -- The capture of `checkdir`.
  unfoldable pub capture : Bytes → Bytes → Bytes → Hthead → Answer
  unfolding findchild replrest
  capture path rest name req = elim (findchild w (path ++ b'/' ∷ []) name) [
    | none ↦ undeclared
    | some ccf ↦
        captured name ccf
          (replrest req (elim rest [ [] ↦ [] | c ∷ s ↦ if c == b'/' then s else c ∷ s ]))
  ]

  abbrev pub at_start : Option Bytes → Bool
  at_start none = false
  at_start (some path) = strcmp path (b'.' ∷ [])

  unfoldable pub reparse_path : Bytes → Bytes → Bytes
  unfolding under
  reparse_path path [] = under path []
  reparse_path path (c ∷ s) = if c == b'/' then c ∷ s else under path (c ∷ s)

  -- The reparse of `checkdir`.
  unfoldable pub reparse_at :
      Again → Bytes → Bytes → Config → Bytes → Hthead → Option (Option Answer)
  unfolding handlefile replrest reparse_path
  reparse_at again path rest cf target req =
      let newpath = reparse_path path target in
      elim (w.stat newpath) [
        | some directory ↦ again newpath rest (not cf.parsecomb)
        | some regular ↦ some (some (handlefile newpath (replrest req rest)))
        | _ ↦ some (if cf.parsecomb then none else some silent)
      ]

  unfoldable pub checkdir : Again → Bytes → Bytes → Hthead → Option (Option Answer)
  unfolding capture reparse_at strcmp
  checkdir again path rest req = elim (w.getconfig path) [
    | none ↦ some (some null_read)
    | some cf ↦
        let go_on : Option (Option Answer) = elim cf.reparse [
          | none ↦ some none
          | some target ↦ reparse_at again path rest cf target req
        ] in
        elim cf.capture [
          | none ↦ go_on
          | some name ↦
              if cf.caproot || not (at_start cf.path)
              then some (some (capture path rest name req))
              else go_on
        ]
  ]

  -- The element and what follows it, with its slash.
  unfoldable pub cut_element : Bytes → Bytes × Bytes
  unfolding split_at
  cut_element rest = elim (split_at b'/' rest) [
    | none ↦ (rest, [])
    | some (el, more) ↦ (el, b'/' ∷ more)
  ]

  -- `checkpath` behind `checkdir`, with the element that was unquoted.
  unfoldable pub checkelement :
      Again → Bytes → Bytes → Bytes → Hthead → Bool → Option (Option Answer)
  unfolding checkentry handledir holds replrest
  checkelement again path rest el req final = if holds b'/' el then some none else elim el [
    | [] ↦ elim rest [ [] ↦ some (some (handledir path (replrest req []))) | _ ∷ _ ↦ some none ]
    | c ∷ s ↦ checkentry again path rest (c ∷ s) req final
  ]

  abbrev pub or_404 : Bytes → Hthead → Bool → Option (Option Answer) → Option (Option Answer)
  or_404 path req final none = none
  or_404 path req final (some (some a)) = some (some a)
  or_404 path req final (some none) =
      if final then some (some (handle404 (path ++ b'/' ∷ []) req)) else some none

  unfoldable pub checkpath : ℕ → Hthead → Bytes → Bytes → Bool → Option (Option Answer)
  unfolding strip_dot checkdir cut_element unquoteurl checkelement handle404
  checkpath zero req path rest final = none
  checkpath (suc fuel) req path rest final =
      let again : Again = λ p r f. checkpath fuel req p r f in
      let here = strip_dot path in
      let (quoted, more) = cut_element rest in
      elim (checkdir again here rest req) [
        | none ↦ none
        | some (some a) ↦ some (some a)
        | some none ↦ elim (unquoteurl quoted) [
          | none ↦ some (some bad_request)
          | some el ↦ or_404 here req final (checkelement again here more (cstr el) req final)
        ]
      ]

  -- `serve`.
  unfoldable pub serve : ℕ → Hthead → Bytes → Option (Option Answer)
  unfolding checkpath
  serve fuel req rest = checkpath fuel req (b'.' ∷ []) rest true
