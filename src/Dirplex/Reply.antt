-- ===== src/Dirplex/Reply.antt =====
-- src/dirplex/dirplex.c: what answers a request.
use ashd.Base.{Bool-cases, Option-cases, Bytes, inl, inr, Option, none, some, List, [], ◌∷◌, ◌++◌}
use ashd.Req.Head.{Hthead}
use ashd.Dirplex.Match.{file, dir, notfound, World, getconfigs, findmatch, findchild}
use ashd.Dirplex.Walk.{
  Answer, null_read, silent, under, holds, is_regular, findfile, handle404, handlefile, try_index,
  index_of, handledir, capture,
}

module _ (w : World) where
  -- The request is handed to a handler or to a child, or answered with a redirection or an error:
  -- no configuration is read that is NULL, and it is not left without a response.
  abbrev pub IsReply : Answer → Type 0
  IsReply null_read = ⊥
  IsReply silent = ⊥
  IsReply _ = Unit

  abbrev pub AllReply : Option Answer → Type 0
  AllReply none = Unit
  AllReply (some a) = IsReply a

  pub handle404-IsReply : (path : Bytes) (req : Hthead) → IsReply (handle404 w path req)
  unfolding handle404
  handle404-IsReply path req = elim (Option-cases (findmatch w path notfound)) [
    | inl e ↦ rw (handle404, e) tt
    | inr (pat, e) ↦ rw (handle404, e) tt
  ]

  pub handlefile-IsReply : (path : Bytes) (req : Hthead) → IsReply (handlefile w path req)
  unfolding handlefile
  handlefile-IsReply path req = elim (Option-cases (findmatch w path file)) [
    | inl e ↦ rw (handlefile, e) (handle404-IsReply path req)
    | inr (pat, e) ↦ rw (handlefile, e) tt
  ]

  try_index-AllReply :
      (path : Bytes) (names : List Bytes) (req : Hthead) → AllReply (try_index w path names req)
  unfolding try_index
  try_index-AllReply path [] req = tt
  try_index-AllReply path (inm ∷ inms) req =
      let later = try_index-AllReply path inms req in
      elim (Bool-cases (is_regular w (under path inm))) [
        | inl found ↦ rw (try_index, found) (handlefile-IsReply (under path inm) req)
        | inr missing ↦ elim (Bool-cases (holds b'.' inm)) [
          | inl dot ↦ rw (try_index, missing, dot) later
          | inr plain ↦ elim (Option-cases (findfile w path inm)) [
            | inl e ↦ rw (try_index, missing, plain, e) later
            | inr (ipath, e) ↦ rw (try_index, missing, plain, e) (handlefile-IsReply ipath req)
          ]
        ]
      ]

  pub handledir-IsReply : (path : Bytes) (req : Hthead) → IsReply (handledir w path req)
  unfolding handledir
  handledir-IsReply path req =
      let cpath = path ++ b'/' ∷ [] in
      let indexed = try_index-AllReply path (index_of w (getconfigs w cpath)) req in
      elim (Option-cases (try_index w path (index_of w (getconfigs w cpath)) req)) [
        | inr (a, e) ↦ rw (handledir, e) (rw e at indexed)
        | inl e ↦ elim (Option-cases (findmatch w cpath dir)) [
          | inl e' ↦ rw (handledir, e, e') tt
          | inr (pat, e') ↦ rw (handledir, e, e') tt
        ]
      ]

  pub capture-IsReply :
      (path rest name : Bytes) (req : Hthead) → IsReply (capture w path rest name req)
  unfolding capture
  capture-IsReply path rest name req = elim (Option-cases (findchild w (path ++ b'/' ∷ []) name)) [
    | inl e ↦ rw (capture, e) tt
    | inr (ccf, e) ↦ rw (capture, e) tt
  ]
