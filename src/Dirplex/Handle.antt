-- ===== src/Dirplex/Handle.antt =====
-- src/dirplex/dirplex.c handle: the handler that a pattern names is given the file.
use ashd.Base.{
  if◌then◌else◌, Bool-cases, Option-cases, ◌>>=◌, length, take, drop, take-append-drop, Bytes,
  codes, strcmp, strcmp_iff, ◌+◌, ◌≡◌, refl, sym, ap, ◌∙◌, inl, inr, Option, none, some, List, [],
  ◌∷◌, ◌++◌, append_assoc,
}
use ashd.Req.Head.{Header, Hthead, headappheader, headrmheader}
use ashd.Dirplex.Match.{Pattern, World, strip_dot, findchild}
use ashd.Dirplex.Walk.{under}

-- stdforkserve with a command, or childhandle with a child, the directory that it changes to, and
-- the request; or the two errors.
pub data Handled : Type 0 where
  forked : List Bytes → Hthead → Handled
  to_child : Bytes → Option Bytes → Hthead → Handled
  not_declared impossible : Handled

-- The loop over the headers of the pattern.
unfoldable pub set_headers : List Header → Hthead → Hthead
unfolding headrmheader headappheader
set_headers [] req = req
set_headers ((name, value) ∷ hs) req =
    set_headers hs (headappheader (headrmheader req name) name value)

-- `if(!strncmp(path, "./", 2) && path[2]) path += 2`.
unfoldable pub drop_here : Bytes → Bytes
unfolding strip_dot
drop_here (c ∷ d ∷ e ∷ path) = strip_dot (c ∷ d ∷ e ∷ path)
drop_here path = path

abbrev pub x_ash_file : Bytes
x_ash_file = codes "X-Ash-File"

-- The path as the child sees it from the directory of its configuration.
unfoldable pub from_directory : Bytes → Option Bytes → Bytes → Hthead → Handled
unfolding strcmp headappheader
from_directory name none path req = to_child name none (headappheader req x_ash_file path)
from_directory name (some twd) path req =
    if strcmp twd (b'.' ∷ [])
    then to_child name none (headappheader req x_ash_file path)
    else if strcmp (take (length twd + 1) path) (twd ++ b'/' ∷ [])
    then to_child name (some twd) (headappheader req x_ash_file (drop (length twd + 1) path))
    else impossible

unfoldable pub handle : World → Hthead → Bytes → Pattern → Handled
unfolding set_headers drop_here findchild from_directory headappheader
handle w req path pat =
    let modified = set_headers pat.headers req in
    let here = drop_here path in
    elim pat.fchild [
      | some command ↦ forked command (headappheader modified x_ash_file here)
      | none ↦ elim (findchild w here pat.childnm) [
        | none ↦ not_declared
        | some ccf ↦ from_directory pat.childnm (ccf >>= λ cf. cf.path) here modified
      ]
    ]

-- The file that the handler is given, from the directory that it is in, is this one.
abbrev pub Gives : Hthead → Bytes → Handled → Type 0
Gives req path (forked command req') = req' ≡ headappheader req x_ash_file path
Gives req path (to_child name none req') = req' ≡ headappheader req x_ash_file path
Gives req path (to_child name (some twd) req') =
    (seen : Bytes) × (req' ≡ headappheader req x_ash_file seen) × (under twd seen ≡ path)
Gives req path _ = Unit

from_directory-Gives :
    (name : Bytes) (twd : Option Bytes) (path : Bytes) (req : Hthead)
    → Gives req path (from_directory name twd path req)
unfolding from_directory
from_directory-Gives name none path req = refl
from_directory-Gives name (some twd) path req = elim (Bool-cases (strcmp twd (b'.' ∷ []))) [
  | inl start ↦ rw start refl
  | inr below ↦ elim (Bool-cases (strcmp (take (length twd + 1) path) (twd ++ b'/' ∷ []))) [
    | inr other ↦ rw (below, other) tt
    | inl inside ↦
        let front = (strcmp_iff (take (length twd + 1) path) (twd ++ b'/' ∷ [])).0 inside in
        rw (below, inside)
          (
            drop (length twd + 1) path,
            refl,
            unfold under in
                sym (append_assoc twd (b'/' ∷ []) (drop (length twd + 1) path))
                ∙ ap (λ s. s ++ drop (length twd + 1) path) (sym front)
                ∙ take-append-drop (length twd + 1) path,
          )
  ]
]

-- Where handle starts a handler, this is given the path, without a "./" in front, in X-Ash-File
-- behind the other headers; a child that is in the directory of its configuration is given it from
-- there, and the name of that directory, a slash and what it is given are the path.
handle-Gives :
    (w : World) (req : Hthead) (path : Bytes) (pat : Pattern)
    → Gives (set_headers pat.headers req) (drop_here path) (handle w req path pat)
unfolding handle
handle-Gives w req path pat = elim (Option-cases pat.fchild) [
  | inr (command, e) ↦ rw (handle, e) refl
  | inl e ↦ elim (Option-cases (findchild w (drop_here path) pat.childnm)) [
    | inl e' ↦ rw (handle, e, e') tt
    | inr (ccf, e') ↦
        rw (handle, e, e')
          (from_directory-Gives pat.childnm (ccf >>= λ cf. cf.path) (drop_here path)
            (set_headers pat.headers req))
  ]
]
