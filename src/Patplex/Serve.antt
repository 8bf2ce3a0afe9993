-- ===== src/Patplex/Serve.antt =====
-- src/patplex.c `getchild` and one round of `serve`. A child is its name with a value of a type that
-- stands for the rest of it. What `serve` then does with a pattern to be matched again, with the
-- pattern disabled in the meantime, is the next round.
use ashd.Base.{◌==◌, if◌then◌else◌, ◌>>=◌, Bytes, strcmp, Option, none, some, List, [], ◌∷◌}
use ashd.Req.Head.{Hthead}
use ashd.Patplex.Match.{Pattern, Groups, findmatch}
use ashd.Patplex.Exec.{execmatch}

pub record Config (Regex Child : Type 0) : Type 0 where
  pub children : List (Bytes × Child)
  pub patterns : List (Pattern Regex)

unfoldable pub getchild : {Child : Type 0} → List (Bytes × Child) → Bytes → Option Child
getchild [] name = none
getchild ((n, ch) ∷ children) name =
    let later = getchild children name in if strcmp n name then some ch else later

-- What a round comes to: the error 404, the error 500 with the name of a child that is not
-- declared, a request that a child handles, one to be matched again, or a call of abort.
pub data Served (Regex Child : Type 0) : Type 0 where
  not_found : Served Regex Child
  undeclared : Bytes → Served Regex Child
  handled : Child → Hthead → Served Regex Child
  again : Pattern Regex → Hthead → Served Regex Child
  aborted : Served Regex Child

module _ {Regex Child : Type 0} where
  -- A child of the local configuration, or else of the global one.
  unfoldable pub find_child :
      Config Regex Child → Option (Config Regex Child) → Bytes → Option Child
  unfolding getchild
  find_child lconfig gconfig name = elim (getchild lconfig.children name) [
    | some ch ↦ some ch
    | none ↦ elim gconfig [ none ↦ none | some cf ↦ getchild cf.children name ]
  ]

  -- The switch. A pattern with a child has the name of one.
  unfoldable pub dispatch :
      Config Regex Child → Option (Config Regex Child) → Pattern Regex → Hthead → Served Regex Child
  unfolding find_child
  dispatch lconfig gconfig pat req =
      if pat.handler == 1
      then elim pat.childnm [
        | none ↦ aborted
        | some name ↦ elim (find_child lconfig gconfig name) [
          | none ↦ undeclared name
          | some ch ↦ handled ch req
        ]
      ]
      else if pat.handler == 2
      then again pat req
      else aborted

  module _ (regexec : Regex → Bytes → Option Groups) where
    unfoldable pub serve_round :
        Config Regex Child → Option (Config Regex Child) → Hthead → Option (Served Regex Child)
    unfolding dispatch
    serve_round lconfig gconfig req = do
      local ← findmatch regexec lconfig.patterns req none
      found ← elim gconfig [ none ↦ some local | some cf ↦ findmatch regexec cf.patterns req local ]
      elim found [
        | none ↦ some not_found
        | some match ↦ do req' ← execmatch req match; some (dispatch lconfig gconfig match.pat req')
      ]
