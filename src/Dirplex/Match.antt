-- ===== src/Dirplex/Match.antt =====
-- src/dirplex/conf.c getconfigs, findchild and findmatch. What getconfig reads of a directory, with
-- its cache, is a parameter, and so are the file system and fnmatch.
use ashd.Base.{
  ◌==◌, if◌then◌else◌, length, take, drop, Bytes, codes, strcmp, split_at, ℕ, ◌+◌, Bool, true,
  false, ◌&&◌, ◌||◌, Option, none, some, List, [], ◌∷◌, ◌++◌,
}
use ashd.Req.Head.{Header}

pub data RuleType : Type 0 where
  basename pathname all default local : RuleType

pub record Rule : Type 0 where
  pub type : RuleType
  pub patterns : List Bytes

pub data PatternType : Type 0 where
  file dir notfound : PatternType

abbrev pub same_type : PatternType → PatternType → Bool
same_type file file = true
same_type dir dir = true
same_type notfound notfound = true
same_type _ _ = false

pub record Pattern : Type 0 where
  pub type : PatternType
  pub headers : List Header
  pub childnm : Bytes
  pub fchild : Option (List Bytes)
  pub rules : List Rule

-- `struct config`; of a child its name.
pub record Config : Type 0 where
  pub path : Option Bytes
  pub children : List Bytes
  pub patterns : List Pattern
  pub index : Option (List Bytes)
  pub dotallow : Option (List Bytes)
  pub capture : Option Bytes
  pub reparse : Option Bytes
  pub caproot : Bool
  pub parsecomb : Bool

pub data Kind : Type 0 where
  regular directory special : Kind

-- What dirplex asks of the system: the configuration that a directory has, the two that are given
-- at its start, stat(2), the names that a directory holds, and fnmatch(3) with and without
-- FNM_PATHNAME.
pub record World : Type 0 where
  pub getconfig : Bytes → Option Config
  pub lconfig : Option Config
  pub gconfig : Option Config
  pub stat : Bytes → Option Kind
  pub readdir : Bytes → Option (List Bytes)
  pub fnmatch : Bytes → Bytes → Bool
  pub fnmatch_path : Bytes → Bytes → Bool

-- `if(!strncmp(path, "./", 2)) path += 2`.
unfoldable pub strip_dot : Bytes → Bytes
strip_dot [] = []
strip_dot (c ∷ []) = c ∷ []
strip_dot (c ∷ d ∷ path) = if c == b'.' && d == b'/' then path else c ∷ d ∷ path

abbrev put_before : ℕ → List Bytes → List Bytes
put_before c [] = []
put_before c (p ∷ ps) = (c ∷ p) ∷ put_before c ps

-- What stands in front of each slash, the longest first: the loop with strrchr.
unfoldable pub parents : Bytes → List Bytes
parents [] = []
parents (c ∷ path) = put_before c (parents path) ++ (if c == b'/' then [] ∷ [] else [])

abbrev pub if_there : Option Config → List Config
if_there none = []
if_there (some cf) = cf ∷ []

unfoldable pub read_configs : World → List Bytes → List Config
read_configs w [] = []
read_configs w (p ∷ ps) = if_there (w.getconfig p) ++ read_configs w ps

unfoldable pub getconfigs : World → Bytes → List Config
unfolding strip_dot parents read_configs
getconfigs w path =
    read_configs w (parents (strip_dot path))
    ++ (if_there (w.getconfig (b'.' ∷ [])) ++ (if_there w.lconfig ++ if_there w.gconfig))

-- strrchr: what stands behind the last slash, or all of it.
unfoldable pub base_name : Bytes → Bytes
base_name [] = []
base_name (c ∷ path) =
    let later = base_name path in
    elim (split_at b'/' (c ∷ path)) [
      | none ↦ c ∷ path
      | some _ ↦ elim (split_at b'/' path) [ none ↦ path | some _ ↦ later ]
    ]

-- The file, as the configuration of a directory above it names it.
unfoldable pub local_name : Config → Bytes → Bytes
unfolding strcmp
local_name cf path = elim cf.path [
  | none ↦ path
  | some above ↦
      if strcmp (take (length above + 1) path) (above ++ b'/' ∷ [])
      then drop (length above + 1) path
      else path
]

unfoldable pub any_of : (Bytes → Bool) → List Bytes → Bool
any_of test [] = false
any_of test (p ∷ ps) = test p || any_of test ps

unfoldable pub rule_holds : World → Rule → Bytes → Bytes → Bool → Bool
unfolding any_of
rule_holds w rule bn ln trydefault = elim rule.type [
  | basename ↦ any_of (λ p. w.fnmatch p bn) rule.patterns
  | pathname ↦ any_of (λ p. w.fnmatch_path p ln) rule.patterns
  | all ↦ true
  | default ↦ trydefault
  | local ↦ elim (split_at b'/' ln) [ none ↦ true | some _ ↦ false ]
]

unfoldable pub rules_hold : World → List Rule → Bytes → Bytes → Bool → Bool
unfolding rule_holds
rules_hold w [] bn ln trydefault = true
rules_hold w (rule ∷ rules) bn ln trydefault =
    rule_holds w rule bn ln trydefault && rules_hold w rules bn ln trydefault

-- The patterns of one configuration.
unfoldable pub first_pattern :
    World → List Pattern → Bytes → Bytes → Bool → PatternType → Option Pattern
unfolding rules_hold
first_pattern w [] bn ln trydefault type = none
first_pattern w (pat ∷ pats) bn ln trydefault type =
    if same_type pat.type type && rules_hold w pat.rules bn ln trydefault
    then some pat
    else first_pattern w pats bn ln trydefault type

-- The loop over the configurations.
unfoldable pub match_in : World → List Config → Bytes → Bool → PatternType → Option Pattern
unfolding first_pattern base_name local_name
match_in w [] path trydefault type = none
match_in w (cf ∷ cfs) path trydefault type =
    elim (first_pattern w cf.patterns (base_name path) (local_name cf path) trydefault type) [
      | some pat ↦ some pat
      | none ↦ match_in w cfs path trydefault type
    ]

-- `findmatch(file, 0, type)`: without the default rules, and then with them.
unfoldable pub findmatch : World → Bytes → PatternType → Option Pattern
unfolding getconfigs match_in
findmatch w path type = elim (match_in w (getconfigs w path) path false type) [
  | some pat ↦ some pat
  | none ↦ match_in w (getconfigs w path) path true type
]

-- getchild and findchild: the first configuration that declares the child.
unfoldable pub declares : List Bytes → Bytes → Bool
unfolding strcmp
declares [] name = false
declares (c ∷ cs) name = strcmp c name || declares cs name

unfoldable pub find_declared : List Config → Bytes → Option Config
unfolding declares
find_declared [] name = none
find_declared (cf ∷ cfs) name =
    if declares cf.children name then some cf else find_declared cfs name

-- The child, and the configuration that declares it; `.notfound` needs none.
unfoldable pub findchild : World → Bytes → Bytes → Option (Option Config)
unfolding getconfigs find_declared strcmp
findchild w path name = elim (find_declared (getconfigs w path) name) [
  | some cf ↦ some (some cf)
  | none ↦ if strcmp name (codes ".notfound") then some none else none
]
