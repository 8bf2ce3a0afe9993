-- ===== src/Dirplex/Visible.antt =====
-- src/dirplex/dirplex.c checkaccess: the directories that the walk comes to without a dotallow.
use ashd.Base.{
  ◌==◌, length, All, Bytes, ◌<◌, ◌≡◌, ◌⊎◌, Bool, true, false, not, ◌&&◌, Option, none, some, [],
  ◌∷◌,
}
use ashd.Dirplex.Match.{World, getconfigs}
use ashd.Dirplex.Walk.{Answer, run, run_notfound, under, is_dot_name}
use ashd.Dirplex.Inside.{Inside, IsIndex}

-- No element of the path begins with a dot; `start` tells whether an element begins here.
unfoldable pub shows : Bool → Bytes → Bool
shows start [] = true
shows start (c ∷ s) = not (start && c == b'.') && shows (c == b'/') s

module _ (w : World) where
  -- No configuration has a dotallow.
  abbrev pub NoDotallow : Type 0
  NoDotallow = (path : Bytes) → All (λ cf. cf.dotallow ≡ none) (getconfigs w path)

  -- The directory that the walk is started in, or one of whose path no element begins with a dot.
  abbrev pub IsVisible : Bytes → Type 0
  IsVisible path = (path ≡ b'.' ∷ []) ⊎ ((0 < length path) × (shows true path ≡ true))

  -- A name in a visible directory, which is the directory itself, does not begin with a dot, or is
  -- one of its index.
  abbrev pub IsShown : Answer → Type 0
  IsShown (run pat path req) =
      (above : Bytes) × (name : Bytes) × (path ≡ under above name)
      × IsVisible above
      × ((is_dot_name name ≡ false) ⊎ IsIndex w above name)
  IsShown (run_notfound path req) =
      (above : Bytes) × (name : Bytes) × (path ≡ under above name)
      × IsVisible above
      × ((is_dot_name name ≡ false) ⊎ IsIndex w above name)
  IsShown _ = Unit

  abbrev pub AllShown : Option (Option Answer) → Type 0
  AllShown (some (some a)) = IsShown a
  AllShown _ = Unit
