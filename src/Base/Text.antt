-- ===== src/Base/Text.antt =====
-- Bytes are numbers below 256. A C string is the list of its bytes before the NUL. The tests are
-- those of <ctype.h> and <strings.h> in the C locale.
use Prim.Native.Nat.{ℕ, ◌+◌, ◌<◌}
use Prim.Native.Char.{code}
use Prim.Native.String.{String}
use mathlib.Core.Path.{◌≡◌, refl, sym, ◌∙◌}
use mathlib.Core.Logic.{◌↔◌, ◌≢◌}
use mathlib.Core.Bool.{Bool, true, false, ◌&&◌, ◌||◌}
use mathlib.Core.List.{List, [], ◌∷◌}
use mathlib.Core.Option.{Option, none, some}
use native.Mathlib.Omega.{arith}
use ashd.Base.Tests.{leb, ◌==◌, if◌then◌else◌}
use ashd.Base.Lists.{All}

abbrev pub Bytes : Type 0
Bytes = List ℕ

-- The bytes of an ASCII literal.
abbrev pub codes : String → Bytes
codes String.[] = []
codes (String.◌∷◌ c s) = code c ∷ codes s

abbrev pub IsByte : ℕ → Type 0
IsByte c = c < 256

-- A string that C can hold: no byte of it is the terminator.
abbrev pub IsCstr : Bytes → Type 0
IsCstr = All (λ c. c ≢ 0)

-- The C string that a buffer holds: what stands before the first NUL.
abbrev pub cstr : Bytes → Bytes
cstr [] = []
cstr (c ∷ s) = if c == 0 then [] else c ∷ cstr s

-- isspace(3).
abbrev pub isspace : ℕ → Bool
isspace c = c == 32 || (leb 9 c && leb c 13)

-- tolower(3).
abbrev pub tolower : ℕ → ℕ
tolower c = if leb b'A' c && leb c b'Z' then c + 32 else c

-- `!strcmp(a, b)`.
unfoldable pub strcmp : Bytes → Bytes → Bool
strcmp [] [] = true
strcmp (x ∷ a) (y ∷ b) = x == y && strcmp a b
strcmp _ _ = false

-- `!strcasecmp(a, b)`.
unfoldable pub strcasecmp : Bytes → Bytes → Bool
strcasecmp [] [] = true
strcasecmp (x ∷ a) (y ∷ b) = tolower x == tolower y && strcasecmp a b
strcasecmp _ _ = false

-- `!strncasecmp(a, b, strlen(b))`.
unfoldable pub has_prefix_ci : Bytes → Bytes → Bool
has_prefix_ci a [] = true
has_prefix_ci [] (y ∷ b) = false
has_prefix_ci (x ∷ a) (y ∷ b) = tolower x == tolower y && has_prefix_ci a b

-- strchr(3): the text before the first `c`, and what stands behind it.
unfoldable pub split_at : ℕ → Bytes → Option (Bytes × Bytes)
split_at c [] = none
split_at c (x ∷ s) =
    if x == c
    then some ([], s)
    else elim (split_at c s) [ none ↦ none | some (a, b) ↦ some (x ∷ a, b) ]

-- Two tests that imply one another are equal.
pub bool_eq : (a b : Bool) → (a ≡ true → b ≡ true) → (b ≡ true → a ≡ true) → a ≡ b
bool_eq a b f g = ground arith

-- The bytes in lower case.
abbrev pub lower : Bytes → Bytes
lower [] = []
lower (c ∷ s) = tolower c ∷ lower s

pub strcmp_iff : (a b : Bytes) → (strcmp a b ≡ true) ↔ (a ≡ b)
unfolding strcmp
strcmp_iff (x ∷ a) (y ∷ b) = ground (arith, strcmp_iff a b)
strcmp_iff _ _ = ground arith

pub strcasecmp_iff : (a b : Bytes) → (strcasecmp a b ≡ true) ↔ (lower a ≡ lower b)
unfolding strcasecmp
strcasecmp_iff [] [] = ground arith
strcasecmp_iff [] (y ∷ b) = ground arith
strcasecmp_iff (x ∷ a) [] = ground arith
strcasecmp_iff (x ∷ a) (y ∷ b) =
    go (tolower x) (tolower y) (lower a) (lower b) (strcasecmp a b) (strcasecmp_iff a b)
  where
    go :
        (p q : ℕ) (u v : Bytes) (t : Bool)
        → (t ≡ true) ↔ (u ≡ v)
        → ((p == q && t) ≡ true) ↔ (p ∷ u ≡ q ∷ v)
    go p q u v t h = ground arith

-- Two names that `strcasecmp` takes for one are alike for it in every other comparison.
pub strcasecmp_congr : (a b c : Bytes) → strcasecmp a b ≡ true → strcasecmp a c ≡ strcasecmp b c
strcasecmp_congr a b c h =
    let e = (strcasecmp_iff a b).0 h in
    let ac = strcasecmp_iff a c in
    let bc = strcasecmp_iff b c in
    bool_eq (strcasecmp a c) (strcasecmp b c) (λ p. bc.1 (sym e ∙ ac.0 p)) (λ p. ac.1 (e ∙ bc.0 p))

pub strcasecmp_congr_right :
    (c a b : Bytes) → strcasecmp a b ≡ true → strcasecmp c a ≡ strcasecmp c b
strcasecmp_congr_right c a b h =
    let e = (strcasecmp_iff a b).0 h in
    let ca = strcasecmp_iff c a in
    let cb = strcasecmp_iff c b in
    bool_eq (strcasecmp c a) (strcasecmp c b) (λ p. cb.1 (ca.0 p ∙ e)) (λ p. ca.1 (cb.0 p ∙ sym e))

pub has_prefix_ci_congr :
    (a b p : Bytes) → lower a ≡ lower b → has_prefix_ci a p ≡ has_prefix_ci b p
unfolding has_prefix_ci
has_prefix_ci_congr a b [] h = refl
has_prefix_ci_congr [] [] (y ∷ p) h = refl
has_prefix_ci_congr [] (x ∷ b) (y ∷ p) h = cc
has_prefix_ci_congr (x ∷ a) [] (y ∷ p) h = cc
has_prefix_ci_congr (x ∷ a) (x' ∷ b) (y ∷ p) h =
    let head : tolower x ≡ tolower x' = cc in
    let tail : lower a ≡ lower b = cc in rw (head, has_prefix_ci_congr a b p tail)

pub cstr_self : (s : Bytes) → IsCstr s → cstr s ≡ s
cstr_self [] h = refl
cstr_self (c ∷ s) (h, hs) = ground (arith, cstr_self s hs)
