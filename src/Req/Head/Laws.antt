-- ===== src/Req/Head/Laws.antt =====
-- Headers are found and removed by name, whatever the case of its letters.
use ashd.Base.{
  strcasecmp_congr_right, if◌then◌else◌, Bool-cases, Bytes, strcasecmp, strcasecmp_congr, ◌≡◌, refl,
  sym, ap, ◌∙◌, inl, inr, Bool, true, false, Option, none, some, List, [], ◌∷◌, ◌++◌, arith,
}
use ashd.Req.Head.{
  Header, Hthead, find_header, getheader, headpreheader, headappheader, remove_header, headrmheader,
}

-- The first of two results that is there.
abbrev pub or_else : Option Bytes → Option Bytes → Option Bytes
or_else (some w) d = some w
or_else none d = d

pub or_else-none : (o : Option Bytes) → or_else o none ≡ o
or_else-none none = refl
or_else-none (some w) = refl

pick :
    (t : Bool) (r l g : Option Bytes) (v : Bytes)
    → (t ≡ true → r ≡ l)
    → (t ≡ false → r ≡ g)
    → or_else r (if t then some v else none) ≡ (if t then or_else l (some v) else g)
pick true r l g v f h = ap (λ o. or_else o (some v)) (f refl)
pick false r l g v f h = or_else-none r ∙ h refl

pub find_header-append :
    (m n v : Bytes) (hs : List Header)
    → find_header m (hs ++ (n, v) ∷ [])
      ≡ or_else (find_header m hs) (if strcasecmp n m then some v else none)
unfolding find_header
find_header-append m n v [] = refl
find_header-append m n v ((k, w) ∷ hs) = ground (arith, find_header-append m n v hs)

-- A header that is appended is found by its name unless an older one has that name; every other
-- lookup is unchanged. A header put in front is found before the older ones.
pub getheader_added :
    (head : Hthead) (n v m : Bytes)
    → (getheader (headappheader head n v) m
        ≡ or_else (getheader head m) (if strcasecmp n m then some v else none))
      × (getheader (headpreheader head n v) m
          ≡ (if strcasecmp n m then some v else getheader head m))
unfolding getheader headappheader headpreheader
getheader_added head n v m = (find_header-append m n v head.headers, unfold find_header in refl)

pub find_header-remove :
    (m n : Bytes) (hs : List Header)
    → strcasecmp n m ≡ false
    → find_header m (remove_header n hs) ≡ find_header m hs
unfolding find_header remove_header
find_header-remove m n [] h = refl
find_header-remove m n ((k, w) ∷ hs) h = elim (Bool-cases (strcasecmp k n)) [
  | inl e ↦ rw e (rw (strcasecmp_congr k n m e ∙ h))
  | inr e ↦ rw e (ground (arith, find_header-remove m n hs h))
]

-- The headers behind the first with this name.
unfoldable pub later : Bytes → List Header → List Header
later name [] = []
later name ((n, v) ∷ hs) = if strcasecmp n name then hs else later name hs

find_header-remove_self :
    (n m : Bytes) (hs : List Header)
    → strcasecmp n m ≡ true
    → find_header m (remove_header n hs) ≡ find_header m (later n hs)
unfolding find_header remove_header later
find_header-remove_self n m [] h = refl
find_header-remove_self n m ((k, w) ∷ hs) h = elim (Bool-cases (strcasecmp k n)) [
  | inl e ↦ rw e
  | inr e ↦
      let differs : strcasecmp k m ≡ false = sym (strcasecmp_congr_right k n m h) ∙ e in
      rw (e, differs) (find_header-remove_self n m hs h)
]

-- `headrmheader` with `headappheader`, as `patplex` and `htparser` replace a header. A lookup of
-- another name is unchanged. A lookup of this name finds a header of this name that stood behind
-- the first one, if the request had two, and the new value if not.
pub getheader_replaced :
    (head : Hthead) (n v m : Bytes)
    → getheader (headappheader (headrmheader head n) n v) m ≡ (
        if strcasecmp n m
        then or_else (find_header m (later n head.headers)) (some v)
        else getheader head m)
unfolding getheader headappheader headrmheader
getheader_replaced head n v m =
    find_header-append m n v _
    ∙ pick (strcasecmp n m) _ _ _ v (find_header-remove_self n m head.headers)
        (find_header-remove m n head.headers)
