-- ===== src/Utils/Btree/Sorted.antt =====
-- What the tree stands for: a sorted list without duplicates, with insertion, lookup and removal.
use Prim.Native.Nat.{Ordering}
use ashd.Base.{All, ◌≡◌, refl, ap, ◌∙◌, ◌≢◌, Option, none, some, List, [], ◌∷◌, ◌++◌, arith}

-- What a comparison function must be for the tree to make sense of it.
pub record IsOrder {ℓ} {A : Type ℓ} (cmp : A → A → Ordering) : Type ℓ where
  pub flip_lt : (a b : A) → cmp a b ≡ Ordering.lt → cmp b a ≡ Ordering.gt
  pub flip_gt : (a b : A) → cmp a b ≡ Ordering.gt → cmp b a ≡ Ordering.lt
  pub trans_lt : (a b c : A) → cmp a b ≡ Ordering.lt → cmp b c ≡ Ordering.lt → cmp a c ≡ Ordering.lt
  pub same : (a b c : A) → cmp a b ≡ Ordering.eq → cmp a c ≡ cmp b c

module _ {ℓ} {A : Type ℓ} (cmp : A → A → Ordering) where
  abbrev pub Below : A → List A → Type 0
  Below x = All (λ y. cmp x y ≡ Ordering.lt)

  abbrev pub Ordered : List A → Type 0
  Ordered [] = Unit
  Ordered (x ∷ xs) = Below x xs × Ordered xs

  unfoldable pub insert : A → List A → List A
  insert x [] = x ∷ []
  insert x (e ∷ es) =
      let rest = insert x es in
      elim (cmp x e) [ Ordering.lt ↦ x ∷ e ∷ es | Ordering.eq ↦ e ∷ es | Ordering.gt ↦ e ∷ rest ]

  unfoldable pub find : A → List A → Option A
  find x [] = none
  find x (e ∷ es) =
      let rest = find x es in
      elim (cmp x e) [ Ordering.lt ↦ none | Ordering.eq ↦ some e | Ordering.gt ↦ rest ]

  unfoldable pub remove : A → List A → List A
  remove x [] = []
  remove x (e ∷ es) =
      let rest = remove x es in
      elim (cmp x e) [ Ordering.lt ↦ e ∷ es | Ordering.eq ↦ es | Ordering.gt ↦ e ∷ rest ]

  abbrev pub Above : A → List A → Type 0
  Above x = All (λ y. cmp x y ≡ Ordering.gt)

  -- Behind smaller items.
  pub walk_past :
      (x : A) (xs ys : List A)
      → Above x xs
      → (insert x (xs ++ ys) ≡ xs ++ insert x ys)
        × (find x (xs ++ ys) ≡ find x ys)
        × (remove x (xs ++ ys) ≡ xs ++ remove x ys)
  unfolding insert find remove
  walk_past x [] ys h = (refl, refl, refl)
  walk_past x (e ∷ xs) ys (h, hs) =
      let (i, f, r) = walk_past x xs ys hs in rw h (ap (◌∷◌ e) i, f, ap (◌∷◌ e) r)

  -- In front of a greater item.
  pub below_append :
      (x d : A) (xs ys : List A)
      → cmp x d ≡ Ordering.lt
      → (insert x (xs ++ d ∷ ys) ≡ insert x xs ++ d ∷ ys)
        × (find x (xs ++ d ∷ ys) ≡ find x xs)
        × (remove x (xs ++ d ∷ ys) ≡ remove x xs ++ d ∷ ys)
  unfolding insert find remove
  below_append x d [] ys h = rw h (refl, refl, refl)
  below_append x d (e ∷ xs) ys h =
      let (i, f, r) = below_append x d xs ys h in go (cmp x e) refl i f r
    where
      go :
          (o : Ordering)
          → cmp x e ≡ o
          → insert x (xs ++ d ∷ ys) ≡ insert x xs ++ d ∷ ys
          → find x (xs ++ d ∷ ys) ≡ find x xs
          → remove x (xs ++ d ∷ ys) ≡ remove x xs ++ d ∷ ys
          → (insert x (e ∷ xs ++ d ∷ ys) ≡ insert x (e ∷ xs) ++ d ∷ ys)
            × (find x (e ∷ xs ++ d ∷ ys) ≡ find x (e ∷ xs))
            × (remove x (e ∷ xs ++ d ∷ ys) ≡ remove x (e ∷ xs) ++ d ∷ ys)
      go Ordering.lt c i f r = (ground arith, ground arith, ground arith)
      go Ordering.eq c i f r = (ground arith, ground arith, ground arith)
      go Ordering.gt c i f r = (ground arith, ground arith, ground arith)

  -- The parts of an ordered list.
  pub Ordered-parts :
      (xs : List A) (d : A) (ys : List A)
      → Ordered (xs ++ d ∷ ys)
      → Ordered xs × All (λ e. cmp e d ≡ Ordering.lt) xs × Below d ys × Ordered ys
  Ordered-parts [] d ys (b, o) = (tt, tt, b, o)
  Ordered-parts (x ∷ xs) d ys (b, o) =
      let (ox, lx, by, oy) = Ordered-parts xs d ys o in
      let (bx, bd) = split xs ys b in ((bx, ox), (bd, lx), by, oy)
    where
      split : (xs ys : List A) → Below x (xs ++ d ∷ ys) → Below x xs × (cmp x d ≡ Ordering.lt)
      split [] ys (h, _) = (tt, h)
      split (e ∷ xs) ys (h, hs) = let (t, l) = split xs ys hs in ((h, t), l)

  module _ (order : IsOrder cmp) where
    -- An item that is not below `d` is above what is below `d`.
    pub Above-append :
        (x d : A) (xs : List A)
        → cmp x d ≢ Ordering.lt
        → All (λ e. cmp e d ≡ Ordering.lt) xs
        → Above x xs
    Above-append x d [] h _ = tt
    Above-append x d (e ∷ xs) h (l, ls) = (one (cmp x d) refl, Above-append x d xs h ls)
      where
        one : (o : Ordering) → cmp x d ≡ o → cmp x e ≡ Ordering.gt
        one Ordering.lt c = absurd (h c)
        one Ordering.eq c = order.same x d e c ∙ order.flip_lt e d l
        one Ordering.gt c = order.flip_lt e x (order.trans_lt e d x l (order.flip_gt x d c))

    -- What the three operations do at an item in the middle of an ordered list.
    abbrev pub Middle : Ordering → A → List A → A → List A → Type ℓ
    Middle Ordering.lt x xs d ys =
        (insert x (xs ++ d ∷ ys) ≡ insert x xs ++ d ∷ ys)
        × (find x (xs ++ d ∷ ys) ≡ find x xs)
        × (remove x (xs ++ d ∷ ys) ≡ remove x xs ++ d ∷ ys)
    Middle Ordering.eq x xs d ys =
        (insert x (xs ++ d ∷ ys) ≡ xs ++ d ∷ ys)
        × (find x (xs ++ d ∷ ys) ≡ some d)
        × (remove x (xs ++ d ∷ ys) ≡ xs ++ ys)
    Middle Ordering.gt x xs d ys =
        (insert x (xs ++ d ∷ ys) ≡ xs ++ d ∷ insert x ys)
        × (find x (xs ++ d ∷ ys) ≡ find x ys)
        × (remove x (xs ++ d ∷ ys) ≡ xs ++ d ∷ remove x ys)

    here_or_behind :
        (x d : A) (ys : List A)
        → (cmp x d ≡ Ordering.eq
            → (insert x (d ∷ ys) ≡ d ∷ ys) × (find x (d ∷ ys) ≡ some d) × (remove x (d ∷ ys) ≡ ys))
          × (cmp x d ≡ Ordering.gt
              → (insert x (d ∷ ys) ≡ d ∷ insert x ys)
                × (find x (d ∷ ys) ≡ find x ys)
                × (remove x (d ∷ ys) ≡ d ∷ remove x ys))
    unfolding insert find remove
    here_or_behind x d ys = (
      λ e. (ground arith, ground arith, ground arith),
      λ e. (ground arith, ground arith, ground arith),
    )

    pub middle :
        (o : Ordering) (x : A) (xs : List A) (d : A) (ys : List A)
        → cmp x d ≡ o
        → Ordered (xs ++ d ∷ ys)
        → Middle o x xs d ys
    middle Ordering.lt x xs d ys c o = below_append x d xs ys c
    middle Ordering.eq x xs d ys c o =
        let (_, ls, _, _) = Ordered-parts xs d ys o in
        let (i, f, r) = walk_past x xs (d ∷ ys) (Above-append x d xs (cc) ls) in
        let (i', f', r') = (here_or_behind x d ys).0 c in
        (i ∙ ap (λ zs. xs ++ zs) i', f ∙ f', r ∙ ap (λ zs. xs ++ zs) r')
    middle Ordering.gt x xs d ys c o =
        let (_, ls, _, _) = Ordered-parts xs d ys o in
        let (i, f, r) = walk_past x xs (d ∷ ys) (Above-append x d xs (cc) ls) in
        let (i', f', r') = (here_or_behind x d ys).1 c in
        (i ∙ ap (λ zs. xs ++ zs) i', f ∙ f', r ∙ ap (λ zs. xs ++ zs) r')
