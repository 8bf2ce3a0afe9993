-- ===== src/Utils/Btree/Lookup.antt =====
-- What a lookup finds after `bbtreeput` and after `bbtreedel`.
use Prim.Native.Nat.{Ordering}
use ashd.Base.{◌≡◌, refl, sym, ap, ◌∙◌, ◌≢◌, Option, none, some, List, [], ◌∷◌, arith}
use ashd.Utils.Btree.{Btree, bbtreeput, btreeget, bbtreedel}
use ashd.Utils.Btree.Sorted.{IsOrder, Below, Ordered, insert, find, remove}
use ashd.Utils.Btree.Items.{items, btreeget-find, items-bbtreeput, items-bbtreedel}

module _ {ℓ} {A : Type ℓ} (cmp : A → A → Ordering) (order : IsOrder cmp) where
  Below-insert :
      (a x : A) (xs : List A)
      → cmp a x ≡ Ordering.lt
      → Below cmp a xs
      → Below cmp a (insert cmp x xs)
  unfolding insert
  Below-insert a x [] h b = (h, tt)
  Below-insert a x (e ∷ es) h (b, bs) = go (cmp x e) (Below-insert a x es h bs)
    where
      go :
          (o : Ordering)
          → Below cmp a (insert cmp x es)
          → Below cmp a (elim o [
            | Ordering.lt ↦ x ∷ e ∷ es
            | Ordering.eq ↦ e ∷ es
            | Ordering.gt ↦ e ∷ insert cmp x es
          ])
      go Ordering.lt ih = (h, (b, bs))
      go Ordering.eq ih = (b, bs)
      go Ordering.gt ih = (b, ih)

  Below-trans : (a b : A) (xs : List A) → cmp a b ≡ Ordering.lt → Below cmp b xs → Below cmp a xs
  Below-trans a b [] h _ = tt
  Below-trans a b (x ∷ xs) h (l, ls) = (order.trans_lt a b x h l, Below-trans a b xs h ls)

  Ordered-insert : (x : A) (xs : List A) → Ordered cmp xs → Ordered cmp (insert cmp x xs)
  unfolding insert
  Ordered-insert x [] o = (tt, tt)
  Ordered-insert x (e ∷ es) (b, o) = go (cmp x e) refl (Ordered-insert x es o)
    where
      go :
          (c : Ordering)
          → cmp x e ≡ c
          → Ordered cmp (insert cmp x es)
          → Ordered cmp (elim c [
            | Ordering.lt ↦ x ∷ e ∷ es
            | Ordering.eq ↦ e ∷ es
            | Ordering.gt ↦ e ∷ insert cmp x es
          ])
      go Ordering.lt c ih = ((c, Below-trans x e es c b), (b, o))
      go Ordering.eq c ih = (b, o)
      go Ordering.gt c ih = (Below-insert e x es (order.flip_gt x e c) b, ih)

  Below-remove : (a x : A) (xs : List A) → Below cmp a xs → Below cmp a (remove cmp x xs)
  unfolding remove
  Below-remove a x [] b = tt
  Below-remove a x (e ∷ es) (b, bs) = go (cmp x e) (Below-remove a x es bs)
    where
      go :
          (o : Ordering)
          → Below cmp a (remove cmp x es)
          → Below cmp a (elim o [
            | Ordering.lt ↦ e ∷ es
            | Ordering.eq ↦ es
            | Ordering.gt ↦ e ∷ remove cmp x es
          ])
      go Ordering.lt ih = (b, bs)
      go Ordering.eq ih = bs
      go Ordering.gt ih = (b, ih)

  Ordered-remove : (x : A) (xs : List A) → Ordered cmp xs → Ordered cmp (remove cmp x xs)
  unfolding remove
  Ordered-remove x [] o = tt
  Ordered-remove x (e ∷ es) (b, o) = go (cmp x e) (Ordered-remove x es o)
    where
      go :
          (c : Ordering)
          → Ordered cmp (remove cmp x es)
          → Ordered cmp (elim c [
            | Ordering.lt ↦ e ∷ es
            | Ordering.eq ↦ es
            | Ordering.gt ↦ e ∷ remove cmp x es
          ])
      go Ordering.lt ih = (b, o)
      go Ordering.eq ih = o
      go Ordering.gt ih = (Below-remove e x es b, ih)

  find-Below : (y : A) (xs : List A) → Below cmp y xs → find cmp y xs ≡ none
  unfolding find
  find-Below y [] b = refl
  find-Below y (e ∷ es) (b, bs) = rw (b, find)

  -- The item that a lookup of `x` finds once `x` is in.
  abbrev pub found_or : Option A → A → A
  found_or none x = x
  found_or (some d) x = d

  find-insert_same :
      (x y : A) (xs : List A)
      → cmp y x ≡ Ordering.eq
      → find cmp y (insert cmp x xs) ≡ some (found_or (find cmp x xs) x)
  unfolding find insert
  find-insert_same x y [] h = rw h
  find-insert_same x y (e ∷ es) h =
      go (cmp x e) refl (order.same y x e h) (find-insert_same x y es h)
    where
      go :
          (c : Ordering)
          → cmp x e ≡ c
          → cmp y e ≡ cmp x e
          → find cmp y (insert cmp x es) ≡ some (found_or (find cmp x es) x)
          → find cmp y (insert cmp x (e ∷ es)) ≡ some (found_or (find cmp x (e ∷ es)) x)
      go Ordering.lt c s ih = ground arith
      go Ordering.eq c s ih = ground arith
      go Ordering.gt c s ih = ground arith

  find-insert_other :
      (x y : A) (xs : List A) → cmp y x ≢ Ordering.eq → find cmp y (insert cmp x xs) ≡ find cmp y xs
  unfolding find insert
  find-insert_other x y [] h = ground arith
  find-insert_other x y (e ∷ es) h = go (cmp x e) (cmp y x) refl refl (find-insert_other x y es h)
    where
      go :
          (c q : Ordering)
          → cmp x e ≡ c
          → cmp y x ≡ q
          → find cmp y (insert cmp x es) ≡ find cmp y es
          → find cmp y (insert cmp x (e ∷ es)) ≡ find cmp y (e ∷ es)
      go Ordering.lt Ordering.lt c q ih = let l = order.trans_lt y x e q c in ground arith
      go Ordering.lt Ordering.eq c q ih = absurd (h q)
      go Ordering.lt Ordering.gt c q ih = ground arith
      go Ordering.eq q' c q ih = ground arith
      go Ordering.gt q' c q ih = ground arith

  Below-same : (a b : A) (xs : List A) → cmp a b ≡ Ordering.eq → Below cmp b xs → Below cmp a xs
  Below-same a b [] h _ = tt
  Below-same a b (x ∷ xs) h (l, ls) = (order.same a b x h ∙ l, Below-same a b xs h ls)

  same_sym : (a b : A) → cmp a b ≡ Ordering.eq → cmp b a ≡ Ordering.eq
  same_sym a b h = go (cmp b a) refl
    where
      go : (o : Ordering) → cmp b a ≡ o → cmp b a ≡ Ordering.eq
      go Ordering.lt c = let g = order.flip_lt b a c in cc
      go Ordering.eq c = c
      go Ordering.gt c = let g = order.flip_gt b a c in cc

  find-remove_same :
      (x y : A) (xs : List A)
      → cmp y x ≡ Ordering.eq
      → Ordered cmp xs
      → find cmp y (remove cmp x xs) ≡ none
  unfolding find remove
  find-remove_same x y [] h o = refl
  find-remove_same x y (e ∷ es) h (b, o) =
      go (cmp x e) refl (order.same y x e h) (find-remove_same x y es h o)
    where
      go :
          (c : Ordering)
          → cmp x e ≡ c
          → cmp y e ≡ cmp x e
          → find cmp y (remove cmp x es) ≡ none
          → find cmp y (remove cmp x (e ∷ es)) ≡ none
      go Ordering.lt c s ih = ground arith
      go Ordering.eq c s ih =
          ground (arith, find-Below y es (Below-same y x es h (Below-same x e es c b)))
      go Ordering.gt c s ih = ground arith

  find-remove_other :
      (x y : A) (xs : List A)
      → cmp y x ≢ Ordering.eq
      → Ordered cmp xs
      → find cmp y (remove cmp x xs) ≡ find cmp y xs
  unfolding find remove
  find-remove_other x y [] h o = refl
  find-remove_other x y (e ∷ es) h (b, o) =
      go (cmp x e) (cmp y e) refl refl (find-remove_other x y es h o)
    where
      go :
          (c q : Ordering)
          → cmp x e ≡ c
          → cmp y e ≡ q
          → find cmp y (remove cmp x es) ≡ find cmp y es
          → find cmp y (remove cmp x (e ∷ es)) ≡ find cmp y (e ∷ es)
      go Ordering.lt q' c q ih = ground arith
      go Ordering.eq Ordering.lt c q ih = ground (arith, find-Below y es (Below-trans y e es q b))
      go Ordering.eq Ordering.eq c q ih = absurd (h (order.same y e x q ∙ same_sym x e c))
      go Ordering.eq Ordering.gt c q ih = ground arith
      go Ordering.gt q' c q ih = ground arith

  -- `bbtreeput` of `x` in an ordered tree gives an ordered tree. There a key that compares equal
  -- to `x` finds the item that the tree had for `x`, or `x` if it had none, and any other key finds
  -- what it found before.
  pub btreeget-bbtreeput :
      (t : Btree A) (x : A)
      → Ordered cmp (items t)
      → Ordered cmp (items (bbtreeput cmp t x).0)
        × ((y : A)
            → (cmp y x ≡ Ordering.eq
                → btreeget cmp (bbtreeput cmp t x).0 y ≡ some (found_or (btreeget cmp t x) x))
              × (cmp y x ≢ Ordering.eq → btreeget cmp (bbtreeput cmp t x).0 y ≡ btreeget cmp t y))
  btreeget-bbtreeput t x o =
      let e = items-bbtreeput cmp order t x o in
      let ordered : Ordered cmp (items (bbtreeput cmp t x).0) =
        rw e (Ordered-insert x (items t) o) in
      (
        ordered,
        λ y.
            let got = btreeget-find cmp order (bbtreeput cmp t x).0 y ordered ∙ ap (find cmp y) e in
            (
              λ h.
                  got
                  ∙ find-insert_same x y (items t) h
                  ∙ ap (λ f. some (found_or f x)) (sym (btreeget-find cmp order t x o)),
              λ h. got ∙ find-insert_other x y (items t) h ∙ sym (btreeget-find cmp order t y o),
            ),
      )

  -- `bbtreedel` of `x` from an ordered tree gives an ordered tree. There a key that compares equal
  -- to `x` finds nothing, and any other key finds what it found before.
  pub btreeget-bbtreedel :
      (t : Btree A) (x : A)
      → Ordered cmp (items t)
      → Ordered cmp (items (bbtreedel cmp t x).0)
        × ((y : A)
            → (cmp y x ≡ Ordering.eq → btreeget cmp (bbtreedel cmp t x).0 y ≡ none)
              × (cmp y x ≢ Ordering.eq → btreeget cmp (bbtreedel cmp t x).0 y ≡ btreeget cmp t y))
  btreeget-bbtreedel t x o =
      let e = items-bbtreedel cmp order t x o in
      let ordered : Ordered cmp (items (bbtreedel cmp t x).0) =
        rw e (Ordered-remove x (items t) o) in
      (
        ordered,
        λ y.
            let got = btreeget-find cmp order (bbtreedel cmp t x).0 y ordered ∙ ap (find cmp y) e in
            (
              λ h. got ∙ find-remove_same x y (items t) h o,
              λ h. got ∙ find-remove_other x y (items t) h o ∙ sym (btreeget-find cmp order t y o),
            ),
      )
