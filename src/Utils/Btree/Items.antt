-- ===== src/Utils/Btree/Items.antt =====
-- The tree refines a sorted list: `bbtreeput`, `btreeget` and `bbtreedel` are its insertion,
-- lookup and removal.
use Prim.Native.Nat.{Ordering}
use ashd.Base.{
  ltb, if◌then◌else◌, ℕ, ◌≡◌, refl, sym, ap, ◌∙◌, Bool, true, false, List, [], ◌∷◌, ◌++◌,
  append-nil, append_assoc,
}
use ashd.Utils.Btree.{
  Btree, nil, node, btheight, left, right, btsetheight, lift_left, lift_right, bbtrr, bbtrl,
  lean_left, lean_right, rebalance, bbtreeput, btreeget, bbtreedel, unlink_least, settle,
  remove_root,
}
use ashd.Utils.Btree.Sorted.{IsOrder, Ordered, insert, find, remove, Middle, middle, Ordered-parts}

module _ {ℓ} {A : Type ℓ} where
  -- The items from left to right.
  abbrev pub items : Btree A → List A
  items nil = []
  items (node l h d r) = items l ++ d ∷ items r

  items-lift_left :
      (l : Btree A) (d : A) (r : Btree A) → items (lift_left l d r) ≡ items l ++ d ∷ items r
  items-lift_left nil d r = refl
  items-lift_left (node a h e m) d r = sym (append_assoc (items a) (e ∷ items m) (d ∷ items r))

  items-lift_right :
      (l : Btree A) (d : A) (r : Btree A) → items (lift_right l d r) ≡ items l ++ d ∷ items r
  items-lift_right l d nil = refl
  items-lift_right l d (node m h e b) = append_assoc (items l) (d ∷ items m) (e ∷ items b)

  pick_items : (b : Bool) (s t : Btree A) → items s ≡ items t → items (if b then s else t) ≡ items t
  pick_items true s t e = e
  pick_items false s t e = refl

  mutual
    unfolding bbtrr bbtrl

    items-bbtrr : (t : Btree A) → items (bbtrr t) ≡ items t
    items-bbtrr nil = refl
    items-bbtrr (node l h d r) =
        items-lift_left (if ltb (btheight (left l)) (btheight (right l)) then bbtrl l else l) d r
        ∙ ap (λ xs. xs ++ d ∷ items r)
            (pick_items (ltb (btheight (left l)) (btheight (right l))) (bbtrl l) l (items-bbtrl l))

    items-bbtrl : (t : Btree A) → items (bbtrl t) ≡ items t
    items-bbtrl nil = refl
    items-bbtrl (node l h d r) =
        items-lift_right l d (if ltb (btheight (right r)) (btheight (left r)) then bbtrr r else r)
        ∙ ap (λ xs. items l ++ d ∷ xs)
            (pick_items (ltb (btheight (right r)) (btheight (left r))) (bbtrr r) r (items-bbtrr r))

  items-lean_left : (t : Btree A) → items (lean_left t) ≡ items t
  unfolding lean_left
  items-lean_left t = pick_items _ (bbtrr t) t (items-bbtrr t)

  items-lean_right : (t : Btree A) → items (lean_right t) ≡ items t
  unfolding lean_right
  items-lean_right t = pick_items _ (bbtrl t) t (items-bbtrl t)

  items-rebalance :
      (l : Btree A) (d : A) (r : Btree A) → items (rebalance l d r) ≡ items l ++ d ∷ items r
  unfolding rebalance
  items-rebalance l d r =
      items-lean_right (lean_left (btsetheight l d r)) ∙ items-lean_left (btsetheight l d r)

  items-settle : (t : Btree A) → items (settle t) ≡ items t
  unfolding settle
  items-settle nil = refl
  items-settle (node l h d r) = items-rebalance l d r

  items-unlink_least :
      (l : Btree A) (h : ℕ) (d : A) (r : Btree A)
      → (unlink_least l h d r).0 ∷ items (unlink_least l h d r).1 ≡ items l ++ d ∷ items r
  unfolding unlink_least
  items-unlink_least nil h d r = refl
  items-unlink_least (node a k e b) h d r =
      ap (λ xs. xs ++ d ∷ items r) (items-unlink_least a k e b)

  items-remove_root : (l r : Btree A) → items (remove_root l r) ≡ items l ++ items r
  unfolding remove_root
  items-remove_root nil nil = refl
  items-remove_root (node a k e b) nil = sym (append-nil _)
  items-remove_root nil (node a k e b) = refl
  items-remove_root (node a k e b) (node a' k' e' b') =
      ap (λ xs. items (node a k e b) ++ xs) (items-unlink_least a' k' e' b')

module _ {ℓ} {A : Type ℓ} (cmp : A → A → Ordering) (order : IsOrder cmp) where
  find_step :
      (l : Btree A) (h : ℕ) (d : A) (r : Btree A) (key : A) (o : Ordering)
      → cmp key d ≡ o
      → Middle cmp order o key (items l) d (items r)
      → btreeget cmp l key ≡ find cmp key (items l)
      → btreeget cmp r key ≡ find cmp key (items r)
      → btreeget cmp (node l h d r) key ≡ find cmp key (items l ++ d ∷ items r)
  unfolding btreeget
  find_step l h d r key Ordering.lt c (_, f, _) el er = rw (c, btreeget, f) el
  find_step l h d r key Ordering.eq c (_, f, _) el er = rw (c, btreeget, f)
  find_step l h d r key Ordering.gt c (_, f, _) el er = rw (c, btreeget, f) er

  -- `btreeget` is the lookup in the sorted list.
  pub btreeget-find :
      (t : Btree A) (key : A) → Ordered cmp (items t) → btreeget cmp t key ≡ find cmp key (items t)
  btreeget-find nil key o = unfold find btreeget in refl
  btreeget-find (node l h d r) key o =
      let (ol, _, _, below) = Ordered-parts cmp (items l) d (items r) o in
      find_step l h d r key (cmp key d) refl
        (middle cmp order (cmp key d) key (items l) d (items r) refl o) (btreeget-find l key ol)
        (btreeget-find r key below)

  insert_step :
      (l : Btree A) (h : ℕ) (d : A) (r : Btree A) (x : A) (o : Ordering)
      → cmp x d ≡ o
      → Middle cmp order o x (items l) d (items r)
      → items (bbtreeput cmp l x).0 ≡ insert cmp x (items l)
      → items (bbtreeput cmp r x).0 ≡ insert cmp x (items r)
      → items (bbtreeput cmp (node l h d r) x).0 ≡ insert cmp x (items l ++ d ∷ items r)
  unfolding bbtreeput
  insert_step l h d r x Ordering.lt c (i, _, _) el er =
      rw (c, bbtreeput, i, items-rebalance (bbtreeput cmp l x).0 d r)
        (ap (λ xs. xs ++ d ∷ items r) el)
  insert_step l h d r x Ordering.eq c (i, _, _) el er = rw (c, bbtreeput, i)
  insert_step l h d r x Ordering.gt c (i, _, _) el er =
      rw (c, bbtreeput, i, items-rebalance l d (bbtreeput cmp r x).0)
        (ap (λ xs. items l ++ d ∷ xs) er)

  -- `bbtreeput` is the insertion into the sorted list.
  pub items-bbtreeput :
      (t : Btree A) (x : A)
      → Ordered cmp (items t)
      → items (bbtreeput cmp t x).0 ≡ insert cmp x (items t)
  items-bbtreeput nil x o = unfold insert bbtreeput in refl
  items-bbtreeput (node l h d r) x o =
      let (ol, _, _, below) = Ordered-parts cmp (items l) d (items r) o in
      insert_step l h d r x (cmp x d) refl
        (middle cmp order (cmp x d) x (items l) d (items r) refl o) (items-bbtreeput l x ol)
        (items-bbtreeput r x below)

  remove_step :
      (l : Btree A) (h : ℕ) (d : A) (r : Btree A) (x : A) (o : Ordering)
      → cmp x d ≡ o
      → Middle cmp order o x (items l) d (items r)
      → items (bbtreedel cmp l x).0 ≡ remove cmp x (items l)
      → items (bbtreedel cmp r x).0 ≡ remove cmp x (items r)
      → items (bbtreedel cmp (node l h d r) x).0 ≡ remove cmp x (items l ++ d ∷ items r)
  unfolding bbtreedel
  remove_step l h d r x Ordering.lt c (_, _, e) el er =
      rw (c, bbtreedel, e, items-settle (node (bbtreedel cmp l x).0 h d r))
        (ap (λ xs. xs ++ d ∷ items r) el)
  remove_step l h d r x Ordering.eq c (_, _, e) el er =
      rw (c, bbtreedel, e, items-settle (remove_root l r)) (items-remove_root l r)
  remove_step l h d r x Ordering.gt c (_, _, e) el er =
      rw (c, bbtreedel, e, items-settle (node l h d (bbtreedel cmp r x).0))
        (ap (λ xs. items l ++ d ∷ xs) er)

  -- `bbtreedel` is the removal from the sorted list.
  pub items-bbtreedel :
      (t : Btree A) (x : A)
      → Ordered cmp (items t)
      → items (bbtreedel cmp t x).0 ≡ remove cmp x (items t)
  items-bbtreedel nil x o = unfold remove bbtreedel in refl
  items-bbtreedel (node l h d r) x o =
      let (ol, _, _, below) = Ordered-parts cmp (items l) d (items r) o in
      remove_step l h d r x (cmp x d) refl
        (middle cmp order (cmp x d) x (items l) d (items r) refl o) (items-bbtreedel l x ol)
        (items-bbtreedel r x below)
