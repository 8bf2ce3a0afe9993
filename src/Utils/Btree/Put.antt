-- ===== src/Utils/Btree/Put.antt =====
-- `bbtreeput` keeps the tree balanced and its heights right.
use Prim.Native.Nat.{Ordering}
use ashd.Base.{lt→ltb, ℕ, ◌+◌, ◌≤◌, ◌<◌, max, ◌≡◌, refl, Bool, false, arith, dec_lt}
use ashd.Utils.Btree.{
  Btree, nil, node, btheight, left, right, btsetheight, bbtrr, bbtrl, lean_left, lean_right,
  rebalance, bbtreeput,
}
use ashd.Utils.Btree.Balance.{IsBalanced, Grown, bbtrr-Grown, bbtrl-Grown}

module _ {ℓ} {A : Type ℓ} where
  -- What `rebalance` makes of two balanced subtrees.
  abbrev Settled : Btree A → Btree A → Btree A → Type 0
  Settled l r t =
      IsBalanced t
      × (max (btheight l) (btheight r) ≤ btheight t)
      × (btheight t ≤ max (btheight l) (btheight r) + 1)
      × (btheight l ≤ btheight r + 1
          → btheight r ≤ btheight l + 1
          → btheight t ≡ max (btheight l) (btheight r) + 1)

  -- A tree that does not lean is left as it is.
  stays :
      (t : Btree A)
      → (btheight (left t) ≤ btheight (right t) + 1 → lean_left t ≡ t)
        × (btheight (right t) ≤ btheight (left t) + 1 → lean_right t ≡ t)
  unfolding lean_left lean_right
  stays t = (λ h. ground arith, λ h. ground arith)

  IsBalanced-near : (t : Btree A) → IsBalanced t → btheight (right t) ≤ btheight (left t) + 1
  IsBalanced-near nil b = omega arith
  IsBalanced-near (node l h d r) (_, _, g, _, _) = g

  turns :
      (l : Btree A) (h : ℕ) (d : A) (r : Btree A)
      → (btheight r + 1 < btheight l → lean_left (node l h d r) ≡ bbtrr (node l h d r))
        × (btheight l + 1 < btheight r → lean_right (node l h d r) ≡ bbtrl (node l h d r))
  unfolding lean_left lean_right
  turns l h d r = (λ g. rw (lt→ltb _ _ g), λ g. rw (lt→ltb _ _ g))

  rebalance-Settled :
      (l : Btree A) (d : A) (r : Btree A)
      → IsBalanced l
      → IsBalanced r
      → btheight l ≤ btheight r + 2
      → btheight r ≤ btheight l + 2
      → Settled l r (rebalance l d r)
  unfolding rebalance
  rebalance-Settled l d r bl br f g =
      let t = btsetheight l d r in
      elim (dec_lt (btheight r + 1) (btheight l)) [
        | yes high ↦
            let two : btheight l ≡ btheight r + 2 = omega arith in
            let (b, lo, hi) =
              bbtrr-Grown l (max (btheight l) (btheight r) + 1) d r (btheight r) bl br two refl in
            rw ((turns l _ d r).0 high, (stays (bbtrr t)).1 (IsBalanced-near (bbtrr t) b))
              (b, omega arith, omega arith, λ p q. absurd (omega arith))
        | no low ↦ rw ((stays t).0 (omega arith)) (elim (dec_lt (btheight l + 1) (btheight r)) [
          | yes high ↦
              let two : btheight r ≡ btheight l + 2 = omega arith in
              let (b, lo, hi) =
                bbtrl-Grown l (max (btheight l) (btheight r) + 1) d r (btheight l) bl br two refl in
              rw ((turns l _ d r).1 high) (b, omega arith, omega arith, λ p q. absurd (omega arith))
          | no low' ↦
              rw ((stays t).1 (omega arith))
                ((refl, omega arith, omega arith, bl, br), omega arith, omega arith, λ p q. refl)
        ])
      ]

  -- A node is at most one level higher when one of its subtrees has grown by one level.
  Grown-left :
      (l l' : Btree A) (h : ℕ) (r t : Btree A)
      → h ≡ max (btheight l) (btheight r) + 1
      → btheight l ≤ btheight r + 1
      → btheight r ≤ btheight l + 1
      → (btheight l ≤ btheight l') × (btheight l' ≤ btheight l + 1)
      → Settled l' r t
      → Grown h t
  Grown-left l l' h r t e f g near (b, lo, hi, exact) = (b, bounds.0, bounds.1)
    where
      bounds : (h ≤ btheight t) × (btheight t ≤ h + 1)
      bounds = elim (dec_lt (btheight r + 1) (btheight l')) [
        | yes high ↦ (omega arith, omega arith)
        | no low ↦ let same = exact (omega arith) (omega arith) in (omega arith, omega arith)
      ]

  Grown-right :
      (l r r' : Btree A) (h : ℕ) (t : Btree A)
      → h ≡ max (btheight l) (btheight r) + 1
      → btheight l ≤ btheight r + 1
      → btheight r ≤ btheight l + 1
      → (btheight r ≤ btheight r') × (btheight r' ≤ btheight r + 1)
      → Settled l r' t
      → Grown h t
  Grown-right l r r' h t e f g near (b, lo, hi, exact) = (b, bounds.0, bounds.1)
    where
      bounds : (h ≤ btheight t) × (btheight t ≤ h + 1)
      bounds = elim (dec_lt (btheight l + 1) (btheight r')) [
        | yes high ↦ (omega arith, omega arith)
        | no low ↦ let same = exact (omega arith) (omega arith) in (omega arith, omega arith)
      ]

  -- `bbtreeput` keeps a balanced tree balanced, with every stored height right, and makes it one
  -- level higher at most, whatever the comparison says.
  pub bbtreeput-IsBalanced :
      (cmp : A → A → Ordering) (t : Btree A) (item : A)
      → IsBalanced t
      → IsBalanced (bbtreeput cmp t item).0
        × (btheight t ≤ btheight (bbtreeput cmp t item).0)
        × (btheight (bbtreeput cmp t item).0 ≤ btheight t + 1)
  unfolding bbtreeput
  bbtreeput-IsBalanced cmp nil item b = omega arith
  bbtreeput-IsBalanced cmp (node l h d r) item (eh, f, g, bl, br) =
      let (bl', lo, hi) = bbtreeput-IsBalanced cmp l item bl in
      let (br', lo', hi') = bbtreeput-IsBalanced cmp r item br in
      let low = rebalance-Settled (bbtreeput cmp l item).0 d r bl' br (omega arith) (omega arith) in
      let high =
        rebalance-Settled l d (bbtreeput cmp r item).0 bl br' (omega arith) (omega arith) in
      go (cmp item d) (Grown-left l (bbtreeput cmp l item).0 h r _ eh f g (lo, hi) low)
        (Grown-right l r (bbtreeput cmp r item).0 h _ eh f g (lo', hi') high)
        ((eh, f, g, bl, br), omega arith, omega arith)
    where
      go :
          (o : Ordering)
          → Grown h (rebalance (bbtreeput cmp l item).0 d r)
          → Grown h (rebalance l d (bbtreeput cmp r item).0)
          → Grown h (node l h d r)
          → Grown h (
              let t : Btree A × Bool = elim o [
                | Ordering.lt ↦ (rebalance (bbtreeput cmp l item).0 d r, (bbtreeput cmp l item).1)
                | Ordering.gt ↦ (rebalance l d (bbtreeput cmp r item).0, (bbtreeput cmp r item).1)
                | Ordering.eq ↦ (node l h d r, false)
              ] in
              t.0)
      go Ordering.lt x y z = x
      go Ordering.gt x y z = y
      go Ordering.eq x y z = z
