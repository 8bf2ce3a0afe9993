-- ===== src/Utils/Btree.antt =====
-- lib/utils.c: the balanced binary tree, `struct btree` with `bbtreeput`, `bbtreedel` and
-- `btreeget`. Trees are values: each node of the source has one owner, so an update in place is the
-- new tree. Nodes keep their height, as in the source, and only `btsetheight` brings it up to date.
pub mod Balance
pub mod Put
pub mod Sorted
pub mod Items
pub mod Lookup
pub mod Ptrcmp
use Prim.Native.Nat.{Ordering}
use ashd.Base.{ltb, if◌then◌else◌, ℕ, ◌+◌, max, Bool, true, false, Option, none, some}

-- The order of the addresses, which are numbers here: `ptrcmp`.
unfoldable pub ptrcmp : ℕ → ℕ → Ordering
ptrcmp a b = if ltb a b then Ordering.lt else if ltb b a then Ordering.gt else Ordering.eq

pub data Btree {ℓ} (A : Type ℓ) : Type ℓ where
  nil : Btree A
  node : Btree A → ℕ → A → Btree A → Btree A

module _ {ℓ} {A : Type ℓ} where
  abbrev pub btheight : Btree A → ℕ
  btheight nil = 0
  btheight (node l h d r) = h

  -- The fields `l` and `r`.
  abbrev pub left : Btree A → Btree A
  left nil = nil
  left (node l h d r) = l

  abbrev pub right : Btree A → Btree A
  right nil = nil
  right (node l h d r) = r

  -- A node whose height `btsetheight` has just set.
  abbrev pub btsetheight : Btree A → A → Btree A → Btree A
  btsetheight l d r = node l (max (btheight l) (btheight r) + 1) d r

  -- The assignments of `bbtrr`, with `l` the left tree after the inner rotation. It is never NULL,
  -- since every call is under a test that its height is positive.
  abbrev pub lift_left : Btree A → A → Btree A → Btree A
  lift_left nil d r = btsetheight nil d r
  lift_left (node a h e m) d r = btsetheight a e (btsetheight m d r)

  -- The assignments of `bbtrl`.
  abbrev pub lift_right : Btree A → A → Btree A → Btree A
  lift_right l d nil = btsetheight l d nil
  lift_right l d (node m h e b) = btsetheight (btsetheight l d m) e b

  -- The rotations call one another, down one path of the tree.
  unfoldable mutual
    pub bbtrr : Btree A → Btree A
    bbtrr nil = nil
    bbtrr (node l h d r) =
        let inner = bbtrl l in
        lift_left (if ltb (btheight (left l)) (btheight (right l)) then inner else l) d r

    pub bbtrl : Btree A → Btree A
    bbtrl nil = nil
    bbtrl (node l h d r) =
        let inner = bbtrr r in
        lift_right l d (if ltb (btheight (right r)) (btheight (left r)) then inner else r)

  -- `btsetheight(*tree)` and the two tests behind it.
  unfoldable pub lean_left : Btree A → Btree A
  lean_left t =
      let turned = bbtrr t in if ltb (btheight (right t) + 1) (btheight (left t)) then turned else t

  unfoldable pub lean_right : Btree A → Btree A
  lean_right t =
      let turned = bbtrl t in if ltb (btheight (left t) + 1) (btheight (right t)) then turned else t

  unfoldable pub rebalance : Btree A → A → Btree A → Btree A
  unfolding lean_left lean_right
  rebalance l d r = lean_right (lean_left (btsetheight l d r))

  module _ (cmp : A → A → Ordering) where
    unfoldable pub bbtreeput : Btree A → A → Btree A × Bool
    unfolding rebalance
    bbtreeput nil item = (node nil 1 item nil, true)
    bbtreeput (node l h d r) item =
        let (l', added_l) = bbtreeput l item in
        let (r', added_r) = bbtreeput r item in
        elim (cmp item d) [
          | Ordering.lt ↦ (rebalance l' d r, added_l)
          | Ordering.gt ↦ (rebalance l d r', added_r)
          | Ordering.eq ↦ (node l h d r, false)
        ]

    unfoldable pub btreeget : Btree A → A → Option A
    btreeget nil key = none
    btreeget (node l h d r) key =
        let below = btreeget l key in
        let above = btreeget r key in
        elim (cmp key d) [ Ordering.lt ↦ below | Ordering.gt ↦ above | Ordering.eq ↦ some d ]

  -- The loop for the leftmost node `s`, and `*sp = (*sp)->r`: its item and the tree without it. The
  -- heights on the way down stay as they are.
  unfoldable pub unlink_least : Btree A → ℕ → A → Btree A → A × Btree A
  unlink_least nil h d r = (d, r)
  unlink_least (node a k e b) h d r = let (s, rest) = unlink_least a k e b in (s, node rest h d r)

  -- The tests and the rotations of `bbtreedel`, at a tree that is not NULL.
  unfoldable pub settle : Btree A → Btree A
  unfolding rebalance
  settle nil = nil
  settle (node l h d r) = rebalance l d r

  -- What takes the place of a node that is removed, before it is settled.
  unfoldable pub remove_root : Btree A → Btree A → Btree A
  unfolding unlink_least
  remove_root nil nil = nil
  remove_root (node a k e b) nil = node a k e b
  remove_root nil (node a k e b) = node a k e b
  remove_root (node a k e b) (node a' k' e' b') =
      let (s, rest) = unlink_least a' k' e' b' in node (node a k e b) k' s rest

  module _ (cmp : A → A → Ordering) where
    unfoldable pub bbtreedel : Btree A → A → Btree A × Bool
    unfolding settle remove_root
    bbtreedel nil item = (nil, false)
    bbtreedel (node l h d r) item =
        let (l', gone_l) = bbtreedel l item in
        let (r', gone_r) = bbtreedel r item in
        elim (cmp item d) [
          | Ordering.lt ↦ (settle (node l' h d r), gone_l)
          | Ordering.gt ↦ (settle (node l h d r'), gone_r)
          | Ordering.eq ↦ (settle (remove_root l r), true)
        ]
