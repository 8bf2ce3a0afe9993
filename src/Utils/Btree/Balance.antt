-- ===== src/Utils/Btree/Balance.antt =====
-- `bbtreeput` keeps the tree balanced and its heights right.
use ashd.Base.{
  not-ltb→le, ltb, ltb→lt, Bool-cases, ℕ, ◌+◌, ◌≤◌, ◌<◌, max, ◌≡◌, refl, inl, inr, true, false,
  arith,
}
use ashd.Utils.Btree.{Btree, nil, node, btheight, left, right, lift_left, lift_right, bbtrr, bbtrl}

module _ {ℓ} {A : Type ℓ} where
  -- Every stored height is right, and the subtrees of a node differ by one level at most.
  abbrev pub IsBalanced : Btree A → Type 0
  IsBalanced nil = Unit
  IsBalanced (node l h d r) =
      (h ≡ max (btheight l) (btheight r) + 1)
      × (btheight l ≤ btheight r + 1)
      × (btheight r ≤ btheight l + 1)
      × IsBalanced l
      × IsBalanced r

  -- Balanced, and one subtree is the higher one by one level.
  abbrev LeftHeavy : ℕ → Btree A → Type 0
  LeftHeavy k nil = ⊥
  LeftHeavy k (node l h d r) =
      (btheight l ≡ k + 1) × (btheight r ≡ k) × (h ≡ k + 2) × IsBalanced l × IsBalanced r

  abbrev RightHeavy : ℕ → Btree A → Type 0
  RightHeavy k nil = ⊥
  RightHeavy k (node l h d r) =
      (btheight l ≡ k) × (btheight r ≡ k + 1) × (h ≡ k + 2) × IsBalanced l × IsBalanced r

  right_heavier :
      (t : Btree A)
      → IsBalanced t
      → ltb (btheight (left t)) (btheight (right t)) ≡ true
      → RightHeavy (btheight (left t)) t
  right_heavier nil b e = cc
  right_heavier (node l h d r) (eh, _, near, bl, br) e =
      let higher : btheight l < btheight r = ltb→lt _ _ e in
      (refl, omega arith, omega arith, bl, br)

  left_heavier :
      (t : Btree A)
      → IsBalanced t
      → ltb (btheight (right t)) (btheight (left t)) ≡ true
      → LeftHeavy (btheight (right t)) t
  left_heavier nil b e = cc
  left_heavier (node l h d r) (eh, near, _, bl, br) e =
      let higher : btheight r < btheight l = ltb→lt _ _ e in
      (omega arith, refl, omega arith, bl, br)

  lift_left_turned :
      (l : Btree A) (d : A) (r : Btree A) (j k : ℕ)
      → LeftHeavy j l
      → btheight r ≡ k
      → k ≡ j + 1
      → IsBalanced r
      → RightHeavy k (lift_left l d r)
  lift_left_turned nil d r j k b e f c = absurd b
  lift_left_turned (node a h x m) d r j k b e f c = ground arith

  lift_left_plain :
      (l : Btree A) (d : A) (r : Btree A) (k : ℕ)
      → IsBalanced l
      → ltb (btheight (left l)) (btheight (right l)) ≡ false
      → btheight l ≡ k + 1
      → btheight r ≡ k
      → IsBalanced r
      → RightHeavy k (lift_left l d r)
  lift_left_plain nil d r k b e f g c = absurd (omega arith)
  lift_left_plain (node a h x m) d r k b e f g c = ground arith

  lift_right_turned :
      (l : Btree A) (d : A) (r : Btree A) (j k : ℕ)
      → RightHeavy j r
      → btheight l ≡ k
      → k ≡ j + 1
      → IsBalanced l
      → LeftHeavy k (lift_right l d r)
  lift_right_turned l d nil j k b e f c = absurd b
  lift_right_turned l d (node m h x b) j k q e f c = ground arith

  lift_right_plain :
      (l : Btree A) (d : A) (r : Btree A) (k : ℕ)
      → IsBalanced r
      → ltb (btheight (right r)) (btheight (left r)) ≡ false
      → btheight r ≡ k + 1
      → btheight l ≡ k
      → IsBalanced l
      → LeftHeavy k (lift_right l d r)
  lift_right_plain l d nil k b e f g c = absurd (omega arith)
  lift_right_plain l d (node m h x b) k q e f g c = ground arith

  height_left : (t : Btree A) (k : ℕ) → RightHeavy k t → btheight t ≡ k + 2
  height_left nil k h = absurd h
  height_left (node l h d r) k (_, _, e, _, _) = e

  height_right : (t : Btree A) (k : ℕ) → LeftHeavy k t → btheight t ≡ k + 2
  height_right nil k h = absurd h
  height_right (node l h d r) k (_, _, e, _, _) = e

  -- The inner rotations turn a tree that leans one way into one that leans the other way.
  mutual
    unfolding bbtrr bbtrl

    bbtrr-RightHeavy : (t : Btree A) (k : ℕ) → LeftHeavy k t → RightHeavy k (bbtrr t)
    bbtrr-RightHeavy nil k h = absurd h
    bbtrr-RightHeavy (node l h d r) k (hl, hr, _, bl, br) =
        let inner = bbtrl-LeftHeavy l (btheight (left l)) in
        elim (Bool-cases (ltb (btheight (left l)) (btheight (right l)))) [
          | inl e ↦
              let lean = right_heavier l bl e in
              rw e (
                lift_left_turned (bbtrl l) d r (btheight (left l)) k (inner lean) hr
                  (omega (arith, height_left l _ lean)) br)
          | inr e ↦ rw e (lift_left_plain l d r k bl e hl hr br)
        ]

    bbtrl-LeftHeavy : (t : Btree A) (k : ℕ) → RightHeavy k t → LeftHeavy k (bbtrl t)
    bbtrl-LeftHeavy nil k h = absurd h
    bbtrl-LeftHeavy (node l h d r) k (hl, hr, _, bl, br) =
        let inner = bbtrr-RightHeavy r (btheight (right r)) in
        elim (Bool-cases (ltb (btheight (right r)) (btheight (left r)))) [
          | inl e ↦
              let lean = left_heavier r br e in
              rw e (
                lift_right_turned l d (bbtrr r) (btheight (right r)) k (inner lean) hl
                  (omega (arith, height_right r _ lean)) bl)
          | inr e ↦ rw e (lift_right_plain l d r k br e hr hl bl)
        ]

  -- A tree that `t` has become: balanced, and at most one level above the old height.
  abbrev pub Grown : ℕ → Btree A → Type 0
  Grown h t = IsBalanced t × (h ≤ btheight t) × (btheight t ≤ h + 1)

  lift_left_settled :
      (l : Btree A) (d : A) (r : Btree A) (k : ℕ)
      → IsBalanced l
      → ltb (btheight (left l)) (btheight (right l)) ≡ false
      → btheight l ≡ k + 2
      → btheight r ≡ k
      → IsBalanced r
      → Grown (k + 2) (lift_left l d r)
  lift_left_settled nil d r k b e f g c = absurd (omega arith)
  lift_left_settled (node a h x m) d r k (eh, near, _, ba, bm) e f g c =
      let lower : btheight m ≤ btheight a = not-ltb→le _ _ e in
      (
        (refl, omega arith, omega arith, ba, (refl, omega arith, omega arith, bm, c)),
        omega arith,
        omega arith,
      )

  lift_right_settled :
      (l : Btree A) (d : A) (r : Btree A) (k : ℕ)
      → IsBalanced r
      → ltb (btheight (right r)) (btheight (left r)) ≡ false
      → btheight r ≡ k + 2
      → btheight l ≡ k
      → IsBalanced l
      → Grown (k + 2) (lift_right l d r)
  lift_right_settled l d nil k b e f g c = absurd (omega arith)
  lift_right_settled l d (node m h x b) k (eh, _, near, bm, bb) e f g c =
      let lower : btheight m ≤ btheight b = not-ltb→le _ _ e in
      (
        (refl, omega arith, omega arith, (refl, omega arith, omega arith, c, bm), bb),
        omega arith,
        omega arith,
      )

  lift_left_settled_turned :
      (l : Btree A) (d : A) (r : Btree A) (k : ℕ)
      → LeftHeavy k l
      → btheight r ≡ k
      → IsBalanced r
      → Grown (k + 2) (lift_left l d r)
  lift_left_settled_turned nil d r k b f c = absurd b
  lift_left_settled_turned (node a h x m) d r k b f c = ground arith

  lift_right_settled_turned :
      (l : Btree A) (d : A) (r : Btree A) (k : ℕ)
      → RightHeavy k r
      → btheight l ≡ k
      → IsBalanced l
      → Grown (k + 2) (lift_right l d r)
  lift_right_settled_turned l d nil k b f c = absurd b
  lift_right_settled_turned l d (node m h x b) k q f c = ground arith

  -- A left subtree that is two levels too high is turned to the right.
  pub bbtrr-Grown :
      (l : Btree A) (h : ℕ) (d : A) (r : Btree A) (k : ℕ)
      → IsBalanced l
      → IsBalanced r
      → btheight l ≡ k + 2
      → btheight r ≡ k
      → Grown (k + 2) (bbtrr (node l h d r))
  unfolding bbtrr
  bbtrr-Grown l h d r k bl br hl hr =
      elim (Bool-cases (ltb (btheight (left l)) (btheight (right l)))) [
        | inl e ↦
            let lean = right_heavier l bl e in
            let same : btheight (left l) ≡ k = omega (arith, height_left l _ lean) in
            rw e (
              lift_left_settled_turned (bbtrl l) d r k (rw same at (bbtrl-LeftHeavy l _ lean)) hr
                br)
        | inr e ↦ rw e (lift_left_settled l d r k bl e hl hr br)
      ]

  pub bbtrl-Grown :
      (l : Btree A) (h : ℕ) (d : A) (r : Btree A) (k : ℕ)
      → IsBalanced l
      → IsBalanced r
      → btheight r ≡ k + 2
      → btheight l ≡ k
      → Grown (k + 2) (bbtrl (node l h d r))
  unfolding bbtrl
  bbtrl-Grown l h d r k bl br hr hl =
      elim (Bool-cases (ltb (btheight (right r)) (btheight (left r)))) [
        | inl e ↦
            let lean = left_heavier r br e in
            let same : btheight (right r) ≡ k = omega (arith, height_right r _ lean) in
            rw e (
              lift_right_settled_turned l d (bbtrr r) k (rw same at (bbtrr-RightHeavy r _ lean)) hl
                bl)
        | inr e ↦ rw e (lift_right_settled l d r k br e hr hl bl)
      ]
