-- ===== src/Utils/Btree/Ptrcmp.antt =====
-- `ptrcmp` is an order, as the tree needs it.
use Prim.Native.Nat.{Ordering}
use ashd.Base.{ℕ, ◌<◌, ◌≡◌, ap, arith}
use ashd.Utils.Btree.{ptrcmp}
use ashd.Utils.Btree.Sorted.{IsOrder}

ptrcmp_lt : (a b : ℕ) → ptrcmp a b ≡ Ordering.lt → a < b
unfolding ptrcmp
ptrcmp_lt a b e = ground arith

ptrcmp_gt : (a b : ℕ) → ptrcmp a b ≡ Ordering.gt → b < a
unfolding ptrcmp
ptrcmp_gt a b e = ground arith

ptrcmp_eq : (a b : ℕ) → ptrcmp a b ≡ Ordering.eq → a ≡ b
unfolding ptrcmp
ptrcmp_eq a b e = ground arith

lt_ptrcmp : (a b : ℕ) → a < b → ptrcmp a b ≡ Ordering.lt
unfolding ptrcmp
lt_ptrcmp a b l = ground arith

gt_ptrcmp : (a b : ℕ) → b < a → ptrcmp a b ≡ Ordering.gt
unfolding ptrcmp
gt_ptrcmp a b l = ground arith

pub ptrcmp-IsOrder : IsOrder ptrcmp
ptrcmp-IsOrder = record {
  flip_lt = λ a b e. gt_ptrcmp b a (ptrcmp_lt a b e);
  flip_gt = λ a b e. lt_ptrcmp b a (ptrcmp_gt a b e);
  trans_lt = λ a b c e f.
      let l = ptrcmp_lt a b e in let m = ptrcmp_lt b c f in lt_ptrcmp a c (omega arith);
  same = λ a b c e. ap (λ x. ptrcmp x c) (ptrcmp_eq a b e);
}
