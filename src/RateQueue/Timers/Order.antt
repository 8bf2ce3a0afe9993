-- ===== src/RateQueue/Timers/Order.antt =====
-- The order of the heap, with a place open in it, and what one write does to it.
use ashd.Base.{length, ℕ, ◌≤◌, ◌<◌, ◌≡◌, refl, ◌∙◌, ◌≢◌, Option, some, List, arith}
use ashd.RateQueue.Timers.{Btime, Timers, at, parent, write}
use ashd.RateQueue.Timers.Places.{
  length-set, at-set, time_of, IsPlaced, IsHoled, SameTimes, write_times, write_fill,
}

abbrev pub key : List Btime → ℕ → ℕ
key heap i = (at heap i).tm

-- No entry is earlier than its parent.
abbrev pub IsHeap : List Btime → Type 0
IsHeap heap = (c : ℕ) → 0 < c → c < length heap → key heap (parent c) ≤ key heap c

-- The same but for the place `n`, whose parent is no later than its children.
pub record IsOpen (heap : List Btime) (n : ℕ) : Type 0 where
  pub edges :
      (c : ℕ) → 0 < c → c < length heap → c ≢ n → parent c ≢ n → key heap (parent c) ≤ key heap c
  pub bridge :
      (c : ℕ) → 0 < c → c < length heap → parent c ≡ n → 0 < n → key heap (parent n) ≤ key heap c

-- The children of `n` are no earlier than `tm`, and its parent is no later.
abbrev pub Under : List Btime → ℕ → ℕ → Type 0
Under heap n tm = (c : ℕ) → 0 < c → c < length heap → parent c ≡ n → tm ≤ key heap c

abbrev pub Over : List Btime → ℕ → ℕ → Type 0
Over heap n tm = 0 < n → key heap (parent n) ≤ tm

module _ (t : Timers) (bt : Btime) (n : ℕ) (l : n < length t.heap) where
  fill-IsHeap :
      IsOpen t.heap n → Under t.heap n bt.tm → Over t.heap n bt.tm → IsHeap (write t n bt).heap
  unfolding write
  fill-IsHeap o u v c p q = ground (
    arith,
    length-set t.heap n bt,
    at-set t.heap n c bt,
    at-set t.heap n (parent c) bt,
    o.edges c,
    u c,
    v,
  )

  module _ (o : IsOpen t.heap n) where
    pub raise-IsOpen : 0 < n → IsOpen (write t n (at t.heap (parent n))).heap (parent n)
    unfolding write
    raise-IsOpen p =
        let v = at t.heap (parent n) in
        record {
          edges = λ c q r d e. ground (
            arith,
            length-set t.heap n v,
            at-set t.heap n c v,
            at-set t.heap n (parent c) v,
            o.edges c,
            o.bridge c,
          );
          bridge = λ c q r d e. ground (
            arith,
            length-set t.heap n v,
            at-set t.heap n c v,
            at-set t.heap n (parent (parent n)) v,
            o.edges c,
            o.edges (parent n),
          );
        }

    pub raise-Under :
        0 < n
        → bt.tm < key t.heap (parent n)
        → Under (write t n (at t.heap (parent n))).heap (parent n) bt.tm
    unfolding write
    raise-Under p h c q r d =
        let v = at t.heap (parent n) in
        ground (arith, length-set t.heap n v, at-set t.heap n c v, o.edges c)

    module _ (m : ℕ) (k : m < length t.heap) (child : parent m ≡ n) (pos : 0 < m)
        (least : (c : ℕ)
          → 0 < c
          → c < length t.heap
          → parent c ≡ n
          → key t.heap m ≤ key t.heap c) where
      pub lower-IsOpen : IsOpen (write t n (at t.heap m)).heap m
      unfolding write
      lower-IsOpen =
          let v = at t.heap m in
          record {
            edges = λ c q r d e. ground (
              arith,
              length-set t.heap n v,
              at-set t.heap n c v,
              at-set t.heap n (parent c) v,
              o.edges c,
              o.bridge m,
              least c,
            );
            bridge = λ c q r d e. ground (
              arith,
              length-set t.heap n v,
              at-set t.heap n c v,
              at-set t.heap n (parent m) v,
              o.edges c,
            );
          }

      pub lower-Over : key t.heap m ≤ bt.tm → Over (write t n (at t.heap m)).heap m bt.tm
      unfolding write
      lower-Over h p =
          let v = at t.heap m in ground (arith, length-set t.heap n v, at-set t.heap n (parent m) v)

-- What the loops come to: a heap with the entry in it, and the other buckets at their times.
abbrev pub Filled : Timers → Btime → Option Timers → Type 0
Filled t bt r =
    (t' : Timers) × (r ≡ some t')
    × IsHeap t'.heap
    × IsPlaced t'
    × (time_of t' bt.bk ≡ some bt.tm)
    × SameTimes t t' bt.bk

pub write-Filled :
    (t : Timers) (bt : Btime) (n : ℕ)
    → IsHoled t bt.bk n
    → IsOpen t.heap n
    → Under t.heap n bt.tm
    → Over t.heap n bt.tm
    → Filled t bt (some (write t n bt))
write-Filled t bt n h o u v =
    let (p, own, others) = write_fill t n bt h in
    (write t n bt, refl, fill-IsHeap t bt n h.inside o u v, p, own, others)

pub moved-Filled :
    (t : Timers) (bt : Btime) (n p : ℕ) {r : Option Timers}
    → IsHoled t bt.bk n
    → p < length t.heap
    → p ≢ n
    → Filled (write t n (at t.heap p)) bt r
    → Filled t bt r
moved-Filled t bt n p h l d (t', e, heap, placed, own, others) =
    (t', e, heap, placed, own, λ c q. others c q ∙ write_times t bt.bk n p h l d c q)
