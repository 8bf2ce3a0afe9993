-- ===== src/RateQueue/Timers.antt =====
-- src/ratequeue.c `timeheap` with thraise, thlower and thadjust, and its uses in updbtime, freebucket
-- and the main loop. A bucket is a number here, and `thpos` holds its place in the heap.
pub mod Places
pub mod Order
pub mod Loops
pub mod Laws
pub mod Remove
pub mod Refines
use ashd.Base.{
  ltb, leb, ◌==◌, if◌then◌else◌, length, take, ℕ, zero, suc, ◌+◌, ◌-◌, ◌*◌, ◌/◌, not, ◌&&◌, Option,
  none, some, List, [], ◌∷◌, ◌++◌,
}

-- `struct btime`. The times are numbers; only their order counts.
pub record Btime : Type 0 where
  pub bk : ℕ
  pub tm : ℕ

-- `timeheap`, and the field `thpos` of each bucket, `none` for -1.
pub record Timers : Type 0 where
  pub heap : List Btime
  pub thpos : ℕ → Option ℕ

-- `timeheap.b[i]`, at an index below `timeheap.d`.
abbrev pub at : List Btime → ℕ → Btime
at [] i = record { bk = 0; tm = 0 }
at (x ∷ heap) zero = x
at (x ∷ heap) (suc i) = at heap i

abbrev pub set : List Btime → ℕ → Btime → List Btime
set [] i v = []
set (x ∷ heap) zero v = v ∷ heap
set (x ∷ heap) (suc i) v = x ∷ set heap i v

abbrev pub parent : ℕ → ℕ
parent n = (n - 1) / 2

-- `(timeheap.b[n] = bt).bk->thpos = n`.
unfoldable pub write : Timers → ℕ → Btime → Timers
write t n bt = record {
  heap = set t.heap n bt;
  thpos = λ b. if b == bt.bk then some n else t.thpos b;
}

-- The loops, on fuel; `none` means that it ran out.
unfoldable pub raise_loop : ℕ → Timers → Btime → ℕ → Option Timers
unfolding write
raise_loop zero t bt n = none
raise_loop (suc fuel) t bt n =
    let up = raise_loop fuel (write t n (at t.heap (parent n))) bt (parent n) in
    if ltb 0 n && not (leb (at t.heap (parent n)).tm bt.tm) then up else some (write t n bt)

unfoldable pub thraise : Timers → Btime → ℕ → Option Timers
unfolding raise_loop
thraise t bt n = raise_loop (suc n) t bt n

-- `c`, at a node with a child.
unfoldable pub lower_child : List Btime → ℕ → ℕ
lower_child heap n =
    let c1 = 2 * n + 1 in
    let c2 = c1 + 1 in
    if ltb c2 (length heap) && ltb (at heap c2).tm (at heap c1).tm then c2 else c1

unfoldable pub lower_loop : ℕ → Timers → Btime → ℕ → Option Timers
unfolding write lower_child
lower_loop zero t bt n = none
lower_loop (suc fuel) t bt n =
    let c = lower_child t.heap n in
    let down = lower_loop fuel (write t n (at t.heap c)) bt c in
    if ltb (2 * n + 1) (length t.heap) && not (ltb bt.tm (at t.heap c).tm)
    then down
    else some (write t n bt)

unfoldable pub thlower : Timers → Btime → ℕ → Option Timers
unfolding lower_loop
thlower t bt n = lower_loop (suc (length t.heap)) t bt n

unfoldable pub thadjust : Timers → Btime → ℕ → Option Timers
unfolding thraise thlower
thadjust t bt n =
    if ltb 0 n && ltb bt.tm (at t.heap (parent n)).tm then thraise t bt n else thlower t bt n

-- The end of `updbtime`: the timer of the bucket `b` is set. `sizebuf` makes room for an entry.
unfoldable pub set_timer : Timers → ℕ → ℕ → Option Timers
unfolding thraise thadjust
set_timer t b tm =
    let bt : Btime = record { bk = b; tm = tm } in
    elim (t.thpos b) [
      | none ↦ thraise (record t { heap = t.heap ++ bt ∷ [] }) bt (length t.heap)
      | some n ↦ thadjust t bt n
    ]

-- The entries that are left when the last one is taken off, with the bucket `b` gone and its
-- `thpos` with it.
unfoldable pub rest_of : Timers → ℕ → Timers
rest_of t b = record {
  heap = take (length t.heap - 1) t.heap;
  thpos = λ c. if c == b then none else t.thpos c;
}

-- `freebucket` on the heap.
unfoldable pub remove_timer : Timers → ℕ → Option Timers
unfolding thadjust rest_of
remove_timer t b = elim (t.thpos b) [
  | none ↦ some t
  | some n ↦
      if ltb n (length t.heap - 1)
      then thadjust (rest_of t b) (at t.heap (length t.heap - 1)) n
      else some (rest_of t b)
]

-- The bucket that the main loop looks at next, with its time.
abbrev pub first_timer : Timers → Option Btime
first_timer t = elim t.heap [ [] ↦ none | bt ∷ _ ↦ some bt ]
