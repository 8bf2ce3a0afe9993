-- ===== src/RateQueue/Timers/Loops.antt =====
-- The loops of thraise and thlower restore the order of the heap.
use ashd.Base.{
  ltb, leb, ◌==◌, ltb→lt, not-ltb→le, ==_iff, Bool-cases, length, ℕ, zero, suc, ◌+◌, ◌-◌, ◌*◌, ◌≤◌,
  ◌<◌, ◌≡◌, ◌≢◌, ◌⊎◌, inl, inr, false, not, ◌&&◌, List, arith,
}
use ashd.RateQueue.Timers.{
  Btime, Timers, at, parent, write, raise_loop, thraise, lower_child, lower_loop, thlower, thadjust,
}
use ashd.RateQueue.Timers.Places.{length-set, IsHoled, write_move}
use ashd.RateQueue.Timers.Order.{
  key, IsOpen, Under, Over, Filled, raise-IsOpen, raise-Under, lower-IsOpen, lower-Over,
  write-Filled, moved-Filled,
}

raise_loop-Filled :
    (fuel : ℕ) (t : Timers) (bt : Btime) (n : ℕ)
    → n < fuel
    → IsHoled t bt.bk n
    → IsOpen t.heap n
    → Under t.heap n bt.tm
    → Filled t bt (raise_loop fuel t bt n)
unfolding raise_loop
raise_loop-Filled zero t bt n f h o u = absurd (omega arith)
raise_loop-Filled (suc fuel) t bt n f h o u =
    elim (Bool-cases (ltb 0 n && not (leb (key t.heap (parent n)) bt.tm))) [
      | inr stop ↦ rw stop (write-Filled t bt n h o u (λ p. ground arith))
      | inl up ↦
          let p : 0 < n = ground arith in
          let over : bt.tm < key t.heap (parent n) = ground arith in
          let l : parent n < length t.heap = let i = h.inside in omega arith in
          let d : parent n ≢ n = λ e. omega arith in
          rw up (
            moved-Filled t bt n (parent n) h l d (
              raise_loop-Filled fuel (write t n (at t.heap (parent n))) bt (parent n) (omega arith)
                (write_move t bt.bk n (parent n) h l d) (raise-IsOpen t bt n h.inside o p)
                (raise-Under t bt n h.inside o p over)))
    ]

child_cases : (c n : ℕ) → 0 < c → parent c ≡ n → (c ≡ 2 * n + 1) ⊎ (c ≡ 2 * n + 1 + 1)
child_cases c n p e = elim (Bool-cases (c == 2 * n + 1)) [
  | inl first ↦ inl ((==_iff c (2 * n + 1)).0 first)
  | inr other ↦ inr (ground arith)
]

second_later :
    (heap : List Btime) (n : ℕ)
    → 2 * n + 1 + 1 < length heap
    → (ltb (2 * n + 1 + 1) (length heap) && ltb (key heap (2 * n + 1 + 1)) (key heap (2 * n + 1)))
      ≡ false
    → key heap (2 * n + 1) ≤ key heap (2 * n + 1 + 1)
second_later heap n l e = ground arith

still_fuel :
    (t : Timers) (n m fuel : ℕ)
    → length t.heap - n < suc fuel
    → n < m
    → m < length t.heap
    → length (write t n (at t.heap m)).heap - m < fuel
unfolding write
still_fuel t n m fuel f b l = omega (arith, length-set t.heap n (at t.heap m))

lower_child_least :
    (heap : List Btime) (n : ℕ)
    → 2 * n + 1 < length heap
    → (lower_child heap n < length heap)
      × (parent (lower_child heap n) ≡ n)
      × (n < lower_child heap n)
      × ((c : ℕ)
          → 0 < c
          → c < length heap
          → parent c ≡ n
          → key heap (lower_child heap n) ≤ key heap c)
unfolding lower_child
lower_child_least heap n l =
    elim (Bool-cases (
      ltb (2 * n + 1 + 1) (length heap) && ltb (key heap (2 * n + 1 + 1)) (key heap (2 * n + 1)))) [
        | inl second ↦ rw second (
          ground arith,
          omega arith,
          omega arith,
          λ c p q r. elim (child_cases c n p r) [
            | inl e ↦ rw e (ground arith)
            | inr e ↦ rw e (omega arith)
          ],
        )
        | inr first ↦ rw first (
          l,
          omega arith,
          omega arith,
          λ c p q r. elim (child_cases c n p r) [
            | inl e ↦ rw e (omega arith)
            | inr e ↦ rw e (second_later heap n (omega arith) first)
          ],
        )
      ]

lower_loop-Filled :
    (fuel : ℕ) (t : Timers) (bt : Btime) (n : ℕ)
    → length t.heap - n < fuel
    → IsHoled t bt.bk n
    → IsOpen t.heap n
    → Over t.heap n bt.tm
    → Filled t bt (lower_loop fuel t bt n)
unfolding lower_loop
lower_loop-Filled zero t bt n f h o v = absurd (omega arith)
lower_loop-Filled (suc fuel) t bt n f h o v = elim (Bool-cases (ltb (2 * n + 1) (length t.heap))) [
  | inr leaf ↦
      rw leaf
        (write-Filled t bt n h o (λ c p q r. let s = not-ltb→le _ _ leaf in absurd (omega arith)) v)
  | inl inner ↦
      let (l, child, below, least) = lower_child_least t.heap n (ltb→lt _ _ inner) in
      let m = lower_child t.heap n in
      elim (Bool-cases (ltb bt.tm (key t.heap m))) [
        | inl stop ↦
            let under : bt.tm < key t.heap m = ltb→lt _ _ stop in
            rw (inner, stop)
              (write-Filled t bt n h o (λ c p q r. let s = least c p q r in omega arith) v)
        | inr down ↦
            let over : key t.heap m ≤ bt.tm = not-ltb→le _ _ down in
            let d : m ≢ n = λ e. omega arith in
            let shrink = length-set t.heap n (at t.heap m) in
            rw (inner, down)
              (moved-Filled t bt n m h l d (
                lower_loop-Filled fuel (write t n (at t.heap m)) bt m
                  (still_fuel t n m fuel f below l) (write_move t bt.bk n m h l d)
                  (lower-IsOpen t bt n h.inside o m l child (omega arith) least)
                  (lower-Over t bt n h.inside o m l child (omega arith) least over)))
      ]
]

pub thraise-Filled :
    (t : Timers) (bt : Btime) (n : ℕ)
    → IsHoled t bt.bk n
    → IsOpen t.heap n
    → Under t.heap n bt.tm
    → Filled t bt (thraise t bt n)
unfolding thraise
thraise-Filled t bt n h o u = raise_loop-Filled (suc n) t bt n (omega arith) h o u

-- `thadjust` fills the place in either direction.
pub thadjust-Filled :
    (t : Timers) (bt : Btime) (n : ℕ)
    → IsHoled t bt.bk n
    → IsOpen t.heap n
    → Filled t bt (thadjust t bt n)
unfolding thadjust thlower
thadjust-Filled t bt n h o = elim (Bool-cases (ltb 0 n && ltb bt.tm (key t.heap (parent n)))) [
  | inl up ↦ rw up (thraise-Filled t bt n h o (λ c p q r. ground (arith, o.bridge c)))
  | inr down ↦
      rw down (lower_loop-Filled (suc (length t.heap)) t bt n (omega arith) h o (λ p. ground arith))
]
