-- ===== src/RateQueue/Timers/Remove.antt =====
-- The removal of a timer, and the earliest one.
use ashd.Base.{
  ◌==◌, if◌then◌else◌, ==_iff, length, take, length-take, ℕ, ◌-◌, ◌<◌, ◌≡◌, refl, ap, ◌∙◌, ◌≢◌,
  true, false, Option, none, some, List, arith,
}
use ashd.RateQueue.Timers.{rest_of, Btime, Timers, at, parent}
use ashd.RateQueue.Timers.Places.{time_of, IsPlaced, IsHoled}
use ashd.RateQueue.Timers.Order.{IsHeap, IsOpen}
use ashd.RateQueue.Timers.Laws.{time_at, at-take, Represents}

length-less : (heap : List Btime) → length (take (length heap - 1) heap) ≡ length heap - 1
length-less heap = omega (arith, length-take (length heap - 1) heap)

pub rest_of-IsHoled :
    (t : Timers) (b n : ℕ)
    → IsPlaced t
    → t.thpos b ≡ some n
    → n < length t.heap - 1
    → IsHoled (rest_of t b) (at t.heap (length t.heap - 1)).bk n
unfolding rest_of
rest_of-IsHoled t b n p e l =
    let d = length t.heap - 1 in
    let short = length-less t.heap in
    record {
      inside = omega arith;
      back = λ i k q. ground (arith, at-take d t.heap i, p.back i, p.forth b n);
      forth = λ c i f q. ground (arith, at-take d t.heap i, p.forth c i, p.forth b n);
      apart = λ i k q. ground (arith, at-take d t.heap i, p.back i, p.back d);
    }

pub rest_of-IsOpen :
    (t : Timers) (b n : ℕ) → n < length t.heap → IsHeap t.heap → IsOpen (rest_of t b).heap n
unfolding rest_of
rest_of-IsOpen t b n l h =
    let d = length t.heap - 1 in
    let short = length-less t.heap in
    record {
      edges = λ c p q e f. ground (arith, at-take d t.heap c, at-take d t.heap (parent c), h c);
      bridge =
          λ c p q e f. ground (arith, at-take d t.heap c, at-take d t.heap (parent n), h c, h n);
    }

left_place :
    (t : Timers) (b c i : ℕ) → (rest_of t b).thpos c ≡ some i → (c ≢ b) × (t.thpos c ≡ some i)
unfolding rest_of
left_place t b c i f = ground arith

pub rest_of-IsPlaced :
    (t : Timers) (b : ℕ)
    → IsPlaced t
    → t.thpos b ≡ some (length t.heap - 1)
    → IsPlaced (rest_of t b)
unfolding rest_of
rest_of-IsPlaced t b p e =
    let d = length t.heap - 1 in
    let short = length-less t.heap in
    record {
      back = λ i k. ground (arith, at-take d t.heap i, p.back i, p.forth b d);
      forth = λ c i f.
          let (stays, old) = left_place t b c i f in
          let (l, s) = p.forth c i old in
          let not_last : i ≢ d = λ q. ground (arith, p.forth b d) in
          let low : i < d = omega arith in
          (omega arith, ap (λ x. x.bk) (at-take d t.heap i low) ∙ s);
    }

pub rest_of-IsHeap : (t : Timers) (b : ℕ) → IsHeap t.heap → IsHeap (rest_of t b).heap
unfolding rest_of
rest_of-IsHeap t b h c p q =
    let d = length t.heap - 1 in
    let short = length-less t.heap in
    ground (arith, at-take d t.heap c, at-take d t.heap (parent c), h c)

-- A bucket that is not the last one in the heap keeps its time, and `b` has none.
pub rest_of_times :
    (t : Timers) (b : ℕ) (m : ℕ → Option ℕ)
    → Represents t m
    → (c : ℕ) → c ≢ b
    → t.thpos c ≢ some (length t.heap - 1)
    → time_of (rest_of t b) c ≡ m c
unfolding rest_of
rest_of_times t b m r c apart other =
    let stays : (c == b) ≡ false = ground arith in
    ap (time_at (take (length t.heap - 1) t.heap)) (stay c stays) ∙ go (t.thpos c) refl (r.times c)
  where
    stay : (c : ℕ) → (c == b) ≡ false → (if c == b then none else t.thpos c) ≡ t.thpos c
    stay c e = rw e refl

    go :
        (o : Option ℕ)
        → t.thpos c ≡ o
        → elim o [ none ↦ none | some i ↦ some (at t.heap i).tm ] ≡ m c
        → elim o [ none ↦ none | some i ↦ some (at (take (length t.heap - 1) t.heap) i).tm ] ≡ m c
    go none e f = f
    go (some i) e f =
        let (l, s) = r.placed.forth c i e in
        let not_last : i ≢ length t.heap - 1 = λ q. other (e ∙ ap some q) in
        let low : i < length t.heap - 1 = omega arith in
        ap (λ x. some x.tm) (at-take (length t.heap - 1) t.heap i low) ∙ f

pub rest_of_gone : (t : Timers) (b : ℕ) → time_of (rest_of t b) b ≡ none
unfolding rest_of
rest_of_gone t b =
    let self : (b == b) ≡ true = (==_iff b b).1 refl in
    ap (time_at (take (length t.heap - 1) t.heap)) (gone self)
  where
    gone : (b == b) ≡ true → (if b == b then none else t.thpos b) ≡ none
    gone e = rw e refl
