-- ===== src/RateQueue/Timers/Laws.antt =====
-- The heap of timers is a map from buckets to times that finds its earliest entry.
use ashd.Base.{
  ◌==◌, if◌then◌else◌, ==_iff, Bool-cases, length, take, length-append, ℕ, zero, suc, ◌<◌, ◌≡◌,
  refl, ap, ◌∙◌, ◌≢◌, inl, inr, Option, none, some, List, [], ◌∷◌, ◌++◌, arith,
}
use ashd.RateQueue.Timers.{Btime, Timers, at, parent, thraise, thadjust, set_timer}
use ashd.RateQueue.Timers.Places.{time_of, IsPlaced, IsHoled}
use ashd.RateQueue.Timers.Order.{IsHeap, IsOpen, Under, Filled}
use ashd.RateQueue.Timers.Loops.{thraise-Filled, thadjust-Filled}

at-append : (a b : List Btime) (i : ℕ) → i < length a → at (a ++ b) i ≡ at a i
at-append [] b i l = absurd (omega arith)
at-append (x ∷ a) b zero l = refl
at-append (x ∷ a) b (suc i) l = at-append a b i (omega arith)

pub at-take : (n : ℕ) (a : List Btime) (i : ℕ) → i < n → at (take n a) i ≡ at a i
at-take zero a i l = absurd (omega arith)
at-take (suc n) [] i l = refl
at-take (suc n) (x ∷ a) zero l = refl
at-take (suc n) (x ∷ a) (suc i) l = at-take n a i (omega arith)

abbrev pub time_at : List Btime → Option ℕ → Option ℕ
time_at heap o = elim o [ none ↦ none | some i ↦ some (at heap i).tm ]

-- The heap stands for the map.
pub record Represents (t : Timers) (m : ℕ → Option ℕ) : Type 0 where
  pub placed : IsPlaced t
  pub heaped : IsHeap t.heap
  pub times : (c : ℕ) → time_of t c ≡ m c

-- A map with one entry set, or one removed.
abbrev pub set_time : (ℕ → Option ℕ) → ℕ → ℕ → ℕ → Option ℕ
set_time m b tm c = if c == b then some tm else m c

abbrev pub remove_time : (ℕ → Option ℕ) → ℕ → ℕ → Option ℕ
remove_time m b c = if c == b then none else m c

pub IsHeap-IsOpen : (heap : List Btime) (n : ℕ) → n < length heap → IsHeap heap → IsOpen heap n
IsHeap-IsOpen heap n l h = record {
  edges = λ c p q d e. h c p q;
  bridge = λ c p q d e. let low = h n e l in let high = h c p q in ground arith;
}

pub IsPlaced-IsHoled : (t : Timers) (b n : ℕ) → IsPlaced t → t.thpos b ≡ some n → IsHoled t b n
IsPlaced-IsHoled t b n p e = record {
  inside = (p.forth b n e).0;
  back = λ i l d. p.back i l;
  forth = λ c i f d. let (l, s) = p.forth c i f in (l, λ q. ground (arith, p.forth b n), s);
  apart = λ i l d q. ground (arith, p.back i);
}

-- An entry that is added: its place is the last one.
added : Timers → Btime → Timers
added t bt = record t { heap = t.heap ++ bt ∷ [] }

added-IsHoled :
    (t : Timers) (bt : Btime)
    → IsPlaced t
    → t.thpos bt.bk ≡ none
    → IsHoled (added t bt) bt.bk (length t.heap)
unfolding added
added-IsHoled t bt p e =
    let n = length-append t.heap (bt ∷ []) in
    record {
      inside = omega arith;
      back = λ i l d.
          let k : i < length t.heap = omega arith in
          rw (at-append t.heap (bt ∷ []) i k) (p.back i k);
      forth =
          λ c i f d. let (k, s) = p.forth c i f in (omega arith, (λ q. omega arith), at_bk c i k s);
      apart = λ i l d q.
          let k : i < length t.heap = omega arith in
          ground (arith, at-append t.heap (bt ∷ []) i, p.back i);
    }
  where
    at_bk : (c i : ℕ) → i < length t.heap → (at t.heap i).bk ≡ c → (at (t.heap ++ bt ∷ []) i).bk ≡ c
    at_bk c i k s = ap (λ x. x.bk) (at-append t.heap (bt ∷ []) i k) ∙ s

added-IsOpen : (t : Timers) (bt : Btime) → IsHeap t.heap → IsOpen (added t bt).heap (length t.heap)
unfolding added
added-IsOpen t bt h = record {
  edges = λ c p q d e. ground (
    arith,
    length-append t.heap (bt ∷ []),
    at-append t.heap (bt ∷ []) c,
    at-append t.heap (bt ∷ []) (parent c),
    h c,
  );
  bridge = λ c p q d e. ground (arith, length-append t.heap (bt ∷ []));
}

added-Under : (t : Timers) (bt : Btime) → Under (added t bt).heap (length t.heap) bt.tm
unfolding added
added-Under t bt c p q d = let n = length-append t.heap (bt ∷ []) in absurd (omega arith)

added_times :
    (t : Timers) (bt : Btime) → IsPlaced t → (c : ℕ) → time_of (added t bt) c ≡ time_of t c
unfolding added
added_times t bt p c = go (t.thpos c) refl
  where
    go :
        (o : Option ℕ)
        → t.thpos c ≡ o
        → elim o [ none ↦ none | some i ↦ some (at (t.heap ++ bt ∷ []) i).tm ]
          ≡ elim o [ none ↦ none | some i ↦ some (at t.heap i).tm ]
    go none e = refl
    go (some i) e = ap (λ x. some x.tm) (at-append t.heap (bt ∷ []) i (p.forth c i e).0)

-- What a filled heap represents.
pub Filled-Represents :
    (t : Timers) (bt : Btime) (m : ℕ → Option ℕ) {r : Option Timers}
    → Filled t bt r
    → ((c : ℕ) → c ≢ bt.bk → time_of t c ≡ m c)
    → (t' : Timers) × (r ≡ some t') × Represents t' (set_time m bt.bk bt.tm)
Filled-Represents t bt m (t', e, heap, placed, own, others) same = (
  t',
  e,
  record {
    placed = placed;
    heaped = heap;
    times = λ c. elim (Bool-cases (c == bt.bk)) [
      | inl own_time ↦ rw own_time (ap (time_of t') ((==_iff c bt.bk).0 own_time) ∙ own)
      | inr other ↦ let d : c ≢ bt.bk = λ q. ground arith in rw other (others c d ∙ same c d)
    ];
  },
)

insert-Represents :
    (t : Timers) (m : ℕ → Option ℕ) (bt : Btime)
    → Represents t m
    → t.thpos bt.bk ≡ none
    → (t' : Timers) × (thraise (added t bt) bt (length t.heap) ≡ some t')
      × Represents t' (set_time m bt.bk bt.tm)
insert-Represents t m bt r e =
    Filled-Represents (added t bt) bt m
      (thraise-Filled (added t bt) bt (length t.heap) (added-IsHoled t bt r.placed e)
        (added-IsOpen t bt r.heaped) (added-Under t bt))
      (λ c d. added_times t bt r.placed c ∙ r.times c)

pub set_timer-Represents :
    (t : Timers) (m : ℕ → Option ℕ) (b tm : ℕ)
    → Represents t m
    → (t' : Timers) × (set_timer t b tm ≡ some t') × Represents t' (set_time m b tm)
unfolding set_timer
set_timer-Represents t m b tm r = go (t.thpos b) refl
  where
    go :
        (o : Option ℕ)
        → t.thpos b ≡ o
        → (t' : Timers) × (elim o [
          | none ↦
              thraise
                (record t { heap = t.heap ++ record { bk = b; tm = tm } ∷ [] })
                (record { bk = b; tm = tm })
                (length t.heap)
          | some n ↦ thadjust t (record { bk = b; tm = tm }) n
        ]
            ≡ some t')
          × Represents t' (set_time m b tm)
    go none e = unfold added in (insert-Represents t m (record { bk = b; tm = tm }) r e)
    go (some n) e =
        Filled-Represents t (record { bk = b; tm = tm }) m
          (thadjust-Filled t (record { bk = b; tm = tm }) n (IsPlaced-IsHoled t b n r.placed e)
            (IsHeap-IsOpen t.heap n (r.placed.forth b n e).0 r.heaped))
          (λ c d. r.times c)
