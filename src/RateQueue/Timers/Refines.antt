-- ===== src/RateQueue/Timers/Refines.antt =====
-- The heap of timers refines a map from buckets to times with an earliest entry.
use ashd.Base.{
  ltb, ◌==◌, if◌then◌else◌, ltb→lt, not-ltb→le, ==_iff, Bool-cases, length, ℕ, zero, suc, ◌-◌, ◌≤◌,
  ◌<◌, ◌≡◌, refl, sym, ap, ◌∙◌, ◌≢◌, inl, inr, false, Option, none, some, List, [], ◌∷◌, arith,
}
use ashd.RateQueue.Timers.{
  rest_of, Btime, Timers, at, parent, thadjust, set_timer, remove_timer, first_timer,
}
use ashd.RateQueue.Timers.Places.{time_of}
use ashd.RateQueue.Timers.Order.{key, IsHeap}
use ashd.RateQueue.Timers.Loops.{thadjust-Filled}
use ashd.RateQueue.Timers.Laws.{
  Represents, set_time, remove_time, time_at, Filled-Represents, set_timer-Represents,
}
use ashd.RateQueue.Timers.Remove.{
  rest_of-IsHoled, rest_of-IsOpen, rest_of-IsPlaced, rest_of-IsHeap, rest_of_times, rest_of_gone,
}

time_of-at : (t : Timers) (b n : ℕ) → t.thpos b ≡ some n → time_of t b ≡ some (at t.heap n).tm
time_of-at t b n e = ap (time_at t.heap) e

-- The times that are left.
rest_of_map :
    (t : Timers) (b : ℕ) (m : ℕ → Option ℕ)
    → Represents t m
    → (c : ℕ) → (c ≢ b → t.thpos c ≢ some (length t.heap - 1))
    → time_of (rest_of t b) c ≡ remove_time m b c
rest_of_map t b m r c other = elim (Bool-cases (c == b)) [
  | inl gone ↦
      let same : c ≡ b = (==_iff c b).0 gone in
      ap (time_of (rest_of t b)) same ∙ rest_of_gone t b ∙ rw gone refl
  | inr stays ↦
      let apart : c ≢ b = λ q. ground arith in
      rest_of_times t b m r c apart (other apart) ∙ rw stays refl
]

places_differ :
    (t : Timers) (b d n : ℕ) {c : ℕ} → c ≡ b → t.thpos c ≡ some d → t.thpos b ≡ some n → n ≢ d → ⊥
places_differ t b d n {c} q p e f = let same : some d ≡ some n = sym p ∙ ap t.thpos q ∙ e in f (cc)

set_remove :
    (m : ℕ → Option ℕ) (b c last tm : ℕ)
    → last ≢ b
    → m last ≡ some tm
    → set_time (remove_time m b) last tm c ≡ remove_time m b c
set_remove m b c last tm d e = elim (Bool-cases (c == last)) [
  | inr other ↦ rw other refl
  | inl here ↦
      let same : c ≡ last = (==_iff c last).0 here in
      let stays : (c == b) ≡ false = ground arith in rw (here, stays) (sym (ap m same ∙ e))
]

remove_middle :
    (t : Timers) (m : ℕ → Option ℕ) (b n : ℕ)
    → Represents t m
    → t.thpos b ≡ some n
    → n < length t.heap - 1
    → (t' : Timers) × (thadjust (rest_of t b) (at t.heap (length t.heap - 1)) n ≡ some t')
      × Represents t' (remove_time m b)
remove_middle t m b n r e l =
    let d = length t.heap - 1 in
    let last = at t.heap d in
    let back = r.placed.back d (omega arith) in
    let apart : last.bk ≢ b = λ q. places_differ t b d n q back e (λ z. omega arith) in
    let (t', f, s) =
      Filled-Represents (rest_of t b) last (remove_time m b)
        (thadjust-Filled (rest_of t b) last n (rest_of-IsHoled t b n r.placed e l)
          (rest_of-IsOpen t b n (omega arith) r.heaped))
        (λ c q. rest_of_map t b m r c (λ _ p. q (sym (r.placed.forth c d p).1))) in
    (
      t',
      f,
      record {
        placed = s.placed;
        heaped = s.heaped;
        times = λ c.
            s.times c
            ∙ set_remove m b c last.bk last.tm apart
                (sym (r.times last.bk) ∙ time_of-at t last.bk d back);
      },
    )

remove_last :
    (t : Timers) (m : ℕ → Option ℕ) (b n : ℕ)
    → Represents t m
    → t.thpos b ≡ some n
    → length t.heap - 1 ≤ n
    → Represents (rest_of t b) (remove_time m b)
remove_last t m b n r e l =
    let d = length t.heap - 1 in
    let (inside, own) = r.placed.forth b n e in
    let at_end : n ≡ d = omega arith in
    let last : t.thpos b ≡ some d = e ∙ ap some at_end in
    record {
      placed = rest_of-IsPlaced t b r.placed last;
      heaped = rest_of-IsHeap t b r.heaped;
      times = λ c.
          rest_of_map t b m r c
            (λ q p. q (sym (r.placed.forth c d p).1 ∙ (r.placed.forth b d last).1));
    }

remove_none : (t : Timers) (m : ℕ → Option ℕ) (b c : ℕ) → m b ≡ none → m c ≡ remove_time m b c
remove_none t m b c e = elim (Bool-cases (c == b)) [
  | inr other ↦ rw other refl
  | inl here ↦ rw here (ap m ((==_iff c b).0 here) ∙ e)
]

remove_timer-Represents :
    (t : Timers) (m : ℕ → Option ℕ) (b : ℕ)
    → Represents t m
    → (t' : Timers) × (remove_timer t b ≡ some t') × Represents t' (remove_time m b)
unfolding remove_timer
remove_timer-Represents t m b r = go (t.thpos b) refl
  where
    go :
        (o : Option ℕ)
        → t.thpos b ≡ o
        → (t' : Timers) × (elim o [
          | none ↦ some t
          | some n ↦
              if ltb n (length t.heap - 1)
              then thadjust (rest_of t b) (at t.heap (length t.heap - 1)) n
              else some (rest_of t b)
        ]
            ≡ some t')
          × Represents t' (remove_time m b)
    go none e = (
      t,
      refl,
      record {
        placed = r.placed;
        heaped = r.heaped;
        times = λ c. r.times c ∙ remove_none t m b c (sym (r.times b) ∙ ap (time_at t.heap) e);
      },
    )
    go (some n) e = elim (Bool-cases (ltb n (length t.heap - 1))) [
      | inl inner ↦ rw inner (remove_middle t m b n r e (ltb→lt _ _ inner))
      | inr last ↦ rw last (rest_of t b, refl, remove_last t m b n r e (not-ltb→le _ _ last))
    ]

-- The root of a heap is the earliest entry.
root_least :
    (k : ℕ) (heap : List Btime) (i : ℕ)
    → IsHeap heap
    → i < k
    → i < length heap
    → key heap 0 ≤ key heap i
root_least zero heap i h f l = absurd (omega arith)
root_least (suc k) heap i h f l = ground (arith, h i, root_least k heap (parent i) h)

-- No bucket has a time, or the first timer is the earliest of them.
abbrev pub IsFirst : (ℕ → Option ℕ) → Option Btime → Type 0
IsFirst m none = (c : ℕ) → m c ≡ none
IsFirst m (some bt) = (m bt.bk ≡ some bt.tm) × ((c tm : ℕ) → m c ≡ some tm → bt.tm ≤ tm)

first_timer-IsFirst : (t : Timers) (m : ℕ → Option ℕ) → Represents t m → IsFirst m (first_timer t)
first_timer-IsFirst t m r = go t.heap refl
  where
    found :
        (c : ℕ) (o : Option ℕ)
        → t.thpos c ≡ o
        → ((tm : ℕ) → m c ≡ some tm → (i : ℕ) × (i < length t.heap) × (key t.heap i ≡ tm))
          × (length t.heap ≡ 0 → m c ≡ none)
    found c none e =
        let f : m c ≡ none = sym (r.times c) ∙ ap (time_at t.heap) e in
        (λ tm g. absurd (cc), λ _. f)
    found c (some i) e =
        let (l, _) = r.placed.forth c i e in
        let f : m c ≡ some (key t.heap i) = sym (r.times c) ∙ ap (time_at t.heap) e in
        (λ tm g. (i, l, cc), λ z. absurd (omega arith))

    go :
        (heap : List Btime) → t.heap ≡ heap → IsFirst m (elim heap [ [] ↦ none | bt ∷ _ ↦ some bt ])
    go [] e = λ c. (found c (t.thpos c) refl).1 (ap length e)
    go (bt ∷ rest) e =
        let some_heap : 0 < length t.heap = rw e (omega arith) in
        let root : at t.heap 0 ≡ bt = ap (λ h. at h 0) e in
        let place = r.placed.back 0 some_heap in
        (
          ap m (ap (λ x. x.bk) (sym root))
              ∙ sym (r.times (at t.heap 0).bk)
              ∙ time_of-at t (at t.heap 0).bk 0 place
              ∙ ap (λ x. some x.tm) root,
          λ c tm g.
              let (i, l, k) = (found c (t.thpos c) refl).0 tm g in
              let least = root_least (suc i) t.heap i r.heaped (omega arith) l in
              let same : key t.heap 0 ≡ bt.tm = ap (λ x. x.tm) root in omega arith,
        )

-- Whatever timers are set and removed, the heap goes on to stand for the map from the buckets to
-- their times: setting a timer changes one entry, removing it removes one, both loops end within
-- their fuel, and the bucket that the main loop looks at is one with the earliest time.
pub timers-Represents :
    (t : Timers) (m : ℕ → Option ℕ)
    → Represents t m
    → ((b tm : ℕ) → (t' : Timers) × (set_timer t b tm ≡ some t') × Represents t' (set_time m b tm))
      × ((b : ℕ) → (t' : Timers) × (remove_timer t b ≡ some t') × Represents t' (remove_time m b))
      × IsFirst m (first_timer t)
timers-Represents t m r = (
  λ b tm. set_timer-Represents t m b tm r,
  λ b. remove_timer-Represents t m b r,
  first_timer-IsFirst t m r,
)
