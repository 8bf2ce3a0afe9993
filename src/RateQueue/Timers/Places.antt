-- ===== src/RateQueue/Timers/Places.antt =====
-- The places that the buckets have in the heap.
use ashd.Base.{
  ◌==◌, if◌then◌else◌, ==_iff, Bool-cases, length, ℕ, zero, suc, ◌<◌, ◌≡◌, refl, sym, ap, ◌∙◌, ◌≢◌,
  inl, inr, true, false, Option, none, some, List, [], ◌∷◌, arith,
}
use ashd.RateQueue.Timers.{Btime, Timers, at, set, write}

pub length-set : (heap : List Btime) (n : ℕ) (bt : Btime) → length (set heap n bt) ≡ length heap
length-set [] n bt = refl
length-set (y ∷ heap) zero bt = refl
length-set (y ∷ heap) (suc n) bt = omega (arith, length-set heap n bt)

pub at-set :
    (a : List Btime) (i j : ℕ) (v : Btime)
    → i < length a
    → at (set a i v) j ≡ (if i == j then v else at a j)
at-set [] i j v l = absurd (omega arith)
at-set (x ∷ a) zero zero v l = refl
at-set (x ∷ a) zero (suc j) v l = ground arith
at-set (x ∷ a) (suc i) zero v l = ground arith
at-set (x ∷ a) (suc i) (suc j) v l = ground (arith, at-set a i j v)

-- The timer of a bucket: what the heap stands for.
abbrev pub time_of : Timers → ℕ → Option ℕ
time_of t b = elim (t.thpos b) [ none ↦ none | some i ↦ some (at t.heap i).tm ]

-- Each bucket in the heap knows its place, and no other bucket has one.
pub record IsPlaced (t : Timers) : Type 0 where
  pub back : (i : ℕ) → i < length t.heap → t.thpos (at t.heap i).bk ≡ some i
  pub forth : (b i : ℕ) → t.thpos b ≡ some i → (i < length t.heap) × ((at t.heap i).bk ≡ b)

-- The same in the loops: the place `n` is to be filled with an entry of the bucket `b`.
pub record IsHoled (t : Timers) (b n : ℕ) : Type 0 where
  pub inside : n < length t.heap
  pub back : (i : ℕ) → i < length t.heap → i ≢ n → t.thpos (at t.heap i).bk ≡ some i
  pub forth :
      (c i : ℕ)
      → t.thpos c ≡ some i
      → c ≢ b
      → (i < length t.heap) × (i ≢ n) × ((at t.heap i).bk ≡ c)
  pub apart : (i : ℕ) → i < length t.heap → i ≢ n → (at t.heap i).bk ≢ b

-- The other buckets keep their times.
abbrev pub SameTimes : Timers → Timers → ℕ → Type 0
SameTimes t t' b = (c : ℕ) → c ≢ b → time_of t' c ≡ time_of t c

pub write_move :
    (t : Timers) (b n p : ℕ)
    → IsHoled t b n
    → p < length t.heap
    → p ≢ n
    → IsHoled (write t n (at t.heap p)) b p
unfolding write
write_move t b n p h l d = record {
  inside = rw (length-set t.heap n (at t.heap p)) l;
  back = λ i k e. ground (
    arith,
    length-set t.heap n (at t.heap p),
    at-set t.heap n i (at t.heap p),
    h.back i,
    h.back p,
    h.inside,
  );
  forth = λ c i e f. ground (
    arith,
    length-set t.heap n (at t.heap p),
    at-set t.heap n i (at t.heap p),
    h.forth c i,
    h.apart p,
    h.inside,
  );
  apart = λ i k e. ground (
    arith,
    length-set t.heap n (at t.heap p),
    at-set t.heap n i (at t.heap p),
    h.apart i,
    h.apart p,
    h.inside,
  );
}

-- The time at the place `o`, where an entry has just been written to `n`.
abbrev time_at : List Btime → Option ℕ → Option ℕ
time_at heap none = none
time_at heap (some i) = some (at heap i).tm

time_of-time_at : (t : Timers) (b : ℕ) → time_of t b ≡ time_at t.heap (t.thpos b)
time_of-time_at t b = go (t.thpos b)
  where
    go : (o : Option ℕ) → elim o [ none ↦ none | some i ↦ some (at t.heap i).tm ] ≡ time_at t.heap o
    go none = refl
    go (some i) = refl

pub write_other :
    (t : Timers) (b n : ℕ) (bt : Btime)
    → IsHoled t b n
    → (c : ℕ) → c ≢ b
    → c ≢ bt.bk
    → time_of (write t n bt) c ≡ time_of t c
unfolding write
write_other t b n bt h c d e =
    time_of-time_at (write t n bt) c ∙ go (t.thpos c) refl ∙ sym (time_of-time_at t c)
  where
    go :
        (o : Option ℕ)
        → t.thpos c ≡ o
        → time_at (set t.heap n bt) (if c == bt.bk then some n else t.thpos c)
          ≡ time_at t.heap (t.thpos c)
    go none p = rw p (ground arith)
    go (some i) p =
        let (l, other, _) = h.forth c i p d in
        let same : at (set t.heap n bt) i ≡ at t.heap i =
          ground (arith, at-set t.heap n i bt, h.inside) in
        let not_bt : (c == bt.bk) ≡ false = ground arith in rw (not_bt, p, same) refl

pub write_times :
    (t : Timers) (b n p : ℕ)
    → IsHoled t b n
    → p < length t.heap
    → p ≢ n
    → SameTimes t (write t n (at t.heap p)) b
unfolding write
write_times t b n p h l d c e = elim (Bool-cases (c == (at t.heap p).bk)) [
  | inr other ↦
      let apart : c ≢ (at t.heap p).bk = λ q. ground arith in
      write_other t b n (at t.heap p) h c e apart
  | inl moved ↦
      let same : c ≡ (at t.heap p).bk = (==_iff c (at t.heap p).bk).0 moved in
      let old : t.thpos c ≡ some p = ap t.thpos same ∙ h.back p l d in
      let new : at (set t.heap n (at t.heap p)) n ≡ at t.heap p =
        ground (arith, at-set t.heap n n (at t.heap p), h.inside) in
      time_of-time_at (write t n (at t.heap p)) c
      ∙ moved_time c n p moved new
      ∙ sym (time_of-time_at t c ∙ ap (time_at t.heap) old)
]
  where
    moved_time :
        (c n p : ℕ)
        → (c == (at t.heap p).bk) ≡ true
        → at (set t.heap n (at t.heap p)) n ≡ at t.heap p
        → time_at (set t.heap n (at t.heap p)) (if c == (at t.heap p).bk then some n else t.thpos c)
          ≡ some (at t.heap p).tm
    moved_time c n p m e = rw m (ap (λ x. some x.tm) e)

-- The entry of `b` is written to its place.
pub write_fill :
    (t : Timers) (n : ℕ) (bt : Btime)
    → IsHoled t bt.bk n
    → IsPlaced (write t n bt)
      × (time_of (write t n bt) bt.bk ≡ some bt.tm)
      × SameTimes t (write t n bt) bt.bk
unfolding write
write_fill t n bt h = (
  record {
    back = λ i l.
        ground (arith, length-set t.heap n bt, at-set t.heap n i bt, h.back i, h.apart i, h.inside);
    forth = λ c i e.
        ground (arith, length-set t.heap n bt, at-set t.heap n i bt, h.forth c i, h.inside);
  },
  time_of-time_at (write t n bt) bt.bk ∙ own,
  λ c e. write_other t bt.bk n bt h c e e,
)
  where
    own : time_at (set t.heap n bt) (if bt.bk == bt.bk then some n else t.thpos bt.bk) ≡ some bt.tm
    own =
        let self : (bt.bk == bt.bk) ≡ true = (==_iff bt.bk bt.bk).1 refl in
        let new : at (set t.heap n bt) n ≡ bt = ground (arith, at-set t.heap n n bt, h.inside) in
        rw self (ap (λ x. some x.tm) new)
