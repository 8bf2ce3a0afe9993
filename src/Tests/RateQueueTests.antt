-- ===== src/Tests/RateQueueTests.antt =====
-- Tests of src/ratequeue.c. A request is a number, the scale of the levels is 10.
use ashd.Base.{
  ◌==◌, if◌then◌else◌, length, ℕ, zero, suc, ◌+◌, ◌-◌, ◌*◌, ◌≤◌, ◌<◌, ◌≡◌, refl, Option, none, some,
  List, [], ◌∷◌, arith,
}
use ashd.RateQueue.Bucket.{Config, Bucket, Event, request, timeout, Source, checkbtime, timer, run}
use ashd.RateQueue.Bucket.Invariant.{SoundSource}
use ashd.RateQueue.Bucket.Order.{Conserved, run-Conserved}
use ashd.RateQueue.Bucket.Rate.{run_rate}
use ashd.RateQueue.Timers.{Timers, set_timer, remove_timer, first_timer, at, parent}
use ashd.RateQueue.Timers.Order.{key}
use ashd.RateQueue.Timers.Places.{time_of}
use ashd.RateQueue.Timers.Laws.{Represents, set_time, remove_time}
use ashd.RateQueue.Timers.Refines.{IsFirst, timers-Represents}
use ashd.RateQueue.Bucket.Timer.Looks.{Serves, looks, looks-Serves}

-- Two requests at once, two that wait, and one request by ten ticks.
abbrev two_at_once : Config
two_at_once = record { one = 10; size = 20; rate = 1; retain = 100; warnrate = 600; brimsize = 2 }

abbrev nothing_sent : Source ℕ
nothing_sent = record { bucket = none; sent = []; accepted = [] }

-- Six requests at once, and the timer after twelve ticks.
abbrev burst : List (ℕ × Event ℕ)
burst =
    (0, request 1)
    ∷ (0, request 2)
    ∷ (0, request 3)
    ∷ (0, request 4)
    ∷ (0, request 5)
    ∷ (12, timeout)
    ∷ []

burst_runs : run two_at_once burst 7 nothing_sent ≡ (
  record {
    bucket =
        some (record { level = 28; last = 19; etime = 7; wtime = 7; brim = []; blocked = some 1 });
    sent = 1 ∷ 2 ∷ 3 ∷ 4 ∷ [];
    accepted = 1 ∷ 2 ∷ 3 ∷ 4 ∷ [];
  },
  19,
)
unfolding run ashd.RateQueue.Bucket.new_bucket
burst_runs = refl

-- The bucket at the time 7, after four of these requests.
abbrev full_bucket : Bucket ℕ
full_bucket = record {
  level = 20;
  last = 7;
  etime = 7;
  wtime = 0;
  brim = 3 ∷ 4 ∷ [];
  blocked = none;
}

abbrev full_source : Source ℕ
full_source = record { bucket = some full_bucket; sent = 1 ∷ 2 ∷ []; accepted = 1 ∷ 2 ∷ 3 ∷ 4 ∷ [] }

run_rate_example :
    (length (run two_at_once burst 7 full_source).0.sent * 10
      < 20 + (30 + ((run two_at_once burst 7 full_source).1 - 7) * 1))
    × SoundSource two_at_once
        (run two_at_once burst 7 full_source).1
        (run two_at_once burst 7 full_source).0.bucket
run_rate_example = run_rate two_at_once (omega arith) (omega arith) burst 7 full_source (record {
  level_bound = omega arith;
  last_bound = omega arith;
  brim_bound = omega arith;
  full = λ _. omega arith;
})

run-Conserved_example : Conserved two_at_once (omega arith) (run two_at_once burst 7 full_source).0
run-Conserved_example = run-Conserved two_at_once (omega arith) burst 7 full_source refl

looks-Serves_example :
    Serves two_at_once
      (0 ∷ 3 ∷ 0 ∷ [])
      7
      (1 ∷ 2 ∷ 3 ∷ 4 ∷ [])
      (looks two_at_once (0 ∷ 3 ∷ 0 ∷ []) 7 full_source)
looks-Serves_example =
    looks-Serves two_at_once (omega arith) (omega arith) (0 ∷ 3 ∷ 0 ∷ []) 7 full_source
      (omega arith) refl (omega arith)

-- Two buckets with a timer each.
abbrev two_timers : Timers
two_timers = record {
  heap = record { bk = 4; tm = 10 } ∷ record { bk = 9; tm = 30 } ∷ [];
  thpos = λ b. if b == 4 then some 0 else if b == 9 then some 1 else none;
}

abbrev two_times : ℕ → Option ℕ
two_times b = if b == 4 then some 10 else if b == 9 then some 30 else none

two_timers-back : (i : ℕ) → i < 2 → two_timers.thpos (at two_timers.heap i).bk ≡ some i
two_timers-back zero l = refl
two_timers-back (suc zero) l = refl
two_timers-back (suc (suc i)) l = absurd (omega arith)

two_timers-forth :
    (b i : ℕ) → two_timers.thpos b ≡ some i → (i < 2) × ((at two_timers.heap i).bk ≡ b)
two_timers-forth b i e = ground arith

two_timers-IsHeap : (c : ℕ) → 0 < c → c < 2 → key two_timers.heap (parent c) ≤ key two_timers.heap c
two_timers-IsHeap zero p l = absurd (omega arith)
two_timers-IsHeap (suc zero) p l = omega arith
two_timers-IsHeap (suc (suc c)) p l = absurd (omega arith)

two_timers-times : (c : ℕ) → time_of two_timers c ≡ two_times c
two_timers-times c = ground arith

timers-Represents_example :
    ((b tm : ℕ)
      → (t' : Timers) × (set_timer two_timers b tm ≡ some t')
        × Represents t' (set_time two_times b tm))
    × ((b : ℕ)
        → (t' : Timers) × (remove_timer two_timers b ≡ some t')
          × Represents t' (remove_time two_times b))
    × IsFirst two_times (first_timer two_timers)
timers-Represents_example = timers-Represents two_timers two_times (record {
  placed = record { back = two_timers-back; forth = two_timers-forth };
  heaped = two_timers-IsHeap;
  times = two_timers-times;
})
