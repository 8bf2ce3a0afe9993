-- ===== src/RateQueue/Bucket.antt =====
-- src/ratequeue.c `struct bucket` with updbtime, tickbucket, checkbtime and serve, for one source.
-- The source's doubles are numbers in fixed point here: a time counts ticks, a level counts parts
-- of a request, `one` of them to a request, and the rate is in parts by tick. What sendreq passes to
-- the child is returned; where it fails the process exits.
pub mod Invariant
pub mod Served
pub mod Rate
pub mod Order
pub mod Timer
use ashd.Base.{
  ltb, leb, ◌==◌, if◌then◌else◌, length, ℕ, ◌+◌, ◌-◌, ◌*◌, ◌/◌, max, Bool, false, not, ◌&&◌, Option,
  none, some, List, [], ◌∷◌, ◌++◌,
}

-- `struct config`. `one` is the scale of the levels.
pub record Config : Type 0 where
  pub one : ℕ
  pub size : ℕ
  pub rate : ℕ
  pub retain : ℕ
  pub warnrate : ℕ
  pub brimsize : ℕ

-- `blocked` is `none` for -1. The place in the heap of timers is kept with the heap.
pub record Bucket (Request : Type 0) : Type 0 where
  pub level : ℕ
  pub last : ℕ
  pub etime : ℕ
  pub wtime : ℕ
  pub brim : List Request
  pub blocked : Option ℕ

-- What becomes of a request: it is passed on, waits, or is answered with the error 429.
pub data Fate : Type 0 where
  passed : Fate
  waits : Fate
  throttled : Fate

-- What happens to a source, with the time: a request from it, or a round of the main loop that
-- finds its timer run out.
pub data Event (Request : Type 0) : Type 0 where
  request : Request → Event Request
  timeout : Event Request

-- The state of a source: its bucket, if the table has one; the requests passed on so far, and
-- those accepted so far, which are those not answered with an error, each in their order.
pub record Source (Request : Type 0) : Type 0 where
  pub bucket : Option (Bucket Request)
  pub sent : List Request
  pub accepted : List Request

-- `bk->blocked > 0` and `bk->blocked <= 0`.
abbrev pub is_blocked : Option ℕ → Bool
is_blocked none = false
is_blocked (some n) = ltb 0 n

module _ {Request : Type 0} where
  -- A bucket that `hashget` has just made.
  unfoldable pub new_bucket : ℕ → Bucket Request
  new_bucket now = record {
    level = 0;
    last = now;
    etime = now;
    wtime = 0;
    brim = [];
    blocked = none;
  }

  abbrev pub bucket_at : ℕ → Option (Bucket Request) → Bucket Request
  bucket_at now none = new_bucket now
  bucket_at now (some bk) = bk

  abbrev pub accept : Fate → Request → List Request
  accept passed req = req ∷ []
  accept waits req = req ∷ []
  accept throttled req = []

  -- A request that finds the bucket full, and the brim too.
  unfoldable pub block : ℕ → Bucket Request → Bucket Request
  block now bk = elim bk.blocked [
    | none ↦ record bk { blocked = some 1; wtime = now }
    | some n ↦ record bk { blocked = some (n + 1) }
  ]

  module _ (cf : Config) where
    -- The loop of `tickbucket` over the brim: the level, the brim, and the requests passed on.
    unfoldable pub drain : ℕ → List Request → ℕ × List Request × List Request
    drain level [] = (level, [], [])
    drain level (w ∷ brim) =
        let (level', left, sent) = drain (level + cf.one) brim in
        if ltb level cf.size then (level', left, w ∷ sent) else (level, w ∷ brim, [])

    -- The level and `etime` after the time since `last`. Where the level would be negative, `etime`
    -- is the time at which it was 0.
    unfoldable pub leak : ℕ → Bucket Request → ℕ × ℕ
    leak now bk =
        let gone = (now - bk.last) * cf.rate in
        if ltb bk.level gone
        then (0, (if ltb 0 bk.level then now - (gone - bk.level) / cf.rate else bk.etime))
        else (bk.level - gone, bk.etime)

    -- The end of `tickbucket`: the message about blocked requests has been written.
    unfoldable pub warn : ℕ → Bucket Request → Bucket Request
    warn now bk =
        if is_blocked bk.blocked && leb cf.warnrate (now - bk.wtime)
        then record bk { blocked = some 0; wtime = now }
        else bk

    unfoldable pub tickbucket : ℕ → Bucket Request → Bucket Request × List Request
    unfolding drain leak warn
    tickbucket now bk =
        let (level, etime) = leak now bk in
        let (level', brim, sent) = drain level bk.brim in
        (warn now (record bk { level = level'; last = now; etime = etime; brim = brim }), sent)

    -- The time that `updbtime` sets the bucket's timer to.
    unfoldable pub timer : Bucket Request → ℕ
    timer bk =
        let idle =
          if bk.level == 0
          then bk.etime + cf.retain
          else bk.last + bk.level / cf.rate + cf.retain in
        let warning = bk.wtime + cf.warnrate in
        let late = if is_blocked bk.blocked then max idle warning else idle in
        let next = bk.last + (bk.level - cf.size) / cf.rate in
        let drained = if ltb 0 (length bk.brim) && ltb next late then next else late in
        if is_blocked bk.blocked && ltb warning drained then warning else drained

    -- The test of `checkbtime`: `none` where the bucket is freed.
    unfoldable pub retire : ℕ → Bucket Request → Option (Bucket Request)
    retire now bk =
        if bk.level == 0 && leb (bk.etime + cf.retain) now && not (is_blocked bk.blocked)
        then none
        else some bk

    unfoldable pub checkbtime : ℕ → Bucket Request → Option (Bucket Request) × List Request
    unfolding tickbucket retire
    checkbtime now bk = let (ticked, sent) = tickbucket now bk in (retire now ticked, sent)

    -- The three branches of `serve`: the bucket, what is passed on at once, and the fate.
    unfoldable pub place : ℕ → Bucket Request → Request → Bucket Request × List Request × Fate
    unfolding block
    place now bk req =
        if ltb bk.level cf.size
        then (record bk { level = bk.level + cf.one }, req ∷ [], passed)
        else if ltb (length bk.brim) cf.brimsize
        then (record bk { brim = bk.brim ++ req ∷ [] }, [], waits)
        else (block now bk, [], throttled)

    -- `serve` behind `hashget`.
    unfoldable pub serve_bucket :
        ℕ → Bucket Request → Request → Bucket Request × List Request × Fate
    unfolding tickbucket place
    serve_bucket now bk req =
        let (ticked, sent) = tickbucket now bk in
        let (bk', passed_on, fate) = place now ticked req in (bk', sent ++ passed_on, fate)

    unfoldable pub step : ℕ → Event Request → Source Request → Source Request
    unfolding serve_bucket checkbtime
    step now (request req) s =
        let (bk, sent, fate) = serve_bucket now (bucket_at now s.bucket) req in
        record { bucket = some bk; sent = s.sent ++ sent; accepted = s.accepted ++ accept fate req }
    step now timeout s = elim s.bucket [
      | none ↦ s
      | some bk ↦
          let (bk', sent) = checkbtime now bk in
          record { bucket = bk'; sent = s.sent ++ sent; accepted = s.accepted }
    ]

    -- A run: the state and the time that it is left at.
    unfoldable pub run : List (ℕ × Event Request) → ℕ → Source Request → Source Request × ℕ
    unfolding step
    run [] now s = (s, now)
    run ((wait, e) ∷ events) now s = run events (now + wait) (step (now + wait) e s)
