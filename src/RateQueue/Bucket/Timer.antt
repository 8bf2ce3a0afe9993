-- ===== src/RateQueue/Bucket/Timer.antt =====
-- The timer of a bucket in which requests wait, and what a look at it passes on.
pub mod Looks
use native.Mathlib.Nat.{div-lt_iff_lt-mul}
use ashd.Base.{lt→ltb, length, ℕ, ◌+◌, ◌-◌, ◌*◌, ◌/◌, ◌≤◌, ◌<◌, ◌≡◌, refl, ap, List, ◌∷◌, arith}
use ashd.RateQueue.Bucket.{
  Config, Bucket, Event, timeout, Source, drain, leak, tickbucket, timer, checkbtime, step, run,
}
use ashd.RateQueue.Bucket.Invariant.{leaked, leak_level}
use ashd.RateQueue.Bucket.Served.{waiting, checkbtime-Moves}
use ashd.RateQueue.Bucket.Order.{Conserved, step-Conserved}

module _ {Request : Type 0} (cf : Config) where
  -- The time by which the level of a bucket is down to the size.
  abbrev pub due : Bucket Request → ℕ
  due bk = bk.last + (bk.level - cf.size) / cf.rate

  pub timer_early : (bk : Bucket Request) → 0 < length bk.brim → timer cf bk ≤ due bk
  unfolding timer
  timer_early bk p = ground arith

  pub room_later :
      (later : ℕ) (bk : Bucket Request)
      → 0 < cf.size
      → 0 < cf.rate
      → due bk < later
      → leaked cf later bk < cf.size
  room_later later bk p r l =
      let gone : bk.level - cf.size < (later - bk.last) * cf.rate =
        (div-lt_iff_lt-mul {k = cf.rate} {x = bk.level - cf.size} {y = later - bk.last} r).0
          (omega arith) in
      omega arith

  drain_head :
      (level : ℕ) (brim : List Request) (w : Request) (ws : List Request)
      → brim ≡ w ∷ ws
      → level < cf.size
      → drain cf level brim ≡ (
        (drain cf (level + cf.one) ws).0,
        (drain cf (level + cf.one) ws).1,
        w ∷ (drain cf (level + cf.one) ws).2,
      )
  unfolding drain
  drain_head level brim w ws e l = rw (e, lt→ltb _ _ l) refl

  pub checkbtime_head :
      (bk : Bucket Request) (w : Request) (ws : List Request) (later : ℕ)
      → bk.brim ≡ w ∷ ws
      → leaked cf later bk < cf.size
      → (more : List Request) × ((checkbtime cf later bk).1 ≡ w ∷ more)
  unfolding checkbtime tickbucket
  checkbtime_head bk w ws later e room =
      let level = (leak cf later bk).0 in
      let below : level < cf.size = rw (leak_level cf later bk) room in
      ((drain cf (level + cf.one) ws).2, ap (λ r. r.2) (drain_head level bk.brim w ws e below))
