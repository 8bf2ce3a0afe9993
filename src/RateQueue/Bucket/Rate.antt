-- ===== src/RateQueue/Bucket/Rate.antt =====
-- How many requests of one source are passed on in a time.
use native.Mathlib.Nat.{add-mul}
use ashd.Base.{
  length, length-append, ℕ, ◌+◌, ◌-◌, ◌*◌, ◌≤◌, ◌<◌, ◌≡◌, refl, ap, Option, none, some, List, [],
  ◌∷◌, arith,
}
use ashd.RateQueue.Bucket.{
  Config, Bucket, Event, request, timeout, Source, new_bucket, serve_bucket, checkbtime, step, run,
}
use ashd.RateQueue.Bucket.Invariant.{SoundSource, new_bucket-IsSound}
use ashd.RateQueue.Bucket.Served.{
  credit, serve_bucket-Moves, serve_bucket-IsSound, checkbtime-Moves, checkbtime-SoundSource,
}

module _ {Request : Type 0} (cf : Config) (unit : 0 < cf.one) (room : 0 < cf.size) where
  -- A bucket loses no more than the rate in the time that passes.
  credit_wait :
      (now wait : ℕ) (o : Option (Bucket Request))
      → SoundSource cf now o
      → credit cf now o ≤ credit cf (now + wait) o + wait * cf.rate
  credit_wait now wait none s = omega arith
  credit_wait now wait (some bk) s =
      let l = s.last_bound in
      let apart : now + wait - bk.last ≡ (now - bk.last) + wait = omega arith in
      rw (apart, add-mul (now - bk.last) wait cf.rate) (omega arith)

  credit_new : (now : ℕ) (bk : Bucket Request) → bk ≡ new_bucket now → credit cf now (some bk) ≡ 0
  unfolding new_bucket
  credit_new now bk e = let z : bk.level ≡ 0 = ap (λ b. b.level) e in omega arith

  -- What one event does to the requests passed on, the level and the bounds.
  abbrev Earns : ℕ → Source Request → Source Request → Type 0
  Earns now s s' =
      (length s'.sent * cf.one + credit cf now s.bucket
        ≤ length s.sent * cf.one + credit cf now s'.bucket)
      × SoundSource cf now s'.bucket

  request-Earns :
      (now later : ℕ) (o : Option (Bucket Request)) (sent accepted : List Request) (req : Request)
      → SoundSource cf now o
      → now ≤ later
      → Earns later
          (record { bucket = o; sent = sent; accepted = accepted })
          (step cf later (request req) (record { bucket = o; sent = sent; accepted = accepted }))
  unfolding step
  request-Earns now later none sent accepted req s l =
      let fresh : Bucket Request = new_bucket later in
      let (c, _) = serve_bucket-Moves cf later fresh req in
      let zero_credit = credit_new later fresh refl in
      let more = (serve_bucket cf later fresh req).1 in
      let count = length-append sent more in
      let sum = add-mul (length sent) (length more) cf.one in
      (
        rw (count, sum) (omega arith),
        serve_bucket-IsSound cf later later fresh req (new_bucket-IsSound cf later unit)
            (omega arith),
      )
  request-Earns now later (some bk) sent accepted req s l =
      let (c, _) = serve_bucket-Moves cf later bk req in
      let more = (serve_bucket cf later bk req).1 in
      let count = length-append sent more in
      let sum = add-mul (length sent) (length more) cf.one in
      (rw (count, sum) (omega arith), serve_bucket-IsSound cf now later bk req s l)

  weaken :
      (now later : ℕ) (o : Option (Bucket Request))
      → SoundSource cf now o
      → now ≤ later
      → SoundSource cf later o
  weaken now later none s l = tt
  weaken now later (some bk) s l = record {
    level_bound = s.level_bound;
    last_bound = omega (arith, s.last_bound);
    brim_bound = s.brim_bound;
    full = s.full;
  }

  timeout-Earns :
      (now later : ℕ) (o : Option (Bucket Request)) (sent accepted : List Request)
      → SoundSource cf now o
      → now ≤ later
      → Earns later
          (record { bucket = o; sent = sent; accepted = accepted })
          (step cf later timeout (record { bucket = o; sent = sent; accepted = accepted }))
  unfolding step
  timeout-Earns now later none sent accepted s l = (omega arith, tt)
  timeout-Earns now later (some bk) sent accepted s l =
      let (c, _) = checkbtime-Moves cf later bk room in
      let more = (checkbtime cf later bk).1 in
      let count = length-append sent more in
      let sum = add-mul (length sent) (length more) cf.one in
      (rw (count, sum) (omega arith), checkbtime-SoundSource cf now later bk s l)

  step-Earns :
      (now later : ℕ) (e : Event Request) (s : Source Request)
      → SoundSource cf now s.bucket
      → now ≤ later
      → Earns later s (step cf later e s)
  step-Earns now later (request req) s = request-Earns now later s.bucket s.sent s.accepted req
  step-Earns now later timeout s = timeout-Earns now later s.bucket s.sent s.accepted

  run_Earns :
      (events : List (ℕ × Event Request)) (now : ℕ) (s : Source Request)
      → SoundSource cf now s.bucket
      → (length (run cf events now s).0.sent * cf.one + credit cf now s.bucket
          ≤ length s.sent * cf.one
            + credit cf (run cf events now s).1 (run cf events now s).0.bucket
            + ((run cf events now s).1 - now) * cf.rate)
        × SoundSource cf (run cf events now s).1 (run cf events now s).0.bucket
        × (now ≤ (run cf events now s).1)
  unfolding run
  run_Earns [] now s sound = (omega arith, sound, omega arith)
  run_Earns ((wait, e) ∷ events) now s sound =
      let later = now + wait in
      let (c, sound') = step-Earns now later e s sound (omega arith) in
      let next = step cf later e s in
      let (d, sound'', l) = run_Earns events later next sound' in
      let end = (run cf events later next).1 in
      let w = credit_wait now wait s.bucket sound in
      let apart : end - now ≡ (end - later) + wait = omega arith in
      let sum = add-mul (end - later) wait cf.rate in
      (rw (apart, sum) (omega arith), sound'', omega arith)

  credit_bound :
      (now : ℕ) (o : Option (Bucket Request))
      → SoundSource cf now o
      → credit cf now o < cf.size + cf.one
  credit_bound now none s = omega arith
  credit_bound now (some bk) s = let l = s.level_bound in omega arith

  -- Whatever a source sends, from any time on, and whenever its timer is looked at, the requests of
  -- it that are passed on take less than the size, one request more and the rate for the time
  -- that has passed. The bucket of the source stays sound.
  pub run_rate :
      (events : List (ℕ × Event Request)) (now : ℕ) (s : Source Request)
      → SoundSource cf now s.bucket
      → (length (run cf events now s).0.sent * cf.one
          < length s.sent * cf.one + (cf.size + cf.one + ((run cf events now s).1 - now) * cf.rate))
        × SoundSource cf (run cf events now s).1 (run cf events now s).0.bucket
  run_rate events now s sound =
      let (c, sound', l) = run_Earns events now s sound in
      let b = credit_bound (run cf events now s).1 (run cf events now s).0.bucket sound' in
      (omega arith, sound')
