-- ===== src/RateQueue/Bucket/Timer/Looks.antt =====
-- src/ratequeue.c main: the rounds that look at a bucket by its timer. poll is called with the time
-- up to a tenth of a second behind the first timer, so a look comes behind it, not at it.
use native.Mathlib.Nat.{suc-mul, le-div_iff_mul-le, div-mul-le_self}
use ashd.Base.{
  ltb, leb, ◌==◌, if◌then◌else◌, ltb→lt, not-ltb→le, Bool-cases, length, length-append, ℕ, ◌+◌, ◌-◌,
  ◌*◌, ◌/◌, ◌≤◌, ◌<◌, max, ◌≡◌, refl, sym, ap, ◌∙◌, inl, inr, Bool, true, false, not, ◌&&◌, Option,
  none, some, List, [], ◌∷◌, ◌++◌, append-nil, arith,
}
use ashd.RateQueue.Bucket.{
  Config, Bucket, timeout, Source, is_blocked, warn, tickbucket, timer, retire, checkbtime, step,
  leak, drain,
}
use ashd.RateQueue.Bucket.Invariant.{leaked, IsSound, SoundSource}
use ashd.RateQueue.Bucket.Served.{waiting, checkbtime-Moves, checkbtime-SoundSource}
use ashd.RateQueue.Bucket.Order.{Conserved, step-Conserved}
use ashd.RateQueue.Bucket.Timer.{timer_early, room_later, checkbtime_head}

div_mono : (a b k : ℕ) → 0 < k → a ≤ b → a / k ≤ b / k
div_mono a b k p l =
    (le-div_iff_mul-le {k = k} {x = a / k} {y = b} p).1 (let m = div-mul-le_self a k in omega arith)

abbrev pub total : List ℕ → ℕ
total [] = 0
total (d ∷ ds) = d + total ds

-- One look for a message about blocked requests.
abbrev pub flag : Option ℕ → ℕ
flag o = if is_blocked o then 1 else 0

module _ {Request : Type 0} (cf : Config) where
  -- The first tick behind the timer of the bucket, and behind now.
  abbrev pub look_time : ℕ → Bucket Request → ℕ
  look_time now bk = max now (timer cf bk) + 1

  -- The main loop's looks at a source, as long as requests wait in its bucket: each comes so many
  -- ticks after the first one behind the timer that updbtime has set by then. The source, and the
  -- time.
  unfoldable pub looks : List ℕ → ℕ → Source Request → Source Request × ℕ
  unfolding step
  looks [] now s = (s, now)
  looks (d ∷ ds) now s = elim s.bucket [
    | none ↦ (s, now)
    | some bk ↦ elim bk.brim [
      | [] ↦ (s, now)
      | _ ∷ _ ↦ looks ds (look_time now bk + d) (step cf (look_time now bk + d) timeout s)
    ]
  ]

  -- How many looks a bucket takes at most.
  abbrev pub load : Option (Bucket Request) → ℕ
  load none = 0
  load (some bk) = length bk.brim + flag bk.blocked

  flag-warn :
      (now : ℕ) (bk : Bucket Request)
      → (flag (warn cf now bk).blocked ≤ flag bk.blocked)
        × (bk.wtime + cf.warnrate ≤ now → flag (warn cf now bk).blocked ≡ 0)
        × ((warn cf now bk).brim ≡ bk.brim)
  unfolding warn
  flag-warn now bk = elim (Bool-cases (is_blocked bk.blocked)) [
    | inr calm ↦ rw calm (rw calm (omega arith), λ l. rw calm refl, refl)
    | inl busy ↦ elim (Bool-cases (leb cf.warnrate (now - bk.wtime))) [
      | inl e ↦ rw (busy, e) (omega arith, λ l. refl, refl)
      | inr e ↦ rw (busy, e) (rw busy (omega arith), λ l. absurd (ground arith), refl)
    ]
  ]

  flag-tickbucket :
      (later : ℕ) (bk : Bucket Request)
      → (flag (tickbucket cf later bk).0.blocked ≤ flag bk.blocked)
        × (bk.wtime + cf.warnrate ≤ later → flag (tickbucket cf later bk).0.blocked ≡ 0)
  unfolding tickbucket
  flag-tickbucket later bk =
      let (a, b, _) = flag-warn later (record bk {
        level = (drain cf (leak cf later bk).0 bk.brim).0;
        last = later;
        etime = (leak cf later bk).1;
        brim = (drain cf (leak cf later bk).0 bk.brim).1;
      }) in
      (a, b)

  load-retire :
      (now : ℕ) (bk : Bucket Request)
      → load (retire cf now bk) ≤ length (waiting (retire cf now bk)) + flag bk.blocked
  unfolding retire
  load-retire now bk =
      go (bk.level == 0 && leb (bk.etime + cf.retain) now && not (is_blocked bk.blocked))
    where
      go :
          (b : Bool)
          → load (if b then none else some bk)
            ≤ length (waiting (if b then none else some bk)) + flag bk.blocked
      go true = omega arith
      go false = omega arith

  -- The timer runs out before the level is down only for the message.
  early_is_warning :
      (later : ℕ) (bk : Bucket Request)
      → 0 < cf.rate
      → 0 < cf.size
      → 0 < length bk.brim
      → timer cf bk < later
      → cf.size ≤ leaked cf later bk
      → (is_blocked bk.blocked ≡ true) × (bk.wtime + cf.warnrate ≤ later)
  unfolding timer
  early_is_warning later bk r p b l full =
      let whole = div_mono (bk.level - cf.size) bk.level cf.rate r (omega arith) in
      let some_level : (bk.level == 0) ≡ false = ground arith in
      elim (Bool-cases (is_blocked bk.blocked)) [
        | inr calm ↦ absurd (let over = room_later cf later bk p r in ground arith)
        | inl busy ↦ let over = room_later cf later bk p r in (busy, ground arith)
      ]

  load-checkbtime :
      (now later : ℕ) (bk : Bucket Request) (w : Request) (ws : List Request)
      → 0 < cf.rate
      → 0 < cf.size
      → bk.brim ≡ w ∷ ws
      → timer cf bk < later
      → load (checkbtime cf later bk).0 < load (some bk)
  unfolding checkbtime
  load-checkbtime now later bk w ws r p e l =
      let (_, m) = checkbtime-Moves cf later bk p in
      let sent = (checkbtime cf later bk).1 in
      let left = waiting (checkbtime cf later bk).0 in
      let size = length-append sent left in
      let same = ap length m in
      let none_more = length-append bk.brim [] in
      let (calmer, calm) = flag-tickbucket later bk in
      let kept = load-retire later (tickbucket cf later bk).0 in
      elim (Bool-cases (ltb (leaked cf later bk) cf.size)) [
        | inl room ↦
            let (more, sends) = checkbtime_head cf bk w ws later e (ltb→lt _ _ room) in
            let some_sent = ap length sends in omega arith
        | inr full ↦
            let b : 0 < length bk.brim = let n = ap length e in omega arith in
            let (busy, time) = early_is_warning later bk r p b l (not-ltb→le _ _ full) in
            let now_calm = calm time in let one : flag bk.blocked ≡ 1 = rw busy refl in omega arith
      ]

  -- The source after such looks, as long as requests wait, has passed on all that it had accepted,
  -- and the time is bounded.
  abbrev pub Serves : List ℕ → ℕ → List Request → Source Request × ℕ → Type 0
  Serves ds now accepted (s, later) =
      (s.sent ≡ accepted) × (later ≤ now + length ds * (cf.one / cf.rate + 1) + total ds)

  empty : (xs : List Request) → length xs ≤ 0 → xs ≡ []
  empty [] l = refl
  empty (x ∷ xs) l = absurd (omega arith)

  look_soon :
      (now : ℕ) (bk : Bucket Request)
      → 0 < cf.rate
      → 0 < length bk.brim
      → IsSound cf now bk
      → look_time now bk ≤ now + (cf.one / cf.rate + 1)
  look_soon now bk r b s =
      let early = timer_early cf bk b in
      let over = s.level_bound in
      let seen = s.last_bound in
      let whole = div_mono (bk.level - cf.size) cf.one cf.rate r (omega arith) in omega arith

  module _ (room : 0 < cf.size) (moving : 0 < cf.rate) where
    idle :
        (ds : List ℕ) (now : ℕ) (o : Option (Bucket Request)) (sent accepted : List Request)
        → waiting o ≡ []
        → sent ++ waiting o ≡ accepted
        → Serves ds now accepted (record { bucket = o; sent = sent; accepted = accepted }, now)
    idle ds now o sent accepted e c =
        (sym (append-nil sent) ∙ ap (λ xs. sent ++ xs) (sym e) ∙ c, omega arith)

    later_Serves :
        (d : ℕ) (ds : List ℕ) (now later : ℕ) (accepted : List Request) (r : Source Request × ℕ)
        → later ≤ now + (cf.one / cf.rate + 1) + d
        → Serves ds later accepted r
        → Serves (d ∷ ds) now accepted r
    later_Serves d ds now later accepted r l (e, t) =
        let more = suc-mul (length ds) (cf.one / cf.rate + 1) in (e, omega arith)

    looks_on :
        (ds : List ℕ) (now : ℕ) (o : Option (Bucket Request)) (sent accepted : List Request)
        → SoundSource cf now o
        → sent ++ waiting o ≡ accepted
        → load o ≤ length ds
        → Serves ds now accepted
            (looks ds now (record { bucket = o; sent = sent; accepted = accepted }))
    unfolding looks step
    looks_on [] now none sent accepted s c l = idle [] now none sent accepted refl c
    looks_on (d ∷ ds) now none sent accepted s c l = idle (d ∷ ds) now none sent accepted refl c
    looks_on [] now (some bk) sent accepted s c l =
        idle [] now (some bk) sent accepted (empty bk.brim (omega arith)) c
    looks_on (d ∷ ds) now (some bk) sent accepted s c l = go bk.brim refl (λ w ws e.
        let later = look_time now bk + d in
        let after = checkbtime cf later bk in
        let fewer = load-checkbtime now later bk w ws moving room e (omega arith) in
        let soon = look_soon now bk moving (let n = ap length e in omega arith) s in
        let seen = s.last_bound in
        later_Serves d ds now later accepted
          (looks ds later
            (record { bucket = after.0; sent = sent ++ after.1; accepted = accepted }))
          (omega arith)
          (looks_on ds later after.0 (sent ++ after.1) accepted
            (checkbtime-SoundSource cf now later bk s (omega arith))
            (step-Conserved cf room later timeout
              (record { bucket = some bk; sent = sent; accepted = accepted }) c)
            (omega arith)))
      where
        go :
            (brim : List Request)
            → bk.brim ≡ brim
            → ((w : Request) (ws : List Request)
                → bk.brim ≡ w ∷ ws
                → Serves (d ∷ ds) now accepted (
                    looks ds (look_time now bk + d) (
                      step cf
                        (look_time now bk + d)
                        timeout
                        (record { bucket = some bk; sent = sent; accepted = accepted }))))
            → Serves (d ∷ ds) now accepted (elim brim [
              | [] ↦ (record { bucket = some bk; sent = sent; accepted = accepted }, now)
              | _ ∷ _ ↦ looks ds (look_time now bk + d) (
                  step cf
                    (look_time now bk + d)
                    timeout
                    (record { bucket = some bk; sent = sent; accepted = accepted }))
            ])
        go [] e next = idle (d ∷ ds) now (some bk) sent accepted e c
        go (w ∷ ws) e next = next w ws e

    -- For a size and a rate above 0, and a source whose bucket keeps to its bounds and where what
    -- was passed on and what waits is all that was accepted: if the main loop looks at the bucket
    -- each time that the timer which updbtime sets has run out, then after as many looks as
    -- requests wait, and one more if requests were blocked, every accepted request has been
    -- passed on, and it has taken no longer than one/rate + 1 ticks for a look and the ticks by
    -- which the looks were late.
    pub looks-Serves :
        (ds : List ℕ) (now : ℕ) (s : Source Request)
        → SoundSource cf now s.bucket
        → Conserved cf room s
        → load s.bucket ≤ length ds
        → Serves ds now s.accepted (looks ds now s)
    looks-Serves ds now s sound c l = looks_on ds now s.bucket s.sent s.accepted sound c l
