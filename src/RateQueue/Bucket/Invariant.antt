-- ===== src/RateQueue/Bucket/Invariant.antt =====
-- What one tick of a bucket does, and what every bucket in the table keeps to.
use native.Mathlib.Nat.{suc-mul}
use ashd.Base.{
  ltb, leb, if◌then◌else◌, ltb→lt, not-ltb→le, Bool-cases, length, length-append, ℕ, ◌+◌, ◌-◌, ◌*◌,
  ◌≤◌, ◌<◌, ◌≡◌, refl, ap, ◌∙◌, inl, inr, Bool, true, false, ◌&&◌, Option, none, some, List, [],
  ◌∷◌, ◌++◌, arith,
}
use ashd.RateQueue.Bucket.{
  Config, Bucket, new_bucket, drain, leak, warn, tickbucket, block, is_blocked,
}

module _ {Request : Type 0} (cf : Config) where
  -- What `drain` makes of a level and a brim.
  abbrev Drains : ℕ → List Request → ℕ × List Request × List Request → Type 0
  Drains level brim (level', left, sent) =
      (level' ≡ level + length sent * cf.one)
      × (brim ≡ sent ++ left)
      × (0 < length left → cf.size ≤ level')
      × (level < cf.size + cf.one → level' < cf.size + cf.one)

  drain-Drains : (level : ℕ) (brim : List Request) → Drains level brim (drain cf level brim)
  unfolding drain
  drain-Drains level [] = (omega arith, refl, λ h. absurd (omega arith), λ h. h)
  drain-Drains level (w ∷ brim) = elim (Bool-cases (ltb level cf.size)) [
    | inl room ↦
        let (e, o, f, b) = drain-Drains (level + cf.one) brim in
        let below : level < cf.size = ltb→lt _ _ room in
        let more = suc-mul (length (drain cf (level + cf.one) brim).2) cf.one in
        rw room (omega (arith), ap (◌∷◌ w) o, f, λ h. b (omega arith))
    | inr full ↦
        let above : cf.size ≤ level = not-ltb→le _ _ full in
        rw full (omega arith, refl, λ h. above, λ h. h)
  ]

  -- The level that a bucket has come down to since it was last looked at.
  abbrev pub leaked : ℕ → Bucket Request → ℕ
  leaked now bk = bk.level - (now - bk.last) * cf.rate

  pub leak_level : (now : ℕ) (bk : Bucket Request) → (leak cf now bk).0 ≡ leaked now bk
  unfolding leak
  leak_level now bk = ground arith

  warn_keeps :
      (now : ℕ) (bk : Bucket Request)
      → ((warn cf now bk).level ≡ bk.level)
        × ((warn cf now bk).last ≡ bk.last)
        × ((warn cf now bk).brim ≡ bk.brim)
  unfolding warn
  warn_keeps now bk = go (is_blocked bk.blocked && leb cf.warnrate (now - bk.wtime))
    where
      go :
          (b : Bool)
          → (let r : Bucket Request =
                if b then record bk { blocked = some 0; wtime = now } else bk in
              (r.level ≡ bk.level) × (r.last ≡ bk.last) × (r.brim ≡ bk.brim))
      go true = (refl, refl, refl)
      go false = (refl, refl, refl)

  -- A bucket after a tick, with what was passed on.
  abbrev pub Ticked : ℕ → Bucket Request → Bucket Request → List Request → Type 0
  Ticked now bk bk' sent =
      (bk'.level ≡ leaked now bk + length sent * cf.one)
      × (bk'.last ≡ now)
      × (bk.brim ≡ sent ++ bk'.brim)
      × (0 < length bk'.brim → cf.size ≤ bk'.level)
      × (bk.level < cf.size + cf.one → bk'.level < cf.size + cf.one)

  pub tickbucket-Ticked :
      (now : ℕ) (bk : Bucket Request)
      → Ticked now bk (tickbucket cf now bk).0 (tickbucket cf now bk).1
  unfolding tickbucket
  tickbucket-Ticked now bk =
      let (e, o, f, b) = drain-Drains (leak cf now bk).0 bk.brim in
      let l = leak_level now bk in
      let (x, y, z) = warn_keeps now (record bk {
        level = (drain cf (leak cf now bk).0 bk.brim).0;
        last = now;
        etime = (leak cf now bk).1;
        brim = (drain cf (leak cf now bk).0 bk.brim).1;
      }) in
      rw (x, y, z) (omega arith, refl, o, f, λ h. b (omega arith))

  -- The bucket at a time: its level is less than one request above the size, the brim holds no more
  -- than it may, and nothing waits while there is room.
  pub record IsSound (now : ℕ) (bk : Bucket Request) : Type 0 where
    pub level_bound : bk.level < cf.size + cf.one
    pub last_bound : bk.last ≤ now
    pub brim_bound : length bk.brim ≤ cf.brimsize
    pub full : 0 < length bk.brim → cf.size ≤ bk.level

  abbrev pub SoundSource : ℕ → Option (Bucket Request) → Type 0
  SoundSource now none = Unit
  SoundSource now (some bk) = IsSound now bk

  pub new_bucket-IsSound : (now : ℕ) → 0 < cf.one → IsSound now (new_bucket {Request = Request} now)
  unfolding new_bucket
  new_bucket-IsSound now p = omega arith

  pub tickbucket-IsSound :
      (now later : ℕ) (bk : Bucket Request)
      → IsSound now bk
      → now ≤ later
      → IsSound later (tickbucket cf later bk).0
  tickbucket-IsSound now later bk s l =
      let (e, t, o, f, b) = tickbucket-Ticked later bk in
      let total =
        ap length o ∙ length-append (tickbucket cf later bk).1 (tickbucket cf later bk).0.brim in
      record {
        level_bound = b s.level_bound;
        last_bound = omega arith;
        brim_bound = omega (arith, s.brim_bound);
        full = f;
      }

  pub block_keeps : (now : ℕ) (bk : Bucket Request) → IsSound now bk → IsSound now (block now bk)
  unfolding block
  block_keeps now bk s = go bk.blocked
    where
      go :
          (o : Option ℕ)
          → IsSound now (elim o [
            | none ↦ record bk { blocked = some 1; wtime = now }
            | some n ↦ record bk { blocked = some (n + 1) }
          ])
      go none = omega (arith, s.level_bound)
      go (some n) = omega (arith, s.level_bound)

  pub block_same :
      (now : ℕ) (bk : Bucket Request)
      → ((block now bk).level ≡ bk.level)
        × ((block now bk).last ≡ bk.last)
        × ((block now bk).brim ≡ bk.brim)
  unfolding block
  block_same now bk = go bk.blocked
    where
      go :
          (o : Option ℕ)
          → (let r : Bucket Request = elim o [
            | none ↦ record bk { blocked = some 1; wtime = now }
            | some n ↦ record bk { blocked = some (n + 1) }
          ] in
              (r.level ≡ bk.level) × (r.last ≡ bk.last) × (r.brim ≡ bk.brim))
      go none = (refl, refl, refl)
      go (some n) = (refl, refl, refl)
