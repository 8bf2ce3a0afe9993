-- ===== src/RateQueue/Bucket/Served.antt =====
-- What one event does to a source.
use native.Mathlib.Nat.{suc-mul, add-mul}
use ashd.Base.{
  ltb, ltb→lt, not-ltb→le, Bool-cases, length, length-append, ℕ, ◌+◌, ◌-◌, ◌*◌, ◌≤◌, ◌<◌, ◌≡◌, refl,
  sym, ap, ◌∙◌, ◌⊎◌, inl, inr, Option, none, some, List, [], ◌∷◌, ◌++◌, append-nil, append_assoc,
  arith,
}
use ashd.RateQueue.Bucket.{
  Config, Bucket, Fate, tickbucket, checkbtime, place, retire, serve_bucket, accept,
}
use ashd.RateQueue.Bucket.Invariant.{
  leaked, tickbucket-Ticked, IsSound, SoundSource, block_same, tickbucket-IsSound, block_keeps,
}

module _ {Request : Type 0} where
  -- What waits in a bucket, and the level that it has come down to.
  abbrev pub waiting : Option (Bucket Request) → List Request
  waiting none = []
  waiting (some bk) = bk.brim

  abbrev pub credit : Config → ℕ → Option (Bucket Request) → ℕ
  credit cf now none = 0
  credit cf now (some bk) = leaked cf now bk

  module _ (cf : Config) where
    -- From a bucket to another one, with what was passed on and what was accepted.
    abbrev pub Moves :
        ℕ → Option (Bucket Request) → Option (Bucket Request) → List Request → List Request → Type 0
    Moves now old new sent accepted =
        (length sent * cf.one + credit cf now old ≤ credit cf now new)
        × (waiting old ++ accepted ≡ sent ++ waiting new)

    leaked_now : (now : ℕ) (bk : Bucket Request) → bk.last ≡ now → leaked cf now bk ≡ bk.level
    leaked_now now bk e =
        let none_gone : now - bk.last ≡ 0 = omega arith in rw none_gone (omega arith)

    no_brim :
        (xs : List Request) (level : ℕ)
        → (0 < length xs → cf.size ≤ level)
        → level < cf.size
        → xs ≡ []
    no_brim [] level f l = refl
    no_brim (x ∷ xs) level f l = let g = f (omega arith) in absurd (omega arith)

    -- A bucket that has just ticked, with what `place` made of it.
    abbrev Places : ℕ → Bucket Request → Request → Bucket Request × List Request × Fate → Type 0
    Places now bk req (bk', sent, fate) =
        (length sent * cf.one + bk.level ≤ bk'.level)
        × (bk'.last ≡ bk.last)
        × (bk.brim ++ accept fate req ≡ sent ++ bk'.brim)
        × (IsSound cf now bk → IsSound cf now bk')

    place-Places :
        (now : ℕ) (bk : Bucket Request) (req : Request)
        → (0 < length bk.brim → cf.size ≤ bk.level)
        → Places now bk req (place cf now bk req)
    unfolding place
    place-Places now bk req full = elim (Bool-cases (ltb bk.level cf.size)) [
      | inl room ↦
          let below : bk.level < cf.size = ltb→lt _ _ room in
          let empty : bk.brim ≡ [] = no_brim bk.brim bk.level full below in
          let one_more = suc-mul 0 cf.one in
          rw room (
            omega (arith, one_more),
            refl,
            ap (λ xs. xs ++ req ∷ []) empty ∙ ap (λ xs. req ∷ xs) (sym empty),
            λ s. record {
              level_bound = omega arith;
              last_bound = s.last_bound;
              brim_bound = s.brim_bound;
              full = λ h. omega (arith, s.full h);
            },
          )
      | inr no_room ↦
          let above : cf.size ≤ bk.level = not-ltb→le _ _ no_room in
          rw no_room (elim (Bool-cases (ltb (length bk.brim) cf.brimsize)) [
            | inl space ↦
                let fits : length bk.brim < cf.brimsize = ltb→lt _ _ space in
                rw space (
                  omega arith,
                  refl,
                  refl,
                  λ s. record {
                    level_bound = s.level_bound;
                    last_bound = s.last_bound;
                    brim_bound = omega (arith, length-append bk.brim (req ∷ []));
                    full = λ h. above;
                  },
                )
            | inr no_space ↦
                let (x, y, z) = block_same cf now bk in
                rw no_space
                  (omega (arith), y, append-nil bk.brim ∙ sym z, λ s. block_keeps cf now bk s)
          ])
    ]

    pub serve_bucket-Moves :
        (now : ℕ) (bk : Bucket Request) (req : Request)
        → Moves now
            (some bk)
            (some (serve_bucket cf now bk req).0)
            (serve_bucket cf now bk req).1
            (accept (serve_bucket cf now bk req).2 req)
    unfolding serve_bucket
    serve_bucket-Moves now bk req =
        let (e, t, o, f, b) = tickbucket-Ticked cf now bk in
        let (c, u, a, _) = place-Places now (tickbucket cf now bk).0 req f in
        let placed = place cf now (tickbucket cf now bk).0 req in
        let level = leaked_now now placed.0 (u ∙ t) in
        let count = length-append (tickbucket cf now bk).1 placed.1 in
        let sum = add-mul (length (tickbucket cf now bk).1) (length placed.1) cf.one in
        (
          rw (level, count, sum) (omega arith),
          ap (λ xs. xs ++ accept placed.2 req) o
              ∙ append_assoc (tickbucket cf now bk).1 (tickbucket cf now bk).0.brim
                  (accept placed.2 req)
              ∙ ap (λ xs. (tickbucket cf now bk).1 ++ xs) a
              ∙ sym (append_assoc (tickbucket cf now bk).1 placed.1 placed.0.brim),
        )

    pub serve_bucket-IsSound :
        (now later : ℕ) (bk : Bucket Request) (req : Request)
        → IsSound cf now bk
        → now ≤ later
        → IsSound cf later (serve_bucket cf later bk req).0
    unfolding serve_bucket
    serve_bucket-IsSound now later bk req s l =
        let (e, t, o, f, b) = tickbucket-Ticked cf later bk in
        let (c, u, a, keeps) = place-Places later (tickbucket cf later bk).0 req f in
        keeps (tickbucket-IsSound cf now later bk s l)

    retire_cases :
        (now : ℕ) (bk : Bucket Request)
        → ((retire cf now bk ≡ some bk) ⊎ ((retire cf now bk ≡ none) × (bk.level ≡ 0)))
    unfolding retire
    retire_cases now bk = ground arith

    pub checkbtime-Moves :
        (now : ℕ) (bk : Bucket Request)
        → 0 < cf.size
        → Moves now (some bk) (checkbtime cf now bk).0 (checkbtime cf now bk).1 []
    unfolding checkbtime
    checkbtime-Moves now bk p =
        let (e, t, o, f, b) = tickbucket-Ticked cf now bk in
        let level = leaked_now now (tickbucket cf now bk).0 t in
        elim (retire_cases now (tickbucket cf now bk).0) [
          | inl stays ↦ rw stays (rw level (omega arith), append-nil bk.brim ∙ o)
          | inr (gone, zero_level) ↦
              let empty =
                no_brim (tickbucket cf now bk).0.brim (tickbucket cf now bk).0.level f
                  (omega arith) in
              rw gone (
                omega arith,
                append-nil bk.brim ∙ o ∙ ap (λ xs. (tickbucket cf now bk).1 ++ xs) empty,
              )
        ]

    pub checkbtime-SoundSource :
        (now later : ℕ) (bk : Bucket Request)
        → IsSound cf now bk
        → now ≤ later
        → SoundSource cf later (checkbtime cf later bk).0
    unfolding checkbtime
    checkbtime-SoundSource now later bk s l = elim (retire_cases later (tickbucket cf later bk).0) [
      | inl stays ↦ rw stays (tickbucket-IsSound cf now later bk s l)
      | inr (gone, _) ↦ rw gone tt
    ]
