-- ===== src/RateQueue/Bucket/Order.antt =====
-- Every request that is accepted is passed on, in its turn.
use ashd.Base.{
  ℕ, ◌+◌, ◌<◌, ◌≡◌, refl, sym, ap, ◌∙◌, Option, none, some, List, [], ◌∷◌, ◌++◌, append-nil,
  append_assoc,
}
use ashd.RateQueue.Bucket.{
  Config, Bucket, Event, request, timeout, Source, new_bucket, serve_bucket, checkbtime, accept,
  step, run,
}
use ashd.RateQueue.Bucket.Served.{waiting, serve_bucket-Moves, checkbtime-Moves}

module _ {Request : Type 0} (cf : Config) (room : 0 < cf.size) where
  -- Passed on or waiting, in this order: that is all that was accepted.
  abbrev pub Conserved : Source Request → Type 0
  Conserved s = s.sent ++ waiting s.bucket ≡ s.accepted

  regroup :
      (sent more old new accepted taken : List Request)
      → sent ++ old ≡ accepted
      → old ++ taken ≡ more ++ new
      → (sent ++ more) ++ new ≡ accepted ++ taken
  regroup sent more old new accepted taken e f =
      append_assoc sent more new
      ∙ ap (λ xs. sent ++ xs) (sym f)
      ∙ sym (append_assoc sent old taken)
      ∙ ap (λ xs. xs ++ taken) e

  new_brim : (now : ℕ) (bk : Bucket Request) → bk ≡ new_bucket now → bk.brim ≡ []
  unfolding new_bucket
  new_brim now bk e = ap (λ b. b.brim) e

  request-Conserved :
      (now : ℕ) (o : Option (Bucket Request)) (sent accepted : List Request) (req : Request)
      → sent ++ waiting o ≡ accepted
      → Conserved
          (step cf now (request req) (record { bucket = o; sent = sent; accepted = accepted }))
  unfolding step
  request-Conserved now none sent accepted req e =
      let fresh : Bucket Request = new_bucket now in
      let (_, m) = serve_bucket-Moves cf now fresh req in
      let (bk, more, fate) = serve_bucket cf now fresh req in
      regroup sent more [] bk.brim accepted (accept fate req) e
        (ap (λ xs. xs ++ accept fate req) (sym (new_brim now fresh refl)) ∙ m)
  request-Conserved now (some bk) sent accepted req e =
      let (_, m) = serve_bucket-Moves cf now bk req in
      let (bk', more, fate) = serve_bucket cf now bk req in
      regroup sent more bk.brim bk'.brim accepted (accept fate req) e m

  pub step-Conserved :
      (now : ℕ) (e : Event Request) (s : Source Request) → Conserved s → Conserved (step cf now e s)
  unfolding step
  step-Conserved now (request req) s c = request-Conserved now s.bucket s.sent s.accepted req c
  step-Conserved now timeout s c = go s.bucket c
    where
      go :
          (o : Option (Bucket Request))
          → s.sent ++ waiting o ≡ s.accepted
          → (let s' : Source Request = elim o [
            | none ↦ s
            | some bk ↦ record {
              bucket = (checkbtime cf now bk).0;
              sent = s.sent ++ (checkbtime cf now bk).1;
              accepted = s.accepted;
            }
          ] in
              Conserved s')
      go none e = c
      go (some bk) e =
          let (_, m) = checkbtime-Moves cf now bk room in
          regroup s.sent (checkbtime cf now bk).1 bk.brim (waiting (checkbtime cf now bk).0)
            s.accepted [] e m
          ∙ append-nil s.accepted

  -- After any run of a source the requests passed on, and then those that wait, are the ones that
  -- were accepted, in the order in which they came; none is lost, doubled or overtaken.
  pub run-Conserved :
      (events : List (ℕ × Event Request)) (now : ℕ) (s : Source Request)
      → Conserved s
      → Conserved (run cf events now s).0
  unfolding run
  run-Conserved [] now s c = c
  run-Conserved ((wait, e) ∷ events) now s c =
      run-Conserved events (now + wait) (step cf (now + wait) e s)
        (step-Conserved (now + wait) e s c)
