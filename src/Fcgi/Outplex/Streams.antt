-- ===== src/Fcgi/Outplex/Streams.antt =====
-- src/callfcgi.c outplex: every stream is given what the records of its type hold.
use ashd.Base.{
  ◌==◌, if◌then◌else◌, ==_iff, Bool-cases, length, take_all, All, Bytes, ℕ, ◌≤◌, min, ◌≡◌, refl,
  sym, ap, ◌∙◌, inl, inr, Bool, true, false, not, List, [], ◌∷◌, ◌++◌, append-nil, append_assoc,
  arith,
}
use ashd.Fcgi.Record.{Rec}
use ashd.Fcgi.Outplex.{Out, Fwrite, close_out, write_out, deliver}

-- The stream of one type in the records of a server: what they hold, up to an empty record of the
-- type, or a record of another request.
unfoldable pub stream_of : ℕ → List Rec → Bytes
stream_of id [] = []
stream_of id (r ∷ rs) =
    let more = stream_of id rs in
    if not (r.rid == 1)
    then []
    else if id == r.type
    then (if length r.content == 0 then [] else r.content ++ more)
    else more

-- What comes of each stream.
unfoldable pub filled : List Rec → Out → Out
unfolding stream_of
filled rs o = record {
  id = o.id;
  is_open = false;
  got = if o.is_open then o.got ++ stream_of o.id rs else o.got;
}

unfoldable pub all_filled : List Rec → List Out → List Out
unfolding filled
all_filled rs [] = []
all_filled rs (o ∷ os) = filled rs o ∷ all_filled rs os

-- No two streams are of one type.
abbrev pub IsDistinct : List Out → Type 0
IsDistinct [] = Unit
IsDistinct (o ∷ os) = All (λ p. (p.id == o.id) ≡ false) os × IsDistinct os

module _ (fwrite : Fwrite) (takes : (got data' : Bytes) → length data' ≤ fwrite got data') where
  write_out-filled :
      (r : Rec) (rs : List Rec) (o : Out)
      → (r.rid == 1) ≡ true
      → (o.id == r.type) ≡ true
      → ((write_out fwrite r.content o).0 ≡ true)
        × (filled rs (write_out fwrite r.content o).1 ≡ filled (r ∷ rs) o)
  unfolding write_out close_out filled stream_of
  write_out-filled r rs o one same = elim (Bool-cases o.is_open) [
    | inr shut ↦ rw shut (refl, refl)
    | inl there ↦ elim (Bool-cases (length r.content == 0)) [
      | inl empty ↦
          rw (there, empty, one, same)
            (
              refl,
              ap (λ g. record { id = o.id; is_open = false; got = g }) (sym (append-nil o.got)),
            )
      | inr more ↦
          rw (there, more, one, same)
            (
              ground (arith, takes o.got r.content),
              ap (λ g. record { id = o.id; is_open = false; got = g })
                  (ap (λ s. (o.got ++ s) ++ stream_of o.id rs)
                      (take_all (min (fwrite o.got r.content) (length r.content)) r.content
                        (ground (arith, takes o.got r.content)))
                    ∙ append_assoc o.got r.content (stream_of o.id rs)),
            )
    ]
  ]

  other-filled :
      (r : Rec) (rs : List Rec) (o : Out)
      → (r.rid == 1) ≡ true
      → (o.id == r.type) ≡ false
      → filled rs o ≡ filled (r ∷ rs) o
  unfolding filled stream_of
  other-filled r rs o one other = rw (one, other) refl

  -- No stream is of this type.
  others-all_filled :
      (r : Rec) (rs : List Rec) (os : List Out)
      → (r.rid == 1) ≡ true
      → All (λ p. (p.id == r.type) ≡ false) os
      → all_filled rs os ≡ all_filled (r ∷ rs) os
  unfolding all_filled
  others-all_filled r rs [] one tt = refl
  others-all_filled r rs (o ∷ os) one (other, others) =
      ap (λ x. x ∷ all_filled rs os) (other-filled r rs o one other)
      ∙ ap (λ xs. filled (r ∷ rs) o ∷ xs) (others-all_filled r rs os one others)

  same_id :
      (a b : ℕ) (os : List Out)
      → (a == b) ≡ true
      → All (λ p. (p.id == a) ≡ false) os
      → All (λ p. (p.id == b) ≡ false) os
  same_id a b os e h = let same : a ≡ b = (==_iff a b).0 e in rw same at h

  write_out_id : (content : Bytes) (o : Out) → (write_out fwrite content o).1.id ≡ o.id
  unfolding write_out close_out
  write_out_id content o = elim (Bool-cases o.is_open) [
    | inr shut ↦ rw shut refl
    | inl there ↦ elim (Bool-cases (length content == 0)) [
      | inl empty ↦ rw (there, empty) refl
      | inr more ↦ rw (there, more) refl
    ]
  ]

  -- outplex goes on with streams of the same types, and what is left comes to the same.
  abbrev pub Delivers : Rec → List Rec → List Out → Bool × List Out → Type 0
  Delivers r rs os (goes_on, os') =
      (goes_on ≡ true)
      × IsDistinct os'
      × (all_filled rs os' ≡ all_filled (r ∷ rs) os)
      × ((id : ℕ) → All (λ p. (p.id == id) ≡ false) os → All (λ p. (p.id == id) ≡ false) os')

  same-Delivers :
      (r : Rec) (rs : List Rec) (os : List Out) (a b : Bool × List Out)
      → a ≡ b
      → Delivers r rs os b
      → Delivers r rs os a
  same-Delivers r rs os a b e d = rw e d

  deliver_here :
      (r : Rec) (o : Out) (os : List Out)
      → (o.id == r.type) ≡ true
      → deliver fwrite r (o ∷ os)
        ≡ ((write_out fwrite r.content o).0, (write_out fwrite r.content o).1 ∷ os)
  unfolding deliver
  deliver_here r o os e = rw e refl

  deliver_past :
      (r : Rec) (o : Out) (os : List Out)
      → (o.id == r.type) ≡ false
      → deliver fwrite r (o ∷ os) ≡ ((deliver fwrite r os).0, o ∷ (deliver fwrite r os).1)
  unfolding deliver
  deliver_past r o os e = rw e refl

  pub deliver-Delivers :
      (r : Rec) (rs : List Rec) (os : List Out)
      → (r.rid == 1) ≡ true
      → IsDistinct os
      → Delivers r rs os (deliver fwrite r os)
  unfolding all_filled
  deliver-Delivers r rs [] one d = unfold deliver in (refl, tt, refl, λ id h. tt)
  deliver-Delivers r rs (o ∷ os) one (first, d) = elim (Bool-cases (o.id == r.type)) [
    | inl same ↦
        let (goes_on, e) = write_out-filled r rs o one same in
        let o' = (write_out fwrite r.content o).1 in
        let kept : o'.id ≡ o.id = write_out_id r.content o in
        same-Delivers r rs (o ∷ os) (deliver fwrite r (o ∷ os))
          ((write_out fwrite r.content o).0, o' ∷ os) (deliver_here r o os same)
          (
            goes_on,
            (rw kept first, d),
            ap (λ x. x ∷ all_filled rs os) e
                ∙ ap (λ xs. filled (r ∷ rs) o ∷ xs)
                    (others-all_filled r rs os one (same_id o.id r.type os same first)),
            λ id (h, hs). (rw kept h, hs),
          )
    | inr other ↦
        let (goes_on, d', e, ids) = deliver-Delivers r rs os one d in
        same-Delivers r rs (o ∷ os) (deliver fwrite r (o ∷ os))
          ((deliver fwrite r os).0, o ∷ (deliver fwrite r os).1) (deliver_past r o os other)
          (
            goes_on,
            (ids o.id first, d'),
            ap (λ x. x ∷ all_filled rs (deliver fwrite r os).1) (other-filled r rs o one other)
                ∙ ap (λ xs. filled (r ∷ rs) o ∷ xs) e,
            λ id (h, hs). (h, ids id hs),
          )
  ]
