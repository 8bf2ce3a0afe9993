-- ===== src/Fcgi/Outplex/Equals.antt =====
-- src/callfcgi.c outplex: what it comes to, whatever the server sends.
use ashd.Base.{
  leb, ◌==◌, if◌then◌else◌, ◌>>=◌, length, take, drop, length-drop, All, Bytes, ℕ, zero, suc, ◌+◌,
  ◌*◌, ◌≤◌, ◌<◌, ◌≡◌, refl, ap, ◌∙◌, Bool, true, false, not, ◌&&◌, Option, none, some, List, [],
  ◌∷◌, arith,
}
use ashd.Fcgi.Record.{Rec, RecordRead, received, refused, freed, recvrec}
use ashd.Fcgi.Record.RoundTrip.{record_of, recv_records}
use ashd.Fcgi.Outplex.{double_free, Out, Fwrite, deliver, outplex_loop, outplex}
use ashd.Fcgi.Outplex.Streams.{IsDistinct, deliver-Delivers}

recvrec_shorter :
    (input : Bytes) (r : Rec) (rest : Bytes)
    → recvrec input ≡ received r rest
    → length rest < length input
unfolding recvrec
recvrec_shorter (version ∷ type ∷ r1 ∷ r0 ∷ l1 ∷ l0 ∷ p ∷ reserved ∷ left) r rest e =
    go (not (version == 1 && reserved == 0)) (leb (l1 * 256 + l0 + p) (length left)) e
  where
    go :
        (refuses fits : Bool)
        → (if refuses
            then refused
            else if fits
            then received
                (record {
                  type = type;
                  rid = r1 * 256 + r0;
                  content = take (l1 * 256 + l0) (take (l1 * 256 + l0 + p) left);
                })
                (drop (l1 * 256 + l0 + p) left)
            else freed)
          ≡ received r rest
        → length rest < suc (suc (suc (suc (suc (suc (suc (suc (length left))))))))
    go true fits e = absurd cc
    go false true e =
        let same : drop (l1 * 256 + l0 + p) left ≡ rest = cc in
        let short = length-drop (l1 * 256 + l0 + p) left in
        let sizes = ap length same in omega arith
    go false false e = absurd cc
recvrec_shorter _ r rest e = absurd cc

abbrev behind : Rec → Option (List Rec × Bytes) → Option (List Rec × Bytes)
behind r o = do (rs, left) ← o; some (r ∷ rs, left)

abbrev read_more : ℕ → Option (Rec × Bytes) → Option (List Rec × Bytes)
read_more n o = do (r, rest) ← o; behind r (recv_records n rest)

-- The first of several records.
recv_records-cons :
    (n : ℕ) (input : Bytes) (r : Rec) (rs : List Rec) (tail : Bytes)
    → recv_records (suc n) input ≡ some (r ∷ rs, tail)
    → (rest : Bytes) × (recvrec input ≡ received r rest) × (recv_records n rest ≡ some (rs, tail))
recv_records-cons n input r rs tail e = go (recvrec input) refl e
  where
    next :
        (r' : Rec) (rest : Bytes) (o : Option (List Rec × Bytes))
        → recvrec input ≡ received r' rest
        → recv_records n rest ≡ o
        → behind r' o ≡ some (r ∷ rs, tail)
        → (rest : Bytes) × (recvrec input ≡ received r rest)
          × (recv_records n rest ≡ some (rs, tail))
    next r' rest none q q' e = absurd cc
    next r' rest (some (rs', left)) q q' e =
        let first : r' ≡ r = cc in
        let others : rs' ≡ rs = cc in
        let behind : left ≡ tail = cc in (rest, rw (← first) q, rw (← others, ← behind) q')

    go :
        (o : RecordRead)
        → recvrec input ≡ o
        → read_more n (record_of o) ≡ some (r ∷ rs, tail)
        → (rest : Bytes) × (recvrec input ≡ received r rest)
          × (recv_records n rest ≡ some (rs, tail))
    go refused q e = absurd cc
    go freed q e = absurd cc
    go (received r' rest) q e = next r' rest (recv_records n rest) q refl e

module _ (fwrite : Fwrite) (takes : (got data' : Bytes) → length data' ≤ fwrite got data') where
  step_on :
      (fuel : ℕ) (input rest : Bytes) (r : Rec) (os : List Out)
      → recvrec input ≡ received r rest
      → (r.rid == 1) ≡ true
      → (deliver fwrite r os).0 ≡ true
      → outplex_loop (suc fuel) fwrite input os
        ≡ outplex_loop fuel fwrite rest (deliver fwrite r os).1
  unfolding outplex_loop
  step_on fuel input rest r os e one goes_on = rw (outplex_loop, e, one, goes_on) refl

  step_freed :
      (fuel : ℕ) (input : Bytes) (os : List Out)
      → recvrec input ≡ freed
      → outplex_loop (suc fuel) fwrite input os ≡ some double_free
  unfolding outplex_loop
  step_freed fuel input os e = rw (outplex_loop, e) refl

  outplex_loop-double_free :
      (fuel : ℕ) (rs : List Rec) (input tail : Bytes) (os : List Out)
      → length input < fuel
      → IsDistinct os
      → All (λ r. (r.rid == 1) ≡ true) rs
      → recv_records (length rs) input ≡ some (rs, tail)
      → recvrec tail ≡ freed
      → outplex_loop fuel fwrite input os ≡ some double_free
  outplex_loop-double_free zero rs input tail os l d h q z = absurd (omega arith)
  outplex_loop-double_free (suc fuel) [] input tail os l d h q z =
      let same : input ≡ tail = cc in step_freed fuel input os (ap recvrec same ∙ z)
  outplex_loop-double_free (suc fuel) (r ∷ rs) input tail os l d (one, h) q z =
      let (rest, e, q') = recv_records-cons (length rs) input r rs tail q in
      let less = recvrec_shorter input r rest e in
      let (goes_on, d', u, _) = deliver-Delivers fwrite takes r rs os one d in
      step_on fuel input rest r os e one goes_on
      ∙ outplex_loop-double_free fuel rs rest tail (deliver fwrite r os).1 (omega arith) d' h q' z

  -- If the writes succeed, no two streams are of one type, and what the server sends ends within
  -- the body of a record, behind records of this request, outplex frees the data of that record
  -- twice.
  outplex-double_free :
      (rs : List Rec) (input tail : Bytes) (os : List Out)
      → IsDistinct os
      → All (λ r. (r.rid == 1) ≡ true) rs
      → recv_records (length rs) input ≡ some (rs, tail)
      → recvrec tail ≡ freed
      → outplex fwrite input os ≡ some double_free
  unfolding outplex
  outplex-double_free rs input tail os d h q z =
      outplex_loop-double_free (suc (length input)) rs input tail os (omega arith) d h q z
