-- ===== src/Bufio/Write/Whole.antt =====
-- lib/bufio.c bioputc and biowrite: what they add to the stream.
use ashd.Base.{
  ltb, ltb→lt, Bool-cases, length, take, drop, length-drop, take_all, take_add, Bytes, ℕ, zero, suc,
  ◌+◌, ◌≤◌, ◌<◌, min, ◌≡◌, refl, sym, ap, ◌∙◌, ◌⊎◌, inl, inr, false, Option, some, [], ◌∷◌, ◌++◌,
  append-nil, append_assoc, arith,
}
use ashd.Bufio.{Io, done, failed, Ops, Bufio}
use ashd.Bufio.Write.{
  empty_wbuf, wfree, append_wbuf, bioflush, biowensure, bioputc, so_far, took_data, write_past,
  write_loop, biowrite,
}
use ashd.Bufio.Write.Stream.{
  Gave, IsSink, WriteFails, output, IsWriter, FlushEnds, bioflush-Flushes,
}
use ashd.Bufio.Write.Put.{empty_output, append_output, append-IsWriter, Room, biowensure-Ensures}

module _ {S : Type 0} (ops : Ops S) (written : S → Bytes) (sink : IsSink ops written) where
  -- The byte is added, or a write failed and nothing is.
  abbrev pub Puts : ℕ → Bufio S → Option (Io ℕ × Bufio S) → Type 0
  Puts c bio o =
      (ret : Io ℕ) × (bio' : Bufio S) × (o ≡ some (ret, bio'))
      × IsWriter ops written bio'
      × (elim ret [
        | done _ ↦ output ops written bio' ≡ output ops written bio ++ c ∷ []
        | failed _ ↦ (output ops written bio' ≡ output ops written bio) × WriteFails ops written
      ])

  bioputc-Puts : (c : ℕ) (bio : Bufio S) → IsWriter ops written bio → Puts c bio (bioputc ops c bio)
  unfolding bioputc
  bioputc-Puts c bio w =
      let (ret, bio', e, w', u, f) = biowensure-Ensures ops written sink 1 bio w in
      go ret bio' e w' u f
    where
      go :
          (ret : Io ℕ) (bio' : Bufio S)
          → biowensure ops 1 bio ≡ some (ret, bio')
          → IsWriter ops written bio'
          → output ops written bio' ≡ output ops written bio
          → Room ops written sink 1 bio' ret
          → Puts c bio (bioputc ops c bio)
      go (failed e) bio' q w' u f = rw (bioputc, q) (failed e, bio', refl, w', (u, f))
      go (done n) bio' q w' u f =
          rw (bioputc, q)
            (
              done 0,
              append_wbuf (c ∷ []) bio',
              refl,
              append-IsWriter ops written sink (c ∷ []) bio' w' f,
              append_output ops written sink (c ∷ []) bio' w'.head ∙ ap (λ s. s ++ c ∷ []) u,
            )

  -- Behind `wb` bytes, so many more of the bytes are added: all of them, unless a write failed.
  abbrev Adds : ℕ → Bytes → Bufio S → Io ℕ → Bufio S → Type 0
  Adds wb bytes bio (done n) bio' =
      (m : ℕ) × (n ≡ wb + m)
      × (m ≤ length bytes)
      × (output ops written bio' ≡ output ops written bio ++ take m bytes)
      × ((m ≡ length bytes) ⊎ WriteFails ops written)
  Adds wb bytes bio (failed e) bio' =
      (wb ≡ 0) × (output ops written bio' ≡ output ops written bio) × WriteFails ops written

  abbrev pub Writes : ℕ → Bytes → Bufio S → Option (Io ℕ × Bufio S) → Type 0
  Writes wb bytes bio o =
      (ret : Io ℕ) × (bio' : Bufio S) × (o ≡ some (ret, bio'))
      × IsWriter ops written bio'
      × Adds wb bytes bio ret bio'

  so_far-Adds :
      (wb e : ℕ) (bytes : Bytes) (bio bio' : Bufio S)
      → output ops written bio' ≡ output ops written bio
      → WriteFails ops written
      → Adds wb bytes bio (so_far wb e) bio'
  so_far-Adds wb e bytes bio bio' u f = elim (Bool-cases (ltb 0 wb)) [
    | inl some_written ↦
        rw some_written
          (0, omega arith, omega arith, u ∙ sym (append-nil (output ops written bio)), inr f)
    | inr none_written ↦ rw none_written (ground arith, u, f)
  ]

  -- The write past the buffer.
  abbrev Passed : Bytes → Bufio S → Io ℕ → Bufio S → Type 0
  Passed bytes bio (done n) bio' =
      (output ops written bio' ≡ output ops written bio ++ take n bytes)
      × (0 < n)
      × (n ≤ length bytes)
  Passed bytes bio (failed e) bio' =
      (output ops written bio' ≡ output ops written bio) × WriteFails ops written

  abbrev Passes : Bytes → Bufio S → Option (Io ℕ × Bufio S) → Type 0
  Passes bytes bio o =
      (ret : Io ℕ) × (bio' : Bufio S) × (o ≡ some (ret, bio'))
      × IsWriter ops written bio'
      × Passed bytes bio ret bio'

  took_data-Passes :
      (wb : ℕ) (bytes : Bytes) (bio : Bufio S) (a : Io ℕ × S)
      → IsWriter ops written bio
      → drop bio.wh bio.wbuf ≡ []
      → Gave ops written bytes bio.pdata a
      → ((e : ℕ) → a.0 ≡ failed e → WriteFails ops written)
      → Passes bytes bio (some (took_data wb bio a))
  unfolding took_data
  took_data-Passes wb bytes bio (failed e, pdata) w z g fails = (
    failed e,
    (took_data wb bio (failed e, pdata)).1,
    refl,
    record { head = w.head; fits = w.fits; hint = w.hint },
    (ap (λ s. s ++ drop bio.wh bio.wbuf) g, fails e refl),
  )
  took_data-Passes wb bytes bio (done n, pdata) w z (g, p, l) fails = (
    done n,
    (took_data wb bio (done n, pdata)).1,
    refl,
    record { head = w.head; fits = w.fits; hint = w.hint },
    (
      rw (z, g, append-nil (written bio.pdata), append-nil (written bio.pdata ++ take n bytes))
          refl,
      p,
      l,
    ),
  )

  same-Passes :
      (bytes : Bytes) (a b : Bufio S) (o : Option (Io ℕ × Bufio S))
      → output ops written (empty_wbuf a) ≡ output ops written b
      → Passes bytes (empty_wbuf a) o
      → Passes bytes b o
  same-Passes bytes a b o u (done n, bio', e, w, (z, p, l)) =
      (done n, bio', e, w, (z ∙ ap (λ s. s ++ take n bytes) u, p, l))
  same-Passes bytes a b o u (failed x, bio', e, w, (z, f)) = (failed x, bio', e, w, (z ∙ u, f))

  write_past-Passes :
      (wb : ℕ) (bytes : Bytes) (bio : Bufio S)
      → 0 < length bytes
      → IsWriter ops written bio
      → Passes bytes bio (write_past ops wb bytes bio)
  unfolding write_past empty_wbuf
  write_past-Passes wb bytes bio p w =
      let (ret, bio', e, w', u, f) = bioflush-Flushes ops written sink bio w in go ret bio' e w' u f
    where
      go :
          (ret : Io ℕ) (bio' : Bufio S)
          → bioflush ops bio ≡ some (ret, bio')
          → IsWriter ops written bio'
          → output ops written bio' ≡ output ops written bio
          → FlushEnds ops written ret bio'
          → Passes bytes bio (write_past ops wb bytes bio)
      go (failed e) bio' q w' u f = rw (write_past, q) (failed e, bio', refl, w', (u, f))
      go (done n) bio' q w' u f =
          rw (write_past, q)
            (same-Passes bytes bio' bio
              (some (took_data wb (empty_wbuf bio') (ops.write bytes (empty_wbuf bio').pdata)))
              (empty_output ops written sink bio' f ∙ u)
              (took_data-Passes wb bytes (empty_wbuf bio') (ops.write bytes bio'.pdata)
                (record { head = omega arith; fits = omega arith; hint = w'.hint }) refl
                (sink.writes bytes bio'.pdata p) (λ e z. (bytes, bio'.pdata, e, z))))

  -- The rest is added behind what was passed on.
  continue-Adds :
      (wb n : ℕ) (bytes : Bytes) (a b : Bufio S) (ret : Io ℕ) (c : Bufio S)
      → output ops written b ≡ output ops written a ++ take n bytes
      → 0 < n
      → n ≤ length bytes
      → Adds (wb + n) (drop n bytes) b ret c
      → Adds wb bytes a ret c
  continue-Adds wb n bytes a b (done k) c u p l (m, e, l', v, ends) =
      let left = length-drop n bytes in
      (
        n + m,
        omega arith,
        omega arith,
        v
            ∙ ap (λ s. s ++ take m (drop n bytes)) u
            ∙ append_assoc (output ops written a) (take n bytes) (take m (drop n bytes))
            ∙ ap (λ s. output ops written a ++ s) (take_add n m bytes),
        (elim ends as (λ _. (n + m ≡ length bytes) ⊎ WriteFails ops written) [
          | inl all ↦ inl (omega arith)
          | inr fails ↦ inr fails
        ]),
      )
  continue-Adds wb n bytes a b (failed x) c u p l (z, v, fails) = absurd (omega arith)

  write_loop-Writes :
      (fuel wb : ℕ) (bytes : Bytes) (bio : Bufio S)
      → IsWriter ops written bio
      → length bytes < fuel
      → Writes wb bytes bio (write_loop ops fuel wb bytes bio)
  unfolding write_loop
  write_loop-Writes zero wb bytes bio w l = absurd (omega arith)
  write_loop-Writes (suc fuel) wb [] bio w l = (
    done wb,
    bio,
    refl,
    w,
    (0, omega arith, omega arith, sym (append-nil (output ops written bio)), inl refl),
  )
  write_loop-Writes (suc fuel) wb (c ∷ more) bio w l =
      let bytes = c ∷ more in
      let (ret, bio', e, w', u, f) =
        biowensure-Ensures ops written sink (min (length bytes) bio.bufhint) bio w in
      go ret bio' e w' u f (λ wb' rest b w'' l'. write_loop-Writes fuel wb' rest b w'' l')
    where
      past :
          (ret : Io ℕ) (bio'' bio' : Bufio S) (n : ℕ)
          → biowensure ops (min (length (c ∷ more)) bio.bufhint) bio ≡ some (done n, bio')
          → ltb (length (c ∷ more)) (wfree bio') ≡ false
          → write_past ops wb (c ∷ more) bio' ≡ some (ret, bio'')
          → output ops written bio' ≡ output ops written bio
          → IsWriter ops written bio''
          → Passed (c ∷ more) bio' ret bio''
          → ((wb' : ℕ) (rest : Bytes) (b : Bufio S)
              → IsWriter ops written b
              → length rest < fuel
              → Writes wb' rest b (write_loop ops fuel wb' rest b))
          → Writes wb (c ∷ more) bio (write_loop ops (suc fuel) wb (c ∷ more) bio)
      past (failed e) bio'' bio' k q long o u w'' (v, fails) next =
          rw (write_loop, q, long, o)
            (so_far wb e, bio'', refl, w'', so_far-Adds wb e (c ∷ more) bio bio'' (v ∙ u) fails)
      past (done n) bio'' bio' k q long o u w'' (v, p, l') next =
          let left = length-drop n (c ∷ more) in
          let (ret, b, e, w3, a) = next (wb + n) (drop n (c ∷ more)) bio'' w'' (omega arith) in
          rw (write_loop, q, long, o)
            (
              ret,
              b,
              e,
              w3,
              continue-Adds wb n (c ∷ more) bio bio'' ret b (v ∙ ap (λ s. s ++ take n (c ∷ more)) u)
                  p l' a,
            )

      go :
          (ret : Io ℕ) (bio' : Bufio S)
          → biowensure ops (min (length (c ∷ more)) bio.bufhint) bio ≡ some (ret, bio')
          → IsWriter ops written bio'
          → output ops written bio' ≡ output ops written bio
          → Room ops written sink (min (length (c ∷ more)) bio.bufhint) bio' ret
          → ((wb' : ℕ) (rest : Bytes) (b : Bufio S)
              → IsWriter ops written b
              → length rest < fuel
              → Writes wb' rest b (write_loop ops fuel wb' rest b))
          → Writes wb (c ∷ more) bio (write_loop ops (suc fuel) wb (c ∷ more) bio)
      go (failed e) bio' q w' u f next =
          rw (write_loop, q) (so_far wb e, bio', refl, w', so_far-Adds wb e (c ∷ more) bio bio' u f)
      go (done n) bio' q w' u f next = elim (Bool-cases (ltb (length (c ∷ more)) (wfree bio'))) [
        | inl fits ↦
            let bytes = c ∷ more in
            let less = ltb→lt _ _ fits in
            rw (write_loop, q, fits)
              (
                done (wb + length bytes),
                append_wbuf bytes bio',
                refl,
                append-IsWriter ops written sink bytes bio' w' (omega arith),
                (
                  length bytes,
                  refl,
                  omega arith,
                  append_output ops written sink bytes bio' w'.head
                      ∙ ap (λ s. s ++ bytes) u
                      ∙ ap (λ s. output ops written bio ++ s)
                          (sym (take_all (length bytes) bytes (omega arith))),
                  inl refl,
                ),
              )
        | inr long ↦
            let bytes = c ∷ more in
            let (ret, bio'', e, w'', p) = write_past-Passes wb bytes bio' (omega arith) w' in
            past ret bio'' bio' n q long e u w'' p next
      ]

  -- Over a sink that writes its bytes in order, whatever it takes of each, bioputc adds its byte to
  -- what was written to the stream; biowrite adds all of its bytes, and where a write of the sink
  -- fails as many of the first ones as it returns, and none where it returns -1; both end within
  -- their fuel.
  pub bio-Writes :
      (bio : Bufio S)
      → IsWriter ops written bio
      → ((c : ℕ) → Puts c bio (bioputc ops c bio))
        × ((bytes : Bytes) → Writes 0 bytes bio (biowrite ops bytes bio))
  unfolding biowrite
  bio-Writes bio w = (
    λ c. bioputc-Puts c bio w,
    λ bytes. write_loop-Writes (suc (length bytes)) 0 bytes bio w (omega arith),
  )
