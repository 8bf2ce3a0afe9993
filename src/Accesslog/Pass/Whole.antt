-- ===== src/Accesslog/Pass/Whole.antt =====
-- src/accesslog.c passdata: all of the stream is passed, in order.
use ashd.Base.{
  Bool-cases, length, Bytes, ℕ, zero, suc, ◌+◌, ◌<◌, ◌≡◌, refl, ap, ◌∙◌, ◌⊎◌, inl, inr, false,
  Option, some, [], ◌++◌, arith,
}
use ashd.Bufio.{Io, done, failed, Ops, Bufio, bioeof}
use ashd.Bufio.Read.Stream.{unread, IsSource, IsReader, ReadFails}
use ashd.Bufio.Write.Stream.{IsSink, WriteFails, output, IsWriter}
use ashd.Accesslog.Pass.{write_round, fill_round, passdata}
use ashd.Accesslog.Pass.Round.{
  stream, work, Sound, Wrote, write_round-Wrote, Read, fill_round-Read, at_end, round_less,
}

module _ {S D : Type 0} (inops : Ops S) (outops : Ops D) (content : S → Bytes) (written : D → Bytes)
    (source : IsSource inops content) (sink : IsSink outops written) where
  -- What passdata comes to: the stream is the same; at the end nothing is left to be read, and the
  -- count is that of the bytes that were; it fails only where a read or a write does.
  abbrev Passed : ℕ → Bufio S → Bufio D → Io ℕ → Bufio S → Bufio D → Type 0
  Passed total in_bio out_bio (done n) in' out' =
      (unread inops content in' ≡ []) × (n ≡ total + length (unread inops content in_bio))
  Passed total in_bio out_bio (failed e) in' out' =
      ReadFails inops content ⊎ WriteFails outops written

  abbrev pub Passes : ℕ → Bufio S → Bufio D → Option (Io ℕ × Bufio S × Bufio D) → Type 0
  Passes total in_bio out_bio o =
      (ret : Io ℕ) × (in' : Bufio S) × (out' : Bufio D) × (o ≡ some (ret, in', out'))
      × Sound inops outops content written source sink in' out'
      × (stream inops outops content written source sink in' out'
          ≡ stream inops outops content written source sink in_bio out_bio)
      × Passed total in_bio out_bio ret in' out'

  later-Passes :
      (total n : ℕ) (a c : Bufio S) (b d : Bufio D) (o : Option (Io ℕ × Bufio S × Bufio D))
      → stream inops outops content written source sink c d
        ≡ stream inops outops content written source sink a b
      → n + length (unread inops content c) ≡ length (unread inops content a)
      → Passes (total + n) c d o
      → Passes total a b o
  later-Passes total n a c b d o u l (done k, in', out', e, s, v, (z, m)) =
      (done k, in', out', e, s, v ∙ u, (z, omega arith))
  later-Passes total n a c b d o u l (failed k, in', out', e, s, v, fails) =
      (failed k, in', out', e, s, v ∙ u, fails)

  -- Behind a round of writing.
  filled-Passes :
      (fuel total n : ℕ) (in_bio : Bufio S) (out_bio : Bufio D) (in' : Bufio S) (out' : Bufio D)
      (filled : Io ℕ × Bufio S)
      → IsWriter outops written out'
      → stream inops outops content written source sink in' out'
        ≡ stream inops outops content written source sink in_bio out_bio
      → n + length (unread inops content in') ≡ length (unread inops content in_bio)
      → Read inops outops content written source sink in' out' filled
      → (work inops outops content written source sink filled.1 out'
            < work inops outops content written source sink in_bio out_bio
          ⊎ ((e : ℕ) × (filled.0 ≡ failed e)))
      → work inops outops content written source sink in_bio out_bio < suc fuel
      → ((n : ℕ) (a : Bufio S) (b : Bufio D)
          → Sound inops outops content written source sink a b
          → work inops outops content written source sink a b < fuel
          → Passes (total + n) a b (passdata inops outops fuel (total + n) a b))
      → Passes total in_bio out_bio (elim filled.0 [
        | failed e ↦ some (failed e, filled.1, out')
        | done _ ↦ passdata inops outops fuel (total + n) filled.1 out'
      ])
  filled-Passes fuel total n a b in' out' (failed e, in'') w u l (r, v, fails) less f next = (
    failed e,
    in'',
    out',
    refl,
    (r, w),
    ap (λ s. output outops written out' ++ s) v ∙ u,
    inl fails,
  )
  filled-Passes fuel total n a b in' out' (done k, in'') w u l (r, v, _, _) (inl less) f next =
      let same = ap length v in
      later-Passes total n a in'' b out' (passdata inops outops fuel (total + n) in'' out')
        (ap (λ s. output outops written out' ++ s) v ∙ u) (omega arith)
        (next n in'' out' (r, w) (omega arith))
  filled-Passes fuel total n a b in' out' (done k, in'') w u l r (inr (e, q)) f next = absurd (cc)

  passdata-Passes :
      (fuel total : ℕ) (in_bio : Bufio S) (out_bio : Bufio D)
      → Sound inops outops content written source sink in_bio out_bio
      → work inops outops content written source sink in_bio out_bio < fuel
      → Passes total in_bio out_bio (passdata inops outops fuel total in_bio out_bio)
  unfolding passdata
  passdata-Passes zero total in_bio out_bio s l = absurd (omega arith)
  passdata-Passes (suc fuel) total in_bio out_bio s l = elim (Bool-cases (bioeof in_bio)) [
    | inl ended ↦ rw ended (
      done total,
      in_bio,
      out_bio,
      refl,
      s,
      refl,
      (
        at_end inops outops content written source sink in_bio s.0 ended,
        let left = ap length (at_end inops outops content written source sink in_bio s.0 ended) in
            omega arith,
      ),
    )
    | inr more ↦ rw more (
        go more (write_round inops outops in_bio out_bio)
          (write_round-Wrote inops outops content written source sink in_bio out_bio s)
          (λ n a b. passdata-Passes fuel (total + n) a b))
  ]
    where
      go :
          bioeof in_bio ≡ false
          → (w : Io ℕ × Bufio D × Bufio S)
          → Wrote inops outops content written source sink in_bio out_bio w
          → ((n : ℕ) (a : Bufio S) (b : Bufio D)
              → Sound inops outops content written source sink a b
              → work inops outops content written source sink a b < fuel
              → Passes (total + n) a b (passdata inops outops fuel (total + n) a b))
          → Passes total in_bio out_bio (
              let (filled, in'') = fill_round inops outops w.2 in
              elim w.0 [
                | failed e ↦ some (failed e, w.2, w.1)
                | done n ↦ elim filled [
                  | failed e ↦ some (failed e, in'', w.1)
                  | done _ ↦ passdata inops outops fuel (total + n) in'' w.1
                ]
              ])
      go more (failed e, out', in') (s', u, fails) next =
          (failed e, in', out', refl, s', u, inr fails)
      go more (done n, out', in') (s', u, c, m, m', same, held) next =
          filled-Passes fuel total n in_bio out_bio in' out' (fill_round inops outops in') s'.1 u c
            (fill_round-Read inops outops content written source sink in' out' s'.0)
            (round_less inops outops content written source sink in_bio out_bio n in' out'
              (fill_round inops outops in') more (s', u, c, m, m', same, held)
              (fill_round-Read inops outops content written source sink in' out' s'.0))
            l next

  -- Over a source and a sink that keep their bytes in order, passdata ends within its fuel. What
  -- was written and what is still to be read behind it is one stream, which it does not change;
  -- where it returns 0 all of the stream has been passed, and `*passed` is the number of the bytes
  -- that were to be read; where it returns -1 a read or a write failed.
  pub passdata-Whole :
      (in_bio : Bufio S) (out_bio : Bufio D)
      → IsReader inops content in_bio
      → IsWriter outops written out_bio
      → (fuel : ℕ) → work inops outops content written source sink in_bio out_bio < fuel
      → Passes 0 in_bio out_bio (passdata inops outops fuel 0 in_bio out_bio)
  passdata-Whole in_bio out_bio r w fuel l = passdata-Passes fuel 0 in_bio out_bio (r, w) l
