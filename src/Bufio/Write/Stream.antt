-- ===== src/Bufio/Write/Stream.antt =====
-- What is written to a buffered stream comes to its sink in order.
use ashd.Base.{
  ltb, ltb→lt, not-ltb→le, Bool-cases, length, take, drop, take-append-drop, length-drop, drop_add,
  Bytes, ℕ, zero, suc, ◌+◌, ◌-◌, ◌≤◌, ◌<◌, ◌≡◌, refl, sym, ap, ◌∙◌, inl, inr, true, Option, some,
  [], ◌++◌, append_assoc, arith,
}
use ashd.Bufio.{Io, done, failed, Ops, Bufio}
use ashd.Bufio.Read.Stream.{drop_all}
use ashd.Bufio.Write.{took_out, write_out, flush_loop, bioflush}

module _ {S : Type 0} (ops : Ops S) (written : S → Bytes) where
  -- What a write may come to: an error, which writes nothing, or the number of bytes that were
  -- written, one at least.
  abbrev pub Gave : Bytes → S → Io ℕ × S → Type 0
  Gave bytes s (failed e, s') = written s' ≡ written s
  Gave bytes s (done n, s') =
      (written s' ≡ written s ++ take n bytes) × (0 < n) × (n ≤ length bytes)

  pub record IsSink : Type 0 where
    pub writable : ops.can_write ≡ true
    pub writes : (bytes : Bytes) (s : S) → 0 < length bytes → Gave bytes s (ops.write bytes s)

  -- A write of the sink that fails.
  abbrev pub WriteFails : Type 0
  WriteFails = (bytes : Bytes) × (s : S) × (e : ℕ) × ((ops.write bytes s).0 ≡ failed e)

  -- What was written to the stream: the sink has it, or the buffer.
  abbrev pub output : Bufio S → Bytes
  output bio = written bio.pdata ++ drop bio.wh bio.wbuf

  pub record IsWriter (bio : Bufio S) : Type 0 where
    pub head : bio.wh ≤ length bio.wbuf
    pub fits : length bio.wbuf ≤ bio.wsize
    pub hint : 0 < bio.bufhint

  abbrev pub Outs : Bufio S → Io ℕ × Bufio S → Type 0
  Outs bio (failed e, bio') =
      IsWriter bio'
      × (output bio' ≡ output bio)
      × (bio'.wbuf ≡ bio.wbuf)
      × (bio'.wh ≡ bio.wh)
      × (written bio'.pdata ≡ written bio.pdata)
      × WriteFails
  Outs bio (done n, bio') =
      IsWriter bio' × (output bio' ≡ output bio) × (bio'.wbuf ≡ bio.wbuf) × (bio.wh < bio'.wh)

  took_out-Outs :
      (bio : Bufio S) (a : Io ℕ × S)
      → IsWriter bio
      → Gave (drop bio.wh bio.wbuf) bio.pdata a
      → ((e : ℕ) → a.0 ≡ failed e → WriteFails)
      → Outs bio (took_out bio a)
  unfolding took_out
  took_out-Outs bio (failed e, pdata) w g fails = (
    record { head = w.head; fits = w.fits; hint = w.hint },
    ap (λ s. s ++ drop bio.wh bio.wbuf) g,
    refl,
    refl,
    g,
    fails e refl,
  )
  took_out-Outs bio (done n, pdata) w (g, p, l) fails =
      let h = w.head in
      let left = length-drop bio.wh bio.wbuf in
      (
        record { head = omega arith; fits = w.fits; hint = w.hint },
        rw g (
            append_assoc (written bio.pdata) (take n (drop bio.wh bio.wbuf))
              (drop (bio.wh + n) bio.wbuf)
            ∙ ap (λ s. written bio.pdata ++ s)
                (ap (λ s. take n (drop bio.wh bio.wbuf) ++ s) (sym (drop_add bio.wh n bio.wbuf))
                  ∙ take-append-drop n (drop bio.wh bio.wbuf))),
        refl,
        omega arith,
      )

  pub write_out-Outs :
      IsSink
      → (bio : Bufio S) → IsWriter bio
      → bio.wh < length bio.wbuf
      → Outs bio (write_out ops bio)
  unfolding write_out
  write_out-Outs sink bio w l =
      let left = length-drop bio.wh bio.wbuf in
      let rest = drop bio.wh bio.wbuf in
      took_out-Outs bio (ops.write rest bio.pdata) w (sink.writes rest bio.pdata (omega arith))
        (λ e q. (rest, bio.pdata, e, q))

  -- A flush leaves nothing in the buffer, or fails.
  abbrev pub FlushEnds : Io ℕ → Bufio S → Type 0
  FlushEnds (failed e) bio = WriteFails
  FlushEnds (done n) bio = drop bio.wh bio.wbuf ≡ []

  abbrev pub Flushes : Bufio S → Option (Io ℕ × Bufio S) → Type 0
  Flushes bio o =
      (ret : Io ℕ) × (bio' : Bufio S) × (o ≡ some (ret, bio'))
      × IsWriter bio'
      × (output bio' ≡ output bio)
      × FlushEnds ret bio'

  flush_loop-Flushes :
      IsSink
      → (fuel : ℕ) (bio : Bufio S) → IsWriter bio
      → length bio.wbuf - bio.wh < fuel
      → Flushes bio (flush_loop ops fuel bio)
  unfolding flush_loop
  flush_loop-Flushes sink zero bio w l = absurd (omega arith)
  flush_loop-Flushes sink (suc fuel) bio w l = elim (Bool-cases (ltb bio.wh (length bio.wbuf))) [
    | inr empty ↦
        rw empty (done 0, bio, refl, w, refl, drop_all bio.wh bio.wbuf (not-ltb→le _ _ empty))
    | inl more ↦ rw more (
        go (write_out ops bio) (write_out-Outs sink bio w (ltb→lt _ _ more))
          (λ b. flush_loop-Flushes sink fuel b))
  ]
    where
      go :
          (out : Io ℕ × Bufio S)
          → Outs bio out
          → ((b : Bufio S)
              → IsWriter b
              → length b.wbuf - b.wh < fuel
              → Flushes b (flush_loop ops fuel b))
          → Flushes bio (elim out.0 [
            | failed e ↦ some (failed e, out.1)
            | done _ ↦ flush_loop ops fuel out.1
          ])
      go (failed e, bio') (w', u, b, h, g, fails) next = (failed e, bio', refl, w', u, fails)
      go (done n, bio') (w', u, b, m) next =
          let same = ap length b in
          let h = w'.head in
          let (ret, bio'', e, w'', u', f) = next bio' w' (omega arith) in
          (ret, bio'', e, w'', u' ∙ u, f)

  pub bioflush-Flushes : IsSink → (bio : Bufio S) → IsWriter bio → Flushes bio (bioflush ops bio)
  unfolding bioflush
  bioflush-Flushes sink bio w = flush_loop-Flushes sink (suc (length bio.wbuf)) bio w (omega arith)
