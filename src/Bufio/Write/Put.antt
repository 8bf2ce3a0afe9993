-- ===== src/Bufio/Write/Put.antt =====
-- lib/bufio.c biowensure, bioputc, biowrite and biowritesome, on the stream of bytes.
use ashd.Base.{
  ltb, leb, if◌then◌else◌, not-ltb→le, Bool-cases, length, drop, length-append, Bytes, ℕ, ◌≤◌, ◌<◌,
  ◌≡◌, refl, sym, ap, ◌∙◌, inl, inr, true, ◌&&◌, Option, some, [], ◌++◌, append_assoc, arith,
}
use ashd.Bufio.{Io, done, failed, Ops, Bufio}
use ashd.Bufio.Read.Stream.{drop-append, sizebuf_enough}
use ashd.Bufio.Write.{empty_wbuf, wfree, append_wbuf, bioflush, resize_wbuf, biowensure}
use ashd.Bufio.Write.Stream.{IsSink, WriteFails, output, IsWriter, FlushEnds, bioflush-Flushes}

module _ {S : Type 0} (ops : Ops S) (written : S → Bytes) (sink : IsSink ops written) where
  pub empty_output :
      (bio : Bufio S)
      → drop bio.wh bio.wbuf ≡ []
      → output ops written (empty_wbuf bio) ≡ output ops written bio
  unfolding empty_wbuf
  empty_output bio e = ap (λ s. written bio.pdata ++ s) (sym e)

  pub append_output :
      (bytes : Bytes) (bio : Bufio S)
      → bio.wh ≤ length bio.wbuf
      → output ops written (append_wbuf bytes bio) ≡ output ops written bio ++ bytes
  unfolding append_wbuf
  append_output bytes bio l =
      ap (λ s. written bio.pdata ++ s) (drop-append bio.wh bio.wbuf bytes l)
      ∙ sym (append_assoc (written bio.pdata) (drop bio.wh bio.wbuf) bytes)

  pub append-IsWriter :
      (bytes : Bytes) (bio : Bufio S)
      → IsWriter ops written bio
      → length bytes ≤ wfree bio
      → IsWriter ops written (append_wbuf bytes bio)
  unfolding append_wbuf
  append-IsWriter bytes bio w l =
      let whole = length-append bio.wbuf bytes in
      let h = w.head in
      let f = w.fits in record { head = omega arith; fits = omega arith; hint = w.hint }

  resize-IsWriter :
      (bytes : ℕ) (bio : Bufio S)
      → 0 < bio.bufhint
      → IsWriter ops written (resize_wbuf bytes bio) × (bytes ≤ wfree (resize_wbuf bytes bio))
  unfolding resize_wbuf empty_wbuf
  resize-IsWriter bytes bio p =
      let wanted = if ltb bytes bio.bufhint then bio.bufhint else bytes in
      let (enough, _) = sizebuf_enough bio.wsize wanted in
      let covers : bytes ≤ wanted = ground arith in
      elim (Bool-cases (ltb bio.bufhint bio.wsize && leb bytes bio.bufhint)) [
        | inl small ↦
            let less : bytes ≤ bio.bufhint = ground arith in
            rw small (record { head = omega arith; fits = omega arith; hint = p }, omega arith)
        | inr large ↦
            rw large (record { head = omega arith; fits = omega arith; hint = p }, omega arith)
      ]

  resize_output :
      (bytes : ℕ) (bio : Bufio S)
      → drop bio.wh bio.wbuf ≡ []
      → output ops written (resize_wbuf bytes bio) ≡ output ops written bio
  unfolding resize_wbuf empty_wbuf
  resize_output bytes bio e = ap (λ s. written bio.pdata ++ s) (sym e)

  -- There is room, or a write failed.
  abbrev pub Room : ℕ → Bufio S → Io ℕ → Type 0
  Room bytes bio (done _) = bytes ≤ wfree bio
  Room bytes bio (failed _) = WriteFails ops written

  abbrev pub Ensures : ℕ → Bufio S → Option (Io ℕ × Bufio S) → Type 0
  Ensures bytes bio o =
      (ret : Io ℕ) × (bio' : Bufio S) × (o ≡ some (ret, bio'))
      × IsWriter ops written bio'
      × (output ops written bio' ≡ output ops written bio)
      × Room bytes bio' ret

  pub biowensure-Ensures :
      (bytes : ℕ) (bio : Bufio S)
      → IsWriter ops written bio
      → Ensures bytes bio (biowensure ops bytes bio)
  unfolding biowensure
  biowensure-Ensures bytes bio w = elim (Bool-cases (ltb (wfree bio) bytes)) [
    | inr room ↦ rw room (done 0, bio, refl, w, refl, not-ltb→le _ _ room)
    | inl short ↦
        let (ret, bio', e, w', u, f) = bioflush-Flushes ops written sink bio w in
        go short ret bio' e w' u f
  ]
    where
      go :
          ltb (wfree bio) bytes ≡ true
          → (ret : Io ℕ) (bio' : Bufio S) → bioflush ops bio ≡ some (ret, bio')
          → IsWriter ops written bio'
          → output ops written bio' ≡ output ops written bio
          → FlushEnds ops written ret bio'
          → Ensures bytes bio (biowensure ops bytes bio)
      go short (failed e) bio' q w' u f =
          rw short (simp (sink.writable, q) (failed e, bio', refl, w', u, f))
      go short (done n) bio' q w' u f =
          let (w'', room) = resize-IsWriter bytes bio' w'.hint in
          rw short (
            simp (sink.writable, q)
              (done 0, resize_wbuf bytes bio', refl, w'', resize_output bytes bio' f ∙ u, room))
