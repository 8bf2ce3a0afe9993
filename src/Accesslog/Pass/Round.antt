-- ===== src/Accesslog/Pass/Round.antt =====
-- src/accesslog.c passdata: what a round of it does to the stream.
use ashd.Base.{
  ltb, ◌==◌, if◌then◌else◌, ltb→lt, not-ltb→le, Bool-cases, length, take, drop, length-append,
  take-append-drop, length-drop, drop_add, Bytes, ℕ, ◌+◌, ◌*◌, ◌≤◌, ◌<◌, ◌≡◌, refl, sym, ap, ◌∙◌,
  ◌⊎◌, inl, inr, Bool, true, false, [], ◌++◌, append_assoc, arith,
}
use ashd.Bufio.{Io, done, failed, Ops, Bufio, biordata, biorspace, bioeof, biowdata}
use ashd.Bufio.Read.{biofill}
use ashd.Bufio.Read.Stream.{unread, IsSource, IsReader, ReadFails, Filled, biofill-Filled, drop_all}
use ashd.Bufio.Write.{biowritesome}
use ashd.Bufio.Write.Stream.{IsSink, WriteFails, output, IsWriter}
use ashd.Bufio.Copy.{read_on}
use ashd.Bufio.Write.Some.{AddsSome, biowritesome-AddsSome}
use ashd.Accesslog.Pass.{write_round, fill_round}

module _ {S D : Type 0} (inops : Ops S) (outops : Ops D) (content : S → Bytes) (written : D → Bytes)
    (source : IsSource inops content) (sink : IsSink outops written) where
  -- What was written, and what is still to be read behind it.
  abbrev pub stream : Bufio S → Bufio D → Bytes
  stream in_bio out_bio = output outops written out_bio ++ unread inops content in_bio

  -- What every round makes less.
  abbrev pub work : Bufio S → Bufio D → ℕ
  work in_bio out_bio =
      4 * length (content in_bio.pdata)
      + 2 * biordata in_bio
      + biowdata out_bio
      + (if in_bio.eof then 0 else 1)

  abbrev pub Sound : Bufio S → Bufio D → Type 0
  Sound in_bio out_bio = IsReader inops content in_bio × IsWriter outops written out_bio

  -- A round of writing.
  abbrev pub Wrote : Bufio S → Bufio D → Io ℕ × Bufio D × Bufio S → Type 0
  Wrote in_bio out_bio (failed e, out', in') =
      Sound in' out' × (stream in' out' ≡ stream in_bio out_bio) × WriteFails outops written
  Wrote in_bio out_bio (done n, out', in') =
      Sound in' out'
      × (stream in' out' ≡ stream in_bio out_bio)
      × (n + length (unread inops content in') ≡ length (unread inops content in_bio))
      × (work in' out' ≤ work in_bio out_bio)
      × (0 < biordata in_bio → work in' out' < work in_bio out_bio)
      × (in'.eof ≡ in_bio.eof)
      × (biordata in' ≤ biordata in_bio)

  read_on-Wrote :
      (in_bio : Bufio S) (out_bio : Bufio D)
      → IsReader inops content in_bio
      → 0 < biordata in_bio
      → (out : Io ℕ × Bufio D)
      → AddsSome outops written sink (drop in_bio.rh in_bio.rbuf) out_bio out
      → Wrote in_bio out_bio (read_on in_bio out)
  unfolding read_on
  read_on-Wrote in_bio out_bio r p (failed e, out') ((w, u), fails) =
      ((r, w), ap (λ s. s ++ unread inops content in_bio) u, fails)
  read_on-Wrote in_bio out_bio r p (done n, out') (w, l, u, m) =
      let buffer = drop in_bio.rh in_bio.rbuf in
      let rest = drop (in_bio.rh + n) in_bio.rbuf in
      let ahead = content in_bio.pdata in
      let left = length-drop in_bio.rh in_bio.rbuf in
      let left' = length-drop (in_bio.rh + n) in_bio.rbuf in
      let whole = length-append buffer ahead in
      let whole' = length-append rest ahead in
      let less = m (omega arith) in
      (
        (record { head = omega arith; fits = r.fits; hint = r.hint; ended = r.ended }, w),
        ap (λ s. s ++ (rest ++ ahead)) u
            ∙ append_assoc (output outops written out_bio) (take n buffer) (rest ++ ahead)
            ∙ ap (λ s. output outops written out_bio ++ s)
                (sym (append_assoc (take n buffer) rest ahead)
                  ∙ ap (λ s. s ++ ahead)
                      (ap (λ s. take n buffer ++ s) (sym (drop_add in_bio.rh n in_bio.rbuf))
                        ∙ take-append-drop n buffer)),
        omega arith,
        omega arith,
        λ _. omega arith,
        refl,
        omega arith,
      )

  pub write_round-Wrote :
      (in_bio : Bufio S) (out_bio : Bufio D)
      → Sound in_bio out_bio
      → Wrote in_bio out_bio (write_round inops outops in_bio out_bio)
  unfolding write_round
  write_round-Wrote in_bio out_bio (r, w) = elim (Bool-cases (ltb 0 (biordata in_bio))) [
    | inl some_there ↦ rw some_there (
        read_on-Wrote in_bio out_bio r (ltb→lt _ _ some_there)
          (biowritesome outops (drop in_bio.rh in_bio.rbuf) out_bio)
          (biowritesome-AddsSome outops written sink (drop in_bio.rh in_bio.rbuf) out_bio w))
    | inr none_there ↦
        let none_left = not-ltb→le _ _ none_there in
        rw none_there
          ((r, w), refl, omega arith, omega arith, λ p. absurd (omega arith), refl, omega arith)
  ]

  -- A round of reading.
  abbrev pub Read : Bufio S → Bufio D → Io ℕ × Bufio S → Type 0
  Read in_bio out_bio (failed e, in') =
      IsReader inops content in'
      × (unread inops content in' ≡ unread inops content in_bio)
      × ReadFails inops content
  Read in_bio out_bio (done n, in') =
      IsReader inops content in'
      × (unread inops content in' ≡ unread inops content in_bio)
      × (work in' out_bio ≤ work in_bio out_bio)
      × (biordata in_bio ≡ 0 → in_bio.eof ≡ false → work in' out_bio < work in_bio out_bio)

  at_most_one : (b : Bool) → (if b then 0 else 1) ≤ 1
  at_most_one true = omega arith
  at_most_one false = omega arith

  unread-length :
      (bio : Bufio S)
      → (length (unread inops content bio) ≡ biordata bio + length (content bio.pdata))
        × (length (drop bio.rh bio.rbuf) ≡ biordata bio)
  unread-length bio =
      let left = length-drop bio.rh bio.rbuf in
      let whole = length-append (drop bio.rh bio.rbuf) (content bio.pdata) in (omega arith, left)

  Filled-Read :
      (in_bio : Bufio S) (out_bio : Bufio D) (a : Io ℕ × Bufio S)
      → IsReader inops content in_bio
      → Filled inops content in_bio a
      → Read in_bio out_bio a
  Filled-Read in_bio out_bio (failed e, in') r (r', u, _, fails) = (r', u, fails)
  Filled-Read in_bio out_bio (done n, in') r (r', u, inl (z, d, c, f)) =
      let (before, held) = unread-length in_bio in
      let (after, held') = unread-length in' in
      let total = ap length u in
      let buffered = ap length d in
      let ended = ap length c in (r', u, rw f (omega arith), λ p q. rw (f, q) (omega arith))
  Filled-Read in_bio out_bio (done n, in') r (r', u, inr (e, l)) =
      let (before, held) = unread-length in_bio in
      let (after, held') = unread-length in' in
      let total = ap length u in
      let last = at_most_one in'.eof in (r', u, omega arith, λ p q. omega arith)

  pub fill_round-Read :
      (in_bio : Bufio S) (out_bio : Bufio D)
      → IsReader inops content in_bio
      → Read in_bio out_bio (fill_round inops outops in_bio)
  unfolding fill_round
  fill_round-Read in_bio out_bio r = elim (Bool-cases (biorspace in_bio == 0)) [
    | inl full ↦
        let h = r.hint in
        let there : 0 < biordata in_bio = ground arith in
        rw full (r, refl, omega arith, λ p _. absurd (omega arith))
    | inr room ↦ rw room (
        Filled-Read in_bio out_bio (biofill inops in_bio) r
          (biofill-Filled inops content source in_bio r))
  ]

  pub not_ended : (bio : Bufio S) → bioeof bio ≡ false → biordata bio ≡ 0 → bio.eof ≡ false
  not_ended bio e z = ground arith

  pub at_end :
      (bio : Bufio S)
      → IsReader inops content bio
      → bioeof bio ≡ true
      → unread inops content bio ≡ []
  at_end bio r e =
      let ended : bio.eof ≡ true = ground arith in
      let past : length bio.rbuf ≤ bio.rh = ground arith in
      rw (drop_all bio.rh bio.rbuf past, r.ended ended) refl

  -- A round goes on, if the stream is not at its end.
  pub round_less :
      (in_bio : Bufio S) (out_bio : Bufio D) (n : ℕ) (in' : Bufio S) (out' : Bufio D)
      (filled : Io ℕ × Bufio S)
      → bioeof in_bio ≡ false
      → Wrote in_bio out_bio (done n, out', in')
      → Read in' out' filled
      → (work filled.1 out' < work in_bio out_bio ⊎ ((e : ℕ) × (filled.0 ≡ failed e)))
  round_less a b n in' out' (failed e, in'') more w r = inr (e, refl)
  round_less a b n in' out' (done k, in'') more (_, _, _, m, m', same, held) (_, _, f, f') =
      inl (elim (Bool-cases (ltb 0 (biordata a))) [
        | inl some_there ↦ let less = m' (ltb→lt _ _ some_there) in omega arith
        | inr none_there ↦
            let none_left = not-ltb→le _ _ none_there in
            let less = f' (omega arith) (same ∙ not_ended a more (omega arith)) in omega arith
      ])
