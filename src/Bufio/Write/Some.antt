-- ===== src/Bufio/Write/Some.antt =====
-- lib/bufio.c biowritesome: what it adds to the stream.
use ashd.Base.{
  ltb, ◌==◌, ltb→lt, ==_iff, Bool-cases, length, take, drop, length-append, length-drop,
  take-length-append, length-take, Bytes, ℕ, ◌+◌, ◌-◌, ◌*◌, ◌≤◌, ◌<◌, min, ◌≡◌, refl, ap, ◌∙◌, inl,
  inr, ◌&&◌, [], ◌++◌, append-nil, arith,
}
use ashd.Bufio.{Io, done, failed, Ops, Bufio, biowdata, sizebuf}
use ashd.Bufio.Read.Stream.{sizebuf_enough, drop_all}
use ashd.Bufio.Write.{
  empty_wbuf, wfree, append_wbuf, write_out, make_wroom, prepare_wbuf, settle_some, bioflushsome,
  biowritesome,
}
use ashd.Bufio.Write.Stream.{IsSink, WriteFails, output, IsWriter, Outs, write_out-Outs}
use ashd.Bufio.Write.Put.{empty_output, append_output, append-IsWriter}

module _ {S : Type 0} (ops : Ops S) (written : S → Bytes) (sink : IsSink ops written) where
  -- The stream is as it was.
  abbrev pub Kept : Bufio S → Bufio S → Type 0
  Kept bio bio' = IsWriter ops written bio' × (output ops written bio' ≡ output ops written bio)

  pub make_wroom-Kept : (bio : Bufio S) → IsWriter ops written bio → Kept bio (make_wroom bio)
  unfolding make_wroom
  make_wroom-Kept bio w = elim (Bool-cases (length bio.wbuf == bio.wsize && ltb 0 bio.wh)) [
    | inl full ↦
        let left = length-drop bio.wh bio.wbuf in
        let f = w.fits in
        rw full (record { head = omega arith; fits = omega arith; hint = w.hint }, refl)
    | inr roomy ↦ rw roomy (w, refl)
  ]

  empty-IsWriter :
      (bio : Bufio S) → IsWriter ops written bio → IsWriter ops written (empty_wbuf bio)
  unfolding empty_wbuf
  empty-IsWriter bio w = record { head = omega arith; fits = omega arith; hint = w.hint }

  prepare_wbuf-Kept : (bio : Bufio S) → IsWriter ops written bio → Kept bio (prepare_wbuf bio)
  unfolding prepare_wbuf empty_wbuf
  prepare_wbuf-Kept bio w =
      let (_, enough) = sizebuf_enough bio.wsize bio.bufhint in
      let h = w.head in
      let f = w.fits in
      let sized : Bufio S = record bio { wsize = sizebuf bio.wsize bio.bufhint } in
      let w' : IsWriter ops written sized = record {
        head = w.head;
        fits = omega arith;
        hint = w.hint;
      } in
      elim (Bool-cases (bio.wh == length bio.wbuf)) [
        | inl used ↦
            let at_end = (==_iff _ _).0 used in
            let (w'', u) = make_wroom-Kept (empty_wbuf sized) (empty-IsWriter sized w') in
            let nothing : drop bio.wh bio.wbuf ≡ [] = drop_all bio.wh bio.wbuf (omega arith) in
            rw used (w'', u ∙ empty_output ops written sink sized nothing)
        | inr more ↦ rw more (make_wroom-Kept sized w')
      ]

  make_wroom_pending : (bio : Bufio S) → biowdata (make_wroom bio) ≡ biowdata bio
  unfolding make_wroom
  make_wroom_pending bio = elim (Bool-cases (length bio.wbuf == bio.wsize && ltb 0 bio.wh)) [
    | inl full ↦ let left = length-drop bio.wh bio.wbuf in rw full (omega arith)
    | inr roomy ↦ rw roomy refl
  ]

  prepare_pending :
      (bio : Bufio S) → IsWriter ops written bio → biowdata (prepare_wbuf bio) ≡ biowdata bio
  unfolding prepare_wbuf empty_wbuf
  prepare_pending bio w =
      let sized : Bufio S = record bio { wsize = sizebuf bio.wsize bio.bufhint } in
      elim (Bool-cases (bio.wh == length bio.wbuf)) [
        | inl used ↦
            let at_end = (==_iff _ _).0 used in
            let nothing : 0 ≡ length bio.wbuf - bio.wh = omega arith in
            rw used (make_wroom_pending (empty_wbuf sized) ∙ nothing)
        | inr more ↦ rw more (make_wroom_pending sized)
      ]

  -- There is room in the buffer, or something in it that can be written.
  make_wroom_live :
      (bio : Bufio S)
      → IsWriter ops written bio
      → 0 < bio.wsize
      → 0 < wfree (make_wroom bio) + biowdata (make_wroom bio)
  unfolding make_wroom
  make_wroom_live bio w p =
      let h = w.head in
      let f = w.fits in
      let left = length-drop bio.wh bio.wbuf in
      elim (Bool-cases (length bio.wbuf == bio.wsize && ltb 0 bio.wh)) [
        | inl full ↦ rw full (ground arith)
        | inr roomy ↦ rw roomy (ground arith)
      ]

  prepare_live :
      (bio : Bufio S)
      → IsWriter ops written bio
      → 0 < wfree (prepare_wbuf bio) + biowdata (prepare_wbuf bio)
  unfolding prepare_wbuf empty_wbuf
  prepare_live bio w =
      let (hinted, enough) = sizebuf_enough bio.wsize bio.bufhint in
      let h = w.head in
      let f = w.fits in
      let p = w.hint in
      let sized : Bufio S = record bio { wsize = sizebuf bio.wsize bio.bufhint } in
      let w' : IsWriter ops written sized = record {
        head = w.head;
        fits = omega arith;
        hint = w.hint;
      } in
      elim (Bool-cases (bio.wh == length bio.wbuf)) [
        | inl used ↦
            rw used (make_wroom_live (empty_wbuf sized) (empty-IsWriter sized w') (omega arith))
        | inr more ↦ rw more (make_wroom_live sized w' (omega arith))
      ]

  -- biowritesome takes as many bytes as there is room for, or, where it returns -1, none. Of
  -- bytes that are there it takes one at least, or writes one that was taken before.
  abbrev pub AddsSome : Bytes → Bufio S → Io ℕ × Bufio S → Type 0
  AddsSome bytes bio (done n, bio') =
      IsWriter ops written bio'
      × (n ≤ length bytes)
      × (output ops written bio' ≡ output ops written bio ++ take n bytes)
      × (0 < length bytes → biowdata bio' < biowdata bio + 2 * n)
  AddsSome bytes bio (failed e, bio') = Kept bio bio' × WriteFails ops written

  -- One write, or none, behind which the stream is as it was; and where it failed, the buffer too.
  abbrev FlushesSome : Bufio S → Io ℕ × Bufio S → Type 0
  FlushesSome bio (done _, bio') = Kept bio bio' × (0 < biowdata bio → biowdata bio' < biowdata bio)
  FlushesSome bio (failed e, bio') = Outs ops written bio (failed e, bio')

  bioflushsome-FlushesSome :
      (bio : Bufio S) → IsWriter ops written bio → FlushesSome bio (bioflushsome ops bio)
  unfolding bioflushsome
  bioflushsome-FlushesSome bio w = elim (Bool-cases (ltb bio.wh (length bio.wbuf))) [
    | inr empty ↦ rw empty ((w, refl), ground arith)
    | inl more ↦
        rw more (go (write_out ops bio) (write_out-Outs ops written sink bio w (ltb→lt _ _ more)))
  ]
    where
      go : (out : Io ℕ × Bufio S) → Outs ops written bio out → FlushesSome bio out
      go (failed e, bio') o = o
      go (done n, bio') (w', u, b, m) =
          let same = ap length b in let h = w'.head in ((w', u), λ p. omega arith)

  added :
      (bytes : Bytes) (ret : ℕ) (bio ready : Bufio S)
      → Kept bio ready
      → output ops written (append_wbuf (take ret bytes) ready)
        ≡ output ops written bio ++ take ret bytes
  added bytes ret bio ready (w, u) =
      append_output ops written sink (take ret bytes) ready w.head ∙ ap (λ s. s ++ take ret bytes) u

  pending_added :
      (bytes : Bytes) (ret : ℕ) (ready : Bufio S)
      → ret ≤ length bytes
      → IsWriter ops written ready
      → biowdata (append_wbuf (take ret bytes) ready) ≡ biowdata ready + ret
  unfolding append_wbuf
  pending_added bytes ret ready l w =
      let taken = length-take ret bytes in
      let whole = length-append ready.wbuf (take ret bytes) in let h = w.head in omega arith

  undone_wbuf :
      (bytes : Bytes) (ret : ℕ) (wbuf after : Bytes)
      → ret ≤ length bytes
      → after ≡ wbuf ++ take ret bytes
      → take (length after - ret) after ≡ wbuf
  undone_wbuf bytes ret wbuf after l e =
      let taken = length-take ret bytes in
      let whole = length-append wbuf (take ret bytes) in
      let same = ap length e in
      let left : length after - ret ≡ length wbuf = omega arith in
      ap (λ n. take n after) left
      ∙ ap (take (length wbuf)) e
      ∙ take-length-append wbuf (take ret bytes)

  settle_some-AddsSome :
      (bytes : Bytes) (ret : ℕ) (bio ready : Bufio S)
      → ret ≤ length bytes
      → ret ≤ wfree ready
      → Kept bio ready
      → biowdata ready ≡ biowdata bio
      → (0 < length bytes → 0 < ret + biowdata ready)
      → (out : Io ℕ × Bufio S) → FlushesSome (append_wbuf (take ret bytes) ready) out
      → AddsSome bytes bio (settle_some ret out)
  unfolding settle_some append_wbuf
  settle_some-AddsSome bytes ret bio ready l f (w, u) same live (done n, bio') ((w', v), m) =
      let waits = pending_added bytes ret ready l w in
      (
        w',
        l,
        v ∙ added bytes ret bio ready (w, u),
        λ p. let some_there = live p in let less = m (omega arith) in omega arith,
      )
  settle_some-AddsSome bytes ret bio ready l f (w, u) same live (failed e, bio')
        (w', v, b, h, g, fails) =
      elim (Bool-cases (ret == 0)) [
        | inl nothing ↦
            let z = (==_iff _ _).0 nothing in
            rw nothing (
              (
                w',
                v
                    ∙ added bytes ret bio ready (w, u)
                    ∙ ap (λ n. output ops written bio ++ take n bytes) z
                    ∙ append-nil (output ops written bio),
              ),
              fails,
            )
        | inr some_taken ↦ elim (Bool-cases (ltb ret (length bio'.wbuf - bio'.wh))) [
          | inr flushed ↦
              let waits = pending_added bytes ret ready l w in
              let unchanged = ap length b in
              rw (some_taken, flushed)
                (w', l, v ∙ added bytes ret bio ready (w, u), λ p. ground arith)
          | inl waits ↦
              let less = ltb→lt _ _ waits in
              let kept = length-take (length bio'.wbuf - ret) bio'.wbuf in
              let same = undone_wbuf bytes ret ready.wbuf bio'.wbuf l b in
              simp (some_taken, waits)
                (
                  (
                    record { head = omega arith; fits = omega arith; hint = w'.hint },
                    ap (λ s. written bio'.pdata ++ drop bio'.wh s) same
                        ∙ ap (λ n. written bio'.pdata ++ drop n ready.wbuf) h
                        ∙ ap (λ s. s ++ drop ready.wh ready.wbuf) g
                        ∙ u,
                  ),
                  fails,
                )
        ]
      ]

  add_some-AddsSome :
      (bytes : Bytes) (ret : ℕ) (bio ready : Bufio S)
      → ret ≤ length bytes
      → ret ≤ wfree ready
      → Kept bio ready
      → biowdata ready ≡ biowdata bio
      → (0 < length bytes → 0 < ret + biowdata ready)
      → AddsSome bytes bio (settle_some ret (bioflushsome ops (append_wbuf (take ret bytes) ready)))
  add_some-AddsSome bytes ret bio ready l f (w, u) same live =
      let taken = length-take ret bytes in
      settle_some-AddsSome bytes ret bio ready l f (w, u) same live
        (bioflushsome ops (append_wbuf (take ret bytes) ready))
        (bioflushsome-FlushesSome (append_wbuf (take ret bytes) ready)
          (append-IsWriter ops written sink (take ret bytes) ready w (omega arith)))

  pub biowritesome-AddsSome :
      (bytes : Bytes) (bio : Bufio S)
      → IsWriter ops written bio
      → AddsSome bytes bio (biowritesome ops bytes bio)
  unfolding biowritesome
  biowritesome-AddsSome bytes bio w =
      add_some-AddsSome bytes (min (length bytes) (wfree (prepare_wbuf bio))) bio (prepare_wbuf bio)
        (omega arith) (omega arith) (prepare_wbuf-Kept bio w) (prepare_pending bio w)
        (λ p. let live = prepare_live bio w in omega arith)
