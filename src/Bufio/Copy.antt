-- ===== src/Bufio/Copy.antt =====
-- lib/bufio.c biocopysome and biocopybuf, and what they move from one stream to another.
use ashd.Base.{
  leb, if◌then◌else◌, Bool-cases, length, take, drop, length-drop, length-take, drop_add, Bytes, ℕ,
  ◌+◌, ◌-◌, ◌≤◌, min, ◌≡◌, refl, sym, ap, ◌∙◌, inl, inr, ◌++◌, append-nil, arith,
}
use ashd.Bufio.{Io, done, failed, Ops, Bufio, sizebuf}
use ashd.Bufio.Read.Stream.{sizebuf_enough}
use ashd.Bufio.Write.{wfree, append_wbuf, make_wroom, biowritesome}
use ashd.Bufio.Write.Stream.{IsSink, WriteFails, output, IsWriter}
use ashd.Bufio.Write.Put.{append_output, append-IsWriter}
use ashd.Bufio.Write.Some.{Kept, make_wroom-Kept, AddsSome, biowritesome-AddsSome}

module _ {D S : Type 0} where
  -- The copy of `biocopysome` came to this.
  unfoldable pub read_on : Bufio S → Io ℕ × Bufio D → Io ℕ × Bufio D × Bufio S
  read_on src (failed e, dst) = (failed e, dst, src)
  read_on src (done n, dst) = (done n, dst, record src { rh = src.rh + n })

  unfoldable pub biocopysome : Ops D → Bufio D → Bufio S → Io ℕ × Bufio D × Bufio S
  unfolding read_on biowritesome
  biocopysome ops dst src =
      if leb (length src.rbuf) src.rh
      then (done 0, dst, src)
      else read_on src (biowritesome ops (drop src.rh src.rbuf) dst)

  unfoldable pub biocopybuf : Bufio D → Bufio S → Io ℕ × Bufio D × Bufio S
  unfolding make_wroom append_wbuf
  biocopybuf dst src =
      let ready = make_wroom (record dst { wsize = sizebuf dst.wsize dst.bufhint }) in
      let ret = min (length src.rbuf - src.rh) (wfree ready) in
      (
        done ret,
        append_wbuf (take ret (drop src.rh src.rbuf)) ready,
        record src { rh = src.rh + ret },
      )

  module _ (ops : Ops D) (written : D → Bytes) (sink : IsSink ops written) where
    -- So many bytes are gone from the front of what was there to be read, and are behind what was
    -- written; where a copy fails, none are.
    abbrev pub Copies : Bufio D → Bufio S → Io ℕ × Bufio D × Bufio S → Type 0
    Copies dst src (done n, dst', src') =
        IsWriter ops written dst'
        × (output ops written dst' ≡ output ops written dst ++ take n (drop src.rh src.rbuf))
        × (drop src'.rh src'.rbuf ≡ drop n (drop src.rh src.rbuf))
        × (src'.rh ≤ length src'.rbuf)
    Copies dst src (failed e, dst', src') =
        IsWriter ops written dst'
        × (output ops written dst' ≡ output ops written dst)
        × (src' ≡ src)
        × WriteFails ops written

    read_on-Copies :
        (dst : Bufio D) (src : Bufio S)
        → src.rh ≤ length src.rbuf
        → (out : Io ℕ × Bufio D) → AddsSome ops written sink (drop src.rh src.rbuf) dst out
        → Copies dst src (read_on src out)
    unfolding read_on
    read_on-Copies dst src h (failed e, dst') ((w, u), fails) = (w, u, refl, fails)
    read_on-Copies dst src h (done n, dst') (w, l, u, _) =
        let left = length-drop src.rh src.rbuf in
        (w, u, sym (drop_add src.rh n src.rbuf), omega arith)

    biocopysome-Copies :
        (dst : Bufio D) (src : Bufio S)
        → IsWriter ops written dst
        → src.rh ≤ length src.rbuf
        → Copies dst src (biocopysome ops dst src)
    unfolding biocopysome
    biocopysome-Copies dst src w h = elim (Bool-cases (leb (length src.rbuf) src.rh)) [
      | inl read ↦ rw read (w, sym (append-nil (output ops written dst)), refl, h)
      | inr more ↦ rw more (
          read_on-Copies dst src h (biowritesome ops (drop src.rh src.rbuf) dst)
            (biowritesome-AddsSome ops written sink (drop src.rh src.rbuf) dst w))
    ]

    move-Copies :
        (dst ready : Bufio D) (src : Bufio S) (n : ℕ)
        → Kept ops written sink dst ready
        → src.rh ≤ length src.rbuf
        → n ≤ length src.rbuf - src.rh
        → n ≤ wfree ready
        → Copies dst src (
          done n,
          append_wbuf (take n (drop src.rh src.rbuf)) ready,
          record src { rh = src.rh + n },
        )
    move-Copies dst ready src n (w, u) h l f =
        let some = take n (drop src.rh src.rbuf) in
        let taken = length-take n (drop src.rh src.rbuf) in
        (
          append-IsWriter ops written sink some ready w (omega arith),
          append_output ops written sink some ready w.head ∙ ap (λ s. s ++ some) u,
          sym (drop_add src.rh n src.rbuf),
          omega arith,
        )

    biocopybuf-Copies :
        (dst : Bufio D) (src : Bufio S)
        → IsWriter ops written dst
        → src.rh ≤ length src.rbuf
        → Copies dst src (biocopybuf dst src)
    unfolding biocopybuf
    biocopybuf-Copies dst src w h =
        let sized : Bufio D = record dst { wsize = sizebuf dst.wsize dst.bufhint } in
        let (_, enough) = sizebuf_enough dst.wsize dst.bufhint in
        let f = w.fits in
        let w' : IsWriter ops written sized = record {
          head = w.head;
          fits = omega arith;
          hint = w.hint;
        } in
        move-Copies dst (make_wroom sized) src
          (min (length src.rbuf - src.rh) (wfree (make_wroom sized)))
          (make_wroom-Kept ops written sink sized w') h (omega arith) (omega arith)

    -- Over a sink that writes its bytes in order, whatever it takes of each, biowritesome adds so
    -- many of the first bytes as it returns, and none where it returns -1; biocopysome and
    -- biocopybuf take as many bytes as they return from the front of what waits to be read in one
    -- stream and add them to what was written to the other, in order, and where biocopysome returns
    -- -1 no byte is moved.
    pub bio-Copies :
        (dst : Bufio D) (src : Bufio S)
        → IsWriter ops written dst
        → src.rh ≤ length src.rbuf
        → ((bytes : Bytes) → AddsSome ops written sink bytes dst (biowritesome ops bytes dst))
          × Copies dst src (biocopysome ops dst src)
          × Copies dst src (biocopybuf dst src)
    bio-Copies dst src w h = (
      λ bytes. biowritesome-AddsSome ops written sink bytes dst w,
      biocopysome-Copies dst src w h,
      biocopybuf-Copies dst src w h,
    )
