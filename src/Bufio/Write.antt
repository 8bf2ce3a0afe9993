-- ===== src/Bufio/Write.antt =====
-- lib/bufio.c, writing and copying.
pub mod Stream
pub mod Put
pub mod Whole
pub mod Some
use ashd.Base.{
  ltb, leb, ◌==◌, if◌then◌else◌, length, take, drop, Bytes, ℕ, zero, suc, ◌+◌, ◌-◌, min, not, ◌&&◌,
  Option, none, some, [], ◌∷◌, ◌++◌,
}
use ashd.Bufio.{Io, done, failed, Ops, Bufio, sizebuf}

-- EPIPE.
abbrev epipe : ℕ
epipe = 32

-- `if(wb > 0) return(wb); return(-1);`
abbrev pub so_far : ℕ → ℕ → Io ℕ
so_far wb e = if ltb 0 wb then done wb else failed e

module _ {S : Type 0} where
  unfoldable pub empty_wbuf : Bufio S → Bufio S
  empty_wbuf bio = record bio { wbuf = []; wh = 0 }

  -- The free end of the write buffer.
  abbrev pub wfree : Bufio S → ℕ
  wfree bio = bio.wsize - length bio.wbuf

  unfoldable pub append_wbuf : Bytes → Bufio S → Bufio S
  append_wbuf bytes bio = record bio { wbuf = bio.wbuf ++ bytes }

  -- One write of what waits, as in `bioflush` and `bioflushsome`.
  unfoldable pub took_out : Bufio S → Io ℕ × S → Io ℕ × Bufio S
  took_out bio (failed e, pdata) = (failed e, record bio { err = e; pdata = pdata })
  took_out bio (done n, pdata) = (done 1, record bio { wh = bio.wh + n; pdata = pdata })

  -- `biowensure` behind its flush.
  unfoldable pub resize_wbuf : ℕ → Bufio S → Bufio S
  unfolding empty_wbuf
  resize_wbuf bytes bio =
      let wanted = if ltb bytes bio.bufhint then bio.bufhint else bytes in
      let size =
        if ltb bio.bufhint bio.wsize && leb bytes bio.bufhint
        then bio.bufhint
        else sizebuf bio.wsize wanted in
      record (empty_wbuf bio) { wsize = size }

  -- A write past the buffer, in `biowrite`: the error, or how many bytes it took.
  unfoldable pub took_data : ℕ → Bufio S → Io ℕ × S → Io ℕ × Bufio S
  took_data wb bio (failed e, pdata) =
      (failed e, record bio { err = if wb == 0 then e else bio.err; pdata = pdata })
  took_data wb bio (done n, pdata) = (done n, record bio { pdata = pdata })

  -- The write buffer is moved to its front where its end is reached.
  unfoldable pub make_wroom : Bufio S → Bufio S
  make_wroom bio =
      let moved : Bufio S = record bio { wbuf = drop bio.wh bio.wbuf; wh = 0 } in
      if length bio.wbuf == bio.wsize && ltb 0 bio.wh then moved else bio

  -- `biowritesome` and `biocopybuf`, in front of the copy.
  unfoldable pub prepare_wbuf : Bufio S → Bufio S
  unfolding make_wroom empty_wbuf
  prepare_wbuf bio =
      let sized : Bufio S = record bio { wsize = sizebuf bio.wsize bio.bufhint } in
      make_wroom (if sized.wh == length sized.wbuf then empty_wbuf sized else sized)

  -- The end of `biowritesome`, behind `bioflushsome`.
  unfoldable pub settle_some : ℕ → Io ℕ × Bufio S → Io ℕ × Bufio S
  settle_some ret (done _, bio) = (done ret, bio)
  settle_some ret (failed e, bio) =
      let undone : Bufio S = record bio { wbuf = take (length bio.wbuf - ret) bio.wbuf } in
      if ret == 0
      then (failed e, bio)
      else if ltb ret (length bio.wbuf - bio.wh)
      then (failed e, undone)
      else (done ret, bio)

  module _ (ops : Ops S) where
    unfoldable pub write_out : Bufio S → Io ℕ × Bufio S
    unfolding took_out
    write_out bio = took_out bio (ops.write (drop bio.wh bio.wbuf) bio.pdata)

    -- The loop of `bioflush`, on fuel: `none` means that it ran out.
    unfoldable pub flush_loop : ℕ → Bufio S → Option (Io ℕ × Bufio S)
    unfolding write_out
    flush_loop zero bio = none
    flush_loop (suc fuel) bio =
        let (ret, bio') = write_out bio in
        let more = flush_loop fuel bio' in
        if ltb bio.wh (length bio.wbuf)
        then elim ret [ failed e ↦ some (failed e, bio') | done _ ↦ more ]
        else some (done 0, bio)

    unfoldable pub bioflush : Bufio S → Option (Io ℕ × Bufio S)
    unfolding flush_loop
    bioflush bio = flush_loop (suc (length bio.wbuf)) bio

    unfoldable pub bioflushsome : Bufio S → Io ℕ × Bufio S
    unfolding write_out
    bioflushsome bio = if ltb bio.wh (length bio.wbuf) then write_out bio else (done 0, bio)

    unfoldable pub biowensure : ℕ → Bufio S → Option (Io ℕ × Bufio S)
    unfolding bioflush resize_wbuf
    biowensure bytes bio =
        let flushed : Option (Io ℕ × Bufio S) = elim (bioflush bio) [
          | none ↦ none
          | some (failed e, bio') ↦ some (failed e, bio')
          | some (done _, bio') ↦ some (done 0, resize_wbuf bytes bio')
        ] in
        if ltb (wfree bio) bytes
        then (if not ops.can_write
            then some (failed epipe, record bio { err = epipe })
            else flushed)
        else some (done 0, bio)

    unfoldable pub bioputc : ℕ → Bufio S → Option (Io ℕ × Bufio S)
    unfolding biowensure append_wbuf
    bioputc c bio = elim (biowensure 1 bio) [
      | none ↦ none
      | some (failed e, bio') ↦ some (failed e, bio')
      | some (done _, bio') ↦ some (done 0, append_wbuf (c ∷ []) bio')
    ]

    unfoldable pub write_past : ℕ → Bytes → Bufio S → Option (Io ℕ × Bufio S)
    unfolding bioflush empty_wbuf took_data
    write_past wb bytes bio = elim (bioflush bio) [
      | none ↦ none
      | some (failed e, bio') ↦ some (failed e, bio')
      | some (done _, bio') ↦
          let ready = empty_wbuf bio' in some (took_data wb ready (ops.write bytes ready.pdata))
    ]

    -- The loop of `biowrite`, on fuel: `wb` bytes are written, and the list is what is left.
    unfoldable pub write_loop : ℕ → ℕ → Bytes → Bufio S → Option (Io ℕ × Bufio S)
    unfolding biowensure append_wbuf write_past
    write_loop zero wb bytes bio = none
    write_loop (suc fuel) wb [] bio = some (done wb, bio)
    write_loop (suc fuel) wb (c ∷ bytes) bio =
        let rest = c ∷ bytes in
        elim (biowensure (min (length rest) bio.bufhint) bio) [
          | none ↦ none
          | some (failed e, bio') ↦ some (so_far wb e, bio')
          | some (done _, bio') ↦
              if ltb (length rest) (wfree bio')
              then some (done (wb + length rest), append_wbuf rest bio')
              else elim (write_past wb rest bio') [
                | none ↦ none
                | some (failed e, bio'') ↦ some (so_far wb e, bio'')
                | some (done n, bio'') ↦ write_loop fuel (wb + n) (drop n rest) bio''
              ]
        ]

    unfoldable pub biowrite : Bytes → Bufio S → Option (Io ℕ × Bufio S)
    unfolding write_loop
    biowrite bytes bio = write_loop (suc (length bytes)) 0 bytes bio

    unfoldable pub biowritesome : Bytes → Bufio S → Io ℕ × Bufio S
    unfolding prepare_wbuf append_wbuf bioflushsome settle_some
    biowritesome bytes bio =
        let ready = prepare_wbuf bio in
        let ret = min (length bytes) (wfree ready) in
        settle_some ret (bioflushsome (append_wbuf (take ret bytes) ready))
