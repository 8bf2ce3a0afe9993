-- ===== src/Bufio/Read.antt =====
-- lib/bufio.c, reading.
pub mod Stream
pub mod Getc
use ashd.Base.{
  ltb, leb, ◌==◌, if◌then◌else◌, length, take, drop, Bytes, ℕ, zero, suc, ◌+◌, ◌-◌, ◌*◌, true, not,
  ◌&&◌, Option, none, some, [], ◌∷◌, ◌++◌,
}
use ashd.Bufio.{Io, done, failed, Ops, Bufio, sizebuf}

module _ {S : Type 0} where
  -- The buffer of `biofill` is emptied, moved to its front or enlarged, and made small again.
  unfoldable pub rewind : Bufio S → Bufio S
  rewind bio = if bio.rh == length bio.rbuf then record bio { rbuf = []; rh = 0 } else bio

  unfoldable pub make_room : Bufio S → Bufio S
  make_room bio =
      let moved : Bufio S = record bio { rbuf = drop bio.rh bio.rbuf; rh = 0 } in
      let wanted = if ltb (bio.rsize * 2) bio.bufhint then bio.bufhint else bio.rsize * 2 in
      let larger : Bufio S = record bio { rsize = sizebuf bio.rsize wanted } in
      if length bio.rbuf == bio.rsize then (if ltb 0 bio.rh then moved else larger) else bio

  unfoldable pub shrink : Bufio S → Bufio S
  shrink bio =
      if ltb bio.bufhint bio.rsize && ltb (length bio.rbuf) bio.bufhint
      then record bio { rsize = bio.bufhint }
      else bio

  unfoldable pub prepare : Bufio S → Bufio S
  unfolding rewind make_room shrink
  prepare bio = shrink (make_room (rewind bio))

  -- Bytes that are there already.
  unfoldable pub read_there : ℕ → Bufio S → Io Bytes × Bufio S
  read_there len bio = (
    done (take len (drop bio.rh bio.rbuf)),
    record bio { rh = bio.rh + length (take len (drop bio.rh bio.rbuf)) },
  )

  -- What the read gave is taken in.
  unfoldable pub take_in : Bufio S → Io Bytes × S → Io ℕ × Bufio S
  take_in bio (failed e, pdata) = (failed e, record bio { err = e; pdata = pdata })
  take_in bio (done [], pdata) = (done 0, record bio { eof = true; pdata = pdata })
  take_in bio (done (c ∷ bytes), pdata) = (
    done (length (bio.rbuf ++ c ∷ bytes) - bio.rh),
    record bio { rbuf = bio.rbuf ++ c ∷ bytes; pdata = pdata },
  )

  module _ (ops : Ops S) where
    unfoldable pub biofill : Bufio S → Io ℕ × Bufio S
    unfolding prepare take_in
    biofill bio =
        let ready = prepare bio in
        if not ops.can_read
        then (done 0, record bio { eof = true })
        else if bio.eof
        then (done 0, bio)
        else take_in ready (ops.read (ready.rsize - length ready.rbuf) ready.pdata)

    -- The loop of `biorensure`, on fuel.
    unfoldable pub rensure_loop : ℕ → ℕ → Bufio S → Io ℕ × Bufio S
    unfolding biofill
    rensure_loop zero bytes bio = (done 0, bio)
    rensure_loop (suc fuel) bytes bio =
        let (ret, bio') = biofill bio in
        let more = rensure_loop fuel bytes bio' in
        if ltb (length bio.rbuf - bio.rh) bytes
        then elim ret [
          | failed e ↦ (failed e, bio')
          | done n ↦ if n == 0 then (done 0, bio') else more
        ]
        else (done (length bio.rbuf - bio.rh), bio)

    unfoldable pub biorensure : ℕ → Bufio S → Io ℕ × Bufio S
    unfolding rensure_loop
    biorensure bytes bio = rensure_loop (suc bytes) bytes bio

    -- The loop of `biogetc`, on fuel. `none` is EOF.
    unfoldable pub getc_loop : ℕ → Bufio S → Option ℕ × Bufio S
    unfolding biofill
    getc_loop zero bio = (none, bio)
    getc_loop (suc fuel) bio = elim (drop bio.rh bio.rbuf) [
      | c ∷ rest ↦ (some c, record bio { rh = bio.rh + 1 })
      | [] ↦
          let (ret, bio') = biofill bio in
          let more = getc_loop fuel bio' in
          elim ret [ failed e ↦ (none, bio') | done n ↦ if n == 0 then (none, bio') else more ]
    ]

    unfoldable pub biogetc : Bufio S → Option ℕ × Bufio S
    unfolding getc_loop
    biogetc bio = getc_loop 2 bio

    unfoldable pub bioreadsome : ℕ → Bufio S → Io Bytes × Bufio S
    unfolding biofill read_there
    bioreadsome len bio =
        let (ret, bio') = biofill bio in
        if leb (length bio.rbuf) bio.rh
        then elim ret [
          | failed e ↦ (failed e, bio')
          | done n ↦ if n == 0 then (done [], bio') else read_there len bio'
        ]
        else read_there len bio
