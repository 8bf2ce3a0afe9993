-- ===== src/Accesslog/Pass.antt =====
-- src/accesslog.c passdata: what is read from one buffered stream is written to another.
pub mod Round
pub mod Whole
use ashd.Base.{ltb, ◌==◌, if◌then◌else◌, drop, ℕ, zero, suc, ◌+◌, not, Option, none, some}
use ashd.Bufio.{Io, done, failed, Ops, Bufio, biordata, biorspace, bioeof, biowdata}
use ashd.Bufio.Read.{biofill}
use ashd.Bufio.Read.Stream.{unread, IsSource, IsReader, ReadFails, Filled, biofill-Filled}
use ashd.Bufio.Write.{biowritesome}
use ashd.Bufio.Write.Stream.{IsSink, WriteFails, output, IsWriter}
use ashd.Bufio.Copy.{read_on}
use ashd.Bufio.Write.Some.{AddsSome, biowritesome-AddsSome}

module _ {S D : Type 0} (inops : Ops S) (outops : Ops D) where
  -- The write of one round, if there is something to be written.
  unfoldable pub write_round : Bufio S → Bufio D → Io ℕ × Bufio D × Bufio S
  unfolding read_on biowritesome
  write_round in_bio out_bio =
      if ltb 0 (biordata in_bio)
      then read_on in_bio (biowritesome outops (drop in_bio.rh in_bio.rbuf) out_bio)
      else (done 0, out_bio, in_bio)

  -- The read of one round, if there is room for it.
  unfoldable pub fill_round : Bufio S → Io ℕ × Bufio S
  unfolding biofill
  fill_round in_bio = if not (biorspace in_bio == 0) then biofill inops in_bio else (done 0, in_bio)

  -- `passdata`, on fuel: `none` means that it ran out. The result is `*passed`, or -1.
  unfoldable pub passdata : ℕ → ℕ → Bufio S → Bufio D → Option (Io ℕ × Bufio S × Bufio D)
  unfolding write_round fill_round
  passdata zero total in_bio out_bio = none
  passdata (suc fuel) total in_bio out_bio =
      if bioeof in_bio
      then some (done total, in_bio, out_bio)
      else (let (ret, out', in') = write_round in_bio out_bio in
          let (filled, in'') = fill_round in' in
          elim ret [
            | failed e ↦ some (failed e, in', out')
            | done n ↦ elim filled [
              | failed e ↦ some (failed e, in'', out')
              | done _ ↦ passdata fuel (total + n) in'' out'
            ]
          ])
