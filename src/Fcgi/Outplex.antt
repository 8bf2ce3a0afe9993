-- ===== src/Fcgi/Outplex.antt =====
-- src/callfcgi.c outplex: the records of a server, taken apart into its streams.
pub mod Streams
pub mod Equals
use ashd.Base.{
  ◌==◌, if◌then◌else◌, length, take, Bytes, ℕ, zero, suc, min, Bool, true, false, not, Option, none,
  some, List, [], ◌∷◌, ◌++◌,
}
use ashd.Fcgi.Record.{Rec, received, refused, freed, recvrec}
use ashd.Fcgi.Record.RoundTrip.{recv_records}

-- `struct ch`: `is_open` is false where `s` is NULL, and `got` is what was written to the stream.
pub record Out : Type 0 where
  pub id : ℕ
  pub is_open : Bool
  pub got : Bytes

-- What fwrite takes of the data, if the stream was given so much before.
abbrev pub Fwrite : Type 0
Fwrite = Bytes → Bytes → ℕ

-- fclose, and the pointer is set to NULL.
unfoldable pub close_out : Out → Out
close_out o = record o { is_open = false }

-- The write to the stream of a record, and whether outplex goes on.
unfoldable pub write_out : Fwrite → Bytes → Out → Bool × Out
unfolding close_out
write_out fwrite content o =
    let n = min (fwrite o.got content) (length content) in
    if not o.is_open
    then (true, o)
    else if length content == 0
    then (true, close_out o)
    else (n == length content, record o { got = o.got ++ take n content })

-- The loop over the streams, which ends at the first one of this type.
unfoldable pub deliver : Fwrite → Rec → List Out → Bool × List Out
unfolding write_out
deliver fwrite r [] = (true, [])
deliver fwrite r (o ∷ os) =
    let (goes_on, o') = write_out fwrite r.content o in
    let (later, os') = deliver fwrite r os in
    if o.id == r.type then (goes_on, o' ∷ os) else (later, o ∷ os')

-- Behind `out`: the streams that are still open are closed.
unfoldable pub close_all : List Out → List Out
unfolding close_out
close_all [] = []
close_all (o ∷ os) = close_out o ∷ close_all os

-- How outplex ends: with its streams, or at `out` with a second free of the data that recvrec has
-- freed.
pub data Ending : Type 0 where
  ends : List Out → Ending
  double_free : Ending

-- `outplex` over the bytes that the server sends, on fuel: `none` means that it ran out.
unfoldable pub outplex_loop : ℕ → Fwrite → Bytes → List Out → Option Ending
unfolding recvrec deliver close_all
outplex_loop zero fwrite input outs = none
outplex_loop (suc fuel) fwrite input outs = elim (recvrec input) [
  | refused ↦ some (ends (close_all outs))
  | freed ↦ some double_free
  | received r rest ↦
      let (goes_on, outs') = deliver fwrite r outs in
      let more = outplex_loop fuel fwrite rest outs' in
      if not (r.rid == 1)
      then some (ends (close_all outs))
      else if goes_on
      then more
      else some (ends (close_all outs'))
]

unfoldable pub outplex : Fwrite → Bytes → List Out → Option Ending
unfolding outplex_loop
outplex fwrite input outs = outplex_loop (suc (length input)) fwrite input outs
