-- ===== src/Fcgi/Record.antt =====
-- src/callfcgi.c sendrec, recvrec and begreq: the records that FastCGI is made of. The streams take
-- what is written.
pub mod RoundTrip
use ashd.Base.{
  ltb, leb, ◌==◌, if◌then◌else◌, length, take, drop, Bytes, ℕ, zero, suc, ◌+◌, ◌-◌, ◌*◌, ◌/◌, ◌%◌,
  not, ◌&&◌, Option, none, some, [], ◌∷◌, ◌++◌,
}

-- What recvrec reads.
pub record Rec : Type 0 where
  pub type : ℕ
  pub rid : ℕ
  pub content : Bytes

abbrev pub fcgi_begin_request : ℕ
fcgi_begin_request = 1

abbrev pub fcgi_params : ℕ
fcgi_params = 4

abbrev pub fcgi_stdin : ℕ
fcgi_stdin = 5

-- The most that a record holds.
unfoldable pub max_content : ℕ
max_content = 65535

abbrev pub zeros : ℕ → Bytes
zeros zero = []
zeros (suc n) = 0 ∷ zeros n

-- One record, with its padding. fputc writes the low byte of a number.
unfoldable pub put_record : ℕ → ℕ → Bytes → Bytes
put_record type rid content =
    let cl = length content in
    let p = (8 - cl % 8) % 8 in
    1 ∷ type % 256 ∷ rid / 256 % 256 ∷ rid % 256 ∷ cl / 256 % 256 ∷ cl % 256 ∷ p ∷ 0 ∷ content
    ++ zeros p

-- The loop, on fuel; `none` means that it ran out. A record is written for no data, too.
unfoldable pub send_loop : ℕ → ℕ → ℕ → Bytes → Option Bytes
unfolding put_record
send_loop zero type rid content = none
send_loop (suc fuel) type rid content =
    let more = send_loop fuel type rid (drop max_content content) in
    let one = put_record type rid (take max_content content) in
    if ltb max_content (length content)
    then elim more [ none ↦ none | some bytes ↦ some (one ++ bytes) ]
    else some one

unfoldable pub sendrec : ℕ → ℕ → Bytes → Option Bytes
unfolding send_loop
sendrec type rid content = send_loop (suc (length content)) type rid content

unfoldable pub begreq : ℕ → Option Bytes
unfolding sendrec
begreq rid = sendrec fcgi_begin_request rid (0 ∷ 1 ∷ 0 ∷ 0 ∷ 0 ∷ 0 ∷ 0 ∷ 0 ∷ [])

-- What recvrec comes to: a record, and what follows it in the stream; -1, with `*data` as it was;
-- or -1, with `*data` freed but still pointing there, where the stream ends within a record's body.
pub data RecordRead : Type 0 where
  received : Rec → Bytes → RecordRead
  refused freed : RecordRead

unfoldable pub recvrec : Bytes → RecordRead
recvrec (version ∷ type ∷ r1 ∷ r0 ∷ l1 ∷ l0 ∷ p ∷ reserved ∷ rest) =
    let dlen = l1 * 256 + l0 in
    let tl = dlen + p in
    if not (version == 1 && reserved == 0)
    then refused
    else if leb tl (length rest)
    then received (record { type = type; rid = r1 * 256 + r0; content = take dlen (take tl rest) })
        (drop tl rest)
    else freed
recvrec _ = refused
