-- ===== src/Fcgi/Record/RoundTrip.antt =====
-- What sendrec writes is read back by recvrec.
use ashd.Base.{
  ltb, leb, ltb→lt, le→leb, not-ltb→le, Bool-cases, Option-cases, ◌>>=◌, length, take, drop,
  length-append, take-append-drop, length-drop, take-length-append, drop-length-append, length-take,
  take_all, All, Bytes, ℕ, zero, suc, ◌+◌, ◌-◌, ◌*◌, ◌/◌, ◌%◌, ◌≤◌, ◌<◌, ◌≡◌, refl, sym, ap, ◌∙◌,
  inl, inr, true, Option, none, some, List, [], ◌∷◌, ◌++◌, append-nil, append_assoc, arith,
}
use mathlib.Core.List.{flatten}
use ashd.Fcgi.Record.{
  Rec, max_content, zeros, put_record, send_loop, sendrec, RecordRead, received, refused, freed,
  recvrec,
}

pub max_content_bound : (max_content ≤ 65535) × (8 ≤ max_content)
unfolding max_content
max_content_bound = (omega arith, omega arith)

-- The record, if recvrec returns 0.
abbrev pub record_of : RecordRead → Option (Rec × Bytes)
record_of (received r rest) = some (r, rest)
record_of refused = none
record_of freed = none

-- recvrec, one time after the other.
abbrev pub recv_records : ℕ → Bytes → Option (List Rec × Bytes)
recv_records zero stream = some ([], stream)
recv_records (suc n) stream = do
  (r, rest) ← record_of (recvrec stream)
  (rs, left) ← recv_records n rest
  some (r ∷ rs, left)

-- These bytes are these records, whatever follows them.
abbrev pub Reads : Bytes → List Rec → Type 0
Reads bytes rs = (rest : Bytes) → recv_records (length rs) (bytes ++ rest) ≡ some (rs, rest)

-- The records of one type and one request with these data.
abbrev pub records_of : ℕ → ℕ → List Bytes → List Rec
records_of type rid [] = []
records_of type rid (d ∷ ds) =
    record { type = type; rid = rid; content = d } ∷ records_of type rid ds

length-zeros : (n : ℕ) → length (zeros n) ≡ n
length-zeros zero = refl
length-zeros (suc n) = omega (arith, length-zeros n)

recvrec-put_record :
    (type rid : ℕ) (content rest : Bytes)
    → type < 256
    → rid < 65536
    → length content ≤ max_content
    → recvrec (put_record type rid content ++ rest)
      ≡ received (record { type = type; rid = rid; content = content }) rest
unfolding recvrec put_record
recvrec-put_record type rid content rest t r l =
    let bound = max_content_bound.0 in
    let cl = length content in
    let p = (8 - cl % 8) % 8 in
    let size : cl / 256 % 256 * 256 + cl % 256 ≡ cl = omega arith in
    let req : rid / 256 % 256 * 256 + rid % 256 ≡ rid = omega arith in
    let typ : type % 256 ≡ type = omega arith in
    let record_body = content ++ zeros p in
    let pad = length-zeros p in
    let body_length : length record_body ≡ cl + p = length-append content (zeros p) ∙ rw pad refl in
    let whole = length-append record_body rest in
    let fits : leb (cl + p) (length (record_body ++ rest)) ≡ true = le→leb _ _ (omega arith) in
    let taken : take (cl + p) (record_body ++ rest) ≡ record_body =
      rw body_length at (take-length-append record_body rest) in
    let left : drop (cl + p) (record_body ++ rest) ≡ rest =
      rw body_length at (drop-length-append record_body rest) in
    rw (size, req, typ, fits, taken, left, take-length-append content (zeros p)) refl

pub Reads-put_record :
    (type rid : ℕ) (content b : Bytes) (rs : List Rec)
    → type < 256
    → rid < 65536
    → length content ≤ max_content
    → Reads b rs
    → Reads
        (put_record type rid content ++ b)
        (record { type = type; rid = rid; content = content } ∷ rs)
Reads-put_record type rid content b rs t r l g rest =
    rw
      (
        append_assoc (put_record type rid content) b rest,
        recvrec-put_record type rid content (b ++ rest) t r l,
        g rest,
      )
      refl

pub Reads-nil : Reads [] []
Reads-nil rest = refl

-- The data, cut into pieces that a record can hold.
abbrev pub IsCut : Bytes → List Bytes → Type 0
IsCut content pieces = (flatten pieces ≡ content) × All (λ d. length d ≤ max_content) pieces

-- The records that are written carry the data, and reading them back gives them.
abbrev pub Sends : ℕ → ℕ → Bytes → Option Bytes → Type 0
Sends type rid content o =
    (bytes : Bytes) × (pieces : List Bytes) × (o ≡ some bytes)
    × IsCut content pieces
    × Reads bytes (records_of type rid pieces)

send_loop-Sends :
    (type rid : ℕ)
    → type < 256
    → rid < 65536
    → (fuel : ℕ) (content : Bytes) → length content < fuel
    → Sends type rid content (send_loop fuel type rid content)
unfolding send_loop flatten
send_loop-Sends type rid t r zero content l = absurd (omega arith)
send_loop-Sends type rid t r (suc fuel) content l =
    elim (Bool-cases (ltb max_content (length content))) [
      | inl long ↦
          let bound = max_content_bound.1 in
          let big = ltb→lt _ _ long in
          let one = put_record type rid (take max_content content) in
          let size = length-take max_content content in
          let small : length (take max_content content) ≤ max_content = omega arith in
          let rest_size = length-drop max_content content in
          let (bytes, pieces, e, (f, all), reads) =
            send_loop-Sends type rid t r fuel (drop max_content content) (omega arith) in
          rw (long, e)
            (
              one ++ bytes,
              take max_content content ∷ pieces,
              refl,
              (
                ap (λ xs. take max_content content ++ xs) f ∙ take-append-drop max_content content,
                (small, all),
              ),
              Reads-put_record type rid (take max_content content) bytes
                  (records_of type rid pieces) t r small reads,
            )
      | inr short ↦
          let all : take max_content content ≡ content =
            take_all max_content content (not-ltb→le _ _ short) in
          let fits = not-ltb→le _ _ short in
          rw (short, all)
            (
              put_record type rid content,
              content ∷ [],
              refl,
              (append-nil content, (fits, tt)),
              λ rest.
                  ap (λ b. recv_records 1 (b ++ rest))
                    (sym (append-nil (put_record type rid content)))
                  ∙ Reads-put_record type rid content [] [] t r fits Reads-nil rest,
            )
    ]

-- Data of any length, sent with a type and a request that a record can carry, are read back as
-- records of this type and request that hold no more than the bound each and carry the data in
-- order, and what follows them in the stream stays unread.
pub recvrec-sendrec :
    (type rid : ℕ) (content : Bytes)
    → type < 256
    → rid < 65536
    → Sends type rid content (sendrec type rid content)
unfolding sendrec
recvrec-sendrec type rid content t r =
    send_loop-Sends type rid t r (suc (length content)) content (omega arith)

-- Reading goes on behind what was read.
abbrev behind : List Rec → Option (List Rec × Bytes) → Option (List Rec × Bytes)
behind rs none = none
behind rs (some (ss, left)) = some (rs ++ ss, left)

behind-cons :
    (r : Rec) (rs : List Rec) (o : Option (List Rec × Bytes))
    → (behind rs o >>= λ x. some (r ∷ x.0, x.1)) ≡ behind (r ∷ rs) o
behind-cons r rs none = refl
behind-cons r rs (some (ss, left)) = refl

behind-nil : (o : Option (List Rec × Bytes)) → o ≡ behind [] o
behind-nil none = refl
behind-nil (some (ss, left)) = refl

recv_records-add :
    (m n : ℕ) (stream : Bytes)
    → recv_records (m + n) stream ≡ (recv_records m stream >>= λ x. behind x.0 (recv_records n x.1))
recv_records-add zero n stream =
    let same : 0 + n ≡ n = omega arith in rw same (behind-nil (recv_records n stream))
recv_records-add (suc m) n stream =
    let next : suc m + n ≡ suc (m + n) = omega arith in
    elim (Option-cases (record_of (recvrec stream))) [
      | inl ends ↦ rw (next, ends) refl
      | inr ((r, rest), e) ↦ elim (Option-cases (recv_records m rest)) [
        | inl short ↦ rw (next, e, recv_records-add m n rest, short) refl
        | inr ((rs, left), f) ↦
            rw (next, e, recv_records-add m n rest, f) (behind-cons r rs (recv_records n left))
      ]
    ]

pub Reads-append :
    (a b : Bytes) (rs ss : List Rec) → Reads a rs → Reads b ss → Reads (a ++ b) (rs ++ ss)
Reads-append a b rs ss f g rest =
    rw
      (
        append_assoc a b rest,
        length-append rs ss,
        recv_records-add (length rs) (length ss) (a ++ (b ++ rest)),
        f (b ++ rest),
        g rest,
      )
      refl
