-- ===== src/HtParser/Chunks/Grammar.antt =====
-- What recvchunks takes for a body in chunked transfer coding: it accepts that, and refuses all else.
use ashd.Base.{
  ltb, leb, ◌==◌, if◌then◌else◌, le→leb, ==_iff, Bool-cases, length, take, drop, length-append,
  take-append-drop, take-length-append, drop-length-append, length-take, Bytes, ℕ, zero, suc, ◌≤◌,
  ◌<◌, ◌≡◌, refl, sym, ap, ◌∙◌, ◌⊎◌, inl, inr, Bool, true, false, Option, none, some, List, [], ◌∷◌,
  ◌++◌, append-nil, append_assoc, arith,
}
use ashd.HtParser.Chunks.{
  max_ssize, read_size, copy_data, read_crlf, Chunks, done, refused, end_chunks, pass_chunk,
  recv_loop, recvchunks,
}
use ashd.HtParser.Chunks.SizeLine.{SizeText, size, read_size-SizeText, read_size-SizeLine}
use ashd.HtParser.Chunks.Ends.{recvchunks-Ends}

-- A negative size copies nothing.
abbrev pub data_size : ℕ → ℕ
data_size n = if ltb n max_ssize then n else 0

-- A body, and what follows it: chunks, each with its size, and the last one with the size zero.
pub data Chunked : Bytes → Bytes → Bytes → Type 0 where
  last :
      (input s rest : Bytes) (ds : List ℕ)
      → SizeText s ds
      → 0 < length ds
      → size 0 ds ≡ 0
      → input ≡ s ++ 10 ∷ 13 ∷ 10 ∷ rest
      → Chunked input [] rest
  chunk :
      (input s b more out rest : Bytes) (ds : List ℕ)
      → SizeText s ds
      → 0 < length ds
      → (size 0 ds == 0) ≡ false
      → length b ≡ data_size (size 0 ds)
      → input ≡ s ++ 10 ∷ (b ++ 13 ∷ 10 ∷ more)
      → Chunked more out rest
      → Chunked input (b ++ out) rest

copy_data-data :
    (n : ℕ) (b more : Bytes) → length b ≡ data_size n → copy_data n (b ++ more) ≡ some (b, more)
unfolding copy_data
copy_data-data n b more e =
    let whole = length-append b more in
    let fits : leb (data_size n) (length (b ++ more)) ≡ true = le→leb _ _ (omega arith) in
    let taken : take (data_size n) (b ++ more) ≡ b = rw e at (take-length-append b more) in
    let left : drop (data_size n) (b ++ more) ≡ more = rw e at (drop-length-append b more) in
    rw (fits, taken, left) refl

data-copy_data :
    (n : ℕ) (input b more : Bytes)
    → copy_data n input ≡ some (b, more)
    → (input ≡ b ++ more) × (length b ≡ data_size n)
unfolding copy_data
data-copy_data n input b more e = go (data_size n) e
  where
    go :
        (k : ℕ)
        → (let cut : Option (Bytes × Bytes) = some (take k input, drop k input) in
            if leb k (length input) then cut else none)
          ≡ some (b, more)
        → (input ≡ b ++ more) × (length b ≡ k)
    go k e = elim (Bool-cases (leb k (length input))) [
      | inr short ↦ absurd (let q = rw short at e in cc)
      | inl fits ↦
          let q = rw fits at e in
          let taken : take k input ≡ b = cc in
          let left : drop k input ≡ more = cc in
          let l : k ≤ length input = ground arith in
          let size' = length-take k input in
          (rw (← taken, ← left) (sym (take-append-drop k input)), rw (← taken) (omega arith))
    ]

crlf-read_crlf : (input rest : Bytes) → read_crlf input ≡ some rest → input ≡ 13 ∷ 10 ∷ rest
unfolding read_crlf
crlf-read_crlf [] rest e = absurd cc
crlf-read_crlf (a ∷ []) rest e = absurd cc
crlf-read_crlf (a ∷ b ∷ input) rest e = ground arith

step_last :
    (fuel : ℕ) (out s rest : Bytes) (ds : List ℕ)
    → SizeText s ds
    → 0 < length ds
    → size 0 ds ≡ 0
    → recv_loop (suc fuel) out (s ++ 10 ∷ 13 ∷ 10 ∷ rest) ≡ done out rest
unfolding recv_loop end_chunks read_crlf
step_last fuel out s rest ds t l z =
    rw (recv_loop, read_size-SizeText s (13 ∷ 10 ∷ rest) ds 0 false t (inr l), z) refl

step_chunk :
    (fuel : ℕ) (out s b more : Bytes) (ds : List ℕ)
    → SizeText s ds
    → 0 < length ds
    → (size 0 ds == 0) ≡ false
    → length b ≡ data_size (size 0 ds)
    → recv_loop (suc fuel) out (s ++ 10 ∷ (b ++ 13 ∷ 10 ∷ more)) ≡ recv_loop fuel (out ++ b) more
unfolding recv_loop pass_chunk read_crlf
step_chunk fuel out s b more ds t l z e =
    rw
      (
        recv_loop,
        read_size-SizeText s (b ++ 13 ∷ 10 ∷ more) ds 0 false t (inr l),
        z,
        pass_chunk,
        copy_data-data (size 0 ds) b (13 ∷ 10 ∷ more) e,
      )
      refl

recv_loop-Chunked :
    (fuel : ℕ) (out input body rest : Bytes)
    → length input < fuel
    → Chunked input body rest
    → recv_loop fuel out input ≡ done (out ++ body) rest
recv_loop-Chunked zero out input body rest l c = absurd (omega arith)
recv_loop-Chunked (suc fuel) out input body rest l (last input' s rest' ds t p z e) =
    rw (e, append-nil out) (step_last fuel out s rest ds t p z)
recv_loop-Chunked (suc fuel) out input body rest l
      (chunk input' s b more out' rest' ds t p z d e c) =
    let whole = ap length e in
    let tail = length-append s (10 ∷ (b ++ 13 ∷ 10 ∷ more)) in
    let tail' = length-append b (13 ∷ 10 ∷ more) in
    rw e (step_chunk fuel out s b more ds t p z d)
    ∙ recv_loop-Chunked fuel (out ++ b) more out' rest (omega arith) c
    ∙ ap (λ x. done x rest) (append_assoc out b out')

-- What the loop adds to the output is a body.
abbrev Reads : Bytes → Bytes → Bytes → Bytes → Type 0
Reads input out o rest = (body : Bytes) × (o ≡ out ++ body) × Chunked input body rest

recv_loop-Reads :
    (fuel : ℕ) (out input o rest : Bytes)
    → recv_loop fuel out input ≡ done o rest
    → Reads input out o rest
unfolding recv_loop end_chunks pass_chunk
recv_loop-Reads zero out input o rest e = absurd cc
recv_loop-Reads (suc fuel) out input o rest e =
    sized (read_size input 0 false) refl e (λ out' more. recv_loop-Reads fuel out' more o rest)
  where
    ended :
        (m : ℕ) (after s : Bytes) (ds : List ℕ)
        → SizeText s ds
        → 0 < length ds
        → input ≡ s ++ 10 ∷ after
        → size 0 ds ≡ 0
        → (r : Option Bytes) → read_crlf after ≡ r
        → elim r [ none ↦ refused | some left ↦ done out left ] ≡ done o rest
        → Reads input out o rest
    ended m after s ds t p q z none i e = absurd cc
    ended m after s ds t p q z (some left) i e =
        let same : left ≡ rest = cc in
        let kept : o ≡ out = cc in
        let line = crlf-read_crlf after rest (i ∙ ap some same) in
        (
          [],
          kept ∙ sym (append-nil out),
          last input s rest ds t p z (q ∙ ap (λ x. s ++ 10 ∷ x) line),
        )

    closed :
        (m : ℕ) (after s b more : Bytes) (ds : List ℕ)
        → SizeText s ds
        → 0 < length ds
        → input ≡ s ++ 10 ∷ after
        → (size 0 ds == 0) ≡ false
        → copy_data (size 0 ds) after ≡ some (b, more)
        → ((out' more' : Bytes) → recv_loop fuel out' more' ≡ done o rest → Reads more' out' o rest)
        → (r : Option Bytes) → read_crlf more ≡ r
        → elim r [ none ↦ refused | some left ↦ recv_loop fuel (out ++ b) left ] ≡ done o rest
        → Reads input out o rest
    closed m after s b more ds t p q z d next none i e = absurd cc
    closed m after s b more ds t p q z d next (some left) i e =
        let (body, f, c) = next (out ++ b) left e in
        let (split, l) = data-copy_data (size 0 ds) after b more d in
        let line = crlf-read_crlf more left i in
        (
          b ++ body,
          f ∙ append_assoc out b body,
          chunk input s b left body rest ds t p z l
              (q ∙ ap (λ x. s ++ 10 ∷ x) (split ∙ ap (λ x. b ++ x) line)) c,
        )

    copied :
        (after s : Bytes) (ds : List ℕ)
        → SizeText s ds
        → 0 < length ds
        → input ≡ s ++ 10 ∷ after
        → (size 0 ds == 0) ≡ false
        → ((out' more' : Bytes) → recv_loop fuel out' more' ≡ done o rest → Reads more' out' o rest)
        → (r : Option (Bytes × Bytes)) → copy_data (size 0 ds) after ≡ r
        → elim r [
          | none ↦ refused
          | some (b, more) ↦ elim (read_crlf more) [
            | none ↦ refused
            | some left ↦ recv_loop fuel (out ++ b) left
          ]
        ]
          ≡ done o rest
        → Reads input out o rest
    copied after s ds t p q z next none i e = absurd cc
    copied after s ds t p q z next (some (b, more)) i e =
        closed 0 after s b more ds t p q z i next (read_crlf more) refl e

    chosen :
        (after s : Bytes) (ds : List ℕ)
        → SizeText s ds
        → 0 < length ds
        → input ≡ s ++ 10 ∷ after
        → ((out' more' : Bytes) → recv_loop fuel out' more' ≡ done o rest → Reads more' out' o rest)
        → (z : Bool) → (size 0 ds == 0) ≡ z
        → (if z
            then end_chunks out after
            else pass_chunk (λ x y. recv_loop fuel x y) out (size 0 ds) after)
          ≡ done o rest
        → Reads input out o rest
    chosen after s ds t p q next true z e =
        ended 0 after s ds t p q ((==_iff (size 0 ds) 0).0 z) (read_crlf after) refl e
    chosen after s ds t p q next false z e =
        copied after s ds t p q z next (copy_data (size 0 ds) after) refl e

    sized :
        (r : Option (ℕ × Bytes))
        → read_size input 0 false ≡ r
        → elim r [
          | none ↦ refused
          | some (n, after) ↦
              if n == 0
              then end_chunks out after
              else pass_chunk (λ x y. recv_loop fuel x y) out n after
        ]
          ≡ done o rest
        → ((out' more' : Bytes) → recv_loop fuel out' more' ≡ done o rest → Reads more' out' o rest)
        → Reads input out o rest
    sized none i e next = absurd cc
    sized (some (n, after)) i e next =
        let (s, ds, t, q, v, h) = read_size-SizeLine input 0 false n after i in
        let p : 0 < length ds = elim h [ inl never ↦ absurd cc | inr l ↦ l ] in
        chosen after s ds t p q next (size 0 ds == 0) refl (rw v at e)

-- Every stream is either a body in chunked transfer coding with what follows it, and then
-- recvchunks passes on the data of its chunks and leaves what follows unread; or it is none, and
-- recvchunks returns -1. In a body each chunk has a line with its size, which are hexadecimal
-- digits, one at least, with carriage returns anywhere, taken in 64 bits with their sign, as many
-- bytes of data, but none for a negative size, and a line end; and the last chunk has the size zero
-- and no data.
pub recvchunks_exact :
    (input : Bytes)
    → ((out : Bytes) × (rest : Bytes) × (recvchunks input ≡ done out rest) × Chunked input out rest)
      ⊎ ((recvchunks input ≡ refused) × ((out rest : Bytes) → Chunked input out rest → ⊥))
unfolding recvchunks
recvchunks_exact input = elim (recvchunks-Ends input) [
  | inl (out, rest, e) ↦
      let (body, same, c) = recv_loop-Reads (suc (length input)) [] input out rest e in
      inl (body, rest, e ∙ ap (λ x. done x rest) same, c)
  | inr e ↦ inr (
    e,
    λ out rest c.
        let accepts = recv_loop-Chunked (suc (length input)) [] input out rest (omega arith) c in
        clash (recv_loop (suc (length input)) [] input) out rest e accepts,
  )
]
  where
    clash : (r : Chunks) (out rest : Bytes) → r ≡ refused → r ≡ done out rest → ⊥
    clash r out rest e f = cc
