-- ===== src/HtParser/Chunks/Ends.antt =====
-- The fuel of `recvchunks` is enough, whatever the client sends.
use ashd.Base.{
  ltb, leb, ◌==◌, if◌then◌else◌, length, take, drop, length-drop, Bytes, ℕ, zero, suc, ◌+◌, ◌*◌,
  ◌%◌, ◌≤◌, ◌<◌, ◌≡◌, refl, ◌≢◌, ◌⊎◌, inl, inr, Bool, true, false, Option, none, some, [], ◌∷◌,
  ◌++◌, arith,
}
use ashd.HtParser.Chunks.{
  word, max_ssize, SizeByte, digit, skip, end_line, bad, size_byte, read_size, copy_data, read_crlf,
  Chunks, done, refused, out_of_fuel, end_chunks, pass_chunk, recv_loop, recvchunks,
}

-- What is left is shorter than `n` bytes.
abbrev Shorter {ℓ} : {A : Type ℓ} → ℕ → Option (A × Bytes) → Type 0
Shorter n none = Unit
Shorter n (some (_, rest)) = length rest < n

Shorter-suc {ℓ} : {A : Type ℓ} (n : ℕ) (o : Option (A × Bytes)) → Shorter n o → Shorter (suc n) o
Shorter-suc n none h = tt
Shorter-suc n (some (_, rest)) h = omega arith

read_size-Shorter :
    (input : Bytes) (chlen : ℕ) (r : Bool) → Shorter (length input) (read_size input chlen r)
unfolding read_size
read_size-Shorter [] chlen r = tt
read_size-Shorter (c ∷ input) chlen r =
    go (size_byte c) (Shorter-suc _ (read_size input chlen r) (read_size-Shorter input chlen r))
      (λ d.
        Shorter-suc _ (read_size input ((chlen * 16 + d) % word) true)
          (read_size-Shorter input _ true))
  where
    close : (r : Bool) → Shorter (length (c ∷ input)) (if r then some (chlen, input) else none)
    close true = omega arith
    close false = tt

    go :
        (b : SizeByte)
        → Shorter (length (c ∷ input)) (read_size input chlen r)
        → ((d : ℕ) → Shorter (length (c ∷ input)) (read_size input ((chlen * 16 + d) % word) true))
        → Shorter (length (c ∷ input)) (elim b [
          | digit d ↦ read_size input ((chlen * 16 + d) % word) true
          | skip ↦ read_size input chlen r
          | end_line ↦ (if r then some (chlen, input) else none)
          | bad ↦ none
        ])
    go (digit d) s n = n d
    go skip s n = s
    go end_line s n = close r
    go bad s n = tt

copy_data-Shorter :
    (chlen : ℕ) (input : Bytes) → Shorter (suc (length input)) (copy_data chlen input)
unfolding copy_data
copy_data-Shorter chlen input = go (if ltb chlen max_ssize then chlen else 0) (leb _ (length input))
  where
    go :
        (n : ℕ) (b : Bool)
        → Shorter (suc (length input)) (if b then some (take n input, drop n input) else none)
    go n true = omega (arith, length-drop n input)
    go n false = tt

-- `loop` comes to an end on every input shorter than `n` bytes.
abbrev Ends : ℕ → (Bytes → Bytes → Chunks) → Type 0
Ends n loop = (out input : Bytes) → length input < n → loop out input ≢ out_of_fuel

end_chunks-ne-out_of_fuel : (out input : Bytes) → end_chunks out input ≢ out_of_fuel
unfolding end_chunks
end_chunks-ne-out_of_fuel out input = go (read_crlf input)
  where
    go : (o : Option Bytes) → elim o [ none ↦ refused | some rest ↦ done out rest ] ≢ out_of_fuel
    go none e = cc
    go (some rest) e = cc

read_crlf_shorter :
    (input : Bytes) {rest : Bytes} → read_crlf input ≡ some rest → length rest ≤ length input
unfolding read_crlf
read_crlf_shorter [] e = cc
read_crlf_shorter (a ∷ []) e = cc
read_crlf_shorter (a ∷ b ∷ input) e = ground arith

pass_chunk-Ends :
    (n : ℕ) (loop : Bytes → Bytes → Chunks) (out : Bytes) (chlen : ℕ) (input : Bytes)
    → Ends n loop
    → length input < n
    → pass_chunk loop out chlen input ≢ out_of_fuel
unfolding pass_chunk
pass_chunk-Ends n loop out chlen input ends f =
    copied (copy_data chlen input) (copy_data-Shorter chlen input)
  where
    closed :
        (bytes input' : Bytes)
        → length input' < n
        → (o : Option Bytes) → read_crlf input' ≡ o
        → elim o [ none ↦ refused | some rest ↦ loop (out ++ bytes) rest ] ≢ out_of_fuel
    closed bytes input' g none e = λ q. cc
    closed bytes input' g (some rest) e =
        ends (out ++ bytes) rest (omega (arith, read_crlf_shorter input' e))

    copied :
        (o : Option (Bytes × Bytes))
        → Shorter (suc (length input)) o
        → elim o [
          | none ↦ refused
          | some (bytes, input') ↦ elim (read_crlf input') [
            | none ↦ refused
            | some rest ↦ loop (out ++ bytes) rest
          ]
        ]
          ≢ out_of_fuel
    copied none s = λ q. cc
    copied (some (bytes, input')) s = closed bytes input' (omega arith) (read_crlf input') refl

recv_loop-Ends : (fuel : ℕ) → Ends fuel (recv_loop fuel)
unfolding recv_loop
recv_loop-Ends zero out input f = absurd (omega arith)
recv_loop-Ends (suc fuel) out input f =
    sized (read_size input 0 false) (read_size-Shorter input 0 false) (recv_loop-Ends fuel)
  where
    chunk :
        (chlen : ℕ) (rest : Bytes) (b : Bool)
        → length rest < fuel
        → Ends fuel (recv_loop fuel)
        → (if b then end_chunks out rest else pass_chunk (λ o p. recv_loop fuel o p) out chlen rest)
          ≢ out_of_fuel
    chunk chlen rest true g ends = end_chunks-ne-out_of_fuel out rest
    chunk chlen rest false g ends = pass_chunk-Ends fuel (recv_loop fuel) out chlen rest ends g

    sized :
        (o : Option (ℕ × Bytes))
        → Shorter (length input) o
        → Ends fuel (recv_loop fuel)
        → elim o [
          | none ↦ refused
          | some (chlen, rest) ↦
              (if chlen == 0
                then end_chunks out rest
                else pass_chunk (λ o p. recv_loop fuel o p) out chlen rest)
        ]
          ≢ out_of_fuel
    sized none s ends = λ q. cc
    sized (some (chlen, rest)) s ends = chunk chlen rest (chlen == 0) (omega arith) ends

-- Every stream is read to the end of a body, or refused: the fuel, one more than the bytes of the
-- stream, never runs out.
pub recvchunks-Ends :
    (input : Bytes)
    → ((out : Bytes) × (rest : Bytes) × (recvchunks input ≡ done out rest))
      ⊎ (recvchunks input ≡ refused)
unfolding recvchunks
recvchunks-Ends input = go (recv_loop (suc (length input)) [] input) refl
  where
    go :
        (r : Chunks)
        → recv_loop (suc (length input)) [] input ≡ r
        → ((out : Bytes) × (rest : Bytes) × (recv_loop (suc (length input)) [] input
              ≡ done out rest))
          ⊎ (recv_loop (suc (length input)) [] input ≡ refused)
    go (done out rest) e = inl (out, rest, e)
    go refused e = inr e
    go out_of_fuel e = absurd (recv_loop-Ends (suc (length input)) [] input (omega arith) e)
