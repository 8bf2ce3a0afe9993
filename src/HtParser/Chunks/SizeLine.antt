-- ===== src/HtParser/Chunks/SizeLine.antt =====
-- src/htparser.c recvchunks: the lines with the sizes of the chunks.
use ashd.Base.{
  if◌then◌else◌, length, Bytes, ℕ, ◌+◌, ◌*◌, ◌%◌, ◌<◌, ◌≡◌, refl, ap, ◌⊎◌, inl, inr, Bool, true,
  false, Option, none, some, List, [], ◌∷◌, ◌++◌, arith,
}
use ashd.Utils.Hex.{hexdigit}
use ashd.HtParser.Chunks.{word, SizeByte, digit, skip, end_line, bad, size_byte, read_size}

-- A line with a size, without its end: hexadecimal digits, with carriage returns anywhere.
pub data SizeText : Bytes → List ℕ → Type 0 where
  nothing : SizeText [] []
  carriage_return : (s : Bytes) (ds : List ℕ) → SizeText s ds → SizeText (13 ∷ s) ds
  hex :
      (c d : ℕ) (s : Bytes) (ds : List ℕ)
      → hexdigit c ≡ some d
      → SizeText s ds
      → SizeText (c ∷ s) (d ∷ ds)

-- The value of the digits, in 64 bits.
abbrev pub size : ℕ → List ℕ → ℕ
size n [] = n
size n (d ∷ ds) = size ((n * 16 + d) % word) ds

size_byte-hexdigit : (c d : ℕ) → hexdigit c ≡ some d → size_byte c ≡ digit d
unfolding size_byte hexdigit
size_byte-hexdigit c d e = ground arith

hexdigit-size_byte : (c d : ℕ) → size_byte c ≡ digit d → hexdigit c ≡ some d
unfolding size_byte hexdigit
hexdigit-size_byte c d e = ground arith

size_byte_skip : (c : ℕ) → size_byte c ≡ skip → c ≡ 13
unfolding size_byte
size_byte_skip c e = ground arith

size_byte_end : (c : ℕ) → size_byte c ≡ end_line → c ≡ 10
unfolding size_byte
size_byte_end c e = ground arith

pub read_size-SizeText :
    (s rest : Bytes) (ds : List ℕ) (n : ℕ) (r : Bool)
    → SizeText s ds
    → (r ≡ true) ⊎ (0 < length ds)
    → read_size (s ++ 10 ∷ rest) n r ≡ some (size n ds, rest)
unfolding read_size size_byte
read_size-SizeText s rest ds n r nothing (inl e) = rw e refl
read_size-SizeText s rest ds n r nothing (inr l) = absurd (omega arith)
read_size-SizeText s rest ds n r (carriage_return s' ds' t) h =
    read_size-SizeText s' rest ds n r t h
read_size-SizeText s rest ds n r (hex c d s' ds' e t) h =
    rw (read_size, size_byte-hexdigit c d e)
      (read_size-SizeText s' rest ds' ((n * 16 + d) % word) true t (inl refl))

-- The line with a size, and what follows it.
abbrev pub SizeLine : Bytes → ℕ → Bool → ℕ → Bytes → Type 0
SizeLine input n r size' rest =
    (s : Bytes) × (ds : List ℕ) × SizeText s ds
    × (input ≡ s ++ 10 ∷ rest)
    × (size' ≡ size n ds)
    × ((r ≡ true) ⊎ (0 < length ds))

pub read_size-SizeLine :
    (input : Bytes) (n : ℕ) (r : Bool) (m : ℕ) (rest : Bytes)
    → read_size input n r ≡ some (m, rest)
    → SizeLine input n r m rest
unfolding read_size
read_size-SizeLine [] n r m rest e = absurd cc
read_size-SizeLine (c ∷ input) n r m rest e =
    go (size_byte c) refl e (read_size-SizeLine input n r m rest)
      (λ d. read_size-SizeLine input ((n * 16 + d) % word) true m rest)
  where
    close :
        (b : Bool)
        → r ≡ b
        → c ≡ 10
        → (let line : Option (ℕ × Bytes) = some (n, input) in if b then line else none)
          ≡ some (m, rest)
        → SizeLine (c ∷ input) n r m rest
    close true q i e =
        let same : input ≡ rest = cc in
        let size' : m ≡ n = cc in ([], [], nothing, rw (i, same) refl, size', inl q)
    close false q i e = absurd cc

    go :
        (b : SizeByte)
        → size_byte c ≡ b
        → elim b [
          | digit d ↦ read_size input ((n * 16 + d) % word) true
          | skip ↦ read_size input n r
          | end_line ↦ (if r then some (n, input) else none)
          | bad ↦ none
        ]
          ≡ some (m, rest)
        → (read_size input n r ≡ some (m, rest) → SizeLine input n r m rest)
        → ((d : ℕ)
            → read_size input ((n * 16 + d) % word) true ≡ some (m, rest)
            → SizeLine input ((n * 16 + d) % word) true m rest)
        → SizeLine (c ∷ input) n r m rest
    go (digit d) i e skips digits =
        let (s, ds, t, q, v, _) = digits d e in
        (
          c ∷ s,
          d ∷ ds,
          hex c d s ds (hexdigit-size_byte c d i) t,
          ap (λ x. c ∷ x) q,
          v,
          inr (omega arith),
        )
    go skip i e skips digits =
        let (s, ds, t, q, v, h) = skips e in
        let same = size_byte_skip c i in
        (13 ∷ s, ds, carriage_return s ds t, rw same (ap (λ x. 13 ∷ x) q), v, h)
    go end_line i e skips digits = close r refl (size_byte_end c i) e
    go bad i e skips digits = absurd cc
