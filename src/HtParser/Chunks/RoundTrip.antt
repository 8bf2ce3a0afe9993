-- ===== src/HtParser/Chunks/RoundTrip.antt =====
-- `recvchunks` reads back what `passchunks` writes, however the data arrived.
use native.Mathlib.Nat.{zero-add}
use mathlib.Core.List.{flatten}
use ashd.Base.{
  ltb, ◌==◌, ltb→lt, lt→ltb, le→leb, not-ltb→le, Bool-cases, length, length-append,
  take-length-append, drop-length-append, All, Bytes, ℕ, zero, suc, ◌+◌, ◌*◌, ◌/◌, ◌%◌, ◌≤◌, ◌<◌,
  ◌≡◌, refl, ap, ◌∙◌, inl, inr, Bool, true, false, some, List, [], ◌∷◌, ◌++◌, append-nil,
  append_assoc, arith,
}
use ashd.Utils.Hex.{lower_digit}
use ashd.HtParser.Chunks.{
  word, max_ssize, size_byte, digit, read_size, copy_data, Chunks, done, end_chunks, pass_chunk,
  recv_loop, recvchunks, print_hex_digits, print_hex, passchunks,
}

size_byte-lower_digit : (d : ℕ) → d < 16 → size_byte (lower_digit d) ≡ digit d
unfolding size_byte lower_digit
size_byte-lower_digit d h = elim (Bool-cases (ltb d 10)) [
  | inl e ↦ rw e (ground arith)
  | inr e ↦ rw e (ground arith)
]

read_size_digit :
    (d m : ℕ) (r : Bool) (out : Bytes)
    → d < 16
    → m * 16 + d < word
    → read_size (lower_digit d ∷ out) m r ≡ read_size out (m * 16 + d) true
unfolding read_size
read_size_digit d m r out h f =
    let exact : (m * 16 + d) % word ≡ m * 16 + d = omega arith in
    rw (size_byte-lower_digit d h, read_size, exact)

hex_last : (n : ℕ) → n / 16 * 16 + n % 16 ≡ n
hex_last n = omega arith

read_size-print_hex_digits :
    (fuel n : ℕ) (out : Bytes)
    → n ≤ fuel
    → n < word
    → read_size (print_hex_digits fuel n out) 0 false ≡ read_size out n true
unfolding print_hex_digits
read_size-print_hex_digits zero n out f b =
    let e : n ≡ 0 = omega arith in rw e (read_size_digit 0 0 false out (omega arith) (omega arith))
read_size-print_hex_digits (suc fuel) n out f b = elim (Bool-cases (ltb n 16)) [
  | inl e ↦
      let small = ltb→lt n 16 e in
      rw e (read_size_digit n 0 false out small (omega arith) ∙ rw zero-add)
  | inr e ↦
      let large = not-ltb→le n 16 e in
      rw e (
        read_size-print_hex_digits fuel (n / 16) (lower_digit (n % 16) ∷ out) (omega arith)
          (omega arith)
        ∙ read_size_digit (n % 16) (n / 16) true out (omega arith) (omega arith)
        ∙ rw (hex_last n))
]

print_hex_digits-append :
    (fuel n : ℕ) (out rest : Bytes)
    → print_hex_digits fuel n out ++ rest ≡ print_hex_digits fuel n (out ++ rest)
unfolding print_hex_digits
print_hex_digits-append zero n out rest = refl
print_hex_digits-append (suc fuel) n out rest =
    ground (arith, print_hex_digits-append fuel (n / 16) (lower_digit (n % 16) ∷ out) rest)

-- The line with a size is read back.
read_size-print_hex :
    (n : ℕ) (rest : Bytes)
    → n < word
    → read_size (print_hex n ++ 13 ∷ 10 ∷ rest) 0 false ≡ some (n, rest)
unfolding print_hex
read_size-print_hex n rest b = rw print_hex_digits-append (
    read_size-print_hex_digits n n (13 ∷ 10 ∷ rest) (omega arith) b
    ∙ (unfold read_size size_byte in refl))

copy_data-append :
    (b rest : Bytes) → length b < max_ssize → copy_data (length b) (b ++ rest) ≡ some (b, rest)
unfolding copy_data
copy_data-append b rest f =
    rw
      (lt→ltb _ _ f, le→leb _ _ (fits b rest), take-length-append b rest, drop-length-append b rest)
  where
    fits : (b rest : Bytes) → length b ≤ length (b ++ rest)
    fits b rest = omega (arith, length-append b rest)

not_zero : (n : ℕ) → 0 < n → (n == 0) ≡ false
not_zero n h = ground arith

passchunks-cons :
    (b : Bytes) (bs : List Bytes) (rest : Bytes)
    → 0 < length b
    → passchunks (b ∷ bs) ++ rest
      ≡ print_hex (length b) ++ 13 ∷ 10 ∷ (b ++ 13 ∷ 10 ∷ (passchunks bs ++ rest))
unfolding passchunks
passchunks-cons b bs rest h = rw (not_zero (length b) h, passchunks) (simp append_assoc)

pass_chunk-append :
    (loop : Bytes → Bytes → Chunks) (out b rest : Bytes)
    → length b < max_ssize
    → pass_chunk loop out (length b) (b ++ 13 ∷ 10 ∷ rest) ≡ loop (out ++ b) rest
unfolding pass_chunk
pass_chunk-append loop out b rest f = rw (copy_data-append b (13 ∷ 10 ∷ rest) f, pass_chunk)

-- One round of the outer loop.
recv_loop_chunk :
    (fuel : ℕ) (out b rest : Bytes)
    → 0 < length b
    → length b < max_ssize
    → recv_loop (suc fuel) out (print_hex (length b) ++ 13 ∷ 10 ∷ (b ++ 13 ∷ 10 ∷ rest))
      ≡ recv_loop fuel (out ++ b) rest
unfolding recv_loop
recv_loop_chunk fuel out b rest h f =
    rw
      (
        read_size-print_hex (length b) (b ++ 13 ∷ 10 ∷ rest) (omega arith),
        recv_loop,
        not_zero (length b) h,
      )
      (pass_chunk-append (recv_loop fuel) out b rest f)

recv_loop_end :
    (fuel : ℕ) (out rest : Bytes) → recv_loop (suc fuel) out (passchunks [] ++ rest) ≡ done out rest
unfolding recv_loop passchunks size_byte read_size end_chunks
recv_loop_end fuel out rest = refl

passchunks_empty : (bs : List Bytes) → passchunks ([] ∷ bs) ≡ passchunks bs
unfolding passchunks
passchunks_empty bs = refl

length-passchunks :
    (b : Bytes) (bs : List Bytes) (rest : Bytes)
    → 0 < length b
    → length (passchunks bs ++ rest) < length (passchunks (b ∷ bs) ++ rest)
length-passchunks b bs rest h = omega (
  arith,
  ap length (passchunks-cons b bs rest h),
  length-append (print_hex (length b)) (13 ∷ 10 ∷ (b ++ 13 ∷ 10 ∷ (passchunks bs ++ rest))),
  length-append b (13 ∷ 10 ∷ (passchunks bs ++ rest)),
)

recv_loop-passchunks :
    (bs : List Bytes) (fuel : ℕ) (out rest : Bytes)
    → All (λ b. length b < max_ssize) bs
    → length (passchunks bs ++ rest) < fuel
    → recv_loop fuel out (passchunks bs ++ rest) ≡ done (out ++ flatten bs) rest
unfolding flatten
recv_loop-passchunks bs zero out rest f g = absurd (omega arith)
recv_loop-passchunks [] (suc fuel) out rest f g = recv_loop_end fuel out rest ∙ rw append-nil
recv_loop-passchunks ([] ∷ bs) (suc fuel) out rest (f, fs) g =
    let e = passchunks_empty bs in rw e (recv_loop-passchunks bs (suc fuel) out rest fs (rw e at g))
recv_loop-passchunks ((c ∷ b) ∷ bs) (suc fuel) out rest (f, fs) g =
    rw (passchunks-cons (c ∷ b) bs rest (omega arith)) (
      recv_loop_chunk fuel out (c ∷ b) (passchunks bs ++ rest) (omega arith) f
      ∙ recv_loop-passchunks bs fuel (out ++ c ∷ b) rest fs
          (omega (arith, length-passchunks (c ∷ b) bs rest (omega arith)))
      ∙ rw append_assoc)

-- Whatever the data, and however it arrived in batches, `recvchunks` passes on the bytes that
-- `passchunks` was given, in order, and leaves what follows the body unread, if each batch is
-- smaller than a `ssize_t` can hold.
pub recvchunks-passchunks :
    (bs : List Bytes) (rest : Bytes)
    → All (λ b. length b < max_ssize) bs
    → recvchunks (passchunks bs ++ rest) ≡ done (flatten bs) rest
unfolding recvchunks
recvchunks-passchunks bs rest f =
    recv_loop-passchunks bs (suc (length (passchunks bs ++ rest))) [] rest f (omega arith)
