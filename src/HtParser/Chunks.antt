-- ===== src/HtParser/Chunks.antt =====
-- src/htparser.c `recvchunks` and `passchunks`: bodies in chunked transfer coding. The streams are
-- the bytes up to EOF, so how `bufio` cuts them into reads and partial writes does not show.
pub mod RoundTrip
pub mod Ends
pub mod SizeLine
pub mod Grammar
use ashd.Base.{
  ltb, leb, ◌==◌, if◌then◌else◌, length, take, drop, Bytes, codes, ℕ, zero, suc, ◌+◌, ◌-◌, ◌*◌, ◌/◌,
  ◌%◌, ◌^◌, Bool, true, false, ◌&&◌, Option, none, some, List, [], ◌∷◌, ◌++◌,
}
use ashd.Req.Parse.{cr, lf}
use ashd.Utils.Hex.{lower_digit}

-- `ssize_t`, as the C compilers have it: 64 bits in two's complement.
abbrev pub word : ℕ
word = 2 ^ 64

abbrev pub max_ssize : ℕ
max_ssize = 2 ^ 63

-- One byte of the line with the size.
pub data SizeByte : Type 0 where
  digit : ℕ → SizeByte
  skip : SizeByte
  end_line : SizeByte
  bad : SizeByte

unfoldable pub size_byte : ℕ → SizeByte
size_byte c =
    if c == lf
    then end_line
    else if c == cr
    then skip
    else if leb b'0' c && leb c b'9'
    then digit (c - b'0')
    else if leb b'A' c && leb c b'F'
    then digit (c + 10 - b'A')
    else if leb b'a' c && leb c b'f'
    then digit (c + 10 - b'a')
    else bad

-- The inner loop of `recvchunks`: `chlen`, and `r`, whether there was a digit.
unfoldable pub read_size : Bytes → ℕ → Bool → Option (ℕ × Bytes)
read_size [] chlen r = none
read_size (c ∷ input) chlen r =
    let go_on = read_size input chlen r in
    let next = λ (d : ℕ). read_size input ((chlen * 16 + d) % word) true in
    elim (size_byte c) [
      | digit d ↦ next d
      | skip ↦ go_on
      | end_line ↦ (if r then some (chlen, input) else none)
      | bad ↦ none
    ]

-- The loop over the data: `chlen` bytes, or a failure if the stream ends before them. A negative
-- `chlen` copies nothing.
unfoldable pub copy_data : ℕ → Bytes → Option (Bytes × Bytes)
copy_data chlen input =
    let n = if ltb chlen max_ssize then chlen else 0 in
    if leb n (length input) then some (take n input, drop n input) else none

-- `(biogetc(in) != 13) || (biogetc(in) != 10)` fails.
unfoldable pub read_crlf : Bytes → Option Bytes
read_crlf (a ∷ b ∷ input) = if a == 13 && b == 10 then some input else none
read_crlf _ = none

-- What `recvchunks` comes to: the bytes passed on and those unread, or the return value -1.
pub data Chunks : Type 0 where
  done : Bytes → Bytes → Chunks
  refused : Chunks
  out_of_fuel : Chunks

-- The end of the body.
unfoldable pub end_chunks : Bytes → Bytes → Chunks
unfolding read_crlf
end_chunks out input = elim (read_crlf input) [ none ↦ refused | some rest ↦ done out rest ]

-- One chunk, and what `loop` does with the rest.
unfoldable pub pass_chunk : (Bytes → Bytes → Chunks) → Bytes → ℕ → Bytes → Chunks
unfolding read_crlf
pass_chunk loop out chlen input = elim (copy_data chlen input) [
  | none ↦ refused
  | some (bytes, input') ↦ elim (read_crlf input') [
    | none ↦ refused
    | some rest ↦ loop (out ++ bytes) rest
  ]
]

-- The outer loop. Each round reads a byte at least.
unfoldable pub recv_loop : ℕ → Bytes → Bytes → Chunks
recv_loop zero out input = out_of_fuel
recv_loop (suc fuel) out input = elim (read_size input 0 false) [
  | none ↦ refused
  | some (chlen, rest) ↦
      if chlen == 0
      then end_chunks out rest
      else pass_chunk (λ o p. recv_loop fuel o p) out chlen rest
]

unfoldable pub recvchunks : Bytes → Chunks
unfolding recv_loop size_byte read_size end_chunks pass_chunk copy_data
recvchunks input = recv_loop (suc (length input)) [] input

-- The digits of `%zx` in front of `out`.
unfoldable pub print_hex_digits : ℕ → ℕ → Bytes → Bytes
unfolding lower_digit
print_hex_digits zero n out = lower_digit (n % 16) ∷ out
print_hex_digits (suc fuel) n out =
    let more = print_hex_digits fuel (n / 16) (lower_digit (n % 16) ∷ out) in
    if ltb n 16 then lower_digit n ∷ out else more

unfoldable pub print_hex : ℕ → Bytes
unfolding print_hex_digits
print_hex n = print_hex_digits n n []

-- The loop of `passchunks`. Each item is what `biordata` found in one round, which may be nothing.
unfoldable pub passchunks : List Bytes → Bytes
passchunks [] = codes "0\r\n\r\n"
passchunks (batch ∷ more) =
    let later = passchunks more in
    if length batch == 0
    then later
    else print_hex (length batch) ++ (13 ∷ 10 ∷ (batch ++ (13 ∷ 10 ∷ later)))
