-- ===== src/Patplex/Offsets.antt =====
-- src/patplex.c `qoffsets`: the text that a rule is matched against, and where each of its bytes
-- begins in the original.
use ashd.Base.{
  ◌==◌, if◌then◌else◌, ◌>>=◌, length, Bytes, ℕ, ◌+◌, ◌*◌, ◌≤◌, ◌≡◌, refl, Bool, true, false, Option,
  none, some, List, [], ◌∷◌, arith,
}
use ashd.Utils.Hex.{hexdigit}

-- `(pstr[i] == '%') && ((d1 = hexdigit(..)) >= 0) && ((d2 = hexdigit(..)) >= 0)`, and the byte.
unfoldable pub escaped_byte : ℕ → ℕ → Option ℕ
unfolding hexdigit
escaped_byte a b = do d1 ← hexdigit a; d2 ← hexdigit b; some (d1 * 16 + d2)

unfoldable pub escape : ℕ → ℕ → ℕ → Option ℕ
unfolding escaped_byte
escape c a b = if c == b'%' then escaped_byte a b else none

-- The two buffers at one place, from the index `i` on: each byte of `buf` with its entry of
-- `obuf`, and the last entry of `obuf`, which stands beside the NUL.
unfoldable pub unquoted : Bytes → ℕ → List (ℕ × ℕ) × ℕ
unfolding escape
unquoted [] i = ([], i)
unquoted (c ∷ []) i = ((c, i) ∷ [], i + 1)
unquoted (c ∷ a ∷ []) i = ((c, i) ∷ (a, i + 1) ∷ [], i + 2)
unquoted (c ∷ a ∷ b ∷ s) i =
    let long = unquoted s (i + 3) in
    let short = unquoted (a ∷ b ∷ s) (i + 1) in
    elim (escape c a b) [ some d ↦ ((d, i) ∷ long.0, long.1) | none ↦ ((c, i) ∷ short.0, short.1) ]

unfoldable pub plain : Bytes → ℕ → List (ℕ × ℕ) × ℕ
plain [] i = ([], i)
plain (c ∷ s) i = let (rest, end) = plain s (i + 1) in ((c, i) ∷ rest, end)

abbrev pub bytes_of : List (ℕ × ℕ) → Bytes
bytes_of [] = []
bytes_of ((c, i) ∷ ps) = c ∷ bytes_of ps

abbrev pub offsets_of : List (ℕ × ℕ) → ℕ → List ℕ
offsets_of [] end = end ∷ []
offsets_of ((c, i) ∷ ps) end = i ∷ offsets_of ps end

-- `buf`, without its NUL, and `obuf`.
unfoldable pub qoffsets : Bytes → Bool → Bytes × List ℕ
unfolding unquoted plain
qoffsets pstr unquote =
    let (ps, end) = if unquote then unquoted pstr 0 else plain pstr 0 in
    (bytes_of ps, offsets_of ps end)

-- The offsets rise, from `i` at least to `n`, the last of them.
abbrev pub Rises : ℕ → List ℕ → ℕ → Type 0
Rises i [] n = ⊥
Rises i (k ∷ []) n = (i ≤ k) × (k ≡ n)
Rises i (k ∷ l ∷ ks) n = (i ≤ k) × Rises (k + 1) (l ∷ ks) n

Rises-cons :
    (i j : ℕ) (ps : List (ℕ × ℕ)) (end n : ℕ)
    → i ≤ j
    → Rises (j + 1) (offsets_of ps end) n
    → Rises i (j ∷ offsets_of ps end) n
Rises-cons i j [] end n l r = (l, r)
Rises-cons i j ((c, k) ∷ ps) end n l r = (l, r)

Rises-weaken :
    (i j : ℕ) (ps : List (ℕ × ℕ)) (end n : ℕ)
    → i ≤ j
    → Rises j (offsets_of ps end) n
    → Rises i (offsets_of ps end) n
Rises-weaken i j [] end n l (r, e) = (omega arith, e)
Rises-weaken i j ((c, k) ∷ []) end n l (r, e) = (omega arith, e)
Rises-weaken i j ((c, k) ∷ (d, m) ∷ ps) end n l (r, e) = (omega arith, e)

unquoted-Rises :
    (s : Bytes) (i n : ℕ)
    → i + length s ≡ n
    → Rises i (offsets_of (unquoted s i).0 (unquoted s i).1) n
unfolding unquoted
unquoted-Rises [] i n e = omega arith
unquoted-Rises (c ∷ []) i n e = omega arith
unquoted-Rises (c ∷ a ∷ []) i n e = omega arith
unquoted-Rises (c ∷ a ∷ b ∷ s) i n e =
    go (escape c a b) (unquoted-Rises s (i + 3) n (omega arith))
      (unquoted-Rises (a ∷ b ∷ s) (i + 1) n (omega arith))
  where
    go :
        (o : Option ℕ)
        → Rises (i + 3) (offsets_of (unquoted s (i + 3)).0 (unquoted s (i + 3)).1) n
        → Rises
            (i + 1)
            (offsets_of (unquoted (a ∷ b ∷ s) (i + 1)).0 (unquoted (a ∷ b ∷ s) (i + 1)).1)
            n
        → (let r : List (ℕ × ℕ) × ℕ = elim o [
          | some d ↦ ((d, i) ∷ (unquoted s (i + 3)).0, (unquoted s (i + 3)).1)
          | none ↦ ((c, i) ∷ (unquoted (a ∷ b ∷ s) (i + 1)).0, (unquoted (a ∷ b ∷ s) (i + 1)).1)
        ] in
            Rises i (offsets_of r.0 r.1) n)
    go (some d) x y = Rises-cons i i _ _ n (omega arith) (
        Rises-weaken (i + 1) (i + 3) (unquoted s (i + 3)).0 (unquoted s (i + 3)).1 n (omega arith)
          x)
    go none x y = Rises-cons i i (unquoted (a ∷ b ∷ s) (i + 1)).0 _ n (omega arith) y

plain-Rises :
    (s : Bytes) (i n : ℕ) → i + length s ≡ n → Rises i (offsets_of (plain s i).0 (plain s i).1) n
unfolding plain
plain-Rises [] i n e = omega arith
plain-Rises (c ∷ s) i n e =
    Rises-cons i i (plain s (i + 1)).0 (plain s (i + 1)).1 n (omega arith)
      (plain-Rises s (i + 1) n (omega arith))

length-offsets_of :
    (ps : List (ℕ × ℕ)) (end : ℕ) → length (offsets_of ps end) ≡ length (bytes_of ps) + 1
length-offsets_of [] end = refl
length-offsets_of ((c, i) ∷ ps) end = omega (arith, length-offsets_of ps end)

-- Whatever the text, `obuf` has one entry more than `buf` has bytes, the entries rise strictly,
-- and the last one is the length of the text.
pub qoffsets-Rises :
    (pstr : Bytes) (unquote : Bool)
    → (length (qoffsets pstr unquote).1 ≡ length (qoffsets pstr unquote).0 + 1)
      × Rises 0 (qoffsets pstr unquote).1 (length pstr)
unfolding qoffsets
qoffsets-Rises pstr true = (
  length-offsets_of (unquoted pstr 0).0 (unquoted pstr 0).1,
  unquoted-Rises pstr 0 (length pstr) (omega arith),
)
qoffsets-Rises pstr false = (
  length-offsets_of (plain pstr 0).0 (plain pstr 0).1,
  plain-Rises pstr 0 (length pstr) (omega arith),
)
