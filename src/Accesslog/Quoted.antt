-- ===== src/Accesslog/Quoted.antt =====
-- src/accesslog.c qputs: what it writes between quotation marks is read back.
use ashd.Base.{
  ltb, leb, ◌==◌, if◌then◌else◌, ==_iff, Bool-cases, ◌>>=◌, All, Bytes, IsByte, IsCstr, ℕ, ◌+◌, ◌*◌,
  ◌/◌, ◌%◌, ◌≤◌, ◌<◌, ◌≡◌, refl, sym, ap, ◌∙◌, ◌⊎◌, inl, inr, false, ◌||◌, Option, none, some, [],
  ◌∷◌, ◌++◌, append_assoc, arith,
}
use ashd.Utils.Hex.{hexdigit, lower_digit, hexdigit-lower_digit}
use ashd.Accesslog.{qput, qputs}

-- Where a reader stands: in the text, behind a backslash, behind `\x`, behind its first digit.
pub data ReadMode : Type 0 where
  in_text escaped first_digit : ReadMode
  second_digit : ℕ → ReadMode

abbrev with_byte : ℕ → Option (Bytes × Bytes) → Option (Bytes × Bytes)
with_byte c none = none
with_byte c (some (text, s)) = some (c ∷ text, s)

abbrev escape_value : ℕ → ℕ
escape_value c = if c == b'n' then 10 else if c == b't' then 9 else c

-- A reader of a quoted text, up to the quotation mark that ends it: the text, and what follows.
unfoldable pub read_quoted : ReadMode → Bytes → Option (Bytes × Bytes)
unfolding hexdigit
read_quoted mode [] = none
read_quoted in_text (c ∷ s) =
    let more = with_byte c (read_quoted in_text s) in
    let escape = read_quoted escaped s in
    if c == 34 then some ([], s) else if c == b'\\' then escape else more
read_quoted escaped (c ∷ s) =
    let more = with_byte (escape_value c) (read_quoted in_text s) in
    let digits = read_quoted first_digit s in if c == b'x' then digits else more
read_quoted first_digit (c ∷ s) = hexdigit c >>= λ h. read_quoted (second_digit h) s
read_quoted (second_digit h) (c ∷ s) =
    hexdigit c >>= λ l. with_byte (h * 16 + l) (read_quoted in_text s)

-- A byte that is written by its digits is read from its digits.
read_hex :
    (c : ℕ) (s : Bytes)
    → c < 256
    → read_quoted first_digit (lower_digit (c / 16 % 16) ∷ lower_digit (c % 16) ∷ s)
      ≡ with_byte c (read_quoted in_text s)
unfolding read_quoted
read_hex c s l =
    let whole : c / 16 % 16 * 16 + c % 16 ≡ c = omega arith in
    rw
      (
        hexdigit-lower_digit (c / 16 % 16) (omega arith),
        hexdigit-lower_digit (c % 16) (omega arith),
      )
      (ap (λ n. with_byte n (read_quoted in_text s)) whole)

-- No control character but DEL, and none that is not of ASCII: what qputs may write as it is.
abbrev pub IsPlain : ℕ → Type 0
IsPlain c = (32 ≤ c) × (c < 128)

-- A byte is escaped by a letter, or is written by its digits, or as it is.
abbrev pub Quotes : ℕ → Bytes → Type 0
Quotes c text =
    ((d : ℕ) × (text ≡ b'\\' ∷ d ∷ []) × IsPlain d × ((d == b'x') ≡ false) × (escape_value d ≡ c))
    ⊎ ((text ≡ b'\\' ∷ b'x' ∷ lower_digit (c / 16 % 16) ∷ lower_digit (c % 16) ∷ [])
        ⊎ ((text ≡ c ∷ []) × IsPlain c × ((c == 34) ≡ false) × ((c == b'\\') ≡ false)))

pub qput-Quotes : (c : ℕ) → Quotes c (qput c)
unfolding qput
qput-Quotes c = elim (Bool-cases (c == 34)) [
  | inl e ↦ rw e (inl (34, refl, omega arith, refl, sym ((==_iff c 34).0 e)))
  | inr e1 ↦ elim (Bool-cases (c == b'\\')) [
    | inl e ↦ rw (e1, e) (inl (b'\\', refl, omega arith, refl, sym ((==_iff c b'\\').0 e)))
    | inr e2 ↦ elim (Bool-cases (c == 10)) [
      | inl e ↦ rw (e1, e2, e) (inl (b'n', refl, omega arith, refl, sym ((==_iff c 10).0 e)))
      | inr e3 ↦ elim (Bool-cases (c == 9)) [
        | inl e ↦ rw (e1, e2, e3, e) (inl (b't', refl, omega arith, refl, sym ((==_iff c 9).0 e)))
        | inr e4 ↦ elim (Bool-cases (ltb c 32 || leb 128 c)) [
          | inl e ↦ rw (e1, e2, e3, e4, e) (inr (inl refl))
          | inr e ↦ rw (e1, e2, e3, e4, e) (inr (inr (refl, ground arith, refl, refl)))
        ]
      ]
    ]
  ]
]

read_quoted-Quotes :
    (c : ℕ) (text s : Bytes)
    → c < 256
    → Quotes c text
    → read_quoted in_text (text ++ s) ≡ with_byte c (read_quoted in_text s)
unfolding read_quoted
read_quoted-Quotes c text s l (inl (d, e, _, x, v)) =
    rw (e, x) (ap (λ n. with_byte n (read_quoted in_text s)) v)
read_quoted-Quotes c text s l (inr (inl e)) = rw e (read_hex c s l)
read_quoted-Quotes c text s l (inr (inr (e, _, q, b))) = rw (e, q, b) refl

-- Whatever the text holds but the NUL that ends it, what qputs writes between quotation marks is
-- read back as that text, up to the quotation mark that ends it and not beyond.
pub read_quoted-qputs :
    (s rest : Bytes)
    → All IsByte s
    → IsCstr s
    → read_quoted in_text (qputs s ++ 34 ∷ rest) ≡ some (s, rest)
unfolding qputs
read_quoted-qputs [] rest a b = unfold read_quoted in refl
read_quoted-qputs (c ∷ s) rest (l, a) (p, b) =
    let some_byte : (c == 0) ≡ false = ground arith in
    rw (some_byte, append_assoc (qput c) (qputs s) (34 ∷ rest))
      (read_quoted-Quotes c (qput c) (qputs s ++ 34 ∷ rest) l (qput-Quotes c)
        ∙ ap (with_byte c) (read_quoted-qputs s rest a b))
